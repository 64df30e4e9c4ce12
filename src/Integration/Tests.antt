-- ===== src/Integration/Tests.antt =====
-- integration/guards.py at concrete inputs.
use bfsi_voice_agent.Prelude.{◌≡◌, refl, true, false, some, [], ◌∷◌, codes, is_some, Text}
use bfsi_voice_agent.Integration.RouterSchema.{
  RouterDecision, account_status, privacy_sensitive, get_outstanding_balance, supportive, words,
}
use bfsi_voice_agent.Integration.Guards.{apply_deterministic_guards, is_policy, is_unsafe}
use bfsi_voice_agent.Integration.Guards.Patterns.{
  looks_like_own_identity_question, looks_like_third_party_private_request,
}
use bfsi_voice_agent.Integration.Guards.Stages.{Toolless}
use bfsi_voice_agent.Integration.Guards.Safety.{third_party-Toolless, guarded_consistent}

abbrev balance : RouterDecision
balance = record {
  intent = account_status;
  confidence = 900000;
  requires_rag = false;
  requires_tool = true;
  tool = some get_outstanding_balance;
  arguments = ("customer_id", words (codes "c1")) ∷ [];
  response_style = supportive;
  needs_clarification = false;
  response = codes "Let me check.";
}

abbrev mothers : Text
mothers = codes "What is My  Mother's balance?"

abbrev verify : Text
verify = codes "Before I see my account, is verification needed?"

-- The readings of some texts; "owe" is found inside "however".
readings :
    (looks_like_third_party_private_request mothers ≡ true)
    × (looks_like_own_identity_question mothers ≡ false)
    × (looks_like_own_identity_question verify ≡ true)
    × (looks_like_own_identity_question (codes "please verify messages") ≡ false)
    × (looks_like_own_identity_question (codes "please VERIFY  me") ≡ true)
    × (looks_like_third_party_private_request (codes "however my friend called") ≡ true)
unfolding looks_like_third_party_private_request looks_like_own_identity_question
readings = (refl, refl, refl, refl, refl, refl)

third_party-Toolless_example :
    let d' = (apply_deterministic_guards mothers balance).0 in
    (d'.intent ≡ privacy_sensitive) × Toolless d'
unfolding looks_like_third_party_private_request
third_party-Toolless_example = third_party-Toolless mothers balance refl

guarded_consistent_example :
    let d' = (apply_deterministic_guards verify balance).0 in
    (d'.requires_tool ≡ is_some d'.tool)
    × (is_policy d'.intent ≡ true → (d'.requires_rag ≡ true) × Toolless d')
    × (is_unsafe d'.intent ≡ true → Toolless d')
guarded_consistent_example = guarded_consistent verify balance
