-- ===== src/Integration/Guards/Safety.antt =====
-- integration/guards.py: what the corrected decision never does.
use bfsi_voice_agent.Prelude.{
  ◌≡◌, ◌⊎◌, inl, inr, refl, Bool, true, false, some, [], ◌∷◌, arith, Text, is_some, Bool-cases, ◌∙◌,
}
use bfsi_voice_agent.Integration.RouterSchema.{
  privacy_sensitive, identity_verification, ToolName, get_customer_account, RouterDecision, flag,
}
use bfsi_voice_agent.Integration.Guards.{
  correct, apply_deterministic_guards, is_policy, is_unsafe, is_mistakable, guard_privacy,
  guard_policy, guard_unsafe, guard_tool,
}
use bfsi_voice_agent.Integration.Guards.Stages.{
  Toolless, Consistent, guard_privacy-third, guard_policy-PolicyToolless, guard_policy-intent,
  guard_unsafe-intent, guard_unsafe-UnsafeToolless, guard_tool-intent, guard_tool-Consistent,
  guard_account-Consistent, guard_account-Toolless, guard_policy-stable, guard_unsafe-stable,
  guard_tool-stable, guard_account-own, guard_privacy-settled, guard_privacy-stable_third,
  guard_privacy-stable_own,
}
use bfsi_voice_agent.Integration.Guards.Patterns.{
  looks_like_own_identity_question, looks_like_third_party_private_request,
}

module _ (third own : Bool) (d : RouterDecision) where
  -- The decision after the first four corrections.
  abbrev before_account : RouterDecision
  before_account = (guard_tool (guard_unsafe (guard_policy (guard_privacy third own d).0).0).0).0

  before_account-intent : before_account.intent ≡ (guard_privacy third own d).0.intent
  before_account-intent =
      let d₁ = (guard_privacy third own d).0 in
      let d₂ = (guard_policy d₁).0 in
      guard_tool-intent (guard_unsafe d₂).0 ∙ (guard_unsafe-intent d₂ ∙ guard_policy-intent d₁)

  before_account-Consistent : Consistent before_account
  before_account-Consistent =
      let d₁ = (guard_privacy third own d).0 in
      let d₂ = (guard_policy d₁).0 in
      let (policy, unsafe) = guard_unsafe-UnsafeToolless d₂ (guard_policy-PolicyToolless d₁) in
      guard_tool-Consistent (guard_unsafe d₂).0 policy unsafe

  correct-Consistent : Consistent (correct third own d).0
  unfolding correct
  correct-Consistent = guard_account-Consistent third before_account before_account-Consistent

correct-third :
    (own : Bool) (d : RouterDecision)
    → ((correct true own d).0.intent ≡ privacy_sensitive) × Toolless (correct true own d).0
unfolding correct
correct-third own d =
    let d₄ = before_account true own d in
    let private_ : d₄.intent ≡ privacy_sensitive =
      before_account-intent true own d ∙ guard_privacy-third own d in
    let toolless : Toolless d₄ = (before_account-Consistent true own d).2 (rw private_ refl) in
    rw (guard_account-Toolless true d₄ toolless.1) (private_, toolless)

correct-settled :
    (own : Bool) (d : RouterDecision)
    → own ≡ true
    → is_mistakable (correct false own d).0.intent ≡ false
unfolding correct
correct-settled own d h =
    rw (guard_account-own (before_account false own d), before_account-intent false own d)
      (guard_privacy-settled own d h)

-- A decision that is consistent is left alone, if the first correction leaves it alone.
correct-stable :
    (third own : Bool) (d : RouterDecision)
    → guard_privacy third own d ≡ (d, [])
    → Consistent d
    → (third ≡ true → Toolless d)
    → correct third own d ≡ (d, [])
unfolding correct
correct-stable third own d same (flag_, policy, unsafe) h =
    rw (same, guard_policy-stable d policy, guard_unsafe-stable d unsafe, guard_tool-stable d flag_)
      (elim (Bool-cases third) [
        | inl e ↦ rw (guard_account-Toolless third d (h e).1) refl
        | inr e ↦ rw (e, guard_account-own d) refl
      ])

correct_stable :
    (third own : Bool) (d : RouterDecision)
    → correct third own (correct third own d).0 ≡ ((correct third own d).0, [])
correct_stable true own d =
    let d' = (correct true own d).0 in
    let (private_, toolless) = correct-third own d in
    correct-stable true own d' (guard_privacy-stable_third own d' private_ toolless)
      (correct-Consistent true own d) (λ e. toolless)
correct_stable false own d =
    let d' = (correct false own d).0 in
    correct-stable false own d' (guard_privacy-stable_own own d' (correct-settled own d))
      (correct-Consistent false own d) (λ e. absurd (ground arith))

-- Another person's account stays private: when the text asks for private facts of a third party,
-- then whatever the model decided, the corrected decision is a privacy refusal with no tool, no
-- arguments and no flag to run one.
pub third_party-Toolless :
    (text : Text) (d : RouterDecision)
    → looks_like_third_party_private_request text ≡ true
    → let d' = (apply_deterministic_guards text d).0 in
      (d'.intent ≡ privacy_sensitive) × Toolless d'
unfolding apply_deterministic_guards
third_party-Toolless text d h = rw h (correct-third (looks_like_own_identity_question text) d)

-- Whatever the text and the model's decision: the corrected decision asks for a tool exactly when it
-- names one; a policy question uses the retrieval and no tool; and a privacy or injection intent
-- has no tool.
pub guarded_consistent :
    (text : Text) (d : RouterDecision)
    → let d' = (apply_deterministic_guards text d).0 in
      (d'.requires_tool ≡ is_some d'.tool)
      × (is_policy d'.intent ≡ true → (d'.requires_rag ≡ true) × Toolless d')
      × (is_unsafe d'.intent ≡ true → Toolless d')
unfolding apply_deterministic_guards
guarded_consistent text d =
    correct-Consistent (looks_like_third_party_private_request text)
      (looks_like_own_identity_question text) d

-- The guards invent no tool: one that the corrected decision names was named by the model, with the
-- same arguments and the flag to run it, or it is the identity check that an identity question
-- about the own account, which is no third party's, leads to.
pub tool_not_invented :
    (text : Text) (d : RouterDecision) (t : ToolName)
    → (apply_deterministic_guards text d).0.tool ≡ some t
    → let d' = (apply_deterministic_guards text d).0 in
      ((d.tool ≡ some t)
        × (d.requires_tool ≡ true)
        × (d'.arguments ≡ d.arguments)
        × (d'.intent ≡ d.intent))
      ⊎ ((looks_like_own_identity_question text ≡ true)
          × (looks_like_third_party_private_request text ≡ false)
          × (is_mistakable d.intent ≡ true)
          × (t ≡ get_customer_account)
          × (d'.intent ≡ identity_verification)
          × (d'.arguments ≡ ("verification_required", flag true) ∷ []))
unfolding apply_deterministic_guards correct
tool_not_invented text d t h = ground arith

-- The guards are stable: applied to a decision they have corrected, with the same text, they change
-- nothing and log nothing.
pub apply_deterministic_guards_stable :
    (text : Text) (d : RouterDecision)
    → let d' = (apply_deterministic_guards text d).0 in
      apply_deterministic_guards text d' ≡ (d', [])
unfolding apply_deterministic_guards
apply_deterministic_guards_stable text d =
    correct_stable (looks_like_third_party_private_request text)
      (looks_like_own_identity_question text) d
