-- ===== src/Rag/SelfCorrecting/Active/Tests.antt =====
-- rag/self_correcting.py: the evidence of the final answer at concrete inputs.
use bfsi_voice_agent.Prelude.{
  List, false, inl, inr, ℕ, String, ◌≡◌, refl, some, none, [], ◌∷◌, codes,
}
use bfsi_voice_agent.Rag.ConflictDetector.{DocumentStatus, active, superseded}
use bfsi_voice_agent.Rag.SelfCorrecting.Evidence.{RetrievedChunk}
use bfsi_voice_agent.Rag.SelfCorrecting.Current.{prefer_active_current}
use bfsi_voice_agent.Rag.SelfCorrecting.Active.{
  is_superseded_chunk, family_key, document_key, title_key, prefer_active_policy_versions,
}

abbrev piece : String → String → String → ℕ → DocumentStatus → RetrievedChunk
piece id document title date status = record {
  chunk = record {
    chunk_id = id;
    document_id = document;
    title = codes title;
    text = codes "Seven days.";
    version = none;
    effective_date = some date;
    status = status;
    domain = none;
  };
  score = 500000;
}

abbrev old_policy : RetrievedChunk
old_policy = piece "c1" "grace_v1" "" 100 superseded

abbrev first_policy : RetrievedChunk
first_policy = piece "c2" "grace-version2" " " 200 active

abbrev second_policy : RetrievedChunk
second_policy = piece "c3" "Grace_V3" "" 300 active

abbrev other : RetrievedChunk
other = piece "c4" "faq" "Late  Fees" 50 superseded

family : family_key old_policy ≡ document_key (codes "grace")
unfolding family_key
family = refl

titled : family_key other ≡ title_key (codes "late fees")
unfolding family_key
titled = refl

narrowed_to_newest :
    prefer_active_policy_versions
      (codes "how many days")
      (old_policy ∷ first_policy ∷ other ∷ second_policy ∷ [])
    ≡ other ∷ second_policy ∷ []
unfolding prefer_active_policy_versions
narrowed_to_newest = refl

historical_question :
    prefer_active_policy_versions (codes "the  Previous rule") (old_policy ∷ first_policy ∷ [])
    ≡ old_policy ∷ first_policy ∷ []
unfolding prefer_active_policy_versions
historical_question = refl

abbrev evidence : List RetrievedChunk
evidence = old_policy ∷ first_policy ∷ other ∷ second_policy ∷ []

prefer_active_current_example : is_superseded_chunk second_policy ≡ false
unfolding prefer_active_policy_versions
prefer_active_current_example =
    prefer_active_current (codes "how many days") evidence second_policy first_policy refl
      ((refl, (refl, (refl, tt))), ((refl, (refl, tt)), ((refl, tt), (tt, tt)))) (inr (inl refl))
      (inr (inl refl)) refl refl
