-- ===== src/Rag/Tests.antt =====
-- rag/state_machine.py and rag/conflict_detector.py at concrete inputs.
use bfsi_voice_agent.Prelude.{
  ℕ, ◌≤◌, String, ◌≡◌, refl, true, none, some, List, [], ◌∷◌, Text, codes, In,
}
use bfsi_voice_agent.Rag.StateMachine.{
  PipelineState, start, analyze_query, retrieve, evaluate_evidence, generate_answer, allowed, Run,
  here, move,
}
use bfsi_voice_agent.Rag.ConflictDetector.Patterns.{grace_period_days, callback_hours, find_claim}
use bfsi_voice_agent.Rag.ConflictDetector.{
  Chunk, ConflictItem, DocumentStatus, active, superseded, unresolved, detect, is_active, date_of,
}
use bfsi_voice_agent.Rag.ConflictDetector.Preferred.{detect_prefers_latest}

abbrev direct : List PipelineState
direct = start ∷ analyze_query ∷ retrieve ∷ evaluate_evidence ∷ []

direct-Run : Run start generate_answer direct
unfolding allowed
direct-Run =
    move start analyze_query generate_answer (analyze_query ∷ retrieve ∷ evaluate_evidence ∷ [])
      refl
      (move analyze_query retrieve generate_answer (retrieve ∷ evaluate_evidence ∷ []) refl (
        move retrieve evaluate_evidence generate_answer (evaluate_evidence ∷ []) refl
          (move evaluate_evidence generate_answer generate_answer [] refl (here generate_answer))))

abbrev chunk : String → Text → DocumentStatus → ℕ → Chunk
chunk document text status date = record {
  chunk_id = "1";
  document_id = document;
  title = codes "Collections";
  text = text;
  version = some 1;
  effective_date = some date;
  status = status;
  domain = none;
}

abbrev grace : List Chunk
grace =
    chunk "old" (codes "The Grace Period is 10 days.") superseded 700
    ∷ chunk "new" (codes "Our grace period of 15 days") active 800
    ∷ []

-- What the patterns find.
claims_found :
    (find_claim grace_period_days (codes "A grace period  7 days") ≡ some (codes "7"))
    × (find_claim grace_period_days (codes "grace period is long, 7 days") ≡ none)
    × (find_claim callback_hours (codes "Callback: within 5h or 48  Hours") ≡ some (codes "48"))
unfolding find_claim
claims_found = (refl, refl, refl)

-- Of one active and one superseded source, the active one; and when the same two sources contradict
-- each other in both claims, neither.
two_claims :
    ((detect grace).preferred_document_id ≡ some "new")
    × ((detect (
          chunk "old" (codes "grace period 10 days, callback in 24 hours") superseded 700
          ∷ chunk "new" (codes "grace period 15 days, callback in 48 hours") active 800
          ∷ [])).resolution_status
        ≡ unresolved)
unfolding detect
two_claims = (refl, refl)

detect_prefers_latest_example :
    let claims = (detect grace).conflicting_claims in
    (x : ConflictItem) × In x claims
    × (is_active x ≡ true)
    × ((detect grace).preferred_document_id ≡ some x.document_id)
    × ((z : ConflictItem) → In z claims → is_active z ≡ true → date_of z ≤ date_of x)
unfolding detect
detect_prefers_latest_example = detect_prefers_latest grace refl
