-- ===== src/Rag/SelfCorrecting/Rule.antt =====
-- rag/self_correcting.py: the ends of the correction loop, and a rule for what it keeps.
use bfsi_voice_agent.Prelude.{
  two_ways, ℕ, zero, suc, ◌+◌, ◌≡◌, refl, Bool, true, false, Option, none, some, [], ◌∷◌,
  if◌then◌else◌, leb, Text, codes, arith,
}
use bfsi_voice_agent.Rag.StateMachine.{EvidenceVerdict, sufficient}
use bfsi_voice_agent.Rag.StateMachine as Machine
use bfsi_voice_agent.Rag.SelfCorrecting.{
  early, answered, abstained, finish, is_out_of_scope, answer,
}
use bfsi_voice_agent.Rag.ConflictDetector.{
  CorrectionAction, no_action, conflict_resolution, ConflictAnalysis,
}
use bfsi_voice_agent.Rag.ConflictDetector as Detector
use bfsi_voice_agent.Rag.SelfCorrecting.Types.{
  QueryAnalysis, EvidenceEvaluation, RagConfig, Parts, Progress, RagResult, is_sufficient,
  is_conflict, is_resolved,
}
use bfsi_voice_agent.Rag.SelfCorrecting.Loop.{
  trace_of, traced, gathered, evaluation_of, relevant_of, conflicts_in, looks_for_conflict, checked,
  evaluated, corrected, decide, correct_itself, at_start,
}

four_ways :
    {X : Type 0} (P : X → Type 0) (a b c : Bool) {w x y z : X}
    → (a ≡ true → P w)
    → (b ≡ true → P x)
    → (a ≡ false → c ≡ true → P y)
    → (c ≡ false → P z)
    → P (if a then w else if b then x else if c then y else z)
four_ways P true b c hw hx hy hz = hw refl
four_ways P false true c hw hx hy hz = hx refl
four_ways P false false true hw hx hy hz = hy refl refl
four_ways P false false false hw hx hy hz = hz refl

module _ (parts : Parts) (config : RagConfig) (question : Text) (analysis : QueryAnalysis) where
  abbrev pub conflicts_of : Progress → ConflictAnalysis
  conflicts_of p = conflicts_in parts config question analysis p.final_generation_chunks

  -- What was looked at when a conflict ends the loop.
  abbrev pub with_conflicts : Progress → Progress
  with_conflicts p = record p { conflict_analysis = some (conflicts_of p) }

  -- A predicate at the four ends of the loop in its `i`-th iteration, on the evaluation `e`:
  -- sufficient evidence, a conflict that is resolved, one that is not, and no iteration left.
  abbrev pub AtEnds : (Progress → Type 0) → ℕ → EvidenceEvaluation → Progress → Type 0
  AtEnds Q i e p =
      (is_sufficient e.verdict ≡ true → Q (traced (trace_of i p e.verdict no_action e.reason) [] p))
      × (is_conflict e.verdict ≡ true
          → is_resolved (conflicts_of p).resolution_status ≡ true
          → Q
              (record (traced (trace_of i p e.verdict conflict_resolution e.reason)
                (conflict_resolution ∷ []) (with_conflicts p)) {
                  preferred_doc = (conflicts_of p).preferred_document_id;
                  final_eval = some (record e { verdict = sufficient });
                  final_generation_chunks = p.final_generation_chunks;
                }))
      × (is_conflict e.verdict ≡ true
          → Q (
              traced (trace_of i p e.verdict conflict_resolution e.reason)
                (conflict_resolution ∷ Detector.abstain ∷ []) (with_conflicts p)))
      × (is_sufficient e.verdict ≡ false
          → leb config.max_retrieval_iterations i ≡ true
          → Q (
              traced
                (trace_of i p e.verdict Detector.abstain
                  (codes "Maximum retrieval iterations reached."))
                (Detector.abstain ∷ []) p))

  decide_lem :
      (P : Progress → Type 0) (i : ℕ) (e : EvidenceEvaluation) (p : Progress)
      (next : Progress → Progress)
      → AtEnds P i e p
      → (leb config.max_retrieval_iterations i ≡ false
          → P (next (corrected parts config question analysis i e p)))
      → P (decide parts config question analysis i e p next)
  decide_lem P i e p next (well, settled, open_conflict, exhausted) goes_on =
      four_ways P (is_sufficient e.verdict) (is_conflict e.verdict)
        (leb config.max_retrieval_iterations i) well
        (λ h.
          two_ways P (is_resolved (conflicts_of p).resolution_status) (settled h)
            (λ k. open_conflict h))
        exhausted goes_on

  -- The evaluation that an iteration ends with.
  abbrev pub judged : Progress → EvidenceEvaluation
  judged g =
      let e = evaluation_of parts config question analysis g in
      checked parts config question analysis (looks_for_conflict parts config question analysis e)
        (conflicts_in parts config question analysis (relevant_of parts config question analysis g))
        e

  abbrev pub gathered_at : ℕ → Progress → Progress
  gathered_at i p = gathered parts config question analysis i p

  abbrev pub seen_at : ℕ → Progress → Progress
  seen_at i p = evaluated parts config question analysis (gathered_at i p)

  -- What holds before each iteration holds at the end of the loop, which is reached: the iterations
  -- that are left are as many as the bound allows.
  pub correct_itself-rule :
      (I : ℕ → Progress → Type 0) (Q : Progress → Type 0)
      → ((i : ℕ) (p : Progress) → I i p → AtEnds Q i (judged (gathered_at i p)) (seen_at i p))
      → ((i : ℕ) (p : Progress)
          → I i p
          → leb config.max_retrieval_iterations i ≡ false
          → I
              (i + 1)
              (corrected parts config question analysis i (judged (gathered_at i p)) (seen_at i p)))
      → (n i : ℕ) (p : Progress) → n + i ≡ config.max_retrieval_iterations + 1
      → leb 1 n ≡ true
      → I i p
      → Q (correct_itself parts config question analysis n i p)
  unfolding correct_itself evaluated
  correct_itself-rule I Q ends goes_on zero i p same left h = absurd (ground (arith, left))
  correct_itself-rule I Q ends goes_on (suc n) i p same left h =
      decide_lem Q i (judged (gathered_at i p)) (seen_at i p)
        (λ q. correct_itself parts config question analysis n (i + 1) q) (ends i p h)
        (λ more.
          correct_itself-rule I Q ends goes_on n (i + 1)
            (corrected parts config question analysis i (judged (gathered_at i p)) (seen_at i p))
            (omega (arith, same)) (ground (arith, same, more)) (goes_on i p h more))

pub finish-rule :
    (parts : Parts) (question : Text) (P : RagResult → Type 0) (p : Progress)
    (o : Option EvidenceEvaluation)
    → ((e : EvidenceEvaluation)
        → o ≡ some e
        → is_sufficient e.verdict ≡ true
        → P (answered parts question e p))
    → P (abstained none p)
    → ((e : EvidenceEvaluation) → is_sufficient e.verdict ≡ false → P (abstained (some e) p))
    → P (finish parts question p o)
finish-rule parts question P p none well gone bad = gone
finish-rule parts question P p (some e) well gone bad =
    two_ways P (is_sufficient e.verdict) (well e refl) (bad e)

-- The end of the loop for a question.
abbrev pub loop_end : Parts → RagConfig → Text → Progress
loop_end parts config question =
    let analysis = parts.analyze question in
    correct_itself parts config question analysis config.max_retrieval_iterations 1
      (at_start parts config question analysis)

pub answer-rule :
    (parts : Parts) (config : RagConfig) (question : Text) (P : RagResult → Type 0)
    → ((verdict : EvidenceVerdict) (action : CorrectionAction) (c a : Option Text)
        → is_sufficient verdict ≡ false
        → P (early question (parts.analyze question) verdict action Machine.ask_clarification c a)
          × P (early question (parts.analyze question) verdict action Machine.abstain c a))
    → P (
        finish parts question
          (loop_end parts config question)
          (loop_end parts config question).final_eval)
    → P (answer parts config question)
unfolding answer
answer-rule parts config question P stops ends =
    let analysis = parts.analyze question in
    two_ways P analysis.needs_clarification
      (λ h. (stops Machine.ambiguous Detector.ask_clarification _ none refl).0)
      (λ h.
        two_ways P (is_out_of_scope analysis.query_type)
          (λ k. (stops Machine.out_of_scope Detector.abstain none _ refl).1) (λ k. ends))
