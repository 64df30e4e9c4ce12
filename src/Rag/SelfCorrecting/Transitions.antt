-- ===== src/Rag/SelfCorrecting/Transitions.antt =====
-- rag/self_correcting.py: the transitions that are recorded.
use bfsi_voice_agent.Prelude.{
  ℕ, ◌+◌, ◌≤◌, ◌≡◌, refl, Bool, true, false, List, [], ◌∷◌, ◌++◌, if◌then◌else◌, leb, ◌==◌, Text,
  arith,
}
use bfsi_voice_agent.Rag.StateMachine.{
  EvidenceVerdict, sufficient, conflict, PipelineState, start, analyze_query, evaluate_evidence,
  rewrite_query, generate_answer, complete, allowed,
}
use bfsi_voice_agent.Rag.StateMachine as Machine
use bfsi_voice_agent.Rag.SelfCorrecting.{answered, abstained, answer}
use bfsi_voice_agent.Rag.SelfCorrecting.Types.{QueryAnalysis, RagConfig, Parts, Progress}
use bfsi_voice_agent.Rag.SelfCorrecting.Loop.{
  gathered, evaluated, corrected, correct_itself, at_start,
}
use bfsi_voice_agent.Rag.SelfCorrecting.Rule.{
  judged, gathered_at, seen_at, correct_itself-rule, finish-rule, answer-rule, loop_end,
}

-- The recorded transitions lead from one state to another, each allowed by the table.
abbrev pub Leads : PipelineState → PipelineState → List (PipelineState × PipelineState) → Type 0
Leads s u [] = s ≡ u
Leads s u ((a, b) ∷ rest) = (s ≡ a) × (allowed a b ≡ true) × Leads b u rest

Leads-append :
    (s t u : PipelineState) (moves : List (PipelineState × PipelineState))
    → Leads s t moves
    → allowed t u ≡ true
    → Leads s u (moves ++ ((t, u) ∷ []))
Leads-append s t u [] h a = (h, a, refl)
Leads-append s t u ((x, y) ∷ rest) (same, ok, later) a = (same, ok, Leads-append y t u rest later a)

abbrev state_before : ℕ → PipelineState
state_before i = if i == 1 then analyze_query else rewrite_query

state_before-allowed :
    (b : Bool) → allowed (if b then analyze_query else rewrite_query) Machine.retrieve ≡ true
unfolding allowed
state_before-allowed true = refl
state_before-allowed false = refl

retrieve-allowed : allowed Machine.retrieve evaluate_evidence ≡ true
unfolding allowed
retrieve-allowed = refl

module _ (parts : Parts) (config : RagConfig) (question : Text) (analysis : QueryAnalysis) where
  -- Before the `i`-th iteration.
  abbrev Before : ℕ → Progress → Type 0
  Before i p = (1 ≤ i) × Leads start (state_before i) p.transitions

  abbrev Evaluated : Progress → Type 0
  Evaluated p = Leads start evaluate_evidence p.transitions

  seen-Evaluated :
      (i : ℕ) (p : Progress) → Before i p → Evaluated (seen_at parts config question analysis i p)
  unfolding evaluated gathered
  seen-Evaluated i p (low, path) =
      Leads-append start Machine.retrieve evaluate_evidence
        (p.transitions ++ ((state_before i, Machine.retrieve) ∷ []))
        (Leads-append start (state_before i) Machine.retrieve p.transitions path
          (state_before-allowed (i == 1)))
        retrieve-allowed

  goes-Before :
      (i : ℕ) (p : Progress)
      → Before i p
      → leb config.max_retrieval_iterations i ≡ false
      → Before (i + 1) (
          corrected parts config question analysis i
            (judged parts config question analysis (gathered_at parts config question analysis i p))
            (seen_at parts config question analysis i p))
  unfolding corrected allowed
  goes-Before i p h more =
      let later : ((i + 1) == 1) ≡ false = ground (arith, h.0) in
      (
        omega (arith, h.0),
        rw later (
            Leads-append start evaluate_evidence rewrite_query
              (seen_at parts config question analysis i p).transitions (seen-Evaluated i p h) refl),
      )

  loop-Evaluated :
      1 ≤ config.max_retrieval_iterations
      → Evaluated (
          correct_itself parts config question analysis config.max_retrieval_iterations 1
            (at_start parts config question analysis))
  unfolding allowed
  loop-Evaluated some_ =
      correct_itself-rule parts config question analysis Before Evaluated
        (λ i p h. let e = seen-Evaluated i p h in (λ a. e, λ a b. e, λ a. e, λ a b. e)) goes-Before
        config.max_retrieval_iterations 1 (at_start parts config question analysis) refl
        (ground (arith, some_)) (omega arith, (refl, refl, refl))

-- The states that a result records are a run of the state machine: with a bound of at least one
-- iteration, they lead from the start to the completion, each to the next by a move that the table
-- of transitions allows.
pub answer-Leads :
    (parts : Parts) (config : RagConfig) (question : Text)
    → 1 ≤ config.max_retrieval_iterations
    → Leads start complete (answer parts config question).state_transitions
unfolding answered abstained allowed
answer-Leads parts config question some_ =
    let p = loop_end parts config question in
    let path = loop-Evaluated parts config question (parts.analyze question) some_ in
    let on = λ (t : PipelineState) (a : allowed evaluate_evidence t ≡ true).
      Leads-append start evaluate_evidence t p.transitions path a in
    let gone =
      Leads-append start Machine.abstain complete
        (p.transitions ++ ((evaluate_evidence, Machine.abstain) ∷ [])) (on Machine.abstain refl)
        refl in
    answer-rule parts config question (λ r. Leads start complete r.state_transitions)
      (λ v a c b e. (
        (refl, refl, (refl, refl, (refl, refl, refl))),
        (refl, refl, (refl, refl, (refl, refl, refl))),
      ))
      (finish-rule parts question (λ r. Leads start complete r.state_transitions) p p.final_eval
        (λ e h k.
          Leads-append start generate_answer complete
            (p.transitions ++ ((evaluate_evidence, generate_answer) ∷ [])) (on generate_answer refl)
            refl)
        gone (λ e h. gone))
