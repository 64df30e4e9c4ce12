-- ===== src/Rag/StateMachine.antt =====
-- rag/state_machine.py: the states of the pipeline and the moves between them.
use bfsi_voice_agent.Prelude.{
  ◌≡◌, refl, Bool, true, false, List, [], ◌∷◌, arith, ◌⊎◌, inl, inr, subst,
}

pub data EvidenceVerdict : Type 0 where
  sufficient low_relevance insufficient conflict ambiguous out_of_scope : EvidenceVerdict

pub data PipelineState : Type 0 where
  start analyze_query retrieve evaluate_evidence rewrite_query decompose_query : PipelineState
  resolve_conflict generate_answer ask_clarification abstain complete : PipelineState

-- `t in TRANSITIONS[s]`; COMPLETE has no entry.
unfoldable pub allowed : PipelineState → PipelineState → Bool
allowed start t = elim t [ analyze_query ↦ true | _ ↦ false ]
allowed analyze_query t = elim t [
  | retrieve ↦ true
  | ask_clarification ↦ true
  | abstain ↦ true
  | _ ↦ false
]
allowed retrieve t = elim t [ evaluate_evidence ↦ true | _ ↦ false ]
allowed evaluate_evidence t = elim t [
  | generate_answer ↦ true
  | rewrite_query ↦ true
  | decompose_query ↦ true
  | resolve_conflict ↦ true
  | ask_clarification ↦ true
  | abstain ↦ true
  | _ ↦ false
]
allowed rewrite_query t = elim t [ retrieve ↦ true | _ ↦ false ]
allowed decompose_query t = elim t [ retrieve ↦ true | _ ↦ false ]
allowed resolve_conflict t = elim t [
  | generate_answer ↦ true
  | ask_clarification ↦ true
  | abstain ↦ true
  | _ ↦ false
]
allowed generate_answer t = elim t [ complete ↦ true | _ ↦ false ]
allowed ask_clarification t = elim t [ complete ↦ true | _ ↦ false ]
allowed abstain t = elim t [ complete ↦ true | _ ↦ false ]
allowed complete t = false

unfoldable pub next_state_for_verdict : EvidenceVerdict → PipelineState
next_state_for_verdict sufficient = generate_answer
next_state_for_verdict low_relevance = rewrite_query
next_state_for_verdict insufficient = decompose_query
next_state_for_verdict conflict = resolve_conflict
next_state_for_verdict ambiguous = ask_clarification
next_state_for_verdict out_of_scope = abstain

-- A run of the pipeline from one state to another, with the states that it left.
pub data Run : PipelineState → PipelineState → List PipelineState → Type 0 where
  here : (s : PipelineState) → Run s s []
  move :
      (s t u : PipelineState) (visited : List PipelineState)
      → allowed s t ≡ true
      → Run t u visited
      → Run s u (s ∷ visited)

abbrev pub Visits : PipelineState → List PipelineState → Type 0
Visits s [] = ⊥
Visits s (t ∷ ts) = (s ≡ t) ⊎ Visits s ts

-- The state that each verdict leads to is one that the table of transitions allows after the
-- evaluation, and from it the pipeline can go on, so no verdict gets the pipeline stuck.
next_state-allowed :
    (v : EvidenceVerdict)
    → (allowed evaluate_evidence (next_state_for_verdict v) ≡ true)
      × ((t : PipelineState) × (allowed (next_state_for_verdict v) t ≡ true))
unfolding allowed next_state_for_verdict
next_state-allowed sufficient = (refl, (complete, refl))
next_state-allowed low_relevance = (refl, (retrieve, refl))
next_state-allowed insufficient = (refl, (retrieve, refl))
next_state-allowed conflict = (refl, (generate_answer, refl))
next_state-allowed ambiguous = (refl, (complete, refl))
next_state-allowed out_of_scope = (refl, (complete, refl))

-- The states from which an answer still needs an evaluation.
abbrev unevaluated : PipelineState → Bool
unevaluated s = elim s [
  | start ↦ true
  | analyze_query ↦ true
  | retrieve ↦ true
  | rewrite_query ↦ true
  | decompose_query ↦ true
  | _ ↦ false
]

-- The states from which no answer comes any more.
abbrev given_up : PipelineState → Bool
given_up s = elim s [ ask_clarification ↦ true | abstain ↦ true | complete ↦ true | _ ↦ false ]

given_up-allowed :
    (s t : PipelineState) → given_up s ≡ true → allowed s t ≡ true → given_up t ≡ true
unfolding allowed
given_up-allowed s t h a = ground arith

given_up-Run :
    (s u : PipelineState) (visited : List PipelineState)
    → given_up s ≡ true
    → Run s u visited
    → given_up u ≡ true
given_up-Run _ _ _ h (here s) = h
given_up-Run _ _ _ h (move s t u rest a r) = given_up-Run t u rest (given_up-allowed s t h a) r

unevaluated-allowed :
    (s t : PipelineState)
    → unevaluated s ≡ true
    → allowed s t ≡ true
    → (t ≡ evaluate_evidence) ⊎ ((unevaluated t ≡ true) ⊎ (given_up t ≡ true))
unfolding allowed
unevaluated-allowed s t h a = ground arith

leaves_evaluation :
    (u : PipelineState) (visited : List PipelineState)
    → u ≡ generate_answer
    → Run evaluate_evidence u visited
    → Visits evaluate_evidence visited
leaves_evaluation _ _ e (here s) = absurd (ground arith)
leaves_evaluation _ _ e (move s t u rest a r) = inl refl

evaluated_from :
    (s u : PipelineState) (visited : List PipelineState)
    → unevaluated s ≡ true
    → u ≡ generate_answer
    → Run s u visited
    → Visits evaluate_evidence visited
evaluated_from _ _ _ h e (here s) = absurd (ground arith)
evaluated_from _ _ _ h e (move s t u rest a r) = elim (unevaluated-allowed s t h a) [
  | inl same ↦ inr (leaves_evaluation u rest e (subst (λ x. Run x u rest) same r))
  | inr (inl before) ↦ inr (evaluated_from t u rest before e r)
  | inr (inr over) ↦ let gone = given_up-Run t u rest over r in absurd (ground arith)
]

-- No answer is generated on evidence that was not evaluated: every run that the table of transitions
-- allows from the start to the answer has left the evaluation.
pub answer_evaluated :
    (visited : List PipelineState)
    → Run start generate_answer visited
    → Visits evaluate_evidence visited
answer_evaluated visited r = evaluated_from start generate_answer visited refl refl r
