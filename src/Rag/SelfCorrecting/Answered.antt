-- ===== src/Rag/SelfCorrecting/Answered.antt =====
-- rag/self_correcting.py: what an answer rests on.
use bfsi_voice_agent.Prelude.{
  All, All-self, In, String, ℕ, ◌≤◌, ◌≡◌, ◌⊎◌, inl, inr, refl, ap, Bool, true, false, Option, none,
  some, List, [], ◌∷◌, if◌then◌else◌, length, Text, arith,
}
use bfsi_voice_agent.Rag.StateMachine.{
  EvidenceVerdict, sufficient, conflict, PipelineState, start, analyze_query, evaluate_evidence,
  rewrite_query, generate_answer, complete, allowed,
}
use bfsi_voice_agent.Rag.StateMachine as Machine
use bfsi_voice_agent.Rag.ConflictDetector.{CorrectionAction, ConflictAnalysis}
use bfsi_voice_agent.Rag.SelfCorrecting.{
  or_abstain, low_as_insufficient, RetrievedChunk, answered, abstained, answer,
}
use bfsi_voice_agent.Rag.SelfCorrecting.Types.{
  EvidenceEvaluation, RagConfig, Parts, Progress, RagResult, is_sufficient, is_conflict,
  is_resolved,
}
use bfsi_voice_agent.Rag.SelfCorrecting.Evidence.{or_else_chunks}
use bfsi_voice_agent.Rag.SelfCorrecting.Active.{prefer_active_policy_versions}
use bfsi_voice_agent.Rag.SelfCorrecting.Used.{
  All-or_else_chunks, All-relevant_chunks, All-prefer_active_policy_versions,
}
use bfsi_voice_agent.Rag.SelfCorrecting.Loop.{relevant_of, evaluation_of, evaluated, at_start}
use bfsi_voice_agent.Rag.SelfCorrecting.Rule.{
  AtEnds, judged, gathered_at, seen_at, correct_itself-rule, finish-rule, answer-rule, loop_end,
}

both : (v : EvidenceVerdict) → is_conflict v ≡ true → is_sufficient v ≡ false
both sufficient h = cc
both Machine.low_relevance h = refl
both Machine.insufficient h = refl
both conflict h = refl
both Machine.ambiguous h = refl
both Machine.out_of_scope h = refl

-- An evaluation that stays sufficient was sufficient.
checked-sufficient :
    (b : Bool) (e : EvidenceEvaluation)
    → is_sufficient (if b then record e { verdict = conflict } else e).verdict ≡ true
    → is_sufficient e.verdict ≡ true
checked-sufficient true e h = cc
checked-sufficient false e h = h

final_sufficient : Option EvidenceEvaluation → Bool
final_sufficient none = false
final_sufficient (some e) = is_sufficient e.verdict

clash :
    {A : Type 0} (x e : EvidenceEvaluation)
    → some x ≡ some e
    → is_sufficient x.verdict ≡ false
    → is_sufficient e.verdict ≡ true
    → A
unfolding final_sufficient
clash x e same bad well =
    let again : is_sufficient x.verdict ≡ is_sufficient e.verdict = ap final_sufficient same in
    absurd (ground (arith, again, bad, well))

or_abstain_lem : (actions : List CorrectionAction) → 1 ≤ length (or_abstain actions)
or_abstain_lem [] = omega arith
or_abstain_lem (a ∷ rest) = omega arith

low_stays :
    (v : EvidenceVerdict) → is_sufficient v ≡ false → is_sufficient (low_as_insufficient v) ≡ false
low_stays sufficient h = cc
low_stays Machine.low_relevance h = refl
low_stays Machine.insufficient h = refl
low_stays conflict h = refl
low_stays Machine.ambiguous h = refl
low_stays Machine.out_of_scope h = refl

-- A conflict that was resolved.
abbrev pub Resolved : Option ConflictAnalysis → Type 0
Resolved o = (c : ConflictAnalysis) × (o ≡ some c) × (is_resolved c.resolution_status ≡ true)

-- What an answer from this evidence needs.
abbrev pub Supported : Parts → Text → List RetrievedChunk → Option ConflictAnalysis → Type 0
Supported parts question chunks conflicts =
    let verdict = (parts.evaluate question (parts.analyze question) chunks).verdict in
    (is_sufficient verdict ≡ true) ⊎ ((is_conflict verdict ≡ true) × Resolved conflicts)

-- An evaluation that ends with a conflict was one, or was sufficient before its conflicts were seen.
checked-conflict :
    (b : Bool) (e : EvidenceEvaluation)
    → (b ≡ true → is_sufficient e.verdict ≡ true)
    → is_conflict (if b then record e { verdict = conflict } else e).verdict ≡ true
    → (is_sufficient e.verdict ≡ true) ⊎ (is_conflict e.verdict ≡ true)
checked-conflict true e f h = inl (f refl)
checked-conflict false e f h = inr h

conflict_support :
    (parts : Parts) (question : Text) (chunks : List RetrievedChunk) (c : ConflictAnalysis)
    → let verdict = (parts.evaluate question (parts.analyze question) chunks).verdict in
      (is_sufficient verdict ≡ true) ⊎ (is_conflict verdict ≡ true)
      → is_resolved c.resolution_status ≡ true
      → Supported parts question chunks (some c)
conflict_support parts question chunks c (inl well) h = inl well
conflict_support parts question chunks c (inr bad) h = inr (bad, (c, refl, h))

-- What the generator gives for some of the evidence.
abbrev pub Generated : Parts → Text → RagResult → Type 0
Generated parts question r =
    (cs : List RetrievedChunk) × (d : Option String) × All (λ c. In c r.retrieved_chunks) cs
    × (r.answer ≡ (parts.generate question cs d).0)
    × (r.citations ≡ (parts.generate question cs d).1)

answered-Generated :
    (parts : Parts) (question : Text) (e : EvidenceEvaluation) (p : Progress)
    → All (λ c. In c p.accumulated_chunks) p.final_generation_chunks
    → Generated parts question (answered parts question e p)
unfolding answered
answered-Generated parts question e p h =
    let own = λ (c : RetrievedChunk). In c p.accumulated_chunks in
    let chunks = or_else_chunks p.final_generation_chunks p.accumulated_chunks in
    (
      prefer_active_policy_versions question chunks,
      p.preferred_doc,
      All-prefer_active_policy_versions own question chunks (
          All-or_else_chunks own p.final_generation_chunks p.accumulated_chunks h
            (All-self p.accumulated_chunks)),
      refl,
      refl,
    )

module _ (parts : Parts) (config : RagConfig) (question : Text) where
  abbrev Backed : Progress → Type 0
  Backed p =
      ((e : EvidenceEvaluation)
        → p.final_eval ≡ some e
        → is_sufficient e.verdict ≡ true
        → Supported parts question p.accumulated_chunks p.conflict_analysis)
      × All (λ c. In c p.accumulated_chunks) p.final_generation_chunks

  relevant-own :
      (i : ℕ) (p : Progress)
      → let analysis = parts.analyze question in
        let g = gathered_at parts config question analysis i p in
        All (λ c. In c g.accumulated_chunks) (relevant_of parts config question analysis g)
  relevant-own i p =
      let analysis = parts.analyze question in
      let g = gathered_at parts config question analysis i p in
      All-relevant_chunks (λ c. In c g.accumulated_chunks) g.accumulated_chunks
        (evaluation_of parts config question analysis g).supported_document_ids
        (All-self g.accumulated_chunks)

  ends-Backed :
      (i : ℕ) (p : Progress)
      → i ≡ i
      → let analysis = parts.analyze question in
        AtEnds parts config question analysis Backed i
          (judged parts config question analysis (gathered_at parts config question analysis i p))
          (seen_at parts config question analysis i p)
  unfolding evaluated
  ends-Backed i p h =
      let own = relevant-own i p in
      let chunks =
        (gathered_at parts config question (parts.analyze question) i p).accumulated_chunks in
      (
        λ well. (λ e same k. inl (checked-sufficient _ _ well), own),
        λ a b. (
          λ e same k.
              conflict_support parts question chunks _ (checked-conflict _ _ (λ h. ground arith) a)
                b,
          own,
        ),
        λ a. (λ e same k. clash _ e same (both _ a) k, own),
        λ bad b. (λ e same k. clash _ e same bad k, own),
      )

  loop-Backed : 1 ≤ config.max_retrieval_iterations → Backed (loop_end parts config question)
  loop-Backed some_ =
      let analysis = parts.analyze question in
      correct_itself-rule parts config question analysis (λ i p. i ≡ i) Backed ends-Backed
        (λ i p h more. refl) config.max_retrieval_iterations 1
        (at_start parts config question analysis) refl (ground (arith, some_)) refl

-- An answer is given only from evidence that supports it: with a bound of at least one iteration, a
-- result that is answerable has the verdict SUFFICIENT, the answer and the citations that the generator
-- gives for some of the chunks that the result lists, and the evaluator finds the
-- chunks that the result lists sufficient for the question, or in a conflict that was resolved; a result
-- that is not answerable has no answer, no citation and another verdict, and names a correction.
pub answer-Supported :
    (parts : Parts) (config : RagConfig) (question : Text)
    → 1 ≤ config.max_retrieval_iterations
    → let r = answer parts config question in
      (r.answerable ≡ true
        → (r.verdict ≡ sufficient)
          × Generated parts question r
          × Supported parts question r.retrieved_chunks r.conflict_resolution)
      × (r.answerable ≡ false
          → (r.answer ≡ none)
            × (r.citations ≡ [])
            × (is_sufficient r.verdict ≡ false)
            × (1 ≤ length r.correction_actions))
unfolding answered abstained
answer-Supported parts config question some_ =
    let P : RagResult → Type 0 = λ r.
      (r.answerable ≡ true
        → (r.verdict ≡ sufficient)
          × Generated parts question r
          × Supported parts question r.retrieved_chunks r.conflict_resolution)
      × (r.answerable ≡ false
          → (r.answer ≡ none)
            × (r.citations ≡ [])
            × (is_sufficient r.verdict ≡ false)
            × (1 ≤ length r.correction_actions)) in
    let p = loop_end parts config question in
    let backed = loop-Backed parts config question some_ in
    answer-rule parts config question P
      (λ v a c b e. (
        (λ h. cc, λ h. (refl, refl, e, omega arith)),
        (λ h. cc, λ h. (refl, refl, e, omega arith)),
      ))
      (finish-rule parts question P p p.final_eval
        (λ e same k.
          (λ h. (refl, answered-Generated parts question e p backed.1, backed.0 e same k), λ h. cc))
        (λ h. cc, λ h. (refl, refl, refl, or_abstain_lem p.correction_actions))
        (λ e k.
          (λ h. cc, λ h. (refl, refl, low_stays e.verdict k, or_abstain_lem p.correction_actions))))
