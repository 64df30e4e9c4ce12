-- ===== src/Rag/SelfCorrecting/Rounds.antt =====
-- rag/self_correcting.py: how often it retrieves.
use bfsi_voice_agent.Prelude.{
  Bool, ℕ, zero, suc, ◌+◌, ◌≤◌, ◌≡◌, ◌⊎◌, inl, inr, ◌||◌, ◌==◌, List, map, if◌then◌else◌,
  Bool-cases, refl, ap, ◌∙◌, Bool, true, false, [], ◌∷◌, ◌++◌, leb, length, length-append, Text,
  arith,
}
use bfsi_voice_agent.Rag.SelfCorrecting.{
  answered, abstained, answer, or_one, finish, is_out_of_scope,
}
use bfsi_voice_agent.Rag.SelfCorrecting.Types.{
  QueryAnalysis, RagConfig, Parts, Progress, RagResult, RetrievalTrace, SearchRequest,
}
use bfsi_voice_agent.Rag.SelfCorrecting.Loop.{
  is_multi_part, search_request, retrieve_for_analysis, retrieved, gathered, evaluated, corrected,
  correct_itself, at_start,
}
use bfsi_voice_agent.Rag.SelfCorrecting.Rule.{
  AtEnds, judged, gathered_at, seen_at, correct_itself-rule, finish-rule, loop_end,
}

or_one_lem : (n : ℕ) → 1 ≤ n → or_one n ≡ n
or_one_lem zero h = absurd (omega (arith, h))
or_one_lem (suc n) h = refl

length-map : {A B : Type 0} (f : A → B) (xs : List A) → length (map f xs) ≡ length xs
length-map f [] = refl
length-map f (x ∷ xs) = ap suc (length-map f xs)

-- How often the first iteration searches: once for each part of a question with several parts.
abbrev pub first_searches : QueryAnalysis → ℕ
first_searches analysis = if is_multi_part analysis then length analysis.subqueries else 1

retrieve_for_analysis-first :
    (parts : Parts) (config : RagConfig) (query : Text) (analysis : QueryAnalysis)
    → length (retrieve_for_analysis parts config query analysis).0.0 ≡ first_searches analysis
unfolding retrieve_for_analysis
retrieve_for_analysis-first parts config query analysis =
    elim (Bool-cases (is_multi_part analysis)) [
      | inl e ↦
          rw e (length-map (λ q. search_request config q (parts.analyze q)) analysis.subqueries)
      | inr e ↦ rw e refl
    ]

module _ (parts : Parts) (config : RagConfig) (question : Text) (analysis : QueryAnalysis) where
  -- The searches that there are before the `i`-th iteration.
  abbrev Asked : ℕ → Progress → Type 0
  Asked i p =
      ((i ≡ 1) × (p.searched ≡ []))
      ⊎ ((2 ≤ i) × (length p.searched + 2 ≡ first_searches analysis + i))

  -- Before the `i`-th iteration.
  abbrev Counted : ℕ → Progress → Type 0
  Counted i p =
      (1 ≤ i)
      × (i ≤ config.max_retrieval_iterations)
      × (length p.query_history ≡ i)
      × (length p.retrieval_trace + 1 ≡ i)
      × Asked i p

  -- At the end of the loop.
  abbrev Bounded : Progress → Type 0
  Bounded p =
      (1 ≤ length p.retrieval_trace)
      × (length p.retrieval_trace ≤ config.max_retrieval_iterations)
      × (length p.query_history ≡ length p.retrieval_trace)
      × (length p.searched + 1 ≡ first_searches analysis + length p.retrieval_trace)

  retrieved-Asked :
      (i : ℕ) (p : Progress)
      → Asked i p
      → length (p.searched ++ (retrieved parts config question analysis i p).0.0) + 1
        ≡ first_searches analysis + i
  unfolding retrieved
  retrieved-Asked i p (inl (one, none_yet)) =
      let first = retrieve_for_analysis-first parts config p.current_query analysis in
      rw (one, none_yet) (omega (arith, first))
  retrieved-Asked i p (inr (more, asked)) =
      let later : (i == 1) ≡ false = ground (arith, more) in
      let request = search_request config p.current_query analysis in
      rw later (omega (arith, asked, length-append p.searched (request ∷ [])))

  one_more :
      (i : ℕ) (p : Progress) (t : RetrievalTrace)
      → Counted i p
      → (1 ≤ length (p.retrieval_trace ++ (t ∷ [])))
        × (length (p.retrieval_trace ++ (t ∷ [])) ≤ config.max_retrieval_iterations)
        × (length p.query_history ≡ length (p.retrieval_trace ++ (t ∷ [])))
        × (length (p.searched ++ (retrieved parts config question analysis i p).0.0) + 1
            ≡ first_searches analysis + length (p.retrieval_trace ++ (t ∷ [])))
  one_more i p t (low, high, asked, made, searches_) =
      let searched = retrieved-Asked i p searches_ in
      let longer = length-append p.retrieval_trace (t ∷ []) in
      (
        omega (arith, longer, low, made),
        omega (arith, longer, high, made),
        omega (arith, longer, asked, made),
        omega (arith, longer, searched, made),
      )

  ends-Bounded :
      (i : ℕ) (p : Progress)
      → Counted i p
      → AtEnds parts config question analysis Bounded i
          (judged parts config question analysis (gathered_at parts config question analysis i p))
          (seen_at parts config question analysis i p)
  unfolding evaluated gathered
  ends-Bounded i p h = (
    λ a. one_more i p _ h,
    λ a b. one_more i p _ h,
    λ a. one_more i p _ h,
    λ a b. one_more i p _ h,
  )

  goes-Counted :
      (i : ℕ) (p : Progress)
      → Counted i p
      → leb config.max_retrieval_iterations i ≡ false
      → Counted (i + 1) (
          corrected parts config question analysis i
            (judged parts config question analysis (gathered_at parts config question analysis i p))
            (seen_at parts config question analysis i p))
  unfolding evaluated gathered corrected
  goes-Counted i p (low, high, asked, made, searches_) more = (
    omega (arith, low),
    ground (arith, more),
    length-append p.query_history (parts.rewrite question analysis i ∷ []) ∙ ap (λ n. n + 1) asked,
    ap (λ n. n + 1) (length-append p.retrieval_trace (_ ∷ []) ∙ made),
    inr (omega (arith, low), omega (arith, retrieved-Asked i p searches_)),
  )

  loop-Bounded :
      1 ≤ config.max_retrieval_iterations
      → Bounded (
          correct_itself parts config question analysis config.max_retrieval_iterations 1
            (at_start parts config question analysis))
  loop-Bounded some_ =
      correct_itself-rule parts config question analysis Counted Bounded ends-Bounded goes-Counted
        config.max_retrieval_iterations 1 (at_start parts config question analysis) refl
        (ground (arith, some_)) (omega arith, some_, refl, refl, inl (refl, refl))

-- The searches that answering a question asks of the retriever, the first ones first.
abbrev pub searches : Parts → RagConfig → Text → List SearchRequest
searches parts config question =
    let analysis = parts.analyze question in
    let asked = (loop_end parts config question).searched in
    if analysis.needs_clarification || is_out_of_scope analysis.query_type then [] else asked

-- What is said of a result and the searches that were made for it.
abbrev pub Limited : ℕ → ℕ → RagResult → List SearchRequest → Type 0
Limited bound first r asked =
    (r.retrieval_iterations ≡ length r.trace)
    × (r.retrieval_iterations ≤ bound)
    × (length r.query_history ≤ bound)
    × (((r.retrieval_iterations ≡ 0) × (asked ≡ []))
        ⊎ (length asked + 1 ≡ first + r.retrieval_iterations))

three_ways :
    (P : RagResult → List SearchRequest → Type 0) (a b : Bool) {x y z : RagResult}
    {asked : List SearchRequest}
    → P x []
    → P y []
    → P z asked
    → P (if a then x else if b then y else z) (if a || b then [] else asked)
three_ways P true b hx hy hz = hx
three_ways P false true hx hy hz = hy
three_ways P false false hx hy hz = hz

finish-Limited :
    (parts : Parts) (config : RagConfig) (question : Text)
    → 1 ≤ config.max_retrieval_iterations
    → let p = loop_end parts config question in
      Limited config.max_retrieval_iterations
        (first_searches (parts.analyze question))
        (finish parts question p p.final_eval)
        p.searched
unfolding answered abstained
finish-Limited parts config question some_ =
    let (low, high, asked, searched) =
      loop-Bounded parts config question (parts.analyze question) some_ in
    let p = loop_end parts config question in
    let short : length p.query_history ≤ config.max_retrieval_iterations =
      omega (arith, high, asked) in
    finish-rule parts question
      (λ r.
        Limited config.max_retrieval_iterations (first_searches (parts.analyze question)) r
          p.searched)
      p p.final_eval
      (λ e h k.
        let one = or_one_lem (length p.retrieval_trace) low in
        (one, omega (arith, one, high), short, inr (omega (arith, one, searched))))
      (refl, high, short, inr searched) (λ e h. (refl, high, short, inr searched))

-- Retrieval is bounded, with a bound of at least one iteration: the result counts as many iterations
-- as it traces, no more than the bound; its history has no more queries than the bound; and either
-- there was no iteration and no search, or the retriever was asked for one search in each iteration,
-- where the first one searches once for each part of a question with several parts.
pub answer_bounded :
    (parts : Parts) (config : RagConfig) (question : Text)
    → 1 ≤ config.max_retrieval_iterations
    → Limited config.max_retrieval_iterations
        (first_searches (parts.analyze question))
        (answer parts config question)
        (searches parts config question)
unfolding answer
answer_bounded parts config question some_ =
    let analysis = parts.analyze question in
    three_ways (Limited config.max_retrieval_iterations (first_searches analysis))
      analysis.needs_clarification (is_out_of_scope analysis.query_type)
      (refl, omega arith, some_, inl (refl, refl)) (refl, omega arith, some_, inl (refl, refl))
      (finish-Limited parts config question some_)
