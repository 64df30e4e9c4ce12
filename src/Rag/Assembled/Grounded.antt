-- ===== src/Rag/Assembled/Grounded.antt =====
-- rag/: an answer of the assembled pipeline comes from the knowledge base.
use bfsi_voice_agent.Prelude.{
  ap, ◌∙◌, All-append, ℕ, ◌≤◌, ◌≡◌, ◌⊎◌, inl, inr, refl, Bool, true, false, List, [], ◌∷◌, length,
  All, All-In, All-map, In, two_ways, Bool-cases, Text, arith,
}
use bfsi_voice_agent.Rag.StateMachine.{EvidenceVerdict, sufficient}
use bfsi_voice_agent.Rag.StateMachine as Machine
use bfsi_voice_agent.Rag.SelfCorrecting.{answer}
use bfsi_voice_agent.Rag.SelfCorrecting.Evidence.{RetrievedChunk}
use bfsi_voice_agent.Rag.SelfCorrecting.Types.{
  QueryAnalysis, EvidenceEvaluation, SearchRequest, RagConfig, RagResult, is_sufficient,
  is_conflict,
}
use bfsi_voice_agent.Rag.SelfCorrecting.Kept.{Asks, Gives, All-retrieved_chunks}
use bfsi_voice_agent.Rag.SelfCorrecting.Answered.{Supported, Generated, Resolved, answer-Supported}
use bfsi_voice_agent.Rag.Retriever.{VectorStore, retrieve_each, retrieve_from, retrieve_many_from}
use bfsi_voice_agent.Rag.Retriever.Best.{Hit, retrieve_from_best, retrieve_many_from-Best}
use bfsi_voice_agent.Rag.QueryAnalyzer.{analyze, normalize}
use bfsi_voice_agent.Rag.QueryAnalyzer.Patterns.{unsupported_account_action}
use bfsi_voice_agent.Rag.EvidenceEvaluator.{evaluate, is_out_of_scope_type, is_account_domain}
use bfsi_voice_agent.Rag.EvidenceEvaluator.Strength.{Strong, evaluate-Grounded}
use bfsi_voice_agent.Rag.AnswerGenerator.{Candidate, answer_from}
use bfsi_voice_agent.Rag.AnswerGenerator.Sentences.{split_sentences}
use bfsi_voice_agent.Rag.AnswerGenerator.Extracted.{Extracted}
use bfsi_voice_agent.Rag.AnswerGenerator.Cited.{generate-Quotes}
use bfsi_voice_agent.Rag.Assembled.{assembled}

neither : {A : Type 0} (a b : Bool) → a ≡ false → b ≡ false → (a ≡ true) ⊎ (b ≡ true) → A
neither a b x y (inl h) = cc
neither a b x y (inr h) = cc

-- Evidence is sufficient, or in conflict, only for a question of the knowledge base.
evaluate_in_scope :
    (config : RagConfig) (question : Text) (analysis : QueryAnalysis) (chunks : List RetrievedChunk)
    → let v = (evaluate config question analysis chunks).verdict in
      (is_sufficient v ≡ true) ⊎ (is_conflict v ≡ true) → is_account_domain analysis.domain ≡ false
unfolding evaluate
evaluate_in_scope config question analysis chunks =
    let P : EvidenceEvaluation → Type 0 = λ e.
      (is_sufficient e.verdict ≡ true) ⊎ (is_conflict e.verdict ≡ true)
      → is_account_domain analysis.domain ≡ false in
    two_ways P analysis.needs_clarification (λ a. neither false false refl refl)
      (λ a.
        two_ways P (is_out_of_scope_type analysis.query_type) (λ b. neither false false refl refl)
          (λ b.
            two_ways P (is_account_domain analysis.domain) (λ c. neither false false refl refl)
              (λ c h. c)))

account-domain :
    (question : Text)
    → unsupported_account_action (normalize question) ≡ true
    → is_account_domain (analyze question).domain ≡ true
unfolding analyze
account-domain question h = rw h refl

supports-question :
    (question : Text)
    → is_account_domain (analyze question).domain ≡ false
    → unsupported_account_action (normalize question) ≡ false
supports-question question h = elim (Bool-cases (unsupported_account_action (normalize question))) [
  | inl e ↦ absurd (ground (arith, account-domain question e, h))
  | inr e ↦ e
]

-- A sentence of a chunk of the store that reaches the threshold.
abbrev pub Stored : VectorStore → ℕ → Candidate → Type 0
Stored store threshold c =
    Hit store.chunks threshold c.chunk × In c.sentence (split_sentences c.chunk.chunk.text)

-- An answer and citations that are made of some stored sentences.
abbrev pub FromStore : VectorStore → RagConfig → RagResult → Type 0
FromStore store config r =
    (cs : List Candidate) × (length cs ≤ 3)
    × All (Stored store config.score_threshold) cs
    × (r.answer ≡ (answer_from cs).0)
    × (r.citations ≡ (answer_from cs).1)

module _ (store : VectorStore) (config : RagConfig) where
  abbrev OfStore : RetrievedChunk → Type 0
  OfStore c = Hit store.chunks config.score_threshold c

  one-OfStore : (r : SearchRequest) → Asks config r → All OfStore (retrieve_from store r)
  one-OfStore r same =
      All-map (Hit store.chunks r.score_threshold) OfStore (retrieve_from store r)
        (λ c h. (h.0, omega (arith, h.1, same))) (retrieve_from_best store r).1

  each-OfStore :
      (rs : List SearchRequest) → All (Asks config) rs → All OfStore (retrieve_each store rs)
  each-OfStore [] h = tt
  each-OfStore (r ∷ rs) h =
      All-append OfStore (retrieve_from store r) (retrieve_each store rs) (one-OfStore r h.0)
        (each-OfStore rs h.1)

  assembled-Gives : Gives (assembled store config) config OfStore
  assembled-Gives = record {
    one = one-OfStore;
    many = λ rs n h.
        let found = retrieve_each store rs in
        All-map (λ c. In c found) OfStore (retrieve_many_from store config rs n)
          (λ c i. All-In OfStore c found (each-OfStore rs h) i)
          (retrieve_many_from-Best store config rs n).1;
  }

  Generated-FromStore :
      (question : Text) (r : RagResult)
      → All OfStore r.retrieved_chunks
      → Generated (assembled store config) question r
      → FromStore store config r
  Generated-FromStore question r all (chunks, d, own, answers, cites) =
      let (cs, few, quoted, same, _, _) = generate-Quotes question chunks d in
      let used = λ (c : RetrievedChunk) (i : In c chunks).
        All-In OfStore c r.retrieved_chunks all
          (All-In (λ c. In c r.retrieved_chunks) c chunks own i) in
      (
        cs,
        few,
        All-map (Extracted chunks) (Stored store config.score_threshold) cs
            (λ c h. (used c.chunk h.0, h.1)) quoted,
        answers ∙ ap (λ o. o.0) same,
        cites ∙ ap (λ o. o.1) same,
      )

is_sufficient_lem : (v : EvidenceVerdict) → is_sufficient v ≡ true → v ≡ sufficient
is_sufficient_lem sufficient h = refl
is_sufficient_lem Machine.low_relevance h = cc
is_sufficient_lem Machine.insufficient h = cc
is_sufficient_lem Machine.conflict h = cc
is_sufficient_lem Machine.ambiguous h = cc
is_sufficient_lem Machine.out_of_scope h = cc

-- The evidence is strong, or a conflict in it was resolved.
abbrev pub Backed : RagConfig → RagResult → Type 0
Backed config r = Strong config r.retrieved_chunks ⊎ Resolved r.conflict_resolution

Supported-Backed :
    (store : VectorStore) (config : RagConfig) (question : Text) (r : RagResult)
    → config.low_relevance_threshold ≤ config.strong_relevance_threshold
    → Supported (assembled store config) question r.retrieved_chunks r.conflict_resolution
    → (is_account_domain (analyze question).domain ≡ false) × Backed config r
Supported-Backed store config question r le (inl h) =
    let chunks = r.retrieved_chunks in
    (
      evaluate_in_scope config question (analyze question) chunks (inl h),
      inl
          (evaluate-Grounded config question (analyze question) chunks le
            (is_sufficient_lem _ h)).3,
    )
Supported-Backed store config question r le (inr (h, k)) =
    (evaluate_in_scope config question (analyze question) r.retrieved_chunks (inr h), inr k)

pub answer-FromStore :
    (store : VectorStore) (config : RagConfig) (question : Text)
    → 1 ≤ config.max_retrieval_iterations
    → config.low_relevance_threshold ≤ config.strong_relevance_threshold
    → let r = answer (assembled store config) config question in
      r.answerable ≡ true
      → (unsupported_account_action (normalize question) ≡ false)
        × FromStore store config r
        × Backed config r
answer-FromStore store config question some_ le given_ =
    let parts = assembled store config in
    let r = answer parts config question in
    let all : All (OfStore store config) r.retrieved_chunks =
      All-retrieved_chunks parts config question (OfStore store config)
        (assembled-Gives store config) some_ in
    let (v, given, supported) = (answer-Supported parts config question some_).0 given_ in
    let (plain, backed) = Supported-Backed store config question r le supported in
    (
      supports-question question plain,
      Generated-FromStore store config question r all given,
      backed,
    )
