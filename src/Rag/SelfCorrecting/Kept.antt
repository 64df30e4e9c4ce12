-- ===== src/Rag/SelfCorrecting/Kept.antt =====
-- rag/self_correcting.py: where the evidence of a result comes from.
use bfsi_voice_agent.Prelude.{
  ◌*◌, ℕ, ◌≤◌, ◌≡◌, refl, false, List, [], ◌∷◌, map, max, min, length, leb, ◌==◌, two_ways, All,
  Text, arith,
}
use bfsi_voice_agent.Rag.ConflictDetector.{CorrectionAction}
use bfsi_voice_agent.Rag.SelfCorrecting.{answered, abstained, answer}
use bfsi_voice_agent.Rag.SelfCorrecting.Types.{
  QueryAnalysis, SearchRequest, RagConfig, Parts, Progress,
}
use bfsi_voice_agent.Rag.SelfCorrecting.Evidence.{RetrievedChunk}
use bfsi_voice_agent.Rag.SelfCorrecting.Merged.{All-merge_chunks}
use bfsi_voice_agent.Rag.SelfCorrecting.Loop.{
  Retrieval, search_request, is_multi_part, retrieve_for_analysis, retrieved, gathered, evaluated,
  corrected, at_start,
}
use bfsi_voice_agent.Rag.SelfCorrecting.Rule.{
  AtEnds, judged, gathered_at, seen_at, correct_itself-rule, finish-rule, answer-rule, loop_end,
}

-- The threshold of a request is the configured one.
abbrev pub Asks : RagConfig → SearchRequest → Type 0
Asks config r = r.score_threshold ≡ config.score_threshold

-- What every chunk has that the retriever gives for such requests.
pub record Gives (parts : Parts) (config : RagConfig) (P : RetrievedChunk → Type 0) : Type 0 where
  pub one : (r : SearchRequest) → Asks config r → All P (parts.retrieve_one r)
  pub many :
      (rs : List SearchRequest) (n : ℕ) → All (Asks config) rs → All P (parts.retrieve_many rs n)

module _ (parts : Parts) (config : RagConfig) (question : Text) (P : RetrievedChunk → Type 0)
    (gives : Gives parts config P) where
  asked-All :
      (queries : List Text)
      → All (Asks config) (map (λ q. search_request config q (parts.analyze q)) queries)
  asked-All [] = tt
  asked-All (q ∷ qs) = (refl, asked-All qs)

  All-retrieve_for_analysis :
      (query : Text) (analysis : QueryAnalysis)
      → All P (retrieve_for_analysis parts config query analysis).0.1
  unfolding retrieve_for_analysis
  All-retrieve_for_analysis query analysis =
      let requests = map (λ q. search_request config q (parts.analyze q)) analysis.subqueries in
      two_ways (λ (o : Retrieval × CorrectionAction). All P o.0.1) (is_multi_part analysis)
        (λ e.
          gives.many requests (max config.top_k (min 10 (length requests * 4)))
            (asked-All analysis.subqueries))
        (λ e. gives.one (search_request config query analysis) refl)

  abbrev Holds : Progress → Type 0
  Holds p = All P p.accumulated_chunks

  gathered-Holds :
      (i : ℕ) (p : Progress)
      → Holds p
      → Holds (gathered_at parts config question (parts.analyze question) i p)
  unfolding gathered retrieved
  gathered-Holds i p h =
      let analysis = parts.analyze question in
      All-merge_chunks P p.accumulated_chunks (retrieved parts config question analysis i p).0.1 h (
        two_ways (λ (o : Retrieval × CorrectionAction). All P o.0.1) (i == 1)
          (λ e. All-retrieve_for_analysis p.current_query analysis)
          (λ e. gives.one (search_request config p.current_query analysis) refl))

  ends-Holds :
      (i : ℕ) (p : Progress)
      → Holds p
      → let analysis = parts.analyze question in
        AtEnds parts config question analysis Holds i
          (judged parts config question analysis (gathered_at parts config question analysis i p))
          (seen_at parts config question analysis i p)
  unfolding evaluated
  ends-Holds i p h = let all = gathered-Holds i p h in (λ a. all, λ a b. all, λ a. all, λ a b. all)

  goes-Holds :
      (i : ℕ) (p : Progress)
      → Holds p
      → leb config.max_retrieval_iterations i ≡ false
      → let analysis = parts.analyze question in
        Holds (
          corrected parts config question analysis i
            (judged parts config question analysis (gathered_at parts config question analysis i p))
            (seen_at parts config question analysis i p))
  unfolding evaluated corrected
  goes-Holds i p h more = gathered-Holds i p h

  -- What the retriever gives is all that a result lists.
  pub All-retrieved_chunks :
      1 ≤ config.max_retrieval_iterations → All P (answer parts config question).retrieved_chunks
  unfolding answered abstained
  All-retrieved_chunks some_ =
      let analysis = parts.analyze question in
      let p = loop_end parts config question in
      let all : All P p.accumulated_chunks =
        correct_itself-rule parts config question analysis (λ i q. Holds q) Holds ends-Holds
          goes-Holds config.max_retrieval_iterations 1 (at_start parts config question analysis)
          refl (ground (arith, some_)) tt in
      answer-rule parts config question (λ r. All P r.retrieved_chunks) (λ v a c b e. (tt, tt))
        (finish-rule parts question (λ r. All P r.retrieved_chunks) p p.final_eval (λ e h k. all)
          all (λ e h. all))
