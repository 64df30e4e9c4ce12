-- ===== src/Rag/EvidenceEvaluator/Supported.antt =====
-- rag/evidence_evaluator.py: the supporting chunks are of the evidence.
use bfsi_voice_agent.Prelude.{
  ℕ, String, Option, List, [], ◌∷◌, map, sort_latest, All, All-take, All-sort_latest, two_ways,
  Text,
}
use bfsi_voice_agent.Rag.SelfCorrecting.Evidence.{RetrievedChunk}
use bfsi_voice_agent.Rag.SelfCorrecting.Types.{QueryAnalysis, RagConfig}
use bfsi_voice_agent.Rag.Retriever.{same_domain}
use bfsi_voice_agent.Rag.EvidenceEvaluator.{in_domain}
use bfsi_voice_agent.Rag.EvidenceEvaluator.Ranked.{
  RankedChunk, ranked_chunk, rank_supported_chunks, greatest, is_support, kept_rows, best_rows,
  supported_chunks,
}

module _ (P : RetrievedChunk → Type 0) where
  abbrev RowOf : RankedChunk → Type 0
  RowOf row = P row.chunk

  All-ranked :
      (question : Text) (analysis : QueryAnalysis) (chunks : List RetrievedChunk)
      → All P chunks
      → All RowOf (map (ranked_chunk question analysis) chunks)
  unfolding ranked_chunk
  All-ranked question analysis [] h = tt
  All-ranked question analysis (c ∷ cs) h = (h.0, All-ranked question analysis cs h.1)

  All-kept_rows :
      (config : RagConfig) (combined semantic : ℕ) (rows : List RankedChunk)
      → All RowOf rows
      → All P (kept_rows config combined semantic rows)
  unfolding kept_rows
  All-kept_rows config combined semantic [] h = tt
  All-kept_rows config combined semantic (row ∷ rows) h =
      two_ways (All P) (is_support config combined semantic row)
        (λ e. (h.0, All-kept_rows config combined semantic rows h.1))
        (λ e. All-kept_rows config combined semantic rows h.1)

  All-best_rows :
      (config : RagConfig) (rows : List RankedChunk)
      → All RowOf rows
      → All P (best_rows config rows)
  All-best_rows config [] h = tt
  All-best_rows config (row ∷ rows) h =
      let semantic = greatest (map RankedChunk.semantic (row ∷ rows)) in
      All-take RetrievedChunk.score P 5 (kept_rows config row.combined semantic (row ∷ rows))
        (All-kept_rows config row.combined semantic (row ∷ rows) h)

  -- What holds of the chunks holds of those that support.
  pub All-supported_chunks :
      (config : RagConfig) (question : Text) (analysis : QueryAnalysis)
      (chunks : List RetrievedChunk)
      → All P chunks
      → All P (supported_chunks config question analysis chunks)
  unfolding supported_chunks rank_supported_chunks
  All-supported_chunks config question analysis chunks h =
      let rows = map (ranked_chunk question analysis) chunks in
      All-best_rows config (sort_latest RankedChunk.combined rows)
        (All-sort_latest RankedChunk.combined RowOf rows (All-ranked question analysis chunks h))

  pub All-in_domain :
      (domain : Option String) (chunks : List RetrievedChunk)
      → All P chunks
      → All P (in_domain domain chunks)
  unfolding in_domain
  All-in_domain domain [] h = tt
  All-in_domain domain (c ∷ cs) h =
      two_ways (All P) (same_domain domain c.chunk.domain) (λ e. (h.0, All-in_domain domain cs h.1))
        (λ e. All-in_domain domain cs h.1)
