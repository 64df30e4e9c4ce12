-- ===== src/Rag/EvidenceEvaluator/Ranked.antt =====
-- rag/evidence_evaluator.py: the chunks that support an answer. Scores are in millionths, and the
-- combined ones in hundredths of a millionth.
use bfsi_voice_agent.Prelude.{
  ℕ, ◌+◌, ◌*◌, max, Bool, ◌&&◌, ◌||◌, List, [], ◌∷◌, if◌then◌else◌, map, take, sort_latest, leb,
  Text,
}
use bfsi_voice_agent.Rag.SelfCorrecting.Evidence.{RetrievedChunk}
use bfsi_voice_agent.Rag.SelfCorrecting.Types.{QueryAnalysis, RagConfig}
use bfsi_voice_agent.Rag.Retriever.{same_domain}
use bfsi_voice_agent.Rag.EvidenceEvaluator.Overlap.{lexical_overlap}

pub record RankedChunk : Type 0 where
  pub combined : ℕ
  pub semantic : ℕ
  pub lexical : ℕ
  pub domain_match : Bool
  pub chunk : RetrievedChunk

unfoldable pub ranked_chunk : Text → QueryAnalysis → RetrievedChunk → RankedChunk
unfolding lexical_overlap
ranked_chunk question analysis c =
    let lexical = lexical_overlap question c.chunk.text in
    let domain_match = same_domain analysis.domain c.chunk.domain in
    record {
      combined = c.score * 100 + lexical * 28 + (if domain_match then 7000000 else 0);
      semantic = c.score;
      lexical = lexical;
      domain_match = domain_match;
      chunk = c;
    }

-- `_rank_supported_chunks`
unfoldable pub rank_supported_chunks : Text → QueryAnalysis → List RetrievedChunk → List RankedChunk
unfolding ranked_chunk sort_latest
rank_supported_chunks question analysis chunks =
    sort_latest RankedChunk.combined (map (ranked_chunk question analysis) chunks)

abbrev pub greatest : List ℕ → ℕ
greatest [] = 0
greatest (n ∷ ns) = max n (greatest ns)

-- The tests of the loop of `_supported_chunks`.
unfoldable pub is_support : RagConfig → ℕ → ℕ → RankedChunk → Bool
is_support config best_combined best_semantic row =
    leb best_combined (row.combined + 15000000)
    || leb 160000 row.lexical
    || (leb config.sufficient_threshold row.semantic && leb best_semantic (row.semantic + 80000))
    || (row.domain_match && leb (config.low_relevance_threshold * 3) (row.semantic * 4))

unfoldable pub kept_rows : RagConfig → ℕ → ℕ → List RankedChunk → List RetrievedChunk
unfolding is_support
kept_rows config best_combined best_semantic [] = []
kept_rows config best_combined best_semantic (row ∷ rows) =
    let rest = kept_rows config best_combined best_semantic rows in
    if is_support config best_combined best_semantic row then row.chunk ∷ rest else rest

abbrev pub best_rows : RagConfig → List RankedChunk → List RetrievedChunk
best_rows config [] = []
best_rows config (row ∷ rows) =
    let best_semantic = greatest (map RankedChunk.semantic (row ∷ rows)) in
    take 5 (kept_rows config row.combined best_semantic (row ∷ rows))

-- `_supported_chunks`
unfoldable pub supported_chunks :
    RagConfig → Text → QueryAnalysis → List RetrievedChunk → List RetrievedChunk
unfolding rank_supported_chunks kept_rows
supported_chunks config question analysis chunks =
    best_rows config (rank_supported_chunks question analysis chunks)
