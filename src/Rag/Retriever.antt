-- ===== src/Rag/Retriever.antt =====
-- rag/retriever.py and `search` of rag/vector_store.py. Scores are in millionths. What the embedding
-- model and the FAISS index return for a query and a number of neighbours is the function `index`: the
-- position of a chunk, or none for a negative id, and the score, or none for one below zero. A
-- position beyond the chunks, which no index answers, is skipped. The rank of a chunk, which nothing
-- reads, is left out.
pub mod Best
mod Tests
use bfsi_voice_agent.Prelude.{
  ℕ, zero, suc, ◌+◌, ◌-◌, ◌*◌, min, max, String, Bool, true, false, not, ◌&&◌, Option, none, some,
  List, [], ◌∷◌, ◌++◌, if◌then◌else◌, length, take, sort_latest, leb, ltb, ◌==◌, str_eq, Text,
}
use bfsi_voice_agent.Rag.ConflictDetector.{Chunk, DocumentStatus, active}
use bfsi_voice_agent.Rag.SelfCorrecting.Evidence.{RetrievedChunk, merge_all}
use bfsi_voice_agent.Rag.SelfCorrecting.Types.{SearchRequest, RagConfig}

pub record VectorStore : Type 0 where
  pub chunks : List Chunk
  pub index : Text → ℕ → List (Option ℕ × Option ℕ)

abbrev pub get_elem? : {A : Type 0} → List A → ℕ → Option A
get_elem? [] i = none
get_elem? (x ∷ xs) zero = some x
get_elem? (x ∷ xs) (suc i) = get_elem? xs i

-- A neighbour that is a chunk and reaches the threshold.
abbrev pub accepted : List Chunk → ℕ → Option ℕ × Option ℕ → Option RetrievedChunk
accepted chunks threshold (none, score) = none
accepted chunks threshold (some i, none) = none
accepted chunks threshold (some i, some score) =
    if ltb score threshold then none else elim (get_elem? chunks i) [
      | none ↦ none
      | some c ↦ some (record { chunk = c; score = score })
    ]

-- The loop of `search`, which ends with `left` chunks.
unfoldable pub collect_hits : List Chunk → ℕ → ℕ → List (Option ℕ × Option ℕ) → List RetrievedChunk
collect_hits chunks threshold left [] = []
collect_hits chunks threshold left (hit ∷ hits) = elim (accepted chunks threshold hit) [
  | none ↦ collect_hits chunks threshold left hits
  | some c ↦
      let rest = collect_hits chunks threshold (left - 1) hits in
      c ∷ (if leb left 1 then [] else rest)
]

unfoldable pub search_store : VectorStore → Text → ℕ → ℕ → List RetrievedChunk
unfolding collect_hits
search_store store query top_k threshold =
    let fetch_k = min (max (top_k * 5) top_k) (length store.chunks) in
    collect_hits store.chunks threshold top_k (store.index query fetch_k)

-- `if domain and metadata.domain == domain`
abbrev pub same_domain : Option String → Option String → Bool
same_domain none other = false
same_domain (some d) none = false
same_domain (some d) (some e) = not (str_eq d "") && str_eq e d

abbrev pub is_active_status : DocumentStatus → Bool
is_active_status active = true
is_active_status _ = false

-- `rerank_score`
abbrev pub rerank_score : Option String → RetrievedChunk → ℕ
rerank_score soft_domain c =
    c.score
    + (if same_domain soft_domain c.chunk.domain then 80000 else 0)
    + (if is_active_status c.chunk.status then 15000 else 0)

abbrev pub candidate_k : VectorStore → ℕ → ℕ
candidate_k store top_k = min (max (top_k * 4) (top_k + 8)) (max 1 (length store.chunks))

-- `retrieve`; `sorted(…, reverse=True)` keeps the order of equal scores.
unfoldable pub retrieve_from : VectorStore → SearchRequest → List RetrievedChunk
unfolding search_store sort_latest
retrieve_from store request =
    let candidates =
      search_store store request.query (candidate_k store request.top_k) request.score_threshold in
    take request.top_k (sort_latest (rerank_score request.domain) candidates)

-- The chunks of all requests, one after the other.
abbrev pub retrieve_each : VectorStore → List SearchRequest → List RetrievedChunk
retrieve_each store [] = []
retrieve_each store (r ∷ rs) = retrieve_from store r ++ retrieve_each store rs

-- `top_k or self.config.top_k`
abbrev pub limit_or : ℕ → ℕ → ℕ
limit_or zero other = other
limit_or (suc n) other = suc n

unfoldable pub retrieve_many_from :
    VectorStore → RagConfig → List SearchRequest → ℕ → List RetrievedChunk
unfolding retrieve_from merge_all sort_latest
retrieve_many_from store config requests top_k =
    take (max (limit_or top_k config.top_k) config.top_k)
      (sort_latest RetrievedChunk.score (merge_all [] (retrieve_each store requests)))
