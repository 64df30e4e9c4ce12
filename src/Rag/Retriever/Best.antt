-- ===== src/Rag/Retriever/Best.antt =====
-- rag/retriever.py: the chunks that are kept.
use bfsi_voice_agent.Prelude.{
  min, Text, ℕ, zero, suc, ◌-◌, ◌*◌, max, ◌≤◌, ◌≡◌, ◌⊎◌, inl, inr, Option-cases, Option, none, some,
  List, [], ◌∷◌, length, length-take, sort_latest, All, All-take, All-sort_latest, In,
  In-sort_latest, Descending, Descending-take, Descending-sort_latest, take_latest, leb, arith,
  two_ways,
}
use bfsi_voice_agent.Rag.ConflictDetector.{Chunk}
use bfsi_voice_agent.Rag.SelfCorrecting.Evidence.{RetrievedChunk}
use bfsi_voice_agent.Rag.SelfCorrecting.Types.{SearchRequest, RagConfig}
use bfsi_voice_agent.Rag.SelfCorrecting.Merged.{Best, merge_all-Best}
use bfsi_voice_agent.Rag.Retriever.{
  VectorStore, get_elem?, accepted, collect_hits, search_store, rerank_score, candidate_k,
  retrieve_from, retrieve_each, limit_or, retrieve_many_from,
}

-- A chunk of the store that reaches the threshold.
abbrev pub Hit : List Chunk → ℕ → RetrievedChunk → Type 0
Hit chunks threshold c = In c.chunk chunks × (threshold ≤ c.score)

get_elem?-In : (chunks : List Chunk) (i : ℕ) (c : Chunk) → get_elem? chunks i ≡ some c → In c chunks
get_elem?-In [] i c h = cc
get_elem?-In (x ∷ xs) zero c h = inl (ground arith)
get_elem?-In (x ∷ xs) (suc i) c h = inr (get_elem?-In xs i c h)

accepted-Hit :
    (chunks : List Chunk) (threshold : ℕ) (hit : Option ℕ × Option ℕ) (c : RetrievedChunk)
    → accepted chunks threshold hit ≡ some c
    → Hit chunks threshold c
accepted-Hit chunks threshold (none, score) c h = cc
accepted-Hit chunks threshold (some i, none) c h = cc
accepted-Hit chunks threshold (some i, some score) c h = elim (Option-cases (get_elem? chunks i)) [
  | inl e ↦ ground arith
  | inr (x, e) ↦
      let same : c.chunk ≡ x = ground arith in (rw same (get_elem?-In chunks i x e), ground arith)
]

collect_hits-Hit :
    (chunks : List Chunk) (threshold left : ℕ) (hits : List (Option ℕ × Option ℕ))
    → All (Hit chunks threshold) (collect_hits chunks threshold left hits)
unfolding collect_hits
collect_hits-Hit chunks threshold left [] = tt
collect_hits-Hit chunks threshold left (hit ∷ hits) =
    elim (Option-cases (accepted chunks threshold hit)) [
      | inl e ↦ rw (collect_hits, e) (collect_hits-Hit chunks threshold left hits)
      | inr (c, e) ↦
          rw (collect_hits, e)
            (
              accepted-Hit chunks threshold hit c e,
              two_ways (All (Hit chunks threshold)) (leb left 1) (λ h. tt)
                  (λ h. collect_hits-Hit chunks threshold (left - 1) hits),
            )
    ]

search_store-Hit :
    (store : VectorStore) (query : Text) (top_k threshold : ℕ)
    → All (Hit store.chunks threshold) (search_store store query top_k threshold)
unfolding search_store
search_store-Hit store query top_k threshold =
    let fetch_k = min (max (top_k * 5) top_k) (length store.chunks) in
    collect_hits-Hit store.chunks threshold top_k (store.index query fetch_k)

pub retrieve_from_best :
    (store : VectorStore) (request : SearchRequest)
    → let r = retrieve_from store request in
      let k = candidate_k store request.top_k in
      let at = rerank_score request.domain in
      (length r ≤ request.top_k)
      × All (Hit store.chunks request.score_threshold) r
      × Descending at r
      × ((c : RetrievedChunk)
          → In c (search_store store request.query k request.score_threshold)
          → In c r ⊎ All (λ m. at c ≤ at m) r)
unfolding retrieve_from
retrieve_from_best store request =
    let k = candidate_k store request.top_k in
    let n = request.top_k in
    let at = rerank_score request.domain in
    let hit = Hit store.chunks request.score_threshold in
    let found = search_store store request.query k request.score_threshold in
    let sorted = sort_latest at found in
    (
      omega (arith, length-take at n sorted),
      All-take at hit n sorted (
          All-sort_latest at hit found
            (search_store-Hit store request.query k request.score_threshold)),
      Descending-take at n sorted (Descending-sort_latest at found),
      λ c i.
          take_latest at n c sorted (Descending-sort_latest at found) (In-sort_latest at c found i),
    )

-- The retrieval for a question of several parts keeps the best of what its parts retrieve: at most
-- the larger of the two limits, the best first, each of them retrieved for a part; and for every
-- chunk that was retrieved, one of the same id that scores at least as well is kept, or every chunk
-- kept scores at least as well.
pub retrieve_many_from-Best :
    (store : VectorStore) (config : RagConfig) (requests : List SearchRequest) (top_k : ℕ)
    → Best
        (max (limit_or top_k config.top_k) config.top_k)
        (retrieve_each store requests)
        (retrieve_many_from store config requests top_k)
unfolding retrieve_many_from
retrieve_many_from-Best store config requests top_k =
    merge_all-Best (max (limit_or top_k config.top_k) config.top_k) (retrieve_each store requests)
