-- ===== src/Rag/SelfCorrecting/Evidence.antt =====
-- rag/self_correcting.py: the merging of evidence over the iterations. Scores are in millionths; the
-- threshold of the retrieval is at least 0, so they are too.
use bfsi_voice_agent.Prelude.{
  ℕ, String, Bool, List, [], ◌∷◌, ◌++◌, if◌then◌else◌, any, take, sort_latest, ltb, str_eq,
}
use bfsi_voice_agent.Rag.ConflictDetector.{Chunk}

pub record RetrievedChunk : Type 0 where
  pub chunk : Chunk
  pub score : ℕ

abbrev pub id_of_chunk : RetrievedChunk → String
id_of_chunk r = r.chunk.chunk_id

-- One turn of the loop of `_merge_chunks`: the best chunk of each id, at the id's first place.
unfoldable pub put_best : RetrievedChunk → List RetrievedChunk → List RetrievedChunk
put_best c [] = c ∷ []
put_best c (m ∷ ms) =
    if str_eq (id_of_chunk m) (id_of_chunk c)
    then (if ltb m.score c.score then c ∷ ms else m ∷ ms)
    else m ∷ put_best c ms

unfoldable pub merge_all : List RetrievedChunk → List RetrievedChunk → List RetrievedChunk
unfolding put_best
merge_all merged [] = merged
merge_all merged (c ∷ cs) = merge_all (put_best c merged) cs

-- `sorted(..., reverse=True)` keeps the order of equal scores.
unfoldable pub merge_chunks : List RetrievedChunk → List RetrievedChunk → List RetrievedChunk
unfolding merge_all sort_latest
merge_chunks existing new_chunks =
    take 10 (sort_latest RetrievedChunk.score (merge_all [] (existing ++ new_chunks)))

abbrev pub supported_by : List String → RetrievedChunk → Bool
supported_by documents c = any (λ d. str_eq d c.chunk.document_id) documents

unfoldable pub narrowed : List String → List RetrievedChunk → List RetrievedChunk
narrowed documents [] = []
narrowed documents (c ∷ cs) =
    let rest = narrowed documents cs in if supported_by documents c then c ∷ rest else rest

-- `xs or ys`
abbrev pub or_else_chunks : List RetrievedChunk → List RetrievedChunk → List RetrievedChunk
or_else_chunks [] ys = ys
or_else_chunks (x ∷ xs) ys = x ∷ xs

unfoldable pub relevant_chunks : List RetrievedChunk → List String → List RetrievedChunk
unfolding narrowed
relevant_chunks chunks [] = chunks
relevant_chunks chunks (d ∷ ds) = or_else_chunks (narrowed (d ∷ ds) chunks) chunks
