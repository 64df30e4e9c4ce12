-- ===== src/Rag/SelfCorrecting/Used.antt =====
-- rag/self_correcting.py: the evidence that an answer uses is of the evidence that was retrieved.
use bfsi_voice_agent.Prelude.{Bool, List, [], ◌∷◌, All, String, Text, two_ways, any, str_eq}
use bfsi_voice_agent.Rag.SelfCorrecting.Evidence.{
  RetrievedChunk, id_of_chunk, or_else_chunks, narrowed, relevant_chunks, supported_by,
}
use bfsi_voice_agent.Rag.SelfCorrecting.Active.{
  chunks_where, families_of, kept_of_all, is_historical, prefer_active_policy_versions,
}

module _ (P : RetrievedChunk → Type 0) where
  pub All-chunks_where :
      (p : RetrievedChunk → Bool) (cs : List RetrievedChunk) → All P cs → All P (chunks_where p cs)
  unfolding chunks_where
  All-chunks_where p [] h = tt
  All-chunks_where p (c ∷ cs) h =
      two_ways (All P) (p c) (λ e. (h.0, All-chunks_where p cs h.1))
        (λ e. All-chunks_where p cs h.1)

  pub All-or_else_chunks :
      (xs ys : List RetrievedChunk) → All P xs → All P ys → All P (or_else_chunks xs ys)
  All-or_else_chunks [] ys hx hy = hy
  All-or_else_chunks (x ∷ xs) ys hx hy = hx

  All-narrowed :
      (documents : List String) (cs : List RetrievedChunk)
      → All P cs
      → All P (narrowed documents cs)
  unfolding narrowed
  All-narrowed documents [] h = tt
  All-narrowed documents (c ∷ cs) h =
      two_ways (All P) (supported_by documents c) (λ e. (h.0, All-narrowed documents cs h.1))
        (λ e. All-narrowed documents cs h.1)

  pub All-relevant_chunks :
      (cs : List RetrievedChunk) (documents : List String)
      → All P cs
      → All P (relevant_chunks cs documents)
  unfolding relevant_chunks
  All-relevant_chunks cs [] h = h
  All-relevant_chunks cs (d ∷ ds) h =
      All-or_else_chunks (narrowed (d ∷ ds) cs) cs (All-narrowed (d ∷ ds) cs h) h

  pub All-prefer_active_policy_versions :
      (question : Text) (cs : List RetrievedChunk)
      → All P cs
      → All P (prefer_active_policy_versions question cs)
  unfolding prefer_active_policy_versions
  All-prefer_active_policy_versions question cs h =
      let kept = kept_of_all (families_of [] cs) in
      let is_kept =
        λ (c : RetrievedChunk). any (λ k. str_eq (id_of_chunk k) (id_of_chunk c)) kept in
      two_ways (All P) (is_historical question) (λ e. h)
        (λ e. All-or_else_chunks (chunks_where is_kept cs) cs (All-chunks_where is_kept cs h) h)
