-- ===== src/Rag/AnswerGenerator/Extracted.antt =====
-- rag/answer_generator.py: what an answer is taken from.
use bfsi_voice_agent.Rag.Words.{any_in}
use bfsi_voice_agent.Prelude.{
  ℕ, suc, ◌≤◌, Bool, not, ◌&&◌, Option, none, some, List, [], ◌∷◌, if◌then◌else◌, length,
  length-append, All, All-append, All-self, In, leb, str_eq, String, Text, two_ways, arith, lower,
}
use bfsi_voice_agent.Rag.SelfCorrecting.Evidence.{RetrievedChunk}
use bfsi_voice_agent.Rag.SelfCorrecting.Active.{chunks_where}
use bfsi_voice_agent.Rag.SelfCorrecting.Used.{All-chunks_where, All-or_else_chunks}
use bfsi_voice_agent.Rag.AnswerGenerator.{
  Candidate, Selection, id_of_document, preferred_evidence, macro_phrases, without_macros,
  candidates_in, candidates_from, add_candidate, add_first, nothing_selected, has_text, is_new,
  is_second, aspect_phrases, best_score, fill, select_from, evidence_for,
}
use bfsi_voice_agent.Rag.AnswerGenerator.Sentences.{split_sentences}

module _ (P : RetrievedChunk → Type 0) where
  All-preferred_evidence :
      (d : Option String) (cs : List RetrievedChunk) → All P cs → All P (preferred_evidence d cs)
  All-preferred_evidence none cs h = h
  All-preferred_evidence (some d) cs h =
      let named = λ (c : RetrievedChunk). str_eq (id_of_document c) d in
      two_ways (All P) (str_eq d "") (λ e. h)
        (λ e. All-or_else_chunks P (chunks_where named cs) cs (All-chunks_where P named cs h) h)

  All-without_macros :
      (question : Text) (cs : List RetrievedChunk) → All P cs → All P (without_macros question cs)
  All-without_macros question cs h =
      let other = λ (c : RetrievedChunk). not (str_eq (id_of_document c) "support_macros") in
      two_ways (All P) (any_in (lower question) macro_phrases) (λ e. h)
        (λ e. All-or_else_chunks P (chunks_where other cs) cs (All-chunks_where P other cs h) h)

  pub All-evidence_for :
      (question : Text) (cs : List RetrievedChunk) (d : Option String)
      → All P cs
      → All P (evidence_for question cs d)
  unfolding evidence_for
  All-evidence_for question cs d h =
      All-without_macros question (preferred_evidence d cs) (All-preferred_evidence d cs h)

-- A sentence of one of the chunks.
abbrev pub Extracted : List RetrievedChunk → Candidate → Type 0
Extracted chunks c = In c.chunk chunks × In c.sentence (split_sentences c.chunk.chunk.text)

All-candidates_in :
    (question : Text) (chunks : List RetrievedChunk) (c : RetrievedChunk) (chunk_rank i : ℕ)
    (sentences : List Text)
    → In c chunks
    → All (λ s. In s (split_sentences c.chunk.text)) sentences
    → All (Extracted chunks) (candidates_in question c chunk_rank i sentences)
unfolding candidates_in
All-candidates_in question chunks c chunk_rank i [] here h = tt
All-candidates_in question chunks c chunk_rank i (s ∷ ss) here h =
    ((here, h.0), All-candidates_in question chunks c chunk_rank (suc i) ss here h.1)

pub All-candidates_from :
    (question : Text) (chunks : List RetrievedChunk) (chunk_rank : ℕ) (cs : List RetrievedChunk)
    → All (λ c. In c chunks) cs
    → All (Extracted chunks) (candidates_from question chunk_rank cs)
unfolding candidates_from
All-candidates_from question chunks chunk_rank [] h = tt
All-candidates_from question chunks chunk_rank (c ∷ cs) h =
    let sentences = split_sentences c.chunk.text in
    All-append (Extracted chunks) (candidates_in question c chunk_rank 0 sentences)
      (candidates_from question (suc chunk_rank) cs)
      (All-candidates_in question chunks c chunk_rank 0 sentences h.0 (All-self sentences))
      (All-candidates_from question chunks (suc chunk_rank) cs h.1)

-- At most some number of candidates, each with a property.
abbrev pub Few : (Candidate → Type 0) → ℕ → Selection → Type 0
Few Q n s = (length s.selected ≤ n) × All Q s.selected

add_candidate-Few :
    (Q : Candidate → Type 0) (n : ℕ) (c : Candidate) (s : Selection)
    → Q c
    → Few Q n s
    → Few Q (suc n) (add_candidate c s)
add_candidate-Few Q n c s q h = (
  omega (arith, length-append s.selected (c ∷ []), h.0),
  All-append Q s.selected (c ∷ []) h.1 (q, tt),
)

add_first-Few :
    (Q : Candidate → Type 0) (n : ℕ) (test : Selection → Candidate → Bool) (cs : List Candidate)
    (s : Selection)
    → All Q cs
    → Few Q n s
    → Few Q (suc n) (add_first test cs s)
unfolding add_first
add_first-Few Q n test [] s all h = (omega (arith, h.0), h.1)
add_first-Few Q n test (c ∷ cs) s all h =
    two_ways (Few Q (suc n)) (test s c) (λ e. add_candidate-Few Q n c s all.0 h)
      (λ e. add_first-Few Q n test cs s all.1 h)

fill-Few :
    (Q : Candidate → Type 0) (cs : List Candidate) (s : Selection)
    → All Q cs
    → Few Q 3 s
    → Few Q 3 (fill cs s)
unfolding fill
fill-Few Q [] s all h = h
fill-Few Q (c ∷ cs) s all h =
    let room = not (leb 3 (length s.selected)) && is_new s c in
    fill-Few Q cs (if room then add_candidate c s else s) all.1 (
      two_ways (Few Q 3) room (λ e. add_candidate-Few Q 2 c s all.0 (ground (arith, e), h.1))
        (λ e. h))

pub select_from-Few :
    (Q : Candidate → Type 0) (question : Text) (cs : List Candidate)
    → All Q cs
    → Few Q 3 (select_from question cs)
unfolding select_from
select_from-Few Q question cs all =
    let first = add_first has_text cs nothing_selected in
    let one = add_first-Few Q 0 has_text cs nothing_selected all (omega arith, tt) in
    let more = add_first (is_second (best_score cs)) cs first in
    let second = if any_in (lower question) aspect_phrases then more else first in
    fill-Few Q cs second all (
      two_ways (Few Q 3) (any_in (lower question) aspect_phrases)
        (λ e.
          let two = add_first-Few Q 1 (is_second (best_score cs)) cs first all one in
          (omega (arith, two.0), two.1))
        (λ e. (omega (arith, one.0), one.1)))
