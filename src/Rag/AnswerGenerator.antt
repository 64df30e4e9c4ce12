-- ===== src/Rag/AnswerGenerator.antt =====
-- rag/answer_generator.py: GroundedAnswerGenerator, on ASCII text.
pub mod Words
pub mod Sentences
pub mod Scoring
pub mod Extracted
pub mod Cited
mod Tests
use bfsi_voice_agent.Prelude.{
  ℕ, suc, ◌+◌, ◌*◌, Bool, true, false, not, ◌&&◌, ◌||◌, Option, none, some, List, [], ◌∷◌, ◌++◌,
  if◌then◌else◌, any, length, sort_latest, leb, ltb, str_eq, String, Text, codes, lower, strip,
  contains, is_empty,
}
use bfsi_voice_agent.Rag.SelfCorrecting.Evidence.{RetrievedChunk, id_of_chunk, or_else_chunks}
use bfsi_voice_agent.Rag.SelfCorrecting.Active.{chunks_where}
use bfsi_voice_agent.Rag.SelfCorrecting.Types.{Citation}
use bfsi_voice_agent.Rag.Words.{any_in, any_in, member}
use Sentences.{split_sentences, normalize_sentence}
use Scoring.{score_sentence}

pub record Candidate : Type 0 where
  pub sentence : Text
  pub score : ℕ
  pub chunk : RetrievedChunk

abbrev pub id_of_document : RetrievedChunk → String
id_of_document c = c.chunk.document_id

-- `if preferred_document_id: …`
abbrev pub preferred_evidence : Option String → List RetrievedChunk → List RetrievedChunk
preferred_evidence none evidence = evidence
preferred_evidence (some d) evidence =
    if str_eq d ""
    then evidence
    else or_else_chunks (chunks_where (λ c. str_eq (id_of_document c) d) evidence) evidence

abbrev pub macro_phrases : List Text
macro_phrases =
    codes "what should support say"
    ∷ codes "what should the agent say"
    ∷ codes "clarification"
    ∷ codes "insufficient evidence"
    ∷ codes "conflicting policy"
    ∷ []

abbrev pub without_macros : Text → List RetrievedChunk → List RetrievedChunk
without_macros question evidence =
    if any_in (lower question) macro_phrases
    then evidence
    else or_else_chunks
        (chunks_where (λ c. not (str_eq (id_of_document c) "support_macros")) evidence) evidence

-- The candidates of a chunk of a rank, from the sentence of an index on.
unfoldable pub candidates_in : Text → RetrievedChunk → ℕ → ℕ → List Text → List Candidate
unfolding score_sentence
candidates_in question c chunk_rank i [] = []
candidates_in question c chunk_rank i (s ∷ ss) =
    record { sentence = s; score = score_sentence question s c.score chunk_rank i; chunk = c }
    ∷ candidates_in question c chunk_rank (suc i) ss

unfoldable pub candidates_from : Text → ℕ → List RetrievedChunk → List Candidate
unfolding candidates_in split_sentences
candidates_from question chunk_rank [] = []
candidates_from question chunk_rank (c ∷ cs) =
    candidates_in question c chunk_rank 0 (split_sentences c.chunk.text)
    ++ candidates_from question (suc chunk_rank) cs

-- `selected`, `selected_text` and `selected_documents`.
pub record Selection : Type 0 where
  pub selected : List Candidate
  pub selected_text : List Text
  pub selected_documents : List String

abbrev pub normal_of : Candidate → Text
normal_of c = normalize_sentence (strip c.sentence)

abbrev pub add_candidate : Candidate → Selection → Selection
add_candidate c s = record {
  selected = s.selected ++ (c ∷ []);
  selected_text = normal_of c ∷ s.selected_text;
  selected_documents = id_of_document c.chunk ∷ s.selected_documents;
}

abbrev pub nothing_selected : Selection
nothing_selected = record { selected = []; selected_text = []; selected_documents = [] }

-- A loop that adds the first candidate that passes a test and ends.
unfoldable pub add_first : (Selection → Candidate → Bool) → List Candidate → Selection → Selection
unfolding normalize_sentence
add_first test [] s = s
add_first test (c ∷ cs) s =
    let later = add_first test cs s in if test s c then add_candidate c s else later

abbrev pub has_text : Selection → Candidate → Bool
has_text s c = not (is_empty (normal_of c))

abbrev pub is_new : Selection → Candidate → Bool
is_new s c = has_text s c && not (member (normal_of c) s.selected_text)

-- The test for the sentence of another strong document, for the best score.
abbrev pub is_second : ℕ → Selection → Candidate → Bool
is_second best s c =
    is_new s c
    && not (any (str_eq (id_of_document c.chunk)) s.selected_documents)
    && leb (best * 38) (c.score * 100)

abbrev pub aspect_phrases : List Text
aspect_phrases =
    codes " and "
    ∷ codes " also "
    ∷ codes "what policies"
    ∷ codes "what rules"
    ∷ codes "what options"
    ∷ codes "before changing"
    ∷ codes "third party"
    ∷ []

-- The loop that fills the places that remain.
unfoldable pub fill : List Candidate → Selection → Selection
unfolding normalize_sentence
fill [] s = s
fill (c ∷ cs) s =
    fill cs (if not (leb 3 (length s.selected)) && is_new s c then add_candidate c s else s)

abbrev pub best_score : List Candidate → ℕ
best_score [] = 0
best_score (c ∷ cs) = c.score

-- The selection from the candidates, the best first.
unfoldable pub select_from : Text → List Candidate → Selection
unfolding add_first fill contains
select_from question candidates =
    let first = add_first has_text candidates nothing_selected in
    let second =
      if any_in (lower question) aspect_phrases
      then add_first (is_second (best_score candidates)) candidates first
      else first in
    fill candidates second

abbrev pub joined_sentences : List Candidate → Text
joined_sentences [] = []
joined_sentences (c ∷ []) = strip c.sentence
joined_sentences (c ∷ d ∷ cs) = strip c.sentence ++ (32 ∷ joined_sentences (d ∷ cs))

abbrev pub citation_of : RetrievedChunk → Citation
citation_of c = record {
  document_id = c.chunk.document_id;
  chunk_id = c.chunk.chunk_id;
  title = c.chunk.title;
  version = c.chunk.version;
  effective_date = c.chunk.effective_date;
}

-- The citations of the selected candidates, one for a chunk.
unfoldable pub citations_for : List String → List Candidate → List Citation
citations_for cited [] = []
citations_for cited (c ∷ cs) = elim (any (str_eq (id_of_chunk c.chunk)) cited) [
  | true ↦ citations_for cited cs
  | false ↦ citation_of c.chunk ∷ citations_for (id_of_chunk c.chunk ∷ cited) cs
]

abbrev pub answer_from : List Candidate → Option Text × List Citation
answer_from [] = (none, [])
answer_from (c ∷ cs) = (
  some (codes "Based on the available policy: " ++ joined_sentences (c ∷ cs)),
  citations_for [] (c ∷ cs),
)

-- The evidence that the answer is taken from.
unfoldable pub evidence_for : Text → List RetrievedChunk → Option String → List RetrievedChunk
unfolding chunks_where contains
evidence_for question chunks preferred_document_id =
    without_macros question (preferred_evidence preferred_document_id chunks)

unfoldable pub ranked_candidates : Text → List RetrievedChunk → Option String → List Candidate
unfolding evidence_for candidates_from sort_latest
ranked_candidates question chunks preferred_document_id =
    sort_latest Candidate.score
      (candidates_from question 1 (evidence_for question chunks preferred_document_id))

-- `generate`; without evidence there are no candidates.
unfoldable pub generate : Text → List RetrievedChunk → Option String → Option Text × List Citation
unfolding ranked_candidates select_from citations_for strip
generate question chunks preferred_document_id =
    answer_from
      (select_from question (ranked_candidates question chunks preferred_document_id)).selected
