-- ===== src/Rag/AnswerGenerator/Sentences.antt =====
-- rag/answer_generator.py: the sentences of a text.
use bfsi_voice_agent.Rag.Words.{put_first}
use bfsi_voice_agent.Prelude.{
  ℕ, Bool, false, ◌&&◌, ◌||◌, List, [], ◌∷◌, if◌then◌else◌, ◌==◌, Text, lower, strip, strip_left,
  collapse, is_empty,
}

abbrev pub is_stop : ℕ → Bool
is_stop c = (c == 46) || (c == 33) || (c == 63)

-- `re.split(r"(?<=[.!?])\s+", t)` of a text with single spaces; the flag tells whether the character
-- before ends a sentence.
unfoldable pub cut_sentences : Bool → Text → List Text
cut_sentences stopped [] = [] ∷ []
cut_sentences stopped (c ∷ t) =
    let rest = cut_sentences (is_stop c) t in
    if stopped && (c == 32) then [] ∷ rest else put_first c rest

abbrev pub drop_hashes : Text → Text
drop_hashes [] = []
drop_hashes (c ∷ t) = if c == 35 then drop_hashes t else c ∷ t

-- `re.sub(r"^#+\s*", "", sentence)`
abbrev pub without_heading : Text → Text
without_heading [] = []
without_heading (c ∷ t) = if c == 35 then strip_left (drop_hashes t) else c ∷ t

unfoldable pub tidy_sentences : List Text → List Text
unfolding strip
tidy_sentences [] = []
tidy_sentences (s ∷ ss) =
    let rest = tidy_sentences ss in
    let sentence = without_heading (strip s) in if is_empty sentence then rest else sentence ∷ rest

-- `_split_sentences`
unfoldable pub split_sentences : Text → List Text
unfolding strip collapse cut_sentences tidy_sentences
split_sentences text =
    let cleaned = strip (collapse false text) in
    if is_empty cleaned then [] else tidy_sentences (cut_sentences false cleaned)

-- `_normalize_sentence`
unfoldable pub normalize_sentence : Text → Text
unfolding strip collapse
normalize_sentence sentence = strip (collapse false (lower sentence))
