-- ===== src/Rag/Words.antt =====
-- rag/query_analyzer.py, rag/evidence_evaluator.py and rag/answer_generator.py: the words of a text, and
-- sets of words as lists in which no word stands twice.
pub mod Sets
use bfsi_voice_agent.Prelude.{
  contains, length, ltb, lower, ◌&&◌, not, ◌++◌, ℕ, Bool, true, false, not, ◌&&◌, ◌||◌, List, [],
  ◌∷◌, ◌++◌, if◌then◌else◌, any, Text, text_eq, is_digit, is_lower, is_space,
}

abbrev pub flush : Text → List Text → List Text
flush [] rest = rest
flush (c ∷ run) rest = (c ∷ run) ∷ rest

-- The run that the text begins with, and the runs after it.
abbrev pub spans : (ℕ → Bool) → Text → Text × List Text
spans p [] = ([], [])
spans p (c ∷ t) =
    let (run, rest) = spans p t in if p c then (c ∷ run, rest) else ([], flush run rest)

-- `re.findall(r"[…]+", t)`
unfoldable pub runs : (ℕ → Bool) → Text → List Text
runs p t = let (run, rest) = spans p t in flush run rest

-- `[a-z0-9]`
abbrev pub is_plain : ℕ → Bool
is_plain c = is_lower c || is_digit c

abbrev pub member : Text → List Text → Bool
member w ws = any (text_eq w) ws

-- `set(words)`
unfoldable pub distinct : List Text → List Text
distinct [] = []
distinct (w ∷ ws) = let rest = distinct ws in if member w rest then rest else w ∷ rest

-- `a & b`, `a - b`
unfoldable pub words_where : (Text → Bool) → List Text → List Text
words_where p [] = []
words_where p (w ∷ ws) = let rest = words_where p ws in if p w then w ∷ rest else rest

-- `_tokens`: the words of more than two characters that are no stop words.
unfoldable pub tokens_by : List Text → Text → List Text
unfolding runs distinct words_where
tokens_by stop_words text =
    distinct (
      words_where (λ w. ltb 2 (length w) && not (member w stop_words)) (runs is_plain (lower text)))

-- The words, and the groups that share one with them.
abbrev pub with_groups : List Text → List (List Text) → List Text
with_groups words [] = words
with_groups words (group ∷ groups) =
    let rest = with_groups words groups in
    if any (λ w. member w group) words then group ++ rest else rest

unfoldable pub expand_by : List (List Text) → List Text → List Text
unfolding distinct
expand_by groups words = distinct (with_groups words groups)

-- Whether one of the phrases stands in the text.
abbrev pub any_in : Text → List Text → Bool
any_in t phrases = any (λ p. contains p t) phrases

-- A character before the first of the pieces that a text is split into.
abbrev pub put_first : ℕ → List Text → List Text
put_first c [] = (c ∷ []) ∷ []
put_first c (part ∷ parts) = (c ∷ part) ∷ parts
