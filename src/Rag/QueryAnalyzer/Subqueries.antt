-- ===== src/Rag/QueryAnalyzer/Subqueries.antt =====
-- rag/query_analyzer.py: _split_subqueries, on ASCII text.
use bfsi_voice_agent.Rag.Words.{put_first}
use bfsi_voice_agent.Prelude.{
  ℕ, zero, suc, ◌+◌, ◌-◌, Bool, false, ◌&&◌, ◌||◌, Option, none, some, List, [], ◌∷◌, if◌then◌else◌,
  length, leb, ◌==◌, Text, codes, lower, after, begins_word, is_word, is_space,
}
use mathlib.Core.List.{reverse}

abbrev pub spaces_of : Text → ℕ × Text
spaces_of [] = (0, [])
spaces_of (c ∷ t) = let (n, rest) = spaces_of t in if is_space c then (suc n, rest) else (0, c ∷ t)

-- A word of the pattern between word boundaries, in any case: what follows it.
abbrev pub word_here : Bool → Text → Text → Option Text
word_here inside p t = elim (after p (lower t)) [
  | none ↦ none
  | some rest ↦ if inside || begins_word rest then none else some rest
]

abbrev pub first_word : Bool → List Text → Text → Option ℕ
first_word inside [] t = none
first_word inside (p ∷ ps) t = elim (word_here inside p t) [
  | none ↦ first_word inside ps t
  | some rest ↦ some (length p)
]

abbrev pub joining_words : List Text
joining_words = codes "and also" ∷ codes "also" ∷ codes "and" ∷ codes "plus" ∷ []

abbrev pub joint_here : Bool → Text → Option ℕ
joint_here inside [] = none
joint_here inside (c ∷ t) = if c == 59 then some 1 else first_word inside joining_words (c ∷ t)

abbrev pub drop_chars : ℕ → Text → Text
drop_chars zero t = t
drop_chars (suc n) [] = []
drop_chars (suc n) (c ∷ t) = drop_chars n t

-- `\s*(?:;|\band also\b|…)\s*` at the start: how many characters it takes.
abbrev pub separator : Bool → Text → Option ℕ
separator inside t =
    let (n, rest) = spaces_of t in
    elim (joint_here (inside && (n == 0)) rest) [
      | none ↦ none
      | some k ↦ let (m, others) = spaces_of (drop_chars k rest) in some (n + k + m)
    ]

-- `re.split`: the first number is how much of the text a separator still takes.
unfoldable pub split_parts : ℕ → Bool → Text → List Text
unfolding after
split_parts skip inside [] = [] ∷ []
split_parts (suc skip) inside (c ∷ t) = split_parts skip (is_word c) t
split_parts zero inside (c ∷ t) = elim (separator inside (c ∷ t)) [
  | none ↦ put_first c (split_parts 0 (is_word c) t)
  | some n ↦ [] ∷ split_parts (n - 1) (is_word c) t
]

-- `" ?.!,"`
abbrev pub is_trim : ℕ → Bool
is_trim c = (c == 32) || (c == 63) || (c == 46) || (c == 33) || (c == 44)

abbrev pub drop_trim : Text → Text
drop_trim [] = []
drop_trim (c ∷ t) = if is_trim c then drop_trim t else c ∷ t

-- `part.strip(" ?.!,")`
abbrev pub trim : Text → Text
trim t = reverse (drop_trim (reverse (drop_trim t)))

unfoldable pub cleaned : List Text → List Text
cleaned [] = []
cleaned (p ∷ ps) = let rest = cleaned ps in if leb 4 (length (trim p)) then trim p ∷ rest else rest

abbrev pub at_least_two : List Text → List Text
at_least_two (p ∷ q ∷ rest) = p ∷ q ∷ rest
at_least_two _ = []

unfoldable pub split_subqueries : Text → List Text
unfolding split_parts cleaned
split_subqueries question = at_least_two (cleaned (split_parts 0 false question))
