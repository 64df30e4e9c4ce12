-- ===== src/Business/Executor/Dates/Said.antt =====
-- business/executor.py: the dates in what the caller said.
use bfsi_voice_agent.Prelude.{
  ℕ, zero, suc, ◌-◌, Bool, false, ◌&&◌, Option, none, some, List, [], ◌∷◌, ◌++◌, leb, ◌==◌,
  if◌then◌else◌, any, length, Text, codes, is_space, lower, contains, span_digits, begins_space,
  begins_word, is_word,
}
use bfsi_voice_agent.Business.Executor.Dates.{
  Date, date, same_date, value_from, month_names, name_among, parse_date_string,
}

-- The pieces of the patterns: a run of digits of a length in bounds, a mark, `\s+`, `\s*`, `,?`, and the
-- name of a month.
pub data Piece : Type 0 where
  digits : ℕ → ℕ → Piece
  mark : ℕ → Piece
  blanks spaces comma month_word : Piece

-- `\s+`, as much as there is, and what follows.
abbrev pub span_spaces : Text → Text × Text
span_spaces [] = ([], [])
span_spaces (c ∷ t) =
    let (cs, rest) = span_spaces t in if is_space c then (c ∷ cs, rest) else ([], c ∷ t)

abbrev pub month_taken : Option (ℕ × Text × Text) → Option (Text × Text)
month_taken none = none
month_taken (some (n, name, rest)) = some (name, rest)

-- What a piece takes from the start of a text, and what follows.
unfoldable pub take_piece : Piece → Text → Option (Text × Text)
unfolding name_among
take_piece (digits shortest longest) t =
    let (ds, rest) = span_digits t in
    if leb shortest (length ds) && leb (length ds) longest then some (ds, rest) else none
take_piece (mark c) [] = none
take_piece (mark c) (d ∷ t) = if c == d then some (d ∷ [], t) else none
take_piece blanks t = if begins_space t then some (span_spaces t) else none
take_piece spaces t = some (span_spaces t)
take_piece comma [] = some ([], [])
take_piece comma (c ∷ t) = if c == 44 then some (c ∷ [], t) else some ([], c ∷ t)
take_piece month_word t = month_taken (name_among 1 month_names t)

-- The text that a pattern matches at the start, up to its closing `\b`.
unfoldable pub match_pieces : List Piece → Text → Option Text
unfolding take_piece
match_pieces [] t = if begins_word t then none else some []
match_pieces (p ∷ ps) t = elim (take_piece p t) [
  | none ↦ none
  | some (taken, rest) ↦ elim (match_pieces ps rest) [
    | none ↦ none
    | some more ↦ some (taken ++ more)
  ]
]

-- `re.findall`: after a match the search goes on behind it, so `skip` characters are passed over;
-- the flag tells whether the character before is a word character.
unfoldable pub find_all : List Piece → ℕ → Bool → Text → List Text
unfolding match_pieces
find_all ps skip inside [] = []
find_all ps (suc skip) inside (c ∷ t) = find_all ps skip (is_word c) t
find_all ps zero inside (c ∷ t) = elim (if inside then none else match_pieces ps (c ∷ t)) [
  | none ↦ find_all ps 0 (is_word c) t
  | some m ↦ m ∷ find_all ps (length m - 1) (is_word c) t
]

abbrev pub iso_pattern : List Piece
iso_pattern = digits 4 4 ∷ mark 45 ∷ digits 1 2 ∷ mark 45 ∷ digits 1 2 ∷ []

abbrev pub slash_pattern : List Piece
slash_pattern = digits 1 2 ∷ mark 47 ∷ digits 1 2 ∷ mark 47 ∷ digits 4 4 ∷ []

abbrev pub dash_pattern : List Piece
dash_pattern = digits 1 2 ∷ mark 45 ∷ digits 1 2 ∷ mark 45 ∷ digits 4 4 ∷ []

abbrev pub day_name_pattern : List Piece
day_name_pattern = digits 1 2 ∷ blanks ∷ month_word ∷ blanks ∷ digits 4 4 ∷ []

abbrev pub name_day_pattern : List Piece
name_day_pattern = month_word ∷ blanks ∷ digits 1 2 ∷ comma ∷ blanks ∷ digits 4 4 ∷ []

abbrev pub if_some : Option Date → List Date → List Date
if_some none ds = ds
if_some (some d) ds = d ∷ ds

-- The matches that `_parse_date_string` reads.
unfoldable pub parsed : List Text → List Date
unfolding parse_date_string
parsed [] = []
parsed (m ∷ ms) = if_some (parse_date_string m) (parsed ms)

abbrev pub behind : Text → Text
behind [] = []
behind (c ∷ t) = t

-- The three numbers between the slashes.
abbrev pub slash_parts : Text → ℕ × ℕ × ℕ
slash_parts m =
    let (a, r) = span_digits m in
    let (b, s) = span_digits (behind r) in
    let (c, u) = span_digits (behind s) in (value_from 0 a, value_from 0 b, value_from 0 c)

-- Both readings of a date with slashes, where they are dates.
unfoldable pub slash_dates : Text → List Date
slash_dates m =
    let (first, second, year) = slash_parts m in
    if_some (date year second first) (if_some (date year first second) [])

unfoldable pub all_slash_dates : List Text → List Date
unfolding slash_dates
all_slash_dates [] = []
all_slash_dates (m ∷ ms) = slash_dates m ++ all_slash_dates ms

-- `_extract_dates`, as a list in place of a set.
unfoldable pub extract_dates : Text → List Date
unfolding find_all parsed all_slash_dates
extract_dates text =
    let t = lower text in
    parsed (find_all iso_pattern 0 false t)
    ++ (all_slash_dates (find_all slash_pattern 0 false t)
        ++ (parsed (find_all dash_pattern 0 false t)
            ++ (parsed (find_all day_name_pattern 0 false t)
                ++ parsed (find_all name_day_pattern 0 false t))))

abbrev pub vague_date_terms : List Text
vague_date_terms =
    codes "tomorrow"
    ∷ codes "next week"
    ∷ codes "later"
    ∷ codes "after salary"
    ∷ codes "after payday"
    ∷ codes "month end"
    ∷ codes "month-end"
    ∷ codes "sometime"
    ∷ codes "soon"
    ∷ []

unfoldable pub is_vague : Text → Bool
unfolding contains
is_vague text = let q = lower text in any (λ term. contains term q) vague_date_terms

abbrev pub among_said : List Date → Option Date → Option Date
among_said ds none = none
among_said ds (some d) = if any (same_date d) ds then some d else none

-- `_validate_explicit_date`
unfoldable pub validate_explicit_date : Text → Text → Option Date
unfolding is_vague parse_date_string extract_dates
validate_explicit_date user_text model_date =
    if is_vague user_text
    then none
    else among_said (extract_dates user_text) (parse_date_string model_date)
