-- ===== src/Business/Executor/Dates/Spoken.antt =====
-- business/executor.py: a date that is validated was said.
use bfsi_voice_agent.Prelude.{
  In-append, ◌≡◌, ◌⊎◌, inl, inr, refl, sym, ap, Bool, true, false, Option, none, some, List, [],
  ◌∷◌, ◌++◌, if◌then◌else◌, any, In, Text, lower, arith, Bool-cases, Option-cases, Occurs, strip,
}
use bfsi_voice_agent.Business.Executor.Dates.{
  Date, Moment, Directive, date_of, date_formats, epoch, is_valid, same_date, read_directive,
  read_format, first_format, without_commas, parse_date_string,
}
use bfsi_voice_agent.Business.Executor.Dates.Said.{
  among_said, Piece, find_all, if_some, parsed, slash_dates, all_slash_dates, extract_dates,
  is_vague, validate_explicit_date, iso_pattern, slash_pattern, dash_pattern, day_name_pattern,
  name_day_pattern,
}
use bfsi_voice_agent.Business.Executor.Dates.Matches.{find_all-Occurs}

-- A text that stands for a date, by one of the formats or between slashes.
abbrev pub Reads : Text → Date → Type 0
Reads m d = (parse_date_string m ≡ some d) ⊎ In d (slash_dates m)

In-if_some :
    (o : Option Date) (d : Date) (ds : List Date) → In d (if_some o ds) → (o ≡ some d) ⊎ In d ds
In-if_some none d ds i = inr i
In-if_some (some x) d ds (inl same) = inl (ap some (sym same))
In-if_some (some x) d ds (inr later) = inr later

parsed-Reads : (d : Date) (ms : List Text) → In d (parsed ms) → (m : Text) × In m ms × Reads m d
unfolding parsed
parsed-Reads d [] i = elim i [ ]
parsed-Reads d (m ∷ ms) i = elim (In-if_some (parse_date_string m) d (parsed ms) i) [
  | inl e ↦ (m, inl refl, inl e)
  | inr later ↦ let (n, j, h) = parsed-Reads d ms later in (n, inr j, h)
]

all_slash_dates-Reads :
    (d : Date) (ms : List Text) → In d (all_slash_dates ms) → (m : Text) × In m ms × Reads m d
unfolding all_slash_dates
all_slash_dates-Reads d [] i = elim i [ ]
all_slash_dates-Reads d (m ∷ ms) i = elim (In-append d (slash_dates m) (all_slash_dates ms) i) [
  | inl here ↦ (m, inl refl, inr here)
  | inr later ↦ let (n, j, h) = all_slash_dates-Reads d ms later in (n, inr j, h)
]

-- Part of a text that reads as the date.
abbrev pub Within : Text → Date → Type 0
Within text d = (m : Text) × Occurs m text × Reads m d

parsed-Within :
    (ps : List Piece) (t : Text) (d : Date) → In d (parsed (find_all ps 0 false t)) → Within t d
unfolding find_all
parsed-Within ps t d i =
    let (m, j, h) = parsed-Reads d (find_all ps 0 false t) i in
    (m, find_all-Occurs ps 0 false t m j, h)

slash-Within :
    (ps : List Piece) (t : Text) (d : Date)
    → In d (all_slash_dates (find_all ps 0 false t))
    → Within t d
unfolding find_all
slash-Within ps t d i =
    let (m, j, h) = all_slash_dates-Reads d (find_all ps 0 false t) i in
    (m, find_all-Occurs ps 0 false t m j, h)

-- Every date that is extracted stands in the text.
pub extract_dates-Within :
    (text : Text) (d : Date) → In d (extract_dates text) → Within (lower text) d
unfolding extract_dates
extract_dates-Within text d i =
    let t = lower text in
    let iso = parsed (find_all iso_pattern 0 false t) in
    let slashes = all_slash_dates (find_all slash_pattern 0 false t) in
    let dashes = parsed (find_all dash_pattern 0 false t) in
    let day_first = parsed (find_all day_name_pattern 0 false t) in
    let name_first = parsed (find_all name_day_pattern 0 false t) in
    elim (In-append d iso (slashes ++ (dashes ++ (day_first ++ name_first))) i) [
      | inl j ↦ parsed-Within iso_pattern t d j
      | inr j ↦ elim (In-append d slashes (dashes ++ (day_first ++ name_first)) j) [
        | inl k ↦ slash-Within slash_pattern t d k
        | inr k ↦ elim (In-append d dashes (day_first ++ name_first) k) [
          | inl l ↦ parsed-Within dash_pattern t d l
          | inr l ↦ elim (In-append d day_first name_first l) [
            | inl n ↦ parsed-Within day_name_pattern t d n
            | inr n ↦ parsed-Within name_day_pattern t d n
          ]
        ]
      ]
    ]

read_format-valid :
    (ds : List Directive) (m n : Moment) (t : Text)
    → read_format ds m t ≡ some n
    → is_valid (date_of n) ≡ true
unfolding read_format
read_format-valid [] m n t h = ground (arith, h)
read_format-valid (d ∷ ds) m n t h = elim (Option-cases (read_directive d m t)) [
  | inl e ↦ absurd (ground (arith, h, e))
  | inr ((m', rest), e) ↦ read_format-valid ds m' n rest (rw (e, read_format) at h)
]

first_format-valid :
    (fs : List (List Directive)) (n : Moment) (t : Text)
    → first_format fs t ≡ some n
    → is_valid (date_of n) ≡ true
unfolding first_format
first_format-valid [] n t h = cc
first_format-valid (f ∷ fs) n t h = elim (Option-cases (read_format f epoch t)) [
  | inl e ↦ first_format-valid fs n t (rw (e, first_format) at h)
  | inr (m, e) ↦
      let same : m ≡ n = ground (arith, h, e) in rw (← same) (read_format-valid f epoch m t e)
]

parse_date_string-valid :
    (value : Text) (d : Date) → parse_date_string value ≡ some d → is_valid d ≡ true
unfolding parse_date_string
parse_date_string-valid value d h =
    let text = lower (without_commas (strip value)) in
    elim (Option-cases (first_format date_formats text)) [
      | inl e ↦
          let no : Option.none ≡ some d = rw (e, parse_date_string) at h in absurd (ground arith)
      | inr (m, e) ↦
          let same : some (date_of m) ≡ some d = rw (e, parse_date_string) at h in
          let inner : date_of m ≡ d = ground (arith, same) in
          rw (← inner) (first_format-valid date_formats m text e)
    ]

eq_of_same_date : (a b : Date) → same_date a b ≡ true → a ≡ b
eq_of_same_date a b h = ground (arith, h)

any-In : (d : Date) (ds : List Date) → any (same_date d) ds ≡ true → In d ds
any-In d [] h = cc
any-In d (x ∷ ds) h = elim (Bool-cases (same_date d x)) [
  | inl e ↦ inl (eq_of_same_date d x e)
  | inr e ↦ inr (any-In d ds (rw e at h))
]

accepted :
    (vague : Bool) (o : Option Date) (ds : List Date) (d : Date)
    → (if vague then none else among_said ds o) ≡ some d
    → (vague ≡ false) × (o ≡ some d) × (any (same_date d) ds ≡ true)
accepted true o ds d h = cc
accepted false none ds d h = cc
accepted false (some c) ds d h = elim (Bool-cases (any (same_date c) ds)) [
  | inl e ↦ let same : c ≡ d = ground (arith, h, e) in (refl, ap some same, rw (← same) e)
  | inr e ↦ let no : Option.none ≡ some d = rw e at h in absurd (ground (arith, no))
]

-- What a promised date needs: it is a date, the caller was not vague, and part of what the caller
-- said reads as it.
abbrev pub Spoken : Text → Date → Type 0
Spoken user_text d = (is_valid d ≡ true) × (is_vague user_text ≡ false) × Within (lower user_text) d

-- A date that the model proposes is accepted only if the caller said it: then it is a date of the
-- calendar, the proposal reads as it, none of the vague terms occurs in what the caller said, and
-- part of what the caller said reads as this date, by one of the formats or as either order of day
-- and month between slashes.
pub validated_date-Spoken :
    (user_text model_date : Text) (d : Date)
    → validate_explicit_date user_text model_date ≡ some d
    → (parse_date_string model_date ≡ some d) × Spoken user_text d
unfolding validate_explicit_date
validated_date-Spoken user_text model_date d h =
    let (clear, p, among) =
      accepted (is_vague user_text) (parse_date_string model_date) (extract_dates user_text) d h in
    (
      p,
      (
        parse_date_string-valid model_date d p,
        clear,
        extract_dates-Within user_text d (any-In d (extract_dates user_text) among),
      ),
    )
