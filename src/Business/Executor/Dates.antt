-- ===== src/Business/Executor/Dates.antt =====
-- business/executor.py: dates and times read from texts, on ASCII. The locale's month names are the
-- English ones. `strptime` does not mind the case, so texts are read in lower case.
pub mod Said
pub mod Matches
pub mod Spoken
pub mod RoundTrip
use bfsi_voice_agent.Prelude.{
  ℕ, zero, suc, ◌+◌, ◌-◌, ◌*◌, ◌/◌, ◌%◌, Bool, true, false, not, ◌&&◌, ◌||◌, Option, none, some,
  List, [], ◌∷◌, ◌++◌, ltb, leb, ◌==◌, if◌then◌else◌, any, length, Text, codes, is_space, lower,
  strip, strip_left, contains, is_empty, span_digits, begins_space, begins_word, is_word, after,
}

pub record Date : Type 0 where
  pub year : ℕ
  pub month : ℕ
  pub day : ℕ

abbrev pub is_leap : ℕ → Bool
is_leap y = (y % 4 == 0) && (not (y % 100 == 0) || (y % 400 == 0))

abbrev pub days_in_month : ℕ → ℕ → ℕ
days_in_month y m =
    if m == 2
    then if is_leap y then 29 else 28
    else if (m == 4) || (m == 6) || (m == 9) || (m == 11)
    then 30
    else 31

abbrev pub is_valid : Date → Bool
is_valid d =
    leb 1 d.year
    && leb d.year 9999
    && leb 1 d.month
    && leb d.month 12
    && leb 1 d.day
    && leb d.day (days_in_month d.year d.month)

-- `date(year, month, day)`, which raises ValueError.
abbrev pub date : ℕ → ℕ → ℕ → Option Date
date y m d =
    let made : Date = record { year = y; month = m; day = d } in
    if is_valid made then some made else none

abbrev pub same_date : Date → Date → Bool
same_date a b = (a.year == b.year) && (a.month == b.month) && (a.day == b.day)

-- What `datetime.strptime` fills in.
pub record Moment : Type 0 where
  pub year : ℕ
  pub month : ℕ
  pub day : ℕ
  pub hour : ℕ
  pub minute : ℕ
  pub second : ℕ

abbrev pub date_of : Moment → Date
date_of m = record { year = m.year; month = m.month; day = m.day }

-- The directives and literals of the formats in use.
pub data Directive : Type 0 where
  year_field month_field day_field name_field hour_field minute_field second_field : Directive
  blank : Directive
  literal : ℕ → Directive

-- `int` of digits
abbrev pub value_from : ℕ → Text → ℕ
value_from n [] = n
value_from n (c ∷ t) = value_from (n * 10 + (c - 48)) t

-- A whole run of digits, of a length and a value in bounds.
unfoldable pub number : ℕ → ℕ → ℕ → ℕ → Text → Option (ℕ × Text)
number shortest longest least most t =
    let (ds, rest) = span_digits t in
    let n = value_from 0 ds in
    if leb shortest (length ds) && (leb (length ds) longest && (leb least n && leb n most))
    then some (n, rest)
    else none

-- `%d` reads a space before a single digit too.
unfoldable pub day_number : Text → Option (ℕ × Text)
unfolding number
day_number [] = none
day_number (c ∷ t) = if c == 32 then number 1 1 1 9 t else number 1 2 1 31 (c ∷ t)

abbrev pub month_names : List Text
month_names =
    codes "january"
    ∷ codes "february"
    ∷ codes "march"
    ∷ codes "april"
    ∷ codes "may"
    ∷ codes "june"
    ∷ codes "july"
    ∷ codes "august"
    ∷ codes "september"
    ∷ codes "october"
    ∷ codes "november"
    ∷ codes "december"
    ∷ []

-- The number of the name that the text begins with, the name and what follows.
unfoldable pub name_among : ℕ → List Text → Text → Option (ℕ × Text × Text)
unfolding after
name_among n [] t = none
name_among n (name ∷ names) t =
    let later = name_among (n + 1) names t in
    elim (after name t) [ none ↦ later | some rest ↦ some (n, name, rest) ]

abbrev pub fill : (ℕ → Moment) → Option (ℕ × Text) → Option (Moment × Text)
fill set_field none = none
fill set_field (some (n, rest)) = some (set_field n, rest)

unfoldable pub read_directive : Directive → Moment → Text → Option (Moment × Text)
unfolding number day_number name_among
read_directive year_field m t = fill (λ n. record m { year = n }) (number 4 4 0 9999 t)
read_directive month_field m t = fill (λ n. record m { month = n }) (number 1 2 1 12 t)
read_directive day_field m t = fill (λ n. record m { day = n }) (day_number t)
read_directive hour_field m t = fill (λ n. record m { hour = n }) (number 1 2 0 23 t)
read_directive minute_field m t = fill (λ n. record m { minute = n }) (number 1 2 0 59 t)
read_directive second_field m t = fill (λ n. record m { second = n }) (number 1 2 0 61 t)
read_directive name_field m t = elim (name_among 1 month_names t) [
  | none ↦ none
  | some (n, name, rest) ↦ some (record m { month = n }, rest)
]
read_directive blank m t = if begins_space t then some (m, strip_left t) else none
read_directive (literal c) m [] = none
read_directive (literal c) m (d ∷ t) = if c == d then some (m, t) else none

-- The fields in order, the whole text, and a moment that exists.
unfoldable pub read_format : List Directive → Moment → Text → Option Moment
unfolding read_directive
read_format [] m t =
    if is_empty t && (is_valid (date_of m) && leb m.second 59) then some m else none
read_format (d ∷ ds) m t = elim (read_directive d m t) [
  | none ↦ none
  | some (m', rest) ↦ read_format ds m' rest
]

abbrev pub epoch : Moment
epoch = record { year = 1900; month = 1; day = 1; hour = 0; minute = 0; second = 0 }

-- The first format that fits.
unfoldable pub first_format : List (List Directive) → Text → Option Moment
unfolding read_format
first_format [] t = none
first_format (f ∷ fs) t =
    let later = first_format fs t in elim (read_format f epoch t) [ none ↦ later | some m ↦ some m ]

-- The marks `-` `/` `:` and `T`, the last in lower case.
abbrev dash : Directive
dash = literal 45

abbrev slash : Directive
slash = literal 47

abbrev colon : Directive
colon = literal 58

abbrev letter_t : Directive
letter_t = literal 116

abbrev pub ymd : List Directive
ymd = year_field ∷ dash ∷ month_field ∷ dash ∷ day_field ∷ []

abbrev pub date_formats : List (List Directive)
date_formats =
    ymd
    ∷ (day_field ∷ slash ∷ month_field ∷ slash ∷ year_field ∷ [])
    ∷ (month_field ∷ slash ∷ day_field ∷ slash ∷ year_field ∷ [])
    ∷ (day_field ∷ dash ∷ month_field ∷ dash ∷ year_field ∷ [])
    ∷ (day_field ∷ blank ∷ name_field ∷ blank ∷ year_field ∷ [])
    ∷ (name_field ∷ blank ∷ day_field ∷ blank ∷ year_field ∷ [])
    ∷ []

-- `value.replace(",", "")`
unfoldable pub without_commas : Text → Text
without_commas [] = []
without_commas (c ∷ t) = let rest = without_commas t in if c == 44 then rest else c ∷ rest

unfoldable pub parse_date_string : Text → Option Date
unfolding strip without_commas first_format
parse_date_string value = elim (first_format date_formats (lower (without_commas (strip value)))) [
  | none ↦ none
  | some m ↦ some (date_of m)
]

abbrev two_digits : ℕ → Text
two_digits n = (48 + n / 10 % 10) ∷ (48 + n % 10) ∷ []

-- `date.isoformat()`
unfoldable pub isoformat : Date → Text
isoformat d =
    (48 + d.year / 1000)
    ∷ (48 + d.year / 100 % 10)
    ∷ (48 + d.year / 10 % 10)
    ∷ (48 + d.year % 10)
    ∷ 45
    ∷ (two_digits d.month ++ (45 ∷ two_digits d.day))

abbrev ymd_hm : Directive → List Directive
ymd_hm mark = ymd ++ (mark ∷ hour_field ∷ colon ∷ minute_field ∷ [])

abbrev pub time_formats : List (List Directive)
time_formats =
    ymd_hm letter_t
    ∷ ymd_hm blank
    ∷ (ymd_hm letter_t ++ (colon ∷ second_field ∷ []))
    ∷ (ymd_hm blank ++ (colon ∷ second_field ∷ []))
    ∷ []

-- `_validate_datetime`, as the text that `strftime` prints; `%Y` is printed as four digits.
unfoldable pub validate_datetime : Text → Option Text
unfolding strip first_format isoformat
validate_datetime value = elim (first_format time_formats (lower (strip value))) [
  | none ↦ none
  | some m ↦
      some (isoformat (date_of m) ++ (84 ∷ (two_digits m.hour ++ (58 ∷ two_digits m.minute))))
]
