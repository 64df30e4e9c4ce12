-- ===== src/Business/Executor/Arguments.antt =====
-- business/executor.py: the arguments of a tool and Python's readings of them: `bool`, `str`,
-- `float` in millionths and `int`. A numeral is a sign, digits, a fraction and an exponent; the
-- underscores that Python allows between digits, `inf` and `nan` are left out.
use bfsi_voice_agent.Prelude.{
  ℕ, ◌+◌, ◌*◌, ◌/◌, ◌^◌, String, Bool, true, false, not, ◌&&◌, ◌||◌, Option, none, some, List, [],
  ◌∷◌, ◌++◌, ◌==◌, if◌then◌else◌, length, str_eq, Text, codes, is_empty, strip, span_digits,
}
use bfsi_voice_agent.Integration.RouterSchema.{Argument, null, flag, number, words, listing}
use bfsi_voice_agent.Business.Executor.Dates.{value_from}

-- `arguments.get(name)`
unfoldable pub get : String → List (String × Argument) → Option Argument
get name [] = none
get name ((k, v) ∷ rest) = if str_eq k name then some v else get name rest

-- `arguments.pop(name, None)`
unfoldable pub pop : String → List (String × Argument) → List (String × Argument)
pop name [] = []
pop name ((k, v) ∷ rest) =
    let others = pop name rest in if str_eq k name then others else (k, v) ∷ others

-- `bool(value)`
unfoldable pub truthy : Argument → Bool
truthy null = false
truthy (flag b) = b
truthy (number t negative whole millionths) = not ((whole == 0) && (millionths == 0))
truthy (words t) = not (is_empty t)
truthy (listing filled t) = filled

-- `str(value)`
unfoldable pub str : Argument → Text
str null = codes "None"
str (flag b) = if b then codes "True" else codes "False"
str (number t negative whole millionths) = t
str (words t) = t
str (listing filled t) = t

-- `arguments.get(name)` where it is truthy, as in `a or b`.
unfoldable pub given : String → List (String × Argument) → Option Argument
unfolding get truthy
given name arguments = elim (get name arguments) [
  | none ↦ none
  | some v ↦ if truthy v then some v else none
]

abbrev pub or_given : Option Argument → Option Argument → Option Argument
or_given none other = other
or_given (some v) other = some v

abbrev pub str_if : Option Argument → Option Text
str_if none = none
str_if (some v) = some (str v)

abbrev pub str_or : Option Argument → Text → Text
str_or none t = t
str_or (some v) t = str v

-- The sign, `true` for minus, and what follows.
abbrev pub sign : Text → Bool × Text
sign [] = (false, [])
sign (c ∷ t) = if c == 45 then (true, t) else if c == 43 then (false, t) else (false, c ∷ t)

-- A fraction: its digits, and what follows.
abbrev pub fraction : Text → Text × Text
fraction [] = ([], [])
fraction (c ∷ t) = if c == 46 then span_digits t else ([], c ∷ t)

-- An exponent up to the end of the text: its sign and value.
abbrev pub exponent : Text → Option (Bool × ℕ)
exponent [] = some (false, 0)
exponent (c ∷ t) =
    let (negative, u) = sign t in
    let (ds, rest) = span_digits u in
    if ((c == 101) || (c == 69)) && (not (is_empty ds) && is_empty rest)
    then some (negative, value_from 0 ds)
    else none

-- `float(text)` as a sign and millionths, rounded down; `none` is ValueError.
unfoldable pub float : Text → Option (Bool × ℕ)
unfolding strip
float text =
    let (negative, u) = sign (strip text) in
    let (ds, v) = span_digits u in
    let (fs, w) = fraction v in
    let n = value_from 0 (ds ++ fs) in
    if is_empty (ds ++ fs) then none else elim (exponent w) [
      | none ↦ none
      | some (down, e) ↦ some (
        negative,
        if down then n * 10 ^ 6 / 10 ^ (length fs + e) else n * 10 ^ (6 + e) / 10 ^ (length fs),
      )
    ]

-- `None if number < 0`
abbrev pub not_negative : Bool → ℕ → Option ℕ
not_negative negative n = if negative && not (n == 0) then none else some n

-- `_safe_float(arguments.get("amount"))`
unfoldable pub safe_float : Option Argument → Option ℕ
unfolding float
safe_float none = none
safe_float (some null) = none
safe_float (some (flag b)) = some (if b then 1000000 else 0)
safe_float (some (number t negative whole millionths)) =
    not_negative negative (whole * 1000000 + millionths)
safe_float (some (words t)) = elim (float t) [
  | none ↦ none
  | some (negative, n) ↦ not_negative negative n
]
safe_float (some (listing filled t)) = none

-- `int(limit)`, 10 where it raises; below 0 it is 0 here, which the history takes as 1 like it.
unfoldable pub limit_of : Option Argument → ℕ
unfolding strip
limit_of none = 10
limit_of (some null) = 10
limit_of (some (flag b)) = if b then 1 else 0
limit_of (some (number t negative whole millionths)) = if negative then 0 else whole
limit_of (some (words t)) =
    let (negative, u) = sign (strip t) in
    let (ds, rest) = span_digits u in
    if is_empty ds || not (is_empty rest) then 10 else if negative then 0 else value_from 0 ds
limit_of (some (listing filled t)) = 10
