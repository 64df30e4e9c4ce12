-- ===== src/Business/Verification/Digits.antt =====
-- business/verification.py, `_extract_four_digits`: a code in numerals, in words, or read as money.
-- Letters, digits and spaces are those of ASCII.
use bfsi_voice_agent.Prelude.{
  ℕ, ◌≡◌, refl, Bool, ◌&&◌, ◌||◌, Option, none, some, List, [], ◌∷◌, ◌==◌, if◌then◌else◌, Text,
  codes, is_digit, is_lower, lower, strip, strip_left, text_eq, length,
}

-- One of `[$₹€£]`.
abbrev is_currency : ℕ → Bool
is_currency c = c == 36 || c == 8377 || c == 8364 || c == 163

abbrev skip_one : (ℕ → Bool) → Text → Text
skip_one p [] = []
skip_one p (c ∷ t) = if p c then t else c ∷ t

-- What may follow the amount: `\s*[.!]?\s*` up to the end.
abbrev is_tail : Text → Bool
is_tail t = text_eq (strip_left (skip_one (λ c. c == 46 || c == 33) (strip_left t))) []

-- The amount with two digits before the point, `(\d{2})[.,](\d{2})` and the tail: the digit that
-- `smart_format` dropped comes back in front.
abbrev recovered : Text → Option Text
recovered (a ∷ b ∷ point ∷ c ∷ d ∷ rest) =
    if is_digit a
      && is_digit b
      && (point == 46 || point == 44)
      && is_digit c
      && is_digit d
      && is_tail rest
    then some (48 ∷ a ∷ b ∷ d ∷ [])
    else none
recovered _ = none

-- The `fullmatch` of an amount of money.
currency_code : Text → Option Text
currency_code raw = recovered (strip_left (skip_one is_currency (strip_left raw)))

-- `re.sub(r"\D", "", raw)`
only_digits : Text → Text
only_digits [] = []
only_digits (c ∷ t) = let rest = only_digits t in if is_digit c then c ∷ rest else rest

abbrev flush : Text → List Text → List Text
flush [] tokens = tokens
flush (c ∷ word) tokens = (c ∷ word) ∷ tokens

-- `re.findall(r"[a-z]+|\d", raw)`: the word that the text begins with, and the tokens behind it.
scan : Text → Text × List Text
scan [] = ([], [])
scan (c ∷ t) =
    let (word, tokens) = scan t in
    if is_lower c
    then (c ∷ word, tokens)
    else if is_digit c
    then ([], (c ∷ []) ∷ flush word tokens)
    else ([], flush word tokens)

abbrev digit_itself : Text → Option ℕ
digit_itself (c ∷ []) = if is_digit c then some c else none
digit_itself _ = none

-- `word_to_digit.get(token)`, and a digit for itself.
token_digit : Text → Option ℕ
token_digit token =
    if text_eq token (codes "zero") || text_eq token (codes "oh") || text_eq token (codes "o")
    then some 48
    else if text_eq token (codes "one")
    then some 49
    else if text_eq token (codes "two")
    then some 50
    else if text_eq token (codes "three")
    then some 51
    else if text_eq token (codes "four")
    then some 52
    else if text_eq token (codes "five")
    then some 53
    else if text_eq token (codes "six")
    then some 54
    else if text_eq token (codes "seven")
    then some 55
    else if text_eq token (codes "eight")
    then some 56
    else if text_eq token (codes "nine")
    then some 57
    else digit_itself token

spoken_digits : List Text → Text
unfolding token_digit
spoken_digits [] = []
spoken_digits (token ∷ tokens) =
    let rest = spoken_digits tokens in elim (token_digit token) [ none ↦ rest | some d ↦ d ∷ rest ]

abbrev if_four : Text → Option Text → Option Text
if_four t other = if length t == 4 then some t else other

unfoldable pub extract_four_digits : Text → Option Text
unfolding strip currency_code only_digits scan spoken_digits
extract_four_digits text =
    let raw = lower (strip text) in
    let (word, tokens) = scan raw in
    elim (currency_code raw) [
      | some code ↦ some code
      | none ↦ if_four (only_digits raw) (if_four (spoken_digits (flush word tokens)) none)
    ]

-- The forms that the docstring and its comments name.
spoken_forms :
    (extract_four_digits (codes "0641") ≡ some (codes "0641"))
    × (extract_four_digits (codes "0 6 4 1") ≡ some (codes "0641"))
    × (extract_four_digits (codes " Zero six four ONE ") ≡ some (codes "0641"))
    × (extract_four_digits (codes "oh six four one") ≡ some (codes "0641"))
    × (extract_four_digits (codes "$64.01") ≡ some (codes "0641"))
    × (extract_four_digits (codes "one two three") ≡ none)
unfolding extract_four_digits
spoken_forms = (refl, refl, refl, refl, refl, refl)
