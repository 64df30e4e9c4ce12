-- ===== src/Rag/ConflictDetector/Patterns.antt =====
-- rag/conflict_detector.py: the claims that a text makes, by the two patterns, on ASCII.
use bfsi_voice_agent.Prelude.{
  begins_space, span_digits, not, ◌||◌, Option, none, some, [], ◌∷◌, ◌==◌, if◌then◌else◌, Text,
  codes, lower, strip_left, is_empty, after,
}

pub data ClaimKey : Type 0 where
  grace_period_days callback_hours : ClaimKey

-- `(\d+)\s+unit`, at the start.
abbrev amount_of : Text → Text → Option Text
amount_of unit_ t =
    let (ds, rest) = span_digits t in
    if is_empty ds || not (begins_space rest)
    then none
    else elim (after unit_ (strip_left rest)) [ none ↦ none | some _ ↦ some ds ]

abbrev or_else : Option Text → Option Text → Option Text
or_else none other = other
or_else (some t) other = some t

-- `\s+(\d+)\s+days?`, at the start.
abbrev grace_amount : Text → Option Text
grace_amount t = if begins_space t then amount_of (codes "day") (strip_left t) else none

abbrev grace_after : Text → Text → Option Text
grace_after word t = elim (after word t) [ none ↦ none | some rest ↦ grace_amount rest ]

-- `grace period(?: is| of)?\s+(\d+)\s+days?`, at the start.
abbrev grace_here : Text → Option Text
grace_here t = elim (after (codes "grace period") t) [
  | none ↦ none
  | some rest ↦
      or_else (grace_after (codes " is") rest)
        (or_else (grace_after (codes " of") rest) (grace_amount rest))
]

-- `.*?(\d+)\s+hours?`, at the start; the dot is no newline.
abbrev hours_after : Text → Option Text
hours_after [] = none
hours_after (c ∷ t) =
    let later = hours_after t in
    or_else (amount_of (codes "hour") (c ∷ t)) (if c == 10 then none else later)

-- `callback.*?(\d+)\s+hours?`, at the start.
abbrev callback_here : Text → Option Text
callback_here t = elim (after (codes "callback") t) [ none ↦ none | some rest ↦ hours_after rest ]

-- `pattern.search(text)`, its first group.
abbrev search : (Text → Option Text) → Text → Option Text
search here [] = none
search here (c ∷ t) = or_else (here (c ∷ t)) (search here t)

unfoldable pub find_claim : ClaimKey → Text → Option Text
unfolding after
find_claim grace_period_days text = search grace_here (lower text)
find_claim callback_hours text = search callback_here (lower text)
