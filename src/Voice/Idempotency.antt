-- ===== src/Voice/Idempotency.antt =====
-- voice/idempotency.py: SessionWriteIdempotency, on ASCII text. Times are whole microseconds. A text is
-- read in lower case with single spaces, so `\s+` in its patterns is one space.
pub mod Hits
mod Tests
use bfsi_voice_agent.Prelude.{
  ℕ, ◌+◌, ◌-◌, max, String, Bool, true, false, not, ◌&&◌, ◌||◌, Option, none, some, List, [], ◌∷◌,
  ◌++◌, if◌then◌else◌, any, ltb, leb, ◌==◌, str_eq, is_some, Text, codes, is_empty, is_digit,
  is_word, begins_word, lower, strip, collapse, after, text_eq, span_digits, length, take,
}
use bfsi_voice_agent.Business.Executor.Dates.{without_commas}
use bfsi_voice_agent.Business.Executor.Dates.Said.{
  Piece, digits, mark, blanks, spaces, month_word, match_pieces, slash_pattern,
}
use bfsi_voice_agent.Business.Durable.{is_write_tool}

pub record DuplicateHit : Type 0 where
  pub key : Text
  pub grounded_response : Text

pub record Entry : Type 0 where
  pub created_at : ℕ
  pub response : Text

pub record SessionWriteIdempotency : Type 0 where
  pub ttl : ℕ
  pub records : List (Text × Entry)

-- `__init__`: at least five seconds.
abbrev pub new_guard : ℕ → SessionWriteIdempotency
new_guard ttl = record { ttl = max 5000000 ttl; records = [] }

-- `" ".join(text.lower().split())`
unfoldable pub words_of : Text → Text
unfolding collapse strip
words_of text = collapse false (strip (lower text))

-- What follows the first place where a phrase stands between `\b`.
unfoldable pub find_phrase : Bool → Text → Text → Option Text
unfolding after
find_phrase inside p [] = none
find_phrase inside p (c ∷ t) =
    let later = find_phrase (is_word c) p t in
    elim (after p (c ∷ t)) [
      | none ↦ later
      | some rest ↦ if inside || begins_word rest then later else some rest
    ]

abbrev pub says : Text → Text → Bool
says t p = is_some (find_phrase false p t)

abbrev pub says_any : List Text → Text → Bool
says_any ps t = any (says t) ps

-- `\bp\b.*\b(?:q|r)\b`
abbrev pub says_then : Text → List Text → Text → Bool
says_then p qs t = elim (find_phrase false p t) [
  | none ↦ false
  | some rest ↦ any (λ q. is_some (find_phrase true q rest)) qs
]

-- `[\d,]*` and what follows.
abbrev pub span_amount : Text → Text × Text
span_amount [] = ([], [])
span_amount (c ∷ t) =
    let (ds, rest) = span_amount t in
    if is_digit c || (c == 44) then (c ∷ ds, rest) else ([], c ∷ t)

-- `(?:\.\d{1,2})?`
abbrev pub cents : Text → Text
cents [] = []
cents (c ∷ t) =
    let (ds, rest) = span_digits t in if (c == 46) && not (is_empty ds) then c ∷ take 2 ds else []

-- `_amount`: every match begins with the first digit of the text.
unfoldable pub amount : Text → Text
unfolding without_commas
amount [] = codes "unspecified"
amount (c ∷ t) =
    let later = amount t in
    let (ds, rest) = span_amount t in
    if is_digit c then without_commas (c ∷ (ds ++ cents rest)) else later

abbrev pub iso_date : List Piece
iso_date = digits 4 4 ∷ mark 45 ∷ digits 2 2 ∷ mark 45 ∷ digits 2 2 ∷ []

abbrev pub month_day : List Piece
month_day = month_word ∷ blanks ∷ digits 1 2 ∷ []

abbrev pub month_day_year : List Piece
month_day_year = month_word ∷ blanks ∷ digits 1 2 ∷ mark 44 ∷ spaces ∷ digits 4 4 ∷ []

abbrev pub first_of : {A : Type 0} → Option A → Option A → Option A
first_of none other = other
first_of (some a) other = some a

abbrev pub match_either : List Piece → List Piece → Text → Option Text
match_either ps qs t = first_of (match_pieces ps t) (match_pieces qs t)

-- `re.search` for either pattern, the first of them preferred.
unfoldable pub search_either : List Piece → List Piece → Bool → Text → Option Text
unfolding match_pieces
search_either ps qs inside [] = none
search_either ps qs inside (c ∷ t) =
    let later = search_either ps qs (is_word c) t in
    if inside then later else first_of (match_either ps qs (c ∷ t)) later

abbrev pub token_or : Option Text → Text
token_or none = codes "unspecified"
token_or (some t) = t

-- `_date_token`
unfoldable pub date_token : Text → Text
unfolding search_either
date_token t = token_or (
    first_of (search_either iso_date iso_date false t) (
      first_of (search_either slash_pattern slash_pattern false t)
        (search_either month_day_year month_day false t)))

abbrev pub hardship_words : List Text
hardship_words =
    codes "lost my job"
    ∷ codes "job loss"
    ∷ codes "income stopped"
    ∷ codes "salary stopped"
    ∷ codes "financial hardship"
    ∷ []

abbrev pub paid_words : List Text
paid_words =
    codes "i paid"
    ∷ codes "i have paid"
    ∷ codes "already paid"
    ∷ codes "payment made"
    ∷ codes "paid yesterday"
    ∷ codes "friend paid for me"
    ∷ []

-- The key of a text of words with single spaces.
unfoldable pub key_of_words : Text → Option Text
unfolding find_phrase amount date_token
key_of_words t =
    if is_empty t
    then none
    else if says_any (codes "wrong person" ∷ codes "wrong number" ∷ []) t
    then some (codes "request_human_escalation:wrong_number")
    else if says_any (codes "dispute" ∷ codes "investigate" ∷ codes "formal review" ∷ []) t
    then some (codes "open_dispute:payment")
    else if says_any hardship_words t
        || says_then (codes "cannot pay")
            (codes "job" ∷ codes "income" ∷ codes "medical" ∷ codes "emergency" ∷ []) t
    then some (codes "record_financial_hardship:hardship")
    else if says_any paid_words t
    then some (codes "record_payment_reported:" ++ amount t)
    else if says_any (codes "i will pay" ∷ codes "i'll pay" ∷ codes "promise to pay" ∷ []) t
    then some (codes "record_promise_to_pay:" ++ (date_token t ++ (58 ∷ amount t)))
    else if says_any
        (codes "call me" ∷ codes "ring me" ∷ codes "phone me" ∷ codes "contact me" ∷ []) t
    then some (codes "schedule_callback:" ++ date_token t)
    else none

unfoldable pub candidate_key : Text → Option Text
unfolding words_of key_of_words
candidate_key text = key_of_words (words_of text)

-- `self._records.get(key)`
unfoldable pub find_record : Text → List (Text × Entry) → Option Entry
find_record k [] = none
find_record k ((j, e) ∷ rest) = if text_eq j k then some e else find_record k rest

-- `self._records[key] = entry`
unfoldable pub put_record : Text → Entry → List (Text × Entry) → List (Text × Entry)
put_record k e [] = (k, e) ∷ []
put_record k e ((j, old) ∷ rest) =
    if text_eq j k then (j, e) ∷ rest else (j, old) ∷ put_record k e rest

-- `self._records.pop(key, None)`
unfoldable pub drop_record : Text → List (Text × Entry) → List (Text × Entry)
drop_record k [] = []
drop_record k ((j, e) ∷ rest) =
    let others = drop_record k rest in if text_eq j k then others else (j, e) ∷ others

-- `check`, for a key.
unfoldable pub check_key :
    ℕ → Text → SessionWriteIdempotency → Option DuplicateHit × SessionWriteIdempotency
unfolding find_record drop_record
check_key now k g = elim (find_record k g.records) [
  | none ↦ (none, g)
  | some e ↦
      if ltb g.ttl (now - e.created_at)
      then (none, record g { records = drop_record k g.records })
      else (some (record { key = k; grounded_response = e.response }), g)
]

unfoldable pub check :
    ℕ → Text → SessionWriteIdempotency → Option DuplicateHit × SessionWriteIdempotency
unfolding candidate_key check_key
check now text g = elim (candidate_key text) [ none ↦ (none, g) | some k ↦ check_key now k g ]

abbrev pub key_or : Text → String → Option Text → Text
key_or text tool none = codes tool ++ (58 ∷ words_of text)
key_or text tool (some k) = k

abbrev pub named : Option String → Bool
named none = false
named (some tool) = is_write_tool tool

abbrev pub name_of : Option String → String
name_of none = ""
name_of (some tool) = tool

unfoldable pub remember_success :
    ℕ → Text → Option String → Text → SessionWriteIdempotency → SessionWriteIdempotency
unfolding candidate_key put_record words_of is_write_tool
remember_success now text tool response g =
    let k = key_or text (name_of tool) (candidate_key text) in
    let entry : Entry = record { created_at = now; response = response } in
    if named tool then record g { records = put_record k entry g.records } else g
