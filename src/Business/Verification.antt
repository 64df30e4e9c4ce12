-- ===== src/Business/Verification.antt =====
-- business/verification.py: session-scoped identity verification. Times are whole microseconds.
-- The key derivation `pbkdf2_hmac` is the argument `derive`, from a candidate and a salt to the hash.
pub mod Digits
pub mod Sessions
pub mod Lockout
pub mod Earned
use Prim.Native.String.{◌++◌ as str_append}
use bfsi_voice_agent.Prelude.{
  ℕ, ◌+◌, ◌-◌, max, String, Bool, true, false, not, ◌&&◌, ◌||◌, Option, none, some, List, [], ◌∷◌,
  ltb, leb, ◌==◌, str_eq, if◌then◌else◌, Text, is_empty, decimal,
}
use Digits.{extract_four_digits}

pub record VerificationState : Type 0 where
  pub session_id : String
  pub customer_id : String
  pub verified_until : ℕ
  pub awaiting_code : Bool
  pub attempts : ℕ
  pub locked : Bool
  pub pending_request : Option Text

pub record VerificationInputResult : Type 0 where
  pub handled : Bool
  pub success : Bool
  pub message : Option String
  pub resume_text : Option Text
  pub locked : Bool

-- A row of the table `customer_verification`.
pub record Secret : Type 0 where
  pub customer_id : String
  pub secret_salt : String
  pub secret_hash : String
  pub active : Bool

pub record VerificationRegistry : Type 0 where
  pub db : List Secret
  pub verified_ttl : ℕ
  pub max_attempts : ℕ
  pub states : List (String × VerificationState)

-- `__init__`: at least 30 seconds and at least one attempt.
unfoldable pub new_registry : List Secret → ℕ → ℕ → VerificationRegistry
new_registry db ttl attempts = record {
  db = db;
  verified_ttl = max 30000000 ttl;
  max_attempts = max 1 attempts;
  states = [];
}

-- `self._states.get(session_id)`
unfoldable pub find_state : String → List (String × VerificationState) → Option VerificationState
find_state sid [] = none
find_state sid ((k, st) ∷ rest) = if str_eq k sid then some st else find_state sid rest

-- `self._states[session_id] = state`, and a write through the state object.
unfoldable pub put_state :
    String
    → VerificationState
    → List (String × VerificationState)
    → List (String × VerificationState)
put_state sid st [] = (sid, st) ∷ []
put_state sid st ((k, old) ∷ rest) =
    if str_eq k sid then (k, st) ∷ rest else (k, old) ∷ put_state sid st rest

-- `self._states.pop(session_id, None)`
unfoldable pub drop_state :
    String → List (String × VerificationState) → List (String × VerificationState)
drop_state sid [] = []
drop_state sid ((k, st) ∷ rest) =
    let others = drop_state sid rest in if str_eq k sid then others else (k, st) ∷ others

unfoldable pub state : String → VerificationRegistry → Option VerificationState
unfolding find_state
state sid r = find_state sid r.states

unfoldable pub save : String → VerificationState → VerificationRegistry → VerificationRegistry
unfolding put_state
save sid st r = record r { states = put_state sid st r.states }

abbrev pub new_state : String → String → VerificationState
new_state sid customer = record {
  session_id = sid;
  customer_id = customer;
  verified_until = 0;
  awaiting_code = false;
  attempts = 0;
  locked = false;
  pending_request = none;
}

-- `create_session`, at the id that `uuid4` made.
unfoldable pub create_session : String → String → VerificationRegistry → VerificationRegistry
unfolding save
create_session sid customer r = save sid (new_state sid customer) r

unfoldable pub close_session : String → VerificationRegistry → VerificationRegistry
unfolding drop_state
close_session sid r = record r { states = drop_state sid r.states }

-- Whether a state verifies the customer at a time.
abbrev pub verifies : ℕ → String → VerificationState → Bool
verifies now customer st =
    str_eq st.customer_id customer && (not st.locked && ltb now st.verified_until)

unfoldable pub is_verified : ℕ → String → String → VerificationRegistry → Bool
unfolding state
is_verified now sid customer r = elim (state sid r) [
  | none ↦ false
  | some st ↦ verifies now customer st
]

-- `_current_state`: the context variable holds the bound session, if any.
unfoldable pub current_state : Option String → VerificationRegistry → Option VerificationState
unfolding state
current_state none r = none
current_state (some sid) r = if str_eq sid "" then none else state sid r

-- `is_current_verified`: a caller that binds no session keeps the old behaviour.
unfoldable pub is_current_verified : ℕ → Option String → String → VerificationRegistry → Bool
unfolding current_state
is_current_verified now bound customer r = elim (current_state bound r) [
  | none ↦ true
  | some st ↦ verifies now customer st
]

-- `if pending_request:`, then the assignment.
abbrev pub or_pending : Option Text → Option Text → Option Text
or_pending none old = old
or_pending (some t) old = if is_empty t then old else some t

abbrev pub existing_or_new : String → String → Option VerificationState → VerificationState
existing_or_new sid customer none = new_state sid customer
existing_or_new sid customer (some st) = st

abbrev ask_message : String
ask_message =
    "Before I access account information, please say the last four digits of your registered mobile number."

abbrev mismatch_message : String
mismatch_message = "The verification session does not match the current customer."

abbrev begin_locked_message : String
begin_locked_message =
    "Identity verification is locked for this session after too many failed attempts. Please reconnect or request human support."

abbrev already_message : String
already_message = "Your identity is already verified for this session."

-- `begin`: a session that is not there is created first.
unfoldable pub begin :
    ℕ → String → String → Option Text → VerificationRegistry → String × VerificationRegistry
unfolding state save
begin now sid customer pending r =
    let st = existing_or_new sid customer (state sid r) in
    let r' = save sid st r in
    let asked : VerificationState = record st {
      awaiting_code = true;
      pending_request = or_pending pending st.pending_request;
    } in
    if not (str_eq st.customer_id customer)
    then (mismatch_message, r')
    else if st.locked
    then (begin_locked_message, r')
    else if verifies now customer st
    then (already_message, r')
    else (ask_message, save sid asked r')

abbrev find_secret : String → List Secret → Option Secret
find_secret customer [] = none
find_secret customer (row ∷ rows) =
    if str_eq row.customer_id customer && row.active then some row else find_secret customer rows

-- `_verify_secret`
unfoldable pub verify_secret : (Text → String → String) → String → Text → List Secret → Bool
verify_secret derive customer candidate db = elim (find_secret customer db) [
  | none ↦ false
  | some row ↦ str_eq (derive candidate row.secret_salt) row.secret_hash
]

abbrev pub not_handled : VerificationInputResult
not_handled = record {
  handled = false;
  success = false;
  message = none;
  resume_text = none;
  locked = false;
}

abbrev pub answer : String → VerificationInputResult
answer text = record not_handled { handled = true; message = some text }

abbrev locked_message : String
locked_message =
    "Identity verification is locked for this session. Please reconnect or request human support."

abbrev four_digits_message : String
four_digits_message = "Please provide exactly four digits from your registered mobile number."

abbrev failed_message : String
failed_message =
    "Identity verification failed too many times and is locked for this session. Please reconnect or request human support."

remaining_message : ℕ → String
unfolding decimal
remaining_message remaining =
    str_append "Those digits did not match the registered verification record. " (
      str_append (decimal remaining)
        (str_append " attempt" (if remaining == 1 then " remains." else "s remain.")))

-- The state after the right code.
abbrev pub verified : ℕ → VerificationState → VerificationState
verified until st = record st {
  awaiting_code = false;
  attempts = 0;
  verified_until = until;
  pending_request = none;
}

-- `consume_input` from the attempt on: a wrong code.
unfoldable pub wrong_code :
    String
    → VerificationState
    → VerificationRegistry
    → VerificationInputResult × VerificationRegistry
unfolding save remaining_message
wrong_code sid st r =
    let tried : VerificationState = record st { attempts = st.attempts + 1 } in
    let shut : VerificationState = record tried {
      locked = true;
      awaiting_code = false;
      pending_request = none;
    } in
    if leb r.max_attempts tried.attempts
    then (record (answer failed_message) { locked = true }, save sid shut r)
    else (answer (remaining_message (r.max_attempts - tried.attempts)), save sid tried r)

-- `consume_input`, with a candidate.
unfoldable pub try_code :
    (Text → String → String)
    → ℕ
    → String
    → String
    → Text
    → VerificationState
    → VerificationRegistry
    → VerificationInputResult × VerificationRegistry
unfolding save verify_secret wrong_code
try_code derive now sid customer candidate st r =
    if verify_secret derive customer candidate r.db
    then (
      record (answer "Identity verified successfully.") {
        success = true;
        resume_text = st.pending_request;
      },
      save sid (verified (now + r.verified_ttl) st) r,
    )
    else wrong_code sid st r

-- `consume_input`, in a session that awaits a code from this customer.
unfoldable pub consume_awaited :
    (Text → String → String)
    → ℕ
    → String
    → String
    → Text
    → VerificationState
    → VerificationRegistry
    → VerificationInputResult × VerificationRegistry
unfolding try_code
consume_awaited derive now sid customer text st r =
    if st.locked
    then (record (answer locked_message) { locked = true }, r)
    else elim (extract_four_digits text) [
      | none ↦ (answer four_digits_message, r)
      | some candidate ↦ try_code derive now sid customer candidate st r
    ]

unfoldable pub consume_input :
    (Text → String → String)
    → ℕ
    → String
    → String
    → Text
    → VerificationRegistry
    → VerificationInputResult × VerificationRegistry
unfolding state consume_awaited
consume_input derive now sid customer text r = elim (state sid r) [
  | none ↦ (not_handled, r)
  | some st ↦
      if not (str_eq st.customer_id customer) || not st.awaiting_code
      then (not_handled, r)
      else consume_awaited derive now sid customer text st r
]
