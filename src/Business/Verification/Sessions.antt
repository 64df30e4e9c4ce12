-- ===== src/Business/Verification/Sessions.antt =====
-- business/verification.py: each operation as a change of one session's state.
use bfsi_voice_agent.Prelude.{
  ℕ, ◌+◌, String, ◌≡◌, refl, true, false, not, ◌||◌, Option, none, some, List, [], ◌∷◌, arith,
  str_eq, eq_iff, inl, inr, Bool-cases, Option-cases, if◌then◌else◌, leb, Text,
}
use bfsi_voice_agent.Business.Verification.{
  VerificationState, VerificationRegistry, find_state, put_state, drop_state, state, save,
  close_session, begin, consume_input, consume_awaited, try_code, wrong_code, verify_secret,
  existing_or_new, or_pending, verifies, verified,
}
use bfsi_voice_agent.Business.Verification.Digits.{extract_four_digits}

find_state-put_state :
    (sid j : String) (st : VerificationState) (m : List (String × VerificationState))
    → find_state j (put_state sid st m) ≡ (if str_eq sid j then some st else find_state j m)
unfolding find_state put_state
find_state-put_state sid j st [] = refl
find_state-put_state sid j st ((k, old) ∷ m) =
    ground (arith, eq_iff sid j, eq_iff k sid, eq_iff k j, find_state-put_state sid j st m)

find_state-drop_state :
    (sid j : String) (m : List (String × VerificationState))
    → find_state j (drop_state sid m) ≡ (if str_eq sid j then none else find_state j m)
unfolding find_state drop_state
find_state-drop_state sid j [] = ground arith
find_state-drop_state sid j ((k, old) ∷ m) =
    ground (arith, eq_iff sid j, eq_iff k sid, eq_iff k j, find_state-drop_state sid j m)

pub state-save :
    (sid j : String) (st : VerificationState) (r : VerificationRegistry)
    → state j (save sid st r) ≡ (if str_eq sid j then some st else state j r)
unfolding state save
state-save sid j st r = find_state-put_state sid j st r.states

pub state-close_session :
    (sid j : String) (r : VerificationRegistry)
    → state j (close_session sid r) ≡ (if str_eq sid j then none else state j r)
unfolding state close_session
state-close_session sid j r = find_state-drop_state sid j r.states

-- What `begin` makes of the session's state.
abbrev pub begun : ℕ → String → Option Text → VerificationState → VerificationState
begun now customer pending st =
    if not (str_eq st.customer_id customer)
    then st
    else if st.locked
    then st
    else if verifies now customer st
    then st
    else record st { awaiting_code = true; pending_request = or_pending pending st.pending_request }

pub state-begin :
    (now : ℕ) (sid customer : String) (pending : Option Text) (r : VerificationRegistry)
    (j : String)
    → state j (begin now sid customer pending r).1 ≡ (
        if str_eq sid j
        then some (begun now customer pending (existing_or_new sid customer (state sid r)))
        else state j r)
unfolding begin
state-begin now sid customer pending r j =
    let st = existing_or_new sid customer (state sid r) in
    let r' = save sid st r in
    let asked : VerificationState = record st {
      awaiting_code = true;
      pending_request = or_pending pending st.pending_request;
    } in
    ground (arith, state-save sid j st r, state-save sid j asked r')

-- What a wrong code makes of the state.
abbrev pub after_wrong : ℕ → VerificationState → VerificationState
after_wrong limit st =
    if leb limit (st.attempts + 1)
    then record st {
      attempts = st.attempts + 1;
      locked = true;
      awaiting_code = false;
      pending_request = none;
    }
    else record st { attempts = st.attempts + 1 }

module _ (derive : Text → String → String) where
  -- What `consume_input` makes of the session's state.
  unfoldable pub consumed :
      ℕ → String → Text → VerificationRegistry → VerificationState → VerificationState
  consumed now customer text r st =
      if not (str_eq st.customer_id customer) || not st.awaiting_code || st.locked
      then st
      else elim (extract_four_digits text) [
        | none ↦ st
        | some candidate ↦
            if verify_secret derive customer candidate r.db
            then verified (now + r.verified_ttl) st
            else after_wrong r.max_attempts st
      ]

  consumed_shut :
      (now : ℕ) (customer : String) (text : Text) (r : VerificationRegistry)
      (st : VerificationState)
      → (not (str_eq st.customer_id customer) || not st.awaiting_code) ≡ true
      → consumed now customer text r st ≡ st
  unfolding consumed
  consumed_shut now customer text r st h = ground arith

  state-wrong_code :
      (sid : String) (st : VerificationState) (r : VerificationRegistry) (j : String)
      → state j (wrong_code sid st r).1
        ≡ (if str_eq sid j then some (after_wrong r.max_attempts st) else state j r)
  unfolding wrong_code
  state-wrong_code sid st r j = ground (arith, state-save sid j (after_wrong r.max_attempts st) r)

  state-try_code :
      (now : ℕ) (sid customer : String) (candidate : Text) (st : VerificationState)
      (r : VerificationRegistry) (j : String)
      → state j (try_code derive now sid customer candidate st r).1 ≡ (
          if str_eq sid j
          then some (
              if verify_secret derive customer candidate r.db
              then verified (now + r.verified_ttl) st
              else after_wrong r.max_attempts st)
          else state j r)
  unfolding try_code
  state-try_code now sid customer candidate st r j =
      elim (Bool-cases (verify_secret derive customer candidate r.db)) [
        | inl e ↦ rw (e, try_code) (state-save sid j (verified (now + r.verified_ttl) st) r)
        | inr e ↦ rw (e, try_code) (state-wrong_code sid st r j)
      ]

  same_state :
      (sid j : String) (st : VerificationState) (r : VerificationRegistry)
      → state sid r ≡ some st
      → state j r ≡ (if str_eq sid j then some st else state j r)
  same_state sid j st r h = ground (arith, eq_iff sid j)

  state-consume_awaited :
      (now : ℕ) (sid customer : String) (text : Text) (st : VerificationState)
      (r : VerificationRegistry) (j : String)
      → state sid r ≡ some st
      → (not (str_eq st.customer_id customer) || not st.awaiting_code) ≡ false
      → state j (consume_awaited derive now sid customer text st r).1
        ≡ (if str_eq sid j then some (consumed now customer text r st) else state j r)
  unfolding consumed consume_awaited
  state-consume_awaited now sid customer text st r j h open_session = elim (Bool-cases st.locked) [
    | inl e ↦ rw (e, open_session) (ground (arith, same_state sid j st r))
    | inr e ↦ elim (Option-cases (extract_four_digits text)) [
      | inl none_found ↦ rw (e, none_found, open_session) (ground (arith, same_state sid j st r))
      | inr (candidate, found) ↦
          rw (e, found, open_session) (state-try_code now sid customer candidate st r j)
    ]
  ]

  abbrev pub consumed_if_any :
      ℕ → String → Text → VerificationRegistry → Option VerificationState → Option VerificationState
  consumed_if_any now customer text r none = none
  consumed_if_any now customer text r (some st) = some (consumed now customer text r st)

  pub state-consume_input :
      (now : ℕ) (sid customer : String) (text : Text) (r : VerificationRegistry) (j : String)
      → state j (consume_input derive now sid customer text r).1
        ≡ (if str_eq sid j then consumed_if_any now customer text r (state sid r) else state j r)
  unfolding consume_input
  state-consume_input now sid customer text r j = elim (Option-cases (state sid r)) [
    | inl e ↦ rw (e, consume_input) (ground (arith, eq_iff sid j))
    | inr (st, e) ↦
        elim (Bool-cases (not (str_eq st.customer_id customer) || not st.awaiting_code)) [
          | inl shut ↦
              rw (e, consume_input)
                (rw (shut, consumed_shut now customer text r st shut)
                  (ground (arith, same_state sid j st r)))
          | inr open_session ↦
              rw (e, consume_input)
                (rw open_session
                  (state-consume_awaited now sid customer text st r j e open_session))
        ]
  ]
