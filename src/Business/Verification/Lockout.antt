-- ===== src/Business/Verification/Lockout.antt =====
-- business/verification.py: what holds of every session over any run of operations.
use bfsi_voice_agent.Prelude.{
  ℕ, ◌≤◌, ◌<◌, String, ◌≡◌, ◌∙◌, refl, Bool, true, false, Option, none, some, List, [], ◌∷◌, arith,
  str_eq, eq_iff, inl, inr, Bool-cases, if◌then◌else◌, Text, any,
}
use bfsi_voice_agent.Business.Verification.{
  VerificationState, VerificationRegistry, Secret, state, create_session, close_session, begin,
  consume_input, is_verified, new_registry, new_state, existing_or_new, not_handled,
}
use bfsi_voice_agent.Business.Verification.Sessions.{
  state-save, state-close_session, begun, state-begin, after_wrong, consumed, consumed_if_any,
  state-consume_input,
}

pub data Call : Type 0 where
  create_call : String → String → Call
  close_call : String → Call
  begin_call : ℕ → String → String → Option Text → Call
  consume_call : ℕ → String → String → Text → Call

-- The session that a call is about.
abbrev pub session : Call → String
session (create_call sid customer) = sid
session (close_call sid) = sid
session (begin_call now sid customer pending) = sid
session (consume_call now sid customer text) = sid

module _ (derive : Text → String → String) where
  unfoldable pub apply : Call → VerificationRegistry → VerificationRegistry
  apply (create_call sid customer) r = create_session sid customer r
  apply (close_call sid) r = close_session sid r
  apply (begin_call now sid customer pending) r = (begin now sid customer pending r).1
  apply (consume_call now sid customer text) r = (consume_input derive now sid customer text r).1

  unfoldable pub run : List Call → VerificationRegistry → VerificationRegistry
  run [] r = r
  run (c ∷ cs) r = run cs (apply c r)

  -- The settings and the secrets do not change.
  pub apply-settings :
      (c : Call) (r : VerificationRegistry)
      → ((apply c r).db ≡ r.db)
        × ((apply c r).verified_ttl ≡ r.verified_ttl)
        × ((apply c r).max_attempts ≡ r.max_attempts)
  unfolding apply
  apply-settings (create_call sid customer) r = unfold create_session in (refl, refl, refl)
  apply-settings (close_call sid) r = unfold close_session in (refl, refl, refl)
  apply-settings (begin_call now sid customer pending) r =
      unfold begin in (ground arith, ground arith, ground arith)
  apply-settings (consume_call now sid customer text) r =
      unfold consume_input in (ground arith, ground arith, ground arith)

  -- What a call makes of the state of its own session.
  unfoldable pub changed :
      Call → VerificationRegistry → Option VerificationState → Option VerificationState
  changed (create_call sid customer) r o = some (new_state sid customer)
  changed (close_call sid) r o = none
  changed (begin_call now sid customer pending) r o =
      some (begun now customer pending (existing_or_new sid customer o))
  changed (consume_call now sid customer text) r o = consumed_if_any derive now customer text r o

  pub state-apply :
      (c : Call) (r : VerificationRegistry) (j : String)
      → state j (apply c r)
        ≡ (if str_eq (session c) j then changed c r (state (session c) r) else state j r)
  unfolding apply changed
  state-apply (create_call sid customer) r j =
      unfold create_session in state-save sid j (new_state sid customer) r
  state-apply (close_call sid) r j = state-close_session sid j r
  state-apply (begin_call now sid customer pending) r j = state-begin now sid customer pending r j
  state-apply (consume_call now sid customer text) r j =
      state-consume_input derive now sid customer text r j

  -- Sessions do not touch one another: a run of calls about other sessions leaves a session's state
  -- as it was.
  pub run_isolated :
      (j : String) (cs : List Call) (r : VerificationRegistry)
      → any (λ c. str_eq (session c) j) cs ≡ false
      → state j (run cs r) ≡ state j r
  unfolding run
  run_isolated j [] r h = refl
  run_isolated j (c ∷ cs) r h =
      run_isolated j cs (apply c r) (ground arith) ∙ (state-apply c r j ∙ ground arith)

-- What keeps a session from guessing on: fewer attempts than the limit unless it is locked, and no
-- code awaited and no request pending once it is.
pub record Sound (limit : ℕ) (st : VerificationState) : Type 0 where
  pub capped : st.attempts ≤ limit
  pub below : st.locked ≡ false → st.attempts < limit
  pub shut : st.locked ≡ true → st.awaiting_code ≡ false
  pub dropped : st.locked ≡ true → st.pending_request ≡ none

abbrev pub SoundIfAny : ℕ → Option VerificationState → Type 0
SoundIfAny limit none = Unit
SoundIfAny limit (some st) = Sound limit st

abbrev pub AllSound : VerificationRegistry → Type 0
AllSound r = (j : String) → SoundIfAny r.max_attempts (state j r)

Sound-new_state :
    (limit : ℕ) (sid customer : String) → 0 < limit → Sound limit (new_state sid customer)
Sound-new_state limit sid customer pos = ground arith

Sound-begun :
    (limit now : ℕ) (customer : String) (pending : Option Text) (st : VerificationState)
    → Sound limit st
    → Sound limit (begun now customer pending st)
Sound-begun limit now customer pending st h = ground arith

Sound-after_wrong :
    (limit : ℕ) (st : VerificationState)
    → Sound limit st
    → st.locked ≡ false
    → Sound limit (after_wrong limit st)
Sound-after_wrong limit st h e = ground arith

Sound-consumed :
    (derive : Text → String → String) (now : ℕ) (customer : String) (text : Text)
    (r : VerificationRegistry) (st : VerificationState)
    → Sound r.max_attempts st
    → Sound r.max_attempts (consumed derive now customer text r st)
unfolding consumed
Sound-consumed derive now customer text r st h =
    ground (arith, Sound-after_wrong r.max_attempts st h)

is_verified-locked :
    (now : ℕ) (j customer : String) (r : VerificationRegistry) (st : VerificationState)
    → state j r ≡ some st
    → st.locked ≡ true
    → is_verified now j customer r ≡ false
unfolding is_verified
is_verified-locked now j customer r st h l = rw (h, is_verified) (ground arith)

module _ (derive : Text → String → String) where
  Sound-changed :
      (c : Call) (r : VerificationRegistry) (o : Option VerificationState)
      → 0 < r.max_attempts
      → SoundIfAny r.max_attempts o
      → SoundIfAny r.max_attempts (changed derive c r o)
  unfolding changed
  Sound-changed (create_call sid customer) r o pos h =
      Sound-new_state r.max_attempts sid customer pos
  Sound-changed (close_call sid) r o pos h = tt
  Sound-changed (begin_call now sid customer pending) r none pos h =
      Sound-begun r.max_attempts now customer pending (new_state sid customer)
        (Sound-new_state r.max_attempts sid customer pos)
  Sound-changed (begin_call now sid customer pending) r (some st) pos h =
      Sound-begun r.max_attempts now customer pending st h
  Sound-changed (consume_call now sid customer text) r none pos h = tt
  Sound-changed (consume_call now sid customer text) r (some st) pos h =
      Sound-consumed derive now customer text r st h

  AllSound-apply :
      (c : Call) (r : VerificationRegistry)
      → 0 < r.max_attempts
      → AllSound r
      → AllSound (apply derive c r)
  AllSound-apply c r pos h j =
      rw (state-apply derive c r j, (apply-settings derive c r).2)
        (elim (Bool-cases (str_eq (session c) j)) [
          | inl e ↦ rw e (Sound-changed c r (state (session c) r) pos (h (session c)))
          | inr e ↦ rw e (h j)
        ])

  -- Over any run of operations on any sessions, with a positive limit and from a registry where this
  -- holds (as of every new one), no session has more failed attempts than the limit,
  -- one that is not locked has attempts left, and a locked one neither awaits a code nor keeps a
  -- pending request.
  pub run-AllSound :
      (cs : List Call) (r : VerificationRegistry)
      → 0 < r.max_attempts
      → AllSound r
      → AllSound (run derive cs r)
  unfolding run
  run-AllSound [] r pos h = h
  run-AllSound (c ∷ cs) r pos h =
      run-AllSound cs (apply derive c r) (omega (arith, (apply-settings derive c r).2))
        (AllSound-apply c r pos h)

  -- The registry as it is constructed, whatever the settings passed in.
  new_registry-AllSound :
      (db : List Secret) (ttl attempts : ℕ)
      → (0 < (new_registry db ttl attempts).max_attempts) × AllSound (new_registry db ttl attempts)
  unfolding new_registry state
  new_registry-AllSound db ttl attempts = (omega arith, λ j. tt)

  -- The calls that give a session a fresh state.
  abbrev pub resets : String → Call → Bool
  resets j (create_call sid customer) = str_eq sid j
  resets j (close_call sid) = str_eq sid j
  resets j (begin_call now sid customer pending) = false
  resets j (consume_call now sid customer text) = false

  locked_changed :
      (c : Call) (r : VerificationRegistry) (j : String) (st : VerificationState)
      → st.locked ≡ true
      → resets j c ≡ false
      → str_eq (session c) j ≡ true
      → changed derive c r (some st) ≡ some st
  unfolding changed consumed
  locked_changed (create_call sid customer) r j st l n e = cc
  locked_changed (close_call sid) r j st l n e = cc
  locked_changed (begin_call now sid customer pending) r j st l n e = ground arith
  locked_changed (consume_call now sid customer text) r j st l n e = ground arith

  locked_apply :
      (c : Call) (r : VerificationRegistry) (j : String) (st : VerificationState)
      → state j r ≡ some st
      → st.locked ≡ true
      → resets j c ≡ false
      → state j (apply derive c r) ≡ some st
  locked_apply c r j st h l n =
      rw (state-apply derive c r j) (elim (Bool-cases (str_eq (session c) j)) [
        | inl e ↦
            let same : session c ≡ j = (eq_iff (session c) j).0 e in
            let here : state (session c) r ≡ some st = simp same h in
            rw (e, here) (locked_changed c r j st l n e)
        | inr e ↦ rw e h
      ])

  -- A lock is for the session's life: unless the session is created anew or closed, no operations
  -- of anyone change its state, and it is verified for no customer at any time.
  pub locked_for_good :
      (cs : List Call) (r : VerificationRegistry) (j : String) (st : VerificationState)
      → state j r ≡ some st
      → st.locked ≡ true
      → any (resets j) cs ≡ false
      → (state j (run derive cs r) ≡ some st)
        × ((now : ℕ) (customer : String) → is_verified now j customer (run derive cs r) ≡ false)
  unfolding run
  locked_for_good [] r j st h l n = (h, λ now customer. is_verified-locked now j customer r st h l)
  locked_for_good (c ∷ cs) r j st h l n =
      locked_for_good cs (apply derive c r) j st (locked_apply c r j st h l (ground arith)) l
        (ground arith)

  -- In a locked session that the operations have brought about, `consume_input` takes no notice of
  -- what the caller says: the answer is "not handled", and its message that the session is locked
  -- is never given.
  pub consume-locked :
      (now : ℕ) (j customer : String) (text : Text) (r : VerificationRegistry)
      (st : VerificationState)
      → AllSound r
      → state j r ≡ some st
      → st.locked ≡ true
      → consume_input derive now j customer text r ≡ (not_handled, r)
  unfolding consume_input
  consume-locked now j customer text r st h at l =
      let sound : Sound r.max_attempts st = rw at at (h j) in
      rw (at, consume_input) (ground (arith, sound.shut l))
