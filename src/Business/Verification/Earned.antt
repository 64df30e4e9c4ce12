-- ===== src/Business/Verification/Earned.antt =====
-- business/verification.py: a session is verified only by the right code, and for the time to live.
use bfsi_voice_agent.Prelude.{
  ℕ, ◌+◌, ◌<◌, String, ◌≡◌, ◌⊎◌, ◌∙◌, refl, subst₂, ap, Bool, true, false, not, ◌||◌, Option, none,
  some, List, [], ◌∷◌, arith, str_eq, eq_iff, eq_refl, inl, inr, Bool-cases, Option-cases, ltb,
  Text, is_empty,
}
use bfsi_voice_agent.Business.Verification.{
  VerificationState, VerificationRegistry, Secret, state, begin, consume_input, consume_awaited,
  try_code, is_verified, verifies, verified, verify_secret,
}
use bfsi_voice_agent.Business.Verification.Digits.{extract_four_digits}
use bfsi_voice_agent.Business.Verification.Sessions.{begun, state-begin, state-save, consumed}
use bfsi_voice_agent.Business.Verification.Lockout.{
  Call, create_call, close_call, begin_call, consume_call, session, apply, run, apply-settings,
  changed, state-apply,
}

abbrev verifies_if_any : ℕ → String → Option VerificationState → Bool
verifies_if_any now customer none = false
verifies_if_any now customer (some st) = verifies now customer st

-- A call that verifies the session for the customer at a time: an input from which the right code
-- was read, less than the time to live before.
abbrev pub Earns : (Text → String → String) → List Secret → ℕ → ℕ → String → String → Call → Type 0
Earns derive db ttl now j customer (consume_call t sid c text) =
    (str_eq sid j ≡ true)
    × (c ≡ customer)
    × (now < t + ttl)
    × ((code : Text) × (extract_four_digits text ≡ some code)
        × (verify_secret derive customer code db ≡ true))
Earns derive db ttl now j customer (create_call sid c) = ⊥
Earns derive db ttl now j customer (close_call sid) = ⊥
Earns derive db ttl now j customer (begin_call t sid c pending) = ⊥

abbrev pub Some : (Call → Type 0) → List Call → Type 0
Some P [] = ⊥
Some P (c ∷ cs) = P c ⊎ Some P cs

is_verified-state :
    (now : ℕ) (j customer : String) (r : VerificationRegistry)
    → is_verified now j customer r ≡ verifies_if_any now customer (state j r)
unfolding is_verified
is_verified-state now j customer r = ground arith

module _ (derive : Text → String → String) (now : ℕ) (j customer : String) where
  earned_consumed :
      (t : ℕ) (c : String) (text : Text) (r : VerificationRegistry) (st : VerificationState)
      → verifies now customer (consumed derive t c text r st) ≡ true
      → (verifies now customer st ≡ true)
        ⊎ ((c ≡ customer)
            × (now < t + r.verified_ttl)
            × ((code : Text) × (extract_four_digits text ≡ some code)
                × (verify_secret derive customer code r.db ≡ true)))
  unfolding consumed
  earned_consumed t c text r st h =
      elim (Bool-cases (not (str_eq st.customer_id c) || not st.awaiting_code || st.locked)) [
        | inl shut ↦ inl (ground arith)
        | inr open_session ↦ elim (Option-cases (extract_four_digits text)) [
          | inl none_found ↦ inl (ground arith)
          | inr (code, found) ↦ elim (Bool-cases (verify_secret derive c code r.db)) [
            | inl right ↦
                let same : c ≡ customer =
                  ground (arith, eq_iff st.customer_id c, eq_iff st.customer_id customer) in
                inr (same, ground arith, (code, found, rw (← same) right))
            | inr wrong ↦ inl (ground arith)
          ]
        ]
      ]

  earned_changed :
      (k : Call) (r : VerificationRegistry) (o : Option VerificationState)
      → str_eq (session k) j ≡ true
      → verifies_if_any now customer (changed derive k r o) ≡ true
      → (verifies_if_any now customer o ≡ true) ⊎ Earns derive r.db r.verified_ttl now j customer k
  unfolding changed
  earned_changed (create_call sid c) r o e h = absurd (ground arith)
  earned_changed (close_call sid) r o e h = cc
  earned_changed (begin_call t sid c pending) r none e h = absurd (ground arith)
  earned_changed (begin_call t sid c pending) r (some st) e h = inl (ground arith)
  earned_changed (consume_call t sid c text) r none e h = cc
  earned_changed (consume_call t sid c text) r (some st) e h =
      elim (earned_consumed t c text r st h) [
        | inl before ↦ inl before
        | inr (same, fresh, code) ↦ inr (e, same, fresh, code)
      ]

  earned_apply :
      (k : Call) (r : VerificationRegistry)
      → is_verified now j customer (apply derive k r) ≡ true
      → (is_verified now j customer r ≡ true) ⊎ Earns derive r.db r.verified_ttl now j customer k
  earned_apply k r h =
      let h' = rw (is_verified-state, state-apply derive k r j) at h in
      elim (Bool-cases (str_eq (session k) j)) [
        | inl e ↦
            let same : session k ≡ j = (eq_iff (session k) j).0 e in
            elim (earned_changed k r (state (session k) r) e (rw e at h')) [
              | inl before ↦ inl (rw (is_verified-state, ← same) before)
              | inr earns ↦ inr earns
            ]
        | inr e ↦ inl (rw is_verified-state (rw e at h'))
      ]

  -- Whoever is verified has said the right code: after any operations on any sessions, a session
  -- counts as verified for a customer at a time only if it did before them, or if one of them was an
  -- input in this session for this customer from which a code was read that the stored secret
  -- confirms, less than the time to live before.
  pub verified_was_earned :
      (cs : List Call) (r : VerificationRegistry)
      → is_verified now j customer (run derive cs r) ≡ true
      → (is_verified now j customer r ≡ true)
        ⊎ Some (Earns derive r.db r.verified_ttl now j customer) cs
  unfolding run
  verified_was_earned [] r h = inl h
  verified_was_earned (k ∷ cs) r h =
      let (db, ttl, limit) = apply-settings derive k r in
      elim (verified_was_earned cs (apply derive k r) h) [
        | inl before ↦ elim (earned_apply k r before) [
          | inl older ↦ inl older
          | inr earns ↦ inr (inl earns)
        ]
        | inr later ↦ inr (
            inr (
              subst₂ (λ (d : List Secret) (l : ℕ). Some (Earns derive d l now j customer) cs) db ttl
                later))
      ]

consume_awaiting :
    (derive : Text → String → String) (now t : ℕ) (j customer : String) (text code : Text)
    (r : VerificationRegistry) (st : VerificationState)
    → state j r ≡ some st
    → st.customer_id ≡ customer
    → st.locked ≡ false
    → st.awaiting_code ≡ true
    → extract_four_digits text ≡ some code
    → verify_secret derive customer code r.db ≡ true
    → ((consume_input derive now j customer text r).0.success ≡ true)
      × ((consume_input derive now j customer text r).0.resume_text ≡ st.pending_request)
      × (state j (consume_input derive now j customer text r).1
          ≡ some (verified (now + r.verified_ttl) st))
unfolding consume_input consume_awaited try_code
consume_awaiting derive now t j customer text code r st at own unlocked open_session found right =
    let new = verified (now + r.verified_ttl) st in
    rw (at, consume_input)
      (ground (
        arith,
        own,
        unlocked,
        open_session,
        found,
        right,
        eq_iff st.customer_id customer,
        eq_refl j,
        state-save j j new r,
      ))

-- The whole exchange: an unverified, unlocked session of the customer that `begin` was asked to open
-- with a non-empty request answers the right code with success and hands that request back, and it is then
-- verified exactly until the time to live is over.
pub begin-consume_input :
    (derive : Text → String → String) (now later t : ℕ) (j customer : String)
    (request text code : Text) (r : VerificationRegistry) (st : VerificationState)
    → state j r ≡ some st
    → st.customer_id ≡ customer
    → st.locked ≡ false
    → ltb now st.verified_until ≡ false
    → is_empty request ≡ false
    → extract_four_digits text ≡ some code
    → verify_secret derive customer code r.db ≡ true
    → let r₁ = (begin now j customer (some request) r).1 in
      let (result, r₂) = consume_input derive later j customer text r₁ in
      (result.success ≡ true)
      × (result.resume_text ≡ some request)
      × (is_verified t j customer r₂ ≡ ltb t (later + r.verified_ttl))
begin-consume_input derive now later t j customer request text code r st at own unlocked due asked
      found right =
    let r₁ = (begin now j customer (some request) r).1 in
    let (db, ttl, limit) = apply-settings derive (begin_call now j customer (some request)) r in
    let open_session : VerificationState = record st {
      awaiting_code = true;
      pending_request = some request;
    } in
    let same : begun now customer (some request) st ≡ open_session =
      ground (arith, own, unlocked, due, asked, eq_iff st.customer_id customer) in
    let here : state j r₁ ≡ some open_session =
      state-begin now j customer (some request) r j ∙ rw (at, eq_refl j) (ap some same) in
    let kept : r₁.verified_ttl ≡ r.verified_ttl = unfold apply in ttl in
    let yes : str_eq st.customer_id customer ≡ true = (eq_iff st.customer_id customer).1 own in
    let (won, back, after) =
      consume_awaiting derive later t j customer text code r₁ open_session here own unlocked refl
        found (unfold apply in rw db right) in
    (won, back, rw (is_verified-state, after, kept, yes, unlocked) refl)
