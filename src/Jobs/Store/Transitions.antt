-- ===== src/Jobs/Store/Transitions.antt =====
-- What one call, and any run of calls, does to the rows of the table `jobs`.
use bfsi_voice_agent.Prelude.{
  ℕ, String, ◌≡◌, refl, Bool, true, false, Option, none, some, List, [], ◌∷◌, arith, eq_iff, inl,
  inr, Bool-cases, Option-cases, Text, leb, ◌+◌, if◌then◌else◌,
}
use bfsi_voice_agent.Jobs.Types.{Row, Fields, dlq, JobStore}
use bfsi_voice_agent.Jobs.Tables.{
  update_where, job_exists, with_id, with_status, held_by, earliest, is_runnable, effect_exists,
}
use bfsi_voice_agent.Jobs.Store.{
  submit, claim, claim_row, heartbeat, complete, fail, fail_found, find_held, side_effect_once,
  requeue_dlq, claim_found, complete_row, requeue_row, delay_for, dlq_row, retry_row, new_row,
  attempts_or,
}
use bfsi_voice_agent.Jobs.Store.Distinct.{
  Distinct, KeepsKeys, Distinct-update_where, Distinct-append,
}
use bfsi_voice_agent.Jobs.Store.Runs.{
  Call, submit_call, claim_call, heartbeat_call, complete_call, fail_call, effect_call,
  requeue_call, apply, run, Kept, Step, Evolves, edges, Evolves-Step-refl, Evolves-Kept-refl,
  Evolves-Kept-trans, Evolves-append, Evolves-update_where, stay,
}

-- What a call leaves of the rows: unique keys, and each row a step further at most.
pub record Advances (rows rows' : List Row) : Type 0 where
  pub distinct : Distinct rows'
  pub evolves : Evolves Step rows rows'

Advances-refl : (rows : List Row) → Distinct rows → Advances rows rows
Advances-refl rows d = record { distinct = d; evolves = Evolves-Step-refl rows }

Advances-update_where :
    (test : Row → Bool) (set : Row → Row)
    → KeepsKeys set
    → ((r : Row) → test r ≡ true → Step r (set r))
    → (rows : List Row) → Distinct rows
    → Advances rows (update_where test set rows)
Advances-update_where test set keeps steps rows d = record {
  distinct = Distinct-update_where test set keeps rows d;
  evolves = Evolves-update_where test set steps rows;
}

-- The SELECT of `claim` finds a runnable row.
pub earliest-is_runnable :
    (now : ℕ) (rows : List Row) {r : Row} → earliest now rows ≡ some r → is_runnable now r ≡ true
unfolding earliest
earliest-is_runnable now [] h = cc
earliest-is_runnable now (x ∷ rows) h = elim (Option-cases (earliest now rows)) [
  | inl e ↦ ground arith
  | inr (y, e) ↦ let ih = earliest-is_runnable now rows e in ground arith
]

-- With unique ids, the UPDATEs of `fail` reach the row that its SELECT found and no other.
absent_update :
    (j k : String) (set : Row → Row) (rows : List Row)
    → job_exists j k rows ≡ false
    → update_where (with_id j) set rows ≡ rows
unfolding update_where job_exists
absent_update j k set [] h = refl
absent_update j k set (r ∷ rows) h = ground (arith, absent_update j k set rows)

absent_held :
    (j k w : String) (rows : List Row) → job_exists j k rows ≡ false → find_held j w rows ≡ none
unfolding find_held job_exists
absent_held j k w [] h = refl
absent_held j k w (r ∷ rows) h = ground (arith, absent_held j k w rows)

absent_update_held :
    (j k w : String) (set : Row → Row) (rows : List Row)
    → job_exists j k rows ≡ false
    → update_where (held_by j w) set rows ≡ rows
unfolding update_where job_exists
absent_update_held j k w set [] h = refl
absent_update_held j k w set (r ∷ rows) h = ground (arith, absent_update_held j k w set rows)

update_held :
    (j w : String) (set : Row → Row) (rows : List Row) {r : Row}
    → Distinct rows
    → find_held j w rows ≡ some r
    → update_where (with_id j) set rows ≡ update_where (held_by j w) set rows
unfolding update_where find_held
update_held j w set [] d h = cc
update_held j w set (x ∷ rows) {r} d h = ground (
  arith,
  eq_iff x.job_id j,
  absent_update x.job_id x.idempotency_key set rows d.0,
  absent_held x.job_id x.idempotency_key w rows d.0,
  absent_update_held x.job_id x.idempotency_key w set rows d.0,
  update_held j w set rows {r = r} d.1,
)

-- The rows that each call leaves.
pub jobs-claim_found :
    (now : ℕ) (w : String) (r : Row) (s : JobStore)
    → (claim_found now w r s).1.jobs
      ≡ update_where
          (with_status r.job_id r.status)
          (claim_row now (now + s.lease_seconds) w)
          s.jobs
unfolding claim_found
jobs-claim_found now w r s = ground arith

pub jobs-complete :
    (now : ℕ) (j w : String) (result : Option Fields) (s : JobStore)
    → (complete now j w result s).jobs ≡ update_where (held_by j w) (complete_row now result) s.jobs
unfolding complete
jobs-complete now j w result s = ground arith

pub jobs-fail_found :
    (now draw : ℕ) (j w : String) (error : Text) (r : Row) (s : JobStore)
    → (fail_found now draw j w error r s).1.jobs
      ≡ update_where
          (with_id j)
          (if leb r.max_attempts r.attempts
            then dlq_row now error
            else retry_row now (delay_for s.retry_policy draw r.attempts) error)
          s.jobs
unfolding fail_found
jobs-fail_found now draw j w error r s = ground arith

-- Where the row is runnable, the SET clause of `claim` is an edge of the diagram.
claim_edge :
    (now until : ℕ) (w : String) (r x : Row)
    → is_runnable now r ≡ true
    → with_status r.job_id r.status x ≡ true
    → Step x (claim_row now until w x)
unfolding is_runnable
claim_edge now until w r x ready h = record { kept = ground arith; edge = ground (arith, edges) }

claim-Advances :
    (now : ℕ) (w : String) (s : JobStore) → Distinct s.jobs → Advances s.jobs (claim now w s).1.jobs
unfolding claim
claim-Advances now w s d = elim (Option-cases (earliest now s.jobs)) [
  | inl e ↦ rw (e, claim) (Advances-refl s.jobs d)
  | inr (r, e) ↦
      rw (e, claim, jobs-claim_found)
        (Advances-update_where (with_status r.job_id r.status)
          (claim_row now (now + s.lease_seconds) w) (λ x. (refl, refl))
          (λ x h.
            claim_edge now (now + s.lease_seconds) w r x (earliest-is_runnable now s.jobs e) h)
          s.jobs d)
]

heartbeat-Advances :
    (now : ℕ) (j w : String) (s : JobStore)
    → Distinct s.jobs
    → Advances s.jobs (heartbeat now j w s).jobs
unfolding heartbeat
heartbeat-Advances now j w s d =
    Advances-update_where (held_by j w) _ (λ r. (refl, refl))
      (λ r h. record { kept = ground arith; edge = stay }) s.jobs d

complete-Advances :
    (now : ℕ) (j w : String) (result : Option Fields) (s : JobStore)
    → Distinct s.jobs
    → Advances s.jobs (complete now j w result s).jobs
complete-Advances now j w result s d = rw jobs-complete (
    Advances-update_where (held_by j w) (complete_row now result) (λ r. (refl, refl))
      (λ r h. record { kept = ground arith; edge = ground (arith, edges) }) s.jobs d)

fail-Advances :
    (now draw : ℕ) (j w : String) (error : Text) (s : JobStore)
    → Distinct s.jobs
    → Advances s.jobs (fail now draw j w error s).1.jobs
unfolding fail
fail-Advances now draw j w error s d = elim (Option-cases (find_held j w s.jobs)) [
  | inl e ↦ rw (e, fail) (Advances-refl s.jobs d)
  | inr (r, e) ↦
      let set =
        (if leb r.max_attempts r.attempts
          then dlq_row now error
          else retry_row now (delay_for s.retry_policy draw r.attempts) error) in
      rw (e, fail, jobs-fail_found, update_held j w set s.jobs d e)
        (Advances-update_where (held_by j w) set (λ x. (ground arith, ground arith))
          (λ x h. record { kept = ground arith; edge = ground (arith, edges) }) s.jobs d)
]

requeue-Advances :
    (now : ℕ) (j : String) (s : JobStore)
    → Distinct s.jobs
    → Advances s.jobs (requeue_dlq now j s).1.jobs
unfolding requeue_dlq
requeue-Advances now j s d =
    Advances-update_where (with_status j dlq) (requeue_row now) (λ r. (refl, refl))
      (λ r h. record { kept = ground arith; edge = ground (arith, edges) }) s.jobs d

pub submit-Advances :
    (now : ℕ) (j k type : String) (payload : Fields) (limit : Option ℕ) (s : JobStore)
    → Distinct s.jobs
    → Advances s.jobs (submit now j k type payload limit s).1.jobs
unfolding submit
submit-Advances now j k type payload limit s d = elim (Bool-cases (job_exists j k s.jobs)) [
  | inl e ↦ rw (e, submit) (Advances-refl s.jobs d)
  | inr e ↦
      let row = new_row now j k type payload (attempts_or limit s.retry_policy.max_attempts) in
      rw (e, submit)
        (record {
          distinct = Distinct-append row s.jobs e d;
          evolves = Evolves-append s.jobs (row ∷ []);
        })
]

effect-Advances :
    (now : ℕ) (key j detail : String) (s : JobStore)
    → Distinct s.jobs
    → Advances s.jobs (side_effect_once now key j detail s).1.jobs
unfolding side_effect_once
effect-Advances now key j detail s d = elim (Bool-cases (effect_exists key s.side_effects)) [
  | inl e ↦ rw (e, side_effect_once) (Advances-refl s.jobs d)
  | inr e ↦ rw (e, side_effect_once) (Advances-refl s.jobs d)
]

-- One call, whichever it is, keeps the keys unique and moves each job along the diagram.
pub apply-Advances : (c : Call) (s : JobStore) → Distinct s.jobs → Advances s.jobs (apply c s).jobs
unfolding apply
apply-Advances (submit_call now j k type payload limit) s d =
    submit-Advances now j k type payload limit s d
apply-Advances (claim_call now w) s d = claim-Advances now w s d
apply-Advances (heartbeat_call now j w) s d = heartbeat-Advances now j w s d
apply-Advances (complete_call now j w result) s d = complete-Advances now j w result s d
apply-Advances (fail_call now draw j w error) s d = fail-Advances now draw j w error s d
apply-Advances (effect_call now key j detail) s d = effect-Advances now key j detail s d
apply-Advances (requeue_call now j) s d = requeue-Advances now j s d

-- Over any run of calls, from unique keys, the keys stay unique, every job keeps its place, its
-- identity, its payload and its limit, and a completed job does not change again.
pub run-Kept :
    (cs : List Call) (s : JobStore)
    → Distinct s.jobs
    → Distinct (run cs s).jobs × Evolves Kept s.jobs (run cs s).jobs
unfolding run
run-Kept [] s d = (d, Evolves-Kept-refl s.jobs)
run-Kept (c ∷ cs) s d =
    let a = apply-Advances c s d in
    let (d', k) = run-Kept cs (apply c s) a.distinct in
    (d', Evolves-Kept-trans s.jobs (apply c s).jobs (run cs (apply c s)).jobs a.evolves k)
