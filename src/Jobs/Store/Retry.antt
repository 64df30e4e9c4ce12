-- ===== src/Jobs/Store/Retry.antt =====
-- jobs/store.py, `RetryPolicy.delay_for` and `fail`: backoff, retries and the dead-letter queue.
use native.Mathlib.Nat.{
  mul-le-mul_left, mul-le-mul_right, mul-le-mul, min-le_left, pow-le-pow_right,
}
use bfsi_voice_agent.Prelude.{
  ℕ, ◌+◌, ◌-◌, ◌*◌, ◌^◌, ◌≤◌, ◌<◌, min, String, ◌≡◌, ◌∙◌, refl, true, false, Option, none, some,
  List, [], ◌∷◌, arith, str_eq, eq_iff, inl, inr, Bool-cases, leb, Text, if◌then◌else◌, take,
}
use bfsi_voice_agent.Jobs.Types.{
  Row, Fields, RetryPolicy, JobStore, dlq, retrying, failed, completed,
}
use bfsi_voice_agent.Jobs.Tables.{find_job, held_by, with_id, is_runnable, update_where, rowcount}
use bfsi_voice_agent.Jobs.Store.{
  delay_for, fail, fail_found, find_held, dlq_row, retry_row, heartbeat, complete, complete_row,
  or_empty,
}
use bfsi_voice_agent.Jobs.Store.Distinct.{Distinct, KeepsKeys}
use bfsi_voice_agent.Jobs.Store.Transitions.{jobs-fail_found, jobs-complete}
use bfsi_voice_agent.Jobs.Store.Updates.{
  find_job-update_where, find_job-update_other, find_held-find_job, find_job-id,
}

abbrev pub raw_delay : RetryPolicy → ℕ → ℕ
raw_delay p attempt = min p.max_delay_ms (p.base_delay_ms * p.multiplier ^ (attempt - 1))

scaled_bounds :
    (raw top jitter draw : ℕ)
    → jitter ≤ 1000
    → draw ≤ 2 * jitter
    → raw ≤ top
    → (raw * (1000 - jitter) ≤ raw * (1000 + draw - jitter))
      × (raw * (1000 + draw - jitter) ≤ raw * (1000 + jitter))
      × (raw * (1000 + draw - jitter) ≤ top * (1000 + jitter))
scaled_bounds raw top jitter draw h k m = (
  mul-le-mul_left raw (omega arith),
  mul-le-mul_left raw (omega arith),
  mul-le-mul m (omega arith),
)

-- The delay, in microseconds, lies within the jitter's share of the exponential backoff
-- min(max_delay, base * multiplier^(attempt - 1)), and is at most max_delay and its jitter.
pub delay_for_bounds :
    (p : RetryPolicy) (draw attempt : ℕ)
    → p.jitter ≤ 1000
    → draw ≤ 2 * p.jitter
    → (raw_delay p attempt * (1000 - p.jitter) ≤ delay_for p draw attempt)
      × (delay_for p draw attempt ≤ raw_delay p attempt * (1000 + p.jitter))
      × (delay_for p draw attempt ≤ p.max_delay_ms * (1000 + p.jitter))
unfolding delay_for
delay_for_bounds p draw attempt h k =
    scaled_bounds (raw_delay p attempt) p.max_delay_ms p.jitter draw h k (min-le_left _ _)

-- With the same draw, a later attempt never waits less.
pub delay_for_mono :
    (p : RetryPolicy) (draw a b : ℕ)
    → 0 < p.multiplier
    → a ≤ b
    → delay_for p draw a ≤ delay_for p draw b
unfolding delay_for
delay_for_mono p draw a b pos h =
    let grows =
      mul-le-mul_left p.base_delay_ms
        (pow-le-pow_right {n = p.multiplier} pos {i = a - 1} {j = b - 1} (omega arith)) in
    mul-le-mul_right (1000 + draw - p.jitter) (omega (arith, grows))

not_held_update :
    (j w : String) (set : Row → Row) (rows : List Row)
    → find_held j w rows ≡ none
    → (update_where (held_by j w) set rows ≡ rows) × (rowcount (held_by j w) rows ≡ 0)
unfolding find_held update_where rowcount
not_held_update j w set [] h = (refl, refl)
not_held_update j w set (r ∷ rows) h = elim (Bool-cases (held_by j w r)) [
  | inl e ↦ absurd (ground arith)
  | inr e ↦
      let (same, zero_rows) = not_held_update j w set rows (ground arith) in
      (ground arith, ground arith)
]

-- A worker that does not hold the job (its lease went to another, or the job is not PROCESSING, or
-- there is no such job) changes nothing by a late heartbeat, completion or failure report.
pub stale_worker :
    (now draw : ℕ) (j w : String) (result : Option Fields) (error : Text) (s : JobStore)
    → find_held j w s.jobs ≡ none
    → (heartbeat now j w s ≡ s)
      × (complete now j w result s ≡ s)
      × (fail now draw j w error s ≡ (failed, s))
unfolding heartbeat complete fail
stale_worker now draw j w result error s h = (
  rw (not_held_update j w _ s.jobs h).0,
  rw (
    (not_held_update j w (complete_row now result) s.jobs h).0,
    (not_held_update j w (complete_row now result) s.jobs h).1,
  ),
  rw (h, fail),
)

-- What `fail` makes of the row.
abbrev pub failed_row : ℕ → ℕ → Text → Row → Row
failed_row now delay error r =
    if leb r.max_attempts r.attempts then dlq_row now error r else retry_row now delay error r

module _ (now draw : ℕ) (j w : String) (error : Text) (x : Row) (s : JobStore) (d : Distinct s.jobs)
    (at : find_job j s.jobs ≡ some x) (held : held_by j w x ≡ true) where
  -- A failure reported by the holder: with attempts left the job waits, RETRYING, and can be claimed
  -- again exactly from now + backoff on; with none left it is in the DLQ and no claim takes it at
  -- any time. The attempts are kept, the error is cut to 4000 characters, and no other job changes.
  pub fail_settles :
      let delay = delay_for s.retry_policy draw x.attempts in
      let out = leb x.max_attempts x.attempts in
      let (answer, s') = fail now draw j w error s in
      (y : Row) × (answer ≡ (if out then dlq else retrying))
      × (find_job j s'.jobs ≡ some y)
      × (y.status ≡ (if out then dlq else retrying))
      × (y.attempts ≡ x.attempts)
      × (y.error ≡ some (take 4000 error))
      × ((t : ℕ) → is_runnable t y ≡ (if out then false else leb (now + delay) t))
      × ((i : String) → str_eq j i ≡ false → find_job i s'.jobs ≡ find_job i s.jobs)
  unfolding fail
  fail_settles =
      let delay = delay_for s.retry_policy draw x.attempts in
      let set =
        (if leb x.max_attempts x.attempts then dlq_row now error else retry_row now delay error) in
      rw (found, fail)
        (
          failed_row now delay error x,
          unfold fail_found in ground arith,
          rw (jobs-fail_found, find_job-update_where (with_id j) set j s.jobs keeps)
              (rw at (ground (arith, eq_iff x.job_id j, find_job-id j s.jobs at))),
          ground arith,
          ground arith,
          ground arith,
          λ t. unfold is_runnable in ground arith,
          λ i ne.
              rw jobs-fail_found
                (find_job-update_other j (with_id j) (λ r h. h) i set s.jobs keeps ne),
        )
    where
      found : find_held j w s.jobs ≡ some x
      found = find_held-find_job j w s.jobs d ∙ rw at (rw held)

      keeps : KeepsKeys (
          if leb x.max_attempts x.attempts
          then dlq_row now error
          else retry_row now (delay_for s.retry_policy draw x.attempts) error)
      keeps r = (ground arith, ground arith)

  -- A completion reported by the holder: the job is COMPLETED with its result and no claim takes it
  -- at any time; no other job changes.
  pub complete_settles :
      (result : Option Fields)
      → let s' = complete now j w result s in
        (y : Row) × (find_job j s'.jobs ≡ some y)
        × (y.status ≡ completed)
        × (y.result ≡ some (or_empty result))
        × ((t : ℕ) → is_runnable t y ≡ false)
        × ((i : String) → str_eq j i ≡ false → find_job i s'.jobs ≡ find_job i s.jobs)
  complete_settles result = (
    complete_row now result x,
    rw
        (
          jobs-complete,
          find_job-update_where (held_by j w) (complete_row now result) j s.jobs
              (λ r. (refl, refl)),
        )
        (rw at (rw held)),
    refl,
    refl,
    λ t. unfold is_runnable in refl,
    λ i ne. rw jobs-complete (
        find_job-update_other j (held_by j w) (λ r h. ground arith) i (complete_row now result)
          s.jobs (λ r. (refl, refl)) ne),
  )
