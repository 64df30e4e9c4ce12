-- ===== src/Jobs/Store.antt =====
-- jobs/store.py: the methods of `JobStore`, each one transaction over the three tables.
-- The clock's reading, the fresh job id and the jitter's draw are arguments. A method returns its
-- result and the store that it commits.
pub mod Distinct
pub mod Runs
pub mod Transitions
pub mod Updates
pub mod Claims
pub mod Drained
pub mod Lease
pub mod Ledger
pub mod Retry
pub mod Crashes
pub mod Submit
pub mod Reports
use bfsi_voice_agent.Prelude.{
  ℕ, ◌+◌, ◌-◌, ◌*◌, ◌^◌, min, String, Bool, true, false, Option, none, some, List, [], ◌∷◌, ◌++◌,
  ◌==◌, leb, if◌then◌else◌, take, Text,
}
use bfsi_voice_agent.Jobs.Types.{
  Fields, end, Row, JobEvent, JobStatus, submitted, queued, processing, completed, failed, retrying,
  dlq, status_eq, RetryPolicy, JobStore, Job, Detail, api, claimed,
  lease_reclaimed_from_expired_worker, max_attempts_exhausted, manual_requeue, error_text, retry_in,
  key_error, type_error, Result, ok, err,
}
use bfsi_voice_agent.Jobs.Tables.{
  find_job, find_key, update_where, rowcount, with_id, with_status, held_by, earliest, job_exists,
  effect_exists, events_of,
}

-- `delay_for`, in microseconds: `draw` between 0 and `2 * jitter` is `random.uniform(-j, j)`.
unfoldable pub delay_for : RetryPolicy → ℕ → ℕ → ℕ
delay_for p draw attempt =
    let raw = min p.max_delay_ms (p.base_delay_ms * p.multiplier ^ (attempt - 1)) in
    raw * (1000 + draw - p.jitter)

abbrev pub event :
    ℕ → String → Option JobStatus → JobStatus → Option String → Option Detail → JobEvent
event now j from to w d = record {
  job_id = j;
  ts = now;
  from_status = from;
  to_status = to;
  worker_id = w;
  detail = d;
}

-- `_event`
unfoldable pub add_event : JobEvent → JobStore → JobStore
add_event e s = record s { job_events = s.job_events ++ e ∷ [] }

abbrev pub get_row : String → Option Row → List JobEvent → Result Job
get_row j none es = err (key_error j)
get_row j (some r) es = ok (record { row = r; events = events_of j es })

-- `get`
unfoldable pub get : String → JobStore → Result Job
unfolding find_job events_of
get j s = get_row j (find_job j s.jobs) s.job_events

-- `max_attempts or self.retry_policy.max_attempts`
abbrev pub attempts_or : Option ℕ → ℕ → ℕ
attempts_or none d = d
attempts_or (some n) d = if n == 0 then d else n

abbrev pub new_row : ℕ → String → String → String → Fields → ℕ → Row
new_row now j k type payload limit = record {
  job_id = j;
  idempotency_key = k;
  type = type;
  payload = payload;
  status = queued;
  attempts = 0;
  max_attempts = limit;
  created_at = now;
  updated_at = now;
  available_at = now;
  lease_expires_at = none;
  worker_id = none;
  completed_at = none;
  error = none;
  result = none;
}

abbrev pub paired {ℓ} : {A B : Type ℓ} → B → Result A → Result (A × B)
paired b (ok a) = ok (a, b)
paired b (err e) = err e

-- The answer to a repeated key; `row["job_id"]` of a missing row is a TypeError.
abbrev pub existing : Option Row → JobStore → Result (Job × Bool)
existing none s = err type_error
existing (some r) s = paired false (get r.job_id s)

-- `submit`, at a job id that `uuid4` made.
unfoldable pub submit :
    ℕ → String → String → String → Fields → Option ℕ → JobStore → Result (Job × Bool) × JobStore
unfolding add_event get find_key job_exists
submit now j k type payload limit s =
    let row = new_row now j k type payload (attempts_or limit s.retry_policy.max_attempts) in
    let s' = add_event (event now j (some submitted) queued none none) (
      add_event (event now j none submitted none (some api))
        (record s { jobs = s.jobs ++ row ∷ [] })) in
    if job_exists j k s.jobs
    then (existing (find_key k s.jobs) s, s)
    else (paired true (get j s'), s')

-- The SET clause of `claim`.
abbrev pub claim_row : ℕ → ℕ → String → Row → Row
claim_row now lease_until w r = record r {
  status = processing;
  attempts = r.attempts + 1;
  worker_id = some w;
  lease_expires_at = some lease_until;
  updated_at = now;
}

abbrev pub found_job : Result Job → Result (Option Job)
found_job (ok job) = ok (some job)
found_job (err e) = err e

abbrev pub claim_detail : JobStatus → Detail
claim_detail prev =
    if status_eq prev processing then lease_reclaimed_from_expired_worker else claimed

-- `claim`, after the SELECT found `r`.
unfoldable pub claim_found : ℕ → String → Row → JobStore → Result (Option Job) × JobStore
unfolding add_event get update_where rowcount
claim_found now w r s =
    let here = with_status r.job_id r.status in
    let s' : JobStore = record s {
      jobs = update_where here (claim_row now (now + s.lease_seconds) w) s.jobs;
    } in
    let s'' =
      add_event
        (event now r.job_id (some r.status) processing (some w) (some (claim_detail r.status)))
        s' in
    if rowcount here s.jobs == 1 then (found_job (get r.job_id s''), s'') else (ok none, s')

unfoldable pub claim : ℕ → String → JobStore → Result (Option Job) × JobStore
unfolding claim_found earliest
claim now w s = elim (earliest now s.jobs) [ none ↦ (ok none, s) | some r ↦ claim_found now w r s ]

unfoldable pub heartbeat : ℕ → String → String → JobStore → JobStore
unfolding update_where
heartbeat now j w s = record s {
  jobs =
      update_where (held_by j w) (λ r. record r { lease_expires_at = some (now + s.lease_seconds) })
        s.jobs;
}

-- `result or {}`
abbrev pub or_empty : Option Fields → Fields
or_empty none = end
or_empty (some f) = f

abbrev pub complete_row : ℕ → Option Fields → Row → Row
complete_row now result r = record r {
  status = completed;
  completed_at = some now;
  updated_at = now;
  lease_expires_at = none;
  error = none;
  result = some (or_empty result);
}

unfoldable pub complete : ℕ → String → String → Option Fields → JobStore → JobStore
unfolding update_where rowcount add_event
complete now j w result s =
    let s' : JobStore = record s {
      jobs = update_where (held_by j w) (complete_row now result) s.jobs;
    } in
    if rowcount (held_by j w) s.jobs == 1
    then add_event (event now j (some processing) completed (some w) none) s'
    else s'

-- `SELECT attempts, max_attempts … WHERE job_id=? AND worker_id=? AND status=?`
unfoldable pub find_held : String → String → List Row → Option Row
find_held j w [] = none
find_held j w (r ∷ rs) = if held_by j w r then some r else find_held j w rs

abbrev pub dlq_row : ℕ → Text → Row → Row
dlq_row now error r = record r {
  status = dlq;
  updated_at = now;
  lease_expires_at = none;
  error = some (take 4000 error);
}

abbrev pub retry_row : ℕ → ℕ → Text → Row → Row
retry_row now delay error r = record r {
  status = retrying;
  updated_at = now;
  available_at = now + delay;
  lease_expires_at = none;
  error = some (take 4000 error);
}

-- `fail`, after the SELECT found `r`.
unfoldable pub fail_found : ℕ → ℕ → String → String → Text → Row → JobStore → JobStatus × JobStore
unfolding update_where add_event delay_for
fail_found now draw j w error r s =
    let delay = delay_for s.retry_policy draw r.attempts in
    let failure =
      event now j (some processing) failed (some w) (some (error_text (take 500 error))) in
    let to_dlq : JobStore = record s {
      jobs = update_where (with_id j) (dlq_row now error) s.jobs;
    } in
    let to_retry : JobStore = record s {
      jobs = update_where (with_id j) (retry_row now delay error) s.jobs;
    } in
    if leb r.max_attempts r.attempts
    then (
      dlq,
      add_event (event now j (some failed) dlq (some w) (some max_attempts_exhausted))
          (add_event failure to_dlq),
    )
    else (
      retrying,
      add_event (event now j (some failed) retrying (some w) (some (retry_in delay)))
          (add_event failure to_retry),
    )

unfoldable pub fail : ℕ → ℕ → String → String → Text → JobStore → JobStatus × JobStore
unfolding find_held fail_found
fail now draw j w error s = elim (find_held j w s.jobs) [
  | none ↦ (failed, s)
  | some r ↦ fail_found now draw j w error r s
]

unfoldable pub side_effect_once : ℕ → String → String → String → JobStore → Bool × JobStore
unfolding effect_exists
side_effect_once now key j detail s = if effect_exists key s.side_effects then (false, s) else (
  true,
  record s {
    side_effects =
        s.side_effects ++ record { effect_key = key; job_id = j; ts = now; detail = detail } ∷ [];
  },
)

abbrev pub requeue_row : ℕ → Row → Row
requeue_row now r = record r {
  status = queued;
  attempts = 0;
  available_at = now;
  updated_at = now;
  error = none;
}

-- `requeue_dlq`: the event is inserted whether or not a row was updated.
unfoldable pub requeue_dlq : ℕ → String → JobStore → Result Job × JobStore
unfolding add_event get update_where
requeue_dlq now j s =
    let s' =
      add_event (event now j (some dlq) queued none (some manual_requeue))
        (record s { jobs = update_where (with_status j dlq) (requeue_row now) s.jobs }) in
    (get j s', s')
