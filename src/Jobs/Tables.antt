-- ===== src/Jobs/Tables.antt =====
-- jobs/store.py: the SQL statements of `JobStore` as functions of the tables.
use bfsi_voice_agent.Prelude.{
  ℕ, suc, String, Bool, false, ◌&&◌, ◌||◌, Option, none, some, List, [], ◌∷◌, ltb, leb, str_eq,
  if◌then◌else◌, any,
}
use bfsi_voice_agent.Jobs.Types.{
  Row, JobEvent, SideEffect, JobStatus, processing, queued, retrying, status_eq,
}

-- `worker_id=?`, which is never true of NULL.
abbrev pub owned_by : String → Option String → Bool
owned_by w none = false
owned_by w (some v) = str_eq v w

-- `SELECT … WHERE job_id=?`
unfoldable pub find_job : String → List Row → Option Row
find_job j [] = none
find_job j (r ∷ rs) = if str_eq r.job_id j then some r else find_job j rs

-- `SELECT … WHERE idempotency_key=?`
unfoldable pub find_key : String → List Row → Option Row
find_key k [] = none
find_key k (r ∷ rs) = if str_eq r.idempotency_key k then some r else find_key k rs

-- `UPDATE jobs SET … WHERE …`
unfoldable pub update_where : (Row → Bool) → (Row → Row) → List Row → List Row
update_where test set [] = []
update_where test set (r ∷ rs) = (if test r then set r else r) ∷ update_where test set rs

-- `.rowcount` of the statement above.
unfoldable pub rowcount : (Row → Bool) → List Row → ℕ
rowcount test [] = 0
rowcount test (r ∷ rs) = let rest = rowcount test rs in if test r then suc rest else rest

-- The WHERE clauses of the statements.
abbrev pub with_id : String → Row → Bool
with_id j r = str_eq r.job_id j

abbrev pub with_status : String → JobStatus → Row → Bool
with_status j st r = str_eq r.job_id j && status_eq r.status st

abbrev pub held_by : String → String → Row → Bool
held_by j w r = str_eq r.job_id j && (owned_by w r.worker_id && status_eq r.status processing)

-- The lease is set and ran out before `now`.
abbrev pub lease_over : ℕ → Option ℕ → Bool
lease_over now none = false
lease_over now (some t) = ltb t now

-- The WHERE clause of `claim`.
unfoldable pub is_runnable : ℕ → Row → Bool
is_runnable now r =
    ((status_eq r.status queued || status_eq r.status retrying) && leb r.available_at now)
    || (status_eq r.status processing && lease_over now r.lease_expires_at)

abbrev sooner : Row → Option Row → Row
sooner r none = r
sooner r (some s) = if leb r.available_at s.available_at then r else s

-- `SELECT … ORDER BY available_at ASC LIMIT 1` under `is_runnable`; of equals, the first row.
unfoldable pub earliest : ℕ → List Row → Option Row
unfolding is_runnable
earliest now [] = none
earliest now (r ∷ rs) =
    let rest = earliest now rs in if is_runnable now r then some (sooner r rest) else rest

-- Whether an INSERT into `jobs` breaks PRIMARY KEY(job_id) or UNIQUE(idempotency_key).
unfoldable pub job_exists : String → String → List Row → Bool
job_exists j k = any (λ r. str_eq r.job_id j || str_eq r.idempotency_key k)

-- Whether an INSERT into `side_effects` breaks PRIMARY KEY(effect_key).
unfoldable pub effect_exists : String → List SideEffect → Bool
effect_exists k = any (λ e. str_eq e.effect_key k)

-- `SELECT … FROM job_events WHERE job_id=? ORDER BY id`
unfoldable pub events_of : String → List JobEvent → List JobEvent
events_of j [] = []
events_of j (e ∷ es) = let rest = events_of j es in if str_eq e.job_id j then e ∷ rest else rest
