-- ===== src/Jobs/Types.antt =====
-- jobs/store.py: the job's states, the three tables and the store that holds them.
-- Times are whole microseconds, the delays of the policy whole milliseconds, its jitter thousandths.
use bfsi_voice_agent.Prelude.{ℕ, String, Bool, true, false, List, Option, Text}

-- A `dict[str, Any]` as `json.dumps` writes it and `json.loads` reads it back.
mutual
  pub data Value : Type 0 where
    null : Value
    bool : Bool → Value
    int : ℕ → Value
    str : String → Value
    dict : Fields → Value

  pub data Fields : Type 0 where
    end : Fields
    field : String → Value → Fields → Fields

pub data JobStatus : Type 0 where
  submitted queued processing completed failed retrying dlq : JobStatus

-- `status=?` in a WHERE clause.
abbrev pub status_eq : JobStatus → JobStatus → Bool
status_eq submitted submitted = true
status_eq queued queued = true
status_eq processing processing = true
status_eq completed completed = true
status_eq failed failed = true
status_eq retrying retrying = true
status_eq dlq dlq = true
status_eq _ _ = false

pub record RetryPolicy : Type 0 where
  pub max_attempts : ℕ
  pub base_delay_ms : ℕ
  pub max_delay_ms : ℕ
  pub multiplier : ℕ
  pub jitter : ℕ

-- A row of the table `jobs`.
pub record Row : Type 0 where
  pub job_id : String
  pub idempotency_key : String
  pub type : String
  pub payload : Fields
  pub status : JobStatus
  pub attempts : ℕ
  pub max_attempts : ℕ
  pub created_at : ℕ
  pub updated_at : ℕ
  pub available_at : ℕ
  pub lease_expires_at : Option ℕ
  pub worker_id : Option String
  pub completed_at : Option ℕ
  pub error : Option Text
  pub result : Option Fields

-- The `detail` column: the fixed texts, the error text, and the delay that is formatted into it.
pub data Detail : Type 0 where
  api claimed lease_reclaimed_from_expired_worker max_attempts_exhausted manual_requeue : Detail
  error_text : Text → Detail
  retry_in : ℕ → Detail

-- A row of `job_events`; the list's order is the order of `id`.
pub record JobEvent : Type 0 where
  pub job_id : String
  pub ts : ℕ
  pub from_status : Option JobStatus
  pub to_status : JobStatus
  pub worker_id : Option String
  pub detail : Option Detail

-- A row of `side_effects`.
pub record SideEffect : Type 0 where
  pub effect_key : String
  pub job_id : String
  pub ts : ℕ
  pub detail : String

-- `JobStore`: the database and the two settings.
pub record JobStore : Type 0 where
  pub jobs : List Row
  pub job_events : List JobEvent
  pub side_effects : List SideEffect
  pub retry_policy : RetryPolicy
  pub lease_seconds : ℕ

-- `Job`, as `get` returns it: the row and its events.
pub record Job : Type 0 where
  pub row : Row
  pub events : List JobEvent

pub data Error : Type 0 where
  key_error : String → Error
  type_error : Error
  runtime_error : String → Error

pub data Result {ℓ} (A : Type ℓ) : Type ℓ where
  ok : A → Result A
  err : Error → Result A
