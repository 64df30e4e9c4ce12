-- ===== src/Jobs/Worker.antt =====
-- jobs/worker.py: the worker, its job context, the ledger and the registered handlers.
-- The clock moves only while a handler sleeps; the wall clock that passes in between is a step of
-- the surroundings. `format_exc` and `str` of an exception are the argument `describe`.
pub mod Delivery
pub mod Once
pub mod Sleep
use Prim.Native.String.{◌++◌ as str_append}
use bfsi_voice_agent.Prelude.{
  ℕ, zero, suc, ◌+◌, ◌-◌, ◌*◌, String, Bool, true, false, not, ◌&&◌, Option, none, some, List, [],
  ◌∷◌, ◌++◌, ltb, leb, ◌==◌, str_eq, if◌then◌else◌, Text, codes, is_digit,
}
use bfsi_voice_agent.Jobs.Types.{
  Value, null, bool, int, str, dict, Fields, end, field, Row, JobStore, Job, Error, key_error,
  type_error, runtime_error, Result, ok, err, JobStatus,
}
use bfsi_voice_agent.Jobs.Store.{claim, heartbeat, complete, fail, side_effect_once}

-- A line of the side-effect log that `_append_effect` writes, less its time stamp.
pub record LogLine : Type 0 where
  pub kind : String
  pub job_id : String
  pub detail : Fields

-- What a worker's code reads and writes.
pub record World : Type 0 where
  pub store : JobStore
  pub side_effect_log : List LogLine
  pub clock : ℕ
  pub processed : ℕ

-- Code that may raise; what it wrote before it raised stays written.
abbrev pub M : Type 0 → Type 0
M A = World → Result A × World

abbrev pub continue : {A B : Type 0} → Result A → (A → M B) → M B
continue (ok a) f w = f a w
continue (err e) f w = (err e, w)

infixl 5 ◌>>=◌ ◌>>◌
abbrev pub ◌>>=◌ : {A B : Type 0} → M A → (A → M B) → M B
◌>>=◌ m f w = let (r, w') = m w in continue r f w'

abbrev pub ◌>>◌ : {B : Type 0} → M (Unit {0}) → M B → M B
m >> n = m >>= λ _. n

abbrev pub pure : {A : Type 0} → A → M A
pure a w = (ok a, w)

abbrev pub raise : {A : Type 0} → Error → M A
raise e w = (err e, w)

-- `JobContext`
pub record JobContext : Type 0 where
  pub job : Job
  pub worker_id : String

abbrev pub Handler : Type 0
Handler = JobContext → M (Option Fields)

-- `p.get(key)`
pub get_field : String → Fields → Option Value
get_field k end = none
get_field k (field j v fs) = if str_eq j k then some v else get_field k fs

-- Whether a value counts as true.
abbrev pub truthy : Option Value → Bool
truthy none = false
truthy (some null) = false
truthy (some (bool b)) = b
truthy (some (int n)) = not (n == 0)
truthy (some (str s)) = not (str_eq s "")
truthy (some (dict end)) = false
truthy (some (dict (field k v fs))) = true

-- `int(v)` and `float(v)` of a whole number; of any other text they raise.
pub digits : ℕ → Text → Option ℕ
digits n [] = some n
digits n (c ∷ t) = let rest = digits (n * 10 + (c - 48)) t in if is_digit c then rest else none

pub number : Option Value → Result ℕ
unfolding digits
number (some (int n)) = ok n
number (some (bool true)) = ok 1
number (some (bool false)) = ok 0
number (some (str s)) = elim (digits 0 (codes s)) [ none ↦ err type_error | some n ↦ ok n ]
number _ = err type_error

-- `JobContext.heartbeat`
pub beat : JobContext → M (Unit {0})
unfolding heartbeat
beat ctx w =
    (ok tt, record w { store = heartbeat w.clock ctx.job.row.job_id ctx.worker_id w.store })

-- The loop of the chaos hook `sleep_s`: a tenth of a second, then a heartbeat. Each round moves the
-- clock, so as many rounds as there are microseconds to wait are enough.
pub sleep_until : ℕ → ℕ → JobContext → World → World
unfolding beat
sleep_until zero deadline ctx w = w
sleep_until (suc rounds) deadline ctx w = elim (ltb w.clock deadline) [
  | true ↦ sleep_until rounds deadline ctx (beat ctx (record w { clock = w.clock + 100000 })).1
  | false ↦ w
]

abbrev pub sleep : ℕ → JobContext → M (Unit {0})
sleep seconds ctx w =
    let wait = seconds * 1000000 in (ok tt, sleep_until wait (w.clock + wait) ctx w)

-- `_maybe_inject_failure`
pub maybe_inject_failure : JobContext → M (Unit {0})
unfolding sleep_until get_field number
maybe_inject_failure ctx = do
  let p = ctx.job.row.payload
  let slept = get_field "sleep_s" p
  let times = get_field "fail_times" p
  if truthy slept then ((λ w. (number slept, w)) >>= λ n. sleep n ctx) else pure tt
  if truthy (get_field "always_fail" p)
      then raise (runtime_error "injected permanent failure")
      else pure tt
  if truthy times
      then ((λ w. (number times, w)) >>= λ n.
          if leb ctx.job.row.attempts n
          then raise (runtime_error "injected transient failure")
          else pure tt)
      else pure tt

-- `ctx.ledger.once(effect_key)`
pub once : String → JobContext → M Bool
unfolding side_effect_once
once effect_key ctx w =
    let (granted, store') = side_effect_once w.clock effect_key ctx.job.row.job_id "" w.store in
    (ok granted, record w { store = store' })

-- `_append_effect`
pub append_effect : String → JobContext → Fields → M (Unit {0})
append_effect kind ctx detail w =
    let line : LogLine = record { kind = kind; job_id = ctx.job.row.job_id; detail = detail } in
    (ok tt, record w { side_effect_log = w.side_effect_log ++ line ∷ [] })

abbrev pub deduplicated : Fields
deduplicated = field "deduplicated" (bool true) end

abbrev pub or_null : Option Value → Value
or_null none = null
or_null (some v) = v

-- The common course of the five handlers.
pub deliver : String → String → Fields → Fields → Fields → Handler
unfolding maybe_inject_failure once append_effect
deliver name kind detail done dup ctx = do
  maybe_inject_failure ctx
  granted ← once (str_append name (str_append ":" ctx.job.row.idempotency_key)) ctx
  if granted then (append_effect kind ctx detail >> pure (some done)) else pure (some dup)

unfoldable pub send_email : Handler
unfolding deliver get_field
send_email ctx =
    deliver "send_email" "email_sent"
      (field "to" (or_null (get_field "to" ctx.job.row.payload)) end) (field "sent" (bool true) end)
      (field "sent" (bool false) deduplicated) ctx

unfoldable pub generate_report : Handler
unfolding deliver
generate_report ctx =
    let path = str_append "results/reports/" (str_append ctx.job.row.job_id ".pdf") in
    deliver "generate_report" "report_generated" end (field "path" (str path) end) deduplicated ctx

unfoldable pub sync_webhook : Handler
unfolding deliver get_field
sync_webhook ctx =
    deliver "sync_webhook" "webhook_posted"
      (field "url" (or_null (get_field "url" ctx.job.row.payload)) end)
      (field "status" (int 200) end) deduplicated ctx

unfoldable pub process_document : Handler
unfolding deliver
process_document =
    deliver "process_document" "document_processed" end (field "pages" (int 1) end) deduplicated

-- `ctx.payload.get("arguments") or {}`
abbrev pub or_no_arguments : Option Value → Value
or_no_arguments v = if truthy v then or_null v else dict end

unfoldable pub business_write : Handler
unfolding deliver get_field
business_write ctx =
    let tool = or_null (get_field "tool" ctx.job.row.payload) in
    let args = or_no_arguments (get_field "arguments" ctx.job.row.payload) in
    deliver "business_write" "business_write" (field "tool" tool (field "arguments" args end))
      (field "tool" tool (field "recorded" (bool true) end)) deduplicated ctx

-- `HandlerRegistry`
abbrev pub Registry : Type 0
Registry = List (String × Handler)

-- `get`
unfoldable pub find_handler : String → Registry → Result Handler
find_handler type [] = err (key_error type)
find_handler type ((t, h) ∷ rest) = if str_eq t type then ok h else find_handler type rest

abbrev pub default_registry : Registry
default_registry =
    ("send_email", send_email)
    ∷ ("generate_report", generate_report)
    ∷ ("sync_webhook", sync_webhook)
    ∷ ("process_document", process_document)
    ∷ ("business_write", business_write)
    ∷ []

-- The `try` block of `run_once`: the handler's lookup and its run.
unfoldable pub handle : Registry → JobContext → M (Option Fields)
unfolding find_handler
handle registry ctx w = continue (find_handler ctx.job.row.type registry) (λ h. h ctx) w

-- `complete` after a return, `fail` after an exception.
unfoldable pub settle : (Error → Text) → ℕ → JobContext → Result (Option Fields) → World → World
settle describe draw ctx (ok result) w = record w {
  store = complete w.clock ctx.job.row.job_id ctx.worker_id result w.store;
  processed = w.processed + 1;
}
settle describe draw ctx (err e) w = record w {
  store = (fail w.clock draw ctx.job.row.job_id ctx.worker_id (describe e) w.store).1;
}

unfoldable pub process : (Error → Text) → ℕ → Registry → JobContext → World → World
unfolding handle settle
process describe draw registry ctx w =
    let (r, w') = handle registry ctx w in settle describe draw ctx r w'

-- `run_once`: whether a job was handled, and the world after it.
unfoldable pub run_once : (Error → Text) → ℕ → Registry → String → World → Result Bool × World
unfolding process
run_once describe draw registry worker_id w =
    let (r, store') = claim w.clock worker_id w.store in
    let w' : World = record w { store = store' } in
    elim r [
      | ok none ↦ (ok false, w')
      | ok (some job) ↦
          (ok true, process describe draw registry (record { job = job; worker_id = worker_id }) w')
      | err e ↦ (err e, w')
    ]
