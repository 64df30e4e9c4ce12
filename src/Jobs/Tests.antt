-- ===== src/Jobs/Tests.antt =====
-- The pipeline at concrete inputs: jobs/store.py and jobs/worker.py.
use bfsi_voice_agent.Prelude.{
  map, min, In, Descending, ◌⊎◌, ◌+◌, ◌≤◌, String, ◌≡◌, refl, true, false, none, some, List, [],
  ◌∷◌, arith, str_eq, if◌then◌else◌, count, All, length,
}
use bfsi_voice_agent.Jobs.Types.{
  submitted, queued, processing, completed, failed, retrying, dlq, Row, end, RetryPolicy, JobStore,
  Job, ok,
}
use bfsi_voice_agent.Jobs.Tables.{rowcount, find_job, is_runnable, job_exists, effect_exists}
use bfsi_voice_agent.Jobs.Store.{submit, new_row, claim, claim_row, delay_for}
use bfsi_voice_agent.Jobs.Store.Distinct.{Distinct}
use bfsi_voice_agent.Jobs.Store.Runs.{
  Call, claim_call, complete_call, requeue_call, fail_call, run, Kept, Evolves,
}
use bfsi_voice_agent.Jobs.Store.Transitions.{run-Kept}
use bfsi_voice_agent.Jobs.Store.Submit.{submit-run-submit}
use bfsi_voice_agent.Jobs.Store.Reports.{has_status, rows_with, list, all_statuses, stats}
use bfsi_voice_agent.Jobs.Store.Reports.Counts.{total, stats_counts}
use bfsi_voice_agent.Jobs.Store.Reports.Latest.{job_of, list_latest}
use bfsi_voice_agent.Jobs.Store.Claims.{claim_takes_soonest, claims}
use bfsi_voice_agent.Jobs.Store.Drained.{Due, claims_drain}
use bfsi_voice_agent.Jobs.Store.Lease.{lease_protects}
use bfsi_voice_agent.Jobs.Worker.{World, JobContext, send_email, find_handler, default_registry}
use bfsi_voice_agent.Jobs.Worker.Once.{Turn, attempt, between, play, registered_exactly_once}

abbrev policy : RetryPolicy
policy = record {
  max_attempts = 5;
  base_delay_ms = 500;
  max_delay_ms = 30000;
  multiplier = 2;
  jitter = 200;
}

abbrev first_row : Row
first_row = new_row 100 "job_1" "key_1" "send_email" end 5

abbrev second_row : Row
second_row = new_row 200 "job_2" "key_2" "send_email" end 1

abbrev held_row : Row
held_row = claim_row 300 30000300 "worker" first_row

abbrev store_of : List Row → JobStore
store_of rows = record {
  jobs = rows;
  job_events = [];
  side_effects = [];
  retry_policy = policy;
  lease_seconds = 30000000;
}

abbrev two_queued : JobStore
two_queued = store_of (first_row ∷ second_row ∷ [])

abbrev one_held : JobStore
one_held = store_of (held_row ∷ second_row ∷ [])

two-Distinct : Distinct two_queued.jobs
unfolding job_exists
two-Distinct = (refl, (refl, tt))

held-Distinct : Distinct one_held.jobs
unfolding job_exists
held-Distinct = (refl, (refl, tt))

-- A claim takes the job that became available first.
claim_first : (claim 300 "worker" two_queued).1.jobs ≡ held_row ∷ second_row ∷ []
unfolding claim
claim_first = refl

-- The first attempt of the default policy waits half a second, give or take a fifth.
delay_first : delay_for policy 200 1 ≡ 500000
unfolding delay_for
delay_first = refl

abbrev calls : List Call
calls =
    claim_call 300 "worker"
    ∷ complete_call 400 "job_1" "worker" none
    ∷ requeue_call 500 "job_2"
    ∷ []

run-Kept_example :
    Distinct (run calls two_queued).jobs × Evolves Kept two_queued.jobs (run calls two_queued).jobs
run-Kept_example = run-Kept calls two_queued two-Distinct

submit-run-submit_example :
    let (first, s₁) = submit 100 "job_3" "key_3" "send_email" end none two_queued in
    let s₂ = run calls s₁ in
    (made : Job) × (first ≡ ok (made, true))
    × ((job : Job) × (submit 900 "job_4" "key_3" "sync_webhook" end (some 2) s₂
          ≡ (ok (job, false), s₂))
        × Kept made.row job.row)
unfolding job_exists
submit-run-submit_example =
    submit-run-submit 100 900 "job_3" "job_4" "key_3" "send_email" "sync_webhook" end end none
      (some 2) calls two_queued two-Distinct refl

-- At this time the lease on the first job has run out.
claims_drain_example :
    let jobs = (run (claims 2 40000000 "next") one_held).jobs in
    (Due 40000000 held_row
      → find_job "job_1" jobs ≡ some (claim_row 40000000 70000000 "next" held_row))
    × (¬ Due 40000000 held_row → find_job "job_1" jobs ≡ some held_row)
unfolding find_job
claims_drain_example =
    claims_drain 2 40000000 "next" one_held "job_1" held_row held-Distinct (omega arith) refl

abbrev others : List Call
others =
    claim_call 400 "other"
    ∷ complete_call 500 "job_1" "other" none
    ∷ fail_call 500 0 "job_2" "other" []
    ∷ requeue_call 600 "job_1"
    ∷ []

lease_protects_example : find_job "job_1" (run others one_held).jobs ≡ some held_row
unfolding find_job
lease_protects_example =
    lease_protects "job_1" "worker" 30000300 held_row others one_held
      (record { at_work = refl; by_worker = refl; lease = refl }) held-Distinct refl refl

abbrev world : World
world = record { store = one_held; side_effect_log = []; clock = 300; processed = 0 }

abbrev context : JobContext
context = record { job = record { row = held_row; events = [] }; worker_id = "worker" }

abbrev turns : List Turn
turns =
    attempt context
    ∷ between (claim_call 30000301 "other")
    ∷ attempt (record context { worker_id = "other" })
    ∷ []

-- The handler of the job type is found in the registry.
handler_found : find_handler "send_email" default_registry ≡ ok send_email
unfolding find_handler
handler_found = refl

registered_exactly_once_example :
    let (returned, w') = play send_email turns world in
    length w'.side_effect_log ≡ 0 + (if returned then 1 else 0)
unfolding effect_exists
registered_exactly_once_example =
    registered_exactly_once "send_email" "send_email:key_1" send_email turns world handler_found
      (refl, (refl, (refl, tt)))

claim_takes_soonest_example :
    let (answer, s') = claim 300 "worker" two_queued in
    (r : Row) × (job : Job) × (find_job r.job_id two_queued.jobs ≡ some r)
    × (is_runnable 300 r ≡ true)
    × All (λ x. is_runnable 300 x ≡ true → r.available_at ≤ x.available_at) two_queued.jobs
    × (answer ≡ ok (some job))
    × (job.row ≡ claim_row 300 30000300 "worker" r)
    × (find_job r.job_id s'.jobs ≡ some job.row)
    × ((j : String) → str_eq r.job_id j ≡ false → find_job j s'.jobs ≡ find_job j two_queued.jobs)
    × (count (is_runnable 300) s'.jobs + 1 ≡ count (is_runnable 300) two_queued.jobs)
unfolding is_runnable
claim_takes_soonest_example = claim_takes_soonest 300 "worker" two_queued two-Distinct (omega arith)

-- The first job changed last.
listed : list none 1 one_held ≡ ok (job_of one_held held_row ∷ [])
unfolding list
listed = refl

none_completed : list (some completed) 5 one_held ≡ ok []
unfolding list
none_completed = refl

counted : stats one_held ≡ (
  (submitted, 0)
      ∷ (queued, 1)
      ∷ (processing, 1)
      ∷ (completed, 0)
      ∷ (failed, 0)
      ∷ (retrying, 0)
      ∷ (dlq, 0)
      ∷ [],
  0,
)
unfolding stats
counted = refl

list_latest_example :
    (rows : List Row) × (list none 1 one_held ≡ ok (map (job_of one_held) rows))
    × (length rows ≡ min 1 (length (rows_with none one_held.jobs)))
    × All (λ r. In r one_held.jobs) rows
    × All (λ r. has_status none r ≡ true) rows
    × Descending Row.updated_at rows
    × ((r : Row)
        → has_status none r ≡ true
        → In r one_held.jobs
        → In r rows ⊎ All (λ x. r.updated_at ≤ x.updated_at) rows)
list_latest_example = list_latest none 1 one_held held-Distinct

stats_counts_example :
    ((stats one_held).0
      ≡ map (λ st. (st, rowcount (has_status (some st)) one_held.jobs)) all_statuses)
    × (total (stats one_held).0 ≡ length one_held.jobs)
stats_counts_example = stats_counts one_held
