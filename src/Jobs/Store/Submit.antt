-- ===== src/Jobs/Store/Submit.antt =====
-- jobs/store.py, `submit`: an idempotency key names one job for ever.
use bfsi_voice_agent.Prelude.{
  ℕ, String, ◌≡◌, refl, true, false, Option, none, some, List, [], ◌∷◌, ◌++◌, arith, str_eq, eq_iff,
  eq_refl, inl, inr, Bool-cases,
}
use bfsi_voice_agent.Jobs.Types.{Row, Fields, JobStore, Job, ok, api, submitted, queued}
use bfsi_voice_agent.Jobs.Tables.{find_job, find_key, job_exists, events_of}
use bfsi_voice_agent.Jobs.Store.{submit, new_row, attempts_or, event}
use bfsi_voice_agent.Jobs.Store.Distinct.{Distinct}
use bfsi_voice_agent.Jobs.Store.Runs.{Call, run, Kept, Evolves}
use bfsi_voice_agent.Jobs.Store.Transitions.{run-Kept, submit-Advances}

find_key-job_exists :
    (j k : String) (rows : List Row) {r : Row}
    → find_key k rows ≡ some r
    → job_exists j k rows ≡ true
unfolding find_key job_exists
find_key-job_exists j k [] h = cc
find_key-job_exists j k (x ∷ rows) {r} h = ground (arith, find_key-job_exists j k rows {r = r})

find_job_absent :
    (j k : String) (rows : List Row) → job_exists j k rows ≡ false → find_job j rows ≡ none
unfolding find_job job_exists
find_job_absent j k [] h = refl
find_job_absent j k (x ∷ rows) h = ground (arith, find_job_absent j k rows)

find_key_absent :
    (j k : String) (rows : List Row) → job_exists j k rows ≡ false → find_key k rows ≡ none
unfolding find_key job_exists
find_key_absent j k [] h = refl
find_key_absent j k (x ∷ rows) h = ground (arith, find_key_absent j k rows)

id_absent :
    (j k k' : String) (rows : List Row) {r : Row}
    → job_exists j k rows ≡ false
    → find_key k' rows ≡ some r
    → str_eq j r.job_id ≡ false
unfolding job_exists find_key
id_absent j k k' [] h f = cc
id_absent j k k' (x ∷ rows) {r} h f =
    ground (arith, eq_iff x.job_id j, eq_iff j r.job_id, id_absent j k k' rows {r = r})

-- With unique ids, the row of a key is the row of its id.
find_job-find_key :
    (k : String) (rows : List Row) {r : Row}
    → Distinct rows
    → find_key k rows ≡ some r
    → find_job r.job_id rows ≡ some r
unfolding find_key find_job
find_job-find_key k [] d h = cc
find_job-find_key k (x ∷ rows) {r} d h = elim (Bool-cases (str_eq x.idempotency_key k)) [
  | inl e ↦ ground (arith, eq_refl r.job_id)
  | inr e ↦
      let h' : find_key k rows ≡ some r = ground arith in
      ground (
        arith,
        id_absent x.job_id x.idempotency_key k rows {r = r} d.0 h',
        find_job-find_key k rows {r = r} d.1 h',
      )
]

find_key-append :
    (k : String) (row : Row) (rows : List Row)
    → row.idempotency_key ≡ k
    → find_key k rows ≡ none
    → find_key k (rows ++ row ∷ []) ≡ some row
unfolding find_key
find_key-append k row [] e h = rw (e, eq_refl)
find_key-append k row (x ∷ rows) e h = ground (arith, find_key-append k row rows e)

find_job-append :
    (j : String) (row : Row) (rows : List Row)
    → row.job_id ≡ j
    → find_job j rows ≡ none
    → find_job j (rows ++ row ∷ []) ≡ some row
unfolding find_job
find_job-append j row [] e h = rw (e, eq_refl)
find_job-append j row (x ∷ rows) e h = ground (arith, find_job-append j row rows e)

-- The row of a key is still the row of that key later, in its later state.
find_key-Evolves :
    (k : String) (xs ys : List Row) {x : Row}
    → Evolves Kept xs ys
    → find_key k xs ≡ some x
    → (y : Row) × (find_key k ys ≡ some y) × Kept x y
unfolding find_key
find_key-Evolves k [] ys h f = cc
find_key-Evolves k (a ∷ xs) [] h f = elim h [ ]
find_key-Evolves k (a ∷ xs) (b ∷ ys) {x} h f =
    let same : str_eq b.idempotency_key k ≡ str_eq a.idempotency_key k = rw h.0.same_key refl in
    elim (Bool-cases (str_eq a.idempotency_key k)) [
      | inl e ↦ let e' : a ≡ x = ground arith in (b, ground arith, rw e' at h.0)
      | inr e ↦
          let f' : find_key k xs ≡ some x = ground arith in
          let (y, g, kept) = find_key-Evolves k xs ys h.1 f' in (y, ground arith, kept)
    ]

-- A repeated key, under any other id, type, payload and limit, is answered with the job that holds
-- the key and created = False, and nothing is written.
submit_repeated :
    (now : ℕ) (j k type : String) (payload : Fields) (limit : Option ℕ) (s : JobStore) {r : Row}
    → Distinct s.jobs
    → find_key k s.jobs ≡ some r
    → (job : Job) × (submit now j k type payload limit s ≡ (ok (job, false), s)) × (job.row ≡ r)
unfolding submit
submit_repeated now j k type payload limit s {r} d h = (
  record { row = r; events = events_of r.job_id s.job_events },
  ground (arith, find_key-job_exists j k s.jobs h, find_job-find_key k s.jobs d h),
  refl,
)

-- A new key under a new id is answered with the queued job and created = True, and the row of the
-- key is that job's.
submit_new :
    (now : ℕ) (j k type : String) (payload : Fields) (limit : Option ℕ) (s : JobStore)
    → job_exists j k s.jobs ≡ false
    → let row = new_row now j k type payload (attempts_or limit s.retry_policy.max_attempts) in
      let (answer, s') = submit now j k type payload limit s in
      (job : Job) × (answer ≡ ok (job, true)) × (job.row ≡ row) × (find_key k s'.jobs ≡ some row)
unfolding submit
submit_new now j k type payload limit s h =
    let row = new_row now j k type payload (attempts_or limit s.retry_policy.max_attempts) in
    let found = find_job-append j row s.jobs refl (find_job_absent j k s.jobs h) in
    let keyed = find_key-append k row s.jobs refl (find_key_absent j k s.jobs h) in
    rw (h, submit)
      (
        record {
          row = row;
          events = events_of j (
              (s.job_events ++ event now j none submitted none (some api) ∷ [])
              ++ event now j (some submitted) queued none none ∷ []);
        },
        rw found,
        refl,
        keyed,
      )

-- Exactly one job for a key: once a submission has created it, then after any calls by anyone, a
-- submission under the same key, whatever else it holds, writes nothing and is answered with
-- created = False and the row of that job, of the same id, type, payload and limit.
pub submit-run-submit :
    (now now' : ℕ) (j j' k type type' : String) (payload payload' : Fields)
    (limit limit' : Option ℕ) (cs : List Call) (s : JobStore)
    → Distinct s.jobs
    → job_exists j k s.jobs ≡ false
    → let (first, s₁) = submit now j k type payload limit s in
      let s₂ = run cs s₁ in
      (made : Job) × (first ≡ ok (made, true))
      × ((job : Job) × (submit now' j' k type' payload' limit' s₂ ≡ (ok (job, false), s₂))
          × Kept made.row job.row)
submit-run-submit now now' j j' k type type' payload payload' limit limit' cs s d h =
    let a = submit-Advances now j k type payload limit s d in
    let s₁ = (submit now j k type payload limit s).1 in
    let (made, answer, same, keyed) = submit_new now j k type payload limit s h in
    let (d', kept) = run-Kept cs s₁ a.distinct in
    let (y, keyed', step) = find_key-Evolves k s₁.jobs (run cs s₁).jobs kept keyed in
    let (job, again, same') =
      submit_repeated now' j' k type' payload' limit' (run cs s₁) d' keyed' in
    (made, answer, (job, again, rw (same, same') step))
