-- ===== src/Jobs/Store/Reports/Latest.antt =====
-- jobs/store.py, `list`: the jobs that changed last.
use bfsi_voice_agent.Prelude.{
  ℕ, ◌≤◌, ◌≡◌, ◌⊎◌, inl, inr, refl, true, false, Option, some, List, [], ◌∷◌, str_eq, eq_iff,
  eq_refl, length, map, take, min, sort_latest, All, All-self, All-take, All-sort_latest, In,
  In-sort_latest, Descending, Descending-take, Descending-sort_latest, length-take,
  length-sort_latest, take_latest, two_ways, String, arith,
}
use bfsi_voice_agent.Jobs.Types.{JobStatus, Row, JobStore, Job, ok}
use bfsi_voice_agent.Jobs.Tables.{find_job, events_of, job_exists}
use bfsi_voice_agent.Jobs.Store.{get}
use bfsi_voice_agent.Jobs.Store.Distinct.{Distinct}
use bfsi_voice_agent.Jobs.Store.Reports.{has_status, rows_with, get_each, list}

-- The job of a row.
abbrev pub job_of : JobStore → Row → Job
job_of s r = record { row = r; events = events_of r.job_id s.job_events }

job_exists-In :
    (j k : String) (r : Row) (rows : List Row)
    → job_exists j k rows ≡ false
    → In r rows
    → str_eq r.job_id j ≡ false
unfolding job_exists
job_exists-In j k r [] h i = elim i [ ]
job_exists-In j k r (x ∷ rows) h (inl same) = rw same (ground (arith, h))
job_exists-In j k r (x ∷ rows) h (inr later) = job_exists-In j k r rows (ground (arith, h)) later

find_job-In :
    (r : Row) (rows : List Row) → Distinct rows → In r rows → find_job r.job_id rows ≡ some r
unfolding find_job
find_job-In r [] d i = elim i [ ]
find_job-In r (x ∷ rows) d (inl same) = rw (same, eq_refl x.job_id) refl
find_job-In r (x ∷ rows) d (inr later) =
    let other : str_eq x.job_id r.job_id ≡ false = ground (
      arith,
      job_exists-In x.job_id x.idempotency_key r rows d.0 later,
      eq_iff x.job_id r.job_id,
      eq_iff r.job_id x.job_id,
    ) in
    rw other (find_job-In r rows d.1 later)

get_each_ok :
    (s : JobStore) (rows : List Row)
    → Distinct s.jobs
    → All (λ r. In r s.jobs) rows
    → get_each rows s ≡ ok (map (job_of s) rows)
unfolding get_each
get_each_ok s [] d h = refl
get_each_ok s (r ∷ rows) d h =
    rw (get_each, get, find_job-In r s.jobs d h.0, get_each_ok s rows d h.1) refl

module _ (status : Option JobStatus) where
  All-rows_with : (P : Row → Type 0) (rows : List Row) → All P rows → All P (rows_with status rows)
  unfolding rows_with
  All-rows_with P [] h = tt
  All-rows_with P (r ∷ rows) h =
      two_ways (All P) (has_status status r) (λ e. (h.0, All-rows_with P rows h.1))
        (λ e. All-rows_with P rows h.1)

  All-has_status : (rows : List Row) → All (λ r. has_status status r ≡ true) (rows_with status rows)
  unfolding rows_with
  All-has_status [] = tt
  All-has_status (r ∷ rows) =
      two_ways (All (λ r. has_status status r ≡ true)) (has_status status r)
        (λ e. (e, All-has_status rows)) (λ e. All-has_status rows)

  In-rows_with :
      (r : Row) (rows : List Row)
      → has_status status r ≡ true
      → In r rows
      → In r (rows_with status rows)
  unfolding rows_with
  In-rows_with r [] h i = elim i [ ]
  In-rows_with r (x ∷ rows) h (inl same) =
      let here : has_status status x ≡ true = rw (← same) h in rw here (inl same)
  In-rows_with r (x ∷ rows) h (inr later) =
      two_ways (In r) (has_status status x) (λ e. inr (In-rows_with r rows h later))
        (λ e. In-rows_with r rows h later)

-- The list gives the jobs that changed last: with unique ids it never fails, and it is at most
-- `limit` of the stored jobs, all there are if they are fewer, each of the status that was asked for,
-- the one that changed last first; and a job of this status that is left out changed no later than any
-- of them.
pub list_latest :
    (status : Option JobStatus) (limit : ℕ) (s : JobStore)
    → Distinct s.jobs
    → (rows : List Row) × (list status limit s ≡ ok (map (job_of s) rows))
      × (length rows ≡ min limit (length (rows_with status s.jobs)))
      × All (λ r. In r s.jobs) rows
      × All (λ r. has_status status r ≡ true) rows
      × Descending Row.updated_at rows
      × ((r : Row)
          → has_status status r ≡ true
          → In r s.jobs
          → In r rows ⊎ All (λ x. r.updated_at ≤ x.updated_at) rows)
unfolding list
list_latest status limit s d =
    let at = Row.updated_at in
    let found = rows_with status s.jobs in
    let sorted = sort_latest at found in
    let stored = λ (r : Row). In r s.jobs in
    let asked = λ (r : Row). has_status status r ≡ true in
    let own =
      All-take at stored limit sorted
        (All-sort_latest at stored found (All-rows_with status stored s.jobs (All-self s.jobs))) in
    let down = Descending-sort_latest at found in
    (
      take limit sorted,
      get_each_ok s (take limit sorted) d own,
      omega (arith, length-take at limit sorted, length-sort_latest at found),
      own,
      All-take at asked limit sorted
          (All-sort_latest at asked found (All-has_status status s.jobs)),
      Descending-take at limit sorted down,
      λ r h i.
          take_latest at limit r sorted down
            (In-sort_latest at r found (In-rows_with status r s.jobs h i)),
    )
