-- ===== src/Jobs/Store/Reports.antt =====
-- jobs/store.py: `list` and `stats`, the reports on a store that does not change meanwhile.
pub mod Counts
pub mod Latest
use bfsi_voice_agent.Prelude.{
  ℕ, zero, suc, ◌+◌, ◌≤◌, ◌≡◌, ◌⊎◌, inl, inr, refl, sym, ap, String, Bool, true, false, not, ◌&&◌,
  ◌||◌, Bool-cases, Option, none, some, List, [], ◌∷◌, if◌then◌else◌, any, str_eq, eq_iff, eq_refl,
  length, map, take, min, sort_latest, All, All-each, All-take, All-sort_latest, In, In-sort_latest,
  Descending, Descending-take, Descending-sort_latest, length-take, length-sort_latest, take_latest,
  two_ways, arith,
}
use bfsi_voice_agent.Jobs.Types.{
  JobStatus, submitted, queued, processing, completed, failed, retrying, dlq, status_eq, Row,
  SideEffect, JobStore, Job, Result, ok, err,
}
use bfsi_voice_agent.Jobs.Tables.{find_job, rowcount, events_of, job_exists}
use bfsi_voice_agent.Jobs.Store.{get, get_row}
use bfsi_voice_agent.Jobs.Store.Distinct.{Distinct}

-- `WHERE status=?`, or no condition.
abbrev pub has_status : Option JobStatus → Row → Bool
has_status none r = true
has_status (some st) r = status_eq r.status st

unfoldable pub rows_with : Option JobStatus → List Row → List Row
rows_with status [] = []
rows_with status (r ∷ rs) =
    let rest = rows_with status rs in if has_status status r then r ∷ rest else rest

-- `[self.get(r["job_id"]) for r in rows]`
unfoldable pub get_each : List Row → JobStore → Result (List Job)
unfolding get
get_each [] s = ok []
get_each (r ∷ rs) s = elim (get r.job_id s) [
  | err e ↦ err e
  | ok job ↦ elim (get_each rs s) [ err e ↦ err e | ok jobs ↦ ok (job ∷ jobs) ]
]

-- `list`
unfoldable pub list : Option JobStatus → ℕ → JobStore → Result (List Job)
unfolding rows_with get_each sort_latest
list status limit s = get_each (take limit (sort_latest Row.updated_at (rows_with status s.jobs))) s

abbrev pub all_statuses : List JobStatus
all_statuses = submitted ∷ queued ∷ processing ∷ completed ∷ failed ∷ retrying ∷ dlq ∷ []

-- One row more in its group.
unfoldable pub count_one : JobStatus → List (JobStatus × ℕ) → List (JobStatus × ℕ)
count_one st [] = (st, 1) ∷ []
count_one st ((t, n) ∷ rest) =
    if status_eq t st then (t, suc n) ∷ rest else (t, n) ∷ count_one st rest

-- `SELECT status, COUNT(*) AS n FROM jobs GROUP BY status`
unfoldable pub grouped : List Row → List (JobStatus × ℕ)
unfolding count_one
grouped [] = []
grouped (r ∷ rs) = count_one r.status (grouped rs)

-- `counts[row["status"]] = row["n"]`
unfoldable pub put_count : JobStatus → ℕ → List (JobStatus × ℕ) → List (JobStatus × ℕ)
put_count st n [] = (st, n) ∷ []
put_count st n ((t, m) ∷ rest) =
    if status_eq t st then (t, n) ∷ rest else (t, m) ∷ put_count st n rest

unfoldable pub put_groups : List (JobStatus × ℕ) → List (JobStatus × ℕ) → List (JobStatus × ℕ)
unfolding put_count
put_groups [] counts = counts
put_groups ((st, n) ∷ groups) counts = put_groups groups (put_count st n counts)

-- `stats`: the counts of the statuses, and that of the side effects.
unfoldable pub stats : JobStore → List (JobStatus × ℕ) × ℕ
unfolding grouped put_groups
stats s = (put_groups (grouped s.jobs) (map (λ st. (st, 0)) all_statuses), length s.side_effects)
