-- ===== src/Jobs/Store/Claims.antt =====
-- jobs/store.py, `claim`: which job is taken, and what a lease protects.
use bfsi_voice_agent.Prelude.{
  ℕ, zero, suc, ◌+◌, ◌≤◌, ◌<◌, String, ◌≡◌, refl, true, false, none, some, List, [], ◌∷◌, ◌++◌,
  arith, str_eq, eq_refl, inl, inr, Option-cases, count, All,
}
use bfsi_voice_agent.Jobs.Types.{Row, JobStore, Job, ok, processing}
use bfsi_voice_agent.Jobs.Tables.{find_job, earliest, is_runnable, with_status, events_of}
use bfsi_voice_agent.Jobs.Store.{claim, claim_found, claim_row, claim_detail, event}
use bfsi_voice_agent.Jobs.Store.Distinct.{Distinct}
use bfsi_voice_agent.Jobs.Store.Runs.{Call, claim_call}
use bfsi_voice_agent.Jobs.Store.Transitions.{earliest-is_runnable, jobs-claim_found}
use bfsi_voice_agent.Jobs.Store.Updates.{
  find_job-update_other, find_job-update_where, OnlyOn, rowcount_one, count-update_where,
  earliest-find_job, earliest-least, earliest-eq_none, earliest-count_pos,
}

with_status-OnlyOn : (r : Row) → OnlyOn r.job_id (with_status r.job_id r.status)
with_status-OnlyOn r x h = ground arith

status_eq_refl : (r : Row) → with_status r.job_id r.status r ≡ true
status_eq_refl r = ground (arith, eq_refl r.job_id)

pub claimed_not_runnable :
    (now lease : ℕ) (w : String) (r : Row)
    → is_runnable now (claim_row now (now + lease) w r) ≡ false
unfolding is_runnable
claimed_not_runnable now lease w r = ground arith

claim_found_ok :
    (now : ℕ) (w : String) (r : Row) (s : JobStore)
    → Distinct s.jobs
    → find_job r.job_id s.jobs ≡ some r
    → (job : Job) × ((claim_found now w r s).0 ≡ ok (some job))
      × (job.row ≡ claim_row now (now + s.lease_seconds) w r)
      × (find_job r.job_id (claim_found now w r s).1.jobs ≡ some job.row)
unfolding claim_found
claim_found_ok now w r s d f =
    let row = claim_row now (now + s.lease_seconds) w r in
    let here = with_status r.job_id r.status in
    let one = rowcount_one r.job_id here (with_status-OnlyOn r) s.jobs d f (status_eq_refl r) in
    let at =
      find_job-update_where here (claim_row now (now + s.lease_seconds) w) r.job_id s.jobs
        (λ x. (refl, refl)) in
    (
      record {
        row = row;
        events = events_of r.job_id (
            s.job_events
            ++ event now r.job_id (some r.status) processing (some w) (some (claim_detail r.status))
              ∷ []);
      },
      ground (arith, one, at, status_eq_refl r),
      refl,
      ground (arith, one, at, status_eq_refl r),
    )

-- Where a job is runnable, `claim` returns one whose `available_at` is the least of all runnable
-- jobs: it is PROCESSING under the worker with one attempt more and a lease until
-- now + lease_seconds, no other job changes, and one runnable job fewer is left.
pub claim_takes_soonest :
    (now : ℕ) (w : String) (s : JobStore)
    → Distinct s.jobs
    → 0 < count (is_runnable now) s.jobs
    → let (answer, s') = claim now w s in
      (r : Row) × (job : Job) × (find_job r.job_id s.jobs ≡ some r)
      × (is_runnable now r ≡ true)
      × All (λ x. is_runnable now x ≡ true → r.available_at ≤ x.available_at) s.jobs
      × (answer ≡ ok (some job))
      × (job.row ≡ claim_row now (now + s.lease_seconds) w r)
      × (find_job r.job_id s'.jobs ≡ some job.row)
      × ((j : String) → str_eq r.job_id j ≡ false → find_job j s'.jobs ≡ find_job j s.jobs)
      × (count (is_runnable now) s'.jobs + 1 ≡ count (is_runnable now) s.jobs)
unfolding claim
claim_takes_soonest now w s d pos = elim (Option-cases (earliest now s.jobs)) [
  | inl e ↦ absurd (omega (arith, earliest-eq_none now s.jobs e))
  | inr (r, e) ↦
      let f = earliest-find_job now s.jobs d e in
      let ready = earliest-is_runnable now s.jobs e in
      let (job, answer, row, at) = claim_found_ok now w r s d f in
      let set = claim_row now (now + s.lease_seconds) w in
      let here = with_status r.job_id r.status in
      rw (e, claim)
        (
          r,
          job,
          f,
          ready,
          earliest-least now s.jobs e,
          answer,
          row,
          at,
          λ j ne. rw jobs-claim_found (
              find_job-update_other r.job_id here (with_status-OnlyOn r) j set s.jobs
                (λ x. (refl, refl)) ne),
          rw jobs-claim_found (
              count-update_where r.job_id here (with_status-OnlyOn r) (is_runnable now) set s.jobs d
                f (status_eq_refl r) ready (claimed_not_runnable now s.lease_seconds w r)),
        )
]

-- Where no job is runnable, `claim` returns None and writes nothing.
pub claim_idle :
    (now : ℕ) (w : String) (s : JobStore)
    → count (is_runnable now) s.jobs ≡ 0
    → claim now w s ≡ (ok none, s)
unfolding claim
claim_idle now w s h = elim (Option-cases (earliest now s.jobs)) [
  | inl e ↦ rw (e, claim)
  | inr (r, e) ↦ absurd (omega (arith, earliest-count_pos now s.jobs e))
]

-- `n` claims in turn, at one reading of the clock.
abbrev pub claims : ℕ → ℕ → String → List Call
claims zero now w = []
claims (suc n) now w = claim_call now w ∷ claims n now w
