-- ===== src/Jobs/Store/Lease.antt =====
-- jobs/store.py: what a lease protects, over any run of calls by anyone.
use bfsi_voice_agent.Prelude.{
  ℕ, ◌+◌, String, ◌≡◌, refl, Bool, true, false, ◌&&◌, Option, some, List, [], ◌∷◌, ◌++◌, arith,
  str_eq, eq_iff, inl, inr, Bool-cases, Option-cases, any, ltb, if◌then◌else◌, leb,
}
use bfsi_voice_agent.Jobs.Types.{Row, Fields, JobStore, processing, dlq}
use bfsi_voice_agent.Jobs.Tables.{
  find_job, earliest, is_runnable, with_status, held_by, with_id, update_where, job_exists,
  effect_exists,
}
use bfsi_voice_agent.Jobs.Store.{
  claim, claim_row, submit, heartbeat, fail, find_held, requeue_dlq, side_effect_once, complete_row,
  requeue_row, delay_for, dlq_row, retry_row,
}
use bfsi_voice_agent.Jobs.Store.Distinct.{Distinct, KeepsKeys}
use bfsi_voice_agent.Jobs.Store.Runs.{
  Call, submit_call, claim_call, heartbeat_call, complete_call, fail_call, effect_call,
  requeue_call, apply, run,
}
use bfsi_voice_agent.Jobs.Store.Transitions.{
  earliest-is_runnable, jobs-claim_found, jobs-complete, jobs-fail_found, apply-Advances,
}
use bfsi_voice_agent.Jobs.Store.Updates.{
  find_job-id, find_job-update_where, find_job-update_other, earliest-find_job, find_held-find_job,
}

-- The calls that a lease on job `j` by worker `w` until `until` leaves room for: a claim after the
-- lease, or one of the worker's own calls on its job.
abbrev pub may_touch : String → String → ℕ → Call → Bool
may_touch j w until (claim_call now v) = ltb until now
may_touch j w until (heartbeat_call now i v) = str_eq i j && str_eq w v
may_touch j w until (complete_call now i v result) = str_eq i j && str_eq w v
may_touch j w until (fail_call now draw i v error) = str_eq i j && str_eq w v
may_touch j w until (submit_call now i k type payload limit) = false
may_touch j w until (effect_call now key i detail) = false
may_touch j w until (requeue_call now i) = false

-- A job in the hands of a worker.
pub record Leased (j w : String) (until : ℕ) (x : Row) : Type 0 where
  pub at_work : x.status ≡ processing
  pub by_worker : x.worker_id ≡ some w
  pub lease : x.lease_expires_at ≡ some until

find_job-append_some :
    (j : String) (rows more : List Row) {x : Row}
    → find_job j rows ≡ some x
    → find_job j (rows ++ more) ≡ some x
unfolding find_job
find_job-append_some j [] more h = cc
find_job-append_some j (r ∷ rows) more {x} h =
    ground (arith, find_job-append_some j rows more {x = x})

module _ (j w : String) (until : ℕ) (x : Row) (leased : Leased j w until x) (s : JobStore)
    (d : Distinct s.jobs) (at : find_job j s.jobs ≡ some x) where
  not_ready : (now : ℕ) → is_runnable now x ≡ true → ltb until now ≡ false → ⊥
  unfolding is_runnable
  not_ready now ready h = ground (arith, leased)

  not_held : (i v : String) → (str_eq i j && str_eq w v) ≡ false → held_by i v x ≡ false
  not_held i v h =
      let id = find_job-id j s.jobs at in ground (arith, eq_iff x.job_id i, eq_iff i j, leased)

  update_not_held :
      (i v : String) (set : Row → Row)
      → KeepsKeys set
      → (str_eq i j && str_eq w v) ≡ false
      → find_job j (update_where (held_by i v) set s.jobs) ≡ some x
  update_not_held i v set keeps h =
      rw (find_job-update_where (held_by i v) set j s.jobs keeps) (rw at (rw (not_held i v h)))

  claim_other :
      (now : ℕ) (v : String) → ltb until now ≡ false → find_job j (claim now v s).1.jobs ≡ some x
  unfolding claim
  claim_other now v h = elim (Option-cases (earliest now s.jobs)) [
    | inl e ↦ rw (e, claim) at
    | inr (r, e) ↦
        let f = earliest-find_job now s.jobs d e in
        let ready = earliest-is_runnable now s.jobs e in
        elim (Bool-cases (str_eq r.job_id j)) [
          | inl same ↦ absurd (
              not_ready now
                (let id : r.job_id ≡ j = (eq_iff r.job_id j).0 same in
                  let f' : find_job j s.jobs ≡ some r = simp (← id) f in
                  let is_x : r ≡ x = cc in simp (← is_x) ready)
                h)
          | inr ne ↦
              rw (e, claim, jobs-claim_found)
                (rw
                  (find_job-update_other r.job_id (with_status r.job_id r.status)
                    (λ y p. ground arith) j (claim_row now (now + s.lease_seconds) v) s.jobs
                    (λ y. (refl, refl)) ne)
                  at)
        ]
  ]

  fail_other :
      (now draw : ℕ) (i v : String) (error : List ℕ)
      → (str_eq i j && str_eq w v) ≡ false
      → find_job j (fail now draw i v error s).1.jobs ≡ some x
  unfolding fail
  fail_other now draw i v error h = elim (Option-cases (find_held i v s.jobs)) [
    | inl e ↦ rw (e, fail) at
    | inr (r, e) ↦ elim (Bool-cases (str_eq i j)) [
      | inl same ↦
          let id : i ≡ j = (eq_iff i j).0 same in
          let held = find_held-find_job i v s.jobs d in
          let at' : find_job i s.jobs ≡ some x = simp id at in ground (arith, not_held i v h)
      | inr ne ↦
          let set =
            (if leb r.max_attempts r.attempts
              then dlq_row now error
              else retry_row now (delay_for s.retry_policy draw r.attempts) error) in
          rw (e, fail, jobs-fail_found)
            (rw
              (find_job-update_other i (with_id i) (λ y p. p) j set s.jobs
                (λ y. (ground arith, ground arith)) ne)
              at)
    ]
  ]

  submit_other :
      (now : ℕ) (i k type : String) (payload : Fields) (limit : Option ℕ)
      → find_job j (submit now i k type payload limit s).1.jobs ≡ some x
  unfolding submit
  submit_other now i k type payload limit = elim (Bool-cases (job_exists i k s.jobs)) [
    | inl e ↦ rw (e, submit) at
    | inr e ↦ rw (e, submit) (find_job-append_some j s.jobs _ at)
  ]

  requeue_other : (now : ℕ) (i : String) → find_job j (requeue_dlq now i s).1.jobs ≡ some x
  unfolding requeue_dlq
  requeue_other now i =
      rw (find_job-update_where (with_status i dlq) (requeue_row now) j s.jobs (λ r. (refl, refl)))
        (rw at (ground (arith, leased)))

  effect_other :
      (now : ℕ) (key i detail : String)
      → find_job j (side_effect_once now key i detail s).1.jobs ≡ some x
  unfolding side_effect_once
  effect_other now key i detail = elim (Bool-cases (effect_exists key s.side_effects)) [
    | inl e ↦ rw (e, side_effect_once) at
    | inr e ↦ rw (e, side_effect_once) at
  ]

  apply_other : (c : Call) → may_touch j w until c ≡ false → find_job j (apply c s).jobs ≡ some x
  unfolding apply heartbeat
  apply_other (submit_call now i k type payload limit) h = submit_other now i k type payload limit
  apply_other (claim_call now v) h = claim_other now v h
  apply_other (heartbeat_call now i v) h = update_not_held i v _ (λ r. (refl, refl)) h
  apply_other (complete_call now i v result) h =
      rw jobs-complete (update_not_held i v (complete_row now result) (λ r. (refl, refl)) h)
  apply_other (fail_call now draw i v error) h = fail_other now draw i v error h
  apply_other (effect_call now key i detail) h = effect_other now key i detail
  apply_other (requeue_call now i) h = requeue_other now i

-- While a worker's lease on a job runs, no calls of anyone else, in any number and order, change
-- the job: it is not claimed again, completed, failed, requeued or written over.
pub lease_protects :
    (j w : String) (until : ℕ) (x : Row) (cs : List Call) (s : JobStore)
    → Leased j w until x
    → Distinct s.jobs
    → find_job j s.jobs ≡ some x
    → any (may_touch j w until) cs ≡ false
    → find_job j (run cs s).jobs ≡ some x
unfolding run
lease_protects j w until x [] s leased d at h = at
lease_protects j w until x (c ∷ cs) s leased d at h =
    lease_protects j w until x cs (apply c s) leased (apply-Advances c s d).distinct
      (apply_other j w until x leased s d at c (ground arith)) (ground arith)
