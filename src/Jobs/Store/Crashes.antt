-- ===== src/Jobs/Store/Crashes.antt =====
-- jobs/store.py: workers that die again and again, and `requeue_dlq` on a job that is not dead.
use bfsi_voice_agent.Prelude.{
  ℕ, zero, suc, ◌+◌, String, ◌≡◌, ◌∙◌, refl, true, none, some, List, [], ◌∷◌, ◌++◌, arith, eq_refl,
}
use bfsi_voice_agent.Jobs.Types.{Row, JobStore, queued, processing, dlq, manual_requeue}
use bfsi_voice_agent.Jobs.Tables.{earliest, is_runnable, with_status, update_where, rowcount}
use bfsi_voice_agent.Jobs.Store.{claim, claim_found, claim_row, requeue_dlq, requeue_row, event}
use bfsi_voice_agent.Jobs.Store.Runs.{Call, claim_call, apply, run}
use bfsi_voice_agent.Jobs.Store.Transitions.{jobs-claim_found}

-- `n` claims by a worker that dies each time: the next comes when the lease has just run out.
abbrev pub dying_claims : ℕ → ℕ → ℕ → String → List Call
dying_claims zero now lease w = []
dying_claims (suc n) now lease w = claim_call now w ∷ dying_claims n (now + lease + 1) lease w

claim_single :
    (now : ℕ) (w : String) (s : JobStore) {x : Row}
    → s.jobs ≡ x ∷ []
    → is_runnable now x ≡ true
    → ((claim now w s).1.jobs ≡ claim_row now (now + s.lease_seconds) w x ∷ [])
      × ((claim now w s).1.lease_seconds ≡ s.lease_seconds)
unfolding claim
claim_single now w s {x} e ready =
    let found : earliest now s.jobs ≡ some x = rw e (unfold earliest in rw ready) in
    rw (found, claim)
      (
        rw jobs-claim_found (rw e (unfold update_where in ground (arith, eq_refl x.job_id))),
        unfold claim_found in ground arith,
      )

runnable_after :
    (now lease : ℕ) (w : String) (x : Row)
    → is_runnable (now + lease + 1) (claim_row now (now + lease) w x) ≡ true
unfolding is_runnable
runnable_after now lease w x = ground arith

dying_from :
    (n now lease : ℕ) (w : String) (s : JobStore) (x : Row)
    → s.lease_seconds ≡ lease
    → s.jobs ≡ x ∷ []
    → is_runnable now x ≡ true
    → (y : Row) × ((run (dying_claims (suc n) now lease w) s).jobs ≡ y ∷ [])
      × (y.status ≡ processing)
      × (y.attempts ≡ x.attempts + suc n)
      × (y.max_attempts ≡ x.max_attempts)
unfolding run apply
dying_from zero now lease w s x l e ready = (
  claim_row now (now + s.lease_seconds) w x,
  (claim_single now w s e ready).0,
  refl,
  omega arith,
  refl,
)
dying_from (suc n) now lease w s x l e ready =
    let (jobs, same) = claim_single now w s e ready in
    let jobs' : (claim now w s).1.jobs ≡ claim_row now (now + lease) w x ∷ [] = simp (← l) jobs in
    let (y, at, status, attempts, limit) =
      dying_from n (now + lease + 1) lease w (claim now w s).1 (claim_row now (now + lease) w x)
        (same ∙ l) jobs' (runnable_after now lease w x) in
    (y, at, status, omega arith, limit)

-- Whatever its max_attempts, a job whose worker dies on every attempt is claimed again after each
-- lease, without end: after any number n of such claims it has n attempts more and is still
-- PROCESSING, never in the DLQ.
pub dying_claims_unlimited :
    (n now : ℕ) (w : String) (s : JobStore) (x : Row)
    → s.jobs ≡ x ∷ []
    → is_runnable now x ≡ true
    → let s' = run (dying_claims (suc n) now s.lease_seconds w) s in
      (y : Row) × (s'.jobs ≡ y ∷ [])
      × (y.status ≡ processing)
      × (y.attempts ≡ x.attempts + suc n)
      × (y.max_attempts ≡ x.max_attempts)
dying_claims_unlimited n now w s x = dying_from n now s.lease_seconds w s x refl

update_none :
    (now : ℕ) (j : String) (rows : List Row)
    → rowcount (with_status j dlq) rows ≡ 0
    → update_where (with_status j dlq) (requeue_row now) rows ≡ rows
unfolding rowcount update_where
update_none now j [] h = refl
update_none now j (r ∷ rows) h = ground (arith, update_none now j rows)

-- Where no job of that id is in the DLQ, `requeue_dlq` moves no job and still records that one went
-- from DLQ to QUEUED.
pub requeue_not_dlq :
    (now : ℕ) (j : String) (s : JobStore)
    → rowcount (with_status j dlq) s.jobs ≡ 0
    → let s' = (requeue_dlq now j s).1 in
      (s'.jobs ≡ s.jobs)
      × (s'.job_events
          ≡ s.job_events ++ event now j (some dlq) queued none (some manual_requeue) ∷ [])
unfolding requeue_dlq
requeue_not_dlq now j s h = (update_none now j s.jobs h, refl)
