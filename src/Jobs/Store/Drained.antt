-- ===== src/Jobs/Store/Drained.antt =====
-- jobs/store.py: no job that is due is passed over.
use bfsi_voice_agent.Prelude.{
  ℕ, zero, suc, ◌+◌, ◌≤◌, ◌<◌, String, ◌≡◌, ◌⊎◌, inl, inr, ap, ◌∙◌, Bool, true, false, some, List,
  [], ◌∷◌, arith, sym, leb, str_eq, eq_iff, Bool-cases, Option-cases, count, length,
}
use bfsi_voice_agent.Jobs.Types.{Row, JobStore, JobStatus, status_eq, queued, retrying, processing}
use bfsi_voice_agent.Jobs.Tables.{find_job, is_runnable}
use bfsi_voice_agent.Jobs.Store.{claim, claim_found, claim_row}
use bfsi_voice_agent.Jobs.Store.Distinct.{Distinct}
use bfsi_voice_agent.Jobs.Store.Runs.{claim_call, apply, run}
use bfsi_voice_agent.Jobs.Store.Transitions.{apply-Advances}
use bfsi_voice_agent.Jobs.Store.Claims.{
  claimed_not_runnable, claims, claim_takes_soonest, claim_idle,
}

-- A job is due: it was queued or waits for its retry, and its time has come; or a worker has it
-- whose lease ran out.
abbrev pub Due : ℕ → Row → Type 0
Due now r =
    ((r.status ≡ queued) × (r.available_at ≤ now))
    ⊎ (((r.status ≡ retrying) × (r.available_at ≤ now))
        ⊎ ((expiry : ℕ) × (r.status ≡ processing)
            × (r.lease_expires_at ≡ some expiry)
            × (expiry < now)))

Due-is_runnable : (now : ℕ) (r : Row) → Due now r → is_runnable now r ≡ true
unfolding is_runnable
Due-is_runnable now r (inl h) = ground (arith, h)
Due-is_runnable now r (inr (inl h)) = ground (arith, h)
Due-is_runnable now r (inr (inr (t, st, lease, le))) = ground (arith, st, lease, le)

status_eq-same : (a b : JobStatus) → status_eq a b ≡ true → a ≡ b
status_eq-same a b h = ground (arith, h)

is_runnable-Due : (now : ℕ) (r : Row) → is_runnable now r ≡ true → Due now r
unfolding is_runnable
is_runnable-Due now r h = elim (Bool-cases (status_eq r.status queued)) [
  | inl e ↦ inl (status_eq-same r.status queued e, ground arith)
  | inr e ↦ elim (Bool-cases (status_eq r.status retrying)) [
    | inl e' ↦ inr (inl (status_eq-same r.status retrying e', ground arith))
    | inr e' ↦ elim (Option-cases r.lease_expires_at) [
      | inl l ↦ absurd (ground arith)
      | inr (t, l) ↦
          inr (inr (t, status_eq-same r.status processing (ground arith), l, ground arith))
    ]
  ]
]

not_runnable : (now : ℕ) (r : Row) → ¬ Due now r → is_runnable now r ≡ false
not_runnable now r h = elim (Bool-cases (is_runnable now r)) [
  | inl e ↦ absurd (h (is_runnable-Due now r e))
  | inr e ↦ e
]

same_row : {r s : Row} → some r ≡ some s → r ≡ s
same_row h = cc

count_pos :
    (p : Row → Bool) (j : String) (rows : List Row) {r : Row}
    → find_job j rows ≡ some r
    → p r ≡ true
    → 0 < count p rows
unfolding find_job
count_pos p j [] f h = cc
count_pos p j (x ∷ rows) {r} f h = ground (arith, count_pos p j rows {r = r})

count_le_length : (p : Row → Bool) (rows : List Row) → count p rows ≤ length rows
count_le_length p [] = omega arith
count_le_length p (x ∷ rows) = ground (arith, count_le_length p rows)

lease_seconds-claim :
    (now : ℕ) (w : String) (s : JobStore) → (claim now w s).1.lease_seconds ≡ s.lease_seconds
unfolding claim claim_found
lease_seconds-claim now w s = ground arith

-- What `n` claims make of a job.
abbrev Taken : ℕ → ℕ → String → JobStore → String → Row → Type 0
Taken n now w s j r =
    let jobs = (run (claims n now w) s).jobs in
    (is_runnable now r ≡ true → find_job j jobs ≡ some (claim_row now (now + s.lease_seconds) w r))
    × (is_runnable now r ≡ false → find_job j jobs ≡ some r)

-- A claim, and then `n`.
next_Taken :
    (n now : ℕ) (w : String) (s : JobStore) (j : String) (r : Row)
    → Taken n now w (claim now w s).1 j r
    → Taken (suc n) now w s j r
unfolding run apply
next_Taken n now w s j r (taken, kept) = (
  λ h. taken h ∙ ap (λ t. some (claim_row now (now + t) w r)) (lease_seconds-claim now w s),
  kept,
)

claims-Taken :
    (n now : ℕ) (w : String) (s : JobStore) (j : String) (r : Row)
    → Distinct s.jobs
    → count (is_runnable now) s.jobs ≤ n
    → find_job j s.jobs ≡ some r
    → Taken n now w s j r
unfolding run apply
claims-Taken zero now w s j r d few f =
    (λ ready. absurd (omega (arith, few, count_pos (is_runnable now) j s.jobs f ready)), λ h. f)
claims-Taken (suc n) now w s j r d few f =
    elim (Bool-cases (leb 1 (count (is_runnable now) s.jobs))) [
      | inr e ↦
          let none_left : count (is_runnable now) s.jobs ≡ 0 = ground (arith, e) in
          let same = ap (λ o. o.1) (claim_idle now w s none_left) in
          let left = ap (λ t. count (is_runnable now) t.jobs) same in
          next_Taken n now w s j r (
            claims-Taken n now w (claim now w s).1 j r
              (apply-Advances (claim_call now w) s d).distinct (omega (arith, none_left, left))
              (ap (λ t. find_job j t.jobs) same ∙ f))
      | inl e ↦
          let (r₀, job, f₀, ready, least, answer, row, at, others, fewer) =
            claim_takes_soonest now w s d (ground (arith, e)) in
          let s' = (claim now w s).1 in
          let d' = (apply-Advances (claim_call now w) s d).distinct in
          let rest : count (is_runnable now) s'.jobs ≤ n = omega (arith, few, fewer) in
          elim (Bool-cases (str_eq r₀.job_id j)) [
            | inl one ↦
                let id : r₀.job_id ≡ j = (eq_iff r₀.job_id j).0 one in
                let same : r₀ ≡ r = same_row (sym f₀ ∙ (ap (λ i. find_job i s.jobs) id ∙ f)) in
                let taken = claim_row now (now + s.lease_seconds) w r in
                let there : find_job j s'.jobs ≡ some taken =
                  rw (← id) (
                    at
                    ∙ ap some (row ∙ ap (λ x. claim_row now (now + s.lease_seconds) w x) same)) in
                let stays = claims-Taken n now w s' j taken d' rest there in
                (
                  λ h. stays.1 (claimed_not_runnable now s.lease_seconds w r),
                  λ h. absurd (ground (arith, h, rw same at ready)),
                )
            | inr other ↦
                next_Taken n now w s j r (claims-Taken n now w s' j r d' rest (others j other ∙ f))
          ]
    ]

-- As many claims at one reading of the clock as there are jobs pass over none that is due, whether it
-- was queued, waits for its retry or was lost by its worker: each of them is PROCESSING then, under
-- the worker, with one attempt more and a full lease. A job that is not due is as it was.
pub claims_drain :
    (n now : ℕ) (w : String) (s : JobStore) (j : String) (r : Row)
    → Distinct s.jobs
    → length s.jobs ≤ n
    → find_job j s.jobs ≡ some r
    → let jobs = (run (claims n now w) s).jobs in
      (Due now r
        → find_job j jobs
          ≡ some (record r {
            status = processing;
            attempts = r.attempts + 1;
            worker_id = some w;
            lease_expires_at = some (now + s.lease_seconds);
            updated_at = now;
          }))
      × (¬ Due now r → find_job j jobs ≡ some r)
claims_drain n now w s j r d enough f =
    let few = count_le_length (is_runnable now) s.jobs in
    let (taken, kept) = claims-Taken n now w s j r d (omega (arith, few, enough)) f in
    (λ h. taken (Due-is_runnable now r h), λ h. kept (not_runnable now r h))
