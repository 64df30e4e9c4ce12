-- ===== src/Jobs/Store/Distinct.antt =====
-- The tables' keys stay unique, and what an UPDATE leaves of a row.
use bfsi_voice_agent.Prelude.{
  String, ◌≡◌, refl, Bool, false, List, [], ◌∷◌, ◌++◌, arith, str_eq, eq_iff, inl, inr, Bool-cases,
}
use bfsi_voice_agent.Jobs.Types.{Row}
use bfsi_voice_agent.Jobs.Tables.{update_where, job_exists}

-- No job id and no idempotency key stands in two rows.
abbrev pub Distinct : List Row → Type 0
Distinct [] = Unit
Distinct (r ∷ rs) = (job_exists r.job_id r.idempotency_key rs ≡ false) × Distinct rs

-- A SET clause that leaves the two keys alone.
abbrev pub KeepsKeys : (Row → Row) → Type 0
KeepsKeys set =
    (r : Row) → ((set r).job_id ≡ r.job_id) × ((set r).idempotency_key ≡ r.idempotency_key)

module _ (test : Row → Bool) (set : Row → Row) (keeps : KeepsKeys set) where
  job_exists-update_where :
      (j k : String) (rs : List Row) → job_exists j k (update_where test set rs) ≡ job_exists j k rs
  unfolding job_exists update_where
  job_exists-update_where j k [] = refl
  job_exists-update_where j k (r ∷ rs) = ground (arith, keeps r, job_exists-update_where j k rs)

  pub Distinct-update_where : (rs : List Row) → Distinct rs → Distinct (update_where test set rs)
  unfolding update_where
  Distinct-update_where [] d = tt
  Distinct-update_where (r ∷ rs) d = (
    elim (Bool-cases (test r)) [
      | inl e ↦ rw (e, (keeps r).0, (keeps r).1, job_exists-update_where) d.0
      | inr e ↦ rw (e, job_exists-update_where) d.0
    ],
    Distinct-update_where rs d.1,
  )

job_exists-swap :
    (j k : String) (r : Row) (rs : List Row)
    → job_exists j k rs ≡ false
    → job_exists r.job_id r.idempotency_key rs ≡ false
    → (str_eq r.job_id j ≡ false) × (str_eq r.idempotency_key k ≡ false)
    → (row : Row) → row.job_id ≡ j
    → row.idempotency_key ≡ k
    → job_exists r.job_id r.idempotency_key (rs ++ row ∷ []) ≡ false
unfolding job_exists
job_exists-swap j k r [] a b c row ej ek = ground (
  arith,
  eq_iff r.job_id j,
  eq_iff row.job_id r.job_id,
  eq_iff r.idempotency_key k,
  eq_iff row.idempotency_key r.idempotency_key,
)
job_exists-swap j k r (x ∷ rs) a b c row ej ek =
    ground (arith, job_exists-swap j k r rs (ground arith) (ground arith) c row ej ek)

pub Distinct-append :
    (row : Row) (rs : List Row)
    → job_exists row.job_id row.idempotency_key rs ≡ false
    → Distinct rs
    → Distinct (rs ++ row ∷ [])
unfolding job_exists
Distinct-append row [] a d = (refl, tt)
Distinct-append row (r ∷ rs) a d = (
  job_exists-swap row.job_id row.idempotency_key r rs (ground arith) d.0
      (ground arith, ground arith) row refl refl,
  Distinct-append row rs (ground arith) d.1,
)
