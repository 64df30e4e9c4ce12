-- ===== src/Jobs/Store/Updates.antt =====
-- What an UPDATE of one job, and the SELECTs of `claim` and `fail`, find under unique keys.
use bfsi_voice_agent.Prelude.{
  ℕ, ◌+◌, ◌≤◌, ◌<◌, String, ◌≡◌, refl, Bool, true, false, Option, none, some, List, [], ◌∷◌, arith,
  str_eq, eq_iff, eq_refl, inl, inr, Bool-cases, Option-cases, count, All, All-map, if◌then◌else◌,
}
use bfsi_voice_agent.Jobs.Types.{Row}
use bfsi_voice_agent.Jobs.Tables.{
  find_job, job_exists, update_where, rowcount, earliest, is_runnable, held_by,
}
use bfsi_voice_agent.Jobs.Store.{find_held}
use bfsi_voice_agent.Jobs.Store.Distinct.{Distinct, KeepsKeys}

pub find_job-id : (j : String) (rows : List Row) {r : Row} → find_job j rows ≡ some r → r.job_id ≡ j
unfolding find_job
find_job-id j [] h = cc
find_job-id j (x ∷ rows) {r} h = ground (arith, eq_iff x.job_id j, find_job-id j rows {r = r})

abbrev pub updated : (Row → Bool) → (Row → Row) → Option Row → Option Row
updated test set none = none
updated test set (some r) = some (if test r then set r else r)

-- A lookup after an UPDATE that leaves the ids alone.
pub find_job-update_where :
    (test : Row → Bool) (set : Row → Row) (j : String) (rows : List Row)
    → KeepsKeys set
    → find_job j (update_where test set rows) ≡ updated test set (find_job j rows)
unfolding find_job update_where
find_job-update_where test set j [] keeps = refl
find_job-update_where test set j (x ∷ rows) keeps =
    ground (arith, keeps x, find_job-update_where test set j rows keeps)

-- The UPDATEs that `j` alone can satisfy.
abbrev pub OnlyOn : String → (Row → Bool) → Type 0
OnlyOn j test = (r : Row) → test r ≡ true → str_eq r.job_id j ≡ true

module _ (j : String) (test : Row → Bool) (only : OnlyOn j test) where
  update_absent :
      (k : String) (set : Row → Row) (rows : List Row)
      → job_exists j k rows ≡ false
      → update_where test set rows ≡ rows
  unfolding update_where job_exists
  update_absent k set [] h = refl
  update_absent k set (r ∷ rows) h = ground (arith, only r, update_absent k set rows)

  rowcount_absent :
      (k : String) (rows : List Row) → job_exists j k rows ≡ false → rowcount test rows ≡ 0
  unfolding rowcount job_exists
  rowcount_absent k [] h = refl
  rowcount_absent k (r ∷ rows) h = ground (arith, only r, rowcount_absent k rows)

  -- The UPDATE reaches one row.
  pub rowcount_one :
      (rows : List Row) {r : Row}
      → Distinct rows
      → find_job j rows ≡ some r
      → test r ≡ true
      → rowcount test rows ≡ 1
  unfolding rowcount find_job
  rowcount_one [] d f h = cc
  rowcount_one (x ∷ rows) {r} d f h = elim (Bool-cases (str_eq x.job_id j)) [
    | inl e ↦
        let same : x.job_id ≡ j = (eq_iff x.job_id j).0 e in
        let fresh : job_exists j x.idempotency_key rows ≡ false = simp (← same) d.0 in
        ground (arith, rowcount_absent x.idempotency_key rows fresh)
    | inr e ↦ ground (arith, only x, rowcount_one rows {r = r} d.1)
  ]

  -- The UPDATE leaves every other job alone.
  pub find_job-update_other :
      (i : String) (set : Row → Row) (rows : List Row)
      → KeepsKeys set
      → str_eq j i ≡ false
      → find_job i (update_where test set rows) ≡ find_job i rows
  find_job-update_other i set rows keeps ne = elim (Option-cases (find_job i rows)) [
    | inl e ↦ rw (find_job-update_where test set i rows keeps) (rw e)
    | inr (x, e) ↦
        let id : x.job_id ≡ i = find_job-id i rows e in
        rw (find_job-update_where test set i rows keeps)
          (rw e (ground (arith, only x, eq_iff x.job_id j, eq_iff j i)))
  ]

  -- The UPDATE takes one row out of those with a property.
  pub count-update_where :
      (p : Row → Bool) (set : Row → Row) (rows : List Row) {r : Row}
      → Distinct rows
      → find_job j rows ≡ some r
      → test r ≡ true
      → p r ≡ true
      → p (set r) ≡ false
      → count p (update_where test set rows) + 1 ≡ count p rows
  unfolding update_where find_job
  count-update_where p set [] d f h a b = cc
  count-update_where p set (x ∷ rows) {r} d f h a b = elim (Bool-cases (str_eq x.job_id j)) [
    | inl e ↦
        let same : x.job_id ≡ j = (eq_iff x.job_id j).0 e in
        let fresh : job_exists j x.idempotency_key rows ≡ false = simp (← same) d.0 in
        let here : x ≡ r = ground arith in
        rw (update_absent x.idempotency_key set rows fresh) (rw here (ground arith))
    | inr e ↦ ground (arith, only x, count-update_where p set rows {r = r} d.1)
  ]

job_exists-find_job :
    (j k : String) (rows : List Row) {r : Row}
    → job_exists j k rows ≡ false
    → find_job r.job_id rows ≡ some r
    → str_eq j r.job_id ≡ false
unfolding job_exists find_job
job_exists-find_job j k [] h f = cc
job_exists-find_job j k (x ∷ rows) {r} h f =
    ground (arith, eq_iff x.job_id j, eq_iff j r.job_id, job_exists-find_job j k rows {r = r})

pub earliest-find_job :
    (now : ℕ) (rows : List Row) {r : Row}
    → Distinct rows
    → earliest now rows ≡ some r
    → find_job r.job_id rows ≡ some r
unfolding earliest find_job
earliest-find_job now [] d h = cc
earliest-find_job now (x ∷ rows) {r} d h = elim (Option-cases (earliest now rows)) [
  | inl e ↦ ground (arith, eq_refl r.job_id)
  | inr (y, e) ↦
      let f = earliest-find_job now rows d.1 e in
      let apart = job_exists-find_job x.job_id x.idempotency_key rows d.0 f in
      ground (arith, eq_refl r.job_id)
]

none_runnable :
    (now : ℕ) (rows : List Row)
    → earliest now rows ≡ none
    → All (λ x. is_runnable now x ≡ false) rows
unfolding earliest
none_runnable now [] h = tt
none_runnable now (x ∷ rows) h = (ground arith, none_runnable now rows (ground arith))

pub earliest-least :
    (now : ℕ) (rows : List Row) {r : Row}
    → earliest now rows ≡ some r
    → All (λ x. is_runnable now x ≡ true → r.available_at ≤ x.available_at) rows
unfolding earliest
earliest-least now [] h = tt
earliest-least now (x ∷ rows) {r} h = elim (Option-cases (earliest now rows)) [
  | inl e ↦ (ground arith, All-map _ _ rows (λ y no_y yes_y. cc) (none_runnable now rows e))
  | inr (y, e) ↦
      let le : r.available_at ≤ y.available_at = ground arith in
      (
        ground arith,
        All-map _ _ rows (λ z below ready. let b = below ready in omega arith)
            (earliest-least now rows e),
      )
]

pub earliest-eq_none :
    (now : ℕ) (rows : List Row) → earliest now rows ≡ none → count (is_runnable now) rows ≡ 0
unfolding earliest
earliest-eq_none now [] h = refl
earliest-eq_none now (x ∷ rows) h = ground (arith, earliest-eq_none now rows)

pub earliest-count_pos :
    (now : ℕ) (rows : List Row) {r : Row}
    → earliest now rows ≡ some r
    → 0 < count (is_runnable now) rows
unfolding earliest
earliest-count_pos now [] h = cc
earliest-count_pos now (x ∷ rows) {r} h = elim (Option-cases (earliest now rows)) [
  | inl e ↦ ground arith
  | inr (y, e) ↦ let pos = earliest-count_pos now rows e in ground arith
]

absent_find_held :
    (j k w : String) (rows : List Row) → job_exists j k rows ≡ false → find_held j w rows ≡ none
unfolding find_held job_exists
absent_find_held j k w [] h = refl
absent_find_held j k w (r ∷ rows) h = ground (arith, absent_find_held j k w rows)

-- The SELECT of `fail` finds the job if the worker holds it.
abbrev pub kept_if : (Row → Bool) → Option Row → Option Row
kept_if test none = none
kept_if test (some r) = if test r then some r else none

pub find_held-find_job :
    (j w : String) (rows : List Row)
    → Distinct rows
    → find_held j w rows ≡ kept_if (held_by j w) (find_job j rows)
unfolding find_held find_job
find_held-find_job j w [] d = refl
find_held-find_job j w (x ∷ rows) d = elim (Bool-cases (str_eq x.job_id j)) [
  | inl e ↦
      let same : x.job_id ≡ j = (eq_iff x.job_id j).0 e in
      let fresh : job_exists j x.idempotency_key rows ≡ false = simp (← same) d.0 in
      ground (arith, absent_find_held j x.idempotency_key w rows fresh)
  | inr e ↦ ground (arith, find_held-find_job j w rows d.1)
]
