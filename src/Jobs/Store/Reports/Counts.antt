-- ===== src/Jobs/Store/Reports/Counts.antt =====
-- jobs/store.py, `stats`: the groups count every job once.
use bfsi_voice_agent.Prelude.{
  ℕ, suc, ◌+◌, ◌≡◌, ◌∙◌, refl, sym, ap, Bool, true, false, ◌||◌, Bool-cases, inl, inr, List, [],
  ◌∷◌, if◌then◌else◌, any, length, map, two_ways, arith,
}
use bfsi_voice_agent.Jobs.Types.{
  JobStatus, submitted, queued, processing, completed, failed, retrying, dlq, status_eq, Row,
  JobStore,
}
use bfsi_voice_agent.Jobs.Tables.{rowcount}
use bfsi_voice_agent.Jobs.Store.Reports.{
  some, has_status, all_statuses, count_one, grouped, put_count, put_groups, stats,
}

status_eq_sound : (a b : JobStatus) → status_eq a b ≡ true → a ≡ b
status_eq_sound a b h = ground (arith, h)

status_eq_self : (a : JobStatus) → status_eq a a ≡ true
status_eq_self a = ground arith

-- What a status has after the groups are put, one after the other.
abbrev value_of : List (JobStatus × ℕ) → JobStatus → ℕ → ℕ
value_of [] st d = d
value_of ((t, n) ∷ groups) st d = value_of groups st (if status_eq st t then n else d)

abbrev table : (JobStatus → ℕ) → List (JobStatus × ℕ)
table f = map (λ st. (st, f st)) all_statuses

put_count-table :
    (st : JobStatus) (n : ℕ) (f : JobStatus → ℕ)
    → put_count st n (table f) ≡ table (λ t. if status_eq t st then n else f t)
unfolding put_count
put_count-table submitted n f = refl
put_count-table queued n f = refl
put_count-table processing n f = refl
put_count-table completed n f = refl
put_count-table failed n f = refl
put_count-table retrying n f = refl
put_count-table dlq n f = refl

put_groups-table :
    (groups : List (JobStatus × ℕ)) (f : JobStatus → ℕ)
    → put_groups groups (table f) ≡ table (λ t. value_of groups t (f t))
unfolding put_groups
put_groups-table [] f = refl
put_groups-table ((st, n) ∷ groups) f =
    ap (put_groups groups) (put_count-table st n f)
    ∙ put_groups-table groups (λ t. if status_eq t st then n else f t)

abbrev has_key : JobStatus → List (JobStatus × ℕ) → Bool
has_key st groups = any (λ p. status_eq st p.0) groups

-- No status has two groups.
abbrev Unique : List (JobStatus × ℕ) → Type 0
Unique [] = Unit
Unique ((t, n) ∷ groups) = (has_key t groups ≡ false) × Unique groups

has_key-count_one :
    (u t : JobStatus) (groups : List (JobStatus × ℕ))
    → status_eq u t ≡ false
    → has_key u (count_one t groups) ≡ has_key u groups
unfolding count_one
has_key-count_one u t [] h = ground (arith, h)
has_key-count_one u t ((v, n) ∷ groups) h =
    two_ways (λ x. has_key u x ≡ has_key u ((v, n) ∷ groups)) (status_eq v t) (λ e. refl)
      (λ e. ap (λ b. status_eq u v || b) (has_key-count_one u t groups h))

Unique-count_one :
    (t : JobStatus) (groups : List (JobStatus × ℕ)) → Unique groups → Unique (count_one t groups)
unfolding count_one
Unique-count_one t [] h = (refl, tt)
Unique-count_one t ((v, n) ∷ groups) h =
    two_ways Unique (status_eq v t) (λ e. h)
      (λ e. (has_key-count_one v t groups e ∙ h.0, Unique-count_one t groups h.1))

value_of_none :
    (groups : List (JobStatus × ℕ)) (st : JobStatus) (d : ℕ)
    → has_key st groups ≡ false
    → value_of groups st d ≡ d
value_of_none [] st d h = refl
value_of_none ((t, n) ∷ groups) st d h =
    let other : status_eq st t ≡ false = ground (arith, h) in
    rw other (value_of_none groups st d (ground (arith, h)))

-- One row more adds one to its status.
value_of-count_one :
    (t st : JobStatus) (groups : List (JobStatus × ℕ))
    → Unique groups
    → value_of (count_one t groups) st 0
      ≡ (if status_eq st t then suc (value_of groups st 0) else value_of groups st 0)
unfolding count_one
value_of-count_one t st [] h = refl
value_of-count_one t st ((v, n) ∷ groups) h = elim (Bool-cases (status_eq v t)) [
  | inl e ↦ elim (Bool-cases (status_eq st v)) [
    | inl same ↦
        let absent : has_key st groups ≡ false = rw (status_eq_sound st v same) h.0 in
        let here : status_eq st t ≡ true = ground (arith, e, same) in
        rw (value_of, e, same, here)
          (value_of_none groups st (suc n) absent ∙ ap suc (sym (value_of_none groups st n absent)))
    | inr other ↦
        let away : status_eq st t ≡ false = ground (arith, e, other) in
        rw (value_of, e, other, away) refl
  ]
  | inr e ↦ elim (Bool-cases (status_eq st v)) [
    | inl same ↦
        let absent : has_key st groups ≡ false = rw (status_eq_sound st v same) h.0 in
        let away : status_eq st t ≡ false = ground (arith, e, same) in
        rw (value_of, e, same, away)
          (value_of_none (count_one t groups) st n (has_key-count_one st t groups away ∙ absent)
            ∙ sym (value_of_none groups st n absent))
    | inr other ↦ rw (value_of, e, other) (value_of-count_one t st groups h.1)
  ]
]

status_eq_sym : (a b : JobStatus) → status_eq a b ≡ status_eq b a
status_eq_sym a b = ground arith

Unique-grouped : (rows : List Row) → Unique (grouped rows)
unfolding grouped
Unique-grouped [] = tt
Unique-grouped (r ∷ rows) = Unique-count_one r.status (grouped rows) (Unique-grouped rows)

value_of-grouped :
    (rows : List Row) (st : JobStatus)
    → value_of (grouped rows) st 0 ≡ rowcount (has_status (some st)) rows
unfolding grouped rowcount
value_of-grouped [] st = refl
value_of-grouped (r ∷ rows) st =
    value_of-count_one r.status st (grouped rows) (Unique-grouped rows)
    ∙ rw (status_eq_sym st r.status, value_of-grouped rows st) refl

-- The sum of the counts.
abbrev pub total : List (JobStatus × ℕ) → ℕ
total [] = 0
total ((st, n) ∷ rest) = n + total rest

total_one_more :
    (a : JobStatus) (f : JobStatus → ℕ)
    → total (table (λ st. if status_eq a st then suc (f st) else f st)) ≡ suc (total (table f))
total_one_more submitted f = omega arith
total_one_more queued f = omega arith
total_one_more processing f = omega arith
total_one_more completed f = omega arith
total_one_more failed f = omega arith
total_one_more retrying f = omega arith
total_one_more dlq f = omega arith

total-rowcount :
    (rows : List Row) → total (table (λ st. rowcount (has_status (some st)) rows)) ≡ length rows
unfolding rowcount
total-rowcount [] = refl
total-rowcount (r ∷ rows) =
    total_one_more r.status (λ st. rowcount (has_status (some st)) rows)
    ∙ ap suc (total-rowcount rows)

-- The report counts every job once: what the loop over the groups leaves for each status, those
-- without a job included, is the number of the rows of that status, and these numbers add up to the
-- number of all jobs.
pub stats_counts :
    (s : JobStore)
    → ((stats s).0 ≡ map (λ st. (st, rowcount (has_status (some st)) s.jobs)) all_statuses)
      × (total (stats s).0 ≡ length s.jobs)
unfolding stats
stats_counts s =
    let same =
      put_groups-table (grouped s.jobs) (λ st. 0)
      ∙ (λ i. table (λ st. value_of-grouped s.jobs st i)) in
    (same, ap total same ∙ total-rowcount s.jobs)
