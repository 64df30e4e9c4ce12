-- ===== src/Prelude/Ranking.antt =====
-- Lists in the descending order of a number: sorting them, and the first of them.
use Prim.Native.Nat.{ℕ, zero, suc, ◌≤◌, min}
use mathlib.Core.Path.{◌≡◌, refl}
use mathlib.Core.Logic.{◌⊎◌, inl, inr}
use mathlib.Core.List.{List, [], ◌∷◌}
use native.Mathlib.Omega.{arith}
use bfsi_voice_agent.Prelude.Tests.{leb, if◌then◌else◌, Bool-cases}
use bfsi_voice_agent.Prelude.Lists.{All, All-In, In, length, take}

module _ {A : Type 0} where
  -- `ORDER BY at DESC`: the rows before a row of the same time stay before it.
  unfoldable pub insert_latest : (A → ℕ) → A → List A → List A
  insert_latest at row [] = row ∷ []
  insert_latest at row (next ∷ rows) =
      if leb (at next) (at row) then row ∷ next ∷ rows else next ∷ insert_latest at row rows

  unfoldable pub sort_latest : (A → ℕ) → List A → List A
  unfolding insert_latest
  sort_latest at [] = []
  sort_latest at (row ∷ rows) = insert_latest at row (sort_latest at rows)

module _ {A : Type 0} (at : A → ℕ) where
  -- The latest first.
  abbrev pub Descending : List A → Type 0
  Descending [] = Unit
  Descending (x ∷ xs) = All (λ y. at y ≤ at x) xs × Descending xs

  module _ (P : A → Type 0) where
    All-insert_latest : (x : A) (xs : List A) → P x → All P xs → All P (insert_latest at x xs)
    unfolding insert_latest
    All-insert_latest x [] px h = (px, tt)
    All-insert_latest x (y ∷ ys) px h = elim (Bool-cases (leb (at y) (at x))) [
      | inl e ↦ rw e (px, h)
      | inr e ↦ rw e (h.0, All-insert_latest x ys px h.1)
    ]

    pub All-sort_latest : (xs : List A) → All P xs → All P (sort_latest at xs)
    unfolding sort_latest
    All-sort_latest [] h = tt
    All-sort_latest (x ∷ xs) h =
        All-insert_latest x (sort_latest at xs) h.0 (All-sort_latest xs h.1)

    pub All-take : (n : ℕ) (xs : List A) → All P xs → All P (take n xs)
    All-take zero xs h = tt
    All-take (suc n) [] h = tt
    All-take (suc n) (x ∷ xs) h = (h.0, All-take n xs h.1)

  All-le : (i j : ℕ) (xs : List A) → i ≤ j → All (λ y. at y ≤ i) xs → All (λ y. at y ≤ j) xs
  All-le i j [] le h = tt
  All-le i j (x ∷ xs) le h = (omega (arith, h.0), All-le i j xs le h.1)

  Descending-insert_latest :
      (x : A) (xs : List A) → Descending xs → Descending (insert_latest at x xs)
  unfolding insert_latest
  Descending-insert_latest x [] h = (tt, tt)
  Descending-insert_latest x (y ∷ ys) h = elim (Bool-cases (leb (at y) (at x))) [
    | inl e ↦ let le : at y ≤ at x = ground arith in rw e ((le, All-le (at y) (at x) ys le h.0), h)
    | inr e ↦ rw e (
      All-insert_latest (λ z. at z ≤ at y) x ys (ground arith) h.0,
      Descending-insert_latest x ys h.1,
    )
  ]

  pub Descending-sort_latest : (xs : List A) → Descending (sort_latest at xs)
  unfolding sort_latest
  Descending-sort_latest [] = tt
  Descending-sort_latest (x ∷ xs) =
      Descending-insert_latest x (sort_latest at xs) (Descending-sort_latest xs)

  pub Descending-take : (n : ℕ) (xs : List A) → Descending xs → Descending (take n xs)
  Descending-take zero xs h = tt
  Descending-take (suc n) [] h = tt
  Descending-take (suc n) (x ∷ xs) h =
      (All-take (λ y. at y ≤ at x) n xs h.0, Descending-take n xs h.1)

  length-insert_latest : (x : A) (xs : List A) → length (insert_latest at x xs) ≡ suc (length xs)
  unfolding insert_latest
  length-insert_latest x [] = refl
  length-insert_latest x (y ∷ ys) = ground (arith, length-insert_latest x ys)

  pub length-sort_latest : (xs : List A) → length (sort_latest at xs) ≡ length xs
  unfolding sort_latest
  length-sort_latest [] = refl
  length-sort_latest (x ∷ xs) =
      omega (arith, length-insert_latest x (sort_latest at xs), length-sort_latest xs)

  pub length-take : (n : ℕ) (xs : List A) → length (take n xs) ≡ min n (length xs)
  length-take zero xs = omega arith
  length-take (suc n) [] = omega arith
  length-take (suc n) (x ∷ xs) = omega (arith, length-take n xs)

  In-insert_latest_self : (x : A) (xs : List A) → In x (insert_latest at x xs)
  unfolding insert_latest
  In-insert_latest_self x [] = inl refl
  In-insert_latest_self x (y ∷ ys) = elim (Bool-cases (leb (at y) (at x))) [
    | inl e ↦ rw e (inl refl)
    | inr e ↦ rw e (inr (In-insert_latest_self x ys))
  ]

  In-insert_latest : (z x : A) (xs : List A) → In z xs → In z (insert_latest at x xs)
  unfolding insert_latest
  In-insert_latest z x [] h = elim h [ ]
  In-insert_latest z x (y ∷ ys) h = elim (Bool-cases (leb (at y) (at x))) [
    | inl e ↦ rw e (inr h)
    | inr e ↦
        rw e (elim h [ inl same ↦ inl same | inr later ↦ inr (In-insert_latest z x ys later) ])
  ]

  pub In-sort_latest : (z : A) (xs : List A) → In z xs → In z (sort_latest at xs)
  unfolding sort_latest
  In-sort_latest z [] h = elim h [ ]
  In-sort_latest z (x ∷ xs) (inl same) = rw same (In-insert_latest_self x (sort_latest at xs))
  In-sort_latest z (x ∷ xs) (inr later) =
      In-insert_latest z x (sort_latest at xs) (In-sort_latest z xs later)

  -- What is not among the first is no later than any of them.
  pub take_latest :
      (n : ℕ) (z : A) (xs : List A)
      → Descending xs
      → In z xs
      → In z (take n xs) ⊎ All (λ y. at z ≤ at y) (take n xs)
  take_latest zero z xs h i = inr tt
  take_latest (suc n) z [] h i = elim i [ ]
  take_latest (suc n) z (x ∷ xs) h (inl same) = inl (inl same)
  take_latest (suc n) z (x ∷ xs) h (inr later) = elim (take_latest n z xs h.1 later) [
    | inl there ↦ inl (inr there)
    | inr older ↦ inr (All-In (λ y. at y ≤ at x) z xs h.0 later, older)
  ]
