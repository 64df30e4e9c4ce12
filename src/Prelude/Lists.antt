-- ===== src/Prelude/Lists.antt =====
-- Lists measured by native numbers, predicates on them, and counting by a Boolean test.
use Prim.Native.Nat.{ℕ, zero, suc, ◌+◌}
use mathlib.Core.Path.{◌≡◌, refl, ap}
use mathlib.Core.Logic.{◌⊎◌, inl, inr}
use mathlib.Core.Bool.{Bool, true, false, ◌||◌}
use mathlib.Core.List.{List, [], ◌∷◌, ◌++◌}
use native.Mathlib.Omega.{arith}
use bfsi_voice_agent.Prelude.Tests.{if◌then◌else◌, Bool-cases}

module _ {ℓ} {A : Type ℓ} where
  abbrev pub length : List A → ℕ
  length [] = 0
  length (x ∷ xs) = suc (length xs)

  abbrev pub take : ℕ → List A → List A
  take zero xs = []
  take (suc n) [] = []
  take (suc n) (x ∷ xs) = x ∷ take n xs

  abbrev pub any : (A → Bool) → List A → Bool
  any p [] = false
  any p (x ∷ xs) = p x || any p xs

  abbrev pub count : (A → Bool) → List A → ℕ
  count p [] = 0
  count p (x ∷ xs) = let rest = count p xs in if p x then suc rest else rest

  abbrev pub All {κ} : (A → Type κ) → List A → Type κ
  All P [] = Unit
  All P (x ∷ xs) = P x × All P xs

  pub length-append : (xs ys : List A) → length (xs ++ ys) ≡ length xs + length ys
  length-append [] ys = omega arith
  length-append (x ∷ xs) ys = omega (arith, length-append xs ys)

  pub any-append : (p : A → Bool) (xs ys : List A) → any p (xs ++ ys) ≡ (any p xs || any p ys)
  any-append p [] ys = refl
  any-append p (x ∷ xs) ys = ground (arith, any-append p xs ys)

  pub All-append {κ} : (P : A → Type κ) (xs ys : List A) → All P xs → All P ys → All P (xs ++ ys)
  All-append P [] ys hx hy = hy
  All-append P (x ∷ xs) ys hx hy = (hx.0, All-append P xs ys hx.1 hy)

  pub All-map {κ μ} :
      (P : A → Type κ) (Q : A → Type μ) (xs : List A) → ((x : A) → P x → Q x) → All P xs → All Q xs
  All-map P Q [] f h = tt
  All-map P Q (x ∷ xs) f h = (f x h.0, All-map P Q xs f h.1)

  pub append_nil : (xs : List A) → xs ++ [] ≡ xs
  append_nil [] = refl
  append_nil (x ∷ xs) = ap (λ ys. x ∷ ys) (append_nil xs)

  pub append_assoc : (xs ys zs : List A) → (xs ++ ys) ++ zs ≡ xs ++ (ys ++ zs)
  append_assoc [] ys zs = refl
  append_assoc (x ∷ xs) ys zs = ap (λ t. x ∷ t) (append_assoc xs ys zs)

abbrev pub In : {A : Type 0} → A → List A → Type 0
In x [] = ⊥
In x (y ∷ ys) = (x ≡ y) ⊎ In x ys

module _ {A : Type 0} where
  pub In-append : (x : A) (xs ys : List A) → In x (xs ++ ys) → In x xs ⊎ In x ys
  In-append x [] ys i = inr i
  In-append x (y ∷ xs) ys (inl same) = inl (inl same)
  In-append x (y ∷ xs) ys (inr later) = elim (In-append x xs ys later) [
    | inl here ↦ inl (inr here)
    | inr there ↦ inr there
  ]

  pub In-any : (p : A → Bool) (x : A) (xs : List A) → In x xs → p x ≡ true → any p xs ≡ true
  In-any p x [] i h = elim i [ ]
  In-any p x (y ∷ xs) (inl same) h = let here : p y ≡ true = rw (← same) h in ground (arith, here)
  In-any p x (y ∷ xs) (inr later) h = ground (arith, In-any p x xs later h)

  pub any-In : (p : A → Bool) (xs : List A) → any p xs ≡ true → (x : A) × In x xs × (p x ≡ true)
  any-In p [] h = cc
  any-In p (y ∷ xs) h = elim (Bool-cases (p y)) [
    | inl e ↦ (y, inl refl, e)
    | inr e ↦ let (x, i, k) = any-In p xs (rw e at h) in (x, inr i, k)
  ]

  pub All-In : (P : A → Type 0) (z : A) (xs : List A) → All P xs → In z xs → P z
  All-In P z [] h i = elim i [ ]
  All-In P z (x ∷ xs) h (inl same) = rw same h.0
  All-In P z (x ∷ xs) h (inr later) = All-In P z xs h.1 later

  pub In-append_before : (x : A) (xs ys : List A) → In x xs → In x (xs ++ ys)
  In-append_before x [] ys i = elim i [ ]
  In-append_before x (y ∷ xs) ys (inl same) = inl same
  In-append_before x (y ∷ xs) ys (inr later) = inr (In-append_before x xs ys later)

  pub In-append_after : (x : A) (xs ys : List A) → In x ys → In x (xs ++ ys)
  In-append_after x [] ys i = i
  In-append_after x (y ∷ xs) ys i = inr (In-append_after x xs ys i)

  pub All-each : (P : A → Type 0) (xs : List A) → ((x : A) → In x xs → P x) → All P xs
  All-each P [] f = tt
  All-each P (x ∷ xs) f = (f x (inl refl), All-each P xs (λ y i. f y (inr i)))

  pub All-self : (xs : List A) → All (λ x. In x xs) xs
  All-self xs = All-each (λ x. In x xs) xs (λ x i. i)
