-- ===== src/Prelude/Occurrences.antt =====
-- Occurrences of one text in another, and what stripping keeps of them.
use mathlib.Core.Path.{◌≡◌, refl, sym, ap, ◌∙◌}
use mathlib.Core.Logic.{inl, inr}
use mathlib.Core.Bool.{true, false}
use mathlib.Core.List.{[], ◌∷◌, ◌++◌, reverse, reverse-append, reverse-reverse}
use native.Mathlib.Omega.{arith}
use bfsi_voice_agent.Prelude.Tests.{Bool-cases}
use bfsi_voice_agent.Prelude.Lists.{append_assoc}
use bfsi_voice_agent.Prelude.Texts.{
  Text, is_space, strip_left, strip, starts_with, is_empty, text_eq,
}

abbrev pub Occurs : Text → Text → Type 0
Occurs p t = (a : Text) × (b : Text) × (t ≡ a ++ (p ++ b))

abbrev pub FirstBlack : Text → Type 0
FirstBlack [] = ⊥
FirstBlack (c ∷ t) = is_space c ≡ false

abbrev pub Trimmed : Text → Type 0
Trimmed p = FirstBlack p × FirstBlack (reverse p)

pub Occurs-left : (p t u : Text) → Occurs p t → Occurs p (t ++ u)
Occurs-left p t u (a, b, e) = (
  a,
  b ++ u,
  ap (λ s. s ++ u) e ∙ (append_assoc a (p ++ b) u ∙ ap (λ s. a ++ s) (append_assoc p b u)),
)

pub Occurs-right : (p t u : Text) → Occurs p t → Occurs p (u ++ t)
Occurs-right p t u (a, b, e) = (u ++ a, b, ap (λ s. u ++ s) e ∙ sym (append_assoc u a (p ++ b)))

Occurs-reverse : (p t : Text) → Occurs p t → Occurs (reverse p) (reverse t)
Occurs-reverse p t (a, b, e) = (
  reverse b,
  reverse a,
  ap reverse e
      ∙ (reverse-append a (p ++ b)
          ∙ (ap (λ s. s ++ reverse a) (reverse-append p b)
              ∙ append_assoc (reverse b) (reverse p) (reverse a))),
)

strip_left-occurrence : (p a b : Text) → FirstBlack p → Occurs p (strip_left (a ++ (p ++ b)))
strip_left-occurrence [] a b h = absurd h
strip_left-occurrence (c ∷ p) [] b h = rw h ([], b, refl)
strip_left-occurrence (c ∷ p) (x ∷ a) b h = elim (Bool-cases (is_space x)) [
  | inl e ↦ rw e (strip_left-occurrence (c ∷ p) a b h)
  | inr e ↦ rw e (x ∷ a, b, refl)
]

strip_left-Occurs : (p t : Text) → FirstBlack p → Occurs p t → Occurs p (strip_left t)
strip_left-Occurs p t h (a, b, e) = rw e (strip_left-occurrence p a b h)

pub strip-Occurs : (p t : Text) → Trimmed p → Occurs p t → Occurs p (strip t)
unfolding strip
strip-Occurs p t (first, last) h =
    let turned = Occurs-reverse p (strip_left t) (strip_left-Occurs p t first h) in
    let cut = strip_left-Occurs (reverse p) (reverse (strip_left t)) last turned in
    rw reverse-reverse at (Occurs-reverse (reverse p) (strip_left (reverse (strip_left t))) cut)

strip_left-FirstBlack : (t : Text) → is_empty (strip_left t) ≡ false → FirstBlack (strip_left t)
strip_left-FirstBlack [] h = cc
strip_left-FirstBlack (c ∷ t) h = elim (Bool-cases (is_space c)) [
  | inl e ↦ rw e (strip_left-FirstBlack t (rw e at h))
  | inr e ↦ rw e e
]

strip_left-suffix : (t : Text) → (a : Text) × (t ≡ a ++ strip_left t)
strip_left-suffix [] = ([], refl)
strip_left-suffix (c ∷ t) = elim (Bool-cases (is_space c)) [
  | inl e ↦ let (a, same) = strip_left-suffix t in rw e (c ∷ a, ap (λ s. c ∷ s) same)
  | inr e ↦ rw e ([], refl)
]

FirstBlack-prefix : (x y : Text) → is_empty x ≡ false → FirstBlack (x ++ y) → FirstBlack x
FirstBlack-prefix [] y h f = cc
FirstBlack-prefix (c ∷ x) y h f = f

is_empty-prefix : (x y : Text) → is_empty x ≡ false → is_empty (x ++ y) ≡ false
is_empty-prefix [] y h = cc
is_empty-prefix (c ∷ x) y h = refl

is_empty-reverse : (t : Text) → is_empty (reverse t) ≡ false → is_empty t ≡ false
is_empty-reverse [] h = h
is_empty-reverse (c ∷ t) h = refl

pub Trimmed-strip : (t : Text) → is_empty (strip t) ≡ false → Trimmed (strip t)
unfolding strip
Trimmed-strip t h =
    let left = strip_left t in
    let right = strip_left (reverse left) in
    let (a, same) = strip_left-suffix (reverse left) in
    let whole : left ≡ reverse right ++ reverse a =
      sym (reverse-reverse left) ∙ (ap reverse same ∙ reverse-append a right) in
    let black : FirstBlack left =
      strip_left-FirstBlack t (rw whole (is_empty-prefix (reverse right) (reverse a) h)) in
    (
      FirstBlack-prefix (reverse right) (reverse a) h (rw whole at black),
      rw reverse-reverse (strip_left-FirstBlack (reverse left) (is_empty-reverse right h)),
    )

pub starts_with-prefix : (p t : Text) → starts_with p t ≡ true → (r : Text) × (t ≡ p ++ r)
unfolding starts_with
starts_with-prefix [] t h = (t, refl)
starts_with-prefix (c ∷ p) [] h = cc
starts_with-prefix (c ∷ p) (d ∷ t) h =
    let (r, e) = starts_with-prefix p t (ground arith) in
    let same : c ≡ d = ground arith in (r, ap (λ u. d ∷ u) e ∙ ap (λ x. x ∷ (p ++ r)) (sym same))

pub is_empty-Occurs : (p t : Text) → FirstBlack p → Occurs p t → is_empty t ≡ false
is_empty-Occurs [] t h o = absurd h
is_empty-Occurs (c ∷ p) t h ([], b, e) = rw e refl
is_empty-Occurs (c ∷ p) t h (x ∷ a, b, e) = rw e refl

pub eq_of_text_eq : (s t : Text) → text_eq s t ≡ true → s ≡ t
eq_of_text_eq [] [] h = refl
eq_of_text_eq [] (d ∷ t) h = cc
eq_of_text_eq (c ∷ s) [] h = cc
eq_of_text_eq (c ∷ s) (d ∷ t) h =
    let rest = eq_of_text_eq s t (ground arith) in let same : c ≡ d = ground arith in cc

pub text_eq_refl : (t : Text) → text_eq t t ≡ true
text_eq_refl [] = refl
text_eq_refl (c ∷ t) = ground (arith, text_eq_refl t)

strip_left-FirstBlack_same : (p : Text) → FirstBlack p → strip_left p ≡ p
strip_left-FirstBlack_same [] h = absurd h
strip_left-FirstBlack_same (c ∷ p) h = rw h refl

-- A trimmed text is left alone.
pub strip-Trimmed : (p : Text) → Trimmed p → strip p ≡ p
unfolding strip
strip-Trimmed p (first, last) =
    rw (strip_left-FirstBlack_same p first, strip_left-FirstBlack_same (reverse p) last)
      (reverse-reverse p)
