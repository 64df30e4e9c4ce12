-- ===== src/Business/Executor/Dates/Matches.antt =====
-- business/executor.py: what a pattern matches stands in the text.
use bfsi_voice_agent.Prelude.{
  ℕ, zero, suc, ◌+◌, subst, ◌-◌, ◌≡◌, inl, inr, refl, sym, ap, ◌∙◌, Bool, true, false, ◌==◌, Option,
  none, some, List, [], ◌∷◌, ◌++◌, length, In, Text, is_digit, is_space, is_word, span_digits,
  after, arith, Bool-cases, Option-cases, Occurs, Occurs-right, append_assoc,
}
use bfsi_voice_agent.Business.Executor.Dates.{name_among, month_names}
use bfsi_voice_agent.Business.Executor.Dates.Said.{
  month_taken, Piece, digits, mark, blanks, spaces, comma, month_word, span_spaces, take_piece,
  match_pieces, find_all,
}

span_digits-append : (t : Text) → let (ds, rest) = span_digits t in ds ++ rest ≡ t
span_digits-append [] = refl
span_digits-append (c ∷ t) = elim (Bool-cases (is_digit c)) [
  | inl e ↦ rw e (ap (λ u. c ∷ u) (span_digits-append t))
  | inr e ↦ rw e refl
]

span_spaces-append : (t : Text) → let (cs, rest) = span_spaces t in cs ++ rest ≡ t
span_spaces-append [] = refl
span_spaces-append (c ∷ t) = elim (Bool-cases (is_space c)) [
  | inl e ↦ rw e (ap (λ u. c ∷ u) (span_spaces-append t))
  | inr e ↦ rw e refl
]

after-append : (p t r : Text) → after p t ≡ some r → p ++ r ≡ t
unfolding after
after-append [] t r h = ground (arith, h)
after-append (c ∷ p) [] r h = cc
after-append (c ∷ p) (d ∷ t) r h = elim (Bool-cases (c == d)) [
  | inl e ↦
      let same : c ≡ d = ground (arith, e) in
      let rest : p ++ r ≡ t = after-append p t r (rw e at h) in cc
  | inr e ↦ let no : Option.none ≡ some r = rw e at h in cc
]

name_among-append :
    (n k : ℕ) (names : List Text) (t name rest : Text)
    → name_among n names t ≡ some (k, name, rest)
    → name ++ rest ≡ t
unfolding name_among
name_among-append n k [] t name rest h = cc
name_among-append n k (x ∷ names) t name rest h = elim (Option-cases (after x t)) [
  | inl e ↦ name_among-append (n + 1) k names t name rest (rw (e, name_among) at h)
  | inr (r, e) ↦
      let found : some (n, x, r) ≡ some (k, name, rest) = rw (e, name_among) at h in
      let sound = after-append x t r e in
      let first : x ≡ name = ground (arith, found) in
      let second : r ≡ rest = ground (arith, found) in rw (← first, ← second) sound
]

month_taken-append :
    (o : Option (ℕ × Text × Text)) (t taken rest : Text)
    → ((n : ℕ) (name r : Text) → o ≡ some (n, name, r) → name ++ r ≡ t)
    → month_taken o ≡ some (taken, rest)
    → taken ++ rest ≡ t
month_taken-append none t taken rest sound h = cc
month_taken-append (some (n, name, r)) t taken rest sound h =
    let first : name ≡ taken = ground (arith, h) in
    let second : r ≡ rest = ground (arith, h) in rw (← first, ← second) (sound n name r refl)

take_piece-append :
    (p : Piece) (t taken rest : Text) → take_piece p t ≡ some (taken, rest) → taken ++ rest ≡ t
unfolding take_piece
take_piece-append (digits shortest longest) t taken rest h =
    let same = span_digits-append t in ground (arith, h, same)
take_piece-append (mark c) [] taken rest h = cc
take_piece-append (mark c) (d ∷ t) taken rest h = ground (arith, h)
take_piece-append blanks t taken rest h = let same = span_spaces-append t in ground (arith, h, same)
take_piece-append spaces t taken rest h = let same = span_spaces-append t in ground (arith, h, same)
take_piece-append comma [] taken rest h = ground (arith, h)
take_piece-append comma (c ∷ t) taken rest h = ground (arith, h)
take_piece-append month_word t taken rest h =
    month_taken-append (name_among 1 month_names t) t taken rest
      (λ n name r e. name_among-append 1 n month_names t name r e) h

match_pieces-prefix :
    (ps : List Piece) (t m : Text) → match_pieces ps t ≡ some m → (r : Text) × (t ≡ m ++ r)
unfolding match_pieces
match_pieces-prefix [] t m h = (t, ground (arith, h))
match_pieces-prefix (p ∷ ps) t m h = elim (Option-cases (take_piece p t)) [
  | inl e ↦ absurd (ground (arith, h, e))
  | inr ((taken, rest), e) ↦ elim (Option-cases (match_pieces ps rest)) [
    | inl e' ↦ absurd (ground (arith, h, e, e'))
    | inr (more, e') ↦
        let (r, same) = match_pieces-prefix ps rest more e' in
        let whole : taken ++ rest ≡ t = take_piece-append p t taken rest e in
        let joined : taken ++ more ≡ m = ground (arith, h, e, e') in
        (
          r,
          sym whole
              ∙ (ap (λ u. taken ++ u) same
                  ∙ (sym (append_assoc taken more r) ∙ ap (λ u. u ++ r) joined)),
        )
  ]
]

pub find_all-Occurs :
    (ps : List Piece) (skip : ℕ) (inside : Bool) (t m : Text)
    → In m (find_all ps skip inside t)
    → Occurs m t
unfolding find_all
find_all-Occurs ps skip inside [] m i = elim i [ ]
find_all-Occurs ps (suc skip) inside (c ∷ t) m i =
    Occurs-right m t (c ∷ []) (find_all-Occurs ps skip (is_word c) t m i)
find_all-Occurs ps zero true (c ∷ t) m i =
    Occurs-right m t (c ∷ []) (find_all-Occurs ps 0 (is_word c) t m i)
find_all-Occurs ps zero false (c ∷ t) m i = elim (Option-cases (match_pieces ps (c ∷ t))) [
  | inl e ↦
      let none_here : find_all ps 0 false (c ∷ t) ≡ find_all ps 0 (is_word c) t =
        rw (e, find_all) refl in
      Occurs-right m t (c ∷ [])
        (find_all-Occurs ps 0 (is_word c) t m (subst (λ l. In m l) none_here i))
  | inr (n, e) ↦
      let later = find_all ps (length n - 1) (is_word c) t in
      let match_here : find_all ps 0 false (c ∷ t) ≡ n ∷ later = rw (e, find_all) refl in
      elim (subst (λ l. In m l) match_here i) [
        | inl same ↦ let (r, whole) = match_pieces-prefix ps (c ∷ t) n e in rw same ([], r, whole)
        | inr j ↦ Occurs-right m t (c ∷ []) (find_all-Occurs ps (length n - 1) (is_word c) t m j)
      ]
]
