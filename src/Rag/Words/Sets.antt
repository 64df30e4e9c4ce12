-- ===== src/Rag/Words/Sets.antt =====
-- rag/query_analyzer.py and rag/evidence_evaluator.py: lists of words as sets.
use bfsi_voice_agent.Prelude.{
  In-append, In-append_before, In-append_after, ◌≤◌, ◌≡◌, refl, sym, ap, subst, inl, inr, Bool,
  true, List, [], ◌∷◌, any, length, two_ways, Text, text_eq, text_eq_refl, eq_of_text_eq, In,
  In-any, any-In, arith,
}
use bfsi_voice_agent.Rag.Words.{with_groups, expand_by, member, distinct, words_where}

pub length-words_where-le :
    (p : Text → Bool) (ws : List Text) → length (words_where p ws) ≤ length ws
unfolding words_where
length-words_where-le p [] = omega arith
length-words_where-le p (w ∷ ws) = ground (arith, length-words_where-le p ws)

pub words_where_all :
    (p : Text → Bool) (ws : List Text) → ((w : Text) → In w ws → p w ≡ true) → words_where p ws ≡ ws
unfolding words_where
words_where_all p [] h = refl
words_where_all p (w ∷ ws) h =
    rw (h w (inl refl)) (ap (λ vs. w ∷ vs) (words_where_all p ws (λ v i. h v (inr i))))

pub In-member : (w : Text) (ws : List Text) → In w ws → member w ws ≡ true
In-member w ws i = In-any (text_eq w) w ws i (text_eq_refl w)

pub member-In : (w : Text) (ws : List Text) → member w ws ≡ true → In w ws
member-In w ws h =
    let (v, i, e) = any-In (text_eq w) ws h in subst (λ x. In x ws) (sym (eq_of_text_eq w v e)) i

pub In-distinct : (w : Text) (ws : List Text) → In w ws → In w (distinct ws)
unfolding distinct
In-distinct w [] i = i
In-distinct w (v ∷ ws) (inl same) =
    two_ways (In w) (member v (distinct ws))
      (λ e. subst (λ x. In x (distinct ws)) (sym same) (member-In v (distinct ws) e))
      (λ e. inl same)
In-distinct w (v ∷ ws) (inr i) =
    two_ways (In w) (member v (distinct ws)) (λ e. In-distinct w ws i)
      (λ e. inr (In-distinct w ws i))

pub distinct-In : (w : Text) (ws : List Text) → In w (distinct ws) → In w ws
unfolding distinct
distinct-In w [] i = i
distinct-In w (v ∷ ws) i =
    two_ways (λ xs. In w xs → In w (v ∷ ws)) (member v (distinct ws))
      (λ e j. inr (distinct-In w ws j))
      (λ e j. elim j [ inl same ↦ inl same | inr k ↦ inr (distinct-In w ws k) ]) i

with_groups-words :
    (w : Text) (words : List Text) (groups : List (List Text))
    → In w words
    → In w (with_groups words groups)
with_groups-words w words [] i = i
with_groups-words w words (group ∷ groups) i =
    let rest = with_groups words groups in
    two_ways (In w) (any (λ v. member v group) words)
      (λ e. In-append_after w group rest (with_groups-words w words groups i))
      (λ e. with_groups-words w words groups i)

with_groups_mono :
    (w : Text) (few many : List Text) (groups : List (List Text))
    → ((v : Text) → In v few → In v many)
    → In w (with_groups few groups)
    → In w (with_groups many groups)
with_groups_mono w few many [] f i = f w i
with_groups_mono w few many (group ∷ groups) f i =
    let small = with_groups few groups in
    let large = with_groups many groups in
    let keep = with_groups_mono w few many groups f in
    two_ways (λ xs. In w xs → In w (with_groups many (group ∷ groups)))
      (any (λ v. member v group) few)
      (λ e j.
        let (v, there, h) = any-In (λ v. member v group) few e in
        rw (In-any (λ v. member v group) v many (f v there) h) (elim (In-append w group small j) [
          | inl here ↦ In-append_before w group large here
          | inr later ↦ In-append_after w group large (keep later)
        ]))
      (λ e j.
        two_ways (In w) (any (λ v. member v group) many)
          (λ k. In-append_after w group large (keep j)) (λ k. keep j))
      i

pub expand_by_mono :
    (groups : List (List Text)) (w : Text) (few many : List Text)
    → ((v : Text) → In v few → In v many)
    → In w (expand_by groups few)
    → In w (expand_by groups many)
unfolding expand_by
expand_by_mono groups w few many f i =
    In-distinct w (with_groups many groups)
      (with_groups_mono w few many groups f (distinct-In w (with_groups few groups) i))

pub expand_by-words :
    (groups : List (List Text)) (w : Text) (words : List Text)
    → In w words
    → In w (expand_by groups words)
unfolding expand_by
expand_by-words groups w words i =
    In-distinct w (with_groups words groups) (with_groups-words w words groups i)
