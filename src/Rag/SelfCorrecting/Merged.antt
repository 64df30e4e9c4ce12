-- ===== src/Rag/SelfCorrecting/Merged.antt =====
-- rag/self_correcting.py: what the merging of evidence keeps.
use bfsi_voice_agent.Prelude.{
  All-append, All-self, ℕ, two_ways, subst, All-map, sort_latest, Descending, Descending-take,
  Descending-sort_latest, All-take, All-sort_latest, In-sort_latest, take_latest, length-take, ◌≤◌,
  ◌≡◌, ◌⊎◌, inl, inr, refl, sym, ap, ◌∙◌, List, [], ◌∷◌, ◌++◌, length, take, All, In, ltb, str_eq,
  eq_iff, arith,
}
use bfsi_voice_agent.Rag.SelfCorrecting.Evidence.{
  RetrievedChunk, id_of_chunk, put_best, merge_all, merge_chunks,
}

-- A chunk of the same id whose score is at least as good.
abbrev pub Covers : RetrievedChunk → RetrievedChunk → Type 0
Covers c m = (id_of_chunk m ≡ id_of_chunk c) × (c.score ≤ m.score)

abbrev pub Covered : RetrievedChunk → List RetrievedChunk → Type 0
Covered c ms = (m : RetrievedChunk) × In m ms × Covers c m

put_best-Covered_self : (c : RetrievedChunk) (ms : List RetrievedChunk) → Covered c (put_best c ms)
unfolding put_best
put_best-Covered_self c [] = (c, inl refl, (refl, omega arith))
put_best-Covered_self c (m ∷ ms) =
    two_ways (Covered c) (str_eq (id_of_chunk m) (id_of_chunk c))
      (λ e.
        two_ways (Covered c) (ltb m.score c.score) (λ l. (c, inl refl, (refl, omega arith)))
          (λ l. (m, inl refl, ((eq_iff (id_of_chunk m) (id_of_chunk c)).0 e, ground (arith, l)))))
      (λ e. let (x, i, k) = put_best-Covered_self c ms in (x, inr i, k))

put_best-Covered :
    (d c : RetrievedChunk) (ms : List RetrievedChunk) → Covered d ms → Covered d (put_best c ms)
unfolding put_best
put_best-Covered d c [] (x, i, k) = elim i [ ]
put_best-Covered d c (m ∷ ms) (x, inl same, (named, better)) =
    let here : Covers d m = (ap id_of_chunk (sym same) ∙ named, rw (← same) better) in
    two_ways (Covered d) (str_eq (id_of_chunk m) (id_of_chunk c))
      (λ e.
        two_ways (Covered d) (ltb m.score c.score)
          (λ l. (
            c,
            inl refl,
            (
              sym ((eq_iff (id_of_chunk m) (id_of_chunk c)).0 e) ∙ here.0,
              ground (arith, l, here.1),
            ),
          ))
          (λ l. (m, inl refl, here)))
      (λ e. (m, inl refl, here))
put_best-Covered d c (m ∷ ms) (x, inr i, k) =
    two_ways (Covered d) (str_eq (id_of_chunk m) (id_of_chunk c))
      (λ e. two_ways (Covered d) (ltb m.score c.score) (λ l. (x, inr i, k)) (λ l. (x, inr i, k)))
      (λ e. let (y, j, h) = put_best-Covered d c ms (x, i, k) in (y, inr j, h))

merge_all-Covered :
    (d : RetrievedChunk) (ms cs : List RetrievedChunk)
    → Covered d ms ⊎ In d cs
    → Covered d (merge_all ms cs)
unfolding merge_all
merge_all-Covered d ms [] (inl k) = k
merge_all-Covered d ms [] (inr i) = elim i [ ]
merge_all-Covered d ms (c ∷ cs) (inl k) =
    merge_all-Covered d (put_best c ms) cs (inl (put_best-Covered d c ms k))
merge_all-Covered d ms (c ∷ cs) (inr (inl same)) =
    merge_all-Covered d (put_best c ms) cs
      (inl (subst (λ x. Covered x (put_best c ms)) (sym same) (put_best-Covered_self c ms)))
merge_all-Covered d ms (c ∷ cs) (inr (inr i)) = merge_all-Covered d (put_best c ms) cs (inr i)

module _ (P : RetrievedChunk → Type 0) where
  All-put_best :
      (c : RetrievedChunk) (ms : List RetrievedChunk) → P c → All P ms → All P (put_best c ms)
  unfolding put_best
  All-put_best c [] pc h = (pc, tt)
  All-put_best c (m ∷ ms) pc h =
      two_ways (All P) (str_eq (id_of_chunk m) (id_of_chunk c))
        (λ e. two_ways (All P) (ltb m.score c.score) (λ l. (pc, h.1)) (λ l. h))
        (λ e. (h.0, All-put_best c ms pc h.1))

  All-merge_all : (ms cs : List RetrievedChunk) → All P ms → All P cs → All P (merge_all ms cs)
  unfolding merge_all
  All-merge_all ms [] hm hc = hm
  All-merge_all ms (c ∷ cs) hm hc =
      All-merge_all (put_best c ms) cs (All-put_best c ms hc.0 hm) hc.1

pub All-merge_chunks :
    (P : RetrievedChunk → Type 0) (existing new_chunks : List RetrievedChunk)
    → All P existing
    → All P new_chunks
    → All P (merge_chunks existing new_chunks)
unfolding merge_chunks
All-merge_chunks P existing new_chunks h k =
    let at = RetrievedChunk.score in
    let merged = merge_all [] (existing ++ new_chunks) in
    All-take at P 10 (sort_latest at merged) (
      All-sort_latest at P merged
        (All-merge_all P [] (existing ++ new_chunks) tt (All-append P existing new_chunks h k)))

-- The best `n` of some chunks, one for an id.
abbrev pub Best : ℕ → List RetrievedChunk → List RetrievedChunk → Type 0
Best n given r =
    (length r ≤ n)
    × All (λ m. In m given) r
    × Descending RetrievedChunk.score r
    × ((c : RetrievedChunk) → In c given → Covered c r ⊎ All (λ m. c.score ≤ m.score) r)

pub merge_all-Best :
    (n : ℕ) (given : List RetrievedChunk)
    → Best n given (take n (sort_latest RetrievedChunk.score (merge_all [] given)))
merge_all-Best n given =
    let merged = merge_all [] given in
    let at = RetrievedChunk.score in
    let sorted = sort_latest at merged in
    let own = λ (m : RetrievedChunk). In m given in
    (
      omega (arith, length-take at n sorted),
      All-take at own n sorted
          (All-sort_latest at own merged (All-merge_all own [] given tt (All-self given))),
      Descending-take at n sorted (Descending-sort_latest at merged),
      λ c i.
          let (m, j, (named, better)) = merge_all-Covered c [] given (inr i) in
          elim (take_latest at n m sorted (Descending-sort_latest at merged)
            (In-sort_latest at m merged j)) [
              | inl kept ↦ inl (m, kept, (named, better))
              | inr all_better ↦ inr (
                  All-map (λ y. m.score ≤ y.score) (λ y. c.score ≤ y.score) (take n sorted)
                    (λ y le. omega (arith, le, better)) all_better)
            ],
    )
