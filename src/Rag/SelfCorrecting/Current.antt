-- ===== src/Rag/SelfCorrecting/Current.antt =====
-- rag/self_correcting.py: no outdated policy stands beside the active one in the evidence of an answer.
use bfsi_voice_agent.Prelude.{
  In-append_after, eq_refl, In-append_before, ◌||◌, ◌≡◌, refl, sym, ap, ◌∙◌, subst, Bool, true,
  false, not, List, [], ◌∷◌, any, two_ways, inl, inr, arith, In, In-append, In-any, any-In, str_eq,
  eq_iff, Text,
}
use bfsi_voice_agent.Rag.SelfCorrecting.Evidence.{RetrievedChunk, id_of_chunk, or_else_chunks}
use bfsi_voice_agent.Rag.SelfCorrecting.Active.{
  is_older, family_key, families_of, chunks_where, is_active_chunk, is_superseded_chunk, newest,
  only_newest, kept_of, kept_of_all, is_historical, prefer_active_policy_versions,
}
use bfsi_voice_agent.Rag.SelfCorrecting.Ids.{DistinctIds, DistinctIds-same}
use bfsi_voice_agent.Rag.SelfCorrecting.Families.{
  Family, belongs, same_family_refl, eq_of_same_family, In-chunks_where, chunks_where-In,
  members-families_of, families_of-members, members-found,
}

kept_of_all-In :
    (c : RetrievedChunk) (fs : List Family)
    → In c (kept_of_all fs)
    → (f : Family) × In f fs × In c (kept_of f.1)
unfolding kept_of_all
kept_of_all-In c [] i = elim i [ ]
kept_of_all-In c (f ∷ rest) i = elim (In-append c (kept_of f.1) (kept_of_all rest) i) [
  | inl here ↦ (f, inl refl, here)
  | inr there ↦ let (g, j, k) = kept_of_all-In c rest there in (g, inr j, k)
]

only_newest-In :
    (c : RetrievedChunk) (actives candidates : List RetrievedChunk)
    → In c (only_newest actives candidates)
    → In c candidates
unfolding only_newest
only_newest-In c [] candidates i = i
only_newest-In c (a ∷ []) candidates i = i
only_newest-In c (a ∷ b ∷ rest) candidates i =
    let document = (newest a (b ∷ rest)).chunk.document_id in
    (In-chunks_where (λ x. not (is_active_chunk x) || str_eq x.chunk.document_id document) c
      candidates i).0

-- What is kept of a family is of the family, and not superseded if the family has an active member.
kept_of-In :
    (c : RetrievedChunk) (family : List RetrievedChunk)
    → In c (kept_of family)
    → In c family × (any is_active_chunk family ≡ true → is_superseded_chunk c ≡ false)
unfolding kept_of
kept_of-In c family i =
    let current : RetrievedChunk → Bool = λ x. not (is_superseded_chunk x) in
    let candidates = chunks_where current family in
    two_ways
      (λ xs.
        In c xs → In c family × (any is_active_chunk family ≡ true → is_superseded_chunk c ≡ false))
      (any is_active_chunk family)
      (λ e j.
        let k = only_newest-In c (chunks_where is_active_chunk candidates) candidates j in
        let (there, now) = In-chunks_where current c family k in (there, λ a. ground (arith, now)))
      (λ e j. (j, λ a. cc)) i

newest-In : (c : RetrievedChunk) (ds : List RetrievedChunk) → In (newest c ds) (c ∷ ds)
unfolding newest
newest-In c [] = inl refl
newest-In c (d ∷ ds) =
    two_ways (λ x. In (newest x ds) (c ∷ d ∷ ds)) (is_older c d) (λ e. inr (newest-In d ds))
      (λ e. elim (newest-In c ds) [ inl same ↦ inl same | inr later ↦ inr (inr later) ])

only_newest-some :
    (a : RetrievedChunk) (actives candidates : List RetrievedChunk)
    → In a candidates
    → ((x : RetrievedChunk) → In x actives → In x candidates)
    → (x : RetrievedChunk) × In x (only_newest actives candidates)
unfolding only_newest
only_newest-some a [] candidates i f = (a, i)
only_newest-some a (x ∷ []) candidates i f = (a, i)
only_newest-some a (x ∷ y ∷ rest) candidates i f =
    let best = newest x (y ∷ rest) in
    let document = best.chunk.document_id in
    let stays : (not (is_active_chunk best) || str_eq document document) ≡ true =
      ground (arith, eq_refl document) in
    (
      best,
      chunks_where-In (λ c. not (is_active_chunk c) || str_eq c.chunk.document_id document) best
          candidates (f best (newest-In x (y ∷ rest))) stays,
    )

active_is_current :
    (c : RetrievedChunk) → is_active_chunk c ≡ true → not (is_superseded_chunk c) ≡ true
active_is_current c h = ground arith

kept_of-some :
    (a : RetrievedChunk) (family : List RetrievedChunk)
    → In a family
    → is_active_chunk a ≡ true
    → (x : RetrievedChunk) × In x (kept_of family)
unfolding kept_of
kept_of-some a family i h =
    let current : RetrievedChunk → Bool = λ x. not (is_superseded_chunk x) in
    let candidates = chunks_where current family in
    let there : any is_active_chunk family ≡ true = In-any is_active_chunk a family i h in
    rw there (
      only_newest-some a (chunks_where is_active_chunk candidates) candidates
        (chunks_where-In current a family i (active_is_current a h))
        (λ x j. (In-chunks_where is_active_chunk x candidates j).0))

kept_of_all-kept :
    (x : RetrievedChunk) (f : Family) (fs : List Family)
    → In f fs
    → In x (kept_of f.1)
    → In x (kept_of_all fs)
unfolding kept_of_all
kept_of_all-kept x f [] i j = elim i [ ]
kept_of_all-kept x f (g ∷ rest) (inl same) j =
    In-append_before x (kept_of g.1) (kept_of_all rest) (subst (λ h. In x (kept_of h.1)) same j)
kept_of_all-kept x f (g ∷ rest) (inr later) j =
    In-append_after x (kept_of g.1) (kept_of_all rest) (kept_of_all-kept x f rest later j)

or_else_chunks-In :
    (x c : RetrievedChunk) (xs ys : List RetrievedChunk)
    → In x xs
    → In c (or_else_chunks xs ys)
    → In c xs
or_else_chunks-In x c [] ys i j = elim i [ ]
or_else_chunks-In x c (y ∷ xs) ys i j = j

module _ (chunks : List RetrievedChunk) where
  abbrev families : List Family
  families = families_of [] chunks

  abbrev is_kept : RetrievedChunk → Bool
  is_kept c = any (λ k. str_eq (id_of_chunk k) (id_of_chunk c)) (kept_of_all families)

  family-In :
      (f : Family) (c : RetrievedChunk)
      → In f families
      → In c f.1
      → In c chunks × (family_key c ≡ f.0)
  family-In f c i j =
      let here = subst (In c) (families_of-members f chunks i) j in
      let (there, same) = In-chunks_where (belongs f.0) c chunks here in
      (there, eq_of_same_family (family_key c) f.0 same)

  -- Something is kept where a chunk is active.
  kept_is_some :
      (a : RetrievedChunk)
      → In a chunks
      → is_active_chunk a ≡ true
      → (x : RetrievedChunk) × In x (chunks_where is_kept chunks)
  kept_is_some a i h =
      let key = family_key a in
      let there = chunks_where-In (belongs key) a chunks i (same_family_refl key) in
      let (f, here, member) =
        members-found key a families (rw (members-families_of key [] chunks) there) in
      let (x, kept) = kept_of-some a f.1 member h in
      let from = (family-In f x here (kept_of-In x f.1 kept).0).0 in
      let all = kept_of_all-kept x f families here kept in
      let by_id =
        In-any (λ k. str_eq (id_of_chunk k) (id_of_chunk x)) x (kept_of_all families) all
          (eq_refl (id_of_chunk x)) in
      (x, chunks_where-In is_kept x chunks from by_id)

  kept_is_current :
      (c a : RetrievedChunk)
      → DistinctIds chunks
      → In c (chunks_where is_kept chunks)
      → In a chunks
      → is_active_chunk a ≡ true
      → family_key a ≡ family_key c
      → is_superseded_chunk c ≡ false
  kept_is_current c a distinct i j h same =
      let (there, kept) = In-chunks_where is_kept c chunks i in
      let (k, all, id) =
        any-In (λ x. str_eq (id_of_chunk x) (id_of_chunk c)) (kept_of_all families) kept in
      let (f, here, of_family) = kept_of_all-In k families all in
      let (member, current) = kept_of-In k f.1 of_family in
      let (from, key) = family-In f k here member in
      let eq : k ≡ c =
        DistinctIds-same k c chunks distinct from there
          ((eq_iff (id_of_chunk k) (id_of_chunk c)).0 id) in
      let named : family_key a ≡ f.0 = same ∙ ap family_key (sym eq) ∙ key in
      let belongs_a : belongs f.0 a ≡ true = rw named (same_family_refl f.0) in
      let active_there : In a f.1 =
        subst (In a) (sym (families_of-members f chunks here))
          (chunks_where-In (belongs f.0) a chunks j belongs_a) in
      rw (← eq) (current (In-any is_active_chunk a f.1 active_there h))

-- No answer rests on an outdated policy beside the active one: for a question without a word that
-- asks for history, and evidence without two chunks of one id, a chunk that is passed on to the
-- generator is not superseded if the evidence has an active chunk of the same family, that is, with
-- the same title up to case and spaces or, without titles, the same document id up to case and a
-- version suffix.
pub prefer_active_current :
    (question : Text) (chunks : List RetrievedChunk) (c a : RetrievedChunk)
    → is_historical question ≡ false
    → DistinctIds chunks
    → In c (prefer_active_policy_versions question chunks)
    → In a chunks
    → is_active_chunk a ≡ true
    → family_key a ≡ family_key c
    → is_superseded_chunk c ≡ false
unfolding prefer_active_policy_versions
prefer_active_current question chunks c a plain distinct i j h same =
    let (x, some_kept) = kept_is_some chunks a j h in
    let kept : In c (or_else_chunks (chunks_where (is_kept chunks) chunks) chunks) =
      rw plain at i in
    kept_is_current chunks c a distinct
      (or_else_chunks-In x c (chunks_where (is_kept chunks) chunks) chunks some_kept kept) j h same
