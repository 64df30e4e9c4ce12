-- ===== src/Rag/SelfCorrecting/Families.antt =====
-- rag/self_correcting.py: the families of the evidence, by title or document id.
use bfsi_voice_agent.Prelude.{
  ◌≡◌, refl, sym, ap, ◌∙◌, Bool, true, false, List, [], ◌∷◌, ◌++◌, if◌then◌else◌, text_eq_refl,
  eq_of_text_eq, Bool-cases, two_ways, inl, inr, arith, In, All, All-In, append_nil, append_assoc,
}
use bfsi_voice_agent.Rag.SelfCorrecting.Evidence.{RetrievedChunk}
use bfsi_voice_agent.Rag.SelfCorrecting.Active.{
  FamilyKey, title_key, document_key, same_family, family_key, add_member, families_of,
  chunks_where,
}

pub same_family_refl : (k : FamilyKey) → same_family k k ≡ true
same_family_refl (title_key t) = text_eq_refl t
same_family_refl (document_key t) = text_eq_refl t

pub eq_of_same_family : (j k : FamilyKey) → same_family j k ≡ true → j ≡ k
eq_of_same_family (title_key s) (title_key t) h = ap title_key (eq_of_text_eq s t h)
eq_of_same_family (document_key s) (document_key t) h = ap document_key (eq_of_text_eq s t h)
eq_of_same_family (title_key s) (document_key t) h = cc
eq_of_same_family (document_key s) (title_key t) h = cc

same_family_other :
    (i j k : FamilyKey) → same_family i j ≡ false → same_family i k ≡ true → same_family j k ≡ false
same_family_other i j k apart h = elim (Bool-cases (same_family j k)) [
  | inr e ↦ e
  | inl e ↦
      let same : i ≡ j = eq_of_same_family i k h ∙ sym (eq_of_same_family j k e) in
      let bad : same_family i j ≡ true = rw same (same_family_refl j) in cc
]

pub In-chunks_where :
    (p : RetrievedChunk → Bool) (c : RetrievedChunk) (cs : List RetrievedChunk)
    → In c (chunks_where p cs)
    → In c cs × (p c ≡ true)
unfolding chunks_where
In-chunks_where p c [] i = elim i [ ]
In-chunks_where p c (d ∷ ds) i =
    two_ways (λ xs. In c xs → In c (d ∷ ds) × (p c ≡ true)) (p d)
      (λ e j. elim j [
        | inl same ↦ (inl same, ap p same ∙ e)
        | inr later ↦ let (k, h) = In-chunks_where p c ds later in (inr k, h)
      ])
      (λ e j. let (k, h) = In-chunks_where p c ds j in (inr k, h)) i

pub chunks_where-In :
    (p : RetrievedChunk → Bool) (c : RetrievedChunk) (cs : List RetrievedChunk)
    → In c cs
    → p c ≡ true
    → In c (chunks_where p cs)
unfolding chunks_where
chunks_where-In p c [] i h = i
chunks_where-In p c (d ∷ ds) (inl same) h =
    let here : p d ≡ true = rw (← same) h in rw here (inl same)
chunks_where-In p c (d ∷ ds) (inr later) h =
    two_ways (In c) (p d) (λ e. inr (chunks_where-In p c ds later h))
      (λ e. chunks_where-In p c ds later h)

abbrev pub Family : Type 0
Family = FamilyKey × List RetrievedChunk

-- The members of the first family of a key.
abbrev pub members : FamilyKey → List Family → List RetrievedChunk
members key [] = []
members key ((k, cs) ∷ rest) = if same_family k key then cs else members key rest

members-add_member :
    (key : FamilyKey) (c : RetrievedChunk) (fs : List Family)
    → members key (add_member c fs)
      ≡ (if same_family (family_key c) key then members key fs ++ (c ∷ []) else members key fs)
unfolding add_member
members-add_member key c [] = refl
members-add_member key c ((k, cs) ∷ rest) = elim (Bool-cases (same_family k (family_key c))) [
  | inl same ↦
      let eq : k ≡ family_key c = eq_of_same_family k (family_key c) same in
      ground (arith, same, ap (λ x. same_family x key) eq)
  | inr apart ↦ elim (Bool-cases (same_family k key)) [
    | inl hit ↦ ground (arith, apart, hit, same_family_other k (family_key c) key apart hit)
    | inr miss ↦ ground (arith, apart, miss, members-add_member key c rest)
  ]
]

abbrev pub belongs : FamilyKey → RetrievedChunk → Bool
belongs key c = same_family (family_key c) key

pub members-families_of :
    (key : FamilyKey) (fs : List Family) (cs : List RetrievedChunk)
    → members key (families_of fs cs) ≡ members key fs ++ chunks_where (belongs key) cs
unfolding families_of chunks_where
members-families_of key fs [] = sym (append_nil (members key fs))
members-families_of key fs (c ∷ cs) =
    let rest = members-families_of key (add_member c fs) cs in
    let first = members-add_member key c fs in
    elim (Bool-cases (belongs key c)) [
      | inl e ↦
          rw (rest, first, e)
            (append_assoc (members key fs) (c ∷ []) (chunks_where (belongs key) cs))
      | inr e ↦ rw (rest, first, e) refl
    ]

-- No two families of one key.
abbrev Separate : List Family → Type 0
Separate [] = Unit
Separate (f ∷ rest) = All (λ g. same_family f.0 g.0 ≡ false) rest × Separate rest

add_member-away :
    (key : FamilyKey) (c : RetrievedChunk) (fs : List Family)
    → same_family key (family_key c) ≡ false
    → All (λ g. same_family key g.0 ≡ false) fs
    → All (λ g. same_family key g.0 ≡ false) (add_member c fs)
unfolding add_member
add_member-away key c [] h away = (h, tt)
add_member-away key c ((k, cs) ∷ rest) h away =
    two_ways (All (λ g. same_family key g.0 ≡ false)) (same_family k (family_key c))
      (λ e. (away.0, away.1)) (λ e. (away.0, add_member-away key c rest h away.1))

Separate-add_member :
    (c : RetrievedChunk) (fs : List Family) → Separate fs → Separate (add_member c fs)
unfolding add_member
Separate-add_member c [] h = (tt, tt)
Separate-add_member c ((k, cs) ∷ rest) h =
    two_ways Separate (same_family k (family_key c)) (λ e. (h.0, h.1))
      (λ e. (add_member-away k c rest e h.0, Separate-add_member c rest h.1))

Separate-families_of :
    (fs : List Family) (cs : List RetrievedChunk) → Separate fs → Separate (families_of fs cs)
unfolding families_of
Separate-families_of fs [] h = h
Separate-families_of fs (c ∷ cs) h =
    Separate-families_of (add_member c fs) cs (Separate-add_member c fs h)

members-In : (f : Family) (fs : List Family) → Separate fs → In f fs → members f.0 fs ≡ f.1
members-In f [] h i = elim i [ ]
members-In f (g ∷ rest) h (inl same) = rw (same, same_family_refl g.0) refl
members-In f (g ∷ rest) h (inr later) =
    rw (All-In (λ x. same_family g.0 x.0 ≡ false) f rest h.0 later) (members-In f rest h.1 later)

-- A family holds the chunks of its key.
pub families_of-members :
    (f : Family) (cs : List RetrievedChunk)
    → In f (families_of [] cs)
    → f.1 ≡ chunks_where (belongs f.0) cs
families_of-members f cs i =
    sym (members-In f (families_of [] cs) (Separate-families_of [] cs tt) i)
    ∙ members-families_of f.0 [] cs

pub members-found :
    (key : FamilyKey) (c : RetrievedChunk) (fs : List Family)
    → In c (members key fs)
    → (f : Family) × In f fs × In c f.1
members-found key c [] i = elim i [ ]
members-found key c ((k, cs) ∷ rest) i =
    two_ways (λ xs. In c xs → (f : Family) × In f ((k, cs) ∷ rest) × In c f.1) (same_family k key)
      (λ e j. ((k, cs), inl refl, j))
      (λ e j. let (f, there, k) = members-found key c rest j in (f, inr there, k)) i
