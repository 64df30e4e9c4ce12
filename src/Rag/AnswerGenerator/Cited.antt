-- ===== src/Rag/AnswerGenerator/Cited.antt =====
-- rag/answer_generator.py: the answer and its citations.
use bfsi_voice_agent.Prelude.{
  subst, ◌≤◌, ◌≡◌, refl, sym, inl, inr, ◌⊎◌, true, false, Option, List, [], ◌∷◌, any, length, All,
  All-map, All-self, All-sort_latest, In, str_eq, eq_iff, String, Text, Bool-cases,
}
use bfsi_voice_agent.Rag.SelfCorrecting.Evidence.{RetrievedChunk, id_of_chunk}
use bfsi_voice_agent.Rag.SelfCorrecting.Types.{Citation}
use bfsi_voice_agent.Rag.AnswerGenerator.{
  Candidate, select_from, citation_of, citations_for, answer_from, evidence_for, ranked_candidates,
  candidates_from, generate,
}
use bfsi_voice_agent.Rag.AnswerGenerator.Extracted.{
  Extracted, All-evidence_for, All-candidates_from, select_from-Few,
}

-- A citation of the chunk of a candidate.
abbrev pub CitesOne : List Candidate → Citation → Type 0
CitesOne cs x = (c : Candidate) × In c cs × (x ≡ citation_of c.chunk)

-- A candidate whose chunk is cited.
abbrev pub IsCited : List Citation → Candidate → Type 0
IsCited xs c = (x : Citation) × In x xs × (x.chunk_id ≡ id_of_chunk c.chunk)

citations_for-CitesOne :
    (cited : List String) (cs all : List Candidate)
    → All (λ c. In c all) cs
    → All (CitesOne all) (citations_for cited cs)
unfolding citations_for
citations_for-CitesOne cited [] all h = tt
citations_for-CitesOne cited (c ∷ cs) all h =
    elim (Bool-cases (any (str_eq (id_of_chunk c.chunk)) cited)) [
      | inl e ↦ rw (citations_for, e) (citations_for-CitesOne cited cs all h.1)
      | inr e ↦
          rw (citations_for, e)
            ((c, h.0, refl), citations_for-CitesOne (id_of_chunk c.chunk ∷ cited) cs all h.1)
    ]

abbrev KnownOrCited : List String → List Citation → Candidate → Type 0
KnownOrCited cited xs c = (any (str_eq (id_of_chunk c.chunk)) cited ≡ true) ⊎ IsCited xs c

IsCited-later :
    (x : Citation) (xs : List Citation) (c : Candidate) → IsCited xs c → IsCited (x ∷ xs) c
IsCited-later x xs c (y, i, e) = (y, inr i, e)

-- What is known with the head cited is known, or cited by the head.
KnownOrCited-head :
    (cited : List String) (c d : Candidate) (xs : List Citation)
    → KnownOrCited (id_of_chunk c.chunk ∷ cited) xs d
    → KnownOrCited cited (citation_of c.chunk ∷ xs) d
KnownOrCited-head cited c d xs (inr k) = inr (IsCited-later (citation_of c.chunk) xs d k)
KnownOrCited-head cited c d xs (inl h) =
    elim (Bool-cases (str_eq (id_of_chunk d.chunk) (id_of_chunk c.chunk))) [
      | inl e ↦ inr (
        citation_of c.chunk,
        inl refl,
        sym ((eq_iff (id_of_chunk d.chunk) (id_of_chunk c.chunk)).0 e),
      )
      | inr e ↦ inl (rw e at h)
    ]

citations_for_known :
    (cited : List String) (c : Candidate) (cs : List Candidate)
    → any (str_eq (id_of_chunk c.chunk)) cited ≡ true
    → citations_for cited (c ∷ cs) ≡ citations_for cited cs
unfolding citations_for
citations_for_known cited c cs e = rw (citations_for, e) refl

citations_for_new :
    (cited : List String) (c : Candidate) (cs : List Candidate)
    → any (str_eq (id_of_chunk c.chunk)) cited ≡ false
    → citations_for cited (c ∷ cs)
      ≡ citation_of c.chunk ∷ citations_for (id_of_chunk c.chunk ∷ cited) cs
unfolding citations_for
citations_for_new cited c cs e = rw (citations_for, e) refl

citations_for-IsCited :
    (cited : List String) (cs : List Candidate)
    → All (KnownOrCited cited (citations_for cited cs)) cs
citations_for-IsCited cited [] = tt
citations_for-IsCited cited (c ∷ cs) =
    let P : List Citation → Type 0 = λ xs. All (KnownOrCited cited xs) (c ∷ cs) in
    elim (Bool-cases (any (str_eq (id_of_chunk c.chunk)) cited)) [
      | inl e ↦
          subst P (sym (citations_for_known cited c cs e)) (inl e, citations_for-IsCited cited cs)
      | inr e ↦
          let ids = id_of_chunk c.chunk ∷ cited in
          let rest = citations_for ids cs in
          subst P (sym (citations_for_new cited c cs e)) (
            inr (citation_of c.chunk, inl refl, refl),
            All-map (KnownOrCited ids rest) (KnownOrCited cited (citation_of c.chunk ∷ rest)) cs
                (λ d k. KnownOrCited-head cited c d rest k) (citations_for-IsCited ids cs),
          )
    ]

KnownOrCited-none : (xs : List Citation) (c : Candidate) → KnownOrCited [] xs c → IsCited xs c
KnownOrCited-none xs c (inl h) = cc
KnownOrCited-none xs c (inr k) = k

-- What the answer of some evidence is made of.
abbrev pub Quotes : List RetrievedChunk → Option Text × List Citation → Type 0
Quotes chunks o =
    (cs : List Candidate) × (length cs ≤ 3)
    × All (Extracted chunks) cs
    × (o ≡ answer_from cs)
    × All (CitesOne cs) o.1
    × All (IsCited o.1) cs

pub answer_from-cites :
    (cs : List Candidate)
    → All (CitesOne cs) (answer_from cs).1 × All (IsCited (answer_from cs).1) cs
answer_from-cites [] = (tt, tt)
answer_from-cites (c ∷ cs) =
    let all = c ∷ cs in
    (
      citations_for-CitesOne [] all all (All-self all),
      All-map (KnownOrCited [] (citations_for [] all)) (IsCited (citations_for [] all)) all
          (λ d k. KnownOrCited-none (citations_for [] all) d k) (citations_for-IsCited [] all),
    )

-- An answer only quotes: it is the opening followed by at most three sentences of the texts of the
-- chunks that were given, or there is no answer and no such sentence; each citation is that of the
-- chunk of one of these sentences, and the chunk of each sentence is cited.
pub generate-Quotes :
    (question : Text) (chunks : List RetrievedChunk) (preferred : Option String)
    → Quotes chunks (generate question chunks preferred)
unfolding generate ranked_candidates
generate-Quotes question chunks preferred =
    let evidence = evidence_for question chunks preferred in
    let given = All-evidence_for (λ c. In c chunks) question chunks preferred (All-self chunks) in
    let found = candidates_from question 1 evidence in
    let ranked = ranked_candidates question chunks preferred in
    let extracted =
      All-sort_latest Candidate.score (Extracted chunks) found
        (All-candidates_from question chunks 1 evidence given) in
    let (few, all) = select_from-Few (Extracted chunks) question ranked extracted in
    let cs = (select_from question ranked).selected in
    let (cites, cited) = answer_from-cites cs in (cs, few, all, refl, cites, cited)
