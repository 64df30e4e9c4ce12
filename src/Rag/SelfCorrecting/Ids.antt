-- ===== src/Rag/SelfCorrecting/Ids.antt =====
-- rag/self_correcting.py: evidence in which no id stands twice.
use bfsi_voice_agent.Prelude.{
  ◌≡◌, sym, ap, ◌∙◌, false, List, [], ◌∷◌, inl, inr, All, All-In, In, str_eq, eq_iff,
}
use bfsi_voice_agent.Rag.SelfCorrecting.Evidence.{RetrievedChunk, id_of_chunk}

-- No two chunks of one id.
abbrev pub DistinctIds : List RetrievedChunk → Type 0
DistinctIds [] = Unit
DistinctIds (c ∷ cs) = All (λ d. str_eq (id_of_chunk c) (id_of_chunk d) ≡ false) cs × DistinctIds cs

DistinctIds-apart :
    (x c : RetrievedChunk) (cs : List RetrievedChunk)
    → All (λ d. str_eq (id_of_chunk c) (id_of_chunk d) ≡ false) cs
    → In x cs
    → id_of_chunk c ≡ id_of_chunk x
    → ⊥
DistinctIds-apart x c cs away i e =
    let no = All-In (λ d. str_eq (id_of_chunk c) (id_of_chunk d) ≡ false) x cs away i in
    let yes = (eq_iff (id_of_chunk c) (id_of_chunk x)).1 e in cc

pub DistinctIds-same :
    (x y : RetrievedChunk) (cs : List RetrievedChunk)
    → DistinctIds cs
    → In x cs
    → In y cs
    → id_of_chunk x ≡ id_of_chunk y
    → x ≡ y
DistinctIds-same x y [] d i j e = elim i [ ]
DistinctIds-same x y (c ∷ cs) d (inl p) (inl q) e = p ∙ sym q
DistinctIds-same x y (c ∷ cs) d (inl p) (inr q) e =
    absurd (DistinctIds-apart y c cs d.0 q (ap id_of_chunk (sym p) ∙ e))
DistinctIds-same x y (c ∷ cs) d (inr p) (inl q) e =
    absurd (DistinctIds-apart x c cs d.0 p (ap id_of_chunk (sym q) ∙ sym e))
DistinctIds-same x y (c ∷ cs) d (inr p) (inr q) e = DistinctIds-same x y cs d.1 p q e
