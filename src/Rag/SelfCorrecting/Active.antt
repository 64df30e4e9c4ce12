-- ===== src/Rag/SelfCorrecting/Active.antt =====
-- rag/self_correcting.py: _prefer_active_policy_versions, the evidence of the final answer, on ASCII. A
-- date is its ordinal, which is 1 for date.min.
mod Tests
use bfsi_voice_agent.Prelude.{
  ℕ, Bool, true, false, not, ◌&&◌, ◌||◌, List, [], ◌∷◌, ◌++◌, String, str_eq, if◌then◌else◌, any,
  ◌==◌, ltb, Option, none, some, Text, codes, is_digit, is_empty, lower, strip, collapse, after,
  contains, span_digits, text_eq,
}
use bfsi_voice_agent.Rag.ConflictDetector.{DocumentStatus, active, superseded}
use bfsi_voice_agent.Rag.SelfCorrecting.Evidence.{RetrievedChunk, id_of_chunk, or_else_chunks}
use bfsi_voice_agent.Rag.SelfCorrecting.Wording.{plain_question}

abbrev pub historical_terms : List Text
historical_terms =
    codes "previous"
    ∷ codes "old policy"
    ∷ codes "older policy"
    ∷ codes "superseded"
    ∷ codes "historical"
    ∷ codes "earlier version"
    ∷ codes "previous version"
    ∷ codes "version 1"
    ∷ codes "v1"
    ∷ codes "five-day"
    ∷ codes "five day"
    ∷ codes "5-day"
    ∷ codes "5 day"
    ∷ []

-- `[_-]?`
abbrev pub skip_dash : Text → Text
skip_dash [] = []
skip_dash (c ∷ t) = if (c == 95) || (c == 45) then t else c ∷ t

-- `(?:ersion)?`
abbrev pub skip_ersion : Text → Text
skip_ersion t = elim (after (codes "ersion") t) [ none ↦ t | some rest ↦ rest ]

-- `\d+$`
abbrev pub all_digits : Text → Bool
all_digits t = let (ds, rest) = span_digits t in not (is_empty ds) && is_empty rest

-- `(?:[_-]?v(?:ersion)?[_-]?\d+)$`, at the start.
abbrev pub is_version_suffix : Text → Bool
is_version_suffix t = elim (after (codes "v") (skip_dash t)) [
  | none ↦ false
  | some rest ↦ all_digits (skip_dash (skip_ersion rest))
]

unfoldable pub drop_version : Text → Text
unfolding after
drop_version [] = []
drop_version (c ∷ t) =
    let rest = drop_version t in if is_version_suffix (c ∷ t) then [] else c ∷ rest

pub data FamilyKey : Type 0 where
  title_key document_key : Text → FamilyKey

unfoldable pub family_key : RetrievedChunk → FamilyKey
unfolding strip collapse drop_version
family_key c =
    let title = lower (strip c.chunk.title) in
    if is_empty title
    then document_key (drop_version (lower (codes c.chunk.document_id)))
    else title_key (collapse false title)

abbrev pub same_family : FamilyKey → FamilyKey → Bool
same_family (title_key s) (title_key t) = text_eq s t
same_family (document_key s) (document_key t) = text_eq s t
same_family _ _ = false

-- `families.setdefault(family_key(chunk), []).append(chunk)`
unfoldable pub add_member :
    RetrievedChunk → List (FamilyKey × List RetrievedChunk) → List (FamilyKey × List RetrievedChunk)
unfolding family_key
add_member c [] = (family_key c, c ∷ []) ∷ []
add_member c ((k, cs) ∷ rest) =
    if same_family k (family_key c) then (k, cs ++ (c ∷ [])) ∷ rest else (k, cs) ∷ add_member c rest

unfoldable pub families_of :
    List (FamilyKey × List RetrievedChunk)
    → List RetrievedChunk
    → List (FamilyKey × List RetrievedChunk)
unfolding add_member
families_of fs [] = fs
families_of fs (c ∷ cs) = families_of (add_member c fs) cs

abbrev pub is_active_chunk : RetrievedChunk → Bool
is_active_chunk c = elim (c.chunk.status) [ active ↦ true | _ ↦ false ]

abbrev pub is_superseded_chunk : RetrievedChunk → Bool
is_superseded_chunk c = elim (c.chunk.status) [ superseded ↦ true | _ ↦ false ]

unfoldable pub chunks_where : (RetrievedChunk → Bool) → List RetrievedChunk → List RetrievedChunk
chunks_where p [] = []
chunks_where p (c ∷ cs) = let rest = chunks_where p cs in if p c then c ∷ rest else rest

-- `effective_date or date.min`
abbrev pub date_or_min : RetrievedChunk → ℕ
date_or_min c = elim (c.chunk.effective_date) [ none ↦ 1 | some d ↦ d ]

-- `version or 0`
abbrev pub version_or_zero : RetrievedChunk → ℕ
version_or_zero c = elim (c.chunk.version) [ none ↦ 0 | some v ↦ v ]

abbrev pub is_older : RetrievedChunk → RetrievedChunk → Bool
is_older c d =
    ltb (date_or_min c) (date_or_min d)
    || ((date_or_min c == date_or_min d) && ltb (version_or_zero c) (version_or_zero d))

-- The first of the stable sort by date and version, latest first.
unfoldable pub newest : RetrievedChunk → List RetrievedChunk → RetrievedChunk
newest c [] = c
newest c (d ∷ ds) = newest (if is_older c d then d else c) ds

unfoldable pub only_newest : List RetrievedChunk → List RetrievedChunk → List RetrievedChunk
unfolding newest chunks_where
only_newest (a ∷ b ∷ rest) candidates =
    let preferred_doc = (newest a (b ∷ rest)).chunk.document_id in
    chunks_where (λ c. not (is_active_chunk c) || str_eq c.chunk.document_id preferred_doc)
      candidates
only_newest _ candidates = candidates

unfoldable pub kept_of : List RetrievedChunk → List RetrievedChunk
unfolding only_newest chunks_where
kept_of family =
    let candidates = chunks_where (λ c. not (is_superseded_chunk c)) family in
    if any is_active_chunk family
    then only_newest (chunks_where is_active_chunk candidates) candidates
    else family

unfoldable pub kept_of_all : List (FamilyKey × List RetrievedChunk) → List RetrievedChunk
unfolding kept_of
kept_of_all [] = []
kept_of_all ((k, cs) ∷ rest) = kept_of cs ++ kept_of_all rest

unfoldable pub is_historical : Text → Bool
unfolding plain_question contains
is_historical question =
    let q = plain_question question in any (λ term. contains term q) historical_terms

unfoldable pub prefer_active_policy_versions : Text → List RetrievedChunk → List RetrievedChunk
unfolding is_historical families_of kept_of_all chunks_where
prefer_active_policy_versions question chunks =
    let kept = kept_of_all (families_of [] chunks) in
    if is_historical question
    then chunks
    else or_else_chunks
        (chunks_where (λ c. any (λ k. str_eq (id_of_chunk k) (id_of_chunk c)) kept) chunks) chunks
