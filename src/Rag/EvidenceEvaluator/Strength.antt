-- ===== src/Rag/EvidenceEvaluator/Strength.antt =====
-- rag/evidence_evaluator.py: what sufficient evidence is.
use bfsi_voice_agent.Prelude.{
  All-self, ℕ, zero, suc, ◌*◌, ◌≤◌, ◌≡◌, ◌⊎◌, inl, inr, refl, String, true, false, not, ◌&&◌,
  Bool-cases, Option-cases, some, List, [], ◌∷◌, any, length, map, take, All, All-In, In, leb,
  str_eq, two_ways, Text, arith,
}
use bfsi_voice_agent.Rag.StateMachine.{sufficient}
use bfsi_voice_agent.Rag.ConflictDetector.{detect}
use bfsi_voice_agent.Rag.SelfCorrecting.Evidence.{RetrievedChunk}
use bfsi_voice_agent.Rag.SelfCorrecting.Types.{QueryAnalysis, EvidenceEvaluation, RagConfig}
use bfsi_voice_agent.Rag.EvidenceEvaluator.{
  Signals, signals_of, sum, scores_of, in_domain, some_chunk, sufficient_reason, first_of_each,
  document_ids, is_unresolved, is_weak, evaluate_supported, evaluate, is_out_of_scope_type,
  is_account_domain,
}
use bfsi_voice_agent.Rag.EvidenceEvaluator.Ranked.{greatest, supported_chunks}
use bfsi_voice_agent.Rag.EvidenceEvaluator.Supported.{All-supported_chunks, All-in_domain}

-- A chunk that reaches three quarters of the threshold of low relevance.
abbrev pub Strong : RagConfig → List RetrievedChunk → Type 0
Strong config chunks =
    (c : RetrievedChunk) × In c chunks × (config.low_relevance_threshold * 3 ≤ c.score * 4)

greatest_attained :
    (c : RetrievedChunk) (cs : List RetrievedChunk)
    → (x : RetrievedChunk) × In x (c ∷ cs) × (x.score ≡ greatest (scores_of (c ∷ cs)))
greatest_attained c [] = (c, inl refl, omega arith)
greatest_attained c (d ∷ ds) =
    let (x, i, e) = greatest_attained d ds in
    elim (Bool-cases (leb c.score x.score)) [
      | inl le ↦ (x, inr i, ground arith)
      | inr gt ↦ (c, inl refl, ground arith)
    ]

greatest-Strong :
    (config : RagConfig) (chunks cs : List RetrievedChunk)
    → some_chunk cs ≡ true
    → All (λ c. In c chunks) cs
    → config.low_relevance_threshold * 3 ≤ greatest (scores_of cs) * 4
    → Strong config chunks
greatest-Strong config chunks [] h all le = cc
greatest-Strong config chunks (c ∷ cs) h all le =
    let (x, i, e) = greatest_attained c cs in
    (x, All-In (λ y. In y chunks) x (c ∷ cs) all i, omega (arith, le, e))

sum-le :
    (m n : ℕ) (cs : List RetrievedChunk)
    → greatest (scores_of cs) ≤ m
    → sum (take n (scores_of cs)) ≤ m * length (take n (scores_of cs))
sum-le m zero cs h = omega arith
sum-le m (suc n) [] h = omega arith
sum-le m (suc n) (c ∷ cs) h = let rest = sum-le m n cs (omega (arith, h)) in grind (arith, rest)

le_of_mul : (a b n : ℕ) → 1 ≤ n → n ≤ 3 → a * n ≤ b * n → a ≤ b
le_of_mul a b zero h k le = elim h [ ]
le_of_mul a b (suc zero) h k le = omega (arith, le)
le_of_mul a b (suc (suc zero)) h k le = omega (arith, le)
le_of_mul a b (suc (suc (suc zero))) h k le = omega (arith, le)
le_of_mul a b (suc (suc (suc (suc n)))) h k le = absurd (omega (arith, k))

-- What each rule of sufficiency asks for.
sufficient_reason-cases :
    (config : RagConfig) (s : Signals) (reason : Text)
    → config.low_relevance_threshold ≤ config.strong_relevance_threshold
    → sufficient_reason config s ≡ some reason
    → let low = config.low_relevance_threshold in
      (low ≤ s.best_semantic)
      ⊎ ((s.domain_match ≡ true) × (low * 3 ≤ s.best_domain_score * 4))
      ⊎ (low * s.top_count ≤ s.top_sum)
unfolding sufficient_reason
sufficient_reason-cases config s reason le h =
    let low = config.low_relevance_threshold in
    elim (Bool-cases (leb config.strong_relevance_threshold s.best_semantic)) [
      | inl e ↦ inl (ground arith)
      | inr n ↦ elim (Bool-cases (s.domain_match && leb (low * 3) (s.best_domain_score * 4))) [
        | inl e ↦ inr (inl (ground arith, ground arith))
        | inr m ↦ elim (Bool-cases (leb low s.best_semantic && leb 100000 s.lexical)) [
          | inl e ↦ inl (ground arith)
          | inr k ↦ elim (Bool-cases (leb (low * s.top_count) s.top_sum && leb 80000 s.lexical)) [
            | inl e ↦ inr (inr (ground arith))
            | inr j ↦ absurd (ground arith)
          ]
        ]
      ]
    ]

length-take-le : (n : ℕ) (ns : List ℕ) → length (take n ns) ≤ n
length-take-le zero ns = omega arith
length-take-le (suc n) [] = omega arith
length-take-le (suc n) (m ∷ ns) = omega (arith, length-take-le n ns)

-- The rules ask for a strong chunk.
signals-Strong :
    (config : RagConfig) (question : Text) (analysis : QueryAnalysis) (chunks : List RetrievedChunk)
    (c : RetrievedChunk) (cs : List RetrievedChunk) (reason : Text)
    → config.low_relevance_threshold ≤ config.strong_relevance_threshold
    → All (λ x. In x chunks) (c ∷ cs)
    → sufficient_reason config (signals_of question analysis (c ∷ cs)) ≡ some reason
    → Strong config chunks
unfolding signals_of
signals-Strong config question analysis chunks c cs reason le all h =
    let s = signals_of question analysis (c ∷ cs) in
    let low = config.low_relevance_threshold in
    let best = greatest-Strong config chunks (c ∷ cs) refl all in
    elim (sufficient_reason-cases config s reason le h) [
      | inl enough ↦ best (omega (arith, enough))
      | inr (inl (some_, enough)) ↦
          greatest-Strong config chunks (in_domain analysis.domain (c ∷ cs)) some_
            (All-in_domain (λ x. In x chunks) analysis.domain (c ∷ cs) all) enough
      | inr (inr enough) ↦
          let top = take 3 (scores_of (c ∷ cs)) in
          let m = greatest (scores_of (c ∷ cs)) in
          let bound = sum-le m 3 (c ∷ cs) (omega arith) in
          let high : low ≤ m =
            le_of_mul low m (length top) (omega arith) (length-take-le 3 (scores_of (c ∷ cs)))
              (omega (arith, enough, bound)) in
          best (omega (arith, high))
    ]

-- A document of one of the chunks.
abbrev pub Sourced : List RetrievedChunk → String → Type 0
Sourced chunks d = (c : RetrievedChunk) × In c chunks × (c.chunk.document_id ≡ d)

first_of_each-Sourced :
    (chunks : List RetrievedChunk) (seen : List String) (cs : List RetrievedChunk)
    → All (λ x. In x chunks) cs
    → All (Sourced chunks) (first_of_each seen (map (λ c. c.chunk.document_id) cs))
unfolding first_of_each
first_of_each-Sourced chunks seen [] all = tt
first_of_each-Sourced chunks seen (c ∷ cs) all =
    let d = c.chunk.document_id in
    elim (Bool-cases (any (str_eq d) seen)) [
      | inl e ↦ rw (first_of_each, e) (first_of_each-Sourced chunks seen cs all.1)
      | inr e ↦
          rw (first_of_each, e) ((c, all.0, refl), first_of_each-Sourced chunks (d ∷ seen) cs all.1)
    ]

-- What an evaluation says if its verdict is sufficient.
abbrev pub Grounded : RagConfig → List RetrievedChunk → EvidenceEvaluation → Type 0
Grounded config chunks e =
    e.verdict ≡ sufficient → Strong config chunks × All (Sourced chunks) e.supported_document_ids

evaluate_supported-Grounded :
    (config : RagConfig) (question : Text) (analysis : QueryAnalysis)
    (chunks cs : List RetrievedChunk)
    → config.low_relevance_threshold ≤ config.strong_relevance_threshold
    → All (λ x. In x chunks) cs
    → Grounded config chunks (evaluate_supported config question analysis cs)
unfolding evaluate_supported
evaluate_supported-Grounded config question analysis chunks [] le all = λ h. cc
evaluate_supported-Grounded config question analysis chunks (c ∷ cs) le all =
    let s = signals_of question analysis (c ∷ cs) in
    let found = detect (map (λ x. x.chunk) (c ∷ cs)) in
    let ids = document_ids (c ∷ cs) in
    two_ways (Grounded config chunks)
      (found.conflict_detected && is_unresolved found.resolution_status) (λ e h. cc)
      (λ e. elim (Option-cases (sufficient_reason config s)) [
        | inl f ↦ rw f (
            two_ways (λ v. v ≡ sufficient → Strong config chunks × All (Sourced chunks) ids)
              (is_weak config s) (λ k h. cc) (λ k h. cc))
        | inr (reason, f) ↦ rw f (λ h. (
          signals-Strong config question analysis chunks c cs reason le all f,
          first_of_each-Sourced chunks [] (c ∷ cs) all,
        ))
      ])

-- Evidence is sufficient only for a question that can be answered and from a chunk that is strong
-- enough: if the verdict is sufficient, the question needs no clarification, is in scope and asks for
-- no change of the account; one of the chunks reaches three quarters of the threshold of low
-- relevance, provided that this threshold is at most that of strong relevance; and each supporting
-- document is that of one of the chunks.
pub evaluate-Grounded :
    (config : RagConfig) (question : Text) (analysis : QueryAnalysis) (chunks : List RetrievedChunk)
    → config.low_relevance_threshold ≤ config.strong_relevance_threshold
    → (evaluate config question analysis chunks).verdict ≡ sufficient
    → (analysis.needs_clarification ≡ false)
      × (is_out_of_scope_type analysis.query_type ≡ false)
      × (is_account_domain analysis.domain ≡ false)
      × Strong config chunks
      × All (Sourced chunks) (evaluate config question analysis chunks).supported_document_ids
unfolding evaluate
evaluate-Grounded config question analysis chunks le =
    let P : EvidenceEvaluation → Type 0 = λ e.
      e.verdict ≡ sufficient
      → (analysis.needs_clarification ≡ false)
        × (is_out_of_scope_type analysis.query_type ≡ false)
        × (is_account_domain analysis.domain ≡ false)
        × Strong config chunks
        × All (Sourced chunks) e.supported_document_ids in
    let supported = supported_chunks config question analysis chunks in
    let given =
      All-supported_chunks (λ x. In x chunks) config question analysis chunks (All-self chunks) in
    two_ways P analysis.needs_clarification (λ a h. cc)
      (λ a.
        two_ways P (is_out_of_scope_type analysis.query_type) (λ b h. cc)
          (λ b.
            two_ways P (is_account_domain analysis.domain) (λ c h. cc)
              (λ c.
                two_ways P (not (some_chunk chunks)) (λ d h. cc)
                  (λ d h.
                    let (strong, sourced) =
                      evaluate_supported-Grounded config question analysis chunks supported le given
                        h in
                    (a, b, c, strong, sourced)))))
