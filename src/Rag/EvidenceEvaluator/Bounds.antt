-- ===== src/Rag/EvidenceEvaluator/Bounds.antt =====
-- rag/evidence_evaluator.py: the numbers of an evaluation.
use bfsi_voice_agent.Prelude.{
  String, In, ℕ, zero, suc, ◌≤◌, ◌≡◌, not, ◌&&◌, Option, none, some, List, [], ◌∷◌, length, map,
  two_ways, Text, arith,
}
use bfsi_voice_agent.Rag.ConflictDetector.{ConflictAnalysis, detect}
use bfsi_voice_agent.Rag.SelfCorrecting.Evidence.{RetrievedChunk}
use bfsi_voice_agent.Rag.SelfCorrecting.Types.{QueryAnalysis, EvidenceEvaluation, RagConfig}
use bfsi_voice_agent.Rag.Words.Sets.{
  length-words_where-le, words_where_all, In-member, expand_by_mono, expand_by-words,
}
use bfsi_voice_agent.Rag.Words.{words_where, member}
use bfsi_voice_agent.Rag.EvidenceEvaluator.{
  Signals, signals_of, some_chunk, sufficient_reason, document_ids, is_unresolved, by_reason,
  evaluate_supported, evaluate, is_out_of_scope_type, is_account_domain,
}
use bfsi_voice_agent.Rag.EvidenceEvaluator.Words.{synonym_groups}
use bfsi_voice_agent.Rag.EvidenceEvaluator.Overlap.{tokens, expand, share, lexical_overlap}
use bfsi_voice_agent.Rag.EvidenceEvaluator.Ranked.{supported_chunks}

share-le : (n d : ℕ) → n ≤ d → share n d ≤ 1000000
share-le n zero h = omega arith
share-le n (suc d) h = grind arith

share_all : (n : ℕ) → 1 ≤ n → share n n ≡ 1000000
share_all zero h = elim h [ ]
share_all (suc n) h = grind arith

In-length : (w : Text) (ws : List Text) → In w ws → 1 ≤ length ws
In-length w [] i = elim i [ ]
In-length w (v ∷ ws) i = omega arith

-- The lexical overlap is a share: it is at most 1, and it is 1 for a text that has each word of the
-- question that counts, if there is such a word.
pub lexical_overlap_bounds :
    (question text : Text)
    → (lexical_overlap question text ≤ 1000000)
      × ((w : Text)
          → In w (tokens question)
          → ((v : Text) → In v (tokens question) → In v (tokens text))
          → lexical_overlap question text ≡ 1000000)
unfolding lexical_overlap expand
lexical_overlap_bounds question text =
    let q = expand (tokens question) in
    let evidence = expand (tokens text) in
    let shared = words_where (λ w. member w evidence) q in
    (
      share-le (length shared) (length q) (length-words_where-le (λ w. member w evidence) q),
      λ w i f.
          let all =
            words_where_all (λ v. member v evidence) q
              (λ v j.
                In-member v evidence
                  (expand_by_mono synonym_groups v (tokens question) (tokens text) f j)) in
          rw all (
            share_all (length q)
              (In-length w q (expand_by-words synonym_groups w (tokens question) i))),
    )

abbrev pub InRange : EvidenceEvaluation → Type 0
InRange e = (e.confidence ≤ 1000000) × (e.relevance_score ≤ 1000000)

by_reason-InRange :
    (reason : Option Text) (config : RagConfig) (c : ConflictAnalysis) (s : Signals)
    (ids : List String)
    → InRange (by_reason reason config c s ids)
by_reason-InRange none config c s ids = (omega arith, omega arith)
by_reason-InRange (some reason) config c s ids = (omega arith, omega arith)

evaluate_supported-InRange :
    (config : RagConfig) (question : Text) (analysis : QueryAnalysis) (cs : List RetrievedChunk)
    → InRange (evaluate_supported config question analysis cs)
unfolding evaluate_supported
evaluate_supported-InRange config question analysis [] = (omega arith, omega arith)
evaluate_supported-InRange config question analysis (c ∷ cs) =
    let s = signals_of question analysis (c ∷ cs) in
    let found = detect (map (λ x. x.chunk) (c ∷ cs)) in
    two_ways InRange (found.conflict_detected && is_unresolved found.resolution_status)
      (λ e. (omega arith, omega arith))
      (λ e. by_reason-InRange (sufficient_reason config s) config found s (document_ids (c ∷ cs)))

-- The numbers of an evaluation are ones that its schema accepts, whatever the scores are: the
-- confidence and the relevance lie between 0 and 1.
pub evaluate_valid :
    (config : RagConfig) (question : Text) (analysis : QueryAnalysis) (chunks : List RetrievedChunk)
    → let e = evaluate config question analysis chunks in
      (e.confidence ≤ 1000000) × (e.relevance_score ≤ 1000000)
unfolding evaluate
evaluate_valid config question analysis chunks =
    let supported = supported_chunks config question analysis chunks in
    two_ways InRange analysis.needs_clarification (λ a. (omega arith, omega arith))
      (λ a.
        two_ways InRange (is_out_of_scope_type analysis.query_type)
          (λ b. (omega arith, omega arith))
          (λ b.
            two_ways InRange (is_account_domain analysis.domain) (λ c. (omega arith, omega arith))
              (λ c.
                two_ways InRange (not (some_chunk chunks)) (λ d. (omega arith, omega arith))
                  (λ d. evaluate_supported-InRange config question analysis supported))))
