-- ===== src/Rag/EvidenceEvaluator/Overlap.antt =====
-- rag/evidence_evaluator.py: the share of the question's words that the evidence has, in millionths and
-- rounded down, on ASCII text.
use bfsi_voice_agent.Prelude.{ℕ, zero, suc, ◌*◌, ◌/◌, List, [], ◌∷◌, ◌++◌, length, take, Text}
use bfsi_voice_agent.Rag.SelfCorrecting.Evidence.{RetrievedChunk}
use bfsi_voice_agent.Rag.Words.{tokens_by, expand_by, member, words_where}
use bfsi_voice_agent.Rag.EvidenceEvaluator.Words.{stop_words, synonym_groups}

-- `_tokens`
unfoldable pub tokens : Text → List Text
unfolding tokens_by
tokens text = tokens_by stop_words text

-- `_expand`
unfoldable pub expand : List Text → List Text
unfolding expand_by
expand words = expand_by synonym_groups words

-- `n / d`, and 0 for no words.
abbrev pub share : ℕ → ℕ → ℕ
share n zero = 0
share n (suc d) = n * 1000000 / suc d

-- `_lexical_overlap`
unfoldable pub lexical_overlap : Text → Text → ℕ
unfolding tokens expand words_where
lexical_overlap question text =
    let q = expand (tokens question) in
    let evidence = expand (tokens text) in
    share (length (words_where (λ w. member w evidence) q)) (length q)

-- `" ".join(…)`
abbrev pub joined_texts : List RetrievedChunk → Text
joined_texts [] = []
joined_texts (c ∷ []) = c.chunk.text
joined_texts (c ∷ d ∷ cs) = c.chunk.text ++ (32 ∷ joined_texts (d ∷ cs))

-- `_aggregate_overlap`
unfoldable pub aggregate_overlap : Text → List RetrievedChunk → ℕ
unfolding lexical_overlap
aggregate_overlap question [] = 0
aggregate_overlap question (c ∷ cs) = lexical_overlap question (joined_texts (take 5 (c ∷ cs)))
