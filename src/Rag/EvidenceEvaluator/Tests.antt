-- ===== src/Rag/EvidenceEvaluator/Tests.antt =====
-- rag/evidence_evaluator.py at concrete inputs.
use bfsi_voice_agent.Prelude.{
  ℕ, ◌≤◌, All, In, arith, String, ◌≡◌, refl, false, none, some, List, [], ◌∷◌, Text, codes,
}
use bfsi_voice_agent.Rag.StateMachine.{sufficient, low_relevance, insufficient, conflict}
use bfsi_voice_agent.Rag.ConflictDetector.{active}
use bfsi_voice_agent.Rag.SelfCorrecting.Evidence.{RetrievedChunk}
use bfsi_voice_agent.Rag.SelfCorrecting.Types.{QueryAnalysis, RagConfig, policy_question}
use bfsi_voice_agent.Rag.EvidenceEvaluator.{evaluate, is_out_of_scope_type, is_account_domain}
use bfsi_voice_agent.Rag.EvidenceEvaluator.Strength.{Strong, Sourced, evaluate-Grounded}
use bfsi_voice_agent.Rag.EvidenceEvaluator.Bounds.{lexical_overlap_bounds}
use bfsi_voice_agent.Rag.EvidenceEvaluator.Overlap.{tokens, lexical_overlap}

abbrev config : RagConfig
config = record {
  top_k = 5;
  score_threshold = 180000;
  max_retrieval_iterations = 3;
  low_relevance_threshold = 220000;
  sufficient_threshold = 320000;
  strong_relevance_threshold = 420000;
}

abbrev analysis : QueryAnalysis
analysis = record {
  query_type = policy_question;
  domain = some "collections";
  needs_clarification = false;
  clarification_reason = none;
  subqueries = [];
  language = "en";
  confidence = 800000;
}

abbrev chunk : String → String → ℕ → RetrievedChunk
chunk document text score = record {
  chunk = record {
    chunk_id = document;
    document_id = document;
    title = [];
    text = codes text;
    version = none;
    effective_date = none;
    status = active;
    domain = none;
  };
  score = score;
}

abbrev asked : Text
asked = codes "Is lunch tasty?"

some_tokens :
    tokens (codes "What is THE grace period, the Grace?") ≡ codes "period" ∷ codes "grace" ∷ []
unfolding tokens
some_tokens = refl

-- One of "lunch" and "tasty".
half : lexical_overlap asked (codes "lunch break") ≡ 500000
unfolding lexical_overlap
half = refl

strong :
    (evaluate config asked analysis (chunk "d" "hours" 420000 ∷ chunk "d" "b" 300000 ∷ [])).verdict
    ≡ sufficient
unfolding evaluate
strong = refl

documents :
    (evaluate config asked analysis (
      chunk "d" "lunch" 420000
      ∷ chunk "e" "b" 100
      ∷ chunk "d" "c" 410000
      ∷ [])).supported_document_ids
    ≡ "d" ∷ []
unfolding evaluate
documents = refl

weak : (evaluate config asked analysis (chunk "d" "hours" 164999 ∷ [])).verdict ≡ low_relevance
unfolding evaluate
weak = refl

related : (evaluate config asked analysis (chunk "d" "hours" 200000 ∷ [])).verdict ≡ insufficient
unfolding evaluate
related = refl

disputed :
    (evaluate config asked analysis (
      chunk "d" "a grace period of 5 days" 500000
      ∷ chunk "e" "grace period of 7 days" 490000
      ∷ [])).verdict
    ≡ conflict
unfolding evaluate
disputed = refl

abbrev given : List RetrievedChunk
given = chunk "d" "hours" 420000 ∷ chunk "d" "b" 300000 ∷ []

evaluate-Grounded_example :
    (analysis.needs_clarification ≡ false)
    × (is_out_of_scope_type analysis.query_type ≡ false)
    × (is_account_domain analysis.domain ≡ false)
    × Strong config given
    × All (Sourced given) (evaluate config asked analysis given).supported_document_ids
evaluate-Grounded_example = evaluate-Grounded config asked analysis given (omega arith) strong

lexical_overlap_bounds_example :
    (lexical_overlap asked (codes "tasty lunch") ≤ 1000000)
    × ((w : Text)
        → In w (tokens asked)
        → ((v : Text) → In v (tokens asked) → In v (tokens (codes "tasty lunch")))
        → lexical_overlap asked (codes "tasty lunch") ≡ 1000000)
lexical_overlap_bounds_example = lexical_overlap_bounds asked (codes "tasty lunch")
