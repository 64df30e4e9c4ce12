-- ===== src/Rag/Assembled/Tests.antt =====
-- rag/: the assembled pipeline at concrete questions.
use bfsi_voice_agent.Prelude.{◌≡◌, refl, true, false, none, some, [], ◌∷◌, Text, codes}
use bfsi_voice_agent.Rag.ConflictDetector.{Chunk, active}
use bfsi_voice_agent.Rag.SelfCorrecting.{answer}
use bfsi_voice_agent.Rag.SelfCorrecting.Types.{RagConfig}
use bfsi_voice_agent.Rag.SelfCorrecting.Wording.{query_can_contain_policy_conflict}
use bfsi_voice_agent.Rag.SelfCorrecting.Active.{prefer_active_policy_versions}
use bfsi_voice_agent.Rag.Retriever.{VectorStore, retrieve_from}
use bfsi_voice_agent.Rag.EvidenceEvaluator.{evaluate}
use bfsi_voice_agent.Rag.AnswerGenerator.{generate}
use bfsi_voice_agent.Rag.QueryAnalyzer.{analyze}
use bfsi_voice_agent.Rag.Assembled.{assembled}

abbrev rules : Chunk
rules = record {
  chunk_id = "r1";
  document_id = "rules";
  title = codes "Rules";
  text = codes "A human agent calls back. Ask for it.";
  version = none;
  effective_date = none;
  status = active;
  domain = some "escalation";
}

-- Every query finds the chunk.
abbrev store : VectorStore
store = record { chunks = rules ∷ []; index = λ query k. (some 0, some 500000) ∷ [] }

abbrev config : RagConfig
config = record {
  top_k = 5;
  score_threshold = 180000;
  max_retrieval_iterations = 3;
  low_relevance_threshold = 220000;
  sufficient_threshold = 320000;
  strong_relevance_threshold = 420000;
}

abbrev asked : Text
asked = codes "let me reach a human now"

abbrev closing : Text
closing = codes "close my account"

answered : (answer (assembled store config) config asked).answerable ≡ true
unfolding answer analyze evaluate retrieve_from query_can_contain_policy_conflict generate
    prefer_active_policy_versions
answered = refl

quoted :
    (answer (assembled store config) config asked).answer
    ≡ some (codes "Based on the available policy: A human agent calls back. Ask for it.")
unfolding answer analyze evaluate retrieve_from query_can_contain_policy_conflict generate
    prefer_active_policy_versions
quoted = refl

refused : (answer (assembled store config) config closing).answerable ≡ false
unfolding answer analyze evaluate retrieve_from query_can_contain_policy_conflict generate
    prefer_active_policy_versions
refused = refl

-- Blank evidence: the result is answerable and has no answer.
abbrev blank_store : VectorStore
blank_store = record {
  chunks = record rules { text = codes " # " } ∷ [];
  index = λ query k. (some 0, some 500000) ∷ [];
}

blank_unanswered :
    ((answer (assembled blank_store config) config asked).answerable ≡ true)
    × ((answer (assembled blank_store config) config asked).answer ≡ none)
unfolding answer analyze evaluate retrieve_from query_can_contain_policy_conflict generate
    prefer_active_policy_versions
blank_unanswered = (refl, refl)
