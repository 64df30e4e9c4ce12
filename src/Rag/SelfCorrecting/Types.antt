-- ===== src/Rag/SelfCorrecting/Types.antt =====
-- rag/self_correcting.py and rag/schemas.py: the parts, what the loop keeps and what it returns.
use bfsi_voice_agent.Prelude.{ℕ, String, Bool, true, false, Option, List, Text}
use bfsi_voice_agent.Rag.StateMachine.{
  EvidenceVerdict, sufficient, low_relevance, conflict, PipelineState,
}
use bfsi_voice_agent.Rag.ConflictDetector.{
  CorrectionAction, ConflictAnalysis, ConflictResolutionStatus, resolved,
}
use bfsi_voice_agent.Rag.SelfCorrecting.Evidence.{RetrievedChunk}

pub data QueryType : Type 0 where
  policy_question comparison procedural_question eligibility_question : QueryType
  out_of_scope_query ambiguous_query multi_part : QueryType

pub record QueryAnalysis : Type 0 where
  pub query_type : QueryType
  pub domain : Option String
  pub needs_clarification : Bool
  pub clarification_reason : Option Text
  pub subqueries : List Text
  pub language : String
  pub confidence : ℕ

pub record EvidenceEvaluation : Type 0 where
  pub verdict : EvidenceVerdict
  pub confidence : ℕ
  pub relevance_score : ℕ
  pub conflict_detected : Bool
  pub missing_information : List Text
  pub reason : Text
  pub supported_document_ids : List String

pub record SearchRequest : Type 0 where
  pub query : Text
  pub top_k : ℕ
  pub score_threshold : ℕ
  pub domain : Option String

pub record RagConfig : Type 0 where
  pub top_k : ℕ
  pub score_threshold : ℕ
  pub max_retrieval_iterations : ℕ
  pub low_relevance_threshold : ℕ
  pub sufficient_threshold : ℕ
  pub strong_relevance_threshold : ℕ

pub record Citation : Type 0 where
  pub document_id : String
  pub chunk_id : String
  pub title : Text
  pub version : Option ℕ
  pub effective_date : Option ℕ

pub record Parts : Type 0 where
  pub analyze : Text → QueryAnalysis
  pub retrieve_one : SearchRequest → List RetrievedChunk
  pub retrieve_many : List SearchRequest → ℕ → List RetrievedChunk
  pub evaluate : Text → QueryAnalysis → List RetrievedChunk → EvidenceEvaluation
  pub rewrite : Text → QueryAnalysis → ℕ → Text
  pub generate : Text → List RetrievedChunk → Option String → Option Text × List Citation

pub record RetrievalTrace : Type 0 where
  pub iteration : ℕ
  pub query : Text
  pub retrieved_chunk_ids : List String
  pub verdict : EvidenceVerdict
  pub action : CorrectionAction
  pub reason : Text

-- What the loop keeps; `searched` is the record of the calls of the retriever: the searches that it
-- was asked for.
pub record Progress : Type 0 where
  pub current_query : Text
  pub query_history : List Text
  pub accumulated_chunks : List RetrievedChunk
  pub correction_actions : List CorrectionAction
  pub retrieval_trace : List RetrievalTrace
  pub transitions : List (PipelineState × PipelineState)
  pub preferred_doc : Option String
  pub final_eval : Option EvidenceEvaluation
  pub conflict_analysis : Option ConflictAnalysis
  pub final_generation_chunks : List RetrievedChunk
  pub searched : List SearchRequest

pub record RagResult : Type 0 where
  pub answer : Option Text
  pub answerable : Bool
  pub confidence : ℕ
  pub verdict : EvidenceVerdict
  pub retrieval_iterations : ℕ
  pub query_history : List Text
  pub retrieved_chunks : List RetrievedChunk
  pub conflict_detected : Bool
  pub conflict_resolution : Option ConflictAnalysis
  pub correction_actions : List CorrectionAction
  pub citations : List Citation
  pub clarification_question : Option Text
  pub abstention_reason : Option Text
  pub trace : List RetrievalTrace
  pub state_transitions : List (PipelineState × PipelineState)

abbrev pub is_sufficient : EvidenceVerdict → Bool
is_sufficient sufficient = true
is_sufficient _ = false

abbrev pub is_conflict : EvidenceVerdict → Bool
is_conflict conflict = true
is_conflict _ = false

abbrev pub is_low : EvidenceVerdict → Bool
is_low low_relevance = true
is_low _ = false

abbrev pub is_resolved : ConflictResolutionStatus → Bool
is_resolved resolved = true
is_resolved _ = false
