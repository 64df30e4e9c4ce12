-- ===== src/Rag/SelfCorrecting.antt =====
-- rag/self_correcting.py: SelfCorrectingRAG. The query analyzer, the retriever, the evaluator, the
-- rewriter and the generator are arguments. The measured times and the reasons of the transitions are
-- left out.
pub mod Evidence
pub mod Wording
pub mod Active
pub mod Ids
pub mod Families
pub mod Current
pub mod Types
pub mod Loop
pub mod Rule
pub mod Transitions
pub mod Rounds
pub mod Used
pub mod Answered
pub mod Merged
pub mod Kept
mod Tests
use bfsi_voice_agent.Prelude.{
  ℕ, zero, suc, ◌+◌, ◌*◌, min, max, String, Bool, true, false, not, ◌&&◌, Option, none, some, List,
  [], ◌∷◌, ◌++◌, map, if◌then◌else◌, length, leb, ◌==◌, Text, codes,
}
use bfsi_voice_agent.Rag.StateMachine.{
  EvidenceVerdict, sufficient, low_relevance, insufficient, conflict, ambiguous, out_of_scope,
  PipelineState, start, analyze_query, retrieve, evaluate_evidence, rewrite_query, generate_answer,
  complete,
}
use bfsi_voice_agent.Rag.StateMachine as Machine
use bfsi_voice_agent.Rag.ConflictDetector.{
  CorrectionAction, no_action, query_rewrite, query_decomposition, broaden_retrieval,
  conflict_resolution, ConflictAnalysis, ConflictResolutionStatus, resolved, detect,
}
use bfsi_voice_agent.Rag.ConflictDetector as Detector
use Evidence.{RetrievedChunk, merge_chunks, relevant_chunks, or_else_chunks}
use Active.{prefer_active_policy_versions}
use Types.{
  QueryType, out_of_scope_query, multi_part, QueryAnalysis, EvidenceEvaluation, SearchRequest,
  RagConfig, Parts, RetrievalTrace, Progress, RagResult, is_sufficient, is_conflict, is_low,
  is_resolved,
}
use Loop.{correct_itself, at_start, moved}

abbrev pub found_conflict : Option ConflictAnalysis → Bool
found_conflict none = false
found_conflict (some c) = c.conflict_detected

-- The result of a query that is ambiguous or out of scope, before any retrieval.
abbrev pub early :
    Text
    → QueryAnalysis
    → EvidenceVerdict
    → CorrectionAction
    → PipelineState
    → Option Text
    → Option Text
    → RagResult
early question analysis verdict action stop clarification abstention = record {
  answer = none;
  answerable = false;
  confidence = analysis.confidence;
  verdict = verdict;
  retrieval_iterations = 0;
  query_history = question ∷ [];
  retrieved_chunks = [];
  conflict_detected = false;
  conflict_resolution = none;
  correction_actions = action ∷ [];
  citations = [];
  clarification_question = clarification;
  abstention_reason = abstention;
  trace = [];
  state_transitions = (start, analyze_query) ∷ (analyze_query, stop) ∷ (stop, complete) ∷ [];
}

-- What every result of the loop takes from it.
abbrev pub concluded : Progress → ℕ → EvidenceVerdict → RagResult
concluded p confidence verdict = record {
  answer = none;
  answerable = false;
  confidence = confidence;
  verdict = verdict;
  retrieval_iterations = length p.retrieval_trace;
  query_history = p.query_history;
  retrieved_chunks = p.accumulated_chunks;
  conflict_detected = found_conflict p.conflict_analysis;
  conflict_resolution = p.conflict_analysis;
  correction_actions = p.correction_actions;
  citations = [];
  clarification_question = none;
  abstention_reason = none;
  trace = p.retrieval_trace;
  state_transitions = p.transitions;
}

abbrev pub or_one : ℕ → ℕ
or_one zero = 1
or_one (suc n) = suc n

abbrev pub or_abstain : List CorrectionAction → List CorrectionAction
or_abstain [] = Detector.abstain ∷ []
or_abstain (a ∷ rest) = a ∷ rest

-- The grounded answer.
unfoldable pub answered : Parts → Text → EvidenceEvaluation → Progress → RagResult
answered parts question e p =
    let chunks =
      prefer_active_policy_versions question
        (or_else_chunks p.final_generation_chunks p.accumulated_chunks) in
    let (text, citations) = parts.generate question chunks p.preferred_doc in
    let q = moved generate_answer complete (moved evaluate_evidence generate_answer p) in
    record (concluded q e.confidence sufficient) {
      answer = text;
      answerable = true;
      retrieval_iterations = or_one (length p.retrieval_trace);
      citations = citations;
    }

abbrev pub low_as_insufficient : EvidenceVerdict → EvidenceVerdict
low_as_insufficient v = if is_low v then insufficient else v

-- The safe abstention; without an evaluation it has the confidence 0.8.
unfoldable pub abstained : Option EvidenceEvaluation → Progress → RagResult
abstained none p =
    let q = moved Machine.abstain complete (moved evaluate_evidence Machine.abstain p) in
    record (concluded q 800000 insufficient) {
      correction_actions = or_abstain q.correction_actions;
      abstention_reason = some (codes "Insufficient policy evidence.");
    }
abstained (some e) p =
    let q = moved Machine.abstain complete (moved evaluate_evidence Machine.abstain p) in
    record (concluded q e.confidence (low_as_insufficient e.verdict)) {
      correction_actions = or_abstain q.correction_actions;
      abstention_reason = some e.reason;
    }

abbrev pub finish : Parts → Text → Progress → Option EvidenceEvaluation → RagResult
finish parts question p none = abstained none p
finish parts question p (some e) =
    if is_sufficient e.verdict then answered parts question e p else abstained (some e) p

abbrev pub is_out_of_scope : QueryType → Bool
is_out_of_scope out_of_scope_query = true
is_out_of_scope _ = false

-- `answer`
unfoldable pub answer : Parts → RagConfig → Text → RagResult
unfolding correct_itself answered abstained
answer parts config question =
    let analysis = parts.analyze question in
    let p =
      correct_itself parts config question analysis config.max_retrieval_iterations 1
        (at_start parts config question analysis) in
    if analysis.needs_clarification
    then early question analysis ambiguous Detector.ask_clarification Machine.ask_clarification
        (some (
          codes
            "Could you clarify the issue—for example whether this is about a payment, hardship, missing transaction, privacy, verification, or human support?"))
        none
    else if is_out_of_scope analysis.query_type
    then early question analysis out_of_scope Detector.abstain Machine.abstain none
        (some (codes "The question is outside the supported BFSI/customer-support knowledge base."))
    else finish parts question p p.final_eval
