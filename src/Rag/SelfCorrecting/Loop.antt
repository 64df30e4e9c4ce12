-- ===== src/Rag/SelfCorrecting/Loop.antt =====
-- rag/self_correcting.py: the correction loop.
use bfsi_voice_agent.Prelude.{
  ℕ, zero, suc, ◌+◌, ◌*◌, min, max, Bool, false, not, ◌&&◌, none, some, List, [], ◌∷◌, ◌++◌, map,
  if◌then◌else◌, length, leb, ◌==◌, Text, codes,
}
use bfsi_voice_agent.Rag.StateMachine.{
  EvidenceVerdict, sufficient, low_relevance, insufficient, conflict, ambiguous, out_of_scope,
  PipelineState, start, analyze_query, retrieve, evaluate_evidence, rewrite_query, generate_answer,
  complete,
}
use bfsi_voice_agent.Rag.StateMachine as Machine
use bfsi_voice_agent.Rag.ConflictDetector.{
  CorrectionAction, no_action, query_rewrite, query_decomposition, broaden_retrieval,
  conflict_resolution, ConflictAnalysis, ConflictResolutionStatus, resolved, detect,
}
use bfsi_voice_agent.Rag.ConflictDetector as Detector
use bfsi_voice_agent.Rag.SelfCorrecting.Wording.{query_can_contain_policy_conflict}
use bfsi_voice_agent.Rag.SelfCorrecting.Evidence.{RetrievedChunk, merge_chunks, relevant_chunks}
use bfsi_voice_agent.Rag.SelfCorrecting.Types.{
  multi_part, QueryAnalysis, EvidenceEvaluation, SearchRequest, RagConfig, Parts, RetrievalTrace,
  Progress, is_sufficient, is_conflict, is_low, is_resolved,
}

-- `_search_request`
abbrev pub search_request : RagConfig → Text → QueryAnalysis → SearchRequest
search_request config query analysis = record {
  query = query;
  top_k = config.top_k;
  score_threshold = config.score_threshold;
  domain = analysis.domain;
}

abbrev pub is_multi_part : QueryAnalysis → Bool
is_multi_part analysis = elim analysis.query_type [
  | multi_part ↦ leb 1 (length analysis.subqueries)
  | _ ↦ false
]

-- A call of the retriever: the searches that it makes, and the chunks that it gives.
abbrev pub Retrieval : Type 0
Retrieval = List SearchRequest × List RetrievedChunk

abbrev pub search_one : Parts → SearchRequest → Retrieval
search_one parts request = (request ∷ [], parts.retrieve_one request)

abbrev pub search_many : Parts → List SearchRequest → ℕ → Retrieval
search_many parts requests top_k = (requests, parts.retrieve_many requests top_k)

-- `_retrieve_for_analysis`
unfoldable pub retrieve_for_analysis :
    Parts → RagConfig → Text → QueryAnalysis → Retrieval × CorrectionAction
retrieve_for_analysis parts config query analysis =
    let requests = map (λ q. search_request config q (parts.analyze q)) analysis.subqueries in
    if is_multi_part analysis
    then (
      search_many parts requests (max config.top_k (min 10 (length requests * 4))),
      query_decomposition,
    )
    else (search_one parts (search_request config query analysis), no_action)

abbrev pub noted : CorrectionAction → List CorrectionAction → List CorrectionAction
noted no_action actions = actions
noted a actions = actions ++ (a ∷ [])

-- `trace_rec.add`
abbrev pub moved : PipelineState → PipelineState → Progress → Progress
moved s t p = record p { transitions = p.transitions ++ ((s, t) ∷ []) }

abbrev pub trace_of : ℕ → Progress → EvidenceVerdict → CorrectionAction → Text → RetrievalTrace
trace_of i p verdict action reason = record {
  iteration = i;
  query = p.current_query;
  retrieved_chunk_ids = map (λ c. c.chunk.chunk_id) p.accumulated_chunks;
  verdict = verdict;
  action = action;
  reason = reason;
}

-- The end of an iteration: the trace entry, and the actions that are noted with it.
abbrev pub traced : RetrievalTrace → List CorrectionAction → Progress → Progress
traced t actions p = record p {
  retrieval_trace = p.retrieval_trace ++ (t ∷ []);
  correction_actions = p.correction_actions ++ actions;
}

module _ (parts : Parts) (config : RagConfig) (question : Text) (analysis : QueryAnalysis) where
  -- The retrieval of an iteration.
  unfoldable pub retrieved : ℕ → Progress → Retrieval × CorrectionAction
  unfolding retrieve_for_analysis
  retrieved i p =
      if i == 1
      then retrieve_for_analysis parts config p.current_query analysis
      else (search_one parts (search_request config p.current_query analysis), no_action)

  -- An iteration up to the evaluation.
  unfoldable pub gathered : ℕ → Progress → Progress
  unfolding retrieved merge_chunks
  gathered i p =
      let ((requests, chunks), action) = retrieved i p in
      let from = if i == 1 then analyze_query else rewrite_query in
      moved Machine.retrieve evaluate_evidence (record (moved from Machine.retrieve p) {
        accumulated_chunks = merge_chunks p.accumulated_chunks chunks;
        correction_actions = noted action p.correction_actions;
        searched = p.searched ++ requests;
      })

  abbrev pub evaluation_of : Progress → EvidenceEvaluation
  evaluation_of p = parts.evaluate question analysis p.accumulated_chunks

  abbrev pub relevant_of : Progress → List RetrievedChunk
  relevant_of p = relevant_chunks p.accumulated_chunks (evaluation_of p).supported_document_ids

  abbrev pub conflicts_in : List RetrievedChunk → ConflictAnalysis
  conflicts_in chunks = detect (map (λ c. c.chunk) chunks)

  -- Whether sufficient evidence is looked through for conflicts, and the conflicts.
  abbrev pub looks_for_conflict : EvidenceEvaluation → Bool
  looks_for_conflict e = is_sufficient e.verdict && query_can_contain_policy_conflict question

  -- The evaluation after the resolution of policy conflicts, which may lower the verdict.
  abbrev pub checked : Bool → ConflictAnalysis → EvidenceEvaluation → EvidenceEvaluation
  checked looks c e =
      if looks && (c.conflict_detected && not (is_resolved c.resolution_status))
      then record e { verdict = conflict }
      else e

  abbrev pub evaluated_with :
      EvidenceEvaluation → List RetrievedChunk → ConflictAnalysis → Progress → Progress
  evaluated_with e relevant c p =
      let looks = looks_for_conflict e in
      let found = looks && c.conflict_detected in
      record p {
        final_eval = some (checked looks c e);
        final_generation_chunks = relevant;
        conflict_analysis = if looks then some c else p.conflict_analysis;
        correction_actions =
            if found
            then p.correction_actions ++ (conflict_resolution ∷ [])
            else p.correction_actions;
        preferred_doc =
            if found && is_resolved c.resolution_status
            then c.preferred_document_id
            else p.preferred_doc;
      }

  -- The evaluation and the resolution of policy conflicts.
  unfoldable pub evaluated : Progress → Progress
  unfolding relevant_chunks detect
  evaluated p = evaluated_with (evaluation_of p) (relevant_of p) (conflicts_in (relevant_of p)) p

  -- The branch of a conflict.
  abbrev pub conflicted :
      ℕ → EvidenceEvaluation → List RetrievedChunk → ConflictAnalysis → Progress → Progress
  conflicted i e relevant c p =
      let t = trace_of i p e.verdict conflict_resolution e.reason in
      let seen : Progress = record p { conflict_analysis = some c } in
      if is_resolved c.resolution_status
      then record (traced t (conflict_resolution ∷ []) seen) {
        preferred_doc = c.preferred_document_id;
        final_eval = some (record e { verdict = sufficient });
        final_generation_chunks = relevant;
      }
      else traced t (conflict_resolution ∷ Detector.abstain ∷ []) seen

  -- The branch that corrects the query.
  unfoldable pub corrected : ℕ → EvidenceEvaluation → Progress → Progress
  corrected i e p =
      let action = if is_low e.verdict then query_rewrite else broaden_retrieval in
      let query = parts.rewrite question analysis i in
      let t = trace_of i p e.verdict action e.reason in
      moved evaluate_evidence rewrite_query (record (traced t (action ∷ []) p) {
        current_query = query;
        query_history = p.query_history ++ (query ∷ []);
      })

  -- What follows the evaluation `e`, which is the final one so far: the end of the loop, or the next
  -- query.
  abbrev pub decide : ℕ → EvidenceEvaluation → Progress → (Progress → Progress) → Progress
  decide i e p next =
      if is_sufficient e.verdict
      then traced (trace_of i p e.verdict no_action e.reason) [] p
      else if is_conflict e.verdict
      then conflicted i e p.final_generation_chunks (conflicts_in p.final_generation_chunks) p
      else if leb config.max_retrieval_iterations i
      then traced
          (trace_of i p e.verdict Detector.abstain (codes "Maximum retrieval iterations reached."))
          (Detector.abstain ∷ []) p
      else next (corrected i e p)

  abbrev pub decide_final : ℕ → Progress → (Progress → Progress) → Progress
  decide_final i p next = elim p.final_eval [ none ↦ p | some e ↦ decide i e p next ]

  -- The loop: `n` iterations are left, the next of which is the `i`-th.
  unfoldable pub correct_itself : ℕ → ℕ → Progress → Progress
  unfolding gathered evaluated corrected detect
  correct_itself zero i p = p
  correct_itself (suc n) i p =
      decide_final i (evaluated (gathered i p)) (λ q. correct_itself n (i + 1) q)

  abbrev pub at_start : Progress
  at_start = record {
    current_query = question;
    query_history = question ∷ [];
    accumulated_chunks = [];
    correction_actions = [];
    retrieval_trace = [];
    transitions = (start, analyze_query) ∷ [];
    preferred_doc = none;
    final_eval = none;
    conflict_analysis = none;
    final_generation_chunks = [];
    searched = [];
  }
