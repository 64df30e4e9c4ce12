-- ===== src/Rag/EvidenceEvaluator.antt =====
-- rag/evidence_evaluator.py: EvidenceEvaluator, with the thresholds of the configuration. Scores, shares
-- and confidences are in millionths, rounded down.
pub mod Words
pub mod Overlap
pub mod Ranked
pub mod Bounds
pub mod Supported
pub mod Strength
mod Tests
use bfsi_voice_agent.Prelude.{
  ℕ, ◌+◌, ◌*◌, ◌/◌, min, max, String, Bool, true, false, not, ◌&&◌, ◌||◌, Option, none, some, List,
  [], ◌∷◌, if◌then◌else◌, any, length, map, take, leb, ltb, str_eq, Text, codes,
}
use bfsi_voice_agent.Rag.StateMachine.{
  EvidenceVerdict, sufficient, low_relevance, insufficient, conflict, ambiguous, out_of_scope,
}
use bfsi_voice_agent.Rag.ConflictDetector.{
  ConflictAnalysis, ConflictResolutionStatus, unresolved, detect,
}
use bfsi_voice_agent.Rag.SelfCorrecting.Evidence.{RetrievedChunk}
use bfsi_voice_agent.Rag.SelfCorrecting.Types.{
  QueryAnalysis, QueryType, out_of_scope_query, EvidenceEvaluation, RagConfig,
}
use bfsi_voice_agent.Rag.Retriever.{same_domain}
use Overlap.{aggregate_overlap}
use Ranked.{greatest, supported_chunks}

-- An evaluation without evidence.
abbrev pub without_support : EvidenceVerdict → ℕ → List Text → Text → EvidenceEvaluation
without_support verdict confidence missing reason = record {
  verdict = verdict;
  confidence = confidence;
  relevance_score = 0;
  conflict_detected = false;
  missing_information = missing;
  reason = reason;
  supported_document_ids = [];
}

abbrev pub reason_or : Option Text → Text
reason_or none = codes "The request requires clarification."
reason_or (some []) = codes "The request requires clarification."
reason_or (some (c ∷ t)) = c ∷ t

abbrev pub is_out_of_scope_type : QueryType → Bool
is_out_of_scope_type out_of_scope_query = true
is_out_of_scope_type _ = false

abbrev pub is_account_domain : Option String → Bool
is_account_domain none = false
is_account_domain (some d) = str_eq d "account_management"

-- `list(dict.fromkeys(…))`
unfoldable pub first_of_each : List String → List String → List String
first_of_each seen [] = []
first_of_each seen (d ∷ ds) = elim (any (str_eq d) seen) [
  | true ↦ first_of_each seen ds
  | false ↦ d ∷ first_of_each (d ∷ seen) ds
]

abbrev pub document_ids : List RetrievedChunk → List String
document_ids chunks = first_of_each [] (map (λ c. c.chunk.document_id) chunks)

abbrev pub is_unresolved : ConflictResolutionStatus → Bool
is_unresolved unresolved = true
is_unresolved _ = false

-- What the rules read of the supporting chunks.
pub record Signals : Type 0 where
  pub best_semantic : ℕ
  pub top_sum : ℕ
  pub top_count : ℕ
  pub lexical : ℕ
  pub domain_match : Bool
  pub best_domain_score : ℕ

abbrev pub sum : List ℕ → ℕ
sum [] = 0
sum (n ∷ ns) = n + sum ns

abbrev pub scores_of : List RetrievedChunk → List ℕ
scores_of chunks = map (λ c. c.score) chunks

unfoldable pub in_domain : Option String → List RetrievedChunk → List RetrievedChunk
in_domain domain [] = []
in_domain domain (c ∷ cs) =
    let rest = in_domain domain cs in if same_domain domain c.chunk.domain then c ∷ rest else rest

abbrev pub some_chunk : List RetrievedChunk → Bool
some_chunk [] = false
some_chunk (c ∷ cs) = true

unfoldable pub signals_of : Text → QueryAnalysis → List RetrievedChunk → Signals
unfolding aggregate_overlap in_domain
signals_of question analysis supported =
    let top = take 3 (scores_of supported) in
    let of_domain = in_domain analysis.domain supported in
    record {
      best_semantic = greatest (scores_of supported);
      top_sum = sum top;
      top_count = length top;
      lexical = aggregate_overlap question supported;
      domain_match = some_chunk of_domain;
      best_domain_score = greatest (scores_of of_domain);
    }

-- The first rule by which evidence is sufficient, and its reason.
unfoldable pub sufficient_reason : RagConfig → Signals → Option Text
sufficient_reason config s =
    let low = config.low_relevance_threshold in
    if leb config.strong_relevance_threshold s.best_semantic
    then some (codes "Strong semantic evidence supports a grounded answer.")
    else if s.domain_match && leb (low * 3) (s.best_domain_score * 4)
    then some (
        codes
          "Retrieved evidence matches the predicted policy domain with adequate semantic support.")
    else if leb low s.best_semantic && leb 100000 s.lexical
    then some (codes "Semantic and lexical evidence jointly support a grounded answer.")
    else if leb (low * s.top_count) s.top_sum && leb 80000 s.lexical
    then some (codes "Multiple related evidence chunks jointly support the answer.")
    else none

-- `0.70 * best_semantic + 0.15 * avg_semantic + 0.15 * lexical`, in hundredths, times the count.
abbrev pub weighted : Signals → ℕ
weighted s = (s.best_semantic * 70 + s.lexical * 15) * s.top_count + s.top_sum * 15

abbrev pub divided : ℕ → ℕ → ℕ
divided n d = if leb d 0 then 0 else n / d

abbrev pub evaluated_sufficient :
    ConflictAnalysis → Signals → List String → Text → EvidenceEvaluation
evaluated_sufficient c s ids reason = record {
  verdict = sufficient;
  confidence =
      min 960000 ((72000000 + max s.best_semantic s.best_domain_score * 20 + s.lexical * 8) / 100);
  relevance_score = min 1000000 (divided (weighted s) (s.top_count * 100));
  conflict_detected = c.conflict_detected;
  missing_information = [];
  reason = reason;
  supported_document_ids = ids;
}

abbrev pub is_weak : RagConfig → Signals → Bool
is_weak config s =
    ltb (s.best_semantic * 4) (config.low_relevance_threshold * 3) && ltb s.lexical 80000

abbrev pub evaluated_weak :
    RagConfig → ConflictAnalysis → Signals → List String → EvidenceEvaluation
evaluated_weak config c s ids = record {
  verdict = if is_weak config s then low_relevance else insufficient;
  confidence = 840000;
  relevance_score = min 1000000 ((s.best_semantic * 75 + s.lexical * 25) / 100);
  conflict_detected = c.conflict_detected;
  missing_information = [];
  reason =
      if is_weak config s
      then codes "Retrieved evidence is weakly related to the request."
      else codes "Evidence is related but not strong enough to safely answer.";
  supported_document_ids = ids;
}

abbrev pub evaluated_conflict : Signals → List String → EvidenceEvaluation
evaluated_conflict s ids = record {
  verdict = conflict;
  confidence = 950000;
  relevance_score = min 1000000 s.best_semantic;
  conflict_detected = true;
  missing_information = [];
  reason = codes "Relevant policy evidence contains an unresolved conflict.";
  supported_document_ids = ids;
}

abbrev pub by_reason :
    Option Text → RagConfig → ConflictAnalysis → Signals → List String → EvidenceEvaluation
by_reason none config c s ids = evaluated_weak config c s ids
by_reason (some reason) config c s ids = evaluated_sufficient c s ids reason

-- The evaluation of supporting chunks.
unfoldable pub evaluate_supported :
    RagConfig → Text → QueryAnalysis → List RetrievedChunk → EvidenceEvaluation
unfolding signals_of sufficient_reason first_of_each detect
evaluate_supported config question analysis [] =
    without_support low_relevance 880000 []
      (codes "Retrieved evidence does not directly support the request.")
evaluate_supported config question analysis (chunk ∷ chunks) =
    let supported = chunk ∷ chunks in
    let s = signals_of question analysis supported in
    let ids = document_ids supported in
    let c = detect (map (λ x. x.chunk) supported) in
    if c.conflict_detected && is_unresolved c.resolution_status
    then evaluated_conflict s ids
    else by_reason (sufficient_reason config s) config c s ids

unfoldable pub evaluate :
    RagConfig → Text → QueryAnalysis → List RetrievedChunk → EvidenceEvaluation
unfolding evaluate_supported supported_chunks
evaluate config question analysis chunks =
    if analysis.needs_clarification
    then without_support ambiguous 980000 [] (reason_or analysis.clarification_reason)
    else if is_out_of_scope_type analysis.query_type
    then without_support out_of_scope 990000 []
        (codes "The request is outside the supported BFSI knowledge base.")
    else if is_account_domain analysis.domain
    then without_support insufficient 980000
        (codes
            "The knowledge base does not contain a policy for the requested account-management action."
          ∷ [])
        (codes "The request is BFSI-related but unsupported by the available corpus.")
    else if not (some_chunk chunks)
    then without_support insufficient 960000
        (codes "No relevant policy evidence was retrieved." ∷ [])
        (codes "No qualifying evidence was retrieved.")
    else evaluate_supported config question analysis
        (supported_chunks config question analysis chunks)
