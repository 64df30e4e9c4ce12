-- ===== src/Integration/Orchestrator/Tests.antt =====
-- integration/orchestrator.py at concrete inputs.
use bfsi_voice_agent.Prelude.{
  ◌≤◌, List, All, length, arith, ◌≡◌, refl, true, false, none, some, [], ◌∷◌, Text, codes,
}
use bfsi_voice_agent.Rag.ConflictDetector.{Chunk, active}
use bfsi_voice_agent.Rag.SelfCorrecting.{answer}
use bfsi_voice_agent.Rag.SelfCorrecting.Wording.{query_can_contain_policy_conflict}
use bfsi_voice_agent.Rag.SelfCorrecting.Active.{prefer_active_policy_versions}
use bfsi_voice_agent.Rag.Retriever.{VectorStore, retrieve_from}
use bfsi_voice_agent.Rag.EvidenceEvaluator.{evaluate}
use bfsi_voice_agent.Rag.AnswerGenerator.{Candidate, generate, answer_from}
use bfsi_voice_agent.Rag.QueryAnalyzer.{analyze}
use bfsi_voice_agent.Rag.Assembled.{assembled}
use bfsi_voice_agent.Rag.Assembled.Grounded.{Stored}
use bfsi_voice_agent.Integration.Orchestrator.Quoted.{OfStore, is_rag, rag_text, handle_turn-Quotes}
use bfsi_voice_agent.Rag.SelfCorrecting.Types.{RagResult, RagConfig}
use bfsi_voice_agent.Business.Repository.{BusinessDatabase}
use bfsi_voice_agent.Business.Executor.{execute}
use bfsi_voice_agent.Business.Executor.Handlers.{Context}
use bfsi_voice_agent.Business.Executor.Calls.{Refines}
use bfsi_voice_agent.Rag.StateMachine.{insufficient}
use bfsi_voice_agent.Integration.RouterSchema.{
  RouterDecision, policy_question, human_escalation, request_human_escalation, neutral,
}
use bfsi_voice_agent.Integration.Guards.Patterns.{
  looks_like_third_party_private_request, looks_like_own_identity_question,
}
use bfsi_voice_agent.Integration.Orchestrator.{Source, decided, raised, handle_turn, combine}
use bfsi_voice_agent.Integration.Orchestrator.Sources.{Honest, third_party_runs_nothing}
use bfsi_voice_agent.Integration.Orchestrator.Turns.{handle_turn-Honest, turn-Refines}

abbrev tables : BusinessDatabase
tables = record {
  customers =
      record {
        customer_id = "CUST-1001";
        name = "Demo Customer";
        status = "active";
        created_at = 1;
      }
      ∷ [];
  accounts = [];
  payments = [];
  promise_to_pay = [];
  callbacks = [];
  disputes = [];
  hardship_cases = [];
  human_escalations = [];
  call_history = [];
}

abbrev context : Context
context = record {
  now = 100;
  clock = 4;
  hex = "0A1B2C3D4E5F";
  call_hex = "6A7B8C9D0E1F";
  registry = none;
  bound = none;
  storage_error = λ access. none;
}

abbrev escalate : RouterDecision
escalate = record {
  intent = human_escalation;
  confidence = 900000;
  requires_rag = false;
  requires_tool = true;
  tool = some request_human_escalation;
  arguments = [];
  response_style = neutral;
  needs_clarification = false;
  response = codes "One moment.";
}

abbrev nothing_found : Text → RagResult
nothing_found text = record {
  answer = none;
  answerable = false;
  confidence = 800000;
  verdict = insufficient;
  retrieval_iterations = 3;
  query_history = text ∷ [];
  retrieved_chunks = [];
  conflict_detected = false;
  conflict_resolution = none;
  correction_actions = [];
  citations = [];
  clarification_question = none;
  abstention_reason = none;
  trace = [];
  state_transitions = [];
}

abbrev human : Text
human = codes "please get me a human"

abbrev mothers : Text
mothers = codes "what is my mother's balance"

-- The turn that escalates ends in a success of the tool, and a router that fails in the fallback.
turns :
    ((handle_turn
        (execute context)
        "CUST-1001"
        human
        (decided escalate)
        nothing_found
        tables).0.source
      ≡ Source.tool)
    × ((handle_turn
          (execute context)
          "CUST-1001"
          human
          (raised "Timeout")
          nothing_found
          tables).0.guard_actions
        ≡ "ROUTER_FAILURE:Timeout" ∷ [])
    × (combine (some (codes " yes ")) (codes " no") ≡ codes "yes no")
unfolding handle_turn execute combine looks_like_third_party_private_request
    looks_like_own_identity_question
turns = (refl, refl, refl)

asks_private : looks_like_third_party_private_request mothers ≡ true
unfolding looks_like_third_party_private_request
asks_private = refl

third_party_runs_nothing_example :
    let (o, d') =
      handle_turn (execute context) "CUST-1001" mothers (decided escalate) nothing_found tables in
    (d' ≡ tables) × (o.tool_executed ≡ false)
third_party_runs_nothing_example =
    third_party_runs_nothing (execute context) "CUST-1001" mothers (decided escalate) nothing_found
      tables asks_private

handle_turn-Honest_example :
    Honest tables
      (handle_turn (execute context) "CUST-1001" human (decided escalate) nothing_found tables)
handle_turn-Honest_example =
    handle_turn-Honest (execute context) "CUST-1001" human (decided escalate) nothing_found tables

turn-Refines_example :
    Refines "CUST-1001" human tables
      (handle_turn (execute context) "CUST-1001" human (decided escalate) nothing_found tables).1
turn-Refines_example =
    turn-Refines context "CUST-1001" human (decided escalate) nothing_found tables

abbrev rules : Chunk
rules = record {
  chunk_id = "r1";
  document_id = "rules";
  title = codes "Rules";
  text = codes "A human agent calls back. Ask for it.";
  version = none;
  effective_date = none;
  status = active;
  domain = some "escalation";
}

abbrev store : VectorStore
store = record { chunks = rules ∷ []; index = λ query k. (some 0, some 500000) ∷ [] }

abbrev config : RagConfig
config = record {
  top_k = 5;
  score_threshold = 180000;
  max_retrieval_iterations = 3;
  low_relevance_threshold = 220000;
  sufficient_threshold = 320000;
  strong_relevance_threshold = 420000;
}

abbrev policy : RouterDecision
policy = record escalate {
  intent = policy_question;
  requires_rag = true;
  requires_tool = false;
  tool = none;
}

abbrev reach : Text
reach = codes "let me reach a human now"

-- The answer of the pipeline is the response.
quoted :
    let o =
      (handle_turn
        (execute context)
        "CUST-1001"
        reach
        (decided policy)
        (answer (assembled store config) config)
        tables).0 in
    (o.source ≡ Source.rag) × (o.rag_citations ≡ "rules" ∷ [])
unfolding handle_turn answer analyze evaluate retrieve_from query_can_contain_policy_conflict
    generate prefer_active_policy_versions looks_like_third_party_private_request
    looks_like_own_identity_question
quoted = (refl, refl)

handle_turn-Quotes_example :
    let o =
      (handle_turn
        (execute context)
        "CUST-1001"
        reach
        (decided policy)
        (answer (assembled store config) config)
        tables).0 in
    All (OfStore store) o.rag_citations
    × (is_rag o.source ≡ true
        → (cs : List Candidate) × (length cs ≤ 3)
          × All (Stored store config.score_threshold) cs
          × (o.final_response ≡ rag_text (answer_from cs).0))
handle_turn-Quotes_example =
    handle_turn-Quotes (execute context) "CUST-1001" reach (decided policy) store config tables
      (omega arith) (omega arith)
