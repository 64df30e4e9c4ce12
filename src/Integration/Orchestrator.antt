-- ===== src/Integration/Orchestrator.antt =====
-- integration/orchestrator.py: BFSIOrchestrator. The router, the retrieval and the executor of tools
-- are arguments: the router ends in a decision or in an exception of a name.
pub mod Sources
pub mod Turns
pub mod Quoted
mod Tests
use Prim.Native.String.{◌++◌ as str_append}
use bfsi_voice_agent.Prelude.{
  map, ℕ, String, Bool, true, false, not, ◌&&◌, ◌||◌, Option, none, some, List, [], ◌∷◌, ◌++◌,
  if◌then◌else◌, any, str_eq, Text, codes, strip, is_empty,
}
use bfsi_voice_agent.Rag.SelfCorrecting.Types.{Citation, RagResult}
use bfsi_voice_agent.Rag.StateMachine.{EvidenceVerdict}
use bfsi_voice_agent.Business.Schemas.{ToolExecutionStatus, ToolExecutionResult, Datum}
use bfsi_voice_agent.Business.Executor.{tool_name}
use bfsi_voice_agent.Integration.RouterSchema.{
  RouterDecision, Argument, ToolName, human_escalation, apologetic,
}
use bfsi_voice_agent.Integration.Guards.{apply_deterministic_guards}

pub data Source : Type 0 where
  router rag clarification safe_fallback tool rag_and_tool tool_clarification tool_error : Source

pub record IntegratedResponse : Type 0 where
  pub user_text : Text
  pub router : RouterDecision
  pub final_response : Text
  pub source : Source
  pub rag_used : Bool
  pub rag_answerable : Option Bool
  pub rag_verdict : Option EvidenceVerdict
  pub rag_citations : List String
  pub tool_executed : Bool
  pub tool_success : Option Bool
  pub tool_name : Option ToolName
  pub tool_arguments : List (String × Argument)
  pub tool_status : Option ToolExecutionStatus
  pub tool_result : List (String × Datum)
  pub tool_error_code : Option String
  pub guard_actions : List String

-- A response with the defaults of its fields.
abbrev pub plain : Text → RouterDecision → Text → Source → List String → IntegratedResponse
plain user_text decision final source actions = record {
  user_text = user_text;
  router = decision;
  final_response = final;
  source = source;
  rag_used = false;
  rag_answerable = none;
  rag_verdict = none;
  rag_citations = [];
  tool_executed = false;
  tool_success = none;
  tool_name = none;
  tool_arguments = [];
  tool_status = none;
  tool_result = [];
  tool_error_code = none;
  guard_actions = actions;
}

pub data Routed : Type 0 where
  decided : RouterDecision → Routed
  raised : String → Routed

-- `_citations`: each document once, in order.
unfoldable pub citations_from : List String → List String → List String
citations_from seen [] = seen
citations_from seen (c ∷ cs) =
    if str_eq c "" || any (λ s. str_eq s c) seen
    then citations_from seen cs
    else citations_from (seen ++ (c ∷ [])) cs

abbrev pub citations_of : RagResult → List String
citations_of r = citations_from [] (map Citation.document_id r.citations)

-- `text or default`
abbrev pub or_default : Text → Text → Text
or_default text default = if is_empty text then default else text

abbrev pub text_or : Option Text → Text → Text
text_or none default = default
text_or (some t) default = or_default t default

-- `_combine`
unfoldable pub combine : Option Text → Text → Text
unfolding strip
combine none second = strip second
combine (some t) second =
    let a = strip t in
    let b = strip second in if is_empty a then b else if is_empty b then a else a ++ (32 ∷ b)

-- `_response`: the fields of the retrieval, and those of the tool.
abbrev pub with_rag : Option RagResult → IntegratedResponse → IntegratedResponse
with_rag none o = o
with_rag (some r) o = record o {
  rag_used = true;
  rag_answerable = some r.answerable;
  rag_verdict = some r.verdict;
  rag_citations = citations_of r;
}

abbrev pub with_tool : Option ToolExecutionResult → IntegratedResponse → IntegratedResponse
with_tool none o = o
with_tool (some r) o = record o {
  tool_executed = true;
  tool_success = some r.success;
  tool_name = o.router.tool;
  tool_arguments = o.router.arguments;
  tool_status = some r.status;
  tool_result = r.data_;
  tool_error_code = r.error_code;
}

unfoldable pub build_response :
    Text
    → RouterDecision
    → Text
    → Source
    → Option RagResult
    → Option ToolExecutionResult
    → List String
    → IntegratedResponse
unfolding citations_from
build_response user_text decision final source r t actions =
    with_tool t (with_rag r (plain user_text decision final source actions))

abbrev pub fallback_text : Text
fallback_text = codes "I couldn't safely process that request."

-- `_fallback_router`
abbrev pub fallback_router : RouterDecision
fallback_router = record {
  intent = human_escalation;
  confidence = 0;
  requires_rag = false;
  requires_tool = false;
  tool = none;
  arguments = [];
  response_style = apologetic;
  needs_clarification = false;
  response = fallback_text;
}

-- The response of a decision that needs no retrieval and no tool.
abbrev pub router_only : Text → RouterDecision → List String → IntegratedResponse
router_only user_text decision actions =
    plain user_text decision
      (or_default (strip decision.response) (codes "I couldn't determine a safe response."))
      Source.router actions

-- Steps 6 to 9: the retrieval is answerable, and the tool was a success.
abbrev pub concluded :
    Text
    → RouterDecision
    → List String
    → Option RagResult
    → Option ToolExecutionResult
    → IntegratedResponse
concluded user_text decision actions none none = router_only user_text decision actions
concluded user_text decision actions (some r) none =
    build_response user_text decision
      (text_or r.answer (codes "I found relevant policy information.")) Source.rag (some r) none
      actions
concluded user_text decision actions none (some t) =
    build_response user_text decision t.user_message Source.tool none (some t) actions
concluded user_text decision actions (some r) (some t) =
    build_response user_text decision (combine r.answer t.user_message) Source.rag_and_tool (some r)
      (some t) actions

abbrev pub answer_of : Option RagResult → Option Text
answer_of none = none
answer_of (some r) = r.answer

-- Step 5, after the tool.
unfoldable pub after_tool :
    Text
    → RouterDecision
    → List String
    → Option RagResult
    → ToolExecutionResult
    → IntegratedResponse
unfolding build_response combine strip
after_tool user_text decision actions r t =
    let final = combine (answer_of r) t.user_message in
    if t.needs_clarification
    then build_response user_text decision final Source.tool_clarification r (some t) actions
    else if not t.success
    then build_response user_text decision final Source.tool_error r (some t) actions
    else concluded user_text decision actions r (some t)

-- Step 4, where the retrieval does not answer.
abbrev pub unanswered : Text → RouterDecision → List String → RagResult → IntegratedResponse
unanswered user_text decision actions r =
    let asked = text_or r.clarification_question [] in
    let final =
      or_default asked
        (codes "I don't have enough verified policy information to answer that safely.") in
    let source = if is_empty asked then Source.safe_fallback else Source.clarification in
    record (plain user_text decision final source actions) {
      rag_used = true;
      rag_answerable = some false;
      rag_verdict = some r.verdict;
    }

abbrev pub router_failure : Text → String → IntegratedResponse
router_failure user_text name =
    plain user_text fallback_router fallback_text Source.safe_fallback
      (str_append "ROUTER_FAILURE:" name ∷ [])

-- `decision.requires_tool and decision.tool`
abbrev pub tool_to_run : Bool → Option ToolName → Option ToolName
tool_to_run true t = t
tool_to_run false t = none

module _ {D : Type 0}
    (tools : String → List (String × Argument) → Text → String → D → ToolExecutionResult × D)
    (customer : String) (user_text : Text) where
  abbrev pub run_with :
      RouterDecision → List String → Option RagResult → D → Option ToolName → IntegratedResponse × D
  run_with decision actions r d none = (concluded user_text decision actions r none, d)
  run_with decision actions r d (some t) =
      let (result, d') = tools (tool_name t) decision.arguments user_text customer d in
      (after_tool user_text decision actions r result, d')

  -- Step 5: the tool of the decision, if it requires one.
  unfoldable pub run_tool :
      RouterDecision → List String → Option RagResult → D → IntegratedResponse × D
  unfolding after_tool tool_name build_response
  run_tool decision actions r d =
      run_with decision actions r d (tool_to_run decision.requires_tool decision.tool)

  -- Steps 3 to 9, for a decision that the guards have corrected.
  unfoldable pub carry_out :
      (Text → RagResult) → RouterDecision → List String → D → IntegratedResponse × D
  unfolding run_tool strip
  carry_out ask decision actions d =
      let r = ask user_text in
      if decision.needs_clarification
      then (
        plain user_text decision
            (or_default (strip decision.response)
              (codes "Could you clarify what you need help with?"))
            Source.clarification actions,
        d,
      )
      else if not decision.requires_rag
      then run_tool decision actions none d
      else if not r.answerable
      then (unanswered user_text decision actions r, d)
      else run_tool decision actions (some r) d

  -- `handle`
  unfoldable pub handle_turn : Routed → (Text → RagResult) → D → IntegratedResponse × D
  unfolding apply_deterministic_guards carry_out
  handle_turn (raised name) ask d = (router_failure user_text name, d)
  handle_turn (decided raw) ask d =
      let (decision, actions) = apply_deterministic_guards user_text raw in
      carry_out ask decision actions d
