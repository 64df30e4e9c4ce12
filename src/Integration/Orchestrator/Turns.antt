-- ===== src/Integration/Orchestrator/Turns.antt =====
-- integration/orchestrator.py: whole turns, and turns with the tool executor.
use bfsi_voice_agent.Prelude.{
  String, ◌≡◌, ◌⊎◌, inl, inr, refl, Option, none, some, List, [], Text, arith, is_empty, Bool-cases,
}
use bfsi_voice_agent.Rag.SelfCorrecting.Types.{RagResult}
use bfsi_voice_agent.Business.Schemas.{ToolExecutionResult}
use bfsi_voice_agent.Business.Repository.{BusinessDatabase}
use bfsi_voice_agent.Business.Repository.Writes.{run}
use bfsi_voice_agent.Business.Executor.{execute, tool_name}
use bfsi_voice_agent.Business.Executor.Handlers.{Context}
use bfsi_voice_agent.Business.Executor.Calls.{Refines, execute-Refines}
use bfsi_voice_agent.Integration.RouterSchema.{RouterDecision, Argument, ToolName}
use bfsi_voice_agent.Integration.Guards.{apply_deterministic_guards}
use bfsi_voice_agent.Integration.Orchestrator.{
  unanswered, RagResult, IntegratedResponse, Routed, decided, raised, run_with, tool_to_run,
  run_tool, carry_out, handle_turn, text_or,
}
use bfsi_voice_agent.Integration.Orchestrator.Sources.{
  branches, Answers, Honest, concluded-Honest, after_tool-Honest,
}

module _ {D : Type 0}
    (tools : String → List (String × Argument) → Text → String → D → ToolExecutionResult × D)
    (customer : String) (user_text : Text) where
  -- The state is left, or one tool has run on it once.
  abbrev pub AtMostOne : D → D → Type 0
  AtMostOne d d' =
      (d' ≡ d)
      ⊎ ((t : ToolName) × (arguments : List (String × Argument)) × (d'
            ≡ (tools (tool_name t) arguments user_text customer d).1))

  abbrev Turned : D → IntegratedResponse × D → Type 0
  Turned d o = Honest d o × AtMostOne d o.1

  run_with-Turned :
      (decision : RouterDecision) (actions : List String) (r : Option RagResult) (d : D)
      (t : Option ToolName)
      → Answers r
      → Turned d (run_with tools customer user_text decision actions r d t)
  run_with-Turned decision actions r d none h =
      (concluded-Honest user_text decision actions d d r h, inl refl)
  run_with-Turned decision actions r d (some t) h =
      let done = tools (tool_name t) decision.arguments user_text customer d in
      (
        after_tool-Honest user_text decision actions d done.1 r done.0 h,
        inr (t, decision.arguments, refl),
      )

  run_tool-Turned :
      (decision : RouterDecision) (actions : List String) (r : Option RagResult) (d : D)
      → Answers r
      → Turned d (run_tool tools customer user_text decision actions r d)
  unfolding run_tool
  run_tool-Turned decision actions r d h =
      run_with-Turned decision actions r d (tool_to_run decision.requires_tool decision.tool) h

  unanswered_source :
      (r : RagResult) (decision : RouterDecision) (actions : List String) (d : D)
      → Honest d (unanswered user_text decision actions r, d)
  unanswered_source r decision actions d =
      elim (Bool-cases (is_empty (text_or r.clarification_question []))) [
        | inl e ↦ rw e (refl, λ h. cc, λ h. cc, λ h. refl, λ h. refl)
        | inr e ↦ rw e (refl, λ h. cc, λ h. cc, λ h. refl, λ h. refl)
      ]

  carry_out-Turned :
      (ask : Text → RagResult) (decision : RouterDecision) (actions : List String) (d : D)
      → Turned d (carry_out tools customer user_text ask decision actions d)
  unfolding carry_out
  carry_out-Turned ask decision actions d =
      let r = ask user_text in
      branches (Turned d) decision.needs_clarification decision.requires_rag r.answerable
        ((refl, λ h. cc, λ h. cc, λ h. refl, λ h. refl), inl refl)
        (run_tool-Turned decision actions none d tt)
        (λ e. (unanswered_source r decision actions d, inl refl))
        (λ e. run_tool-Turned decision actions (some r) d e)

  turn-Turned :
      (routed : Routed) (ask : Text → RagResult) (d : D)
      → Turned d (handle_turn tools customer user_text routed ask d)
  unfolding handle_turn
  turn-Turned (raised name) ask d = ((refl, λ h. cc, λ h. cc, λ h. refl, λ h. refl), inl refl)
  turn-Turned (decided raw) ask d =
      let (decision, actions) = apply_deterministic_guards user_text raw in
      carry_out-Turned ask decision actions d

  -- A response says what was done: a tool is reported exactly if the source is one of the tool's; a
  -- source of success means the tool answered with a success, and a source of the retrieval that it
  -- was answerable; after a retrieval that is not answerable no tool is run; and where no tool is
  -- reported the state of the tools is as it was.
  pub handle_turn-Honest :
      (routed : Routed) (ask : Text → RagResult) (d : D)
      → Honest d (handle_turn tools customer user_text routed ask d)
  handle_turn-Honest routed ask d = (turn-Turned routed ask d).0

  pub handle_turn-AtMostOne :
      (routed : Routed) (ask : Text → RagResult) (d : D)
      → AtMostOne d (handle_turn tools customer user_text routed ask d).1
  handle_turn-AtMostOne routed ask d = (turn-Turned routed ask d).1

-- A whole turn with the tool executor does at most two writes, and no other than it may: whatever the
-- router decides and the retrieval answers, the business tables are left by a run of writes on the
-- customer of the session and this customer's accounts, a promise only for a date that the caller
-- said.
pub turn-Refines :
    (ctx : Context) (customer : String) (user_text : Text) (routed : Routed)
    (ask : Text → RagResult) (db : BusinessDatabase)
    → Refines customer user_text db (handle_turn (execute ctx) customer user_text routed ask db).1
unfolding run
turn-Refines ctx customer user_text routed ask db =
    elim (handle_turn-AtMostOne (execute ctx) customer user_text routed ask db) [
      | inl same ↦ rw same ([], refl, tt, omega arith, omega arith)
      | inr (t, arguments, same) ↦
          rw same (execute-Refines ctx (tool_name t) arguments user_text customer db)
    ]
