-- ===== src/Integration/Orchestrator/Sources.antt =====
-- integration/orchestrator.py: what a response's source says, and when a tool runs.
use bfsi_voice_agent.Prelude.{
  String, ◌≡◌, refl, sym, ap, subst, Bool, true, false, not, Option, none, some, List,
  if◌then◌else◌, Text, arith,
}
use bfsi_voice_agent.Rag.SelfCorrecting.Types.{RagResult}
use bfsi_voice_agent.Business.Schemas.{ToolExecutionResult}
use bfsi_voice_agent.Integration.RouterSchema.{RouterDecision, Argument}
use bfsi_voice_agent.Integration.Guards.{apply_deterministic_guards}
use bfsi_voice_agent.Integration.Guards.Patterns.{looks_like_third_party_private_request}
use bfsi_voice_agent.Integration.Guards.Safety.{third_party-Toolless}
use bfsi_voice_agent.Integration.Orchestrator.{
  Source, IntegratedResponse, Routed, decided, raised, build_response, concluded, after_tool,
  run_tool, run_with, tool_to_run, carry_out, handle_turn,
}

-- The four ends of a turn: the clarification, no retrieval, one that does not answer, and one that does.
pub branches :
    {X : Type 0} (P : X → Type 0) (asks retrieves answers : Bool) {w x y z : X}
    → P w
    → P x
    → (answers ≡ false → P y)
    → (answers ≡ true → P z)
    → P (if asks then w else if not retrieves then x else if not answers then y else z)
branches P true b c hw hx hy hz = hw
branches P false false c hw hx hy hz = hx
branches P false true false hw hx hy hz = hy refl
branches P false true true hw hx hy hz = hz refl

module _ {D : Type 0}
    (tools : String → List (String × Argument) → Text → String → D → ToolExecutionResult × D)
    (customer : String) (user_text : Text) where
  -- What a response without a tool has left.
  abbrev Untouched : D → IntegratedResponse × D → Type 0
  Untouched d (o, d') = (d' ≡ d) × (o.tool_executed ≡ false)

  run_with-Untouched :
      (decision : RouterDecision) (actions : List String) (r : Option RagResult) (d : D)
      → Untouched d (run_with tools customer user_text decision actions r d none)
  unfolding build_response
  run_with-Untouched decision actions none d = (refl, refl)
  run_with-Untouched decision actions (some r) d = (refl, refl)

  run_tool-Untouched :
      (decision : RouterDecision) (actions : List String) (r : Option RagResult) (d : D)
      → tool_to_run decision.requires_tool decision.tool ≡ none
      → Untouched d (run_tool tools customer user_text decision actions r d)
  unfolding run_tool
  run_tool-Untouched decision actions r d h =
      subst (λ t. Untouched d (run_with tools customer user_text decision actions r d t)) (sym h)
        (run_with-Untouched decision actions r d)

  -- Nothing runs for a decision without a tool.
  carry_out-Untouched :
      (ask : Text → RagResult) (decision : RouterDecision) (actions : List String) (d : D)
      → tool_to_run decision.requires_tool decision.tool ≡ none
      → Untouched d (carry_out tools customer user_text ask decision actions d)
  unfolding carry_out
  carry_out-Untouched ask decision actions d h =
      let r = ask user_text in
      branches (Untouched d) decision.needs_clarification decision.requires_rag r.answerable
        (refl, refl) (run_tool-Untouched decision actions none d h) (λ e. (refl, refl))
        (λ e. run_tool-Untouched decision actions (some r) d h)

  -- A turn that asks for private facts of a third party runs no tool: whatever the router decides or
  -- how it fails, whatever the retrieval answers and whatever the tools would do, the state of the
  -- tools is left as it was and the response reports no tool.
  pub third_party_runs_nothing :
      (routed : Routed) (ask : Text → RagResult) (d : D)
      → looks_like_third_party_private_request user_text ≡ true
      → let (o, d') = handle_turn tools customer user_text routed ask d in
        (d' ≡ d) × (o.tool_executed ≡ false)
  unfolding handle_turn
  third_party_runs_nothing (raised name) ask d h = (refl, refl)
  third_party_runs_nothing (decided raw) ask d h =
      let (private_, (requires, none_, no_arguments)) = third_party-Toolless user_text raw h in
      let (decision, actions) = apply_deterministic_guards user_text raw in
      carry_out-Untouched ask decision actions d (ap (λ b. tool_to_run b decision.tool) requires)

abbrev pub says_tool : Source → Bool
says_tool Source.tool = true
says_tool Source.rag_and_tool = true
says_tool Source.tool_clarification = true
says_tool Source.tool_error = true
says_tool _ = false

abbrev pub says_success : Source → Bool
says_success Source.tool = true
says_success Source.rag_and_tool = true
says_success _ = false

abbrev pub says_rag : Source → Bool
says_rag Source.rag = true
says_rag Source.rag_and_tool = true
says_rag _ = false

-- The response agrees with its source, and with what was done to the tables.
abbrev pub Honest : {D : Type 0} → D → IntegratedResponse × D → Type 0
Honest d (o, d') =
    (o.tool_executed ≡ says_tool o.source)
    × (says_success o.source ≡ true → o.tool_success ≡ some true)
    × (says_rag o.source ≡ true → o.rag_answerable ≡ some true)
    × (o.rag_answerable ≡ some false → o.tool_executed ≡ false)
    × (o.tool_executed ≡ false → d' ≡ d)

abbrev pub Answers : Option RagResult → Type 0
Answers none = Unit
Answers (some r) = r.answerable ≡ true

not_unanswered : {A : Type 0} (b : Bool) → b ≡ true → some b ≡ some false → A
not_unanswered true h e = absurd (ground (arith, e))
not_unanswered false h e = absurd (ground (arith, h))

-- The three ends of a tool: a clarification, an error and a success.
ends :
    {X : Type 0} (P : X → Type 0) (asks succeeds : Bool) {w x y : X}
    → P w
    → (succeeds ≡ false → P x)
    → (succeeds ≡ true → P y)
    → P (if asks then w else if not succeeds then x else y)
ends P true b hw hx hy = hw
ends P false false hw hx hy = hx refl
ends P false true hw hx hy = hy refl

module _ {D : Type 0} (user_text : Text) (decision : RouterDecision) (actions : List String)
    (d d' : D) where
  pub concluded-Honest :
      (r : Option RagResult) → Answers r → Honest d (concluded user_text decision actions r none, d)
  unfolding build_response
  concluded-Honest none h = (refl, λ e. cc, λ e. cc, λ e. refl, λ e. refl)
  concluded-Honest (some r) h = (refl, λ e. cc, λ e. ap some h, λ e. refl, λ e. refl)

  pub after_tool-Honest :
      (r : Option RagResult) (t : ToolExecutionResult)
      → Answers r
      → Honest d (after_tool user_text decision actions r t, d')
  unfolding after_tool build_response
  after_tool-Honest none t h =
      ends (λ o. Honest d (o, d')) t.needs_clarification t.success
        (refl, λ e. cc, λ e. cc, λ e. absurd (ground (arith, e)), λ e. cc)
        (λ s. (refl, λ e. cc, λ e. cc, λ e. absurd (ground (arith, e)), λ e. cc))
        (λ s. (refl, λ e. ap some s, λ e. cc, λ e. absurd (ground (arith, e)), λ e. cc))
  after_tool-Honest (some r) t h =
      ends (λ o. Honest d (o, d')) t.needs_clarification t.success
        (refl, λ e. cc, λ e. cc, λ e. not_unanswered r.answerable h e, λ e. cc)
        (λ s. (refl, λ e. cc, λ e. cc, λ e. not_unanswered r.answerable h e, λ e. cc))
        (λ s. (refl, λ e. ap some s, λ e. ap some h, λ e. not_unanswered r.answerable h e, λ e. cc))
