-- ===== src/Business/Executor.antt =====
-- business/executor.py: BusinessToolExecutor. The call is made in a context that holds the clocks,
-- the fresh ids and the verification registry.
pub mod Dates
pub mod Arguments
pub mod Handlers
pub mod Recorded
pub mod Gate
pub mod Accounts
pub mod Effects
pub mod Lawful
pub mod Calls
pub mod Answers
mod Tests
use bfsi_voice_agent.Prelude.{
  [], List, String, Bool, true, false, not, ◌&&◌, Option, none, some, ◌∷◌, if◌then◌else◌, str_eq,
  Text, codes,
}
use bfsi_voice_agent.Business.Repository.{Account, BusinessDatabase, customer_exists}
use bfsi_voice_agent.Business.Schemas.{
  ToolExecutionResult, clarify_result, blocked_result, error_result,
}
use bfsi_voice_agent.Integration.RouterSchema.{
  ToolName, get_customer_account, get_outstanding_balance, record_promise_to_pay, schedule_callback,
  record_payment_reported, open_dispute, record_financial_hardship, request_human_escalation,
  get_policy, get_call_history,
}
use Arguments.{pop}
use Handlers.{
  Context, Attempt, Outcome, returns, raises, resolve_account, on_account, verified_in,
  call_history, get_customer_account as account_tool, get_outstanding_balance as balance_tool,
  get_policy as policy_tool, Arguments as ToolArguments,
}
use Recorded.{
  payment_reported, dispute_opened, hardship_recorded, escalation_requested, promise_to_pay,
  callback,
}

-- The tool's name, which is its value in the enumeration.
unfoldable pub tool_name : ToolName → String
tool_name get_customer_account = "get_customer_account"
tool_name get_outstanding_balance = "get_outstanding_balance"
tool_name record_promise_to_pay = "record_promise_to_pay"
tool_name schedule_callback = "schedule_callback"
tool_name record_payment_reported = "record_payment_reported"
tool_name open_dispute = "open_dispute"
tool_name record_financial_hardship = "record_financial_hardship"
tool_name request_human_escalation = "request_human_escalation"
tool_name get_policy = "get_policy"
tool_name get_call_history = "get_call_history"

abbrev pub supported_tools : List ToolName
supported_tools =
    get_customer_account ∷ get_outstanding_balance ∷ record_promise_to_pay ∷ schedule_callback
    ∷ record_payment_reported ∷ open_dispute ∷ record_financial_hardship ∷ request_human_escalation
    ∷ get_call_history ∷ get_policy ∷ []

abbrev pub tool_among : String → List ToolName → Option ToolName
tool_among name [] = none
tool_among name (t ∷ ts) = if str_eq (tool_name t) name then some t else tool_among name ts

-- A name in SUPPORTED_TOOLS, as the key of the table of handlers.
unfoldable pub tool_of : String → Option ToolName
tool_of name = tool_among name supported_tools

-- VERIFICATION_PROTECTED_TOOLS
unfoldable pub is_protected : ToolName → Bool
is_protected request_human_escalation = false
is_protected get_policy = false
is_protected _ = true

-- The account of a tool in ACCOUNT_TOOLS, and what is done with it.
abbrev pub with_account :
    Context → ToolName → ToolArguments → String → (Account → Attempt) → BusinessDatabase → Attempt
with_account ctx tool arguments customer handler db =
    on_account ctx (resolve_account customer arguments (tool_name tool) db) handler db

unfoldable pub handle :
    Context → ToolName → ToolArguments → Text → String → BusinessDatabase → Attempt
unfolding account_tool balance_tool resolve_account tool_name payment_reported dispute_opened
    hardship_recorded escalation_requested promise_to_pay callback call_history
handle ctx get_customer_account arguments user_text customer db =
    account_tool ctx arguments customer db
handle ctx get_outstanding_balance arguments user_text customer db =
    balance_tool ctx arguments customer db
handle ctx record_promise_to_pay arguments user_text customer db =
    with_account ctx record_promise_to_pay arguments customer
      (λ a. promise_to_pay ctx arguments user_text customer a db) db
handle ctx schedule_callback arguments user_text customer db = callback ctx arguments customer db
handle ctx record_payment_reported arguments user_text customer db =
    with_account ctx record_payment_reported arguments customer
      (λ a. payment_reported ctx arguments customer a db) db
handle ctx open_dispute arguments user_text customer db =
    with_account ctx open_dispute arguments customer
      (λ a. dispute_opened ctx arguments customer a db) db
handle ctx record_financial_hardship arguments user_text customer db =
    with_account ctx record_financial_hardship arguments customer
      (λ a. hardship_recorded ctx arguments customer a db) db
handle ctx request_human_escalation arguments user_text customer db =
    escalation_requested ctx arguments customer db
handle ctx get_call_history arguments user_text customer db = call_history ctx arguments customer db
handle ctx get_policy arguments user_text customer db = policy_tool db

-- The `try`: the result, or one with the name of the exception's class.
abbrev pub settled : String → Attempt → ToolExecutionResult × BusinessDatabase
settled tool (returns r, db) = (r, db)
settled tool (raises e, db) =
    (error_result tool (codes "The requested account action could not be completed safely.") e, db)

-- Whether the gate of the registry stops the tool.
unfoldable pub gated : Context → ToolName → String → Bool
unfolding verified_in is_protected
gated ctx tool customer = elim ctx.registry [
  | none ↦ false
  | some r ↦ is_protected tool && not (verified_in ctx customer (some r))
]

-- `execute`, for a supported tool.
unfoldable pub execute_tool :
    Context
    → ToolName
    → ToolArguments
    → Text
    → String
    → BusinessDatabase
    → ToolExecutionResult × BusinessDatabase
unfolding customer_exists gated handle tool_name pop
execute_tool ctx tool arguments user_text customer db =
    let name = tool_name tool in
    let handled =
      settled name (handle ctx tool (pop "customer_id" arguments) user_text customer db) in
    if str_eq customer ""
    then (
      blocked_result name
          (codes "I cannot access account actions without an authenticated customer.")
          "NO_SESSION_CUSTOMER",
      db,
    )
    else if not (customer_exists customer db)
    then (
      blocked_result name (codes "The current customer session could not be verified.")
          "CUSTOMER_NOT_FOUND",
      db,
    )
    else if gated ctx tool customer
    then (
      clarify_result name (codes "Identity verification is required before this account action.")
          "IDENTITY_VERIFICATION_REQUIRED",
      db,
    )
    else handled

unfoldable pub execute :
    Context
    → String
    → ToolArguments
    → Text
    → String
    → BusinessDatabase
    → ToolExecutionResult × BusinessDatabase
unfolding tool_of execute_tool
execute ctx tool arguments user_text customer db = elim (tool_of tool) [
  | none ↦
      (error_result tool (codes "That business action is not available.") "UNSUPPORTED_TOOL", db)
  | some t ↦ execute_tool ctx t arguments user_text customer db
]
