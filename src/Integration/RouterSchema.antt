-- ===== src/Integration/RouterSchema.antt =====
-- integration/router_schema.py: the router's decision. The confidence is in millionths.
use bfsi_voice_agent.Prelude.{Text, ℕ, String, Bool, Option, List}

pub data Intent : Type 0 where
  payment_reminder promise_to_pay callback_request paid_already partial_payment : Intent
  financial_hardship dispute wrong_number refusal_to_pay human_escalation policy_question : Intent
  account_status identity_verification ambiguous out_of_scope privacy_sensitive : Intent
  prompt_injection : Intent

pub data ToolName : Type 0 where
  get_customer_account get_outstanding_balance record_promise_to_pay schedule_callback : ToolName
  record_payment_reported open_dispute record_financial_hardship request_human_escalation : ToolName
  get_policy get_call_history : ToolName

pub data ResponseStyle : Type 0 where
  supportive neutral apologetic firm concise : ResponseStyle

-- A value of the tool's arguments, as JSON has it. A number has its `str` text, its sign, and its
-- whole part and millionths; a list or an object has whether it is not empty, and its `str` text.
pub data Argument : Type 0 where
  null : Argument
  flag : Bool → Argument
  number : Text → Bool → ℕ → ℕ → Argument
  words : Text → Argument
  listing : Bool → Text → Argument

pub record RouterDecision : Type 0 where
  pub intent : Intent
  pub confidence : ℕ
  pub requires_rag : Bool
  pub requires_tool : Bool
  pub tool : Option ToolName
  pub arguments : List (String × Argument)
  pub response_style : ResponseStyle
  pub needs_clarification : Bool
  pub response : Text
