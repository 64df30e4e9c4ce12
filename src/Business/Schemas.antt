-- ===== src/Business/Schemas.antt =====
-- business/schemas.py: the result of a tool, with the facts that it carries.
use bfsi_voice_agent.Prelude.{ℕ, String, Bool, true, false, Option, none, some, List, [], Text}
use bfsi_voice_agent.Business.Repository.{CallEvent}
use bfsi_voice_agent.Jobs.Types.{JobStatus}

pub data ToolExecutionStatus : Type 0 where
  success needs_clarification blocked error : ToolExecutionStatus

-- A value of `data`: a text, an amount reported, a balance in hundredths, rows of the history.
pub data Datum : Type 0 where
  words : Text → Datum
  absent : Datum
  amount : Option ℕ → Datum
  balance : ℕ → Datum
  history : List CallEvent → Datum
  -- The job id, its status, the key, and whether the job was there before.
  delivery : String → JobStatus → String → Bool → Datum

pub record ToolExecutionResult : Type 0 where
  pub tool : String
  pub status : ToolExecutionStatus
  pub success : Bool
  pub needs_clarification : Bool
  pub user_message : Text
  pub data_ : List (String × Datum)
  pub error_code : Option String

abbrev pub ok_result : String → Text → List (String × Datum) → ToolExecutionResult
ok_result tool message facts = record {
  tool = tool;
  status = ToolExecutionStatus.success;
  success = true;
  needs_clarification = false;
  user_message = message;
  data_ = facts;
  error_code = none;
}

abbrev pub clarify_result : String → Text → String → ToolExecutionResult
clarify_result tool message error_code = record {
  tool = tool;
  status = ToolExecutionStatus.needs_clarification;
  success = false;
  needs_clarification = true;
  user_message = message;
  data_ = [];
  error_code = some error_code;
}

abbrev pub blocked_result : String → Text → String → ToolExecutionResult
blocked_result tool message error_code = record {
  tool = tool;
  status = ToolExecutionStatus.blocked;
  success = false;
  needs_clarification = false;
  user_message = message;
  data_ = [];
  error_code = some error_code;
}

abbrev pub error_result : String → Text → String → ToolExecutionResult
error_result tool message error_code = record {
  tool = tool;
  status = ToolExecutionStatus.error;
  success = false;
  needs_clarification = false;
  user_message = message;
  data_ = [];
  error_code = some error_code;
}
