-- ===== src/Business/Durable.antt =====
-- business/durable_executor.py: DurableWriteExecutor, around any executor. The canonical JSON of the
-- arguments, the first 24 digits of SHA-256, and the JSON of the arguments and of the data are
-- parameters.
pub mod Delivered
mod Tests
use Prim.Native.String.{◌++◌ as str_append}
use bfsi_voice_agent.Prelude.{
  ℕ, String, Bool, true, false, not, ◌||◌, none, List, [], ◌∷◌, if◌then◌else◌, any, str_eq, Text,
}
use bfsi_voice_agent.Jobs.Types.{Fields, field, end, str, dict, Job, JobStore, Result, ok, err}
use bfsi_voice_agent.Jobs.Store.{submit}
use bfsi_voice_agent.Business.Schemas.{ToolExecutionResult, Datum, delivery}
use bfsi_voice_agent.Business.Executor.Handlers.{Arguments}

abbrev pub write_tools : List String
write_tools =
    "record_promise_to_pay" ∷ "schedule_callback" ∷ "record_payment_reported" ∷ "open_dispute"
    ∷ "record_financial_hardship" ∷ "request_human_escalation" ∷ []

unfoldable pub is_write_tool : String → Bool
is_write_tool tool = any (λ name. str_eq name tool) write_tools

-- `hashlib.sha256` and `json.dumps`
pub record Encoding : Type 0 where
  pub digest : String → String
  pub canonical : Arguments → String
  pub arguments_json : Arguments → Fields
  pub data_json : List (String × Datum) → Fields

abbrev pub joined : List String → String
joined [] = ""
joined (s ∷ rest) = str_append s (joined rest)

unfoldable pub idempotency_key_for : Encoding → String → String → String → Arguments → String
idempotency_key_for encoding scope customer tool arguments =
    let text =
      joined (scope ∷ "|" ∷ customer ∷ "|" ∷ tool ∷ "|" ∷ encoding.canonical arguments ∷ []) in
    joined ("bw-" ∷ tool ∷ "-" ∷ encoding.digest text ∷ [])

abbrev pub payload_of :
    Encoding → String → String → String → Arguments → ToolExecutionResult → Fields
payload_of encoding scope customer tool arguments r = field "tool" (str tool) (
    field "arguments" (dict (encoding.arguments_json arguments)) (
      field "customer_id" (str customer)
        (field "scope" (str scope) (field "local_record" (dict (encoding.data_json r.data_)) end))))

-- `data[name] = value`
unfoldable pub put_datum : String → Datum → List (String × Datum) → List (String × Datum)
put_datum name value [] = (name, value) ∷ []
put_datum name value ((k, v) ∷ rest) =
    if str_eq k name then (k, value) ∷ rest else (k, v) ∷ put_datum name value rest

-- The result with its delivery; an exception of the store goes through.
unfoldable pub with_delivery :
    String → ToolExecutionResult → Result (Job × Bool) → Result ToolExecutionResult
unfolding put_datum
with_delivery key r (err e) = err e
with_delivery key r (ok (job, created)) =
    let entry = delivery job.row.job_id job.row.status key (not created) in
    ok (record r { data_ = put_datum "delivery" entry r.data_ })

module _ {D : Type 0} (inner : String → Arguments → Text → String → D → ToolExecutionResult × D)
    (encoding : Encoding) (scope : String) where
  -- `execute`, where the store's clock shows `now` and a new job would have the id `job_id`.
  unfoldable pub execute_durably :
      ℕ
      → String
      → String
      → Arguments
      → Text
      → String
      → D
      → JobStore
      → Result ToolExecutionResult × D × JobStore
  unfolding is_write_tool idempotency_key_for submit with_delivery
  execute_durably now job_id tool arguments user_text customer d s =
      let (r, d') = inner tool arguments user_text customer d in
      let key = idempotency_key_for encoding scope customer tool arguments in
      let (answer, s') =
        submit now job_id key "business_write" (payload_of encoding scope customer tool arguments r)
          none s in
      if not (is_write_tool tool) || not r.success
      then (ok r, d', s)
      else (with_delivery key r answer, d', s')
