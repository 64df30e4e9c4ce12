-- ===== src/Business/Executor/Gate.antt =====
-- business/executor.py: the gate before the protected tools, and the customer that the model names.
use bfsi_voice_agent.Prelude.{
  String, ◌≡◌, refl, sym, ap, ◌∙◌, inl, inr, Bool, true, false, not, some, List, [], ◌∷◌,
  if◌then◌else◌, str_eq, Text, codes, arith, Bool-cases, eq_iff,
}
use bfsi_voice_agent.Business.Repository.{BusinessDatabase, customer_exists}
use bfsi_voice_agent.Business.Verification.{VerificationRegistry, is_current_verified}
use bfsi_voice_agent.Business.Schemas.{ToolExecutionResult, clarify_result, blocked_result}
use bfsi_voice_agent.Integration.RouterSchema.{
  ToolName, get_customer_account, get_outstanding_balance, record_promise_to_pay, schedule_callback,
  record_payment_reported, open_dispute, record_financial_hardship, request_human_escalation,
  get_policy, get_call_history,
}
use bfsi_voice_agent.Business.Executor.{
  tool_name, tool_among, supported_tools, tool_of, is_protected, gated, execute_tool, execute,
}
use bfsi_voice_agent.Business.Executor.Handlers.{Context, Arguments, verified_in}

tool_found : (t : ToolName) → tool_of (tool_name t) ≡ some t
unfolding tool_of tool_name
tool_found get_customer_account = refl
tool_found get_outstanding_balance = refl
tool_found record_promise_to_pay = refl
tool_found schedule_callback = refl
tool_found record_payment_reported = refl
tool_found open_dispute = refl
tool_found record_financial_hardship = refl
tool_found request_human_escalation = refl
tool_found get_policy = refl
tool_found get_call_history = refl

tool_among-name :
    (name : String) (ts : List ToolName) (t : ToolName)
    → tool_among name ts ≡ some t
    → tool_name t ≡ name
tool_among-name name [] t h = cc
tool_among-name name (x ∷ ts) t h = elim (Bool-cases (str_eq (tool_name x) name)) [
  | inl e ↦ let same : x ≡ t = ground (arith, h, e) in rw (← same) ((eq_iff (tool_name x) name).0 e)
  | inr e ↦ tool_among-name name ts t (rw e at h)
]

-- A name selects a tool exactly when it is that tool's name: each of the ten tools is found under
-- its own name, and a name under which a tool is found is this tool's.
pub tool_of-tool_name :
    ((t : ToolName) → tool_of (tool_name t) ≡ some t)
    × ((name : String) (t : ToolName) → tool_of name ≡ some t → tool_name t ≡ name)
unfolding tool_of
tool_of-tool_name = (tool_found, λ name t h. tool_among-name name supported_tools t h)

gate_closed :
    (ctx : Context) (r : VerificationRegistry) (t : ToolName) (customer : String)
    → ctx.registry ≡ some r
    → is_current_verified ctx.clock ctx.bound customer r ≡ false
    → is_protected t ≡ true
    → gated ctx t customer ≡ true
unfolding gated verified_in
gate_closed ctx r t customer has unverified protected =
    rw (gated, has, verified_in, unverified, protected) refl

-- The answer where the gate is closed, by what is known of the customer.
abbrev refusal : String → Bool → Bool → ToolExecutionResult
refusal name missing known =
    if missing
    then blocked_result name
        (codes "I cannot access account actions without an authenticated customer.")
        "NO_SESSION_CUSTOMER"
    else if not known
    then blocked_result name (codes "The current customer session could not be verified.")
        "CUSTOMER_NOT_FOUND"
    else clarify_result name (codes "Identity verification is required before this account action.")
        "IDENTITY_VERIFICATION_REQUIRED"

execute_tool-closed :
    (ctx : Context) (t : ToolName) (arguments : Arguments) (user_text : Text) (customer : String)
    (db : BusinessDatabase)
    → gated ctx t customer ≡ true
    → execute_tool ctx t arguments user_text customer db
      ≡ (refusal (tool_name t) (str_eq customer "") (customer_exists customer db), db)
unfolding execute_tool
execute_tool-closed ctx t arguments user_text customer db closed =
    elim (Bool-cases (str_eq customer "")) [
      | inl e ↦ rw (execute_tool, e) refl
      | inr e ↦ elim (Bool-cases (customer_exists customer db)) [
        | inl k ↦ rw (execute_tool, e, k, closed) refl
        | inr k ↦ rw (execute_tool, e, k) refl
      ]
    ]

refusal-fails :
    (name : String) (missing known : Bool) → (refusal name missing known).success ≡ false
refusal-fails name true known = refl
refusal-fails name false true = refl
refusal-fails name false false = refl

pub execute-tool_name :
    (ctx : Context) (t : ToolName) (arguments : Arguments) (user_text : Text) (customer : String)
    (db : BusinessDatabase)
    → execute ctx (tool_name t) arguments user_text customer db
      ≡ execute_tool ctx t arguments user_text customer db
unfolding execute
execute-tool_name ctx t arguments user_text customer db = rw (execute, tool_found t) refl

-- An unverified session learns nothing and changes nothing through a protected tool: where there is
-- a registry in which the customer is not verified, the tables stay as they were, the answer is no
-- success, and it is the same for any arguments, any text and any tables in which the customer
-- exists as well or does not exist as well.
pub unverified_learns_nothing :
    (ctx : Context) (r : VerificationRegistry) (t : ToolName) (customer : String)
    (arguments arguments' : Arguments) (user_text user_text' : Text) (db db' : BusinessDatabase)
    → ctx.registry ≡ some r
    → is_current_verified ctx.clock ctx.bound customer r ≡ false
    → is_protected t ≡ true
    → customer_exists customer db ≡ customer_exists customer db'
    → ((execute ctx (tool_name t) arguments user_text customer db).1 ≡ db)
      × ((execute ctx (tool_name t) arguments user_text customer db).0.success ≡ false)
      × ((execute ctx (tool_name t) arguments user_text customer db).0
          ≡ (execute ctx (tool_name t) arguments' user_text' customer db').0)
unverified_learns_nothing ctx r t customer arguments arguments' user_text user_text' db db' has
      unverified protected same =
    let closed = gate_closed ctx r t customer has unverified protected in
    let answer =
      execute-tool_name ctx t arguments user_text customer db
      ∙ execute_tool-closed ctx t arguments user_text customer db closed in
    let answer' =
      execute-tool_name ctx t arguments' user_text' customer db'
      ∙ execute_tool-closed ctx t arguments' user_text' customer db' closed in
    (
      ap (λ o. o.1) answer,
      ap (λ o. o.0.success) answer
          ∙ refusal-fails (tool_name t) (str_eq customer "") (customer_exists customer db),
      ap (λ o. o.0) answer
          ∙ (ap (refusal (tool_name t) (str_eq customer "")) same ∙ sym (ap (λ o. o.0) answer')),
    )
