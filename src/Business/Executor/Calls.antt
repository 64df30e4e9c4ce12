-- ===== src/Business/Executor/Calls.antt =====
-- business/executor.py: a call as a run of writes.
use bfsi_voice_agent.Prelude.{
  ◌+◌, ◌≤◌, String, ◌≡◌, inl, inr, refl, ap, ◌∙◌, Bool, true, false, List, [], ◌∷◌, All, length,
  Text, codes, arith, Bool-cases, Option-cases, str_eq,
}
use bfsi_voice_agent.Business.Repository.{Account, BusinessDatabase, customer_exists}
use bfsi_voice_agent.Business.Repository.Writes.{
  write_payment, write_promise, write_callback, write_dispute, write_hardship, write_escalation,
  write_event, Write, run,
}
use bfsi_voice_agent.Business.Repository.Totals.{rows}
use bfsi_voice_agent.Business.Repository.Integrity.{Integral, run-Integral}
use bfsi_voice_agent.Business.Repository.Growth.{Extends, run-Extends}
use bfsi_voice_agent.Business.Schemas.{ToolExecutionResult, clarify_result, blocked_result}
use bfsi_voice_agent.Integration.RouterSchema.{
  ToolName, get_customer_account, get_outstanding_balance, record_promise_to_pay, schedule_callback,
  record_payment_reported, open_dispute, record_financial_hardship, request_human_escalation,
  get_policy, get_call_history,
}
use bfsi_voice_agent.Business.Executor.{
  on_account, tool_name, tool_of, handle, gated, settled, execute_tool, execute,
}
use bfsi_voice_agent.Business.Executor.Arguments.{pop}
use bfsi_voice_agent.Business.Executor.Handlers.{
  Context, Attempt, returns, raises, reads, writes_event, Arguments, resolve_account, call_history,
  balance_answer, get_outstanding_balance as balance_tool,
}
use bfsi_voice_agent.Business.Executor.Recorded.{
  payment_reported, dispute_opened, hardship_recorded, promise_to_pay,
}
use bfsi_voice_agent.Business.Executor.Accounts.{Owned, resolve_account-Sound}
use bfsi_voice_agent.Business.Executor.Effects.{
  Allowed, Lawful, OwnRow, OwnEvent, class_raised, on_account-Lawful,
}
use bfsi_voice_agent.Business.Executor.Lawful.{
  payment-Lawful, dispute-Lawful, hardship-Lawful, escalation-Lawful, promise-Lawful,
  callback-Lawful, account-Lawful,
}

-- The tools that record something.
abbrev pub records : ToolName → Bool
records get_customer_account = false
records get_outstanding_balance = false
records get_call_history = false
records get_policy = false
records _ = true

module _ (ctx : Context) (user_text : Text) (customer : String) (db : BusinessDatabase) where
  -- An attempt of a tool keeps to its own row and its own call event.
  abbrev pub Keeps : ToolName → Bool → Attempt → Type 0
  Keeps t flag o =
      Lawful (OwnRow customer user_text db t) (OwnEvent customer t)
        (class_raised (ctx.storage_error writes_event)) flag db o

  own-Lawful :
      (t : ToolName) (flag : Bool) (tool : String) (arguments : Arguments)
      (handler : Account → Attempt)
      → ((a : Account) → Owned customer db a → Keeps t flag (handler a))
      → Keeps t flag (on_account ctx (resolve_account customer arguments tool db) handler db)
  own-Lawful t flag tool arguments handler lawful =
      on_account-Lawful (OwnRow customer user_text db t) (OwnEvent customer t)
        (class_raised (ctx.storage_error writes_event)) flag ctx customer db
        (resolve_account customer arguments tool db) handler
        (resolve_account-Sound customer arguments tool db) lawful

  handle-Lawful :
      (t : ToolName) (arguments : Arguments)
      → Keeps t (records t) (handle ctx t arguments user_text customer db)
  unfolding handle balance_tool call_history tool_name
  handle-Lawful get_customer_account arguments = account-Lawful ctx user_text customer db arguments
  handle-Lawful get_outstanding_balance arguments =
      own-Lawful get_outstanding_balance false "get_outstanding_balance" arguments
        (λ a. (returns (balance_answer a), db))
        (λ a own. inl (refl, λ h. absurd (ground (arith, h))))
  handle-Lawful record_promise_to_pay arguments =
      own-Lawful record_promise_to_pay true "record_promise_to_pay" arguments
        (λ a. promise_to_pay ctx arguments user_text customer a db)
        (promise-Lawful ctx user_text customer db arguments)
  handle-Lawful schedule_callback arguments = callback-Lawful ctx user_text customer db arguments
  handle-Lawful record_payment_reported arguments =
      own-Lawful record_payment_reported true "record_payment_reported" arguments
        (λ a. payment_reported ctx arguments customer a db)
        (payment-Lawful ctx user_text customer db arguments)
  handle-Lawful open_dispute arguments =
      own-Lawful open_dispute true "open_dispute" arguments
        (λ a. dispute_opened ctx arguments customer a db)
        (dispute-Lawful ctx user_text customer db arguments)
  handle-Lawful record_financial_hardship arguments =
      own-Lawful record_financial_hardship true "record_financial_hardship" arguments
        (λ a. hardship_recorded ctx arguments customer a db)
        (hardship-Lawful ctx user_text customer db arguments)
  handle-Lawful request_human_escalation arguments =
      escalation-Lawful ctx user_text customer db arguments
  handle-Lawful get_call_history arguments = elim (Option-cases (ctx.storage_error reads)) [
    | inl n ↦ rw n (inl (refl, λ h. absurd (ground (arith, h))))
    | inr (x, e) ↦ rw e (inl (refl, λ h. refl))
  ]
  handle-Lawful get_policy arguments = inl (refl, λ h. refl)

  -- A call is the settlement of an attempt that keeps the rules.
  abbrev pub Attempted : ToolName → ToolExecutionResult × BusinessDatabase → Type 0
  Attempted t o = (a : Attempt) × (o ≡ settled (tool_name t) a) × Keeps t (records t) a

  pub execute_tool-Attempted :
      (t : ToolName) (arguments : Arguments)
      → Attempted t (execute_tool ctx t arguments user_text customer db)
  unfolding execute_tool
  execute_tool-Attempted t arguments = elim (Bool-cases (str_eq customer "")) [
    | inl e ↦
        rw (execute_tool, e)
          (
            (
              returns (
                  blocked_result (tool_name t)
                    (codes "I cannot access account actions without an authenticated customer.")
                    "NO_SESSION_CUSTOMER"),
              db,
            ),
            refl,
            inl (refl, λ h. refl),
          )
    | inr e ↦ elim (Bool-cases (customer_exists customer db)) [
      | inr k ↦
          rw (execute_tool, e, k)
            (
              (
                returns (
                    blocked_result (tool_name t)
                      (codes "The current customer session could not be verified.")
                      "CUSTOMER_NOT_FOUND"),
                db,
              ),
              refl,
              inl (refl, λ h. refl),
            )
      | inl k ↦ elim (Bool-cases (gated ctx t customer)) [
        | inl g ↦
            rw (execute_tool, e, k, g)
              (
                (
                  returns (
                      clarify_result (tool_name t)
                        (codes "Identity verification is required before this account action.")
                        "IDENTITY_VERIFICATION_REQUIRED"),
                  db,
                ),
                refl,
                inl (refl, λ h. refl),
              )
        | inr g ↦
            rw (execute_tool, e, k, g)
              (
                handle ctx t (pop "customer_id" arguments) user_text customer db,
                refl,
                handle-Lawful t (pop "customer_id" arguments),
              )
      ]
    ]
  ]

-- The run of writes of an attempt.
abbrev pub Refines : String → Text → BusinessDatabase → BusinessDatabase → Type 0
Refines customer user_text db after =
    (ws : List Write) × (after ≡ run ws db)
    × All (Allowed customer user_text db) ws
    × (length ws ≤ 2)
    × (rows after ≡ rows db + length ws)

pub settled_after : (name : String) (a : Attempt) → (settled name a).1 ≡ a.1
settled_after name (raises e, db) = refl
settled_after name (returns r, db) = refl

OwnEvent-Allowed :
    (customer : String) (user_text : Text) (db : BusinessDatabase) (t : ToolName) (w : Write)
    → OwnEvent customer t w
    → Allowed customer user_text db w
OwnEvent-Allowed customer user_text db t (write_event now id c kind summary) h = h.0
OwnEvent-Allowed customer user_text db t (write_payment now id account amount day reference) h =
    absurd h
OwnEvent-Allowed customer user_text db t (write_promise now id account day amount) h = absurd h
OwnEvent-Allowed customer user_text db t (write_callback now id c requested_for) h = absurd h
OwnEvent-Allowed customer user_text db t (write_dispute now id account reason) h = absurd h
OwnEvent-Allowed customer user_text db t (write_hardship now id account reason) h = absurd h
OwnEvent-Allowed customer user_text db t (write_escalation now id c reason) h = absurd h

Lawful-Refines :
    (ctx : Context) (customer : String) (user_text : Text) (db : BusinessDatabase) (t : ToolName)
    (flag : Bool) (a : Attempt)
    → Keeps ctx user_text customer db t flag a
    → Refines customer user_text db a.1
unfolding run
Lawful-Refines ctx customer user_text db t flag a (inl (same, fails)) =
    ([], same, tt, omega arith, omega (arith, ap rows same))
Lawful-Refines ctx customer user_text db t flag a (inr (inl (w, pw, same, grown))) =
    (w ∷ [], ap (λ o. o.1) same, (pw.1, tt), omega arith, grown)
Lawful-Refines ctx customer user_text db t flag a (inr (inr (w, e, pw, pe, same, good, grown))) = (
  w ∷ e ∷ [],
  same,
  (pw.1, (OwnEvent-Allowed customer user_text db t e pe, tt)),
  omega arith,
  grown,
)

-- A call of any tool name does at most two writes, and no other than it may: what it leaves of the
-- tables is a run of writes, each on the customer of the session or on an account of this customer,
-- a promise only for a date that the caller said, and each adds a row.
pub execute-Refines :
    (ctx : Context) (tool : String) (arguments : Arguments) (user_text : Text) (customer : String)
    (db : BusinessDatabase)
    → Refines customer user_text db (execute ctx tool arguments user_text customer db).1
unfolding execute run
execute-Refines ctx tool arguments user_text customer db = elim (Option-cases (tool_of tool)) [
  | inl e ↦ rw (execute, e) ([], refl, tt, omega arith, omega arith)
  | inr (t, e) ↦
      let (a, same, lawful) = execute_tool-Attempted ctx user_text customer db t arguments in
      let after = ap (λ o. o.1) same ∙ settled_after (tool_name t) a in
      rw (execute, e, after) (Lawful-Refines ctx customer user_text db t (records t) a lawful)
]

-- A call keeps the tables sound, with distinct primary keys and known foreign keys, and only adds
-- to them: every table has grown at its end, and the customers and the accounts, their balances
-- included, are as they were.
pub execute_keeps :
    (ctx : Context) (tool : String) (arguments : Arguments) (user_text : Text) (customer : String)
    (db : BusinessDatabase)
    → Integral db
    → let after = (execute ctx tool arguments user_text customer db).1 in
      Integral after × Extends db after
unfolding execute
execute_keeps ctx tool arguments user_text customer db sound =
    let (ws, same, allowed, short, grown) =
      execute-Refines ctx tool arguments user_text customer db in
    rw same (run-Integral ws db sound, run-Extends ws db)
