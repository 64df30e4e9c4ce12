-- ===== src/Business/Executor/Lawful.antt =====
-- business/executor.py: the handlers' attempts, and the calls.
use bfsi_voice_agent.Prelude.{
  String, Bool, inl, inr, refl, true, false, not, ◌&&◌, ◌++◌, Text, codes, strip, arith, Bool-cases,
  Option-cases,
}
use bfsi_voice_agent.Business.Repository.{
  Account, BusinessDatabase, record_payment_reported, record_promise_to_pay, schedule_callback,
  open_dispute, record_hardship, request_human_escalation,
}
use bfsi_voice_agent.Business.Repository.Writes.{
  write_payment, write_promise, write_callback, write_dispute, write_hardship, write_escalation,
  apply,
}
use bfsi_voice_agent.Business.Repository.Totals.{
  record_payment_reported-rows, record_promise_to_pay-rows, schedule_callback-rows,
  open_dispute-rows, record_hardship-rows, request_human_escalation-rows,
}
use bfsi_voice_agent.Integration.RouterSchema.{
  ToolName, get_customer_account as account_of, open_dispute as dispute_tool,
  record_financial_hardship as hardship_tool, record_payment_reported as payment_tool,
  record_promise_to_pay as promise_tool, request_human_escalation as escalation_tool,
  schedule_callback as callback_tool,
}
use bfsi_voice_agent.Business.Executor.Arguments.{
  get, given, or_given, str, str_if, str_or, safe_float,
}
use bfsi_voice_agent.Business.Executor.Handlers.{
  Context, Attempt, returns, writes_event, Arguments, id_of, resolve_account, verified_in, flagged,
  get_customer_account as account_tool, account_answer,
}
use bfsi_voice_agent.Business.Executor.Recorded.{
  payment_reported, payment_answer, dispute_opened, dispute_answer, hardship_recorded,
  hardship_answer, escalation_requested, escalation_answer, promise_recorded, promise_answer,
  promise_to_pay, callback_scheduled, callback_answer, callback_time, callback,
}
use bfsi_voice_agent.Business.Executor.Accounts.{Owned, resolve_account-Sound}
use bfsi_voice_agent.Business.Executor.Effects.{
  OwnRow, OwnEvent, class_raised, SaidDay, Lawful, record_then-Lawful, on_account-Lawful,
}
use bfsi_voice_agent.Business.Executor.Dates.{isoformat, validate_datetime}
use bfsi_voice_agent.Business.Executor.Dates.Said.{validate_explicit_date}
use bfsi_voice_agent.Business.Executor.Dates.Spoken.{validated_date-Spoken}

module _ (ctx : Context) (user_text : Text) (customer : String) (db : BusinessDatabase) where
  -- An attempt of a tool keeps to its own row and its own call event.
  abbrev Keeps : ToolName → Bool → Attempt → Type 0
  Keeps t flag o =
      Lawful (OwnRow customer user_text db t) (OwnEvent customer t)
        (class_raised (ctx.storage_error writes_event)) flag db o

  pub payment-Lawful :
      (arguments : Arguments) (a : Account)
      → Owned customer db a
      → Keeps payment_tool true (payment_reported ctx arguments customer a db)
  unfolding payment_reported apply
  payment-Lawful arguments a own =
      let id = id_of "PAY" ctx.hex in
      let sum = safe_float (get "amount" arguments) in
      let day = str_if (or_given (given "payment_date" arguments) (given "date" arguments)) in
      let ref =
        str_if (or_given (given "reference" arguments) (given "reference_number" arguments)) in
      record_then-Lawful (OwnRow customer user_text db payment_tool)
        (OwnEvent customer payment_tool) ctx customer
        (write_payment ctx.now id a.account_id sum day ref) "payment_reported"
        (λ row. codes "Customer reported that a payment was made.") payment_answer db
        (refl, (a, own, refl)) (λ told. (refl, refl)) (λ row. refl)
        (record_payment_reported ctx.now id a.account_id sum day ref db) refl
        (λ row d e. record_payment_reported-rows ctx.now id a.account_id sum day ref db d row e)

  pub dispute-Lawful :
      (arguments : Arguments) (a : Account)
      → Owned customer db a
      → Keeps dispute_tool true (dispute_opened ctx arguments customer a db)
  unfolding dispute_opened apply
  dispute-Lawful arguments a own =
      let id = id_of "DSP" ctx.hex in
      let why =
        strip (str_or (given "reason" arguments) (codes "customer_requested_investigation")) in
      record_then-Lawful (OwnRow customer user_text db dispute_tool)
        (OwnEvent customer dispute_tool) ctx customer (write_dispute ctx.now id a.account_id why)
        "dispute_opened" (λ row. codes "Dispute " ++ (codes row.dispute_id ++ codes " opened."))
        dispute_answer db (refl, (a, own, refl)) (λ told. (refl, refl)) (λ row. refl)
        (open_dispute ctx.now id a.account_id why db) refl
        (λ row d e. open_dispute-rows ctx.now id a.account_id why db d row e)

  pub hardship-Lawful :
      (arguments : Arguments) (a : Account)
      → Owned customer db a
      → Keeps hardship_tool true (hardship_recorded ctx arguments customer a db)
  unfolding hardship_recorded apply
  hardship-Lawful arguments a own =
      let id = id_of "HARDSHIP" ctx.hex in
      let why = strip (str_or (given "reason" arguments) (codes "financial_difficulty")) in
      record_then-Lawful (OwnRow customer user_text db hardship_tool)
        (OwnEvent customer hardship_tool) ctx customer (write_hardship ctx.now id a.account_id why)
        "hardship_recorded"
        (λ row. codes "Financial hardship case " ++ (codes row.hardship_id ++ codes " recorded."))
        hardship_answer db (refl, (a, own, refl)) (λ told. (refl, refl)) (λ row. refl)
        (record_hardship ctx.now id a.account_id why db) refl
        (λ row d e. record_hardship-rows ctx.now id a.account_id why db d row e)

  pub escalation-Lawful :
      (arguments : Arguments)
      → Keeps escalation_tool true (escalation_requested ctx arguments customer db)
  unfolding escalation_requested apply
  escalation-Lawful arguments =
      let id = id_of "ESC" ctx.hex in
      let why = strip (str_or (given "reason" arguments) (codes "customer_requested_human")) in
      record_then-Lawful (OwnRow customer user_text db escalation_tool)
        (OwnEvent customer escalation_tool) ctx customer (write_escalation ctx.now id customer why)
        "human_escalation_requested"
        (λ row. codes "Human escalation " ++ (codes row.escalation_id ++ codes " requested."))
        escalation_answer db (refl, refl) (λ told. (refl, refl)) (λ row. refl)
        (request_human_escalation ctx.now id customer why db) refl
        (λ row d e. request_human_escalation-rows ctx.now id customer why db d row e)

  promise_recorded-Lawful :
      (arguments : Arguments) (a : Account) (day : Text)
      → Owned customer db a
      → SaidDay user_text day
      → Keeps promise_tool true (promise_recorded ctx arguments customer a day db)
  unfolding promise_recorded apply
  promise_recorded-Lawful arguments a day own said =
      let id = id_of "PTP" ctx.hex in
      let sum = safe_float (get "amount" arguments) in
      record_then-Lawful (OwnRow customer user_text db promise_tool)
        (OwnEvent customer promise_tool) ctx customer
        (write_promise ctx.now id a.account_id day sum) "promise_to_pay_recorded"
        (λ row. codes "Promise to pay recorded for " ++ (day ++ codes ".")) (promise_answer day) db
        (refl, ((a, own, refl), said)) (λ told. (refl, refl)) (λ row. refl)
        (record_promise_to_pay ctx.now id a.account_id day sum db) refl
        (λ row d e. record_promise_to_pay-rows ctx.now id a.account_id day sum db d row e)

  pub promise-Lawful :
      (arguments : Arguments) (a : Account)
      → Owned customer db a
      → Keeps promise_tool true (promise_to_pay ctx arguments user_text customer a db)
  unfolding promise_to_pay
  promise-Lawful arguments a own =
      elim (Option-cases (or_given (given "promised_date" arguments) (given "date" arguments))) [
        | inl e ↦ rw (e, promise_to_pay) (inl (refl, λ h. refl))
        | inr (v, e) ↦ elim (Option-cases (validate_explicit_date user_text (str v))) [
          | inl n ↦ rw (e, promise_to_pay, n) (inl (refl, λ h. refl))
          | inr (d, y) ↦
              rw (e, promise_to_pay, y)
                (promise_recorded-Lawful arguments a (isoformat d) own
                  (d, refl, (validated_date-Spoken user_text (str v) d y).1))
        ]
      ]

  callback_scheduled-Lawful :
      (normalized : Text) → Keeps callback_tool true (callback_scheduled ctx customer normalized db)
  unfolding callback_scheduled apply
  callback_scheduled-Lawful normalized =
      let id = id_of "CB" ctx.hex in
      record_then-Lawful (OwnRow customer user_text db callback_tool)
        (OwnEvent customer callback_tool) ctx customer
        (write_callback ctx.now id customer normalized) "callback_scheduled"
        (λ row. codes "Callback scheduled for " ++ (normalized ++ codes "."))
        (callback_answer normalized) db (refl, refl) (λ told. (refl, refl)) (λ row. refl)
        (schedule_callback ctx.now id customer normalized db) refl
        (λ row d e. schedule_callback-rows ctx.now id customer normalized db d row e)

  pub callback-Lawful :
      (arguments : Arguments) → Keeps callback_tool true (callback ctx arguments customer db)
  unfolding callback
  callback-Lawful arguments = elim (Option-cases (callback_time arguments)) [
    | inl e ↦ rw (e, callback) (inl (refl, λ h. refl))
    | inr (v, e) ↦ elim (Option-cases (validate_datetime (str v))) [
      | inl n ↦ rw (e, callback, n) (inl (refl, λ h. refl))
      | inr (t, y) ↦ rw (e, callback, y) (callback_scheduled-Lawful t)
    ]
  ]

  pub account-Lawful :
      (arguments : Arguments) → Keeps account_of false (account_tool ctx arguments customer db)
  unfolding account_tool
  account-Lawful arguments =
      elim (Bool-cases (
        flagged (get "verification_required" arguments)
        && not (verified_in ctx customer ctx.registry))) [
          | inl e ↦ rw (e, account_tool) (inl (refl, λ h. absurd (ground (arith, h))))
          | inr e ↦
              rw (e, account_tool)
                (on_account-Lawful (OwnRow customer user_text db account_of)
                  (OwnEvent customer account_of) (class_raised (ctx.storage_error writes_event))
                  false ctx customer db
                  (resolve_account customer arguments "get_customer_account" db)
                  (λ a. (returns (account_answer a), db))
                  (resolve_account-Sound customer arguments "get_customer_account" db)
                  (λ a own. inl (refl, λ h. absurd (ground (arith, h)))))
        ]
