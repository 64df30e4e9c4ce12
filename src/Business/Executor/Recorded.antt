-- ===== src/Business/Executor/Recorded.antt =====
-- business/executor.py: the handlers of the tools that record something.
use bfsi_voice_agent.Prelude.{String, Option, none, some, [], ◌∷◌, ◌++◌, Text, codes, strip}
use bfsi_voice_agent.Business.Repository.{
  Account, Payment, PromiseToPay, Callback, Dispute, HardshipCase, HumanEscalation,
  BusinessDatabase, record_payment_reported, record_promise_to_pay, schedule_callback, open_dispute,
  record_hardship, request_human_escalation, add_call_event,
}
use bfsi_voice_agent.Business.Schemas.{
  ToolExecutionResult, words, amount, ok_result, clarify_result,
}
use bfsi_voice_agent.Integration.RouterSchema.{Argument}
use bfsi_voice_agent.Business.Executor.Arguments.{
  given, or_given, str, str_if, str_or, safe_float, get,
}
use bfsi_voice_agent.Business.Executor.Dates.{isoformat, validate_datetime}
use bfsi_voice_agent.Business.Executor.Dates.Said.{validate_explicit_date}
use bfsi_voice_agent.Business.Executor.Handlers.{
  Context, Attempt, returns, Arguments, id_of, record_then, event_of,
}

abbrev pub payment_answer : Payment → ToolExecutionResult
payment_answer row =
    ok_result "record_payment_reported"
      (codes
        "I recorded your reported payment for verification. It has not been treated as confirmed yet.")
      (("payment_id", words (codes row.payment_id))
        ∷ ("status", words (codes row.status))
        ∷ ("account_id", words (codes row.account_id))
        ∷ [])

unfoldable pub payment_reported :
    Context → Arguments → String → Account → BusinessDatabase → Attempt
unfolding given str safe_float get record_payment_reported record_then add_call_event
payment_reported ctx arguments customer a db =
    record_then ctx
      (record_payment_reported ctx.now (id_of "PAY" ctx.hex) a.account_id
        (safe_float (get "amount" arguments))
        (str_if (or_given (given "payment_date" arguments) (given "date" arguments)))
        (str_if (or_given (given "reference" arguments) (given "reference_number" arguments))) db)
      (λ row.
        event_of ctx customer "payment_reported"
          (codes "Customer reported that a payment was made."))
      payment_answer db

abbrev pub dispute_answer : Dispute → ToolExecutionResult
dispute_answer row =
    ok_result "open_dispute" (codes "I opened a dispute for the payment-status investigation.") (
      ("dispute_id", words (codes row.dispute_id))
      ∷ ("status", words (codes row.status))
      ∷ ("account_id", words (codes row.account_id))
      ∷ [])

unfoldable pub dispute_opened : Context → Arguments → String → Account → BusinessDatabase → Attempt
unfolding given str strip open_dispute record_then add_call_event
dispute_opened ctx arguments customer a db =
    record_then ctx
      (open_dispute ctx.now (id_of "DSP" ctx.hex) a.account_id
        (strip (str_or (given "reason" arguments) (codes "customer_requested_investigation"))) db)
      (λ row.
        event_of ctx customer "dispute_opened"
          (codes "Dispute " ++ (codes row.dispute_id ++ codes " opened.")))
      dispute_answer db

abbrev pub hardship_answer : HardshipCase → ToolExecutionResult
hardship_answer row =
    ok_result "record_financial_hardship"
      (codes
        "I recorded the financial-hardship request for review. No specific hardship outcome has been approved yet.")
      (("hardship_id", words (codes row.hardship_id))
        ∷ ("status", words (codes row.status))
        ∷ ("reason", words row.reason)
        ∷ [])

unfoldable pub hardship_recorded :
    Context → Arguments → String → Account → BusinessDatabase → Attempt
unfolding given str strip record_hardship record_then add_call_event
hardship_recorded ctx arguments customer a db =
    record_then ctx
      (record_hardship ctx.now (id_of "HARDSHIP" ctx.hex) a.account_id
        (strip (str_or (given "reason" arguments) (codes "financial_difficulty"))) db)
      (λ row.
        event_of ctx customer "hardship_recorded"
          (codes "Financial hardship case " ++ (codes row.hardship_id ++ codes " recorded.")))
      hardship_answer db

abbrev pub escalation_answer : HumanEscalation → ToolExecutionResult
escalation_answer row =
    ok_result "request_human_escalation" (codes "I requested review by a human support specialist.")
      (("escalation_id", words (codes row.escalation_id))
        ∷ ("status", words (codes row.status))
        ∷ [])

unfoldable pub escalation_requested : Context → Arguments → String → BusinessDatabase → Attempt
unfolding given str strip request_human_escalation record_then add_call_event
escalation_requested ctx arguments customer db =
    record_then ctx
      (request_human_escalation ctx.now (id_of "ESC" ctx.hex) customer
        (strip (str_or (given "reason" arguments) (codes "customer_requested_human"))) db)
      (λ row.
        event_of ctx customer "human_escalation_requested"
          (codes "Human escalation " ++ (codes row.escalation_id ++ codes " requested.")))
      escalation_answer db

abbrev pub promise_answer : Text → PromiseToPay → ToolExecutionResult
promise_answer day row =
    ok_result "record_promise_to_pay"
      (codes "Your promise to pay has been recorded for " ++ (day ++ codes "."))
      (("promise_id", words (codes row.promise_id))
        ∷ ("promised_date", words row.promised_date)
        ∷ ("amount", amount row.amount)
        ∷ ("status", words (codes row.status))
        ∷ [])

-- The promise, once its date is validated.
unfoldable pub promise_recorded :
    Context → Arguments → String → Account → Text → BusinessDatabase → Attempt
unfolding get safe_float record_promise_to_pay record_then add_call_event
promise_recorded ctx arguments customer a day db =
    record_then ctx
      (record_promise_to_pay ctx.now (id_of "PTP" ctx.hex) a.account_id day
        (safe_float (get "amount" arguments)) db)
      (λ row.
        event_of ctx customer "promise_to_pay_recorded"
          (codes "Promise to pay recorded for " ++ (day ++ codes ".")))
      (promise_answer day) db

unfoldable pub promise_to_pay :
    Context → Arguments → Text → String → Account → BusinessDatabase → Attempt
unfolding given str validate_explicit_date isoformat promise_recorded
promise_to_pay ctx arguments user_text customer a db =
    elim (or_given (given "promised_date" arguments) (given "date" arguments)) [
      | none ↦ (
        returns (
            clarify_result "record_promise_to_pay"
              (codes "What exact calendar date would you like to promise the payment for?")
              "MISSING_PROMISE_DATE"),
        db,
      )
      | some v ↦ elim (validate_explicit_date user_text (str v)) [
        | none ↦ (
          returns (
              clarify_result "record_promise_to_pay"
                (codes "Please provide an exact calendar date for the promise to pay.")
                "UNVERIFIED_PROMISE_DATE"),
          db,
        )
        | some d ↦ promise_recorded ctx arguments customer a (isoformat d) db
      ]
    ]

abbrev pub callback_answer : Text → Callback → ToolExecutionResult
callback_answer normalized row =
    ok_result "schedule_callback"
      (codes "The callback request has been scheduled for " ++ (normalized ++ codes "."))
      (("callback_id", words (codes row.callback_id))
        ∷ ("requested_for", words row.requested_for)
        ∷ ("status", words (codes row.status))
        ∷ [])

-- The callback, once its time is validated.
unfoldable pub callback_scheduled : Context → String → Text → BusinessDatabase → Attempt
unfolding schedule_callback record_then add_call_event
callback_scheduled ctx customer normalized db =
    record_then ctx (schedule_callback ctx.now (id_of "CB" ctx.hex) customer normalized db)
      (λ row.
        event_of ctx customer "callback_scheduled"
          (codes "Callback scheduled for " ++ (normalized ++ codes ".")))
      (callback_answer normalized) db

abbrev pub callback_time : Arguments → Option Argument
callback_time arguments =
    or_given (given "scheduled_for" arguments)
      (or_given (given "requested_for" arguments) (given "datetime" arguments))

unfoldable pub callback : Context → Arguments → String → BusinessDatabase → Attempt
unfolding given str validate_datetime callback_scheduled
callback ctx arguments customer db = elim (callback_time arguments) [
  | none ↦ (
    returns (
        clarify_result "schedule_callback"
          (codes "What exact date and time would you prefer for the callback?")
          "MISSING_CALLBACK_TIME"),
    db,
  )
  | some v ↦ elim (validate_datetime (str v)) [
    | none ↦ (
      returns (
          clarify_result "schedule_callback"
            (codes "Please provide an exact callback date and time.") "INVALID_CALLBACK_TIME"),
      db,
    )
    | some normalized ↦ callback_scheduled ctx customer normalized db
  ]
]
