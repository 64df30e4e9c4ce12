-- ===== src/Business/Executor/Effects.antt =====
-- business/executor.py: what a call writes, and what its answer tells of it.
use bfsi_voice_agent.Prelude.{
  suc, ◌+◌, String, ◌≡◌, ◌⊎◌, inl, inr, refl, ap, ◌∙◌, Bool, true, false, Option, none, some, [],
  ◌∷◌, Text, arith, Option-cases,
}
use bfsi_voice_agent.Integration.RouterSchema.{
  ToolName, record_promise_to_pay, schedule_callback, record_payment_reported, open_dispute,
  record_financial_hardship, request_human_escalation,
}
use bfsi_voice_agent.Business.Repository.{Account, BusinessDatabase}
use bfsi_voice_agent.Business.Repository.Writes.{
  Write, write_payment, write_promise, write_callback, write_dispute, write_hardship,
  write_escalation, write_event, left, apply, run,
}
use bfsi_voice_agent.Business.Repository.Totals.{rows, add_call_event-rows}
use bfsi_voice_agent.Business.Schemas.{ToolExecutionResult}
use bfsi_voice_agent.Business.Executor.Handlers.{
  Context, Attempt, returns, raises, writes_row, writes_event, reads, on_resolved, Resolved, found,
  refused, id_of, event_of, record_then, on_account,
}
use bfsi_voice_agent.Business.Executor.Accounts.{Owned, Sound}
use bfsi_voice_agent.Business.Executor.Dates.{Date, isoformat}
use bfsi_voice_agent.Business.Executor.Dates.Spoken.{Spoken}

-- An account id that is one of the customer's.
abbrev pub OwnAccount : String → BusinessDatabase → String → Type 0
OwnAccount customer db account = (a : Account) × Owned customer db a × (a.account_id ≡ account)

-- A promised date that was said.
abbrev pub SaidDay : Text → Text → Type 0
SaidDay user_text day = (d : Date) × (day ≡ isoformat d) × Spoken user_text d

-- The writes that a call for a customer may do: on the customer and the customer's accounts, and a
-- promise only for a date that the caller said.
abbrev pub Allowed : String → Text → BusinessDatabase → Write → Type 0
Allowed customer user_text db (write_payment now id account amount day reference) =
    OwnAccount customer db account
Allowed customer user_text db (write_promise now id account day amount) =
    OwnAccount customer db account × SaidDay user_text day
Allowed customer user_text db (write_callback now id c requested_for) = c ≡ customer
Allowed customer user_text db (write_dispute now id account reason) = OwnAccount customer db account
Allowed customer user_text db (write_hardship now id account reason) =
    OwnAccount customer db account
Allowed customer user_text db (write_escalation now id c reason) = c ≡ customer
Allowed customer user_text db (write_event now id c event_type summary) = c ≡ customer

-- Whether a write is the row that a tool is for.
abbrev pub is_own : ToolName → Write → Bool
is_own record_payment_reported (write_payment now id account amount day reference) = true
is_own record_promise_to_pay (write_promise now id account day amount) = true
is_own schedule_callback (write_callback now id customer requested_for) = true
is_own open_dispute (write_dispute now id account reason) = true
is_own record_financial_hardship (write_hardship now id account reason) = true
is_own request_human_escalation (write_escalation now id customer reason) = true
is_own _ _ = false

-- The type of the call event that tells of a tool's row.
abbrev pub event_type_of : ToolName → String
event_type_of record_payment_reported = "payment_reported"
event_type_of record_promise_to_pay = "promise_to_pay_recorded"
event_type_of schedule_callback = "callback_scheduled"
event_type_of open_dispute = "dispute_opened"
event_type_of record_financial_hardship = "hardship_recorded"
event_type_of request_human_escalation = "human_escalation_requested"
event_type_of _ = ""

-- A tool's own row, which the call may write.
abbrev pub OwnRow : String → Text → BusinessDatabase → ToolName → Write → Type 0
OwnRow customer user_text db t w = (is_own t w ≡ true) × Allowed customer user_text db w

-- A tool's call event, for the customer.
abbrev pub OwnEvent : String → ToolName → Write → Type 0
OwnEvent customer t (write_event now id c event_type summary) =
    (c ≡ customer) × (event_type ≡ event_type_of t)
OwnEvent customer t _ = ⊥

abbrev pub succeeded : Attempt → Bool
succeeded (raises e, db) = false
succeeded (returns r, db) = r.success

-- The class of the exception of a write that fails: the storage's, or that of the constraints.
abbrev pub class_raised : Option String → String
class_raised none = "IntegrityError"
class_raised (some e) = e

-- Nothing is written.
abbrev pub Unchanged : BusinessDatabase → Attempt → Type 0
Unchanged db o = o.1 ≡ db

-- A row is written, and its call event raises an exception of the class `e`.
abbrev pub HalfRecorded : (Write → Type 0) → String → BusinessDatabase → Attempt → Type 0
HalfRecorded P e db o =
    (w : Write) × P w × (o ≡ (raises e, run (w ∷ []) db)) × (rows o.1 ≡ rows db + 1)

-- A row and its call event are written, and the answer is a success.
abbrev pub Recorded : (Write → Type 0) → (Write → Type 0) → BusinessDatabase → Attempt → Type 0
Recorded P E db o =
    (w : Write) × (e : Write) × P w
    × E e
    × (o.1 ≡ run (w ∷ e ∷ []) db)
    × (succeeded o ≡ true)
    × (rows o.1 ≡ rows db + 2)

-- An attempt of a handler; one that records is no success if nothing is written.
abbrev pub Lawful :
    (Write → Type 0) → (Write → Type 0) → String → Bool → BusinessDatabase → Attempt → Type 0
Lawful P E e records db o =
    (Unchanged db o × (records ≡ true → succeeded o ≡ false))
    ⊎ (HalfRecorded P e db o ⊎ Recorded P E db o)

module _ (P E : Write → Type 0) (ctx : Context) (customer : String) where
  abbrev event_class : String
  event_class = class_raised (ctx.storage_error writes_event)

  module _ {A : Type 0} (w : Write) (kind : String) (summary : A → Text)
      (answer : A → ToolExecutionResult) (db : BusinessDatabase) (allowed : P w)
      (events : (told : Text)
        → E (write_event ctx.now (id_of "CALL" ctx.call_hex) customer kind told))
      (good : (row : A) → (answer row).success ≡ true) where
    abbrev recording : Option (A × BusinessDatabase) → Attempt
    recording o = record_then ctx o (λ row. event_of ctx customer kind (summary row)) answer db

    event-Lawful :
        (row : A) (db' : BusinessDatabase)
        → ctx.storage_error writes_row ≡ none
        → db' ≡ apply w db
        → rows db' ≡ suc (rows db)
        → Lawful P E event_class true db (recording (some (row, db')))
    unfolding record_then run apply
    event-Lawful row db' calm same grown =
        let id = id_of "CALL" ctx.call_hex in
        let event = write_event ctx.now id customer kind (summary row) in
        elim (Option-cases (ctx.storage_error writes_event)) [
          | inr (x, e) ↦
              rw (calm, e, record_then)
                (inr (inl (w, allowed, ap (λ d. (raises x, d)) same, omega (arith, grown))))
          | inl n ↦ elim (Option-cases (event_of ctx customer kind (summary row) db')) [
            | inl e ↦
                rw (calm, n, e, record_then)
                  (inr (
                    inl (
                      w,
                      allowed,
                      ap (λ d. (raises "IntegrityError", d)) same,
                      omega (arith, grown),
                    )))
            | inr ((r, db''), e) ↦
                let last : db'' ≡ apply event db' = rw (apply, e) refl in
                let more =
                  add_call_event-rows ctx.now id customer kind (summary row) db' db'' r e in
                rw (calm, n, e, record_then)
                  (inr (
                    inr (
                      w,
                      event,
                      allowed,
                      events (summary row),
                      last ∙ ap (apply event) same,
                      good row,
                      omega (arith, grown, more),
                    )))
          ]
        ]

    pub record_then-Lawful :
        (o : Option (A × BusinessDatabase))
        → left db o ≡ apply w db
        → ((row : A) (db' : BusinessDatabase) → o ≡ some (row, db') → rows db' ≡ suc (rows db))
        → Lawful P E event_class true db (recording o)
    unfolding record_then
    record_then-Lawful o same grown = elim (Option-cases (ctx.storage_error writes_row)) [
      | inr (x, e) ↦ rw (e, record_then) (inl (refl, λ h. refl))
      | inl n ↦ elim (Option-cases o) [
        | inl e ↦ rw (e, n, record_then) (inl (refl, λ h. refl))
        | inr ((row, db'), e) ↦ rw e (event-Lawful row db' n (rw e at same) (grown row db' e))
      ]
    ]

on_resolved-Lawful :
    (P E : Write → Type 0) (x : String) (records : Bool) (customer : String) (db : BusinessDatabase)
    (res : Resolved) (handler : Account → Attempt)
    → Sound customer db res
    → ((a : Account) → Owned customer db a → Lawful P E x records db (handler a))
    → Lawful P E x records db (on_resolved res handler db)
on_resolved-Lawful P E x records customer db (refused r) handler sound lawful =
    inl (refl, λ h. sound)
on_resolved-Lawful P E x records customer db (found a) handler sound lawful = lawful a sound

pub on_account-Lawful :
    (P E : Write → Type 0) (x : String) (records : Bool) (ctx : Context) (customer : String)
    (db : BusinessDatabase) (res : Resolved) (handler : Account → Attempt)
    → Sound customer db res
    → ((a : Account) → Owned customer db a → Lawful P E x records db (handler a))
    → Lawful P E x records db (on_account ctx res handler db)
on_account-Lawful P E x records ctx customer db res handler sound lawful =
    elim (Option-cases (ctx.storage_error reads)) [
      | inr (e, raised) ↦ rw raised (inl (refl, λ h. refl))
      | inl n ↦ rw n (on_resolved-Lawful P E x records customer db res handler sound lawful)
    ]
