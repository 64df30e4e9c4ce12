-- ===== src/Business/Repository/Writes.antt =====
-- business/repository.py: runs of writes.
use bfsi_voice_agent.Prelude.{ℕ, String, ◌≡◌, Option, none, some, List, [], ◌∷◌, arith, Text}
use bfsi_voice_agent.Business.Repository.{
  Payment, PromiseToPay, Callback, Dispute, HardshipCase, HumanEscalation, CallEvent,
  BusinessDatabase, customer_exists, account_exists, insert_row, record_payment_reported,
  record_promise_to_pay, schedule_callback, open_dispute, record_hardship, request_human_escalation,
  add_call_event, payment_row, promise_row, callback_row, dispute_row, hardship_row, escalation_row,
  call_event_row,
}
use bfsi_voice_agent.Business.Repository.Rows.{rows_after}

pub data Write : Type 0 where
  write_payment : ℕ → String → String → Option ℕ → Option Text → Option Text → Write
  write_promise : ℕ → String → String → Text → Option ℕ → Write
  write_callback : ℕ → String → String → Text → Write
  write_dispute : ℕ → String → String → Text → Write
  write_hardship : ℕ → String → String → Text → Write
  write_escalation : ℕ → String → String → Text → Write
  write_event : ℕ → String → String → String → Text → Write

-- The tables that a result leaves; the same if the write raised.
abbrev pub left : {A : Type 0} → BusinessDatabase → Option (A × BusinessDatabase) → BusinessDatabase
left db none = db
left db (some (row, db')) = db'

unfoldable pub apply : Write → BusinessDatabase → BusinessDatabase
apply (write_payment now id account amount date reference) db =
    left db (record_payment_reported now id account amount date reference db)
apply (write_promise now id account date amount) db =
    left db (record_promise_to_pay now id account date amount db)
apply (write_callback now id customer requested_for) db =
    left db (schedule_callback now id customer requested_for db)
apply (write_dispute now id account reason) db = left db (open_dispute now id account reason db)
apply (write_hardship now id account reason) db = left db (record_hardship now id account reason db)
apply (write_escalation now id customer reason) db =
    left db (request_human_escalation now id customer reason db)
apply (write_event now id customer event_type summary) db =
    left db (add_call_event now id customer event_type summary db)

unfoldable pub run : List Write → BusinessDatabase → BusinessDatabase
run [] db = db
run (w ∷ ws) db = run ws (apply w db)

-- Each write is an INSERT into its own table.
pub apply_payment :
    (now : ℕ) (id : String) (account : String) (amount : Option ℕ) (date : Option Text)
    (reference : Option Text) (db : BusinessDatabase)
    → let row : Payment = (payment_row now id account amount date reference) in
      apply (write_payment now id account amount date reference) db ≡ record db {
        payments =
            rows_after Payment.payment_id
              (insert_row (account_exists account db) Payment.payment_id row db.payments)
              db.payments;
      }
unfolding apply record_payment_reported
apply_payment now id account amount date reference db = ground arith

pub apply_promise :
    (now : ℕ) (id : String) (account : String) (date : Text) (amount : Option ℕ)
    (db : BusinessDatabase)
    → let row : PromiseToPay = (promise_row now id account date amount) in
      apply (write_promise now id account date amount) db ≡ record db {
        promise_to_pay =
            rows_after PromiseToPay.promise_id
              (insert_row (account_exists account db) PromiseToPay.promise_id row db.promise_to_pay)
              db.promise_to_pay;
      }
unfolding apply record_promise_to_pay
apply_promise now id account date amount db = ground arith

pub apply_callback :
    (now : ℕ) (id : String) (customer : String) (requested_for : Text) (db : BusinessDatabase)
    → let row : Callback = (callback_row now id customer requested_for) in
      apply (write_callback now id customer requested_for) db ≡ record db {
        callbacks =
            rows_after Callback.callback_id
              (insert_row (customer_exists customer db) Callback.callback_id row db.callbacks)
              db.callbacks;
      }
unfolding apply schedule_callback
apply_callback now id customer requested_for db = ground arith

pub apply_dispute :
    (now : ℕ) (id : String) (account : String) (reason : Text) (db : BusinessDatabase)
    → let row : Dispute = (dispute_row now id account reason) in
      apply (write_dispute now id account reason) db ≡ record db {
        disputes =
            rows_after Dispute.dispute_id
              (insert_row (account_exists account db) Dispute.dispute_id row db.disputes)
              db.disputes;
      }
unfolding apply open_dispute
apply_dispute now id account reason db = ground arith

pub apply_hardship :
    (now : ℕ) (id : String) (account : String) (reason : Text) (db : BusinessDatabase)
    → let row : HardshipCase = (hardship_row now id account reason) in
      apply (write_hardship now id account reason) db ≡ record db {
        hardship_cases =
            rows_after HardshipCase.hardship_id
              (insert_row
                (account_exists account db)
                HardshipCase.hardship_id
                row
                db.hardship_cases)
              db.hardship_cases;
      }
unfolding apply record_hardship
apply_hardship now id account reason db = ground arith

pub apply_escalation :
    (now : ℕ) (id : String) (customer : String) (reason : Text) (db : BusinessDatabase)
    → let row : HumanEscalation = (escalation_row now id customer reason) in
      apply (write_escalation now id customer reason) db ≡ record db {
        human_escalations =
            rows_after HumanEscalation.escalation_id
              (insert_row
                (customer_exists customer db)
                HumanEscalation.escalation_id
                row
                db.human_escalations)
              db.human_escalations;
      }
unfolding apply request_human_escalation
apply_escalation now id customer reason db = ground arith

pub apply_event :
    (now : ℕ) (id : String) (customer : String) (event_type : String) (summary : Text)
    (db : BusinessDatabase)
    → let row : CallEvent = (call_event_row now id customer event_type summary) in
      apply (write_event now id customer event_type summary) db ≡ record db {
        call_history =
            rows_after CallEvent.call_id
              (insert_row (customer_exists customer db) CallEvent.call_id row db.call_history)
              db.call_history;
      }
unfolding apply add_call_event
apply_event now id customer event_type summary db = ground arith
