-- ===== src/Business/Repository/Integrity.antt =====
-- business/repository.py: the keys of the tables over any run of writes.
use bfsi_voice_agent.Prelude.{List, [], ◌∷◌}
use bfsi_voice_agent.Business.Repository.{
  Payment, PromiseToPay, Callback, Dispute, HardshipCase, HumanEscalation, CallEvent,
  BusinessDatabase, customer_exists, account_exists, payment_row, promise_row, callback_row,
  dispute_row, hardship_row, escalation_row, call_event_row,
}
use bfsi_voice_agent.Business.Repository.Rows.{Table, Table-insert_row}
use bfsi_voice_agent.Business.Repository.Writes.{
  Write, write_payment, write_promise, write_callback, write_dispute, write_hardship,
  write_escalation, write_event, apply, run, apply_payment, apply_promise, apply_callback,
  apply_dispute, apply_hardship, apply_escalation, apply_event,
}

-- Every primary key is distinct and every foreign key is found.
abbrev pub Integral : BusinessDatabase → Type 0
Integral db =
    Table Payment.payment_id Payment.account_id (λ k. account_exists k db) db.payments
    × Table PromiseToPay.promise_id PromiseToPay.account_id (λ k. account_exists k db)
        db.promise_to_pay
    × Table Callback.callback_id Callback.customer_id (λ k. customer_exists k db) db.callbacks
    × Table Dispute.dispute_id Dispute.account_id (λ k. account_exists k db) db.disputes
    × Table HardshipCase.hardship_id HardshipCase.account_id (λ k. account_exists k db)
        db.hardship_cases
    × Table HumanEscalation.escalation_id HumanEscalation.customer_id (λ k. customer_exists k db)
        db.human_escalations
    × Table CallEvent.call_id CallEvent.customer_id (λ k. customer_exists k db) db.call_history

Integral-apply : (w : Write) (db : BusinessDatabase) → Integral db → Integral (apply w db)
unfolding account_exists customer_exists
Integral-apply (write_payment now id account amount date reference) db h =
    rw (apply_payment now id account amount date reference db) (
      Table-insert_row Payment.payment_id Payment.account_id (λ k. account_exists k db)
          (payment_row now id account amount date reference) db.payments h.0,
      h.1,
      h.2,
      h.3,
      h.4,
      h.5,
      h.6,
    )
Integral-apply (write_promise now id account date amount) db h =
    rw (apply_promise now id account date amount db) (
      h.0,
      Table-insert_row PromiseToPay.promise_id PromiseToPay.account_id (λ k. account_exists k db)
          (promise_row now id account date amount) db.promise_to_pay h.1,
      h.2,
      h.3,
      h.4,
      h.5,
      h.6,
    )
Integral-apply (write_callback now id customer requested_for) db h =
    rw (apply_callback now id customer requested_for db) (
      h.0,
      h.1,
      Table-insert_row Callback.callback_id Callback.customer_id (λ k. customer_exists k db)
          (callback_row now id customer requested_for) db.callbacks h.2,
      h.3,
      h.4,
      h.5,
      h.6,
    )
Integral-apply (write_dispute now id account reason) db h =
    rw (apply_dispute now id account reason db) (
      h.0,
      h.1,
      h.2,
      Table-insert_row Dispute.dispute_id Dispute.account_id (λ k. account_exists k db)
          (dispute_row now id account reason) db.disputes h.3,
      h.4,
      h.5,
      h.6,
    )
Integral-apply (write_hardship now id account reason) db h =
    rw (apply_hardship now id account reason db) (
      h.0,
      h.1,
      h.2,
      h.3,
      Table-insert_row HardshipCase.hardship_id HardshipCase.account_id (λ k. account_exists k db)
          (hardship_row now id account reason) db.hardship_cases h.4,
      h.5,
      h.6,
    )
Integral-apply (write_escalation now id customer reason) db h =
    rw (apply_escalation now id customer reason db) (
      h.0,
      h.1,
      h.2,
      h.3,
      h.4,
      Table-insert_row HumanEscalation.escalation_id HumanEscalation.customer_id
          (λ k. customer_exists k db) (escalation_row now id customer reason) db.human_escalations
          h.5,
      h.6,
    )
Integral-apply (write_event now id customer event_type summary) db h =
    rw (apply_event now id customer event_type summary db) (
      h.0,
      h.1,
      h.2,
      h.3,
      h.4,
      h.5,
      Table-insert_row CallEvent.call_id CallEvent.customer_id (λ k. customer_exists k db)
          (call_event_row now id customer event_type summary) db.call_history h.6,
    )

-- The tables stay sound over any run of writes, those included that raise: in each of the seven
-- tables the primary keys are distinct and every row refers to an account or a customer that is
-- there.
pub run-Integral : (ws : List Write) (db : BusinessDatabase) → Integral db → Integral (run ws db)
unfolding run
run-Integral [] db h = h
run-Integral (w ∷ ws) db h = run-Integral ws (apply w db) (Integral-apply w db h)
