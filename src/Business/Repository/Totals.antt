-- ===== src/Business/Repository/Totals.antt =====
-- business/repository.py: a write that succeeds adds one row.
use bfsi_voice_agent.Prelude.{
  ℕ, suc, ◌+◌, String, ◌≡◌, refl, inl, inr, Bool, not, ◌||◌, Option, none, some, List, [], ◌∷◌,
  ◌++◌, arith, length, length-append, Text, Bool-cases, Option-cases,
}
use bfsi_voice_agent.Business.Repository.{
  Payment, PromiseToPay, Callback, Dispute, HardshipCase, HumanEscalation, CallEvent,
  BusinessDatabase, has_id, find_id, customer_exists, account_exists, insert_row,
  record_payment_reported, record_promise_to_pay, schedule_callback, open_dispute, record_hardship,
  request_human_escalation, add_call_event, payment_row, promise_row, callback_row, dispute_row,
  hardship_row, escalation_row, call_event_row,
}

-- The rows of the seven tables that are written.
unfoldable pub rows : BusinessDatabase → ℕ
rows db =
    length db.payments
    + length db.promise_to_pay
    + length db.callbacks
    + length db.disputes
    + length db.hardship_cases
    + length db.human_escalations
    + length db.call_history

insert_row-length :
    {A : Type 0} (refers : Bool) (key_ : A → String) (row found : A) (old new : List A)
    → insert_row refers key_ row old ≡ some (found, new)
    → length new ≡ suc (length old)
unfolding insert_row
insert_row-length refers key_ row found old new h =
    elim (Bool-cases (not refers || has_id key_ (key_ row) old)) [
      | inl e ↦ absurd (ground (arith, h, e))
      | inr e ↦ elim (Option-cases (find_id key_ (key_ row) (old ++ (row ∷ [])))) [
        | inl f ↦ absurd (ground (arith, h, e, f))
        | inr (x, f) ↦
            let same : old ++ (row ∷ []) ≡ new = ground (arith, h, e, f) in
            rw (← same, length-append old (row ∷ [])) (omega arith)
      ]
    ]

abbrev kept :
    {A : Type 0} → (List A → BusinessDatabase) → Option (A × List A) → Option (A × BusinessDatabase)
kept set_rows none = none
kept set_rows (some (found, new)) = some (found, set_rows new)

kept-rows :
    {A : Type 0} (set_rows : List A → BusinessDatabase) (o : Option (A × List A))
    (db db' : BusinessDatabase) (row : A)
    → ((found : A) (new : List A) → o ≡ some (found, new) → rows (set_rows new) ≡ suc (rows db))
    → kept set_rows o ≡ some (row, db')
    → rows db' ≡ suc (rows db)
unfolding rows
kept-rows set_rows none db db' row longer h = cc
kept-rows set_rows (some (found, new)) db db' row longer h =
    let same : set_rows new ≡ db' = ground (arith, h) in rw (← same) (longer found new refl)

pub record_payment_reported-rows :
    (now : ℕ) (id account : String) (amount : Option ℕ) (date reference : Option Text)
    (db db' : BusinessDatabase) (row : Payment)
    → record_payment_reported now id account amount date reference db ≡ some (row, db')
    → rows db' ≡ suc (rows db)
unfolding record_payment_reported rows
record_payment_reported-rows now id account amount date reference db db' row h =
    let made = payment_row now id account amount date reference in
    kept-rows (λ new. record db { payments = new })
      (insert_row (account_exists account db) Payment.payment_id made db.payments) db db' row
      (λ found new e. omega (
        arith,
        insert_row-length (account_exists account db) Payment.payment_id made found db.payments new
            e,
      ))
      h

pub record_promise_to_pay-rows :
    (now : ℕ) (id account : String) (date : Text) (amount : Option ℕ) (db db' : BusinessDatabase)
    (row : PromiseToPay)
    → record_promise_to_pay now id account date amount db ≡ some (row, db')
    → rows db' ≡ suc (rows db)
unfolding record_promise_to_pay rows
record_promise_to_pay-rows now id account date amount db db' row h =
    let made = promise_row now id account date amount in
    kept-rows (λ new. record db { promise_to_pay = new })
      (insert_row (account_exists account db) PromiseToPay.promise_id made db.promise_to_pay) db db'
      row
      (λ found new e. omega (
        arith,
        insert_row-length (account_exists account db) PromiseToPay.promise_id made found
            db.promise_to_pay new e,
      ))
      h

pub schedule_callback-rows :
    (now : ℕ) (id customer : String) (requested_for : Text) (db db' : BusinessDatabase)
    (row : Callback)
    → schedule_callback now id customer requested_for db ≡ some (row, db')
    → rows db' ≡ suc (rows db)
unfolding schedule_callback rows
schedule_callback-rows now id customer requested_for db db' row h =
    let made = callback_row now id customer requested_for in
    kept-rows (λ new. record db { callbacks = new })
      (insert_row (customer_exists customer db) Callback.callback_id made db.callbacks) db db' row
      (λ found new e. omega (
        arith,
        insert_row-length (customer_exists customer db) Callback.callback_id made found db.callbacks
            new e,
      ))
      h

pub open_dispute-rows :
    (now : ℕ) (id account : String) (reason : Text) (db db' : BusinessDatabase) (row : Dispute)
    → open_dispute now id account reason db ≡ some (row, db')
    → rows db' ≡ suc (rows db)
unfolding open_dispute rows
open_dispute-rows now id account reason db db' row h =
    let made = dispute_row now id account reason in
    kept-rows (λ new. record db { disputes = new })
      (insert_row (account_exists account db) Dispute.dispute_id made db.disputes) db db' row
      (λ found new e. omega (
        arith,
        insert_row-length (account_exists account db) Dispute.dispute_id made found db.disputes new
            e,
      ))
      h

pub record_hardship-rows :
    (now : ℕ) (id account : String) (reason : Text) (db db' : BusinessDatabase) (row : HardshipCase)
    → record_hardship now id account reason db ≡ some (row, db')
    → rows db' ≡ suc (rows db)
unfolding record_hardship rows
record_hardship-rows now id account reason db db' row h =
    let made = hardship_row now id account reason in
    kept-rows (λ new. record db { hardship_cases = new })
      (insert_row (account_exists account db) HardshipCase.hardship_id made db.hardship_cases) db
      db' row
      (λ found new e. omega (
        arith,
        insert_row-length (account_exists account db) HardshipCase.hardship_id made found
            db.hardship_cases new e,
      ))
      h

pub request_human_escalation-rows :
    (now : ℕ) (id customer : String) (reason : Text) (db db' : BusinessDatabase)
    (row : HumanEscalation)
    → request_human_escalation now id customer reason db ≡ some (row, db')
    → rows db' ≡ suc (rows db)
unfolding request_human_escalation rows
request_human_escalation-rows now id customer reason db db' row h =
    let made = escalation_row now id customer reason in
    kept-rows (λ new. record db { human_escalations = new })
      (insert_row (customer_exists customer db) HumanEscalation.escalation_id made
        db.human_escalations)
      db db' row
      (λ found new e. omega (
        arith,
        insert_row-length (customer_exists customer db) HumanEscalation.escalation_id made found
            db.human_escalations new e,
      ))
      h

pub add_call_event-rows :
    (now : ℕ) (id customer event_type : String) (summary : Text) (db db' : BusinessDatabase)
    (row : CallEvent)
    → add_call_event now id customer event_type summary db ≡ some (row, db')
    → rows db' ≡ suc (rows db)
unfolding add_call_event rows
add_call_event-rows now id customer event_type summary db db' row h =
    let made = call_event_row now id customer event_type summary in
    kept-rows (λ new. record db { call_history = new })
      (insert_row (customer_exists customer db) CallEvent.call_id made db.call_history) db db' row
      (λ found new e. omega (
        arith,
        insert_row-length (customer_exists customer db) CallEvent.call_id made found db.call_history
            new e,
      ))
      h
