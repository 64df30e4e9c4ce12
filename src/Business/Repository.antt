-- ===== src/Business/Repository.antt =====
-- business/repository.py over the tables of business/db.py. A transaction is one step; a constraint
-- that is violated raises and rolls back, which is `none`. The fresh ids and CURRENT_TIMESTAMP, in
-- seconds, are arguments; balances are in hundredths and reported
-- amounts in millionths. Equal timestamps keep insertion order.
pub mod Tables
pub mod Rows
pub mod Writes
pub mod Integrity
pub mod Growth
pub mod History
pub mod Totals
pub mod Seed
mod Tests
use bfsi_voice_agent.Prelude.{
  ℕ, min, max, String, Bool, true, false, not, ◌&&◌, ◌||◌, Option, none, some, List, [], ◌∷◌, ◌++◌,
  ltb, leb, str_eq, if◌then◌else◌, any, take, is_some, sort_latest, Text, text_eq, codes,
}
pub use Tables.*

module _ {A : Type 0} where
  -- `WHERE id = ?`
  unfoldable pub has_id : (A → String) → String → List A → Bool
  has_id key_ k [] = false
  has_id key_ k (row ∷ rows) = str_eq (key_ row) k || has_id key_ k rows

  unfoldable pub find_id : (A → String) → String → List A → Option A
  find_id key_ k [] = none
  find_id key_ k (row ∷ rows) = if str_eq (key_ row) k then some row else find_id key_ k rows

  unfoldable pub rows_where : (A → Bool) → List A → List A
  rows_where test [] = []
  rows_where test (row ∷ rows) =
      let rest = rows_where test rows in if test row then row ∷ rest else rest

  -- `ORDER BY at`
  unfoldable pub insert_earliest : (A → ℕ) → A → List A → List A
  insert_earliest at row [] = row ∷ []
  insert_earliest at row (next ∷ rows) =
      if leb (at row) (at next) then row ∷ next ∷ rows else next ∷ insert_earliest at row rows

  unfoldable pub sort_earliest : (A → ℕ) → List A → List A
  unfolding insert_earliest
  sort_earliest at [] = []
  sort_earliest at (row ∷ rows) = insert_earliest at row (sort_earliest at rows)

  -- An INSERT under the constraints, the primary key's and the given one, and the SELECT after it.
  unfoldable pub insert_row : Bool → (A → String) → A → List A → Option (A × List A)
  unfolding has_id find_id
  insert_row refers key_ row rows =
      let rows' = rows ++ (row ∷ []) in
      if not refers || has_id key_ (key_ row) rows
      then none
      else elim (find_id key_ (key_ row) rows') [ none ↦ none | some found ↦ some (found, rows') ]

unfoldable pub customer_exists : String → BusinessDatabase → Bool
unfolding has_id
customer_exists customer db = has_id Customer.customer_id customer db.customers

-- The foreign key to `accounts`.
unfoldable pub account_exists : String → BusinessDatabase → Bool
unfolding has_id
account_exists account db = has_id Account.account_id account db.accounts

unfoldable pub get_accounts : String → BusinessDatabase → List Account
unfolding rows_where sort_earliest
get_accounts customer db =
    sort_earliest Account.created_at (rows_where (λ a. str_eq a.customer_id customer) db.accounts)

unfoldable pub find_account : String → Text → List Account → Option Account
find_account customer account [] = none
find_account customer account (a ∷ rows) =
    if str_eq a.customer_id customer && text_eq (codes a.account_id) account
    then some a
    else find_account customer account rows

unfoldable pub get_account : String → Text → BusinessDatabase → Option Account
unfolding find_account
get_account customer account db = find_account customer account db.accounts

abbrev pub payment_row : ℕ → String → String → Option ℕ → Option Text → Option Text → Payment
payment_row now id account amount payment_date reference = record {
  payment_id = id;
  account_id = account;
  reported_amount = amount;
  payment_date = payment_date;
  reference = reference;
  status = "reported_unverified";
  source = "customer_report";
  created_at = now;
}

unfoldable pub record_payment_reported :
    ℕ
    → String
    → String
    → Option ℕ
    → Option Text
    → Option Text
    → BusinessDatabase
    → Option (Payment × BusinessDatabase)
unfolding insert_row account_exists
record_payment_reported now id account amount payment_date reference db =
    elim (insert_row (account_exists account db) Payment.payment_id
      (payment_row now id account amount payment_date reference) db.payments) [
        | none ↦ none
        | some (found, rows) ↦ some (found, record db { payments = rows })
      ]

abbrev pub promise_row : ℕ → String → String → Text → Option ℕ → PromiseToPay
promise_row now id account promised_date amount = record {
  promise_id = id;
  account_id = account;
  promised_date = promised_date;
  amount = amount;
  status = "recorded";
  created_at = now;
}

unfoldable pub record_promise_to_pay :
    ℕ
    → String
    → String
    → Text
    → Option ℕ
    → BusinessDatabase
    → Option (PromiseToPay × BusinessDatabase)
unfolding insert_row account_exists
record_promise_to_pay now id account promised_date amount db =
    elim (insert_row (account_exists account db) PromiseToPay.promise_id
      (promise_row now id account promised_date amount) db.promise_to_pay) [
        | none ↦ none
        | some (found, rows) ↦ some (found, record db { promise_to_pay = rows })
      ]

abbrev pub callback_row : ℕ → String → String → Text → Callback
callback_row now id customer requested_for = record {
  callback_id = id;
  customer_id = customer;
  requested_for = requested_for;
  status = "scheduled";
  created_at = now;
}

unfoldable pub schedule_callback :
    ℕ → String → String → Text → BusinessDatabase → Option (Callback × BusinessDatabase)
unfolding insert_row customer_exists
schedule_callback now id customer requested_for db =
    elim (insert_row (customer_exists customer db) Callback.callback_id
      (callback_row now id customer requested_for) db.callbacks) [
        | none ↦ none
        | some (found, rows) ↦ some (found, record db { callbacks = rows })
      ]

abbrev pub dispute_row : ℕ → String → String → Text → Dispute
dispute_row now id account reason = record {
  dispute_id = id;
  account_id = account;
  reason = reason;
  status = "open";
  created_at = now;
}

unfoldable pub open_dispute :
    ℕ → String → String → Text → BusinessDatabase → Option (Dispute × BusinessDatabase)
unfolding insert_row account_exists
open_dispute now id account reason db =
    elim (insert_row (account_exists account db) Dispute.dispute_id
      (dispute_row now id account reason) db.disputes) [
        | none ↦ none
        | some (found, rows) ↦ some (found, record db { disputes = rows })
      ]

abbrev pub hardship_row : ℕ → String → String → Text → HardshipCase
hardship_row now id account reason = record {
  hardship_id = id;
  account_id = account;
  reason = reason;
  status = "open";
  created_at = now;
}

unfoldable pub record_hardship :
    ℕ → String → String → Text → BusinessDatabase → Option (HardshipCase × BusinessDatabase)
unfolding insert_row account_exists
record_hardship now id account reason db =
    elim (insert_row (account_exists account db) HardshipCase.hardship_id
      (hardship_row now id account reason) db.hardship_cases) [
        | none ↦ none
        | some (found, rows) ↦ some (found, record db { hardship_cases = rows })
      ]

abbrev pub escalation_row : ℕ → String → String → Text → HumanEscalation
escalation_row now id customer reason = record {
  escalation_id = id;
  customer_id = customer;
  reason = reason;
  status = "requested";
  created_at = now;
}

unfoldable pub request_human_escalation :
    ℕ → String → String → Text → BusinessDatabase → Option (HumanEscalation × BusinessDatabase)
unfolding insert_row customer_exists
request_human_escalation now id customer reason db =
    elim (insert_row (customer_exists customer db) HumanEscalation.escalation_id
      (escalation_row now id customer reason) db.human_escalations) [
        | none ↦ none
        | some (found, rows) ↦ some (found, record db { human_escalations = rows })
      ]

abbrev pub call_event_row : ℕ → String → String → String → Text → CallEvent
call_event_row now id customer event_type summary = record {
  call_id = id;
  customer_id = customer;
  event_type = event_type;
  summary = summary;
  created_at = now;
}

unfoldable pub add_call_event :
    ℕ → String → String → String → Text → BusinessDatabase → Option (CallEvent × BusinessDatabase)
unfolding insert_row customer_exists
add_call_event now id customer event_type summary db =
    elim (insert_row (customer_exists customer db) CallEvent.call_id
      (call_event_row now id customer event_type summary) db.call_history) [
        | none ↦ none
        | some (found, rows) ↦ some (found, record db { call_history = rows })
      ]

-- A limit below 1 is taken as 1, and one above 50 as 50.
unfoldable pub get_call_history : String → ℕ → BusinessDatabase → List CallEvent
unfolding rows_where sort_latest
get_call_history customer limit db = take (max 1 (min limit 50)) (
    sort_latest CallEvent.created_at
      (rows_where (λ e. str_eq e.customer_id customer) db.call_history))
