-- ===== src/Business/Repository/Tables.antt =====
-- business/db.py: the rows of the business tables.
use bfsi_voice_agent.Prelude.{ℕ, String, Option, List, Text}

pub record Account : Type 0 where
  pub account_id : String
  pub customer_id : String
  pub account_status : String
  pub outstanding_balance : ℕ
  pub currency : String
  pub due_date : Option String
  pub created_at : ℕ
  pub updated_at : ℕ

pub record Customer : Type 0 where
  pub customer_id : String
  pub name : String
  pub status : String
  pub created_at : ℕ

pub record Payment : Type 0 where
  pub payment_id : String
  pub account_id : String
  pub reported_amount : Option ℕ
  pub payment_date : Option Text
  pub reference : Option Text
  pub status : String
  pub source : String
  pub created_at : ℕ

pub record PromiseToPay : Type 0 where
  pub promise_id : String
  pub account_id : String
  pub promised_date : Text
  pub amount : Option ℕ
  pub status : String
  pub created_at : ℕ

pub record Callback : Type 0 where
  pub callback_id : String
  pub customer_id : String
  pub requested_for : Text
  pub status : String
  pub created_at : ℕ

pub record Dispute : Type 0 where
  pub dispute_id : String
  pub account_id : String
  pub reason : Text
  pub status : String
  pub created_at : ℕ

pub record HardshipCase : Type 0 where
  pub hardship_id : String
  pub account_id : String
  pub reason : Text
  pub status : String
  pub created_at : ℕ

pub record HumanEscalation : Type 0 where
  pub escalation_id : String
  pub customer_id : String
  pub reason : Text
  pub status : String
  pub created_at : ℕ

pub record CallEvent : Type 0 where
  pub call_id : String
  pub customer_id : String
  pub event_type : String
  pub summary : Text
  pub created_at : ℕ

pub record BusinessDatabase : Type 0 where
  pub customers : List Customer
  pub accounts : List Account
  pub payments : List Payment
  pub promise_to_pay : List PromiseToPay
  pub callbacks : List Callback
  pub disputes : List Dispute
  pub hardship_cases : List HardshipCase
  pub human_escalations : List HumanEscalation
  pub call_history : List CallEvent
