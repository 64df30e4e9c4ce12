-- ===== src/Business/Repository/Seed.antt =====
-- business/db.py: seed_demo_data, whose inserts are one transaction. `derive` is the key derivation of
-- business/verification.py.
use bfsi_voice_agent.Prelude.{
  ℕ, String, ◌≡◌, ◌∙◌, refl, Bool, true, Bool-cases, inl, inr, some, List, [], ◌∷◌, ◌++◌,
  if◌then◌else◌, All-map, two_ways, eq_refl, Text, codes, arith,
}
use bfsi_voice_agent.Business.Repository.{
  Customer, Account, Payment, PromiseToPay, Callback, Dispute, HardshipCase, HumanEscalation,
  CallEvent, BusinessDatabase, has_id, customer_exists, account_exists,
}
use bfsi_voice_agent.Business.Repository.Rows.{
  Table, insert_row_lem, has_id-append, Table-insert_row,
}
use bfsi_voice_agent.Business.Repository.Integrity.{Integral}
use bfsi_voice_agent.Business.Verification.{Secret}

-- `INSERT OR IGNORE`, of a row whose foreign key is found.
unfoldable pub insert_or_ignore : {A : Type 0} → (A → String) → A → List A → List A
unfolding has_id
insert_or_ignore key_ row rows = if has_id key_ (key_ row) rows then rows else rows ++ (row ∷ [])

abbrev pub demo_customer : ℕ → Customer
demo_customer now = record {
  customer_id = "CUST-1001";
  name = "Demo Customer";
  status = "active";
  created_at = now;
}

abbrev pub demo_account : ℕ → Account
demo_account now = record {
  account_id = "ACC-1001";
  customer_id = "CUST-1001";
  account_status = "active";
  outstanding_balance = 1250000;
  currency = "INR";
  due_date = some "2026-08-25";
  created_at = now;
  updated_at = now;
}

abbrev pub demo_secret : (Text → String → String) → Secret
demo_secret derive = record {
  customer_id = "CUST-1001";
  secret_salt = "bfsi-demo-cust-1001-v1";
  secret_hash = derive (codes "0641") "bfsi-demo-cust-1001-v1";
  active = true;
}

abbrev pub demo_call : ℕ → CallEvent
demo_call now = record {
  call_id = "CALL-DEMO-001";
  customer_id = "CUST-1001";
  event_type = "account_created";
  summary = codes "Demo account initialized.";
  created_at = now;
}

-- The business tables, and the table `customer_verification`.
unfoldable pub seed_demo_data :
    (Text → String → String) → ℕ → BusinessDatabase × List Secret → BusinessDatabase × List Secret
unfolding insert_or_ignore
seed_demo_data derive now (db, secrets) = (
  record db {
    customers = insert_or_ignore Customer.customer_id (demo_customer now) db.customers;
    accounts = insert_or_ignore Account.account_id (demo_account now) db.accounts;
    call_history = insert_or_ignore CallEvent.call_id (demo_call now) db.call_history;
  },
  insert_or_ignore Secret.customer_id (demo_secret derive) secrets,
)

module _ {A : Type 0} (key_ : A → String) where
  has_id-insert_or_ignore :
      (row : A) (rows : List A) → has_id key_ (key_ row) (insert_or_ignore key_ row rows) ≡ true
  unfolding insert_or_ignore has_id
  has_id-insert_or_ignore row rows =
      two_ways (λ rs. has_id key_ (key_ row) rs ≡ true) (has_id key_ (key_ row) rows) (λ e. e)
        (λ e. has_id-append key_ (key_ row) rows (row ∷ []) ∙ ground (arith, eq_refl (key_ row)))

  has_id_still :
      (k : String) (row : A) (rows : List A)
      → has_id key_ k rows ≡ true
      → has_id key_ k (insert_or_ignore key_ row rows) ≡ true
  unfolding insert_or_ignore
  has_id_still k row rows h =
      two_ways (λ rs. has_id key_ k rs ≡ true) (has_id key_ (key_ row) rows) (λ e. h)
        (λ e. has_id-append key_ k rows (row ∷ []) ∙ ground (arith, h))

  insert_or_ignore_again :
      (row later : A) (rows : List A)
      → key_ later ≡ key_ row
      → insert_or_ignore key_ later (insert_or_ignore key_ row rows)
        ≡ insert_or_ignore key_ row rows
  unfolding insert_or_ignore
  insert_or_ignore_again row later rows same =
      let there : has_id key_ (key_ later) (insert_or_ignore key_ row rows) ≡ true =
        rw same (has_id-insert_or_ignore row rows) in
      rw (insert_or_ignore, there) refl

  Table-insert_or_ignore :
      (refer : A → String) (known : String → Bool) (row : A) (rows : List A)
      → known (refer row) ≡ true
      → Table key_ refer known rows
      → Table key_ refer known (insert_or_ignore key_ row rows)
  unfolding insert_or_ignore
  Table-insert_or_ignore refer known row rows found h =
      let after = Table-insert_row key_ refer known row rows h in
      elim (Bool-cases (has_id key_ (key_ row) rows)) [
        | inl e ↦ rw e h
        | inr e ↦ rw e (rw (insert_row_lem key_ (known (refer row)) row rows, found, e) at after)
      ]

  Table-known :
      (refer : A → String) (known known' : String → Bool) (rows : List A)
      → ((k : String) → known k ≡ true → known' k ≡ true)
      → Table key_ refer known rows
      → Table key_ refer known' rows
  Table-known refer known known' rows more h = (
    h.0,
    All-map (λ r. known (refer r) ≡ true) (λ r. known' (refer r) ≡ true) rows
        (λ r k. more (refer r) k) h.1,
  )

-- Keys that were found are still found.
Table-accounts :
    {A : Type 0} (now : ℕ) (db : BusinessDatabase) (key_ refer : A → String) (rows : List A)
    → Table key_ refer (λ k. account_exists k db) rows
    → Table key_ refer
        (λ k.
          has_id Account.account_id k
            (insert_or_ignore Account.account_id (demo_account now) db.accounts))
        rows
unfolding account_exists
Table-accounts now db key_ refer rows =
    Table-known key_ refer (λ k. account_exists k db)
      (λ k.
        has_id Account.account_id k
          (insert_or_ignore Account.account_id (demo_account now) db.accounts))
      rows (λ k. has_id_still Account.account_id k (demo_account now) db.accounts)

Table-customers :
    {A : Type 0} (now : ℕ) (db : BusinessDatabase) (key_ refer : A → String) (rows : List A)
    → Table key_ refer (λ k. customer_exists k db) rows
    → Table key_ refer
        (λ k.
          has_id Customer.customer_id k
            (insert_or_ignore Customer.customer_id (demo_customer now) db.customers))
        rows
unfolding customer_exists
Table-customers now db key_ refer rows =
    Table-known key_ refer (λ k. customer_exists k db)
      (λ k.
        has_id Customer.customer_id k
          (insert_or_ignore Customer.customer_id (demo_customer now) db.customers))
      rows (λ k. has_id_still Customer.customer_id k (demo_customer now) db.customers)

-- The demo data can be seeded again at any time: a second seeding changes nothing, and seeding keeps
-- every primary key distinct and every foreign key found.
pub seed_demo_data_stable :
    (derive : Text → String → String) (now later : ℕ) (s : BusinessDatabase × List Secret)
    → Integral s.0
    → let seeded = seed_demo_data derive now s in
      (seed_demo_data derive later seeded ≡ seeded) × Integral seeded.0
unfolding seed_demo_data customer_exists account_exists
seed_demo_data_stable derive now later (db, secrets) h =
    let customer = demo_customer now in
    let account = demo_account now in
    let call = demo_call now in
    let customers = insert_or_ignore Customer.customer_id customer db.customers in
    let found = has_id-insert_or_ignore Customer.customer_id customer db.customers in
    (
      rw
          (
            insert_or_ignore_again Customer.customer_id customer (demo_customer later) db.customers
                refl,
            insert_or_ignore_again Account.account_id account (demo_account later) db.accounts refl,
            insert_or_ignore_again CallEvent.call_id call (demo_call later) db.call_history refl,
            insert_or_ignore_again Secret.customer_id (demo_secret derive) (demo_secret derive)
                secrets refl,
          )
          refl,
      (
        Table-accounts now db Payment.payment_id Payment.account_id db.payments h.0,
        Table-accounts now db PromiseToPay.promise_id PromiseToPay.account_id db.promise_to_pay h.1,
        Table-customers now db Callback.callback_id Callback.customer_id db.callbacks h.2,
        Table-accounts now db Dispute.dispute_id Dispute.account_id db.disputes h.3,
        Table-accounts now db HardshipCase.hardship_id HardshipCase.account_id db.hardship_cases
            h.4,
        Table-customers now db HumanEscalation.escalation_id HumanEscalation.customer_id
            db.human_escalations h.5,
        Table-insert_or_ignore CallEvent.call_id CallEvent.customer_id
            (λ k. has_id Customer.customer_id k customers) call db.call_history found
            (Table-customers now db CallEvent.call_id CallEvent.customer_id db.call_history h.6),
      ),
    )
