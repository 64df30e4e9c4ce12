-- ===== src/Business/Repository/Tests.antt =====
-- business/repository.py at concrete inputs.
use bfsi_voice_agent.Prelude.{ℕ, String, ◌≡◌, refl, none, some, List, [], ◌∷◌, codes}
use bfsi_voice_agent.Business.Repository.{
  Account, CallEvent, BusinessDatabase, has_id, customer_exists, get_account, get_call_history,
  open_dispute,
}
use bfsi_voice_agent.Business.Repository.Writes.{
  Write, write_dispute, write_event, write_payment, run,
}
use bfsi_voice_agent.Business.Repository.Seed.{demo_account, seed_demo_data}
use bfsi_voice_agent.Business.Repository.Integrity.{Integral, run-Integral}

abbrev account : Account
account = record {
  account_id = "ACC-1001";
  customer_id = "CUST-1001";
  account_status = "active";
  outstanding_balance = 1250000;
  currency = "INR";
  due_date = some "2026-08-25";
  created_at = 1;
  updated_at = 1;
}

abbrev call_event : ℕ → String → String → CallEvent
call_event now id customer = record {
  call_id = id;
  customer_id = customer;
  event_type = "dispute_opened";
  summary = codes "Dispute opened.";
  created_at = now;
}

abbrev demo : BusinessDatabase
demo = record {
  customers =
      record {
        customer_id = "CUST-1001";
        name = "Demo Customer";
        status = "active";
        created_at = 1;
      }
      ∷ [];
  accounts = account ∷ [];
  payments = [];
  promise_to_pay = [];
  callbacks = [];
  disputes = [];
  hardship_cases = [];
  human_escalations = [];
  call_history = call_event 1 "CALL-1" "CUST-1001" ∷ call_event 5 "CALL-2" "CUST-1001" ∷ [];
}

-- The third of these raises, since there is no such account.
abbrev writes : List Write
writes =
    write_dispute 10 "DSP-1" "ACC-1001" (codes "charged twice")
    ∷ write_event 10 "CALL-3" "CUST-1001" "dispute_opened" (codes "Dispute DSP-1 opened.")
    ∷ write_payment 11 "PAY-1" "ACC-9999" none none none
    ∷ []

demo-Integral : Integral demo
unfolding has_id customer_exists
demo-Integral = (
  (tt, tt),
  (tt, tt),
  (tt, tt),
  (tt, tt),
  (tt, tt),
  (tt, tt),
  ((refl, (refl, tt)), (refl, (refl, tt))),
)

run-Integral_example : Integral (run writes demo)
run-Integral_example = run-Integral writes demo demo-Integral

-- Reads and a write of the demo data.
reads :
    (get_account "CUST-1001" (codes "ACC-1001") demo ≡ some account)
    × (get_account "CUST-2" (codes "ACC-1001") demo ≡ none)
    × (get_call_history "CUST-1001" 0 demo ≡ call_event 5 "CALL-2" "CUST-1001" ∷ [])
    × (open_dispute 10 "DSP-1" "ACC-2" (codes "none") demo ≡ none)
unfolding get_account get_call_history open_dispute
reads = (refl, refl, refl, refl)

abbrev empty : BusinessDatabase
empty = record {
  customers = [];
  accounts = [];
  payments = [];
  promise_to_pay = [];
  callbacks = [];
  disputes = [];
  hardship_cases = [];
  human_escalations = [];
  call_history = [];
}

-- The demo customer of an empty database, and one that is there and stays.
seeded :
    ((seed_demo_data (λ code salt. salt) 3 (empty, [])).0.accounts ≡ demo_account 3 ∷ [])
    × ((seed_demo_data (λ code salt. salt) 3 (demo, [])).0.customers ≡ demo.customers)
unfolding seed_demo_data
seeded = (refl, refl)
