-- ===== src/Business/Executor/Tests.antt =====
-- business/executor.py at concrete inputs.
use bfsi_voice_agent.Prelude.{length, ℕ, ◌≡◌, refl, true, false, none, some, [], ◌∷◌, Text, codes}
use bfsi_voice_agent.Business.Repository.{Account, BusinessDatabase}
use bfsi_voice_agent.Business.Repository.Integrity.{Integral}
use bfsi_voice_agent.Business.Repository.Growth.{Extends}
use bfsi_voice_agent.Business.Repository.Totals.{rows}
use bfsi_voice_agent.Business.Verification.{VerificationRegistry, is_current_verified}
use bfsi_voice_agent.Integration.RouterSchema.{words, number, record_promise_to_pay}
use bfsi_voice_agent.Business.Executor.{String, Option, execute, tool_name, is_protected}
use bfsi_voice_agent.Business.Executor.Arguments.{float}
use bfsi_voice_agent.Business.Executor.Handlers.{Access, writes_event, Access, Context, Arguments}
use bfsi_voice_agent.Business.Executor.Gate.{unverified_learns_nothing}
use bfsi_voice_agent.Business.Executor.Calls.{Refines, execute-Refines, execute_keeps}
use bfsi_voice_agent.Business.Executor.Answers.{Told, execute-Told}
use bfsi_voice_agent.Business.Executor.Dates.{Date, parse_date_string, isoformat, validate_datetime}
use bfsi_voice_agent.Business.Executor.Dates.Said.{extract_dates, validate_explicit_date}
use bfsi_voice_agent.Business.Executor.Dates.Spoken.{Spoken, validated_date-Spoken}
use bfsi_voice_agent.Business.Executor.Dates.RoundTrip.{iso_round_trip}

abbrev day : Date
day = record { year = 2026; month = 8; day = 25 }

abbrev said : Text
said = codes "I will pay 1,500 on August 25, 2026"

-- Dates that are read, in the order of the formats, and one that is not.
dates_read :
    (parse_date_string (codes " 25/08/2026 ") ≡ some day)
    × (parse_date_string (codes "08/25/2026") ≡ some day)
    × (parse_date_string (codes "25 August 2026") ≡ some day)
    × (parse_date_string (codes "29-02-2023") ≡ none)
    × (validate_datetime (codes "2026-08-25 9:05:30") ≡ some (codes "2026-08-25T09:05"))
unfolding parse_date_string validate_datetime
dates_read = (refl, refl, refl, refl, refl)

-- Both readings of a date with slashes are found.
dates_found :
    (extract_dates (codes "pay on 08/09/2026.")
      ≡ record { year = 2026; month = 9; day = 8 }
        ∷ record { year = 2026; month = 8; day = 9 }
        ∷ [])
    × (extract_dates said ≡ day ∷ [])
    × (extract_dates (codes "12026-08-25") ≡ [])
unfolding extract_dates
dates_found = (refl, refl, refl)

amounts :
    (float (codes " -1.5e2 ") ≡ some (true, 150000000))
    × (float (codes ".25") ≡ some (false, 250000))
    × (float (codes "1,500") ≡ none)
unfolding float
amounts = (refl, refl, refl)

abbrev account : Account
account = record {
  account_id = "ACC-1001";
  customer_id = "CUST-1001";
  account_status = "active";
  outstanding_balance = 1250000;
  currency = "INR";
  due_date = some "2026-08-25";
  created_at = 1;
  updated_at = 1;
}

abbrev demo : BusinessDatabase
demo = record {
  customers =
      record {
        customer_id = "CUST-1001";
        name = "Demo Customer";
        status = "active";
        created_at = 1;
      }
      ∷ [];
  accounts = account ∷ [];
  payments = [];
  promise_to_pay = [];
  callbacks = [];
  disputes = [];
  hardship_cases = [];
  human_escalations = [];
  call_history = [];
}

abbrev registry : VerificationRegistry
registry = record {
  db = [];
  verified_ttl = 300000000;
  max_attempts = 3;
  states =
      (
        "S-1",
        record {
          session_id = "S-1";
          customer_id = "CUST-1001";
          verified_until = 5;
          awaiting_code = false;
          attempts = 0;
          locked = false;
          pending_request = none;
        },
      )
      ∷ [];
}

-- A call in the session, whose verification ends at 5.
abbrev at_clock : ℕ → Context
at_clock clock = record {
  now = 100;
  clock = clock;
  hex = "0A1B2C3D4E5F";
  call_hex = "6A7B8C9D0E1F";
  registry = some registry;
  bound = some "S-1";
  storage_error = λ access. none;
}

abbrev promise : Arguments
promise =
    ("promised_date", words (codes "2026-08-25"))
    ∷ ("amount", number (codes "1500") false 1500 0)
    ∷ []

abbrev after_promise : BusinessDatabase
after_promise = (execute (at_clock 4) "record_promise_to_pay" promise said "CUST-1001" demo).1

-- A promise in a verified session is recorded with its call event, and one for another account is
-- not.
calls :
    (rows after_promise ≡ 2)
    × ((execute
          (at_clock 4)
          "record_promise_to_pay"
          (("account_id", words (codes "ACC-2")) ∷ promise)
          said
          "CUST-1001"
          demo).0.error_code
        ≡ some "ACCOUNT_OWNERSHIP_MISMATCH")
    × ((execute
          (at_clock 4)
          "record_promise_to_pay"
          promise
          (codes "I will pay soon")
          "CUST-1001"
          demo).0.error_code
        ≡ some "UNVERIFIED_PROMISE_DATE")
unfolding execute rows
calls = (refl, refl, refl)

unverified : is_current_verified 6 (some "S-1") "CUST-1001" registry ≡ false
unfolding is_current_verified
unverified = refl

protected : is_protected record_promise_to_pay ≡ true
unfolding is_protected
protected = refl

demo-Integral : Integral demo
demo-Integral = ((tt, tt), (tt, tt), (tt, tt), (tt, tt), (tt, tt), (tt, tt), (tt, tt))

accepted_date : validate_explicit_date said (codes "2026-08-25") ≡ some day
unfolding validate_explicit_date
accepted_date = refl

validated_date-Spoken_example :
    (parse_date_string (codes "2026-08-25") ≡ some day) × Spoken said day
validated_date-Spoken_example = validated_date-Spoken said (codes "2026-08-25") day accepted_date

iso_round_trip_example : parse_date_string (isoformat day) ≡ some day
iso_round_trip_example = iso_round_trip day refl

unverified_learns_nothing_example :
    let name = tool_name record_promise_to_pay in
    ((execute (at_clock 6) name promise said "CUST-1001" demo).1 ≡ demo)
    × ((execute (at_clock 6) name promise said "CUST-1001" demo).0.success ≡ false)
    × ((execute (at_clock 6) name promise said "CUST-1001" demo).0
        ≡ (execute (at_clock 6) name [] [] "CUST-1001" demo).0)
unverified_learns_nothing_example =
    unverified_learns_nothing (at_clock 6) registry record_promise_to_pay "CUST-1001" promise []
      said [] demo demo refl unverified protected refl

execute-Refines_example : Refines "CUST-1001" said demo after_promise
execute-Refines_example =
    execute-Refines (at_clock 4) "record_promise_to_pay" promise said "CUST-1001" demo

execute_keeps_example : Integral after_promise × Extends demo after_promise
execute_keeps_example =
    execute_keeps (at_clock 4) "record_promise_to_pay" promise said "CUST-1001" demo demo-Integral

execute-Told_example :
    Told
      (at_clock 4)
      "CUST-1001"
      said
      record_promise_to_pay
      demo
      (execute (at_clock 4) (tool_name record_promise_to_pay) promise said "CUST-1001" demo)
execute-Told_example = execute-Told (at_clock 4) record_promise_to_pay promise said "CUST-1001" demo

-- The database is locked when the call event is written.
abbrev locked_at : Access → Option String
locked_at writes_event = some "OperationalError"
locked_at _ = none

event_locked :
    let locked : Context = record (at_clock 4) { storage_error = locked_at } in
    let (answer, after) = execute locked "record_promise_to_pay" promise said "CUST-1001" demo in
    (answer.error_code ≡ some "OperationalError") × (length after.promise_to_pay ≡ 1)
unfolding execute
event_locked = (refl, refl)
