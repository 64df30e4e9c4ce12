-- ===== src/Business/Executor/Handlers.antt =====
-- business/executor.py: the handlers of the tools. An attempt ends in a result or in an exception of
-- the storage, of which `execute` uses the name of the class; what was committed before it stays.
use Prim.Native.String.{◌++◌ as str_append}
use bfsi_voice_agent.Prelude.{
  ◌+◌, ◌&&◌, ◌⊎◌, inl, inr, ℕ, ◌/◌, ◌%◌, String, Bool, false, not, Option, none, some, List, [],
  ◌∷◌, ◌++◌, length, if◌then◌else◌, Text, codes, decimal,
}
use bfsi_voice_agent.Business.Repository.{
  Account, CallEvent, BusinessDatabase, get_account, get_accounts, get_call_history, add_call_event,
}
use bfsi_voice_agent.Business.Verification.{VerificationRegistry, is_current_verified}
use bfsi_voice_agent.Business.Schemas.{
  ToolExecutionResult, Datum, words, balance, history, ok_result, clarify_result, blocked_result,
  error_result,
}
use bfsi_voice_agent.Integration.RouterSchema.{Argument}
use bfsi_voice_agent.Business.Executor.Arguments.{get, truthy, given, str, limit_of}

-- Where a handler uses the storage: the SELECTs, the transaction of its row and that of the event.
pub data Access : Type 0 where
  reads : Access
  writes_row : Access
  writes_event : Access

-- What a call finds around it: CURRENT_TIMESTAMP in seconds, the monotonic clock in microseconds,
-- the twelve digits of the two ids that `uuid4` will make, the registry, the bound session, and
-- the class of the exception, if any, that the storage raises at an access for another reason than
-- the tables' constraints (an OperationalError, say).
pub record Context : Type 0 where
  pub now : ℕ
  pub clock : ℕ
  pub hex : String
  pub call_hex : String
  pub registry : Option VerificationRegistry
  pub bound : Option String
  pub storage_error : Access → Option String

-- A handler returns, or raises an exception of a class.
pub data Outcome : Type 0 where
  returns : ToolExecutionResult → Outcome
  raises : String → Outcome

abbrev pub Attempt : Type 0
Attempt = Outcome × BusinessDatabase

abbrev pub Arguments : Type 0
Arguments = List (String × Argument)

-- `_id(prefix)`
abbrev pub id_of : String → String → String
id_of prefix hex = str_append prefix (str_append "-" hex)

pub data Resolved : Type 0 where
  found : Account → Resolved
  refused : ToolExecutionResult → Resolved

abbrev pub only_account : String → List Account → Resolved
only_account tool [] =
    refused
      (error_result tool (codes "No account was found for the current customer.") "NO_ACCOUNT")
only_account tool (a ∷ []) = found a
only_account tool (a ∷ b ∷ rows) = refused (
    clarify_result tool (codes "You have more than one account. Which account should I use?")
      "MULTIPLE_ACCOUNTS")

abbrev pub asked_account : String → Option Account → Resolved
asked_account tool none = refused (
    blocked_result tool
      (codes "That account does not belong to the current authenticated customer session.")
      "ACCOUNT_OWNERSHIP_MISMATCH")
asked_account tool (some a) = found a

unfoldable pub resolve_account : String → Arguments → String → BusinessDatabase → Resolved
unfolding given str get_account get_accounts
resolve_account customer arguments tool db = elim (given "account_id" arguments) [
  | none ↦ only_account tool (get_accounts customer db)
  | some v ↦ asked_account tool (get_account customer (str v) db)
]

abbrev pub on_resolved : Resolved → (Account → Attempt) → BusinessDatabase → Attempt
on_resolved (refused r) handler db = (returns r, db)
on_resolved (found a) handler db = handler a

-- What is done where the storage is read first.
abbrev pub after_read : Option String → BusinessDatabase → Attempt → Attempt
after_read none db o = o
after_read (some e) db o = (raises e, db)

abbrev pub on_account : Context → Resolved → (Account → Attempt) → BusinessDatabase → Attempt
on_account ctx res handler db = after_read (ctx.storage_error reads) db (on_resolved res handler db)

-- A transaction of one INSERT: the storage raises, the constraints refuse it, or it is committed.
abbrev pub transaction : {A : Type 0} → Option String → Option A → String ⊎ A
transaction (some e) o = inl e
transaction none none = inl "IntegrityError"
transaction none (some x) = inr x

-- A write of a row, then the call event, then the answer.
unfoldable pub record_then :
    {A : Type 0}
    → Context
    → Option (A × BusinessDatabase)
    → (A → BusinessDatabase → Option (CallEvent × BusinessDatabase))
    → (A → ToolExecutionResult)
    → BusinessDatabase
    → Attempt
record_then ctx inserted event answer db =
    elim (transaction (ctx.storage_error writes_row) inserted) [
      | inl e ↦ (raises e, db)
      | inr (row, db') ↦ elim (transaction (ctx.storage_error writes_event) (event row db')) [
        | inl e ↦ (raises e, db')
        | inr (made, db'') ↦ (returns (answer row), db'')
      ]
    ]

-- `add_call_event`, at the ids and the time of the call.
abbrev pub event_of :
    Context → String → String → Text → BusinessDatabase → Option (CallEvent × BusinessDatabase)
event_of ctx customer kind summary db =
    add_call_event ctx.now (id_of "CALL" ctx.call_hex) customer kind summary db

-- Whether a registry, if there is one, has the customer verified in the bound session.
unfoldable pub verified_in : Context → String → Option VerificationRegistry → Bool
unfolding is_current_verified
verified_in ctx customer none = false
verified_in ctx customer (some r) = is_current_verified ctx.clock ctx.bound customer r

-- `bool(arguments.get(name, False))`
abbrev pub flagged : Option Argument → Bool
flagged none = false
flagged (some v) = truthy v

abbrev due : Option String → Datum
due none = Datum.absent
due (some t) = words (codes t)

abbrev pub account_answer : Account → ToolExecutionResult
account_answer a =
    ok_result "get_customer_account"
      (codes "The account status is " ++ (codes a.account_status ++ codes "."))
      (("account_id", words (codes a.account_id))
        ∷ ("account_status", words (codes a.account_status))
        ∷ ("currency", words (codes a.currency))
        ∷ ("due_date", due a.due_date)
        ∷ [])

unfoldable pub get_customer_account : Context → Arguments → String → BusinessDatabase → Attempt
unfolding get resolve_account verified_in
get_customer_account ctx arguments customer db =
    if flagged (get "verification_required" arguments)
      && not (verified_in ctx customer ctx.registry)
    then (
      returns (
          clarify_result "get_customer_account"
            (codes
              "Please complete the approved identity verification step before I access or disclose account details.")
            "IDENTITY_VERIFICATION_REQUIRED"),
      db,
    )
    else on_account ctx (resolve_account customer arguments "get_customer_account" db)
        (λ a. (returns (account_answer a), db)) db

-- `{balance:.2f}`, from hundredths
abbrev pub two_decimals : ℕ → Text
two_decimals n = codes (decimal (n / 100)) ++ (46 ∷ (48 + n / 10 % 10) ∷ (48 + n % 10) ∷ [])

abbrev pub balance_answer : Account → ToolExecutionResult
balance_answer a =
    ok_result "get_outstanding_balance"
      (codes "Your current outstanding balance is "
        ++ (two_decimals a.outstanding_balance ++ (32 ∷ (codes a.currency ++ codes "."))))
      (("account_id", words (codes a.account_id))
        ∷ ("outstanding_balance", balance a.outstanding_balance)
        ∷ ("currency", words (codes a.currency))
        ∷ [])

unfoldable pub get_outstanding_balance : Context → Arguments → String → BusinessDatabase → Attempt
unfolding resolve_account
get_outstanding_balance ctx arguments customer db =
    on_account ctx (resolve_account customer arguments "get_outstanding_balance" db)
      (λ a. (returns (balance_answer a), db)) db

abbrev pub history_message : List CallEvent → Text
history_message [] = codes "There is no recent call history available."
history_message (row ∷ rows) =
    codes "I found "
    ++ (codes (decimal (length (row ∷ rows))) ++ codes " recent support-history entries.")

unfoldable pub call_history : Context → Arguments → String → BusinessDatabase → Attempt
unfolding get limit_of get_call_history
call_history ctx arguments customer db =
    let rows = get_call_history customer (limit_of (get "limit" arguments)) db in
    after_read (ctx.storage_error reads) db (
      returns
          (ok_result "get_call_history" (history_message rows) (("history", history rows) ∷ [])),
      db,
    )

abbrev pub get_policy : BusinessDatabase → Attempt
get_policy db = (
  returns (
      blocked_result "get_policy"
        (codes "Policy information must be retrieved through the grounded policy knowledge system.")
        "USE_RAG_FOR_POLICY"),
  db,
)
