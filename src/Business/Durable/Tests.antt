-- ===== src/Business/Durable/Tests.antt =====
-- business/durable_executor.py at concrete inputs, around the tool executor.
use bfsi_voice_agent.Prelude.{String, ◌≡◌, refl, true, false, none, [], ◌∷◌, Text, codes}
use bfsi_voice_agent.Jobs.Types.{Job, JobStore, end}
use bfsi_voice_agent.Jobs.Tables.{job_exists}
use bfsi_voice_agent.Jobs.Store.Runs.{claim_call, run}
use bfsi_voice_agent.Business.Repository.{BusinessDatabase}
use bfsi_voice_agent.Business.Schemas.{ToolExecutionResult}
use bfsi_voice_agent.Business.Executor.{execute}
use bfsi_voice_agent.Business.Executor.Handlers.{Arguments}
use bfsi_voice_agent.Business.Durable.{
  Encoding, is_write_tool, idempotency_key_for, execute_durably,
}
use bfsi_voice_agent.Business.Durable.Delivered.{Reports, one_job_per_action}

abbrev tables : BusinessDatabase
tables = record {
  customers =
      record {
        customer_id = "CUST-1001";
        name = "Demo Customer";
        status = "active";
        created_at = 1;
      }
      ∷ [];
  accounts = [];
  payments = [];
  promise_to_pay = [];
  callbacks = [];
  disputes = [];
  hardship_cases = [];
  human_escalations = [];
  call_history = [];
}

abbrev inner :
    String → Arguments → Text → String → BusinessDatabase → ToolExecutionResult × BusinessDatabase
inner = execute (record {
  now = 100;
  clock = 4;
  hex = "0A1B2C3D4E5F";
  call_hex = "6A7B8C9D0E1F";
  registry = none;
  bound = none;
  storage_error = λ access. none;
})

abbrev encoding : Encoding
encoding = record {
  digest = λ text. "d1";
  canonical = λ arguments. "{}";
  arguments_json = λ arguments. end;
  data_json = λ facts. end;
}

abbrev store : JobStore
store = record {
  jobs = [];
  job_events = [];
  side_effects = [];
  retry_policy = record {
    max_attempts = 5;
    base_delay_ms = 1000;
    max_delay_ms = 60000;
    multiplier = 2;
    jitter = 200;
  };
  lease_seconds = 30000000;
}

writes : is_write_tool "request_human_escalation" ≡ true
unfolding is_write_tool
writes = refl

succeeds :
    (text : Text) → (inner "request_human_escalation" [] text "CUST-1001" tables).0.success ≡ true
unfolding execute
succeeds text = refl

nothing_there :
    job_exists "job_1"
      (idempotency_key_for encoding "app" "CUST-1001" "request_human_escalation" [])
      store.jobs
    ≡ false
unfolding job_exists
nothing_there = refl

key_example :
    idempotency_key_for encoding "app" "CUST-1001" "request_human_escalation" []
    ≡ "bw-request_human_escalation-d1"
unfolding idempotency_key_for
key_example = refl

one_job_per_action_example :
    let key = idempotency_key_for encoding "app" "CUST-1001" "request_human_escalation" [] in
    let (first, d₁, s₁) =
      execute_durably inner encoding "app" 10 "job_1" "request_human_escalation" []
        (codes "a human")
        "CUST-1001"
        tables
        store in
    let s₂ = run (claim_call 15 "worker" ∷ []) s₁ in
    let (again, e₁, s₃) =
      execute_durably inner encoding "app" 20 "job_2" "request_human_escalation" []
        (codes "a human please")
        "CUST-1001"
        tables
        s₂ in
    (made : Job) × (job : Job) × (job.row.job_id ≡ made.row.job_id)
    × (s₃ ≡ s₂)
    × Reports first made.row.job_id made.row.status key false
    × Reports again made.row.job_id job.row.status key true
one_job_per_action_example =
    one_job_per_action inner encoding "app" 10 20 "job_1" "job_2" "request_human_escalation" []
      (codes "a human") (codes "a human please") "CUST-1001" tables tables
      (claim_call 15 "worker" ∷ []) store tt writes (succeeds (codes "a human"))
      (succeeds (codes "a human please")) nothing_there
