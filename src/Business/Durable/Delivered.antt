-- ===== src/Business/Durable/Delivered.antt =====
-- business/durable_executor.py: one job for one action.
use bfsi_voice_agent.Prelude.{
  inr, inl, ℕ, String, ◌≡◌, refl, ap, Bool, true, false, not, ◌||◌, none, List, [], ◌∷◌,
  if◌then◌else◌, str_eq, Text, arith, Option, some, Bool-cases, eq_refl,
}
use bfsi_voice_agent.Jobs.Types.{Job, JobStore, JobStatus, Result, ok}
use bfsi_voice_agent.Jobs.Store.{submit}
use bfsi_voice_agent.Jobs.Tables.{job_exists}
use bfsi_voice_agent.Jobs.Store.Distinct.{Distinct}
use bfsi_voice_agent.Jobs.Store.Runs.{Call, run}
use bfsi_voice_agent.Jobs.Store.Submit.{submit-run-submit}
use bfsi_voice_agent.Business.Schemas.{ToolExecutionResult, Datum, delivery}
use bfsi_voice_agent.Business.Executor.Handlers.{Arguments}
use bfsi_voice_agent.Business.Durable.{
  Encoding, is_write_tool, idempotency_key_for, payload_of, put_datum, with_delivery,
  execute_durably,
}

-- `data.get(name)`
abbrev pub datum_of : String → List (String × Datum) → Option Datum
datum_of name [] = none
datum_of name ((k, v) ∷ rest) = if str_eq k name then some v else datum_of name rest

datum_of-put_datum :
    (name : String) (v : Datum) (facts : List (String × Datum))
    → datum_of name (put_datum name v facts) ≡ some v
unfolding put_datum
datum_of-put_datum name v [] = ground (arith, eq_refl name)
datum_of-put_datum name v ((k, x) ∷ rest) = elim (Bool-cases (str_eq k name)) [
  | inl e ↦ rw (e, put_datum, e) refl
  | inr e ↦ rw (e, put_datum, e) (datum_of-put_datum name v rest)
]

-- An answer that says where the delivery stands.
abbrev pub Reports : Result ToolExecutionResult → String → JobStatus → String → Bool → Type 0
Reports answer id status key there =
    (r : ToolExecutionResult) × (answer ≡ ok r)
    × (datum_of "delivery" r.data_ ≡ some (delivery id status key there))

with_delivery-Reports :
    (key : String) (r : ToolExecutionResult) (answer : Result (Job × Bool)) (job : Job)
    (created : Bool)
    → answer ≡ ok (job, created)
    → Reports (with_delivery key r answer) job.row.job_id job.row.status key (not created)
unfolding with_delivery
with_delivery-Reports key r answer job created h =
    let entry = delivery job.row.job_id job.row.status key (not created) in
    (
      record r { data_ = put_datum "delivery" entry r.data_ },
      rw (h, with_delivery) refl,
      datum_of-put_datum "delivery" entry r.data_,
    )

module _ {D : Type 0} (inner : String → Arguments → Text → String → D → ToolExecutionResult × D)
    (encoding : Encoding) (scope : String) (now : ℕ) (job_id tool : String) (arguments : Arguments)
    (user_text : Text) (customer : String) (d : D) (s : JobStore) where
  abbrev durably : Result ToolExecutionResult × D × JobStore
  durably = execute_durably inner encoding scope now job_id tool arguments user_text customer d s

  abbrev inside : ToolExecutionResult × D
  inside = inner tool arguments user_text customer d

  abbrev key_of : String
  key_of = idempotency_key_for encoding scope customer tool arguments

  abbrev submitted : Result (Job × Bool) × JobStore
  submitted =
      submit now job_id key_of "business_write"
        (payload_of encoding scope customer tool arguments inside.0) none s

  -- A read, and a write that was no success, is the inner executor's, and submits nothing.
  pub durably_read :
      (not (is_write_tool tool) || not inside.0.success) ≡ true
      → durably ≡ (ok inside.0, inside.1, s)
  unfolding execute_durably
  durably_read h = rw (execute_durably, h) refl

  durably_write :
      is_write_tool tool ≡ true
      → inside.0.success ≡ true
      → durably ≡ (with_delivery key_of inside.0 submitted.0, inside.1, submitted.1)
  unfolding execute_durably
  durably_write w h =
      let goes : (not (is_write_tool tool) || not inside.0.success) ≡ false =
        ground (arith, w, h) in
      rw (execute_durably, goes) refl

-- One job for one action: once a write that succeeds has submitted its job, then after any calls of
-- the store by anyone, the same action of the same customer, with the same arguments, whatever the
-- caller says and whatever the business tables are, and a success again, submits nothing and
-- reports the id of that first job as one that was there; the first reports it as new.
pub one_job_per_action :
    {D : Type 0} (inner : String → Arguments → Text → String → D → ToolExecutionResult × D)
    (encoding : Encoding) (scope : String) (now now' : ℕ) (job_id job_id' tool : String)
    (arguments : Arguments) (user_text user_text' : Text) (customer : String) (d e : D)
    (cs : List Call) (s : JobStore)
    → Distinct s.jobs
    → is_write_tool tool ≡ true
    → (inner tool arguments user_text customer d).0.success ≡ true
    → (inner tool arguments user_text' customer e).0.success ≡ true
    → let key = idempotency_key_for encoding scope customer tool arguments in
      job_exists job_id key s.jobs ≡ false
      → let (first, d₁, s₁) =
          execute_durably inner encoding scope now job_id tool arguments user_text customer d s in
        let s₂ = run cs s₁ in
        let (again, e₁, s₃) =
          execute_durably inner encoding scope now' job_id' tool arguments user_text' customer e
            s₂ in
        (made : Job) × (job : Job) × (job.row.job_id ≡ made.row.job_id)
        × (s₃ ≡ s₂)
        × Reports first made.row.job_id made.row.status key false
        × Reports again made.row.job_id job.row.status key true
one_job_per_action inner encoding scope now now' job_id job_id' tool arguments user_text user_text'
      customer d e cs s distinct write good good' fresh =
    let key = idempotency_key_for encoding scope customer tool arguments in
    let r = (inner tool arguments user_text customer d).0 in
    let r' = (inner tool arguments user_text' customer e).0 in
    let payload = payload_of encoding scope customer tool arguments r in
    let payload' = payload_of encoding scope customer tool arguments r' in
    let sub = submit now job_id key "business_write" payload none s in
    let sub' = submit now' job_id' key "business_write" payload' none (run cs sub.1) in
    let (made, answer, (job, again, kept)) =
      submit-run-submit now now' job_id job_id' key "business_write" "business_write" payload
        payload' none none cs s distinct fresh in
    let one =
      durably_write inner encoding scope now job_id tool arguments user_text customer d s write
        good in
    let two =
      durably_write inner encoding scope now' job_id' tool arguments user_text' customer e
        (run cs sub.1) write good' in
    rw (one, two)
      (
        made,
        job,
        kept.same_id,
        ap (λ o. o.1) again,
        with_delivery-Reports key r sub.0 made true answer,
        rw (← kept.same_id) (with_delivery-Reports key r' sub'.0 job false (ap (λ o. o.0) again)),
      )
