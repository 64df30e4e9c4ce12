-- ===== src/Jobs/Store/Runs.antt =====
-- Calls of a `JobStore` by any clients and workers, in any order and at any times: a worker that
-- dies is one that makes no further call.
use bfsi_voice_agent.Prelude.{
  ℕ, String, ◌≡◌, Bool, true, Option, List, [], ◌∷◌, ◌++◌, arith, inl, inr, Bool-cases, Text, ◌∙◌,
}
use bfsi_voice_agent.Jobs.Types.{
  Row, Fields, JobStatus, queued, processing, completed, retrying, dlq, JobStore,
}
use bfsi_voice_agent.Jobs.Tables.{update_where}
use bfsi_voice_agent.Jobs.Store.{
  submit, claim, heartbeat, complete, fail, side_effect_once, requeue_dlq,
}

-- One call of the store, with the values that it reads from its surroundings.
pub data Call : Type 0 where
  submit_call : ℕ → String → String → String → Fields → Option ℕ → Call
  claim_call : ℕ → String → Call
  heartbeat_call : ℕ → String → String → Call
  complete_call : ℕ → String → String → Option Fields → Call
  fail_call : ℕ → ℕ → String → String → Text → Call
  effect_call : ℕ → String → String → String → Call
  requeue_call : ℕ → String → Call

unfoldable pub apply : Call → JobStore → JobStore
apply (submit_call now j k type payload limit) s = (submit now j k type payload limit s).1
apply (claim_call now w) s = (claim now w s).1
apply (heartbeat_call now j w) s = heartbeat now j w s
apply (complete_call now j w result) s = complete now j w result s
apply (fail_call now draw j w error) s = (fail now draw j w error s).1
apply (effect_call now key j detail) s = (side_effect_once now key j detail s).1
apply (requeue_call now j) s = (requeue_dlq now j s).1

unfoldable pub run : List Call → JobStore → JobStore
run [] s = s
run (c ∷ cs) s = run cs (apply c s)

-- The diagram of a job's states.
infix 40 ◌⟶◌
pub data ◌⟶◌ : JobStatus → JobStatus → Type 0 where
  stay : {s : JobStatus} → s ⟶ s
  claim_queued : queued ⟶ processing
  claim_retrying : retrying ⟶ processing
  reclaim : processing ⟶ processing
  finish : processing ⟶ completed
  retry : processing ⟶ retrying
  bury : processing ⟶ dlq
  revive : dlq ⟶ queued

pub ruleset edges = (stay, claim_queued, claim_retrying, reclaim, finish, retry, bury, revive)

-- What every later state of a job keeps of it; a completed job is kept whole.
pub record Kept (x y : Row) : Type 0 where
  pub same_id : y.job_id ≡ x.job_id
  pub same_key : y.idempotency_key ≡ x.idempotency_key
  pub same_type : y.type ≡ x.type
  pub same_payload : y.payload ≡ x.payload
  pub same_limit : y.max_attempts ≡ x.max_attempts
  pub same_created : y.created_at ≡ x.created_at
  pub completed_stays : x.status ≡ completed → y ≡ x

pub record Step (x y : Row) : Type 0 where
  pub kept : Kept x y
  pub edge : x.status ⟶ y.status

-- The rows keep their places, each related to its old state, and new rows stand behind them.
abbrev pub Evolves : (Row → Row → Type 0) → List Row → List Row → Type 0
Evolves R [] ys = Unit
Evolves R (x ∷ xs) [] = ⊥
Evolves R (x ∷ xs) (y ∷ ys) = R x y × Evolves R xs ys

pub Kept-refl : (x : Row) → Kept x x
Kept-refl x = ground arith

Kept-trans : {x y z : Row} → Kept x y → Kept y z → Kept x z
Kept-trans h k = record {
  same_id = k.same_id ∙ h.same_id;
  same_key = k.same_key ∙ h.same_key;
  same_type = k.same_type ∙ h.same_type;
  same_payload = k.same_payload ∙ h.same_payload;
  same_limit = k.same_limit ∙ h.same_limit;
  same_created = k.same_created ∙ h.same_created;
  completed_stays = λ e. let p = h.completed_stays e in ground (arith, k.completed_stays);
}

Step-refl : (x : Row) → Step x x
Step-refl x = record { kept = Kept-refl x; edge = stay }

pub Evolves-Step-refl : (xs : List Row) → Evolves Step xs xs
Evolves-Step-refl [] = tt
Evolves-Step-refl (x ∷ xs) = (Step-refl x, Evolves-Step-refl xs)

pub Evolves-Kept-refl : (xs : List Row) → Evolves Kept xs xs
Evolves-Kept-refl [] = tt
Evolves-Kept-refl (x ∷ xs) = (Kept-refl x, Evolves-Kept-refl xs)

pub Evolves-Kept-trans :
    (xs ys zs : List Row) → Evolves Step xs ys → Evolves Kept ys zs → Evolves Kept xs zs
Evolves-Kept-trans [] ys zs h k = tt
Evolves-Kept-trans (x ∷ xs) [] zs h k = elim h [ ]
Evolves-Kept-trans (x ∷ xs) (y ∷ ys) [] h k = elim k [ ]
Evolves-Kept-trans (x ∷ xs) (y ∷ ys) (z ∷ zs) h k =
    (Kept-trans h.0.kept k.0, Evolves-Kept-trans xs ys zs h.1 k.1)

pub Evolves-append : (xs ys : List Row) → Evolves Step xs (xs ++ ys)
Evolves-append [] ys = tt
Evolves-append (x ∷ xs) ys = (Step-refl x, Evolves-append xs ys)

pub Evolves-update_where :
    (test : Row → Bool) (set : Row → Row)
    → ((r : Row) → test r ≡ true → Step r (set r))
    → (rs : List Row) → Evolves Step rs (update_where test set rs)
unfolding update_where
Evolves-update_where test set h [] = tt
Evolves-update_where test set h (r ∷ rs) = (
  elim (Bool-cases (test r)) [ inl e ↦ rw e (h r e) | inr e ↦ rw e (Step-refl r) ],
  Evolves-update_where test set h rs,
)
