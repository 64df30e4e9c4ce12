-- ===== src/Jobs/Worker/Delivery.antt =====
-- jobs/worker.py: how often the handlers perform their external action.
use Prim.Native.String.{◌++◌ as str_append}
use bfsi_voice_agent.Prelude.{
  ℕ, zero, suc, ◌+◌, ◌*◌, String, ◌≡◌, ◌∙◌, refl, Bool, true, false, not, Option, some, List, [],
  ◌∷◌, ◌++◌, arith, eq_refl, eq_iff, str_eq, subst, inl, inr, Bool-cases, ltb, leb, if◌then◌else◌,
  length, length-append,
}
use bfsi_voice_agent.Jobs.Types.{Fields, JobStore, Result, ok, err}
use bfsi_voice_agent.Jobs.Tables.{effect_exists}
use bfsi_voice_agent.Jobs.Store.{side_effect_once}
use bfsi_voice_agent.Jobs.Store.Ledger.{effect_exists-once}
use bfsi_voice_agent.Jobs.Worker.{
  World, JobContext, M, continue, ◌>>=◌, beat, sleep_until, number, maybe_inject_failure, once,
  append_effect, deliver, Handler, pure, ◌>>◌, get_field, truthy, sleep, LogLine, send_email,
  generate_report, sync_webhook, process_document, business_write, find_handler, default_registry,
  Registry,
}

-- What a handler leaves alone before it asks the ledger.
pub record SameEffects (w w' : World) : Type 0 where
  pub same_log : w'.side_effect_log ≡ w.side_effect_log
  pub same_ledger : w'.store.side_effects ≡ w.store.side_effects

SameEffects-sleep_until :
    (rounds deadline : ℕ) (ctx : JobContext) (w : World)
    → SameEffects w (sleep_until rounds deadline ctx w)
unfolding sleep_until
SameEffects-sleep_until zero deadline ctx w = record { same_log = refl; same_ledger = refl }
SameEffects-sleep_until (suc rounds) deadline ctx w = elim (Bool-cases (ltb w.clock deadline)) [
  | inl e ↦
      let h =
        SameEffects-sleep_until rounds deadline ctx
          (beat ctx (record w { clock = w.clock + 100000 })).1 in
      rw (e, sleep_until) (record { same_log = h.same_log; same_ledger = h.same_ledger })
  | inr e ↦ rw (e, sleep_until) (record { same_log = refl; same_ledger = refl })
]

-- Code that touches neither the log nor the ledger, however it ends.
record Quiet {A : Type 0} (m : M A) : Type 0 where
  at : (w : World) → SameEffects w (m w).1

Quiet-result : {A : Type 0} (r : Result A) → Quiet {A = A} (λ w. (r, w))
Quiet-result r = record { at = λ w. record { same_log = refl; same_ledger = refl } }

Quiet-if : {A : Type 0} (b : Bool) (m n : M A) → Quiet m → Quiet n → Quiet (if b then m else n)
Quiet-if true m n hm hn = hm
Quiet-if false m n hm hn = hn

Quiet-continue :
    {A B : Type 0} (r : Result A) (f : A → M B) → ((a : A) → Quiet (f a)) → Quiet (continue r f)
Quiet-continue (ok a) f h = h a
Quiet-continue (err e) f h = Quiet-result (err e)

Quiet-bind :
    {A B : Type 0} (m : M A) (f : A → M B) → Quiet m → ((a : A) → Quiet (f a)) → Quiet (m >>= f)
Quiet-bind m f hm hf = record {
  at = λ w.
      let (r, w') = m w in
      let first = hm.at w in
      let next = (Quiet-continue r f hf).at w' in
      record {
        same_log = next.same_log ∙ first.same_log;
        same_ledger = next.same_ledger ∙ first.same_ledger;
      };
}

Quiet-sleep : (seconds : ℕ) (ctx : JobContext) → Quiet (sleep seconds ctx)
Quiet-sleep seconds ctx = record {
  at = λ w. SameEffects-sleep_until (seconds * 1000000) (w.clock + seconds * 1000000) ctx w;
}

Quiet-maybe_inject_failure : (ctx : JobContext) → Quiet (maybe_inject_failure ctx)
unfolding maybe_inject_failure
Quiet-maybe_inject_failure ctx =
    let p = ctx.job.row.payload in
    let slept = get_field "sleep_s" p in
    let times = get_field "fail_times" p in
    Quiet-bind _ _
      (Quiet-if (truthy slept) _ _
        (Quiet-bind _ _ (Quiet-result (number slept)) (λ n. Quiet-sleep n ctx))
        (Quiet-result (ok tt)))
      (λ _.
        Quiet-bind _ _
          (Quiet-if (truthy (get_field "always_fail" p)) _ _ (Quiet-result (err _))
            (Quiet-result (ok tt)))
          (λ _.
            Quiet-if (truthy times) _ _
              (Quiet-bind _ _ (Quiet-result (number times)) (λ n.
                Quiet-if (leb ctx.job.row.attempts n) _ _ (Quiet-result (err _))
                  (Quiet-result (ok tt))))
              (Quiet-result (ok tt))))

abbrev pub effect_key : String → JobContext → String
effect_key name ctx = str_append name (str_append ":" ctx.job.row.idempotency_key)

-- One action may still be performed for the key, or none.
abbrev pub left : String → World → ℕ
left key w = if effect_exists key w.store.side_effects then 0 else 1

abbrev pub is_ok : {A : Type 0} → Result A → Bool
is_ok (ok a) = true
is_ok (err e) = false

-- A handler that performs its action under the ledger's key `name:idempotency_key`: the actions
-- logged and those left add up, and none is left once it returns.
pub record Delivers (name : String) (h : Handler) : Type 0 where
  pub adds_up :
      (ctx : JobContext) (w : World)
      → let w' = (h ctx w).1 in
        length w'.side_effect_log + left (effect_key name ctx) w'
        ≡ length w.side_effect_log + left (effect_key name ctx) w
  pub returns_after :
      (ctx : JobContext) (w : World)
      → is_ok (h ctx w).0 ≡ true
      → left (effect_key name ctx) (h ctx w).1 ≡ 0
  pub raises_before :
      (ctx : JobContext) (w : World)
      → is_ok (h ctx w).0 ≡ false
      → left (effect_key name ctx) (h ctx w).1 ≡ left (effect_key name ctx) w

-- `deliver` after the injected failures.
ask_ledger :
    String → String → Fields → Fields → Fields → JobContext → World → Result (Option Fields) × World
unfolding once append_effect
ask_ledger key kind detail done dup ctx = once key ctx >>= λ granted.
    if granted then (append_effect kind ctx detail >> pure (some done)) else pure (some dup)

log-append : (xs : List LogLine) (x : LogLine) → length (xs ++ x ∷ []) ≡ length xs + 1
log-append xs x = omega (arith, length-append xs (x ∷ []))

pub grant-not :
    (now : ℕ) (key j : String) (s : JobStore)
    → (side_effect_once now key j "" s).0 ≡ not (effect_exists key s.side_effects)
unfolding side_effect_once
grant-not now key j s = ground arith

ask_ledger_lem :
    (key kind : String) (detail done dup : Fields) (ctx : JobContext) (w : World)
    → let (r, w') = ask_ledger key kind detail done dup ctx w in
      (length w'.side_effect_log + left key w' ≡ length w.side_effect_log + left key w)
      × (is_ok r ≡ true)
      × (left key w' ≡ 0)
unfolding ask_ledger
ask_ledger_lem key kind detail done dup ctx w =
    let known = effect_exists-once key w.clock key ctx.job.row.job_id "" w.store in
    let line : LogLine = record { kind = kind; job_id = ctx.job.row.job_id; detail = detail } in
    let grant = grant-not w.clock key ctx.job.row.job_id w.store in
    elim (Bool-cases (effect_exists key w.store.side_effects)) [
      | inl e ↦
          rw (grant, e)
            (ground (arith, known, eq_refl key), refl, ground (arith, known, eq_refl key))
      | inr e ↦
          rw (grant, e)
            (
              ground (arith, known, eq_refl key, log-append w.side_effect_log line),
              refl,
              ground (arith, known, eq_refl key),
            )
    ]

left-SameEffects : {w w' : World} (key : String) → SameEffects w w' → left key w' ≡ left key w
left-SameEffects key h = ground (arith, h)

-- The part of `deliver` that follows the injected failures, or their exception.
after_failure :
    {A : Type 0} (r : Result A) (key kind : String) (detail done dup : Fields) (ctx : JobContext)
    (w : World)
    → let (r', w') = continue r (λ _. ask_ledger key kind detail done dup ctx) w in
      (length w'.side_effect_log + left key w' ≡ length w.side_effect_log + left key w)
      × (is_ok r' ≡ true → left key w' ≡ 0)
      × (is_ok r' ≡ false → left key w' ≡ left key w)
after_failure (ok a) key kind detail done dup ctx w =
    let (adds, good, over) = ask_ledger_lem key kind detail done dup ctx w in
    (adds, λ _. over, λ no_ok. cc)
after_failure (err e) key kind detail done dup ctx w = (refl, λ h. cc, λ _. refl)

deliver_lem :
    (name kind : String) (detail done dup : Fields) (ctx : JobContext) (w : World)
    → let key = effect_key name ctx in
      let (r, w') = deliver name kind detail done dup ctx w in
      (length w'.side_effect_log + left key w' ≡ length w.side_effect_log + left key w)
      × (is_ok r ≡ true → left key w' ≡ 0)
      × (is_ok r ≡ false → left key w' ≡ left key w)
unfolding deliver ask_ledger
deliver_lem name kind detail done dup ctx w =
    let key = effect_key name ctx in
    let (r, w₁) = maybe_inject_failure ctx w in
    let same = (Quiet-maybe_inject_failure ctx).at w in
    let (adds, good, bad) = after_failure r key kind detail done dup ctx w₁ in
    (adds ∙ rw (same.same_log, same.same_ledger), good, λ e. bad e ∙ rw same.same_ledger)

Delivers-deliver :
    (name kind : String) (detail done dup : JobContext → Fields)
    → Delivers name (λ ctx. deliver name kind (detail ctx) (done ctx) (dup ctx) ctx)
Delivers-deliver name kind detail done dup = record {
  adds_up = λ ctx w. (deliver_lem name kind (detail ctx) (done ctx) (dup ctx) ctx w).0;
  returns_after = λ ctx w. (deliver_lem name kind (detail ctx) (done ctx) (dup ctx) ctx w).1;
  raises_before = λ ctx w. (deliver_lem name kind (detail ctx) (done ctx) (dup ctx) ctx w).2;
}

Delivers-send_email : Delivers "send_email" send_email
unfolding send_email
Delivers-send_email = Delivers-deliver "send_email" "email_sent" _ _ _

Delivers-generate_report : Delivers "generate_report" generate_report
unfolding generate_report
Delivers-generate_report = Delivers-deliver "generate_report" "report_generated" _ _ _

Delivers-sync_webhook : Delivers "sync_webhook" sync_webhook
unfolding sync_webhook
Delivers-sync_webhook = Delivers-deliver "sync_webhook" "webhook_posted" _ _ _

Delivers-process_document : Delivers "process_document" process_document
unfolding process_document
Delivers-process_document = Delivers-deliver "process_document" "document_processed" _ _ _

Delivers-business_write : Delivers "business_write" business_write
unfolding business_write
Delivers-business_write = Delivers-deliver "business_write" "business_write" _ _ _

first_match :
    (t : String) (g : Handler) (rest : Registry) {type : String} {h : Handler}
    → Delivers t g
    → find_handler type ((t, g) ∷ rest) ≡ ok h
    → (find_handler type rest ≡ ok h → Delivers type h)
    → Delivers type h
unfolding find_handler
first_match t g rest {type} {h} d e next = elim (Bool-cases (str_eq t type)) [
  | inl same ↦
      let p : t ≡ type = (eq_iff t type).0 same in
      let q : g ≡ h = ground arith in
      subst (λ (k : Handler). Delivers type k) q (subst (λ (n : String). Delivers n g) p d)
  | inr other ↦ next (ground arith)
]

-- Every registered handler acts under the ledger's key `type:idempotency_key`.
pub Delivers-default_registry :
    (type : String) (h : Handler) → find_handler type default_registry ≡ ok h → Delivers type h
unfolding find_handler
Delivers-default_registry type h e =
    let four : Registry = ("business_write", business_write) ∷ [] in
    let three : Registry = ("process_document", process_document) ∷ four in
    let two : Registry = ("sync_webhook", sync_webhook) ∷ three in
    let one : Registry = ("generate_report", generate_report) ∷ two in
    first_match "send_email" send_email one Delivers-send_email e λ e₁.
      first_match "generate_report" generate_report two Delivers-generate_report e₁ λ e₂.
        first_match "sync_webhook" sync_webhook three Delivers-sync_webhook e₂ λ e₃.
          first_match "process_document" process_document four Delivers-process_document e₃
            λ e₄. first_match "business_write" business_write [] Delivers-business_write e₄ λ e₅. cc
