-- ===== src/Jobs/Worker/Once.antt =====
-- jobs/worker.py: attempts at one job, mixed with any other calls of the store.
use bfsi_voice_agent.Prelude.{
  ◌+◌, String, ◌≡◌, ◌∙◌, refl, eq_refl, subst, Bool, true, false, ◌||◌, List, [], ◌∷◌, All, arith,
  if◌then◌else◌, length,
}
use bfsi_voice_agent.Jobs.Types.{ok}
use bfsi_voice_agent.Jobs.Tables.{effect_exists}
use bfsi_voice_agent.Jobs.Store.Runs.{Call, apply}
use bfsi_voice_agent.Jobs.Store.Ledger.{asks, effect_exists-apply, effect_exists-once}
use bfsi_voice_agent.Jobs.Worker.{World, JobContext, Handler, once, find_handler, default_registry}
use bfsi_voice_agent.Jobs.Worker.Delivery.{
  Delivers, Delivers-default_registry, effect_key, left, is_ok, grant-not,
}

-- An attempt at a job by some worker, or a call of the store by anyone in between.
pub data Turn : Type 0 where
  attempt : JobContext → Turn
  between : Call → Turn

-- Whether an attempt returned, and the world after the turns.
unfoldable pub play : Handler → List Turn → World → Bool × World
play h [] w = (false, w)
play h (attempt ctx ∷ ts) w =
    let (r, w') = h ctx w in let (returned, w'') = play h ts w' in (is_ok r || returned, w'')
play h (between c ∷ ts) w = play h ts (record w { store = apply c w.store })

-- Attempts at the job whose effect has the key, and calls that do not ask for that effect.
abbrev pub Concerns : String → String → Turn → Type 0
Concerns name key (attempt ctx) = effect_key name ctx ≡ key
Concerns name key (between c) = asks key c ≡ false

play-left :
    (name key : String) (h : Handler) (ts : List Turn) (w : World)
    → Delivers name h
    → All (Concerns name key) ts
    → let (returned, w') = play h ts w in
      (length w'.side_effect_log + left key w' ≡ length w.side_effect_log + left key w)
      × (left key w' ≡ (if returned then 0 else left key w))
unfolding play
play-left name key h [] w d c = (refl, refl)
play-left name key h (between k ∷ ts) w d c =
    let (adds, rest) = play-left name key h ts (record w { store = apply k w.store }) d c.1 in
    let same = effect_exists-apply key k w.store in
    let keep : effect_exists key (apply k w.store).side_effects
        ≡ effect_exists key w.store.side_effects =
      same ∙ ground arith in
    (ground arith, ground arith)
play-left name key h (attempt ctx ∷ ts) w d c =
    let (adds, rest) = play-left name key h ts (h ctx w).1 d c.1 in
    let first =
      subst
        (λ (k : String).
          length (h ctx w).1.side_effect_log + left k (h ctx w).1
          ≡ length w.side_effect_log + left k w)
        c.0 (d.adds_up ctx w) in
    let good =
      subst (λ (k : String). is_ok (h ctx w).0 ≡ true → left k (h ctx w).1 ≡ 0) c.0
        (d.returns_after ctx w) in
    let bad =
      subst (λ (k : String). is_ok (h ctx w).0 ≡ false → left k (h ctx w).1 ≡ left k w) c.0
        (d.raises_before ctx w) in
    (omega arith, ground arith)

-- For every registered job type and every idempotency key: whatever the attempts of any workers at
-- jobs of that key, with injected failures, duplicate deliveries and any other calls of the store in
-- between, the action is logged exactly once if an attempt returns, never more than once, and not
-- again if the ledger had the key before.
pub registered_exactly_once :
    (type key : String) (h : Handler) (ts : List Turn) (w : World)
    → find_handler type default_registry ≡ ok h
    → All (Concerns type key) ts
    → let (returned, w') = play h ts w in
      length w'.side_effect_log
      ≡ length w.side_effect_log
        + (if returned then (if effect_exists key w.store.side_effects then 0 else 1) else 0)
registered_exactly_once type key h ts w e c =
    let (adds, rest) = play-left type key h ts w (Delivers-default_registry type h e) c in
    ground arith

-- A worker that dies between the ledger's grant and the action loses it: whatever attempts follow,
-- the action of that key is never logged.
pub granted_then_died :
    (type : String) (h : Handler) (ctx : JobContext) (ts : List Turn) (w : World)
    → find_handler type default_registry ≡ ok h
    → All (Concerns type (effect_key type ctx)) ts
    → effect_exists (effect_key type ctx) w.store.side_effects ≡ false
    → let (granted, w') = once (effect_key type ctx) ctx w in
      (granted ≡ ok true) × (length (play h ts w').1.side_effect_log ≡ length w.side_effect_log)
unfolding once
granted_then_died type h ctx ts w e c fresh =
    let key = effect_key type ctx in
    let (granted, w') = once key ctx w in
    let same = effect_exists-once key w.clock key ctx.job.row.job_id "" w.store in
    let grant = grant-not w.clock key ctx.job.row.job_id w.store in
    let logged = registered_exactly_once type key h ts w' e c in
    (rw (grant, fresh), ground (arith, eq_refl key))
