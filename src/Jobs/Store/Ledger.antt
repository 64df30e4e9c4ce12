-- ===== src/Jobs/Store/Ledger.antt =====
-- jobs/store.py, `side_effect_once`: how often an effect is granted, over any run of calls.
use bfsi_voice_agent.Prelude.{
  ℕ, ◌+◌, String, ◌≡◌, refl, Bool, false, ◌&&◌, ◌||◌, List, [], ◌∷◌, arith, str_eq, eq_iff, inl,
  inr, Bool-cases, Option-cases, any, any-append, not, if◌then◌else◌,
}
use bfsi_voice_agent.Jobs.Types.{JobStore}
use bfsi_voice_agent.Jobs.Tables.{effect_exists, earliest}
use bfsi_voice_agent.Jobs.Store.{
  submit, claim, claim_found, heartbeat, complete, fail, fail_found, find_held, side_effect_once,
  requeue_dlq,
}
use bfsi_voice_agent.Jobs.Store.Runs.{
  Call, submit_call, claim_call, heartbeat_call, complete_call, fail_call, effect_call,
  requeue_call, apply,
}

-- Whether the call asks for the effect of `key`.
abbrev pub asks : String → Call → Bool
asks key (effect_call now k j detail) = str_eq k key
asks key (submit_call now j k type payload limit) = false
asks key (claim_call now w) = false
asks key (heartbeat_call now j w) = false
asks key (complete_call now j w result) = false
asks key (fail_call now draw j w error) = false
asks key (requeue_call now j) = false

-- Whether the call asks for the effect of `key` and is told to perform it.
abbrev pub granted : String → Call → JobStore → Bool
granted key (effect_call now k j detail) s = str_eq k key && (side_effect_once now k j detail s).0
granted key (submit_call now j k type payload limit) s = false
granted key (claim_call now w) s = false
granted key (heartbeat_call now j w) s = false
granted key (complete_call now j w result) s = false
granted key (fail_call now draw j w error) s = false
granted key (requeue_call now j) s = false

-- How often a run of calls is told to perform the effect of `key`.
unfoldable pub grants : String → List Call → JobStore → ℕ
grants key [] s = 0
grants key (c ∷ cs) s =
    let rest = grants key cs (apply c s) in if granted key c s then 1 + rest else rest

claim_found-side_effects :
    (now : ℕ) (w : String) (s : JobStore) → (claim now w s).1.side_effects ≡ s.side_effects
unfolding claim claim_found
claim_found-side_effects now w s = elim (Option-cases (earliest now s.jobs)) [
  | inl e ↦ rw (e, claim)
  | inr (r, e) ↦ rw (e, claim) (ground arith)
]

fail-side_effects :
    (now draw : ℕ) (j w : String) (error : List ℕ) (s : JobStore)
    → (fail now draw j w error s).1.side_effects ≡ s.side_effects
unfolding fail fail_found
fail-side_effects now draw j w error s = elim (Option-cases (find_held j w s.jobs)) [
  | inl e ↦ rw (e, fail)
  | inr (r, e) ↦ rw (e, fail) (ground arith)
]

pub effect_exists-once :
    (key : String) (now : ℕ) (k j detail : String) (s : JobStore)
    → effect_exists key (side_effect_once now k j detail s).1.side_effects
      ≡ (effect_exists key s.side_effects || str_eq k key)
unfolding side_effect_once
effect_exists-once key now k j detail s = elim (Bool-cases (effect_exists k s.side_effects)) [
  | inl e ↦ rw (e, side_effect_once) (ground (arith, eq_iff k key))
  | inr e ↦ rw (e, side_effect_once) (rw any-append (ground arith))
]

granted_lem :
    (key : String) (c : Call) (s : JobStore)
    → granted key c s ≡ (asks key c && not (effect_exists key s.side_effects))
granted_lem key (effect_call now k j detail) s =
    unfold side_effect_once in ground (arith, eq_iff k key)
granted_lem key (submit_call now j k type payload limit) s = refl
granted_lem key (claim_call now w) s = refl
granted_lem key (heartbeat_call now j w) s = refl
granted_lem key (complete_call now j w result) s = refl
granted_lem key (fail_call now draw j w error) s = refl
granted_lem key (requeue_call now j) s = refl

-- Only `side_effect_once` writes the table, and it leaves its key there.
pub effect_exists-apply :
    (key : String) (c : Call) (s : JobStore)
    → effect_exists key (apply c s).side_effects ≡ (effect_exists key s.side_effects || asks key c)
unfolding apply
effect_exists-apply key (submit_call now j k type payload limit) s = unfold submit in ground arith
effect_exists-apply key (claim_call now w) s = rw claim_found-side_effects (ground arith)
effect_exists-apply key (heartbeat_call now j w) s = unfold heartbeat in ground arith
effect_exists-apply key (complete_call now j w result) s = unfold complete in ground arith
effect_exists-apply key (fail_call now draw j w error) s = rw fail-side_effects (ground arith)
effect_exists-apply key (effect_call now k j detail) s = effect_exists-once key now k j detail s
effect_exists-apply key (requeue_call now j) s = unfold requeue_dlq in ground arith

-- Over any run of calls by any workers, an effect key that has not been used is granted exactly
-- once if any call asks for it and never otherwise, and a used key is never granted again.
pub effect_exactly_once :
    (key : String) (cs : List Call) (s : JobStore)
    → grants key cs s
      ≡ (if effect_exists key s.side_effects then 0 else if any (asks key) cs then 1 else 0)
unfolding grants
effect_exactly_once key [] s = ground arith
effect_exactly_once key (c ∷ cs) s = ground (
  arith,
  effect_exactly_once key cs (apply c s),
  effect_exists-apply key c s,
  granted_lem key c s,
)
