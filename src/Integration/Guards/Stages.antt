-- ===== src/Integration/Guards/Stages.antt =====
-- integration/guards.py: each correction by itself.
use bfsi_voice_agent.Prelude.{◌≡◌, Bool, true, false, none, [], arith, is_some}
use bfsi_voice_agent.Integration.RouterSchema.{privacy_sensitive, RouterDecision}
use bfsi_voice_agent.Integration.Guards.{
  guard_privacy, guard_policy, guard_unsafe, guard_tool, guard_account, is_policy, is_unsafe,
  is_mistakable, without_tool,
}

abbrev pub Toolless : RouterDecision → Type 0
Toolless d = (d.requires_tool ≡ false) × (d.tool ≡ none) × (d.arguments ≡ [])

abbrev pub PolicyToolless : RouterDecision → Type 0
PolicyToolless d = is_policy d.intent ≡ true → (d.requires_rag ≡ true) × Toolless d

abbrev pub UnsafeToolless : RouterDecision → Type 0
UnsafeToolless d = is_unsafe d.intent ≡ true → Toolless d

abbrev pub Consistent : RouterDecision → Type 0
Consistent d = (d.requires_tool ≡ is_some d.tool) × PolicyToolless d × UnsafeToolless d

pub guard_privacy-third :
    (own : Bool) (d : RouterDecision) → (guard_privacy true own d).0.intent ≡ privacy_sensitive
unfolding guard_privacy
guard_privacy-third own d = ground arith

pub guard_policy-PolicyToolless : (d : RouterDecision) → PolicyToolless (guard_policy d).0
unfolding guard_policy
guard_policy-PolicyToolless d = ground arith

pub guard_policy-intent : (d : RouterDecision) → (guard_policy d).0.intent ≡ d.intent
unfolding guard_policy
guard_policy-intent d = ground arith

pub guard_unsafe-intent : (d : RouterDecision) → (guard_unsafe d).0.intent ≡ d.intent
unfolding guard_unsafe
guard_unsafe-intent d = ground arith

pub guard_unsafe-UnsafeToolless :
    (d : RouterDecision)
    → PolicyToolless d
    → PolicyToolless (guard_unsafe d).0 × UnsafeToolless (guard_unsafe d).0
unfolding guard_unsafe
guard_unsafe-UnsafeToolless d h = ground arith

pub guard_tool-intent : (d : RouterDecision) → (guard_tool d).0.intent ≡ d.intent
unfolding guard_tool
guard_tool-intent d = ground arith

pub guard_tool-Consistent :
    (d : RouterDecision) → PolicyToolless d → UnsafeToolless d → Consistent (guard_tool d).0
unfolding guard_tool
guard_tool-Consistent d p u = ground arith

pub guard_account-Consistent :
    (third : Bool) (d : RouterDecision) → Consistent d → Consistent (guard_account third d).0
unfolding guard_account
guard_account-Consistent third d h = ground arith

pub guard_account-Toolless :
    (third : Bool) (d : RouterDecision) → d.tool ≡ none → guard_account third d ≡ (d, [])
unfolding guard_account
guard_account-Toolless third d h = ground arith

without_tool-Toolless : (d : RouterDecision) → Toolless d → without_tool d ≡ d
without_tool-Toolless d h = ground arith

-- Each correction leaves a decision alone that is as it wants it.
pub guard_policy-stable : (d : RouterDecision) → PolicyToolless d → guard_policy d ≡ (d, [])
unfolding guard_policy
guard_policy-stable d h = ground arith

pub guard_unsafe-stable : (d : RouterDecision) → UnsafeToolless d → guard_unsafe d ≡ (d, [])
unfolding guard_unsafe
guard_unsafe-stable d h = ground arith

pub guard_tool-stable :
    (d : RouterDecision) → d.requires_tool ≡ is_some d.tool → guard_tool d ≡ (d, [])
unfolding guard_tool
guard_tool-stable d h = ground arith

pub guard_account-own : (d : RouterDecision) → guard_account false d ≡ (d, [])
unfolding guard_account
guard_account-own d = ground arith

pub guard_privacy-settled :
    (own : Bool) (d : RouterDecision)
    → own ≡ true
    → is_mistakable (guard_privacy false own d).0.intent ≡ false
unfolding guard_privacy
guard_privacy-settled own d h = ground arith

pub guard_privacy-stable_third :
    (own : Bool) (d : RouterDecision)
    → d.intent ≡ privacy_sensitive
    → Toolless d
    → guard_privacy true own d ≡ (d, [])
unfolding guard_privacy
guard_privacy-stable_third own d i h = ground arith

pub guard_privacy-stable_own :
    (own : Bool) (d : RouterDecision)
    → (own ≡ true → is_mistakable d.intent ≡ false)
    → guard_privacy false own d ≡ (d, [])
unfolding guard_privacy
guard_privacy-stable_own own d h = ground arith
