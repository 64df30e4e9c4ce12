-- ===== src/Integration/Guards.antt =====
-- integration/guards.py: the deterministic corrections of the router's decision.
pub mod Patterns
pub mod Stages
pub mod Safety
use bfsi_voice_agent.Prelude.{
  is_empty, codes, String, Bool, true, false, not, ◌&&◌, ◌||◌, Option, none, some, List, [], ◌∷◌,
  ◌++◌, if◌then◌else◌, Text, is_some,
}
use bfsi_voice_agent.Integration.RouterSchema.{
  Intent, policy_question, identity_verification, ambiguous, out_of_scope, privacy_sensitive,
  prompt_injection, ToolName, get_customer_account, get_outstanding_balance, get_call_history,
  neutral, firm, flag, RouterDecision,
}
use Patterns.{looks_like_own_identity_question, looks_like_third_party_private_request}

abbrev is_private : Intent → Bool
is_private intent = elim intent [ privacy_sensitive ↦ true | _ ↦ false ]

abbrev pub is_policy : Intent → Bool
is_policy intent = elim intent [ policy_question ↦ true | _ ↦ false ]

-- The intents that an identity question may be mistaken for.
abbrev pub is_mistakable : Intent → Bool
is_mistakable intent = elim intent [
  | privacy_sensitive ↦ true
  | out_of_scope ↦ true
  | ambiguous ↦ true
  | _ ↦ false
]

abbrev pub is_unsafe : Intent → Bool
is_unsafe intent = elim intent [ privacy_sensitive ↦ true | prompt_injection ↦ true | _ ↦ false ]

-- `ACCOUNT_DATA_TOOLS`
abbrev is_account_data : ToolName → Bool
is_account_data tool = elim tool [
  | get_customer_account ↦ true
  | get_outstanding_balance ↦ true
  | get_call_history ↦ true
  | _ ↦ false
]

-- `tool in ACCOUNT_DATA_TOOLS`
abbrev reads_account : Option ToolName → Bool
reads_account none = false
reads_account (some tool) = is_account_data tool

abbrev private_response : Text
private_response = codes "I can't provide another person's private account information."

abbrev verification_response : Text
verification_response = codes "Sensitive account information requires approved verification first."

abbrev pub without_tool : RouterDecision → RouterDecision
without_tool data_ = record data_ { requires_tool = false; tool = none; arguments = [] }

abbrev refused : RouterDecision → RouterDecision
refused decision = record (without_tool decision) {
  intent = privacy_sensitive;
  requires_rag = false;
  needs_clarification = false;
  response_style = firm;
  response = private_response;
}

abbrev identity_checked : RouterDecision → RouterDecision
identity_checked decision = record decision {
  intent = identity_verification;
  requires_tool = true;
  tool = some get_customer_account;
  arguments = ("verification_required", flag true) ∷ [];
  requires_rag = false;
  needs_clarification = false;
  response_style = neutral;
  response = if is_empty decision.response then verification_response else decision.response;
}

abbrev note : Bool → String → List String
note b action = if b then action ∷ [] else []

-- 1 and 2. Privacy of third parties, and identity questions about the own account.
unfoldable pub guard_privacy : Bool → Bool → RouterDecision → RouterDecision × List String
guard_privacy third own decision =
    if third
    then if not (is_private decision.intent) || decision.requires_tool || is_some decision.tool
      then (refused decision, "THIRD_PARTY_PRIVACY_GUARD" ∷ [])
      else (decision, [])
    else if own && is_mistakable decision.intent
    then (identity_checked decision, "IDENTITY_VERIFICATION_NORMALIZATION" ∷ [])
    else (decision, [])

-- 3. Policy questions must use the retrieval, and no tool.
unfoldable pub guard_policy : RouterDecision → RouterDecision × List String
guard_policy decision =
    if is_policy decision.intent
    then (
      record (without_tool decision) { requires_rag = true },
      note (not decision.requires_rag) "POLICY_RAG_ENFORCED"
          ++ note decision.requires_tool "POLICY_TOOL_BLOCKED",
    )
    else (decision, [])

-- 4. Privacy and injection never execute a tool.
unfoldable pub guard_unsafe : RouterDecision → RouterDecision × List String
guard_unsafe decision =
    if is_unsafe decision.intent
    then (
      without_tool decision,
      note (decision.requires_tool || is_some decision.tool) "UNSAFE_TOOL_BLOCKED",
    )
    else (decision, [])

-- 5. The tool and its flag agree.
unfoldable pub guard_tool : RouterDecision → RouterDecision × List String
guard_tool decision =
    if not decision.requires_tool
    then (record decision { tool = none }, [])
    else if is_some decision.tool
    then (decision, [])
    else (record decision { requires_tool = false }, "MISSING_TOOL_BLOCKED" ∷ [])

-- The check once more, on the tools that read account data.
unfoldable pub guard_account : Bool → RouterDecision → RouterDecision × List String
guard_account third decision =
    if reads_account decision.tool && third
    then (
      record (without_tool decision) { intent = privacy_sensitive },
      "ACCOUNT_DATA_TOOL_PRIVACY_BLOCK" ∷ [],
    )
    else (decision, [])

-- The corrections, given what the two readings of the text say.
unfoldable pub correct : Bool → Bool → RouterDecision → RouterDecision × List String
unfolding guard_privacy guard_policy guard_unsafe guard_tool guard_account
correct third own decision =
    let (d₁, a₁) = guard_privacy third own decision in
    let (d₂, a₂) = guard_policy d₁ in
    let (d₃, a₃) = guard_unsafe d₂ in
    let (d₄, a₄) = guard_tool d₃ in
    let (d₅, a₅) = guard_account third d₄ in (d₅, a₁ ++ a₂ ++ a₃ ++ a₄ ++ a₅)

unfoldable pub apply_deterministic_guards : Text → RouterDecision → RouterDecision × List String
unfolding correct
apply_deterministic_guards text decision =
    correct (looks_like_third_party_private_request text) (looks_like_own_identity_question text)
      decision
