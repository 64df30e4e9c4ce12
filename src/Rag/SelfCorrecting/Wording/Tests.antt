-- ===== src/Rag/SelfCorrecting/Wording/Tests.antt =====
-- rag/self_correcting.py: the questions of the docstring.
use bfsi_voice_agent.Prelude.{◌≡◌, refl, true, false, codes}
use bfsi_voice_agent.Rag.SelfCorrecting.Wording.{query_can_contain_policy_conflict}

latest_rule :
    query_can_contain_policy_conflict (codes "What is the latest  collections rule?") ≡ true
unfolding query_can_contain_policy_conflict
latest_rule = refl

five_day : query_can_contain_policy_conflict (codes "the previous Five-day limit") ≡ true
unfolding query_can_contain_policy_conflict
five_day = refl

disagree : query_can_contain_policy_conflict (codes "The documents disagree.") ≡ true
unfolding query_can_contain_policy_conflict
disagree = refl

not_current : query_can_contain_policy_conflict (codes "Mark my account fully current") ≡ false
unfolding query_can_contain_policy_conflict
not_current = refl

payment_current : query_can_contain_policy_conflict (codes "is my payment current?") ≡ false
unfolding query_can_contain_policy_conflict
payment_current = refl

-- The window between the words is at most forty characters.
far_apart :
    query_can_contain_policy_conflict
      (codes "is my current balance of the loan that i took out last year under this policy")
    ≡ false
unfolding query_can_contain_policy_conflict
far_apart = refl
