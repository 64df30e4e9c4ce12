-- ===== src/Rag/QueryAnalyzer/Tests.antt =====
-- rag/query_analyzer.py at concrete inputs.
use bfsi_voice_agent.Prelude.{ℕ, String, ◌≡◌, refl, true, none, some, List, [], ◌∷◌, Text, codes}
use bfsi_voice_agent.Rag.SelfCorrecting.Types.{
  policy_question, procedural_question, out_of_scope_query, ambiguous_query,
}
use bfsi_voice_agent.Rag.QueryAnalyzer.{analyze, of_type, unclear_reason, normalize}
use bfsi_voice_agent.Rag.QueryAnalyzer.Consistent.{Consistent, analyze-Consistent}
use bfsi_voice_agent.Rag.QueryAnalyzer.Scores.{domain_scores, pick_domain}
use bfsi_voice_agent.Rag.QueryAnalyzer.Subqueries.{split_subqueries}

normalized : normalize (codes "  What  now ?! ") ≡ codes "what now"
unfolding normalize
normalized = refl

split :
    split_subqueries (codes "Can I pay half; and What is the grace period AND also mandatory?")
    ≡ codes "Can I pay half" ∷ codes "What is the grace period" ∷ codes "mandatory" ∷ []
unfolding split_subqueries
split = refl

-- "partial payment" 4.5 and 5.0 more, against nothing: 0.5 + 9.5 * 0.08, cut at 0.96.
repayment_question :
    analyze (codes "is a partial payment fine?")
    ≡ of_type policy_question (some "repayment") none [] "en" 960000
unfolding analyze
repayment_question = refl

-- "human" 4.0 and nothing else: 0.5 + 4 * 0.08.
one_term :
    analyze (codes "let me reach a human now")
    ≡ of_type policy_question (some "escalation") none [] "en" 820000
unfolding analyze
one_term = refl

account_closing :
    analyze (codes "please CLOSE my old account")
    ≡ of_type procedural_question (some "account_management") none [] "en" 970000
unfolding analyze
account_closing = refl

new_card :
    analyze (codes "send a new debitcard")
    ≡ of_type procedural_question (some "account_management") none [] "en" 970000
unfolding analyze
new_card = refl

weather :
    analyze (codes "weather tomorrow in the mountain area")
    ≡ of_type out_of_scope_query none none [] "en" 970000
unfolding analyze
weather = refl

vague :
    analyze (codes "What now?")
    ≡ record (of_type ambiguous_query none (some unclear_reason) [] "en" 950000) {
      needs_clarification = true;
    }
unfolding analyze
vague = refl

hinglish : (analyze (codes "emi bharna mushkil hai abhi")).language ≡ "hinglish"
unfolding analyze
hinglish = refl

-- Two questions in one; the first names a domain and the second is long enough.
abbrev twofold : Text
twofold = codes "Can I make a partial payment; and also what happens after that"

analyze-Consistent_example : Consistent (domain_scores (normalize twofold)) (analyze twofold)
analyze-Consistent_example = analyze-Consistent twofold

abbrev some_scores : List (String × ℕ)
some_scores = ("support", 20) ∷ ("dispute", 60) ∷ ("privacy", 60) ∷ []

chosen : pick_domain some_scores ≡ (some "dispute", 830000)
unfolding pick_domain
chosen = refl
