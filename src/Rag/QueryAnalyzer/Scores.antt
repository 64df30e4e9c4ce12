-- ===== src/Rag/QueryAnalyzer/Scores.antt =====
-- rag/query_analyzer.py: the scores of the domains and the choice of one. A score is in tenths, a
-- confidence in millionths.
use bfsi_voice_agent.Rag.Words.{any_in}
use bfsi_voice_agent.Prelude.{
  ℕ, ◌+◌, ◌-◌, ◌*◌, min, String, Bool, true, false, ◌&&◌, Option, none, some, List, [], ◌∷◌,
  if◌then◌else◌, sort_latest, str_eq, Text, codes, contains,
}
use bfsi_voice_agent.Rag.QueryAnalyzer.Terms.{domain_terms}

-- `scores[domain] += weight`, in a dictionary that keeps the order of insertion.
unfoldable pub add_score : String → ℕ → List (String × ℕ) → List (String × ℕ)
add_score domain weight [] = (domain, weight) ∷ []
add_score domain weight ((d, s) ∷ rest) =
    if str_eq d domain then (d, s + weight) ∷ rest else (d, s) ∷ add_score domain weight rest

unfoldable pub add_terms : Text → String → List (Text × ℕ) → List (String × ℕ) → List (String × ℕ)
unfolding add_score contains
add_terms q domain [] scores = scores
add_terms q domain ((phrase, weight) ∷ terms) scores =
    add_terms q domain terms (if contains phrase q then add_score domain weight scores else scores)

unfoldable pub add_domains :
    Text → List (String × List (Text × ℕ)) → List (String × ℕ) → List (String × ℕ)
unfolding add_terms
add_domains q [] scores = scores
add_domains q ((domain, terms) ∷ rest) scores = add_domains q rest (add_terms q domain terms scores)

abbrev pub payment_made : List Text
payment_made =
    codes "already paid"
    ∷ codes "payment kar diya"
    ∷ codes "payment cleared"
    ∷ codes "payment succeeded"
    ∷ codes "transfer is complete"
    ∷ codes "made the payment"
    ∷ []

abbrev pub posting_problem : List Text
posting_problem =
    codes "not showing"
    ∷ codes "show nahi"
    ∷ codes "not updated"
    ∷ codes "update nahi hua"
    ∷ codes "cannot see"
    ∷ codes "can't see"
    ∷ codes "hasn't appeared"
    ∷ codes "not appeared"
    ∷ codes "not reflected"
    ∷ codes "system disagrees"
    ∷ codes "records disagree"
    ∷ []

abbrev pub part_payment : List Text
part_payment =
    codes "partial payment"
    ∷ codes "half payment"
    ∷ codes "pay only part"
    ∷ codes "paid a little"
    ∷ []

abbrev pub wrong_number : List Text
wrong_number = codes "wrong number" ∷ codes "number belongs to someone else" ∷ []

abbrev pub add_if : Bool → String → ℕ → List (String × ℕ) → List (String × ℕ)
add_if true domain weight scores = add_score domain weight scores
add_if false domain weight scores = scores

-- What the scores of the terms are raised by.
unfoldable pub raised : Text → List (String × ℕ) → List (String × ℕ)
unfolding add_score contains
raised q by_terms =
    let by_part = add_if (any_in q part_payment) "repayment" 50 by_terms in
    let made = any_in q payment_made in
    let by_payment =
      if made && any_in q posting_problem
      then add_score "dispute" 60 by_part
      else add_if (made && contains (codes "pay again") q) "support" 60 by_part in
    add_if (any_in q wrong_number) "privacy" 50 by_payment

-- `_domain_scores`
unfoldable pub domain_scores : Text → List (String × ℕ)
unfolding add_domains raised
domain_scores q = raised q (add_domains q domain_terms [])

abbrev pub score_of : String × ℕ → ℕ
score_of p = p.1

abbrev pub second_score : List (String × ℕ) → ℕ
second_score [] = 0
second_score ((d, s) ∷ rest) = s

-- `min(0.96, 0.50 + best * 0.055 + max(0.0, margin) * 0.025)`
abbrev pub domain_confidence : ℕ → ℕ → ℕ
domain_confidence best second = min 960000 (500000 + best * 5500 + (best - second) * 2500)

abbrev pub picked : List (String × ℕ) → Option String × ℕ
picked [] = (none, 0)
picked ((domain, best) ∷ rest) = (some domain, domain_confidence best (second_score rest))

-- `_pick_domain`
unfoldable pub pick_domain : List (String × ℕ) → Option String × ℕ
unfolding sort_latest
pick_domain scores = picked (sort_latest score_of scores)
