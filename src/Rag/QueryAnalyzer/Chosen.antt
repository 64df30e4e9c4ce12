-- ===== src/Rag/QueryAnalyzer/Chosen.antt =====
-- rag/query_analyzer.py: the domain that is chosen.
use bfsi_voice_agent.Rag.Words.{any_in}
use bfsi_voice_agent.Prelude.{
  if◌then◌else◌, ℕ, ◌≤◌, ◌≡◌, ◌⊎◌, inl, inr, refl, String, Bool, true, false, Option, none, some,
  List, [], ◌∷◌, All, All-In, All-each, All-self, All-sort_latest, In, In-sort_latest, sort_latest,
  Descending, Descending-sort_latest, Text, codes, ◌&&◌, if◌then◌else◌, contains, str_eq, two_ways,
  arith, subst,
}
use bfsi_voice_agent.Rag.QueryAnalyzer.Terms.{domain_terms}
use bfsi_voice_agent.Rag.QueryAnalyzer.Scores.{
  add_score, add_terms, add_domains, add_if, domain_scores, raised, part_payment, payment_made,
  posting_problem, wrong_number, score_of, picked, pick_domain,
}

-- A domain with the highest score.
abbrev pub Highest : String → List (String × ℕ) → Type 0
Highest d scores = (s : ℕ) × In (d, s) scores × All (λ p. score_of p ≤ s) scores

-- A choice and its confidence.
abbrev pub Picks : List (String × ℕ) → Option String × ℕ → Type 0
Picks scores o =
    ((scores ≡ []) × (o ≡ (none, 0)))
    ⊎ ((d : String) × (o.0 ≡ some d) × Highest d scores × (500000 ≤ o.1) × (o.1 ≤ 960000))

picked-Picks :
    (scores : List (String × ℕ)) → Descending score_of scores → Picks scores (picked scores)
picked-Picks [] h = inl (refl, refl)
picked-Picks ((d, s) ∷ rest) h =
    inr (d, refl, (s, inl refl, (omega arith, h.0)), omega arith, omega arith)

Picks-sorted :
    (scores : List (String × ℕ)) (o : Option String × ℕ)
    → Picks (sort_latest score_of scores) o
    → Picks scores o
unfolding sort_latest
Picks-sorted [] o h = h
Picks-sorted (p ∷ ps) o (inl (none_, same)) =
    absurd (subst (In p) none_ (In-sort_latest score_of p (p ∷ ps) (inl refl)))
Picks-sorted (p ∷ ps) o (inr (d, is, (s, there, best), low, high)) =
    let sorted = sort_latest score_of (p ∷ ps) in
    let own = All-sort_latest score_of (λ x. In x (p ∷ ps)) (p ∷ ps) (All-self (p ∷ ps)) in
    inr (
      d,
      is,
      (
        s,
        All-In (λ x. In x (p ∷ ps)) (d, s) sorted own there,
        All-each (λ x. score_of x ≤ s) (p ∷ ps)
            (λ x i.
              All-In (λ x. score_of x ≤ s) x sorted best (In-sort_latest score_of x (p ∷ ps) i)),
      ),
      low,
      high,
    )

-- The choice is that of a domain with the highest score, and there is none only if no domain has a
-- score; its confidence is then between 0.5 and 0.96.
pub pick_domain-Picks : (scores : List (String × ℕ)) → Picks scores (pick_domain scores)
unfolding pick_domain
pick_domain-Picks scores =
    Picks-sorted scores (pick_domain scores)
      (picked-Picks (sort_latest score_of scores) (Descending-sort_latest score_of scores))

module _ (P : String → Type 0) where
  abbrev Named : String × ℕ → Type 0
  Named p = P p.0

  All-add_score :
      (d : String) (w : ℕ) (scores : List (String × ℕ))
      → P d
      → All Named scores
      → All Named (add_score d w scores)
  unfolding add_score
  All-add_score d w [] h all = (h, tt)
  All-add_score d w ((e, s) ∷ rest) h all =
      two_ways (All Named) (str_eq e d) (λ k. (all.0, all.1))
        (λ k. (all.0, All-add_score d w rest h all.1))

  All-add_if :
      (b : Bool) (d : String) (w : ℕ) (scores : List (String × ℕ))
      → P d
      → All Named scores
      → All Named (add_if b d w scores)
  All-add_if true d w scores h all = All-add_score d w scores h all
  All-add_if false d w scores h all = all

  All-add_terms :
      (q : Text) (d : String) (terms : List (Text × ℕ)) (scores : List (String × ℕ))
      → P d
      → All Named scores
      → All Named (add_terms q d terms scores)
  unfolding add_terms
  All-add_terms q d [] scores h all = all
  All-add_terms q d ((phrase, w) ∷ terms) scores h all =
      let next = if contains phrase q then add_score d w scores else scores in
      All-add_terms q d terms next h
        (two_ways (All Named) (contains phrase q) (λ k. All-add_score d w scores h all) (λ k. all))

  All-add_domains :
      (q : Text) (table : List (String × List (Text × ℕ))) (scores : List (String × ℕ))
      → All (λ e. P e.0) table
      → All Named scores
      → All Named (add_domains q table scores)
  unfolding add_domains
  All-add_domains q [] scores h all = all
  All-add_domains q ((d, terms) ∷ rest) scores h all =
      All-add_domains q rest (add_terms q d terms scores) h.1
        (All-add_terms q d terms scores h.0 all)

-- The domains of the knowledge base.
abbrev pub Known : String → Type 0
Known d = str_eq d "account_management" ≡ false

raised-Known :
    (q : Text) (scores : List (String × ℕ))
    → All (Named Known) scores
    → All (Named Known) (raised q scores)
unfolding raised
raised-Known q scores all =
    let part = any_in q part_payment in
    let made = any_in q payment_made in
    let by_part = add_if part "repayment" 50 scores in
    let again = made && contains (codes "pay again") q in
    let first = All-add_if Known part "repayment" 50 scores refl all in
    let by_payment =
      if made && any_in q posting_problem
      then add_score "dispute" 60 by_part
      else add_if again "support" 60 by_part in
    All-add_if Known (any_in q wrong_number) "privacy" 50 by_payment refl (
      two_ways (All (Named Known)) (made && any_in q posting_problem)
        (λ e. All-add_score Known "dispute" 60 by_part refl first)
        (λ e. All-add_if Known again "support" 60 by_part refl first))

terms-Known : All (λ e. Known e.0) domain_terms
terms-Known = (refl, (refl, (refl, (refl, (refl, (refl, (refl, (refl, tt))))))))

pub domain_scores-Known : (q : Text) → All (λ p. Known p.0) (domain_scores q)
unfolding domain_scores
domain_scores-Known q =
    raised-Known q (add_domains q domain_terms [])
      (All-add_domains Known q domain_terms [] terms-Known tt)
