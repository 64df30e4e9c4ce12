-- ===== src/Rag/QueryAnalyzer/Consistent.antt =====
-- rag/query_analyzer.py: the fields of an analysis agree.
use bfsi_voice_agent.Prelude.{
  ℕ, ◌≤◌, ◌≡◌, inl, inr, refl, sym, ap, String, Bool, true, false, Option, none, some, List, [],
  length, leb, All-In, Text, str_eq, two_ways, arith,
}
use bfsi_voice_agent.Rag.SelfCorrecting.Types.{
  QueryAnalysis, QueryType, procedural_question, ambiguous_query, multi_part,
}
use bfsi_voice_agent.Rag.Words.{words_where}
use bfsi_voice_agent.Rag.QueryAnalyzer.{
  analyze, analyzed, normalize, language_of, is_meaningful, confidence_or,
}
use bfsi_voice_agent.Rag.QueryAnalyzer.Scores.{domain_scores, pick_domain}
use bfsi_voice_agent.Rag.QueryAnalyzer.Patterns.{
  unsupported_account_action, is_ambiguous, is_out_of_scope_query,
}
use bfsi_voice_agent.Rag.QueryAnalyzer.Subqueries.{split_subqueries}
use bfsi_voice_agent.Rag.QueryAnalyzer.Chosen.{
  Highest, pick_domain-Picks, Known, domain_scores-Known,
}

abbrev pub is_ambiguous_type : QueryType → Bool
is_ambiguous_type ambiguous_query = true
is_ambiguous_type _ = false

abbrev pub is_multi_type : QueryType → Bool
is_multi_type multi_part = true
is_multi_type _ = false

abbrev pub is_procedural : QueryType → Bool
is_procedural procedural_question = true
is_procedural _ = false

abbrev pub is_account_management : Option String → Bool
is_account_management none = false
is_account_management (some d) = str_eq d "account_management"

pub record Consistent (scores : List (String × ℕ)) (a : QueryAnalysis) : Type 0 where
  pub unclear : a.needs_clarification ≡ is_ambiguous_type a.query_type
  pub several : is_multi_type a.query_type ≡ leb 2 (length a.subqueries)
  pub single : is_multi_type a.query_type ≡ false → a.subqueries ≡ []
  pub account : is_account_management a.domain ≡ is_procedural a.query_type
  pub scored :
      (d : String) → a.domain ≡ some d → is_procedural a.query_type ≡ false → Highest d scores
  pub at_least : 500000 ≤ a.confidence
  pub at_most : a.confidence ≤ 970000

-- What the choice of a domain gives an analysis.
abbrev Chosen : List (String × ℕ) → Option String × ℕ → Type 0
Chosen scores o =
    (is_account_management o.0 ≡ false)
    × ((d : String) → o.0 ≡ some d → Highest d scores)
    × (500000 ≤ confidence_or o.0 o.1)
    × (confidence_or o.0 o.1 ≤ 970000)

Chosen-none : (scores : List (String × ℕ)) (o : Option String × ℕ) → o ≡ (none, 0) → Chosen scores o
Chosen-none scores o e = rw e (refl, λ d h. cc, omega arith, omega arith)

Chosen-some :
    (q : Text) (o : Option String × ℕ) (d : String)
    → o.0 ≡ some d
    → Highest d (domain_scores q)
    → 500000 ≤ o.1
    → o.1 ≤ 960000
    → Chosen (domain_scores q) o
Chosen-some q o d is h low high =
    let known = All-In (λ p. Known p.0) (d, h.0) (domain_scores q) (domain_scores-Known q) h.1 in
    rw is (known, λ e same. rw (← ap (λ x. some_or d x) same) h, low, omega (arith, high))
  where
    some_or : String → Option String → String
    some_or d none = d
    some_or d (some e) = e

analyzed-Consistent :
    (scores : List (String × ℕ)) (question : Text) (language : String) (o : Option String × ℕ)
    → Chosen scores o
    → Consistent scores (analyzed question language o)
analyzed-Consistent scores question language (domain, confidence) (known, high, low, top) =
    let parts = words_where is_meaningful (split_subqueries question) in
    let sure = confidence_or domain confidence in
    two_ways (Consistent scores) (leb 2 (length parts))
      (λ e. record {
        unclear = refl;
        several = sym e;
        single = λ h. cc;
        account = known;
        scored = λ d h k. high d h;
        at_least = low;
        at_most = top;
      })
      (λ e. record {
        unclear = refl;
        several = refl;
        single = λ h. refl;
        account = known;
        scored = λ d h k. high d h;
        at_least = low;
        at_most = top;
      })

pick_domain-Chosen : (q : Text) → Chosen (domain_scores q) (pick_domain (domain_scores q))
pick_domain-Chosen q =
    let o = pick_domain (domain_scores q) in
    elim (pick_domain-Picks (domain_scores q)) [
      | inl (empty, same) ↦ Chosen-none (domain_scores q) o same
      | inr (d, is, best, low, high) ↦ Chosen-some q o d is best low high
    ]

early :
    (question : Text) (a : QueryAnalysis)
    → a.needs_clarification ≡ is_ambiguous_type a.query_type
    → is_multi_type a.query_type ≡ false
    → a.subqueries ≡ []
    → is_account_management a.domain ≡ is_procedural a.query_type
    → ((d : String)
        → a.domain ≡ some d
        → is_procedural a.query_type ≡ false
        → Highest d (domain_scores (normalize question)))
    → 500000 ≤ a.confidence
    → a.confidence ≤ 970000
    → Consistent (domain_scores (normalize question)) a
early question a unclear one none_ account scored low high = record {
  unclear = unclear;
  several = rw (one, none_) refl;
  single = λ h. none_;
  account = account;
  scored = scored;
  at_least = low;
  at_most = high;
}

-- The fields of an analysis agree, whatever the question: it asks for clarification exactly if its
-- type is ambiguous; it has subqueries, at least two, exactly if it has several parts; its domain is
-- account management exactly if its type is procedural, and any other domain is one with the highest
-- score of the question's words; and its confidence is between 0.5 and 0.97.
pub analyze-Consistent :
    (question : Text) → Consistent (domain_scores (normalize question)) (analyze question)
unfolding analyze
analyze-Consistent question =
    let q = normalize question in
    let language = language_of q in
    let scores = domain_scores q in
    let P = Consistent scores in
    two_ways P (unsupported_account_action q)
      (λ e. early question _ refl refl refl refl (λ d h k. cc) (omega arith) (omega arith))
      (λ e.
        two_ways P (is_out_of_scope_query q scores)
          (λ f. early question _ refl refl refl refl (λ d h k. cc) (omega arith) (omega arith))
          (λ f.
            two_ways P (is_ambiguous q scores)
              (λ g. early question _ refl refl refl refl (λ d h k. cc) (omega arith) (omega arith))
              (λ g.
                analyzed-Consistent scores question language (pick_domain scores)
                  (pick_domain-Chosen q))))
