-- ===== src/Rag/QueryRewriter/Kept.antt =====
-- rag/query_rewriter.py: what a rewritten query holds.
use bfsi_voice_agent.Prelude.{
  ℕ, ◌≡◌, ap, refl, sym, false, not, ◌&&◌, Option, none, some, List, [], ◌∷◌, ◌++◌, leb, str_eq,
  Text, String, strip, is_empty, append_nil, All, two_ways, Occurs, Occurs-right, FirstBlack,
  Trimmed, strip-Occurs, Trimmed-strip,
}
use mathlib.Core.List.{reverse, reverse-append}
use bfsi_voice_agent.Rag.SelfCorrecting.Types.{QueryAnalysis}
use bfsi_voice_agent.Rag.QueryRewriter.{
  domain_expansions, later_expansion, expansion_for, expansion_of, suffix_of, rewrite,
}

expansions-Trimmed : All (λ e. Trimmed e.1) domain_expansions
expansions-Trimmed = (
  (refl, refl),
  (
    (refl, refl),
    (
      (refl, refl),
      ((refl, refl), ((refl, refl), ((refl, refl), ((refl, refl), ((refl, refl), tt))))),
    ),
  ),
)

expansion_for-Trimmed :
    (domain : String) (table : List (String × Text))
    → All (λ e. Trimmed e.1) table
    → Trimmed (expansion_for domain table)
unfolding expansion_for
expansion_for-Trimmed domain [] h = (refl, refl)
expansion_for-Trimmed domain ((d, t) ∷ rest) h =
    two_ways Trimmed (str_eq d domain) (λ e. h.0) (λ e. expansion_for-Trimmed domain rest h.1)

expansion_of-Trimmed :
    (domain : Option String) (confidence : ℕ) → Trimmed (expansion_of domain confidence)
expansion_of-Trimmed none confidence = (refl, refl)
expansion_of-Trimmed (some domain) confidence =
    two_ways Trimmed (not (str_eq domain "") && leb 780000 confidence)
      (λ e. expansion_for-Trimmed domain domain_expansions expansions-Trimmed) (λ e. (refl, refl))

FirstBlack-append : (s t : Text) → FirstBlack s → FirstBlack (s ++ t)
FirstBlack-append [] t h = elim h [ ]
FirstBlack-append (c ∷ s) t h = h

Trimmed-later : (s : Text) → Trimmed s → Trimmed (s ++ later_expansion)
Trimmed-later s h = (
  FirstBlack-append s later_expansion h.0,
  rw (reverse-append s later_expansion)
      (FirstBlack-append (reverse later_expansion) (reverse s) refl),
)

suffix_of-Trimmed :
    (analysis : QueryAnalysis) (iteration : ℕ) → Trimmed (suffix_of analysis iteration)
suffix_of-Trimmed analysis iteration =
    let h = expansion_of-Trimmed analysis.domain analysis.confidence in
    two_ways Trimmed (leb 2 iteration)
      (λ e. Trimmed-later (expansion_of analysis.domain analysis.confidence) h) (λ e. h)

-- A rewritten query still holds the question, without the space around it, and the whole expansion
-- for the domain and the iteration, if the question is not blank.
pub rewrite_keeps :
    (question : Text) (analysis : QueryAnalysis) (iteration : ℕ)
    → is_empty (strip question) ≡ false
    → Occurs (strip question) (rewrite question analysis iteration)
      × Occurs (suffix_of analysis iteration) (rewrite question analysis iteration)
unfolding rewrite
rewrite_keeps question analysis iteration h =
    let q = strip question in
    let s = suffix_of analysis iteration in
    let whole = q ++ (32 ∷ s) in
    (
      strip-Occurs q whole (Trimmed-strip question h) ([], 32 ∷ s, refl),
      strip-Occurs s whole (suffix_of-Trimmed analysis iteration)
          (Occurs-right s (32 ∷ s) q (32 ∷ [], [], ap (λ t. 32 ∷ t) (sym (append_nil s)))),
    )
