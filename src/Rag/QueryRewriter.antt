-- ===== src/Rag/QueryRewriter.antt =====
-- rag/query_rewriter.py: QueryRewriter. A confidence is in millionths.
pub mod Kept
mod Tests
use bfsi_voice_agent.Prelude.{
  ℕ, String, Bool, true, false, not, ◌&&◌, Option, none, some, List, [], ◌∷◌, ◌++◌, if◌then◌else◌,
  leb, str_eq, Text, codes, strip,
}
use bfsi_voice_agent.Rag.SelfCorrecting.Types.{QueryAnalysis}

abbrev pub domain_expansions : List (String × Text)
domain_expansions =
    (
      "hardship",
      codes "financial hardship reduced income unemployment temporary difficulty assistance",
    )
    ∷ (
      "collections",
      codes "collections overdue grace period due date promise-to-pay current policy",
    )
    ∷ ("repayment", codes "repayment partial payment instalment structured repayment arrangement")
    ∷ ("privacy", codes "privacy third party disclosure account information consent")
    ∷ (
      "dispute",
      codes "payment dispute transaction posted missing payment records mismatch investigation",
    )
    ∷ ("identity", codes "identity verification authentication account information security")
    ∷ ("escalation", codes "human escalation specialist callback support handoff")
    ∷ ("support", codes "customer support FAQ support hours payment already made posting status")
    ∷ []

abbrev pub generic_expansion : Text
generic_expansion = codes "BFSI customer support policy procedure eligibility current active policy"

abbrev pub later_expansion : Text
later_expansion = codes " authoritative applicable rule customer request"

-- `DOMAIN_EXPANSIONS.get(domain, GENERIC_EXPANSION)`
unfoldable pub expansion_for : String → List (String × Text) → Text
expansion_for domain [] = generic_expansion
expansion_for domain ((d, t) ∷ rest) = if str_eq d domain then t else expansion_for domain rest

abbrev pub expansion_of : Option String → ℕ → Text
expansion_of none confidence = generic_expansion
expansion_of (some domain) confidence =
    if not (str_eq domain "") && leb 780000 confidence
    then expansion_for domain domain_expansions
    else generic_expansion

abbrev pub suffix_of : QueryAnalysis → ℕ → Text
suffix_of analysis iteration =
    let suffix = expansion_of analysis.domain analysis.confidence in
    if leb 2 iteration then suffix ++ later_expansion else suffix

unfoldable pub rewrite : Text → QueryAnalysis → ℕ → Text
unfolding strip expansion_for
rewrite question analysis iteration = strip (strip question ++ (32 ∷ suffix_of analysis iteration))

unfoldable pub decompose : Text → QueryAnalysis → List Text
unfolding rewrite
decompose question analysis = elim analysis.subqueries [
  | [] ↦ rewrite question analysis 1 ∷ []
  | q ∷ qs ↦ q ∷ qs
]
