-- ===== src/Rag/QueryAnalyzer.antt =====
-- rag/query_analyzer.py: QueryAnalyzer, on ASCII text. Confidences are in millionths; the entities,
-- which are always empty, are left out.
pub mod Terms
pub mod Scores
pub mod Patterns
pub mod Subqueries
pub mod Consistent
pub mod Chosen
mod Tests
use bfsi_voice_agent.Prelude.{
  ℕ, String, Bool, true, false, not, ◌&&◌, ◌||◌, Option, none, some, List, [], ◌∷◌, if◌then◌else◌,
  length, leb, ◌==◌, Text, codes, lower, strip, collapse, is_space, is_lower,
}
use mathlib.Core.List.{reverse}
use bfsi_voice_agent.Rag.SelfCorrecting.Types.{
  QueryAnalysis, QueryType, policy_question, procedural_question, out_of_scope_query,
  ambiguous_query, multi_part,
}
use bfsi_voice_agent.Rag.Words.{runs, member, distinct, words_where}
use Terms.{hinglish_markers}
use Scores.{domain_scores, pick_domain}
use Patterns.{unsupported_account_action, is_ambiguous, is_out_of_scope_query, no_scores}
use Subqueries.{split_subqueries}

-- `[?.!,;:]`
abbrev pub is_ending : ℕ → Bool
is_ending c = (c == 63) || (c == 46) || (c == 33) || (c == 44) || (c == 59) || (c == 58)

abbrev pub drop_ending : Text → Text
drop_ending [] = []
drop_ending (c ∷ t) = if is_ending c then drop_ending t else c ∷ t

-- `_normalize`
unfoldable pub normalize : Text → Text
unfolding strip collapse
normalize text = strip (reverse (drop_ending (reverse (collapse false (strip (lower text))))))

-- `_language`
unfoldable pub language_of : Text → String
unfolding runs distinct words_where
language_of q =
    let marked =
      words_where (λ w. member w hinglish_markers) (distinct (runs is_lower (lower q))) in
    if leb 2 (length marked) then "hinglish" else "en"

-- A part of the question that is a question of its own.
abbrev pub is_meaningful : Text → Bool
is_meaningful part =
    not (no_scores (domain_scores (normalize part)))
    || leb 4 (length (runs (λ c. not (is_space c)) part))

abbrev pub confidence_or : Option String → ℕ → ℕ
confidence_or none confidence = 600000
confidence_or (some domain) confidence = confidence

abbrev pub of_type :
    QueryType → Option String → Option Text → List Text → String → ℕ → QueryAnalysis
of_type kind domain reason parts language confidence = record {
  query_type = kind;
  domain = domain;
  needs_clarification = false;
  clarification_reason = reason;
  subqueries = parts;
  language = language;
  confidence = confidence;
}

abbrev pub unclear_reason : Text
unclear_reason = codes "The request does not identify a specific supported policy or account issue."

-- The analysis of a query in scope.
abbrev pub analyzed : Text → String → Option String × ℕ → QueryAnalysis
analyzed question language (domain, confidence) =
    let parts = words_where is_meaningful (split_subqueries question) in
    let sure = confidence_or domain confidence in
    if leb 2 (length parts)
    then of_type multi_part domain none parts language sure
    else of_type policy_question domain none [] language sure

unfoldable pub analyze : Text → QueryAnalysis
unfolding normalize language_of unsupported_account_action domain_scores is_out_of_scope_query
    is_ambiguous pick_domain split_subqueries runs words_where
analyze question =
    let q = normalize question in
    let language = language_of q in
    let scores = domain_scores q in
    if unsupported_account_action q
    then of_type procedural_question (some "account_management") none [] language 970000
    else if is_out_of_scope_query q scores
    then of_type out_of_scope_query none none [] language 970000
    else if is_ambiguous q scores
    then record (of_type ambiguous_query none (some unclear_reason) [] language 950000) {
      needs_clarification = true;
    }
    else analyzed question language (pick_domain scores)
