-- ===== src/Rag/QueryRewriter/Tests.antt =====
-- rag/query_rewriter.py at concrete inputs.
use bfsi_voice_agent.Prelude.{◌≡◌, refl, false, none, some, [], codes, Text}
use bfsi_voice_agent.Rag.SelfCorrecting.Types.{QueryAnalysis, policy_question}
use bfsi_voice_agent.Rag.QueryRewriter.{rewrite}

abbrev analysis : QueryAnalysis
analysis = record {
  query_type = policy_question;
  domain = some "privacy";
  needs_clarification = false;
  clarification_reason = none;
  subqueries = [];
  language = "en";
  confidence = 800000;
}

abbrev asked : Text
asked = codes " may my wife know "

rewritten :
    rewrite asked analysis 1
    ≡ codes "may my wife know privacy third party disclosure account information consent"
unfolding rewrite
rewritten = refl

unsure :
    rewrite asked (record analysis { confidence = 779999 }) 1
    ≡ codes
        "may my wife know BFSI customer support policy procedure eligibility current active policy"
unfolding rewrite
unsure = refl
