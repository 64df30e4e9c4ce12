-- ===== src/Rag/SelfCorrecting/Tests.antt =====
-- rag/self_correcting.py at concrete inputs: the first query finds nothing, and the rewritten one a
-- chunk.
use bfsi_voice_agent.Prelude.{
  ℕ, ◌≤◌, String, ◌≡◌, refl, true, false, none, some, List, [], ◌∷◌, Text, codes, text_eq,
  if◌then◌else◌, length, arith,
}
use bfsi_voice_agent.Rag.StateMachine.{EvidenceVerdict, sufficient, insufficient, start, complete}
use bfsi_voice_agent.Rag.ConflictDetector.{active, broaden_retrieval}
use bfsi_voice_agent.Rag.SelfCorrecting.{answer}
use bfsi_voice_agent.Rag.SelfCorrecting.Wording.{query_can_contain_policy_conflict}
use bfsi_voice_agent.Rag.SelfCorrecting.Active.{prefer_active_policy_versions}
use bfsi_voice_agent.Rag.SelfCorrecting.Evidence.{RetrievedChunk, merge_chunks}
use bfsi_voice_agent.Rag.SelfCorrecting.Types.{
  policy_question, multi_part, RagConfig, Parts, is_sufficient,
}
use bfsi_voice_agent.Rag.SelfCorrecting.Rounds.{answer_bounded, searches, Limited}
use bfsi_voice_agent.Rag.SelfCorrecting.Transitions.{Leads, answer-Leads}
use bfsi_voice_agent.Rag.SelfCorrecting.Answered.{Generated, Supported, answer-Supported}

abbrev chunk : String → ℕ → RetrievedChunk
chunk id score = record {
  chunk = record {
    chunk_id = id;
    document_id = "doc";
    title = codes "Payments";
    text = codes "Partial payments are accepted.";
    version = none;
    effective_date = none;
    status = active;
    domain = none;
  };
  score = score;
}

abbrev asked : Text
asked = codes "may I pay half"

abbrev verdict_on : List RetrievedChunk → EvidenceVerdict
verdict_on [] = insufficient
verdict_on (c ∷ cs) = sufficient

abbrev parts : Parts
parts = record {
  analyze = λ text. record {
    query_type = policy_question;
    domain = none;
    needs_clarification = false;
    clarification_reason = none;
    language = "en";
    subqueries = [];
    confidence = 900000;
  };
  retrieve_one = λ r. if text_eq r.query asked then [] else chunk "c1" 400000 ∷ [];
  retrieve_many = λ rs n. [];
  evaluate = λ text analysis chunks. record {
    verdict = verdict_on chunks;
    confidence = 800000;
    relevance_score = 0;
    conflict_detected = false;
    missing_information = [];
    reason = codes "by count";
    supported_document_ids = [];
  };
  rewrite = λ text analysis i. codes "partial payment";
  generate = λ text chunks document. (some (codes "You may."), []);
}

abbrev config : RagConfig
config = record {
  top_k = 5;
  score_threshold = 180000;
  max_retrieval_iterations = 3;
  low_relevance_threshold = 220000;
  sufficient_threshold = 320000;
  strong_relevance_threshold = 420000;
}

-- The second iteration answers; with one iteration allowed the result abstains.
answers :
    ((answer parts config asked).retrieval_iterations ≡ 2)
    × ((answer parts config asked).correction_actions ≡ broaden_retrieval ∷ [])
    × ((answer parts config asked).answer ≡ some (codes "You may."))
    × ((answer parts (record config { max_retrieval_iterations = 1 }) asked).answerable ≡ false)
unfolding answer query_can_contain_policy_conflict prefer_active_policy_versions
answers = (refl, refl, refl, refl)

abbrev old_chunks : List RetrievedChunk
old_chunks = chunk "a" 300000 ∷ chunk "b" 500000 ∷ []

abbrev new_chunks : List RetrievedChunk
new_chunks = chunk "a" 600000 ∷ chunk "b" 400000 ∷ []

merged : merge_chunks old_chunks new_chunks ≡ chunk "a" 600000 ∷ chunk "b" 500000 ∷ []
unfolding merge_chunks
merged = refl

-- A question with two parts.
abbrev in_two : Parts
in_two = record parts {
  analyze = λ text. record (parts.analyze text) {
    query_type = multi_part;
    subqueries = codes "may I pay half" ∷ codes "and when" ∷ [];
  };
}

-- Two searches for the two parts, and one for the rewritten query.
three_searches :
    ((answer in_two config asked).retrieval_iterations ≡ 2)
    × (length (searches in_two config asked) ≡ 3)
unfolding answer query_can_contain_policy_conflict prefer_active_policy_versions
three_searches = (refl, refl)

answer_bounded_example : Limited 3 2 (answer in_two config asked) (searches in_two config asked)
answer_bounded_example = answer_bounded in_two config asked (omega arith)

answer-Leads_example : Leads start complete (answer parts config asked).state_transitions
answer-Leads_example = answer-Leads parts config asked (omega arith)

answer-Supported_example :
    let r = answer parts config asked in
    (r.answerable ≡ true
      → (r.verdict ≡ sufficient)
        × Generated parts asked r
        × Supported parts asked r.retrieved_chunks r.conflict_resolution)
    × (r.answerable ≡ false
        → (r.answer ≡ none)
          × (r.citations ≡ [])
          × (is_sufficient r.verdict ≡ false)
          × (1 ≤ length r.correction_actions))
answer-Supported_example = answer-Supported parts config asked (omega arith)
