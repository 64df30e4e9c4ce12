-- ===== src/Rag/AnswerGenerator/Tests.antt =====
-- rag/answer_generator.py at concrete inputs.
use bfsi_voice_agent.Prelude.{◌+◌, String, ◌≡◌, refl, none, some, [], ◌∷◌, codes}
use bfsi_voice_agent.Rag.ConflictDetector.{active}
use bfsi_voice_agent.Rag.SelfCorrecting.Evidence.{RetrievedChunk}
use bfsi_voice_agent.Rag.AnswerGenerator.{generate, citation_of}
use bfsi_voice_agent.Rag.AnswerGenerator.Cited.{Quotes, generate-Quotes}
use bfsi_voice_agent.Rag.AnswerGenerator.Sentences.{split_sentences}
use bfsi_voice_agent.Rag.AnswerGenerator.Scoring.{score_sentence}

abbrev chunk : String → String → RetrievedChunk
chunk document text = record {
  chunk = record {
    chunk_id = document;
    document_id = document;
    title = [];
    text = codes text;
    version = none;
    effective_date = none;
    status = active;
    domain = none;
  };
  score = 400000;
}

sentences :
    split_sentences (codes "# Rules.  Pay   today! ## Or not 1.5")
    ≡ codes "Rules." ∷ codes "Pay today!" ∷ codes "Or not 1.5" ∷ []
unfolding split_sentences
sentences = refl

-- One word of two shared, the bonus of "cannot", the score, the rank and the place.
scored :
    score_sentence (codes "lunch dinner") (codes "Lunch cannot wait.") 400000 2 1
    ≡ 3000000 + 700000 + 900000 + 600000 + 150000 + 15000
unfolding score_sentence
scored = refl

abbrev faq : RetrievedChunk
faq = chunk "faq" "Lunch is at noon. Dinner is late. LUNCH is at  noon."

abbrev macros : RetrievedChunk
macros = chunk "support_macros" "Lunch lunch."

answered : generate (codes "when is lunch") (macros ∷ faq ∷ []) none ≡ (
  some (codes "Based on the available policy: Lunch is at noon. Dinner is late."),
  citation_of faq ∷ [],
)
unfolding generate
answered = refl

only_macros :
    generate (codes "when is lunch") (macros ∷ []) none
    ≡ (some (codes "Based on the available policy: Lunch lunch."), citation_of macros ∷ [])
unfolding generate
only_macros = refl

-- Blank evidence gives no answer.
blank : generate (codes "when is lunch") (chunk "d" " # " ∷ []) none ≡ (none, [])
unfolding generate
blank = refl

generate-Quotes_example :
    Quotes (macros ∷ faq ∷ []) (generate (codes "when is lunch") (macros ∷ faq ∷ []) none)
generate-Quotes_example = generate-Quotes (codes "when is lunch") (macros ∷ faq ∷ []) none
