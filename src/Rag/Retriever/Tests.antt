-- ===== src/Rag/Retriever/Tests.antt =====
-- rag/retriever.py at concrete inputs.
use bfsi_voice_agent.Prelude.{String, ◌≡◌, refl, some, none, [], ◌∷◌, length, codes}
use bfsi_voice_agent.Rag.ConflictDetector.{Chunk, DocumentStatus, active, superseded}
use bfsi_voice_agent.Rag.SelfCorrecting.Types.{SearchRequest, RagConfig}
use bfsi_voice_agent.Rag.Retriever.{VectorStore, retrieve_from, retrieve_many_from}

abbrev piece : String → String → DocumentStatus → Chunk
piece id domain status = record {
  chunk_id = id;
  document_id = id;
  title = [];
  text = codes "Seven days.";
  version = none;
  effective_date = none;
  status = status;
  domain = some domain;
}

-- The index answers with the three chunks, one too weak, and one empty place.
abbrev store : VectorStore
store = record {
  chunks =
      piece "a" "support" superseded
      ∷ piece "b" "collections" superseded
      ∷ piece "c" "support" active
      ∷ [];
  index = λ query k.
      (some 0, some 400000) ∷ (some 1, some 350000) ∷ (some 2, some 100000) ∷ (none, none) ∷ [];
}

abbrev request : SearchRequest
request = record {
  query = codes "grace";
  top_k = 2;
  score_threshold = 180000;
  domain = some "collections";
}

-- The boost of the domain puts the second first.
ranked :
    retrieve_from store request
    ≡ record { chunk = piece "b" "collections" superseded; score = 350000 }
      ∷ record { chunk = piece "a" "support" superseded; score = 400000 }
      ∷ []
unfolding retrieve_from
ranked = refl

abbrev config : RagConfig
config = record {
  top_k = 1;
  score_threshold = 180000;
  max_retrieval_iterations = 3;
  low_relevance_threshold = 220000;
  sufficient_threshold = 320000;
  strong_relevance_threshold = 420000;
}

both_requests : length (retrieve_many_from store config (request ∷ request ∷ []) 5) ≡ 2
unfolding retrieve_many_from
both_requests = refl
