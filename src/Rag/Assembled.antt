-- ===== src/Rag/Assembled.antt =====
-- rag/self_correcting.py: SelfCorrectingRAG with the parts that its constructor takes or makes.
pub mod Grounded
mod Tests
use bfsi_voice_agent.Prelude.{Text}
use bfsi_voice_agent.Rag.Retriever.{VectorStore, retrieve_from, retrieve_many_from}
use bfsi_voice_agent.Rag.QueryAnalyzer.{analyze}
use bfsi_voice_agent.Rag.EvidenceEvaluator.{evaluate}
use bfsi_voice_agent.Rag.QueryRewriter.{rewrite}
use bfsi_voice_agent.Rag.AnswerGenerator.{generate}
use bfsi_voice_agent.Rag.SelfCorrecting.Types.{Parts, RagConfig}

-- `__init__`
abbrev pub assembled : VectorStore → RagConfig → Parts
assembled store config = record {
  analyze = analyze;
  retrieve_one = retrieve_from store;
  retrieve_many = retrieve_many_from store config;
  evaluate = evaluate config;
  rewrite = rewrite;
  generate = generate;
}
