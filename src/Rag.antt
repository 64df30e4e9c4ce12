-- ===== src/Rag.antt =====
-- rag/: the pipeline that answers questions from the knowledge base, its parts and its states.
pub mod StateMachine
pub mod ConflictDetector
pub mod SelfCorrecting
pub mod Words
pub mod Retriever
pub mod QueryAnalyzer
pub mod EvidenceEvaluator
pub mod AnswerGenerator
pub mod QueryRewriter
pub mod Assembled
mod Tests
