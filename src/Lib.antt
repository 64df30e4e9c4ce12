-- ===== src/Lib.antt =====
-- The BFSI voice agent: models of its deterministic core, and theorems about them.
--
-- The program is a voice agent for banking customers. A caller's speech is cut into turns
-- (voice/turn_manager.py); a language model routes each turn's text to a decision, which
-- deterministic guards correct (integration/guards.py); a decision may run a business tool, for
-- which the caller's identity is verified in the session (business/verification.py) and which reads
-- and writes the business tables (business/repository.py); a decision may ask the knowledge base,
-- whose pipeline (rag/self_correcting.py) analyzes the question, retrieves evidence, evaluates it,
-- rewrites the query if need be, and answers by quoting; and what must be delivered goes as a job
-- through a store of jobs and its workers (jobs/store.py, jobs/worker.py), which survive crashes.
--
-- Files, and the code that each models:
--   Jobs/Types, Jobs/Tables, Jobs/Store: jobs/store.py. JobStore is a record of its three tables
--     and its settings; submit, claim, heartbeat, complete, fail, side_effect_once, requeue_dlq and
--     get are functions of those names, as are list and stats in Store/Reports; delay_for is
--     RetryPolicy.delay_for. The child modules of Jobs/Store prove what runs of these keep.
--   Jobs/Worker: jobs/worker.py. A handler is a chain of steps on a world that holds the store and
--     the log of effects, and that may end in an exception; run_once is Worker.run_once.
--   Business/Verification: business/verification.py. VerificationRegistry holds its sessions as an
--     association list; begin, consume_input, is_verified and the rest carry the methods' names,
--     and Business/Verification/Digits is _extract_four_digits.
--   Business/Executor: BusinessToolExecutor of business/executor.py, with Business/Schemas for
--     business/schemas.py. Executor/Arguments reads the model's arguments, Executor/Dates is
--     _parse_date_string and _validate_datetime, Dates/Said is _extract_dates and
--     _validate_explicit_date, Handlers and Recorded are the ten handlers, and execute dispatches.
--     A handler's attempt ends in a result or in the class of an exception of the storage: the one
--     that the constraints of the tables raise, or any other that the context of the call names for
--     the SELECTs, the transaction of the row or that of the call event. An exception of the query
--     for the customer, which stands outside the try of execute, is left.
--   Business/Repository: business/repository.py, and Business/Repository/Tables and Seed: the
--     tables and the demo data of business/db.py.
--   Business/Durable: DurableWriteExecutor of business/durable_executor.py, around any executor.
--   Integration/Orchestrator: BFSIOrchestrator of integration/orchestrator.py. handle_turn is
--     handle; the router, the retrieval and the executor of tools are its arguments, and
--     Orchestrator/Turns joins it with the modelled executor, Orchestrator/Quoted with the
--     assembled pipeline of rag/.
--   Integration/RouterSchema, Integration/Guards: integration/router_schema.py,
--     integration/guards.py. apply_deterministic_guards is composed of its numbered corrections;
--     Guards/Patterns is what it reads in the text.
--   Rag/StateMachine, Rag/ConflictDetector: rag/state_machine.py, rag/conflict_detector.py and the
--     types of rag/schemas.py that they use; ConflictDetector/Patterns is the two regular
--     expressions.
--   Rag/SelfCorrecting: SelfCorrectingRAG of rag/self_correcting.py. answer is answer, and its loop
--     is SelfCorrecting/Loop; the parts that it calls are the record Parts, so it is modelled for
--     any parts, and Rag/Assembled fills in those of the constructor. SelfCorrecting/Wording is
--     _query_can_contain_policy_conflict, SelfCorrecting/Active is _prefer_active_policy_versions
--     (a document id ends in no newline), and SelfCorrecting/Evidence is _merge_chunks and
--     _relevant_chunks.
--   Rag/QueryAnalyzer: rag/query_analyzer.py. analyze is QueryAnalyzer.analyze; Terms holds the
--     tables, Scores is _domain_scores and _pick_domain, Patterns the two lists of regular
--     expressions, each written out by its pieces, and Subqueries is _split_subqueries.
--   Rag/Retriever: rag/retriever.py, and search of rag/vector_store.py. retrieve_from and
--     retrieve_many_from are retrieve and retrieve_many; what the embedding model and the index
--     answer is the function `index` of the store.
--   Rag/EvidenceEvaluator: rag/evidence_evaluator.py. Overlap is the lexical overlap, Ranked is
--     _rank_supported_chunks and _supported_chunks, evaluate is evaluate.
--   Rag/QueryRewriter, Rag/AnswerGenerator: rag/query_rewriter.py, rag/answer_generator.py.
--     AnswerGenerator/Scoring is _score_sentence, Sentences is _split_sentences. Rag/Words is the
--     tokens, which the evaluator and the generator share.
--   Voice/TurnManager: voice/turn_manager.py. A timer is the time at which it wakes; that a timer
--     wakes is a step of its own, so every interleaving is a list of events.
--   Voice/Idempotency: SessionWriteIdempotency of voice/idempotency.py.
--   Prelude: Boolean tests, lists over the native numbers, and the texts that the program walks.
-- Each component has a module Tests with concrete runs.
--
-- Conventions. Times are whole numbers: microseconds in the jobs and the verification, milliseconds
-- in the turn manager, seconds in the business tables. Balances are in hundredths, and reported
-- amounts and the numbers among the model's arguments in millionths. Clocks, fresh ids and random
-- draws are arguments. A SQLite transaction is one step with one reading of the clock; where ORDER
-- BY leaves a tie, the row that was inserted first comes first. The delays of the retry policy are
-- computed in milliseconds with the jitter in thousandths. PBKDF2 is a parameter `derive`. Text is
-- ASCII: on it, Python's str methods and \s, \w, \b of regular expressions are what
-- Prelude/Texts and Guards/Patterns define. Scores, thresholds and confidences of the retrieval are
-- in millionths, where a quotient is rounded down; the evaluator's combined scores are in
-- hundredths of a millionth and the analyzer's weights in tenths, so that they are exact but for
-- the quotients. A set of words is a list without repetition. The rank of a chunk, which nothing
-- reads, is left out. The numeric texts that a job's payload may hold are runs of digits. The
-- detail of a job event and the text of a traceback are structured values in place of their JSON
-- and formatting.
--
-- Fuel and termination. All functions recurse on their data, except the decimal print-out of a
-- number, whose fuel is the number itself and one more (Prelude/Decimal: decimal_fuel_enough), and
-- the sleep of a test failure, whose fuel is the time to wait in microseconds (Jobs/Worker/Sleep:
-- sleep_until-ends). The correction loop of the retrieval recurses on the iterations that are left,
-- and SelfCorrecting/Rule shows that it ends in a branch of the source and not for want of them. Each
-- call of the retriever records the searches that it makes in the field searched of Progress, which
-- nothing else reads and the source does not keep.
--
-- Not modelled: the model routers, which call language models; the ingestion, chunking and storage
-- of the documents and the baseline of the retrieval; the language layer and the runtime of the
-- voice part; HTTP, evaluation and scripts; logging everywhere.
pub mod Prelude
pub mod Business
pub mod Integration
pub mod Jobs
pub mod Rag
pub mod Voice
