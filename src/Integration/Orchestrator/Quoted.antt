-- ===== src/Integration/Orchestrator/Quoted.antt =====
-- integration/orchestrator.py: what a response takes from the retrieval, and turns with the assembled
-- pipeline of rag/.
use bfsi_voice_agent.Prelude.{
  All-In, ◌≤◌, ◌≡◌, ◌∙◌, ◌⊎◌, inl, inr, refl, sym, ap, subst, String, Bool, true, false, not, ◌||◌,
  Option, none, some, List, [], ◌∷◌, ◌++◌, any, str_eq, map, length, All, All-append, In, two_ways,
  Text, codes, arith,
}
use bfsi_voice_agent.Rag.ConflictDetector.{Chunk}
use bfsi_voice_agent.Rag.SelfCorrecting.{answer}
use bfsi_voice_agent.Rag.SelfCorrecting.Types.{RagResult, RagConfig, Citation}
use bfsi_voice_agent.Rag.Retriever.{VectorStore}
use bfsi_voice_agent.Rag.AnswerGenerator.{Candidate, answer_from}
use bfsi_voice_agent.Rag.AnswerGenerator.Cited.{CitesOne, answer_from-cites}
use bfsi_voice_agent.Rag.Assembled.{assembled}
use bfsi_voice_agent.Rag.Assembled.Grounded.{Stored, answer-FromStore}
use bfsi_voice_agent.Business.Schemas.{ToolExecutionResult}
use bfsi_voice_agent.Integration.RouterSchema.{RouterDecision, Argument, ToolName}
use bfsi_voice_agent.Integration.Guards.{apply_deterministic_guards}
use bfsi_voice_agent.Integration.Orchestrator.{
  is_empty, ℕ, Source, IntegratedResponse, Routed, decided, raised, citations_from, citations_of,
  text_or, after_tool, build_response, unanswered, run_with, tool_to_run, run_tool, carry_out,
  handle_turn,
}
use bfsi_voice_agent.Integration.Orchestrator.Sources.{branches}

abbrev pub is_rag : Source → Bool
is_rag Source.rag = true
is_rag _ = false

-- The text of a response from the retrieval alone.
abbrev pub rag_text : Option Text → Text
rag_text t = text_or t (codes "I found relevant policy information.")

-- A response takes its citations from the retrieval `r` if it has any, and its text if it says so.
abbrev pub Rooted : RagResult → IntegratedResponse → Type 0
Rooted r o =
    ((o.rag_citations ≡ []) ⊎ ((r.answerable ≡ true) × (o.rag_citations ≡ citations_of r)))
    × (is_rag o.source ≡ true → (r.answerable ≡ true) × (o.final_response ≡ rag_text r.answer))

module _ {D : Type 0}
    (tools : String → List (String × Argument) → Text → String → D → ToolExecutionResult × D)
    (customer : String) (user_text : Text) (r : RagResult) where
  after_tool-Rooted :
      (decision : RouterDecision) (actions : List String) (t : ToolExecutionResult)
      → Rooted r (after_tool user_text decision actions none t)
        × (r.answerable ≡ true → Rooted r (after_tool user_text decision actions (some r) t))
  unfolding after_tool build_response
  after_tool-Rooted decision actions t = (
    two_ways (Rooted r) t.needs_clarification (λ e. (inl refl, λ h. cc))
        (λ e.
          two_ways (Rooted r) (not t.success) (λ f. (inl refl, λ h. cc))
            (λ f. (inl refl, λ h. cc))),
    λ yes_.
        two_ways (Rooted r) t.needs_clarification (λ e. (inr (yes_, refl), λ h. cc))
          (λ e.
            two_ways (Rooted r) (not t.success) (λ f. (inr (yes_, refl), λ h. cc))
              (λ f. (inr (yes_, refl), λ h. cc))),
  )

  run_with-Rooted :
      (decision : RouterDecision) (actions : List String) (d : D) (t : Option ToolName)
      → Rooted r (run_with tools customer user_text decision actions none d t).0
        × (r.answerable ≡ true
            → Rooted r (run_with tools customer user_text decision actions (some r) d t).0)
  unfolding build_response
  run_with-Rooted decision actions d none =
      ((inl refl, λ h. cc), λ yes_. (inr (yes_, refl), λ h. (yes_, refl)))
  run_with-Rooted decision actions d (some t) = after_tool-Rooted decision actions _

module _ {D : Type 0}
    (tools : String → List (String × Argument) → Text → String → D → ToolExecutionResult × D)
    (customer : String) (user_text : Text) where
  not_rag :
      (decision : RouterDecision) (actions : List String) (r : RagResult)
      → is_rag (unanswered user_text decision actions r).source ≡ false
  not_rag decision actions r =
      two_ways (λ s. is_rag s ≡ false) (is_empty (text_or r.clarification_question []))
        {w = Source.safe_fallback} {x = Source.clarification} (λ e. refl) (λ e. refl)

  carry_out-Rooted :
      (ask : Text → RagResult) (decision : RouterDecision) (actions : List String) (d : D)
      → Rooted (ask user_text) (carry_out tools customer user_text ask decision actions d).0
  unfolding carry_out run_tool
  carry_out-Rooted ask decision actions d =
      let r = ask user_text in
      let P : IntegratedResponse × D → Type 0 = λ o. Rooted r o.0 in
      let t = tool_to_run decision.requires_tool decision.tool in
      let (without, with_) = run_with-Rooted tools customer user_text r decision actions d t in
      branches P decision.needs_clarification decision.requires_rag r.answerable (inl refl, λ h. cc)
        without (λ e. (inl refl, λ h. absurd (ground (arith, h, not_rag decision actions r)))) with_

  -- A response takes nothing but the answer of an answerable retrieval.
  pub handle_turn-Rooted :
      (routed : Routed) (ask : Text → RagResult) (d : D)
      → Rooted (ask user_text) (handle_turn tools customer user_text routed ask d).0
  unfolding handle_turn
  handle_turn-Rooted (raised name) ask d = (inl refl, λ h. cc)
  handle_turn-Rooted (decided raw) ask d =
      let (decision, actions) = apply_deterministic_guards user_text raw in
      carry_out-Rooted ask decision actions d

module _ (P : String → Type 0) where
  All-citations_from :
      (seen cs : List String) → All P seen → All P cs → All P (citations_from seen cs)
  unfolding citations_from
  All-citations_from seen [] h k = h
  All-citations_from seen (c ∷ cs) h k =
      two_ways (All P) (str_eq c "" || any (λ s. str_eq s c) seen)
        (λ e. All-citations_from seen cs h k.1)
        (λ e. All-citations_from (seen ++ (c ∷ [])) cs (All-append P seen (c ∷ []) h (k.0, tt)) k.1)

-- A document of a chunk of the store.
abbrev pub OfStore : VectorStore → String → Type 0
OfStore store d = (c : Chunk) × In c store.chunks × (c.document_id ≡ d)

cited-OfStore :
    (store : VectorStore) (threshold : ℕ) (cs : List Candidate) (xs : List Citation)
    → All (Stored store threshold) cs
    → All (CitesOne cs) xs
    → All (OfStore store) (map Citation.document_id xs)
cited-OfStore store threshold cs [] stored h = tt
cited-OfStore store threshold cs (x ∷ xs) stored ((c, i, same), h) = (
  (
    c.chunk.chunk,
    (All-In (Stored store threshold) c cs stored i).0.0,
    sym (ap Citation.document_id same),
  ),
  cited-OfStore store threshold cs xs stored h,
)

-- What a response says of the policy is in the knowledge base: whatever the router decides and the
-- tools do, in a turn whose retrieval is the assembled pipeline, with at least one iteration and a
-- threshold of low relevance that is at most that of strong relevance, every document that the
-- response cites is one of a chunk of the store, and a response from the retrieval alone is the
-- opening followed by at most three sentences of chunks of the store, or the stock text if there is
-- no such sentence.
pub handle_turn-Quotes :
    {D : Type 0}
    (tools : String → List (String × Argument) → Text → String → D → ToolExecutionResult × D)
    (customer : String) (user_text : Text) (routed : Routed) (store : VectorStore)
    (config : RagConfig) (d : D)
    → 1 ≤ config.max_retrieval_iterations
    → config.low_relevance_threshold ≤ config.strong_relevance_threshold
    → let o =
        (handle_turn tools customer user_text routed
          (answer (assembled store config) config)
          d).0 in
      All (OfStore store) o.rag_citations
      × (is_rag o.source ≡ true
          → (cs : List Candidate) × (length cs ≤ 3)
            × All (Stored store config.score_threshold) cs
            × (o.final_response ≡ rag_text (answer_from cs).0))
handle_turn-Quotes tools customer user_text routed store config d some_ le =
    let parts = assembled store config in
    let r = answer parts config user_text in
    let o = (handle_turn tools customer user_text routed (answer parts config) d).0 in
    let (cites, texts) =
      handle_turn-Rooted tools customer user_text routed (answer parts config) d in
    (
      elim cites [
        | inl none_ ↦ subst (All (OfStore store)) (sym none_) tt
        | inr (yes_, same) ↦
            let (cs, few, stored, answers, citations) =
              (answer-FromStore store config user_text some_ le yes_).1 in
            subst (All (OfStore store)) (sym same) (
              All-citations_from (OfStore store) [] (map Citation.document_id r.citations) tt (
                subst (λ xs. All (OfStore store) (map Citation.document_id xs)) (sym citations)
                  (cited-OfStore store config.score_threshold cs (answer_from cs).1 stored
                    (answer_from-cites cs).0)))
      ],
      λ h.
          let (yes_, same) = texts h in
          let (cs, few, stored, answers, citations) =
            (answer-FromStore store config user_text some_ le yes_).1 in
          (cs, few, stored, same ∙ ap rag_text answers),
    )
