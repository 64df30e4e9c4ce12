-- ===== src/Rag/QueryAnalyzer/Patterns.antt =====
-- rag/query_analyzer.py: the patterns of a normalized query, which is in lower case and has no newline.
use bfsi_voice_agent.Prelude.{
  ℕ, String, Bool, true, false, not, ◌&&◌, ◌||◌, none, some, List, [], ◌∷◌, any, length, leb, ltb,
  Text, codes, starts_with, contains, after, strip_left,
}
use bfsi_voice_agent.Rag.SelfCorrecting.Wording.{word_then, at_boundary}
use bfsi_voice_agent.Rag.QueryAnalyzer.Terms.{out_of_scope_terms}
use bfsi_voice_agent.Rag.Words.{runs, is_plain, member, distinct, words_where}

abbrev pub anything : Text → Bool
anything t = true

-- `\b(?:words)\b.*\b(?:others)\b`
unfoldable pub later : List Text → List Text → Text → Bool
unfolding at_boundary after
later words others q =
    at_boundary (word_then words (at_boundary (word_then others anything) true)) false q

-- `\b(?:words)\b`
unfoldable pub stands : List Text → Text → Bool
unfolding at_boundary after
stands words q = at_boundary (word_then words anything) false q

-- `p\b` somewhere.
abbrev pub ends_somewhere : Text → Text → Bool
ends_somewhere p [] = false
ends_somewhere p (c ∷ t) = word_then (p ∷ []) anything (c ∷ t) || ends_somewhere p t

-- `p.*r\b`, at the start.
abbrev pub then_ends : Text → Text → Text → Bool
then_ends p r t = elim (after p t) [ none ↦ false | some rest ↦ ends_somewhere r rest ]

-- `(debit|credit)?\s*card\b`, at the start of a word: a boundary before a space stands before a word
-- `card` that is found by itself.
abbrev pub card_here : Text → Bool
card_here t =
    any
      (λ p. elim (after p t) [
        | none ↦ false
        | some rest ↦ word_then (codes "card" ∷ []) anything (strip_left rest)
      ])
      ([] ∷ codes "debit" ∷ codes "credit" ∷ [])

-- `\b(?:words)\b.*\b(mobile banking|online banking|banking).*\bpassword\b`
abbrev pub banking_password : Text → Bool
banking_password t =
    any
      (λ p. elim (after p t) [
        | none ↦ false
        | some rest ↦ at_boundary (word_then (codes "password" ∷ []) anything) true rest
      ])
      (codes "mobile banking" ∷ codes "online banking" ∷ codes "banking" ∷ [])

-- `_unsupported_account_action`
unfoldable pub unsupported_account_action : Text → Bool
unfolding later stands at_boundary after
unsupported_account_action q =
    let change = codes "change" in
    later (codes "close" ∷ codes "cancel" ∷ codes "delete" ∷ codes "terminate" ∷ [])
      (codes "account" ∷ []) q
    || later (change ∷ codes "update" ∷ [])
        (codes "email"
          ∷ codes "e-mail"
          ∷ codes "mobile number"
          ∷ codes "phone number"
          ∷ codes "address"
          ∷ [])
        q
    || at_boundary
        (word_then (codes "new" ∷ codes "replace" ∷ codes "replacement" ∷ [])
          (at_boundary card_here true))
        false q
    || stands (codes "credit limit" ∷ []) q
    || at_boundary (then_ends (codes "increase") (codes "limit")) false q
    || stands (codes "tax statement" ∷ codes "annual statement" ∷ []) q
    || later (codes "add" ∷ change ∷ []) (codes "nominee" ∷ []) q
    || stands (codes "joint account" ∷ []) q
    || at_boundary (then_ends (codes "convert") (codes "joint")) false q
    || at_boundary
        (word_then (codes "reset" ∷ change ∷ codes "forgot" ∷ [])
          (at_boundary banking_password true))
        false q

-- The patterns of GENERIC_VAGUE_PATTERNS that have no `.*`, each text that they match.
abbrev pub vague_texts : List Text
vague_texts =
    codes "what should i do"
    ∷ codes "what should i do now"
    ∷ codes "what can i do"
    ∷ codes "what can i do now"
    ∷ codes "what are my options"
    ∷ codes "what happens next"
    ∷ codes "i need help"
    ∷ codes "i need assistance"
    ∷ codes "i need support"
    ∷ codes "something is wrong"
    ∷ codes "i have a problem"
    ∷ codes "i have a issue"
    ∷ codes "i have problem"
    ∷ codes "i have issue"
    ∷ codes "i have a problem with my account"
    ∷ codes "i have a issue with my account"
    ∷ codes "i have problem with my account"
    ∷ codes "i have issue with my account"
    ∷ codes "what now"
    ∷ []

-- What stands before `.*` in the others.
abbrev pub vague_starts : List Text
vague_starts =
    codes "can help"
    ∷ codes "can assist"
    ∷ codes "can sort"
    ∷ codes "can fix"
    ∷ codes "can you help"
    ∷ codes "can you assist"
    ∷ codes "can you sort"
    ∷ codes "can you fix"
    ∷ codes "please help"
    ∷ codes "please assist"
    ∷ codes "please tell me what to do"
    ∷ []

abbrev pub is_vague : Text → Bool
is_vague q = member q vague_texts || any (λ p. starts_with p q) vague_starts

abbrev pub generic_words : List Text
generic_words =
    codes "help"
    ∷ codes "assist"
    ∷ codes "assistance"
    ∷ codes "issue"
    ∷ codes "problem"
    ∷ codes "situation"
    ∷ codes "this"
    ∷ codes "that"
    ∷ codes "it"
    ∷ codes "options"
    ∷ codes "next"
    ∷ codes "fix"
    ∷ codes "fixed"
    ∷ codes "account"
    ∷ []

-- A short query with hardly a word of its own.
abbrev pub says_little : Text → Bool
says_little q =
    let words = runs is_plain q in
    let content = distinct (words_where (λ w. ltb 2 (length w)) words) in
    leb (length words) 8
    && ltb 0 (length content)
    && leb (length (words_where (λ w. not (member w generic_words)) content)) 2

abbrev pub no_scores : List (String × ℕ) → Bool
no_scores [] = true
no_scores (s ∷ rest) = false

-- `_is_ambiguous`
unfoldable pub is_ambiguous : Text → List (String × ℕ) → Bool
unfolding runs distinct words_where starts_with
is_ambiguous q scores = no_scores scores && (is_vague q || says_little q)

-- `_is_out_of_scope`
unfoldable pub is_out_of_scope_query : Text → List (String × ℕ) → Bool
unfolding contains
is_out_of_scope_query q scores = no_scores scores && any (λ p. contains p q) out_of_scope_terms
