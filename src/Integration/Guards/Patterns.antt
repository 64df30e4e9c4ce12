-- ===== src/Integration/Guards/Patterns.antt =====
-- integration/guards.py: what the guards read in the caller's text, on ASCII.
use bfsi_voice_agent.Prelude.{
  collapse, begins_word, is_word, Bool, true, false, not, ◌&&◌, ◌||◌, none, some, List, [], ◌∷◌,
  any, Text, codes, lower, strip, contains, after,
}

normalize : Text → Text
unfolding strip collapse
normalize text = collapse false (strip (lower text))

abbrev at_some_tail : (Text → Bool) → Text → Bool
at_some_tail f [] = f []
at_some_tail f (c ∷ t) = f (c ∷ t) || at_some_tail f t

-- The rest of a pattern: each further literal behind a `.*`, then `\b`.
follow : List Text → Text → Bool
unfolding after
follow [] t = not (begins_word t)
follow (p ∷ ps) t =
    at_some_tail (λ u. elim (after p u) [ none ↦ false | some rest ↦ follow ps rest ]) t

-- A pattern `\bp.*q.*r\b`, whose literals begin and end with a word character.
match_here : List Text → Text → Bool
unfolding after follow
match_here [] t = true
match_here (p ∷ ps) t = elim (after p t) [ none ↦ false | some rest ↦ follow ps rest ]

-- `re.search`: the flag tells whether the character before is a word character.
search_from : Bool → List Text → Text → Bool
unfolding match_here
search_from inside pattern_ [] = not inside && match_here pattern_ []
search_from inside pattern_ (c ∷ t) =
    (not inside && match_here pattern_ (c ∷ t)) || search_from (is_word c) pattern_ t

abbrev identity_patterns : List (List Text)
identity_patterns =
    (codes "verify me" ∷ [])
    ∷ (codes "verify myself" ∷ [])
    ∷ (codes "my identity" ∷ [])
    ∷ (codes "identity check" ∷ [])
    ∷ (codes "identity verification" ∷ [])
    ∷ (codes "verification process" ∷ [])
    ∷ (codes "verification kaise" ∷ [])
    ∷ (codes "verification kya" ∷ [])
    ∷ (codes "verify kaise" ∷ [])
    ∷ (codes "account" ∷ codes "verification" ∷ [])
    ∷ (codes "verification" ∷ codes "account" ∷ [])
    ∷ (codes "before" ∷ codes "account" ∷ codes "information" ∷ [])
    ∷ (codes "before" ∷ codes "showing" ∷ codes "balance" ∷ [])
    ∷ (codes "before" ∷ codes "accessing" ∷ codes "account" ∷ [])
    ∷ []

abbrev third_party_terms : List Text
third_party_terms =
    codes "my mother"
    ∷ codes "my father"
    ∷ codes "my wife"
    ∷ codes "my husband"
    ∷ codes "my partner"
    ∷ codes "my friend"
    ∷ codes "my brother"
    ∷ codes "my sister"
    ∷ codes "someone else's"
    ∷ codes "someone else"
    ∷ codes "another person's"
    ∷ codes "another person"
    ∷ codes "third party"
    ∷ []

abbrev private_account_terms : List Text
private_account_terms =
    codes "balance"
    ∷ codes "owe"
    ∷ codes "outstanding"
    ∷ codes "account status"
    ∷ codes "payment history"
    ∷ codes "call history"
    ∷ codes "account details"
    ∷ codes "how much"
    ∷ []

unfoldable pub looks_like_own_identity_question : Text → Bool
unfolding normalize search_from
looks_like_own_identity_question text =
    let q = normalize text in any (λ p. search_from false p q) identity_patterns

unfoldable pub looks_like_third_party_private_request : Text → Bool
unfolding normalize contains
looks_like_third_party_private_request text =
    let q = normalize text in
    any (λ term. contains term q) third_party_terms
    && any (λ term. contains term q) private_account_terms
