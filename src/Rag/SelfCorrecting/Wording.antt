-- ===== src/Rag/SelfCorrecting/Wording.antt =====
-- rag/self_correcting.py: _query_can_contain_policy_conflict, the questions that may be about a conflict
-- of policies, on ASCII.
mod Tests
use bfsi_voice_agent.Prelude.{
  ℕ, zero, suc, Bool, true, false, not, ◌&&◌, ◌||◌, List, [], ◌∷◌, if◌then◌else◌, any, ◌==◌, Option,
  none, some, Text, codes, is_space, is_word, begins_word, lower, strip, collapse, after, contains,
}

-- `re.sub(r"\s+", " ", question.lower().strip())`
unfoldable pub plain_question : Text → Text
unfolding collapse strip
plain_question question = collapse false (strip (lower question))

abbrev pub conflict_phrases : List Text
conflict_phrases =
    codes "documents disagree"
    ∷ codes "policies disagree"
    ∷ codes "policy conflict"
    ∷ codes "conflicting policy"
    ∷ codes "conflicting policies"
    ∷ codes "takes precedence"
    ∷ codes "take precedence"
    ∷ codes "which version applies"
    ∷ codes "which policy applies"
    ∷ codes "which rule applies"
    ∷ codes "which one applies"
    ∷ codes "which one is valid"
    ∷ codes "superseded"
    ∷ codes "supersedes"
    ∷ []

abbrev pub version_modifier : List Text
version_modifier =
    codes "latest"
    ∷ codes "current"
    ∷ codes "previous"
    ∷ codes "old"
    ∷ codes "older"
    ∷ codes "new"
    ∷ codes "newer"
    ∷ codes "active"
    ∷ []

abbrev pub policy_concept : List Text
policy_concept =
    codes "policy"
    ∷ codes "policies"
    ∷ codes "rule"
    ∷ codes "rules"
    ∷ codes "version"
    ∷ codes "versions"
    ∷ codes "collections"
    ∷ codes "grace"
    ∷ codes "graceperiod"
    ∷ codes "grace-period"
    ∷ codes "grace period"
    ∷ []

-- One of the words and `\b`, at the start, and then what the goal says.
abbrev pub word_then : List Text → (Text → Bool) → Text → Bool
word_then words goal t =
    any (λ p. elim (after p t) [ none ↦ false | some rest ↦ not (begins_word rest) && goal rest ])
      words

-- A word boundary where the goal holds; the flag tells whether the character before is of a word.
unfoldable pub at_boundary : (Text → Bool) → Bool → Text → Bool
at_boundary goal inside [] = false
at_boundary goal inside (c ∷ t) = (not inside && goal (c ∷ t)) || at_boundary goal (is_word c) t

-- `.{0,n}`, and then as above.
unfoldable pub boundary_within : ℕ → (Text → Bool) → Bool → Text → Bool
boundary_within n goal inside [] = false
boundary_within zero goal inside (c ∷ t) = not inside && goal (c ∷ t)
boundary_within (suc n) goal inside (c ∷ t) =
    (not inside && goal (c ∷ t)) || boundary_within n goal (is_word c) t

-- `\b(?:words)\b.{0,40}\b(?:others)\b`
unfoldable pub near : List Text → List Text → Text → Bool
unfolding at_boundary boundary_within after
near words others q =
    at_boundary (word_then words (boundary_within 40 (word_then others (λ rest. true)) true)) false
      q

-- `[-\s]?`
abbrev pub skip_joint : Text → Text
skip_joint [] = []
skip_joint (c ∷ t) = if (c == 45) || is_space c then t else c ∷ t

abbrev pub day_here : Text → Bool
day_here t =
    any
      (λ p. elim (after p t) [
        | none ↦ false
        | some rest ↦ word_then (codes "day" ∷ []) (λ end. true) (skip_joint rest)
      ])
      (codes "five" ∷ codes "seven" ∷ codes "5" ∷ codes "7" ∷ [])

unfoldable pub query_can_contain_policy_conflict : Text → Bool
unfolding plain_question contains at_boundary near after
query_can_contain_policy_conflict question =
    let q = plain_question question in
    let which_of = codes "policy" ∷ codes "rule" ∷ codes "version" ∷ codes "collections" ∷ [] in
    any (λ phrase. contains phrase q) conflict_phrases
    || at_boundary day_here false q
    || near version_modifier policy_concept q
    || near policy_concept version_modifier q
    || near (codes "which" ∷ []) which_of q
