-- ===== src/Rag/AnswerGenerator/Scoring.antt =====
-- rag/answer_generator.py: _score_sentence, in millionths; each quotient is rounded down.
use bfsi_voice_agent.Prelude.{
  ℕ, zero, suc, ◌+◌, ◌*◌, ◌/◌, min, List, [], ◌∷◌, if◌then◌else◌, length, Text, codes, lower,
  contains,
}
use bfsi_voice_agent.Rag.Words.{any_in, tokens_by, expand_by, member, words_where}
use bfsi_voice_agent.Rag.AnswerGenerator.Words.{stop_words, synonym_groups}

-- What a question asks by one of some phrases, and the bonus of a sentence with one of some phrases.
pub record BonusRule : Type 0 where
  pub asked_by : List Text
  pub bonuses : List (List Text × ℕ)

abbrev hardship_rule : BonusRule
hardship_rule = record {
  asked_by =
      codes "what options"
      ∷ codes "financial difficulty"
      ∷ codes "temporary relief"
      ∷ codes "hardship options"
      ∷ [];
  bonuses =
      (
        codes "possible outcomes"
            ∷ codes "reduced-payment"
            ∷ codes "changed payment date"
            ∷ codes "short deferral"
            ∷ codes "hardship team"
            ∷ [],
        7000000,
      )
      ∷ [];
}

abbrev disclosure_rule : BonusRule
disclosure_rule = record {
  asked_by =
      codes "wrong number"
      ∷ codes "belongs to someone else"
      ∷ codes "account holder"
      ∷ codes "third party"
      ∷ codes "someone else"
      ∷ codes "how much i owe"
      ∷ [];
  bonuses = (codes "do not disclose" ∷ [], 7000000) ∷ (codes "must not reveal" ∷ [], 6000000) ∷ [];
}

abbrev secret_rule : BonusRule
secret_rule = record {
  asked_by = codes "otp" ∷ codes "pin" ∷ codes "one-time password" ∷ [];
  bonuses =
      (codes "one-time password" ∷ [], 8000000)
      ∷ (codes "pin" ∷ [], 6000000)
      ∷ (codes "must never ask" ∷ [], 4000000)
      ∷ [];
}

abbrev partial_rule : BonusRule
partial_rule = record {
  asked_by =
      codes "partial payment"
      ∷ codes "paying part"
      ∷ codes "pay only part"
      ∷ codes "paid a little"
      ∷ codes "half payment"
      ∷ codes "part of the amount"
      ∷ codes "instalment"
      ∷ codes "installment"
      ∷ [];
  bonuses =
      (codes "partial payment" ∷ [], 7000000)
      ∷ (codes "does not automatically" ∷ [], 7000000)
      ∷ (codes "overdue status" ∷ [], 4000000)
      ∷ [];
}

abbrev human_rule : BonusRule
human_rule = record {
  asked_by =
      codes "human"
      ∷ codes "person handle"
      ∷ codes "speak to someone"
      ∷ codes "call at exactly"
      ∷ codes "callback"
      ∷ codes "call me back"
      ∷ [];
  bonuses =
      (codes "human specialist" ∷ [], 6000000)
      ∷ (codes "do not promise an exact callback time" ∷ [], 8000000)
      ∷ [];
}

abbrev dispute_rule : BonusRule
dispute_rule = record {
  asked_by =
      codes "payment succeeded"
      ∷ codes "payment cleared"
      ∷ codes "cannot see it"
      ∷ codes "missing payment"
      ∷ codes "not showing"
      ∷ codes "update nahi"
      ∷ [];
  bonuses =
      (codes "payment disputes" ∷ [], 4000000)
      ∷ (codes "transaction evidence" ∷ [], 5000000)
      ∷ (codes "must not claim" ∷ [], 5000000)
      ∷ [];
}

abbrev approval_rule : BonusRule
approval_rule = record {
  asked_by =
      codes "approved" ∷ codes "approval" ∷ codes "guarantee" ∷ codes "definitely approved" ∷ [];
  bonuses =
      (codes "must not promise approval" ∷ [], 9000000)
      ∷ (codes "not guaranteed" ∷ [], 7000000)
      ∷ [];
}

abbrev pub rules_before : List BonusRule
rules_before =
    hardship_rule ∷ disclosure_rule ∷ secret_rule ∷ partial_rule ∷ human_rule ∷ dispute_rule ∷ []

abbrev pub grace_phrases : List Text
grace_phrases =
    codes "grace"
    ∷ codes "buffer"
    ∷ codes "extra time"
    ∷ codes "five-day"
    ∷ codes "seven-day"
    ∷ codes "5 day"
    ∷ codes "7 day"
    ∷ []

abbrev pub policy_phrases : List (List Text × ℕ)
policy_phrases =
    (codes "must not" ∷ [], 1200000)
    ∷ (codes "must " ∷ [], 450000)
    ∷ (codes "do not" ∷ [], 1200000)
    ∷ (codes "cannot" ∷ [], 900000)
    ∷ (codes "may not" ∷ [], 900000)
    ∷ (codes "should not" ∷ [], 800000)
    ∷ (codes "not automatically" ∷ [], 1000000)
    ∷ (codes "not guaranteed" ∷ [], 1000000)
    ∷ (codes "must never" ∷ [], 1200000)
    ∷ []

abbrev pub bonus_sum : Text → List (List Text × ℕ) → ℕ
bonus_sum s [] = 0
bonus_sum s ((phrases, bonus) ∷ rest) = (if any_in s phrases then bonus else 0) + bonus_sum s rest

abbrev pub rule_bonus : Text → Text → BonusRule → ℕ
rule_bonus q s rule = if any_in q rule.asked_by then bonus_sum s rule.bonuses else 0

abbrev pub rules_bonus : Text → Text → List BonusRule → ℕ
rules_bonus q s [] = 0
rules_bonus q s (rule ∷ rules) = rule_bonus q s rule + rules_bonus q s rules

abbrev pub grace_bonus : Text → Text → ℕ
grace_bonus q s =
    if any_in q grace_phrases
    then (if contains (codes "grace period is 7 days") s
        then 10000000
        else if contains (codes "7 days") s
        then 7000000
        else 0)
      + (if contains (codes "supersedes") s then 4000000 else 0)
    else 0

-- `_tokens`, `_expanded_tokens`
abbrev pub tokens : Text → List Text
tokens text = tokens_by stop_words text

abbrev pub expanded_tokens : Text → List Text
expanded_tokens text = expand_by synonym_groups (tokens text)

-- `overlap * 6.0`
abbrev pub overlap_score : ℕ → ℕ → ℕ
overlap_score n zero = 0
overlap_score n (suc d) = n * 6000000 / suc d

abbrev pub shared : List Text → List Text → ℕ
shared ws vs = length (words_where (λ w. member w vs) ws)

-- `0.30 / max(1, rank)`
abbrev pub rank_score : ℕ → ℕ
rank_score zero = 300000
rank_score (suc n) = 300000 / suc n

-- `_score_sentence`, for a chunk's score and rank and the place of the sentence.
unfoldable pub score_sentence : Text → Text → ℕ → ℕ → ℕ → ℕ
unfolding tokens_by expand_by words_where contains
score_sentence question sentence score chunk_rank sentence_index =
    let terms = expanded_tokens question in
    let q = lower question in
    let s = lower sentence in
    overlap_score (shared terms (expanded_tokens sentence)) (length terms)
    + shared (tokens question) (tokens sentence) * 700000
    + bonus_sum s policy_phrases
    + rules_bonus q s rules_before
    + grace_bonus q s
    + rule_bonus q s approval_rule
    + min 1000000 score * 3 / 2
    + rank_score chunk_rank
    + 30000 / suc sentence_index
