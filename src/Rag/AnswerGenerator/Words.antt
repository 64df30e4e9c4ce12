-- ===== src/Rag/AnswerGenerator/Words.antt =====
-- rag/answer_generator.py: the words that do not count, and the groups of words that count as one.
use bfsi_voice_agent.Prelude.{List, [], ◌∷◌, Text, codes}

abbrev pub stop_words : List Text
stop_words =
    codes "a"
    ∷ codes "an"
    ∷ codes "the"
    ∷ codes "i"
    ∷ codes "me"
    ∷ codes "my"
    ∷ codes "you"
    ∷ codes "your"
    ∷ codes "we"
    ∷ codes "our"
    ∷ codes "is"
    ∷ codes "are"
    ∷ codes "was"
    ∷ codes "were"
    ∷ codes "be"
    ∷ codes "been"
    ∷ codes "being"
    ∷ codes "to"
    ∷ codes "of"
    ∷ codes "for"
    ∷ codes "in"
    ∷ codes "on"
    ∷ codes "at"
    ∷ codes "by"
    ∷ codes "with"
    ∷ codes "and"
    ∷ codes "or"
    ∷ codes "but"
    ∷ codes "if"
    ∷ codes "then"
    ∷ codes "that"
    ∷ codes "this"
    ∷ codes "it"
    ∷ codes "as"
    ∷ codes "from"
    ∷ codes "what"
    ∷ codes "when"
    ∷ codes "where"
    ∷ codes "why"
    ∷ codes "how"
    ∷ codes "can"
    ∷ codes "could"
    ∷ codes "should"
    ∷ codes "would"
    ∷ codes "will"
    ∷ codes "do"
    ∷ codes "does"
    ∷ codes "did"
    ∷ codes "have"
    ∷ codes "has"
    ∷ codes "had"
    ∷ codes "please"
    ∷ []

abbrev payment_group : List Text
payment_group =
    codes "pay"
    ∷ codes "paid"
    ∷ codes "payment"
    ∷ codes "repayment"
    ∷ codes "amount"
    ∷ codes "owe"
    ∷ codes "owing"
    ∷ codes "balance"
    ∷ codes "debt"
    ∷ []

abbrev part_group : List Text
part_group =
    codes "partial"
    ∷ codes "part"
    ∷ codes "half"
    ∷ codes "little"
    ∷ codes "instalment"
    ∷ codes "instalments"
    ∷ codes "installment"
    ∷ codes "installments"
    ∷ []

abbrev hardship_group : List Text
hardship_group =
    codes "hardship"
    ∷ codes "financial"
    ∷ codes "difficulty"
    ∷ codes "relief"
    ∷ codes "job"
    ∷ codes "income"
    ∷ codes "unemployment"
    ∷ codes "unemployed"
    ∷ []

abbrev identity_group : List Text
identity_group =
    codes "verify"
    ∷ codes "verified"
    ∷ codes "verification"
    ∷ codes "identity"
    ∷ codes "authentication"
    ∷ []

abbrev secret_group : List Text
secret_group =
    codes "otp"
    ∷ codes "password"
    ∷ codes "pin"
    ∷ codes "credential"
    ∷ codes "credentials"
    ∷ codes "security"
    ∷ []

abbrev human_group : List Text
human_group =
    codes "human"
    ∷ codes "person"
    ∷ codes "agent"
    ∷ codes "specialist"
    ∷ codes "escalate"
    ∷ codes "escalation"
    ∷ codes "callback"
    ∷ codes "call"
    ∷ []

abbrev privacy_group : List Text
privacy_group =
    codes "privacy"
    ∷ codes "third"
    ∷ codes "party"
    ∷ codes "share"
    ∷ codes "reveal"
    ∷ codes "disclose"
    ∷ codes "disclosure"
    ∷ []

abbrev posting_group : List Text
posting_group =
    codes "missing"
    ∷ codes "posting"
    ∷ codes "posted"
    ∷ codes "update"
    ∷ codes "updated"
    ∷ codes "reflected"
    ∷ codes "dispute"
    ∷ codes "transaction"
    ∷ []

abbrev grace_group : List Text
grace_group =
    codes "grace"
    ∷ codes "buffer"
    ∷ codes "days"
    ∷ codes "overdue"
    ∷ codes "due"
    ∷ codes "collections"
    ∷ []

abbrev promise_group : List Text
promise_group =
    codes "promise"
    ∷ codes "guarantee"
    ∷ codes "guaranteed"
    ∷ codes "approval"
    ∷ codes "approved"
    ∷ []

abbrev pub synonym_groups : List (List Text)
synonym_groups =
    payment_group ∷ part_group ∷ hardship_group ∷ identity_group ∷ secret_group ∷ human_group
    ∷ privacy_group ∷ posting_group ∷ grace_group ∷ promise_group ∷ []
