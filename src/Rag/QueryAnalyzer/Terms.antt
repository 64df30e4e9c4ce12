-- ===== src/Rag/QueryAnalyzer/Terms.antt =====
-- rag/query_analyzer.py: the words by which a query is read. A weight is in tenths.
use bfsi_voice_agent.Prelude.{ℕ, String, List, [], ◌∷◌, Text, codes}

abbrev hardship_terms : List (Text × ℕ)
hardship_terms =
    (codes "hardship", 30)
    ∷ (codes "lost my job", 40)
    ∷ (codes "job loss", 40)
    ∷ (codes "unemployed", 40)
    ∷ (codes "unemployment", 40)
    ∷ (codes "reduced income", 35)
    ∷ (codes "income disappeared", 40)
    ∷ (codes "financial difficulty", 35)
    ∷ (codes "financial shock", 35)
    ∷ (codes "cannot pay", 30)
    ∷ (codes "can't pay", 30)
    ∷ (codes "unable to pay", 30)
    ∷ (codes "cannot meet", 25)
    ∷ (codes "can't meet", 25)
    ∷ (codes "job chali gayi", 40)
    ∷ (codes "emi bharna mushkil", 40)
    ∷ (codes "pay nahi ho rahi", 35)
    ∷ (codes "payment nahi ho rahi", 35)
    ∷ (codes "temporary relief", 25)
    ∷ []

abbrev collections_terms : List (Text × ℕ)
collections_terms =
    (codes "collections", 30)
    ∷ (codes "collection", 25)
    ∷ (codes "grace period", 40)
    ∷ (codes "grace", 30)
    ∷ (codes "buffer after", 30)
    ∷ (codes "extra time", 25)
    ∷ (codes "overdue", 30)
    ∷ (codes "late payment", 30)
    ∷ (codes "promise to pay", 40)
    ∷ (codes "promise-to-pay", 40)
    ∷ (codes "due date", 20)
    ∷ (codes "latest rule", 25)
    ∷ (codes "current rule", 25)
    ∷ (codes "five-day", 40)
    ∷ (codes "seven-day", 40)
    ∷ (codes "superseded", 40)
    ∷ []

abbrev repayment_terms : List (Text × ℕ)
repayment_terms =
    (codes "repayment", 30)
    ∷ (codes "partial payment", 45)
    ∷ (codes "part payment", 40)
    ∷ (codes "pay only part", 40)
    ∷ (codes "paid a little", 40)
    ∷ (codes "half payment", 40)
    ∷ (codes "split payment", 40)
    ∷ (codes "pay in parts", 40)
    ∷ (codes "instalment", 35)
    ∷ (codes "installment", 35)
    ∷ (codes "smaller scheduled amounts", 30)
    ∷ (codes "structured repayment", 40)
    ∷ (codes "thoda amount", 40)
    ∷ (codes "baaki baad", 40)
    ∷ []

abbrev dispute_terms : List (Text × ℕ)
dispute_terms =
    (codes "payment dispute", 40)
    ∷ (codes "payment cleared", 40)
    ∷ (codes "payment succeeded", 40)
    ∷ (codes "bank says", 25)
    ∷ (codes "not showing", 40)
    ∷ (codes "cannot see it", 35)
    ∷ (codes "can't see it", 35)
    ∷ (codes "not appeared", 35)
    ∷ (codes "hasn't appeared", 35)
    ∷ (codes "not reflected", 35)
    ∷ (codes "not updated", 35)
    ∷ (codes "system disagrees", 40)
    ∷ (codes "records disagree", 40)
    ∷ (codes "show nahi", 40)
    ∷ (codes "update nahi hua", 40)
    ∷ (codes "payment kar diya", 25)
    ∷ (codes "transaction evidence", 30)
    ∷ (codes "missing payment", 40)
    ∷ []

abbrev privacy_terms : List (Text × ℕ)
privacy_terms =
    (codes "privacy", 40)
    ∷ (codes "third party", 40)
    ∷ (codes "someone else", 35)
    ∷ (codes "another person", 35)
    ∷ (codes "partner", 30)
    ∷ (codes "wife", 30)
    ∷ (codes "husband", 30)
    ∷ (codes "stranger", 30)
    ∷ (codes "account balance", 35)
    ∷ (codes "payment history", 35)
    ∷ (codes "share", 15)
    ∷ (codes "disclose", 30)
    ∷ (codes "tell them", 20)
    ∷ []

abbrev identity_terms : List (Text × ℕ)
identity_terms =
    (codes "identity", 40)
    ∷ (codes "verification", 40)
    ∷ (codes "verify", 35)
    ∷ (codes "otp", 45)
    ∷ (codes "one-time password", 45)
    ∷ (codes "one time password", 45)
    ∷ (codes "pin", 35)
    ∷ (codes "authentication", 35)
    ∷ (codes "proof step", 30)
    ∷ []

abbrev escalation_terms : List (Text × ℕ)
escalation_terms =
    (codes "human", 40)
    ∷ (codes "person handle", 40)
    ∷ (codes "speak to someone", 40)
    ∷ (codes "speak to a person", 40)
    ∷ (codes "specialist", 30)
    ∷ (codes "escalate", 35)
    ∷ (codes "escalation", 35)
    ∷ (codes "callback", 35)
    ∷ (codes "call back", 35)
    ∷ []

abbrev support_terms : List (Text × ℕ)
support_terms =
    (codes "support hours", 40)
    ∷ (codes "opening hours", 40)
    ∷ (codes "support open", 40)
    ∷ (codes "support close", 40)
    ∷ (codes "saturday", 25)
    ∷ (codes "already paid", 30)
    ∷ (codes "pay again", 30)
    ∷ (codes "already made the payment", 30)
    ∷ []

abbrev pub domain_terms : List (String × List (Text × ℕ))
domain_terms =
    ("hardship", hardship_terms)
    ∷ ("collections", collections_terms)
    ∷ ("repayment", repayment_terms)
    ∷ ("dispute", dispute_terms)
    ∷ ("privacy", privacy_terms)
    ∷ ("identity", identity_terms)
    ∷ ("escalation", escalation_terms)
    ∷ ("support", support_terms)
    ∷ []

abbrev pub out_of_scope_terms : List Text
out_of_scope_terms =
    codes "weather"
    ∷ codes "forecast"
    ∷ codes "football"
    ∷ codes "soccer"
    ∷ codes "cricket"
    ∷ codes "world cup"
    ∷ codes "recipe"
    ∷ codes "cook"
    ∷ codes "pasta"
    ∷ codes "movie"
    ∷ codes "film"
    ∷ codes "photosynthesis"
    ∷ codes "planet"
    ∷ codes "mars"
    ∷ codes "mountain"
    ∷ codes "geography"
    ∷ codes "capital of"
    ∷ codes "invented"
    ∷ codes "inventor"
    ∷ codes "president of"
    ∷ codes "prime minister of"
    ∷ codes "bitcoin trading"
    ∷ codes "crypto price"
    ∷ codes "stock price"
    ∷ codes "exchange rate today"
    ∷ []

abbrev pub hinglish_markers : List Text
hinglish_markers =
    codes "kya"
    ∷ codes "hai"
    ∷ codes "nahi"
    ∷ codes "kar"
    ∷ codes "diya"
    ∷ codes "gayi"
    ∷ codes "mushkil"
    ∷ codes "baaki"
    ∷ codes "abhi"
    ∷ codes "baad"
    ∷ codes "bata"
    ∷ codes "sakta"
    ∷ codes "hoon"
    ∷ codes "mein"
    ∷ codes "mujhe"
    ∷ []
