-- ===== src/Voice/Idempotency/Tests.antt =====
-- voice/idempotency.py at concrete inputs.
use bfsi_voice_agent.Prelude.{◌≡◌, refl, arith, none, some, List, [], ◌∷◌, Text, codes}
use bfsi_voice_agent.Voice.Idempotency.{is_write_tool, candidate_key, check}
use bfsi_voice_agent.Business.Durable.{is_write_tool}
use bfsi_voice_agent.Voice.Idempotency.Hits.{
  GuardCall, remembers, looks, guard_after, check-Refines,
}

paid :
    candidate_key (codes " I PAID  Rs 1,500.50 yesterday")
    ≡ some (codes "record_payment_reported:1500.50")
unfolding candidate_key
paid = refl

promised :
    candidate_key (codes "I will pay on 12/08/2026")
    ≡ some (codes "record_promise_to_pay:12/08/2026:12")
unfolding candidate_key
promised = refl

callback :
    candidate_key (codes "call me on August 25, 2026")
    ≡ some (codes "schedule_callback:august 25, 2026")
unfolding candidate_key
callback = refl

unpaid : candidate_key (codes "my hi paid off") ≡ none
unfolding candidate_key
unpaid = refl

hardship :
    candidate_key (codes "I cannot pay, my job ended")
    ≡ some (codes "record_financial_hardship:hardship")
unfolding candidate_key
hardship = refl

-- Two promises of different amounts have one key.
two_promises :
    candidate_key (codes "I will pay on August 25 500 rupees")
    ≡ candidate_key (codes "I will pay on August 25 900 rupees")
unfolding candidate_key
two_promises = refl

abbrev said : Text
said = codes "I paid 500 yesterday"

abbrev calls : List GuardCall
calls =
    looks 9000000 said
    ∷ remembers 4000000 (codes "i paid 500") (some "record_payment_reported") (codes "Noted.")
    ∷ remembers 2000000 (codes "i paid 700") (some "record_payment_reported") (codes "Noted it.")
    ∷ []

check-Refines_example :
    (check 60000000 said (guard_after 60000000 calls)).0
    ≡ some
        (record { key = codes "record_payment_reported:500"; grounded_response = codes "Noted." })
unfolding candidate_key is_write_tool
check-Refines_example =
    check-Refines 60000000 60000000 said calls (omega arith, (omega arith, (omega arith, tt)))
