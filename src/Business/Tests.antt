-- ===== src/Business/Tests.antt =====
-- business/verification.py at concrete inputs.
use bfsi_voice_agent.Prelude.{
  ℕ, String, ◌≡◌, refl, true, false, some, List, [], ◌∷◌, Text, codes, text_eq, if◌then◌else◌, ◌⊎◌,
}
use bfsi_voice_agent.Business.Verification.{
  VerificationState, VerificationRegistry, Secret, state, begin, consume_input, is_verified,
  new_state,
}
use bfsi_voice_agent.Business.Verification.Digits.{extract_four_digits}
use bfsi_voice_agent.Business.Verification.Lockout.{
  Call, begin_call, consume_call, apply, run, AllSound, locked_for_good,
}
use bfsi_voice_agent.Business.Verification.Earned.{Earns, Some, verified_was_earned}

-- A key derivation that keeps the candidate apart from everything but "1234".
abbrev derive : Text → String → String
derive candidate salt = if text_eq candidate (codes "1234") then "hash" else "other"

abbrev secret : Secret
secret = record { customer_id = "c1"; secret_salt = "salt"; secret_hash = "hash"; active = true }

abbrev registry : List (String × VerificationState) → VerificationRegistry
registry states = record {
  db = secret ∷ [];
  verified_ttl = 30000000;
  max_attempts = 3;
  states = states;
}

abbrev fresh : VerificationRegistry
fresh = registry (("s1", new_state "s1" "c1") ∷ [])

abbrev locked_state : VerificationState
locked_state = record (new_state "s1" "c1") { attempts = 3; locked = true }

abbrev locked_one : VerificationRegistry
locked_one = registry (("s1", locked_state) ∷ [])

abbrev calls : List Call
calls =
    begin_call 10 "s1" "c1" (some (codes "balance")) ∷ consume_call 20 "s1" "c1" (codes "1234") ∷ []

fresh-AllSound : AllSound (registry [])
unfolding state
fresh-AllSound j = tt

verified_was_earned_example :
    (is_verified 30 "s1" "c1" fresh ≡ true)
    ⊎ Some (Earns derive (secret ∷ []) 30000000 30 "s1" "c1") calls
unfolding run begin consume_input is_verified apply extract_four_digits
verified_was_earned_example = verified_was_earned derive 30 "s1" "c1" calls fresh refl

locked_for_good_example :
    (state "s1" (run derive calls locked_one) ≡ some locked_state)
    × ((now : ℕ) (customer : String)
        → is_verified now "s1" customer (run derive calls locked_one) ≡ false)
unfolding state
locked_for_good_example = locked_for_good derive calls locked_one "s1" locked_state refl refl refl
