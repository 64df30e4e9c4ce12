-- ===== src/Voice/TurnManager/Order.antt =====
-- voice/turn_manager.py: the turns passed on.
use bfsi_voice_agent.Prelude.{
  ℕ, ◌+◌, ◌≤◌, ◌<◌, ◌≡◌, false, none, List, [], ◌∷◌, arith, Bool-cases, inl, inr, is_empty,
}
use bfsi_voice_agent.Voice.TurnManager.{
  TurnManager, TurnResult, set_config, on_speech_start, on_speech_end, on_partial_transcript,
  on_final_transcript, endpoint_after_silence, wait_for_asr_settle, finalize_turn, build_transcript,
}
use bfsi_voice_agent.Voice.TurnManager.Sound.{
  Event, speech_starts, speech_ends, partial_comes, final_comes, config_comes, endpoint_wakes,
  settle_wakes, step, run,
}

-- Turns passed on before the turn of an id, the latest first.
abbrev pub Ordered : ℕ → List TurnResult → Type 0
Ordered id [] = Unit
Ordered id (result ∷ results) =
    (result.turn_id < id) × (is_empty result.transcript ≡ false) × Ordered result.turn_id results

Ordered-le : (i j : ℕ) (results : List TurnResult) → i ≤ j → Ordered i results → Ordered j results
Ordered-le i j [] le h = tt
Ordered-le i j (result ∷ results) le h = (omega (arith, h.0), h.1, h.2)

Ordered-finalize_turn :
    (m : TurnManager)
    → Ordered m.turn_id m.turns
    → Ordered (finalize_turn m).turn_id (finalize_turn m).turns
unfolding finalize_turn
Ordered-finalize_turn m h = elim (Bool-cases (is_empty (build_transcript m))) [
  | inl e ↦ rw e (Ordered-le m.turn_id (m.turn_id + 1) m.turns (omega arith) h)
  | inr e ↦ rw e (omega arith, e, h)
]

Ordered-step :
    (e : Event) (m : TurnManager)
    → Ordered m.turn_id m.turns
    → Ordered (step e m).turn_id (step e m).turns
unfolding step
Ordered-step speech_starts m h = unfold on_speech_start in h
Ordered-step (speech_ends now) m h = unfold on_speech_end in h
Ordered-step (partial_comes now text) m h = unfold on_partial_transcript in ground (arith, h)
Ordered-step (final_comes now text) m h = unfold on_final_transcript in ground (arith, h)
Ordered-step (config_comes now config) m h = unfold set_config in ground (arith, h)
Ordered-step (endpoint_wakes now) m h = unfold endpoint_after_silence in ground (arith, h)
Ordered-step (settle_wakes now) m h =
    unfold wait_for_asr_settle in
    ground (arith, h, Ordered-finalize_turn (record m { asr_settle_task = none }))

-- Whatever happens, the turns are passed on in order and once, if they were so far (as in a new
-- manager, which has passed on none): their ids strictly increase, none is
-- the current one, and none has an empty transcript.
pub run-Ordered :
    (es : List Event) (m : TurnManager)
    → Ordered m.turn_id m.turns
    → Ordered (run es m).turn_id (run es m).turns
unfolding run
run-Ordered [] m h = h
run-Ordered (e ∷ es) m h = run-Ordered es (step e m) (Ordered-step e m h)
