-- ===== src/Voice/TurnManager/Sound.antt =====
-- voice/turn_manager.py: what holds of the manager after any events.
use bfsi_voice_agent.Prelude.{
  ℕ, ◌≤◌, ◌≡◌, true, false, Option, none, some, List, [], ◌∷◌, arith, Text, is_some,
}
use bfsi_voice_agent.Voice.TurnManager.{
  TurnManager, TurnManagerConfig, SettleTask, is_endpointing, new_manager, set_config,
  on_speech_start, on_speech_end, on_partial_transcript, on_final_transcript,
  endpoint_after_silence, wait_for_asr_settle, finalize_turn,
}

-- What may happen to the manager, each with its time; the last two are the timers waking.
pub data Event : Type 0 where
  speech_starts : Event
  speech_ends : ℕ → Event
  partial_comes : ℕ → Text → Event
  final_comes : ℕ → Text → Event
  config_comes : ℕ → TurnManagerConfig → Event
  endpoint_wakes : ℕ → Event
  settle_wakes : ℕ → Event

unfoldable pub step : Event → TurnManager → TurnManager
step speech_starts m = on_speech_start m
step (speech_ends now) m = on_speech_end now m
step (partial_comes now text) m = on_partial_transcript now text m
step (final_comes now text) m = on_final_transcript now text m
step (config_comes now config) m = set_config now config m
step (endpoint_wakes now) m = endpoint_after_silence now m
step (settle_wakes now) m = wait_for_asr_settle now m

unfoldable pub run : List Event → TurnManager → TurnManager
run [] m = m
run (e ∷ es) m = run es (step e m)

-- The settle task, if there is one, is about this turn, and not about later text than there is.
abbrev pub Expects : ℕ → ℕ → Option SettleTask → Type 0
Expects turn version none = Unit
Expects turn version (some task) =
    (task.expected_turn_id ≡ turn) × (task.expected_final_version ≤ version)

-- It is about all the text there is.
abbrev pub UpToDate : ℕ → Option SettleTask → Type 0
UpToDate version none = ⊥
UpToDate version (some task) = task.expected_final_version ≡ version

-- While it listens, no timer runs; while the caller speaks, it listens; while it looks for the end
-- of the turn, either the silence is being timed, or it is over and the settle timer runs.
pub record Sound (m : TurnManager) : Type 0 where
  pub speaking_listens : m.speech_active ≡ true → is_endpointing m.state ≡ false
  pub listening_untimed :
      is_endpointing m.state ≡ false → (m.endpoint_task ≡ none) × (m.asr_settle_task ≡ none)
  pub listening_not_complete : is_endpointing m.state ≡ false → m.silence_timeout_complete ≡ false
  pub silence_timed :
      is_endpointing m.state ≡ true
      → m.silence_timeout_complete ≡ false
      → is_some m.endpoint_task ≡ true
  pub silence_over : m.silence_timeout_complete ≡ true → m.endpoint_task ≡ none
  pub settling : m.silence_timeout_complete ≡ true → UpToDate m.last_final_version m.asr_settle_task
  pub expects : Expects m.turn_id m.last_final_version m.asr_settle_task

Sound-new_manager : (config : TurnManagerConfig) → Sound (new_manager config)
Sound-new_manager config = ground arith

pub Sound-step : (e : Event) (m : TurnManager) → Sound m → Sound (step e m)
unfolding step
Sound-step speech_starts m h = unfold on_speech_start in ground arith
Sound-step (speech_ends now) m h = unfold on_speech_end in ground arith
Sound-step (partial_comes now text) m h = unfold on_partial_transcript in ground arith
Sound-step (final_comes now text) m h = unfold on_final_transcript in ground arith
Sound-step (config_comes now config) m h = unfold set_config in ground arith
Sound-step (endpoint_wakes now) m h = unfold endpoint_after_silence in ground arith
Sound-step (settle_wakes now) m h =
    unfold wait_for_asr_settle in unfold finalize_turn in ground arith

run-Sound : (es : List Event) (m : TurnManager) → Sound m → Sound (run es m)
unfolding run
run-Sound [] m h = h
run-Sound (e ∷ es) m h = run-Sound es (step e m) (Sound-step e m h)

-- Whatever happens from the start on, in whatever order and however late the timers wake: a timer
-- runs only while the end of the turn is looked for; the caller's speech is never taken for
-- silence; and while the end is looked for, a timer runs that has the turn's latest text, so no
-- turn stays open for want of a timer.
pub run-new_manager-Sound :
    (config : TurnManagerConfig) (es : List Event) → Sound (run es (new_manager config))
run-new_manager-Sound config es = run-Sound es (new_manager config) (Sound-new_manager config)
