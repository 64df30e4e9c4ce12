-- ===== src/Voice/TurnManager.antt =====
-- voice/turn_manager.py: when a caller's turn is over. Times are whole milliseconds.
-- An asyncio task that sleeps is the time it wakes at; one that is done or cancelled is no task.
pub mod Sound
pub mod Finalize
pub mod Order
pub mod Transcript
use bfsi_voice_agent.Prelude.{
  ℕ, ◌+◌, Bool, true, false, not, ◌&&◌, Option, none, some, List, [], ◌∷◌, ◌++◌, ltb, ◌==◌,
  if◌then◌else◌, Text, is_empty, strip, starts_with,
}

pub data TurnState : Type 0 where
  listening : TurnState
  endpointing : TurnState

abbrev pub is_endpointing : TurnState → Bool
is_endpointing listening = false
is_endpointing endpointing = true

pub record TurnResult : Type 0 where
  pub turn_id : ℕ
  pub transcript : Text

pub record TurnManagerConfig : Type 0 where
  pub endpoint_silence_ms : ℕ
  pub asr_settle_ms : ℕ

-- `_wait_for_asr_settle`, asleep.
pub record SettleTask : Type 0 where
  pub wakes_at : ℕ
  pub expected_turn_id : ℕ
  pub expected_final_version : ℕ

-- `turns` are the results passed to the callback, the latest first.
pub record TurnManager : Type 0 where
  pub config : TurnManagerConfig
  pub state : TurnState
  pub turn_id : ℕ
  pub final_segments : List Text
  pub latest_partial : Text
  pub speech_active : Bool
  pub endpoint_task : Option ℕ
  pub asr_settle_task : Option SettleTask
  pub silence_timeout_complete : Bool
  pub last_final_version : ℕ
  pub turns : List TurnResult

abbrev pub new_manager : TurnManagerConfig → TurnManager
new_manager config = record {
  config = config;
  state = listening;
  turn_id = 0;
  final_segments = [];
  latest_partial = [];
  speech_active = false;
  endpoint_task = none;
  asr_settle_task = none;
  silence_timeout_complete = false;
  last_final_version = 0;
  turns = [];
}

abbrev cancel_endpoint_timer : TurnManager → TurnManager
cancel_endpoint_timer m = record m { endpoint_task = none }

abbrev cancel_asr_settle_timer : TurnManager → TurnManager
cancel_asr_settle_timer m = record m { asr_settle_task = none }

abbrev start_endpoint_timer : ℕ → TurnManager → TurnManager
start_endpoint_timer now m = record m { endpoint_task = some (now + m.config.endpoint_silence_ms) }

abbrev pub restart_asr_settle_timer : ℕ → TurnManager → TurnManager
restart_asr_settle_timer now m = record m {
  asr_settle_task = some (record {
    wakes_at = now + m.config.asr_settle_ms;
    expected_turn_id = m.turn_id;
    expected_final_version = m.last_final_version;
  });
}

unfoldable pub set_config : ℕ → TurnManagerConfig → TurnManager → TurnManager
set_config now config m =
    let m' : TurnManager = record m { config = config } in
    if is_endpointing m.state && (not m.speech_active && not m.silence_timeout_complete)
    then start_endpoint_timer now m'
    else m'

unfoldable pub on_speech_start : TurnManager → TurnManager
on_speech_start m = cancel_asr_settle_timer (
    cancel_endpoint_timer
      (record m { speech_active = true; state = listening; silence_timeout_complete = false }))

unfoldable pub on_speech_end : ℕ → TurnManager → TurnManager
on_speech_end now m =
    start_endpoint_timer now
      (record m { speech_active = false; state = endpointing; silence_timeout_complete = false })

unfoldable pub on_partial_transcript : ℕ → Text → TurnManager → TurnManager
unfolding strip
on_partial_transcript now text m =
    let transcript = strip text in
    let m' : TurnManager = record m { latest_partial = transcript } in
    if is_empty transcript
    then m
    else if is_endpointing m.state && m.silence_timeout_complete
    then restart_asr_settle_timer now m'
    else m'

unfoldable pub on_final_transcript : ℕ → Text → TurnManager → TurnManager
unfolding strip
on_final_transcript now text m =
    let transcript = strip text in
    let m' : TurnManager = record m {
      final_segments = m.final_segments ++ (transcript ∷ []);
      latest_partial = [];
      last_final_version = m.last_final_version + 1;
    } in
    if is_empty transcript
    then m
    else if is_endpointing m.state && m.silence_timeout_complete
    then restart_asr_settle_timer now m'
    else m'

-- `_endpoint_after_silence` from the end of its sleep, if it has slept long enough.
unfoldable pub endpoint_after_silence : ℕ → TurnManager → TurnManager
endpoint_after_silence now m = elim m.endpoint_task [
  | none ↦ m
  | some wakes_at ↦
      let done : TurnManager = record m { endpoint_task = none } in
      if ltb now wakes_at
      then m
      else if m.speech_active
      then done
      else restart_asr_settle_timer now (record done { silence_timeout_complete = true })
]

-- `" ".join(segment.strip() for segment in segments if segment.strip())`
unfoldable pub join_segments : List Text → Text
unfolding strip
join_segments [] = []
join_segments (segment ∷ segments) =
    let rest = join_segments segments in
    if is_empty (strip segment)
    then rest
    else if is_empty rest
    then strip segment
    else strip segment ++ (32 ∷ rest)

unfoldable pub build_transcript : TurnManager → Text
unfolding strip starts_with join_segments
build_transcript m =
    let final_text = strip (join_segments m.final_segments) in
    let partial_text = strip m.latest_partial in
    if not (is_empty final_text) && not (is_empty partial_text)
    then if starts_with final_text partial_text
      then partial_text
      else strip (final_text ++ (32 ∷ partial_text))
    else if not (is_empty final_text)
    then final_text
    else partial_text

abbrev reset_for_next_turn : TurnManager → TurnManager
reset_for_next_turn m =
    let m' = cancel_asr_settle_timer (cancel_endpoint_timer m) in
    record m' {
      turn_id = m.turn_id + 1;
      final_segments = [];
      latest_partial = [];
      speech_active = false;
      state = listening;
      silence_timeout_complete = false;
      last_final_version = 0;
    }

unfoldable pub finalize_turn : TurnManager → TurnManager
unfolding build_transcript
finalize_turn m =
    let transcript = build_transcript m in
    let result : TurnResult = record { turn_id = m.turn_id; transcript = transcript } in
    if is_empty transcript
    then reset_for_next_turn m
    else reset_for_next_turn (record m { turns = result ∷ m.turns })

-- `_wait_for_asr_settle` from the end of its sleep, if it has slept long enough.
unfoldable pub wait_for_asr_settle : ℕ → TurnManager → TurnManager
unfolding finalize_turn
wait_for_asr_settle now m = elim m.asr_settle_task [
  | none ↦ m
  | some task ↦
      let done : TurnManager = record m { asr_settle_task = none } in
      if ltb now task.wakes_at
      then m
      else if m.speech_active
      then done
      else if not (task.expected_turn_id == m.turn_id)
      then done
      else if not (task.expected_final_version == m.last_final_version)
      then done
      else finalize_turn done
]

unfoldable pub shutdown : TurnManager → TurnManager
shutdown m = cancel_asr_settle_timer (cancel_endpoint_timer m)
