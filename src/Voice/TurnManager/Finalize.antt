-- ===== src/Voice/TurnManager/Finalize.antt =====
-- voice/turn_manager.py: a turn ends when the caller is silent, and not before.
use bfsi_voice_agent.Prelude.{
  ℕ, ◌+◌, ◌≤◌, ◌≡◌, refl, Bool, true, false, Option, none, some, List, [], ◌∷◌, arith, ltb, ◌==◌,
  if◌then◌else◌, Bool-cases, Option-cases, inl, inr, any, is_empty, ◌∙◌,
}
use bfsi_voice_agent.Voice.TurnManager.{
  TurnManager, SettleTask, listening, endpointing, is_endpointing, set_config, on_speech_start,
  on_partial_transcript, on_final_transcript, endpoint_after_silence, wait_for_asr_settle,
  finalize_turn, build_transcript, restart_asr_settle_timer,
}
use bfsi_voice_agent.Voice.TurnManager.Sound.{
  Event, speech_starts, speech_ends, partial_comes, final_comes, config_comes, endpoint_wakes,
  settle_wakes, step, run, Sound, Sound-step,
}

abbrev pub is_end : Event → Bool
is_end (speech_ends now) = true
is_end speech_starts = false
is_end (partial_comes now text) = false
is_end (final_comes now text) = false
is_end (config_comes now config) = false
is_end (endpoint_wakes now) = false
is_end (settle_wakes now) = false

step_speaking :
    (e : Event) (m : TurnManager)
    → Sound m
    → m.speech_active ≡ true
    → is_end e ≡ false
    → ((step e m).speech_active ≡ true)
      × ((step e m).turn_id ≡ m.turn_id)
      × ((step e m).turns ≡ m.turns)
unfolding step
step_speaking speech_starts m h s n = unfold on_speech_start in ground arith
step_speaking (speech_ends now) m h s n = cc
step_speaking (partial_comes now text) m h s n = unfold on_partial_transcript in ground arith
step_speaking (final_comes now text) m h s n = unfold on_final_transcript in ground arith
step_speaking (config_comes now config) m h s n = unfold set_config in ground arith
step_speaking (endpoint_wakes now) m h s n = unfold endpoint_after_silence in ground arith
step_speaking (settle_wakes now) m h s n = unfold wait_for_asr_settle in ground arith

-- No turn is cut off: from a sound state in which the caller speaks, until the end of speech is reported, no text, no
-- change of the configuration and no timer ends the turn or passes one on.
pub run_speaking :
    (es : List Event) (m : TurnManager)
    → Sound m
    → m.speech_active ≡ true
    → any is_end es ≡ false
    → ((run es m).speech_active ≡ true)
      × ((run es m).turn_id ≡ m.turn_id)
      × ((run es m).turns ≡ m.turns)
unfolding run
run_speaking [] m h s n = (s, refl, refl)
run_speaking (e ∷ es) m h s n =
    let (s', id, turns) = step_speaking e m h s (ground arith) in
    let (s'', id', turns') = run_speaking es (step e m) (Sound-step e m h) s' (ground arith) in
    (s'', id' ∙ id, turns' ∙ turns)

-- The times at which the timers wake.
abbrev pub EndpointDue : ℕ → Option ℕ → Type 0
EndpointDue now none = Unit
EndpointDue now (some wakes_at) = wakes_at ≤ now

abbrev pub SettleDue : ℕ → Option SettleTask → Type 0
SettleDue now none = Unit
SettleDue now (some task) = task.wakes_at ≤ now

abbrev pub Finalized : TurnManager → TurnManager → Type 0
Finalized m m' =
    (m'.state ≡ listening)
    × (m'.turn_id ≡ m.turn_id + 1)
    × (m'.final_segments ≡ [])
    × (m'.turns ≡ (
        if is_empty (build_transcript m)
        then m.turns
        else record { turn_id = m.turn_id; transcript = build_transcript m } ∷ m.turns))

-- Only the text, the id and the turns passed on matter.
finalize_turn-Finalized :
    (m m' : TurnManager)
    → m'.final_segments ≡ m.final_segments
    → m'.latest_partial ≡ m.latest_partial
    → m'.turn_id ≡ m.turn_id
    → m'.turns ≡ m.turns
    → Finalized m (finalize_turn m')
unfolding finalize_turn
finalize_turn-Finalized m m' segments partial id turns =
    let same : build_transcript m' ≡ build_transcript m =
      unfold build_transcript in rw (segments, partial) refl in
    elim (Bool-cases (is_empty (build_transcript m))) [
      | inl e ↦ rw (same, e, id) (refl, refl, refl, turns)
      | inr e ↦ rw (same, e, id, turns) (refl, refl, refl, refl)
    ]

settle_finalizes :
    (m m' : TurnManager) (later : ℕ) (task : SettleTask)
    → m'.asr_settle_task ≡ some task
    → m'.speech_active ≡ false
    → task.wakes_at ≤ later
    → task.expected_turn_id ≡ m'.turn_id
    → task.expected_final_version ≡ m'.last_final_version
    → m'.final_segments ≡ m.final_segments
    → m'.latest_partial ≡ m.latest_partial
    → m'.turn_id ≡ m.turn_id
    → m'.turns ≡ m.turns
    → Finalized m (wait_for_asr_settle later m')
unfolding wait_for_asr_settle
settle_finalizes m m' later task at quiet due same_turn same_version segments partial id turns =
    let woken : ltb later task.wakes_at ≡ false = ground arith in
    let turn : (task.expected_turn_id == m'.turn_id) ≡ true = ground arith in
    let version : (task.expected_final_version == m'.last_final_version) ≡ true = ground arith in
    rw (at, quiet, woken, turn, version)
      (finalize_turn-Finalized m (record m' { asr_settle_task = none }) segments partial id turns)

-- Every turn comes to its end: from any sound state in which the end of the turn is looked for, when
-- nothing more is heard and the two timers wake at their times, the manager listens for the next
-- turn, and it has passed on the text of this one, unless there is none.
pub turn_finalizes :
    (m : TurnManager) (now later : ℕ)
    → Sound m
    → m.state ≡ endpointing
    → EndpointDue now m.endpoint_task
    → SettleDue later m.asr_settle_task
    → now + m.config.asr_settle_ms ≤ later
    → Finalized m (run (endpoint_wakes now ∷ settle_wakes later ∷ []) m)
unfolding run step
turn_finalizes m now later h e due settle_due wait =
    let looking : is_endpointing m.state ≡ true = rw e refl in
    let quiet : m.speech_active ≡ false = ground arith in
    elim (Option-cases m.endpoint_task) [
      | inl untimed ↦
          let over : m.silence_timeout_complete ≡ true = ground arith in
          let still : endpoint_after_silence now m ≡ m =
            unfold endpoint_after_silence in rw untimed refl in
          elim (Option-cases m.asr_settle_task) [
            | inl none_settles ↦ absurd (rw none_settles at (h.settling over))
            | inr (task, at) ↦ rw still (
                settle_finalizes m m later task at quiet (rw at at settle_due)
                  (rw at at h.expects).0 (rw at at (h.settling over)) refl refl refl refl)
          ]
      | inr (wakes_at, timed) ↦
          let woken : ltb now wakes_at ≡ false = let d = rw timed at due in ground arith in
          let fired =
            restart_asr_settle_timer now
              (record m { endpoint_task = none; silence_timeout_complete = true }) in
          let fires : endpoint_after_silence now m ≡ fired =
            unfold endpoint_after_silence in rw (timed, woken, quiet) refl in
          rw fires (
            settle_finalizes m fired later
              (record {
                wakes_at = now + m.config.asr_settle_ms;
                expected_turn_id = m.turn_id;
                expected_final_version = m.last_final_version;
              })
              refl quiet wait refl refl refl refl refl refl)
    ]
