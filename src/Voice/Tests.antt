-- ===== src/Voice/Tests.antt =====
-- voice/turn_manager.py at concrete inputs.
use bfsi_voice_agent.Prelude.{strip, ◌≡◌, refl, List, [], ◌∷◌, arith, codes}
use bfsi_voice_agent.Voice.TurnManager.{
  TurnManager, TurnManagerConfig, new_manager, build_transcript, on_partial_transcript,
  on_final_transcript, on_speech_end, on_speech_start, endpoint_after_silence, wait_for_asr_settle,
}
use bfsi_voice_agent.Voice.TurnManager.Sound.{
  Event, speech_starts, speech_ends, final_comes, partial_comes, endpoint_wakes, settle_wakes, step,
  run, Sound, run-new_manager-Sound,
}
use bfsi_voice_agent.Voice.TurnManager.Finalize.{Finalized, turn_finalizes}
use bfsi_voice_agent.Voice.TurnManager.Transcript.{KeptOrPassed, final_text_kept}

abbrev config : TurnManagerConfig
config = record { endpoint_silence_ms = 900; asr_settle_ms = 500 }

abbrev talk : List Event
talk =
    speech_starts
    ∷ partial_comes 5 (codes "my bal")
    ∷ speech_ends 10
    ∷ final_comes 20 (codes " my balance ")
    ∷ []

-- The caller has spoken and is silent.
abbrev silent : TurnManager
silent = run talk (new_manager config)

silent-Sound : Sound silent
silent-Sound = run-new_manager-Sound config talk

run-new_manager-Sound_example : Sound (run talk (new_manager config))
run-new_manager-Sound_example = run-new_manager-Sound config talk

turn_finalizes_example : Finalized silent (run (endpoint_wakes 910 ∷ settle_wakes 1410 ∷ []) silent)
unfolding run step on_speech_start on_partial_transcript on_speech_end on_final_transcript
turn_finalizes_example =
    turn_finalizes silent 910 1410 silent-Sound refl (omega arith) tt (omega arith)

abbrev turn : List Event
turn = endpoint_wakes 910 ∷ settle_wakes 1410 ∷ speech_starts ∷ []

-- The turn that is passed on.
turn_text :
    (run (endpoint_wakes 910 ∷ settle_wakes 1410 ∷ []) silent).turns
    ≡ record { turn_id = 0; transcript = codes "my balance" } ∷ []
unfolding run step endpoint_after_silence wait_for_asr_settle on_speech_start on_partial_transcript
    on_speech_end on_final_transcript build_transcript
turn_text = refl

abbrev settling : TurnManager
settling = run (endpoint_wakes 910 ∷ []) silent

-- A final text, a partial one, and then the two timers.
abbrev goes_on : List Event
goes_on = partial_comes 1000 (codes "thanks") ∷ endpoint_wakes 1200 ∷ settle_wakes 1900 ∷ []

final_text_kept_example :
    KeptOrPassed (codes "please") silent (run (final_comes 900 (codes " please") ∷ goes_on) silent)
unfolding strip
final_text_kept_example = final_text_kept 900 (codes " please") goes_on silent refl
