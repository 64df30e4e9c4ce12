-- ===== src/Voice/TurnManager/Transcript.antt =====
-- voice/turn_manager.py: the transcript has everything that was heard.
use bfsi_voice_agent.Prelude.{
  append_assoc, strip-Trimmed, ◌∙◌, ap, ℕ, ◌≡◌, ◌⊎◌, inl, inr, refl, sym, false, none, List, [],
  ◌∷◌, ◌++◌, arith, Text, strip, starts_with, is_empty, Bool-cases, Occurs, Trimmed, Occurs-left,
  Occurs-right, strip-Occurs, Trimmed-strip, starts_with-prefix, is_empty-Occurs, In, append_nil,
}
use bfsi_voice_agent.Voice.TurnManager.{
  TurnResult, TurnManager, join_segments, build_transcript, finalize_turn, set_config,
  on_speech_start, on_speech_end, on_partial_transcript, on_final_transcript,
  endpoint_after_silence, wait_for_asr_settle,
}
use bfsi_voice_agent.Voice.TurnManager.Sound.{
  run, Event, speech_starts, speech_ends, partial_comes, final_comes, config_comes, endpoint_wakes,
  settle_wakes, step,
}

In-append : (s : Text) (ts us : List Text) → In s ts → In s (ts ++ us)
In-append s [] us h = absurd h
In-append s (t ∷ ts) us (inl e) = inl e
In-append s (t ∷ ts) us (inr h) = inr (In-append s ts us h)

join_segments-Occurs :
    (s : Text) (ts : List Text) → Trimmed s → In s ts → Occurs s (join_segments ts)
unfolding join_segments
join_segments-Occurs s [] n h = absurd h
join_segments-Occurs s (t ∷ ts) n (inl e) =
    let same : strip t ≡ s = ap strip (sym e) ∙ strip-Trimmed s n in
    let here : is_empty s ≡ false = is_empty-Occurs s s n.0 ([], [], sym (append_nil s)) in
    rw (same, here)
      (elim (Bool-cases (is_empty (join_segments ts))) [
        | inl e' ↦ rw e' ([], [], sym (append_nil s))
        | inr e' ↦ rw e' (Occurs-left s s (32 ∷ join_segments ts) ([], [], sym (append_nil s)))
      ])
join_segments-Occurs s (t ∷ ts) n (inr h) =
    let rest = join_segments-Occurs s ts n h in
    let there : is_empty (join_segments ts) ≡ false =
      is_empty-Occurs s (join_segments ts) n.0 rest in
    elim (Bool-cases (is_empty (strip t))) [
      | inl e ↦ rw e rest
      | inr e ↦
          rw (e, there)
            (Occurs-right s (32 ∷ join_segments ts) (strip t)
              (Occurs-right s (join_segments ts) (32 ∷ []) rest))
    ]

-- Either half of the transcript stays in it.
build_transcript-final :
    (p : Text) (m : TurnManager)
    → Trimmed p
    → Occurs p (join_segments m.final_segments)
    → Occurs p (build_transcript m)
unfolding build_transcript
build_transcript-final p m h o =
    let final_text = strip (join_segments m.final_segments) in
    let partial_text = strip m.latest_partial in
    let kept : Occurs p final_text = strip-Occurs p (join_segments m.final_segments) h o in
    let some_final : is_empty final_text ≡ false = is_empty-Occurs p final_text h.0 kept in
    elim (Bool-cases (is_empty partial_text)) [
      | inl e ↦ rw (some_final, e) kept
      | inr e ↦ elim (Bool-cases (starts_with final_text partial_text)) [
        | inl e' ↦
            let (r, same) = starts_with-prefix final_text partial_text e' in
            rw (some_final, e, e') (rw same (Occurs-left p final_text r kept))
        | inr e' ↦
            rw (some_final, e, e')
              (strip-Occurs p (final_text ++ (32 ∷ partial_text)) h
                (Occurs-left p final_text (32 ∷ partial_text) kept))
      ]
    ]

-- What becomes of a segment of the turn: the turn is still open and has it, or the result that was
-- passed on for this turn, the first of the newer ones, has it in its transcript.
abbrev pub KeptOrPassed : Text → TurnManager → TurnManager → Type 0
KeptOrPassed s m m' =
    (In s m'.final_segments × (m'.turn_id ≡ m.turn_id) × (m'.turns ≡ m.turns))
    ⊎ ((transcript : Text) × (newer : List TurnResult) × (m'.turns
          ≡ newer ++ (record { turn_id = m.turn_id; transcript = transcript } ∷ m.turns))
        × Occurs s transcript)

finalize_turn-passes :
    (s : Text) (m : TurnManager)
    → Trimmed s
    → In s m.final_segments
    → KeptOrPassed s m (finalize_turn m)
unfolding finalize_turn
finalize_turn-passes s m trimmed h =
    let o =
      build_transcript-final s m trimmed (join_segments-Occurs s m.final_segments trimmed h) in
    let full : is_empty (build_transcript m) ≡ false =
      is_empty-Occurs s (build_transcript m) trimmed.0 o in
    rw full (inr (build_transcript m, [], refl, o))

step_keeps_text :
    (s : Text) (e : Event) (m : TurnManager)
    → Trimmed s
    → In s m.final_segments
    → KeptOrPassed s m (step e m)
unfolding step
step_keeps_text s speech_starts m n h = unfold on_speech_start in inl (h, refl, refl)
step_keeps_text s (speech_ends now) m n h = unfold on_speech_end in inl (h, refl, refl)
step_keeps_text s (partial_comes now text) m n h =
    unfold on_partial_transcript in inl (ground (arith, h))
step_keeps_text s (final_comes now text) m n h =
    let more = In-append s m.final_segments (strip text ∷ []) h in
    unfold on_final_transcript in inl (ground (arith, h, more))
step_keeps_text s (config_comes now config) m n h = unfold set_config in inl (ground (arith, h))
step_keeps_text s (endpoint_wakes now) m n h =
    unfold endpoint_after_silence in inl (ground (arith, h))
step_keeps_text s (settle_wakes now) m n h =
    unfold wait_for_asr_settle in
    ground (arith, h, finalize_turn-passes s (record m { asr_settle_task = none }) n h)

finalize_turn-adds :
    (m : TurnManager) → (newer : List TurnResult) × ((finalize_turn m).turns ≡ newer ++ m.turns)
unfolding finalize_turn
finalize_turn-adds m = elim (Bool-cases (is_empty (build_transcript m))) [
  | inl e ↦ rw e ([], refl)
  | inr e ↦ rw e (record { turn_id = m.turn_id; transcript = build_transcript m } ∷ [], refl)
]

wait_for_asr_settle-turns :
    (now : ℕ) (m : TurnManager)
    → ((wait_for_asr_settle now m).turns ≡ m.turns)
      ⊎ ((wait_for_asr_settle now m).turns
          ≡ (finalize_turn (record m { asr_settle_task = none })).turns)
unfolding wait_for_asr_settle
wait_for_asr_settle-turns now m = ground arith

step_adds_turns :
    (e : Event) (m : TurnManager)
    → (newer : List TurnResult) × ((step e m).turns ≡ newer ++ m.turns)
unfolding step
step_adds_turns speech_starts m = unfold on_speech_start in ([], refl)
step_adds_turns (speech_ends now) m = unfold on_speech_end in ([], refl)
step_adds_turns (partial_comes now text) m = unfold on_partial_transcript in ([], ground arith)
step_adds_turns (final_comes now text) m = unfold on_final_transcript in ([], ground arith)
step_adds_turns (config_comes now config) m = unfold set_config in ([], ground arith)
step_adds_turns (endpoint_wakes now) m = unfold endpoint_after_silence in ([], ground arith)
step_adds_turns (settle_wakes now) m = elim (wait_for_asr_settle-turns now m) [
  | inl same ↦ ([], same)
  | inr passed ↦
      let (newer, added) = finalize_turn-adds (record m { asr_settle_task = none }) in
      (newer, passed ∙ added)
]

run_adds_turns :
    (es : List Event) (m : TurnManager)
    → (newer : List TurnResult) × ((run es m).turns ≡ newer ++ m.turns)
unfolding run
run_adds_turns [] m = ([], refl)
run_adds_turns (e ∷ es) m =
    let (first, one) = step_adds_turns e m in
    let (newer, rest) = run_adds_turns es (step e m) in
    (newer ++ first, rest ∙ (ap (λ ts. newer ++ ts) one ∙ sym (append_assoc newer first m.turns)))

-- A start that has the same turn and the same results serves as well.
from_same :
    (s : Text) (m₀ m m' : TurnManager)
    → m.turn_id ≡ m₀.turn_id
    → m.turns ≡ m₀.turns
    → KeptOrPassed s m m'
    → KeptOrPassed s m₀ m'
from_same s m₀ m m' turn same (inl (h, turn', same')) = inl (h, turn' ∙ turn, same' ∙ same)
from_same s m₀ m m' turn same (inr (transcript, newer, passed, o)) =
    let result : ℕ → TurnResult = λ n. record { turn_id = n; transcript = transcript } in
    inr (
      transcript,
      newer,
      passed
          ∙ (ap (λ n. newer ++ (result n ∷ m.turns)) turn
              ∙ ap (λ ts. newer ++ (result m₀.turn_id ∷ ts)) same),
      o,
    )

run_keeps_text :
    (s : Text) (es : List Event) (m : TurnManager)
    → Trimmed s
    → In s m.final_segments
    → KeptOrPassed s m (run es m)
unfolding run
run_keeps_text s [] m n h = inl (h, refl, refl)
run_keeps_text s (e ∷ es) m n h = elim (step_keeps_text s e m n h) [
  | inl (here, turn, same) ↦
      from_same s m (step e m) (run es (step e m)) turn same (run_keeps_text s es (step e m) n here)
  | inr (transcript, newer, passed, o) ↦
      let (more, rest) = run_adds_turns es (step e m) in
      inr (
        transcript,
        more ++ newer,
        rest ∙ (ap (λ ts. more ++ ts) passed ∙ sym (append_assoc more newer _)),
        o,
      )
]

In-last : (s : Text) (ts : List Text) → In s (ts ++ (s ∷ []))
In-last s [] = inl refl
In-last s (t ∷ ts) = inr (In-last s ts)

-- What `on_final_transcript` does with a text that is not blank.
final_comes-takes :
    (now : ℕ) (text : Text) (m : TurnManager)
    → is_empty (strip text) ≡ false
    → let m' = on_final_transcript now text m in
      In (strip text) m'.final_segments × (m'.turn_id ≡ m.turn_id) × (m'.turns ≡ m.turns)
unfolding on_final_transcript
final_comes-takes now text m n =
    let taken = In-last (strip text) m.final_segments in ground (arith, taken)

-- No final text is lost: where the recogniser gives a final text that is not blank, in any state and
-- whatever events follow, either the turn in which it came is still open and has the stripped text
-- among its final segments, or the result of this turn was passed on, the next result after those
-- passed before, and the stripped text occurs in its transcript.
pub final_text_kept :
    (now : ℕ) (text : Text) (later : List Event) (m : TurnManager)
    → is_empty (strip text) ≡ false
    → KeptOrPassed (strip text) m (run (final_comes now text ∷ later) m)
unfolding run step
final_text_kept now text later m n =
    let (taken, turn, same) = final_comes-takes now text m n in
    let m' = on_final_transcript now text m in
    from_same (strip text) m m' (run later m') turn same
      (run_keeps_text (strip text) later m' (Trimmed-strip text n) taken)
