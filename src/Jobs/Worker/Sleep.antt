-- ===== src/Jobs/Worker/Sleep.antt =====
-- jobs/worker.py: the loop of the chaos hook ends when the time is over.
use bfsi_voice_agent.Prelude.{
  ℕ, zero, suc, ◌+◌, ◌≤◌, ◌≡◌, false, Bool-cases, inl, inr, arith, ltb, refl,
}
use bfsi_voice_agent.Jobs.Worker.{World, JobContext, beat, sleep_until}

beat-clock : (ctx : JobContext) (w : World) → (beat ctx w).1.clock ≡ w.clock
unfolding beat
beat-clock ctx w = refl

-- With as many rounds as there are microseconds to wait, the loop stops because the clock has
-- reached the deadline, not because the rounds are used up.
sleep_until-ends :
    (rounds deadline : ℕ) (ctx : JobContext) (w : World)
    → deadline ≤ w.clock + rounds
    → ltb (sleep_until rounds deadline ctx w).clock deadline ≡ false
unfolding sleep_until
sleep_until-ends zero deadline ctx w h = ground arith
sleep_until-ends (suc rounds) deadline ctx w h =
    let later : World = record w { clock = w.clock + 100000 } in
    elim (Bool-cases (ltb w.clock deadline)) [
      | inl e ↦
          rw (e, sleep_until)
            (sleep_until-ends rounds deadline ctx (beat ctx later).1
              (omega (arith, h, beat-clock ctx later)))
      | inr e ↦ rw (e, sleep_until) e
    ]
