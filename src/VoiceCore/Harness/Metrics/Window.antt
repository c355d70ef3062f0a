-- ===== src/VoiceCore/Harness/Metrics/Window.antt =====
-- The measurements of voice-core/src/fixture_harness.rs beside its playback.
use godot_network_audio.Common.{
  ℕ, zero, suc, ◌+◌, ◌*◌, ◌≤◌, ◌≡◌, refl, subst, ◌⊎◌, List, length, leb, arith, Bool-cases, inl,
  inr, length-append, length-replicate,
}
use godot_network_audio.Common.Run.{Run, done, panics, out_of_fuel}
use godot_network_audio.VoiceCore.Error.{Result, ok, err, Result-cases}
use godot_network_audio.VoiceCore.Float.{Floats}
use godot_network_audio.VoiceCore.Receiver.{VoiceReceiver}
use godot_network_audio.VoiceCore.Receiver.Jitter.{NetEq}
use godot_network_audio.VoiceCore.Receiver.Talkspurt.{length-pull_frame}
use godot_network_audio.VoiceCore.Harness.{
  ScheduledPacket, Playback, push_due, finish_step, play_step, play,
}
use godot_network_audio.VoiceCore.Harness.Metrics.{
  Times, Metered, finish_metered, meter_step, meter, frame_at,
}

module _ (f : Floats) (n : NetEq f.F32) (clock : ℕ → n.Instant) where
  open f use {F32, lit}

  -- The playback of a result, without its measurements.
  abbrev pub erased_step : Result (Metered f n clock) → Result (Playback f n clock)
  erased_step (err e) = err e
  erased_step (ok q) = ok q.playback

  abbrev pub erased : Run (Result (Metered f n clock)) → Run (Result (Playback f n clock))
  erased (done r) = done (erased_step r)
  erased panics = panics
  erased out_of_fuel = out_of_fuel

  finish_erased :
      (w : Times) (q : Metered f n clock)
      (pushed : Result (VoiceReceiver f n × List ScheduledPacket))
      → erased_step (finish_metered f n clock w q pushed)
        ≡ finish_step f n clock w.playout_start_us q.playback pushed
  finish_erased w q (err e) = refl
  finish_erased w q (ok (r, es)) = refl

  step_erased :
      (w : Times) (q : Metered f n clock)
      → erased_step (meter_step f n clock w q) ≡ play_step f n clock w.playout_start_us q.playback
  unfolding meter_step play_step
  step_erased w q =
      finish_erased w q (push_due f n clock q.playback.t q.playback.receiver q.playback.events)

  -- The measurements only read: without them the loop is the playback, round by round.
  pub erased-meter :
      (fuel : ℕ) (w : Times) (q : Metered f n clock)
      → erased (meter f n clock fuel w q)
        ≡ play f n clock fuel w.playout_start_us w.end_time_us q.playback
  unfolding meter play
  erased-meter zero w q = refl
  erased-meter (suc fuel) w q = elim (Bool-cases (leb q.playback.t w.end_time_us)) [
    | inr over ↦ ground (arith, over)
    | inl runs ↦ elim (Result-cases (meter_step f n clock w q)) [
      | inr (e, failed) ↦ ground (arith, runs, failed, step_erased w q)
      | inl (q', went) ↦ ground (arith, runs, went, step_erased w q, erased-meter fuel w q')
    ]
  ]

  -- The samples that are measured are whole frames, and no more than fit between the two ends of the
  -- window.
  pub record IsMeasured (w : Times) (q : Metered f n clock) : Type 0 where
    pub whole : length q.measures.measured_samples ≡ 480 * q.measures.measured_frames
    pub behind :
        (q.measures.measured_frames ≡ 0)
        ⊎ (w.measure_start_us + q.measures.measured_frames * 10_000 ≤ q.playback.t)
    pub within :
        (q.measures.measured_frames ≡ 0)
        ⊎ (w.measure_start_us + q.measures.measured_frames * 10_000 ≤ w.measure_end_us + 10_000)

  abbrev StepMeasured : Times → Result (Metered f n clock) → Type 0
  StepMeasured w (err e) = Unit
  StepMeasured w (ok q) = IsMeasured w q

  length-frame_at :
      (w : Times) (t : ℕ) (r : VoiceReceiver f n) → length (frame_at f n clock w t r).1 ≡ 480
  length-frame_at w t r =
      ground (arith, length-replicate 480 (lit "0.0"), length-pull_frame f n r 480)

  finish_measured :
      (w : Times) (q : Metered f n clock)
      (pushed : Result (VoiceReceiver f n × List ScheduledPacket))
      → IsMeasured w q
      → StepMeasured w (finish_metered f n clock w q pushed)
  finish_measured w q (err e) h = tt
  finish_measured w q (ok (r, es)) h =
      let frame = (frame_at f n clock w q.playback.t r).1 in
      let full = length-frame_at w q.playback.t r in
      let more = length-append q.measures.measured_samples frame in
      record {
        whole = ground (arith, full, more, h.whole);
        behind = ground (arith, h.behind);
        within = ground (arith, h.behind, h.within);
      }

  abbrev pub Measured : Times → Run (Result (Metered f n clock)) → Type 0
  Measured w (done (ok q)) = IsMeasured w q
  Measured w _ = Unit

  step_measured :
      (w : Times) (q : Metered f n clock)
      → IsMeasured w q
      → StepMeasured w (meter_step f n clock w q)
  unfolding meter_step
  step_measured w q h =
      finish_measured w q (push_due f n clock q.playback.t q.playback.receiver q.playback.events) h

  -- However the loop ends.
  pub meter-Measured :
      (fuel : ℕ) (w : Times) (q : Metered f n clock)
      → IsMeasured w q
      → Measured w (meter f n clock fuel w q)
  unfolding meter
  meter-Measured zero w q h = tt
  meter-Measured (suc fuel) w q h = elim (Bool-cases (leb q.playback.t w.end_time_us)) [
    | inr over ↦
        let ends : done (ok q) ≡ meter f n clock (suc fuel) w q = ground (arith, over) in
        subst (Measured w) ends h
    | inl runs ↦ elim (Result-cases (meter_step f n clock w q)) [
      | inr (e, failed) ↦
          let ends : done (err e) ≡ meter f n clock (suc fuel) w q = ground (arith, runs, failed) in
          subst (Measured w) ends tt
      | inl (q', went) ↦
          let goes : meter f n clock fuel w q' ≡ meter f n clock (suc fuel) w q =
            ground (arith, runs, went) in
          subst (Measured w) goes
            (meter-Measured fuel w q' (subst (StepMeasured w) went (step_measured w q h)))
    ]
  ]
