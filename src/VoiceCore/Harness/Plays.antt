-- ===== src/VoiceCore/Harness/Plays.antt =====
-- A whole playback of voice-core/src/fixture_harness.rs.
use godot_network_audio.Common.{
  ℕ, zero, suc, ◌+◌, ◌*◌, ◌<◌, ◌≤◌, ◌≡◌, refl, subst, Bool, true, not, List, [], ◌∷◌, length, leb,
  replicate, arith, Bool-cases, inl, inr, length-append, length-replicate,
}
use godot_network_audio.Common.Run.{Run, done, panics, out_of_fuel}
use godot_network_audio.VoiceCore.Error.{Result, ok, err, Result-cases}
use godot_network_audio.VoiceCore.Float.{Floats}
use godot_network_audio.VoiceCore.Receiver.{VoiceReceiver, pull_frame, push_packet_with_now_mono}
use godot_network_audio.VoiceCore.Receiver.Jitter.{NetEq}
use godot_network_audio.VoiceCore.Receiver.Talkspurt.{length-pull_frame}
use godot_network_audio.VoiceCore.Harness.{
  ScheduledPacket, Playback, push_due, finish_step, play_step, play, first_arrival, last_arrival,
  run_harness,
}
use godot_network_audio.VoiceCore.Harness.Order.{is_by, is_ascending, is_by-last}

module _ (f : Floats) (n : NetEq f.F32) (clock : ℕ → n.Instant) where
  open f use {F32, lit}

  -- A playback that returns meets `P`, unless a push failed.
  abbrev pub Returns : (Playback f n clock → Type 0) → Run (Result (Playback f n clock)) → Type 0
  Returns P (done (ok p)) = P p
  Returns P (done (err e)) = Unit
  Returns P panics = ⊥
  Returns P out_of_fuel = ⊥

  -- The events that are left come later than `t`.
  abbrev is_after : ℕ → List ScheduledPacket → Bool
  is_after t [] = true
  is_after t (e ∷ es) = not (leb e.arrival_us t)

  -- What a push of the due events leaves of them.
  abbrev Pushed : ℕ → ℕ → Result (VoiceReceiver f n × List ScheduledPacket) → Type 0
  Pushed b t (err e) = Unit
  Pushed b t (ok (r, es)) = (is_by b es ≡ true) × (is_after t es ≡ true)

  push_due-Pushed :
      (b t : ℕ) (r : VoiceReceiver f n) (es : List ScheduledPacket)
      → is_by b es ≡ true
      → Pushed b t (push_due f n clock t r es)
  unfolding push_due
  push_due-Pushed b t r [] h = (refl, refl)
  push_due-Pushed b t r (e ∷ es) h =
      let pushed =
        push_packet_with_now_mono f n (clock t) r e.packet
          (record { received_at_mono_us = e.arrival_us }) t in
      elim (Bool-cases (leb e.arrival_us t)) [
        | inr late ↦ rw late (h, ground (arith, late))
        | inl due ↦ elim (Result-cases pushed.1) [
          | inr (reason, failed) ↦ rw (due, failed) tt
          | inl (u, taken) ↦ rw (due, taken) (push_due-Pushed b t pushed.0 es (ground (arith, h)))
        ]
      ]

  -- A playback from `p` that is over.
  pub record Played (end_time_us : ℕ) (p last : Playback f n clock) : Type 0 where
    pub delivered : last.events ≡ []
    pub over : end_time_us < last.t
    pub on_time : last.t ≤ end_time_us + 10_000
    pub length_output :
        length last.output * 10_000 + 480 * p.t ≡ length p.output * 10_000 + 480 * last.t

  -- What a step leaves.
  record Stepped (b : ℕ) (p p' : Playback f n clock) : Type 0 where
    by : is_by b p'.events ≡ true
    after : is_after p.t p'.events ≡ true
    time : p'.t ≡ p.t + 10_000
    length_output : length p'.output ≡ length p.output + 480

  abbrev StepReturns : ℕ → Playback f n clock → Result (Playback f n clock) → Type 0
  StepReturns b p (err e) = Unit
  StepReturns b p (ok p') = Stepped b p p'

  finish_lem :
      (start b : ℕ) (p : Playback f n clock)
      (pushed : Result (VoiceReceiver f n × List ScheduledPacket))
      → Pushed b p.t pushed
      → StepReturns b p (finish_step f n clock start p pushed)
  finish_lem start b p (err e) w = tt
  finish_lem start b p (ok (r, es)) w = record {
    by = w.0;
    after = w.1;
    time = refl;
    length_output = ground (
      arith,
      length-append p.output (pull_frame f n r 480).1,
      length-append p.output (replicate 480 (lit "0.0")),
      length-replicate 480 (lit "0.0"),
      length-pull_frame f n r 480,
    );
  }

  step_lem :
      (start b : ℕ) (p : Playback f n clock)
      → is_by b p.events ≡ true
      → StepReturns b p (play_step f n clock start p)
  unfolding play_step
  step_lem start b p h =
      finish_lem start b p (push_due f n clock p.t p.receiver p.events)
        (push_due-Pushed b p.t p.receiver p.events h)

  Returns-map :
      (P Q : Playback f n clock → Type 0) (r : Run (Result (Playback f n clock)))
      → ((p : Playback f n clock) → P p → Q p)
      → Returns P r
      → Returns Q r
  Returns-map P Q (done (ok p)) go h = go p h
  Returns-map P Q (done (err e)) go h = h
  Returns-map P Q panics go h = elim h [ ]
  Returns-map P Q out_of_fuel go h = elim h [ ]

  none_left :
      (b t : ℕ) (es : List ScheduledPacket)
      → b < t
      → is_by b es ≡ true
      → is_after t es ≡ true
      → es ≡ []
  none_left b t [] l h k = refl
  none_left b t (e ∷ es) l h k = absurd (ground (arith, l, h, k))

  -- A step and what follows it.
  then_Played :
      (end_us b : ℕ) (p p' last : Playback f n clock)
      → Stepped b p p'
      → Played end_us p' last
      → Played end_us p last
  then_Played end_us b p p' last s w = record {
    delivered = w.delivered;
    over = w.over;
    on_time = w.on_time;
    length_output = omega (arith, s.time, s.length_output, w.length_output);
  }

  last_step :
      (end_us b : ℕ) (p p' : Playback f n clock)
      → b + 10_000 ≤ end_us
      → p.t ≤ end_us
      → end_us < p'.t
      → Stepped b p p'
      → Played end_us p p'
  last_step end_us b p p' room due over s = record {
    delivered = none_left b p.t p'.events (omega (arith, s.time)) s.by s.after;
    over = over;
    on_time = omega (arith, s.time);
    length_output = omega (arith, s.time, s.length_output);
  }

  play_lem :
      (fuel start end_us b : ℕ) (p : Playback f n clock)
      → is_by b p.events ≡ true
      → b + 10_000 ≤ end_us
      → end_us < p.t + fuel * 10_000
      → p.t ≤ end_us
      → Returns (Played end_us p) (play f n clock (suc fuel) start end_us p)
  unfolding play
  play_lem zero start end_us b p h room enough due = absurd (omega arith)
  play_lem (suc fuel) start end_us b p h room enough due =
      let running : leb p.t end_us ≡ true = ground (arith, due) in
      elim (Result-cases (play_step f n clock start p)) [
        | inr (e, failed) ↦
            let ends : done (err e) ≡ play f n clock (suc (suc fuel)) start end_us p =
              ground (arith, running, failed) in
            subst (Returns (Played end_us p)) ends tt
        | inl (p', went) ↦
            let s : Stepped b p p' = subst (StepReturns b p) went (step_lem start b p h) in
            let goes : play f n clock (suc fuel) start end_us p'
                ≡ play f n clock (suc (suc fuel)) start end_us p =
              ground (arith, running, went) in
            subst (Returns (Played end_us p)) goes (elim (Bool-cases (leb p'.t end_us)) [
              | inl more ↦
                  Returns-map (Played end_us p') (Played end_us p)
                    (play f n clock (suc fuel) start end_us p')
                    (λ last w. then_Played end_us b p p' last s w)
                    (play_lem fuel start end_us b p' s.by room (omega (arith, s.time, enough))
                      (ground (arith, more)))
              | inr over ↦
                  let ends : done (ok p') ≡ play f n clock (suc fuel) start end_us p' =
                    ground (arith, over) in
                  subst (Returns (Played end_us p)) ends
                    (last_step end_us b p p' room due (ground (arith, over)) s)
            ])
      ]

  -- A harness run.
  abbrev pub begin : VoiceReceiver f n → List ScheduledPacket → Playback f n clock
  begin receiver events = record { receiver = receiver; events = events; output = []; t = 0 }

  -- A harness run over events in order returns, with fuel for each 10 ms up to its end. Unless NetEq
  -- refuses a packet, no event is left, and the output is exactly 480 samples for each 10 ms, up to
  -- 200 ms after the last arrival.
  pub harness-Plays :
      (fuel startup_buffer_ms : ℕ) (receiver : VoiceReceiver f n) (events : List ScheduledPacket)
      → is_ascending events ≡ true
      → last_arrival events + 200_000 < fuel * 10_000
      → Returns
          (Played (last_arrival events + 200_000) (begin receiver events))
          (run_harness f n clock (suc fuel) startup_buffer_ms receiver events)
  unfolding run_harness
  harness-Plays fuel startup_buffer_ms receiver events ascending enough =
      play_lem fuel (first_arrival events + startup_buffer_ms * 1_000)
        (last_arrival events + 200_000) (last_arrival events) (begin receiver events)
        (is_by-last events ascending) (omega arith) (omega (arith, enough)) (omega arith)
