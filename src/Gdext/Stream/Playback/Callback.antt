-- ===== src/Gdext/Stream/Playback/Callback.antt =====
-- What a mix callback of gdext/src/stream.rs guarantees the engine.
use godot_network_audio.Common.{
  ℕ, ◌<◌, ◌≡◌, refl, ap, ◌∙◌, ◌⊎◌, inl, inr, Bool, true, false, not, ◌||◌, length, arith,
  length-replicate, Bool-cases, Option-cases,
}
use godot_network_audio.Common.Run.{Run, done, ◌>>=◌}
use godot_network_audio.VoiceCore.Float.{Floats}
use godot_network_audio.VoiceCore.Receiver.{VoiceReceiver}
use godot_network_audio.VoiceCore.Receiver.Jitter.{NetEq}
use godot_network_audio.Gdext.Stream.{Clock, SharedStreamState}
use godot_network_audio.Gdext.Stream.Playback.{
  AudioStreamNetworkPlayback, Filling, Round, drain_packets_into_receiver, zero_frames, mono_frame,
}
use godot_network_audio.Gdext.Stream.Playback.Fill.{fill-Fills}
use godot_network_audio.Gdext.Stream.Playback.Mix.{
  Mixed, play, play_with, start, finish, silent, stopped, inactive, idle, detached, is_idle, mix,
}

module _ (f : Floats) (n : NetEq f.F32) (clock : Clock n.Instant) where
  open n use {Instant}

  -- A run of the callback that ends, with exactly `len` frames put out.
  pub record Serves (len : ℕ) (r : Run (Mixed f n clock)) : Type 0 where
    pub last : Mixed f n clock
    pub returns : r ≡ done last
    pub exact : length last.out ≡ len

  zeros-Serves :
      (len : ℕ) (m : Mixed f n clock) → m.out ≡ zero_frames f n clock len → Serves len (done m)
  zeros-Serves len m e = record {
    last = m;
    returns = refl;
    exact = ap (λ xs. length xs) e ∙ length-replicate len (mono_frame f n clock (f.lit "0.0"));
  }

  out-drain :
      (round : Round f n clock) (s : Filling f n clock)
      → (drain_packets_into_receiver f n clock round s).out ≡ s.out
  unfolding drain_packets_into_receiver
  out-drain round s = refl

  with-Serves :
      (fuel : ℕ) (rounds : ℕ → Round f n clock) (now : Instant) (s : SharedStreamState f n clock)
      (p : AudioStreamNetworkPlayback f n clock) (len : ℕ) (r : VoiceReceiver f n)
      → len < fuel
      → Serves len (play_with f n clock fuel rounds now s p len r)
  unfolding play_with drain_packets_into_receiver
  with-Serves fuel rounds now s p len r enough =
      let from = drain_packets_into_receiver f n clock (rounds 0) (start f n clock s p r) in
      let fills = fill-Fills f n clock fuel 1 rounds len from (omega arith) (omega arith) in
      record {
        last = finish f n clock now p len fills.last;
        returns = ap (λ run. run >>= λ e. done (finish f n clock now p len e)) fills.returns;
        exact = fills.exact;
      }

  play-Serves :
      (fuel : ℕ) (rounds : ℕ → Round f n clock) (now : Instant) (s : SharedStreamState f n clock)
      (p : AudioStreamNetworkPlayback f n clock) (len : ℕ)
      → len < fuel
      → Serves len (play f n clock fuel rounds now s p len)
  unfolding play
  play-Serves fuel rounds now s p len enough = elim (Option-cases p.receiver) [
    | inl e ↦ rw (e, play) (zeros-Serves len (silent f n clock now s p len) refl)
    | inr (r, e) ↦ rw (e, play) (with-Serves fuel rounds now s p len r enough)
  ]

  -- The receiver has nothing to do: the stream is stopped or deactivated, or its playout is paused
  -- and no packet waits.
  abbrev pub is_resting : SharedStreamState f n clock → Bool
  is_resting s = not s.playing || (not s.active || is_idle f n clock s)

  -- What a callback does without playing.
  Rests :
      Run (Mixed f n clock)
      → SharedStreamState f n clock
      → AudioStreamNetworkPlayback f n clock
      → ℕ
      → Type 0
  Rests run s p len =
      (run ≡ done (stopped f n clock s p len))
      ⊎ ((run ≡ done (inactive f n clock s p len)) ⊎ (run ≡ done (idle f n clock s p len)))

  resting_lem :
      (fuel : ℕ) (rounds : ℕ → Round f n clock) (now : Instant) (s : SharedStreamState f n clock)
      (p : AudioStreamNetworkPlayback f n clock) (len : ℕ)
      → is_resting s ≡ true
      → Rests (mix f n clock fuel rounds now s p len) s p len
  unfolding mix Rests
  resting_lem fuel rounds now s p len rest = ground arith

  working_lem :
      (fuel : ℕ) (rounds : ℕ → Round f n clock) (now : Instant) (s : SharedStreamState f n clock)
      (p : AudioStreamNetworkPlayback f n clock) (len : ℕ)
      → is_resting s ≡ false
      → (mix f n clock fuel rounds now s p len ≡ done (detached f n clock s p len))
        ⊎ (mix f n clock fuel rounds now s p len ≡ play f n clock fuel rounds now s p len)
  unfolding mix
  working_lem fuel rounds now s p len rest = ground arith

  -- Every callback returns exactly the frames that the engine asked for, in every state of the
  -- stream and whatever NetEq puts out; one more than the frames is fuel enough.
  pub mix-Serves :
      (fuel : ℕ) (rounds : ℕ → Round f n clock) (now : Instant) (s : SharedStreamState f n clock)
      (p : AudioStreamNetworkPlayback f n clock) (len : ℕ)
      → len < fuel
      → Serves len (mix f n clock fuel rounds now s p len)
  unfolding Rests
  mix-Serves fuel rounds now s p len enough = elim (Bool-cases (is_resting s)) [
    | inl rest ↦ elim (resting_lem fuel rounds now s p len rest) [
      | inl e ↦ rw e (zeros-Serves len (stopped f n clock s p len) refl)
      | inr (inl e) ↦ rw e (zeros-Serves len (inactive f n clock s p len) refl)
      | inr (inr e) ↦ rw e (zeros-Serves len (idle f n clock s p len) refl)
    ]
    | inr work ↦ elim (working_lem fuel rounds now s p len work) [
      | inl e ↦ rw e (zeros-Serves len (detached f n clock s p len) refl)
      | inr e ↦ rw e (play-Serves fuel rounds now s p len enough)
    ]
  ]

  -- A callback of a resting stream puts out zeros, and leaves the receiver, the samples pending and
  -- the packet queue as they were.
  mix_resting :
      (fuel : ℕ) (rounds : ℕ → Round f n clock) (now : Instant) (s : SharedStreamState f n clock)
      (p : AudioStreamNetworkPlayback f n clock) (len : ℕ)
      → is_resting s ≡ true
      → (m : Mixed f n clock) × (mix f n clock fuel rounds now s p len ≡ done m)
        × (m.out ≡ zero_frames f n clock len)
        × (m.playback.receiver ≡ p.receiver)
        × (m.playback.pending_mono ≡ p.pending_mono)
        × (m.playback.pending_cursor ≡ p.pending_cursor)
        × (m.shared.queue ≡ s.queue)
  unfolding Rests
  mix_resting fuel rounds now s p len rest = elim (resting_lem fuel rounds now s p len rest) [
    | inl e ↦ (stopped f n clock s p len, e, refl, refl, refl, refl, refl)
    | inr (inl e) ↦ (inactive f n clock s p len, e, refl, refl, refl, refl, refl)
    | inr (inr e) ↦ (idle f n clock s p len, e, refl, refl, refl, refl, refl)
  ]
