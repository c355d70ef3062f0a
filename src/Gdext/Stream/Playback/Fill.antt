-- ===== src/Gdext/Stream/Playback/Fill.antt =====
-- The copy loop of a mix callback, `fill_output_frames` of gdext/src/stream.rs.
use godot_network_audio.Common.{
  ℕ, zero, suc, ◌+◌, ◌-◌, ◌<◌, ◌≤◌, ◌≡◌, refl, ap, false, map, length, drop, arith, leb, ◌==◌, min,
  length-append, length-take, length-drop, length-map, Bool-cases, inl, inr, leb→le,
}
use godot_network_audio.Common.Run.{Run, done}
use godot_network_audio.VoiceCore.Float.{Floats}
use godot_network_audio.VoiceCore.Receiver.Jitter.{NetEq}
use godot_network_audio.VoiceCore.Receiver.Talkspurt.{length-pull_frame}
use godot_network_audio.Gdext.Stream.{Clock}
use godot_network_audio.Gdext.Stream.Playback.{
  Round, Filling, drain_packets_into_receiver, refill, ensure, available, mono_frame, copied, copy,
  fill, receiver_frame_samples,
}

module _ (f : Floats) (n : NetEq f.F32) (clock : Clock n.Instant) where
  open f use {F32}

  out-refill :
      (round : Round f n clock) (s : Filling f n clock) → (refill f n clock round s).out ≡ s.out
  unfolding refill drain_packets_into_receiver
  out-refill round s = refl

  refill_full :
      (round : Round f n clock) (s : Filling f n clock)
      → available f n clock (refill f n clock round s) ≡ receiver_frame_samples
  unfolding refill
  refill_full round s = omega (
    arith,
    length-pull_frame f n (drain_packets_into_receiver f n clock round s).receiver
        receiver_frame_samples,
  )

  -- After `ensure` there is something to copy, and nothing was written.
  ensure_lem :
      (round : Round f n clock) (s : Filling f n clock)
      → (0 < available f n clock (ensure f n clock round s))
        × ((ensure f n clock round s).out ≡ s.out)
  unfolding ensure
  ensure_lem round s = ground (arith, refill_full round s, out-refill round s)

  -- One round of the loop writes at least one frame and at most those that are missing.
  round_progress :
      (len : ℕ) (round : Round f n clock) (s : Filling f n clock)
      → 0 < available f n clock s
      → length s.out < len
      → (length s.out < length (copy f n clock len round s).out)
        × (length (copy f n clock len round s).out ≤ len)
  unfolding copy
  round_progress len round s more short = omega (
    arith,
    length-append s.out (map (mono_frame f n clock) (copied f n clock len s)),
    length-map (copied f n clock len s) (mono_frame f n clock),
    length-take (min (available f n clock s) (len - length s.out))
        (drop s.pending_cursor s.pending_mono),
    length-drop s.pending_cursor s.pending_mono,
  )

  -- What the loop comes to.
  pub record Fills (len : ℕ) (r : Run (Filling f n clock)) : Type 0 where
    pub last : Filling f n clock
    pub returns : r ≡ done last
    pub exact : length last.out ≡ len

  -- With more fuel than frames are missing the loop returns, whatever NetEq puts out, and it has
  -- written exactly the frames that were asked for.
  pub fill-Fills :
      (fuel i : ℕ) (rounds : ℕ → Round f n clock) (len : ℕ) (s : Filling f n clock)
      → length s.out ≤ len
      → len - length s.out < fuel
      → Fills len (fill f n clock fuel i rounds len s)
  unfolding fill
  fill-Fills zero i rounds len s fits enough = absurd (omega arith)
  fill-Fills (suc fuel) i rounds len s fits enough = elim (Bool-cases (leb len (length s.out))) [
    | inl full ↦
        rw (full, fill)
          (record { last = s; returns = refl; exact = omega (arith, leb→le _ _ full) })
    | inr short ↦
        let s' = ensure f n clock (rounds i) s in
        let (more, same) = ensure_lem (rounds i) s in
        let missing : length s.out < len = ground arith in
        let here : length s'.out < len = omega (arith, ap length same) in
        let some_left : (available f n clock s' == 0) ≡ false = ground arith in
        let (up, within) = round_progress len (rounds i) s' more here in
        rw (short, some_left, fill)
          (fill-Fills fuel (i + 1) rounds len (copy f n clock len (rounds i) s') within
            (omega (arith, ap length same)))
  ]
