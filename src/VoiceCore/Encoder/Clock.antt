-- ===== src/VoiceCore/Encoder/Clock.antt =====
-- The media clock of voice-core/src/encoder.rs and the samples that are captured.
use Prim.Native.String.{String, ◌++◌ as append_text}
use godot_network_audio.Common.{
  ℕ, ◌+◌, ◌*◌, ◌%◌, ◌^◌, ◌<◌, ◌≤◌, ◌≡◌, refl, ap, inl, inr, Option, none, some, List, length, arith,
  ltb, length-drop, Bool-cases, ltb→lt,
}
use godot_network_audio.VoiceCore.Error.{Result, ok, err, opus, Reply, gives, fails}
use godot_network_audio.VoiceCore.Float.{Floats}
use godot_network_audio.VoiceCore.Packet.{VoicePacket}
use godot_network_audio.VoiceCore.Encoder.{
  OpusEncoder, VoiceEncoder, emit, finish_poll, poll_packet, drained, encode_frame,
  advance_dropped_frames, frame_samples_48k_mono,
}

module _ (f : Floats) (o : OpusEncoder f.F32) where
  -- The time of the next sample to be captured: the clock stands on the first pending one.
  abbrev pub captured : VoiceEncoder f o → ℕ
  captured e = (e.timestamp + length e.pending_pcm) % 2 ^ 32

  -- What a packet, if there is one, is stamped with.
  abbrev pub Stamped : ℕ → Option VoicePacket → Type 0
  Stamped t none = Unit {0}
  Stamped t (some p) = p.timestamp ≡ t

  -- What `emit` does to the clock.
  pub record Ticks (e : VoiceEncoder f o) (r : VoiceEncoder f o × Option VoicePacket) : Type 0 where
    timestamp : r.0.timestamp ≡ (e.timestamp + frame_samples_48k_mono) % 2 ^ 32
    pending : r.0.pending_pcm ≡ e.pending_pcm
    stamp : Stamped e.timestamp r.1

  emit-Ticks : (e : VoiceEncoder f o) (n : ℕ) (payload : List ℕ) → Ticks e (emit f o e n payload)
  unfolding emit
  emit-Ticks e n payload = ground arith

  -- What a poll does, by what Opus answers.
  pub data Polls (e : VoiceEncoder f o) (r : VoiceEncoder f o × Result (Option VoicePacket))
      : Type 0 where
    waits : length e.pending_pcm < frame_samples_48k_mono → r ≡ (e, ok none) → Polls e r
    ticks :
        (size : ℕ) (payload : List ℕ) (p : Option VoicePacket)
        → (encode_frame f o e).1 ≡ gives (size, payload)
        → r.1 ≡ ok p
        → captured r.0 ≡ captured e
        → length r.0.pending_pcm + frame_samples_48k_mono ≡ length e.pending_pcm
        → r.0.timestamp ≡ (e.timestamp + frame_samples_48k_mono) % 2 ^ 32
        → Stamped e.timestamp p
        → Polls e r
    loses :
        (m : String)
        → (encode_frame f o e).1 ≡ fails m
        → r.1 ≡ err (opus (append_text "encode: " m))
        → r.0.timestamp ≡ e.timestamp
        → length r.0.pending_pcm + frame_samples_48k_mono ≡ length e.pending_pcm
        → Polls e r

  finish_poll-Polls :
      (e : VoiceEncoder f o) (r : Reply (ℕ × List ℕ))
      → (encode_frame f o e).1 ≡ r
      → frame_samples_48k_mono ≤ length e.pending_pcm
      → Polls e (finish_poll f o (drained f o e) r)
  unfolding finish_poll
  finish_poll-Polls e (fails m) answer full =
      loses m answer refl refl (omega (arith, length-drop frame_samples_48k_mono e.pending_pcm))
  finish_poll-Polls e (gives (n, payload)) answer full =
      let t = emit-Ticks (drained f o e) n payload in
      let cut = length-drop frame_samples_48k_mono e.pending_pcm in
      let same = ap (λ xs. length xs) t.pending in
      ticks n payload _ answer refl (omega (arith, t.timestamp, cut, same))
        (omega (arith, cut, same)) t.timestamp t.stamp

  -- A poll waits while a frame is not full; otherwise it drains one frame and hands it to Opus. Where
  -- Opus answers, the poll does not fail, and the clock moves by the frame's samples and stamps the
  -- packet, if there is one; where Opus fails, the poll fails with its text, the samples are gone and
  -- the clock stays.
  pub poll-Polls : (e : VoiceEncoder f o) → Polls e (poll_packet f o e)
  unfolding poll_packet
  poll-Polls e = elim (Bool-cases (ltb (length e.pending_pcm) frame_samples_48k_mono)) [
    | inl short ↦ rw (short, poll_packet) (waits (ltb→lt _ _ short) refl)
    | inr full ↦
        rw (full, poll_packet) (finish_poll-Polls e (encode_frame f o e).1 refl (ground arith))
  ]

  -- Capture frames that were dropped before encoding move the clock by 960 samples each, modulo
  -- 2 ^ 32 for any count, and nothing else of the encoder.
  advance_dropped_lem :
      (e : VoiceEncoder f o) (frames : ℕ)
      → advance_dropped_frames f o e frames
        ≡ record e { timestamp = (e.timestamp + frames * frame_samples_48k_mono) % 2 ^ 32 }
  unfolding advance_dropped_frames
  advance_dropped_lem e frames = ground arith
