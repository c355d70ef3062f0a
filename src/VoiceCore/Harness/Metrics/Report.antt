-- ===== src/VoiceCore/Harness/Metrics/Report.antt =====
-- A whole run of the harness of voice-core/src/fixture_harness.rs, from the samples of a fixture to its
-- report.
use godot_network_audio.Common.{
  ℕ, ◌+◌, ◌*◌, ◌<◌, ◌≤◌, ◌≡◌, refl, sym, ◌∙◌, inl, inr, ◌⊎◌, List, [], ◌∷◌, ◌++◌, length, arith,
}
use godot_network_audio.Common.Run.{Run, done, panics, out_of_fuel}
use godot_network_audio.VoiceCore.Error.{Result, ok, err, Result-cases}
use godot_network_audio.VoiceCore.Float.{Floats}
use godot_network_audio.VoiceCore.Packet.{VoicePacket}
use godot_network_audio.VoiceCore.Encoder
use godot_network_audio.VoiceCore.Encoder.{OpusEncoder, VoiceEncoder, push_pcm, poll_packet}
use godot_network_audio.VoiceCore.Encoder.Start.{new-IsFresh}
use godot_network_audio.VoiceCore.Encoder.Speech.{IsSameRate, push_pcm_same}
use godot_network_audio.VoiceCore.Receiver.Jitter.{NetEq}
use godot_network_audio.VoiceCore.Harness.Metrics.{
  Times, HarnessConfig, HarnessOutput, prepend, encode_chunks, encode_packets, encode_frame_samples,
  chunks,
}

module _ (f : Floats) (o : OpusEncoder f.F32) where
  open f use {F32}

  rate-poll : (e : VoiceEncoder f o) → IsSameRate f o e → IsSameRate f o (poll_packet f o e).0
  unfolding poll_packet
  rate-poll e h = ground arith

  chunks_done :
      (n : ℕ) (e : VoiceEncoder f o) (cs : List (List F32))
      → IsSameRate f o e
      → (r : Result (List VoicePacket)) × (encode_chunks f o n e cs ≡ done r)
  unfolding encode_chunks
  chunks_done n e [] h = (ok [], refl)
  chunks_done n e (c ∷ cs) h =
      let e' : VoiceEncoder f o = record e { pending_pcm = e.pending_pcm ++ c } in
      elim (Result-cases (poll_packet f o e').1) [
        | inr (reason, failed) ↦ (err reason, rw (push_pcm_same f o n e c h, failed) refl)
        | inl (p, fine) ↦
            let rest = chunks_done n (poll_packet f o e').0 cs (rate-poll e' h) in
            (prepend f o p rest.0, rw (push_pcm_same f o n e c h, fine, rest.1) refl)
      ]

  -- The encoding of any fixture returns, whatever Opus answers.
  pub encode_packets_done :
      (n : ℕ) (input : List F32)
      → (r : Result (List VoicePacket)) × (encode_packets f o n input ≡ done r)
  unfolding encode_packets
  encode_packets_done n input =
      let cs = chunks (length input) encode_frame_samples input in
      elim (Result-cases (Encoder.new f o Encoder.default)) [
        | inr (reason, failed) ↦ (err reason, rw failed refl)
        | inl (e, made) ↦
            let fresh = new-IsFresh f o Encoder.default e made in
            let all = chunks_done n e cs (fresh.input_rate ∙ sym fresh.output_rate) in
            (all.0, rw made all.1)
      ]

module _ (f : Floats) (n : NetEq f.F32) (clock : ℕ → n.Instant) where
  open f use {F32}

  -- What a report says of a run that ended: the output reaches just beyond 200 ms after the last
  -- arrival, 480 samples for each 10 ms, and the measured frames fit between the ends of the window.
  pub record Reports (c : HarnessConfig) (input : List F32) (w : Times)
      (out : HarnessOutput f n clock) : Type 0 where
    pub keeps_input : out.input_samples ≡ input
    pub keeps_config : out.metrics.config ≡ c
    pub reaches : 480 * w.end_time_us < length out.output_samples * 10_000
    pub stops : length out.output_samples * 10_000 ≤ 480 * (w.end_time_us + 10_000)
    pub frames :
        (out.metrics.measured_frames ≡ 0)
        ⊎ (w.measure_start_us + out.metrics.measured_frames * 10_000 ≤ w.measure_end_us + 10_000)

  -- A run returns, and reports unless Opus or NetEq refuses something.
  abbrev pub Reported :
      HarnessConfig → List F32 → Times → Run (Result (HarnessOutput f n clock)) → Type 0
  Reported c input w (done (ok out)) = Reports c input w out
  Reported c input w (done (err e)) = Unit
  Reported c input w panics = ⊥
  Reported c input w out_of_fuel = ⊥
