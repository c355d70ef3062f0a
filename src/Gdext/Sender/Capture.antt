-- ===== src/Gdext/Sender/Capture.antt =====
-- The ticks of the worker of gdext/src/sender.rs that take their PCM from the microphone. The
-- engine's audio server is a parameter.
use godot_network_audio.Common.{
  ℕ, ◌-◌, ◌*◌, ◌≤◌, ◌≡◌, ℤ, pos_part, List, [], ◌∷◌, map, length, is_empty, ltb, if◌then◌else◌, max,
  min, wrapping_add,
}
use godot_network_audio.Common.Run.{Run, done}
use godot_network_audio.VoiceCore.Float.{Floats}
use godot_network_audio.VoiceCore.Vad
use godot_network_audio.VoiceCore.Vad.{MicrophoneGate, gate_default, set_threshold_db}
use godot_network_audio.VoiceCore.Packet.{VoicePacket, to_bytes}
use godot_network_audio.VoiceCore.Encoder.{OpusEncoder, VoiceEncoder}
use godot_network_audio.VoiceCore.Encoder.Step.{visible}
use godot_network_audio.VoiceCore.Encoder.Speech.{Speech}
use godot_network_audio.Gdext.PcmTap.{PcmTap}
use godot_network_audio.Gdext.Sender.{PipelineState}
use godot_network_audio.Gdext.Sender.Worker.{Goes}
use godot_network_audio.Gdext.Sender.Tick.{Ticked, started, idle_tick, encode_frame}

-- `AudioServer`, as far as the worker asks it: how many frames of the input wait, and some of them.
pub record AudioServer (F32 : Type 0) : Type 1 where
  pub Server : Type 0
  pub get_input_frames_available : Server → ℤ
  pub get_input_frames : ℕ → Server → Server × List (F32 × F32)

-- The server gives no more frames than it is asked for, and of those that wait it gives them up.
pub record GivesFrames {F32 : Type 0} (a : AudioServer F32) : Type 0 where
  pub at_most : (k : ℕ) (s : a.Server) → length (a.get_input_frames k s).1 ≤ k
  pub takes :
      (k : ℕ) (s : a.Server)
      → k ≤ pos_part (a.get_input_frames_available s)
      → pos_part (a.get_input_frames_available (a.get_input_frames k s).0)
        ≡ pos_part (a.get_input_frames_available s) - k

module _ (f : Floats) where
  open f use {F32, lit, mul, add, abs}

  -- The fields of `PipelineState` that capture uses, and the worker's gate.
  pub record Microphone : Type 0 where
    pub input_gain : F32
    pub input_peak : F32
    pub input_rms : F32
    pub gate_threshold_db : F32
    pub captured_frames : ℕ
    pub gate : MicrophoneGate f

  unfoldable pub microphone_sample : F32 → F32 → F32 → F32
  microphone_sample left right gain =
      let sample = mul (add (mul left (lit "0.5")) (mul right (lit "0.5"))) gain in
      if f.is_finite sample then f.clamp sample (lit "-1.0") (lit "1.0") else lit "0.0"

  -- How many of the frames that are available are too old, over five ticks' worth.
  abbrev pub stale : ℕ → ℕ → ℕ
  stale available n = if ltb (n * 5) available then available - n * 5 else 0

  abbrev pub drop_stale : PipelineState F32 → ℕ → ℕ → PipelineState F32
  drop_stale s available n =
      if ltb (n * 5) available
      then record s {
        stats = record (s.stats) {
          pcm_samples_dropped = wrapping_add 64 s.stats.pcm_samples_dropped (stale available n);
        };
      }
      else s

  abbrev pub peak_of : F32 → List F32 → F32
  peak_of p [] = p
  peak_of p (v ∷ vs) = peak_of (f.max p (abs v)) vs

  -- The two level meters and the counter.
  pub metered : Microphone → List F32 → Microphone
  metered m frame =
      let rms =
        f.sqrt (f.div (f.sum (map (λ v. mul v v) frame)) (f.of_usize (max (length frame) 1))) in
      record m {
        captured_frames = wrapping_add 64 m.captured_frames (length frame);
        input_rms = f.max rms (mul m.input_rms (lit "0.80"));
        input_peak = f.max (peak_of (lit "0.0") frame) (mul m.input_peak (lit "0.85"));
      }

  abbrev pub gated : Microphone → List F32 → List F32 × Microphone
  gated m frame =
      let (_, frame', gate) = Vad.process f (set_threshold_db f m.gate m.gate_threshold_db) frame in
      (frame', record m { gate = gate })

  module _ (a : AudioServer F32) where
    open a use {Server, get_input_frames_available, get_input_frames}

    -- The frames that are too old are asked for and thrown away; then a tick's worth is asked for, or
    -- what is left.
    pub capture : ℕ → Server → Server × List (F32 × F32)
    capture n server =
        let available = pos_part (get_input_frames_available server) in
        if ltb (n * 5) available
        then (let left = available - stale available n in
            get_input_frames (min left n) (get_input_frames (stale available n) server).0)
        else get_input_frames (min available n) server

    -- No more than a tick's worth is given; what waited, cut to five ticks' worth, is left without what
    -- a tick asks for.
    pub record Fresh (n : ℕ) (server : Server) (r : Server × List (F32 × F32)) : Type 0 where
      pub within_frame : length r.1 ≤ n
      pub waiting :
          pos_part (get_input_frames_available r.0)
          ≡ min (pos_part (get_input_frames_available server)) (n * 5)
            - min (pos_part (get_input_frames_available server)) n

    module _ (o : OpusEncoder F32) (Instant : Type 0) where
      -- A tick takes its frame from the server, meters it, and encodes it behind the gate.
      unfoldable pub capture_tick :
          ℕ
          → (ℕ → ℕ)
          → ℕ
          → ℕ
          → ℕ
          → Instant
          → Server
          → PipelineState F32
          → Microphone
          → VoiceEncoder f o
          → PcmTap f Instant
          → Run (Ticked f o Instant) × Microphone × Server
      unfolding capture
      capture_tick fuel times lag rate n now server s m encoder tap =
          let (server', given) = capture n server in
          let s' =
            drop_stale (started f o Instant s lag) (pos_part (get_input_frames_available server))
              n in
          let frame = map (λ v. microphone_sample v.0 v.1 m.input_gain) given in
          let m' = metered m frame in
          if is_empty frame
          then (done (idle_tick f o Instant s' encoder tap), m', server')
          else (let (frame', m'') = gated m' frame in
              (encode_frame f o Instant fuel times rate n now s' encoder tap frame', m'', server'))

      -- What a tick with the microphone comes to.
      pub record Captures (s : PipelineState F32) (m : Microphone) (e : VoiceEncoder f o) (n : ℕ)
          (server : Server) (out : Run (Ticked f o Instant) × Microphone × Server) : Type 0 where
        pub last : Ticked f o Instant
        pub packets : List VoicePacket
        pub taken : List (F32 × F32)
        pub returns : out.0 ≡ done last
        pub fresh : Fresh n server (out.2, taken)
        pub counted_frames :
            out.1.captured_frames ≡ wrapping_add 64 m.captured_frames (length taken)
        pub goes : Goes f o s (map to_bytes packets) last.state
        pub counted : last.emitted ≡ length packets
        pub speech : Speech (visible f o e) packets (visible f o last.encoder)
