-- ===== src/VoiceCore/Encoder.antt =====
-- voice-core/src/encoder.rs: PCM in, voice packets out. The Opus encoder of the crate audiopus is a
-- parameter, as are the floats.
pub mod Step
pub mod Speech
pub mod Range
pub mod Clock
pub mod Start
use godot_network_audio.Common.{
  ℕ, ◌+◌, ◌*◌, ◌%◌, ◌^◌, ℤ, pos, Bool, true, false, not, ◌&&◌, Option, none, some, List, [], ◌∷◌,
  length, take, drop, replicate, ltb, leb, ◌==◌, if◌then◌else◌, wrapping_add, wrapping_mul,
}
use godot_network_audio.Common.Run
use godot_network_audio.Common.Run.{Run, done}
use godot_network_audio.VoiceCore.Error
use godot_network_audio.VoiceCore.Error.{
  Result, ok, err, unsupported_config, Reply, gives, fails, map_opus, ◌>>=◌,
}
use godot_network_audio.VoiceCore.Float.{Floats}
use godot_network_audio.VoiceCore.Packet.{
  VoicePacket, PacketFlags, start_of_talkspurt, end_of_talkspurt, from_bits, set,
}
use godot_network_audio.VoiceCore.Resample
use godot_network_audio.VoiceCore.Resample.{InputResampler}

abbrev pub frame_duration_ms : ℕ
frame_duration_ms = 20

abbrev pub frame_samples_48k_mono : ℕ
frame_samples_48k_mono = 960

abbrev pub max_packet_bytes : ℕ
max_packet_bytes = 512

pub record VoiceEncoderConfig : Type 0 where
  pub input_sample_rate : ℕ
  pub frame_duration : ℕ
  pub bitrate_bps : ℤ
  pub enable_dtx : Bool
  pub denoise : Bool

-- `VoiceEncoderConfig::default`
abbrev pub default : VoiceEncoderConfig
default = record {
  input_sample_rate = 48_000;
  frame_duration = frame_duration_ms;
  bitrate_bps = pos 16_000;
  enable_dtx = true;
  denoise = false;
}

-- `encode_float` fills the buffer that it is given and returns how many bytes it wrote.
pub record OpusEncoder (F32 : Type 0) : Type 1 where
  pub Coder : Type 0
  pub create : Reply Coder
  pub set_bitrate : ℤ → Coder → Reply Coder
  pub set_vbr : Bool → Coder → Reply Coder
  pub set_dtx : Bool → Coder → Reply Coder
  pub encode_float : Coder → List F32 → List ℕ → Coder × Reply (ℕ × List ℕ)
  pub reset_state : Coder → Coder

-- The end of a talkspurt carries no payload.
abbrev pub end_packet : ℕ → ℕ → VoicePacket
end_packet seq timestamp = record {
  seq = seq;
  timestamp = timestamp;
  flags = from_bits end_of_talkspurt;
  payload = [];
}

module _ (f : Floats) (o : OpusEncoder f.F32) where
  open f use {F32}
  open o use {Coder}

  pub record VoiceEncoder : Type 0 where
    pub encoder : Coder
    pub resampler : InputResampler f
    pub pending_pcm : List F32
    pub seq : ℕ
    pub timestamp : ℕ
    pub speaking : Bool
    pub enable_dtx : Bool

  unfoldable pub new : VoiceEncoderConfig → Result VoiceEncoder
  unfolding Resample.new
  new config =
      if not (config.frame_duration == frame_duration_ms)
      then err (unsupported_config "milestone 1 only supports 20 ms opus frames")
      else (if config.denoise
          then err (unsupported_config "denoise is not implemented in milestone 1")
          else do
            created ← map_opus "encoder init: " o.create
            rated ← map_opus "set bitrate: " (o.set_bitrate config.bitrate_bps created)
            variable ← map_opus "enable vbr: " (o.set_vbr true rated)
            encoder ← map_opus "set dtx: " (o.set_dtx config.enable_dtx variable)
            resampler ← Resample.new f config.input_sample_rate 48_000
            ok (record {
              encoder = encoder;
              resampler = resampler;
              pending_pcm = [];
              seq = 0;
              timestamp = 0;
              speaking = false;
              enable_dtx = config.enable_dtx;
            }))

  -- The fuel is that of the resampler's loop.
  unfoldable pub push_pcm : ℕ → VoiceEncoder → List F32 → Run VoiceEncoder
  push_pcm fuel e samples =
      Run.◌>>=◌ (Resample.process f fuel e.resampler samples e.pending_pcm)
        λ s. done (record e { resampler = s.0; pending_pcm = s.1 })

  -- Returns the number to use and keeps the next.
  unfoldable pub next_seq : VoiceEncoder → ℕ × VoiceEncoder
  next_seq e = (e.seq, record e { seq = wrapping_add 16 e.seq 1 })

  -- A packet that Opus wants sent. The first of a talkspurt is flagged.
  pub voice : VoiceEncoder → ℕ → List ℕ → VoiceEncoder × Option VoicePacket
  unfolding next_seq
  voice e timestamp payload =
      let flags : PacketFlags =
        if e.speaking then from_bits 0 else set (from_bits 0) start_of_talkspurt true in
      let (seq, e') = next_seq (record e { speaking = true }) in
      (e', some (record { seq = seq; timestamp = timestamp; flags = flags; payload = payload }))

  -- A tiny packet under DTX is not sent; the first one ends the talkspurt.
  pub no_send : VoiceEncoder → ℕ → VoiceEncoder × Option VoicePacket
  unfolding next_seq
  no_send e timestamp =
      if e.speaking
      then (let (seq, e') = next_seq (record e { speaking = false }) in
          (e', some (end_packet seq timestamp)))
      else (e, none)

  -- `self.timestamp` moves by one frame.
  abbrev pub tick : VoiceEncoder → VoiceEncoder
  tick e = record e { timestamp = wrapping_add 32 e.timestamp frame_samples_48k_mono }

  -- The part of `poll_packet` after the frame was encoded: the clock moves, then a packet is made.
  pub emit : VoiceEncoder → ℕ → List ℕ → VoiceEncoder × Option VoicePacket
  unfolding voice no_send
  emit e packet_len payload =
      if e.enable_dtx && leb packet_len 2
      then no_send (tick e) e.timestamp
      else voice (tick e) e.timestamp (take packet_len payload)

  pub finish_poll : VoiceEncoder → Reply (ℕ × List ℕ) → VoiceEncoder × Result (Option VoicePacket)
  unfolding emit
  finish_poll e (fails m) = (e, map_opus "encode: " (fails m))
  finish_poll e (gives (packet_len, payload)) =
      let (e', packet) = emit e packet_len payload in (e', ok packet)

  -- One frame is drained from the pending samples and handed to Opus with a zeroed buffer.
  abbrev pub encode_frame : VoiceEncoder → Coder × Reply (ℕ × List ℕ)
  encode_frame e =
      o.encode_float e.encoder (take frame_samples_48k_mono e.pending_pcm)
        (replicate max_packet_bytes 0)

  abbrev pub drained : VoiceEncoder → VoiceEncoder
  drained e = record e {
    encoder = (encode_frame e).0;
    pending_pcm = drop frame_samples_48k_mono e.pending_pcm;
  }

  unfoldable pub poll_packet : VoiceEncoder → VoiceEncoder × Result (Option VoicePacket)
  unfolding finish_poll
  poll_packet e =
      if ltb (length e.pending_pcm) frame_samples_48k_mono
      then (e, ok none)
      else finish_poll (drained e) (encode_frame e).1

  unfoldable pub packet_clock : VoiceEncoder → ℕ × ℕ
  packet_clock e = (e.seq, e.timestamp)

  unfoldable pub restore_packet_clock : VoiceEncoder → ℕ → ℕ → VoiceEncoder
  restore_packet_clock e seq timestamp = record e { seq = seq; timestamp = timestamp }

  unfoldable pub finish_talkspurt : VoiceEncoder → VoiceEncoder × Option VoicePacket
  unfolding next_seq
  finish_talkspurt e =
      let cleared : VoiceEncoder = record e { pending_pcm = [] } in
      if e.speaking
      then (let (seq, e') = next_seq (record cleared { speaking = false }) in
          (e', some (end_packet seq e.timestamp)))
      else (cleared, none)

  unfoldable pub flush : VoiceEncoder → VoiceEncoder
  flush e = record e { pending_pcm = []; speaking = false; encoder = o.reset_state e.encoder }

  -- `frames as u32` drops the high bits.
  unfoldable pub advance_dropped_frames : VoiceEncoder → ℕ → VoiceEncoder
  advance_dropped_frames e frames = record e {
    timestamp =
        wrapping_add 32 e.timestamp (wrapping_mul 32 (frames % 2 ^ 32) frame_samples_48k_mono);
  }
