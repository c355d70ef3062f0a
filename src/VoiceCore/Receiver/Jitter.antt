-- ===== src/VoiceCore/Receiver/Jitter.antt =====
-- The crates neteq and web_time behind voice-core/src/receiver.rs: parameters of the model.
use godot_network_audio.Common.{ℕ, Option, List}
use godot_network_audio.VoiceCore.Error.{Reply}
use godot_network_audio.VoiceCore.Decoder.{OpusDecoder, OpusAudioDecoder}

-- `AudioPacket::new(RtpHeader::new(seq, timestamp, ssrc, payload_type, false), payload, rate,
-- channels, 20)` with its arrival time set.
pub record AudioPacket (Instant : Type 0) : Type 0 where
  pub seq : ℕ
  pub timestamp : ℕ
  pub ssrc : ℕ
  pub payload_type : ℕ
  pub payload : List ℕ
  pub sample_rate : ℕ
  pub channels : ℕ
  pub duration_ms : ℕ
  pub arrival_time : Instant

-- The fields of NetEq's statistics that the receiver reads.
pub record NetEqStats (F32 : Type 0) : Type 0 where
  pub current_buffer_size_ms : ℕ
  pub target_delay_ms : ℕ
  pub packets_awaiting_decode : ℕ
  pub packets_per_sec : ℕ
  pub preferred_buffer_size_ms : ℕ
  pub expand_rate : ℕ
  pub accelerate_rate : ℕ
  pub preemptive_rate : ℕ
  pub expand_per_sec : F32
  pub accelerate_per_sec : F32
  pub fast_accelerate_per_sec : F32
  pub preemptive_expand_per_sec : F32
  pub normal_per_sec : F32
  pub concealed_samples : ℕ
  pub concealment_events : ℕ
  pub silent_concealed_samples : ℕ
  pub late_packets_discarded : ℕ
  pub inserted_samples_for_deceleration : ℕ
  pub removed_samples_for_acceleration : ℕ

-- A jitter buffer with its decoder, and the monotonic clock's instants.
pub record NetEq (F32 : Type 0) : Type 1 where
  pub Buffer : Type 0
  pub Instant : Type 0
  -- The decoder of the crate audiopus, which the buffer is given behind its adapter.
  pub opus : OpusDecoder F32
  -- `NetEq::new`, by rate, channels and the two delay bounds.
  pub create : ℕ → ℕ → ℕ → ℕ → Reply Buffer
  pub register_decoder : ℕ → OpusAudioDecoder opus → Buffer → Buffer
  pub flush : Buffer → Buffer
  pub reset_decoders : Buffer → Buffer × Reply (Unit {0})
  pub insert_packet : AudioPacket Instant → Buffer → Buffer × Reply (Unit {0})
  pub get_audio : Buffer → Buffer × Reply (List F32)
  pub get_statistics : Buffer → NetEqStats F32
  pub checked_sub : Instant → ℕ → Option Instant
  pub checked_add : Instant → ℕ → Option Instant
