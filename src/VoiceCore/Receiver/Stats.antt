-- ===== src/VoiceCore/Receiver/Stats.antt =====
-- `ReceiverStats` of voice-core/src/receiver.rs: what NetEq counts, and the state of the talkspurt.
use Prim.Native.String.{String}
use godot_network_audio.Common.{ℕ, Bool, ◌||◌, Option}
use godot_network_audio.VoiceCore.Float.{Floats}
use godot_network_audio.VoiceCore.Receiver.{VoiceReceiver}
use godot_network_audio.VoiceCore.Receiver.Jitter.{NetEq}

module _ (f : Floats) (n : NetEq f.F32) where
  open f use {F32, add}

  pub record ReceiverStats : Type 0 where
    pub current_buffer_size_ms : ℕ
    pub target_delay_ms : ℕ
    pub preferred_buffer_size_ms : ℕ
    pub packets_awaiting_decode : ℕ
    pub packets_per_sec : ℕ
    pub expand_rate : ℕ
    pub accelerate_rate : ℕ
    pub preemptive_rate : ℕ
    pub expand_per_sec : F32
    pub accelerate_per_sec : F32
    pub preemptive_expand_per_sec : F32
    pub normal_per_sec : F32
    pub concealed_samples : ℕ
    pub concealment_events : ℕ
    pub silent_concealed_samples : ℕ
    pub late_packets_discarded : ℕ
    pub inserted_samples_for_deceleration : ℕ
    pub removed_samples_for_acceleration : ℕ
    pub consecutive_failures : ℕ
    pub sticky_error : Option String
    pub intentional_silence : Bool
    pub playout_paused : Bool

  unfoldable pub stats : VoiceReceiver f n → ReceiverStats
  stats r =
      let s = n.get_statistics r.inner in
      record {
        current_buffer_size_ms = s.current_buffer_size_ms;
        target_delay_ms = s.target_delay_ms;
        preferred_buffer_size_ms = s.preferred_buffer_size_ms;
        packets_awaiting_decode = s.packets_awaiting_decode;
        packets_per_sec = s.packets_per_sec;
        expand_rate = s.expand_rate;
        accelerate_rate = s.accelerate_rate;
        preemptive_rate = s.preemptive_rate;
        expand_per_sec = s.expand_per_sec;
        accelerate_per_sec = add s.accelerate_per_sec s.fast_accelerate_per_sec;
        preemptive_expand_per_sec = s.preemptive_expand_per_sec;
        normal_per_sec = s.normal_per_sec;
        concealed_samples = s.concealed_samples;
        concealment_events = s.concealment_events;
        silent_concealed_samples = s.silent_concealed_samples;
        late_packets_discarded = s.late_packets_discarded;
        inserted_samples_for_deceleration = s.inserted_samples_for_deceleration;
        removed_samples_for_acceleration = s.removed_samples_for_acceleration;
        consecutive_failures = r.consecutive_failures;
        sticky_error = r.sticky_error;
        intentional_silence = r.intentional_silence || r.pending_silence;
        playout_paused = r.intentional_silence;
      }
