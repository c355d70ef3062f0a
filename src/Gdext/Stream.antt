-- ===== src/Gdext/Stream.antt =====
-- gdext/src/stream.rs, the part that network threads share with the audio thread: the bounded
-- packet queue, its counters and the published statistics. An atomic counter is a `u64` that wraps.
pub mod Ingress
pub mod Playback
use godot_network_audio.Common.{
  ℕ, ◌+◌, ◌-◌, ◌%◌, ◌^◌, Bool, true, false, Option, none, some, List, [], ◌∷◌, ◌++◌, length, drop,
  ltb, ◌==◌, if◌then◌else◌, max, wrapping_add,
}
use godot_network_audio.VoiceCore.Error.{Result, ok, err}
use godot_network_audio.VoiceCore.Float.{Floats}
use godot_network_audio.VoiceCore.Packet.{VoicePacket, PacketArrival, decode_from_bytes}
use godot_network_audio.VoiceCore.Receiver.Jitter.{NetEq}
use godot_network_audio.VoiceCore.Receiver
use godot_network_audio.VoiceCore.Receiver.Stats.{ReceiverStats}
use godot_network_audio.Gdext.PcmTap
use godot_network_audio.Gdext.PcmTap.{PcmTap}

abbrev pub default_queue_capacity : ℕ
default_queue_capacity = 256

-- Differences of monotonic instants in microseconds: `saturating_duration_since`,
-- `checked_duration_since`, and `checked_add` of a duration.
pub record Clock (Instant : Type 0) : Type 0 where
  pub micros_since : Instant → Instant → ℕ
  pub checked_since : Instant → Instant → Option ℕ
  pub later : Instant → ℕ → Option Instant

pub record QueuedPacket : Type 0 where
  pub packet : VoicePacket
  pub arrival : PacketArrival

-- The counters that `enqueue_packet` keeps.
pub record EnqueueCounters : Type 0 where
  pub dropped_packets : ℕ
  pub enqueued_packets : ℕ
  pub last_enqueue_us : ℕ
  pub enqueue_interval_count : ℕ
  pub enqueue_interval_sum_us : ℕ
  pub enqueue_interval_max_us : ℕ
  pub first_enqueue_us : ℕ

-- What the audio thread publishes of its receiver and of its output.
pub record RuntimeStats (F32 : Type 0) : Type 0 where
  pub current_buffer_size_ms : ℕ
  pub target_delay_ms : ℕ
  pub preferred_buffer_size_ms : ℕ
  pub packets_awaiting_decode : ℕ
  pub packets_per_sec : ℕ
  pub expand_rate : ℕ
  pub accelerate_rate : ℕ
  pub preemptive_rate : ℕ
  pub expand_per_sec_milli : ℕ
  pub accelerate_per_sec_milli : ℕ
  pub preemptive_expand_per_sec_milli : ℕ
  pub normal_per_sec_milli : ℕ
  pub concealed_samples : ℕ
  pub mixed_output_frames : ℕ
  pub non_silent_output_frames : ℕ
  pub output_rms : F32
  pub consecutive_failures : ℕ
  pub intentional_silence : Bool
  pub playout_paused : Bool

pub record CallbackCounters : Type 0 where
  pub first_output_us : ℕ
  pub callback_entries : ℕ
  pub callback_exits : ℕ
  pub callback_last_exit_us : ℕ
  pub callback_gap_us_max : ℕ
  pub callback_duration_us_max : ℕ

module _ (f : Floats) (n : NetEq f.F32) (clock : Clock n.Instant) where
  open f use {F32, lit, mul, round, to_u32}
  open n use {Instant}

  pub record SharedStreamState : Type 0 where
    pub pcm_tap : PcmTap f Instant
    pub queue : List QueuedPacket
    pub mono_epoch : Instant
    pub enqueue : EnqueueCounters
    pub runtime : RuntimeStats F32
    pub callback : CallbackCounters
    pub active : Bool
    pub playing : Bool

  abbrev pub no_stats : RuntimeStats F32
  no_stats = record {
    current_buffer_size_ms = 0;
    target_delay_ms = 0;
    preferred_buffer_size_ms = 0;
    packets_awaiting_decode = 0;
    packets_per_sec = 0;
    expand_rate = 0;
    accelerate_rate = 0;
    preemptive_rate = 0;
    expand_per_sec_milli = 0;
    accelerate_per_sec_milli = 0;
    preemptive_expand_per_sec_milli = 0;
    normal_per_sec_milli = 0;
    concealed_samples = 0;
    mixed_output_frames = 0;
    non_silent_output_frames = 0;
    output_rms = lit "0.0";
    consecutive_failures = 0;
    intentional_silence = false;
    playout_paused = false;
  }

  unfoldable pub new : Instant → SharedStreamState
  new epoch = record {
    pcm_tap = PcmTap.tap_default f Instant;
    queue = [];
    mono_epoch = epoch;
    enqueue = record {
      dropped_packets = 0;
      enqueued_packets = 0;
      last_enqueue_us = 0;
      enqueue_interval_count = 0;
      enqueue_interval_sum_us = 0;
      enqueue_interval_max_us = 0;
      first_enqueue_us = 0;
    };
    runtime = no_stats;
    callback = record {
      first_output_us = 0;
      callback_entries = 0;
      callback_exits = 0;
      callback_last_exit_us = 0;
      callback_gap_us_max = 0;
      callback_duration_us_max = 0;
    };
    active = true;
    playing = false;
  }

  -- `as u64` of the microseconds since the stream's epoch.
  unfoldable pub now_mono_us : SharedStreamState → Instant → ℕ
  now_mono_us s now = clock.micros_since now s.mono_epoch % 2 ^ 64

  unfoldable pub reset_runtime_stats : SharedStreamState → SharedStreamState
  reset_runtime_stats s = record s {
    pcm_tap = PcmTap.reset f Instant s.pcm_tap;
    runtime = no_stats;
  }

  -- `(x * 1000.0).round().max(0.0) as u32`
  milli : F32 → ℕ
  milli x = to_u32 (f.max (round (mul x (lit "1000.0"))) (lit "0.0"))

  -- The counters of mixed frames and the output level are not the receiver's.
  pub publish_stats : SharedStreamState → ReceiverStats f n → SharedStreamState
  unfolding milli
  publish_stats s stats = record s {
    runtime = record {
      current_buffer_size_ms = stats.current_buffer_size_ms;
      target_delay_ms = stats.target_delay_ms;
      preferred_buffer_size_ms = stats.preferred_buffer_size_ms;
      packets_awaiting_decode = stats.packets_awaiting_decode % 2 ^ 32;
      packets_per_sec = stats.packets_per_sec;
      expand_rate = stats.expand_rate;
      accelerate_rate = stats.accelerate_rate;
      preemptive_rate = stats.preemptive_rate;
      expand_per_sec_milli = milli stats.expand_per_sec;
      accelerate_per_sec_milli = milli stats.accelerate_per_sec;
      preemptive_expand_per_sec_milli = milli stats.preemptive_expand_per_sec;
      normal_per_sec_milli = milli stats.normal_per_sec;
      concealed_samples = stats.concealed_samples;
      mixed_output_frames = s.runtime.mixed_output_frames;
      non_silent_output_frames = s.runtime.non_silent_output_frames;
      output_rms = s.runtime.output_rms;
      consecutive_failures = stats.consecutive_failures;
      intentional_silence = stats.intentional_silence;
      playout_paused = stats.playout_paused;
    };
  }

  -- The counters of an attempt at `now_us`: the first time is kept, and an interval is counted once
  -- there was an attempt before.
  pub count_enqueue : EnqueueCounters → ℕ → EnqueueCounters
  count_enqueue c now_us =
      let c' : EnqueueCounters = record c {
        first_enqueue_us = if c.first_enqueue_us == 0 then max now_us 1 else c.first_enqueue_us;
        last_enqueue_us = now_us;
        enqueued_packets = wrapping_add 64 c.enqueued_packets 1;
      } in
      if c.last_enqueue_us == 0 then c' else record c' {
        enqueue_interval_count = wrapping_add 64 c.enqueue_interval_count 1;
        enqueue_interval_sum_us =
            wrapping_add 64 c.enqueue_interval_sum_us (now_us - c.last_enqueue_us);
        enqueue_interval_max_us = max c.enqueue_interval_max_us (now_us - c.last_enqueue_us);
      }

  -- A full queue gives up its oldest packet, which is counted, and takes the new one.
  pub push_queue : SharedStreamState → QueuedPacket → SharedStreamState
  push_queue s q =
      if ltb (length s.queue) default_queue_capacity
      then record s { queue = s.queue ++ (q ∷ []) }
      else record s {
        queue = drop 1 s.queue ++ (q ∷ []);
        enqueue = record (s.enqueue) {
          dropped_packets = wrapping_add 64 s.enqueue.dropped_packets 1;
        };
      }

  unfoldable pub enqueue_packet :
      SharedStreamState → Instant → VoicePacket → PacketArrival → Bool × SharedStreamState
  unfolding count_enqueue push_queue now_mono_us
  enqueue_packet s now packet arrival =
      if s.active
      then (
        true,
        push_queue (record s { enqueue = count_enqueue s.enqueue (now_mono_us s now) })
            (record { packet = packet; arrival = arrival }),
      )
      else (false, s)

  abbrev pub at_us : ℕ → PacketArrival
  at_us t = record { received_at_mono_us = t }

  -- The three ways into the queue of a `LoopbackTarget`.
  pub enqueue_bytes_at : SharedStreamState → Instant → List ℕ → Instant → Bool × SharedStreamState
  enqueue_bytes_at s now bytes received_at = elim (decode_from_bytes bytes) [
    | err e ↦ (false, s)
    | ok packet ↦
        enqueue_packet s now packet (at_us (clock.micros_since received_at s.mono_epoch % 2 ^ 64))
  ]

  unfoldable pub enqueue_now : SharedStreamState → Instant → VoicePacket → Bool × SharedStreamState
  unfolding now_mono_us
  enqueue_now s now packet = enqueue_packet s now packet (at_us (now_mono_us s now))

  -- A receive time in the transport's epoch becomes one in the stream's epoch; a time before that
  -- epoch is 0.
  unfoldable pub local_time : SharedStreamState → ℕ → Instant → ℕ
  local_time s received_at_mono_us transport_epoch =
      let received_at : Instant = elim (clock.later transport_epoch received_at_mono_us) [
        | none ↦ transport_epoch
        | some t ↦ t
      ] in
      elim (clock.checked_since received_at s.mono_epoch) [ none ↦ 0 | some us ↦ us % 2 ^ 64 ]

  unfoldable pub enqueue_from_epoch :
      SharedStreamState → Instant → VoicePacket → ℕ → Instant → Bool × SharedStreamState
  unfolding local_time
  enqueue_from_epoch s now packet received_at_mono_us transport_epoch =
      enqueue_packet s now packet (at_us (local_time s received_at_mono_us transport_epoch))

  pub clear_pending_packets : SharedStreamState → SharedStreamState
  clear_pending_packets s = record s { queue = [] }

  pub deactivate : SharedStreamState → SharedStreamState
  deactivate s = record s {
    pcm_tap = PcmTap.reset f Instant s.pcm_tap;
    active = false;
    runtime = record (s.runtime) { playout_paused = true };
    queue = [];
  }
