-- ===== src/Gdext/Sender/Main.antt =====
-- gdext/src/sender.rs, the part of `NetworkAudioSender` that the main thread runs: it builds the
-- pipeline, feeds it, drains it and stops it. The worker's encoder is part of the pipeline here, and
-- its ticks stand between the calls. The counters are `i64`s that no run brings near their bounds.
pub mod Restart
pub mod Batch
use godot_network_audio.Common.{
  ℕ, zero, suc, ◌+◌, ◌-◌, ◌*◌, ◌/◌, ◌%◌, ◌^◌, ℤ, pos, negsuc, pos_part, Bool, true, false, Option,
  none, some, List, [], ◌∷◌, ◌++◌, length, is_empty, ◌==◌, if◌then◌else◌, max, bit_or,
}
use Prim.Native.String.{String}
use godot_network_audio.VoiceCore.Error.{Error, Result, ok, err, Reply, gives, fails}
use godot_network_audio.VoiceCore.Float.{Floats}
use godot_network_audio.VoiceCore.Encoder
use godot_network_audio.VoiceCore.Encoder.{
  OpusEncoder, VoiceEncoder, VoiceEncoderConfig, restore_packet_clock, packet_clock,
}
use godot_network_audio.Gdext.PcmTap
use godot_network_audio.Gdext.PcmTap.{PcmTap}
use godot_network_audio.Gdext.Sender
use godot_network_audio.Gdext.Sender.{
  PipelineState, WorkerStats, push_input_pcm, pop_encoded_packet, end_worker,
}

-- The packet clock in one word: the sequence number below the timestamp.
unfoldable pub pack_clock : ℕ × ℕ → ℕ
pack_clock (seq, timestamp) = bit_or seq ((timestamp * 2 ^ 16) % 2 ^ 64)

-- `clock as u16` and `(clock >> 16) as u32`
unfoldable pub unpack_clock : ℕ → ℕ × ℕ
unpack_clock clock = (clock % 2 ^ 16, (clock / 2 ^ 16) % 2 ^ 32)

-- What `last_error` and the signal `encoder_error` tell of: a thread that was not spawned, with the
-- text, or an error of the encoder.
pub data Failure : Type 0 where
  not_spawned : String → Failure
  of_encoder : Error → Failure

abbrev no_counts : WorkerStats
no_counts = record {
  worker_ticks = 0;
  worker_ticks_with_pcm = 0;
  worker_empty_pcm_ticks = 0;
  worker_partial_pcm_ticks = 0;
  worker_ticks_with_packets = 0;
  worker_ticks_without_packets = 0;
  silent_ticks = 0;
  packets_emitted = 0;
  packets_dropped = 0;
  pcm_samples_dropped = 0;
  queued_pcm_samples = 0;
  queued_packets = 0;
  tick_lag_count = 0;
  tick_lag_sum_us = 0;
  tick_lag_max_us = 0;
  last_packet_emit_us = 0;
  packet_interval_count = 0;
  packet_interval_sum_us = 0;
  packet_interval_max_us = 0;
}

module _ (f : Floats) (o : OpusEncoder f.F32) (Instant : Type 0) where
  open f use {F32, lit}

  -- `PipelineState::new`, with the clock that `LocalSendPipeline::new` stores.
  pub pipeline_new : ℕ → Bool → PipelineState F32
  pipeline_new clock has_loopback = record {
    pcm_samples = [];
    encoded_packets = [];
    speaking = false;
    gated_rms = lit "0.0";
    transmit_enabled = true;
    packet_clock = clock;
    last_error = none;
    stats = no_counts;
    has_handler = false;
    has_loopback = has_loopback;
    handed = [];
    looped = [];
  }

  -- A pipeline with its worker's encoder, if it has one.
  pub record LocalSendPipeline : Type 0 where
    pub state : PipelineState F32
    pub worker : Option (VoiceEncoder f o)

  -- The start of `worker_loop`: the encoder takes up the stored clock, or the error is kept.
  unfoldable pub start_worker : PipelineState F32 → Result (VoiceEncoder f o) → LocalSendPipeline
  start_worker s (err e) = record { state = record s { last_error = some e }; worker = none }
  start_worker s (ok e) =
      let (seq, timestamp) = unpack_clock s.packet_clock in
      record { state = s; worker = some (restore_packet_clock f o e seq timestamp) }

  -- The end of `worker_loop`: the open talkspurt is ended and the clock is stored.
  unfoldable pub finish_worker : PipelineState F32 → VoiceEncoder f o → PipelineState F32
  finish_worker s e =
      let (s', e') = end_worker f o s e in
      record s' { packet_clock = pack_clock (packet_clock f o e') }

  -- `LocalSendPipeline::stop` returns once the worker has ended.
  unfoldable pub stop : LocalSendPipeline → PipelineState F32
  stop p = elim p.worker [ none ↦ p.state | some e ↦ finish_worker p.state e ]

  -- `signals` holds the bytes of the `packet_ready` signals and `errors` those of `encoder_error`,
  -- both in order.
  pub record NetworkAudioSender : Type 0 where
    pub pcm_tap : PcmTap f Instant
    pub bitrate_bps : ℤ
    pub input_sample_rate_hz : ℤ
    pub enable_dtx : Bool
    pub denoise : Bool
    pub transmit_enabled : Bool
    pub packet_clock : ℕ
    pub sender : Option LocalSendPipeline
    pub loopback_target : Bool
    pub direct_send_handler : Bool
    pub last_speaking : Bool
    pub last_error : Option Failure
    pub input_samples_pushed : ℕ
    pub packets_sent : ℕ
    pub last_drain_batch_packets : ℕ
    pub max_drain_batch_packets : ℕ
    pub last_drain_nonempty_us : ℕ
    pub drain_nonempty_count : ℕ
    pub drain_nonempty_interval_sum_us : ℕ
    pub drain_nonempty_interval_max_us : ℕ
    pub worker_pcm_dropped : ℕ
    pub worker_packets_dropped : ℕ
    pub signals : List (List ℕ)
    pub errors : List Failure

  -- while let Some(bytes) = sender.pop_encoded_packet() { ... }; one round for each packet and one
  -- to see that the queue is empty.
  pub pop_all : ℕ → PipelineState F32 → List (List ℕ) × PipelineState F32
  pop_all zero s = ([], s)
  pop_all (suc rounds) s =
      let (popped, s') = pop_encoded_packet f o s in
      let (rest, s'') = pop_all rounds s' in
      elim popped [ none ↦ ([], s') | some bytes ↦ (bytes ∷ rest, s'') ]

  -- A loop without a bound on its rounds.
  unfoldable pub drain : PipelineState F32 → List (List ℕ) × PipelineState F32
  unfolding pop_all
  drain s = pop_all (suc (length s.encoded_packets)) s

  unfoldable pub stop_sender : NetworkAudioSender → NetworkAudioSender
  unfolding drain stop
  stop_sender m = elim m.sender [
    | none ↦ record m { pcm_tap = PcmTap.reset f Instant m.pcm_tap }
    | some p ↦
        let stopped = stop p in
        record m {
          sender = none;
          packet_clock = stopped.packet_clock;
          signals = m.signals ++ (drain stopped).0;
          pcm_tap = PcmTap.reset f Instant m.pcm_tap;
        }
  ]

  -- `self.input_sample_rate_hz.max(1) as u32`
  unfoldable pub config_of : NetworkAudioSender → VoiceEncoderConfig
  config_of m = record {
    input_sample_rate = max (pos_part m.input_sample_rate_hz) 1;
    frame_duration = 20;
    bitrate_bps = m.bitrate_bps;
    enable_dtx = m.enable_dtx;
    denoise = m.denoise;
  }

  -- The new pipeline with the settings that the main thread keeps.
  unfoldable pub configured : NetworkAudioSender → LocalSendPipeline → LocalSendPipeline
  configured m p = record p {
    state = record (p.state) {
      transmit_enabled = m.transmit_enabled;
      has_handler = m.direct_send_handler;
    };
  }

  -- `thread` is whether the worker's thread could be spawned. The worker's start is taken to come
  -- before the next call of the main thread.
  unfoldable pub rebuild_encoder : Reply (Unit {0}) → NetworkAudioSender → NetworkAudioSender
  unfolding stop_sender start_worker configured pipeline_new config_of
  rebuild_encoder thread m =
      let m' = stop_sender m in
      elim thread [
        | fails text ↦
            let e = not_spawned text in
            record m' { sender = none; last_error = some e; errors = m'.errors ++ (e ∷ []) }
        | gives _ ↦
            let p =
              start_worker (pipeline_new m'.packet_clock m'.loopback_target)
                (Encoder.new f o (config_of m')) in
            record m' { sender = some (configured m' p); last_error = none }
      ]

  -- A pipeline that is missing is built first; the result is the count of packets that wait.
  unfoldable pub push_pcm_slice :
      Reply (Unit {0}) → NetworkAudioSender → List F32 → ℕ × NetworkAudioSender
  push_pcm_slice thread m samples =
      let m' : NetworkAudioSender = elim m.sender [
        | none ↦ rebuild_encoder thread m
        | some p ↦ m
      ] in
      elim m'.sender [
        | none ↦ (0, m')
        | some p ↦
            let s = push_input_pcm f o p.state samples in
            (
              length s.encoded_packets,
              record m' {
                input_samples_pushed = m'.input_samples_pushed + length samples;
                sender = some (record p { state = s });
              },
            )
      ]
