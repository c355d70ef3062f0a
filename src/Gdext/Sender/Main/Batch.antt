-- ===== src/Gdext/Sender/Main/Batch.antt =====
-- gdext/src/sender.rs: the drain of the worker on the main thread, and the switches that the main
-- thread sets in a running pipeline.
use godot_network_audio.Common.{
  ℕ, ◌+◌, ◌-◌, Bool, true, false, Option, none, some, List, [], ◌∷◌, ◌++◌, length, is_empty, ◌==◌,
  if◌then◌else◌, max,
}
use godot_network_audio.VoiceCore.Error.{Error, Reply}
use godot_network_audio.VoiceCore.Float.{Floats}
use godot_network_audio.VoiceCore.Encoder.{OpusEncoder}
use godot_network_audio.Gdext.PcmTap
use godot_network_audio.Gdext.PcmTap.{PcmTap}
use godot_network_audio.Gdext.Sender
use godot_network_audio.Gdext.Sender.{
  PipelineState, WorkerStats, push_input_pcm, pop_encoded_packet, end_worker,
}
use godot_network_audio.Gdext.Sender.Main.{
  of_encoder, LocalSendPipeline, NetworkAudioSender, drain, rebuild_encoder,
}

module _ (f : Floats) (o : OpusEncoder f.F32) (Instant : Type 0) where
  open f use {F32}

  -- The intervals between the drains that found packets.
  unfoldable pub count_drain : NetworkAudioSender f o Instant → ℕ → NetworkAudioSender f o Instant
  count_drain m now_us =
      let m' : NetworkAudioSender f o Instant = record m { last_drain_nonempty_us = now_us } in
      if m.last_drain_nonempty_us == 0
      then m'
      else (let interval = now_us - m.last_drain_nonempty_us in
          record m' {
            drain_nonempty_count = m.drain_nonempty_count + 1;
            drain_nonempty_interval_sum_us = m.drain_nonempty_interval_sum_us + interval;
            drain_nonempty_interval_max_us = max m.drain_nonempty_interval_max_us interval;
          })

  -- `Option::is_some` of the worker's error sets the own one and signals it.
  unfoldable pub report :
      Option Error → NetworkAudioSender f o Instant → NetworkAudioSender f o Instant
  report none m = m
  report (some e) m = record m {
    last_error = some (of_encoder e);
    errors = m.errors ++ (of_encoder e ∷ []);
  }

  -- The packets that were popped are counted and signalled.
  unfoldable pub send_batch :
      ℕ
      → LocalSendPipeline f o Instant
      → List (List ℕ)
      → PipelineState F32
      → NetworkAudioSender f o Instant
      → NetworkAudioSender f o Instant
  unfolding count_drain
  send_batch now_us p packets s m =
      let batch : NetworkAudioSender f o Instant = record m {
        last_drain_batch_packets = length packets;
        max_drain_batch_packets = max m.max_drain_batch_packets (length packets);
        sender = some (record p { state = record s { last_error = none } });
      } in
      let counted = if is_empty packets then batch else count_drain batch now_us in
      record counted {
        last_speaking = s.speaking;
        packets_sent = counted.packets_sent + length packets;
        signals = counted.signals ++ packets;
      }

  -- What a drain does once the packets are popped.
  unfoldable pub after_drain :
      ℕ
      → LocalSendPipeline f o Instant
      → List (List ℕ)
      → PipelineState F32
      → NetworkAudioSender f o Instant
      → NetworkAudioSender f o Instant
  after_drain now_us p packets s m =
      record (report s.last_error (send_batch now_us p packets s m)) {
        worker_pcm_dropped = s.stats.pcm_samples_dropped;
        worker_packets_dropped = s.stats.packets_dropped;
      }

  unfoldable pub drain_worker_packets :
      ℕ → NetworkAudioSender f o Instant → NetworkAudioSender f o Instant
  unfolding drain after_drain
  drain_worker_packets now_us m = elim m.sender [
    | none ↦ m
    | some p ↦ let (packets, s) = drain f o Instant p.state in after_drain now_us p packets s m
  ]

  unfoldable pub flush : NetworkAudioSender f o Instant → NetworkAudioSender f o Instant
  flush m = record m {
    pcm_tap = PcmTap.reset f Instant m.pcm_tap;
    sender = elim m.sender [
      | none ↦ none
      | some p ↦ some (record p { state = Sender.flush f o p.state })
    ];
    last_speaking = false;
  }

  unfoldable pub set_transmit_enabled :
      NetworkAudioSender f o Instant → Bool → NetworkAudioSender f o Instant
  set_transmit_enabled m enabled = record m {
    transmit_enabled = enabled;
    sender = elim m.sender [
      | none ↦ none
      | some p ↦ some (record p { state = record (p.state) { transmit_enabled = enabled } })
    ];
  }

  unfoldable pub install_direct_send_handler :
      NetworkAudioSender f o Instant → NetworkAudioSender f o Instant
  install_direct_send_handler m = record m {
    direct_send_handler = true;
    sender = elim m.sender [
      | none ↦ none
      | some p ↦ some (record p { state = record (p.state) { has_handler = true } })
    ];
  }

  -- `connect_loopback_stream` and `disconnect_loopback_stream`
  unfoldable pub set_loopback_stream :
      Reply (Unit {0}) → NetworkAudioSender f o Instant → Bool → NetworkAudioSender f o Instant
  set_loopback_stream thread m target =
      rebuild_encoder f o Instant thread (record m { loopback_target = target })
