-- ===== src/Gdext/Sender.antt =====
-- gdext/src/sender.rs, the send pipeline: the queues that the main thread and the worker share, and
-- the worker's encoding of a tick. Counters wrap at 2 ^ 64; an `i64` is read as the word it is.
pub mod Queues
pub mod Worker
pub mod Tick
pub mod Main
pub mod Pacing
pub mod Capture
pub mod Devices
use godot_network_audio.Common.{
  ℕ, zero, suc, ◌+◌, ◌-◌, ◌^◌, Bool, true, false, not, Option, none, some, List, [], ◌∷◌, ◌++◌,
  length, take, drop, is_empty, ltb, leb, ◌==◌, if◌then◌else◌, min, max, wrapping_add,
}
use godot_network_audio.Common.Run.{Run, done, out_of_fuel}
use godot_network_audio.VoiceCore.Error.{Error, Result, ok, err}
use godot_network_audio.VoiceCore.Float.{Floats}
use godot_network_audio.VoiceCore.Packet.{VoicePacket, contains, end_of_talkspurt, to_bytes}
use godot_network_audio.VoiceCore.Encoder.{OpusEncoder, VoiceEncoder, poll_packet, finish_talkspurt}

abbrev pub max_pending_packets : ℕ
max_pending_packets = 16

abbrev pub max_pending_pcm_samples : ℕ
max_pending_pcm_samples = 96_000

-- The counters of the worker and of its queues.
pub record WorkerStats : Type 0 where
  pub worker_ticks : ℕ
  pub worker_ticks_with_pcm : ℕ
  pub worker_empty_pcm_ticks : ℕ
  pub worker_partial_pcm_ticks : ℕ
  pub worker_ticks_with_packets : ℕ
  pub worker_ticks_without_packets : ℕ
  pub silent_ticks : ℕ
  pub tick_lag_count : ℕ
  pub tick_lag_sum_us : ℕ
  pub tick_lag_max_us : ℕ
  pub packets_emitted : ℕ
  pub packets_dropped : ℕ
  pub pcm_samples_dropped : ℕ
  pub queued_pcm_samples : ℕ
  pub queued_packets : ℕ
  pub last_packet_emit_us : ℕ
  pub packet_interval_count : ℕ
  pub packet_interval_sum_us : ℕ
  pub packet_interval_max_us : ℕ

-- When a packet was put out.
pub count_emit : WorkerStats → ℕ → WorkerStats
count_emit c emit_us =
    let prev = c.last_packet_emit_us in
    let c' : WorkerStats = record c {
      last_packet_emit_us = emit_us;
      packets_emitted = wrapping_add 64 c.packets_emitted 1;
    } in
    if prev == 0 then c' else record c' {
      packet_interval_count = wrapping_add 64 c.packet_interval_count 1;
      packet_interval_sum_us = wrapping_add 64 c.packet_interval_sum_us (emit_us - prev);
      packet_interval_max_us = max c.packet_interval_max_us (emit_us - prev);
    }

-- The state that the worker shares, with its queues; the fields of the capture and of the thread's
-- control (gain, input meters, gate threshold, stop) are left out. `handed` holds the calls of the
-- direct send handler and `looped` the packets given to the loopback target, each in order, where
-- `has_handler` and `has_loopback` say that there is one. An error is kept as the error whose text
-- the code keeps.
pub record PipelineState (F32 : Type 0) : Type 0 where
  pub pcm_samples : List F32
  pub encoded_packets : List (List ℕ)
  pub speaking : Bool
  pub gated_rms : F32
  pub transmit_enabled : Bool
  pub packet_clock : ℕ
  pub last_error : Option Error
  pub stats : WorkerStats
  pub has_handler : Bool
  pub has_loopback : Bool
  pub handed : List (List ℕ)
  pub looped : List VoicePacket

module _ (f : Floats) (o : OpusEncoder f.F32) where
  open f use {F32}

  pub push_sample : PipelineState F32 → F32 → PipelineState F32
  push_sample s sample =
      if leb max_pending_pcm_samples (length s.pcm_samples)
      then record s {
        pcm_samples = drop 1 s.pcm_samples ++ (sample ∷ []);
        stats = record (s.stats) {
          pcm_samples_dropped = wrapping_add 64 s.stats.pcm_samples_dropped 1;
        };
      }
      else record s { pcm_samples = s.pcm_samples ++ (sample ∷ []) }

  pub push_samples : PipelineState F32 → List F32 → PipelineState F32
  unfolding push_sample
  push_samples s [] = s
  push_samples s (x ∷ xs) = push_samples (push_sample s x) xs

  pub push_input_pcm : PipelineState F32 → List F32 → PipelineState F32
  push_input_pcm s samples =
      let s' = push_samples s samples in
      record s' { stats = record (s'.stats) { queued_pcm_samples = length s'.pcm_samples } }

  pub pop_encoded_packet : PipelineState F32 → Option (List ℕ) × PipelineState F32
  pop_encoded_packet s = elim s.encoded_packets [
    | [] ↦ (none, record s { stats = record (s.stats) { queued_packets = 0 } })
    | bytes ∷ rest ↦ (
      some bytes,
      record s {
        encoded_packets = rest;
        stats = record (s.stats) { queued_packets = length rest };
      },
    )
  ]

  pub flush : PipelineState F32 → PipelineState F32
  flush s = record s {
    pcm_samples = [];
    encoded_packets = [];
    stats = record (s.stats) { queued_pcm_samples = 0; queued_packets = 0 };
  }

  -- A tick's frame from the queue, when the worker does not capture.
  pub take_frame : PipelineState F32 → ℕ → List F32 × PipelineState F32
  take_frame s frame_samples =
      let n = min (length s.pcm_samples) frame_samples in
      (
        take n s.pcm_samples,
        record s {
          pcm_samples = drop n s.pcm_samples;
          stats = record (s.stats) { queued_pcm_samples = length s.pcm_samples - n };
        },
      )

  -- The outbound queue gives up its oldest packet when it is full.
  pub queue_bytes : PipelineState F32 → List ℕ → PipelineState F32
  queue_bytes s bytes =
      if leb max_pending_packets (length s.encoded_packets)
      then record s {
        encoded_packets = drop 1 s.encoded_packets ++ (bytes ∷ []);
        stats = record (s.stats) {
          packets_dropped = wrapping_add 64 s.stats.packets_dropped 1;
          queued_packets = length (drop 1 s.encoded_packets ++ (bytes ∷ []));
        };
      }
      else record s {
        encoded_packets = s.encoded_packets ++ (bytes ∷ []);
        stats = record (s.stats) { queued_packets = length (s.encoded_packets ++ (bytes ∷ [])) };
      }

  -- To the loopback target if there is one.
  pub loop_back : PipelineState F32 → VoicePacket → PipelineState F32
  loop_back s packet = if s.has_loopback then record s { looped = s.looped ++ (packet ∷ []) } else s

  -- To the direct handler if there is one, otherwise to the queue.
  pub hand_over : PipelineState F32 → List ℕ → PipelineState F32
  unfolding queue_bytes
  hand_over s bytes =
      if s.has_handler then record s { handed = s.handed ++ (bytes ∷ []) } else queue_bytes s bytes

  -- A packet that is not muted goes out at `emit_us`.
  pub put_out : PipelineState F32 → VoicePacket → ℕ → PipelineState F32
  unfolding loop_back hand_over count_emit
  put_out s packet emit_us =
      let spoken : PipelineState F32 = record s {
        speaking = not (contains packet.flags end_of_talkspurt);
      } in
      let s' = hand_over (loop_back spoken packet) (to_bytes packet) in
      record s' { stats = count_emit s'.stats emit_us }

  -- The variables of the loop over a tick's packets.
  pub record Ticking : Type 0 where
    pub state : PipelineState F32
    pub encoder : VoiceEncoder f o
    pub emitted : ℕ

  -- What one poll leads to, and whether the loop goes on. The `k`-th packet is put out at `times k`.
  pub after_poll :
      (ℕ → ℕ)
      → PipelineState F32
      → ℕ
      → VoiceEncoder f o
      → Result (Option VoicePacket)
      → Bool × Ticking
  after_poll times s k encoder (err e) =
      (false, record { state = record s { last_error = some e }; encoder = encoder; emitted = k })
  after_poll times s k encoder (ok none) =
      (false, record { state = s; encoder = encoder; emitted = k })
  after_poll times s k encoder (ok (some packet)) =
      if not s.transmit_enabled
      then (true, record { state = record s { speaking = false }; encoder = encoder; emitted = k })
      else (true, record { state = put_out s packet (times k); encoder = encoder; emitted = k + 1 })

  -- loop { match encoder.poll_packet() { ... } }
  pub poll_loop : ℕ → (ℕ → ℕ) → Ticking → Run Ticking
  poll_loop zero times t = out_of_fuel
  poll_loop (suc fuel) times t =
      let (encoder, result) = poll_packet f o t.encoder in
      let (goes_on, t') = after_poll times t.state t.emitted encoder result in
      elim goes_on [ true ↦ poll_loop fuel times t' | false ↦ done t' ]

  -- The end of the worker: the open talkspurt is ended, by a packet that replaces the queued ones.
  pub end_worker : PipelineState F32 → VoiceEncoder f o → PipelineState F32 × VoiceEncoder f o
  unfolding loop_back
  end_worker s encoder =
      let (encoder', packet) = finish_talkspurt f o encoder in
      elim packet [
        | none ↦ (s, encoder')
        | some p ↦
            (if not s.transmit_enabled
              then (s, encoder')
              else (let s' = loop_back s p in
                  (
                    if s'.has_handler
                        then record s' { handed = s'.handed ++ (to_bytes p ∷ []) }
                        else record s' { encoded_packets = to_bytes p ∷ [] },
                    encoder',
                  )))
      ]
