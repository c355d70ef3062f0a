-- ===== src/VoiceCore/Harness/Metrics.antt =====
-- voice-core/src/fixture_harness.rs with its measurements: the playback of Harness, the counters that
-- its loop keeps, the encoding of the fixture and the report.
pub mod Window
pub mod Report
use godot_network_audio.Common.{
  ℕ, zero, suc, ◌+◌, ◌-◌, ◌*◌, Bool, true, false, not, ◌&&◌, Option, none, some, List, [], ◌∷◌,
  ◌++◌, length, take, drop, replicate, if◌then◌else◌, leb, max, is_empty, map,
}
use godot_network_audio.Common.Run
use godot_network_audio.Common.Run.{Run, done, out_of_fuel}
use godot_network_audio.VoiceCore.Error.{Result, ok, err, ◌>>=◌}
use godot_network_audio.VoiceCore.Float.{Floats}
use godot_network_audio.VoiceCore.Packet.{VoicePacket}
use godot_network_audio.VoiceCore.Encoder
use godot_network_audio.VoiceCore.Encoder.{OpusEncoder, VoiceEncoder, push_pcm, poll_packet}
use godot_network_audio.VoiceCore.Receiver.{VoiceReceiver, pull_frame, new_with_delay_bounds}
use godot_network_audio.VoiceCore.Receiver.Stats.{ReceiverStats, stats}
use godot_network_audio.VoiceCore.Receiver.Jitter.{NetEq}
use godot_network_audio.VoiceCore.Harness.{
  ScheduledPacket, ImpairmentProfile, Playback, push_due, impair_packets, first_arrival,
  last_arrival, pull_frame_samples,
}

abbrev pub encode_frame_samples : ℕ
encode_frame_samples = 960

abbrev pub sample_rate : ℕ
sample_rate = 48_000

pub record HarnessConfig : Type 0 where
  pub startup_buffer_ms : ℕ
  pub warmup_ms : ℕ
  pub tail_trim_ms : ℕ

-- `HarnessConfig::default`
abbrev pub default : HarnessConfig
default = record { startup_buffer_ms = 60; warmup_ms = 400; tail_trim_ms = 200 }

-- The times in µs that a run goes by.
pub record Times : Type 0 where
  pub playout_start_us : ℕ
  pub measure_start_us : ℕ
  pub measure_end_us : ℕ
  pub end_time_us : ℕ

abbrev pub times : HarnessConfig → List ScheduledPacket → Times
times c events =
    let end = last_arrival events + 200_000 in
    let start = first_arrival events + c.startup_buffer_ms * 1_000 in
    record {
      playout_start_us = start;
      measure_start_us = start + c.warmup_ms * 1_000;
      measure_end_us = end - c.tail_trim_ms * 1_000;
      end_time_us = end;
    }

-- `input.chunks(size)`, by fuel for each sample.
pub chunks {ℓ} : {A : Type ℓ} → ℕ → ℕ → List A → List (List A)
chunks zero size xs = []
chunks (suc fuel) size [] = []
chunks (suc fuel) size (x ∷ xs) = take size (x ∷ xs) ∷ chunks fuel size (drop size (x ∷ xs))

module _ (f : Floats) (o : OpusEncoder f.F32) where
  open f use {F32}

  abbrev pub prepend : Option VoicePacket → Result (List VoicePacket) → Result (List VoicePacket)
  prepend none rest = rest
  prepend (some p) (ok ps) = ok (p ∷ ps)
  prepend (some p) (err e) = err e

  -- `?` on what a poll returns, then the rest of the loop.
  abbrev pub after_poll :
      Result (Option VoicePacket)
      → Run (Result (List VoicePacket))
      → Run (Result (List VoicePacket))
  after_poll (err e) rest = done (err e)
  after_poll (ok p) rest = Run.◌>>=◌ rest λ r. done (prepend p r)

  -- The loop of `encode_packets` over the chunks; `n` is the fuel of the resampler.
  unfoldable pub encode_chunks :
      ℕ → VoiceEncoder f o → List (List F32) → Run (Result (List VoicePacket))
  encode_chunks n e [] = done (ok [])
  encode_chunks n e (c ∷ cs) =
      Run.◌>>=◌ (push_pcm f o n e c)
        λ e'. after_poll (poll_packet f o e').1 (encode_chunks n (poll_packet f o e').0 cs)

  abbrev pub encode_with :
      ℕ → List (List F32) → Result (VoiceEncoder f o) → Run (Result (List VoicePacket))
  encode_with n cs (err e) = done (err e)
  encode_with n cs (ok e) = encode_chunks n e cs

  unfoldable pub encode_packets : ℕ → List F32 → Run (Result (List VoicePacket))
  unfolding encode_chunks chunks
  encode_packets n input =
      encode_with n (chunks (length input) encode_frame_samples input)
        (Encoder.new f o Encoder.default)

module _ (f : Floats) (n : NetEq f.F32) (clock : ℕ → n.Instant) where
  open f use {F32, lit, add, mul, div, sqrt, sum, of_usize}

  -- What the loop adds up. `u32 as f32` is the conversion of an integer, as for a `usize`.
  pub record Measures : Type 0 where
    pub measurement_started : Bool
    pub concealed_start : ℕ
    pub concealed_end : ℕ
    pub measured_samples : List F32
    pub measured_frames : ℕ
    pub sum_preferred_buffer_size_ms : F32
    pub sum_current_buffer_size_ms : F32
    pub sum_target_delay_ms : F32
    pub sum_expand_rate_q14 : F32
    pub sum_accelerate_rate_q14 : F32

  abbrev pub nothing : Measures
  nothing = record {
    measurement_started = false;
    concealed_start = 0;
    concealed_end = 0;
    measured_samples = [];
    measured_frames = 0;
    sum_preferred_buffer_size_ms = lit "0.0";
    sum_current_buffer_size_ms = lit "0.0";
    sum_target_delay_ms = lit "0.0";
    sum_expand_rate_q14 = lit "0.0";
    sum_accelerate_rate_q14 = lit "0.0";
  }

  abbrev pub in_window : Times → ℕ → Bool
  in_window w t = leb w.measure_start_us t && leb t w.measure_end_us

  -- Before the frame is pulled.
  abbrev pub begin_measures : Bool → VoiceReceiver f n → Measures → Measures
  begin_measures inside r m =
      if inside && not m.measurement_started
      then record m {
        concealed_start = (stats f n r).concealed_samples;
        measurement_started = true;
      }
      else m

  -- After it was pulled.
  abbrev pub add_measures : Bool → VoiceReceiver f n → List F32 → Measures → Measures
  add_measures inside r frame m =
      let s = stats f n r in
      if inside
      then record m {
        concealed_end = s.concealed_samples;
        measured_samples = m.measured_samples ++ frame;
        measured_frames = m.measured_frames + 1;
        sum_preferred_buffer_size_ms =
            add m.sum_preferred_buffer_size_ms (of_usize s.preferred_buffer_size_ms);
        sum_current_buffer_size_ms =
            add m.sum_current_buffer_size_ms (of_usize s.current_buffer_size_ms);
        sum_target_delay_ms = add m.sum_target_delay_ms (of_usize s.target_delay_ms);
        sum_expand_rate_q14 = add m.sum_expand_rate_q14 (of_usize s.expand_rate);
        sum_accelerate_rate_q14 = add m.sum_accelerate_rate_q14 (of_usize s.accelerate_rate);
      }
      else m

  pub record Metered : Type 0 where
    pub playback : Playback f n clock
    pub measures : Measures

  -- The frame of a step: silence until the playout starts.
  abbrev pub frame_at : Times → ℕ → VoiceReceiver f n → VoiceReceiver f n × List F32
  frame_at w t r =
      if leb w.playout_start_us t
      then pull_frame f n r pull_frame_samples
      else (r, replicate pull_frame_samples (lit "0.0"))

  abbrev pub finish_metered :
      Times → Metered → Result (VoiceReceiver f n × List ScheduledPacket) → Result Metered
  finish_metered w q (err reason) = err reason
  finish_metered w q (ok (r, es)) =
      let inside = in_window w q.playback.t in
      let m = begin_measures inside r q.measures in
      let pulled = frame_at w q.playback.t r in
      ok (record {
        playback = record {
          receiver = pulled.0;
          events = es;
          output = q.playback.output ++ pulled.1;
          t = q.playback.t + 10_000;
        };
        measures = add_measures inside pulled.0 pulled.1 m;
      })

  unfoldable pub meter_step : Times → Metered → Result Metered
  unfolding push_due
  meter_step w q =
      finish_metered w q (push_due f n clock q.playback.t q.playback.receiver q.playback.events)

  -- while t <= end_time_us
  unfoldable pub meter : ℕ → Times → Metered → Run (Result Metered)
  unfolding meter_step
  meter zero w q = out_of_fuel
  meter (suc fuel) w q =
      let next = meter_step w q in
      elim (leb q.playback.t w.end_time_us) [
        | false ↦ done (ok q)
        | true ↦ elim next [ err reason ↦ done (err reason) | ok q' ↦ meter fuel w q' ]
      ]

  pub record HarnessMetrics : Type 0 where
    pub config : HarnessConfig
    pub measured_frames : ℕ
    pub measured_output_rms : F32
    pub concealed_samples_delta : ℕ
    pub avg_preferred_buffer_size_ms : F32
    pub avg_current_buffer_size_ms : F32
    pub avg_target_delay_ms : F32
    pub avg_expand_rate_q14 : F32
    pub avg_accelerate_rate_q14 : F32

  pub record HarnessOutput : Type 0 where
    pub input_samples : List F32
    pub output_samples : List F32
    pub final_stats : ReceiverStats f n
    pub metrics : HarnessMetrics

  abbrev pub rms : List F32 → F32
  rms samples = sqrt (div (sum (map (λ s. mul s s) samples)) (of_usize (length samples)))

  unfoldable pub report : HarnessConfig → List F32 → Metered → HarnessOutput
  report c input q =
      let m = q.measures in
      let denom = of_usize (max m.measured_frames 1) in
      record {
        input_samples = input;
        output_samples = q.playback.output;
        final_stats = stats f n q.playback.receiver;
        metrics = record {
          config = c;
          measured_frames = m.measured_frames;
          measured_output_rms =
              if is_empty m.measured_samples then lit "0.0" else rms m.measured_samples;
          concealed_samples_delta = m.concealed_end - m.concealed_start;
          avg_preferred_buffer_size_ms = div m.sum_preferred_buffer_size_ms denom;
          avg_current_buffer_size_ms = div m.sum_current_buffer_size_ms denom;
          avg_target_delay_ms = div m.sum_target_delay_ms denom;
          avg_expand_rate_q14 = div m.sum_expand_rate_q14 denom;
          avg_accelerate_rate_q14 = div m.sum_accelerate_rate_q14 denom;
        };
      }

  abbrev pub begin : VoiceReceiver f n → List ScheduledPacket → Metered
  begin receiver events = record {
    playback = record { receiver = receiver; events = events; output = []; t = 0 };
    measures = nothing;
  }

  abbrev pub reported : HarnessConfig → List F32 → Run (Result Metered) → Run (Result HarnessOutput)
  reported c input run = Run.◌>>=◌ run λ r. done (r >>= λ q. ok (report c input q))

  abbrev pub measured :
      ℕ
      → HarnessConfig
      → List F32
      → List ScheduledPacket
      → Result (VoiceReceiver f n)
      → Run (Result HarnessOutput)
  measured fuel c input events (err e) = done (err e)
  measured fuel c input events (ok receiver) =
      reported c input (meter fuel (times c events) (begin receiver events))

  -- What follows the encoding.
  abbrev pub impaired :
      ℕ
      → List F32
      → ImpairmentProfile
      → ℕ
      → ℕ
      → HarnessConfig
      → Result (List VoicePacket)
      → Run (Result HarnessOutput)
  impaired fuel input profile min_delay_ms max_delay_ms c (err e) = done (err e)
  impaired fuel input profile min_delay_ms max_delay_ms c (ok packets) =
      Run.◌>>=◌ (impair_packets packets profile) λ events.
        measured fuel c input events
          (new_with_delay_bounds f n sample_rate min_delay_ms max_delay_ms)

  -- The loop of the playback has fuel `fuel`.
  unfoldable pub run_impairment_harness_with_config :
      OpusEncoder F32
      → ℕ
      → List F32
      → ImpairmentProfile
      → ℕ
      → ℕ
      → HarnessConfig
      → Run (Result HarnessOutput)
  unfolding encode_packets
  run_impairment_harness_with_config o fuel input profile min_delay_ms max_delay_ms c =
      Run.◌>>=◌ (encode_packets f o fuel input)
        (impaired fuel input profile min_delay_ms max_delay_ms c)

  pub run_impairment_harness :
      OpusEncoder F32 → ℕ → List F32 → ImpairmentProfile → Run (Result HarnessOutput)
  unfolding run_impairment_harness_with_config
  run_impairment_harness o fuel input profile =
      run_impairment_harness_with_config o fuel input profile 20 250 default

  pub run_impairment_harness_with_delay_bounds :
      OpusEncoder F32 → ℕ → List F32 → ImpairmentProfile → ℕ → ℕ → Run (Result HarnessOutput)
  unfolding run_impairment_harness_with_config
  run_impairment_harness_with_delay_bounds o fuel input profile min_delay_ms max_delay_ms =
      run_impairment_harness_with_config o fuel input profile min_delay_ms max_delay_ms default
