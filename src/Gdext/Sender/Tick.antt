-- ===== src/Gdext/Sender/Tick.antt =====
-- One tick of the worker of gdext/src/sender.rs that takes its PCM from the queue, as it does when it
-- does not capture.
use godot_network_audio.Common.{
  ℕ, ◌+◌, ◌<◌, ◌≤◌, ◌≡◌, refl, inl, inr, Bool, true, false, List, [], ◌++◌, map, length, drop, take,
  is_empty, ltb, if◌then◌else◌, max, min, wrapping_add, arith, Bool-cases, length-append,
  length-take,
}
use godot_network_audio.Common.Run.{Run, done, ◌>>=◌}
use godot_network_audio.VoiceCore.Float.{Floats}
use godot_network_audio.VoiceCore.Packet.{VoicePacket, to_bytes}
use godot_network_audio.VoiceCore.Encoder.{OpusEncoder, VoiceEncoder, push_pcm}
use godot_network_audio.VoiceCore.Encoder.Step.{visible}
use godot_network_audio.VoiceCore.Encoder.Speech.{Speech, over, IsSameRate, push_pcm_same}
use godot_network_audio.Gdext.PcmTap
use godot_network_audio.Gdext.PcmTap.{PcmTap}
use godot_network_audio.Gdext.Sender.{
  PipelineState, WorkerStats, take_frame, poll_loop, max_pending_packets,
}
use godot_network_audio.Gdext.Sender.Worker.{Goes, poll_loop-Outputs, Goes-none}

-- A tick at `lag` microseconds behind its time.
pub count_tick : WorkerStats → ℕ → WorkerStats
count_tick c lag = record c {
  worker_ticks = wrapping_add 64 c.worker_ticks 1;
  tick_lag_count = wrapping_add 64 c.tick_lag_count 1;
  tick_lag_sum_us = wrapping_add 64 c.tick_lag_sum_us lag;
  tick_lag_max_us = max c.tick_lag_max_us lag;
}

-- A frame that is not empty, and whether it is partial.
pub count_pcm : WorkerStats → Bool → WorkerStats
count_pcm c partial = record c {
  worker_ticks_with_pcm = wrapping_add 64 c.worker_ticks_with_pcm 1;
  worker_partial_pcm_ticks =
      if partial then wrapping_add 64 c.worker_partial_pcm_ticks 1 else c.worker_partial_pcm_ticks;
}

-- The end of a tick, by the packets that it put out and whether its frame was empty.
pub count_end : WorkerStats → ℕ → Bool → WorkerStats
count_end c emitted empty =
    if ltb 0 emitted
    then record c { worker_ticks_with_packets = wrapping_add 64 c.worker_ticks_with_packets 1 }
    else record c {
      worker_ticks_without_packets = wrapping_add 64 c.worker_ticks_without_packets 1;
      silent_ticks = if empty then c.silent_ticks else wrapping_add 64 c.silent_ticks 1;
    }

module _ (f : Floats) (o : OpusEncoder f.F32) (Instant : Type 0) where
  open f use {F32, lit, mul}

  pub record Ticked : Type 0 where
    pub state : PipelineState F32
    pub encoder : VoiceEncoder f o
    pub tap : PcmTap f Instant
    pub emitted : ℕ

  pub end_tick : Ticked → Bool → Ticked
  unfolding count_end
  end_tick t empty = record t {
    state = record (t.state) { stats = count_end t.state.stats t.emitted empty };
  }

  -- The level meter falls by a fifth at most.
  pub meter : PipelineState F32 → List F32 → PipelineState F32
  meter s frame =
      let rms =
        f.sqrt (f.div (f.sum (map (λ v. mul v v) frame)) (f.of_usize (max (length frame) 1))) in
      record s { gated_rms = f.max rms (mul s.gated_rms (lit "0.80")) }

  -- The frame is metered, tapped and encoded.
  pub encode_frame :
      ℕ
      → (ℕ → ℕ)
      → ℕ
      → ℕ
      → Instant
      → PipelineState F32
      → VoiceEncoder f o
      → PcmTap f Instant
      → List F32
      → Run Ticked
  unfolding meter count_pcm
  encode_frame fuel times rate frame_samples now s encoder tap frame =
      let metered = meter s frame in
      let counted : PipelineState F32 = record metered {
        stats = count_pcm metered.stats (ltb (length frame) frame_samples);
      } in
      (push_pcm f o fuel encoder frame >>= λ e.
      poll_loop f o fuel times (record { state = counted; encoder = e; emitted = 0 }) >>= λ t.
      done (
        end_tick
          (record {
            state = t.state;
            encoder = t.encoder;
            tap = PcmTap.push f Instant tap frame rate now;
            emitted = t.emitted;
          })
          false))

  unfoldable pub started : PipelineState F32 → ℕ → PipelineState F32
  unfolding count_tick
  started s lag = record s { stats = count_tick s.stats lag }

  pub without_pcm : PipelineState F32 → PipelineState F32
  without_pcm s = record s {
    stats = record (s.stats) {
      worker_empty_pcm_ticks = wrapping_add 64 s.stats.worker_empty_pcm_ticks 1;
    };
  }

  -- A tick without PCM.
  abbrev pub idle_tick : PipelineState F32 → VoiceEncoder f o → PcmTap f Instant → Ticked
  idle_tick s encoder tap =
      end_tick (record { state = without_pcm s; encoder = encoder; tap = tap; emitted = 0 }) true

  pub tick :
      ℕ
      → (ℕ → ℕ)
      → ℕ
      → ℕ
      → ℕ
      → Instant
      → PipelineState F32
      → VoiceEncoder f o
      → PcmTap f Instant
      → Run Ticked
  tick fuel times lag rate frame_samples now s encoder tap =
      let (frame, s') = take_frame f o (started s lag) frame_samples in
      if is_empty frame
      then done (idle_tick s' encoder tap)
      else encode_frame fuel times rate frame_samples now s' encoder tap frame

  -- What a tick comes to.
  pub record Ticks (s : PipelineState F32) (e : VoiceEncoder f o) (frame_samples : ℕ)
      (r : Run Ticked) : Type 0 where
    pub last : Ticked
    pub packets : List VoicePacket
    pub returns : r ≡ done last
    pub pcm : last.state.pcm_samples ≡ drop (min (length s.pcm_samples) frame_samples) s.pcm_samples
    pub goes :
        Goes f o
          (record s { pcm_samples = last.state.pcm_samples })
          (map to_bytes packets)
          last.state
    pub counted : last.emitted ≡ length packets
    pub speech : Speech (visible f o e) packets (visible f o last.encoder)

  -- What the encoding of one frame comes to.
  pub record Encodes (s : PipelineState F32) (e : VoiceEncoder f o) (r : Run Ticked) : Type 0 where
    pub last : Ticked
    pub packets : List VoicePacket
    pub returns : r ≡ done last
    pub goes : Goes f o s (map to_bytes packets) last.state
    pub counted : last.emitted ≡ length packets
    pub speech : Speech (visible f o e) packets (visible f o last.encoder)

  -- The state that the packet loop starts from.
  before_loop : PipelineState F32 → List F32 → ℕ → PipelineState F32
  before_loop s frame n =
      let s' = meter s frame in record s' { stats = count_pcm s'.stats (ltb (length frame) n) }

  pub encode_frame-Encodes :
      (fuel : ℕ) (times : ℕ → ℕ) (rate n : ℕ) (now : Instant) (s : PipelineState F32)
      (e : VoiceEncoder f o) (tap : PcmTap f Instant) (frame : List F32)
      → IsSameRate f o e
      → s.transmit_enabled ≡ true
      → length s.encoded_packets ≤ max_pending_packets
      → length e.pending_pcm + length frame < fuel
      → Encodes s e (encode_frame fuel times rate n now s e tap frame)
  unfolding encode_frame before_loop meter end_tick
  encode_frame-Encodes fuel times rate n now s e tap frame same on room enough =
      let e' : VoiceEncoder f o = record e { pending_pcm = e.pending_pcm ++ frame } in
      let out =
        poll_loop-Outputs f o fuel times
          (record { state = before_loop s frame n; encoder = e'; emitted = 0 }) on room
          (omega (arith, length-append e.pending_pcm frame)) in
      record {
        last =
            end_tick
              (record {
                state = out.last.state;
                encoder = out.last.encoder;
                tap = PcmTap.push f Instant tap frame rate now;
                emitted = out.last.emitted;
              })
              false;
        packets = out.packets;
        returns = rw (push_pcm_same f o fuel e frame same) (rw out.returns refl);
        goes = record {
          queued = out.goes.queued;
          handled = out.goes.handled;
          bounded = out.goes.bounded;
          same_handler = out.goes.same_handler;
          pcm = out.goes.pcm;
          unmuted = out.goes.unmuted;
        };
        counted = omega (arith, out.counted);
        speech = out.speech;
      }

  -- The samples that a tick takes.
  abbrev taken : PipelineState F32 → ℕ → List F32
  taken s frame_samples = take (min (length s.pcm_samples) frame_samples) s.pcm_samples

  length-taken : (s : PipelineState F32) (n : ℕ) → length (taken s n) ≤ n
  length-taken s n = omega (arith, length-take (min (length s.pcm_samples) n) s.pcm_samples)

  pub idle-Encodes :
      (s : PipelineState F32) (e : VoiceEncoder f o) (tap : PcmTap f Instant)
      → length s.encoded_packets ≤ max_pending_packets
      → Encodes s e (done (idle_tick s e tap))
  unfolding without_pcm end_tick
  idle-Encodes s e tap room =
      let g = Goes-none f o s room in
      record {
        last = idle_tick s e tap;
        packets = [];
        returns = refl;
        goes = record {
          queued = g.queued;
          handled = g.handled;
          bounded = g.bounded;
          same_handler = refl;
          pcm = refl;
          unmuted = refl;
        };
        counted = refl;
        speech = over;
      }

  -- What the frame from the queue comes to is what the tick comes to.
  of_taken :
      (s : PipelineState F32) (lag n : ℕ) (e : VoiceEncoder f o) (r : Run Ticked)
      → Encodes (take_frame f o (started s lag) n).1 e r
      → Ticks s e n r
  unfolding take_frame started
  of_taken s lag n e r out = record {
    last = out.last;
    packets = out.packets;
    returns = out.returns;
    pcm = out.goes.pcm;
    goes = record {
      queued = out.goes.queued;
      handled = out.goes.handled;
      bounded = out.goes.bounded;
      same_handler = out.goes.same_handler;
      pcm = refl;
      unmuted = out.goes.unmuted;
    };
    counted = out.counted;
    speech = out.speech;
  }

  -- A tick of an unmuted worker whose device runs at 48 kHz returns, whatever Opus answers, with more
  -- fuel than samples are pending or taken. It takes one frame at most from the front of the input
  -- queue; its packets are well-formed talkspurts that continue those before, are all counted, and
  -- all go to the direct handler in order if there is one, or else the outbound queue holds the
  -- newest 16 of what it held and of them.
  pub tick-Ticks :
      (fuel : ℕ) (times : ℕ → ℕ) (lag rate n : ℕ) (now : Instant) (s : PipelineState F32)
      (e : VoiceEncoder f o) (tap : PcmTap f Instant)
      → IsSameRate f o e
      → s.transmit_enabled ≡ true
      → length s.encoded_packets ≤ max_pending_packets
      → length e.pending_pcm + n < fuel
      → Ticks s e n (tick fuel times lag rate n now s e tap)
  unfolding tick take_frame started
  tick-Ticks fuel times lag rate n now s e tap same on room enough =
      elim (Bool-cases (is_empty (take_frame f o (started s lag) n).0)) [
        | inl none_there ↦
            rw (none_there, tick)
              (of_taken s lag n e _ (idle-Encodes (take_frame f o (started s lag) n).1 e tap room))
        | inr some_there ↦
            rw (some_there, tick)
              (of_taken s lag n e _ (
                encode_frame-Encodes fuel times rate n now (take_frame f o (started s lag) n).1 e
                  tap (taken s n) same on room (omega (arith, length-taken s n))))
      ]
