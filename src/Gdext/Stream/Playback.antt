-- ===== src/Gdext/Stream/Playback.antt =====
-- gdext/src/stream.rs, the part that the audio thread runs: the mix callback of a playback. What
-- other threads enqueue while a callback runs is an argument, as are the readings of the clock.
pub mod Fill
pub mod Mix
pub mod Callback
use godot_network_audio.Common.{
  ℕ, zero, suc, ◌+◌, ◌-◌, ◌^◌, ℤ, pos, negsuc, Bool, true, false, not, ◌&&◌, ◌||◌, Option, none,
  some, List, [], ◌∷◌, ◌++◌, map, length, take, drop, replicate, is_empty, ltb, leb, ◌==◌,
  if◌then◌else◌, min, max, wrapping_add, saturating_add,
}
use godot_network_audio.Common.Run.{Run, done, panics, out_of_fuel, ◌>>=◌}
use godot_network_audio.VoiceCore.Error.{Result, ok, err}
use godot_network_audio.VoiceCore.Float.{Floats}
use godot_network_audio.VoiceCore.Receiver.Jitter.{NetEq}
use godot_network_audio.VoiceCore.Receiver
use godot_network_audio.VoiceCore.Receiver.{VoiceReceiver}
use godot_network_audio.Gdext.PcmTap
use godot_network_audio.Gdext.Stream
use godot_network_audio.Gdext.Stream.{
  Clock, QueuedPacket, SharedStreamState, CallbackCounters, now_mono_us,
}
use godot_network_audio.Gdext.Stream.Ingress.{receive_all}

abbrev pub playback_drain_budget : ℕ
playback_drain_budget = 32

abbrev pub receiver_sample_rate_hz : ℕ
receiver_sample_rate_hz = 48_000

abbrev pub receiver_min_delay_ms : ℕ
receiver_min_delay_ms = 20

abbrev pub receiver_frame_samples : ℕ
receiver_frame_samples = 480

module _ (f : Floats) (n : NetEq f.F32) (clock : Clock n.Instant) where
  open f use {F32, lit}
  open n use {Instant}

  pub record AudioFrame : Type 0 where
    pub left : F32
    pub right : F32

  pub record AudioStreamNetworkPlayback : Type 0 where
    pub receiver : Option (VoiceReceiver f n)
    pub pending_mono : List F32
    pub pending_cursor : ℕ
    pub playback_position_frames : ℕ
    pub detached_init : Bool
    pub warned_detached_init : Bool

  -- What one drain of the ingress queue meets: the packets that came since the last, the clock's
  -- reading, the instants that the pushes read, and that of the tap.
  pub record Round : Type 0 where
    pub arrivals : List (Instant × QueuedPacket)
    pub drained_at : Instant
    pub pushed_at : ℕ → Instant
    pub tapped_at : Instant

  -- `build_receiver`: the delay bounds are raised to the minimum and to one another.
  pub build_receiver : ℕ → ℕ → Option (VoiceReceiver f n)
  build_receiver min_delay_ms max_delay_ms =
      let lo = max min_delay_ms receiver_min_delay_ms in
      elim (Receiver.new_with_delay_bounds f n receiver_sample_rate_hz lo (max max_delay_ms lo)) [
        | ok r ↦ some r
        | err e ↦ none
      ]

  -- At most the budget of packets goes to the receiver; results are ignored.
  pub drain :
      ℕ
      → (ℕ → Instant)
      → ℕ
      → VoiceReceiver f n
      → List QueuedPacket
      → VoiceReceiver f n × List QueuedPacket
  drain zero pushed_at now_us r q = (r, q)
  drain (suc budget) pushed_at now_us r [] = (r, [])
  drain (suc budget) pushed_at now_us r (p ∷ q) =
      drain budget pushed_at now_us
        (Receiver.push_packet_with_now_mono f n (pushed_at budget) r p.packet p.arrival now_us).0 q

  -- The variables of `fill_output_frames`, with the frames written so far.
  pub record Filling : Type 0 where
    pub receiver : VoiceReceiver f n
    pub shared : SharedStreamState f n clock
    pub pending_mono : List F32
    pub pending_cursor : ℕ
    pub out : List AudioFrame

  pub drain_packets_into_receiver : Round → Filling → Filling
  unfolding drain
  drain_packets_into_receiver round s =
      let shared = receive_all f n clock s.shared round.arrivals in
      let (r, q) =
        drain playback_drain_budget round.pushed_at (now_mono_us f n clock shared round.drained_at)
          s.receiver shared.queue in
      record s { receiver = r; shared = record shared { queue = q } }

  -- An empty buffer is refilled by one pull of 10 ms.
  pub refill : Round → Filling → Filling
  refill round s =
      let s' = drain_packets_into_receiver round s in
      let (r, frame) = Receiver.pull_frame f n s'.receiver receiver_frame_samples in
      record s' { receiver = r; pending_mono = frame; pending_cursor = 0 }

  pub ensure : Round → Filling → Filling
  ensure round s = if leb (length s.pending_mono) s.pending_cursor then refill round s else s

  abbrev pub available : Filling → ℕ
  available s = length s.pending_mono - s.pending_cursor

  abbrev pub mono_frame : F32 → AudioFrame
  mono_frame sample = record { left = sample; right = sample }

  -- The samples that one round copies.
  abbrev pub copied : ℕ → Filling → List F32
  copied len s =
      take (min (available s) (len - length s.out)) (drop s.pending_cursor s.pending_mono)

  -- Copies to the output and to the tap.
  pub copy : ℕ → Round → Filling → Filling
  copy len round s = record s {
    shared = record (s.shared) {
      pcm_tap =
          PcmTap.push f Instant s.shared.pcm_tap (copied len s) receiver_sample_rate_hz
            round.tapped_at;
    };
    pending_cursor = s.pending_cursor + min (available s) (len - length s.out);
    out = s.out ++ map mono_frame (copied len s);
  }

  -- while written < out.len() { ... }; round `i` meets `rounds i`.
  pub fill : ℕ → ℕ → (ℕ → Round) → ℕ → Filling → Run Filling
  fill zero i rounds len s = out_of_fuel
  fill (suc fuel) i rounds len s = elim (leb len (length s.out)) [
    | true ↦ done s
    | false ↦
        let s' = ensure (rounds i) s in
        elim (available s' == 0) [
          | true ↦ done s'
          | false ↦ fill fuel (i + 1) rounds len (copy len (rounds i) s')
        ]
  ]

  abbrev pub zero_frames : ℕ → List AudioFrame
  zero_frames len = replicate len (mono_frame (lit "0.0"))

  abbrev pub advance_position : AudioStreamNetworkPlayback → ℕ → AudioStreamNetworkPlayback
  advance_position p frames = record p {
    playback_position_frames = saturating_add 64 p.playback_position_frames frames;
  }

  abbrev pub count_mixed : SharedStreamState f n clock → ℕ → SharedStreamState f n clock
  count_mixed s frames = record s {
    runtime = record (s.runtime) {
      mixed_output_frames = wrapping_add 64 s.runtime.mixed_output_frames frames;
    };
  }
