-- ===== src/VoiceCore/Harness.antt =====
-- voice-core/src/fixture_harness.rs: a simulated network between an encoder and a receiver. The clock
-- that NetEq reads at a push is a function of the simulated time.
pub mod Plays
pub mod Order
pub mod Impaired
pub mod Metrics
pub mod Resampled
use Prim.Native.String.{String}
use godot_network_audio.Common.{
  ℕ, zero, suc, ◌+◌, ◌-◌, ◌*◌, ◌%◌, ◌^◌, ◌==◌, Bool, true, false, ◌&&◌, ◌||◌, Option, none, some,
  List, [], ◌∷◌, ◌++◌, length, get_or, replicate, is_empty, if◌then◌else◌, leb, ltb, map,
}
use godot_network_audio.Common.Run
use godot_network_audio.Common.Run.{Run, done, panics, out_of_fuel}
use godot_network_audio.VoiceCore.Error.{Result, ok, err}
use godot_network_audio.VoiceCore.Float.{Floats}
use godot_network_audio.VoiceCore.Packet.{VoicePacket, PacketArrival}
use godot_network_audio.VoiceCore.Receiver.{VoiceReceiver, push_packet_with_now_mono, pull_frame}
use godot_network_audio.VoiceCore.Receiver.Stats.{stats}
use godot_network_audio.VoiceCore.Receiver.Jitter.{NetEq}

abbrev pub pull_frame_samples : ℕ
pull_frame_samples = 480

pub record ScheduledPacket : Type 0 where
  pub packet : VoicePacket
  pub arrival_us : ℕ

pub record ImpairmentProfile : Type 0 where
  pub name : String
  pub jitter_pattern_us : List ℕ
  pub drop_every_nth : Option ℕ
  pub drop_offset : ℕ
  pub burst_loss_ranges : List (ℕ × ℕ)

abbrev pub clean : ImpairmentProfile
clean = record {
  name = "clean";
  jitter_pattern_us = 0 ∷ [];
  drop_every_nth = none;
  drop_offset = 0;
  burst_loss_ranges = [];
}

abbrev pub good_network : ImpairmentProfile
good_network = record {
  name = "good_network";
  jitter_pattern_us = 0 ∷ 600 ∷ 1_200 ∷ 400 ∷ 1_800 ∷ 0 ∷ 900 ∷ 300 ∷ [];
  drop_every_nth = none;
  drop_offset = 0;
  burst_loss_ranges = [];
}

abbrev pub normal_wan : ImpairmentProfile
normal_wan = record {
  name = "normal_wan";
  jitter_pattern_us = 0 ∷ 1_500 ∷ 3_000 ∷ 800 ∷ 4_500 ∷ 2_000 ∷ 0 ∷ 2_500 ∷ [];
  drop_every_nth = some 181;
  drop_offset = 37;
  burst_loss_ranges = (90, 91) ∷ [];
}

abbrev pub bad_wan : ImpairmentProfile
bad_wan = record {
  name = "bad_wan";
  jitter_pattern_us = 0 ∷ 4_000 ∷ 1_500 ∷ 9_000 ∷ 2_500 ∷ 6_000 ∷ 700 ∷ 5_000 ∷ [];
  drop_every_nth = some 71;
  drop_offset = 9;
  burst_loss_ranges = (60, 62) ∷ [];
}

abbrev pub stress : ImpairmentProfile
stress = record {
  name = "stress";
  jitter_pattern_us = 0 ∷ 9_000 ∷ 4_000 ∷ 18_000 ∷ 6_000 ∷ 15_000 ∷ 2_000 ∷ 12_000 ∷ [];
  drop_every_nth = some 23;
  drop_offset = 7;
  burst_loss_ranges = (45, 49) ∷ (90, 94) ∷ [];
}

abbrev pub sweep_profiles : List ImpairmentProfile
sweep_profiles = clean ∷ good_network ∷ normal_wan ∷ bad_wan ∷ stress ∷ []

abbrev pub default_profile : ImpairmentProfile
default_profile = normal_wan

abbrev pub in_bursts : List (ℕ × ℕ) → ℕ → Bool
in_bursts [] index = false
in_bursts ((start, end) ∷ ranges) index =
    (leb start index && leb index end) || in_bursts ranges index

-- A remainder by 0 panics.
abbrev pub is_nth : ℕ → Option ℕ → ℕ → Run Bool
is_nth index none offset = done false
is_nth index (some zero) offset = panics
is_nth index (some (suc n)) offset = done ((index % suc n) == offset)

unfoldable pub should_drop_packet : ℕ → ImpairmentProfile → Run Bool
should_drop_packet index p =
    Run.◌>>=◌ (is_nth index p.drop_every_nth p.drop_offset)
      λ drops. done (drops || in_bursts p.burst_loss_ranges index)

-- The jitter pattern is taken in turns, which panics for an empty one; the sum panics where it does not
-- fit `u64`.
unfoldable pub arrival_of : ℕ → ImpairmentProfile → Run ℕ
arrival_of i p =
    let arrival = i * 20_000 + get_or p.jitter_pattern_us (i % length p.jitter_pattern_us) 0 in
    if is_empty p.jitter_pattern_us || leb (2 ^ 64) arrival then panics else done arrival

-- The loop over the packets from the `i`-th on.
unfoldable pub scheduled : ℕ → ImpairmentProfile → List VoicePacket → Run (List ScheduledPacket)
unfolding should_drop_packet arrival_of
scheduled i p [] = done []
scheduled i p (packet ∷ packets) =
    let rest = scheduled (i + 1) p packets in
    Run.◌>>=◌ (should_drop_packet i p) λ drop.
      if drop
      then rest
      else Run.◌>>=◌ (arrival_of i p) λ arrival.
        Run.◌>>=◌ rest λ events. done (record { packet = packet; arrival_us = arrival } ∷ events)

-- `sort_by_key` keeps the order of packets that arrive at once.
unfoldable pub place : ScheduledPacket → List ScheduledPacket → List ScheduledPacket
place e [] = e ∷ []
place e (x ∷ xs) = if leb e.arrival_us x.arrival_us then e ∷ x ∷ xs else x ∷ place e xs

abbrev pub sorted : List ScheduledPacket → List ScheduledPacket
sorted [] = []
sorted (e ∷ es) = place e (sorted es)

unfoldable pub impair_packets : List VoicePacket → ImpairmentProfile → Run (List ScheduledPacket)
unfolding scheduled
impair_packets packets p = Run.◌>>=◌ (scheduled 0 p packets) λ events. done (sorted events)

abbrev pub first_arrival : List ScheduledPacket → ℕ
first_arrival [] = 0
first_arrival (e ∷ es) = e.arrival_us

abbrev pub last_arrival : List ScheduledPacket → ℕ
last_arrival [] = 0
last_arrival (e ∷ []) = e.arrival_us
last_arrival (e ∷ e' ∷ es) = last_arrival (e' ∷ es)

module _ (f : Floats) (n : NetEq f.F32) (clock : ℕ → n.Instant) where
  open f use {F32, lit}

  -- The playback at the simulated time `t`; the measurements only read it.
  pub record Playback : Type 0 where
    pub receiver : VoiceReceiver f n
    pub events : List ScheduledPacket
    pub output : List F32
    pub t : ℕ

  -- while next_event < events.len() && events[next_event].arrival_us <= t
  unfoldable pub push_due :
      ℕ
      → VoiceReceiver f n
      → List ScheduledPacket
      → Result (VoiceReceiver f n × List ScheduledPacket)
  push_due t r [] = ok (r, [])
  push_due t r (e ∷ es) =
      let pushed =
        push_packet_with_now_mono f n (clock t) r e.packet
          (record { received_at_mono_us = e.arrival_us }) t in
      let rest = push_due t pushed.0 es in
      if leb e.arrival_us t
      then (elim pushed.1 [ err reason ↦ err reason | ok _ ↦ rest ])
      else ok (r, e ∷ es)

  -- The rest of a step of 10 ms, once the packets that are due were pushed.
  abbrev pub finish_step :
      ℕ → Playback → Result (VoiceReceiver f n × List ScheduledPacket) → Result Playback
  finish_step playout_start_us p (err reason) = err reason
  finish_step playout_start_us p (ok (r, es)) =
      let pulled : VoiceReceiver f n × List F32 =
        if leb playout_start_us p.t
        then pull_frame f n r pull_frame_samples
        else (r, replicate pull_frame_samples (lit "0.0")) in
      ok (record {
        receiver = pulled.0;
        events = es;
        output = p.output ++ pulled.1;
        t = p.t + 10_000;
      })

  unfoldable pub play_step : ℕ → Playback → Result Playback
  unfolding push_due
  play_step playout_start_us p = finish_step playout_start_us p (push_due p.t p.receiver p.events)

  -- while t <= end_time_us
  unfoldable pub play : ℕ → ℕ → ℕ → Playback → Run (Result Playback)
  unfolding play_step
  play zero playout_start_us end_time_us p = out_of_fuel
  play (suc fuel) playout_start_us end_time_us p =
      let next = play_step playout_start_us p in
      elim (leb p.t end_time_us) [
        | false ↦ done (ok p)
        | true ↦ elim next [
          | err reason ↦ done (err reason)
          | ok p' ↦ play fuel playout_start_us end_time_us p'
        ]
      ]

  -- `run_impairment_harness_with_config` from its events and its new receiver on.
  unfoldable pub run_harness :
      ℕ → ℕ → VoiceReceiver f n → List ScheduledPacket → Run (Result Playback)
  unfolding play
  run_harness fuel startup_buffer_ms receiver events =
      play fuel (first_arrival events + startup_buffer_ms * 1_000) (last_arrival events + 200_000)
        (record { receiver = receiver; events = events; output = []; t = 0 })
