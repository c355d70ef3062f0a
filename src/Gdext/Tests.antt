-- ===== src/Gdext/Tests.antt =====
-- The theorems of gdext applied to concrete streams and taps.
mod Sending
mod Nodes
use godot_network_audio.Common.{
  ℕ, ◌+◌, ◌-◌, ◌%◌, ◌^◌, ◌==◌, ==_iff, ◌≡◌, refl, true, false, none, some, List, [], ◌∷◌, length,
  replicate, arith, leb, if◌then◌else◌,
}
use godot_network_audio.Common.Run.{done}
use godot_network_audio.VoiceCore.Fixtures.{whole, coder, encoder, jitter, packet, at, receiver}
use godot_network_audio.Gdext.PcmTap
use godot_network_audio.Gdext.PcmTap.{PcmTap, tap_default}
use godot_network_audio.Gdext.PcmTap.Account.{Accounts, push-Accounts}
use godot_network_audio.Gdext.Stream
use godot_network_audio.Gdext.Stream.{Clock, QueuedPacket, SharedStreamState, deactivate}
use godot_network_audio.Gdext.Stream.Ingress.{receive_all}
use godot_network_audio.Gdext.Stream.Playback.{
  AudioStreamNetworkPlayback, Round, Filling, fill, zero_frames,
}
use godot_network_audio.Gdext.Stream.Playback.Mix.{Mixed, mix}
use godot_network_audio.Gdext.Stream.Playback.Callback.{Serves, mix-Serves}
use godot_network_audio.Common.Keys.{Keys}
use godot_network_audio.Gdext.Sender.{PipelineState, Ticking, push_input_pcm, poll_loop}
use godot_network_audio.Gdext.Sender.Tick.{Ticks, tick, tick-Ticks}
use godot_network_audio.Gdext.Router.{PendingPacket, ReceiveRouter, ingress_of, register}
use godot_network_audio.Gdext.Router.Handover.{routes, handed, handover}

abbrev micros : Clock ℕ
micros = record {
  micros_since = λ a b. a - b;
  checked_since = λ a b. if leb b a then some (a - b) else none;
  later = λ t d. some (t + d);
}

-- A stream that plays, with nothing queued.
abbrev stream : SharedStreamState whole jitter micros
unfolding Stream.new
stream = record (Stream.new whole jitter micros 0) { playing = true }

abbrev arrivals : List (ℕ × QueuedPacket)
arrivals =
    (3, record { packet = packet 0 0 1 (9 ∷ []); arrival = at 1 })
    ∷ (4, record { packet = packet 1 960 0 (9 ∷ []); arrival = at 2 })
    ∷ []

abbrev round : Round whole jitter micros
round = record { arrivals = arrivals; drained_at = 9; pushed_at = λ i. 9; tapped_at = 9 }

abbrev player : AudioStreamNetworkPlayback whole jitter micros
player = record {
  receiver = some receiver;
  pending_mono = [];
  pending_cursor = 0;
  playback_position_frames = 0;
  detached_init = false;
  warned_detached_init = false;
}

abbrev tap : PcmTap whole ℕ
unfolding tap_default
tap = record (tap_default whole ℕ) { enabled = true }

push-Accounts_example :
    Accounts whole ℕ tap 700 (PcmTap.push whole ℕ tap (replicate 700 1) 48_000 3)
unfolding tap_default
push-Accounts_example = push-Accounts whole ℕ tap (replicate 700 1) 48_000 3 refl (omega arith)

mix-Serves_example :
    Serves whole jitter micros 500 (mix whole jitter micros 501 (λ i. round) 9 stream player 500)
mix-Serves_example =
    mix-Serves whole jitter micros 501 (λ i. round) 9 stream player 500 (omega arith)

abbrev names : Keys
names = record { Key = ℕ; is_same = λ a b. a == b; is_same_iff = λ a b. ==_iff a b }

abbrev router : ReceiveRouter whole jitter micros names
router = record {
  peers = λ p. none;
  default_sink = none;
  transport_epoch = some 2;
  pending_drops = 0;
  streams = λ sink. stream;
}

abbrev waiting : List (ℕ × PendingPacket)
waiting =
    (3, record { packet = packet 0 0 1 (9 ∷ []); received_at_mono_us = 1 })
    ∷ (4, record { packet = packet 1 960 0 (9 ∷ []); received_at_mono_us = 2 })
    ∷ []

handover_example :
    let r' = routes whole jitter micros names router 7 waiting in
    ((register whole jitter micros names (λ i. i) r' 7 1).streams 1
      ≡ receive_all whole jitter micros stream
          (handed whole jitter micros names (λ i. i) router 7 1 waiting))
    × (r'.streams ≡ router.streams)
    × ((r'.pending_drops + length (ingress_of whole jitter micros names r' 7).pending) % 2 ^ 64 ≡ 2)
handover_example =
    handover whole jitter micros names (λ i. i) router 7 1 waiting
      (record { no_default = refl; no_sink = refl; bounded = omega arith })

abbrev pipeline : PipelineState ℕ
pipeline = record {
  pcm_samples = [];
  encoded_packets = [];
  speaking = false;
  transmit_enabled = true;
  packet_clock = 0;
  last_error = none;
  gated_rms = 0;
  stats = record {
    worker_ticks = 0;
    worker_ticks_with_pcm = 0;
    worker_empty_pcm_ticks = 0;
    worker_partial_pcm_ticks = 0;
    worker_ticks_with_packets = 0;
    worker_ticks_without_packets = 0;
    silent_ticks = 0;
    tick_lag_count = 0;
    tick_lag_sum_us = 0;
    tick_lag_max_us = 0;
    packets_emitted = 0;
    packets_dropped = 0;
    pcm_samples_dropped = 0;
    queued_pcm_samples = 0;
    queued_packets = 0;
    last_packet_emit_us = 0;
    packet_interval_count = 0;
    packet_interval_sum_us = 0;
    packet_interval_max_us = 0;
  };
  has_handler = false;
  has_loopback = true;
  handed = [];
  looped = [];
}

abbrev ticking : Ticking whole coder
ticking = record { state = pipeline; encoder = encoder; emitted = 0 }

-- A tick that takes one frame of 20 ms.
abbrev filled : PipelineState ℕ
filled = record pipeline { pcm_samples = replicate 1_000 1 }

tick-Ticks_example :
    Ticks whole coder ℕ filled encoder 960
      (tick whole coder ℕ 1_921 (λ k. 5) 7 48_000 960 9 filled encoder tap)
unfolding tap_default
tick-Ticks_example =
    tick-Ticks whole coder ℕ 1_921 (λ k. 5) 7 48_000 960 9 filled encoder tap refl refl
      (omega arith) (omega arith)
