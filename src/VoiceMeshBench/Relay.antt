-- ===== src/VoiceMeshBench/Relay.antt =====
-- voice-mesh-bench/src/main.rs: the envelope of the benchmark's datagrams, the fan-out of a sender and
-- the relay of the star topology. What a connection answers to a send is an argument.
pub mod Fanout
use godot_network_audio.Common.{
  ℕ, zero, suc, ◌+◌, ◌*◌, ◌/◌, ◌%◌, ◌^◌, ◌==◌, Bool, true, false, not, ◌&&◌, ◌||◌, Option, none,
  some, List, [], ◌∷◌, ◌++◌, length, get_or, if◌then◌else◌, ltb, wrapping_add,
}
use godot_network_audio.VoiceCore.Float.{Floats}
use godot_network_audio.VoiceCore.Packet.{VoicePacket, encode_to_bytes}
use godot_network_audio.VoiceMeshBench.Schedule.{
  Scenario, baseline, game_interest, listener_interested,
}
use godot_network_audio.VoiceMeshBench.Samples.{MetricSamples, push}
use godot_network_audio.VoiceMeshBench.Arguments.{
  Doubles, Config, Delivery, sender_filtered, broadcast_discard, Topology, direct, star,
}

abbrev pub envelope_header_len : ℕ
envelope_header_len = 24

-- `to_be_bytes` and `from_be_bytes` of a `u64`.
abbrev pub u64_to_be_bytes : ℕ → List ℕ
u64_to_be_bytes n =
    (n / 2 ^ 56) % 2 ^ 8
    ∷ (n / 2 ^ 48) % 2 ^ 8
    ∷ (n / 2 ^ 40) % 2 ^ 8
    ∷ (n / 2 ^ 32) % 2 ^ 8
    ∷ (n / 2 ^ 24) % 2 ^ 8
    ∷ (n / 2 ^ 16) % 2 ^ 8
    ∷ (n / 2 ^ 8) % 2 ^ 8
    ∷ n % 2 ^ 8
    ∷ []

-- The word at an index; every index lies below the length that was checked.
abbrev pub u64_at : List ℕ → ℕ → ℕ
u64_at bytes k =
    get_or bytes k 0 * 2 ^ 56
    + get_or bytes (k + 1) 0 * 2 ^ 48
    + get_or bytes (k + 2) 0 * 2 ^ 40
    + get_or bytes (k + 3) 0 * 2 ^ 32
    + get_or bytes (k + 4) 0 * 2 ^ 24
    + get_or bytes (k + 5) 0 * 2 ^ 16
    + get_or bytes (k + 6) 0 * 2 ^ 8
    + get_or bytes (k + 7) 0

-- The datagram that `encode_and_send` puts together.
unfoldable pub envelope : ℕ → ℕ → ℕ → VoicePacket → List ℕ
unfolding encode_to_bytes
envelope sent_at_us frame_index speaker packet =
    encode_to_bytes packet
      (u64_to_be_bytes sent_at_us ++ (u64_to_be_bytes frame_index ++ u64_to_be_bytes speaker))

-- A `usize` holds every `u64` on a 64-bit machine.
unfoldable pub envelope_speaker : List ℕ → Option ℕ
envelope_speaker bytes =
    if ltb (length bytes) envelope_header_len then none else some (u64_at bytes 16)

-- The counters of a sender that its fan-out changes; `sent` holds what it sent, through the connection
-- to whom, in order.
pub record SendCounters : Type 0 where
  pub sent_datagrams : ℕ
  pub stress_sent_datagrams : ℕ
  pub send_errors : ℕ
  pub sent_bytes : ℕ
  pub fanout_spans_us : MetricSamples
  pub stress_fanout_spans_us : MetricSamples
  pub sent : List (ℕ × List ℕ)

-- A send through the connection to a peer, if there is one, by what it answers.
unfoldable pub send : Bool → List ℕ → ℕ → Option Bool → SendCounters → SendCounters
send stress wire peer none s = record s { send_errors = s.send_errors + 1 }
send stress wire peer (some false) s = record s { send_errors = s.send_errors + 1 }
send stress wire peer (some true) s = record s {
  sent_datagrams = s.sent_datagrams + 1;
  sent_bytes = s.sent_bytes + length wire;
  stress_sent_datagrams = s.stress_sent_datagrams + (if stress then 1 else 0);
  sent = s.sent ++ ((peer, wire) ∷ []);
}

-- The time that the fan-out took.
unfoldable pub time_fanout : Bool → ℕ → SendCounters → SendCounters
unfolding push
time_fanout stress span s = record s {
  fanout_spans_us = push s.fanout_spans_us span;
  stress_fanout_spans_us =
      if stress then push s.stress_fanout_spans_us span else s.stress_fanout_spans_us;
}

-- The counters of the relay; `forwarded` holds what it sent, to whom, in order.
pub record SfuCounters : Type 0 where
  pub received_datagrams : ℕ
  pub received_bytes : ℕ
  pub forwarded_datagrams : ℕ
  pub forwarded_bytes : ℕ
  pub send_errors : ℕ
  pub forwarded : List (ℕ × List ℕ)

abbrev pub is_filtered : Delivery → Bool
is_filtered sender_filtered = true
is_filtered broadcast_discard = false

abbrev pub is_game : Scenario → Bool
is_game baseline = false
is_game game_interest = true

abbrev pub is_star : Topology → Bool
is_star direct = false
is_star star = true

-- `u64::fetch_add`
abbrev pub fetch_add : ℕ → ℕ → ℕ
fetch_add a b = wrapping_add 64 a b

module _ (f : Floats) (d : Doubles f) where
  -- Whether the loops over the listeners go on to a send.
  abbrev pub is_sent_to : Config f d → ℕ → ℕ → ℕ → Bool
  is_sent_to c frame_index speaker listener =
      not (listener == speaker)
      && not (
          is_game c.schedule.scenario
          && (is_filtered c.delivery
              && not (listener_interested c.schedule frame_index speaker listener)))

  -- The loop of `encode_and_send` over the connections of the first `n` listeners.
  unfoldable pub send_all :
      Config f d → Bool → ℕ → ℕ → List ℕ → (ℕ → Option Bool) → ℕ → SendCounters → SendCounters
  unfolding send
  send_all c stress frame_index speaker wire slot zero s = s
  send_all c stress frame_index speaker wire slot (suc n) s =
      let s' = send_all c stress frame_index speaker wire slot n s in
      if is_sent_to c frame_index speaker n then send stress wire n (slot n) s' else s'

  -- The part of `encode_and_send` after a packet was encoded. `slot` is what the connection of a peer
  -- answers, if there is one, and there is a slot for each participant.
  unfoldable pub fan_out :
      Config f d → Bool → ℕ → ℕ → List ℕ → (ℕ → Option Bool) → ℕ → SendCounters → SendCounters
  unfolding send_all time_fanout
  fan_out c stress frame_index speaker wire slot span s = time_fanout stress span (
      if is_star c.topology
      then send stress wire speaker (slot speaker) s
      else send_all c stress frame_index speaker wire slot c.schedule.participants s)

  -- One client of the relay.
  unfoldable pub forward_to : List ℕ → ℕ → Bool → SfuCounters → SfuCounters
  forward_to bytes listener true s = record s {
    forwarded_datagrams = fetch_add s.forwarded_datagrams 1;
    forwarded_bytes = fetch_add s.forwarded_bytes (length bytes);
    forwarded = s.forwarded ++ ((listener, bytes) ∷ []);
  }
  forward_to bytes listener false s = record s { send_errors = fetch_add s.send_errors 1 }

  -- The loop over the first `n` clients.
  unfoldable pub forward_all :
      Config f d → ℕ → ℕ → List ℕ → (ℕ → Bool) → ℕ → SfuCounters → SfuCounters
  unfolding forward_to
  forward_all c frame_index speaker bytes answers zero s = s
  forward_all c frame_index speaker bytes answers (suc n) s =
      let s' = forward_all c frame_index speaker bytes answers n s in
      if is_sent_to c frame_index speaker n then forward_to bytes n (answers n) s' else s'

  abbrev pub is_from : ℕ → Option ℕ → Bool
  is_from speaker none = false
  is_from speaker (some s) = s == speaker

  -- One datagram at the reader of a speaker; there are `clients` clients.
  unfoldable pub relay : Config f d → ℕ → ℕ → List ℕ → (ℕ → Bool) → SfuCounters → SfuCounters
  unfolding forward_all envelope_speaker
  relay c clients speaker bytes answers s =
      let s' : SfuCounters = record s {
        received_datagrams = fetch_add s.received_datagrams 1;
        received_bytes = fetch_add s.received_bytes (length bytes);
      } in
      if not (is_from speaker (envelope_speaker bytes)) || ltb (length bytes) envelope_header_len
      then s'
      else forward_all c (u64_at bytes 8) speaker bytes answers clients s'
