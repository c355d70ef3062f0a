-- ===== src/VoiceMeshBench/Tests.antt =====
-- The theorems of voice-mesh-bench applied to a concrete configuration and concrete values.
use Prim.Native.String.{String}
use godot_network_audio.Common.{
  ℕ, ◌&&◌, take, none, false, ◌*◌, ◌+◌, ◌%◌, ◌^◌, ◌==◌, not, ◌≡◌, ◌↔◌, refl, true, some, List, [],
  ◌∷◌, arith,
}
use godot_network_audio.VoiceMeshBench.Schedule.{
  listener_interested, game_interest, boundary_oscillation,
}
use godot_network_audio.VoiceMeshBench.Arguments.{Doubles, accepted, refused, Config, default, star}
use godot_network_audio.VoiceMeshBench.Arguments.Parse.{parse}
use godot_network_audio.VoiceMeshBench.Relay.{SendCounters, SfuCounters, envelope, fan_out, relay}
use godot_network_audio.VoiceMeshBench.Relay.Fanout.{IsEnvelope, frame_reaches_audience, copies}
use godot_network_audio.VoiceMeshBench.Arguments.Checks.Accepted.{IsAccepted, validate_iff}
use godot_network_audio.VoiceMeshBench.Arguments.Checks.{validate}
use godot_network_audio.VoiceCore.Fixtures.{whole, jitter, packet}
use godot_network_audio.VoiceMeshBench.Receive.{ReceivedDatagram, Listener, drain_received}
use godot_network_audio.VoiceMeshBench.Receive.Account.{Accounts, drain_received-Accounts}
use godot_network_audio.VoiceCore.Error.{gives}
use godot_network_audio.VoiceMeshBench.Samples.{with_salt, merge}
use godot_network_audio.VoiceMeshBench.Samples.Least.{Merges, merge-Merges, pushes}

abbrev doubles : Doubles whole
doubles = record {
  parse64 = λ s. gives 3;
  is_finite64 = λ n. true;
  from_secs_f64 = λ n. some (n * 1_000_000_000);
}

abbrev crowd : List String
crowd =
    "--scenario" ∷ "game-interest" ∷ "--participants" ∷ "8" ∷ "--interest-listeners" ∷ "3"
    ∷ "--interest-profile" ∷ "boundary-oscillation" ∷ []

abbrev config : Config whole doubles
config = record (default whole doubles 4) {
  schedule = record {
    participants = 8;
    talkers = 1;
    scenario = game_interest;
    interest_profile = boundary_oscillation;
    interest_listeners = 3;
    seed = 1;
  };
}

crowd_parsed : parse whole doubles 4 crowd ≡ accepted (some config)
unfolding parse
crowd_parsed = refl

word_missing :
    parse whole doubles 4 ("--seconds" ∷ "3" ∷ "--dtx" ∷ []) ≡ refused "--dtx requires on or off"
unfolding parse
word_missing = refl

number_refused :
    parse whole doubles 4 ("--talkers" ∷ "+3x" ∷ [])
    ≡ refused "invalid value for --talkers: invalid digit found in string"
unfolding parse
number_refused = refl

abbrev starred : List String
starred = "--topology" ∷ "star" ∷ crowd

abbrev star_config : Config whole doubles
star_config = record config { topology = star }

starred_parsed : parse whole doubles 4 starred ≡ accepted (some star_config)
unfolding parse
starred_parsed = refl

abbrev unsent : SendCounters
unfolding with_salt
unsent = record {
  sent_datagrams = 0;
  stress_sent_datagrams = 0;
  send_errors = 0;
  sent_bytes = 0;
  fanout_spans_us = with_salt 5;
  stress_fanout_spans_us = with_salt 5;
  sent = [];
}

abbrev unrelayed : SfuCounters
unrelayed = record {
  received_datagrams = 0;
  received_bytes = 0;
  forwarded_datagrams = 0;
  forwarded_bytes = 0;
  send_errors = 0;
  forwarded = [];
}

frame_reaches_audience_example :
    let bytes = envelope 9 210 5 (packet 3 960 1 (7 ∷ [])) in
    let s' = fan_out whole doubles star_config true 210 5 bytes (λ peer. some true) 40 unsent in
    let r' = relay whole doubles star_config 8 5 bytes (λ client. not (client == 2)) unrelayed in
    IsEnvelope 9 210 5 (packet 3 960 1 (7 ∷ [])) bytes
    × (s'.sent_datagrams + s'.send_errors ≡ 1)
    × ((r'.forwarded_datagrams + r'.send_errors) % 2 ^ 64 ≡ 3)
    × (s'.sent ≡ (5, bytes) ∷ [])
    × (r'.forwarded
        ≡ copies whole doubles 8
            (λ l. listener_interested star_config.schedule 210 5 l && not (l == 2))
            bytes)
unfolding unsent
frame_reaches_audience_example =
    frame_reaches_audience whole doubles 4 starred star_config true 9 210 5 40
      (packet 3 960 1 (7 ∷ [])) (λ peer. some true) (λ client. not (client == 2)) unsent unrelayed
      starred_parsed refl refl refl (omega arith) (omega arith) (omega arith) (omega arith)

abbrev idle : Listener whole doubles jitter
unfolding with_salt
idle = record {
  receivers = λ speaker. none;
  interest_started_us = λ speaker. some 50;
  counters = record {
    received_datagrams = 0;
    received_bytes = 0;
    accepted_datagrams = 0;
    outside_interest_datagrams = 0;
    malformed_datagrams = 0;
    media_impairment_attempted_datagrams = 0;
    media_impairment_delivered_datagrams = 0;
    media_impairment_dropped_datagrams = 0;
    latencies_us = with_salt 1;
    queue_delays_us = with_salt 2;
    stress_queue_delays_us = with_salt 3;
    interest_entry_to_first_media_us = with_salt 4;
    affected_route_max_transport_gap_us = 0;
    unaffected_route_max_transport_gap_us = 0;
  };
  receiver_creations = 0;
  receiver_reuses = 0;
  receiver_pool = [];
  impairment_routes = λ speaker. record { rng_state = speaker; burst_bad = false };
  last_transport_received_us = λ speaker. none;
}

-- From a speaker: its datagram, the start of one, and one whose packet is cut.
abbrev arrivals : ℕ → List (ReceivedDatagram × ℕ × ℕ)
unfolding envelope
arrivals speaker =
    (
      record {
        speaker = speaker;
        bytes = envelope 40 210 speaker (packet 3 960 1 (7 ∷ []));
        received_at_us = 90;
      },
      100,
      7,
    )
    ∷ (record { speaker = speaker; bytes = 1 ∷ 2 ∷ []; received_at_us = 95 }, 101, 7)
    ∷ (
      record {
        speaker = speaker;
        bytes = take 30 (envelope 60 210 speaker (packet 4 1_920 1 (7 ∷ [])));
        received_at_us = 97;
      },
      102,
      7,
    )
    ∷ []

drain_received-Accounts_example :
    Accounts whole doubles jitter 3 idle
      (drain_received whole doubles jitter 2 config 210 (arrivals 5) idle)
unfolding arrivals
drain_received-Accounts_example =
    drain_received-Accounts whole doubles jitter 2 config 210 (arrivals 5) idle
      (omega arith, (omega arith, (omega arith, tt)))

validate_iff_example :
    (validate whole doubles config ≡ accepted tt) ↔ IsAccepted whole doubles config
validate_iff_example = validate_iff whole doubles config

merge-Merges_example :
    Merges 3
      (5 ∷ 9 ∷ [])
      (7 ∷ [])
      ((1, 7) ∷ [])
      (merge (pushes (with_salt 3) (5 ∷ 9 ∷ [])) (pushes (with_salt 4) (7 ∷ [])) ((1, 7) ∷ []))
merge-Merges_example = merge-Merges 3 4 (5 ∷ 9 ∷ []) (7 ∷ []) ((1, 7) ∷ [])
