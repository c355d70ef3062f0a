-- ===== src/Gdext/Tests/Nodes.antt =====
-- The theorems of the node of gdext/src/transport_iroh.rs applied to concrete runs.
use godot_network_audio.Common.{
  ℕ, true, ◌++◌, ◌≡◌, refl, false, none, some, List, [], ◌∷◌, pos, arith, ◌==◌, if◌then◌else◌,
}
use godot_network_audio.VoiceCore.Error.{gives}
use godot_network_audio.VoiceCore.Fixtures.{whole, jitter, packet, coder, coder_writes, encoder}
use godot_network_audio.VoiceCore.Packet.{VoicePacket, to_bytes, encode_to_bytes, set}
use godot_network_audio.IrohSidecar.Service.{receive, peer_connected}
use godot_network_audio.IrohSidecar.Fixtures.{net, idle, quiet, crossing}
use godot_network_audio.IrohSidecar.Service.Races.{Threads, move, moves, overtaking}
use godot_network_audio.Gdext.Router.{ReceiveRouter}
use godot_network_audio.Gdext.Node.{IrohVoiceTransport}
use godot_network_audio.Gdext.Node.Events.{drain_events}
use godot_network_audio.Gdext.Node.Connections.{drain_follows, overtaken_disconnect}
use godot_network_audio.Gdext.Node.Streams.{IsWired, sink_of}
use godot_network_audio.Gdext.Node.Calls.{Call, starts, connects, handles, calls, calls-IsWired}
use godot_network_audio.Gdext.Stream
use godot_network_audio.Gdext.Node.Hearing.{Datagram, hears}
use godot_network_audio.Gdext.Node.Hearing.Speech.{
  packets, bytes_from, Hears, hears-Hears, spoken_is_queued,
}
use godot_network_audio.VoiceCore.Encoder.{VoiceEncoder, poll_packet}
use godot_network_audio.VoiceCore.Encoder.Speech.{polls, run as run_calls}
use godot_network_audio.Common.Run.{done}
use godot_network_audio.Common.Bounded.{newest}
use godot_network_audio.Gdext.Tests.{micros, stream}

abbrev routing : ReceiveRouter whole jitter micros net.ids
routing = record {
  peers = λ p. none;
  default_sink = none;
  transport_epoch = none;
  pending_drops = 0;
  streams = λ sink. stream;
}

abbrev node : IrohVoiceTransport whole jitter micros net
node = record {
  service = none;
  receive_streams = λ p. none;
  receive_router = routing;
  send_router = record { connections = λ p. none; selected_peers = none };
  direct_packets_sent = 0;
  direct_send_errors = 0;
  direct_packets_received = 0;
  process_mode_enabled = false;
  last_error = none;
  packets_sent = 0;
  packets_received = 0;
  peers_connected = pos 0;
  signals = [];
  next_stream = 0;
}

node-IsWired : IsWired whole jitter micros net node
unfolding sink_of
node-IsWired = record {
  own = λ peer s h. ground (arith, h);
  apart = λ p q s hp hq. ground (arith, hp);
  below = λ peer s h. ground (arith, h);
}

abbrev day : List (Call whole jitter micros net)
day =
    starts (gives (118 ∷ [], 3))
    ∷ connects 4 (λ k. 4) (gives tt) (gives (7, 0))
    ∷ handles 5 (λ k. 5) (peer_connected 8)
    ∷ []

calls-IsWired_example : IsWired whole jitter micros net (calls whole jitter micros net node day)
calls-IsWired_example = calls-IsWired whole jitter micros net node day node-IsWired

-- A node with streams for the peers 7 and 8.
abbrev wired : IrohVoiceTransport whole jitter micros net
wired = record node {
  receive_router = record routing {
    peers = λ p.
        if p == 7
        then some (record { sink = some 0; pending = [] })
        else (if p == 8 then some (record { sink = some 1; pending = [] }) else none);
  };
  receive_streams = λ p. if p == 7 then some 0 else (if p == 8 then some 1 else none);
  next_stream = 2;
}

drain_follows_example :
    (drain_events whole jitter micros net
        (λ k. (k, λ j. k))
        0
        (moves net quiet crossing).shared.events
        (record node { service = some (moves net quiet crossing).shared })).send_router.connections
      7
    ≡ some (7, 1)
unfolding move receive
drain_follows_example =
    drain_follows whole jitter micros net (λ k. (k, λ j. k))
      (record node { service = some (moves net quiet crossing).shared }) quiet crossing
      (moves net quiet crossing).shared.events 7 refl refl refl refl refl refl

wired-IsWired : IsWired whole jitter micros net wired
unfolding sink_of
wired-IsWired = record {
  own = λ peer s h. ground (arith, h);
  apart = λ p q s hp hq. ground (arith, hp, hq);
  below = λ peer s h. ground (arith, h);
}

abbrev bytes : List ℕ
unfolding encode_to_bytes
bytes = to_bytes (packet 5 960 1 (9 ∷ []))

-- A packet of peer 8, one of peer 7, and a datagram of peer 8 that is too short.
abbrev traffic : List (Datagram whole jitter micros net)
traffic =
    record { now = 6; peer = 8; bytes = bytes; at = 2 }
    ∷ record { now = 6; peer = 7; bytes = bytes; at = 3 }
    ∷ record { now = 7; peer = 8; bytes = 1 ∷ []; at = 4 }
    ∷ []

hears-Hears_example :
    Hears whole jitter micros net 8 traffic stream
      ((hears whole jitter micros net wired traffic).receive_router.streams 1)
unfolding Stream.new
hears-Hears_example =
    hears-Hears whole jitter micros net 8 wired 1 traffic wired-IsWired refl refl refl (omega arith)

-- The encoder after it returned one packet.
abbrev spoken : VoiceEncoder whole coder
spoken = record encoder { encoder = 1; pending_pcm = []; seq = 0; timestamp = 64; speaking = true }

abbrev said : List VoicePacket
said = packet 65_535 4_294_966_400 1 (1 ∷ 2 ∷ 3 ∷ []) ∷ []

spoken_run : run_calls whole coder 1 encoder (polls ∷ []) ≡ done (spoken, said)
unfolding poll_packet set
spoken_run = refl

abbrev speech : List (Datagram whole jitter micros net)
unfolding encode_to_bytes
speech =
    record {
      now = 6;
      peer = 8;
      bytes = to_bytes (packet 65_535 4_294_966_400 1 (1 ∷ 2 ∷ 3 ∷ []));
      at = 2;
    }
    ∷ []

spoken_is_queued_example :
    packets ((hears whole jitter micros net wired speech).receive_router.streams 1).queue
    ≡ newest 256 (packets stream.queue ++ said)
unfolding Stream.new bytes_from to_bytes encode_to_bytes
spoken_is_queued_example =
    spoken_is_queued whole jitter micros net 8 coder 1 encoder spoken (polls ∷ []) said wired 1
      speech coder_writes refl (omega arith) spoken_run refl wired-IsWired refl refl refl
      (omega arith)

-- The service with a connection to peer 7.
abbrev known : Threads net
known = record {
  shared = record idle { peers = λ p. if p == 7 then some (7, 0) else none };
  unsent = [];
}

abbrev overtaken : Threads net
unfolding move
overtaken = moves net known (overtaking net (7, 1))

overtaken_disconnect_example :
    ((drain_events whole jitter micros net
          (λ k. (k, λ j. k))
          0
          overtaken.shared.events
          (record node { service = some overtaken.shared })).send_router.connections
        7
      ≡ none)
    × (overtaken.shared.peers 7 ≡ some (7, 1))
    × (overtaken.unsent ≡ [])
unfolding move
overtaken_disconnect_example =
    overtaken_disconnect whole jitter micros net (λ k. (k, λ j. k))
      (record node { service = some overtaken.shared }) known (7, 0) (7, 1) overtaken.shared.events
      refl refl refl refl
