-- ===== src/Gdext/Node.antt =====
-- gdext/src/transport_iroh.rs: the node `IrohVoiceTransport`, which keeps the engine's view of the
-- service's connections and gives each peer a stream. A dictionary's address that was read is an
-- argument, as are what the network answers and the order in which a map is walked.
pub mod Connections
pub mod Streams
pub mod Calls
pub mod Hearing
pub mod Wiring
pub mod Engine
pub mod Events
use Prim.Native.String.{String, ◌++◌ as append_text}
use godot_network_audio.Common.{
  ℕ, ◌+◌, ℤ, pos, ◌+ℤ◌, ◌-ℤ◌, ◌==◌, Bool, true, false, Option, none, some, List, [], ◌∷◌, ◌++◌,
  is_some, if◌then◌else◌, wrapping_add,
}
use godot_network_audio.Common.Keys.{Map, insert, remove}
use godot_network_audio.VoiceCore.Error.{Result, ok, err, Reply, gives, fails}
use godot_network_audio.VoiceCore.Float.{Floats}
use godot_network_audio.VoiceCore.Packet.{VoicePacket, decode_from_bytes}
use godot_network_audio.VoiceCore.Receiver.Jitter.{NetEq}
use godot_network_audio.Gdext.Stream
use godot_network_audio.Gdext.Stream.{Clock, SharedStreamState}
use godot_network_audio.Gdext.Router.{
  LoopbackTarget, PendingPacket, ReceiveRouter, route, register, unregister,
}
use godot_network_audio.IrohSidecar.Service
use godot_network_audio.IrohSidecar.Service.{
  Iroh, EndpointId, VoiceEvent, SharedState, SendResult, peer_connected, peer_replaced,
  peer_disconnected, packet_received, sent, unknown_peer, send_failed, start, open_connection,
  get_connection, send_datagram, set_packet_handler,
}

-- What a node signals, the ids as texts.
pub data Signal : Type 0 where
  transport_error : String → Signal
  signal_connected : String → Signal
  signal_replaced : String → Signal
  signal_disconnected : String → Signal
  signal_packet : String → List ℕ → ℤ → Signal

-- The text of a failed send.
abbrev pub send_error : (i : Iroh) → SendResult i → Option String
send_error i sent = none
send_error i (unknown_peer peer) = some (append_text "unknown peer " (i.to_string peer))
send_error i (send_failed peer e) =
    some
      (append_text (append_text (append_text "send voice datagram to " (i.to_string peer)) ": ") e)

-- `router.read().targets()`, the map walked in the order of `order`.
pub record SendRouter (i : Iroh) : Type 0 where
  pub connections : Map i.ids i.Connection
  pub selected_peers : Option (EndpointId i → Bool)

abbrev pub is_selected : (i : Iroh) → SendRouter i → EndpointId i → Bool
is_selected i r peer = elim r.selected_peers [ none ↦ true | some selected ↦ selected peer ]

unfoldable pub targets : (i : Iroh) → SendRouter i → List (EndpointId i) → List i.Connection
targets i r [] = []
targets i r (peer ∷ order) = elim (r.connections peer) [
  | none ↦ targets i r order
  | some connection ↦
      if is_selected i r peer then connection ∷ targets i r order else targets i r order
]

module _ (f : Floats) (n : NetEq f.F32) (clock : Clock n.Instant) (i : Iroh) where
  open n use {Instant}
  open i use {ids, Connection, remote_id, from_str, to_string}

  -- `next_stream` names the next `AudioStreamNetwork` that is made. `signals` are in order.
  -- The counts that are `i64`s are modelled below 2 ^ 63.
  pub record IrohVoiceTransport : Type 0 where
    pub service : Option (SharedState i)
    pub receive_streams : Map ids LoopbackTarget
    pub receive_router : ReceiveRouter f n clock ids
    pub send_router : SendRouter i
    pub direct_packets_sent : ℕ
    pub direct_send_errors : ℕ
    pub direct_packets_received : ℕ
    pub process_mode_enabled : Bool
    pub last_error : Option String
    pub packets_sent : ℕ
    pub packets_received : ℕ
    pub peers_connected : ℤ
    pub signals : List Signal
    pub next_stream : LoopbackTarget

  abbrev pub signal : IrohVoiceTransport → Signal → IrohVoiceTransport
  signal m s = record m { signals = m.signals ++ (s ∷ []) }

  unfoldable pub record_error : IrohVoiceTransport → String → IrohVoiceTransport
  record_error m message = signal (record m { last_error = some message }) (transport_error message)

  abbrev pub enable_processing : IrohVoiceTransport → IrohVoiceTransport
  enable_processing m = record m { process_mode_enabled = true }

  -- The direct handler is installed in the service.
  unfoldable pub install_packet_router : IrohVoiceTransport → IrohVoiceTransport
  install_packet_router m = elim m.service [
    | none ↦ m
    | some service ↦ record m { service = some (set_packet_handler i service) }
  ]

  -- What the installed handler does with a datagram. `now` is the clock's reading at the enqueue.
  unfoldable pub handle_packet :
      Instant → EndpointId i → List ℕ → ℕ → IrohVoiceTransport → IrohVoiceTransport
  handle_packet now peer bytes received_at_mono_us m = elim (decode_from_bytes bytes) [
    | err _ ↦ m
    | ok packet ↦ record m {
      receive_router =
          route f n clock ids now m.receive_router peer
            (record { packet = packet; received_at_mono_us = received_at_mono_us });
      direct_packets_received = wrapping_add 64 m.direct_packets_received 1;
    }
  ]

  -- `AudioStreamNetwork::new_gd()`
  abbrev pub new_stream : Instant → IrohVoiceTransport → ReceiveRouter f n clock ids
  new_stream epoch m =
      let router = m.receive_router in
      record router {
        streams = λ other.
            if other == m.next_stream then Stream.new f n clock epoch else router.streams other;
      }

  -- The stream that a peer has, or a new one. The clock's readings are those of the new stream's
  -- epoch and of the enqueues of the packets that waited.
  unfoldable pub ensure_receive_stream_for :
      Instant
      → (ℕ → Instant)
      → EndpointId i
      → IrohVoiceTransport
      → LoopbackTarget × IrohVoiceTransport
  ensure_receive_stream_for epoch nows peer m = elim (m.receive_streams peer) [
    | some stream ↦ (stream, m)
    | none ↦
        let stream = m.next_stream in
        (
          stream,
          record m {
            receive_router = register f n clock ids nows (new_stream epoch m) peer stream;
            receive_streams = insert ids peer stream m.receive_streams;
            next_stream = stream + 1;
          },
        )
  ]

  -- What is bound of a start: the service with its monotonic epoch, or an error.
  unfoldable pub start_endpoint :
      Reply (List ℕ × Instant) → IrohVoiceTransport → Bool × IrohVoiceTransport
  unfolding install_packet_router record_error
  start_endpoint (fails e) m = (false, record_error m (append_text "start endpoint: " e))
  start_endpoint (gives (alpn, epoch)) m =
      let router = m.receive_router in
      let m' : IrohVoiceTransport = record m {
        receive_router = record router { transport_epoch = some epoch };
        service = some (start i alpn);
      } in
      (true, enable_processing (install_packet_router m'))

  -- `.entry(peer.id).or_insert(conn)`
  abbrev pub or_insert : SendRouter i → EndpointId i → Connection → SendRouter i
  or_insert r peer connection =
      if is_some (r.connections peer)
      then r
      else record r { connections = insert ids peer connection r.connections }

  -- What `connect_to_peer` does once the service has the connection. No other thread comes between
  -- that and `get_connection`.
  unfoldable pub connected :
      Instant → (ℕ → Instant) → Connection → SharedState i → IrohVoiceTransport → IrohVoiceTransport
  unfolding ensure_receive_stream_for
  connected epoch nows connection service m =
      let peer = remote_id connection in
      let service' = open_connection i service connection in
      let m' : IrohVoiceTransport = record m { service = some service' } in
      let known : IrohVoiceTransport = elim (get_connection i service' peer) [
        | none ↦ m'
        | some c ↦ record m' { send_router = or_insert m'.send_router peer c }
      ] in
      (ensure_receive_stream_for epoch nows peer known).1

  -- `address` is what became of the dictionary, `dialled` what the endpoint's `connect` gives.
  unfoldable pub connect_to_peer :
      Instant
      → (ℕ → Instant)
      → Reply (Unit {0})
      → Reply Connection
      → IrohVoiceTransport
      → Bool × IrohVoiceTransport
  unfolding record_error connected
  connect_to_peer epoch nows address dialled m = elim m.service [
    | none ↦ (false, record_error m "connect_to_peer called before start_endpoint")
    | some service ↦ elim address [
      | fails e ↦ (false, record_error m (append_text "parse remote endpoint info: " e))
      | gives _ ↦ elim dialled [
        | fails e ↦ (false, record_error m (append_text "connect voice peer: " e))
        | gives connection ↦ (true, connected epoch nows connection service m)
      ]
    ]
  ]
