-- ===== src/IrohSidecar/Service.antt =====
-- iroh-sidecar/src/service.rs: the map of connections that the accept loop, `connect`, the reader
-- tasks and the callers share. A run of the service is a sequence of whole operations, which is the
-- schedule in which each thread that changed the map sends its event before another changes it: the
-- source sends after it has released the lock, and Races takes the change and the event apart.
-- Connections and endpoint ids are of the crate iroh.
pub mod Events
pub mod Delivery
pub mod Census
pub mod Races
pub mod Orderly
pub mod Interleaved
use Prim.Native.String.{String}
use godot_network_audio.Common.{
  ℕ, Bool, true, false, Option, none, some, List, [], ◌∷◌, ◌++◌, is_some, if◌then◌else◌,
}
use godot_network_audio.Common.Keys.{Keys, Map, insert, remove}
use godot_network_audio.VoiceCore.Error.{Reply, gives, fails}

-- The transport: an id is read from a text and written as one, either of which the crate defines; a
-- connection knows its remote's id; sending may fail with a text.
pub record Iroh : Type 1 where
  pub ids : Keys
  pub from_str : String → Reply ids.Key
  pub to_string : ids.Key → String
  pub Connection : Type 0
  pub remote_id : Connection → ids.Key
  pub send : Connection → List ℕ → Reply (Unit {0})

module _ (i : Iroh) where
  open i use {ids, Connection, remote_id}

  abbrev pub EndpointId : Type 0
  EndpointId = ids.Key

  -- `RemotePeer` is its id.
  pub data VoiceEvent : Type 0 where
    peer_connected : EndpointId → VoiceEvent
    peer_replaced : EndpointId → VoiceEvent
    peer_disconnected : EndpointId → VoiceEvent
    packet_received : EndpointId → List ℕ → ℕ → VoiceEvent

  -- `events` holds what was sent on the broadcast channel, `handled` the calls of the direct packet
  -- handler and `closed` the connections that the service closed, each in order.
  pub record SharedState : Type 0 where
    pub peers : Map ids Connection
    pub alpn : List ℕ
    pub packet_handler : Bool
    pub events : List VoiceEvent
    pub handled : List (EndpointId × List ℕ × ℕ)
    pub closed : List Connection

  -- The state that `bind` starts with.
  unfoldable pub start : List ℕ → SharedState
  start alpn = record {
    peers = λ peer. none;
    alpn = alpn;
    packet_handler = false;
    events = [];
    handled = [];
    closed = [];
  }

  pub insert_connection : SharedState → Connection → VoiceEvent × SharedState
  insert_connection s connection =
      let peer = remote_id connection in
      let s' : SharedState = record s { peers = insert ids peer connection s.peers } in
      if is_some (s.peers peer) then (peer_replaced peer, s') else (peer_connected peer, s')

  pub remove_connection : SharedState → EndpointId → Option VoiceEvent × SharedState
  remove_connection s peer =
      let s' : SharedState = record s { peers = remove ids peer s.peers } in
      if is_some (s.peers peer) then (some (peer_disconnected peer), s') else (none, s')

  -- `shared.events.send(event)`
  abbrev pub emit : SharedState → VoiceEvent → SharedState
  emit s event = record s { events = s.events ++ (event ∷ []) }

  -- What `connect` and the accept loop do once a connection is made, without another thread between the
  -- change and the event; its reader starts then.
  unfoldable pub open_connection : SharedState → Connection → SharedState
  unfolding insert_connection
  open_connection s connection = let (event, s') = insert_connection s connection in emit s' event

  -- One datagram read by a reader task: to the direct handler if there is one, or broadcast.
  unfoldable pub receive : SharedState → EndpointId → List ℕ → ℕ → SharedState
  receive s peer bytes received_at_mono_us =
      if s.packet_handler
      then record s { handled = s.handled ++ ((peer, bytes, received_at_mono_us) ∷ []) }
      else emit s (packet_received peer bytes received_at_mono_us)

  -- The end of the reader task of a connection whose remote is `peer`, without another thread between
  -- the change and the event.
  unfoldable pub end_reader : SharedState → EndpointId → SharedState
  unfolding remove_connection
  end_reader s peer =
      let (event, s') = remove_connection s peer in elim event [ none ↦ s' | some e ↦ emit s' e ]

  unfoldable pub disconnect : SharedState → EndpointId → Bool × SharedState
  disconnect s peer = elim (s.peers peer) [
    | none ↦ (false, record s { peers = remove ids peer s.peers })
    | some connection ↦
        (true, record s { peers = remove ids peer s.peers; closed = s.closed ++ (connection ∷ []) })
  ]

  pub data SendResult : Type 0 where
    sent : SendResult
    unknown_peer : EndpointId → SendResult
    send_failed : EndpointId → String → SendResult

  unfoldable pub send_datagram : SharedState → EndpointId → List ℕ → SendResult
  send_datagram s peer bytes = elim (s.peers peer) [
    | none ↦ unknown_peer peer
    | some connection ↦ elim (i.send connection bytes) [
      | gives _ ↦ sent
      | fails e ↦ send_failed peer e
    ]
  ]

  unfoldable pub get_connection : SharedState → EndpointId → Option Connection
  get_connection s peer = s.peers peer

  unfoldable pub set_packet_handler : SharedState → SharedState
  set_packet_handler s = record s { packet_handler = true }

  -- One operation of a run of the service; a reader is known by its connection.
  pub data Step : Type 0 where
    opens : Connection → Step
    reads : Connection → List ℕ → ℕ → Step
    ends : Connection → Step
    disconnects : EndpointId → Step
    installs : Step

  abbrev pub step : SharedState → Step → SharedState
  step s (opens connection) = open_connection s connection
  step s (reads connection bytes at) = receive s (remote_id connection) bytes at
  step s (ends connection) = end_reader s (remote_id connection)
  step s (disconnects peer) = (disconnect s peer).1
  step s installs = set_packet_handler s

  abbrev pub run : SharedState → List Step → SharedState
  run s [] = s
  run s (c ∷ cs) = run (step s c) cs
