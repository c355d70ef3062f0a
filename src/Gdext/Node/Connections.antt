-- ===== src/Gdext/Node/Connections.antt =====
-- How the connections that the node of gdext/src/transport_iroh.rs sends to follow those of the
-- service in iroh-sidecar/src/service.rs.
use godot_network_audio.Common.{
  ℕ, pos, ◌+ℤ◌, ◌+◌, ◌≡◌, refl, sym, ap, ◌∙◌, subst, Bool, true, false, ◌&&◌, Option, none, some,
  List, [], ◌∷◌, ◌++◌, if◌then◌else◌, arith, Bool-cases, inl, inr, append_cancel_left,
}
use godot_network_audio.VoiceCore.Float.{Floats}
use godot_network_audio.VoiceCore.Receiver.Jitter.{NetEq}
use godot_network_audio.Gdext.Stream.{Clock}
use godot_network_audio.IrohSidecar.Service.{
  Iroh, EndpointId, VoiceEvent, SharedState, peer_connected, peer_replaced, peer_disconnected,
  packet_received, get_connection,
}
use godot_network_audio.IrohSidecar.Service.Events.{
  Lives, over, next, after, is_about, touches, is_here,
}
use godot_network_audio.IrohSidecar.Service.Races.{Threads, Move, moves, overtaking, overtaking_lem}
use godot_network_audio.IrohSidecar.Service.Orderly.{is_orderly, quiet-Lives, moves-Mirrors}
use godot_network_audio.Common.Keys.{is_same_refl}
use godot_network_audio.Gdext.Node.{IrohVoiceTransport, ensure_receive_stream_for}
use godot_network_audio.Gdext.Node.Events.{take_connection, handle_event, drain_events}

module _ (f : Floats) (n : NetEq f.F32) (clock : Clock n.Instant) (i : Iroh) where
  open n use {Instant}
  open i use {ids}

  abbrev Node : Type 0
  Node = IrohVoiceTransport f n clock i

  abbrev connection_to : Node → EndpointId i → Option i.Connection
  connection_to m peer = m.send_router.connections peer

  ensure_lem :
      (epoch : Instant) (nows : ℕ → Instant) (peer : EndpointId i) (m : Node)
      → ((ensure_receive_stream_for f n clock i epoch nows peer m).1.send_router ≡ m.send_router)
        × ((ensure_receive_stream_for f n clock i epoch nows peer m).1.service ≡ m.service)
  unfolding ensure_receive_stream_for
  ensure_lem epoch nows peer m = ground arith

  -- What one event does to the connection of a peer.
  abbrev changed :
      SharedState i → EndpointId i → VoiceEvent i → Option i.Connection → Option i.Connection
  changed s peer (peer_connected p) before =
      if ids.is_same p peer && is_here i s p then s.peers p else before
  changed s peer (peer_replaced p) before =
      if ids.is_same p peer && is_here i s p then s.peers p else before
  changed s peer (peer_disconnected p) before = if ids.is_same p peer then none else before
  changed s peer (packet_received p bytes at) before = before

  take_lem :
      (m : Node) (s : SharedState i) (p peer : EndpointId i)
      → m.service ≡ some s
      → (connection_to (take_connection f n clock i p m) peer
          ≡ (if ids.is_same p peer && is_here i s p then s.peers p else connection_to m peer))
        × ((take_connection f n clock i p m).service ≡ some s)
  unfolding get_connection
  take_lem m s p peer running = ground (arith, running)

  event_lem :
      (epoch : Instant) (nows : ℕ → Instant) (m : Node) (s : SharedState i) (e : VoiceEvent i)
      (peer : EndpointId i)
      → m.service ≡ some s
      → (connection_to (handle_event f n clock i epoch nows m e) peer
          ≡ changed s peer e (connection_to m peer))
        × ((handle_event f n clock i epoch nows m e).service ≡ some s)
  unfolding handle_event
  event_lem epoch nows m s (peer_connected p) peer running =
      let m' : Node = record m { peers_connected = m.peers_connected +ℤ pos 1 } in
      ground (
        arith,
        ensure_lem epoch nows p (take_connection f n clock i p m'),
        take_lem m' s p peer running,
      )
  event_lem epoch nows m s (peer_replaced p) peer running = ground (
    arith,
    ensure_lem epoch nows p (take_connection f n clock i p m),
    take_lem m s p peer running,
  )
  event_lem epoch nows m s (peer_disconnected p) peer running = ground (arith, running)
  event_lem epoch nows m s (packet_received p bytes at) peer running = ground (arith, running)

  same_peers :
      (s : SharedState i) (p peer : EndpointId i)
      → ids.is_same p peer ≡ true
      → s.peers p ≡ s.peers peer
  same_peers s p peer same = ap s.peers ((ids.is_same_iff p peer).0 same)

  -- The last event about a peer leaves the service's connection.
  last_change :
      (s : SharedState i) (peer : EndpointId i) (b : Bool) (e : VoiceEvent i)
      (before : Option i.Connection)
      → after i peer b e ≡ some (is_here i s peer)
      → changed s peer e before ≡ (if is_about i peer e then s.peers peer else before)
  last_change s peer b (peer_connected p) before h = ground (arith, same_peers s p peer)
  last_change s peer b (peer_replaced p) before h = ground (arith, same_peers s p peer)
  last_change s peer b (peer_disconnected p) before h = ground (arith, same_peers s p peer)
  last_change s peer b (packet_received p bytes at) before h = refl

  drained_lem :
      (clocks : ℕ → Instant × (ℕ → Instant)) (s : SharedState i) (peer : EndpointId i) (k : ℕ)
      (m : Node) {b d : Bool} {es : List (VoiceEvent i)}
      → m.service ≡ some s
      → Lives i peer b es d
      → d ≡ is_here i s peer
      → connection_to (drain_events f n clock i clocks k es m) peer
        ≡ (if touches i peer es then s.peers peer else connection_to m peer)
  unfolding drain_events
  drained_lem clocks s peer k m running over here = refl
  drained_lem clocks s peer k m running (next {b} {c} {d} {e} {es} h l) here =
      let m' = handle_event f n clock i (clocks k).0 (clocks k).1 m e in
      let (step_to, runs) = event_lem (clocks k).0 (clocks k).1 m s e peer running in
      let rest = drained_lem clocks s peer (k + 1) m' runs l here in
      elim (Bool-cases (touches i peer es)) [
        | inl more ↦ ground (arith, rest, more)
        | inr last ↦ ground (
          arith,
          rest,
          last,
          step_to,
          last_change s peer b e (connection_to m peer) (h ∙ ap some (quiet-Lives i l last ∙ here)),
        )
      ]

  -- A node that knows the service's connections knows them again once it has drained all the events
  -- that the threads of the service sent, however these changed its map and sent the events, so long
  -- as none called `disconnect`, none changed a peer's entry while an event about that peer was still to
  -- be sent, and all are sent: for each peer it sends to the connection that the service has, and to
  -- none where that has none.
  pub drain_follows :
      (clocks : ℕ → Instant × (ℕ → Instant)) (m : Node) (t : Threads i) (ms : List (Move i))
      (es : List (VoiceEvent i)) (peer : EndpointId i)
      → t.unsent ≡ []
      → is_orderly i t ms ≡ true
      → (moves i t ms).unsent ≡ []
      → m.send_router.connections ≡ t.shared.peers
      → m.service ≡ some (moves i t ms).shared
      → (moves i t ms).shared.events ≡ t.shared.events ++ es
      → (drain_events f n clock i clocks 0 es m).send_router.connections peer
        ≡ (moves i t ms).shared.peers peer
  drain_follows clocks m t ms es peer none_waits orderly all_sent knew running sent =
      let s = t.shared in
      let s' = (moves i t ms).shared in
      let mirrors = moves-Mirrors i t ms none_waits orderly all_sent in
      let same : mirrors.new ≡ es =
        append_cancel_left s.events mirrors.new es (sym mirrors.events ∙ sent) in
      let lives =
        subst (λ new. Lives i peer (is_here i s peer) new (is_here i s' peer)) same
          (mirrors.lives peer) in
      let quiet =
        subst (λ new. touches i peer new ≡ false → s'.peers peer ≡ s.peers peer) same
          (mirrors.untouched peer) in
      let drained = drained_lem clocks s' peer 0 m running lives refl in
      elim (Bool-cases (touches i peer es)) [
        | inl more ↦ ground (arith, drained, more)
        | inr still ↦ ground (arith, drained, still, quiet still, ap (λ c. c peer) knew)
      ]

  -- Where the event of a new connection overtakes that of the old one's end, a node that drains both
  -- is left without a connection to the peer, while the service has the new one and no event waits.
  pub overtaken_disconnect :
      (clocks : ℕ → Instant × (ℕ → Instant)) (m : Node) (t : Threads i) (old new : i.Connection)
      (es : List (VoiceEvent i))
      → t.unsent ≡ []
      → t.shared.peers (i.remote_id new) ≡ some old
      → m.service ≡ some (moves i t (overtaking i new)).shared
      → (moves i t (overtaking i new)).shared.events ≡ t.shared.events ++ es
      → ((drain_events f n clock i clocks 0 es m).send_router.connections (i.remote_id new) ≡ none)
        × ((moves i t (overtaking i new)).shared.peers (i.remote_id new) ≡ some new)
        × ((moves i t (overtaking i new)).unsent ≡ [])
  unfolding drain_events
  overtaken_disconnect clocks m t old new es none_waits was running sent =
      let (has, waits, events) = overtaking_lem i t old new none_waits was in
      let peer = i.remote_id new in
      let two = peer_connected peer ∷ peer_disconnected peer ∷ [] in
      let same : es ≡ two = append_cancel_left t.shared.events es two (sym sent ∙ events) in
      let s = (moves i t (overtaking i new)).shared in
      let first = handle_event f n clock i (clocks 0).0 (clocks 0).1 m (peer_connected peer) in
      let (_, runs) = event_lem (clocks 0).0 (clocks 0).1 m s (peer_connected peer) peer running in
      let (gone, _) =
        event_lem (clocks 1).0 (clocks 1).1 first s (peer_disconnected peer) peer runs in
      (rw same (ground (arith, gone, is_same_refl ids peer)), has, waits)
