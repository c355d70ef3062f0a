-- ===== src/Gdext/Node/Wiring.antt =====
-- What each call on the node of gdext/src/transport_iroh.rs leaves of the streams and their routes.
use Prim.Native.String.{String}
use godot_network_audio.Common.{
  ℕ, ◌≡◌, refl, none, some, List, arith, Option-cases, inl, inr, subst, pos, ◌+ℤ◌,
}
use godot_network_audio.VoiceCore.Error.{Reply, Reply-cases, Result-cases, gives, fails}
use godot_network_audio.VoiceCore.Float.{Floats}
use godot_network_audio.VoiceCore.Packet.{decode_from_bytes}
use godot_network_audio.VoiceCore.Receiver.Jitter.{NetEq}
use godot_network_audio.Gdext.Stream.{Clock}
use godot_network_audio.IrohSidecar.Service.{
  Iroh, EndpointId, SharedState, VoiceEvent, peer_connected, peer_replaced, peer_disconnected,
  packet_received, get_connection, open_connection,
}
use godot_network_audio.Gdext.Node.{
  record_error, ensure_receive_stream_for, handle_packet, start_endpoint, connect_to_peer,
  install_packet_router, connected, or_insert,
}
use godot_network_audio.Gdext.Node.Engine.{
  set_send_peers, get_or_create_receive_stream, remove_receive_stream, send_packet,
}
use godot_network_audio.Gdext.Node.Events.{take_connection, handle_event}
use godot_network_audio.Gdext.Node.Streams.{
  Node, IsWired, keeps, drops, sink-route, sink-unregister, ensure-IsWired, Rewires-IsWired,
  same-IsWired, wiring,
}

module _ (f : Floats) (n : NetEq f.F32) (clock : Clock n.Instant) (i : Iroh) where
  open n use {Instant}

  pub start-wiring :
      (reply : Reply (List ℕ × Instant)) (m : Node f n clock i)
      → wiring f n clock i (start_endpoint f n clock i reply m).1 ≡ wiring f n clock i m
  unfolding start_endpoint install_packet_router record_error
  start-wiring reply m = ground arith

  pub send-wiring :
      (text : String) (bytes : List ℕ) (m : Node f n clock i)
      → wiring f n clock i (send_packet f n clock i text bytes m).1 ≡ wiring f n clock i m
  unfolding send_packet record_error
  send-wiring text bytes m = ground arith

  pub select-wiring :
      (texts : List String) (m : Node f n clock i)
      → wiring f n clock i (set_send_peers f n clock i texts m).1 ≡ wiring f n clock i m
  unfolding set_send_peers record_error
  select-wiring texts m = ground arith

  pub take-wiring :
      (peer : EndpointId i) (m : Node f n clock i)
      → wiring f n clock i (take_connection f n clock i peer m) ≡ wiring f n clock i m
  unfolding get_connection
  take-wiring peer m = ground arith

  pub connected-IsWired :
      (epoch : Instant) (nows : ℕ → Instant) (c : i.Connection) (service : SharedState i)
      (m : Node f n clock i)
      → IsWired f n clock i m
      → IsWired f n clock i (connected f n clock i epoch nows c service m)
  unfolding connected get_connection
  connected-IsWired epoch nows c service m w =
      let peer = i.remote_id c in
      let service' = open_connection i service c in
      let m' : Node f n clock i = record m { service = some service' } in
      let known : Node f n clock i = elim (service'.peers peer) [
        | none ↦ m'
        | some taken ↦ record m' { send_router = or_insert f n clock i m'.send_router peer taken }
      ] in
      ensure-IsWired f n clock i epoch nows peer known
        (same-IsWired f n clock i m known (ground arith) w)

  pub connect-IsWired :
      (epoch : Instant) (nows : ℕ → Instant) (address : Reply (Unit {0}))
      (dialled : Reply i.Connection) (m : Node f n clock i)
      → IsWired f n clock i m
      → IsWired f n clock i (connect_to_peer f n clock i epoch nows address dialled m).1
  unfolding connect_to_peer record_error
  connect-IsWired epoch nows (fails e) dialled m w =
      same-IsWired f n clock i m (connect_to_peer f n clock i epoch nows (fails e) dialled m).1
        (ground arith) w
  connect-IsWired epoch nows (gives u) (fails e) m w =
      same-IsWired f n clock i m (connect_to_peer f n clock i epoch nows (gives u) (fails e) m).1
        (ground arith) w
  connect-IsWired epoch nows (gives u) (gives c) m w = elim (Option-cases m.service) [
    | inl idle ↦
        same-IsWired f n clock i m (connect_to_peer f n clock i epoch nows (gives u) (gives c) m).1
          (ground (arith, idle)) w
    | inr (service, running) ↦
        let same : connected f n clock i epoch nows c service m
            ≡ (connect_to_peer f n clock i epoch nows (gives u) (gives c) m).1 =
          ground (arith, running) in
        subst (IsWired f n clock i) same (connected-IsWired epoch nows c service m w)
  ]

  pub handle-IsWired :
      (epoch : Instant) (nows : ℕ → Instant) (e : VoiceEvent i) (m : Node f n clock i)
      → IsWired f n clock i m
      → IsWired f n clock i (handle_event f n clock i epoch nows m e)
  unfolding handle_event
  handle-IsWired epoch nows (peer_connected p) m w =
      let counted : Node f n clock i = record m { peers_connected = m.peers_connected +ℤ pos 1 } in
      let taken = take_connection f n clock i p counted in
      let made = (ensure_receive_stream_for f n clock i epoch nows p taken).1 in
      same-IsWired f n clock i made (handle_event f n clock i epoch nows m (peer_connected p)) refl
        (ensure-IsWired f n clock i epoch nows p taken
          (same-IsWired f n clock i m taken (take-wiring p counted) w))
  handle-IsWired epoch nows (peer_replaced p) m w =
      let taken = take_connection f n clock i p m in
      let made = (ensure_receive_stream_for f n clock i epoch nows p taken).1 in
      same-IsWired f n clock i made (handle_event f n clock i epoch nows m (peer_replaced p)) refl (
        ensure-IsWired f n clock i epoch nows p taken
          (same-IsWired f n clock i m taken (take-wiring p m) w))
  handle-IsWired epoch nows (peer_disconnected p) m w =
      same-IsWired f n clock i m (handle_event f n clock i epoch nows m (peer_disconnected p)) refl
        w
  handle-IsWired epoch nows (packet_received p bytes at) m w =
      same-IsWired f n clock i m
        (handle_event f n clock i epoch nows m (packet_received p bytes at)) refl w

  pub remove-IsWired :
      (text : String) (m : Node f n clock i)
      → IsWired f n clock i m
      → IsWired f n clock i (remove_receive_stream f n clock i text m).1
  unfolding remove_receive_stream record_error
  remove-IsWired text m w = elim (Reply-cases (i.from_str text)) [
    | inl (p, read) ↦
        Rewires-IsWired f n clock i m (remove_receive_stream f n clock i text m).1
          (drops p (λ peer. ground (arith, read))
            (λ peer. ground (arith, read, sink-unregister f n clock i m.receive_router p peer))
            (ground (arith, read)))
          w
    | inr (e, unread) ↦
        same-IsWired f n clock i m (remove_receive_stream f n clock i text m).1
          (ground (arith, unread)) w
  ]

  pub ask-IsWired :
      (epoch : Instant) (nows : ℕ → Instant) (text : String) (m : Node f n clock i)
      → IsWired f n clock i m
      → IsWired f n clock i (get_or_create_receive_stream f n clock i epoch nows text m).1
  unfolding get_or_create_receive_stream record_error
  ask-IsWired epoch nows text m w = elim (Reply-cases (i.from_str text)) [
    | inl (p, read) ↦
        let same : (ensure_receive_stream_for f n clock i epoch nows p m).1
            ≡ (get_or_create_receive_stream f n clock i epoch nows text m).1 =
          ground (arith, read) in
        subst (IsWired f n clock i) same (ensure-IsWired f n clock i epoch nows p m w)
    | inr (e, unread) ↦
        same-IsWired f n clock i m (get_or_create_receive_stream f n clock i epoch nows text m).1
          (ground (arith, unread)) w
  ]

  pub packet-IsWired :
      (now : Instant) (peer : EndpointId i) (bytes : List ℕ) (at : ℕ) (m : Node f n clock i)
      → IsWired f n clock i m
      → IsWired f n clock i (handle_packet f n clock i now peer bytes at m)
  unfolding handle_packet
  packet-IsWired now peer bytes at m w = elim (Result-cases (decode_from_bytes bytes)) [
    | inl (packet, read) ↦
        Rewires-IsWired f n clock i m (handle_packet f n clock i now peer bytes at m)
          (keeps (λ p. ground (arith, read))
            (λ p. ground (
              arith,
              read,
              sink-route f n clock i now m.receive_router peer p
                  (record { packet = packet; received_at_mono_us = at }),
            ))
            (ground (arith, read)))
          w
    | inr (e, unread) ↦
        same-IsWired f n clock i m (handle_packet f n clock i now peer bytes at m)
          (ground (arith, unread)) w
  ]
