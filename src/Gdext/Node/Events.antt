-- ===== src/Gdext/Node/Events.antt =====
-- The events of the service that the node of gdext/src/transport_iroh.rs drains.
use godot_network_audio.Common.{ℕ, ◌+◌, pos, as_i64, ◌+ℤ◌, ◌-ℤ◌, none, some, List, [], ◌∷◌}
use godot_network_audio.Common.Keys.{insert, remove}
use godot_network_audio.VoiceCore.Float.{Floats}
use godot_network_audio.VoiceCore.Receiver.Jitter.{NetEq}
use godot_network_audio.Gdext.Stream.{Clock}
use godot_network_audio.IrohSidecar.Service.{
  Iroh, EndpointId, VoiceEvent, peer_connected, peer_replaced, peer_disconnected, packet_received,
  get_connection,
}
use godot_network_audio.Gdext.Node.{
  IrohVoiceTransport, signal, signal_connected, signal_replaced, signal_disconnected, signal_packet,
  ensure_receive_stream_for,
}

module _ (f : Floats) (n : NetEq f.F32) (clock : Clock n.Instant) (i : Iroh) where
  open n use {Instant}
  open i use {ids, Connection, from_str, to_string}

  -- if let Some(service) ... if let Some(conn) = service.get_connection(peer) { insert }
  abbrev pub take_connection :
      EndpointId i → IrohVoiceTransport f n clock i → IrohVoiceTransport f n clock i
  take_connection peer m = elim m.service [
    | none ↦ m
    | some service ↦ elim (get_connection i service peer) [
      | none ↦ m
      | some connection ↦
          let r = m.send_router in
          record m {
            send_router = record r { connections = insert ids peer connection r.connections };
          }
    ]
  ]

  -- The number of peers is an `i64`, which `saturating_sub` does not stop at 0.
  unfoldable pub handle_event :
      Instant
      → (ℕ → Instant)
      → IrohVoiceTransport f n clock i
      → VoiceEvent i
      → IrohVoiceTransport f n clock i
  unfolding ensure_receive_stream_for get_connection
  handle_event epoch nows m (peer_connected peer) =
      let m' : IrohVoiceTransport f n clock i = record m {
        peers_connected = m.peers_connected +ℤ pos 1;
      } in
      signal f n clock i
        (ensure_receive_stream_for f n clock i epoch nows peer (take_connection peer m')).1
        (signal_connected (to_string peer))
  handle_event epoch nows m (peer_replaced peer) =
      signal f n clock i
        (ensure_receive_stream_for f n clock i epoch nows peer (take_connection peer m)).1
        (signal_replaced (to_string peer))
  handle_event epoch nows m (peer_disconnected peer) =
      let r = m.send_router in
      signal f n clock i
        (record m {
          peers_connected = m.peers_connected -ℤ pos 1;
          send_router = record r { connections = remove ids peer r.connections };
        })
        (signal_disconnected (to_string peer))
  handle_event epoch nows m (packet_received peer bytes received_at_mono_us) =
      signal f n clock i (record m { packets_received = m.packets_received + 1 })
        (signal_packet (to_string peer) bytes (as_i64 received_at_mono_us))

  -- `drain_events` on the events that the channel still holds; those that it lost are passed over.
  -- The clock's readings are those at each event.
  unfoldable pub drain_events :
      (ℕ → Instant × (ℕ → Instant))
      → ℕ
      → List (VoiceEvent i)
      → IrohVoiceTransport f n clock i
      → IrohVoiceTransport f n clock i
  unfolding handle_event
  drain_events clocks k [] m = m
  drain_events clocks k (e ∷ es) m =
      drain_events clocks (k + 1) es (handle_event (clocks k).0 (clocks k).1 m e)
