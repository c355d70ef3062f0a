-- ===== src/GdextIroh/Transport.antt =====
-- gdext-iroh/src/transport.rs: a transport node without a router of its own. It installs no direct
-- handler, so the packets come to it as events, and its target object is called with each. A
-- dictionary's address that was read is an argument, as is what the network answers.
pub mod Drain
use Prim.Native.String.{String, ◌++◌ as append_text}
use godot_network_audio.Common.{
  ℕ, ◌+◌, ℤ, pos, as_i64, ◌+ℤ◌, ◌-ℤ◌, Bool, true, false, Option, none, some, List, [], ◌∷◌, ◌++◌,
  if◌then◌else◌,
}
use godot_network_audio.VoiceCore.Error.{Reply, gives, fails}
use godot_network_audio.IrohSidecar.Service.{
  Iroh, EndpointId, VoiceEvent, SharedState, peer_connected, peer_replaced, peer_disconnected,
  packet_received, start, open_connection, send_datagram,
}
use godot_network_audio.Gdext.Node.{
  Signal, transport_error, signal_connected, signal_replaced, signal_disconnected, signal_packet,
  send_error,
}

module _ (i : Iroh) where
  open i use {from_str, to_string}

  -- `pushed` holds the calls of the targets' `push_packet_with_meta` and `signals` the signals, in
  -- order; `has_target` is whether `receive_target` is set. The counts are `i64`s, and are modelled
  -- below 2 ^ 63.
  pub record IrohVoiceTransport : Type 0 where
    pub service : Option (SharedState i)
    pub has_target : Bool
    pub process_mode_enabled : Bool
    pub last_error : Option String
    pub packets_sent : ℕ
    pub packets_received : ℕ
    pub peers_connected : ℤ
    pub pushed : List (List ℕ × ℤ)
    pub signals : List Signal

  abbrev pub signal : IrohVoiceTransport → Signal → IrohVoiceTransport
  signal m s = record m { signals = m.signals ++ (s ∷ []) }

  unfoldable pub record_error : IrohVoiceTransport → String → IrohVoiceTransport
  record_error m message = signal (record m { last_error = some message }) (transport_error message)

  abbrev pub enable_processing : IrohVoiceTransport → IrohVoiceTransport
  enable_processing m = record m { process_mode_enabled = true }

  -- The reply of `bind_default` is that of its call of the network, with the protocol's name.
  unfoldable pub start_endpoint : Reply (List ℕ) → IrohVoiceTransport → Bool × IrohVoiceTransport
  unfolding record_error
  start_endpoint (fails e) m = (false, record_error m (append_text "start endpoint: " e))
  start_endpoint (gives alpn) m =
      (true, enable_processing (record m { service = some (start i alpn) }))

  unfoldable pub connect_to_peer :
      Reply (Unit {0}) → Reply i.Connection → IrohVoiceTransport → Bool × IrohVoiceTransport
  unfolding record_error
  connect_to_peer address dialled m = elim m.service [
    | none ↦ (false, record_error m "connect_to_peer called before start_endpoint")
    | some service ↦ elim address [
      | fails e ↦ (false, record_error m (append_text "parse remote endpoint info: " e))
      | gives _ ↦ elim dialled [
        | fails e ↦ (false, record_error m (append_text "connect voice peer: " e))
        | gives connection ↦
            (true, record m { service = some (open_connection i service connection) })
      ]
    ]
  ]

  unfoldable pub set_receive_target : IrohVoiceTransport → IrohVoiceTransport
  set_receive_target m = enable_processing (record m { has_target = true })

  unfoldable pub clear_receive_target : IrohVoiceTransport → IrohVoiceTransport
  clear_receive_target m = record m { has_target = false }

  unfoldable pub send_packet : String → List ℕ → IrohVoiceTransport → Bool × IrohVoiceTransport
  unfolding record_error
  send_packet peer_id bytes m = elim m.service [
    | none ↦ (false, record_error m "send_packet called before start_endpoint")
    | some service ↦ elim (from_str peer_id) [
      | fails e ↦ (false, record_error m (append_text "invalid peer id: " e))
      | gives peer ↦ elim (send_error i (send_datagram i service peer bytes)) [
        | none ↦ (true, record m { packets_sent = m.packets_sent + 1 })
        | some e ↦ (false, record_error m (append_text "send packet: " e))
      ]
    ]
  ]

  -- The number of peers is an `i64`, which `saturating_sub` does not stop at 0.
  unfoldable pub handle_event : IrohVoiceTransport → VoiceEvent i → IrohVoiceTransport
  handle_event m (peer_connected peer) =
      signal (record m { peers_connected = m.peers_connected +ℤ pos 1 })
        (signal_connected (to_string peer))
  handle_event m (peer_replaced peer) = signal m (signal_replaced (to_string peer))
  handle_event m (peer_disconnected peer) =
      signal (record m { peers_connected = m.peers_connected -ℤ pos 1 })
        (signal_disconnected (to_string peer))
  handle_event m (packet_received peer bytes received_at_mono_us) =
      signal
        (record m {
          packets_received = m.packets_received + 1;
          pushed =
              if m.has_target
              then m.pushed ++ ((bytes, as_i64 received_at_mono_us) ∷ [])
              else m.pushed;
        })
        (signal_packet (to_string peer) bytes (as_i64 received_at_mono_us))

  -- `drain_events` on the events that the channel still holds; those that it lost are passed over.
  unfoldable pub drain_events : List (VoiceEvent i) → IrohVoiceTransport → IrohVoiceTransport
  unfolding handle_event
  drain_events [] m = m
  drain_events (e ∷ es) m = drain_events es (handle_event m e)

  unfoldable pub exit_tree : IrohVoiceTransport → IrohVoiceTransport
  exit_tree m = record m { service = none; has_target = false }
