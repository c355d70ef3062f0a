-- ===== src/Gdext/Node/Engine.antt =====
-- The calls of the engine on the node of gdext/src/transport_iroh.rs, with the direct handler that it
-- gives a sender.
use Prim.Native.String.{String, ◌++◌ as append_text}
use godot_network_audio.Common.{
  ℕ, ◌+◌, Bool, true, false, Option, none, some, List, [], ◌∷◌, is_some, if◌then◌else◌,
  wrapping_add,
}
use godot_network_audio.Common.Keys.{remove}
use godot_network_audio.VoiceCore.Error.{Reply, gives, fails}
use godot_network_audio.VoiceCore.Float.{Floats}
use godot_network_audio.VoiceCore.Receiver.Jitter.{NetEq}
use godot_network_audio.Gdext.Stream.{Clock}
use godot_network_audio.Gdext.Router.{LoopbackTarget, unregister}
use godot_network_audio.IrohSidecar.Service.{Iroh, EndpointId, send_datagram}
use godot_network_audio.Gdext.Node.{
  IrohVoiceTransport, send_error, targets, record_error, enable_processing,
  ensure_receive_stream_for,
}

module _ (f : Floats) (n : NetEq f.F32) (clock : Clock n.Instant) (i : Iroh) where
  open n use {Instant}
  open i use {ids, Connection, from_str, to_string}

  -- One datagram to each target in turn: how many were sent and how many failed.
  abbrev pub send_each : List Connection → List ℕ → ℕ × ℕ → ℕ × ℕ
  send_each [] bytes counts = counts
  send_each (connection ∷ cs) bytes (good, bad) =
      send_each cs bytes (elim (i.send connection bytes) [
        | gives _ ↦ (wrapping_add 64 good 1, bad)
        | fails _ ↦ (good, wrapping_add 64 bad 1)
      ])

  -- What the handler of `attach_sender` does with an encoded packet.
  unfoldable pub send_direct :
      List (EndpointId i) → List ℕ → IrohVoiceTransport f n clock i → IrohVoiceTransport f n clock i
  send_direct order bytes m =
      let (good, bad) =
        send_each (targets i m.send_router order) bytes
          (m.direct_packets_sent, m.direct_send_errors) in
      record m { direct_packets_sent = good; direct_send_errors = bad }

  -- Reads the ids in turn, up to the first that is none.
  abbrev pub read_ids : List String → (EndpointId i → Bool) → Reply (EndpointId i → Bool)
  read_ids [] selected = gives selected
  read_ids (text ∷ texts) selected = elim (from_str text) [
    | fails _ ↦ fails (append_text "invalid send peer id: " text)
    | gives peer ↦ read_ids texts (λ other. if ids.is_same peer other then true else selected other)
  ]

  unfoldable pub set_send_peers :
      List String → IrohVoiceTransport f n clock i → Bool × IrohVoiceTransport f n clock i
  unfolding record_error
  set_send_peers peer_ids m = elim (read_ids peer_ids (λ peer. false)) [
    | fails message ↦ (false, record_error f n clock i m message)
    | gives selected ↦
        (true, record m { send_router = record (m.send_router) { selected_peers = some selected } })
  ]

  unfoldable pub send_to_all_peers : IrohVoiceTransport f n clock i → IrohVoiceTransport f n clock i
  send_to_all_peers m = record m { send_router = record (m.send_router) { selected_peers = none } }

  unfoldable pub set_receive_stream :
      LoopbackTarget → IrohVoiceTransport f n clock i → IrohVoiceTransport f n clock i
  set_receive_stream target m =
      enable_processing f n clock i
        (record m { receive_router = record (m.receive_router) { default_sink = some target } })

  unfoldable pub clear_receive_stream :
      IrohVoiceTransport f n clock i → IrohVoiceTransport f n clock i
  clear_receive_stream m = record m {
    receive_router = record (m.receive_router) { default_sink = none };
  }

  unfoldable pub get_or_create_receive_stream :
      Instant
      → (ℕ → Instant)
      → String
      → IrohVoiceTransport f n clock i
      → Option LoopbackTarget × IrohVoiceTransport f n clock i
  unfolding record_error ensure_receive_stream_for
  get_or_create_receive_stream epoch nows peer_id m = elim (from_str peer_id) [
    | fails e ↦ (none, record_error f n clock i m (append_text "invalid receive peer id: " e))
    | gives peer ↦
        let (stream, m') = ensure_receive_stream_for f n clock i epoch nows peer m in
        (some stream, m')
  ]

  unfoldable pub remove_receive_stream :
      String → IrohVoiceTransport f n clock i → Bool × IrohVoiceTransport f n clock i
  unfolding record_error
  remove_receive_stream peer_id m = elim (from_str peer_id) [
    | fails _ ↦
        (false, record_error f n clock i m (append_text "invalid receive peer id: " peer_id))
    | gives peer ↦ (
      is_some (m.receive_streams peer),
      record m {
        receive_router = unregister f n clock ids m.receive_router peer;
        receive_streams = remove ids peer m.receive_streams;
      },
    )
  ]

  unfoldable pub send_packet :
      String → List ℕ → IrohVoiceTransport f n clock i → Bool × IrohVoiceTransport f n clock i
  unfolding record_error
  send_packet peer_id bytes m = elim m.service [
    | none ↦ (false, record_error f n clock i m "send_packet called before start_endpoint")
    | some service ↦ elim (from_str peer_id) [
      | fails e ↦ (false, record_error f n clock i m (append_text "invalid peer id: " e))
      | gives peer ↦ elim (send_error i (send_datagram i service peer bytes)) [
        | none ↦ (true, record m { packets_sent = m.packets_sent + 1 })
        | some e ↦ (false, record_error f n clock i m (append_text "send packet: " e))
      ]
    ]
  ]

  unfoldable pub exit_tree : IrohVoiceTransport f n clock i → IrohVoiceTransport f n clock i
  exit_tree m = record m { service = none; receive_streams = λ peer. none }
