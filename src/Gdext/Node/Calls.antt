-- ===== src/Gdext/Node/Calls.antt =====
-- Runs of the node of gdext/src/transport_iroh.rs: its calls, its events, the packets that the network
-- threads hand it, and what other threads do to its service, in any order.
use Prim.Native.String.{String}
use godot_network_audio.Common.{ℕ, ◌≡◌, refl, false, none, some, List, [], ◌∷◌, arith}
use godot_network_audio.VoiceCore.Error.{Reply, ok}
use godot_network_audio.VoiceCore.Float.{Floats}
use godot_network_audio.VoiceCore.Packet.{VoicePacket, decode_from_bytes}
use godot_network_audio.VoiceCore.Receiver.Jitter.{NetEq}
use godot_network_audio.Gdext.Stream.{Clock}
use godot_network_audio.Gdext.Router.{LoopbackTarget, route, enqueued, enqueue_at_transport_time}
use godot_network_audio.IrohSidecar.Service.{Iroh, EndpointId, SharedState, VoiceEvent}
use godot_network_audio.Gdext.Node.{handle_packet, start_endpoint, connect_to_peer}
use godot_network_audio.Gdext.Node.Engine.{
  set_send_peers, send_to_all_peers, set_receive_stream, clear_receive_stream,
  get_or_create_receive_stream, remove_receive_stream, send_packet, send_direct, exit_tree,
}
use godot_network_audio.Gdext.Node.Events.{handle_event}
use godot_network_audio.Gdext.Node.Streams.{
  Node, sink_of, IsWired, forgets, Rewires-IsWired, same-IsWired,
}
use godot_network_audio.Gdext.Node.Wiring.{
  start-wiring, send-wiring, select-wiring, connect-IsWired, handle-IsWired, remove-IsWired,
  ask-IsWired, packet-IsWired,
}

module _ (f : Floats) (n : NetEq f.F32) (clock : Clock n.Instant) (i : Iroh) where
  open n use {Instant}

  -- `serves` is a change that other threads make to the service.
  pub data Call : Type 0 where
    starts : Reply (List ℕ × Instant) → Call
    connects : Instant → (ℕ → Instant) → Reply (Unit {0}) → Reply i.Connection → Call
    sends_direct : List (EndpointId i) → List ℕ → Call
    selects : List String → Call
    selects_all : Call
    plays : LoopbackTarget → Call
    clears : Call
    asks : Instant → (ℕ → Instant) → String → Call
    removes : String → Call
    sends : String → List ℕ → Call
    handles : Instant → (ℕ → Instant) → VoiceEvent i → Call
    receives : Instant → EndpointId i → List ℕ → ℕ → Call
    serves : SharedState i → Call
    leaves : Call

  abbrev pub call : Node f n clock i → Call → Node f n clock i
  call m (starts reply) = (start_endpoint f n clock i reply m).1
  call m (connects epoch nows address dialled) =
      (connect_to_peer f n clock i epoch nows address dialled m).1
  call m (sends_direct order bytes) = send_direct f n clock i order bytes m
  call m (selects texts) = (set_send_peers f n clock i texts m).1
  call m selects_all = send_to_all_peers f n clock i m
  call m (plays target) = set_receive_stream f n clock i target m
  call m clears = clear_receive_stream f n clock i m
  call m (asks epoch nows text) = (get_or_create_receive_stream f n clock i epoch nows text m).1
  call m (removes text) = (remove_receive_stream f n clock i text m).1
  call m (sends text bytes) = (send_packet f n clock i text bytes m).1
  call m (handles epoch nows e) = handle_event f n clock i epoch nows m e
  call m (receives now peer bytes at) = handle_packet f n clock i now peer bytes at m
  call m (serves service) = record m { service = some service }
  call m leaves = exit_tree f n clock i m

  abbrev pub calls : Node f n clock i → List Call → Node f n clock i
  calls m [] = m
  calls m (c ∷ cs) = calls (call m c) cs

  call-IsWired :
      (m : Node f n clock i) (c : Call) → IsWired f n clock i m → IsWired f n clock i (call m c)
  unfolding send_direct send_to_all_peers set_receive_stream clear_receive_stream exit_tree
  call-IsWired m (starts reply) w =
      same-IsWired f n clock i m (call m (starts reply)) (start-wiring f n clock i reply m) w
  call-IsWired m (connects epoch nows address dialled) w =
      connect-IsWired f n clock i epoch nows address dialled m w
  call-IsWired m (sends_direct order bytes) w =
      same-IsWired f n clock i m (call m (sends_direct order bytes)) refl w
  call-IsWired m (selects texts) w =
      same-IsWired f n clock i m (call m (selects texts)) (select-wiring f n clock i texts m) w
  call-IsWired m selects_all w = same-IsWired f n clock i m (call m selects_all) refl w
  call-IsWired m (plays target) w = same-IsWired f n clock i m (call m (plays target)) refl w
  call-IsWired m clears w = same-IsWired f n clock i m (call m clears) refl w
  call-IsWired m (asks epoch nows text) w = ask-IsWired f n clock i epoch nows text m w
  call-IsWired m (removes text) w = remove-IsWired f n clock i text m w
  call-IsWired m (sends text bytes) w =
      same-IsWired f n clock i m (call m (sends text bytes)) (send-wiring f n clock i text bytes m)
        w
  call-IsWired m (handles epoch nows e) w = handle-IsWired f n clock i epoch nows e m w
  call-IsWired m (receives now peer bytes at) w = packet-IsWired f n clock i now peer bytes at m w
  call-IsWired m (serves service) w = same-IsWired f n clock i m (call m (serves service)) refl w
  call-IsWired m leaves w =
      Rewires-IsWired f n clock i m (call m leaves) (forgets (λ peer. refl) (λ peer. refl) refl) w

  -- Whatever the engine calls, whatever events are handled and packets arrive, in any order: the
  -- stream that a node has for a peer is the one that the receive router has registered for the packets
  -- of that peer, and no two peers have the same. Where a stream is set for all the peers, the router
  -- prefers that one.
  pub calls-IsWired :
      (m : Node f n clock i) (cs : List Call)
      → IsWired f n clock i m
      → IsWired f n clock i (calls m cs)
  calls-IsWired m [] w = w
  calls-IsWired m (c ∷ cs) w = calls-IsWired (call m c) cs (call-IsWired m c w)

  -- A packet of a peer that has a stream goes into that stream, in the transport's epoch, and another
  -- peer's stream is untouched; so long as no stream is set for all the peers.
  packet_reaches_own :
      (m : Node f n clock i) (now : Instant) (peer other : EndpointId i) (bytes : List ℕ) (at : ℕ)
      (packet : VoicePacket) (stream stream' : LoopbackTarget)
      → IsWired f n clock i m
      → m.receive_router.default_sink ≡ none
      → m.receive_streams peer ≡ some stream
      → m.receive_streams other ≡ some stream'
      → i.ids.is_same peer other ≡ false
      → decode_from_bytes bytes ≡ ok packet
      → let m' = handle_packet f n clock i now peer bytes at m in
        (m'.receive_router.streams stream
          ≡ enqueued f n clock i.ids m.receive_router.transport_epoch
              (m.receive_router.streams stream)
              now
              (record { packet = packet; received_at_mono_us = at }))
        × (m'.receive_router.streams stream' ≡ m.receive_router.streams stream')
  unfolding handle_packet route enqueue_at_transport_time sink_of
  packet_reaches_own m now peer other bytes at packet stream stream' w alone has has' differ read =
      ground (
        arith,
        alone,
        read,
        differ,
        w.own peer stream has,
        w.own other stream' has',
        w.apart peer other stream,
      )
