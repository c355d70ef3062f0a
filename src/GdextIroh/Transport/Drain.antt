-- ===== src/GdextIroh/Transport/Drain.antt =====
-- What the node of gdext-iroh/src/transport.rs makes of the events of its service.
use godot_network_audio.Common.{
  ℕ, ◌+◌, ◌≡◌, ap, sym, ◌∙◌, ◌<◌, ◌^◌, ℤ, as_i64, pos, true, false, List, [], ◌∷◌, ◌++◌, length,
  arith, if◌then◌else◌, append-nil, append_assoc, append_cancel_left,
}
use godot_network_audio.IrohSidecar.Service.{
  Iroh, EndpointId, VoiceEvent, peer_connected, peer_replaced, peer_disconnected, packet_received,
}
use godot_network_audio.IrohSidecar.Service.Events.{is_here}
use godot_network_audio.IrohSidecar.Service.Delivery.{Datagram, broadcast, broadcast-append}
use godot_network_audio.IrohSidecar.Service.Races.{Threads, Move, moves}
use godot_network_audio.IrohSidecar.Service.Orderly.{is_orderly, moves-Mirrors}
use godot_network_audio.IrohSidecar.Service.Interleaved.{read_in, is_calm, moves-Delivers}
use godot_network_audio.IrohSidecar.Service.Census.{
  census, is_covered, is_distinct, tally, Mirrors-tally,
}
use godot_network_audio.GdextIroh.Transport.{IrohVoiceTransport, handle_event, drain_events}

module _ (i : Iroh) where
  abbrev pub meta : Datagram i → List ℕ × ℤ
  meta (peer, bytes, at) = (bytes, as_i64 at)

  abbrev pub metas : List (Datagram i) → List (List ℕ × ℤ)
  metas [] = []
  metas (d ∷ ds) = meta d ∷ metas ds

  drain_lem :
      (es : List (VoiceEvent i)) (m : IrohVoiceTransport i)
      → ((drain_events i es m).pushed
          ≡ m.pushed ++ (if m.has_target then metas (broadcast i es) else []))
        × ((drain_events i es m).packets_received ≡ m.packets_received + length (broadcast i es))
        × ((drain_events i es m).peers_connected ≡ tally i m.peers_connected es)
  unfolding drain_events handle_event
  drain_lem [] m = ground (arith, append-nil m.pushed)
  drain_lem (peer_connected p ∷ es) m =
      ground (arith, drain_lem es (handle_event i m (peer_connected p)))
  drain_lem (peer_replaced p ∷ es) m =
      ground (arith, drain_lem es (handle_event i m (peer_replaced p)))
  drain_lem (peer_disconnected p ∷ es) m =
      ground (arith, drain_lem es (handle_event i m (peer_disconnected p)))
  drain_lem (packet_received p bytes at ∷ es) m = ground (
    arith,
    drain_lem es (handle_event i m (packet_received p bytes at)),
    append_assoc m.pushed ((bytes, as_i64 at) ∷ []) (metas (broadcast i es)),
    append-nil m.pushed,
  )

  -- What a node has after the events of a service whose threads went from `t` by the moves `ms`.
  pub record Hears (m : IrohVoiceTransport i) (peers : List (EndpointId i)) (t : Threads i)
      (ms : List (Move i)) (m' : IrohVoiceTransport i) : Type 0 where
    pub pushed : m'.pushed ≡ m.pushed ++ (if m.has_target then metas (read_in i ms) else [])
    pub received : m'.packets_received ≡ m.packets_received + length (read_in i ms)
    pub connected : m'.peers_connected ≡ pos (census i peers (is_here i (moves i t ms).shared))

  -- Once a node has drained all the events that the threads of its service sent, however these changed
  -- the map, sent the events and handed on datagrams, so long as none called `disconnect`, none changed
  -- a peer's entry while an event about that peer was still to be sent, all are sent, and there is no
  -- direct handler: its target, if it has one, was called with every datagram that was read, once and in
  -- order, with its time as an i64; it has counted them; and its number of peers, if it was right
  -- before, is the number of peers that the service has a connection to. The counts are to stay below
  -- 2 ^ 63.
  pub drain-Hears :
      (m : IrohVoiceTransport i) (peers : List (EndpointId i)) (t : Threads i) (ms : List (Move i))
      (es : List (VoiceEvent i))
      → t.unsent ≡ []
      → t.shared.packet_handler ≡ false
      → m.packets_received + length es < 2 ^ 63
      → length peers + length es < 2 ^ 63
      → is_calm i ms ≡ true
      → is_orderly i t ms ≡ true
      → (moves i t ms).unsent ≡ []
      → is_distinct i peers ≡ true
      → is_covered i peers es ≡ true
      → (moves i t ms).shared.events ≡ t.shared.events ++ es
      → m.peers_connected ≡ pos (census i peers (is_here i t.shared))
      → Hears m peers t ms (drain_events i es m)
  drain-Hears m peers t ms es none_waits plain few_packets few_peers calm orderly all_sent distinct
        covered sent right =
      let s = t.shared in
      let (pushed, received, connected) = drain_lem es m in
      let delivers = moves-Delivers i false t ms plain calm (ap (broadcast i) none_waits) in
      let same : broadcast i es ≡ read_in i ms =
        append_cancel_left (broadcast i s.events) (broadcast i es) (read_in i ms)
          (sym (broadcast-append i s.events es) ∙ ap (broadcast i) (sym sent) ∙ delivers.queued) in
      record {
        pushed = rw (sym same) pushed;
        received = rw (sym same) received;
        connected =
            connected
            ∙ ap (λ n. tally i n es) right
            ∙ Mirrors-tally i peers s (moves i t ms).shared es distinct covered
                (moves-Mirrors i t ms none_waits orderly all_sent) sent;
      }
