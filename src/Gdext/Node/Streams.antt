-- ===== src/Gdext/Node/Streams.antt =====
-- The streams of the node of gdext/src/transport_iroh.rs: which stream a peer's packets go to, over
-- the calls of the engine, the events and the packets of the network threads.
use godot_network_audio.Common.{
  ℕ, ◌+◌, ◌≡◌, ◌<◌, refl, sym, ap, ◌∙◌, true, Option, none, some, List, [], ◌∷◌, if◌then◌else◌,
  arith, Option-cases, inl, inr,
}
use godot_network_audio.Common.Keys.{Map}
use godot_network_audio.VoiceCore.Float.{Floats}
use godot_network_audio.VoiceCore.Receiver.Jitter.{NetEq}
use godot_network_audio.Gdext.Stream.{Clock}
use godot_network_audio.Gdext.Router.{
  LoopbackTarget, PendingPacket, PeerIngress, ReceiveRouter, ingress_of, set_ingress, route,
  deliver, register, unregister, enqueue_at_transport_time,
}
use godot_network_audio.IrohSidecar.Service.{Iroh, EndpointId}
use godot_network_audio.Gdext.Node.{IrohVoiceTransport, ensure_receive_stream_for, new_stream}

module _ (f : Floats) (n : NetEq f.F32) (clock : Clock n.Instant) (i : Iroh) where
  open n use {Instant}
  open i use {ids}

  abbrev pub Node : Type 0
  Node = IrohVoiceTransport f n clock i

  abbrev pub Router : Type 0
  Router = ReceiveRouter f n clock ids

  -- The stream that the router has for a peer.
  unfoldable pub sink_of : Router → EndpointId i → Option LoopbackTarget
  sink_of r peer = (ingress_of f n clock ids r peer).sink

  pub same_ingress :
      (r : Router) (p peer : EndpointId i)
      → ids.is_same p peer ≡ true
      → ingress_of f n clock ids r p ≡ ingress_of f n clock ids r peer
  same_ingress r p peer same = ap (ingress_of f n clock ids r) ((ids.is_same_iff p peer).0 same)

  pub sink-route :
      (now : Instant) (r : Router) (p peer : EndpointId i) (q : PendingPacket)
      → sink_of (route f n clock ids now r p q) peer ≡ sink_of r peer
  unfolding sink_of route enqueue_at_transport_time
  sink-route now r p peer q = ground (arith, same_ingress r p peer)

  sink-deliver :
      (k : ℕ) (nows : ℕ → Instant) (r : Router) (sink : LoopbackTarget) (qs : List PendingPacket)
      (peer : EndpointId i)
      → sink_of (deliver f n clock ids k nows r sink qs) peer ≡ sink_of r peer
  unfolding sink_of deliver enqueue_at_transport_time
  sink-deliver k nows r sink [] peer = refl
  sink-deliver k nows r sink (q ∷ qs) peer =
      sink-deliver (k + 1) nows (enqueue_at_transport_time f n clock ids (nows k) r sink q) sink qs
        peer

  sink-register :
      (nows : ℕ → Instant) (r : Router) (p : EndpointId i) (sink : LoopbackTarget)
      (peer : EndpointId i)
      → sink_of (register f n clock ids nows r p sink) peer
        ≡ (if ids.is_same p peer then some sink else sink_of r peer)
  unfolding sink_of register
  sink-register nows r p sink peer =
      let waiting = ingress_of f n clock ids r p in
      let claimed = set_ingress f n clock ids r p (record { sink = some sink; pending = [] }) in
      ground (arith, sink-deliver 0 nows claimed sink waiting.pending peer)

  pub sink-unregister :
      (r : Router) (p peer : EndpointId i)
      → sink_of (unregister f n clock ids r p) peer
        ≡ (if ids.is_same p peer then none else sink_of r peer)
  unfolding sink_of unregister
  sink-unregister r p peer = ground arith

  -- Each peer's stream is where its packets go, no two peers share one, and streams that are still to
  -- be made have no peer yet.
  pub record IsWired (m : Node) : Type 0 where
    pub own :
        (peer : EndpointId i) (stream : LoopbackTarget)
        → m.receive_streams peer ≡ some stream
        → sink_of m.receive_router peer ≡ some stream
    pub apart :
        (p q : EndpointId i) (stream : LoopbackTarget)
        → sink_of m.receive_router p ≡ some stream
        → sink_of m.receive_router q ≡ some stream
        → ids.is_same p q ≡ true
    pub below :
        (peer : EndpointId i) (stream : LoopbackTarget)
        → sink_of m.receive_router peer ≡ some stream
        → stream < m.next_stream

  -- What a call may do to the streams, from `m` to `m'`.
  pub data Rewires (m m' : Node) : Type 0 where
    keeps :
        ((peer : EndpointId i) → m'.receive_streams peer ≡ m.receive_streams peer)
        → ((peer : EndpointId i) → sink_of m'.receive_router peer ≡ sink_of m.receive_router peer)
        → m'.next_stream ≡ m.next_stream
        → Rewires m m'
    makes :
        (p : EndpointId i)
        → ((peer : EndpointId i)
            → m'.receive_streams peer
              ≡ (if ids.is_same p peer then some m.next_stream else m.receive_streams peer))
        → ((peer : EndpointId i)
            → sink_of m'.receive_router peer
              ≡ (if ids.is_same p peer then some m.next_stream else sink_of m.receive_router peer))
        → m'.next_stream ≡ m.next_stream + 1
        → Rewires m m'
    drops :
        (p : EndpointId i)
        → ((peer : EndpointId i)
            → m'.receive_streams peer
              ≡ (if ids.is_same p peer then none else m.receive_streams peer))
        → ((peer : EndpointId i)
            → sink_of m'.receive_router peer
              ≡ (if ids.is_same p peer then none else sink_of m.receive_router peer))
        → m'.next_stream ≡ m.next_stream
        → Rewires m m'
    forgets :
        ((peer : EndpointId i) → m'.receive_streams peer ≡ none)
        → ((peer : EndpointId i) → sink_of m'.receive_router peer ≡ sink_of m.receive_router peer)
        → m'.next_stream ≡ m.next_stream
        → Rewires m m'

  same_both :
      (p q r : EndpointId i)
      → ids.is_same p q ≡ true
      → ids.is_same p r ≡ true
      → ids.is_same q r ≡ true
  same_both p q r hq hr =
      (ids.is_same_iff q r).1 (sym ((ids.is_same_iff p q).0 hq) ∙ (ids.is_same_iff p r).0 hr)

  pub Rewires-IsWired : (m m' : Node) → Rewires m m' → IsWired m → IsWired m'
  Rewires-IsWired m m' (keeps streams sinks next) w = record {
    own = λ peer s h. ground (arith, w.own peer s, streams peer, sinks peer, h);
    apart = λ p q s hp hq. ground (arith, w.apart p q s, sinks p, sinks q, hp, hq);
    below = λ peer s h. ground (arith, w.below peer s, sinks peer, h, next);
  }
  Rewires-IsWired m m' (makes p streams sinks next) w = record {
    own = λ peer s h. ground (arith, w.own peer s, streams peer, sinks peer, h);
    apart = λ a b s ha hb.
        ground (
          arith,
          w.apart a b s,
          sinks a,
          sinks b,
          ha,
          hb,
          w.below a s,
          w.below b s,
          same_both p a b,
        );
    below = λ peer s h. ground (arith, w.below peer s, sinks peer, h, next);
  }
  Rewires-IsWired m m' (drops p streams sinks next) w = record {
    own = λ peer s h. ground (arith, w.own peer s, streams peer, sinks peer, h);
    apart = λ a b s ha hb. ground (arith, w.apart a b s, sinks a, sinks b, ha, hb);
    below = λ peer s h. ground (arith, w.below peer s, sinks peer, h, next);
  }
  Rewires-IsWired m m' (forgets streams sinks next) w = record {
    own = λ peer s h. ground (arith, streams peer, h);
    apart = λ p q s hp hq. ground (arith, w.apart p q s, sinks p, sinks q, hp, hq);
    below = λ peer s h. ground (arith, w.below peer s, sinks peer, h, next);
  }

  sink-new_stream :
      (epoch : Instant) (m : Node) (peer : EndpointId i)
      → sink_of (new_stream f n clock i epoch m) peer ≡ sink_of m.receive_router peer
  unfolding sink_of
  sink-new_stream epoch m peer = refl

  ensure-Rewires :
      (epoch : Instant) (nows : ℕ → Instant) (p : EndpointId i) (m : Node)
      → Rewires m (ensure_receive_stream_for f n clock i epoch nows p m).1
  unfolding ensure_receive_stream_for
  ensure-Rewires epoch nows p m = elim (Option-cases (m.receive_streams p)) [
    | inr (s, known) ↦
        keeps (λ peer. ground (arith, known)) (λ peer. ground (arith, known))
          (ground (arith, known))
    | inl fresh ↦
        makes p (λ peer. ground (arith, fresh))
          (λ peer. ground (
            arith,
            fresh,
            sink-register nows (new_stream f n clock i epoch m) p m.next_stream peer,
            sink-new_stream epoch m peer,
          ))
          (ground (arith, fresh))
  ]

  pub ensure-IsWired :
      (epoch : Instant) (nows : ℕ → Instant) (p : EndpointId i) (m : Node)
      → IsWired m
      → IsWired (ensure_receive_stream_for f n clock i epoch nows p m).1
  ensure-IsWired epoch nows p m w =
      Rewires-IsWired m (ensure_receive_stream_for f n clock i epoch nows p m).1
        (ensure-Rewires epoch nows p m) w

  -- The fields that the wiring depends on.
  abbrev pub wiring : Node → Map ids LoopbackTarget × Map ids PeerIngress × LoopbackTarget
  wiring m = (m.receive_streams, m.receive_router.peers, m.next_stream)

  pub same-IsWired : (m m' : Node) → wiring m' ≡ wiring m → IsWired m → IsWired m'
  unfolding sink_of
  same-IsWired m m' same w =
      Rewires-IsWired m m'
        (keeps (λ peer. ground (arith, same)) (λ peer. ground (arith, same)) (ground (arith, same)))
        w
