-- ===== src/Gdext/Router.antt =====
-- gdext/src/transport_iroh.rs, the routing of received packets to streams: packets of a peer without
-- a stream wait in a bounded queue until one is registered. A `LoopbackTarget` shares a stream's
-- state, so it is a name in a store of streams, and two peers may have the same.
pub mod Handover
use godot_network_audio.Common.{
  ℕ, ◌+◌, ◌^◌, Bool, true, false, Option, none, some, List, [], ◌∷◌, ◌++◌, length, drop, ◌==◌,
  if◌then◌else◌, wrapping_add,
}
use godot_network_audio.Common.Keys.{Keys, Map, insert, remove}
use godot_network_audio.VoiceCore.Float.{Floats}
use godot_network_audio.VoiceCore.Packet.{VoicePacket}
use godot_network_audio.VoiceCore.Receiver.Jitter.{NetEq}
use godot_network_audio.Gdext.Stream.{Clock, SharedStreamState, enqueue_now, enqueue_from_epoch}

abbrev pub pending_packets_per_peer : ℕ
pending_packets_per_peer = 64

abbrev pub LoopbackTarget : Type 0
LoopbackTarget = ℕ

pub record PendingPacket : Type 0 where
  pub packet : VoicePacket
  pub received_at_mono_us : ℕ

pub record PeerIngress : Type 0 where
  pub sink : Option LoopbackTarget
  pub pending : List PendingPacket

module _ (f : Floats) (n : NetEq f.F32) (clock : Clock n.Instant) (ids : Keys) where
  open n use {Instant}
  open ids use {Key}

  pub record ReceiveRouter : Type 0 where
    pub peers : Map ids PeerIngress
    pub default_sink : Option LoopbackTarget
    pub transport_epoch : Option Instant
    pub pending_drops : ℕ
    pub streams : LoopbackTarget → SharedStreamState f n clock

  -- `peers.entry(peer).or_default()`
  abbrev pub ingress_of : ReceiveRouter → Key → PeerIngress
  ingress_of r peer = elim (r.peers peer) [
    | none ↦ record { sink = none; pending = [] }
    | some ingress ↦ ingress
  ]

  abbrev pub set_ingress : ReceiveRouter → Key → PeerIngress → ReceiveRouter
  set_ingress r peer ingress = record r { peers = insert ids peer ingress r.peers }

  -- What one enqueue does to the stream: in the transport's epoch if it is known.
  unfoldable pub enqueued :
      Option Instant
      → SharedStreamState f n clock
      → Instant
      → PendingPacket
      → SharedStreamState f n clock
  enqueued none s now q = (enqueue_now f n clock s now q.packet).1
  enqueued (some epoch) s now q =
      (enqueue_from_epoch f n clock s now q.packet q.received_at_mono_us epoch).1

  unfoldable pub enqueue_at_transport_time :
      Instant → ReceiveRouter → LoopbackTarget → PendingPacket → ReceiveRouter
  enqueue_at_transport_time now r sink q = record r {
    streams = λ other.
        if other == sink
        then enqueued r.transport_epoch (r.streams sink) now q
        else r.streams other;
  }

  abbrev pub or_else {ℓ} : {A : Type ℓ} → Option A → Option A → Option A
  or_else none y = y
  or_else (some x) y = some x

  -- A packet that waits; the oldest gives way if 64 do.
  abbrev pub wait : ReceiveRouter → Key → PeerIngress → PendingPacket → ReceiveRouter
  wait r peer ingress q =
      if length ingress.pending == pending_packets_per_peer
      then (let r' : ReceiveRouter = record r {
        pending_drops = wrapping_add 64 r.pending_drops 1;
      } in
          set_ingress r' peer (record ingress { pending = drop 1 ingress.pending ++ (q ∷ []) }))
      else set_ingress r peer (record ingress { pending = ingress.pending ++ (q ∷ []) })

  -- The default sink comes before the peer's own. `now` is the clock's reading at the enqueue.
  unfoldable pub route : Instant → ReceiveRouter → Key → PendingPacket → ReceiveRouter
  unfolding enqueue_at_transport_time
  route now r peer q =
      let ingress = ingress_of r peer in
      elim (or_else r.default_sink ingress.sink) [
        | some sink ↦ enqueue_at_transport_time now (set_ingress r peer ingress) sink q
        | none ↦ wait r peer ingress q
      ]

  -- The packets that waited are enqueued in turn; the `i`-th enqueue reads the clock as `nows i`.
  unfoldable pub deliver :
      ℕ → (ℕ → Instant) → ReceiveRouter → LoopbackTarget → List PendingPacket → ReceiveRouter
  unfolding enqueue_at_transport_time
  deliver i nows r sink [] = r
  deliver i nows r sink (q ∷ qs) =
      deliver (i + 1) nows (enqueue_at_transport_time (nows i) r sink q) sink qs

  unfoldable pub register : (ℕ → Instant) → ReceiveRouter → Key → LoopbackTarget → ReceiveRouter
  unfolding deliver
  register nows r peer sink =
      let ingress = ingress_of r peer in
      deliver 0 nows (set_ingress r peer (record { sink = some sink; pending = [] })) sink
        ingress.pending

  unfoldable pub unregister : ReceiveRouter → Key → ReceiveRouter
  unregister r peer = record r { peers = remove ids peer r.peers }
