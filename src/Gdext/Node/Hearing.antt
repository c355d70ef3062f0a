-- ===== src/Gdext/Node/Hearing.antt =====
-- Datagrams of many peers at the direct handler of gdext/src/transport_iroh.rs, down to the queue of one
-- peer's stream.
pub mod Speech
use godot_network_audio.Common.{
  ℕ, zero, suc, ◌+◌, ◌-◌, ◌%◌, ◌^◌, ◌≤◌, ◌≡◌, refl, sym, ap, ◌∙◌, subst, inl, inr, Bool, true,
  false, Option, none, some, List, [], ◌∷◌, ◌++◌, map, length, drop, if◌then◌else◌, All, arith,
  Bool-cases, length-map,
}
use godot_network_audio.Common.Bounded.{newest}
use godot_network_audio.VoiceCore.Error.{Error, Result, ok, err, Result-cases}
use godot_network_audio.VoiceCore.Float.{Floats}
use godot_network_audio.VoiceCore.Packet.{
  VoicePacket, PacketArrival, IsValid, to_bytes, decode_from_bytes,
}
use godot_network_audio.VoiceCore.Packet.Wire.{decode-to_bytes}
use godot_network_audio.VoiceCore.Receiver.Jitter.{NetEq}
use godot_network_audio.Gdext.Stream.{
  Clock, QueuedPacket, SharedStreamState, default_queue_capacity, enqueue_packet, enqueue_now,
  enqueue_from_epoch, local_time, now_mono_us, at_us,
}
use godot_network_audio.Gdext.Stream.Ingress.{receive_all, packets_of, Holds, receive_all-Holds}
use godot_network_audio.Gdext.Router.{
  LoopbackTarget, PendingPacket, route, enqueued, enqueue_at_transport_time,
}
use godot_network_audio.IrohSidecar.Service.{Iroh, EndpointId}
use godot_network_audio.Gdext.Node.{handle_packet}
use godot_network_audio.Gdext.Node.Streams.{Node, IsWired, sink_of, same_ingress}
use godot_network_audio.Gdext.Node.Wiring.{packet-IsWired}

module _ (f : Floats) (n : NetEq f.F32) (clock : Clock n.Instant) (i : Iroh) where
  open n use {Instant}
  open i use {ids}

  -- A datagram as the handler gets it, with the reading of the clock at its enqueue.
  pub record Datagram : Type 0 where
    pub now : Instant
    pub peer : EndpointId i
    pub bytes : List ℕ
    pub at : ℕ

  abbrev pub hear : Node f n clock i → Datagram → Node f n clock i
  hear m d = handle_packet f n clock i d.now d.peer d.bytes d.at m

  abbrev pub hears : Node f n clock i → List Datagram → Node f n clock i
  hears m [] = m
  hears m (d ∷ ds) = hears (hear m d) ds

  -- The arrival time that a packet is given, for a stream with the epoch of `s`.
  pub arrival_of : Option Instant → SharedStreamState f n clock → Datagram → PacketArrival
  arrival_of none s d = at_us f n clock (now_mono_us f n clock s d.now)
  arrival_of (some epoch) s d = at_us f n clock (local_time f n clock s d.at epoch)

  -- What a datagram adds to a run of enqueues, if it is read as a packet.
  abbrev pub arrives_as :
      Option Instant
      → SharedStreamState f n clock
      → Datagram
      → Result VoicePacket
      → List (Instant × QueuedPacket)
      → List (Instant × QueuedPacket)
  arrives_as epoch s d (err e) rest = rest
  arrives_as epoch s d (ok p) rest =
      (d.now, record { packet = p; arrival = arrival_of epoch s d }) ∷ rest

  -- The datagrams of one peer that are read as packets, in order.
  pub arrivals :
      Option Instant
      → SharedStreamState f n clock
      → EndpointId i
      → List Datagram
      → List (Instant × QueuedPacket)
  arrivals epoch s peer [] = []
  arrivals epoch s peer (d ∷ ds) =
      let rest = arrivals epoch s peer ds in
      if ids.is_same d.peer peer
      then arrives_as epoch s d (decode_from_bytes d.bytes) rest
      else rest

  mono-enqueue :
      (s : SharedStreamState f n clock) (now : Instant) (p : VoicePacket) (a : PacketArrival)
      → (enqueue_packet f n clock s now p a).1.mono_epoch ≡ s.mono_epoch
  unfolding enqueue_packet
  mono-enqueue s now p a = ground arith

  enqueued_lem :
      (epoch : Option Instant) (s s' : SharedStreamState f n clock) (d : Datagram) (p : VoicePacket)
      → s'.mono_epoch ≡ s.mono_epoch
      → enqueued f n clock ids epoch s' d.now (record { packet = p; received_at_mono_us = d.at })
        ≡ (enqueue_packet f n clock s' d.now p (arrival_of epoch s d)).1
  unfolding enqueued arrival_of enqueue_now enqueue_from_epoch local_time now_mono_us
  enqueued_lem none s s' d p e = ground (arith, e)
  enqueued_lem (some epoch) s s' d p e = ground (arith, e)

  module _ (peer : EndpointId i) (stream : LoopbackTarget) where
    foreign_lem :
        (m : Node f n clock i) (d : Datagram)
        → IsWired f n clock i m
        → m.receive_router.default_sink ≡ none
        → m.receive_streams peer ≡ some stream
        → ids.is_same d.peer peer ≡ false
        → (hear m d).receive_router.streams stream ≡ m.receive_router.streams stream
    unfolding handle_packet route enqueue_at_transport_time sink_of
    foreign_lem m d w alone has differ =
        ground (arith, alone, differ, w.own peer stream has, w.apart d.peer peer stream)

    own_lem :
        (m : Node f n clock i) (d : Datagram) (p : VoicePacket)
        → IsWired f n clock i m
        → m.receive_router.default_sink ≡ none
        → m.receive_streams peer ≡ some stream
        → ids.is_same d.peer peer ≡ true
        → decode_from_bytes d.bytes ≡ ok p
        → (hear m d).receive_router.streams stream
          ≡ enqueued f n clock ids m.receive_router.transport_epoch
              (m.receive_router.streams stream)
              d.now
              (record { packet = p; received_at_mono_us = d.at })
    unfolding handle_packet route enqueue_at_transport_time sink_of
    own_lem m d p w alone has same read = ground (
      arith,
      alone,
      read,
      w.own peer stream has,
      same_ingress f n clock i m.receive_router d.peer peer,
    )

    unread_lem :
        (m : Node f n clock i) (d : Datagram) (e : Error)
        → decode_from_bytes d.bytes ≡ err e
        → (hear m d).receive_router.streams stream ≡ m.receive_router.streams stream
    unfolding handle_packet
    unread_lem m d e h = ground (arith, h)

    -- What the run goes by, from one datagram to the next.
    pub record IsHeard (epoch : Option Instant) (m : Node f n clock i) : Type 0 where
      pub wired : IsWired f n clock i m
      pub alone : m.receive_router.default_sink ≡ none
      pub has : m.receive_streams peer ≡ some stream
      pub in_epoch : m.receive_router.transport_epoch ≡ epoch

    hear-kept :
        (m : Node f n clock i) (d : Datagram)
        → ((hear m d).receive_router.default_sink ≡ m.receive_router.default_sink)
          × ((hear m d).receive_router.transport_epoch ≡ m.receive_router.transport_epoch)
          × ((hear m d).receive_streams peer ≡ m.receive_streams peer)
    unfolding handle_packet route enqueue_at_transport_time
    hear-kept m d = ground arith

    pub hear-IsHeard :
        {epoch : Option Instant} (m : Node f n clock i) (d : Datagram)
        → IsHeard epoch m
        → IsHeard epoch (hear m d)
    hear-IsHeard m d h =
        let k = hear-kept m d in
        record {
          wired = packet-IsWired f n clock i d.now d.peer d.bytes d.at m h.wired;
          alone = k.0 ∙ h.alone;
          has = k.2 ∙ h.has;
          in_epoch = k.1 ∙ h.in_epoch;
        }

    -- One datagram is one enqueue into the peer's stream, or none.
    hear_step :
        (epoch : Option Instant) (s : SharedStreamState f n clock) (m : Node f n clock i)
        (d : Datagram)
        → IsHeard epoch m
        → (m.receive_router.streams stream).mono_epoch ≡ s.mono_epoch
        → (hear m d).receive_router.streams stream
          ≡ receive_all f n clock (m.receive_router.streams stream) (arrivals epoch s peer (d ∷ []))
    unfolding arrivals
    hear_step epoch s m d h e = elim (Bool-cases (ids.is_same d.peer peer)) [
      | inr differ ↦ ground (arith, differ, foreign_lem m d h.wired h.alone h.has differ)
      | inl same ↦ elim (Result-cases (decode_from_bytes d.bytes)) [
        | inr (reason, unread) ↦ ground (arith, same, unread, unread_lem m d reason unread)
        | inl (p, read) ↦
            let q : PendingPacket = record { packet = p; received_at_mono_us = d.at } in
            let to = m.receive_router.streams stream in
            let one : arrivals epoch s peer (d ∷ [])
                ≡ (d.now, record { packet = p; arrival = arrival_of epoch s d }) ∷ [] =
              ground (arith, same, read) in
            rw one (
              own_lem m d p h.wired h.alone h.has same read
              ∙ ap (λ ep. enqueued f n clock ids ep to d.now q) h.in_epoch
              ∙ enqueued_lem epoch s to d p e)
      ]
    ]

    mono-receive :
        (s : SharedStreamState f n clock) (qs : List (Instant × QueuedPacket))
        → (receive_all f n clock s qs).mono_epoch ≡ s.mono_epoch
    mono-receive s [] = refl
    mono-receive s ((now, q) ∷ qs) =
        mono-receive (enqueue_packet f n clock s now q.packet q.arrival).1 qs
        ∙ mono-enqueue s now q.packet q.arrival

    receive-append :
        (s : SharedStreamState f n clock) (xs ys : List (Instant × QueuedPacket))
        → receive_all f n clock s (xs ++ ys) ≡ receive_all f n clock (receive_all f n clock s xs) ys
    receive-append s [] ys = refl
    receive-append s ((now, q) ∷ xs) ys =
        receive-append (enqueue_packet f n clock s now q.packet q.arrival).1 xs ys

    arrivals_cons :
        (epoch : Option Instant) (s : SharedStreamState f n clock) (d : Datagram)
        (ds : List Datagram)
        → arrivals epoch s peer (d ∷ ds)
          ≡ arrivals epoch s peer (d ∷ []) ++ arrivals epoch s peer ds
    unfolding arrivals
    arrivals_cons epoch s d ds = ground arith

    -- A run of datagrams, of whatever peers, is for the peer's stream a run of enqueues.
    pub hears_lem :
        (epoch : Option Instant) (s : SharedStreamState f n clock) (m : Node f n clock i)
        (ds : List Datagram)
        → IsHeard epoch m
        → (m.receive_router.streams stream).mono_epoch ≡ s.mono_epoch
        → (hears m ds).receive_router.streams stream
          ≡ receive_all f n clock (m.receive_router.streams stream) (arrivals epoch s peer ds)
    unfolding arrivals
    hears_lem epoch s m [] h e = refl
    hears_lem epoch s m (d ∷ ds) h e =
        let first = hear_step epoch s m d h e in
        let now = arrivals epoch s peer (d ∷ []) in
        let later = arrivals epoch s peer ds in
        let to = m.receive_router.streams stream in
        hears_lem epoch s (hear m d) ds (hear-IsHeard m d h)
          (ap (λ (x : SharedStreamState f n clock). x.mono_epoch) first ∙ mono-receive to now ∙ e)
        ∙ ap (λ (x : SharedStreamState f n clock). receive_all f n clock x later) first
        ∙ sym (receive-append to now later)
        ∙ ap (receive_all f n clock to) (sym (arrivals_cons epoch s d ds))
