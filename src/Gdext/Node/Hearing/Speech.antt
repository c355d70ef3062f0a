-- ===== src/Gdext/Node/Hearing/Speech.antt =====
-- What a peer said, from its encoder of voice-core/src/encoder.rs to the queue of its stream behind the
-- direct handler of gdext/src/transport_iroh.rs.
use godot_network_audio.Common.{
  ℕ, ◌+◌, ◌-◌, ◌%◌, ◌^◌, ◌≤◌, ◌≡◌, refl, sym, ap, ◌∙◌, subst, inl, inr, true, Option, none, some,
  List, [], ◌∷◌, ◌++◌, map, length, drop, zero, suc, if◌then◌else◌, All, arith, Bool-cases,
  length-map,
}
use godot_network_audio.Common.Bounded.{newest}
use godot_network_audio.Common.Run.{done}
use godot_network_audio.VoiceCore.Error.{Result, ok, err, Result-cases}
use godot_network_audio.VoiceCore.Float.{Floats}
use godot_network_audio.VoiceCore.Packet.{VoicePacket, to_bytes, decode_from_bytes}
use godot_network_audio.VoiceCore.Packet.Wire.{decode-to_bytes}
use godot_network_audio.VoiceCore.Encoder.{OpusEncoder, VoiceEncoder}
use godot_network_audio.VoiceCore.Encoder.Speech.{Call, run, IsSameRate}
use godot_network_audio.VoiceCore.Encoder.Range.{Fits, WritesBytes, InRange, run-Emits}
use godot_network_audio.VoiceCore.Receiver.Jitter.{NetEq}
use godot_network_audio.Gdext.Stream.{
  Clock, QueuedPacket, SharedStreamState, default_queue_capacity,
}
use godot_network_audio.Gdext.Stream.Ingress.{packets_of, Holds, receive_all-Holds}
use godot_network_audio.Gdext.Router.{LoopbackTarget}
use godot_network_audio.IrohSidecar.Service.{Iroh, EndpointId}
use godot_network_audio.Gdext.Node.Streams.{Node, IsWired}
use godot_network_audio.Gdext.Node.Hearing.{Datagram, hears, arrivals, hears_lem}

-- The newest of a list that is mapped.
module _ {A B : Type 0} (g : A → B) where
  drop-map : (k : ℕ) (xs : List A) → drop k (map g xs) ≡ map g (drop k xs)
  drop-map zero xs = refl
  drop-map (suc k) [] = refl
  drop-map (suc k) (x ∷ xs) = drop-map k xs

  newest-map : (size : ℕ) (xs : List A) → newest size (map g xs) ≡ map g (newest size xs)
  newest-map size xs =
      let e : length (map g xs) - size ≡ length xs - size = omega (arith, length-map xs g) in
      rw e (drop-map (length xs - size) xs)

  map_append : (xs ys : List A) → map g (xs ++ ys) ≡ map g xs ++ map g ys
  map_append [] ys = refl
  map_append (x ∷ xs) ys = ap (◌∷◌ (g x)) (map_append xs ys)

abbrev pub packets : List QueuedPacket → List VoicePacket
packets = map (λ (q : QueuedPacket). q.packet)

module _ (f : Floats) (n : NetEq f.F32) (clock : Clock n.Instant) (i : Iroh) where
  open n use {Instant}
  open i use {ids}

  -- The datagrams of one peer, and what they are read as.
  unfoldable pub bytes_from : EndpointId i → List (Datagram f n clock i) → List (List ℕ)
  bytes_from peer [] = []
  bytes_from peer (d ∷ ds) =
      let rest = bytes_from peer ds in if ids.is_same d.peer peer then d.bytes ∷ rest else rest

  abbrev pub kept : Result VoicePacket → List VoicePacket → List VoicePacket
  kept (err e) ps = ps
  kept (ok p) ps = p ∷ ps

  abbrev pub readable : List (List ℕ) → List VoicePacket
  readable [] = []
  readable (bytes ∷ more) = kept (decode_from_bytes bytes) (readable more)

  module _ (peer : EndpointId i) where
    packets-arrivals :
        (epoch : Option Instant) (s : SharedStreamState f n clock)
        (ds : List (Datagram f n clock i))
        → packets (packets_of f n clock (arrivals f n clock i epoch s peer ds))
          ≡ readable (bytes_from peer ds)
    unfolding arrivals bytes_from
    packets-arrivals epoch s [] = refl
    packets-arrivals epoch s (d ∷ ds) = elim (Bool-cases (ids.is_same d.peer peer)) [
      | inr differ ↦ ground (arith, differ, packets-arrivals epoch s ds)
      | inl same ↦ elim (Result-cases (decode_from_bytes d.bytes)) [
        | inr (e, unread) ↦ ground (arith, same, unread, packets-arrivals epoch s ds)
        | inl (p, read) ↦ ground (arith, same, read, packets-arrivals epoch s ds)
      ]
    ]

    length-packets_of :
        (qs : List (Instant × QueuedPacket))
        → length qs ≡ length (packets (packets_of f n clock qs))
    length-packets_of [] = refl
    length-packets_of ((now, q) ∷ qs) = ap suc (length-packets_of qs)

    -- What a run of datagrams makes of the peer's stream.
    pub record Hears (ds : List (Datagram f n clock i)) (s s' : SharedStreamState f n clock)
        : Type 0 where
      pub queued :
          packets s'.queue
          ≡ newest default_queue_capacity (packets s.queue ++ readable (bytes_from peer ds))
      pub accounted :
          (s'.enqueue.dropped_packets + length s'.queue) % 2 ^ 64
          ≡ (s.enqueue.dropped_packets + length s.queue + length (readable (bytes_from peer ds)))
            % 2 ^ 64
      pub counted :
          s'.enqueue.enqueued_packets % 2 ^ 64
          ≡ (s.enqueue.enqueued_packets + length (readable (bytes_from peer ds))) % 2 ^ 64

    Holds-Hears :
        (epoch : Option Instant) (s : SharedStreamState f n clock)
        (ds : List (Datagram f n clock i)) (s' : SharedStreamState f n clock)
        → Holds f n clock s (arrivals f n clock i epoch s peer ds) s'
        → Hears ds s s'
    Holds-Hears epoch s ds s' h =
        let qs = arrivals f n clock i epoch s peer ds in
        let new = packets-arrivals epoch s ds in
        let many : length qs ≡ length (readable (bytes_from peer ds)) =
          length-packets_of qs ∙ ap length new in
        record {
          queued =
              ap packets h.queue
              ∙ sym (
                  newest-map (λ (q : QueuedPacket). q.packet) default_queue_capacity
                    (s.queue ++ packets_of f n clock qs))
              ∙ ap (newest default_queue_capacity) (
                  map_append (λ (q : QueuedPacket). q.packet) s.queue (packets_of f n clock qs)
                  ∙ ap (λ (l : List VoicePacket). packets s.queue ++ l) new);
          accounted = omega (arith, h.accounted, many);
          counted = omega (arith, h.counted, many);
        }

    -- After any run of datagrams of whatever peers at the direct handler, the active stream of a peer
    -- holds the newest 256 of the packets that it held and of those that the peer's own datagrams are
    -- read as, in order, so long as no stream is set for all the peers. Each of those was counted,
    -- and is queued or counted as dropped; datagrams of other peers, and those that are not packets,
    -- add nothing.
    pub hears-Hears :
        (m : Node f n clock i) (stream : LoopbackTarget) (ds : List (Datagram f n clock i))
        → IsWired f n clock i m
        → m.receive_router.default_sink ≡ none
        → m.receive_streams peer ≡ some stream
        → (m.receive_router.streams stream).active ≡ true
        → length (m.receive_router.streams stream).queue ≤ default_queue_capacity
        → Hears ds
            (m.receive_router.streams stream)
            ((hears f n clock i m ds).receive_router.streams stream)
    hears-Hears m stream ds w alone has on room =
        let s = m.receive_router.streams stream in
        let epoch = m.receive_router.transport_epoch in
        Holds-Hears epoch s ds ((hears f n clock i m ds).receive_router.streams stream) (
          subst (Holds f n clock s (arrivals f n clock i epoch s peer ds))
            (sym (
              hears_lem f n clock i peer stream epoch s m ds
                (record { wired = w; alone = alone; has = has; in_epoch = refl }) refl))
            (receive_all-Holds f n clock s (arrivals f n clock i epoch s peer ds) on room))

    readable-to_bytes : (ps : List VoicePacket) → All Fits ps → readable (map to_bytes ps) ≡ ps
    readable-to_bytes [] h = refl
    readable-to_bytes (p ∷ ps) h = ground (arith, decode-to_bytes p h.0.0, readable-to_bytes ps h.1)

    -- If the bytes that Opus writes are bytes in the buffer that it is given: what a peer's encoder
    -- returned in a run of pushes, polls, ends of talkspurts and dropped capture frames at 48 kHz from a
    -- clock in range, and the network then brought in full and in order among whatever else, is in the
    -- queue of the peer's stream, if that is active and no stream is set for all the peers: its newest
    -- 256 packets, after what was there before.
    pub spoken_is_queued :
        (o : OpusEncoder f.F32) (fuel : ℕ) (e e' : VoiceEncoder f o) (cs : List (Call f.F32))
        (ps : List VoicePacket) (m : Node f n clock i) (stream : LoopbackTarget)
        (ds : List (Datagram f n clock i))
        → WritesBytes f o
        → IsSameRate f o e
        → InRange f o e
        → run f o fuel e cs ≡ done (e', ps)
        → bytes_from peer ds ≡ map to_bytes ps
        → IsWired f n clock i m
        → m.receive_router.default_sink ≡ none
        → m.receive_streams peer ≡ some stream
        → (m.receive_router.streams stream).active ≡ true
        → length (m.receive_router.streams stream).queue ≤ default_queue_capacity
        → packets ((hears f n clock i m ds).receive_router.streams stream).queue
          ≡ newest default_queue_capacity (packets (m.receive_router.streams stream).queue ++ ps)
    spoken_is_queued o fuel e e' cs ps m stream ds writes rate range ran brought w alone has on
          room =
        let t = run-Emits f o writes fuel e cs rate range in
        let same : t.packets ≡ ps = ground (arith, t.returns, ran) in
        (hears-Hears m stream ds w alone has on room).queued
        ∙ ap
            (λ (l : List VoicePacket).
              newest default_queue_capacity (packets (m.receive_router.streams stream).queue ++ l))
            (ap readable brought ∙ readable-to_bytes ps (subst (All Fits) same t.fit))
