-- ===== src/Gdext/Router/Handover.antt =====
-- Packets that come before a stream is registered for their peer, in gdext/src/transport_iroh.rs.
use godot_network_audio.Common.{
  ℕ, ◌+◌, ◌%◌, ◌^◌, ◌≤◌, ◌≡◌, refl, sym, ap, ◌∙◌, Option, none, some, List, [], ◌∷◌, ◌++◌, length,
  drop, arith, append_assoc, append-nil, length-append, length-drop,
}
use godot_network_audio.Common.Bounded.{newest, newest_short, newest_step, newest-append}
use godot_network_audio.Common.Keys.{Keys, is_same_refl}
use godot_network_audio.VoiceCore.Float.{Floats}
use godot_network_audio.VoiceCore.Receiver.Jitter.{NetEq}
use godot_network_audio.Gdext.Stream.{
  Clock, QueuedPacket, SharedStreamState, enqueue_packet, enqueue_now, enqueue_from_epoch,
  local_time, now_mono_us, at_us,
}
use godot_network_audio.Gdext.Stream.Ingress.{receive_all}
use godot_network_audio.Gdext.Router.{
  LoopbackTarget, PendingPacket, ReceiveRouter, ingress_of, set_ingress, route, deliver, register,
  enqueued, enqueue_at_transport_time, pending_packets_per_peer,
}

module _ (f : Floats) (n : NetEq f.F32) (clock : Clock n.Instant) (ids : Keys) where
  open n use {Instant}
  open ids use {Key}

  -- Packets of one peer in turn, each with the clock's reading.
  abbrev pub routes :
      ReceiveRouter f n clock ids
      → Key
      → List (Instant × PendingPacket)
      → ReceiveRouter f n clock ids
  routes r peer [] = r
  routes r peer ((now, q) ∷ qs) = routes (route f n clock ids now r peer q) peer qs

  abbrev pub pending_of : List (Instant × PendingPacket) → List PendingPacket
  pending_of [] = []
  pending_of ((now, q) ∷ qs) = q ∷ pending_of qs

  -- Nobody plays the peer.
  pub record IsUnclaimed (r : ReceiveRouter f n clock ids) (peer : Key) : Type 0 where
    pub no_default : r.default_sink ≡ none
    pub no_sink : (ingress_of f n clock ids r peer).sink ≡ none
    pub bounded : length (ingress_of f n clock ids r peer).pending ≤ pending_packets_per_peer

  -- What waits after `qs` came.
  pub record Waits (r : ReceiveRouter f n clock ids) (peer : Key) (qs : List PendingPacket)
      (r' : ReceiveRouter f n clock ids) : Type 0 where
    pub pending :
        (ingress_of f n clock ids r' peer).pending
        ≡ newest pending_packets_per_peer ((ingress_of f n clock ids r peer).pending ++ qs)
    pub accounted :
        (r'.pending_drops + length (ingress_of f n clock ids r' peer).pending) % 2 ^ 64
        ≡ (r.pending_drops + length (ingress_of f n clock ids r peer).pending + length qs) % 2 ^ 64
    pub streams : r'.streams ≡ r.streams
    pub epoch : r'.transport_epoch ≡ r.transport_epoch
    pub unclaimed : IsUnclaimed r' peer

  route-Waits :
      (now : Instant) (r : ReceiveRouter f n clock ids) (peer : Key) (q : PendingPacket)
      → IsUnclaimed r peer
      → Waits r peer (q ∷ []) (route f n clock ids now r peer q)
  unfolding route
  route-Waits now r peer q u = ground (
    arith,
    is_same_refl ids peer,
    newest_short pending_packets_per_peer ((ingress_of f n clock ids r peer).pending ++ (q ∷ [])),
    newest_step pending_packets_per_peer (ingress_of f n clock ids r peer).pending q,
    length-append (ingress_of f n clock ids r peer).pending (q ∷ []),
    length-append (drop 1 (ingress_of f n clock ids r peer).pending) (q ∷ []),
    length-drop 1 (ingress_of f n clock ids r peer).pending,
  )

  routes-Waits :
      (r : ReceiveRouter f n clock ids) (peer : Key) (qs : List (Instant × PendingPacket))
      → IsUnclaimed r peer
      → Waits r peer (pending_of qs) (routes r peer qs)
  routes-Waits r peer [] u = record {
    pending = rw append-nil (
        sym (
          newest_short pending_packets_per_peer (ingress_of f n clock ids r peer).pending
            u.bounded));
    accounted = omega arith;
    streams = refl;
    epoch = refl;
    unclaimed = u;
  }
  routes-Waits r peer ((now, q) ∷ qs) u =
      let first = route-Waits now r peer q u in
      let rest = routes-Waits (route f n clock ids now r peer q) peer qs first.unclaimed in
      record {
        pending =
            rest.pending
            ∙ ap (λ l. newest pending_packets_per_peer (l ++ pending_of qs)) first.pending
            ∙ newest-append pending_packets_per_peer
                ((ingress_of f n clock ids r peer).pending ++ (q ∷ [])) (pending_of qs)
            ∙ ap (newest pending_packets_per_peer)
                (append_assoc (ingress_of f n clock ids r peer).pending (q ∷ []) (pending_of qs));
        accounted = omega (arith, rest.accounted, first.accounted);
        streams = rest.streams ∙ first.streams;
        epoch = rest.epoch ∙ first.epoch;
        unclaimed = rest.unclaimed;
      }

  -- When a packet counts as received, on the stream's own clock.
  pub arrival_time : Option Instant → SharedStreamState f n clock → Instant → PendingPacket → ℕ
  arrival_time none s now q = now_mono_us f n clock s now
  arrival_time (some epoch) s now q = local_time f n clock s q.received_at_mono_us epoch

  -- Packets as the stream takes them in, from the `i`-th reading of the clock on.
  abbrev pub stamped :
      ℕ
      → (ℕ → Instant)
      → Option Instant
      → SharedStreamState f n clock
      → List PendingPacket
      → List (Instant × QueuedPacket)
  stamped i nows epoch s [] = []
  stamped i nows epoch s (q ∷ qs) =
      (
        nows i,
        record { packet = q.packet; arrival = at_us f n clock (arrival_time epoch s (nows i) q) },
      )
      ∷ stamped (i + 1) nows epoch s qs

  enqueued_lem :
      (epoch : Option Instant) (s : SharedStreamState f n clock) (now : Instant) (q : PendingPacket)
      → enqueued f n clock ids epoch s now q
        ≡ (enqueue_packet f n clock s now q.packet (at_us f n clock (arrival_time epoch s now q))).1
  unfolding enqueued enqueue_now enqueue_from_epoch arrival_time now_mono_us local_time
  enqueued_lem none s now q = refl
  enqueued_lem (some epoch) s now q = refl

  same_arrival :
      (epoch : Option Instant) (s s' : SharedStreamState f n clock) (now : Instant)
      (q : PendingPacket)
      → s'.mono_epoch ≡ s.mono_epoch
      → arrival_time epoch s' now q ≡ arrival_time epoch s now q
  unfolding arrival_time now_mono_us local_time
  same_arrival none s s' now q e = rw e refl
  same_arrival (some epoch) s s' now q e = rw e refl

  same_stamped :
      (i : ℕ) (nows : ℕ → Instant) (epoch : Option Instant) (s s' : SharedStreamState f n clock)
      (qs : List PendingPacket)
      → s'.mono_epoch ≡ s.mono_epoch
      → stamped i nows epoch s' qs ≡ stamped i nows epoch s qs
  same_stamped i nows epoch s s' [] e = refl
  same_stamped i nows epoch s s' (q ∷ qs) e =
      rw (same_arrival epoch s s' (nows i) q e, same_stamped (i + 1) nows epoch s s' qs e) refl

  mono_epoch-enqueued :
      (epoch : Option Instant) (s : SharedStreamState f n clock) (now : Instant) (q : PendingPacket)
      → (enqueued f n clock ids epoch s now q).mono_epoch ≡ s.mono_epoch
  unfolding enqueue_packet
  mono_epoch-enqueued epoch s now q = rw (enqueued_lem epoch s now q) (ground arith)

  here :
      (now : Instant) (r : ReceiveRouter f n clock ids) (sink : LoopbackTarget) (q : PendingPacket)
      → (enqueue_at_transport_time f n clock ids now r sink q).streams sink
        ≡ enqueued f n clock ids r.transport_epoch (r.streams sink) now q
  unfolding enqueue_at_transport_time
  here now r sink q = ground arith

  epoch-enqueue :
      (now : Instant) (r : ReceiveRouter f n clock ids) (sink : LoopbackTarget) (q : PendingPacket)
      → (enqueue_at_transport_time f n clock ids now r sink q).transport_epoch ≡ r.transport_epoch
  unfolding enqueue_at_transport_time
  epoch-enqueue now r sink q = refl

  deliver-streams :
      (i : ℕ) (nows : ℕ → Instant) (r : ReceiveRouter f n clock ids) (sink : LoopbackTarget)
      (qs : List PendingPacket)
      → (deliver f n clock ids i nows r sink qs).streams sink
        ≡ receive_all f n clock
            (r.streams sink)
            (stamped i nows r.transport_epoch (r.streams sink) qs)
  unfolding deliver
  deliver-streams i nows r sink [] = refl
  deliver-streams i nows r sink (q ∷ qs) =
      let r' = enqueue_at_transport_time f n clock ids (nows i) r sink q in
      deliver-streams (i + 1) nows r' sink qs
      ∙ rw
          (
            epoch-enqueue (nows i) r sink q,
            here (nows i) r sink q,
            same_stamped (i + 1) nows r.transport_epoch (r.streams sink)
                (enqueued f n clock ids r.transport_epoch (r.streams sink) (nows i) q) qs
                (mono_epoch-enqueued r.transport_epoch (r.streams sink) (nows i) q),
            enqueued_lem r.transport_epoch (r.streams sink) (nows i) q,
          )
          refl

  -- What a stream is handed when it is registered.
  abbrev pub handed :
      (ℕ → Instant)
      → ReceiveRouter f n clock ids
      → Key
      → LoopbackTarget
      → List (Instant × PendingPacket)
      → List (Instant × QueuedPacket)
  handed nows r peer sink qs =
      stamped 0 nows r.transport_epoch (r.streams sink) (
        newest pending_packets_per_peer
          ((ingress_of f n clock ids r peer).pending ++ pending_of qs))

  -- Packets of a peer that nobody plays are kept until a stream is registered, which then takes in
  -- the newest 64 of them in the order in which they came, with their receive times on its own
  -- clock; the rest is counted as dropped (as a `u64`), and no stream saw any of them before.
  pub handover :
      (nows : ℕ → Instant) (r : ReceiveRouter f n clock ids) (peer : Key) (sink : LoopbackTarget)
      (qs : List (Instant × PendingPacket))
      → IsUnclaimed r peer
      → let r' = routes r peer qs in
        ((register f n clock ids nows r' peer sink).streams sink
          ≡ receive_all f n clock (r.streams sink) (handed nows r peer sink qs))
        × (r'.streams ≡ r.streams)
        × ((r'.pending_drops + length (ingress_of f n clock ids r' peer).pending) % 2 ^ 64
            ≡ (r.pending_drops
                + length (ingress_of f n clock ids r peer).pending
                + length (pending_of qs))
              % 2 ^ 64)
  unfolding register
  handover nows r peer sink qs u =
      let w = routes-Waits r peer qs u in
      (
        deliver-streams 0 nows
              (set_ingress f n clock ids (routes r peer qs) peer
                (record { sink = some sink; pending = [] }))
              sink (ingress_of f n clock ids (routes r peer qs) peer).pending
            ∙ rw (w.epoch, w.streams, w.pending) refl,
        w.streams,
        w.accounted,
      )
