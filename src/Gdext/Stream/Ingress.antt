-- ===== src/Gdext/Stream/Ingress.antt =====
-- The bounded ingress queue of gdext/src/stream.rs over any run of enqueued packets.
use godot_network_audio.Common.{
  ◌+◌, ◌%◌, ◌^◌, ◌≤◌, ◌≡◌, refl, sym, ap, ◌∙◌, Bool, true, List, [], ◌∷◌, ◌++◌, length, drop, arith,
  wrapping_add, append_assoc, append-nil, length-append, length-drop,
}
use godot_network_audio.Common.Bounded.{newest, newest_short, newest_step, newest-append}
use godot_network_audio.VoiceCore.Float.{Floats}
use godot_network_audio.VoiceCore.Receiver.Jitter.{NetEq}
use godot_network_audio.Gdext.Stream.{
  Clock, QueuedPacket, SharedStreamState, default_queue_capacity, enqueue_packet, deactivate,
}

module _ (f : Floats) (n : NetEq f.F32) (clock : Clock n.Instant) where
  open n use {Instant}

  -- What one enqueue does to an active stream.
  record Enqueued (s : SharedStreamState f n clock) (q : QueuedPacket)
      (r : Bool × SharedStreamState f n clock) : Type 0 where
    accepted : r.0 ≡ true
    queue : r.1.queue ≡ newest default_queue_capacity (s.queue ++ (q ∷ []))
    dropped :
        (r.1.enqueue.dropped_packets + length r.1.queue) % 2 ^ 64
        ≡ (s.enqueue.dropped_packets + length s.queue + 1) % 2 ^ 64
    counted : r.1.enqueue.enqueued_packets ≡ wrapping_add 64 s.enqueue.enqueued_packets 1
    active : r.1.active ≡ true
    bounded : length r.1.queue ≤ default_queue_capacity

  enqueue_packet-Enqueued :
      (s : SharedStreamState f n clock) (now : Instant) (q : QueuedPacket)
      → s.active ≡ true
      → length s.queue ≤ default_queue_capacity
      → Enqueued s q (enqueue_packet f n clock s now q.packet q.arrival)
  unfolding enqueue_packet
  enqueue_packet-Enqueued s now q on room = ground (
    arith,
    newest_short default_queue_capacity (s.queue ++ (q ∷ [])),
    newest_step default_queue_capacity s.queue q,
    length-append s.queue (q ∷ []),
    length-append (drop 1 s.queue) (q ∷ []),
    length-drop 1 s.queue,
  )

  -- Packets enqueued in turn, each with the instant of its call.
  abbrev pub receive_all :
      SharedStreamState f n clock → List (Instant × QueuedPacket) → SharedStreamState f n clock
  receive_all s [] = s
  receive_all s ((now, q) ∷ qs) =
      receive_all (enqueue_packet f n clock s now q.packet q.arrival).1 qs

  abbrev pub packets_of : List (Instant × QueuedPacket) → List QueuedPacket
  packets_of [] = []
  packets_of ((now, q) ∷ qs) = q ∷ packets_of qs

  -- What a run of enqueues does to an active stream.
  pub record Holds (s : SharedStreamState f n clock) (qs : List (Instant × QueuedPacket))
      (s' : SharedStreamState f n clock) : Type 0 where
    pub queue : s'.queue ≡ newest default_queue_capacity (s.queue ++ packets_of qs)
    pub accounted :
        (s'.enqueue.dropped_packets + length s'.queue) % 2 ^ 64
        ≡ (s.enqueue.dropped_packets + length s.queue + length qs) % 2 ^ 64
    pub counted :
        s'.enqueue.enqueued_packets % 2 ^ 64 ≡ (s.enqueue.enqueued_packets + length qs) % 2 ^ 64

  -- After any run of packets an active stream holds the newest 256 of what it held and what came,
  -- in order; and each packet that came was counted, and is queued or counted as dropped.
  pub receive_all-Holds :
      (s : SharedStreamState f n clock) (qs : List (Instant × QueuedPacket))
      → s.active ≡ true
      → length s.queue ≤ default_queue_capacity
      → Holds s qs (receive_all s qs)
  receive_all-Holds s [] on room = record {
    queue = rw append-nil (sym (newest_short default_queue_capacity s.queue room));
    accounted = omega arith;
    counted = omega arith;
  }
  receive_all-Holds s ((now, q) ∷ qs) on room =
      let first = enqueue_packet-Enqueued s now q on room in
      let s' = (enqueue_packet f n clock s now q.packet q.arrival).1 in
      let rest = receive_all-Holds s' qs first.active first.bounded in
      record {
        queue =
            rest.queue
            ∙ ap (λ l. newest default_queue_capacity (l ++ packets_of qs)) first.queue
            ∙ newest-append default_queue_capacity (s.queue ++ (q ∷ [])) (packets_of qs)
            ∙ ap (newest default_queue_capacity) (append_assoc s.queue (q ∷ []) (packets_of qs));
        accounted = omega (arith, rest.accounted, first.dropped);
        counted = omega (arith, rest.counted, first.counted);
      }

  -- A deactivated stream is empty, and every later packet is refused and changes nothing.
  deactivate_refuses :
      (s : SharedStreamState f n clock) (qs : List (Instant × QueuedPacket))
      → (receive_all (deactivate f n clock s) qs ≡ deactivate f n clock s)
        × ((deactivate f n clock s).queue ≡ [])
        × ((deactivate f n clock s).runtime.playout_paused ≡ true)
  unfolding deactivate enqueue_packet
  deactivate_refuses s [] = (refl, refl, refl)
  deactivate_refuses s ((now, q) ∷ qs) = deactivate_refuses s qs
