-- ===== src/IrohSidecar/Service/Interleaved.antt =====
-- Where the datagrams of iroh-sidecar/src/service.rs go while threads change the map and have events to
-- send.
use godot_network_audio.Common.{
  ℕ, zero, suc, ◌≡◌, refl, ap, sym, ◌∙◌, Bool, true, false, List, [], ◌∷◌, ◌++◌, arith, append-nil,
}
use godot_network_audio.IrohSidecar.Service.{
  Iroh, VoiceEvent, peer_connected, peer_replaced, peer_disconnected, packet_received,
  insert_connection, remove_connection,
}
use godot_network_audio.IrohSidecar.Service.Delivery.{
  Datagram, broadcast, broadcast-append, Delivers, quiet, receive-Delivers, Delivers-trans,
}
use godot_network_audio.IrohSidecar.Service.Races.{
  Threads, Move, inserts, removes, sends, hands_on, installs, pending, send_from, move, moves,
}
use godot_network_audio.IrohSidecar.Service.Orderly.{the, others, sent_lem}

module _ (i : Iroh) where
  open i use {Connection, remote_id}

  -- The datagrams that are handed on.
  abbrev pub read_in : List (Move i) → List (Datagram i)
  read_in [] = []
  read_in (hands_on peer bytes at ∷ ms) = (peer, bytes, at) ∷ read_in ms
  read_in (_ ∷ ms) = read_in ms

  -- No handler is installed.
  abbrev pub is_calm : List (Move i) → Bool
  is_calm [] = true
  is_calm (installs ∷ ms) = false
  is_calm (_ ∷ ms) = is_calm ms

  the-broadcast :
      (k : ℕ) (es : List (VoiceEvent i))
      → broadcast i es ≡ []
      → (broadcast i (the i k es) ≡ []) × (broadcast i (others i k es) ≡ [])
  the-broadcast k [] h = (refl, refl)
  the-broadcast zero (peer_connected p ∷ es) h = (refl, h)
  the-broadcast zero (peer_replaced p ∷ es) h = (refl, h)
  the-broadcast zero (peer_disconnected p ∷ es) h = (refl, h)
  the-broadcast zero (packet_received p bytes at ∷ es) h = absurd (cc h)
  the-broadcast (suc k) (peer_connected p ∷ es) h = the-broadcast k es h
  the-broadcast (suc k) (peer_replaced p ∷ es) h = the-broadcast k es h
  the-broadcast (suc k) (peer_disconnected p ∷ es) h = the-broadcast k es h
  the-broadcast (suc k) (packet_received p bytes at ∷ es) h = absurd (cc h)

  sent_kept :
      (k : ℕ) (es : List (VoiceEvent i)) (t : Threads i)
      → ((send_from i k es t).shared.packet_handler ≡ t.shared.packet_handler)
        × ((send_from i k es t).shared.handled ≡ t.shared.handled)
  sent_kept k [] t = (refl, refl)
  sent_kept zero (e ∷ es) t = (refl, refl)
  sent_kept (suc k) (e ∷ es) t = sent_kept k es t

  -- One move: what it delivers, and that no datagram waits to be sent.
  abbrev Moved : Bool → List (Datagram i) → Threads i → Threads i → Type 0
  Moved b ds t t' = Delivers i b ds t.shared t'.shared × (broadcast i t'.unsent ≡ [])

  move-Moved :
      (b : Bool) (t : Threads i) (m : Move i)
      → t.shared.packet_handler ≡ b
      → is_calm (m ∷ []) ≡ true
      → broadcast i t.unsent ≡ []
      → Moved b (read_in (m ∷ [])) t (move i t m)
  unfolding move insert_connection remove_connection
  move-Moved b t (inserts c) h ok w = (
    quiet i b t.shared (insert_connection i t.shared c).1 [] (ground (arith, h)) (ground arith)
        (ground (arith, append-nil t.shared.events)) refl,
    broadcast-append i t.unsent ((insert_connection i t.shared c).0 ∷ []) ∙ ground (arith, w),
  )
  move-Moved b t (removes p) h ok w = (
    quiet i b t.shared (remove_connection i t.shared p).1 [] (ground (arith, h)) (ground arith)
        (ground (arith, append-nil t.shared.events)) refl,
    broadcast-append i t.unsent (pending i (remove_connection i t.shared p).0) ∙ ground (arith, w),
  )
  move-Moved b t (sends k) h ok w =
      let (left, same, events) = sent_lem i k t.unsent t in
      let (handler, handled) = sent_kept k t.unsent t in
      let (sent, waits) = the-broadcast k t.unsent w in
      (
        quiet i b t.shared (send_from i k t.unsent t).shared (the i k t.unsent) (handler ∙ h)
            handled events sent,
        ap (broadcast i) left ∙ waits,
      )
  move-Moved b t (hands_on p bytes at) h ok w = (receive-Delivers i b t.shared p bytes at h, w)
  move-Moved b t installs h ok w = absurd (ground (arith, ok))

  calm_parts :
      (m : Move i) (ms : List (Move i))
      → is_calm (m ∷ ms) ≡ true
      → (is_calm (m ∷ []) ≡ true) × (is_calm ms ≡ true)
  calm_parts (inserts c) ms h = (refl, h)
  calm_parts (removes p) ms h = (refl, h)
  calm_parts (sends k) ms h = (refl, h)
  calm_parts (hands_on p bytes at) ms h = (refl, h)
  calm_parts installs ms h = absurd (ground (arith, h))

  read_in-cons :
      (m : Move i) (ms : List (Move i)) → read_in (m ∷ ms) ≡ read_in (m ∷ []) ++ read_in ms
  read_in-cons (inserts c) ms = refl
  read_in-cons (removes p) ms = refl
  read_in-cons (sends k) ms = refl
  read_in-cons (hands_on p bytes at) ms = refl
  read_in-cons installs ms = refl

  -- Each datagram that is handed on goes out once, in order, and one way only.
  pub moves-Delivers :
      (b : Bool) (t : Threads i) (ms : List (Move i))
      → t.shared.packet_handler ≡ b
      → is_calm ms ≡ true
      → broadcast i t.unsent ≡ []
      → Delivers i b (read_in ms) t.shared (moves i t ms).shared
  moves-Delivers b t [] h ok w =
      quiet i b t.shared t.shared [] h refl (sym (append-nil t.shared.events)) refl
  moves-Delivers b t (m ∷ ms) h ok w =
      let (one, all) = calm_parts m ms ok in
      let (first, waits) = move-Moved b t m h one w in
      let rest = moves-Delivers b (move i t m) ms first.still all waits in
      rw (read_in-cons m ms) (
        Delivers-trans i b (read_in (m ∷ [])) (read_in ms) t.shared (move i t m).shared
          (moves i t (m ∷ ms)).shared first rest)
