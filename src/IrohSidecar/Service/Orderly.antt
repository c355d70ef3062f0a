-- ===== src/IrohSidecar/Service/Orderly.antt =====
-- What the events of iroh-sidecar/src/service.rs tell of the map of connections where other threads come
-- between a change of the map and its event.
use godot_network_audio.Common.{
  ℕ, zero, suc, ◌≡◌, refl, ap, sym, ◌∙◌, subst, inl, inr, Bool, true, false, not, ◌&&◌, ◌||◌, some,
  List, [], ◌∷◌, ◌++◌, is_some, arith, Bool-cases, append-nil, append_assoc,
}
use godot_network_audio.IrohSidecar.Service.{
  Iroh, EndpointId, VoiceEvent, SharedState, peer_connected, peer_replaced, peer_disconnected,
  packet_received, insert_connection, remove_connection, receive, set_packet_handler,
}
use godot_network_audio.IrohSidecar.Service.Events.{
  after, Lives, over, next, one, Lives-append, is_about, touches, touches-append, is_here, Mirrors,
  is_here_same, stays,
}
use godot_network_audio.IrohSidecar.Service.Races.{
  Threads, Move, inserts, removes, sends, hands_on, installs, pending, send_from, move, moves,
}

module _ (i : Iroh) where
  open i use {ids, Connection, remote_id}

  -- A peer's entry is changed only when no event about the peer is still to be sent.
  abbrev pub is_orderly_move : Threads i → Move i → Bool
  is_orderly_move t (inserts c) = not (touches i (remote_id c) t.unsent)
  is_orderly_move t (removes peer) = not (touches i peer t.unsent)
  is_orderly_move t _ = true

  abbrev pub is_orderly : Threads i → List (Move i) → Bool
  is_orderly t [] = true
  is_orderly t (m ∷ ms) = is_orderly_move t m && is_orderly (move i t m) ms

  -- At most one of the events is about the peer.
  abbrev is_alone : EndpointId i → List (VoiceEvent i) → Bool
  is_alone peer [] = true
  is_alone peer (e ∷ es) = not (is_about i peer e && touches i peer es) && is_alone peer es

  is_alone-append :
      (peer : EndpointId i) (xs ys : List (VoiceEvent i))
      → is_alone peer xs ≡ true
      → is_alone peer ys ≡ true
      → touches i peer xs && touches i peer ys ≡ false
      → is_alone peer (xs ++ ys) ≡ true
  is_alone-append peer [] ys h k n = k
  is_alone-append peer (x ∷ xs) ys h k n =
      ground (arith, h, k, n, is_alone-append peer xs ys, touches-append i peer xs ys)

  -- The `k`-th event, if there is one, and the others.
  abbrev pub the : ℕ → List (VoiceEvent i) → List (VoiceEvent i)
  the k [] = []
  the zero (e ∷ es) = e ∷ []
  the (suc k) (e ∷ es) = the k es

  abbrev pub others : ℕ → List (VoiceEvent i) → List (VoiceEvent i)
  others k [] = []
  others zero (e ∷ es) = es
  others (suc k) (e ∷ es) = e ∷ others k es

  -- An event that is not about the peer changes nothing for it.
  after_other :
      (peer : EndpointId i) (b : Bool) (e : VoiceEvent i)
      → is_about i peer e ≡ false
      → after i peer b e ≡ some b
  after_other peer b (peer_connected p) h = ground (arith, h)
  after_other peer b (peer_replaced p) h = ground (arith, h)
  after_other peer b (peer_disconnected p) h = ground (arith, h)
  after_other peer b (packet_received p bytes at) h = refl

  touches-the :
      (peer : EndpointId i) (k : ℕ) (es : List (VoiceEvent i))
      → (touches i peer (the k es) || touches i peer (others k es)) ≡ touches i peer es
  touches-the peer k [] = refl
  touches-the peer zero (e ∷ es) = ground arith
  touches-the peer (suc k) (e ∷ es) = ground (arith, touches-the peer k es)

  others-is_alone :
      (peer : EndpointId i) (k : ℕ) (es : List (VoiceEvent i))
      → is_alone peer es ≡ true
      → is_alone peer (others k es) ≡ true
  others-is_alone peer k [] h = refl
  others-is_alone peer zero (e ∷ es) h = ground (arith, h)
  others-is_alone peer (suc k) (e ∷ es) h =
      ground (arith, h, others-is_alone peer k es, touches-the peer k es)

  quiet :
      (peer : EndpointId i) (b : Bool) (es : List (VoiceEvent i))
      → touches i peer es ≡ false
      → Lives i peer b es b
  quiet peer b [] h = over
  quiet peer b (e ∷ es) h =
      next (after_other peer b e (ground (arith, h))) (quiet peer b es (ground (arith, h)))

  pub quiet-Lives :
      {peer : EndpointId i} {b d : Bool} {es : List (VoiceEvent i)}
      → Lives i peer b es d
      → touches i peer es ≡ false
      → b ≡ d
  quiet-Lives over h = refl
  quiet-Lives {peer} (next {b} {c} {e = e} a l) h =
      let same : some b ≡ some c = sym (after_other peer b e (ground (arith, h))) ∙ a in
      let here : b ≡ c = ground (arith, same) in here ∙ quiet-Lives l (ground (arith, h))

  -- One of the events that wait may be sent first.
  sent_first :
      {peer : EndpointId i} {b d : Bool} (k : ℕ) (es : List (VoiceEvent i))
      → is_alone peer es ≡ true
      → Lives i peer b es d
      → (c : Bool) × Lives i peer b (the k es) c × Lives i peer c (others k es) d
  sent_first {peer} {b} k [] alone over = (b, over, over)
  sent_first zero (e ∷ es) alone (next {b} {c} a l) = (c, one i e a, l)
  sent_first {peer} (suc k) (e ∷ es) alone (next {b} {c} {d} a l) =
      let (m, first, rest) = sent_first k es (ground (arith, alone)) l in
      elim (Bool-cases (is_about i peer e)) [
        | inl about ↦
            let still : touches i peer (the k es) ≡ false =
              ground (arith, alone, about, touches-the peer k es) in
            (
              b,
              quiet peer b (the k es) still,
              next a (
                  subst (λ x. Lives i peer x (others k es) d) (sym (quiet-Lives first still)) rest),
            )
        | inr other ↦
            let same : some b ≡ some c = sym (after_other peer b e other) ∙ a in
            let here : c ≡ b = ground (arith, same) in
            (
              m,
              subst (λ x. Lives i peer x (the k es) m) here first,
              next (after_other peer m e other) rest,
            )
      ]

  -- What was sent since the start, and what is still to be sent: for every peer both are parts of its
  -- life cycle, one after the other.
  record Follows (s : SharedState i) (t : Threads i) : Type 0 where
    new : List (VoiceEvent i)
    middle : EndpointId i → Bool
    events : t.shared.events ≡ s.events ++ new
    told : (peer : EndpointId i) → Lives i peer (is_here i s peer) new (middle peer)
    waits : (peer : EndpointId i) → Lives i peer (middle peer) t.unsent (is_here i t.shared peer)
    alone : (peer : EndpointId i) → is_alone peer t.unsent ≡ true
    untouched :
        (peer : EndpointId i)
        → touches i peer new || touches i peer t.unsent ≡ false
        → t.shared.peers peer ≡ s.peers peer

  pub sent_lem :
      (k : ℕ) (es : List (VoiceEvent i)) (t : Threads i)
      → let t' = send_from i k es t in
        (t'.unsent ≡ others k es)
        × (t'.shared.peers ≡ t.shared.peers)
        × (t'.shared.events ≡ t.shared.events ++ the k es)
  sent_lem k [] t = (refl, refl, sym (append-nil t.shared.events))
  sent_lem zero (e ∷ es) t = (refl, refl, refl)
  sent_lem (suc k) (e ∷ es) t = let (a, b, c) = sent_lem k es t in (ap (◌∷◌ e) a, b, c)

  -- The events of a change of the map, of which none or one tells.
  record Changes (s s' : SharedState i) (p : EndpointId i) (es : List (VoiceEvent i)) : Type 0 where
    same_events : s'.events ≡ s.events
    lives : (peer : EndpointId i) → Lives i peer (is_here i s peer) es (is_here i s' peer)
    about : (peer : EndpointId i) → touches i peer es ≡ true → peer ≡ p
    kept : (peer : EndpointId i) → touches i peer es ≡ false → s'.peers peer ≡ s.peers peer
    at_most_one : (peer : EndpointId i) → is_alone peer es ≡ true

  insert-Changes :
      (s : SharedState i) (c : Connection)
      → let (e, s') = insert_connection i s c in Changes s s' (remote_id c) (e ∷ [])
  unfolding insert_connection
  insert-Changes s c = record {
    same_events = ground arith;
    lives = λ peer.
        one i (insert_connection i s c).0 (ground (arith, is_here_same i s (remote_id c) peer));
    about = λ peer h. sym ((ids.is_same_iff (remote_id c) peer).0 (ground (arith, h)));
    kept = λ peer h. ground (arith, h);
    at_most_one = λ peer. ground arith;
  }

  remove-Changes :
      (s : SharedState i) (p : EndpointId i)
      → let (e, s') = remove_connection i s p in Changes s s' p (pending i e)
  unfolding remove_connection
  remove-Changes s p = elim (Bool-cases (is_here i s p)) [
    | inl here ↦ rw here (record {
      same_events = refl;
      lives = λ peer. one i (peer_disconnected p) (ground (arith, here, is_here_same i s p peer));
      about = λ peer h. sym ((ids.is_same_iff p peer).0 (ground (arith, h)));
      kept = λ peer h. ground (arith, h);
      at_most_one = λ peer. ground arith;
    })
    | inr gone ↦ rw gone (record {
      same_events = refl;
      lives = λ peer. stays i (ground (arith, gone, is_here_same i s p peer));
      about = λ peer h. absurd (ground (arith, h));
      kept = λ peer h. ground (arith, gone, is_here_same i s p peer);
      at_most_one = λ peer. refl;
    })
  ]

  change-Follows :
      (s s' : SharedState i) (t : Threads i) (p : EndpointId i) (es : List (VoiceEvent i))
      → Follows s t
      → Changes t.shared s' p es
      → touches i p t.unsent ≡ false
      → Follows s (record { shared = s'; unsent = t.unsent ++ es })
  change-Follows s s' t p es h c free = record {
    new = h.new;
    middle = h.middle;
    events = c.same_events ∙ h.events;
    told = h.told;
    waits = λ peer. Lives-append i (h.waits peer) (c.lives peer);
    alone = λ peer.
        is_alone-append peer t.unsent es (h.alone peer) (c.at_most_one peer)
          (elim (Bool-cases (touches i peer es)) [
            | inl hit ↦ ground (arith, ap (λ q. touches i q t.unsent) (c.about peer hit) ∙ free)
            | inr missed ↦ ground (arith, missed)
          ]);
    untouched = λ peer none_about.
        c.kept peer (ground (arith, none_about, touches-append i peer t.unsent es))
        ∙ h.untouched peer (ground (arith, none_about, touches-append i peer t.unsent es));
  }

  -- Datagrams and the handler leave the map alone.
  received :
      (s : SharedState i) (p : EndpointId i) (bytes : List ℕ) (at : ℕ)
      → let s' = receive i s p bytes at in
        (new : List (VoiceEvent i)) × (s'.peers ≡ s.peers)
        × (s'.events ≡ s.events ++ new)
        × ((peer : EndpointId i) → touches i peer new ≡ false)
  unfolding receive
  received s p bytes at = elim (Bool-cases s.packet_handler) [
    | inl direct ↦ rw direct ([], refl, sym (append-nil s.events), λ peer. refl)
    | inr queued ↦ rw queued (packet_received p bytes at ∷ [], refl, refl, λ peer. refl)
  ]

  told-Follows :
      (s s' : SharedState i) (t : Threads i) (es : List (VoiceEvent i))
      → Follows s t
      → s'.peers ≡ t.shared.peers
      → s'.events ≡ t.shared.events ++ es
      → ((peer : EndpointId i) → touches i peer es ≡ false)
      → Follows s (record t { shared = s' })
  told-Follows s s' t es h same events nobody = record {
    new = h.new ++ es;
    middle = h.middle;
    events = events ∙ ap (λ xs. xs ++ es) h.events ∙ append_assoc s.events h.new es;
    told = λ peer. Lives-append i (h.told peer) (quiet peer (h.middle peer) es (nobody peer));
    waits = λ peer.
        subst (λ m. Lives i peer (h.middle peer) t.unsent (is_some (m peer))) (sym same)
          (h.waits peer);
    alone = h.alone;
    untouched = λ peer n.
        ap (λ m. m peer) same
        ∙ h.untouched peer (ground (arith, n, touches-append i peer h.new es));
  }

  sends-Follows :
      (s : SharedState i) (t : Threads i) (k : ℕ)
      → Follows s t
      → Follows s (send_from i k t.unsent t)
  sends-Follows s t k h =
      let es = the k t.unsent in
      let (left, same, events) = sent_lem k t.unsent t in
      let first = λ (peer : EndpointId i). sent_first k t.unsent (h.alone peer) (h.waits peer) in
      record {
        new = h.new ++ es;
        middle = λ peer. (first peer).0;
        events = events ∙ ap (λ xs. xs ++ es) h.events ∙ append_assoc s.events h.new es;
        told = λ peer. Lives-append i (h.told peer) (first peer).1;
        waits = λ peer.
            subst
              (λ us.
                Lives i peer (first peer).0 us (is_here i (send_from i k t.unsent t).shared peer))
              (sym left)
              (subst (λ m. Lives i peer (first peer).0 (others k t.unsent) (is_some (m peer)))
                (sym same) (first peer).2);
        alone = λ peer. ap (is_alone peer) left ∙ others-is_alone peer k t.unsent (h.alone peer);
        untouched = λ peer n.
            ap (λ m. m peer) same
            ∙ h.untouched peer (
                ground (
                  arith,
                  n,
                  ap (touches i peer) left,
                  touches-append i peer h.new es,
                  touches-the peer k t.unsent,
                ));
      }

  move-Follows :
      (s : SharedState i) (t : Threads i) (m : Move i)
      → Follows s t
      → is_orderly_move t m ≡ true
      → Follows s (move i t m)
  unfolding move set_packet_handler
  move-Follows s t (inserts c) h o =
      change-Follows s (insert_connection i t.shared c).1 t (remote_id c)
        ((insert_connection i t.shared c).0 ∷ []) h (insert-Changes t.shared c) (ground (arith, o))
  move-Follows s t (removes p) h o =
      change-Follows s (remove_connection i t.shared p).1 t p
        (pending i (remove_connection i t.shared p).0) h (remove-Changes t.shared p)
        (ground (arith, o))
  move-Follows s t (sends k) h o = sends-Follows s t k h
  move-Follows s t (hands_on p bytes at) h o =
      let (new, same, events, nobody) = received t.shared p bytes at in
      told-Follows s (receive i t.shared p bytes at) t new h same events nobody
  move-Follows s t installs h o =
      told-Follows s (set_packet_handler i t.shared) t [] h refl (sym (append-nil t.shared.events))
        (λ peer. refl)

  moves-Follows :
      (s : SharedState i) (t : Threads i) (ms : List (Move i))
      → Follows s t
      → is_orderly t ms ≡ true
      → Follows s (moves i t ms)
  moves-Follows s t [] h o = h
  moves-Follows s t (m ∷ ms) h o =
      moves-Follows s (move i t m) ms (move-Follows s t m h (ground (arith, o))) (ground (arith, o))

  -- However the threads of a service change its map, send the events of their changes and hand on
  -- datagrams, so long as none calls `disconnect` and none changes a peer's entry while an event about
  -- that peer is still to be sent: once every event is sent, those that were broadcast follow the life
  -- cycle of every peer, which connects only when absent, and is replaced or disconnects only when
  -- present; they tell at the end whether the map holds a connection to the peer; and the connection of
  -- a peer that no event is about is unchanged.
  pub moves-Mirrors :
      (t : Threads i) (ms : List (Move i))
      → t.unsent ≡ []
      → is_orderly t ms ≡ true
      → (moves i t ms).unsent ≡ []
      → Mirrors i t.shared (moves i t ms).shared
  moves-Mirrors t ms none_waits orderly all_sent =
      let begin : Follows t.shared t = record {
        new = [];
        middle = is_here i t.shared;
        events = sym (append-nil t.shared.events);
        told = λ peer. over;
        waits = λ peer.
            subst (λ es. Lives i peer (is_here i t.shared peer) es (is_here i t.shared peer))
              (sym none_waits) over;
        alone = λ peer. ap (is_alone peer) none_waits;
        untouched = λ peer n. refl;
      } in
      let h = moves-Follows t.shared t ms begin orderly in
      record {
        new = h.new;
        events = h.events;
        lives = λ peer.
            subst (Lives i peer (is_here i t.shared peer) h.new)
              (quiet-Lives (h.waits peer) (ap (touches i peer) all_sent)) (h.told peer);
        untouched = λ peer n. h.untouched peer (ground (arith, n, ap (touches i peer) all_sent));
      }
