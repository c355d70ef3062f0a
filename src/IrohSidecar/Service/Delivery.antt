-- ===== src/IrohSidecar/Service/Delivery.antt =====
-- Where the datagrams of iroh-sidecar/src/service.rs go.
use godot_network_audio.Common.{
  ℕ, ◌≡◌, refl, ap, sym, ◌∙◌, inl, inr, Bool, true, false, ◌&&◌, List, [], ◌∷◌, ◌++◌, is_some,
  if◌then◌else◌, arith, Bool-cases, append-nil, append_assoc,
}
use godot_network_audio.IrohSidecar.Service.{
  Iroh, EndpointId, VoiceEvent, SharedState, Step, peer_connected, peer_replaced, peer_disconnected,
  packet_received, insert_connection, open_connection, receive, end_reader, disconnect,
  set_packet_handler, opens, reads, ends, disconnects, installs, step, run,
}

module _ (i : Iroh) where
  open i use {ids, Connection, remote_id}

  abbrev pub Datagram : Type 0
  Datagram = EndpointId i × List ℕ × ℕ

  -- The datagrams that the readers of a run read, with the ids of their remotes.
  abbrev pub datagrams : List (Step i) → List Datagram
  datagrams [] = []
  datagrams (reads c bytes at ∷ cs) = (remote_id c, bytes, at) ∷ datagrams cs
  datagrams (_ ∷ cs) = datagrams cs

  -- The datagrams among the events.
  abbrev pub broadcast : List (VoiceEvent i) → List Datagram
  broadcast [] = []
  broadcast (packet_received p bytes at ∷ es) = (p, bytes, at) ∷ broadcast es
  broadcast (_ ∷ es) = broadcast es

  pub broadcast-append :
      (xs ys : List (VoiceEvent i)) → broadcast (xs ++ ys) ≡ broadcast xs ++ broadcast ys
  broadcast-append [] ys = refl
  broadcast-append (packet_received p bytes at ∷ xs) ys =
      ap (◌∷◌ (p, bytes, at)) (broadcast-append xs ys)
  broadcast-append (peer_connected p ∷ xs) ys = broadcast-append xs ys
  broadcast-append (peer_replaced p ∷ xs) ys = broadcast-append xs ys
  broadcast-append (peer_disconnected p ∷ xs) ys = broadcast-append xs ys

  -- What a run adds to the two ways out, and whether the direct handler is installed.
  pub record Delivers (direct : Bool) (ds : List Datagram) (s s' : SharedState i) : Type 0 where
    pub still : s'.packet_handler ≡ direct
    pub handled : s'.handled ≡ s.handled ++ (if direct then ds else [])
    pub queued : broadcast s'.events ≡ broadcast s.events ++ (if direct then [] else ds)

  -- A step that reads nothing.
  pub quiet :
      (b : Bool) (s s' : SharedState i) (new : List (VoiceEvent i))
      → s'.packet_handler ≡ b
      → s'.handled ≡ s.handled
      → s'.events ≡ s.events ++ new
      → broadcast new ≡ []
      → Delivers b [] s s'
  quiet b s s' new h d e n = record {
    still = h;
    handled = ground (arith, append-nil s.handled);
    queued =
        ap broadcast e
        ∙ broadcast-append s.events new
        ∙ ground (arith, n, append-nil (broadcast s.events));
  }

  open-Delivers :
      (b : Bool) (s : SharedState i) (c : Connection)
      → s.packet_handler ≡ b
      → Delivers b [] s (open_connection i s c)
  unfolding open_connection
  open-Delivers b s c h =
      quiet b s (open_connection i s c) ((insert_connection i s c).0 ∷ []) (ground arith)
        (ground arith) (ground arith) (ground arith)

  end-Delivers :
      (b : Bool) (s : SharedState i) (p : EndpointId i)
      → s.packet_handler ≡ b
      → Delivers b [] s (end_reader i s p)
  unfolding end_reader
  end-Delivers b s p h = elim (Bool-cases (is_some (s.peers p))) [
    | inl here ↦
        quiet b s (end_reader i s p) (peer_disconnected p ∷ []) (ground arith) (ground arith)
          (ground arith) refl
    | inr gone ↦
        quiet b s (end_reader i s p) [] (ground arith) (ground arith)
          (ground (arith, append-nil s.events)) refl
  ]

  disconnect-Delivers :
      (b : Bool) (s : SharedState i) (p : EndpointId i)
      → s.packet_handler ≡ b
      → Delivers b [] s (disconnect i s p).1
  unfolding disconnect
  disconnect-Delivers b s p h =
      quiet b s (disconnect i s p).1 [] (ground arith) (ground arith)
        (ground (arith, append-nil s.events)) refl

  pub receive-Delivers :
      (b : Bool) (s : SharedState i) (p : EndpointId i) (bytes : List ℕ) (at : ℕ)
      → s.packet_handler ≡ b
      → Delivers b ((p, bytes, at) ∷ []) s (receive i s p bytes at)
  unfolding receive
  receive-Delivers true s p bytes at h = record {
    still = ground arith;
    handled = ground arith;
    queued = ground (arith, append-nil (broadcast s.events));
  }
  receive-Delivers false s p bytes at h = record {
    still = ground arith;
    handled = ground (arith, append-nil s.handled);
    queued = ground (arith, broadcast-append s.events (packet_received p bytes at ∷ []));
  }

  pub install-Delivers :
      (s : SharedState i) → s.packet_handler ≡ true → Delivers true [] s (set_packet_handler i s)
  unfolding set_packet_handler
  install-Delivers s h =
      quiet true s (set_packet_handler i s) [] refl refl (sym (append-nil s.events)) refl

  -- No handler is installed that was not there before.
  abbrev pub is_steady : Bool → List (Step i) → Bool
  is_steady direct [] = true
  is_steady direct (installs ∷ cs) = direct && is_steady direct cs
  is_steady direct (_ ∷ cs) = is_steady direct cs

  step-Delivers :
      (b : Bool) (s : SharedState i) (c : Step i)
      → s.packet_handler ≡ b
      → is_steady b (c ∷ []) ≡ true
      → Delivers b (datagrams (c ∷ [])) s (step i s c)
  step-Delivers b s (opens c) h ok = open-Delivers b s c h
  step-Delivers b s (reads c bytes at) h ok = receive-Delivers b s (remote_id c) bytes at h
  step-Delivers b s (ends c) h ok = end-Delivers b s (remote_id c) h
  step-Delivers b s (disconnects p) h ok = disconnect-Delivers b s p h
  step-Delivers true s installs h ok = install-Delivers s h
  step-Delivers false s installs h ok = absurd (ground arith)

  steady-parts :
      (b : Bool) (c : Step i) (cs : List (Step i))
      → is_steady b (c ∷ cs) ≡ true
      → (is_steady b (c ∷ []) ≡ true) × (is_steady b cs ≡ true)
  steady-parts b (opens c) cs h = (refl, h)
  steady-parts b (reads c bytes at) cs h = (refl, h)
  steady-parts b (ends c) cs h = (refl, h)
  steady-parts b (disconnects p) cs h = (refl, h)
  steady-parts true installs cs h = (refl, h)
  steady-parts false installs cs h = absurd (ground arith)

  datagrams-cons :
      (c : Step i) (cs : List (Step i)) → datagrams (c ∷ cs) ≡ datagrams (c ∷ []) ++ datagrams cs
  datagrams-cons (opens c) cs = refl
  datagrams-cons (reads c bytes at) cs = refl
  datagrams-cons (ends c) cs = refl
  datagrams-cons (disconnects p) cs = refl
  datagrams-cons installs cs = refl

  pub Delivers-trans :
      (b : Bool) (xs ys : List Datagram) (s t u : SharedState i)
      → Delivers b xs s t
      → Delivers b ys t u
      → Delivers b (xs ++ ys) s u
  Delivers-trans true xs ys s t u d e = record {
    still = e.still;
    handled = e.handled ∙ ap (λ l. l ++ ys) d.handled ∙ append_assoc s.handled xs ys;
    queued = e.queued ∙ ap (λ l. l ++ []) d.queued ∙ append-nil (broadcast s.events ++ []);
  }
  Delivers-trans false xs ys s t u d e = record {
    still = e.still;
    handled = e.handled ∙ ap (λ l. l ++ []) d.handled ∙ append-nil (s.handled ++ []);
    queued = e.queued ∙ ap (λ l. l ++ ys) d.queued ∙ append_assoc (broadcast s.events) xs ys;
  }

  -- Each datagram that is read in a run of whole operations goes out once, in order, and one way only: with a direct
  -- handler all go to it and none is broadcast, without one, and none installed meanwhile, all are
  -- broadcast; connections may open, end and be disconnected in between in any order.
  pub run-Delivers :
      (direct : Bool) (s : SharedState i) (cs : List (Step i))
      → s.packet_handler ≡ direct
      → is_steady direct cs ≡ true
      → Delivers direct (datagrams cs) s (run i s cs)
  run-Delivers b s [] h ok = quiet b s s [] h refl (sym (append-nil s.events)) refl
  run-Delivers b s (c ∷ cs) h ok =
      let (one, all) = steady-parts b c cs ok in
      let first = step-Delivers b s c h one in
      let rest = run-Delivers b (step i s c) cs first.still all in
      rw (datagrams-cons c cs)
        (Delivers-trans b (datagrams (c ∷ [])) (datagrams cs) s (step i s c) _ first rest)
