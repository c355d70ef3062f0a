-- ===== src/IrohSidecar/Service/Events.antt =====
-- What the events of iroh-sidecar/src/service.rs tell of the map of connections.
use godot_network_audio.Common.{
  ℕ, ◌≡◌, refl, ap, sym, ◌∙◌, subst, inl, inr, Bool, true, false, ◌&&◌, ◌||◌, Option, none, some,
  List, [], ◌∷◌, ◌++◌, is_some, if◌then◌else◌, arith, Bool-cases, append-nil, append_assoc,
}
use godot_network_audio.Common.Keys.{is_same_refl}
use godot_network_audio.IrohSidecar.Service.{
  Iroh, EndpointId, VoiceEvent, SharedState, Step, peer_connected, peer_replaced, peer_disconnected,
  packet_received, insert_connection, open_connection, receive, end_reader, send_datagram,
  set_packet_handler, unknown_peer, opens, reads, ends, disconnects, installs, step, run,
}

module _ (i : Iroh) where
  open i use {ids, Connection, remote_id}

  -- Whether a peer is connected after an event, where that event may happen to it at all.
  abbrev pub after : EndpointId i → Bool → VoiceEvent i → Option Bool
  after peer here (peer_connected p) =
      if ids.is_same p peer then (if here then none else some true) else some here
  after peer here (peer_replaced p) =
      if ids.is_same p peer then (if here then some true else none) else some here
  after peer here (peer_disconnected p) =
      if ids.is_same p peer then (if here then some false else none) else some here
  after peer here (packet_received p bytes at) = some here

  -- `Lives peer b events c`: the events of `peer` follow its life cycle and take it from `b` to
  -- `c`. It connects only when absent, and is replaced or disconnects only when present.
  pub data Lives (peer : EndpointId i) : Bool → List (VoiceEvent i) → Bool → Type 0 where
    over : {b : Bool} → Lives peer b [] b
    next :
        {b c d : Bool} {e : VoiceEvent i} {es : List (VoiceEvent i)}
        → after peer b e ≡ some c
        → Lives peer c es d
        → Lives peer b (e ∷ es) d

  -- Whether an event is about the connection to `peer`.
  abbrev pub is_about : EndpointId i → VoiceEvent i → Bool
  is_about peer (peer_connected p) = ids.is_same p peer
  is_about peer (peer_replaced p) = ids.is_same p peer
  is_about peer (peer_disconnected p) = ids.is_same p peer
  is_about peer (packet_received p bytes at) = false

  abbrev pub touches : EndpointId i → List (VoiceEvent i) → Bool
  touches peer [] = false
  touches peer (e ∷ es) = is_about peer e || touches peer es

  pub touches-append :
      (peer : EndpointId i) (xs ys : List (VoiceEvent i))
      → touches peer (xs ++ ys) ≡ (touches peer xs || touches peer ys)
  touches-append peer [] ys = refl
  touches-append peer (x ∷ xs) ys = ground (arith, touches-append peer xs ys)

  -- Every step but `disconnect`.
  abbrev pub is_announced : Step i → Bool
  is_announced (disconnects peer) = false
  is_announced _ = true

  abbrev pub is_here : SharedState i → EndpointId i → Bool
  is_here s peer = is_some (s.peers peer)

  -- The events that were added: for every peer a part of its life cycle, which tells at the end
  -- whether the map holds a connection to it; and where none is about a peer, its connection is the
  -- one from before.
  pub record Mirrors (s s' : SharedState i) : Type 0 where
    pub new : List (VoiceEvent i)
    pub events : s'.events ≡ s.events ++ new
    pub lives : (peer : EndpointId i) → Lives peer (is_here s peer) new (is_here s' peer)
    pub untouched : (peer : EndpointId i) → touches peer new ≡ false → s'.peers peer ≡ s.peers peer

  pub is_here_same :
      (s : SharedState i) (p peer : EndpointId i)
      → ids.is_same p peer ≡ true
      → is_here s p ≡ is_here s peer
  is_here_same s p peer same = ap (is_here s) ((ids.is_same_iff p peer).0 same)

  pub one :
      {peer : EndpointId i} {b c : Bool} (e : VoiceEvent i)
      → after peer b e ≡ some c
      → Lives peer b (e ∷ []) c
  one e h = next h over

  pub stays : {peer : EndpointId i} {b c : Bool} → b ≡ c → Lives peer b [] c
  stays {peer} {b} e = subst (Lives peer b []) e over

  pub receive-Mirrors :
      (s : SharedState i) (p : EndpointId i) (bytes : List ℕ) (at : ℕ)
      → Mirrors s (receive i s p bytes at)
  unfolding receive
  receive-Mirrors s p bytes at = elim (Bool-cases s.packet_handler) [
    | inl direct ↦ record {
      new = [];
      events = ground (arith, append-nil s.events);
      lives = λ peer. stays (ground arith);
      untouched = λ peer quiet. ground arith;
    }
    | inr queued ↦ record {
      new = packet_received p bytes at ∷ [];
      events = ground arith;
      lives = λ peer. one (packet_received p bytes at) (ground arith);
      untouched = λ peer quiet. ground arith;
    }
  ]

  install-Mirrors : (s : SharedState i) → Mirrors s (set_packet_handler i s)
  unfolding set_packet_handler
  install-Mirrors s = record {
    new = [];
    events = sym (append-nil s.events);
    lives = λ peer. over;
    untouched = λ peer quiet. refl;
  }

  pub open-Mirrors : (s : SharedState i) (c : Connection) → Mirrors s (open_connection i s c)
  unfolding open_connection
  open-Mirrors s c = record {
    new = (insert_connection i s c).0 ∷ [];
    events = ground arith;
    lives =
        λ peer. one (insert_connection i s c).0 (ground (arith, is_here_same s (remote_id c) peer));
    untouched = λ peer quiet. ground arith;
  }

  pub end-Mirrors : (s : SharedState i) (p : EndpointId i) → Mirrors s (end_reader i s p)
  unfolding end_reader
  end-Mirrors s p = elim (Bool-cases (is_here s p)) [
    | inl here ↦ record {
      new = peer_disconnected p ∷ [];
      events = ground arith;
      lives = λ peer. one (peer_disconnected p) (ground (arith, is_here_same s p peer));
      untouched = λ peer quiet. ground arith;
    }
    | inr gone ↦ record {
      new = [];
      events = ground (arith, append-nil s.events);
      lives = λ peer. stays (ground (arith, is_here_same s p peer));
      untouched = λ peer quiet. ground (arith, is_here_same s p peer);
    }
  ]

  step-Mirrors : (s : SharedState i) (c : Step i) → is_announced c ≡ true → Mirrors s (step i s c)
  step-Mirrors s (opens c) a = open-Mirrors s c
  step-Mirrors s (reads c bytes at) a = receive-Mirrors s (remote_id c) bytes at
  step-Mirrors s (ends c) a = end-Mirrors s (remote_id c)
  step-Mirrors s (disconnects p) a = absurd (ground arith)
  step-Mirrors s installs a = install-Mirrors s

  pub Lives-append :
      {peer : EndpointId i} {b c d : Bool} {xs ys : List (VoiceEvent i)}
      → Lives peer b xs c
      → Lives peer c ys d
      → Lives peer b (xs ++ ys) d
  Lives-append over m = m
  Lives-append (next h l) m = next h (Lives-append l m)

  abbrev pub all_announced : List (Step i) → Bool
  all_announced [] = true
  all_announced (c ∷ cs) = is_announced c && all_announced cs

  -- Over any run without a call of `disconnect`, whatever readers end in whatever order, the events
  -- that are broadcast follow the life cycle of every peer: it connects only when absent, is
  -- replaced or disconnects only when present; they tell at the end whether the map holds a
  -- connection to the peer; and the connection of a peer that no event is about is unchanged.
  pub run-Mirrors :
      (s : SharedState i) (cs : List (Step i)) → all_announced cs ≡ true → Mirrors s (run i s cs)
  run-Mirrors s [] a = record {
    new = [];
    events = sym (append-nil s.events);
    lives = λ peer. over;
    untouched = λ peer quiet. refl;
  }
  run-Mirrors s (c ∷ cs) a =
      let first = step-Mirrors s c (ground arith) in
      let rest = run-Mirrors (step i s c) cs (ground arith) in
      record {
        new = first.new ++ rest.new;
        events =
            rest.events
            ∙ ap (λ es. es ++ rest.new) first.events
            ∙ append_assoc s.events first.new rest.new;
        lives = λ peer. Lives-append (first.lives peer) (rest.lives peer);
        untouched = λ peer quiet.
            rest.untouched peer (ground (arith, touches-append peer first.new rest.new))
            ∙ first.untouched peer (ground (arith, touches-append peer first.new rest.new));
      }

  -- The reader of a connection that was replaced takes the new connection with it when it ends:
  -- the map loses it, the peer is told to be disconnected, and sending to it fails as to an
  -- unknown peer, although nobody closed the new connection.
  pub replaced_reader_disconnects :
      (s : SharedState i) (old new : Connection) (bytes : List ℕ)
      → remote_id new ≡ remote_id old
      → let s' = run i s (opens old ∷ opens new ∷ ends old ∷ []) in
        (s'.peers (remote_id new) ≡ none)
        × (send_datagram i s' (remote_id new) bytes ≡ unknown_peer (remote_id new))
        × (s'.closed ≡ s.closed)
        × (s'.events
            ≡ s.events
              ++ ((insert_connection i s old).0
                  ∷ peer_replaced (remote_id new)
                  ∷ peer_disconnected (remote_id new)
                  ∷ []))
  unfolding open_connection end_reader send_datagram
  replaced_reader_disconnects s old new bytes e = ground (
    arith,
    is_same_refl ids (remote_id old),
    e,
    append_assoc s.events ((insert_connection i s old).0 ∷ []) (peer_replaced (remote_id old) ∷ []),
    append_assoc s.events ((insert_connection i s old).0 ∷ peer_replaced (remote_id old) ∷ [])
        (peer_disconnected (remote_id old) ∷ []),
  )
