-- ===== src/IrohSidecar/Endpoint/Voices.antt =====
-- Which connections the map of iroh-sidecar/src/service.rs may hold.
use godot_network_audio.Common.{
  ℕ, zero, suc, ◌≡◌, refl, ap, sym, subst, inl, inr, ◌∙◌, Bool, true, Option, none, some, List, [],
  ◌∷◌, ◌++◌, All, arith, Bool-cases, Option-cases,
}
use godot_network_audio.Common.Keys.{Map, insert, remove}
use godot_network_audio.VoiceCore.Error.{gives, fails}
use godot_network_audio.IrohSidecar.Service.{
  Iroh, EndpointId, SharedState, start, open_connection, receive, end_reader, disconnect,
  set_packet_handler,
}
use godot_network_audio.IrohSidecar.Endpoint.{
  VoiceIrohService, Incoming, Event, stops, arrives, finishes, dials, reading, ending,
  disconnecting, installing, shuts_down, same_bytes, accept_incoming, stop_branch, accept_branch,
  finish_task, connect, shutdown, happen, happens, fresh, Setup, VoiceIrohConfig, bind, ready,
}
use godot_network_audio.IrohSidecar.Endpoint.Fresh.{bound-fresh}

module _ (i : Iroh) (P : i.Connection → Type 0) where
  open i use {ids, Connection, remote_id}

  -- A handshake matters only where the protocol is the same.
  abbrev pub Vouched : Bool → Option Connection → Type 0
  Vouched true (some connection) = P connection
  Vouched _ _ = Unit

  abbrev pub Speaks : List ℕ → Option (List ℕ) → Option Connection → Type 0
  Speaks alpn none handshake = Unit
  Speaks alpn (some spoken) handshake = Vouched (same_bytes spoken alpn) handshake

  abbrev pub IsTrusted : List ℕ → Incoming i → Type 0
  IsTrusted alpn incoming = Speaks alpn incoming.alpn incoming.handshake

  -- Nothing is asked of incoming connections of another protocol, nor of what is not a connection.
  abbrev pub Vouches : List ℕ → Event i → Type 0
  Vouches alpn (arrives (some incoming)) = IsTrusted alpn incoming
  Vouches alpn (dials (gives connection)) = P connection
  Vouches alpn _ = Unit

  abbrev Known : Map ids Connection → Type 0
  Known peers =
      (peer : EndpointId i) (connection : Connection)
      → peers peer ≡ some connection
      → P connection × (remote_id connection ≡ peer)

  insert-Known :
      (peers : Map ids Connection) (c : Connection)
      → P c
      → Known peers
      → Known (insert ids (remote_id c) c peers)
  insert-Known peers c p known peer other h = elim (Bool-cases (ids.is_same (remote_id c) peer)) [
    | inl same ↦
        let e : c ≡ other = ground (arith, same) in
        (subst P e p, ap remote_id (sym e) ∙ (ids.is_same_iff (remote_id c) peer).0 same)
    | inr apart ↦ known peer other (ground (arith, apart))
  ]

  remove-Known :
      (peers : Map ids Connection) (p : EndpointId i) → Known peers → Known (remove ids p peers)
  remove-Known peers p known peer other h = known peer other (ground arith)

  peers-open :
      (s : SharedState i) (c : Connection)
      → ((open_connection i s c).peers ≡ insert ids (remote_id c) c s.peers)
        × ((open_connection i s c).alpn ≡ s.alpn)
  unfolding open_connection
  peers-open s c = ground arith

  peers-receive :
      (s : SharedState i) (p : EndpointId i) (bytes : List ℕ) (at : ℕ)
      → ((receive i s p bytes at).peers ≡ s.peers) × ((receive i s p bytes at).alpn ≡ s.alpn)
  unfolding receive
  peers-receive s p bytes at = ground arith

  peers-end :
      (s : SharedState i) (p : EndpointId i)
      → ((end_reader i s p).peers ≡ remove ids p s.peers) × ((end_reader i s p).alpn ≡ s.alpn)
  unfolding end_reader
  peers-end s p = ground arith

  peers-disconnect :
      (s : SharedState i) (p : EndpointId i)
      → ((disconnect i s p).1.peers ≡ remove ids p s.peers) × ((disconnect i s p).1.alpn ≡ s.alpn)
  unfolding disconnect
  peers-disconnect s p = ground arith

  abbrev HasVoices : List ℕ → SharedState i → Type 0
  HasVoices alpn s = (s.alpn ≡ alpn) × Known s.peers

  opens-HasVoices :
      {alpn : List ℕ} (s : SharedState i) (c : Connection)
      → P c
      → HasVoices alpn s
      → HasVoices alpn (open_connection i s c)
  opens-HasVoices s c p h = (
    (peers-open s c).1 ∙ h.0,
    subst Known (sym (peers-open s c).0) (insert-Known s.peers c p h.1),
  )

  vouched :
      (alpn : List ℕ) {spoken : List ℕ} {c : Connection} (incoming : Incoming i)
      → incoming.alpn ≡ some spoken
      → incoming.handshake ≡ some c
      → same_bytes spoken alpn ≡ true
      → IsTrusted alpn incoming
      → P c
  vouched alpn {spoken} {c} incoming says made voice t =
      let heard = subst (λ o. Speaks alpn o incoming.handshake) says t in
      let shaken = subst (λ o. Speaks alpn (some spoken) o) made heard in
      subst (λ b. Vouched b (some c)) voice shaken

  accept-HasVoices :
      (alpn : List ℕ) (s : SharedState i) (incoming : Incoming i)
      → IsTrusted alpn incoming
      → HasVoices alpn s
      → HasVoices alpn (accept_incoming i s incoming)
  unfolding accept_incoming
  accept-HasVoices alpn s incoming t h = elim (Bool-cases incoming.accept) [
    | inr closed ↦ rw (closed, accept_incoming) h
    | inl accepted ↦ elim (Option-cases incoming.alpn) [
      | inl silent ↦ rw (accepted, silent, accept_incoming) h
      | inr (spoken, says) ↦ elim (Bool-cases (same_bytes spoken s.alpn)) [
        | inr other ↦ rw (accepted, says, other, accept_incoming) h
        | inl voice ↦ elim (Option-cases incoming.handshake) [
          | inl broken ↦ rw (accepted, says, voice, broken, accept_incoming) h
          | inr (c, made) ↦
              rw (accepted, says, voice, made, accept_incoming)
                (opens-HasVoices s c
                  (vouched alpn incoming says made
                    (subst (λ a. same_bytes spoken a ≡ true) h.0 voice) t)
                  h)
        ]
      ]
    ]
  ]

  -- The service speaks `alpn`, every connection in the map satisfies `P` and stands under its remote's
  -- id, and the tasks that the accept loop has started are to be trusted.
  pub record IsVoice (alpn : List ℕ) (v : VoiceIrohService i) : Type 0 where
    pub voices : HasVoices alpn v.shared
    pub waiting : All (IsTrusted alpn) v.spawned

  All-snoc :
      (alpn : List ℕ) (ts : List (Incoming i)) (t : Incoming i)
      → IsTrusted alpn t
      → All (IsTrusted alpn) ts
      → All (IsTrusted alpn) (ts ++ (t ∷ []))
  All-snoc alpn [] t h hs = (h, tt)
  All-snoc alpn (x ∷ ts) t h hs = (hs.0, All-snoc alpn ts t h hs.1)

  finish-IsVoice :
      (alpn : List ℕ) (k : ℕ) (ts : List (Incoming i)) (v : VoiceIrohService i)
      → HasVoices alpn v.shared
      → All (IsTrusted alpn) ts
      → IsVoice alpn (finish_task i k ts v)
  finish-IsVoice alpn k [] v h w = record { voices = h; waiting = tt }
  finish-IsVoice alpn zero (t ∷ ts) v h w = record {
    voices = accept-HasVoices alpn v.shared t w.0 h;
    waiting = w.1;
  }
  finish-IsVoice alpn (suc k) (t ∷ ts) v h w =
      let rest = finish-IsVoice alpn k ts v h w.1 in
      record { voices = rest.voices; waiting = (w.0, rest.waiting) }

  changed :
      {alpn : List ℕ} (s s' : SharedState i) (p : EndpointId i)
      → (s'.peers ≡ remove ids p s.peers) × (s'.alpn ≡ s.alpn)
      → HasVoices alpn s
      → HasVoices alpn s'
  changed s s' p e h = (e.1 ∙ h.0, subst Known (sym e.0) (remove-Known s.peers p h.1))

  -- A shutdown leaves the map and the tasks alone.
  shut-kept :
      (v : VoiceIrohService i)
      → ((happen i v shuts_down).shared ≡ v.shared) × ((happen i v shuts_down).spawned ≡ v.spawned)
  unfolding shutdown stop_branch
  shut-kept v = ground arith

  happen-IsVoice :
      (alpn : List ℕ) (v : VoiceIrohService i) (e : Event i)
      → IsVoice alpn v
      → Vouches alpn e
      → IsVoice alpn (happen i v e)
  unfolding stop_branch accept_branch connect shutdown set_packet_handler
  happen-IsVoice alpn v stops h t = elim (Bool-cases v.stop_sent) [
    | inl sent ↦ rw (sent, stop_branch) (record { voices = h.voices; waiting = h.waiting })
    | inr unsent ↦ rw (unsent, stop_branch) (record { voices = h.voices; waiting = h.waiting })
  ]
  happen-IsVoice alpn v (arrives none) h t = record { voices = h.voices; waiting = h.waiting }
  happen-IsVoice alpn v (arrives (some incoming)) h t = elim (Bool-cases v.running) [
    | inl goes ↦
        rw (goes, accept_branch)
          (record { voices = h.voices; waiting = All-snoc alpn v.spawned incoming t h.waiting })
    | inr over ↦ rw (over, accept_branch) (record { voices = h.voices; waiting = h.waiting })
  ]
  happen-IsVoice alpn v (finishes k) h t = finish-IsVoice alpn k v.spawned v h.voices h.waiting
  happen-IsVoice alpn v (dials (gives c)) h t = record {
    voices = opens-HasVoices v.shared c t h.voices;
    waiting = h.waiting;
  }
  happen-IsVoice alpn v (dials (fails e)) h t = h
  happen-IsVoice alpn v (reading c bytes at) h t =
      let e = peers-receive v.shared (remote_id c) bytes at in
      record { voices = (e.1 ∙ h.voices.0, subst Known (sym e.0) h.voices.1); waiting = h.waiting }
  happen-IsVoice alpn v (ending c) h t = record {
    voices =
        changed v.shared (end_reader i v.shared (remote_id c)) (remote_id c)
          (peers-end v.shared (remote_id c)) h.voices;
    waiting = h.waiting;
  }
  happen-IsVoice alpn v (disconnecting peer) h t = record {
    voices =
        changed v.shared (disconnect i v.shared peer).1 peer (peers-disconnect v.shared peer)
          h.voices;
    waiting = h.waiting;
  }
  happen-IsVoice alpn v installing h t = record { voices = h.voices; waiting = h.waiting }
  happen-IsVoice alpn v shuts_down h t =
      let (same, kept) = shut-kept v in
      record {
        voices = subst (HasVoices alpn) (sym same) h.voices;
        waiting = subst (All (IsTrusted alpn)) (sym kept) h.waiting;
      }

  happens-IsVoice :
      (alpn : List ℕ) (v : VoiceIrohService i) (es : List (Event i))
      → IsVoice alpn v
      → All (Vouches alpn) es
      → IsVoice alpn (happens i v es)
  happens-IsVoice alpn v [] h t = h
  happens-IsVoice alpn v (e ∷ es) h t =
      happens-IsVoice alpn (happen i v e) es (happen-IsVoice alpn v e h t.0) t.1

  fresh-IsVoice : (alpn : List ℕ) → IsVoice alpn (fresh i alpn)
  unfolding start
  fresh-IsVoice alpn = record { voices = (refl, λ peer c h. ground arith); waiting = tt }

  module _ {Addr Endpoint : Type 0} where
    -- After any run of a service that was bound, with whatever answers of iroh in whatever order, the
    -- connections in the map stand under their remotes' ids, and each satisfies any predicate that the
    -- connections which were dialled satisfy, and those which were taken in with the protocol of the
    -- service. Nothing is asked of incoming connections of another protocol.
    pub bound_voices :
        (u : Setup Addr Endpoint) (config : VoiceIrohConfig Addr) (v : VoiceIrohService i)
        (e : Endpoint) (online : Bool) (es : List (Event i)) (peer : EndpointId i) (c : Connection)
        → bind i u config ≡ ready (v, e, online)
        → All (Vouches config.alpn) es
        → (happens i v es).shared.peers peer ≡ some c
        → P c × (remote_id c ≡ peer)
    bound_voices u config v e online es peer c bound t held =
        let start =
          subst (IsVoice config.alpn) (sym (bound-fresh i u config bound))
            (fresh-IsVoice config.alpn) in
        (happens-IsVoice config.alpn v es start t).voices.1 peer c held
