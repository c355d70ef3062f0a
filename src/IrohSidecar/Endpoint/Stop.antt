-- ===== src/IrohSidecar/Endpoint/Stop.antt =====
-- The end of a service of iroh-sidecar/src/service.rs, and what it is bound to.
use godot_network_audio.Common.{
  ℕ, zero, suc, ◌+◌, ◌≤◌, ◌≡◌, refl, ap, inl, inr, Bool, true, false, not, ◌&&◌, ◌||◌, none, some,
  List, [], ◌∷◌, arith, length, Bool-cases, is_some,
}
use godot_network_audio.VoiceCore.Error.{gives}
use godot_network_audio.IrohSidecar.Service.{Iroh, EndpointId, start}
use godot_network_audio.IrohSidecar.Endpoint.{
  VoiceIrohService, Incoming, Event, arrives, finishes, dials, stop_branch, accept_branch,
  finish_task, connect, signalled, shutdown, use_relay, happen, happens, Setup, VoiceIrohConfig,
  EndpointBuilder, bind, ready, relayed, local,
}
use godot_network_audio.IrohSidecar.Endpoint.Fresh.{bound-fresh}

module _ (i : Iroh) where
  -- A service after its accept loop has ended, with its handles taken.
  pub record IsStopped (v : VoiceIrohService i) : Type 0 where
    pub no_sender : v.stop_tx ≡ false
    pub no_task : v.accept_task ≡ false
    pub over : v.running ≡ false

  pub record Winds (v v' : VoiceIrohService i) : Type 0 where
    pub stopped : IsStopped v'
    pub fewer : length v'.spawned ≤ length v.spawned

  finish-Winds :
      (k : ℕ) (ts : List (Incoming i)) (v : VoiceIrohService i)
      → IsStopped v
      → IsStopped (finish_task i k ts v) × (length (finish_task i k ts v).spawned ≤ length ts)
  finish-Winds k [] v h =
      (record { no_sender = h.no_sender; no_task = h.no_task; over = h.over }, omega arith)
  finish-Winds zero (t ∷ ts) v h =
      (record { no_sender = h.no_sender; no_task = h.no_task; over = h.over }, omega arith)
  finish-Winds (suc k) (t ∷ ts) v h =
      let rest = finish-Winds k ts v h in
      (
        record { no_sender = rest.0.no_sender; no_task = rest.0.no_task; over = rest.0.over },
        omega (arith, rest.1),
      )

  happen-Winds : (v : VoiceIrohService i) (e : Event i) → IsStopped v → Winds v (happen i v e)
  unfolding stop_branch accept_branch connect shutdown
  happen-Winds v (finishes k) h =
      let rest = finish-Winds k v.spawned v h in record { stopped = rest.0; fewer = rest.1 }
  happen-Winds v (arrives (some t)) h = ground arith
  happen-Winds v (dials (gives c)) h = ground arith
  happen-Winds v e h = ground arith

  happens-Winds :
      (v : VoiceIrohService i) (es : List (Event i)) → IsStopped v → Winds v (happens i v es)
  happens-Winds v [] h = record { stopped = h; fewer = omega arith }
  happens-Winds v (e ∷ es) h =
      let now = happen-Winds v e h in
      let rest = happens-Winds (happen i v e) es now.stopped in
      record { stopped = rest.stopped; fewer = omega (arith, now.fewer, rest.fewer) }

  -- The handle of the accept task is there as long as its loop may go on, and the sender of the stop
  -- as long as the handle.
  abbrev IsTended : VoiceIrohService i → Type 0
  IsTended v = ((v.accept_task || not v.running) ≡ true) × (v.stop_tx ≡ v.accept_task)

  finish-kept :
      (k : ℕ) (ts : List (Incoming i)) (v : VoiceIrohService i)
      → ((finish_task i k ts v).accept_task ≡ v.accept_task)
        × ((finish_task i k ts v).running ≡ v.running)
        × ((finish_task i k ts v).stop_tx ≡ v.stop_tx)
  finish-kept k [] v = (refl, refl, refl)
  finish-kept zero (t ∷ ts) v = (refl, refl, refl)
  finish-kept (suc k) (t ∷ ts) v = finish-kept k ts v

  happen-IsTended : (v : VoiceIrohService i) (e : Event i) → IsTended v → IsTended (happen i v e)
  unfolding stop_branch accept_branch connect shutdown
  happen-IsTended v (finishes k) h = ground (arith, finish-kept k v.spawned v)
  happen-IsTended v (arrives (some t)) h = ground arith
  happen-IsTended v (dials (gives c)) h = ground arith
  happen-IsTended v e h = ground arith

  happens-IsTended :
      (v : VoiceIrohService i) (es : List (Event i)) → IsTended v → IsTended (happens i v es)
  happens-IsTended v [] h = h
  happens-IsTended v (e ∷ es) h = happens-IsTended (happen i v e) es (happen-IsTended v e h)

  -- A shutdown that returns, and what it leaves.
  record Returns (v : VoiceIrohService i) : Type 0 where
    result : VoiceIrohService i
    returns : shutdown i v ≡ some result
    stopped : IsStopped result
    same : result.spawned ≡ v.spawned

  shutdown-Returns : (v : VoiceIrohService i) → IsTended v → Returns v
  unfolding shutdown stop_branch
  shutdown-Returns v (tended, sender) = elim (Bool-cases v.accept_task) [
    | inl handle ↦ record {
      result = record (signalled i v) { running = false; closes = v.closes + 1 };
      returns = ground (arith, handle, sender);
      stopped = record { no_sender = refl; no_task = refl; over = refl };
      same = refl;
    }
    | inr taken ↦ record {
      result = record (signalled i v) { closes = v.closes + 1 };
      returns = ground (arith, taken);
      stopped = record { no_sender = refl; no_task = refl; over = ground (arith, tended, taken) };
      same = refl;
    }
  ]

  -- Whatever happened to a service since it was bound, a shutdown returns: the accept loop that it
  -- awaits has taken the stop. The loop is over then and its handles are taken, and so they stay,
  -- whatever happens next: no task is started for an incoming connection, and those that were started
  -- only end.
  pub shutdown_final :
      {Addr Endpoint : Type 0} (u : Setup Addr Endpoint) (config : VoiceIrohConfig Addr)
      (v : VoiceIrohService i) (e : Endpoint) (online : Bool) (before after : List (Event i))
      → bind i u config ≡ ready (v, e, online)
      → let last = happens i v before in
        (v' : VoiceIrohService i) × (shutdown i last ≡ some v') × Winds last (happens i v' after)
  shutdown_final u config v e online before after bound =
      let tended : IsTended v = ground (arith, bound-fresh i u config bound) in
      let last = happens i v before in
      let down = shutdown-Returns last (happens-IsTended v before tended) in
      let r = happens-Winds down.result after down.stopped in
      (
        down.result,
        down.returns,
        record {
          stopped = r.stopped;
          fewer = omega (arith, r.fewer, ap (λ ts. length ts) down.same);
        },
      )

  -- What a service is bound to.
  pub record Binds {Addr Endpoint : Type 0} (u : Setup Addr Endpoint)
      (config : VoiceIrohConfig Addr) (v : VoiceIrohService i) (e : Endpoint) (online : Bool)
      : Type 0 where
    pub builder : EndpointBuilder Addr
    pub bound : u.bind builder ≡ gives e
    pub addr : builder.addr ≡ config.bind_addr
    pub alpns : builder.alpns ≡ config.alpn ∷ []
    pub local_only : builder.ip_transports ≡ online
    pub relayed : online ≡ (config.relay && not (is_some config.bind_addr))
    pub alpn : v.shared.alpn ≡ config.alpn
    pub nobody : (peer : EndpointId i) → v.shared.peers peer ≡ none

  addr_none :
      {Addr : Type 0} (config : VoiceIrohConfig Addr)
      → use_relay config ≡ true
      → config.bind_addr ≡ none
  unfolding use_relay
  addr_none config h = ground arith

  -- A service that was bound speaks the protocol of its configuration alone and knows nobody. Its
  -- endpoint stands at the configured address, if there is one; it has a relay exactly if that is
  -- configured and no address is, and is local otherwise.
  pub bind-Binds :
      {Addr Endpoint : Type 0} (u : Setup Addr Endpoint) (config : VoiceIrohConfig Addr)
      (v : VoiceIrohService i) (e : Endpoint) (online : Bool)
      → bind i u config ≡ ready (v, e, online)
      → Binds u config v e online
  unfolding bind start
  bind-Binds u config v e online h = elim (Bool-cases (use_relay config)) [
    | inl relay ↦ record {
      builder = relayed config;
      bound = ground (arith, relay);
      addr = ground (arith, addr_none config relay);
      alpns = refl;
      local_only = ground (arith, relay);
      relayed = ground (arith, relay);
      alpn = ground (arith, relay);
      nobody = λ peer. ground (arith, relay);
    }
    | inr near ↦ record {
      builder = local config;
      bound = ground (arith, near);
      addr = refl;
      alpns = refl;
      local_only = ground (arith, near);
      relayed = ground (arith, near);
      alpn = ground (arith, near);
      nobody = λ peer. ground (arith, near);
    }
  ]
