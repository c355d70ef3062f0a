-- ===== src/IrohSidecar/Endpoint.antt =====
-- iroh-sidecar/src/service.rs around the map of connections: the configuration and `bind`, the accept
-- loop with the tasks that it spawns, `connect`, `shutdown`. What the crates iroh and tokio answer are
-- arguments.
pub mod Fresh
pub mod Voices
pub mod Stop
use Prim.Native.Char.{code}
use Prim.Native.String.{String}
use godot_network_audio.Common.{
  ℕ, zero, suc, ◌+◌, ◌/◌, ◌%◌, ◌^◌, ◌==◌, Bool, true, false, not, ◌&&◌, Option, none, some, List,
  [], ◌∷◌, ◌++◌, if◌then◌else◌, is_some,
}
use godot_network_audio.VoiceCore.Error.{Reply, gives, fails}
use godot_network_audio.IrohSidecar.Service.{
  Iroh, EndpointId, SharedState, start, open_connection, Step, step, reads, ends, disconnects,
  installs,
}

-- `alpn != shared.alpn`, on vectors of bytes.
abbrev pub same_bytes : List ℕ → List ℕ → Bool
same_bytes [] [] = true
same_bytes (a ∷ as') (b ∷ bs) = (a == b) && same_bytes as' bs
same_bytes _ _ = false

-- `self.start.elapsed().as_micros() as u64`, where `elapsed` is in nanoseconds.
unfoldable pub now_mono_us : ℕ → ℕ
now_mono_us elapsed = (elapsed / 1_000) % 2 ^ 64

-- The bytes of a text in ASCII.
abbrev pub codes : String → List ℕ
codes String.[] = []
codes (String.◌∷◌ c s) = code c ∷ codes s

-- A failure by the context that the service gives it, if it gives one, and its own text.
pub record Failure : Type 0 where
  pub context : Option String
  pub cause : String

pub data Bound {ℓ} (A : Type ℓ) : Type ℓ where
  ready : A → Bound A
  failed : Failure → Bound A

infixl 5 ◌>>=◌
abbrev pub ◌>>=◌ {ℓ κ} : {A : Type ℓ} {B : Type κ} → Bound A → (A → Bound B) → Bound B
ready a >>= next = next a
failed e >>= next = failed e

abbrev pub with_context {ℓ} : {A : Type ℓ} → Option String → Reply A → Bound A
with_context context (gives a) = ready a
with_context context (fails e) = failed (record { context = context; cause = e })

pub data Preset : Type 0 where
  n0 : Preset
  minimal : Preset

pub record VoiceIrohConfig (Addr : Type 0) : Type 0 where
  pub alpn : List ℕ
  pub bind_addr : Option Addr
  pub relay : Bool

-- The builder of an endpoint, as far as `bind` fills it in.
pub record EndpointBuilder (Addr : Type 0) : Type 0 where
  pub preset : Preset
  pub ip_transports : Bool
  pub alpns : List (List ℕ)
  pub addr : Option Addr

-- What iroh and tokio answer while an endpoint is set up.
pub record Setup (Addr Endpoint : Type 0) : Type 0 where
  pub build_runtime : Reply (Unit {0})
  pub bind_addr : Addr → Reply (Unit {0})
  pub bind : EndpointBuilder Addr → Reply Endpoint

-- `VOICE_ALPN_V0`
abbrev pub voice_alpn_v0 : List ℕ
voice_alpn_v0 = codes "godot-network-audio/voice/0"

module _ {Addr : Type 0} where
  -- `VoiceIrohConfig::default`
  abbrev pub default : VoiceIrohConfig Addr
  default = record { alpn = voice_alpn_v0; bind_addr = none; relay = true }

  unfoldable pub use_relay : VoiceIrohConfig Addr → Bool
  use_relay config = config.relay && not (is_some config.bind_addr)

  abbrev pub relayed : VoiceIrohConfig Addr → EndpointBuilder Addr
  relayed config = record {
    preset = n0;
    ip_transports = true;
    alpns = config.alpn ∷ [];
    addr = none;
  }

  abbrev pub local : VoiceIrohConfig Addr → EndpointBuilder Addr
  local config = record {
    preset = minimal;
    ip_transports = false;
    alpns = config.alpn ∷ [];
    addr = config.bind_addr;
  }

module _ (i : Iroh) where
  open i use {Connection, remote_id}

  -- An incoming connection by the answers to `accept`, `alpn` and the handshake.
  pub record Incoming : Type 0 where
    pub accept : Bool
    pub alpn : Option (List ℕ)
    pub handshake : Option Connection

  -- `running` tells whether the accept loop goes on, `spawned` holds the tasks that it has started
  -- and that have not ended, and `closes` counts the calls of `Endpoint::close`.
  pub record VoiceIrohService : Type 0 where
    pub shared : SharedState i
    pub stop_tx : Bool
    pub accept_task : Bool
    pub stop_sent : Bool
    pub running : Bool
    pub spawned : List Incoming
    pub closes : ℕ

  abbrev pub fresh : List ℕ → VoiceIrohService
  fresh alpn = record {
    shared = start i alpn;
    stop_tx = true;
    accept_task = true;
    stop_sent = false;
    running = true;
    spawned = [];
    closes = 0;
  }

  module _ {Addr Endpoint : Type 0} where
    abbrev pub checked_addr : Setup Addr Endpoint → Option Addr → Bound (Unit {0})
    checked_addr u none = ready tt
    checked_addr u (some addr) = with_context (some "bind local address") (u.bind_addr addr)

    -- The endpoint, and whether the service waits until it is online.
    pub bind_endpoint : Setup Addr Endpoint → VoiceIrohConfig Addr → Bound (Endpoint × Bool)
    unfolding use_relay
    bind_endpoint u config =
        if use_relay config
        then (do endpoint ← with_context none (u.bind (relayed config)); ready (endpoint, true))
        else (do
          unit ← checked_addr u config.bind_addr
          endpoint ← with_context none (u.bind (local config))
          ready (endpoint, false))

    unfoldable pub bind :
        Setup Addr Endpoint → VoiceIrohConfig Addr → Bound (VoiceIrohService × Endpoint × Bool)
    unfolding bind_endpoint
    bind u config = do
      runtime ← with_context (some "build tokio runtime for iroh sidecar") u.build_runtime
      bound ← bind_endpoint u config
      ready (fresh config.alpn, bound.0, bound.1)

  -- What a task does with its incoming connection: each failure ends it without a trace.
  unfoldable pub accept_incoming : SharedState i → Incoming → SharedState i
  accept_incoming s incoming = if not incoming.accept then s else elim incoming.alpn [
    | none ↦ s
    | some alpn ↦
        if not (same_bytes alpn s.alpn)
        then s
        else elim incoming.handshake [ none ↦ s | some connection ↦ open_connection i s connection ]
  ]

  -- The branches of the loop's `select!`.
  unfoldable pub stop_branch : VoiceIrohService → VoiceIrohService
  stop_branch v = if v.stop_sent then record v { running = false } else v

  unfoldable pub accept_branch : VoiceIrohService → Option Incoming → VoiceIrohService
  accept_branch v none = record v { running = false }
  accept_branch v (some incoming) =
      if v.running then record v { spawned = v.spawned ++ (incoming ∷ []) } else v

  -- The `k`-th task that was spawned ends.
  abbrev pub finish_task : ℕ → List Incoming → VoiceIrohService → VoiceIrohService
  finish_task k [] v = record v { spawned = [] }
  finish_task zero (t ∷ ts) v = record v { shared = accept_incoming v.shared t; spawned = ts }
  finish_task (suc k) (t ∷ ts) v =
      let v' = finish_task k ts v in record v' { spawned = t ∷ v'.spawned }

  -- `reply` is what iroh answers to the dial.
  unfoldable pub connect :
      VoiceIrohService → Reply Connection → VoiceIrohService × Bound (EndpointId i)
  connect v (fails e) =
      (v, failed (record { context = some "connect voice peer over iroh"; cause = e }))
  connect v (gives connection) =
      (record v { shared = open_connection i v.shared connection }, ready (remote_id connection))

  -- The stop is sent if its sender is still there, and both handles are taken.
  abbrev pub signalled : VoiceIrohService → VoiceIrohService
  signalled v = record v {
    stop_tx = false;
    accept_task = false;
    stop_sent = if v.stop_tx then true else v.stop_sent;
  }

  -- The task whose handle was taken is awaited: its loop takes the branch of the stop. A loop that
  -- goes on is awaited for ever, which is `none`. The endpoint is closed at every call.
  unfoldable pub shutdown : VoiceIrohService → Option VoiceIrohService
  unfolding stop_branch
  shutdown v =
      let v' = if v.accept_task then stop_branch (signalled v) else signalled v in
      if v.accept_task && v'.running then none else some (record v' { closes = v.closes + 1 })

  -- A call that is still waiting has signalled.
  abbrev pub shut : VoiceIrohService → Option VoiceIrohService → VoiceIrohService
  shut v none = signalled v
  shut v (some v') = v'

  -- What happens to a service, in the order of the locks: `serves` are the other operations.
  pub data Event : Type 0 where
    stops : Event
    arrives : Option Incoming → Event
    finishes : ℕ → Event
    dials : Reply Connection → Event
    reading : Connection → List ℕ → ℕ → Event
    ending : Connection → Event
    disconnecting : EndpointId i → Event
    installing : Event
    shuts_down : Event

  abbrev pub serve : VoiceIrohService → Step i → VoiceIrohService
  serve v c = record v { shared = step i v.shared c }

  abbrev pub happen : VoiceIrohService → Event → VoiceIrohService
  happen v stops = stop_branch v
  happen v (arrives incoming) = accept_branch v incoming
  happen v (finishes k) = finish_task k v.spawned v
  happen v (dials reply) = (connect v reply).0
  happen v (reading c bytes at) = serve v (reads c bytes at)
  happen v (ending c) = serve v (ends c)
  happen v (disconnecting peer) = serve v (disconnects peer)
  happen v installing = serve v installs
  happen v shuts_down = shut v (shutdown v)

  abbrev pub happens : VoiceIrohService → List Event → VoiceIrohService
  happens v [] = v
  happens v (e ∷ es) = happens (happen v e) es
