-- ===== src/IrohSidecar/Fixtures.antt =====
-- Concrete connections on which the tests of the transport run. A connection is its remote's number
-- with a number of its own.
use Prim.Native.Nat.{ℕ}
use godot_network_audio.Common.{false, none, List, [], ◌∷◌, ==_iff, ◌==◌}
use godot_network_audio.Common.Keys.{Keys}
use godot_network_audio.VoiceCore.Error.{gives}
use godot_network_audio.IrohSidecar.Service.Races.{Threads, Move, inserts, removes, sends, hands_on}
use godot_network_audio.IrohSidecar.Service.{Iroh, SharedState, Step, opens, reads, ends}

abbrev pub numbers : Keys
numbers = record { Key = ℕ; is_same = λ a b. a == b; is_same_iff = λ a b. ==_iff a b }

abbrev pub net : Iroh
net = record {
  ids = numbers;
  from_str = λ text. gives 7;
  to_string = λ id. "id";
  Connection = ℕ × ℕ;
  remote_id = λ c. c.0;
  send = λ c bytes. gives tt;
}

abbrev pub idle : SharedState net
idle = record {
  peers = λ p. none;
  alpn = 118 ∷ [];
  packet_handler = false;
  events = [];
  handled = [];
  closed = [];
}

abbrev pub steps : List (Step net)
steps =
    opens (7, 0)
    ∷ reads (7, 0) (1 ∷ []) 5
    ∷ opens (7, 1)
    ∷ ends (7, 0)
    ∷ opens (8, 2)
    ∷ ends (7, 1)
    ∷ []

-- Two connections whose events cross, a datagram in between, and a peer that comes back.
abbrev pub crossing : List (Move net)
crossing =
    inserts (7, 0)
    ∷ inserts (8, 2)
    ∷ sends 1
    ∷ hands_on 7 (1 ∷ []) 5
    ∷ sends 0
    ∷ removes 7
    ∷ sends 0
    ∷ inserts (7, 1)
    ∷ sends 0
    ∷ []

abbrev pub quiet : Threads net
quiet = record { shared = idle; unsent = [] }
