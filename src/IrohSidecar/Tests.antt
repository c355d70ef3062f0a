-- ===== src/IrohSidecar/Tests.antt =====
-- The theorems of iroh-sidecar applied to concrete runs. A connection is its remote's number with a
-- number of its own.
use godot_network_audio.Common.{ℕ, ◌≤◌, ◌≡◌, refl, true, false, none, some, List, [], ◌∷◌, arith}
use godot_network_audio.VoiceCore.Error.{gives}
use godot_network_audio.IrohSidecar.Endpoint.{
  VoiceIrohService, Setup, VoiceIrohConfig, Incoming, Event, arrives, finishes, happens, bind,
  ready, fresh, shutdown, accept_branch, accept_incoming,
}
use godot_network_audio.IrohSidecar.Endpoint.Voices.{bound_voices}
use godot_network_audio.IrohSidecar.Endpoint.Stop.{Winds, shutdown_final}
use godot_network_audio.IrohSidecar.Fixtures.{net, idle, steps, quiet, crossing}
use godot_network_audio.IrohSidecar.Service.{
  send_datagram, unknown_peer, insert_connection, peer_replaced, peer_disconnected, opens, ends,
  run, receive, open_connection, start,
}
use godot_network_audio.IrohSidecar.Service.Events.{Mirrors, replaced_reader_disconnects}
use godot_network_audio.IrohSidecar.Service.Races.{move, moves}
use godot_network_audio.IrohSidecar.Service.Orderly.{moves-Mirrors}
use godot_network_audio.IrohSidecar.Service.Delivery.{Delivers, run-Delivers, datagrams}

moves-Mirrors_example : Mirrors net idle (moves net quiet crossing).shared
unfolding move receive
moves-Mirrors_example = moves-Mirrors net quiet crossing refl refl refl

run-Delivers_example : Delivers net false (datagrams net steps) idle (run net idle steps)
run-Delivers_example = run-Delivers net false idle steps refl refl

replaced_reader_disconnects_example :
    let s' = run net idle (opens (7, 0) ∷ opens (7, 1) ∷ ends (7, 0) ∷ []) in
    (s'.peers 7 ≡ none)
    × (send_datagram net s' 7 (1 ∷ []) ≡ unknown_peer 7)
    × (s'.closed ≡ [])
    × (s'.events
        ≡ (insert_connection net idle (7, 0)).0 ∷ peer_replaced 7 ∷ peer_disconnected 7 ∷ [])
replaced_reader_disconnects_example =
    replaced_reader_disconnects net idle (7, 0) (7, 1) (1 ∷ []) refl

abbrev setup : Setup ℕ ℕ
setup = record { build_runtime = gives tt; bind_addr = λ addr. gives tt; bind = λ builder. gives 3 }

abbrev config : VoiceIrohConfig ℕ
config = record { alpn = 118 ∷ []; bind_addr = some 9; relay = true }

abbrev taken : ℕ → Incoming net
taken n = record { accept = true; alpn = some (118 ∷ []); handshake = some (7, n) }

abbrev foreign : Incoming net
foreign = record { accept = true; alpn = some (104 ∷ []); handshake = some (8, 99) }

abbrev visits : List (Event net)
visits = arrives (some foreign) ∷ arrives (some (taken 4)) ∷ finishes 0 ∷ finishes 0 ∷ []

setup_bound : bind net setup config ≡ ready (fresh net (118 ∷ []), 3, false)
unfolding bind
setup_bound = refl

visits_taken : (happens net (fresh net (118 ∷ [])) visits).shared.peers 7 ≡ some (7, 4)
unfolding accept_branch accept_incoming open_connection start
visits_taken = refl

bound_voices_example : (4 ≤ 5) × (◌≡◌ {A = ℕ} 7 7)
bound_voices_example =
    bound_voices net (λ c. c.1 ≤ 5) setup config (fresh net (118 ∷ [])) 3 false visits 7 (7, 4)
      setup_bound (tt, (omega arith, (tt, (tt, tt)))) visits_taken

shutdown_final_example :
    let last = happens net (fresh net (118 ∷ [])) visits in
    (v' : VoiceIrohService net) × (shutdown net last ≡ some v')
    × Winds net last (happens net v' visits)
shutdown_final_example =
    shutdown_final net setup config (fresh net (118 ∷ [])) 3 false visits visits setup_bound
