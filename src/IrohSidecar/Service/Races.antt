-- ===== src/IrohSidecar/Service/Races.antt =====
-- The gap in iroh-sidecar/src/service.rs between a change of the map, which is made under its lock, and
-- the event that tells of it, which is sent afterwards: in between other threads may change the map and
-- send their events.
use godot_network_audio.Common.{
  ℕ, zero, suc, ◌≡◌, Option, none, some, List, [], ◌∷◌, ◌++◌, append_assoc, arith,
}
use godot_network_audio.Common.Keys.{is_same_refl}
use godot_network_audio.IrohSidecar.Service.{
  Iroh, EndpointId, VoiceEvent, SharedState, peer_connected, peer_disconnected, insert_connection,
  remove_connection, emit, receive, set_packet_handler, open_connection, end_reader,
}

module _ (i : Iroh) where
  open i use {ids, Connection, remote_id}

  -- The service, and the events of the threads that have changed the map and not sent them yet.
  pub record Threads : Type 0 where
    pub shared : SharedState i
    pub unsent : List (VoiceEvent i)

  -- A thread changes the map, or one of those that wait sends its event, or a reader hands on a
  -- datagram, or the direct handler is installed, in any order.
  pub data Move : Type 0 where
    inserts : Connection → Move
    removes : EndpointId i → Move
    sends : ℕ → Move
    hands_on : EndpointId i → List ℕ → ℕ → Move
    installs : Move

  abbrev pub pending : Option (VoiceEvent i) → List (VoiceEvent i)
  pending none = []
  pending (some e) = e ∷ []

  -- The event of the `k`-th thread that waits is sent.
  abbrev pub send_from : ℕ → List (VoiceEvent i) → Threads → Threads
  send_from k [] t = record t { unsent = [] }
  send_from zero (e ∷ es) t = record { shared = emit i t.shared e; unsent = es }
  send_from (suc k) (e ∷ es) t =
      let t' = send_from k es t in record { shared = t'.shared; unsent = e ∷ t'.unsent }

  unfoldable pub move : Threads → Move → Threads
  unfolding insert_connection remove_connection receive set_packet_handler
  move t (inserts c) =
      let (e, s) = insert_connection i t.shared c in
      record { shared = s; unsent = t.unsent ++ (e ∷ []) }
  move t (removes peer) =
      let (e, s) = remove_connection i t.shared peer in
      record { shared = s; unsent = t.unsent ++ pending e }
  move t (sends k) = send_from k t.unsent t
  move t (hands_on peer bytes at) = record t { shared = receive i t.shared peer bytes at }
  move t installs = record t { shared = set_packet_handler i t.shared }

  abbrev pub moves : Threads → List Move → Threads
  moves t [] = t
  moves t (m ∷ ms) = moves (move t m) ms

  -- Where no other thread comes between a change and its event, they are one step of the service.
  unbroken_open :
      (t : Threads) (c : Connection)
      → t.unsent ≡ []
      → moves t (inserts c ∷ sends 0 ∷ [])
        ≡ record { shared = open_connection i t.shared c; unsent = [] }
  unfolding move open_connection
  unbroken_open t c none_waits = ground (arith, none_waits)

  unbroken_end :
      (t : Threads) (peer : EndpointId i)
      → t.unsent ≡ []
      → moves t (removes peer ∷ sends 0 ∷ [])
        ≡ record { shared = end_reader i t.shared peer; unsent = [] }
  unfolding move end_reader
  unbroken_end t peer none_waits = ground (arith, none_waits)

  -- A peer reconnects while the reader of its old connection ends, and the new connection's event
  -- overtakes the end's.
  abbrev pub overtaking : Connection → List Move
  overtaking new = removes (remote_id new) ∷ inserts new ∷ sends 1 ∷ sends 0 ∷ []

  pub overtaking_lem :
      (t : Threads) (old new : Connection)
      → t.unsent ≡ []
      → t.shared.peers (remote_id new) ≡ some old
      → ((moves t (overtaking new)).shared.peers (remote_id new) ≡ some new)
        × ((moves t (overtaking new)).unsent ≡ [])
        × ((moves t (overtaking new)).shared.events
            ≡ t.shared.events
              ++ (peer_connected (remote_id new) ∷ peer_disconnected (remote_id new) ∷ []))
  unfolding move
  overtaking_lem t old new none_waits was = ground (
    arith,
    none_waits,
    was,
    is_same_refl ids (remote_id new),
    append_assoc t.shared.events (peer_connected (remote_id new) ∷ [])
        (peer_disconnected (remote_id new) ∷ []),
  )
