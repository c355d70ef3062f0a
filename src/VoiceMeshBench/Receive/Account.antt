-- ===== src/VoiceMeshBench/Receive/Account.antt =====
-- What becomes of the datagrams that a listener of voice-mesh-bench/src/main.rs drains.
use godot_network_audio.Common.{
  ℕ, not, ◌||◌, ◌+◌, ◌<◌, suc, ◌⊎◌, ◌≡◌, refl, inl, inr, Bool, true, false, Option, none, some,
  List, [], ◌∷◌, length, drop, ltb, arith, Bool-cases, All,
}
use Prim.Native.String.{String}
use godot_network_audio.VoiceCore.Error.{Error, Result, ok, err}
use godot_network_audio.VoiceCore.Float.{Floats}
use godot_network_audio.VoiceCore.Packet.{VoicePacket, decode_from_bytes}
use godot_network_audio.VoiceCore.Receiver.Jitter.{NetEq}
use godot_network_audio.VoiceMeshBench.Schedule.{listener_interested}
use godot_network_audio.VoiceMeshBench.Relay.{u64_at, envelope_header_len}
use godot_network_audio.VoiceMeshBench.Arguments.{Doubles, Config}
use godot_network_audio.VoiceMeshBench.Impairment.{should_drop}
use godot_network_audio.VoiceMeshBench.Receive.{
  ReceivedDatagram, RunCounters, Drained, emptied, outside_table, failed, ReceiverSlot, Listener,
  route_affected_by_churn, note_gap, noted, acquire, note_first_media, end_of, deliver, take_packet,
  malformed, take_read, let_through, impaired, take_datagram, go_on, drain_received,
}

-- The datagrams that came to one of the four ends.
abbrev pub settled : RunCounters → ℕ
settled k =
    k.malformed_datagrams + k.media_impairment_dropped_datagrams + k.outside_interest_datagrams
    + k.accepted_datagrams

abbrev pub impaired_or_not : RunCounters → ℕ
impaired_or_not k = k.media_impairment_dropped_datagrams + k.media_impairment_delivered_datagrams

-- A panic of the tables' bounds aside, no row is missing.
abbrev pub IsInTable : Drained → Type 0
IsInTable ended = (reason : String) → ¬ (ended ≡ outside_table reason)

module _ (f : Floats) (d : Doubles f) (n : NetEq f.F32) where
  open n use {Instant}

  -- By how much the counters of the second state are ahead of those of the first.
  record Moves (s s' : Listener f d n) (taken ended attempted judged : ℕ) : Type 0 where
    takes : s'.counters.received_datagrams ≡ s.counters.received_datagrams + taken
    ends : settled s'.counters ≡ settled s.counters + ended
    attempts :
        s'.counters.media_impairment_attempted_datagrams
        ≡ s.counters.media_impairment_attempted_datagrams + attempted
    judges : impaired_or_not s'.counters ≡ impaired_or_not s.counters + judged
    pools :
        length s'.receiver_pool + s'.receiver_reuses ≡ length s.receiver_pool + s.receiver_reuses

  moves_then :
      {s1 s2 s3 : Listener f d n} {t t' e e' a a' j j' : ℕ}
      → Moves s1 s2 t e a j
      → Moves s2 s3 t' e' a' j'
      → Moves s1 s3 (t + t') (e + e') (a + a') (j + j')
  moves_then m m' = record {
    takes = omega (arith, m.takes, m'.takes);
    ends = omega (arith, m.ends, m'.ends);
    attempts = omega (arith, m.attempts, m'.attempts);
    judges = omega (arith, m.judges, m'.judges);
    pools = omega (arith, m.pools, m'.pools);
  }

  moved :
      {s s' : Listener f d n} {taken ended attempted judged : ℕ}
      → (s'.counters.received_datagrams ≡ s.counters.received_datagrams + taken)
        × (settled s'.counters ≡ settled s.counters + ended)
        × (s'.counters.media_impairment_attempted_datagrams
            ≡ s.counters.media_impairment_attempted_datagrams + attempted)
        × (impaired_or_not s'.counters ≡ impaired_or_not s.counters + judged)
        × (length s'.receiver_pool + s'.receiver_reuses
            ≡ length s.receiver_pool + s.receiver_reuses)
      → Moves s s' taken ended attempted judged
  moved (a, b, c, d, e) = record { takes = a; ends = b; attempts = c; judges = d; pools = e }

  -- What the note of a gap leaves as it was.
  abbrev Same : RunCounters → RunCounters → Type 0
  Same k k' =
      (k'.received_datagrams ≡ k.received_datagrams)
      × (settled k' ≡ settled k)
      × (k'.media_impairment_attempted_datagrams ≡ k.media_impairment_attempted_datagrams)
      × (impaired_or_not k' ≡ impaired_or_not k)

  note_gap-Same :
      (affected : Bool) (at : ℕ) (previous : Option ℕ) (k : RunCounters)
      → Same k (note_gap f d n affected at previous k)
  note_gap-Same affected at none k = (refl, refl, refl, refl)
  note_gap-Same true at (some p) k = (refl, refl, refl, refl)
  note_gap-Same false at (some p) k = (refl, refl, refl, refl)

  noted-Moves :
      (listener : ℕ) (c : Config f d) (g : ReceivedDatagram) (p : ℕ) (s : Listener f d n)
      → Moves s (noted f d n listener c g p s) 0 0 0 0
  unfolding noted
  noted-Moves listener c g p s =
      let (a, b, e, h) =
        note_gap-Same (route_affected_by_churn f d n listener g.speaker c) g.received_at_us
          (s.last_transport_received_us g.speaker) s.counters in
      record {
        takes = omega (arith, a);
        ends = omega (arith, b);
        attempts = omega (arith, e);
        judges = omega (arith, h);
        pools = omega arith;
      }

  -- A slot from the pool, or made, or the error of making it.
  acquire-Moves :
      (c : Config f d) (row : Option (ReceiverSlot f d n)) (s : Listener f d n)
      → Moves s (acquire f d n c row s).0 0 0 0 0
  unfolding acquire
  acquire-Moves c row s = moved (ground arith)

  note_first_media-Moves :
      (g : ReceivedDatagram) (packet : VoicePacket) (s : Listener f d n)
      → Moves s (note_first_media f d n g packet s) 0 0 0 0
  unfolding note_first_media
  note_first_media-Moves g packet s = moved (ground arith)

  -- What a step of the loop promises: its moves, and that it ends at no missing row.
  abbrev Ends : Listener f d n → Listener f d n × Drained → ℕ → ℕ → ℕ → ℕ → Type 0
  Ends s (s', ended) taken settled attempted judged =
      Moves s s' taken settled attempted judged × IsInTable ended

  end_of-IsInTable : (r : Result (Unit {0})) → IsInTable (end_of f d n r)
  end_of-IsInTable (ok tt) reason e = cc e
  end_of-IsInTable (err _) reason e = cc e

  deliver-Ends :
      (now : Instant) (g : ReceivedDatagram) (p : ℕ) (packet : VoicePacket) (s : Listener f d n)
      (made : Listener f d n × Result (ReceiverSlot f d n))
      → Moves s made.0 0 0 0 0
      → Ends s (deliver f d n now g p packet made) 0 0 0 0
  deliver-Ends now g p packet s (s', err e) m = (m, λ reason. end_of-IsInTable (err e) reason)
  deliver-Ends now g p packet s (s', ok slot) m =
      let noticed = moves_then m (note_first_media-Moves g packet s') in
      (
        record {
          takes = noticed.takes;
          ends = noticed.ends;
          attempts = noticed.attempts;
          judges = noticed.judges;
          pools = noticed.pools;
        },
        end_of-IsInTable _,
      )

  take_packet-Ends :
      (listener : ℕ) (c : Config f d) (current : ℕ) (now : Instant) (g : ReceivedDatagram) (p : ℕ)
      (packet : VoicePacket) (s : Listener f d n)
      → Ends s (take_packet f d n listener c current now g p packet s) 0 1 0 0
  unfolding take_packet
  take_packet-Ends listener c current now g p packet s =
      let k = s.counters in
      let s' : Listener f d n = record s {
        counters = record k { accepted_datagrams = k.accepted_datagrams + 1 };
      } in
      let kept : Moves s s' 0 1 0 0 = moved (ground arith) in
      elim (Bool-cases (
        not (listener_interested c.schedule (u64_at g.bytes 8) g.speaker listener)
        || not (listener_interested c.schedule current g.speaker listener))) [
          | inl outside ↦ rw outside (moved (ground arith), end_of-IsInTable (ok tt))
          | inr wanted ↦ rw wanted (
              let (moves, known) =
                deliver-Ends now g p packet s' (acquire f d n c (s'.receivers g.speaker) s')
                  (acquire-Moves c (s'.receivers g.speaker) s') in
              (moves_then kept moves, known))
        ]

  -- An end of the loop's turn that only counts.
  settles : {s s' : Listener f d n} {e a j : ℕ} → Moves s s' 0 e a j → Ends s (s', emptied) 0 e a j
  settles m = (m, end_of-IsInTable (ok tt))

  read-Ends :
      (listener : ℕ) (c : Config f d) (current : ℕ) (now : Instant) (g : ReceivedDatagram) (p : ℕ)
      (read : Result VoicePacket) (s : Listener f d n)
      → Ends s (take_read f d n listener c current now g p read s) 0 1 0 0
  read-Ends listener c current now g p (ok packet) s =
      take_packet-Ends listener c current now g p packet s
  read-Ends listener c current now g p (err reason) s = settles (moved (ground arith))

  let_through-Ends :
      (listener : ℕ) (c : Config f d) (current : ℕ) (now : Instant) (g : ReceivedDatagram) (p : ℕ)
      (s : Listener f d n)
      → Ends s (let_through f d n listener c current now g p s) 0 1 0 1
  unfolding let_through
  let_through-Ends listener c current now g p s =
      let (moves, known) =
        read-Ends listener c current now g p (decode_from_bytes (drop envelope_header_len g.bytes))
          _ in
      (moves_then {t = 0} {e = 0} {a = 0} {j = 1} (moved (ground arith)) moves, known)

  -- Whatever the impairment does: a datagram that it judges is dropped or delivered.
  impaired-Ends :
      (listener : ℕ) (c : Config f d) (current : ℕ) (now : Instant) (g : ReceivedDatagram) (p : ℕ)
      (s : Listener f d n)
      → Ends s (impaired f d n listener c current now g p s) 0 1 1 1
  unfolding impaired
  impaired-Ends listener c current now g p s =
      let (route, dropped) = should_drop f d c (s.impairment_routes g.speaker) (u64_at g.bytes 8) in
      elim (Bool-cases dropped) [
        | inl drops ↦ rw drops (settles (moved (ground arith)))
        | inr passes ↦ rw passes (
            let (moves, known) = let_through-Ends listener c current now g p _ in
            (moves_then {t = 0} {e = 0} {a = 1} {j = 0} (moved (ground arith)) moves, known))
      ]

  -- A turn for a datagram whose speaker has a row takes it and sees it to one end.
  take_datagram-Ends :
      (listener : ℕ) (c : Config f d) (current : ℕ) (g : ReceivedDatagram) (p : ℕ) (now : Instant)
      (s : Listener f d n)
      → g.speaker < c.schedule.participants
      → (j : ℕ) × Ends s (take_datagram f d n listener c current (g, p, now) s) 1 1 j j
  unfolding take_datagram
  take_datagram-Ends listener c current g p now s known =
      let row : ltb g.speaker c.schedule.participants ≡ true = ground (arith, known) in
      let s1 : Listener f d n = record s {
        counters = record s.counters {
          received_datagrams = s.counters.received_datagrams + 1;
          received_bytes = s.counters.received_bytes + length g.bytes;
        };
      } in
      let taken : Moves s s1 1 0 0 0 = moved (ground arith) in
      let s2 = noted f d n listener c g p s1 in
      let first : Moves s s2 1 0 0 0 = moves_then taken (noted-Moves listener c g p s1) in
      let ends : Moves s2 (malformed f d n s2) 0 1 0 0 = moved (ground arith) in
      rw row (elim (Bool-cases (ltb (length g.bytes) envelope_header_len)) [
        | inl short ↦ rw short (0, (moves_then first ends, end_of-IsInTable (ok tt)))
        | inr long ↦ rw long (
            let (moves, in_table) = impaired-Ends listener c current now g p s2 in
            (1, (moves_then first moves, in_table)))
      ])

  -- What became of `count` datagrams: each that was taken came to one end, each that the impairment
  -- judged was dropped or delivered, and a slot that left the pool is in use again.
  abbrev pub Accounts : ℕ → Listener f d n → Listener f d n × Drained → Type 0
  Accounts count s (s', ended) =
      (s'.counters.received_datagrams + settled s.counters
        ≡ s.counters.received_datagrams + settled s'.counters)
      × (s'.counters.media_impairment_attempted_datagrams + impaired_or_not s.counters
          ≡ s.counters.media_impairment_attempted_datagrams + impaired_or_not s'.counters)
      × (length s'.receiver_pool + s'.receiver_reuses ≡ length s.receiver_pool + s.receiver_reuses)
      × (((ended ≡ emptied)
            × (s'.counters.received_datagrams ≡ s.counters.received_datagrams + count))
          ⊎ ((e : Error) × (ended ≡ failed e)))

  go_on-Accounts :
      (count j : ℕ) (s s1 : Listener f d n) (ended : Drained) (rest : Listener f d n × Drained)
      → Moves s s1 1 1 j j
      → IsInTable ended
      → Accounts count s1 rest
      → Accounts (suc count) s (go_on f d n s1 ended rest)
  go_on-Accounts count j s s1 emptied (s2, ended) m in_table (a, b, e, h) = (
    omega (arith, m.takes, m.ends, a),
    omega (arith, m.attempts, m.judges, b),
    omega (arith, m.pools, e),
    elim h [
      | inl (done, all) ↦ inl (done, omega (arith, m.takes, all))
      | inr failure ↦ inr failure
    ],
  )
  go_on-Accounts count j s s1 (outside_table reason) rest m in_table h =
      absurd (in_table reason refl)
  go_on-Accounts count j s s1 (failed e) rest m in_table h =
      (omega (arith, m.takes, m.ends), omega (arith, m.attempts, m.judges), m.pools, inr (e, refl))

  -- For datagrams of participants, whatever their bytes, the clocks, NetEq and Opus: draining ends
  -- with an empty channel, all of it counted as received, or with an error of voice-core. Either way
  -- each datagram that it took is counted once more, as malformed, dropped by the impairment, outside
  -- interest or accepted; each that the impairment judged is counted as dropped or delivered; and
  -- each receiver that left the pool is counted as reused.
  pub drain_received-Accounts :
      (listener : ℕ) (c : Config f d) (current : ℕ) (gs : List (ReceivedDatagram × ℕ × Instant))
      (s : Listener f d n)
      → All (λ g. g.0.speaker < c.schedule.participants) gs
      → Accounts (length gs) s (drain_received f d n listener c current gs s)
  unfolding drain_received
  drain_received-Accounts listener c current [] s known =
      (omega arith, omega arith, refl, inl (refl, omega arith))
  drain_received-Accounts listener c current ((g, p, now) ∷ gs) s (here, there) =
      let (s1, ended) = take_datagram f d n listener c current (g, p, now) s in
      let (j, (moves, in_table)) = take_datagram-Ends listener c current g p now s here in
      go_on-Accounts (length gs) j s s1 ended _ moves in_table
        (drain_received-Accounts listener c current gs s1 there)
