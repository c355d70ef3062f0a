-- ===== src/VoiceCore/Harness/Impaired.antt =====
-- What becomes of the packets in the simulated network of voice-core/src/fixture_harness.rs.
use godot_network_audio.Common.{
  ℕ, zero, suc, ◌+◌, ◌*◌, ◌%◌, ◌^◌, ◌<◌, ◌≤◌, ◌≡◌, ◌==◌, ◌||◌, refl, inl, inr, Bool, true, false,
  Option, none, some, List, [], ◌∷◌, length, get_or, is_empty, leb, arith, Bool-cases, All,
}
use godot_network_audio.Common.Run.{Run, done}
use godot_network_audio.VoiceCore.Packet.{VoicePacket}
use godot_network_audio.VoiceCore.Harness.{
  ImpairmentProfile, ScheduledPacket, is_nth, should_drop_packet, arrival_of, scheduled, in_bursts,
  place, sorted, impair_packets, last_arrival,
}
use godot_network_audio.VoiceCore.Harness.Order.{is_by, is_ascending, sorted-is_ascending}

-- Whether a remainder by the distance between drops is defined.
abbrev pub is_spaced : Option ℕ → Bool
is_spaced none = true
is_spaced (some zero) = false
is_spaced (some (suc n)) = true

-- A profile that the harness can apply: there is a jitter pattern, which delays by `bound` at most, and
-- the distance between drops, if there is one, is not 0.
pub record IsProfile (p : ImpairmentProfile) (bound : ℕ) : Type 0 where
  pub has_jitter : is_empty p.jitter_pattern_us ≡ false
  pub delays : All (λ us. us ≤ bound) p.jitter_pattern_us
  pub spaced : is_spaced p.drop_every_nth ≡ true

get_or_bounded : (xs : List ℕ) (i b : ℕ) → All (λ x. x ≤ b) xs → get_or xs i 0 ≤ b
get_or_bounded [] i b h = omega arith
get_or_bounded (x ∷ xs) zero b (h, hs) = h
get_or_bounded (x ∷ xs) (suc i) b (h, hs) = get_or_bounded xs i b hs

is_nth-done :
    (i : ℕ) (n : Option ℕ) (offset : ℕ)
    → is_spaced n ≡ true
    → (drops : Bool) × (is_nth i n offset ≡ done drops)
is_nth-done i none offset h = (false, refl)
is_nth-done i (some zero) offset h = absurd (ground (arith, h))
is_nth-done i (some (suc n)) offset h = ((i % suc n) == offset, refl)

-- Where a run of the loop gets, with each event in its bound.
abbrev pub Schedules : ℕ → Run (List ScheduledPacket) → Type 0
Schedules b r = (events : List ScheduledPacket) × (r ≡ done events) × (is_by b events ≡ true)

arrival-done :
    (i bound : ℕ) (p : ImpairmentProfile)
    → IsProfile p bound
    → i * 20_000 + bound < 2 ^ 64
    → (us : ℕ) × (arrival_of i p ≡ done us) × (us ≤ i * 20_000 + bound)
unfolding arrival_of
arrival-done i bound p h room =
    let jitter =
      get_or_bounded p.jitter_pattern_us (i % length p.jitter_pattern_us) bound h.delays in
    let us = i * 20_000 + get_or p.jitter_pattern_us (i % length p.jitter_pattern_us) 0 in
    let below : leb (2 ^ 64) us ≡ false = ground (arith, jitter, room) in
    (us, rw (h.has_jitter, below) refl, omega (arith, jitter))

scheduled-Schedules :
    (i bound b : ℕ) (p : ImpairmentProfile) (packets : List VoicePacket)
    → IsProfile p bound
    → (i + length packets) * 20_000 + bound ≤ b
    → b < 2 ^ 64
    → Schedules b (scheduled i p packets)
unfolding scheduled should_drop_packet
scheduled-Schedules i bound b p [] h le room = ([], refl, refl)
scheduled-Schedules i bound b p (packet ∷ packets) h le room =
    let (events, rest, by) =
      scheduled-Schedules (i + 1) bound b p packets h (omega (arith, le)) room in
    let (drops, nth) = is_nth-done i p.drop_every_nth p.drop_offset h.spaced in
    let (us, arrives, at_most) = arrival-done i bound p h (omega (arith, le)) in
    elim (Bool-cases (drops || in_bursts p.burst_loss_ranges i)) [
      | inl drop ↦ rw (nth, drop) (events, rest, by)
      | inr keep ↦
          rw (nth, keep, arrives, rest)
            (
              record { packet = packet; arrival_us = us } ∷ events,
              refl,
              ground (arith, by, at_most, le),
            )
    ]

place-is_by :
    (b : ℕ) (e : ScheduledPacket) (es : List ScheduledPacket)
    → e.arrival_us ≤ b
    → is_by b es ≡ true
    → is_by b (place e es) ≡ true
unfolding place
place-is_by b e [] h k = ground (arith, h)
place-is_by b e (x ∷ xs) h k =
    let rest : is_by b xs ≡ true = ground (arith, k) in
    ground (arith, h, k, place-is_by b e xs h rest)

sorted-is_by : (b : ℕ) (es : List ScheduledPacket) → is_by b es ≡ true → is_by b (sorted es) ≡ true
sorted-is_by b [] h = refl
sorted-is_by b (e ∷ es) h =
    place-is_by b e (sorted es) (ground (arith, h)) (sorted-is_by b es (ground (arith, h)))

last_by : (b : ℕ) (es : List ScheduledPacket) → is_by b es ≡ true → last_arrival es ≤ b
last_by b [] h = omega arith
last_by b (e ∷ []) h = ground (arith, h)
last_by b (e ∷ e' ∷ es) h = last_by b (e' ∷ es) (ground (arith, h))

-- The events that a profile which can be applied makes of packets: they come in order, the last one
-- within 20 ms for each packet and the longest delay.
pub record Impairs (packets : List VoicePacket) (p : ImpairmentProfile) (bound : ℕ) : Type 0 where
  pub events : List ScheduledPacket
  pub impaired : impair_packets packets p ≡ done events
  pub ascending : is_ascending events ≡ true
  pub last : last_arrival events ≤ length packets * 20_000 + bound

pub impair_packets-Impairs :
    (packets : List VoicePacket) (p : ImpairmentProfile) (bound : ℕ)
    → IsProfile p bound
    → length packets * 20_000 + bound < 2 ^ 64
    → Impairs packets p bound
unfolding impair_packets
impair_packets-Impairs packets p bound h room =
    let b = length packets * 20_000 + bound in
    let (events, runs, by) = scheduled-Schedules 0 bound b p packets h (omega arith) room in
    record {
      events = sorted events;
      impaired = rw runs refl;
      ascending = sorted-is_ascending events;
      last = last_by b (sorted events) (sorted-is_by b events by);
    }
