-- ===== src/VoiceCore/Harness/Order.antt =====
-- The order of arrivals in voice-core/src/fixture_harness.rs.
use godot_network_audio.Common.{ℕ, ◌≤◌, ◌≡◌, refl, Bool, true, ◌&&◌, List, [], ◌∷◌, leb, arith}
use godot_network_audio.VoiceCore.Harness.{ScheduledPacket, place, sorted, last_arrival}

-- All arrive by `b`, or from `a` on.
abbrev pub is_by : ℕ → List ScheduledPacket → Bool
is_by b [] = true
is_by b (e ∷ es) = leb e.arrival_us b && is_by b es

abbrev pub is_from : ℕ → List ScheduledPacket → Bool
is_from a [] = true
is_from a (e ∷ es) = leb a e.arrival_us && is_from a es

abbrev pub is_ascending : List ScheduledPacket → Bool
is_ascending [] = true
is_ascending (e ∷ es) = is_from e.arrival_us es && is_ascending es

is_from-place :
    (a : ℕ) (e : ScheduledPacket) (es : List ScheduledPacket)
    → is_from a es ≡ true
    → a ≤ e.arrival_us
    → is_from a (place e es) ≡ true
unfolding place
is_from-place a e [] h k = ground (arith, k)
is_from-place a e (x ∷ xs) h k = ground (arith, k, h, is_from-place a e xs)

is_from_earlier :
    (a b : ℕ) (es : List ScheduledPacket) → a ≤ b → is_from b es ≡ true → is_from a es ≡ true
is_from_earlier a b [] h k = refl
is_from_earlier a b (e ∷ es) h k = ground (arith, h, k, is_from_earlier a b es)

place-is_ascending :
    (e : ScheduledPacket) (es : List ScheduledPacket)
    → is_ascending es ≡ true
    → is_ascending (place e es) ≡ true
unfolding place
place-is_ascending e [] h = refl
place-is_ascending e (x ∷ xs) h = ground (
  arith,
  h,
  place-is_ascending e xs,
  is_from-place x.arrival_us e xs,
  is_from_earlier e.arrival_us x.arrival_us xs,
)

pub sorted-is_ascending : (es : List ScheduledPacket) → is_ascending (sorted es) ≡ true
sorted-is_ascending [] = refl
sorted-is_ascending (e ∷ es) = place-is_ascending e (sorted es) (sorted-is_ascending es)

from-last :
    (a : ℕ) (e : ScheduledPacket) (es : List ScheduledPacket)
    → is_from a (e ∷ es) ≡ true
    → a ≤ last_arrival (e ∷ es)
from-last a e [] h = ground (arith, h)
from-last a e (x ∷ xs) h = from-last a x xs (ground (arith, h))

pub is_by-last :
    (es : List ScheduledPacket) → is_ascending es ≡ true → is_by (last_arrival es) es ≡ true
is_by-last [] h = refl
is_by-last (e ∷ []) h = ground arith
is_by-last (e ∷ x ∷ xs) h = ground (
  arith,
  h,
  is_by-last (x ∷ xs) (ground (arith, h)),
  from-last e.arrival_us x xs (ground (arith, h)),
)
