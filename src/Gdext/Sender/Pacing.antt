-- ===== src/Gdext/Sender/Pacing.antt =====
-- The pace of the worker's loop in gdext/src/sender.rs. Instants are in microseconds.
use godot_network_audio.Common.{
  ℕ, ◌+◌, ◌-◌, ◌*◌, ◌≤◌, ◌≡◌, Bool, true, ◌&&◌, Option, none, some, List, [], ◌∷◌, leb, ltb,
  if◌then◌else◌, arith,
}

abbrev pub pace_interval_us : ℕ
pace_interval_us = 20_000

-- `ticks` counts the ticks.
pub record Pace : Type 0 where
  pub next_tick : ℕ
  pub ticks : ℕ

-- When the next tick is due; a worker that is over ten seconds behind gives up what it missed.
abbrev pub due_after : ℕ → ℕ → ℕ
due_after next_tick after =
    let next = next_tick + pace_interval_us in if ltb (next + 10_000_000) after then after else next

-- One round of the loop, which reads the clock as `now` at its start and as `after` at its end: it
-- waits, or makes a tick with a lag.
unfoldable pub round : Pace → ℕ → ℕ → Option ℕ × Pace
round p now after = if ltb now p.next_tick then (none, p) else (
  some (now - p.next_tick),
  record { next_tick = due_after p.next_tick after; ticks = p.ticks + 1 },
)

abbrev pub rounds : Pace → List (ℕ × ℕ) → Pace
rounds p [] = p
rounds p ((now, after) ∷ rs) = rounds (round p now after).1 rs

-- The clock never goes back, from `t` on.
abbrev pub is_monotonic : ℕ → List (ℕ × ℕ) → Bool
is_monotonic t [] = true
is_monotonic t ((now, after) ∷ rs) = leb t now && (leb now after && is_monotonic after rs)

abbrev pub last_reading : ℕ → List (ℕ × ℕ) → ℕ
last_reading t [] = t
last_reading t ((now, after) ∷ rs) = last_reading after rs

-- The pace of a worker that started at `epoch`, at the reading `t`.
pub record IsPaced (epoch t : ℕ) (p : Pace) : Type 0 where
  pub spaced : epoch + p.ticks * pace_interval_us ≤ p.next_tick
  pub near : p.next_tick ≤ t + pace_interval_us

round-IsPaced :
    (epoch t now after : ℕ) (p : Pace)
    → t ≤ now
    → now ≤ after
    → IsPaced epoch t p
    → IsPaced epoch after (round p now after).1
unfolding round
round-IsPaced epoch t now after p h k w = record {
  spaced = ground (arith, h, k, w.spaced, w.near);
  near = ground (arith, h, k, w.spaced, w.near);
}

-- However long a worker waits, is late or falls behind, it makes no more ticks than one at its start
-- and one for each 20 ms since, and the next tick is at most 20 ms ahead of the clock.
pub rounds-IsPaced :
    (epoch t : ℕ) (p : Pace) (rs : List (ℕ × ℕ))
    → is_monotonic t rs ≡ true
    → IsPaced epoch t p
    → IsPaced epoch (last_reading t rs) (rounds p rs)
rounds-IsPaced epoch t p [] h w = w
rounds-IsPaced epoch t p ((now, after) ∷ rs) h w =
    rounds-IsPaced epoch after (round p now after).1 rs (ground (arith, h))
      (round-IsPaced epoch t now after p (ground (arith, h)) (ground (arith, h)) w)
