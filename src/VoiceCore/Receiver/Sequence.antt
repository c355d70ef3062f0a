-- ===== src/VoiceCore/Receiver/Sequence.antt =====
-- `sequence_is_newer` of voice-core/src/receiver.rs: serial number comparison modulo 2 ^ 16.
use godot_network_audio.Common.{
  ℕ, ◌^◌, ◌<◌, ◌≡◌, ◌↔◌, true, false, not, ◌||◌, arith, ◌==◌, if◌then◌else◌, wrapping_sub,
  wrapping_add,
}
use godot_network_audio.VoiceCore.Receiver.{sequence_is_newer}

-- A number is newer than a reference exactly when it lies 1 to 2 ^ 15 - 1 steps ahead of it on the
-- circle of 2 ^ 16 numbers, a step past 2 ^ 16 - 1 leading to 0.
newer_iff_ahead :
    (seq reference : ℕ)
    → seq < 2 ^ 16
    → reference < 2 ^ 16
    → (sequence_is_newer seq reference ≡ true)
      ↔ ((k : ℕ) × (0 < k) × (k < 2 ^ 15) × (seq ≡ wrapping_add 16 reference k))
unfolding sequence_is_newer
newer_iff_ahead seq reference hs hr = (
  λ e. (wrapping_sub 16 seq reference, ground arith, ground arith, ground arith),
  λ w. ground (arith, w.1, w.2, w.3),
)

-- Of two distinct numbers exactly one is the newer, unless they lie opposite on the circle, 2 ^ 15
-- apart; then, and for equal numbers, neither is.
newer_total :
    (a b : ℕ)
    → a < 2 ^ 16
    → b < 2 ^ 16
    → (sequence_is_newer a b ≡ (
        if (a == b) || (wrapping_add 16 a (2 ^ 15) == b)
        then false
        else not (sequence_is_newer b a)))
unfolding sequence_is_newer
newer_total a b ha hb = ground arith
