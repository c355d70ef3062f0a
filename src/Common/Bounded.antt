-- ===== src/Common/Bounded.antt =====
-- Bounded queues that drop their oldest entry to make room, by the newest entries.
use Prim.Native.Nat.{ℕ, zero, suc, ◌+◌, ◌-◌, ◌≤◌, ◌<◌}
use mathlib.Core.Path.{◌≡◌, refl, sym, ap, ◌∙◌}
use mathlib.Core.List.{List, [], ◌∷◌, ◌++◌}
use native.Mathlib.Omega.{arith}
use godot_network_audio.Common.Lists.{length, drop, length-append, length-drop, drop-append_of_le}

module _ {ℓ} {A : Type ℓ} where
  -- The last `size` entries.
  abbrev pub newest : ℕ → List A → List A
  newest size xs = drop (length xs - size) xs

  pub newest_short : (size : ℕ) (xs : List A) → length xs ≤ size → newest size xs ≡ xs
  newest_short size xs h = let e : length xs - size ≡ 0 = omega arith in rw e

  pub length-newest : (size : ℕ) (xs : List A) → length (newest size xs) ≤ size
  length-newest size xs = omega (arith, length-drop (length xs - size) xs)

  drop-nil : (k : ℕ) → drop {A = A} k [] ≡ []
  drop-nil zero = refl
  drop-nil (suc k) = refl

  drop-drop : (j k : ℕ) (xs : List A) → drop j (drop k xs) ≡ drop (k + j) xs
  drop-drop j zero xs = ap (λ (m : ℕ). drop m xs) (omega arith)
  drop-drop j (suc k) [] = drop-nil j ∙ sym (drop-nil (suc k + j))
  drop-drop j (suc k) (x ∷ xs) = drop-drop j k xs ∙ ap (λ (m : ℕ). drop m (x ∷ xs)) suc_add
    where
      suc_add : suc (k + j) ≡ suc k + j
      suc_add = omega arith

  -- What came through one bound and went through it again is what goes through it at once.
  pub newest-append :
      (size : ℕ) (xs ys : List A) → newest size (newest size xs ++ ys) ≡ newest size (xs ++ ys)
  newest-append size xs ys =
      ap (λ l. drop (length (newest size xs ++ ys) - size) l)
        (sym (drop-append_of_le (length xs - size) xs ys (omega arith)))
      ∙ drop-drop (length (newest size xs ++ ys) - size) (length xs - size) (xs ++ ys)
      ∙ ap (λ (m : ℕ). drop m (xs ++ ys))
          (omega (
            arith,
            length-append (newest size xs) ys,
            length-append xs ys,
            length-drop (length xs - size) xs,
          ))

  -- One entry more, with the oldest gone if the queue is full.
  pub newest_step :
      (size : ℕ) (xs : List A) (x : A)
      → 0 < size
      → length xs ≡ size
      → drop 1 xs ++ (x ∷ []) ≡ newest size (xs ++ (x ∷ []))
  newest_step size xs x pos full =
      sym (drop-append_of_le 1 xs (x ∷ []) (omega arith))
      ∙ ap (λ (m : ℕ). drop m (xs ++ (x ∷ []))) one
    where
      one : 1 ≡ length (xs ++ (x ∷ [])) - size
      one = omega (arith, length-append xs (x ∷ []))
