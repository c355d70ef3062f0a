-- ===== src/VoiceCore/Harness/Resampled.antt =====
-- voice-core/src/fixture_harness.rs: linear_resample_mono, for the fixtures.
use native.Mathlib.Nat.{div-mul-le_self, lt-div-mul-add}
use godot_network_audio.Common.{
  ℕ, zero, suc, ◌+◌, ◌-◌, ◌*◌, ◌/◌, ◌<◌, ◌≤◌, ◌≡◌, ◌==◌, ==_iff, subst, refl, ◌||◌, List, [], ◌∷◌,
  length, get_or, if◌then◌else◌, min, is_empty, arith, Bool-cases, inl, inr,
}
use godot_network_audio.VoiceCore.Float.{Floats}

-- `u64::div_ceil`; the product is below 2 ^ 64.
abbrev pub out_len : ℕ → ℕ → ℕ → ℕ
out_len len input_rate output_rate = (len * output_rate + (input_rate - 1)) / input_rate

module _ (f : Floats) where
  open f use {F32, lit, add, sub, mul, of_usize64, div64, mul64, sub64, floor, narrow}

  -- Every index is below the length of the input, so the default of `get_or` is never read.
  abbrev pub sample_at : List F32 → ℕ → ℕ → ℕ → F32
  sample_at input input_rate output_rate i =
      let ratio = div64 (of_usize64 input_rate) (of_usize64 output_rate) in
      let src_pos = mul64 (of_usize64 i) ratio in
      let idx = floor src_pos in
      let frac = narrow (sub64 src_pos (of_usize64 idx)) in
      let a = get_or input (min idx (length input - 1)) (lit "0.0") in
      let b = get_or input (min (idx + 1) (length input - 1)) (lit "0.0") in
      add a (mul (sub b a) frac)

  -- `for i in i..i + n`
  abbrev pub samples_from : List F32 → ℕ → ℕ → ℕ → ℕ → List F32
  samples_from input input_rate output_rate zero i = []
  samples_from input input_rate output_rate (suc n) i =
      sample_at input input_rate output_rate i ∷ samples_from input input_rate output_rate n (i + 1)

  unfoldable pub linear_resample_mono : List F32 → ℕ → ℕ → List F32
  linear_resample_mono input input_rate output_rate =
      if (input_rate == output_rate) || is_empty input
      then input
      else samples_from input input_rate output_rate (out_len (length input) input_rate output_rate)
          0

  length-samples_from : (input : List F32) (a b n i : ℕ) → length (samples_from input a b n i) ≡ n
  length-samples_from input a b zero i = refl
  length-samples_from input a b (suc n) i = omega (arith, length-samples_from input a b n (i + 1))

  -- The output lasts as long as the input, rounded up to a sample.
  length-linear_resample_mono :
      (input : List F32) (input_rate output_rate : ℕ)
      → 0 < input_rate
      → (length input * output_rate
          ≤ length (linear_resample_mono input input_rate output_rate) * input_rate)
        × (length (linear_resample_mono input input_rate output_rate) * input_rate
            < length input * output_rate + input_rate)
  unfolding linear_resample_mono
  length-linear_resample_mono [] a b positive = ground arith
  length-linear_resample_mono (x ∷ xs) a b positive = elim (Bool-cases (a == b)) [
    | inl same ↦
        let e : a ≡ b = (==_iff a b).0 same in
        subst
          (λ (r : ℕ).
            (suc (length xs) * r ≤ length (linear_resample_mono (x ∷ xs) a r) * a)
            × (length (linear_resample_mono (x ∷ xs) a r) * a < suc (length xs) * r + a))
          e (rw ((==_iff a a).1 refl) (omega arith, omega arith))
    | inr apart ↦
        let n = suc (length xs) * b + (a - 1) in
        let len : length (linear_resample_mono (x ∷ xs) a b) ≡ n / a =
          ground (arith, apart, length-samples_from (x ∷ xs) a b (n / a) 0) in
        let low : n / a * a ≤ n = div-mul-le_self n a in
        let high : n < n / a * a + a = lt-div-mul-add positive in
        rw len (omega (arith, low, high), omega (arith, low, high))
  ]
