-- ===== src/VoiceCore/Float.antt =====
-- The IEEE floats that the crates compute with. They are not code of this repository: the types
-- and operations are parameters, and a proof names the laws that it relies on.
use Prim.Native.String.{String}
use godot_network_audio.Common.{ℕ, ◌+◌, ◌-◌, ◌*◌, ◌^◌, ◌<◌, ◌≤◌, ◌≡◌, Bool, List, ltb}

-- `lit` and `lit64` read a decimal literal of the source.
pub record Floats : Type 1 where
  pub F32 : Type 0
  pub lit : String → F32
  pub add : F32 → F32 → F32
  pub sub : F32 → F32 → F32
  pub mul : F32 → F32 → F32
  pub div : F32 → F32 → F32
  pub sqrt : F32 → F32
  pub log10 : F32 → F32
  pub abs : F32 → F32
  pub max : F32 → F32 → F32
  pub clamp : F32 → F32 → F32 → F32
  pub is_finite : F32 → Bool
  pub lt : F32 → F32 → Bool
  pub le : F32 → F32 → Bool
  pub sum : List F32 → F32
  pub of_usize : ℕ → F32
  pub round : F32 → F32
  -- `x as u32`
  pub to_u32 : F32 → ℕ
  pub F64 : Type 0
  pub lit64 : String → F64
  pub add64 : F64 → F64 → F64
  pub sub64 : F64 → F64 → F64
  pub mul64 : F64 → F64 → F64
  pub div64 : F64 → F64 → F64
  pub lt64 : F64 → F64 → Bool
  pub le64 : F64 → F64 → Bool
  pub of_usize64 : ℕ → F64
  -- `x.floor() as usize`
  pub floor : F64 → ℕ
  -- `x as f32`
  pub narrow : F64 → F32

-- Doubles are exact on the integers below 2 ^ 53: the law that the resampler's index arithmetic
-- rests on where the ratio of the rates is an integer.
pub record ExactIntegers (f : Floats) : Type 0 where
  pub zero_exact : f.lit64 "0.0" ≡ f.of_usize64 0
  pub one_exact : f.lit64 "1.0" ≡ f.of_usize64 1
  pub add_exact :
      (a b : ℕ) → a + b < 2 ^ 53 → f.add64 (f.of_usize64 a) (f.of_usize64 b) ≡ f.of_usize64 (a + b)
  pub sub_exact :
      (a b : ℕ)
      → b ≤ a
      → a < 2 ^ 53
      → f.sub64 (f.of_usize64 a) (f.of_usize64 b) ≡ f.of_usize64 (a - b)
  pub div_exact :
      (k b : ℕ)
      → 0 < b
      → k * b < 2 ^ 53
      → f.div64 (f.of_usize64 (k * b)) (f.of_usize64 b) ≡ f.of_usize64 k
  pub lt_exact :
      (a b : ℕ) → a < 2 ^ 53 → b < 2 ^ 53 → f.lt64 (f.of_usize64 a) (f.of_usize64 b) ≡ ltb a b
  pub floor_exact : (n : ℕ) → n < 2 ^ 53 → f.floor (f.of_usize64 n) ≡ n
