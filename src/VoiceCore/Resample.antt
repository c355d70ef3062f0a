-- ===== src/VoiceCore/Resample.antt =====
-- voice-core/src/resample.rs: linear interpolation between sample rates. An index out of range and
-- a `drain` past the end panic, as slices do in Rust; the `while` loop takes fuel.
pub mod Ratio
pub mod Chunks
use godot_network_audio.Common.{
  ℕ, zero, suc, ◌+◌, Bool, true, false, Option, none, some, List, [], ◌∷◌, ◌++◌, length, get_elem?,
  drop, is_empty, ltb, leb, ◌==◌, ◌||◌, if◌then◌else◌,
}
use godot_network_audio.Common.Run
use godot_network_audio.Common.Run.{Run, done, panics, out_of_fuel, ◌>>=◌}
use godot_network_audio.VoiceCore.Error.{Result, ok, err, unsupported_config}
use godot_network_audio.VoiceCore.Float.{Floats}

module _ (f : Floats) where
  open f use {F32, F64, add, sub, mul, lit64, add64, sub64, div64, lt64, of_usize64, floor, narrow}

  pub record InputResampler : Type 0 where
    pub input_rate : ℕ
    pub output_rate : ℕ
    pub source_pos : F64
    pub history : List F32

  unfoldable pub new : ℕ → ℕ → Result InputResampler
  new input_rate output_rate =
      if input_rate == 0 || output_rate == 0
      then err (unsupported_config "sample rates must be positive")
      else ok (record {
        input_rate = input_rate;
        output_rate = output_rate;
        source_pos = lit64 "0.0";
        history = [];
      })

  -- `a + (b - a) * frac`, where both indices are in range.
  lerp? : Option F32 → Option F32 → F32 → Option F32
  lerp? (some a) (some b) frac = some (add a (mul (sub b a) frac))
  lerp? _ _ frac = none

  sample_at : List F32 → F64 → Option F32
  unfolding lerp?
  sample_at history pos =
      let idx = floor pos in
      lerp? (get_elem? history idx) (get_elem? history (idx + 1))
        (narrow (sub64 pos (of_usize64 idx)))

  -- while source_pos + 1.0 < history.len() { ... }
  pub advance : ℕ → F64 → List F32 → F64 → List F32 → Run (F64 × List F32)
  advance zero step history pos out = out_of_fuel
  advance (suc fuel) step history pos out =
      elim (lt64 (add64 pos (lit64 "1.0")) (of_usize64 (length history))) [
        | true ↦ elim (sample_at history pos) [
          | none ↦ panics
          | some s ↦ advance fuel step history (add64 pos step) (out ++ (s ∷ []))
        ]
        | false ↦ done (pos, out)
      ]

  -- The samples before `keep_from` are drained from the history.
  pub settle : InputResampler → List F32 → F64 → List F32 → Run (InputResampler × List F32)
  settle r history pos out =
      let keep_from = floor pos in
      if ltb 0 keep_from
      then (if leb keep_from (length history)
          then done (
            record r {
              history = drop keep_from history;
              source_pos = sub64 pos (of_usize64 keep_from);
            },
            out,
          )
          else panics)
      else done (record r { history = history; source_pos = pos }, out)

  unfoldable pub process :
      ℕ → InputResampler → List F32 → List F32 → Run (InputResampler × List F32)
  process fuel r input out =
      if is_empty input
      then done (r, out)
      else (if r.input_rate == r.output_rate
          then done (r, out ++ input)
          else let history = r.history ++ input in
            let step = div64 (of_usize64 r.input_rate) (of_usize64 r.output_rate) in
            (advance fuel step history r.source_pos out >>= λ s. settle r history s.0 s.1))
