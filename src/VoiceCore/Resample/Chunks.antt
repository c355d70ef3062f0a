-- ===== src/VoiceCore/Resample/Chunks.antt =====
-- Whole calls of `process` of voice-core/src/resample.rs where the input rate is a multiple of the
-- output rate.
use godot_network_audio.Common.{
  ℕ, zero, suc, ◌+◌, ◌-◌, ◌*◌, ◌^◌, ◌<◌, ◌≤◌, ◌≡◌, refl, ap, false, List, [], ◌∷◌, ◌++◌, length,
  drop, ◌==◌, arith, length-append, length-drop, append-nil,
}
use godot_network_audio.Common.Run.{Run, done, panics, ◌>>=◌}
use godot_network_audio.VoiceCore.Float.{Floats, ExactIntegers}
use godot_network_audio.VoiceCore.Resample.{InputResampler, advance, settle, process}
use godot_network_audio.VoiceCore.Resample.Ratio.{Stops, advance-Stops}

module _ (f : Floats) where
  open f use {F32, of_usize64}

  -- The state between calls: the position stands on the first sample of a history of at most one.
  pub record IsAligned (r : InputResampler f) : Type 0 where
    pub at_start : r.source_pos ≡ of_usize64 0
    pub short : length r.history ≤ 1

  -- The input rate is `k` times the output rate, and both are `u32` values.
  pub record HasRatio (k : ℕ) (r : InputResampler f) : Type 0 where
    pub ratio : r.input_rate ≡ k * r.output_rate
    pub positive : 0 < r.output_rate
    pub fits : r.input_rate < 2 ^ 32

  -- What a call appends to the output, and what it leaves behind.
  pub record Halves (r : InputResampler f) (input out : List F32)
      (result : Run (InputResampler f × List F32)) : Type 0 where
    pub next : InputResampler f
    pub new : List F32
    pub returns : result ≡ done (next, out ++ new)
    pub aligned : IsAligned next
    pub has_ratio : HasRatio 2 next
    pub conserves : 2 * length new + length next.history ≡ length r.history + length input

  module _ (exact : ExactIntegers f) where
    settle_past :
        (r : InputResampler f) (h out : List F32) (p : ℕ)
        → p < 2 ^ 52
        → length h < p
        → settle f r h (of_usize64 p) out ≡ panics
    unfolding settle
    settle_past r h out p small over = rw (exact.floor_exact p (omega arith)) (ground arith)

    settle_within :
        (r : InputResampler f) (h out : List F32) (p : ℕ)
        → p < 2 ^ 52
        → p ≤ length h
        → settle f r h (of_usize64 p) out
          ≡ done (record r { history = drop p h; source_pos = of_usize64 0 }, out)
    unfolding settle
    settle_within r h out zero small within = rw (exact.floor_exact 0 (omega arith))
    settle_within r h out (suc p) small within =
        rw
          (
            exact.floor_exact (suc p) (omega arith),
            exact.sub_exact (suc p) (suc p) (omega arith) (omega arith),
          )
          (let e : suc p - suc p ≡ 0 = omega arith in rw e (ground arith))

    step_exact :
        (k : ℕ) (r : InputResampler f)
        → HasRatio k r
        → f.div64 (of_usize64 r.input_rate) (of_usize64 r.output_rate) ≡ of_usize64 k
    step_exact k r h = rw (h.ratio) (exact.div_exact k r.output_rate h.positive (omega arith))

    double_le : (k o : ℕ) → 2 ≤ k → 2 * o ≤ k * o
    double_le k o h = grind arith

    -- What a call with input comes to at a ratio above one, before the history is cut.
    process_step :
        (fuel k : ℕ) (r : InputResampler f) (x : F32) (xs out : List F32)
        → 2 ≤ k
        → HasRatio k r
        → IsAligned r
        → process f fuel r (x ∷ xs) out ≡ (
            advance f fuel (of_usize64 k) (r.history ++ (x ∷ xs)) (of_usize64 0) out >>= λ s.
            settle f r (r.history ++ (x ∷ xs)) s.0 s.1)
    unfolding process
    process_step fuel k r x xs out two h a = rw (differ, step_exact k r h, a.at_start)
      where
        differ : (r.input_rate == r.output_rate) ≡ false
        differ = ground (arith, double_le k r.output_rate two)

    halved :
        (r : InputResampler f) (input all out : List F32) (run : Run (f.F64 × List F32))
        → HasRatio 2 r
        → length all ≡ length r.history + length input
        → length all < 2 ^ 32
        → Stops f exact 2 (length all) 0 out run
        → Halves r input out (run >>= λ s. settle f r all s.0 s.1)
    halved r input all out run h total small st = record {
      next = record r { history = drop st.last all; source_pos = of_usize64 0 };
      new = st.new;
      returns = rw st.result (
          settle_within r all (out ++ st.new) st.last (omega (arith, st.near, st.past))
            (omega (arith, st.near, st.past)));
      aligned = record { at_start = refl; short = omega (arith, length-drop st.last all, st.past) };
      has_ratio = record { ratio = h.ratio; positive = h.positive; fits = h.fits };
      conserves = omega (arith, length-drop st.last all, total, st.steps, st.near, st.past);
    }

    -- At twice the output rate, as for a 96 kHz device: every call returns, without a panic and
    -- with enough fuel; it leaves the resampler aligned at the same ratio, appends to the output,
    -- and conserves samples: two are consumed for each that it makes, the rest stay in the history.
    pub process-Halves :
        (fuel : ℕ) (r : InputResampler f) (input out : List F32)
        → HasRatio 2 r
        → IsAligned r
        → length r.history + length input < 2 ^ 32
        → length r.history + length input < fuel
        → Halves r input out (process f fuel r input out)
    unfolding process
    process-Halves fuel r [] out h a small enough = record {
      next = r;
      new = [];
      returns = rw append-nil;
      aligned = a;
      has_ratio = h;
      conserves = omega arith;
    }
    process-Halves fuel r (x ∷ xs) out h a small enough =
        rw (process_step fuel 2 r x xs out (omega arith) h a) (
          halved r (x ∷ xs) all out _ h total (omega (arith, total)) (
            advance-Stops f exact fuel 2 all 0 out (omega arith) (omega arith)
              (omega (arith, total)) (omega arith) (omega (arith, total))))
      where
        all : List F32
        all = r.history ++ (x ∷ xs)

        total : length all ≡ length r.history + length (x ∷ xs)
        total = length-append r.history (x ∷ xs)

    mul_pos : (k m : ℕ) → 0 < k * m → k ≤ k * m
    mul_pos k m h = grind arith

    mul_pos_left : (k o : ℕ) → 0 < o → k ≤ k * o
    mul_pos_left k o h = grind arith

    overran :
        (k : ℕ) (r : InputResampler f) (all out : List F32) (run : Run (f.F64 × List F32))
        → 3 ≤ k
        → k < 2 ^ 32
        → length all ≡ 2
        → Stops f exact k (length all) 0 out run
        → (run >>= λ s. settle f r all s.0 s.1) ≡ panics
    overran k r all out run three small two st = rw st.result (
        settle_past r all (out ++ st.new) st.last (omega (arith, st.near))
          (omega (arith, st.steps, st.past, mul_pos k (length st.new))))

    -- At three or more times the output rate, as for a 192 kHz device: a first call with two
    -- samples panics, whatever they are, since the position steps past the end of the history and
    -- `drain` is called with it.
    pub process_overruns :
        (fuel k : ℕ) (r : InputResampler f) (x y : F32) (out : List F32)
        → 3 ≤ k
        → HasRatio k r
        → r.source_pos ≡ of_usize64 0
        → r.history ≡ []
        → 2 < fuel
        → process f fuel r (x ∷ y ∷ []) out ≡ panics
    process_overruns fuel k r x y out three h start fresh enough =
        rw (process_step fuel k r x (y ∷ []) out (omega arith) h aligned) (
          overran k r all out _ three small two (
            advance-Stops f exact fuel k all 0 out (omega arith) small (omega (arith, two))
              (omega arith) (omega (arith, two))))
      where
        all : List F32
        all = r.history ++ (x ∷ y ∷ [])

        aligned : IsAligned r
        aligned = record { at_start = start; short = omega (arith, ap length fresh) }

        two : length all ≡ 2
        two = omega (arith, length-append r.history (x ∷ y ∷ []), ap length fresh)

        small : k < 2 ^ 32
        small = omega (arith, mul_pos_left k r.output_rate h.positive, h.ratio, h.fits)
