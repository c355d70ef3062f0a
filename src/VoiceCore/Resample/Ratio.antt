-- ===== src/VoiceCore/Resample/Ratio.antt =====
-- voice-core/src/resample.rs where the input rate is a whole multiple of the output rate.
use godot_network_audio.Common.{
  ℕ, zero, suc, ◌+◌, ◌-◌, ◌*◌, ◌^◌, ◌<◌, ◌≤◌, ◌≡◌, refl, ◌⊎◌, inl, inr, false, some, List, [], ◌∷◌,
  ◌++◌, length, get_elem?, ltb, arith, append-nil, append_assoc, Bool-cases, ltb→lt, lt→ltb,
}
use godot_network_audio.Common.Run.{Run, done}
use godot_network_audio.VoiceCore.Float.{Floats, ExactIntegers}
use godot_network_audio.VoiceCore.Resample.{sample_at, advance}

get_elem?-in {ℓ} :
    {A : Type ℓ} (xs : List A) (i : ℕ) → i < length xs → (a : A) × (get_elem? xs i ≡ some a)
get_elem?-in [] i h = absurd (omega arith)
get_elem?-in (x ∷ xs) zero h = (x, refl)
get_elem?-in (x ∷ xs) (suc i) h = get_elem?-in xs i (omega arith)

module _ (f : Floats) (exact : ExactIntegers f) where
  open f use {F32, of_usize64}

  sample_in_range :
      (h : List F32) (p : ℕ)
      → p < 2 ^ 52
      → p + 1 < length h
      → (s : F32) × (sample_at f h (of_usize64 p) ≡ some s)
  unfolding sample_at
  sample_in_range h p small inside =
      let (a, ea) = get_elem?-in h p (omega arith) in
      let (b, eb) = get_elem?-in h (p + 1) inside in
      (
        f.add a (f.mul (f.sub b a) (f.narrow (f.sub64 (of_usize64 p) (of_usize64 p)))),
        rw (exact.floor_exact p (omega arith), ea, eb) refl,
      )

  -- The loop's test, at an integer position.
  test_exact :
      (p n : ℕ)
      → p < 2 ^ 52
      → n < 2 ^ 52
      → f.lt64 (f.add64 (of_usize64 p) (f.lit64 "1.0")) (of_usize64 n) ≡ ltb (p + 1) n
  test_exact p n hp hn =
      rw (exact.one_exact, exact.add_exact p 1 (omega arith))
        (exact.lt_exact (p + 1) n (omega arith) (omega arith))

  -- Where the loop stops, from position `p` of a history of `n` samples, and what it appends.
  pub record Stops (k n p : ℕ) (out : List F32) (r : Run (f.F64 × List F32)) : Type 0 where
    pub last : ℕ
    pub new : List F32
    pub result : r ≡ done (of_usize64 last, out ++ new)
    pub steps : last ≡ p + k * length new
    pub past : n ≤ last + 1
    pub near : (last ≡ p) ⊎ (last + 2 ≤ n + k)

  Stops-cons :
      (k n p : ℕ) (out : List F32) (s : F32) (r : Run (f.F64 × List F32))
      → p + 1 < n
      → Stops k n (p + k) (out ++ (s ∷ [])) r
      → Stops k n p out r
  Stops-cons k n p out s r inside st = record {
    last = st.last;
    new = s ∷ st.new;
    result = rw (← append_assoc out (s ∷ []) st.new) st.result;
    steps = grind (arith, st.steps);
    past = st.past;
    near = ground (arith, st.near);
  }

  advance_more :
      (fuel k : ℕ) (h : List F32) (p : ℕ) (out : List F32) (s : F32)
      → p < 2 ^ 52
      → k < 2 ^ 32
      → length h < 2 ^ 32
      → p + 1 < length h
      → sample_at f h (of_usize64 p) ≡ some s
      → advance f (suc fuel) (of_usize64 k) h (of_usize64 p) out
        ≡ advance f fuel (of_usize64 k) h (of_usize64 (p + k)) (out ++ (s ∷ []))
  unfolding advance
  advance_more fuel k h p out s hp hk hl inside e = rw (
    test_exact p (length h) hp (omega arith),
    lt→ltb _ _ inside,
    e,
    exact.add_exact p k (omega arith),
    advance,
  )

  advance_stop :
      (fuel k : ℕ) (h : List F32) (p : ℕ) (out : List F32)
      → p < 2 ^ 52
      → length h < 2 ^ 32
      → ltb (p + 1) (length h) ≡ false
      → advance f (suc fuel) (of_usize64 k) h (of_usize64 p) out ≡ done (of_usize64 p, out)
  unfolding advance
  advance_stop fuel k h p out hp hl stop =
      rw (test_exact p (length h) hp (omega arith), stop, advance)

  pub advance-Stops :
      (fuel k : ℕ) (h : List F32) (p : ℕ) (out : List F32)
      → 0 < k
      → k < 2 ^ 32
      → length h < 2 ^ 32
      → p < 2 ^ 33
      → length h - p < fuel
      → Stops k (length h) p out (advance f fuel (of_usize64 k) h (of_usize64 p) out)
  advance-Stops zero k h p out pos small len bound enough = absurd (omega arith)
  advance-Stops (suc fuel) k h p out pos small len bound enough =
      elim (Bool-cases (ltb (p + 1) (length h))) [
        | inl more ↦
            let inside : p + 1 < length h = ltb→lt _ _ more in
            let (s, e) = sample_in_range h p (omega arith) inside in
            rw (advance_more fuel k h p out s (omega arith) small len inside e) (
              Stops-cons k (length h) p out s _ inside (
                advance-Stops fuel k h (p + k) (out ++ (s ∷ [])) pos small len (omega arith)
                  (omega arith)))
        | inr stop ↦ rw (advance_stop fuel k h p out (omega arith) len stop) (record {
          last = p;
          new = [];
          result = rw append-nil;
          steps = omega arith;
          past = ground arith;
          near = inl refl;
        })
      ]
