-- ===== src/VoiceMeshBench/Samples.antt =====
-- `MetricSamples` of voice-mesh-bench/src/main.rs: a bounded sample of measured values, chosen by
-- pseudo-random priorities, next to their exact count and maximum.
pub mod Least
use godot_network_audio.Common.{
  ℕ, suc, ◌+◌, ◌-◌, ◌*◌, ◌/◌, ◌==◌, Bool, true, false, not, ◌&&◌, ◌||◌, List, [], ◌∷◌, length,
  get_or, map, is_empty, if◌then◌else◌, ltb, leb, max, min, bit_xor, wrapping_mul,
}
use godot_network_audio.VoiceMeshBench.Schedule.{mix64}

abbrev pub metric_sample_capacity : ℕ
metric_sample_capacity = 4_096

-- A priority and a value, in the order of pairs.
abbrev pub Sample : Type 0
Sample = ℕ × ℕ

abbrev pub before : Sample → Sample → Bool
before (p, v) (q, w) = ltb p q || ((p == q) && ltb v w)

-- A sample among samples that go down.
unfoldable pub place : Sample → List Sample → List Sample
place s [] = s ∷ []
place s (x ∷ xs) = if before s x then x ∷ place s xs else s ∷ x ∷ xs

-- `samples` is the heap, its largest sample first.
pub record MetricSamples : Type 0 where
  pub samples : List Sample
  pub seen : ℕ
  pub max_value : ℕ
  pub salt : ℕ

unfoldable pub with_salt : ℕ → MetricSamples
with_salt salt = record { samples = []; seen = 0; max_value = 0; salt = salt }

-- A full heap gives up its largest sample for a smaller one.
abbrev pub replaced : Sample → List Sample → List Sample
replaced s [] = []
replaced s (largest ∷ rest) = if before s largest then place s rest else largest ∷ rest

unfoldable pub insert_candidate : MetricSamples → Sample → MetricSamples
insert_candidate m s = record m {
  samples =
      if ltb (length m.samples) metric_sample_capacity
      then place s m.samples
      else replaced s m.samples;
}

-- The priority of the value that is seen as the `n`-th.
abbrev pub priority : ℕ → ℕ → ℕ
priority salt n = mix64 (bit_xor salt (wrapping_mul 64 n 11_400_714_819_323_198_485))

unfoldable pub push : MetricSamples → ℕ → MetricSamples
unfolding insert_candidate
push m value =
    let m' : MetricSamples = record m { seen = m.seen + 1; max_value = max m.max_value value } in
    insert_candidate m' (priority m'.salt m'.seen, value)

abbrev pub insert_all : MetricSamples → List Sample → MetricSamples
insert_all m [] = m
insert_all m (s ∷ ss) = insert_all (insert_candidate m s) ss

-- `walked` are the other's samples in the order in which its heap is walked.
unfoldable pub merge : MetricSamples → MetricSamples → List Sample → MetricSamples
merge m other walked =
    insert_all
      (record m { seen = m.seen + other.seen; max_value = max m.max_value other.max_value }) walked

-- The values in ascending order; a rank is at most 100.
abbrev pub place_value : ℕ → List ℕ → List ℕ
place_value v [] = v ∷ []
place_value v (x ∷ xs) = if leb v x then v ∷ x ∷ xs else x ∷ place_value v xs

abbrev pub sorted_values : List ℕ → List ℕ
sorted_values [] = []
sorted_values (v ∷ vs) = place_value v (sorted_values vs)

unfoldable pub percentile_of : List ℕ → ℕ → ℕ
percentile_of values rank =
    if is_empty values
    then 0
    else get_or (sorted_values values) (((length values - 1) * rank) / 100) 0

unfoldable pub percentile : MetricSamples → ℕ → ℕ
unfolding percentile_of
percentile m rank = percentile_of (map (λ s. s.1) m.samples) rank
