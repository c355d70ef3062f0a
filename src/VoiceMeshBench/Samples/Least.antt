-- ===== src/VoiceMeshBench/Samples/Least.antt =====
-- Which samples the heap of voice-mesh-bench/src/main.rs keeps.
use godot_network_audio.Common.{
  ℕ, zero, suc, ◌+◌, ◌-◌, ◌≤◌, ◌<◌, ◌≡◌, refl, ap, sym, subst, ◌∙◌, Bool, true, false, not, ◌&&◌,
  List, [], ◌∷◌, length, drop, if◌then◌else◌, ltb, max, arith, Bool-cases, inl, inr, length-drop,
}
use godot_network_audio.VoiceMeshBench.Samples.{
  metric_sample_capacity, Sample, before, place, replaced, MetricSamples, with_salt,
  insert_candidate, priority, push, insert_all, merge,
}

-- The candidates from the largest down, the newest of them first in the list.
abbrev pub descending : List Sample → List Sample
descending [] = []
descending (s ∷ ss) = place s (descending ss)

-- The last `c` of a list.
abbrev pub least : ℕ → List Sample → List Sample
least c ss = drop (length ss - c) ss

-- No sample of the list is larger.
abbrev is_top : Sample → List Sample → Bool
is_top s [] = true
is_top s (x ∷ xs) = not (before s x) && is_top s xs

abbrev is_descending : List Sample → Bool
is_descending [] = true
is_descending (x ∷ xs) = is_top x xs && is_descending xs

before_trans : (a b c : Sample) → before a b ≡ false → before b c ≡ false → before a c ≡ false
before_trans (p, v) (q, w) (r, u) h k = ground (arith, h, k)

before_turn : (a b : Sample) → before a b ≡ true → before b a ≡ false
before_turn (p, v) (q, w) h = ground (arith, h)

length-place : (s : Sample) (xs : List Sample) → length (place s xs) ≡ length xs + 1
unfolding place
length-place s [] = refl
length-place s (x ∷ xs) = ground (arith, length-place s xs)

is_top-place :
    (t s : Sample) (xs : List Sample)
    → is_top t xs ≡ true
    → before t s ≡ false
    → is_top t (place s xs) ≡ true
unfolding place
is_top-place t s [] h k = ground (arith, k)
is_top-place t s (x ∷ xs) h k = ground (arith, k, h, is_top-place t s xs)

is_top_trans :
    (t s : Sample) (xs : List Sample) → before t s ≡ false → is_top s xs ≡ true → is_top t xs ≡ true
is_top_trans t s [] h k = refl
is_top_trans t s (x ∷ xs) h k = ground (arith, h, k, before_trans t s x, is_top_trans t s xs)

place-is_descending :
    (s : Sample) (xs : List Sample) → is_descending xs ≡ true → is_descending (place s xs) ≡ true
unfolding place
place-is_descending s [] h = refl
place-is_descending s (x ∷ xs) h =
    ground (
      arith,
      h,
      place-is_descending s xs,
      is_top-place x s xs,
      before_turn s x,
      is_top_trans s x xs,
    )

descending_lem : (ss : List Sample) → is_descending (descending ss) ≡ true
descending_lem [] = refl
descending_lem (s ∷ ss) = place-is_descending s (descending ss) (descending_lem ss)

-- A sample that is not smaller than the top of a list changes no later part of it.
replaced-drop :
    (k : ℕ) (s x : Sample) (xs : List Sample)
    → is_top x xs ≡ true
    → before s x ≡ false
    → replaced s (drop k xs) ≡ drop k xs
replaced-drop zero s x [] h e = refl
replaced-drop (suc k) s x [] h e = refl
replaced-drop zero s x (y ∷ ys) h e = ground (arith, h, e, before_trans s x y)
replaced-drop (suc k) s x (y ∷ ys) h e = replaced-drop k s x ys (ground (arith, h)) e

-- The samples after the first `k`, when one more is placed.
drop-place :
    (k : ℕ) (s : Sample) (xs : List Sample)
    → is_descending xs ≡ true
    → k < length xs
    → drop (suc k) (place s xs) ≡ replaced s (drop k xs)
unfolding place
drop-place k s [] h l = absurd (omega arith)
drop-place zero s (x ∷ xs) h l = ground arith
drop-place (suc k) s (x ∷ xs) h l =
    ground (arith, drop-place k s xs (ground (arith, h)) (omega arith), replaced-drop k s x xs, h)

-- One candidate more, with room for `c` samples.
place-least :
    (c : ℕ) (s : Sample) (ss : List Sample)
    → 0 < c
    → (if ltb (length (least c (descending ss))) c
        then place s (least c (descending ss))
        else replaced s (least c (descending ss)))
      ≡ least c (descending (s ∷ ss))
place-least c s ss room =
    let all = descending ss in
    let size = length-drop (length all - c) all in
    let grown = length-place s all in
    elim (Bool-cases (ltb (length all) c)) [
      | inl fits ↦
          let none : length all - c ≡ 0 = ground (arith, fits) in
          let still : length (place s all) - c ≡ 0 = ground (arith, fits, grown) in
          rw (none, still) (ground (arith, fits))
      | inr full ↦
          let one : length (place s all) - c ≡ suc (length all - c) = ground (arith, full, grown) in
          ground (arith, full, size, one, drop-place (length all - c) s all (descending_lem ss))
    ]

-- The largest of some values, 0 if there are none.
abbrev pub largest : List ℕ → ℕ
largest [] = 0
largest (v ∷ vs) = max v (largest vs)

-- What the samples are over the candidates `ss`.
pub record Keeps (ss : List Sample) (count top : ℕ) (m : MetricSamples) : Type 0 where
  pub samples : m.samples ≡ least metric_sample_capacity (descending ss)
  pub seen : m.seen ≡ count
  pub max_value : m.max_value ≡ top

salt-push : (m : MetricSamples) (v : ℕ) → (push m v).salt ≡ m.salt
unfolding push insert_candidate
salt-push m v = refl

insert-Keeps :
    (m : MetricSamples) (s : Sample) (ss : List Sample) (n top : ℕ)
    → Keeps ss n top m
    → Keeps (s ∷ ss) n top (insert_candidate m s)
unfolding insert_candidate
insert-Keeps m s ss n top k = record {
  samples = rw k.samples (place-least metric_sample_capacity s ss (omega arith));
  seen = k.seen;
  max_value = k.max_value;
}

abbrev pub pushes : MetricSamples → List ℕ → MetricSamples
pushes m [] = m
pushes m (v ∷ vs) = pushes (push m v) vs

-- The samples of `walked` in turn, put before `ss`.
abbrev pub reverse_onto : List Sample → List Sample → List Sample
reverse_onto [] ss = ss
reverse_onto (s ∷ walked) ss = reverse_onto walked (s ∷ ss)

-- The candidates that the values make after `n` others, put before `ss`.
abbrev pub candidates : ℕ → ℕ → List ℕ → List Sample → List Sample
candidates salt n [] ss = ss
candidates salt n (v ∷ vs) ss = candidates salt (n + 1) vs ((priority salt (n + 1), v) ∷ ss)

push-Keeps :
    (m : MetricSamples) (v : ℕ) (ss : List Sample) (n top : ℕ)
    → Keeps ss n top m
    → Keeps ((priority m.salt (n + 1), v) ∷ ss) (n + 1) (max top v) (push m v)
unfolding push
push-Keeps m v ss n top k =
    let counted : MetricSamples = record m { seen = m.seen + 1; max_value = max m.max_value v } in
    rw (sym k.seen) (
      insert-Keeps counted (priority m.salt (m.seen + 1), v) ss (m.seen + 1) (max top v)
        (record { samples = k.samples; seen = refl; max_value = ap (λ t. max t v) k.max_value }))

recount :
    (m : MetricSamples) (ss : List Sample) (n n' top top' : ℕ)
    → n ≡ n'
    → top ≡ top'
    → Keeps ss n top m
    → Keeps ss n' top' m
recount m ss n n' top top' e t k = record {
  samples = k.samples;
  seen = k.seen ∙ e;
  max_value = k.max_value ∙ t;
}

pushes-Keeps :
    (m : MetricSamples) (vs : List ℕ) (ss : List Sample) (salt n top : ℕ)
    → m.salt ≡ salt
    → Keeps ss n top m
    → Keeps (candidates salt n vs ss) (n + length vs) (max top (largest vs)) (pushes m vs)
pushes-Keeps m [] ss salt n top same k = recount m ss n _ top _ (omega arith) (omega arith) k
pushes-Keeps m (v ∷ vs) ss salt n top same k =
    let first =
      subst (λ t. Keeps ((priority t (n + 1), v) ∷ ss) (n + 1) (max top v) (push m v)) same
        (push-Keeps m v ss n top k) in
    recount (pushes m (v ∷ vs)) (candidates salt n (v ∷ vs) ss) _ _ _ _ (omega arith) (omega arith)
      (pushes-Keeps (push m v) vs ((priority salt (n + 1), v) ∷ ss) salt (n + 1) (max top v)
        (salt-push m v ∙ same) first)

insert_all-Keeps :
    (m : MetricSamples) (walked ss : List Sample) (n top : ℕ)
    → Keeps ss n top m
    → Keeps (reverse_onto walked ss) n top (insert_all m walked)
insert_all-Keeps m [] ss n top k = k
insert_all-Keeps m (s ∷ walked) ss n top k =
    insert_all-Keeps (insert_candidate m s) walked (s ∷ ss) n top (insert-Keeps m s ss n top k)

new-Keeps : (salt : ℕ) → Keeps [] 0 0 (with_salt salt)
unfolding with_salt
new-Keeps salt = record { samples = refl; seen = refl; max_value = refl }

-- What two runs that measured `vs` and `vs'` are merged to.
pub record Merges (salt : ℕ) (vs vs' : List ℕ) (walked : List Sample) (m : MetricSamples)
    : Type 0 where
  pub samples :
      m.samples
      ≡ least metric_sample_capacity (descending (reverse_onto walked (candidates salt 0 vs [])))
  pub bounded : length m.samples ≤ metric_sample_capacity
  pub seen : m.seen ≡ length vs + length vs'
  pub max_value : m.max_value ≡ max (largest vs) (largest vs')

least_bounded : (c : ℕ) (ss : List Sample) → length (least c ss) ≤ c
least_bounded c ss = omega (arith, length-drop (length ss - c) ss)

-- Two runs of measurements that are merged, whatever the order in which the second's samples are
-- taken over: the count and the maximum are exact; the samples are the 4,096 candidates that come
-- first in the order of priority and value, out of those of the first run and those taken over.
pub merge-Merges :
    (salt salt' : ℕ) (vs vs' : List ℕ) (walked : List Sample)
    → Merges salt vs vs' walked
        (merge (pushes (with_salt salt) vs) (pushes (with_salt salt') vs') walked)
unfolding merge with_salt
merge-Merges salt salt' vs vs' walked =
    let mine = pushes-Keeps (with_salt salt) vs [] salt 0 0 refl (new-Keeps salt) in
    let theirs = pushes-Keeps (with_salt salt') vs' [] salt' 0 0 refl (new-Keeps salt') in
    let a = pushes (with_salt salt) vs in
    let b = pushes (with_salt salt') vs' in
    let both : MetricSamples = record a {
      seen = a.seen + b.seen;
      max_value = max a.max_value b.max_value;
    } in
    let merged =
      insert_all-Keeps both walked (candidates salt 0 vs []) (length vs + length vs')
        (max (largest vs) (largest vs'))
        (record {
          samples = mine.samples;
          seen = omega (arith, mine.seen, theirs.seen);
          max_value = omega (arith, mine.max_value, theirs.max_value);
        }) in
    record {
      samples = merged.samples;
      bounded = rw merged.samples (
          least_bounded metric_sample_capacity
            (descending (reverse_onto walked (candidates salt 0 vs []))));
      seen = merged.seen;
      max_value = merged.max_value;
    }
