-- ===== src/Gdext/PcmTap/Account.antt =====
-- Where the samples that are pushed to the tap of gdext/src/pcm_tap.rs go.
use godot_network_audio.Common.{
  ℕ, zero, suc, ◌+◌, ◌%◌, ◌^◌, ◌<◌, ◌≤◌, ◌≡◌, refl, ap, ◌∙◌, true, List, [], ◌∷◌, ◌++◌, length,
  take, drop, arith, ltb, length-append, length-drop, append_assoc, take-append-drop, Bool-cases,
  ltb→lt, inl, inr, append-nil, subst,
}
use godot_network_audio.VoiceCore.Float.{Floats}
use godot_network_audio.Gdext.PcmTap.{
  PcmTap, PcmBlock, chunks, chunks_from, tap_samples, tap_blocks, block_of, push_chunk, push_chunks,
  push,
}

abbrev pub concat {ℓ} : {A : Type ℓ} → List (List A) → List A
concat [] = []
concat (x ∷ xs) = x ++ concat xs

concat-chunks_from {ℓ} :
    {A : Type ℓ} (fuel size : ℕ) (xs : List A)
    → 0 < size
    → length xs ≤ fuel
    → concat (chunks_from fuel size xs) ≡ xs
unfolding chunks_from
concat-chunks_from zero size [] h enough = refl
concat-chunks_from zero size (x ∷ xs) h enough = absurd (omega arith)
concat-chunks_from (suc fuel) size [] h enough = refl
concat-chunks_from (suc fuel) size (x ∷ xs) h enough =
    ap (◌++◌ (take size (x ∷ xs))) (
      concat-chunks_from fuel size (drop size (x ∷ xs)) h
        (omega (arith, length-drop size (x ∷ xs))))
    ∙ take-append-drop size (x ∷ xs)

pub concat-chunks {ℓ} :
    {A : Type ℓ} (size : ℕ) (xs : List A) → 0 < size → concat (chunks size xs) ≡ xs
unfolding chunks
concat-chunks size xs h = concat-chunks_from (length xs) size xs h (omega arith)

module _ (f : Floats) (Instant : Type 0) where
  open f use {F32}

  -- The samples that wait in the queue.
  abbrev pub queued : List (PcmBlock f Instant) → ℕ
  queued [] = 0
  queued (b ∷ bs) = b.len + queued bs

  queued-append : (xs ys : List (PcmBlock f Instant)) → queued (xs ++ ys) ≡ queued xs + queued ys
  queued-append [] ys = omega arith
  queued-append (x ∷ xs) ys = omega (arith, queued-append xs ys)

  -- Over `k` samples: the cursor moves by `k`, and what is queued or counted as dropped grows by
  -- `k`, both as `u64`; the queue stays within its capacity and its old blocks stay at its front.
  pub record Accounts (t : PcmTap f Instant) (k : ℕ) (t' : PcmTap f Instant) : Type 0 where
    pub new : List (PcmBlock f Instant)
    pub queue : t'.queue ≡ t.queue ++ new
    pub cursor : t'.cursor % 2 ^ 64 ≡ (t.cursor + k) % 2 ^ 64
    pub kept : (queued new + t'.dropped) % 2 ^ 64 ≡ (t.dropped + k) % 2 ^ 64
    pub bounded : length t'.queue ≤ tap_blocks
    pub generation : t'.generation ≡ t.generation

  push_chunk-Accounts :
      (t : PcmTap f Instant) (rate : ℕ) (now : Instant) (c : List F32)
      → length t.queue ≤ tap_blocks
      → Accounts t (length c) (push_chunk f Instant t rate now c)
  unfolding push_chunk block_of
  push_chunk-Accounts t rate now c room = elim (Bool-cases (ltb (length t.queue) tap_blocks)) [
    | inl fits ↦
        rw (fits, push_chunk)
          (record {
            new = block_of f Instant t rate now c ∷ [];
            queue = refl;
            cursor = omega arith;
            kept = omega arith;
            bounded = omega (
              arith,
              length-append t.queue (block_of f Instant t rate now c ∷ []),
              ltb→lt _ _ fits,
            );
            generation = refl;
          })
    | inr full ↦
        rw (full, push_chunk)
          (record {
            new = [];
            queue = rw append-nil;
            cursor = omega arith;
            kept = omega arith;
            bounded = room;
            generation = refl;
          })
  ]

  Accounts-trans :
      (t u v : PcmTap f Instant) (j k : ℕ) → Accounts t j u → Accounts u k v → Accounts t (j + k) v
  Accounts-trans t u v j k a b = record {
    new = a.new ++ b.new;
    queue = b.queue ∙ ap (λ q. q ++ b.new) a.queue ∙ append_assoc t.queue a.new b.new;
    cursor = omega (arith, a.cursor, b.cursor);
    kept = omega (arith, a.kept, b.kept, queued-append a.new b.new);
    bounded = b.bounded;
    generation = b.generation ∙ a.generation;
  }

  push_chunks-Accounts :
      (t : PcmTap f Instant) (rate : ℕ) (now : Instant) (cs : List (List F32))
      → length t.queue ≤ tap_blocks
      → Accounts t (length (concat cs)) (push_chunks f Instant t rate now cs)
  unfolding push_chunks
  push_chunks-Accounts t rate now [] room = record {
    new = [];
    queue = rw append-nil;
    cursor = omega arith;
    kept = omega arith;
    bounded = room;
    generation = refl;
  }
  push_chunks-Accounts t rate now (c ∷ cs) room = rw (length-append c (concat cs)) (
      let first = push_chunk-Accounts t rate now c room in
      Accounts-trans t (push_chunk f Instant t rate now c) _ (length c) (length (concat cs)) first
        (push_chunks-Accounts (push_chunk f Instant t rate now c) rate now cs first.bounded))

  push_enabled :
      (t : PcmTap f Instant) (samples : List F32) (rate : ℕ) (now : Instant)
      → t.enabled ≡ true
      → push_chunks f Instant t rate now (chunks tap_samples samples)
        ≡ push f Instant t samples rate now
  unfolding push
  push_enabled t samples rate now on = ground arith

  -- A push of any length on an enabled tap accounts for every sample: the cursor moves by the
  -- length, and what it queues and what it counts as dropped add up to the length (as `u64`); the
  -- queue stays within 128 blocks, and what waited there stays in front.
  pub push-Accounts :
      (t : PcmTap f Instant) (samples : List F32) (rate : ℕ) (now : Instant)
      → t.enabled ≡ true
      → length t.queue ≤ tap_blocks
      → Accounts t (length samples) (push f Instant t samples rate now)
  push-Accounts t samples rate now on room =
      subst (λ xs. Accounts t (length xs) (push f Instant t samples rate now))
        (concat-chunks tap_samples samples (omega arith))
        (subst (Accounts t (length (concat (chunks tap_samples samples))))
          (push_enabled t samples rate now on)
          (push_chunks-Accounts t rate now (chunks tap_samples samples) room))
