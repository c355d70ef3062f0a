-- ===== src/Gdext/PcmTap.antt =====
-- gdext/src/pcm_tap.rs: a bounded copy of the PCM for analysis. Each atomic operation is a step of
-- its own in Rust; here a call runs as a whole. Counters are `u64` and wrap.
pub mod Account
use godot_network_audio.Common.{
  ℕ, zero, suc, ◌+◌, ◌-◌, ◌^◌, Bool, true, false, Option, none, some, List, [], ◌∷◌, ◌++◌, map,
  length, take, drop, replicate, ltb, if◌then◌else◌, wrapping_add,
}
use godot_network_audio.VoiceCore.Float.{Floats}

abbrev pub tap_samples : ℕ
tap_samples = 480

-- The capacity of the `ArrayQueue`.
abbrev pub tap_blocks : ℕ
tap_blocks = 128

-- `slice::chunks`; the fuel is the length of the slice, which is enough (`Account.concat-chunks`).
pub chunks_from {ℓ} : {A : Type ℓ} → ℕ → ℕ → List A → List (List A)
chunks_from zero size xs = []
chunks_from (suc fuel) size [] = []
chunks_from (suc fuel) size (x ∷ xs) =
    take size (x ∷ xs) ∷ chunks_from fuel size (drop size (x ∷ xs))

pub chunks {ℓ} : {A : Type ℓ} → ℕ → List A → List (List A)
unfolding chunks_from
chunks size xs = chunks_from (length xs) size xs

module _ (f : Floats) (Instant : Type 0) where
  open f use {F32, lit, clamp, is_finite}

  pub record PcmBlock : Type 0 where
    pub samples : List F32
    pub len : ℕ
    pub sample_rate : ℕ
    pub sample_start : ℕ
    pub generation : ℕ
    pub captured_at : Instant

  pub record PcmTap : Type 0 where
    pub enabled : Bool
    pub generation : ℕ
    pub cursor : ℕ
    pub dropped : ℕ
    pub queue : List PcmBlock

  unfoldable pub tap_default : PcmTap
  tap_default = record { enabled = false; generation = 0; cursor = 0; dropped = 0; queue = [] }

  pub enable : PcmTap → PcmTap
  enable t = record t { enabled = true }

  unfoldable pub reset : PcmTap → PcmTap
  reset t = record t { generation = wrapping_add 64 t.generation 1 }

  pub pop : PcmTap → Option PcmBlock × PcmTap
  pop t = elim t.queue [ [] ↦ (none, t) | b ∷ rest ↦ (some b, record t { queue = rest }) ]

  pub sanitize : F32 → F32
  sanitize sample = if is_finite sample then clamp sample (lit "-1.0") (lit "1.0") else lit "0.0"

  -- A block holds the sanitized samples of a chunk, in an array of `tap_samples`.
  pub block_of : PcmTap → ℕ → Instant → List F32 → PcmBlock
  block_of t sample_rate captured_at chunk = record {
    samples = map sanitize chunk ++ replicate (tap_samples - length chunk) (lit "0.0");
    len = length chunk;
    sample_rate = sample_rate;
    sample_start = t.cursor;
    generation = t.generation;
    captured_at = captured_at;
  }

  -- The cursor moves whether or not the queue has room; a block without room is counted as dropped.
  pub push_chunk : PcmTap → ℕ → Instant → List F32 → PcmTap
  push_chunk t sample_rate captured_at chunk =
      let t' : PcmTap = record t { cursor = wrapping_add 64 t.cursor (length chunk) } in
      if ltb (length t.queue) tap_blocks
      then record t' { queue = t.queue ++ (block_of t sample_rate captured_at chunk ∷ []) }
      else record t' { dropped = wrapping_add 64 t.dropped (length chunk) }

  pub push_chunks : PcmTap → ℕ → Instant → List (List F32) → PcmTap
  push_chunks t sample_rate captured_at [] = t
  push_chunks t sample_rate captured_at (c ∷ cs) =
      push_chunks (push_chunk t sample_rate captured_at c) sample_rate captured_at cs

  unfoldable pub push : PcmTap → List F32 → ℕ → Instant → PcmTap
  push t samples sample_rate now =
      if t.enabled then push_chunks t sample_rate now (chunks tap_samples samples) else t
