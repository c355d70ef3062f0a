-- ===== src/VoiceCore/Decoder/Output.antt =====
-- What the decoder of voice-core/src/decoder.rs accepts and how much it puts out.
use Prim.Native.String.{◌++◌ as append_text}
use godot_network_audio.Common.{
  ℕ, ◌*◌, ◌≡◌, refl, ◌⊎◌, inl, inr, false, none, some, List, length, replicate, min, arith,
  length-take, Option-cases, length-replicate,
}
use godot_network_audio.VoiceCore.Error.{
  Result, ok, err, opus, unsupported_config, Reply, gives, fails, Reply-cases, map_opus, ◌>>=◌,
}
use godot_network_audio.VoiceCore.Decoder.{
  OpusDecoder, OpusAudioDecoder, SampleRate, Channels, sample_rate_of, channels_of, hertz, count,
  new, decode, buffer_len, truncated,
}

abbrev pub IsRate : ℕ → Type 0
IsRate n = (n ≡ 8_000) ⊎ ((n ≡ 12_000) ⊎ ((n ≡ 16_000) ⊎ ((n ≡ 24_000) ⊎ (n ≡ 48_000))))

abbrev pub IsCount : ℕ → Type 0
IsCount n = (n ≡ 1) ⊎ (n ≡ 2)

hertz-sample_rate_of :
    (n : ℕ) (r : SampleRate) → sample_rate_of n ≡ some r → (hertz r ≡ n) × IsRate n
hertz-sample_rate_of n r h = ground arith

channels_of-count : (n : ℕ) (l : Channels) → channels_of n ≡ some l → (count l ≡ n) × IsCount n
channels_of-count n l h = ground arith

IsRate-unknown : (n : ℕ) → sample_rate_of n ≡ none → ¬ (IsRate n)
IsRate-unknown n h (inl e) = ground arith
IsRate-unknown n h (inr (inl e)) = ground arith
IsRate-unknown n h (inr (inr (inl e))) = ground arith
IsRate-unknown n h (inr (inr (inr (inl e)))) = ground arith
IsRate-unknown n h (inr (inr (inr (inr e)))) = ground arith

IsCount-unknown : (n : ℕ) → channels_of n ≡ none → ¬ (IsCount n)
IsCount-unknown n h (inl e) = ground arith
IsCount-unknown n h (inr e) = ground arith

module _ {F32 : Type 0} (o : OpusDecoder F32) where
  -- What the answer says of the arguments.
  abbrev pub Answers : ℕ → ℕ → Result (OpusAudioDecoder o) → Type 0
  Answers rate channels (ok d) =
      IsRate rate × IsCount channels × (d.sample_rate ≡ rate) × (d.channels ≡ channels)
  Answers rate channels (err (unsupported_config m)) = ¬ (IsRate rate × IsCount channels)
  Answers rate channels (err (opus m)) = IsRate rate × IsCount channels
  Answers rate channels (err _) = ⊥

  opened :
      (rate channels : ℕ) (r : SampleRate) (l : Channels) (reply : Reply o.Coder)
      → (hertz r ≡ rate) × IsRate rate
      → (count l ≡ channels) × IsCount channels
      → Answers rate channels (
          map_opus "decoder init: " reply >>= λ inner.
          ok (record { inner = inner; sample_rate = hertz r; channels = count l }))
  opened rate channels r l (gives inner) h k = (h.1, k.1, h.0, k.0)
  opened rate channels r l (fails e) h k = (h.1, k.1)

  -- A decoder is made only for the five rates and the two layouts of Opus, whose numbers it keeps;
  -- other arguments are refused as unsupported, and an error of Opus comes only with those.
  pub new-Answers : (rate channels : ℕ) → Answers rate channels (new o rate channels)
  unfolding new
  new-Answers rate channels = elim (Option-cases (sample_rate_of rate)) [
    | inl unknown ↦ rw (unknown, new) (λ h. IsRate-unknown rate unknown h.0)
    | inr (r, known) ↦ elim (Option-cases (channels_of channels)) [
      | inl unknown ↦ rw (known, unknown, new) (λ h. IsCount-unknown channels unknown h.1)
      | inr (l, layout) ↦
          rw (known, layout, new)
            (opened rate channels r l (o.create r l) (hertz-sample_rate_of rate r known)
              (channels_of-count channels l layout))
    ]
  ]

  abbrev SameLength : List F32 → Reply (ℕ × List F32) → Type 0
  SameLength out (fails e) = Unit
  SameLength out (gives (decoded, out')) = length out' ≡ length out

  -- What is assumed of Opus: the buffer that it fills keeps its length.
  abbrev pub KeepsBuffer : Type 0
  KeepsBuffer =
      (coder : o.Coder) (encoded : List ℕ) (out : List F32)
      → SameLength out (o.decode_float coder encoded out false).1

  -- How much an answer holds: as many samples as Opus decoded, but never more than 120 ms.
  abbrev pub Holds : OpusAudioDecoder o → Reply (ℕ × List F32) → Reply (List F32) → Type 0
  Holds d (gives (decoded, filled)) (gives out) =
      length out ≡ min (decoded * d.channels) (buffer_len o d)
  Holds d (fails e) (fails m) = m ≡ append_text "Opus decode: " e
  Holds d _ _ = ⊥

  module _ (keeps : KeepsBuffer) where
    truncated-Holds :
        (d : OpusAudioDecoder o) (silence : F32) (reply : Reply (ℕ × List F32))
        → SameLength (replicate (buffer_len o d) silence) reply
        → Holds d reply (truncated o d reply)
    truncated-Holds d silence (fails e) h = refl
    truncated-Holds d silence (gives (decoded, filled)) h = omega (
      arith,
      h,
      length-take (decoded * d.channels) filled,
      length-replicate (buffer_len o d) silence,
    )

    -- What comes of a decode, by the answers of the two conversions.
    abbrev pub Comes :
        F32
        → OpusAudioDecoder o
        → List ℕ
        → Reply (Unit {0})
        → Reply (Unit {0})
        → OpusAudioDecoder o × Reply (List F32)
        → Type 0
    Comes silence d encoded (fails e) buffer r =
        r ≡ (d, fails (append_text "invalid opus packet: " e))
    Comes silence d encoded (gives _) (fails e) r =
        r ≡ (d, fails (append_text "invalid output buffer: " e))
    Comes silence d encoded (gives _) (gives _) r =
        let asked = o.decode_float d.inner encoded (replicate (buffer_len o d) silence) false in
        (r.0.inner ≡ asked.0) × Holds d asked.1 r.1

    decode-Comes :
        (silence : F32) (d : OpusAudioDecoder o) (encoded : List ℕ)
        → Comes silence d encoded
            (o.packet encoded)
            (o.signals (buffer_len o d))
            (decode o silence d encoded)
    unfolding decode
    decode-Comes silence d encoded = elim (Reply-cases (o.packet encoded)) [
      | inr (e, refused) ↦ rw (refused, decode) refl
      | inl (u, taken) ↦ elim (Reply-cases (o.signals (buffer_len o d))) [
        | inr (e, refused) ↦ rw (taken, refused, decode) refl
        | inl (v, fits) ↦
            rw (taken, fits, decode)
              (
                refl,
                truncated-Holds d silence
                    (o.decode_float d.inner encoded (replicate (buffer_len o d) silence) false).1
                    (keeps d.inner encoded (replicate (buffer_len o d) silence)),
              )
      ]
    ]

    pub record Decodes (silence : F32) (d : OpusAudioDecoder o) (encoded : List ℕ)
        (r : OpusAudioDecoder o × Reply (List F32)) : Type 0 where
      pub rate_kept : r.0.sample_rate ≡ d.sample_rate
      pub channels_kept : r.0.channels ≡ d.channels
      pub comes : Comes silence d encoded (o.packet encoded) (o.signals (buffer_len o d)) r

    decode_keeps :
        (silence : F32) (d : OpusAudioDecoder o) (encoded : List ℕ)
        → ((decode o silence d encoded).0.sample_rate ≡ d.sample_rate)
          × ((decode o silence d encoded).0.channels ≡ d.channels)
    unfolding decode
    decode_keeps silence d encoded = ground arith

    -- A decode keeps the rate and the channels, whatever comes of it, if Opus keeps the length of the
    -- buffer. A packet or a buffer that it does not take leaves the decoder as it was, and the text
    -- says which. Any other packet is decoded into a buffer of 120 ms of silence: what is put out has
    -- as many samples as Opus decoded in all channels, cut at those 120 ms, or the text of its error.
    pub decode-Decodes :
        (silence : F32) (d : OpusAudioDecoder o) (encoded : List ℕ)
        → Decodes silence d encoded (decode o silence d encoded)
    decode-Decodes silence d encoded = record {
      rate_kept = (decode_keeps silence d encoded).0;
      channels_kept = (decode_keeps silence d encoded).1;
      comes = decode-Comes silence d encoded;
    }
