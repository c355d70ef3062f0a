-- ===== src/VoiceCore/Decoder.antt =====
-- voice-core/src/decoder.rs: the decoder that NetEq calls. The decoder of the crate audiopus is a
-- parameter, as are the floats.
pub mod Output
use Prim.Native.String.{String, ◌++◌ as append_text}
use godot_network_audio.Common.{
  ℕ, ◌*◌, ◌/◌, ◌==◌, Bool, false, Option, none, some, List, take, replicate, if◌then◌else◌,
}
use godot_network_audio.VoiceCore.Error.{
  Result, ok, err, unsupported_config, Reply, gives, fails, map_opus, ◌>>=◌,
}
use godot_network_audio.VoiceCore.Float.{Floats}

-- The enums of audiopus.
pub data SampleRate : Type 0 where
  hz8000 : SampleRate
  hz12000 : SampleRate
  hz16000 : SampleRate
  hz24000 : SampleRate
  hz48000 : SampleRate

pub data Channels : Type 0 where
  mono : Channels
  stereo : Channels

-- `packet` and `signals` are the conversions of a slice of bytes and of a buffer of a length, which
-- can fail; `decode_float` fills the buffer that it is given and returns the samples per channel.
pub record OpusDecoder (F32 : Type 0) : Type 1 where
  pub Coder : Type 0
  pub create : SampleRate → Channels → Reply Coder
  pub packet : List ℕ → Reply (Unit {0})
  pub signals : ℕ → Reply (Unit {0})
  pub decode_float : Coder → List ℕ → List F32 → Bool → Coder × Reply (ℕ × List F32)
  pub reset_state : Coder → Coder × Reply (Unit {0})

abbrev pub sample_rate_of : ℕ → Option SampleRate
sample_rate_of n =
    if n == 8_000
    then some hz8000
    else (if n == 12_000
        then some hz12000
        else (if n == 16_000
            then some hz16000
            else (if n == 24_000
                then some hz24000
                else (if n == 48_000 then some hz48000 else none))))

abbrev pub channels_of : ℕ → Option Channels
channels_of n = if n == 1 then some mono else (if n == 2 then some stereo else none)

abbrev pub hertz : SampleRate → ℕ
hertz hz8000 = 8_000
hertz hz12000 = 12_000
hertz hz16000 = 16_000
hertz hz24000 = 24_000
hertz hz48000 = 48_000

abbrev pub count : Channels → ℕ
count mono = 1
count stereo = 2

-- `.ok_or(Error::UnsupportedConfig(message))?`
abbrev pub supported {ℓ} : {A : Type ℓ} → String → Option A → Result A
supported message none = err (unsupported_config message)
supported message (some a) = ok a

module _ {F32 : Type 0} (o : OpusDecoder F32) where
  open o use {Coder}

  pub record OpusAudioDecoder : Type 0 where
    pub inner : Coder
    pub sample_rate : ℕ
    pub channels : ℕ

  unfoldable pub new : ℕ → ℕ → Result OpusAudioDecoder
  new sample_rate channels = do
    rate ← supported "unsupported opus sample rate" (sample_rate_of sample_rate)
    layout ← supported "unsupported opus channel count" (channels_of channels)
    inner ← map_opus "decoder init: " (o.create rate layout)
    ok (record { inner = inner; sample_rate = hertz rate; channels = count layout })

  -- A result of the crate neteq: a failure is the text of its `DecoderError`.
  abbrev pub prefixed {ℓ} : {A : Type ℓ} → String → Reply A → Reply A
  prefixed prefix (gives a) = gives a
  prefixed prefix (fails e) = fails (append_text prefix e)

  -- 120 ms, the longest packet of Opus, in samples of all channels.
  abbrev pub buffer_len : OpusAudioDecoder → ℕ
  buffer_len d = d.sample_rate * 120 / 1000 * d.channels

  -- After the call of Opus the buffer is cut to the samples that were decoded.
  abbrev pub truncated : OpusAudioDecoder → Reply (ℕ × List F32) → Reply (List F32)
  truncated d (gives (decoded, out)) = gives (take (decoded * d.channels) out)
  truncated d (fails e) = fails (append_text "Opus decode: " e)

  abbrev pub decode_into :
      OpusAudioDecoder → List ℕ → List F32 → OpusAudioDecoder × Reply (List F32)
  decode_into d encoded out =
      let (inner, reply) = o.decode_float d.inner encoded out false in
      (record d { inner = inner }, truncated d reply)

  -- `silence` is the literal 0.0.
  unfoldable pub decode : F32 → OpusAudioDecoder → List ℕ → OpusAudioDecoder × Reply (List F32)
  decode silence d encoded = elim (o.packet encoded) [
    | fails e ↦ (d, fails (append_text "invalid opus packet: " e))
    | gives _ ↦ elim (o.signals (buffer_len d)) [
      | fails e ↦ (d, fails (append_text "invalid output buffer: " e))
      | gives _ ↦ decode_into d encoded (replicate (buffer_len d) silence)
    ]
  ]

  unfoldable pub reset : OpusAudioDecoder → OpusAudioDecoder × Reply (Unit {0})
  reset d =
      let (inner, reply) = o.reset_state d.inner in
      (record d { inner = inner }, prefixed "Opus reset: " reply)
