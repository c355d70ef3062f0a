-- ===== src/VoiceCore/Encoder/Start.antt =====
-- What `VoiceEncoder::new` of voice-core/src/encoder.rs makes.
use godot_network_audio.Common.{◌≡◌, false, [], arith}
use godot_network_audio.VoiceCore.Error.{ok}
use godot_network_audio.VoiceCore.Float.{Floats}
use godot_network_audio.VoiceCore.Resample
use godot_network_audio.VoiceCore.Encoder.{OpusEncoder, VoiceEncoder, VoiceEncoderConfig, new}

module _ (f : Floats) (o : OpusEncoder f.F32) where
  -- A new encoder is silent, holds no samples and converts from the rate of its device.
  pub record IsFresh (config : VoiceEncoderConfig) (e : VoiceEncoder f o) : Type 0 where
    pub silent : e.speaking ≡ false
    pub empty : e.pending_pcm ≡ []
    pub input_rate : e.resampler.input_rate ≡ config.input_sample_rate
    pub output_rate : e.resampler.output_rate ≡ 48_000

  pub new-IsFresh :
      (config : VoiceEncoderConfig) (e : VoiceEncoder f o)
      → new f o config ≡ ok e
      → IsFresh config e
  unfolding new Resample.new
  new-IsFresh config e made = ground (arith, made)
