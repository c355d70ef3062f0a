-- ===== src/VoiceCore/Vad.antt =====
-- voice-core/src/vad.rs: the energy detector with its hangover, and the microphone gate.
pub mod Gate
use godot_network_audio.Common.{
  ℕ, ◌-◌, Bool, true, false, List, map, length, is_empty, ltb, if◌then◌else◌,
}
use godot_network_audio.VoiceCore.Float.{Floats}

module _ (f : Floats) where
  open f use {F32, lit, mul, div, sqrt, log10, clamp, le, sum, of_usize}

  pub record VadConfig : Type 0 where
    pub threshold_db : F32
    pub hangover_frames : ℕ

  pub record EnergyVad : Type 0 where
    pub config : VadConfig
    pub hangover_remaining : ℕ

  pub vad_default : VadConfig
  vad_default = record { threshold_db = lit "-45.0"; hangover_frames = 3 }

  pub new : VadConfig → EnergyVad
  new c = record { config = c; hangover_remaining = 0 }

  unfoldable pub rms : List F32 → F32
  rms samples =
      if is_empty samples
      then lit "0.0"
      else sqrt (div (sum (map (λ s. mul s s) samples)) (of_usize (length samples)))

  -- The level of a frame in dBFS.
  unfoldable pub level : List F32 → F32
  level samples =
      let r = rms samples in
      if le r (lit "1.0e-9") then lit "-120.0" else mul (lit "20.0") (log10 r)

  -- `hangover_remaining -= 1` runs only where it is positive.
  pub is_voiced : EnergyVad → List F32 → Bool × EnergyVad
  is_voiced v samples =
      if le v.config.threshold_db (level samples)
      then (true, record v { hangover_remaining = v.config.hangover_frames })
      else (if ltb 0 v.hangover_remaining
          then (true, record v { hangover_remaining = v.hangover_remaining - 1 })
          else (false, v))

  pub set_vad_threshold_db : EnergyVad → F32 → EnergyVad
  set_vad_threshold_db v db = record v { config = record (v.config) { threshold_db = db } }

  pub record MicrophoneGate : Type 0 where
    pub vad : EnergyVad

  pub gate_default : MicrophoneGate
  unfolding new
  gate_default = record { vad = new (record { threshold_db = lit "-38.0"; hangover_frames = 8 }) }

  pub set_threshold_db : MicrophoneGate → F32 → MicrophoneGate
  unfolding set_vad_threshold_db
  set_threshold_db g db = record {
    vad = set_vad_threshold_db g.vad (clamp db (lit "-60.0") (lit "-20.0"));
  }

  -- A frame that is not voiced is overwritten with zeros.
  pub process : MicrophoneGate → List F32 → Bool × List F32 × MicrophoneGate
  process g frame =
      let (voiced, v) = is_voiced g.vad frame in
      if voiced
      then (true, frame, record { vad = v })
      else (false, map (λ _. lit "0.0") frame, record { vad = v })
