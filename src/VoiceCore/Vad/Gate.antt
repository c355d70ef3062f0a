-- ===== src/VoiceCore/Vad/Gate.antt =====
-- What the microphone gate of voice-core/src/vad.rs lets through, over a run of frames.
use godot_network_audio.Common.{
  ℕ, zero, suc, ◌≡◌, refl, ap, true, false, List, [], ◌∷◌, ◌++◌, map, take, drop, length,
  length-map, arith, All,
}
use godot_network_audio.VoiceCore.Float.{Floats}
use godot_network_audio.VoiceCore.Vad.{
  EnergyVad, MicrophoneGate, level, is_voiced, process, set_threshold_db,
}

module _ (f : Floats) where
  open f use {F32, lit, le}

  -- The frame reaches the detector's threshold.
  abbrev pub IsLoud : EnergyVad f → List F32 → Type 0
  IsLoud v frame = le v.config.threshold_db (level f frame) ≡ true

  abbrev pub IsQuiet : EnergyVad f → List F32 → Type 0
  IsQuiet v frame = le v.config.threshold_db (level f frame) ≡ false

  abbrev pub silenced : List F32 → List F32
  silenced = map λ _. lit "0.0"

  -- The frames that come out of the gate, in order.
  abbrev pub outputs : MicrophoneGate f → List (List F32) → List (List F32)
  outputs g [] = []
  outputs g (frame ∷ frames) = let (voiced, out, g') = process f g frame in out ∷ outputs g' frames

  process_held :
      (v : EnergyVad f) (n : ℕ) (frame : List F32)
      → IsQuiet v frame
      → process f (record { vad = record v { hangover_remaining = suc n } }) frame
        ≡ (true, frame, record { vad = record v { hangover_remaining = n } })
  unfolding process is_voiced
  process_held v n frame q = ground arith

  process_closed :
      (v : EnergyVad f) (frame : List F32)
      → IsQuiet v frame
      → process f (record { vad = record v { hangover_remaining = 0 } }) frame
        ≡ (false, silenced frame, record { vad = record v { hangover_remaining = 0 } })
  unfolding process is_voiced
  process_closed v frame q = ground arith

  process_loud :
      (v : EnergyVad f) (frame : List F32)
      → IsLoud v frame
      → process f (record { vad = v }) frame
        ≡ (true, frame, record { vad = record v { hangover_remaining = v.config.hangover_frames } })
  unfolding process is_voiced
  process_loud v frame q = ground arith

  -- Quiet frames pass while the hangover lasts, and are zeroed from then on.
  outputs_quiet :
      (v : EnergyVad f) (n : ℕ) (frames : List (List F32))
      → All (IsQuiet v) frames
      → outputs (record { vad = record v { hangover_remaining = n } }) frames
        ≡ take n frames ++ map silenced (drop n frames)
  outputs_quiet v zero [] q = refl
  outputs_quiet v zero (x ∷ xs) q =
      rw (process_closed v x q.0) (ap (◌∷◌ (silenced x)) (outputs_quiet v zero xs q.1))
  outputs_quiet v (suc n) [] q = refl
  outputs_quiet v (suc n) (x ∷ xs) q =
      rw (process_held v n x q.0) (ap (◌∷◌ x) (outputs_quiet v n xs q.1))

  -- After a frame that reaches the threshold, of the quiet frames that follow it exactly the first
  -- `hangover_frames` pass unchanged with it, and every later one comes out as zeros.
  pub outputs_hold :
      (v : EnergyVad f) (loud : List F32) (frames : List (List F32))
      → IsLoud v loud
      → All (IsQuiet v) frames
      → outputs (record { vad = v }) (loud ∷ frames)
        ≡ loud
          ∷ (take v.config.hangover_frames frames
              ++ map silenced (drop v.config.hangover_frames frames))
  outputs_hold v loud frames l q =
      rw (process_loud v loud l) (ap (◌∷◌ loud) (outputs_quiet v v.config.hangover_frames frames q))

  -- A new threshold is clamped to -60 .. -20 dB, and the hold that is under way goes on.
  pub set_threshold_keeps_hold :
      (g : MicrophoneGate f) (db : F32)
      → ((set_threshold_db f g db).vad.config.threshold_db ≡ f.clamp db (lit "-60.0") (lit "-20.0"))
        × ((set_threshold_db f g db).vad.hangover_remaining ≡ g.vad.hangover_remaining)
        × ((set_threshold_db f g db).vad.config.hangover_frames ≡ g.vad.config.hangover_frames)
  unfolding set_threshold_db
  set_threshold_keeps_hold g db = (refl, refl, refl)

  pub length-process :
      (g : MicrophoneGate f) (frame : List F32) → length (process f g frame).1 ≡ length frame
  unfolding process
  length-process g frame = ground (arith, length-map frame (λ (v : F32). lit "0.0"))
