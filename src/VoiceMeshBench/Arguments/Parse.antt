-- ===== src/VoiceMeshBench/Arguments/Parse.antt =====
-- voice-mesh-bench/src/main.rs: Config::parse as a whole.
use Prim.Native.String.{String}
use godot_network_audio.Common.{ℕ, Option, none, some, List}
use godot_network_audio.VoiceCore.Float.{Floats}
use godot_network_audio.VoiceMeshBench.Arguments.{
  Doubles, Outcome, accepted, ◌>>=◌, ◌>>◌, Config, default,
}
use godot_network_audio.VoiceMeshBench.Arguments.Options.{options}
use godot_network_audio.VoiceMeshBench.Arguments.Checks.{validate}

module _ (f : Floats) (d : Doubles f) where
  abbrev pub validated : Option (Config f d) → Outcome (Option (Config f d))
  validated none = accepted none
  validated (some c) = do validate f d c; accepted (some c)

  unfoldable pub parse : ℕ → List String → Outcome (Option (Config f d))
  unfolding options validate
  parse available args = do c ← options f d (default f d available) args; validated c
