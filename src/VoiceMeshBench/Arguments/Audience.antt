-- ===== src/VoiceMeshBench/Arguments/Audience.antt =====
-- The configurations that Config::parse of voice-mesh-bench/src/main.rs accepts, in the schedule.
use Prim.Native.String.{String}
use godot_network_audio.Common.{ℕ, ◌-◌, ◌≤◌, ◌<◌, ◌≡◌, false, Option, none, some, List, arith}
use godot_network_audio.VoiceCore.Float.{Floats}
use godot_network_audio.VoiceMeshBench.Schedule.{
  Scenario, game_interest, InterestProfile, rotating, crowd_burst, group_merge,
  boundary_oscillation, count_below, listener_interested,
}
use godot_network_audio.VoiceMeshBench.Schedule.Fanout.{is_group_merge, exact_fanout}
use godot_network_audio.VoiceMeshBench.Arguments.{
  Doubles, Outcome, accepted, Config, ◌>>=◌, default,
}
use godot_network_audio.VoiceMeshBench.Arguments.Options.{options}
use godot_network_audio.VoiceMeshBench.Arguments.Checks.{validate}
use godot_network_audio.VoiceMeshBench.Arguments.Checks.Accepted.{IsAccepted, Heard, validate_iff}
use godot_network_audio.VoiceMeshBench.Arguments.Parse.{parse, validated}

module _ (f : Floats) (d : Doubles f) where
  validated-some :
      (o : Outcome (Option (Config f d))) {c : Config f d}
      → (o >>= validated f d) ≡ accepted (some c)
      → validate f d c ≡ accepted tt
  validated-some (accepted none) h = ground arith
  validated-some (accepted (some c')) h = ground arith
  validated-some _ h = ground arith

  pub parse-IsAccepted :
      (available : ℕ) (args : List String) {c : Config f d}
      → parse f d available args ≡ accepted (some c)
      → IsAccepted f d c
  unfolding parse
  parse-IsAccepted available args {c} h =
      (validate_iff f d c).0 (validated-some (options f d (default f d available) args) h)

  audience_fits :
      (c : Config f d) (s : Scenario) (p : InterestProfile)
      → Heard f d s p c
      → s ≡ game_interest
      → c.schedule.interest_listeners ≤ c.schedule.participants - 1
  audience_fits c game_interest boundary_oscillation h e = omega arith
  audience_fits c game_interest rotating h e = omega arith
  audience_fits c game_interest crowd_burst h e = omega arith
  audience_fits c game_interest group_merge h e = omega arith
  audience_fits c _ p h e = absurd (ground arith)

  -- With arguments that are accepted, in the game scenario, except where groups are merged, every
  -- speaker has in every frame as many listeners among the participants as the configuration says.
  pub parse_fanout :
      (available : ℕ) (args : List String) (c : Config f d) (frame speaker : ℕ)
      → parse f d available args ≡ accepted (some c)
      → c.schedule.scenario ≡ game_interest
      → is_group_merge c.schedule.interest_profile ≡ false
      → speaker < c.schedule.participants
      → count_below c.schedule.participants (listener_interested c.schedule frame speaker)
        ≡ c.schedule.interest_listeners
  parse_fanout available args c frame speaker h played ungrouped known =
      let a = parse-IsAccepted available args h in
      exact_fanout c.schedule frame speaker played ungrouped (omega (arith, a.sizes))
        (audience_fits c c.schedule.scenario c.schedule.interest_profile a.interest played) known
