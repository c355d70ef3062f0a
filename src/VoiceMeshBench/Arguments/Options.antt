-- ===== src/VoiceMeshBench/Arguments/Options.antt =====
-- voice-mesh-bench/src/main.rs: the loop of Config::parse over the arguments.
use Prim.Native.Char.{code}
use Prim.Native.String.{String, ◌++◌ as append_text}
use text.Mathlib.Text.{◌==◌ as same_text}
use godot_network_audio.Common.{
  ℕ, ◌+◌, ◌-◌, ◌*◌, ◌^◌, ◌==◌, Bool, true, false, not, ◌&&◌, ◌||◌, Option, none, some, List, [],
  ◌∷◌, if◌then◌else◌, ltb, leb,
}
use godot_network_audio.VoiceCore.Error.{Reply, gives, fails}
use godot_network_audio.VoiceCore.Float.{Floats}
use godot_network_audio.VoiceMeshBench.Schedule.{
  baseline, game_interest, rotating, crowd_burst, group_merge, boundary_oscillation,
}
use godot_network_audio.VoiceMeshBench.Arguments.{
  direct, star, single, multi, sender_filtered, broadcast_discard, retire, pool, unimpaired,
  uniform_loss, burst_loss, outage, steady, join, leave, reconnect, replace, Doubles, Outcome,
  accepted, refused, panics, ◌>>=◌, ◌>>◌, bail_if, context, map_err, Config,
}

abbrev codes : String → List ℕ
codes String.[] = []
codes (String.◌∷◌ c s) = code c ∷ codes s

-- `str::parse` of a `u64` or a `usize`, which are the same on a 64-bit machine.
pub parse_digits : ℕ → List ℕ → Reply ℕ
parse_digits n [] = gives n
parse_digits n (c ∷ cs) =
    let more = n * 10 + (c - b'0') in
    let rest = parse_digits more cs in
    if not (leb b'0' c && leb c b'9')
    then fails "invalid digit found in string"
    else (if ltb more (2 ^ 64) then rest else fails "number too large to fit in target type")

pub parse_word : List ℕ → Reply ℕ
unfolding parse_digits
parse_word [] = fails "cannot parse integer from empty string"
parse_word (c ∷ []) = parse_digits 0 (c ∷ [])
parse_word (c ∷ d ∷ cs) = if c == b'+' then parse_digits 0 (d ∷ cs) else parse_digits 0 (c ∷ d ∷ cs)

abbrev pub requires : String → String
requires name = append_text name " requires a value"

-- `parse_next`, where `args.next()` gave `value`.
abbrev pub parse_next : String → Option String → Outcome ℕ
parse_next name value = do
  raw ← context value (requires name)
  map_err (parse_word (codes raw)) (append_text "invalid value for " (append_text name ": "))

-- One arm of an option that takes one of a few words.
abbrev pub choose {ℓ} : {A : Type ℓ} → String → List (String × A) → String → Outcome A
choose message [] value = refused (append_text message value)
choose message ((word, a) ∷ words) value =
    if same_text value word then accepted a else choose message words value

module _ (f : Floats) (d : Doubles f) where
  open f use {F64, lit64, lt64}
  open d use {parse64, is_finite64, from_secs_f64}

  -- `--seconds`
  abbrev pub parse_seconds : Option String → Outcome ℕ
  parse_seconds value = do
    raw ← context value "--seconds requires a value"
    seconds ← map_err (parse64 raw) "invalid value for --seconds: "
    bail_if (not (is_finite64 seconds) || lt64 seconds (lit64 "0.5"))
        "--seconds must be finite and at least 0.5"
    elim (from_secs_f64 seconds) [ none ↦ panics | some nanos ↦ accepted nanos ]

  abbrev pub parse_percent : Option String → Outcome F64
  parse_percent value = do
    raw ← context value "--media-loss-percent requires a value"
    map_err (parse64 raw) "invalid value for --media-loss-percent: "

  -- The options of which the value is one of a few words.
  pub choice : Config f d → String → String → Outcome (Config f d)
  choice c arg value =
      if same_text arg "--topology"
      then (do
        t ←
            choose "--topology must be direct or star, got "
              (("direct", direct) ∷ ("star", star) ∷ []) value
        accepted (record c { topology = t }))
      else (if same_text arg "--process-layout"
          then (do
            l ←
                choose "--process-layout must be single or multi, got "
                  (("single", single) ∷ ("multi", multi) ∷ []) value
            accepted (record c { process_layout = l }))
          else (if same_text arg "--dtx"
              then (do
                b ←
                    choose "--dtx must be on or off, got " (("on", true) ∷ ("off", false) ∷ [])
                      value
                accepted (record c { dtx = b }))
              else (if same_text arg "--scenario"
                  then (do
                    s ←
                        choose "--scenario must be baseline or game-interest, got "
                          (("baseline", baseline) ∷ ("game-interest", game_interest) ∷ []) value
                    accepted (record c { schedule = record c.schedule { scenario = s } }))
                  else (if same_text arg "--delivery"
                      then (do
                        m ←
                            choose "--delivery must be sender-filtered or broadcast-discard, got "
                              (("sender-filtered", sender_filtered)
                                ∷ ("broadcast-discard", broadcast_discard)
                                ∷ [])
                              value
                        accepted (record c { delivery = m }))
                      else (if same_text arg "--receiver-policy"
                          then (do
                            p ←
                                choose "--receiver-policy must be retire or pool, got "
                                  (("retire", retire) ∷ ("pool", pool) ∷ []) value
                            accepted (record c { receiver_policy = p }))
                          else (if same_text arg "--interest-profile"
                              then (do
                                p ←
                                    choose
                                      "--interest-profile must be rotating, crowd-burst, group-merge, or boundary-oscillation, got "
                                      (("rotating", rotating)
                                        ∷ ("crowd-burst", crowd_burst)
                                        ∷ ("group-merge", group_merge)
                                        ∷ ("boundary-oscillation", boundary_oscillation)
                                        ∷ [])
                                      value
                                accepted (record c {
                                  schedule = record c.schedule { interest_profile = p };
                                }))
                              else (if same_text arg "--media-impairment"
                                  then (do
                                    i ←
                                        choose
                                          "--media-impairment must be none, uniform-loss, burst-loss, or outage, got "
                                          (("none", unimpaired)
                                            ∷ ("uniform-loss", uniform_loss)
                                            ∷ ("burst-loss", burst_loss)
                                            ∷ ("outage", outage)
                                            ∷ [])
                                          value
                                    accepted (record c { media_impairment = i }))
                                  else (do
                                    p ←
                                        choose
                                          "--churn must be none, join, leave, reconnect, or replace, got "
                                          (("none", steady)
                                            ∷ ("join", join)
                                            ∷ ("leave", leave)
                                            ∷ ("reconnect", reconnect)
                                            ∷ ("replace", replace)
                                            ∷ [])
                                          value
                                    accepted (record c { churn_profile = p })))))))))

  abbrev pub choices : List String
  choices =
      "--topology" ∷ "--process-layout" ∷ "--dtx" ∷ "--scenario" ∷ "--delivery"
      ∷ "--receiver-policy" ∷ "--interest-profile" ∷ "--media-impairment" ∷ "--churn" ∷ []

  abbrev pub is_one_of : List String → String → Bool
  is_one_of [] arg = false
  is_one_of (name ∷ names) arg = same_text arg name || is_one_of names arg

  -- The options of which the value is a number.
  pub number : Config f d → String → Option String → Outcome (Config f d)
  unfolding parse_word
  number c arg value =
      if same_text arg "--participants"
      then (do
        n ← parse_next arg value
        accepted (record c { schedule = record c.schedule { participants = n } }))
      else (if same_text arg "--talkers"
          then (do
            n ← parse_next arg value
            accepted (record c { schedule = record c.schedule { talkers = n } }))
          else (if same_text arg "--interest-listeners"
              then (do
                n ← parse_next arg value
                accepted (record c { schedule = record c.schedule { interest_listeners = n } }))
              else (if same_text arg "--seed"
                  then (do
                    n ← parse_next arg value
                    accepted (record c { schedule = record c.schedule { seed = n } }))
                  else (if same_text arg "--media-burst-ms"
                      then (do n ← parse_next arg value; accepted (record c { media_burst_ms = n }))
                      else (if same_text arg "--media-outage-start-ms"
                          then (do
                            n ← parse_next arg value
                            accepted (record c { media_outage_start_ms = n }))
                          else (if same_text arg "--media-outage-duration-ms"
                              then (do
                                n ← parse_next arg value
                                accepted (record c { media_outage_duration_ms = n }))
                              else (if same_text arg "--churn-participant"
                                  then (do
                                    n ← parse_next arg value
                                    accepted (record c { churn_participant = n }))
                                  else (if same_text arg "--churn-start-ms"
                                      then (do
                                        n ← parse_next arg value
                                        accepted (record c { churn_start_ms = n }))
                                      else (if same_text arg "--churn-downtime-ms"
                                          then (do
                                            n ← parse_next arg value
                                            accepted (record c { churn_downtime_ms = n }))
                                          else (if same_text arg "--runtime-workers"
                                              then (do
                                                n ← parse_next arg value
                                                accepted (record c { runtime_workers = n }))
                                              else refused (
                                                  append_text "unknown argument "
                                                    (append_text arg "; use --help"))))))))))))

  -- One round of the loop: `value` is what `args.next()` gives after the option, which every option
  -- but the help takes.
  pub option : Config f d → String → Option String → Outcome (Config f d)
  unfolding choice number
  option c arg value =
      if is_one_of choices arg
      then (do
        word ←
            context value
              (if same_text arg "--dtx" then "--dtx requires on or off" else requires arg)
        choice c arg word)
      else (if same_text arg "--seconds"
          then (do nanos ← parse_seconds value; accepted (record c { duration = nanos }))
          else (if same_text arg "--media-loss-percent"
              then (do
                percent ← parse_percent value
                accepted (record c { media_loss_percent = percent }))
              else (if same_text arg "--output"
                  then (do
                    path ← context value "--output requires a path"
                    accepted (record c { output = some path }))
                  else (if same_text arg "--media-ready-file"
                      then (do
                        path ← context value "--media-ready-file requires a path"
                        accepted (record c { media_ready_file = some path }))
                      else number c arg value))))

  abbrev pub is_help : String → Bool
  is_help arg = same_text arg "-h" || same_text arg "--help"

  -- The loop over the arguments; `none` asks for the help.
  unfoldable pub options : Config f d → List String → Outcome (Option (Config f d))
  unfolding option
  options c [] = accepted (some c)
  options c (arg ∷ []) =
      if is_help arg then accepted none else (do c' ← option c arg none; accepted (some c'))
  options c (arg ∷ value ∷ args) =
      if is_help arg then accepted none else (do c' ← option c arg (some value); options c' args)
