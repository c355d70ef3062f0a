-- ===== src/VoiceMeshBench/Arguments/Checks.antt =====
-- voice-mesh-bench/src/main.rs: the checks of Config::parse on the configuration that was read.
pub mod Accepted
use Prim.Native.Char.{code}
use Prim.Native.String.{String, ◌++◌ as append_text}
use text.Mathlib.Text.{◌==◌ as same_text}
use godot_network_audio.Common.{
  ℕ, ◌+◌, ◌-◌, ◌*◌, ◌/◌, ◌%◌, ◌^◌, ◌==◌, Bool, true, false, not, ◌&&◌, ◌||◌, Option, none, some,
  List, [], ◌∷◌, if◌then◌else◌, ltb, leb, saturating_add,
}
use godot_network_audio.VoiceCore.Error.{Reply, gives, fails}
use godot_network_audio.VoiceCore.Float.{Floats}
use godot_network_audio.VoiceMeshBench.Schedule
use godot_network_audio.VoiceMeshBench.Schedule.{
  Scenario, baseline, game_interest, InterestProfile, rotating, crowd_burst, group_merge,
  boundary_oscillation,
}
use godot_network_audio.VoiceMeshBench.Arguments.{
  Topology, direct, star, ProcessLayout, single, multi, Delivery, sender_filtered,
  broadcast_discard, ReceiverPolicy, retire, pool, MediaImpairment, unimpaired, uniform_loss,
  burst_loss, outage, ChurnProfile, steady, join, leave, reconnect, replace, Doubles, Outcome,
  accepted, refused, panics, ◌>>=◌, ◌>>◌, bail_if, context, map_err, Config, default,
}

abbrev pub is_game : Scenario → Bool
is_game baseline = false
is_game game_interest = true

abbrev pub is_boundary : InterestProfile → Bool
is_boundary boundary_oscillation = true
is_boundary _ = false

abbrev pub is_burst_loss : MediaImpairment → Bool
is_burst_loss burst_loss = true
is_burst_loss _ = false

abbrev pub is_outage : MediaImpairment → Bool
is_outage outage = true
is_outage _ = false

abbrev pub is_direct : Topology → Bool
is_direct direct = true
is_direct star = false

abbrev pub is_multi : ProcessLayout → Bool
is_multi single = false
is_multi multi = true

abbrev pub active : ChurnProfile → Bool
active steady = false
active _ = true

-- `matches!(profile, ChurnProfile::Reconnect | ChurnProfile::Replace)`
abbrev pub has_downtime : ChurnProfile → Bool
has_downtime reconnect = true
has_downtime replace = true
has_downtime _ = false

abbrev pub is_some {ℓ} : {A : Type ℓ} → Option A → Bool
is_some none = false
is_some (some a) = true

abbrev pub send_tick_ms : ℕ
send_tick_ms = 20

module _ (f : Floats) (d : Doubles f) where
  open f use {lit64, le64}
  open d use {is_finite64}

  -- The checks, in the order of the source.
  pub check_sizes : Config f d → Outcome (Unit {0})
  check_sizes c = do
    bail_if (not (leb 2 c.schedule.participants && leb c.schedule.participants 64))
        "--participants must be between 2 and 64"
    bail_if (c.schedule.talkers == 0 || ltb c.schedule.participants c.schedule.talkers)
        "--talkers must be between 1 and the participant count"
    bail_if (not (leb 1 c.runtime_workers && leb c.runtime_workers 128))
        "--runtime-workers must be between 1 and 128"
    bail_if
        (not (is_finite64 c.media_loss_percent)
          || not (
              le64 (lit64 "0.0") c.media_loss_percent && le64 c.media_loss_percent (lit64 "100.0")))
        "--media-loss-percent must be finite and between 0 and 100"

  pub check_impairment : Config f d → Outcome (Unit {0})
  check_impairment c = do
    bail_if
        (is_burst_loss c.media_impairment
          && (le64 c.media_loss_percent (lit64 "0.0")
              || (le64 (lit64 "100.0") c.media_loss_percent || ltb c.media_burst_ms send_tick_ms)))
        "burst loss requires 0 < --media-loss-percent < 100 and --media-burst-ms >= 20"
    bail_if (is_outage c.media_impairment && (c.media_outage_duration_ms == 0))
        "outage requires --media-outage-duration-ms greater than zero"

  -- `interest_listeners * 2` is below 2 ^ 64 where it is computed.
  pub check_interest : Config f d → Outcome (Unit {0})
  check_interest c = if not (is_game c.schedule.scenario) then accepted tt else (do
    bail_if
        ((c.schedule.interest_listeners == 0)
          || leb c.schedule.participants c.schedule.interest_listeners)
        "--interest-listeners must be between 1 and participants - 1"
    bail_if (ltb 8 c.schedule.talkers)
        "game-interest supports at most 8 simultaneous conversation slots"
    bail_if
        (is_boundary c.schedule.interest_profile
          && ltb (c.schedule.participants - 1) (c.schedule.interest_listeners * 2))
        "boundary-oscillation requires two disjoint listener sets; use --interest-listeners no greater than (participants - 1) / 2")

  abbrev pub event_end_ms : Config f d → ℕ
  event_end_ms c =
      if has_downtime c.churn_profile
      then saturating_add 64 c.churn_start_ms c.churn_downtime_ms
      else c.churn_start_ms

  -- `as_millis() as u64`
  abbrev pub duration_ms : Config f d → ℕ
  duration_ms c = (c.duration / 1_000_000) % 2 ^ 64

  pub check_churn : Config f d → Outcome (Unit {0})
  check_churn c = if not (active c.churn_profile) then accepted tt else (do
    bail_if (not (is_direct c.topology)) "churn profiles currently require --topology direct"
    bail_if (leb c.schedule.participants c.churn_participant)
        "--churn-participant must be less than participants"
    bail_if (has_downtime c.churn_profile && (c.churn_downtime_ms == 0))
        "--churn-downtime-ms must be greater than zero"
    bail_if (leb (duration_ms c) (event_end_ms c))
        "churn start plus downtime must be shorter than the media duration")

  pub check_layout : Config f d → Outcome (Unit {0})
  check_layout c = do
    bail_if (is_multi c.process_layout && active c.churn_profile)
        "multiprocess comparison does not support churn profiles"
    bail_if (is_multi c.process_layout && not (is_game c.schedule.scenario))
        "multiprocess comparison currently requires --scenario game-interest"
    bail_if (is_multi c.process_layout && is_some c.media_ready_file)
        "--media-ready-file currently requires --process-layout single"

  unfoldable pub validate : Config f d → Outcome (Unit {0})
  unfolding check_sizes check_impairment check_interest check_churn check_layout
  validate c = do check_sizes c; check_impairment c; check_interest c; check_churn c; check_layout c
