-- ===== src/VoiceMeshBench/Arguments.antt =====
-- voice-mesh-bench/src/main.rs: Config::parse, from the arguments of the command line to a
-- configuration that was checked. Floats are a parameter, with what the parser asks of them.
pub mod Options
pub mod Checks
pub mod Parse
pub mod Audience
use Prim.Native.Char.{code}
use Prim.Native.String.{String, ◌++◌ as append_text}
use text.Mathlib.Text.{◌==◌ as same_text}
use godot_network_audio.Common.{
  ℕ, ◌+◌, ◌-◌, ◌*◌, ◌/◌, ◌%◌, ◌^◌, ◌==◌, Bool, true, false, not, ◌&&◌, ◌||◌, Option, none, some,
  List, [], ◌∷◌, if◌then◌else◌, ltb, leb, saturating_add,
}
use godot_network_audio.VoiceCore.Error.{Reply, gives, fails}
use godot_network_audio.VoiceCore.Float.{Floats}
use godot_network_audio.VoiceMeshBench.Schedule
use godot_network_audio.VoiceMeshBench.Schedule.{
  Scenario, baseline, game_interest, InterestProfile, rotating, crowd_burst, group_merge,
  boundary_oscillation,
}

pub data Topology : Type 0 where
  direct : Topology
  star : Topology

pub data ProcessLayout : Type 0 where
  single : ProcessLayout
  multi : ProcessLayout

pub data Delivery : Type 0 where
  sender_filtered : Delivery
  broadcast_discard : Delivery

pub data ReceiverPolicy : Type 0 where
  retire : ReceiverPolicy
  pool : ReceiverPolicy

pub data MediaImpairment : Type 0 where
  unimpaired : MediaImpairment
  uniform_loss : MediaImpairment
  burst_loss : MediaImpairment
  outage : MediaImpairment

pub data ChurnProfile : Type 0 where
  steady : ChurnProfile
  join : ChurnProfile
  leave : ChurnProfile
  reconnect : ChurnProfile
  replace : ChurnProfile

-- What the parser asks of `f64` and `Duration`: a duration is its nanoseconds, and the conversion
-- panics where it has none.
pub record Doubles (f : Floats) : Type 0 where
  pub parse64 : String → Reply f.F64
  pub is_finite64 : f.F64 → Bool
  pub from_secs_f64 : f.F64 → Option ℕ

-- `Result` of the crate anyhow with a message, and a panic.
pub data Outcome {ℓ} (A : Type ℓ) : Type ℓ where
  accepted : A → Outcome A
  refused : String → Outcome A
  panics : Outcome A

infixl 5 ◌>>=◌ ◌>>◌
abbrev pub ◌>>=◌ {ℓ κ} : {A : Type ℓ} {B : Type κ} → Outcome A → (A → Outcome B) → Outcome B
accepted a >>= next = next a
refused reason >>= next = refused reason
panics >>= next = panics

abbrev pub ◌>>◌ {ℓ} : {B : Type ℓ} → Outcome (Unit {0}) → Outcome B → Outcome B
m >> k = m >>= λ _. k

-- `if condition { bail!(message) }`
abbrev pub bail_if : Bool → String → Outcome (Unit {0})
bail_if true message = refused message
bail_if false message = accepted tt

-- `.context(message)?` of an option.
abbrev pub context {ℓ} : {A : Type ℓ} → Option A → String → Outcome A
context none message = refused message
context (some a) message = accepted a

-- `.map_err(|err| anyhow!("{prefix}{err}"))?`
abbrev pub map_err {ℓ} : {A : Type ℓ} → Reply A → String → Outcome A
map_err (gives a) prefix = accepted a
map_err (fails e) prefix = refused (append_text prefix e)

module _ (f : Floats) (d : Doubles f) where
  open f use {F64, lit64, lt64, le64}
  open d use {parse64, is_finite64, from_secs_f64}

  -- The fields that the schedule reads stand in `schedule`; `duration` is in nanoseconds.
  pub record Config : Type 0 where
    pub schedule : Schedule.Config
    pub topology : Topology
    pub process_layout : ProcessLayout
    pub duration : ℕ
    pub dtx : Bool
    pub delivery : Delivery
    pub receiver_policy : ReceiverPolicy
    pub media_impairment : MediaImpairment
    pub media_loss_percent : F64
    pub media_burst_ms : ℕ
    pub media_outage_start_ms : ℕ
    pub media_outage_duration_ms : ℕ
    pub churn_profile : ChurnProfile
    pub churn_participant : ℕ
    pub churn_start_ms : ℕ
    pub churn_downtime_ms : ℕ
    pub runtime_workers : ℕ
    pub output : Option String
    pub media_ready_file : Option String

  -- `available` is what `available_parallelism` answers, or 1.
  abbrev pub default : ℕ → Config
  default available = record {
    schedule = record {
      participants = 4;
      talkers = 1;
      scenario = baseline;
      interest_profile = rotating;
      interest_listeners = 7;
      seed = 1;
    };
    topology = direct;
    process_layout = single;
    duration = 5_000_000_000;
    dtx = true;
    delivery = sender_filtered;
    receiver_policy = retire;
    media_impairment = unimpaired;
    media_loss_percent = lit64 "3.0";
    media_burst_ms = 60;
    media_outage_start_ms = 3_000;
    media_outage_duration_ms = 300;
    churn_profile = steady;
    churn_participant = 0;
    churn_start_ms = 6_000;
    churn_downtime_ms = 1_000;
    runtime_workers = available;
    output = none;
    media_ready_file = none;
  }
