-- ===== src/VoiceMeshBench/Impairment.antt =====
-- voice-mesh-bench/src/main.rs: `ImpairmentRouteState`, which decides what datagrams of a route are
-- dropped on purpose. An `f64` is a parameter; `max` and `min` pass over a number that is none.
use godot_network_audio.Common.{
  ℕ, ◌-◌, ◌^◌, Bool, true, false, if◌then◌else◌, bit_xor, wrapping_add, wrapping_mul,
  saturating_add, saturating_mul,
}
use godot_network_audio.VoiceCore.Float.{Floats}
use godot_network_audio.VoiceMeshBench.Schedule.{mix64, within}
use godot_network_audio.VoiceMeshBench.Arguments.{
  Doubles, Config, unimpaired, uniform_loss, burst_loss, outage,
}

-- `SEND_TICK.as_millis()`
abbrev pub send_tick_ms : ℕ
send_tick_ms = 20

pub record ImpairmentRouteState : Type 0 where
  pub rng_state : ℕ
  pub burst_bad : Bool

pub new : ℕ → ℕ → ℕ → ImpairmentRouteState
new seed speaker listener = record {
  rng_state = mix64 (
      bit_xor (bit_xor seed (wrapping_mul 64 speaker 11_400_714_819_323_198_485))
        (wrapping_mul 64 listener 13_787_848_793_156_543_929));
  burst_bad = false;
}

module _ (f : Floats) (d : Doubles f) where
  open f use {F64, lit64, mul64, sub64, div64, lt64, of_usize64}

  -- The new state, and the number that was drawn.
  abbrev pub random_unit : ImpairmentRouteState → ImpairmentRouteState × F64
  random_unit r =
      let state = wrapping_add 64 r.rng_state 11_400_714_819_323_198_485 in
      (record r { rng_state = state }, div64 (of_usize64 (mix64 state)) (of_usize64 (2 ^ 64 - 1)))

  abbrev pub exit_probability : Config f d → F64
  exit_probability c =
      let mean = div64 (of_usize64 c.media_burst_ms) (of_usize64 send_tick_ms) in
      div64 (lit64 "1.0") (if lt64 (lit64 "1.0") mean then mean else lit64 "1.0")

  abbrev pub enter_probability : Config f d → F64
  enter_probability c =
      let loss = div64 c.media_loss_percent (lit64 "100.0") in
      let enter = div64 (mul64 loss (exit_probability c)) (sub64 (lit64 "1.0") loss) in
      if lt64 enter (lit64 "1.0") then enter else lit64 "1.0"

  -- A burst goes on until a draw ends it, and the packet that ends it is delivered.
  abbrev pub burst_drop : Config f d → ImpairmentRouteState → Bool → ImpairmentRouteState × Bool
  burst_drop c r true =
      let (r', unit) = random_unit r in
      if lt64 unit (exit_probability c)
      then (record r' { burst_bad = false }, false)
      else (r', true)
  burst_drop c r false =
      let (r', unit) = random_unit r in
      if lt64 unit (enter_probability c)
      then (record r' { burst_bad = true }, true)
      else (r', false)

  pub should_drop : Config f d → ImpairmentRouteState → ℕ → ImpairmentRouteState × Bool
  should_drop c r frame_index = elim c.media_impairment [
    | unimpaired ↦ (r, false)
    | uniform_loss ↦
        let (r', unit) = random_unit r in
        (r', lt64 unit (div64 c.media_loss_percent (lit64 "100.0")))
    | burst_loss ↦ burst_drop c r r.burst_bad
    | outage ↦ (
      r,
      within c.media_outage_start_ms
          (saturating_add 64 c.media_outage_start_ms c.media_outage_duration_ms)
          (saturating_mul 64 frame_index send_tick_ms),
    )
  ]
