-- ===== src/VoiceMeshBench/Arguments/Checks/Accepted.antt =====
-- Which configurations Config::parse of voice-mesh-bench/src/main.rs accepts.
use godot_network_audio.Common.{
  ℕ, ◌+◌, ◌-◌, ◌*◌, ◌/◌, ◌%◌, ◌^◌, ◌≤◌, ◌<◌, ◌≡◌, min, refl, true, false, none, arith, ◌↔◌,
}
use godot_network_audio.VoiceCore.Float.{Floats}
use godot_network_audio.VoiceMeshBench.Schedule.{
  Scenario, baseline, game_interest, InterestProfile, rotating, crowd_burst, group_merge,
  boundary_oscillation,
}
use godot_network_audio.VoiceMeshBench.Arguments.{
  direct, ProcessLayout, single, multi, MediaImpairment, unimpaired, uniform_loss, burst_loss,
  outage, ChurnProfile, steady, join, leave, reconnect, replace, Doubles, Outcome, accepted, Config,
  ◌>>◌,
}
use godot_network_audio.VoiceMeshBench.Arguments.Checks.{
  check_sizes, check_impairment, check_interest, check_churn, check_layout, validate,
}

-- A sequence of checks passes exactly if each does.
pub both_pass :
    (m k : Outcome (Unit {0})) → ((m >> k) ≡ accepted tt) ↔ ((m ≡ accepted tt) × (k ≡ accepted tt))
both_pass (accepted tt) k = (λ h. (refl, h), λ h. h.1)
both_pass m k = (λ h. ground arith, λ h. ground arith)

module _ (f : Floats) (d : Doubles f) where
  abbrev pub Sized : Config f d → Type 0
  Sized c =
      (2 ≤ c.schedule.participants)
      × (c.schedule.participants ≤ 64)
      × (1 ≤ c.schedule.talkers)
      × (c.schedule.talkers ≤ c.schedule.participants)
      × (1 ≤ c.runtime_workers)
      × (c.runtime_workers ≤ 128)
      × (d.is_finite64 c.media_loss_percent ≡ true)
      × (f.le64 (f.lit64 "0.0") c.media_loss_percent ≡ true)
      × (f.le64 c.media_loss_percent (f.lit64 "100.0") ≡ true)

  abbrev pub Impaired : MediaImpairment → Config f d → Type 0
  Impaired burst_loss c =
      (f.le64 c.media_loss_percent (f.lit64 "0.0") ≡ false)
      × (f.le64 (f.lit64 "100.0") c.media_loss_percent ≡ false)
      × (20 ≤ c.media_burst_ms)
  Impaired outage c = 1 ≤ c.media_outage_duration_ms
  Impaired _ c = Unit

  check_sizes_iff : (c : Config f d) → (check_sizes f d c ≡ accepted tt) ↔ Sized c
  unfolding check_sizes
  check_sizes_iff c = (λ h. ground arith, λ h. ground arith)

  check_impairment_iff :
      (c : Config f d) (m : MediaImpairment)
      → c.media_impairment ≡ m
      → (check_impairment f d c ≡ accepted tt) ↔ Impaired m c
  unfolding check_impairment
  check_impairment_iff c burst_loss e = (λ h. ground arith, λ h. ground arith)
  check_impairment_iff c outage e = (λ h. ground arith, λ h. ground arith)
  check_impairment_iff c unimpaired e = (λ h. tt, λ h. ground arith)
  check_impairment_iff c uniform_loss e = (λ h. tt, λ h. ground arith)

  abbrev pub Heard : Scenario → InterestProfile → Config f d → Type 0
  Heard baseline p c = Unit
  Heard game_interest boundary_oscillation c =
      (1 ≤ c.schedule.interest_listeners)
      × (2 * c.schedule.interest_listeners < c.schedule.participants)
      × (c.schedule.talkers ≤ 8)
  Heard game_interest _ c =
      (1 ≤ c.schedule.interest_listeners)
      × (c.schedule.interest_listeners < c.schedule.participants)
      × (c.schedule.talkers ≤ 8)

  abbrev pub ReturnsWithin : ℕ → Config f d → Type 0
  ReturnsWithin downtime c =
      (c.topology ≡ direct)
      × (c.churn_participant < c.schedule.participants)
      × (min (c.churn_start_ms + downtime) (2 ^ 64 - 1) < (c.duration / 1_000_000) % 2 ^ 64)

  abbrev pub Churned : ChurnProfile → Config f d → Type 0
  Churned steady c = Unit
  Churned join c =
      (c.topology ≡ direct)
      × (c.churn_participant < c.schedule.participants)
      × (c.churn_start_ms < (c.duration / 1_000_000) % 2 ^ 64)
  Churned leave c =
      (c.topology ≡ direct)
      × (c.churn_participant < c.schedule.participants)
      × (c.churn_start_ms < (c.duration / 1_000_000) % 2 ^ 64)
  Churned _ c = (0 < c.churn_downtime_ms) × ReturnsWithin c.churn_downtime_ms c

  abbrev pub LaidOut : ProcessLayout → Config f d → Type 0
  LaidOut single c = Unit
  LaidOut multi c =
      (c.churn_profile ≡ steady)
      × (c.schedule.scenario ≡ game_interest)
      × (c.media_ready_file ≡ none)

  check_interest_iff :
      (c : Config f d) (s : Scenario) (p : InterestProfile)
      → c.schedule.scenario ≡ s
      → c.schedule.interest_profile ≡ p
      → (check_interest f d c ≡ accepted tt) ↔ Heard s p c
  unfolding check_interest
  check_interest_iff c baseline p e g = (λ h. tt, λ h. ground arith)
  check_interest_iff c game_interest boundary_oscillation e g =
      (λ h. ground arith, λ h. ground arith)
  check_interest_iff c game_interest rotating e g = (λ h. ground arith, λ h. ground arith)
  check_interest_iff c game_interest crowd_burst e g = (λ h. ground arith, λ h. ground arith)
  check_interest_iff c game_interest group_merge e g = (λ h. ground arith, λ h. ground arith)

  check_churn_iff :
      (c : Config f d) (m : ChurnProfile)
      → c.churn_profile ≡ m
      → (check_churn f d c ≡ accepted tt) ↔ Churned m c
  unfolding check_churn
  check_churn_iff c steady e = (λ h. tt, λ h. ground arith)
  check_churn_iff c join e = (λ h. ground arith, λ h. ground arith)
  check_churn_iff c leave e = (λ h. ground arith, λ h. ground arith)
  check_churn_iff c reconnect e = (λ h. ground arith, λ h. ground arith)
  check_churn_iff c replace e = (λ h. ground arith, λ h. ground arith)

  check_layout_iff :
      (c : Config f d) (l : ProcessLayout)
      → c.process_layout ≡ l
      → (check_layout f d c ≡ accepted tt) ↔ LaidOut l c
  unfolding check_layout
  check_layout_iff c single e = (λ h. tt, λ h. ground arith)
  check_layout_iff c multi e = (λ h. ground arith, λ h. ground arith)

  -- What a configuration has to be: the sizes, then what its impairment, its scenario with its
  -- interest profile, its churn profile and its layout ask for.
  pub record IsAccepted (c : Config f d) : Type 0 where
    pub sizes : Sized c
    pub impairment : Impaired c.media_impairment c
    pub interest : Heard c.schedule.scenario c.schedule.interest_profile c
    pub churn : Churned c.churn_profile c
    pub layout : LaidOut c.process_layout c

  -- The checks pass exactly the configurations that are as they have to be.
  pub validate_iff : (c : Config f d) → (validate f d c ≡ accepted tt) ↔ IsAccepted c
  unfolding validate
  validate_iff c =
      let sizes = check_sizes_iff c in
      let impairment = check_impairment_iff c c.media_impairment refl in
      let interest =
        check_interest_iff c c.schedule.scenario c.schedule.interest_profile refl refl in
      let churn = check_churn_iff c c.churn_profile refl in
      let layout = check_layout_iff c c.process_layout refl in
      let last = both_pass (check_churn f d c) (check_layout f d c) in
      let third = both_pass (check_interest f d c) (check_churn f d c >> check_layout f d c) in
      let second =
        both_pass (check_impairment f d c)
          (check_interest f d c >> (check_churn f d c >> check_layout f d c)) in
      let first = both_pass (check_sizes f d c) (
        check_impairment f d c
        >> (check_interest f d c >> (check_churn f d c >> check_layout f d c))) in
      (
        λ h.
            let a = first.0 h in
            let b = second.0 a.1 in
            let e = third.0 b.1 in
            let g = last.0 e.1 in
            record {
              sizes = sizes.0 a.0;
              impairment = impairment.0 b.0;
              interest = interest.0 e.0;
              churn = churn.0 g.0;
              layout = layout.0 g.1;
            },
        λ a. first.1 (
          sizes.1 a.sizes,
          second.1 (
            impairment.1 a.impairment,
            third.1 (interest.1 a.interest, last.1 (churn.1 a.churn, layout.1 a.layout)),
          ),
        ),
      )
