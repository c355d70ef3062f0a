-- ===== src/VoiceMeshBench/Schedule.antt =====
-- voice-mesh-bench/src/main.rs: which participants talk in a frame, and which listen to whom. The
-- sums with the seed, which may be any u64, wrap as they do without overflow checks; the other numbers
-- of a configuration are small.
pub mod Fanout
use godot_network_audio.Common.{
  ℕ, zero, suc, ◌+◌, ◌-◌, ◌*◌, ◌/◌, ◌%◌, ◌^◌, ◌==◌, Bool, true, false, not, ◌&&◌, ◌||◌, List, [],
  ◌∷◌, if◌then◌else◌, ltb, leb, max, bit_xor, wrapping_add, wrapping_mul,
}

pub data Scenario : Type 0 where
  baseline : Scenario
  game_interest : Scenario

pub data InterestProfile : Type 0 where
  rotating : InterestProfile
  crowd_burst : InterestProfile
  group_merge : InterestProfile
  boundary_oscillation : InterestProfile

-- The fields of `Config` that the schedule reads.
pub record Config : Type 0 where
  pub participants : ℕ
  pub talkers : ℕ
  pub scenario : Scenario
  pub interest_profile : InterestProfile
  pub interest_listeners : ℕ
  pub seed : ℕ

abbrev pub game_turn_frames : ℕ
game_turn_frames = 75

abbrev pub game_talk_frames : ℕ
game_talk_frames = 60

abbrev pub game_overlap_frames : ℕ
game_overlap_frames = 5

abbrev pub game_interest_epoch_frames : ℕ
game_interest_epoch_frames = 150

abbrev pub stress_cycle_frames : ℕ
stress_cycle_frames = 600

abbrev pub stress_window_start_frames : ℕ
stress_window_start_frames = 200

abbrev pub stress_window_end_frames : ℕ
stress_window_end_frames = 400

abbrev pub crowd_burst_start_frames : ℕ
crowd_burst_start_frames = 250

abbrev pub crowd_burst_end_frames : ℕ
crowd_burst_end_frames = 300

abbrev pub boundary_oscillation_frames : ℕ
boundary_oscillation_frames = 5

-- `(start..end).contains(&x)`
abbrev pub within : ℕ → ℕ → ℕ → Bool
within start end x = leb start x && ltb x end

-- `(0..n).any(f)`
abbrev pub any_below : ℕ → (ℕ → Bool) → Bool
any_below zero f = false
any_below (suc n) f = any_below n f || f n

-- `(0..n).filter(f).count()`
abbrev pub count_below : ℕ → (ℕ → Bool) → ℕ
count_below zero f = 0
count_below (suc n) f = count_below n f + (if f n then 1 else 0)

pub mix64 : ℕ → ℕ
mix64 value =
    let a = bit_xor value (value / 2 ^ 30) in
    let b = wrapping_mul 64 a 13_787_848_793_156_543_929 in
    let c = bit_xor b (b / 2 ^ 27) in
    let d = wrapping_mul 64 c 10_723_151_780_598_845_931 in bit_xor d (d / 2 ^ 31)

unfoldable pub talker_active : ℕ → ℕ → Bool
talker_active frame_index speaker = ltb ((frame_index + speaker * 37) % 150) 110

unfoldable pub stress_active : Config → ℕ → Bool
stress_active c frame_index = elim c.scenario [
  | baseline ↦ false
  | game_interest ↦
      let phase = frame_index % stress_cycle_frames in
      elim c.interest_profile [
        | rotating ↦ false
        | crowd_burst ↦ within crowd_burst_start_frames crowd_burst_end_frames phase
        | group_merge ↦ within stress_window_start_frames stress_window_end_frames phase
        | boundary_oscillation ↦ within stress_window_start_frames stress_window_end_frames phase
      ]
]

abbrev pub is_crowd_burst : InterestProfile → Bool
is_crowd_burst crowd_burst = true
is_crowd_burst _ = false

-- One slot of the turn: its talker, and at the end of every third turn the next turn's talker too.
abbrev pub slot_talks : Config → ℕ → ℕ → ℕ → Bool
slot_talks c frame_index speaker slot =
    let turn = frame_index / game_turn_frames in
    let phase = frame_index % game_turn_frames in
    let transition = wrapping_add 64 turn c.seed % 3 in
    let current =
      wrapping_add 64 (wrapping_add 64 c.seed slot) (turn * c.talkers) % c.participants in
    let current_active = if transition == 0 then ltb phase game_talk_frames else true in
    let coming =
      wrapping_add 64 (wrapping_add 64 c.seed slot) ((turn + 1) * c.talkers) % c.participants in
    ((current == speaker) && current_active)
    || ((transition == 1)
        && (leb (game_turn_frames - game_overlap_frames) phase && (coming == speaker)))

unfoldable pub game_talker_active : Config → ℕ → ℕ → Bool
unfolding stress_active
game_talker_active c frame_index speaker =
    (is_crowd_burst c.interest_profile && stress_active c frame_index)
    || any_below c.talkers (slot_talks c frame_index speaker)

unfoldable pub speaker_active : Config → ℕ → ℕ → Bool
unfolding talker_active game_talker_active
speaker_active c frame_index speaker = elim c.scenario [
  | baseline ↦ talker_active frame_index speaker
  | game_interest ↦ game_talker_active c frame_index speaker
]

-- Groups of one more than the listeners; in the stress window two groups are one.
abbrev pub group_interested : Config → ℕ → ℕ → ℕ → Bool
group_interested c frame_index speaker listener =
    let group_size = c.interest_listeners + 1 in
    let speaker_group = speaker / group_size in
    let listener_group = listener / group_size in
    if stress_active c frame_index
    then speaker_group / 2 == listener_group / 2
    else speaker_group == listener_group

-- Where a speaker's listeners begin. The product with the speaker is shared by two profiles.
pub rotation : Config → ℕ → ℕ → ℕ
rotation c frame_index speaker =
    let available = c.participants - 1 in
    let mixed = bit_xor c.seed (wrapping_mul 64 speaker 11_400_714_819_323_198_485) in
    elim c.interest_profile [
      | boundary_oscillation ↦
          let base = mix64 mixed % available in
          if stress_active c frame_index
          then (let phase = frame_index % stress_cycle_frames in
              let alternate =
                ((phase - stress_window_start_frames) / boundary_oscillation_frames) % 2 in
              (base + alternate * c.interest_listeners) % available)
          else base
      | _ ↦
          let epoch = frame_index / game_interest_epoch_frames in
          mix64 (bit_xor mixed (wrapping_mul 64 epoch 13_787_848_793_156_543_929)) % available
    ]

-- The listener of a rank.
abbrev pub ranked : Config → ℕ → ℕ → ℕ → ℕ
ranked c frame_index speaker rank =
    let offset = 1 + (rotation c frame_index speaker + rank) % (c.participants - 1) in
    (speaker + offset) % c.participants

unfoldable pub listener_interested : Config → ℕ → ℕ → ℕ → Bool
listener_interested c frame_index speaker listener =
    if speaker == listener then false else elim c.scenario [
      | baseline ↦ ltb speaker c.talkers
      | game_interest ↦ elim c.interest_profile [
        | group_merge ↦ group_interested c frame_index speaker listener
        | _ ↦ any_below c.interest_listeners (λ rank. ranked c frame_index speaker rank == listener)
      ]
    ]

-- The largest number of listeners of any speaker over three frames.
abbrev pub most_below : ℕ → (ℕ → ℕ) → ℕ
most_below zero f = 0
most_below (suc n) f = max (most_below n f) (f n)

unfoldable pub max_interest_listeners : Config → ℕ
unfolding listener_interested
max_interest_listeners c =
    let most = λ (frame : ℕ).
      most_below c.participants
        (λ speaker. count_below c.participants (listener_interested c frame speaker)) in
    max (most 0) (max (most stress_window_start_frames) (most crowd_burst_start_frames))
