-- ===== src/VoiceCore/Packet/Flags.antt =====
-- The flag bits of voice-core/src/packet.rs, at every byte.
use godot_network_audio.Common.{
  ℕ, ◌≡◌, refl, ◌⊎◌, inl, inr, Bool, true, false, not, ◌&&◌, arith, holds_below, holds_at, ◌==◌,
  if◌then◌else◌,
}
use godot_network_audio.VoiceCore.Packet.{
  IsByte, start_of_talkspurt, end_of_talkspurt, fec_included, from_bits, contains, set,
}

-- One of the three flag bits.
abbrev pub IsFlag : ℕ → Type 0
IsFlag b = (b ≡ start_of_talkspurt) ⊎ ((b ≡ end_of_talkspurt) ⊎ (b ≡ fec_included))

abbrev same : Bool → Bool → Bool
same true b = b
same false b = not b

same-eq : (a b : Bool) → same a b ≡ true → a ≡ b
same-eq a b h = ground arith

-- The law at one value of the bits.
abbrev law : ℕ → ℕ → Bool → ℕ → Bool
law bit other enabled bits =
    same (contains (set (from_bits bits) bit enabled) other)
      (if bit == other then enabled else contains (from_bits bits) other)

abbrev all_flags : (ℕ → Bool) → Bool
all_flags p = p start_of_talkspurt && (p end_of_talkspurt && p fec_included)

all_flags_sound : (p : ℕ → Bool) (b : ℕ) → IsFlag b → all_flags p ≡ true → p b ≡ true
all_flags_sound p b (inl e) h = rw e (ground arith)
all_flags_sound p b (inr (inl e)) h = rw e (ground arith)
all_flags_sound p b (inr (inr e)) h = rw e (ground arith)

abbrev both : ℕ → ℕ → ℕ → Bool
both bits bit other = law bit other true bits && law bit other false bits

abbrev table : ℕ → Bool
table bits = all_flags λ bit. all_flags λ other. both bits bit other

table_holds : holds_below table 256 ≡ true
unfolding holds_below contains set
table_holds = refl

-- After `set` a flag reads as it was set, and each other flag as before, for every byte of bits.
contains-set :
    (bits bit other : ℕ) (enabled : Bool)
    → IsByte bits
    → IsFlag bit
    → IsFlag other
    → contains (set (from_bits bits) bit enabled) other
      ≡ (if bit == other then enabled else contains (from_bits bits) other)
contains-set bits bit other enabled h hb ho = same-eq _ _ (pick enabled holds)
  where
    holds : both bits bit other ≡ true
    holds =
        all_flags_sound (both bits bit) other ho
          (all_flags_sound (λ b. all_flags (both bits b)) bit hb (holds_at table 256 h table_holds))

    pick : (on : Bool) → both bits bit other ≡ true → law bit other on bits ≡ true
    pick true e = ground arith
    pick false e = ground arith
