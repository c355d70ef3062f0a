-- ===== src/VoiceCore/Packet/Wire.antt =====
-- Reading and writing the wire format of voice-core/src/packet.rs.
use godot_network_audio.Common.{
  ℕ, ◌<◌, ◌≤◌, ◌+◌, ◌*◌, ◌^◌, ◌≡◌, refl, List, [], ◌∷◌, ◌++◌, arith, length, drop, take, All, ◌⊎◌,
  inl, inr,
}
use godot_network_audio.VoiceCore.Error.{ok, err, invalid_packet}
use godot_network_audio.VoiceCore.Packet.{
  VoicePacket, IsByte, IsValid, header_len, to_bytes, decode_from_bytes,
}

-- A packet whose fields lie in the ranges of their types is read back from its bytes, whatever
-- its flags and payload.
pub decode-to_bytes : (p : VoicePacket) → IsValid p → decode_from_bytes (to_bytes p) ≡ ok p
unfolding decode_from_bytes to_bytes
decode-to_bytes p v = ground arith

pub length-to_bytes : (p : VoicePacket) → length (to_bytes p) ≡ header_len + length p.payload
unfolding to_bytes
length-to_bytes p = omega arith

-- What a buffer of at least `header_len` bytes is read as: a packet in range, whose own bytes are
-- the buffer with its reserved byte cleared.
pub record Reads (bytes : List ℕ) (p : VoicePacket) : Type 0 where
  pub result : decode_from_bytes bytes ≡ ok p
  pub valid : IsValid p
  pub again : to_bytes p ≡ take 7 bytes ++ (0 ∷ drop header_len bytes)

long_Reads :
    (a b c d e f g h : ℕ) (rest : List ℕ)
    → All IsByte (a ∷ b ∷ c ∷ d ∷ e ∷ f ∷ g ∷ h ∷ rest)
    → (p : VoicePacket) × Reads (a ∷ b ∷ c ∷ d ∷ e ∷ f ∷ g ∷ h ∷ rest) p
unfolding decode_from_bytes to_bytes
long_Reads a b c d e f g h rest v = (
  record {
    seq = a * 2 ^ 8 + b;
    timestamp = c * 2 ^ 24 + d * 2 ^ 16 + e * 2 ^ 8 + f;
    flags = record { bits = g };
    payload = rest;
  },
  ground arith,
)

-- A buffer of bytes is either shorter than the header, and refused as too short, or it is read as
-- a packet in range, and encoding that packet gives the buffer back but for byte 7, which is 0.
pub decode_total :
    (bytes : List ℕ)
    → All IsByte bytes
    → ((length bytes < header_len)
        × (decode_from_bytes bytes ≡ err (invalid_packet "packet shorter than fixed header")))
      ⊎ ((header_len ≤ length bytes) × ((p : VoicePacket) × Reads bytes p))
unfolding decode_from_bytes
decode_total [] v = inl (omega arith, refl)
decode_total (a ∷ []) v = inl (omega arith, refl)
decode_total (a ∷ b ∷ []) v = inl (omega arith, refl)
decode_total (a ∷ b ∷ c ∷ []) v = inl (omega arith, refl)
decode_total (a ∷ b ∷ c ∷ d ∷ []) v = inl (omega arith, refl)
decode_total (a ∷ b ∷ c ∷ d ∷ e ∷ []) v = inl (omega arith, refl)
decode_total (a ∷ b ∷ c ∷ d ∷ e ∷ f ∷ []) v = inl (omega arith, refl)
decode_total (a ∷ b ∷ c ∷ d ∷ e ∷ f ∷ g ∷ []) v = inl (omega arith, refl)
decode_total (a ∷ b ∷ c ∷ d ∷ e ∷ f ∷ g ∷ h ∷ rest) v =
    inr (omega arith, long_Reads a b c d e f g h rest v)
