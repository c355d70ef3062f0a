-- ===== src/VoiceCore/Packet.antt =====
-- voice-core/src/packet.rs: the flags, the packet and its wire format. A byte is a number below
-- 2 ^ 8; the fields of `VoicePacket` are words of 16, 32 and 8 bits.
pub mod Flags
pub mod Wire
use godot_network_audio.Common.{
  ℕ, ◌+◌, ◌-◌, ◌*◌, ◌/◌, ◌%◌, ◌^◌, ◌<◌, Bool, not, List, [], ◌∷◌, ◌++◌, bit_and, bit_or, length,
  get_or, drop, ltb, ◌==◌, if◌then◌else◌, All,
}
use godot_network_audio.VoiceCore.Error.{Result, ok, err, invalid_packet}

pub record PacketFlags : Type 0 where
  pub bits : ℕ

abbrev pub start_of_talkspurt : ℕ
start_of_talkspurt = 1

abbrev pub end_of_talkspurt : ℕ
end_of_talkspurt = 2

abbrev pub fec_included : ℕ
fec_included = 4

abbrev pub from_bits : ℕ → PacketFlags
from_bits b = record { bits = b }

unfoldable pub contains : PacketFlags → ℕ → Bool
contains f bit = not (bit_and f.bits bit == 0)

-- `!bit` of a `u8` is `255 - bit`.
unfoldable pub set : PacketFlags → ℕ → Bool → PacketFlags
set f bit enabled =
    if enabled
    then record { bits = bit_or f.bits bit }
    else record { bits = bit_and f.bits (255 - bit) }

pub record VoicePacket : Type 0 where
  pub seq : ℕ
  pub timestamp : ℕ
  pub flags : PacketFlags
  pub payload : List ℕ

pub record PacketArrival : Type 0 where
  pub received_at_mono_us : ℕ

abbrev pub header_len : ℕ
header_len = 8

-- `to_be_bytes` and `from_be_bytes` of a `u16` and a `u32`.
abbrev pub u16_to_be_bytes : ℕ → List ℕ
u16_to_be_bytes n = (n / 2 ^ 8) % 2 ^ 8 ∷ n % 2 ^ 8 ∷ []

abbrev pub u32_to_be_bytes : ℕ → List ℕ
u32_to_be_bytes n =
    (n / 2 ^ 24) % 2 ^ 8 ∷ (n / 2 ^ 16) % 2 ^ 8 ∷ (n / 2 ^ 8) % 2 ^ 8 ∷ n % 2 ^ 8 ∷ []

abbrev pub u16_from_be_bytes : ℕ → ℕ → ℕ
u16_from_be_bytes a b = a * 2 ^ 8 + b

abbrev pub u32_from_be_bytes : ℕ → ℕ → ℕ → ℕ → ℕ
u32_from_be_bytes a b c d = a * 2 ^ 24 + b * 2 ^ 16 + c * 2 ^ 8 + d

-- Appends to the buffer, as `encode_to_bytes` does; `reserve` changes no contents.
unfoldable pub encode_to_bytes : VoicePacket → List ℕ → List ℕ
encode_to_bytes p buf =
    buf
    ++ (u16_to_be_bytes p.seq ++ (u32_to_be_bytes p.timestamp ++ (p.flags.bits ∷ 0 ∷ p.payload)))

unfoldable pub to_bytes : VoicePacket → List ℕ
unfolding encode_to_bytes
to_bytes p = encode_to_bytes p []

-- Every index lies below `header_len`, so the default of `get_or` is never read.
unfoldable pub decode_from_bytes : List ℕ → Result VoicePacket
decode_from_bytes bytes =
    if ltb (length bytes) header_len
    then err (invalid_packet "packet shorter than fixed header")
    else ok (record {
      seq = u16_from_be_bytes (get_or bytes 0 0) (get_or bytes 1 0);
      timestamp =
          u32_from_be_bytes (get_or bytes 2 0) (get_or bytes 3 0) (get_or bytes 4 0)
            (get_or bytes 5 0);
      flags = from_bits (get_or bytes 6 0);
      payload = drop header_len bytes;
    })

abbrev pub IsByte : ℕ → Type 0
IsByte b = b < 2 ^ 8

-- The ranges of the Rust types of a packet's fields.
pub record IsValid (p : VoicePacket) : Type 0 where
  pub seq_range : p.seq < 2 ^ 16
  pub timestamp_range : p.timestamp < 2 ^ 32
  pub flags_range : IsByte p.flags.bits
  pub payload_range : All IsByte p.payload
