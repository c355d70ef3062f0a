-- ===== src/VoiceCore/Fixtures.antt =====
-- Concrete instances of the parameters of the model, on which the tests run: numbers in place of
-- floats, a coder that answers with fixed bytes, and a jitter buffer that is a list of packets.
use Prim.Native.String.{String, compare}
use Prim.Native.Nat.{Ordering}
use godot_network_audio.Common.{
  ℕ, arith, zero, suc, ◌+◌, ◌-◌, ◌*◌, ◌/◌, ◌<◌, ◌≡◌, refl, Bool, true, false, none, some, List, [],
  ◌∷◌, ◌++◌, length, drop, replicate, ltb, leb, if◌then◌else◌, min, max,
}
use native.Mathlib.Nat.{mul-div_cancel}
use godot_network_audio.VoiceCore.Error.{gives, fails}
use godot_network_audio.VoiceCore.Decoder.{OpusDecoder}
use godot_network_audio.VoiceCore.Float.{Floats, ExactIntegers}
use godot_network_audio.VoiceCore.Packet.{VoicePacket, PacketArrival, from_bits}
use godot_network_audio.VoiceCore.Resample.{InputResampler}
use godot_network_audio.VoiceCore.Encoder.{OpusEncoder, VoiceEncoder}
use godot_network_audio.VoiceCore.Encoder.Range.{WritesBytes}
use godot_network_audio.VoiceCore.Receiver.{VoiceReceiver, fresh}
use godot_network_audio.VoiceCore.Receiver.Jitter.{AudioPacket, NetEq, NetEqStats}

abbrev is_text : String → String → Bool
is_text a b = elim (compare a b) [ Ordering.eq ↦ true | _ ↦ false ]

-- Literals that are zero or below the levels of the tests are 0, all others 1.
abbrev literal : String → ℕ
literal s =
    if is_text s "0.0"
    then 0
    else (if is_text s "1.0e-9" then 0 else (if is_text s "-120.0" then 0 else 1))

abbrev total : List ℕ → ℕ
total [] = 0
total (x ∷ xs) = x + total xs

abbrev pub whole : Floats
whole = record {
  F32 = ℕ;
  lit = literal;
  add = λ a b. a + b;
  sub = λ a b. a - b;
  mul = λ a b. a * b;
  div = λ a b. a / b;
  sqrt = λ a. a;
  log10 = λ a. a;
  abs = λ a. a;
  max = max;
  clamp = λ a lo hi. min (max a lo) hi;
  is_finite = λ _. true;
  lt = ltb;
  le = leb;
  sum = total;
  of_usize = λ a. a;
  round = λ a. a;
  to_u32 = λ a. a;
  F64 = ℕ;
  lit64 = literal;
  add64 = λ a b. a + b;
  sub64 = λ a b. a - b;
  mul64 = λ a b. a * b;
  div64 = λ a b. a / b;
  lt64 = ltb;
  le64 = leb;
  of_usize64 = λ a. a;
  floor = λ a. a;
  narrow = λ a. a;
}

mul_div : (k b : ℕ) → 0 < b → (k * b) / b ≡ k
mul_div k b h = mul-div_cancel k h

pub whole_exact : ExactIntegers whole
whole_exact = record {
  zero_exact = refl;
  one_exact = refl;
  add_exact = λ a b h. refl;
  sub_exact = λ a b h k. refl;
  div_exact = λ k b h l. mul_div k b h;
  lt_exact = λ a b h k. refl;
  floor_exact = λ n h. refl;
}

-- Silence is answered with one byte, anything else with three.
abbrev answer : List ℕ → ℕ × List ℕ
answer [] = (1, 0 ∷ [])
answer (zero ∷ xs) = (1, 0 ∷ [])
answer (suc x ∷ xs) = (3, 1 ∷ 2 ∷ 3 ∷ [])

abbrev pub coder : OpusEncoder ℕ
coder = record {
  Coder = ℕ;
  create = gives 0;
  set_bitrate = λ _ c. gives c;
  set_vbr = λ _ c. gives c;
  set_dtx = λ _ c. gives c;
  encode_float = λ c pcm buffer. (c + 1, gives (answer pcm));
  reset_state = λ c. 0;
}

pub coder_writes : WritesBytes whole coder
coder_writes c [] buffer bytes fits = ((omega arith, tt), omega arith)
coder_writes c (zero ∷ pcm) buffer bytes fits = ((omega arith, tt), omega arith)
coder_writes c (suc x ∷ pcm) buffer bytes fits =
    ((omega arith, (omega arith, (omega arith, tt))), omega arith)

abbrev no_stats : ℕ → NetEqStats ℕ
no_stats packets = record {
  current_buffer_size_ms = 20 * packets;
  target_delay_ms = 20;
  packets_awaiting_decode = packets;
  packets_per_sec = 50;
  preferred_buffer_size_ms = 20;
  expand_rate = 0;
  accelerate_rate = 0;
  preemptive_rate = 0;
  expand_per_sec = 0;
  accelerate_per_sec = 0;
  fast_accelerate_per_sec = 0;
  preemptive_expand_per_sec = 0;
  normal_per_sec = 0;
  concealed_samples = 0;
  concealment_events = 0;
  silent_concealed_samples = 0;
  late_packets_discarded = 0;
  inserted_samples_for_deceleration = 0;
  removed_samples_for_acceleration = 0;
}

-- A decoder that refuses the empty packet and puts out a sample for each byte.
abbrev pub adapter : OpusDecoder ℕ
adapter = record {
  Coder = ℕ;
  create = λ rate channels. gives 0;
  packet = λ bytes. elim bytes [ [] ↦ fails "empty packet" | b ∷ bs ↦ gives tt ];
  signals = λ n. gives tt;
  decode_float = λ c bytes out fec. (c + 1, gives (length bytes, out));
  reset_state = λ c. (0, gives tt);
}

abbrev pub jitter : NetEq ℕ
jitter = record {
  Buffer = List (AudioPacket ℕ);
  Instant = ℕ;
  opus = adapter;
  create = λ rate channels lo hi. gives [];
  register_decoder = λ kind decoder b. b;
  flush = λ b. [];
  reset_decoders = λ b. (b, gives tt);
  insert_packet = λ p b. (b ++ (p ∷ []), gives tt);
  get_audio = λ b. (drop 1 b, gives (5 ∷ 6 ∷ 7 ∷ []));
  get_statistics = λ b. no_stats (length b);
  checked_sub = λ t d. if leb d t then some (t - d) else none;
  checked_add = λ t d. some (t + d);
}

abbrev pub packet : ℕ → ℕ → ℕ → List ℕ → VoicePacket
packet seq timestamp bits payload = record {
  seq = seq;
  timestamp = timestamp;
  flags = from_bits bits;
  payload = payload;
}

abbrev pub at : ℕ → PacketArrival
at t = record { received_at_mono_us = t }

abbrev pub receiver : VoiceReceiver whole jitter
receiver = fresh whole jitter [] 48_000

-- The media clock of the tests stands on packet 10.
abbrev pub played : VoiceReceiver whole jitter
played = record receiver { last_media_seq = some 10; last_media_timestamp = some 9_600 }

-- A talkspurt that ended with packet 11 was played out.
abbrev pub silent : VoiceReceiver whole jitter
silent = record played { intentional_silence = true; end_of_talkspurt_seq = some 11 }

abbrev pub resampler_at : ℕ → ℕ → InputResampler whole
resampler_at input output = record {
  input_rate = input;
  output_rate = output;
  source_pos = 0;
  history = [];
}

abbrev pub encoder : VoiceEncoder whole coder
encoder = record {
  encoder = 0;
  resampler = resampler_at 48_000 48_000;
  pending_pcm = replicate 960 1;
  seq = 65_535;
  timestamp = 4_294_966_400;
  speaking = false;
  enable_dtx = true;
}
