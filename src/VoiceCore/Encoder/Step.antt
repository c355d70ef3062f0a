-- ===== src/VoiceCore/Encoder/Step.antt =====
-- What one call of the encoder of voice-core/src/encoder.rs does to its clock and to the talkspurt.
use godot_network_audio.Common.{
  ℕ, ◌≡◌, refl, inl, inr, Bool, true, false, ◌&&◌, Option, none, some, List, [], length, take, ltb,
  leb, Bool-cases, wrapping_add,
}
use godot_network_audio.VoiceCore.Error.{Result, ok, err, Reply, gives, fails}
use godot_network_audio.VoiceCore.Float.{Floats}
use godot_network_audio.VoiceCore.Packet.{
  VoicePacket, start_of_talkspurt, end_of_talkspurt, from_bits, set,
}
use godot_network_audio.VoiceCore.Encoder.{
  OpusEncoder, VoiceEncoder, emit, voice, no_send, finish_poll, poll_packet, finish_talkspurt, tick,
  drained, encode_frame, frame_samples_48k_mono,
}

-- The part of an encoder that its packets show.
pub record Visible : Type 0 where
  pub seq : ℕ
  pub speaking : Bool

-- How a packet moves it: the first packet of a talkspurt carries the start flag alone, a later one
-- no flag, and the last one the end flag alone and no payload; each takes the next number.
pub data Sends (v w : Visible) (p : VoicePacket) : Type 0 where
  starts :
      v.speaking ≡ false
      → w.speaking ≡ true
      → p.flags ≡ from_bits start_of_talkspurt
      → p.seq ≡ v.seq
      → w.seq ≡ wrapping_add 16 v.seq 1
      → Sends v w p
  continues :
      v.speaking ≡ true
      → w.speaking ≡ true
      → p.flags ≡ from_bits 0
      → p.seq ≡ v.seq
      → w.seq ≡ wrapping_add 16 v.seq 1
      → Sends v w p
  ends :
      v.speaking ≡ true
      → w.speaking ≡ false
      → p.flags ≡ from_bits end_of_talkspurt
      → p.payload ≡ []
      → p.seq ≡ v.seq
      → w.seq ≡ wrapping_add 16 v.seq 1
      → Sends v w p

abbrev pub Moves : Visible → Visible → Option VoicePacket → Type 0
Moves v w none = v ≡ w
Moves v w (some p) = Sends v w p

module _ (f : Floats) (o : OpusEncoder f.F32) where
  abbrev pub visible : VoiceEncoder f o → Visible
  visible e = record { seq = e.seq; speaking = e.speaking }

  voice-Sends :
      (e : VoiceEncoder f o) (b : Bool) (t : ℕ) (payload : List ℕ)
      → e.speaking ≡ b
      → Moves (visible e) (visible (voice f o e t payload).0) (voice f o e t payload).1
  unfolding voice set
  voice-Sends e true t payload h = continues h refl (rw h) refl refl
  voice-Sends e false t payload h = starts h refl (rw h) refl refl

  no_send-Moves :
      (e : VoiceEncoder f o) (b : Bool) (t : ℕ)
      → e.speaking ≡ b
      → Moves (visible e) (visible (no_send f o e t).0) (no_send f o e t).1
  unfolding no_send
  no_send-Moves e true t h = rw (h, no_send) (ends refl refl refl refl refl refl)
  no_send-Moves e false t h = rw (h, no_send) refl

  emit-Moves :
      (e : VoiceEncoder f o) (n : ℕ) (payload : List ℕ)
      → Moves (visible e) (visible (emit f o e n payload).0) (emit f o e n payload).1
  unfolding emit
  emit-Moves e n payload = elim (Bool-cases (e.enable_dtx && leb n 2)) [
    | inl tiny ↦ rw (tiny, emit) (no_send-Moves (tick f o e) e.speaking e.timestamp refl)
    | inr sent ↦
        rw (sent, emit) (voice-Sends (tick f o e) e.speaking e.timestamp (take n payload) refl)
  ]

  -- The packet of a result, if any.
  abbrev pub sent : Result (Option VoicePacket) → Option VoicePacket
  sent (ok p) = p
  sent (err e) = none

  finish_poll-Moves :
      (e : VoiceEncoder f o) (r : Reply (ℕ × List ℕ))
      → Moves (visible e) (visible (finish_poll f o e r).0) (sent (finish_poll f o e r).1)
  unfolding finish_poll
  finish_poll-Moves e (fails m) = refl
  finish_poll-Moves e (gives (n, payload)) = emit-Moves e n payload

  pub poll-Moves :
      (e : VoiceEncoder f o)
      → Moves (visible e) (visible (poll_packet f o e).0) (sent (poll_packet f o e).1)
  unfolding poll_packet
  poll-Moves e = elim (Bool-cases (ltb (length e.pending_pcm) frame_samples_48k_mono)) [
    | inl short ↦ rw (short, poll_packet) refl
    | inr full ↦ rw (full, poll_packet) (finish_poll-Moves (drained f o e) (encode_frame f o e).1)
  ]

  finish-cases :
      (e : VoiceEncoder f o) (b : Bool)
      → e.speaking ≡ b
      → Moves (visible e) (visible (finish_talkspurt f o e).0) (finish_talkspurt f o e).1
  unfolding finish_talkspurt
  finish-cases e true h = rw (h, finish_talkspurt) (ends refl refl refl refl refl refl)
  finish-cases e false h = rw (h, finish_talkspurt) refl

  pub finish-Moves :
      (e : VoiceEncoder f o)
      → Moves (visible e) (visible (finish_talkspurt f o e).0) (finish_talkspurt f o e).1
  finish-Moves e = finish-cases e e.speaking refl
