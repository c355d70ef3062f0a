-- ===== src/VoiceCore/Receiver/Resume.antt =====
-- How media ends a silence in voice-core/src/receiver.rs.
use godot_network_audio.Common.{ℕ, ◌≡◌, true, false, ◌||◌, none, arith, is_empty}
use godot_network_audio.VoiceCore.Error.{ok, gives}
use godot_network_audio.VoiceCore.Float.{Floats}
use godot_network_audio.VoiceCore.Packet.{VoicePacket, PacketArrival, end_of_talkspurt, contains}
use godot_network_audio.VoiceCore.Receiver.Jitter.{NetEq}
use godot_network_audio.VoiceCore.Receiver.{
  VoiceReceiver, newer_than_end, opens_talkspurt, marked, reopened, inserted, after_insert,
  insert_media, submit, push_packet_with_now_mono, pull_frame, pull_decoded, settle_silence,
  decoded,
}
use godot_network_audio.VoiceCore.Receiver.Talkspurt.{is_waiting}

module _ (f : Floats) (n : NetEq f.F32) where
  open n use {Instant}

  -- A packet with media and without an end marker.
  pub record IsMedia (p : VoicePacket) : Type 0 where
    pub has_media : is_empty p.payload ≡ false
    pub no_end : contains p.flags end_of_talkspurt ≡ false

  -- Media newer than the end marker ends a pending or intended silence even without a start marker:
  -- NetEq is flushed before the packet goes in, the silence and the marker are gone, and the
  -- receiver waits with one packet of the new talkspurt.
  pub media_after_end_resumes :
      (now : Instant) (r : VoiceReceiver f n) (p : VoicePacket) (a : PacketArrival) (t : ℕ)
      → r.pending_silence || r.intentional_silence ≡ true
      → newer_than_end f n r.end_of_talkspurt_seq p.seq ≡ true
      → IsMedia p
      → (submit f n now (reopened f n r) p a.received_at_mono_us t).1 ≡ gives tt
      → let (r', result) = push_packet_with_now_mono f n now r p a t in
        (result ≡ ok tt)
        × (r'.inner ≡ (submit f n now (reopened f n r) p a.received_at_mono_us t).0)
        × (r'.pending_silence ≡ false)
        × (r'.intentional_silence ≡ false)
        × (r'.end_of_talkspurt_seq ≡ none)
        × (r'.resumed_packet_count ≡ 1)
        × (is_waiting f n r' ≡ true)
  unfolding push_packet_with_now_mono marked insert_media after_insert
  media_after_end_resumes now r p a t silent newer m inserted = ground arith

  -- The next packet that continues the talkspurt makes it two, and playout goes on: the pull after
  -- it asks NetEq for audio.
  pub second_packet_plays :
      (now : Instant) (r : VoiceReceiver f n) (p : VoicePacket) (a : PacketArrival) (t len : ℕ)
      → opens_talkspurt f n r p ≡ false
      → IsMedia p
      → r.pending_silence ≡ false
      → r.intentional_silence ≡ false
      → r.resuming_talkspurt ≡ true
      → r.resumed_packet_count ≡ 1
      → (submit f n now r p a.received_at_mono_us t).1 ≡ gives tt
      → let r' = (push_packet_with_now_mono f n now r p a t).0 in
        (is_waiting f n r' ≡ false)
        × (pull_frame f n r' len ≡ pull_decoded f n r' len)
        × ((pull_frame f n r' len).0.inner ≡ (n.get_audio r'.inner).0)
  unfolding push_packet_with_now_mono marked insert_media after_insert pull_frame settle_silence
      pull_decoded decoded
  second_packet_plays now r p a t len same m np ni res one inserted = ground arith
