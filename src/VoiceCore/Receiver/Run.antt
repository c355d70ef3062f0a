-- ===== src/VoiceCore/Receiver/Run.antt =====
-- The receiver of voice-core/src/receiver.rs over any run of its calls.
use Prim.Native.String.{String}
use godot_network_audio.Common.{
  ℕ, ◌^◌, ◌<◌, ◌≡◌, Bool, true, false, not, ◌||◌, some, List, [], ◌∷◌, arith, ◌==◌, is_some,
}
use godot_network_audio.VoiceCore.Error.{Reply, gives, fails}
use godot_network_audio.VoiceCore.Float.{Floats}
use godot_network_audio.VoiceCore.Packet.{VoicePacket, PacketArrival}
use godot_network_audio.VoiceCore.Receiver.Jitter.{NetEq}
use godot_network_audio.VoiceCore.Receiver.{
  VoiceReceiver, packet_is_newer, marked, after_insert, insert_media, submit,
  push_packet_with_now_mono, pull_frame, pull_decoded, decoded, settle_silence, reset_stream, fresh,
}

module _ (f : Floats) (n : NetEq f.F32) where
  open f use {F32}
  open n use {Instant}

  -- What the talkspurt fields say together.
  pub record IsConsistent (r : VoiceReceiver f n) : Type 0 where
    -- a silence that is pending or intended has its end marker
    pub marker :
        (not (r.pending_silence || r.intentional_silence) || is_some r.end_of_talkspurt_seq) ≡ true
    -- the media clock is known exactly when a media sequence number is
    pub clock : is_some r.last_media_seq ≡ is_some r.last_media_timestamp
    -- a failure that still counts has left its message
    pub failure : ((r.consecutive_failures == 0) || is_some r.sticky_error) ≡ true
    pub failures_range : r.consecutive_failures < 2 ^ 32
    pub resumed_range : r.resumed_packet_count < 2 ^ 32

  pub fresh-IsConsistent : (inner : n.Buffer) (rate : ℕ) → IsConsistent (fresh f n inner rate)
  fresh-IsConsistent inner rate = ground arith

  marked-IsConsistent :
      (r : VoiceReceiver f n) (p : VoicePacket) → IsConsistent r → IsConsistent (marked f n r p)
  unfolding marked
  marked-IsConsistent r p v = ground arith

  after_insert-IsConsistent :
      (r : VoiceReceiver f n) (newer : Bool) (p : VoicePacket) (reply : Reply (Unit {0}))
      → IsConsistent r
      → IsConsistent (after_insert f n r newer p reply).0
  unfolding after_insert
  after_insert-IsConsistent r newer p (gives _) v = ground arith
  after_insert-IsConsistent r newer p (fails e) v = ground arith

  insert-IsConsistent :
      (now : Instant) (r : VoiceReceiver f n) (newer : Bool) (p : VoicePacket) (a t : ℕ)
      → IsConsistent r
      → IsConsistent (insert_media f n now r newer p a t).0
  unfolding insert_media
  insert-IsConsistent now r newer p a t v =
      after_insert-IsConsistent (record r { inner = (submit f n now r p a t).0 }) newer p
        (submit f n now r p a t).1 (ground arith)

  settle-IsConsistent :
      (r : VoiceReceiver f n) → IsConsistent r → IsConsistent (settle_silence f n r)
  unfolding settle_silence
  settle-IsConsistent r v = ground arith

  push-IsConsistent :
      (now : Instant) (r : VoiceReceiver f n) (p : VoicePacket) (a : PacketArrival) (t : ℕ)
      → IsConsistent r
      → IsConsistent (push_packet_with_now_mono f n now r p a t).0
  unfolding push_packet_with_now_mono
  push-IsConsistent now r p a t v = ground (
    arith,
    marked-IsConsistent r p v,
    insert-IsConsistent now (marked f n r p) (packet_is_newer f n r p) p a.received_at_mono_us t,
  )

  decoded-IsConsistent :
      (r : VoiceReceiver f n) (len : ℕ) (reply : Reply (List F32))
      → IsConsistent r
      → IsConsistent (decoded f n r len reply).0
  unfolding decoded
  decoded-IsConsistent r len (gives xs) v = ground arith
  decoded-IsConsistent r len (fails e) v = ground arith

  pull_decoded-IsConsistent :
      (r : VoiceReceiver f n) (len : ℕ) → IsConsistent r → IsConsistent (pull_decoded f n r len).0
  unfolding pull_decoded
  pull_decoded-IsConsistent r len v =
      decoded-IsConsistent
        (record r { inner = (n.get_audio r.inner).0; resuming_talkspurt = false }) len
        (n.get_audio r.inner).1 (ground arith)

  pull-IsConsistent :
      (r : VoiceReceiver f n) (len : ℕ) → IsConsistent r → IsConsistent (pull_frame f n r len).0
  unfolding pull_frame
  pull-IsConsistent r len v =
      ground (arith, settle-IsConsistent r v, pull_decoded-IsConsistent (settle_silence f n r) len)

  reset-IsConsistent :
      (r : VoiceReceiver f n) → IsConsistent r → IsConsistent (reset_stream f n r).0
  unfolding reset_stream
  reset-IsConsistent r v = ground arith

  -- A call on a receiver; the environment gives the instants.
  pub data Call : Type 0 where
    pushes : Instant → VoicePacket → PacketArrival → ℕ → Call
    pulls : ℕ → Call
    resets : Call

  abbrev pub call : VoiceReceiver f n → Call → VoiceReceiver f n
  call r (pushes now p a t) = (push_packet_with_now_mono f n now r p a t).0
  call r (pulls len) = (pull_frame f n r len).0
  call r resets = (reset_stream f n r).0

  abbrev pub run : VoiceReceiver f n → List Call → VoiceReceiver f n
  run r [] = r
  run r (c ∷ cs) = run (call r c) cs

  call-IsConsistent : (r : VoiceReceiver f n) (c : Call) → IsConsistent r → IsConsistent (call r c)
  call-IsConsistent r (pushes now p a t) v = push-IsConsistent now r p a t v
  call-IsConsistent r (pulls len) v = pull-IsConsistent r len v
  call-IsConsistent r resets v = reset-IsConsistent r v

  -- Any run of calls keeps the talkspurt fields consistent, also where NetEq fails.
  pub run-IsConsistent :
      (r : VoiceReceiver f n) (cs : List Call) → IsConsistent r → IsConsistent (run r cs)
  run-IsConsistent r [] v = v
  run-IsConsistent r (c ∷ cs) v = run-IsConsistent (call r c) cs (call-IsConsistent r c v)

  push_keeps_error :
      (m : String) (now : Instant) (r : VoiceReceiver f n) (p : VoicePacket) (a : PacketArrival)
      (t : ℕ)
      → r.sticky_error ≡ some m
      → (push_packet_with_now_mono f n now r p a t).0.sticky_error ≡ some m
  unfolding push_packet_with_now_mono marked insert_media after_insert
  push_keeps_error m now r p a t e = ground arith

  pull_keeps_error :
      (m : String) (r : VoiceReceiver f n) (len : ℕ)
      → r.sticky_error ≡ some m
      → (pull_frame f n r len).0.sticky_error ≡ some m
  unfolding pull_frame settle_silence pull_decoded decoded
  pull_keeps_error m r len e = ground arith

  call_keeps_error :
      (m : String) (r : VoiceReceiver f n) (c : Call)
      → r.sticky_error ≡ some m
      → (call r c).sticky_error ≡ some m
  unfolding reset_stream
  call_keeps_error m r (pushes now p a t) e = push_keeps_error m now r p a t e
  call_keeps_error m r (pulls len) e = pull_keeps_error m r len e
  call_keeps_error m r resets e = ground arith

  -- The first error of a receiver is kept through every later call, a reset of the stream included.
  run_keeps_error :
      (m : String) (r : VoiceReceiver f n) (cs : List Call)
      → r.sticky_error ≡ some m
      → (run r cs).sticky_error ≡ some m
  run_keeps_error m r [] e = e
  run_keeps_error m r (c ∷ cs) e = run_keeps_error m (call r c) cs (call_keeps_error m r c e)
