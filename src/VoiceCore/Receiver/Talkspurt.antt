-- ===== src/VoiceCore/Receiver/Talkspurt.antt =====
-- The talkspurt state of voice-core/src/receiver.rs: what markers, media and pulls do to it.
use godot_network_audio.Common.{
  ℕ, zero, suc, ◌+◌, ◌-◌, ◌<◌, ◌≡◌, refl, ap, ◌∙◌, Bool, true, false, ◌&&◌, ◌||◌, List, [], ◌∷◌,
  length, arith, ltb, is_empty, is_some, some, inl, inr, Bool-cases, if◌then◌else◌, min, take,
  replicate, length-append, length-take, length-replicate,
}
use godot_network_audio.VoiceCore.Error.{Reply, gives, fails, ok}
use godot_network_audio.VoiceCore.Float.{Floats}
use godot_network_audio.VoiceCore.Packet.{
  VoicePacket, PacketArrival, start_of_talkspurt, end_of_talkspurt, contains,
}
use godot_network_audio.VoiceCore.Receiver.Jitter.{NetEq}
use godot_network_audio.VoiceCore.Receiver.{
  VoiceReceiver, pull_decoded, packet_is_newer, newer_than_end, marked, mark_end, opens_talkspurt,
  reopened, push_packet_with_now_mono, submit, insert_media, after_insert, inserted, count_resumed,
  record_failure, pull_frame, settle_silence, silence, fitted, decoded, resume_prebuffer_packets,
  output_frame_ms, drain_rounding_tolerance_ms,
}
use godot_network_audio.VoiceCore.Receiver.Stats.{stats}

module _ (f : Floats) (n : NetEq f.F32) where
  open f use {F32, lit}

  length-fitted : (len : ℕ) (xs : List F32) → length (fitted f n len xs) ≡ len
  length-fitted len xs = omega (
    arith,
    length-append (take len xs) (silence f n (len - min len (length xs))),
    length-take len xs,
    length-replicate (len - min len (length xs)) (lit "0.0"),
  )

  length-decoded :
      (r : VoiceReceiver f n) (len : ℕ) (reply : Reply (List F32))
      → length (decoded f n r len reply).1 ≡ len
  unfolding decoded
  length-decoded r len (gives xs) = length-fitted len xs
  length-decoded r len (fails e) = length-replicate len (lit "0.0")

  length-pull_decoded : (r : VoiceReceiver f n) (len : ℕ) → length (pull_decoded f n r len).1 ≡ len
  unfolding pull_decoded
  length-pull_decoded r len = length-decoded _ len (n.get_audio r.inner).1

  -- A pull fills the output exactly, in every state and whatever NetEq returns.
  pub length-pull_frame : (r : VoiceReceiver f n) (len : ℕ) → length (pull_frame f n r len).1 ≡ len
  unfolding pull_frame
  length-pull_frame r len =
      ground
        (arith, length-pull_decoded (settle_silence f n r) len, length-replicate len (lit "0.0"))

  -- The receiver plays nothing: it is silent by intent, or it lacks the packets to resume with.
  abbrev pub is_waiting : VoiceReceiver f n → Bool
  is_waiting r =
      r.intentional_silence
      || (r.resuming_talkspurt && ltb r.resumed_packet_count resume_prebuffer_packets)

  settle_waits :
      (r : VoiceReceiver f n) → is_waiting r ≡ true → is_waiting (settle_silence f n r) ≡ true
  unfolding settle_silence
  settle_waits r w = ground arith

  inner-settle : (r : VoiceReceiver f n) → (settle_silence f n r).inner ≡ r.inner
  unfolding settle_silence
  inner-settle r = ground arith

  pull_waiting :
      (r : VoiceReceiver f n) (len : ℕ)
      → is_waiting r ≡ true
      → pull_frame f n r len
        ≡ (record (settle_silence f n r) { consecutive_failures = 0 }, silence f n len)
  unfolding pull_frame
  pull_waiting r len w = ground (arith, settle_waits r w)

  -- Pulls in a row, with what they put out.
  abbrev pub pulls : ℕ → ℕ → VoiceReceiver f n → VoiceReceiver f n × List (List F32)
  pulls zero len r = (r, [])
  pulls (suc k) len r =
      let (r', out) = pull_frame f n r len in let (r'', outs) = pulls k len r' in (r'', out ∷ outs)

  pub pulls_waiting :
      (k len : ℕ) (r : VoiceReceiver f n)
      → is_waiting r ≡ true
      → let (r', outs) = pulls k len r in
        (r'.inner ≡ r.inner) × (is_waiting r' ≡ true) × (outs ≡ replicate k (silence f n len))
  pulls_waiting zero len r w = (refl, w, refl)
  pulls_waiting (suc k) len r w = rw (pull_waiting r len w) (
      let ih =
        pulls_waiting k len (record (settle_silence f n r) { consecutive_failures = 0 })
          (settle_waits r w) in
      (ih.0 ∙ inner-settle r, ih.1, ap (◌∷◌ (silence f n len)) ih.2))

  undrained :
      (r : VoiceReceiver f n)
      → output_frame_ms + drain_rounding_tolerance_ms
        < (n.get_statistics r.inner).current_buffer_size_ms
      → settle_silence f n r ≡ r
  unfolding settle_silence
  undrained r more = ground arith

  stalls :
      (k len : ℕ) (r : VoiceReceiver f n)
      → r.pending_silence ≡ true
      → r.intentional_silence ≡ false
      → r.resuming_talkspurt ≡ true
      → r.resumed_packet_count ≡ 1
      → output_frame_ms + drain_rounding_tolerance_ms
        < (n.get_statistics r.inner).current_buffer_size_ms
      → let r' = (pulls k len r).0 in
        (r'.pending_silence ≡ true) × ((stats f n r').playout_paused ≡ false)
  unfolding stats
  stalls zero len r p i s c more = (p, i)
  stalls (suc k) len r p i s c more =
      rw (pull_waiting r len (ground arith), undrained r more)
        (stalls k len (record r { consecutive_failures = 0 }) p i s c more)

  -- An end marker by itself.
  pub record IsEnd (p : VoicePacket) : Type 0 where
    pub no_media : is_empty p.payload ≡ true
    pub ends : contains p.flags end_of_talkspurt ≡ true
    pub no_start : contains p.flags start_of_talkspurt ≡ false

  -- A receiver that resumed and got one packet of the talkspurt, of which it has more than 12 ms
  -- buffered, then gets the newer end marker: however often it is pulled, it puts out zeros and never
  -- plays the packet, its silence stays pending, and it reports that playout is not paused.
  pub lone_packet_stalls :
      (now : n.Instant) (r : VoiceReceiver f n) (p : VoicePacket) (a : PacketArrival) (t k len : ℕ)
      → r.intentional_silence ≡ false
      → r.resuming_talkspurt ≡ true
      → r.resumed_packet_count ≡ 1
      → is_some r.last_media_seq ≡ true
      → packet_is_newer f n r p ≡ true
      → IsEnd p
      → output_frame_ms + drain_rounding_tolerance_ms
        < (n.get_statistics r.inner).current_buffer_size_ms
      → let (r', outs) = pulls k len (push_packet_with_now_mono f n now r p a t).0 in
        (outs ≡ replicate k (silence f n len))
        × (r'.inner ≡ r.inner)
        × (r'.pending_silence ≡ true)
        × ((stats f n r').playout_paused ≡ false)
  unfolding push_packet_with_now_mono marked mark_end opens_talkspurt
  lone_packet_stalls now r p a t k len i s c seen newer e more =
      let r1 : VoiceReceiver f n = record r {
        pending_silence = true;
        end_of_talkspurt_seq = some p.seq;
      } in
      let pushed : push_packet_with_now_mono f n now r p a t ≡ (r1, ok tt) =
        ground (arith, newer, e.no_media, e.ends, e.no_start) in
      rw pushed (
        let waits = pulls_waiting k len r1 (ground (arith, i, s, c)) in
        let last = stalls k len r1 refl i s c more in (waits.2, waits.0, last.0, last.1))

  -- A late packet without a start marker, not newer than the last media nor than the end marker,
  -- changes no talkspurt state, whatever else it carries: an old end marker arms no silence.
  stale_marks_nothing :
      (r : VoiceReceiver f n) (p : VoicePacket)
      → packet_is_newer f n r p ≡ false
      → newer_than_end f n r.end_of_talkspurt_seq p.seq ≡ false
      → contains p.flags start_of_talkspurt ≡ false
      → marked f n r p ≡ r
  unfolding marked
  stale_marks_nothing r p old before plain = ground arith

  stale_reopens :
      (r : VoiceReceiver f n) (p : VoicePacket)
      → packet_is_newer f n r p ≡ false
      → contains p.flags start_of_talkspurt ≡ true
      → r.intentional_silence ≡ true
      → marked f n r p ≡ reopened f n r
  unfolding marked mark_end opens_talkspurt
  stale_reopens r p old start silent = ground arith

  undecided : (r : VoiceReceiver f n) → r.pending_silence ≡ false → settle_silence f n r ≡ r
  unfolding settle_silence
  undecided r p = ground (arith, p)

  -- A receiver that waits for the packets of a talkspurt with no silence pending goes on so.
  open_waits :
      (k len : ℕ) (r : VoiceReceiver f n)
      → r.pending_silence ≡ false
      → r.intentional_silence ≡ false
      → is_waiting r ≡ true
      → (stats f n (pulls k len r).0).playout_paused ≡ false
  unfolding stats
  open_waits zero len r p i w = i
  open_waits (suc k) len r p i w =
      let unsettled : settle_silence f n r ≡ r = undecided r p in
      rw (pull_waiting r len w, unsettled)
        (open_waits k len (record r { consecutive_failures = 0 }) p i w)

  -- What a push leaves that opened a talkspurt with a packet that is not newer.
  record Opened (r : VoiceReceiver f n) (inner : n.Buffer) (r1 : VoiceReceiver f n) : Type 0 where
    holds : r1.inner ≡ inner
    not_pending : r1.pending_silence ≡ false
    not_silent : r1.intentional_silence ≡ false
    waits : is_waiting r1 ≡ true

  after_insert-Opened :
      (r : VoiceReceiver f n) (p : VoicePacket) (inner : n.Buffer) (reply : Reply (Unit {0}))
      → Opened r inner
          (after_insert f n (record (reopened f n r) { inner = inner }) false p reply).0
  unfolding after_insert inserted count_resumed record_failure
  after_insert-Opened r p inner (gives _) = record {
    holds = refl;
    not_pending = refl;
    not_silent = refl;
    waits = refl;
  }
  after_insert-Opened r p inner (fails e) = record {
    holds = refl;
    not_pending = refl;
    not_silent = refl;
    waits = refl;
  }

  -- The buffer of NetEq once it was flushed and got the packet, if that has media.
  abbrev pub flushed_with : n.Instant → VoiceReceiver f n → VoicePacket → ℕ → ℕ → n.Buffer
  flushed_with now r p received_at t =
      if is_empty p.payload
      then n.flush r.inner
      else (submit f n now (reopened f n r) p received_at t).0

  stale-Opened :
      (now : n.Instant) (r : VoiceReceiver f n) (p : VoicePacket) (a : PacketArrival) (t : ℕ)
      → packet_is_newer f n r p ≡ false
      → contains p.flags start_of_talkspurt ≡ true
      → r.intentional_silence ≡ true
      → Opened r
          (flushed_with now r p a.received_at_mono_us t)
          (push_packet_with_now_mono f n now r p a t).0
  unfolding push_packet_with_now_mono insert_media
  stale-Opened now r p a t old start silent =
      let opened = stale_reopens r p old start silent in
      elim (Bool-cases (is_empty p.payload)) [
        | inl empty ↦
            rw (empty, opened)
              (record { holds = refl; not_pending = refl; not_silent = refl; waits = refl })
        | inr media ↦
            rw (media, opened, old)
              (after_insert-Opened r p (submit f n now (reopened f n r) p a.received_at_mono_us t).0
                (submit f n now (reopened f n r) p a.received_at_mono_us t).1)
      ]

  -- But an old packet with a start marker ends an intended silence, whatever NetEq answers: it is not
  -- compared with the end marker. NetEq is flushed and gets the packet, if that has media, and the
  -- receiver waits for the packets of a talkspurt: however often it is pulled, it puts out zeros,
  -- never touches NetEq, and reports that playout is not paused.
  pub stale_start_reopens :
      (now : n.Instant) (r : VoiceReceiver f n) (p : VoicePacket) (a : PacketArrival) (t k len : ℕ)
      → packet_is_newer f n r p ≡ false
      → contains p.flags start_of_talkspurt ≡ true
      → r.intentional_silence ≡ true
      → let (r', outs) = pulls k len (push_packet_with_now_mono f n now r p a t).0 in
        (outs ≡ replicate k (silence f n len))
        × (r'.inner ≡ flushed_with now r p a.received_at_mono_us t)
        × (is_waiting r' ≡ true)
        × ((stats f n r').playout_paused ≡ false)
  stale_start_reopens now r p a t k len old start silent =
      let r1 = (push_packet_with_now_mono f n now r p a t).0 in
      let o = stale-Opened now r p a t old start silent in
      let waits = pulls_waiting k len r1 o.waits in
      (waits.2, waits.0 ∙ o.holds, waits.1, open_waits k len r1 o.not_pending o.not_silent o.waits)
