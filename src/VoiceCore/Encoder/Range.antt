-- ===== src/VoiceCore/Encoder/Range.antt =====
-- The ranges of the packets of voice-core/src/encoder.rs over a run of calls.
use godot_network_audio.Common.{
  ℕ, zero, suc, ◌+◌, ◌^◌, ◌<◌, ◌≤◌, ◌≡◌, refl, inl, inr, Bool, true, false, ◌&&◌, Option, none,
  some, List, [], ◌∷◌, map, length, take, subst, replicate, ltb, leb, Bool-cases, All, arith,
  length-take, length-replicate,
}
use godot_network_audio.Common.Run.{Run, done}
use godot_network_audio.VoiceCore.Error.{ok, Reply, gives, fails}
use godot_network_audio.VoiceCore.Float.{Floats}
use godot_network_audio.VoiceCore.Packet.{
  VoicePacket, IsByte, IsValid, header_len, to_bytes, decode_from_bytes, set,
}
use godot_network_audio.VoiceCore.Packet.Wire.{decode-to_bytes, length-to_bytes}
use godot_network_audio.VoiceCore.Encoder.{
  OpusEncoder, VoiceEncoder, emit, voice, no_send, finish_poll, poll_packet, finish_talkspurt, tick,
  drained, encode_frame, frame_samples_48k_mono, max_packet_bytes, advance_dropped_frames,
}
use godot_network_audio.VoiceCore.Encoder.Step.{sent}
use godot_network_audio.VoiceCore.Encoder.Speech.{
  Call, pushes, polls, finishes, drops, call, run, collect, IsSameRate, push_pcm_same, call-Goes,
}

take-All : (n : ℕ) (xs : List ℕ) → All IsByte xs → All IsByte (take n xs)
take-All zero xs h = tt
take-All (suc n) [] h = tt
take-All (suc n) (x ∷ xs) h = (h.0, take-All n xs h.1)

zeros-All : (n : ℕ) → All IsByte (replicate n 0)
zeros-All zero = tt
zeros-All (suc n) = (omega arith, zeros-All n)

-- A packet whose fields lie in the ranges of their types, and which fits the buffer of one frame.
abbrev pub Fits : VoicePacket → Type 0
Fits p = IsValid p × (length p.payload ≤ max_packet_bytes)

abbrev pub FitsIfAny : Option VoicePacket → Type 0
FitsIfAny none = Unit
FitsIfAny (some p) = Fits p

read_back :
    (ps : List VoicePacket) → All Fits ps → map decode_from_bytes (map to_bytes ps) ≡ map ok ps
read_back [] h = refl
read_back (p ∷ ps) h = cc (decode-to_bytes p h.0.0, read_back ps h.1)

abbrev pub max_datagram_bytes : ℕ
max_datagram_bytes = header_len + max_packet_bytes

short_enough :
    (ps : List VoicePacket) → All Fits ps → All (λ p. length (to_bytes p) ≤ max_datagram_bytes) ps
short_enough [] h = tt
short_enough (p ∷ ps) h = (omega (arith, length-to_bytes p, h.0.1), short_enough ps h.1)

-- The buffer that Opus hands back holds bytes and has the length that it was given.
abbrev pub Filled : Reply (ℕ × List ℕ) → Type 0
Filled (fails m) = Unit
Filled (gives (n, payload)) = All IsByte payload × (length payload ≤ max_packet_bytes)

module _ (f : Floats) (o : OpusEncoder f.F32) where
  open f use {F32}

  -- What is assumed of Opus: `encode_float` writes bytes into the buffer that it is given.
  abbrev pub WritesBytes : Type 0
  WritesBytes =
      (coder : o.Coder) (pcm : List F32) (buffer : List ℕ)
      → All IsByte buffer
      → length buffer ≤ max_packet_bytes
      → Filled (o.encode_float coder pcm buffer).1

  abbrev pub InRange : VoiceEncoder f o → Type 0
  InRange e = (e.seq < 2 ^ 16) × (e.timestamp < 2 ^ 32)

  voice-Fits :
      (e : VoiceEncoder f o) (b : Bool) (t : ℕ) (payload : List ℕ)
      → e.speaking ≡ b
      → InRange e
      → t < 2 ^ 32
      → All IsByte payload
      → length payload ≤ max_packet_bytes
      → InRange (voice f o e t payload).0 × FitsIfAny (voice f o e t payload).1
  unfolding voice set
  voice-Fits e true t payload s r h bytes fits = rw s (
    (omega (arith, r), r.1),
    (
      record {
        seq_range = r.0;
        timestamp_range = h;
        flags_range = omega arith;
        payload_range = bytes;
      },
      fits,
    ),
  )
  voice-Fits e false t payload s r h bytes fits = rw s (
    (omega (arith, r), r.1),
    (
      record {
        seq_range = r.0;
        timestamp_range = h;
        flags_range = omega arith;
        payload_range = bytes;
      },
      fits,
    ),
  )

  no_send-Fits :
      (e : VoiceEncoder f o) (b : Bool) (t : ℕ)
      → e.speaking ≡ b
      → InRange e
      → t < 2 ^ 32
      → InRange (no_send f o e t).0 × FitsIfAny (no_send f o e t).1
  unfolding no_send
  no_send-Fits e true t s r h = rw s (omega (arith, r))
  no_send-Fits e false t s r h = rw s (r, tt)

  tick-InRange : (e : VoiceEncoder f o) → InRange e → InRange (tick f o e)
  tick-InRange e r = (r.0, omega arith)

  emit-Fits :
      (e : VoiceEncoder f o) (n : ℕ) (payload : List ℕ)
      → InRange e
      → All IsByte payload
      → length payload ≤ max_packet_bytes
      → InRange (emit f o e n payload).0 × FitsIfAny (emit f o e n payload).1
  unfolding emit
  emit-Fits e n payload r bytes fits = elim (Bool-cases (e.enable_dtx && leb n 2)) [
    | inl tiny ↦
        rw (tiny, emit)
          (no_send-Fits (tick f o e) e.speaking e.timestamp refl (tick-InRange e r) r.1)
    | inr sent ↦
        rw (sent, emit)
          (voice-Fits (tick f o e) e.speaking e.timestamp (take n payload) refl (tick-InRange e r)
            r.1 (take-All n payload bytes) (omega (arith, length-take n payload)))
  ]

  finish_poll-Fits :
      (e : VoiceEncoder f o) (r : Reply (ℕ × List ℕ))
      → InRange e
      → Filled r
      → InRange (finish_poll f o e r).0 × FitsIfAny (sent f o (finish_poll f o e r).1)
  unfolding finish_poll
  finish_poll-Fits e (fails m) r h = (r, tt)
  finish_poll-Fits e (gives (n, payload)) r h = emit-Fits e n payload r h.0 h.1

  module _ (writes : WritesBytes) where
    poll-Fits :
        (e : VoiceEncoder f o)
        → InRange e
        → InRange (poll_packet f o e).0 × FitsIfAny (sent f o (poll_packet f o e).1)
    unfolding poll_packet
    poll-Fits e r = elim (Bool-cases (ltb (length e.pending_pcm) frame_samples_48k_mono)) [
      | inl short ↦ rw (short, poll_packet) (r, tt)
      | inr full ↦
          rw (full, poll_packet)
            (finish_poll-Fits (drained f o e) (encode_frame f o e).1 r (
              writes e.encoder (take frame_samples_48k_mono e.pending_pcm)
                (replicate max_packet_bytes 0) (zeros-All max_packet_bytes)
                (omega (arith, length-replicate {A = ℕ} max_packet_bytes 0))))
    ]

    finish-Fits :
        (e : VoiceEncoder f o) (b : Bool)
        → e.speaking ≡ b
        → InRange e
        → InRange (finish_talkspurt f o e).0 × FitsIfAny (finish_talkspurt f o e).1
    unfolding finish_talkspurt
    finish-Fits e true s r = rw (s, finish_talkspurt) (omega (arith, r))
    finish-Fits e false s r = rw (s, finish_talkspurt) (r, tt)

    -- One call at 48 kHz, by the state and the packet that it returns.
    abbrev CallFits : Run (VoiceEncoder f o × Option VoicePacket) → Type 0
    CallFits (done (e, p)) = InRange e × FitsIfAny p
    CallFits _ = Unit

    call-Fits :
        (n : ℕ) (e : VoiceEncoder f o) (c : Call F32)
        → IsSameRate f o e
        → InRange e
        → CallFits (call f o n e c)
    unfolding advance_dropped_frames
    call-Fits n e (pushes xs) h r = rw (push_pcm_same f o n e xs h) (r, tt)
    call-Fits n e polls h r = poll-Fits e r
    call-Fits n e finishes h r = finish-Fits e e.speaking refl r
    call-Fits n e (drops k) h r = ((r.0, omega arith), tt)

    collect-Fits :
        (p : Option VoicePacket) (ps : List VoicePacket)
        → FitsIfAny p
        → All Fits ps
        → All Fits (collect f o p ps)
    collect-Fits none ps h hs = hs
    collect-Fits (some p) ps h hs = (h, hs)

    -- What a run of calls comes to, by the ranges of what it returns.
    pub record Emits (e : VoiceEncoder f o) (r : Run (VoiceEncoder f o × List VoicePacket))
        : Type 0 where
      pub last : VoiceEncoder f o
      pub packets : List VoicePacket
      pub returns : r ≡ done (last, packets)
      pub in_range : InRange last
      pub fit : All Fits packets
      pub short : All (λ p. length (to_bytes p) ≤ max_datagram_bytes) packets
      pub read : map decode_from_bytes (map to_bytes packets) ≡ map ok packets

    -- Every run of pushes, polls, ends of talkspurts and dropped capture frames at 48 kHz from a clock in
    -- range returns, whatever Opus answers, if the bytes that Opus writes are bytes in the buffer that
    -- it is given. The fields of each packet lie in the
    -- ranges of their types, its datagram has 520 bytes at most, and the packets are read back from
    -- their datagrams.
    pub run-Emits :
        (n : ℕ) (e : VoiceEncoder f o) (cs : List (Call F32))
        → IsSameRate f o e
        → InRange e
        → Emits e (run f o n e cs)
    run-Emits n e [] h r = record {
      last = e;
      packets = [];
      returns = refl;
      in_range = r;
      fit = tt;
      short = tt;
      read = refl;
    }
    run-Emits n e (c ∷ cs) h r =
        let g = call-Goes f o n e c h in
        let k = subst CallFits g.returns (call-Fits n e c h r) in
        let t = run-Emits n g.next_state cs g.same_rate k.0 in
        let fit = collect-Fits g.packet t.packets k.1 t.fit in
        record {
          last = t.last;
          packets = collect f o g.packet t.packets;
          returns = rw (g.returns, t.returns) refl;
          in_range = t.in_range;
          fit = fit;
          short = short_enough (collect f o g.packet t.packets) fit;
          read = read_back (collect f o g.packet t.packets) fit;
        }
