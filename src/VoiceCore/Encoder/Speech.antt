-- ===== src/VoiceCore/Encoder/Speech.antt =====
-- The packets of voice-core/src/encoder.rs over a run of calls, and the language of talkspurts. The
-- encoder is one whose device runs at 48 kHz, for which `push_pcm` only appends.
use godot_network_audio.Common.{
  ℕ, ◌≡◌, refl, Option, none, some, List, [], ◌∷◌, ◌++◌, arith, append-nil, subst, sym,
}
use godot_network_audio.Common.Run.{Run, done, ◌>>=◌}
use godot_network_audio.VoiceCore.Float.{Floats}
use godot_network_audio.VoiceCore.Packet.{VoicePacket}
use godot_network_audio.VoiceCore.Resample
use godot_network_audio.VoiceCore.Resample.{InputResampler}
use godot_network_audio.VoiceCore.Encoder.{
  OpusEncoder, VoiceEncoder, push_pcm, poll_packet, finish_talkspurt, advance_dropped_frames,
}
use godot_network_audio.VoiceCore.Encoder.Step.{
  Visible, Sends, Moves, visible, sent, poll-Moves, finish-Moves,
}

-- The language of talkspurts: from silence only a start, within a talkspurt plain packets and then
-- an empty end; each packet takes the next sequence number. `Speech v ps w` reads `ps` from `v`.
pub data Speech : Visible → List VoicePacket → Visible → Type 0 where
  over : {v : Visible} → Speech v [] v
  next :
      {u v w : Visible} {p : VoicePacket} {ps : List VoicePacket}
      → Sends u v p
      → Speech v ps w
      → Speech u (p ∷ ps) w

-- The calls that a worker makes.
pub data Call (F32 : Type 0) : Type 0 where
  pushes : List F32 → Call F32
  polls : Call F32
  finishes : Call F32
  drops : ℕ → Call F32

module _ (f : Floats) (o : OpusEncoder f.F32) where
  open f use {F32}

  -- One call, with the packet that it returns. The loop of the resampler has fuel `n`.
  abbrev pub call : ℕ → VoiceEncoder f o → Call F32 → Run (VoiceEncoder f o × Option VoicePacket)
  call n e (pushes xs) = push_pcm f o n e xs >>= λ e'. done (e', none)
  call n e polls = let (e', r) = poll_packet f o e in done (e', sent f o r)
  call n e finishes = done (finish_talkspurt f o e)
  call n e (drops k) = done (advance_dropped_frames f o e k, none)

  abbrev pub collect : Option VoicePacket → List VoicePacket → List VoicePacket
  collect none ps = ps
  collect (some p) ps = p ∷ ps

  -- A run of calls, with all the packets that it returns.
  abbrev pub run :
      ℕ → VoiceEncoder f o → List (Call F32) → Run (VoiceEncoder f o × List VoicePacket)
  run n e [] = done (e, [])
  run n e (c ∷ cs) = call n e c >>= λ s. run n s.0 cs >>= λ r. done (r.0, collect s.1 r.1)

  abbrev pub IsSameRate : VoiceEncoder f o → Type 0
  IsSameRate e = e.resampler.input_rate ≡ e.resampler.output_rate

  resampler-poll : (e : VoiceEncoder f o) → (poll_packet f o e).0.resampler ≡ e.resampler
  unfolding poll_packet
  resampler-poll e = ground arith

  resampler-finish : (e : VoiceEncoder f o) → (finish_talkspurt f o e).0.resampler ≡ e.resampler
  unfolding finish_talkspurt
  resampler-finish e = ground arith

  pub push_pcm_same :
      (n : ℕ) (e : VoiceEncoder f o) (xs : List F32)
      → IsSameRate e
      → push_pcm f o n e xs ≡ done (record e { pending_pcm = e.pending_pcm ++ xs })
  unfolding push_pcm Resample.process
  push_pcm_same n e [] h = rw append-nil
  push_pcm_same n e (x ∷ xs) h = ground arith

  visible-drops :
      (e : VoiceEncoder f o) (k : ℕ) → visible f o e ≡ visible f o (advance_dropped_frames f o e k)
  unfolding advance_dropped_frames
  visible-drops e k = refl

  rate-drops :
      (e : VoiceEncoder f o) (k : ℕ) → IsSameRate e → IsSameRate (advance_dropped_frames f o e k)
  unfolding advance_dropped_frames
  rate-drops e k h = h

  -- What a call returns, and what it keeps.
  pub record Goes (e : VoiceEncoder f o) (r : Run (VoiceEncoder f o × Option VoicePacket))
      : Type 0 where
    pub next_state : VoiceEncoder f o
    pub packet : Option VoicePacket
    pub returns : r ≡ done (next_state, packet)
    pub moves : Moves (visible f o e) (visible f o next_state) packet
    pub same_rate : IsSameRate next_state

  pub call-Goes : (n : ℕ) (e : VoiceEncoder f o) (c : Call F32) → IsSameRate e → Goes e (call n e c)
  call-Goes n e (pushes xs) h = record {
    next_state = record e { pending_pcm = e.pending_pcm ++ xs };
    packet = none;
    returns = rw (push_pcm_same n e xs h);
    moves = refl;
    same_rate = h;
  }
  call-Goes n e polls h = record {
    next_state = (poll_packet f o e).0;
    packet = sent f o (poll_packet f o e).1;
    returns = refl;
    moves = poll-Moves f o e;
    same_rate = rw (resampler-poll e) h;
  }
  call-Goes n e finishes h = record {
    next_state = (finish_talkspurt f o e).0;
    packet = (finish_talkspurt f o e).1;
    returns = refl;
    moves = finish-Moves f o e;
    same_rate = rw (resampler-finish e) h;
  }
  call-Goes n e (drops k) h = record {
    next_state = advance_dropped_frames f o e k;
    packet = none;
    returns = refl;
    moves = visible-drops e k;
    same_rate = rate-drops e k h;
  }

  Speech-collect :
      {u v w : Visible} (p : Option VoicePacket) (ps : List VoicePacket)
      → Moves u v p
      → Speech v ps w
      → Speech u (collect p ps) w
  Speech-collect {w} none ps m s = subst (λ x. Speech x ps w) (sym m) s
  Speech-collect (some p) ps m s = next m s

  -- What a run of calls comes to.
  pub record Talks (e : VoiceEncoder f o) (r : Run (VoiceEncoder f o × List VoicePacket))
      : Type 0 where
    pub last : VoiceEncoder f o
    pub packets : List VoicePacket
    pub returns : r ≡ done (last, packets)
    pub speech : Speech (visible f o e) packets (visible f o last)

  -- Every run of pushes, polls, ends of talkspurts and dropped capture frames at 48 kHz, without a flush
  -- or a restored clock in between, returns, whatever Opus answers, and its packets are well-formed
  -- talkspurts with consecutive sequence numbers modulo 2 ^ 16, from the state that the encoder
  -- was in to the one that it is left in.
  pub run-Talks :
      (n : ℕ) (e : VoiceEncoder f o) (cs : List (Call F32)) → IsSameRate e → Talks e (run n e cs)
  run-Talks n e [] h = record { last = e; packets = []; returns = refl; speech = over }
  run-Talks n e (c ∷ cs) h =
      let g = call-Goes n e c h in
      let t = run-Talks n g.next_state cs g.same_rate in
      record {
        last = t.last;
        packets = collect g.packet t.packets;
        returns = rw (g.returns, t.returns) refl;
        speech = Speech-collect g.packet t.packets g.moves t.speech;
      }
