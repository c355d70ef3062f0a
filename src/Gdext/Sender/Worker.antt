-- ===== src/Gdext/Sender/Worker.antt =====
-- What a tick of the worker of gdext/src/sender.rs puts out.
use godot_network_audio.Common.{
  ℕ, zero, suc, ◌+◌, ◌<◌, ◌≤◌, ◌≡◌, refl, ap, ◌∙◌, Bool, true, false, Option, none, some, List, [],
  ◌∷◌, ◌++◌, map, length, drop, arith, append_assoc, append-nil, if◌then◌else◌, length-append,
  length-drop, subst,
}
use godot_network_audio.Common.Run.{Run, done}
use godot_network_audio.Common.Bounded.{newest, newest_short, newest_step, newest-append}
use godot_network_audio.VoiceCore.Error.{Result, ok, err}
use godot_network_audio.VoiceCore.Float.{Floats}
use godot_network_audio.VoiceCore.Packet.{VoicePacket, to_bytes}
use godot_network_audio.VoiceCore.Encoder.{OpusEncoder, VoiceEncoder, poll_packet}
use godot_network_audio.VoiceCore.Encoder.Step.{Visible, Sends, Moves, visible, sent, poll-Moves}
use godot_network_audio.VoiceCore.Encoder.Speech.{Speech, over, next}
use godot_network_audio.VoiceCore.Encoder.Clock.{waits, ticks, loses, poll-Polls}
use godot_network_audio.Gdext.Sender.{
  PipelineState, Ticking, put_out, after_poll, poll_loop, max_pending_packets,
}

module _ (f : Floats) (o : OpusEncoder f.F32) where
  open f use {F32}

  -- Where packets with these bytes went.
  pub record Goes (s : PipelineState F32) (bytes : List (List ℕ)) (s' : PipelineState F32)
      : Type 0 where
    pub queued : s'.encoded_packets ≡ (
        if s.has_handler
        then s.encoded_packets
        else newest max_pending_packets (s.encoded_packets ++ bytes))
    pub handled : s'.handed ≡ (if s.has_handler then s.handed ++ bytes else s.handed)
    pub bounded : length s'.encoded_packets ≤ max_pending_packets
    pub same_handler : s'.has_handler ≡ s.has_handler
    pub pcm : s'.pcm_samples ≡ s.pcm_samples
    pub unmuted : s'.transmit_enabled ≡ s.transmit_enabled

  put_out-Goes :
      (s : PipelineState F32) (p : VoicePacket) (at : ℕ)
      → length s.encoded_packets ≤ max_pending_packets
      → Goes s (to_bytes p ∷ []) (put_out f o s p at)
  unfolding put_out
  put_out-Goes s p at room = ground (
    arith,
    newest_short max_pending_packets (s.encoded_packets ++ (to_bytes p ∷ [])),
    newest_step max_pending_packets s.encoded_packets (to_bytes p),
    length-append s.encoded_packets (to_bytes p ∷ []),
    length-append (drop 1 s.encoded_packets) (to_bytes p ∷ []),
    length-drop 1 s.encoded_packets,
  )

  pub Goes-none :
      (s : PipelineState F32) → length s.encoded_packets ≤ max_pending_packets → Goes s [] s
  Goes-none s room = ground (
    arith,
    append-nil s.encoded_packets,
    append-nil s.handed,
    newest_short max_pending_packets s.encoded_packets,
  )

  Goes-trans :
      (s t u : PipelineState F32) (xs ys : List (List ℕ)) (b : Bool)
      → s.has_handler ≡ b
      → Goes s xs t
      → Goes t ys u
      → Goes s (xs ++ ys) u
  Goes-trans s t u xs ys true h a c = record {
    queued = ground (arith, a.queued, c.queued, a.same_handler);
    handled = ground (arith, a.handled, c.handled, a.same_handler, append_assoc s.handed xs ys);
    bounded = c.bounded;
    same_handler = c.same_handler ∙ a.same_handler;
    pcm = c.pcm ∙ a.pcm;
    unmuted = c.unmuted ∙ a.unmuted;
  }
  Goes-trans s t u xs ys false h a c = record {
    queued = ground (
      arith,
      a.queued,
      c.queued,
      a.same_handler,
      newest-append max_pending_packets (s.encoded_packets ++ xs) ys,
      append_assoc s.encoded_packets xs ys,
    );
    handled = ground (arith, a.handled, c.handled, a.same_handler);
    bounded = c.bounded;
    same_handler = c.same_handler ∙ a.same_handler;
    pcm = c.pcm ∙ a.pcm;
    unmuted = c.unmuted ∙ a.unmuted;
  }

  -- A poll that gives a packet drains samples.
  shrinks :
      (e : VoiceEncoder f o) (p : VoicePacket)
      → (poll_packet f o e).1 ≡ ok (some p)
      → length (poll_packet f o e).0.pending_pcm < length e.pending_pcm
  shrinks e p h = elim (poll-Polls f o e) [
    | waits short same ↦ absurd (ground (arith, h, same))
    | ticks size payload q answer r c l t st ↦ omega (arith, l)
    | loses m answer r t l ↦ omega (arith, l)
  ]

  -- What the packet loop of a tick comes to.
  pub record Outputs (t : Ticking f o) (r : Run (Ticking f o)) : Type 0 where
    pub last : Ticking f o
    pub packets : List VoicePacket
    pub returns : r ≡ done last
    pub goes : Goes t.state (map to_bytes packets) last.state
    pub counted : last.emitted ≡ t.emitted + length packets
    pub speech : Speech (visible f o t.encoder) packets (visible f o last.encoder)

  quiet-Speech : {v w : Visible} → v ≡ w → Speech v [] w
  quiet-Speech {v} e = subst (Speech v []) e over

  -- One round of the loop: it stops, or it goes on after a packet.
  data Round (fuel : ℕ) (times : ℕ → ℕ) (t : Ticking f o) : Type 0 where
    stops :
        (t' : Ticking f o)
        → poll_loop f o (suc fuel) times t ≡ done t'
        → Goes t.state [] t'.state
        → t'.emitted ≡ t.emitted
        → visible f o t.encoder ≡ visible f o t'.encoder
        → Round fuel times t
    goes_on :
        (p : VoicePacket) (t' : Ticking f o)
        → poll_loop f o (suc fuel) times t ≡ poll_loop f o fuel times t'
        → Goes t.state (to_bytes p ∷ []) t'.state
        → t'.emitted ≡ t.emitted + 1
        → Sends (visible f o t.encoder) (visible f o t'.encoder) p
        → length t'.encoder.pending_pcm < length t.encoder.pending_pcm
        → Round fuel times t

  abbrev onward : ℕ → (ℕ → ℕ) → Bool × Ticking f o → Run (Ticking f o)
  onward fuel times (true, t) = poll_loop f o fuel times t
  onward fuel times (false, t) = done t

  unroll :
      (fuel : ℕ) (times : ℕ → ℕ) (t : Ticking f o) (r : Result (Option VoicePacket))
      → (poll_packet f o t.encoder).1 ≡ r
      → poll_loop f o (suc fuel) times t
        ≡ onward fuel times (after_poll f o times t.state t.emitted (poll_packet f o t.encoder).0 r)
  unfolding poll_loop
  unroll fuel times t r h =
      same (
        after_poll f o times t.state t.emitted (poll_packet f o t.encoder).0
          (poll_packet f o t.encoder).1)
      ∙ ap
          (λ x.
            onward fuel times
              (after_poll f o times t.state t.emitted (poll_packet f o t.encoder).0 x))
          h
    where
      same :
          (x : Bool × Ticking f o)
          → (elim x.0 as (λ _. Run (Ticking f o)) [
            | true ↦ poll_loop f o fuel times x.1
            | false ↦ done x.1
          ])
            ≡ onward fuel times x
      same (true, t) = refl
      same (false, t) = refl

  moved :
      (e : VoiceEncoder f o) (r : Result (Option VoicePacket))
      → (poll_packet f o e).1 ≡ r
      → Moves (visible f o e) (visible f o (poll_packet f o e).0) (sent f o r)
  moved e r h =
      subst (λ x. Moves (visible f o e) (visible f o (poll_packet f o e).0) (sent f o x)) h
        (poll-Moves f o e)

  round :
      (fuel : ℕ) (times : ℕ → ℕ) (t : Ticking f o) (r : Result (Option VoicePacket))
      → (poll_packet f o t.encoder).1 ≡ r
      → t.state.transmit_enabled ≡ true
      → length t.state.encoded_packets ≤ max_pending_packets
      → Round fuel times t
  unfolding after_poll
  round fuel times t (err e) h on room =
      stops
        (record {
          state = record (t.state) { last_error = some e };
          encoder = (poll_packet f o t.encoder).0;
          emitted = t.emitted;
        })
        (unroll fuel times t _ h)
        (let g = Goes-none t.state room in
          record {
            queued = g.queued;
            handled = g.handled;
            bounded = g.bounded;
            same_handler = g.same_handler;
            pcm = g.pcm;
            unmuted = g.unmuted;
          })
        refl (moved t.encoder _ h)
  round fuel times t (ok none) h on room =
      stops (record t { encoder = (poll_packet f o t.encoder).0 }) (unroll fuel times t _ h)
        (Goes-none t.state room) refl (moved t.encoder _ h)
  round fuel times t (ok (some p)) h on room =
      goes_on p
        (record {
          state = put_out f o t.state p (times t.emitted);
          encoder = (poll_packet f o t.encoder).0;
          emitted = t.emitted + 1;
        })
        (unroll fuel times t _ h ∙ rw on refl) (put_out-Goes t.state p (times t.emitted) room) refl
        (moved t.encoder _ h) (shrinks t.encoder p h)

  -- The loop of an unmuted worker returns, whatever Opus answers, once it has more fuel than samples
  -- are pending. The packets of the tick are well-formed talkspurts that continue those before; all
  -- go to the direct handler in order if there is one, and otherwise the outbound queue holds the
  -- newest 16 of what it held and of them.
  pub poll_loop-Outputs :
      (fuel : ℕ) (times : ℕ → ℕ) (t : Ticking f o)
      → t.state.transmit_enabled ≡ true
      → length t.state.encoded_packets ≤ max_pending_packets
      → length t.encoder.pending_pcm < fuel
      → Outputs t (poll_loop f o fuel times t)
  poll_loop-Outputs zero times t on room enough = absurd (omega arith)
  poll_loop-Outputs (suc fuel) times t on room enough =
      elim (round fuel times t (poll_packet f o t.encoder).1 refl on room) [
        | stops t' returns goes same seen ↦ record {
          last = t';
          packets = [];
          returns = returns;
          goes = goes;
          counted = omega (arith, same);
          speech = quiet-Speech seen;
        }
        | goes_on p t' returns goes more sends shrinks ↦
            let rest =
              poll_loop-Outputs fuel times t' (goes.unmuted ∙ on) goes.bounded
                (omega (arith, shrinks)) in
            record {
              last = rest.last;
              packets = p ∷ rest.packets;
              returns = returns ∙ rest.returns;
              goes =
                  Goes-trans t.state t'.state rest.last.state (to_bytes p ∷ [])
                    (map to_bytes rest.packets) t.state.has_handler refl goes rest.goes;
              counted = omega (arith, more, rest.counted);
              speech = next sends rest.speech;
            }
      ]
