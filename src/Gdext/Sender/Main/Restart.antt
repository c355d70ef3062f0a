-- ===== src/Gdext/Sender/Main/Restart.antt =====
-- What the main thread of gdext/src/sender.rs gets from its worker: the packets that it drains, those
-- of a stop, and the packet clock over a restart.
use godot_network_audio.Common.{
  ℕ, zero, suc, ◌+◌, ◌*◌, ◌%◌, ◌^◌, ◌<◌, ◌≡◌, refl, ap, ◌∙◌, sym, subst, append-nil, false, not,
  ◌&&◌, Option, none, some, List, [], ◌∷◌, ◌++◌, length, arith, if◌then◌else◌,
}
use godot_network_audio.Common.Bits.{bit_or-shift}
use godot_network_audio.VoiceCore.Error.{Error, ok, gives}
use godot_network_audio.VoiceCore.Float.{Floats}
use godot_network_audio.VoiceCore.Packet.{to_bytes}
use godot_network_audio.VoiceCore.Encoder
use godot_network_audio.VoiceCore.Encoder.{
  OpusEncoder, VoiceEncoder, end_packet, finish_talkspurt, packet_clock, restore_packet_clock,
}
use godot_network_audio.VoiceCore.Encoder.Step.{visible}
use godot_network_audio.VoiceCore.Encoder.Start.{new-IsFresh}
use godot_network_audio.Gdext.Sender.{PipelineState, end_worker, pop_encoded_packet, loop_back}
use godot_network_audio.Gdext.Sender.Main.{
  Failure, of_encoder, LocalSendPipeline, NetworkAudioSender, pack_clock, unpack_clock,
  pipeline_new, start_worker, finish_worker, stop, pop_all, drain, stop_sender, config_of,
  configured, rebuild_encoder,
}
use godot_network_audio.Gdext.Sender.Main.Batch.{
  after_drain, send_batch, drain_worker_packets, count_drain, report,
}

-- A sequence number and a timestamp are read back from the word that they are kept in.
pub unpack-pack_clock :
    (seq timestamp : ℕ)
    → seq < 2 ^ 16
    → timestamp < 2 ^ 32
    → unpack_clock (pack_clock (seq, timestamp)) ≡ (seq, timestamp)
unfolding unpack_clock pack_clock
unpack-pack_clock seq timestamp hs ht = rw (same, bit_or-shift 16 seq timestamp hs) (ground arith)
  where
    same : (timestamp * 2 ^ 16) % 2 ^ 64 ≡ timestamp * 2 ^ 16
    same = omega arith

module _ (f : Floats) (o : OpusEncoder f.F32) (Instant : Type 0) where
  open f use {F32}

  -- A drained queue is empty, and all its packets were popped in order.
  pop_all_lem :
      (rounds : ℕ) (s : PipelineState F32) (qs : List (List ℕ))
      → s.encoded_packets ≡ qs
      → length qs < rounds
      → ((pop_all f o Instant rounds s).0 ≡ qs)
        × ((pop_all f o Instant rounds s).1.encoded_packets ≡ [])
        × ((pop_all f o Instant rounds s).1.last_error ≡ s.last_error)
  unfolding pop_all pop_encoded_packet
  pop_all_lem zero s qs e enough = absurd (omega arith)
  pop_all_lem (suc rounds) s [] e enough = ground (arith, e)
  pop_all_lem (suc rounds) s (q ∷ qs) e enough =
      ground (arith, e, pop_all_lem rounds (pop_encoded_packet f o s).1 qs)

  -- How the encoder of a new worker stands to that of the worker before it.
  pub record Continues (e e' : VoiceEncoder f o) : Type 0 where
    pub seen : visible f o e' ≡ visible f o (finish_talkspurt f o e).0
    pub timestamp : e'.timestamp ≡ e.timestamp
    pub empty : e'.pending_pcm ≡ []

  finish-clock :
      (s : PipelineState F32) (e : VoiceEncoder f o)
      → (finish_worker f o Instant s e).packet_clock
        ≡ pack_clock ((finish_talkspurt f o e).0.seq, e.timestamp)
  unfolding finish_worker end_worker packet_clock finish_talkspurt
  finish-clock s e = ground arith

  stop-clock :
      (m : NetworkAudioSender f o Instant) (p : LocalSendPipeline f o Instant)
      (e : VoiceEncoder f o)
      → m.sender ≡ some p
      → p.worker ≡ some e
      → (stop_sender f o Instant m).packet_clock
        ≡ pack_clock ((finish_talkspurt f o e).0.seq, e.timestamp)
  unfolding stop_sender stop
  stop-clock m p e running worker = ground (arith, running, worker, finish-clock p.state e)

  seq-finish : (e : VoiceEncoder f o) → e.seq < 2 ^ 16 → (finish_talkspurt f o e).0.seq < 2 ^ 16
  unfolding finish_talkspurt
  seq-finish e h = ground arith

  speaking-finish : (e : VoiceEncoder f o) → (finish_talkspurt f o e).0.speaking ≡ false
  unfolding finish_talkspurt
  speaking-finish e = ground arith

  config-stop :
      (m : NetworkAudioSender f o Instant)
      → config_of f o Instant (stop_sender f o Instant m) ≡ config_of f o Instant m
  unfolding stop_sender config_of
  config-stop m = ground arith

  -- What a rebuilt sender has.
  pub record Rebuilt (e : VoiceEncoder f o) (m' : NetworkAudioSender f o Instant) : Type 0 where
    pub pipeline : LocalSendPipeline f o Instant
    pub encoder : VoiceEncoder f o
    pub built : m'.sender ≡ some pipeline
    pub runs : pipeline.worker ≡ some encoder
    pub continues : Continues e encoder

  -- A sender that is rebuilt while its worker runs, as after a change of device or settings, has a
  -- worker whose encoder goes on where the old one ended: with the next sequence number after the
  -- end marker if there is one, silent, without samples, and on the same timestamp.
  pub rebuild_continues :
      (m : NetworkAudioSender f o Instant) (p : LocalSendPipeline f o Instant)
      (e made : VoiceEncoder f o)
      → m.sender ≡ some p
      → p.worker ≡ some e
      → e.seq < 2 ^ 16
      → e.timestamp < 2 ^ 32
      → Encoder.new f o (config_of f o Instant m) ≡ ok made
      → Rebuilt e (rebuild_encoder f o Instant (gives tt) m)
  unfolding rebuild_encoder start_worker configured pipeline_new restore_packet_clock
  rebuild_continues m p e made running worker hs ht new_made =
      let m' = stop_sender f o Instant m in
      let fresh = new-IsFresh f o (config_of f o Instant m) made new_made in
      let next = (finish_talkspurt f o e).0.seq in
      let clock : unpack_clock m'.packet_clock ≡ (next, e.timestamp) =
        ap unpack_clock (stop-clock m p e running worker)
        ∙ unpack-pack_clock next e.timestamp (seq-finish e hs) ht in
      record {
        pipeline = configured f o Instant m' (
            start_worker f o Instant (pipeline_new f o Instant m'.packet_clock m'.loopback_target)
              (ok made));
        encoder = restore_packet_clock f o made next e.timestamp;
        built = ground (arith, new_made, config-stop m);
        runs = ground (arith, clock);
        continues = record {
          seen = ground (arith, fresh.silent, speaking-finish e);
          timestamp = refl;
          empty = fresh.empty;
        };
      }

  finish-queue :
      (s : PipelineState F32) (e : VoiceEncoder f o)
      → (finish_worker f o Instant s e).encoded_packets ≡ (
          if e.speaking && (s.transmit_enabled && not s.has_handler)
          then to_bytes (end_packet e.seq e.timestamp) ∷ []
          else s.encoded_packets)
  unfolding finish_worker end_worker finish_talkspurt loop_back
  finish-queue s e = ground arith

  drain_lem :
      (s : PipelineState F32)
      → ((drain f o Instant s).0 ≡ s.encoded_packets)
        × ((drain f o Instant s).1.encoded_packets ≡ [])
        × ((drain f o Instant s).1.last_error ≡ s.last_error)
  unfolding drain
  drain_lem s = pop_all_lem (suc (length s.encoded_packets)) s s.encoded_packets refl (omega arith)

  -- When the worker is stopped, the main thread signals the packets that still wait; but where the
  -- worker was speaking, neither muted nor with a direct handler, it signals the end marker alone.
  pub stop_signals :
      (m : NetworkAudioSender f o Instant) (p : LocalSendPipeline f o Instant)
      (e : VoiceEncoder f o)
      → m.sender ≡ some p
      → p.worker ≡ some e
      → (stop_sender f o Instant m).signals
        ≡ m.signals
          ++ (if e.speaking && (p.state.transmit_enabled && not p.state.has_handler)
              then to_bytes (end_packet e.seq e.timestamp) ∷ []
              else p.state.encoded_packets)
  unfolding stop_sender stop
  stop_signals m p e running worker = ground (
    arith,
    running,
    worker,
    drain_lem (finish_worker f o Instant p.state e),
    finish-queue p.state e,
  )

  -- The errors that a drain signals.
  abbrev pub reported : Option Error → List Failure
  reported none = []
  reported (some e) = of_encoder e ∷ []

  -- A drain.
  pub record Drains (m : NetworkAudioSender f o Instant) (p : LocalSendPipeline f o Instant)
      (m' : NetworkAudioSender f o Instant) : Type 0 where
    pub signals : m'.signals ≡ m.signals ++ p.state.encoded_packets
    pub sent : m'.packets_sent ≡ m.packets_sent + length p.state.encoded_packets
    pub errors : m'.errors ≡ m.errors ++ reported p.state.last_error
    pub left : LocalSendPipeline f o Instant
    pub kept : m'.sender ≡ some left
    pub emptied : left.state.encoded_packets ≡ []
    pub cleared : left.state.last_error ≡ none

  errors-report :
      (e : Option Error) (m : NetworkAudioSender f o Instant)
      → ((report f o Instant e m).errors ≡ m.errors ++ reported e)
        × ((report f o Instant e m).signals ≡ m.signals)
        × ((report f o Instant e m).packets_sent ≡ m.packets_sent)
        × ((report f o Instant e m).sender ≡ m.sender)
  unfolding report
  errors-report none m = ground (arith, append-nil m.errors)
  errors-report (some e) m = ground arith

  batch_lem :
      (now_us : ℕ) (m : NetworkAudioSender f o Instant) (p : LocalSendPipeline f o Instant)
      (packets : List (List ℕ)) (s : PipelineState F32)
      → let sent = send_batch f o Instant now_us p packets s m in
        (sent.signals ≡ m.signals ++ packets)
        × (sent.packets_sent ≡ m.packets_sent + length packets)
        × (sent.errors ≡ m.errors)
        × (sent.sender ≡ some (record p { state = record s { last_error = none } }))
  unfolding send_batch count_drain
  batch_lem now_us m p packets s = ground arith

  after-Drains :
      (now_us : ℕ) (m : NetworkAudioSender f o Instant) (p : LocalSendPipeline f o Instant)
      (packets : List (List ℕ)) (s : PipelineState F32)
      → packets ≡ p.state.encoded_packets
      → s.encoded_packets ≡ []
      → s.last_error ≡ p.state.last_error
      → Drains m p (after_drain f o Instant now_us p packets s m)
  unfolding after_drain
  after-Drains now_us m p packets s all emptied same =
      let sent = send_batch f o Instant now_us p packets s m in
      let r = errors-report s.last_error sent in
      let b = batch_lem now_us m p packets s in
      record {
        signals = ground (arith, r, b, all);
        sent = ground (arith, r, b, all);
        errors = ground (arith, r, b, same);
        left = record p { state = record s { last_error = none } };
        kept = ground (arith, r, b);
        emptied = emptied;
        cleared = refl;
      }

  drains_by :
      (now_us : ℕ) (m : NetworkAudioSender f o Instant) (p : LocalSendPipeline f o Instant)
      → m.sender ≡ some p
      → drain_worker_packets f o Instant now_us m
        ≡ after_drain f o Instant now_us p
            (drain f o Instant p.state).0
            (drain f o Instant p.state).1
            m
  unfolding drain_worker_packets
  drains_by now_us m p running = ground (arith, running)

  -- A drain signals every packet that waits, once and in order, and the worker's error if there is
  -- one; it leaves an empty queue and no error behind.
  pub drain-Drains :
      (now_us : ℕ) (m : NetworkAudioSender f o Instant) (p : LocalSendPipeline f o Instant)
      → m.sender ≡ some p
      → Drains m p (drain_worker_packets f o Instant now_us m)
  unfolding drain_worker_packets
  drain-Drains now_us m p running =
      let (all, emptied, same) = drain_lem p.state in
      subst (Drains m p) (sym (drains_by now_us m p running)) (
        after-Drains now_us m p (drain f o Instant p.state).0 (drain f o Instant p.state).1 all
          emptied same)
