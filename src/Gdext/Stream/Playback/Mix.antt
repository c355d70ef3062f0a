-- ===== src/Gdext/Stream/Playback/Mix.antt =====
-- gdext/src/stream.rs: `mix_resampled_rawptr`, with the guard that times it.
use godot_network_audio.Common.{
  ℕ, suc, ◌-◌, ◌^◌, ◌%◌, Bool, true, not, ◌&&◌, ◌||◌, none, some, List, [], ◌∷◌, map, length,
  is_empty, ltb, ◌==◌, if◌then◌else◌, max, wrapping_add,
}
use godot_network_audio.Common.Run.{Run, done, ◌>>=◌}
use godot_network_audio.VoiceCore.Float.{Floats}
use godot_network_audio.VoiceCore.Receiver.Stats
use godot_network_audio.VoiceCore.Receiver.{VoiceReceiver}
use godot_network_audio.VoiceCore.Receiver.Jitter.{NetEq}
use godot_network_audio.Gdext.Stream
use godot_network_audio.Gdext.Stream.{Clock, SharedStreamState, CallbackCounters, now_mono_us}
use godot_network_audio.Gdext.Stream.Playback.{
  AudioFrame, AudioStreamNetworkPlayback, Filling, Round, drain_packets_into_receiver, fill,
  zero_frames, advance_position, count_mixed,
}

module _ (f : Floats) (n : NetEq f.F32) (clock : Clock n.Instant) where
  open f use {F32, lit, mul, div, sqrt, sum, abs, lt, of_usize}
  open n use {Instant}

  -- The state that a callback works on, with the frames that it puts out.
  pub record Mixed : Type 0 where
    pub shared : SharedStreamState f n clock
    pub playback : AudioStreamNetworkPlayback f n clock
    pub out : List (AudioFrame f n clock)

  -- `CallbackTiming::new`
  pub enter_callback : SharedStreamState f n clock → ℕ → SharedStreamState f n clock
  enter_callback s start_us = record s {
    callback = record (s.callback) {
      callback_gap_us_max =
          if s.callback.callback_last_exit_us == 0
          then s.callback.callback_gap_us_max
          else max s.callback.callback_gap_us_max (start_us - s.callback.callback_last_exit_us);
      callback_entries = wrapping_add 64 s.callback.callback_entries 1;
    };
  }

  -- `CallbackTiming::drop`
  pub leave_callback : SharedStreamState f n clock → ℕ → ℕ → SharedStreamState f n clock
  leave_callback s start_us end_us = record s {
    callback = record (s.callback) {
      callback_duration_us_max = max s.callback.callback_duration_us_max (end_us - start_us);
      callback_last_exit_us = end_us;
      callback_exits = wrapping_add 64 s.callback.callback_exits 1;
    };
  }

  output_rms : List (AudioFrame f n clock) → F32
  output_rms out =
      if is_empty out
      then lit "0.0"
      else sqrt (div (sum (map (λ frame. mul frame.left frame.left) out)) (of_usize (length out)))

  -- How many frames are above the audible floor.
  count_audible : List (AudioFrame f n clock) → ℕ
  count_audible [] = 0
  count_audible (frame ∷ out) =
      let rest = count_audible out in
      if lt (lit "1.0e-3") (f.max (abs frame.left) (abs frame.right)) then suc rest else rest

  -- What is published after a buffer was filled.
  pub publish_output :
      SharedStreamState f n clock
      → List (AudioFrame f n clock)
      → Instant
      → SharedStreamState f n clock
  unfolding output_rms count_audible
  publish_output s out now =
      let audible = count_audible out in
      let s' = count_mixed f n clock s (length out) in
      record s' {
        runtime = record (s'.runtime) {
          output_rms = output_rms out;
          non_silent_output_frames = wrapping_add 64 s'.runtime.non_silent_output_frames audible;
        };
        callback = record (s'.callback) {
          first_output_us =
              if ltb 0 audible && (s'.callback.first_output_us == 0)
              then max (now_mono_us f n clock s' now) 1
              else s'.callback.first_output_us;
        };
      }

  -- The receiver's statistics; the packets awaiting decode are those of the ingress queue.
  pub publish_receiver :
      SharedStreamState f n clock → VoiceReceiver f n → SharedStreamState f n clock
  publish_receiver s r =
      let s' = Stream.publish_stats f n clock s (Stats.stats f n r) in
      record s' {
        runtime = record (s'.runtime) { packets_awaiting_decode = length s'.queue % 2 ^ 32 };
      }

  -- Before the first round nothing is written.
  abbrev pub start :
      SharedStreamState f n clock
      → AudioStreamNetworkPlayback f n clock
      → VoiceReceiver f n
      → Filling f n clock
  start s p r = record {
    receiver = r;
    shared = s;
    pending_mono = p.pending_mono;
    pending_cursor = p.pending_cursor;
    out = [];
  }

  -- What a callback publishes once the buffer is filled.
  abbrev pub finish : Instant → AudioStreamNetworkPlayback f n clock → ℕ → Filling f n clock → Mixed
  finish now p len e = record {
    shared = publish_receiver (publish_output e.shared e.out now) e.receiver;
    playback = record (advance_position f n clock p len) {
      receiver = some e.receiver;
      pending_mono = e.pending_mono;
      pending_cursor = e.pending_cursor;
    };
    out = e.out;
  }

  -- With a receiver: drain, fill, publish.
  unfoldable pub play_with :
      ℕ
      → (ℕ → Round f n clock)
      → Instant
      → SharedStreamState f n clock
      → AudioStreamNetworkPlayback f n clock
      → ℕ
      → VoiceReceiver f n
      → Run Mixed
  play_with fuel rounds now s p len r =
      fill f n clock fuel 1 rounds len
        (drain_packets_into_receiver f n clock (rounds 0) (start s p r))
      >>= λ e. done (finish now p len e)

  -- Without a receiver the output stays zero.
  abbrev pub silent :
      Instant → SharedStreamState f n clock → AudioStreamNetworkPlayback f n clock → ℕ → Mixed
  silent now s p len =
      let s' = publish_output s (zero_frames f n clock len) now in
      record {
        shared = record s' {
          runtime = record (s'.runtime) { packets_awaiting_decode = length s'.queue % 2 ^ 32 };
        };
        playback = advance_position f n clock p len;
        out = zero_frames f n clock len;
      }

  -- The part of a callback that plays.
  unfoldable pub play :
      ℕ
      → (ℕ → Round f n clock)
      → Instant
      → SharedStreamState f n clock
      → AudioStreamNetworkPlayback f n clock
      → ℕ
      → Run Mixed
  play fuel rounds now s p len = elim p.receiver [
    | none ↦ done (silent now s p len)
    | some r ↦ play_with fuel rounds now s p len r
  ]

  -- Playout is paused and nothing waits.
  abbrev pub is_idle : SharedStreamState f n clock → Bool
  is_idle s = s.runtime.playout_paused && is_empty s.queue

  -- The four ways out of a callback before it plays: the output is zero in each.
  abbrev pub stopped :
      SharedStreamState f n clock → AudioStreamNetworkPlayback f n clock → ℕ → Mixed
  stopped s p len = record { shared = s; playback = p; out = zero_frames f n clock len }

  abbrev pub inactive :
      SharedStreamState f n clock → AudioStreamNetworkPlayback f n clock → ℕ → Mixed
  inactive s p len = record {
    shared = count_mixed f n clock s len;
    playback = advance_position f n clock p len;
    out = zero_frames f n clock len;
  }

  abbrev pub idle : SharedStreamState f n clock → AudioStreamNetworkPlayback f n clock → ℕ → Mixed
  idle s p len =
      inactive (record s { runtime = record (s.runtime) { output_rms = lit "0.0" } }) p len

  abbrev pub detached :
      SharedStreamState f n clock → AudioStreamNetworkPlayback f n clock → ℕ → Mixed
  detached s p len = stopped s (record p { warned_detached_init = true }) len

  -- `mix_resampled_rawptr` within its guard, for a buffer of `len` frames.
  unfoldable pub mix :
      ℕ
      → (ℕ → Round f n clock)
      → Instant
      → SharedStreamState f n clock
      → AudioStreamNetworkPlayback f n clock
      → ℕ
      → Run Mixed
  mix fuel rounds now s p len =
      if not s.playing
      then done (stopped s p len)
      else (if not s.active
          then done (inactive s p len)
          else (if is_idle s
              then done (idle s p len)
              else (if p.detached_init
                  then done (detached s p len)
                  else play fuel rounds now s p len)))

  -- The whole callback, its guard included, and the count that it returns. `null` or a count of
  -- frames that is not positive returns at once.
  pub mix_resampled :
      ℕ
      → (ℕ → Round f n clock)
      → Instant
      → Instant
      → Instant
      → Bool
      → ℕ
      → SharedStreamState f n clock
      → AudioStreamNetworkPlayback f n clock
      → Run (ℕ × Mixed)
  unfolding enter_callback leave_callback
  mix_resampled fuel rounds entered now left null frames s p =
      let start_us = now_mono_us f n clock s entered in
      let s' = enter_callback s start_us in
      if null || (frames == 0)
      then done (
        0,
        record {
          shared = leave_callback s' start_us (now_mono_us f n clock s' left);
          playback = p;
          out = [];
        },
      )
      else (mix fuel rounds now s' p frames >>= λ m. done (
        frames,
        record m {
          shared = leave_callback m.shared start_us (now_mono_us f n clock m.shared left);
        },
      ))
