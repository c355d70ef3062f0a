-- ===== src/Gdext/Sender/Devices.antt =====
-- gdext/src/sender.rs: the microphone of `NetworkAudioSender` on the main thread, which starts and
-- stops the input device and, unless the worker captures, pumps its frames into the pipeline. What the
-- engine's audio server answers is an argument. The meters that a pump stores are left out.
use godot_network_audio.Common.{
  ℕ, ◌+◌, ◌-◌, ◌≡◌, refl, ℤ, pos_part, Bool, true, false, not, ◌&&◌, some, List, [], ◌∷◌, ◌++◌, map,
  length, is_empty, is_some, ◌==◌, if◌then◌else◌, max, arith, length-map,
}
use godot_network_audio.VoiceCore.Error.{Reply}
use godot_network_audio.VoiceCore.Float.{Floats}
use godot_network_audio.VoiceCore.Encoder.{OpusEncoder}
use godot_network_audio.Gdext.Sender.Capture.{Microphone, microphone_sample}
use godot_network_audio.Gdext.Sender.Main.{
  NetworkAudioSender, not_spawned, rebuild_encoder, stop_sender, push_pcm_slice,
}
use godot_network_audio.Gdext.Sender.Main.Batch.{drain_worker_packets}

module _ (f : Floats) (o : OpusEncoder f.F32) (Instant : Type 0) where
  open f use {F32, lit}

  -- `node` has the fields that do not concern the microphone. `is_active` is whether the input device
  -- was activated last, and `gain` the factor of `input_gain_db`; the device's activation in `ready` is taken to succeed.
  pub record Devices : Type 0 where
    pub node : NetworkAudioSender f o Instant
    pub capture_audio_server_input : Bool
    pub capture_on_worker : Bool
    pub is_active : Bool
    pub input_gain_db : F32
    pub gate_threshold_db : F32
    pub gain : F32
    pub microphone_frame_budget : ℤ
    pub captured_input_frames : ℕ
    pub process_ticks : ℕ
    pub empty_input_polls : ℕ
    pub current_empty_input_poll_streak : ℕ
    pub max_empty_input_poll_streak : ℕ
    pub last_available_frames : ℕ
    pub max_available_frames : ℕ
    pub last_capture_pull_us : ℕ
    pub capture_pull_count : ℕ
    pub capture_pull_interval_sum_us : ℕ
    pub capture_pull_interval_max_us : ℕ
    pub chunk_count : ℕ
    pub last_chunk_frames : ℕ
    pub max_chunk_frames : ℕ

  -- `activated` is whether the device could be activated, and `mix_rate` its rate.
  unfoldable pub start_capture : Reply (Unit {0}) → Bool → ℤ → Devices → Devices
  start_capture thread activated mix_rate d =
      if d.capture_audio_server_input
      then d
      else (if activated
          then record d {
            is_active = true;
            capture_audio_server_input = true;
            node =
                rebuild_encoder f o Instant thread
                  (record (d.node) { input_sample_rate_hz = mix_rate });
          }
          else record d {
            node = record (d.node) {
              last_error = some (not_spawned "Could not activate microphone");
              errors = d.node.errors ++ (not_spawned "Could not activate microphone" ∷ []);
            };
          })

  unfoldable pub stop_capture : Devices → Devices
  stop_capture d =
      if d.capture_audio_server_input
      then record d {
        capture_audio_server_input = false;
        node = record (stop_sender f o Instant d.node) { last_speaking = false };
        is_active = false;
      }
      else d

  -- A poll that finds no frames.
  abbrev pub count_empty : Devices → Devices
  count_empty d = record d {
    empty_input_polls = d.empty_input_polls + 1;
    current_empty_input_poll_streak = d.current_empty_input_poll_streak + 1;
    max_empty_input_poll_streak =
        max d.max_empty_input_poll_streak (d.current_empty_input_poll_streak + 1);
  }

  -- A poll that finds frames.
  abbrev pub count_pull : Devices → ℕ → ℕ → Devices
  count_pull d available now_us =
      let d' : Devices = record d {
        current_empty_input_poll_streak = 0;
        last_available_frames = available;
        max_available_frames = max d.max_available_frames available;
        last_capture_pull_us = now_us;
      } in
      if d.last_capture_pull_us == 0
      then d'
      else (let interval = now_us - d.last_capture_pull_us in
          record d' {
            capture_pull_count = d.capture_pull_count + 1;
            capture_pull_interval_sum_us = d.capture_pull_interval_sum_us + interval;
            capture_pull_interval_max_us = max d.capture_pull_interval_max_us interval;
          })

  -- One chunk is mixed down, counted and pushed.
  unfoldable pub pump_chunk : Reply (Unit {0}) → List (F32 × F32) → Devices → Devices
  pump_chunk thread chunk d =
      let mono = map (λ v. microphone_sample f v.0 v.1 d.gain) chunk in
      record d {
        chunk_count = d.chunk_count + 1;
        last_chunk_frames = length chunk;
        max_chunk_frames = max d.max_chunk_frames (length chunk);
        captured_input_frames = d.captured_input_frames + length chunk;
        node = (push_pcm_slice f o Instant thread d.node mono).1;
      }

  -- while available > 0 { ... }; `answers` are the server's, one for each time that it is asked for
  -- frames, and an answer that is missing is empty.
  unfoldable pub pump_chunks : Reply (Unit {0}) → ℕ → List (List (F32 × F32)) → Devices → Devices
  unfolding pump_chunk
  pump_chunks thread available [] d = d
  pump_chunks thread available (chunk ∷ answers) d =
      let rest =
        pump_chunks thread (available - length chunk) answers (pump_chunk thread chunk d) in
      if available == 0 then d else (if is_empty chunk then d else rest)

  unfoldable pub pump_audio_server_input :
      Reply (Unit {0}) → ℕ → ℤ → List (List (F32 × F32)) → Devices → Devices
  unfolding pump_chunks
  pump_audio_server_input thread now_us available answers d =
      if pos_part available == 0
      then count_empty d
      else pump_chunks thread (pos_part available) answers
          (count_pull d (pos_part available) now_us)

  -- `pumped_us` and `drained_us` are the clock's readings at the pump and at the drain.
  unfoldable pub process :
      Reply (Unit {0}) → ℕ → ℕ → ℤ → List (List (F32 × F32)) → Devices → Devices
  unfolding pump_audio_server_input
  process thread pumped_us drained_us available answers d =
      let ticked : Devices = record d { process_ticks = d.process_ticks + 1 } in
      let pumped =
        if d.capture_audio_server_input && not d.capture_on_worker
        then pump_audio_server_input thread pumped_us available answers ticked
        else ticked in
      record pumped { node = drain_worker_packets f o Instant drained_us pumped.node }

  -- `powered` is 10 to the power of a twentieth. The running pipeline's `microphone` takes the new
  -- gain at once, and so for the threshold.
  unfoldable pub set_input_gain_db :
      (F32 → F32) → F32 → Devices → Microphone f → Devices × Microphone f
  set_input_gain_db powered db d microphone =
      if f.is_finite db
      then (let level = f.clamp db (lit "-30.0") (lit "24.0") in
          (
            record d { input_gain_db = level; gain = powered level },
            if is_some d.node.sender
                then record microphone { input_gain = powered level }
                else microphone,
          ))
      else (d, microphone)

  unfoldable pub set_gate_threshold_db : F32 → Devices → Microphone f → Devices × Microphone f
  set_gate_threshold_db db d microphone =
      if f.is_finite db
      then (let level = f.clamp db (lit "-60.0") (lit "-20.0") in
          (
            record d { gate_threshold_db = level },
            if is_some d.node.sender
                then record microphone { gate_threshold_db = level }
                else microphone,
          ))
      else (d, microphone)

  unfoldable pub ready : Reply (Unit {0}) → Reply (Unit {0}) → ℤ → Devices → Devices
  ready thread again mix_rate d =
      let built = rebuild_encoder f o Instant thread d.node in
      if d.capture_audio_server_input
      then record d {
        is_active = true;
        node = rebuild_encoder f o Instant again (record built { input_sample_rate_hz = mix_rate });
      }
      else record d { node = built }

  unfoldable pub exit_tree : Devices → Devices
  exit_tree d = record d {
    node = stop_sender f o Instant d.node;
    is_active = if d.capture_audio_server_input then false else d.is_active;
  }

  -- The frames that are counted as captured are those that are pushed, while there is a pipeline.
  chunk_lem :
      (thread : Reply (Unit {0})) (chunk : List (F32 × F32)) (d : Devices)
      → is_some d.node.sender ≡ true
      → ((pump_chunk thread chunk d).captured_input_frames ≡ d.captured_input_frames + length chunk)
        × ((pump_chunk thread chunk d).node.input_samples_pushed
            ≡ d.node.input_samples_pushed + length chunk)
        × (is_some (pump_chunk thread chunk d).node.sender ≡ true)
  unfolding pump_chunk push_pcm_slice
  chunk_lem thread chunk d h =
      ground (arith, h, length-map chunk (λ (v : F32 × F32). microphone_sample f v.0 v.1 d.gain))

  pump_chunks_lem :
      (thread : Reply (Unit {0})) (available : ℕ) (answers : List (List (F32 × F32))) (d : Devices)
      → is_some d.node.sender ≡ true
      → let d' = pump_chunks thread available answers d in
        d'.captured_input_frames + d.node.input_samples_pushed
        ≡ d.captured_input_frames + d'.node.input_samples_pushed
  unfolding pump_chunks
  pump_chunks_lem thread available [] d h = refl
  pump_chunks_lem thread available (chunk ∷ answers) d h = ground (
    arith,
    chunk_lem thread chunk d h,
    pump_chunks_lem thread (available - length chunk) answers (pump_chunk thread chunk d),
  )
