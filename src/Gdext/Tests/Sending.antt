-- ===== src/Gdext/Tests/Sending.antt =====
-- The theorems of the main thread of gdext/src/sender.rs applied to a concrete sender.
use godot_network_audio.Common.{
  List, ℕ, ◌-◌, min, replicate, refl, true, false, none, some, [], ◌∷◌, pos, arith,
}
use godot_network_audio.VoiceCore.Error.{gives}
use godot_network_audio.VoiceCore.Fixtures.{whole, coder, encoder}
use godot_network_audio.VoiceCore.Encoder
use godot_network_audio.VoiceCore.Encoder.{VoiceEncoder, end_packet}
use godot_network_audio.VoiceCore.Resample
use godot_network_audio.Gdext.PcmTap.{tap_default}
use godot_network_audio.Gdext.Sender.Main.{
  NetworkAudioSender, LocalSendPipeline, rebuild_encoder, config_of,
}
use godot_network_audio.Gdext.Sender.Main.Batch.{drain_worker_packets}
use godot_network_audio.Gdext.Sender.Main.Restart.{Rebuilt, rebuild_continues, Drains, drain-Drains}
use godot_network_audio.VoiceCore.Vad.{gate_default}
use godot_network_audio.Gdext.Sender.Pacing.{IsPaced, rounds, rounds-IsPaced}
use godot_network_audio.Gdext.Sender.Capture.{AudioServer, Microphone}
use godot_network_audio.Gdext.Tests.{pipeline, tap}

-- A worker that is in the middle of a talkspurt, with a packet that waits.
abbrev talking : VoiceEncoder whole coder
talking = record encoder { speaking = true }

abbrev running : LocalSendPipeline whole coder ℕ
running = record {
  state = record pipeline { encoded_packets = (1 ∷ 2 ∷ []) ∷ [] };
  worker = some talking;
}

abbrev sender : NetworkAudioSender whole coder ℕ
sender = record {
  pcm_tap = tap;
  bitrate_bps = pos 24_000;
  input_sample_rate_hz = pos 48_000;
  enable_dtx = true;
  denoise = false;
  transmit_enabled = true;
  packet_clock = 0;
  sender = some running;
  loopback_target = false;
  direct_send_handler = false;
  last_speaking = true;
  last_error = none;
  input_samples_pushed = 0;
  packets_sent = 0;
  last_drain_batch_packets = 0;
  max_drain_batch_packets = 0;
  last_drain_nonempty_us = 0;
  drain_nonempty_count = 0;
  drain_nonempty_interval_sum_us = 0;
  drain_nonempty_interval_max_us = 0;
  worker_pcm_dropped = 0;
  worker_packets_dropped = 0;
  signals = [];
  errors = [];
}

abbrev made : VoiceEncoder whole coder
made = record {
  encoder = 0;
  resampler = record { input_rate = 48_000; output_rate = 48_000; source_pos = 0; history = [] };
  pending_pcm = [];
  seq = 0;
  timestamp = 0;
  speaking = false;
  enable_dtx = true;
}

rebuild_continues_example :
    Rebuilt whole coder ℕ talking (rebuild_encoder whole coder ℕ (gives tt) sender)
unfolding Encoder.new Resample.new config_of tap_default
rebuild_continues_example =
    rebuild_continues whole coder ℕ sender running talking made refl refl (omega arith)
      (omega arith) refl

drain-Drains_example :
    Drains whole coder ℕ sender running (drain_worker_packets whole coder ℕ 7 sender)
unfolding tap_default
drain-Drains_example = drain-Drains whole coder ℕ 7 sender running refl

-- On time, a wait, late by 5 ms, and eleven seconds behind.
abbrev readings : List (ℕ × ℕ)
readings = (100, 200) ∷ (300, 300) ∷ (25_100, 25_300) ∷ (11_100_000, 11_100_100) ∷ []

rounds-IsPaced_example :
    IsPaced 100 11_100_100 (rounds (record { next_tick = 100; ticks = 0 }) readings)
rounds-IsPaced_example =
    rounds-IsPaced 100 100 (record { next_tick = 100; ticks = 0 }) readings refl
      (record { spaced = omega arith; near = omega arith })

abbrev microphone : Microphone whole
microphone = record {
  input_gain = 1;
  input_peak = 0;
  input_rms = 0;
  gate_threshold_db = 1;
  captured_frames = 0;
  gate = gate_default whole;
}

-- A server is the count of its frames, which are all the same.
abbrev audio : AudioServer ℕ
audio = record {
  Server = ℕ;
  get_input_frames_available = λ waiting. pos waiting;
  get_input_frames = λ k waiting. (waiting - k, replicate (min k waiting) (1, 2));
}
