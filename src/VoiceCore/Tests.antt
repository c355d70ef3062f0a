-- ===== src/VoiceCore/Tests.antt =====
-- Runs of the definitions of voice-core on concrete inputs, and its theorems applied to them.
use godot_network_audio.Common.{
  ℕ, ◌<◌, ◌≤◌, ◌≡◌, refl, ◌⊎◌, true, false, none, List, [], ◌∷◌, length, replicate, arith,
}
use godot_network_audio.Common.Run.{panics}
use godot_network_audio.VoiceCore.Error.{ok, err, invalid_packet}
use godot_network_audio.VoiceCore.Packet.{
  VoicePacket, header_len, to_bytes, decode_from_bytes, contains,
}
use godot_network_audio.VoiceCore.Packet.Wire.{Reads, decode-to_bytes, decode_total}
use godot_network_audio.VoiceCore.Vad
use godot_network_audio.VoiceCore.Vad.{EnergyVad}
use godot_network_audio.VoiceCore.Vad.Gate.{outputs, outputs_hold, set_threshold_keeps_hold}
use godot_network_audio.VoiceCore.Resample
use godot_network_audio.VoiceCore.Resample.Chunks.{Halves, process-Halves, process_overruns}
use godot_network_audio.VoiceCore.Encoder
use godot_network_audio.VoiceCore.Encoder.{poll_packet}
use godot_network_audio.VoiceCore.Encoder.Clock.{Polls, poll-Polls}
use godot_network_audio.VoiceCore.Encoder.Speech
use godot_network_audio.VoiceCore.Encoder.Speech.{Talks, run-Talks, pushes, polls, finishes, drops}
use godot_network_audio.VoiceCore.Encoder.Range.{Emits, run-Emits}
use godot_network_audio.VoiceCore.Decoder
use godot_network_audio.VoiceCore.Decoder.{OpusAudioDecoder, decode}
use godot_network_audio.VoiceCore.Decoder.Output.{
  Answers, new-Answers, KeepsBuffer, Decodes, decode-Decodes,
}
use godot_network_audio.VoiceCore.Receiver
use godot_network_audio.VoiceCore.Receiver.{
  VoiceReceiver, sequence_is_newer, push_packet_with_now_mono, pull_frame, pull_decoded, reopened,
  marked, reset_stream, submit, silence, packet_is_newer,
}
use godot_network_audio.VoiceCore.Receiver.Stats.{stats}
use godot_network_audio.VoiceCore.Receiver.Run
use godot_network_audio.VoiceCore.Receiver.Run.{
  IsConsistent, fresh-IsConsistent, run-IsConsistent, resets,
}
use godot_network_audio.VoiceCore.Receiver.Talkspurt.{
  is_waiting, pulls, lone_packet_stalls, stale_start_reopens, flushed_with,
}
use godot_network_audio.VoiceCore.Receiver.Resume.{media_after_end_resumes, second_packet_plays}
use godot_network_audio.VoiceCore.Harness.Metrics
use godot_network_audio.VoiceCore.Fixtures.{
  whole, whole_exact, coder, coder_writes, adapter, jitter, packet, at, receiver, played, silent,
  resampler_at, encoder,
}

decode-to_bytes_example :
    decode_from_bytes (to_bytes (packet 258 7 5 (9 ∷ []))) ≡ ok (packet 258 7 5 (9 ∷ []))
decode-to_bytes_example = decode-to_bytes (packet 258 7 5 (9 ∷ [])) (record {
  seq_range = omega arith;
  timestamp_range = omega arith;
  flags_range = omega arith;
  payload_range = (omega arith, tt);
})

abbrev datagram : List ℕ
datagram = 1 ∷ 2 ∷ 0 ∷ 0 ∷ 0 ∷ 7 ∷ 5 ∷ 33 ∷ 9 ∷ []

decode_total_example :
    ((length datagram < header_len)
      × (decode_from_bytes datagram ≡ err (invalid_packet "packet shorter than fixed header")))
    ⊎ ((header_len ≤ length datagram) × ((p : VoicePacket) × Reads datagram p))
decode_total_example = decode_total datagram (ground arith)

abbrev detector : EnergyVad whole
detector = record {
  config = record { threshold_db = 3; hangover_frames = 1 };
  hangover_remaining = 0;
}

abbrev quiet : List (List ℕ)
quiet = (1 ∷ 0 ∷ []) ∷ (0 ∷ 1 ∷ []) ∷ []

outputs_hold_example :
    outputs whole (record { vad = detector }) ((5 ∷ 5 ∷ []) ∷ quiet)
    ≡ (5 ∷ 5 ∷ []) ∷ (1 ∷ 0 ∷ []) ∷ (0 ∷ 0 ∷ []) ∷ []
unfolding Vad.level Vad.rms
outputs_hold_example = outputs_hold whole detector (5 ∷ 5 ∷ []) quiet refl (refl, (refl, tt))

set_threshold_keeps_hold_example :
    ((Vad.set_threshold_db whole (record { vad = detector }) 9).vad.config.threshold_db ≡ 1)
    × ((Vad.set_threshold_db whole (record { vad = detector }) 9).vad.hangover_remaining ≡ 0)
    × ((Vad.set_threshold_db whole (record { vad = detector }) 9).vad.config.hangover_frames ≡ 1)
set_threshold_keeps_hold_example = set_threshold_keeps_hold whole (record { vad = detector }) 9

process-Halves_example :
    Halves whole
      (resampler_at 96_000 48_000)
      (1 ∷ 2 ∷ 3 ∷ [])
      []
      (Resample.process whole 9 (resampler_at 96_000 48_000) (1 ∷ 2 ∷ 3 ∷ []) [])
process-Halves_example =
    process-Halves whole whole_exact 9 (resampler_at 96_000 48_000) (1 ∷ 2 ∷ 3 ∷ []) []
      (record { ratio = refl; positive = omega arith; fits = omega arith })
      (record { at_start = refl; short = omega arith }) (omega arith) (omega arith)

process_overruns_example :
    Resample.process whole 9 (resampler_at 192_000 48_000) (1 ∷ 2 ∷ []) [] ≡ panics
process_overruns_example =
    process_overruns whole whole_exact 9 4 (resampler_at 192_000 48_000) 1 2 [] (omega arith)
      (record { ratio = refl; positive = omega arith; fits = omega arith }) refl refl (omega arith)

poll-Polls_example : Polls whole coder encoder (poll_packet whole coder encoder)
poll-Polls_example = poll-Polls whole coder encoder

run-Talks_example : Talks whole coder encoder (
    Speech.run whole coder 1 encoder
      (polls ∷ pushes (replicate 960 0) ∷ drops 2 ∷ polls ∷ finishes ∷ []))
run-Talks_example =
    run-Talks whole coder 1 encoder
      (polls ∷ pushes (replicate 960 0) ∷ drops 2 ∷ polls ∷ finishes ∷ []) refl

run-Emits_example : Emits whole coder coder_writes encoder (
    Speech.run whole coder 1 encoder
      (polls ∷ pushes (replicate 960 0) ∷ drops 2 ∷ polls ∷ finishes ∷ []))
run-Emits_example =
    run-Emits whole coder coder_writes 1 encoder
      (polls ∷ pushes (replicate 960 0) ∷ drops 2 ∷ polls ∷ finishes ∷ []) refl (omega arith)

adapter_keeps : KeepsBuffer adapter
adapter_keeps c bytes out = refl

abbrev adapted : OpusAudioDecoder adapter
adapted = record { inner = 0; sample_rate = 8_000; channels = 2 }

decode-Decodes_example :
    Decodes adapter adapter_keeps 0 adapted (7 ∷ 8 ∷ []) (decode adapter 0 adapted (7 ∷ 8 ∷ []))
decode-Decodes_example = decode-Decodes adapter adapter_keeps 0 adapted (7 ∷ 8 ∷ [])

new-Answers_example : Answers adapter 44_100 1 (Decoder.new adapter 44_100 1)
new-Answers_example = new-Answers adapter 44_100 1

abbrev calls : List (Run.Call whole jitter)
calls =
    Run.pushes 5 (packet 0 0 1 (9 ∷ [])) (at 0) 0
    ∷ Run.pulls 4
    ∷ Run.pushes 5 (packet 1 960 2 []) (at 0) 0
    ∷ Run.pulls 4
    ∷ resets
    ∷ []

run-IsConsistent_example : IsConsistent whole jitter (Run.run whole jitter receiver calls)
run-IsConsistent_example =
    run-IsConsistent whole jitter receiver calls (fresh-IsConsistent whole jitter [] 48_000)

-- One packet of a talkspurt is buffered.
abbrev lone : VoiceReceiver whole jitter
lone = record played {
  inner =
      (jitter.insert_packet
        (Receiver.audio_packet whole jitter played (packet 12 11_520 1 (9 ∷ [])) 0) []).0;
  resuming_talkspurt = true;
  resumed_packet_count = 1;
}

lone_packet_stalls_example :
    let (r', outs) =
      pulls whole jitter 3 480
        (push_packet_with_now_mono whole jitter 5 lone (packet 13 12_480 2 []) (at 0) 0).0 in
    (outs ≡ replicate 3 (silence whole jitter 480))
    × (r'.inner ≡ lone.inner)
    × (r'.pending_silence ≡ true)
    × ((stats whole jitter r').playout_paused ≡ false)
unfolding packet_is_newer sequence_is_newer contains
lone_packet_stalls_example =
    lone_packet_stalls whole jitter 5 lone (packet 13 12_480 2 []) (at 0) 0 3 480 refl refl refl
      refl refl (record { no_media = refl; ends = refl; no_start = refl }) (omega arith)

stale_start_reopens_example :
    let (r', outs) =
      pulls whole jitter 2 3
        (push_packet_with_now_mono whole jitter 5 silent (packet 9 8_640 1 (9 ∷ [])) (at 0) 0).0 in
    (outs ≡ replicate 2 (silence whole jitter 3))
    × (r'.inner ≡ flushed_with whole jitter 5 silent (packet 9 8_640 1 (9 ∷ [])) 0 0)
    × (is_waiting whole jitter r' ≡ true)
    × ((stats whole jitter r').playout_paused ≡ false)
unfolding packet_is_newer sequence_is_newer contains
stale_start_reopens_example =
    stale_start_reopens whole jitter 5 silent (packet 9 8_640 1 (9 ∷ [])) (at 0) 0 2 3 refl refl
      refl

media_after_end_resumes_example :
    let (r', result) =
      push_packet_with_now_mono whole jitter 5 silent (packet 12 11_520 0 (9 ∷ [])) (at 0) 0 in
    (result ≡ ok tt)
    × (r'.inner
        ≡ (submit whole jitter 5
            (reopened whole jitter silent)
            (packet 12 11_520 0 (9 ∷ []))
            0
            0).0)
    × (r'.pending_silence ≡ false)
    × (r'.intentional_silence ≡ false)
    × (r'.end_of_talkspurt_seq ≡ none)
    × (r'.resumed_packet_count ≡ 1)
    × (is_waiting whole jitter r' ≡ true)
unfolding Receiver.newer_than_end sequence_is_newer contains
media_after_end_resumes_example =
    media_after_end_resumes whole jitter 5 silent (packet 12 11_520 0 (9 ∷ [])) (at 0) 0 refl refl
      (record { has_media = refl; no_end = refl }) refl

-- The first packet of the talkspurt after the silence is in.
abbrev resumed : VoiceReceiver whole jitter
resumed = record played { resuming_talkspurt = true; resumed_packet_count = 1 }

second_packet_plays_example :
    let r' =
      (push_packet_with_now_mono whole jitter 5 resumed (packet 11 10_560 0 (9 ∷ [])) (at 0) 0).0 in
    (is_waiting whole jitter r' ≡ false)
    × (pull_frame whole jitter r' 3 ≡ pull_decoded whole jitter r' 3)
    × ((pull_frame whole jitter r' 3).0.inner ≡ (jitter.get_audio r'.inner).0)
unfolding Receiver.opens_talkspurt contains
second_packet_plays_example =
    second_packet_plays whole jitter 5 resumed (packet 11 10_560 0 (9 ∷ [])) (at 0) 0 3 refl
      (record { has_media = refl; no_end = refl }) refl refl refl refl refl

abbrev fixture : List ℕ
fixture = replicate 960 1

abbrev sent_packets : List VoicePacket
sent_packets = packet 0 0 1 (1 ∷ 2 ∷ 3 ∷ []) ∷ []
