-- ===== src/VoiceCore/Receiver.antt =====
-- voice-core/src/receiver.rs: the receiver of one remote talker, a state machine around NetEq that
-- tells an intended silence from lost media.
pub mod Jitter
pub mod Sequence
pub mod Talkspurt
pub mod Run
pub mod Resume
pub mod Stats
use Prim.Native.String.{String, ◌++◌ as append_text}
use godot_network_audio.Common.{
  ℕ, ◌+◌, ◌-◌, ◌*◌, ◌^◌, ◌≤◌, Bool, true, false, not, ◌&&◌, ◌||◌, Option, none, some, List, [],
  ◌++◌, length, take, replicate, is_empty, is_some, ltb, leb, ◌==◌, if◌then◌else◌, min,
  wrapping_sub, wrapping_mul, saturating_add,
}
use godot_network_audio.VoiceCore.Decoder
use godot_network_audio.VoiceCore.Error.{
  Result, ok, err, net_eq, Reply, gives, fails, map_net_eq, ◌>>=◌,
}
use godot_network_audio.VoiceCore.Float.{Floats}
use godot_network_audio.VoiceCore.Packet.{
  VoicePacket, PacketArrival, start_of_talkspurt, end_of_talkspurt, contains,
}
use Jitter.{NetEq, NetEqStats, AudioPacket}

abbrev pub payload_type_opus : ℕ
payload_type_opus = 96

abbrev pub ssrc_fixed : ℕ
ssrc_fixed = 0x474e_6175

abbrev pub output_frame_ms : ℕ
output_frame_ms = 10

abbrev pub drain_rounding_tolerance_ms : ℕ
drain_rounding_tolerance_ms = 2

abbrev pub resume_prebuffer_packets : ℕ
resume_prebuffer_packets = 2

abbrev pub opus_packet_samples : ℕ
opus_packet_samples = 960

abbrev pub dtx_min_missing_frames : ℕ
dtx_min_missing_frames = 5

-- Sequence numbers are compared on the circle of 2 ^ 16.
unfoldable pub sequence_is_newer : ℕ → ℕ → Bool
sequence_is_newer sequence reference =
    let distance = wrapping_sub 16 sequence reference in
    not (distance == 0) && ltb distance (2 ^ 15)

module _ (f : Floats) (n : NetEq f.F32) where
  open f use {F32, lit, add}
  open n use {Buffer, Instant}

  pub record VoiceReceiver : Type 0 where
    pub inner : Buffer
    pub sample_rate : ℕ
    pub channels : ℕ
    pub consecutive_failures : ℕ
    pub sticky_error : Option String
    pub pending_silence : Bool
    pub intentional_silence : Bool
    pub end_of_talkspurt_seq : Option ℕ
    pub resuming_talkspurt : Bool
    pub resumed_packet_count : ℕ
    pub last_media_seq : Option ℕ
    pub last_media_timestamp : Option ℕ

  abbrev pub fresh : Buffer → ℕ → VoiceReceiver
  fresh inner sample_rate = record {
    inner = inner;
    sample_rate = sample_rate;
    channels = 1;
    consecutive_failures = 0;
    sticky_error = none;
    pending_silence = false;
    intentional_silence = false;
    end_of_talkspurt_seq = none;
    resuming_talkspurt = false;
    resumed_packet_count = 0;
    last_media_seq = none;
    last_media_timestamp = none;
  }

  -- One channel; the decoder is made for the same rate.
  pub new_with_delay_bounds : ℕ → ℕ → ℕ → Result VoiceReceiver
  unfolding Decoder.new
  new_with_delay_bounds sample_rate min_delay_ms max_delay_ms = do
    inner ← map_net_eq (n.create sample_rate 1 min_delay_ms max_delay_ms)
    decoder ← Decoder.new n.opus sample_rate 1
    ok (fresh (n.register_decoder payload_type_opus decoder inner) sample_rate)

  pub new : ℕ → Result VoiceReceiver
  unfolding new_with_delay_bounds
  new sample_rate = new_with_delay_bounds sample_rate 20 250

  -- `Option::is_none_or` over the last media sequence number.
  newer_than : Option ℕ → ℕ → Bool
  unfolding sequence_is_newer
  newer_than none seq = true
  newer_than (some last) seq = sequence_is_newer seq last

  -- `Option::is_some_and` over the end marker's sequence number.
  unfoldable pub newer_than_end : Option ℕ → ℕ → Bool
  unfolding sequence_is_newer
  newer_than_end none seq = false
  newer_than_end (some last) seq = sequence_is_newer seq last

  unfoldable pub packet_is_newer : VoiceReceiver → VoicePacket → Bool
  unfolding newer_than
  packet_is_newer r p = newer_than r.last_media_seq p.seq

  -- The media clock ran ahead of the sequence numbers by five frames or more.
  dtx_gap : Option ℕ → Option ℕ → VoicePacket → Bool
  dtx_gap (some last_seq) (some last_timestamp) p =
      let sequence_frames = wrapping_sub 16 p.seq last_seq in
      if sequence_frames == 0 || leb (2 ^ 15) sequence_frames
      then false
      else (let expected_samples = wrapping_mul 32 sequence_frames opus_packet_samples in
          let actual_samples = wrapping_sub 32 p.timestamp last_timestamp in
          leb (dtx_min_missing_frames * opus_packet_samples) (actual_samples - expected_samples))
  dtx_gap _ _ p = false

  pub media_timestamp_has_dtx_gap : VoiceReceiver → VoicePacket → Bool
  unfolding dtx_gap
  media_timestamp_has_dtx_gap r p = dtx_gap r.last_media_seq r.last_media_timestamp p

  -- `saturating_add` of a `u32`; the first message is kept.
  pub record_failure : VoiceReceiver → String → VoiceReceiver
  record_failure r message = record r {
    consecutive_failures = saturating_add 32 r.consecutive_failures 1;
    sticky_error = elim r.sticky_error [ none ↦ some message | some m ↦ some m ];
  }

  -- The conditions under which a packet opens a talkspurt anew.
  unfoldable pub opens_talkspurt : VoiceReceiver → VoicePacket → Bool
  unfolding packet_is_newer media_timestamp_has_dtx_gap newer_than_end contains
  opens_talkspurt r p =
      let explicit_start = contains p.flags start_of_talkspurt in
      let newer = packet_is_newer r p in
      let start_after_lost_end = explicit_start && (is_some r.last_media_seq && newer) in
      let timestamp_discontinuity =
        not (is_empty p.payload) && (newer && media_timestamp_has_dtx_gap r p) in
      let implicit_start =
        not (is_empty p.payload) && newer_than_end r.end_of_talkspurt_seq p.seq in
      ((explicit_start || implicit_start) && (r.pending_silence || r.intentional_silence))
      || (start_after_lost_end || timestamp_discontinuity)

  abbrev pub reopened : VoiceReceiver → VoiceReceiver
  reopened r = record r {
    inner = n.flush r.inner;
    pending_silence = false;
    intentional_silence = false;
    end_of_talkspurt_seq = none;
    resuming_talkspurt = true;
    resumed_packet_count = 0;
  }

  -- `instant_for_arrival`, with `Instant::now()` as an argument.
  pub instant_for_arrival : Instant → ℕ → ℕ → Instant
  instant_for_arrival now received_at simulated_now =
      if leb received_at simulated_now
      then elim (n.checked_sub now (simulated_now - received_at)) [ none ↦ now | some t ↦ t ]
      else elim (n.checked_add now (received_at - simulated_now)) [ none ↦ now | some t ↦ t ]

  pub audio_packet : VoiceReceiver → VoicePacket → Instant → AudioPacket Instant
  audio_packet r p arrival = record {
    seq = p.seq;
    timestamp = p.timestamp;
    ssrc = ssrc_fixed;
    payload_type = payload_type_opus;
    payload = p.payload;
    sample_rate = r.sample_rate;
    channels = r.channels;
    duration_ms = 20;
    arrival_time = arrival;
  }

  -- An end marker that is not stale arms the silence.
  pub mark_end : VoiceReceiver → Bool → VoicePacket → VoiceReceiver
  unfolding contains
  mark_end r newer p =
      if newer && contains p.flags end_of_talkspurt
      then record r { pending_silence = true; end_of_talkspurt_seq = some p.seq }
      else r

  pub count_resumed : VoiceReceiver → VoiceReceiver
  count_resumed r =
      if r.resuming_talkspurt
      then record r { resumed_packet_count = saturating_add 32 r.resumed_packet_count 1 }
      else r

  -- What follows a successful `insert_packet`.
  pub inserted : VoiceReceiver → Bool → VoicePacket → VoiceReceiver
  unfolding count_resumed
  inserted r newer p = count_resumed (
      if newer
      then record r { last_media_seq = some p.seq; last_media_timestamp = some p.timestamp }
      else r)

  pub after_insert :
      VoiceReceiver → Bool → VoicePacket → Reply (Unit {0}) → VoiceReceiver × Result (Unit {0})
  unfolding inserted record_failure
  after_insert r newer p (gives _) = (inserted r newer p, ok tt)
  after_insert r newer p (fails e) =
      (record_failure r (append_text "insert_packet: " e), err (net_eq e))

  -- The packet goes to NetEq with the instant of its arrival.
  abbrev pub submit : Instant → VoiceReceiver → VoicePacket → ℕ → ℕ → Buffer × Reply (Unit {0})
  submit now r p received_at simulated_now =
      n.insert_packet (audio_packet r p (instant_for_arrival now received_at simulated_now)) r.inner

  -- The media part of a push.
  pub insert_media :
      Instant → VoiceReceiver → Bool → VoicePacket → ℕ → ℕ → VoiceReceiver × Result (Unit {0})
  insert_media now r newer p received_at simulated_now =
      let (inner, reply) = submit now r p received_at simulated_now in
      after_insert (record r { inner = inner }) newer p reply

  -- The state after the talkspurt markers of a packet were read.
  pub marked : VoiceReceiver → VoicePacket → VoiceReceiver
  unfolding opens_talkspurt mark_end packet_is_newer
  marked r p = mark_end (if opens_talkspurt r p then reopened r else r) (packet_is_newer r p) p

  -- `push_packet_with_simulated_now`; `now` is what `Instant::now()` returns.
  pub push_packet_with_now_mono :
      Instant → VoiceReceiver → VoicePacket → PacketArrival → ℕ → VoiceReceiver × Result (Unit {0})
  push_packet_with_now_mono now r p arrival simulated_now =
      let r' = marked r p in
      if is_empty p.payload
      then (r', ok tt)
      else insert_media now r' (packet_is_newer r p) p arrival.received_at_mono_us simulated_now

  pub push_packet :
      Instant → VoiceReceiver → VoicePacket → PacketArrival → VoiceReceiver × Result (Unit {0})
  unfolding push_packet_with_now_mono
  push_packet now r p arrival =
      push_packet_with_now_mono now r p arrival arrival.received_at_mono_us

  -- After an end marker, a drained buffer turns the pending silence into an intended one.
  pub settle_silence : VoiceReceiver → VoiceReceiver
  settle_silence r =
      let stats = n.get_statistics r.inner in
      if r.pending_silence
        && (leb stats.current_buffer_size_ms (output_frame_ms + drain_rounding_tolerance_ms)
            && (stats.packets_awaiting_decode == 0))
      then record r { pending_silence = false; intentional_silence = true }
      else r

  abbrev pub silence : ℕ → List F32
  silence len = replicate len (lit "0.0")

  -- The frame's samples, cut or padded with zeros to the length of the output.
  abbrev pub fitted : ℕ → List F32 → List F32
  fitted len samples = take len samples ++ silence (len - min len (length samples))

  pub decoded : VoiceReceiver → ℕ → Reply (List F32) → VoiceReceiver × List F32
  unfolding record_failure
  decoded r len (gives samples) = (record r { consecutive_failures = 0 }, fitted len samples)
  decoded r len (fails e) = (record_failure r (append_text "get_audio: " e), silence len)

  pub pull_decoded : VoiceReceiver → ℕ → VoiceReceiver × List F32
  unfolding decoded
  pull_decoded r len =
      let (inner, reply) = n.get_audio r.inner in
      decoded (record r { inner = inner; resuming_talkspurt = false }) len reply

  -- `pull_frame`, by the length of the slice that it fills.
  unfoldable pub pull_frame : VoiceReceiver → ℕ → VoiceReceiver × List F32
  pull_frame r len =
      let r' = settle_silence r in
      if r'.intentional_silence
      then (record r' { consecutive_failures = 0 }, silence len)
      else (if r'.resuming_talkspurt && ltb r'.resumed_packet_count resume_prebuffer_packets
          then (record r' { consecutive_failures = 0 }, silence len)
          else pull_decoded r' len)

  -- The decoders are reset first; the `?` leaves the rest as it was if that fails.
  pub reset_stream : VoiceReceiver → VoiceReceiver × Result (Unit {0})
  reset_stream r =
      let (inner, reply) = n.reset_decoders (n.flush r.inner) in
      elim reply [
        | fails e ↦ (record r { inner = inner }, err (net_eq e))
        | gives _ ↦ (
          record (fresh inner r.sample_rate) {
            channels = r.channels;
            sticky_error = r.sticky_error;
          },
          ok tt,
        )
      ]
