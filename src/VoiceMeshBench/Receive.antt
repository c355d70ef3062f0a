-- ===== src/VoiceMeshBench/Receive.antt =====
-- voice-mesh-bench/src/main.rs: `drain_received`, how a listener takes the datagrams that its readers
-- put into its channel. The tables of a listener have a row for each participant; its plain counters
-- stay below their bounds.
pub mod Account
use Prim.Native.String.{String}
use godot_network_audio.Common.{
  ℕ, ◌+◌, ◌-◌, ◌==◌, Bool, true, false, not, ◌&&◌, ◌||◌, Option, none, some, List, [], ◌∷◌, length,
  drop, is_empty, if◌then◌else◌, ltb, max,
}
use godot_network_audio.VoiceCore.Error.{Error, Result, ok, err}
use godot_network_audio.VoiceCore.Float.{Floats}
use godot_network_audio.VoiceCore.Packet.{
  VoicePacket, decode_from_bytes, contains, start_of_talkspurt,
}
use godot_network_audio.VoiceCore.Receiver
use godot_network_audio.VoiceCore.Receiver.{VoiceReceiver, push_packet_with_now_mono}
use godot_network_audio.VoiceCore.Receiver.Jitter.{NetEq}
use godot_network_audio.VoiceMeshBench.Schedule.{listener_interested, stress_active}
use godot_network_audio.VoiceMeshBench.Samples.{MetricSamples, push}
use godot_network_audio.VoiceMeshBench.Arguments.{Doubles, Config, ReceiverPolicy, retire, pool}
use godot_network_audio.VoiceMeshBench.Arguments.Checks.{active}
use godot_network_audio.VoiceMeshBench.Impairment.{ImpairmentRouteState, should_drop}
use godot_network_audio.VoiceMeshBench.Relay.{u64_at, envelope_header_len}

pub record ReceivedDatagram : Type 0 where
  pub speaker : ℕ
  pub bytes : List ℕ
  pub received_at_us : ℕ

-- The counters of a run that draining changes.
pub record RunCounters : Type 0 where
  pub received_datagrams : ℕ
  pub received_bytes : ℕ
  pub accepted_datagrams : ℕ
  pub outside_interest_datagrams : ℕ
  pub malformed_datagrams : ℕ
  pub media_impairment_attempted_datagrams : ℕ
  pub media_impairment_delivered_datagrams : ℕ
  pub media_impairment_dropped_datagrams : ℕ
  pub latencies_us : MetricSamples
  pub queue_delays_us : MetricSamples
  pub stress_queue_delays_us : MetricSamples
  pub interest_entry_to_first_media_us : MetricSamples
  pub affected_route_max_transport_gap_us : ℕ
  pub unaffected_route_max_transport_gap_us : ℕ

-- How draining ends: the channel is empty, a speaker has no row, or an error of voice-core.
pub data Drained : Type 0 where
  emptied : Drained
  outside_table : String → Drained
  failed : Error → Drained

abbrev pub is_pool : ReceiverPolicy → Bool
is_pool retire = false
is_pool pool = true

-- A row of a table is written.
abbrev pub set_row {ℓ} : {A : Type ℓ} → ℕ → A → (ℕ → A) → ℕ → A
set_row row a table = λ k. if k == row then a else table k

module _ (f : Floats) (d : Doubles f) (n : NetEq f.F32) where
  open n use {Instant}

  pub record ReceiverSlot : Type 0 where
    pub receiver : VoiceReceiver f n
    pub pending_talkspurt_start_us : Option ℕ
    pub reported_concealed_samples : ℕ
    pub reported_concealment_events : ℕ
    pub reported_silent_concealed_samples : ℕ
    pub reported_late_packets_discarded : ℕ
    pub reported_inserted_samples_for_deceleration : ℕ
    pub reported_removed_samples_for_acceleration : ℕ
    pub reported_error : Bool
    pub target_delay_ge_100_ms_continuous_ticks : ℕ
    pub target_delay_ge_150_ms_continuous_ticks : ℕ

  abbrev pub fresh_slot : VoiceReceiver f n → ReceiverSlot
  fresh_slot receiver = record {
    receiver = receiver;
    pending_talkspurt_start_us = none;
    reported_concealed_samples = 0;
    reported_concealment_events = 0;
    reported_silent_concealed_samples = 0;
    reported_late_packets_discarded = 0;
    reported_inserted_samples_for_deceleration = 0;
    reported_removed_samples_for_acceleration = 0;
    reported_error = false;
    target_delay_ge_100_ms_continuous_ticks = 0;
    target_delay_ge_150_ms_continuous_ticks = 0;
  }

  abbrev pub after_new : Result (VoiceReceiver f n) → Result ReceiverSlot
  after_new (ok receiver) = ok (fresh_slot receiver)
  after_new (err e) = err e

  pub new_receiver_slot : Result ReceiverSlot
  new_receiver_slot = after_new (Receiver.new f n 48_000)

  -- The state of a listener that draining changes.
  pub record Listener : Type 0 where
    pub receivers : ℕ → Option ReceiverSlot
    pub interest_started_us : ℕ → Option ℕ
    pub counters : RunCounters
    pub receiver_creations : ℕ
    pub receiver_reuses : ℕ
    pub receiver_pool : List ReceiverSlot
    pub impairment_routes : ℕ → ImpairmentRouteState
    pub last_transport_received_us : ℕ → Option ℕ

  pub route_affected_by_churn : ℕ → ℕ → Config f d → Bool
  route_affected_by_churn listener speaker c =
      not (speaker == listener)
      && (active c.churn_profile
          && ((listener == c.churn_participant) || (speaker == c.churn_participant)))

  -- The time since the route's last datagram, if there was one.
  abbrev pub note_gap : Bool → ℕ → Option ℕ → RunCounters → RunCounters
  note_gap affected received_at none k = k
  note_gap true received_at (some previous) k = record k {
    affected_route_max_transport_gap_us =
        max k.affected_route_max_transport_gap_us (received_at - previous);
  }
  note_gap false received_at (some previous) k = record k {
    unaffected_route_max_transport_gap_us =
        max k.unaffected_route_max_transport_gap_us (received_at - previous);
  }

  -- The counters and the gap table once a datagram of a row was taken at `processed_at`.
  pub noted : ℕ → Config f d → ReceivedDatagram → ℕ → Listener → Listener
  noted listener c g processed_at s =
      let k =
        note_gap (route_affected_by_churn listener g.speaker c) g.received_at_us
          (s.last_transport_received_us g.speaker) s.counters in
      record s {
        last_transport_received_us =
            set_row g.speaker (some g.received_at_us) s.last_transport_received_us;
        counters = record k {
          queue_delays_us = push k.queue_delays_us (processed_at - g.received_at_us);
        };
      }

  -- The slot of a speaker, from its row, the pool or anew.
  pub acquire : Config f d → Option ReceiverSlot → Listener → Listener × Result ReceiverSlot
  acquire c (some slot) s = (s, ok slot)
  acquire c none s =
      let made : Listener × Result ReceiverSlot = elim new_receiver_slot [
        | ok slot ↦ (record s { receiver_creations = s.receiver_creations + 1 }, ok slot)
        | err e ↦ (s, err e)
      ] in
      if is_pool c.receiver_policy
      then elim s.receiver_pool [
        | [] ↦ made
        | slot ∷ rest ↦
            (record s { receiver_pool = rest; receiver_reuses = s.receiver_reuses + 1 }, ok slot)
      ]
      else made

  -- The first media after a speaker came into interest.
  pub note_first_media : ReceivedDatagram → VoicePacket → Listener → Listener
  note_first_media g packet s =
      if is_empty packet.payload then s else elim (s.interest_started_us g.speaker) [
        | none ↦ s
        | some start ↦ record s {
          interest_started_us = set_row g.speaker none s.interest_started_us;
          counters = record s.counters {
            interest_entry_to_first_media_us =
                push s.counters.interest_entry_to_first_media_us (g.received_at_us - start);
          };
        }
      ]

  abbrev pub end_of : Result (Unit {0}) → Drained
  end_of (ok _) = emptied
  end_of (err e) = failed e

  -- The packet goes to the receiver; `now` is what `Instant::now()` returns there.
  abbrev pub deliver :
      Instant
      → ReceivedDatagram
      → ℕ
      → VoicePacket
      → Listener × Result ReceiverSlot
      → Listener × Drained
  deliver now g processed_at packet (s, err e) = (s, failed e)
  deliver now g processed_at packet (s, ok slot) =
      let s' = note_first_media g packet s in
      let (receiver, result) =
        push_packet_with_now_mono f n now slot.receiver packet
          (record { received_at_mono_us = g.received_at_us }) processed_at in
      let slot' : ReceiverSlot = record slot {
        receiver = receiver;
        pending_talkspurt_start_us =
            if contains packet.flags start_of_talkspurt
            then some (u64_at g.bytes 0)
            else slot.pending_talkspurt_start_us;
      } in
      (record s' { receivers = set_row g.speaker (some slot') s'.receivers }, end_of result)

  -- A packet that was read; the frame of the run and the frame of the datagram must both be of
  -- interest.
  pub take_packet :
      ℕ
      → Config f d
      → ℕ
      → Instant
      → ReceivedDatagram
      → ℕ
      → VoicePacket
      → Listener
      → Listener × Drained
  take_packet listener c current now g processed_at packet s =
      let k = s.counters in
      if not (listener_interested c.schedule (u64_at g.bytes 8) g.speaker listener)
        || not (listener_interested c.schedule current g.speaker listener)
      then (
        record s {
          counters = record k { outside_interest_datagrams = k.outside_interest_datagrams + 1 };
        },
        emptied,
      )
      else (let s' : Listener = record s {
        counters = record k { accepted_datagrams = k.accepted_datagrams + 1 };
      } in
          deliver now g processed_at packet (acquire c (s'.receivers g.speaker) s'))

  abbrev pub malformed : Listener → Listener
  malformed s = record s {
    counters = record s.counters { malformed_datagrams = s.counters.malformed_datagrams + 1 };
  }

  -- The packet as it was read, or the datagram that holds none.
  abbrev pub take_read :
      ℕ
      → Config f d
      → ℕ
      → Instant
      → ReceivedDatagram
      → ℕ
      → Result VoicePacket
      → Listener
      → Listener × Drained
  take_read listener c current now g processed_at (err _) s = (malformed s, emptied)
  take_read listener c current now g processed_at (ok packet) s =
      take_packet listener c current now g processed_at packet s

  -- A datagram with an envelope, after the impairment let it through.
  pub let_through :
      ℕ → Config f d → ℕ → Instant → ReceivedDatagram → ℕ → Listener → Listener × Drained
  let_through listener c current now g processed_at s =
      let k = s.counters in
      let s' : Listener = record s {
        counters = record k {
          media_impairment_delivered_datagrams = k.media_impairment_delivered_datagrams + 1;
          stress_queue_delays_us =
              if stress_active c.schedule (u64_at g.bytes 8)
              then push k.stress_queue_delays_us (processed_at - g.received_at_us)
              else k.stress_queue_delays_us;
          latencies_us = push k.latencies_us (g.received_at_us - u64_at g.bytes 0);
        };
      } in
      take_read listener c current now g processed_at
        (decode_from_bytes (drop envelope_header_len g.bytes)) s'

  -- The impairment of the route decides.
  pub impaired : ℕ → Config f d → ℕ → Instant → ReceivedDatagram → ℕ → Listener → Listener × Drained
  impaired listener c current now g processed_at s =
      let (route, dropped) = should_drop f d c (s.impairment_routes g.speaker) (u64_at g.bytes 8) in
      let k : RunCounters = record s.counters {
        media_impairment_attempted_datagrams = s.counters.media_impairment_attempted_datagrams + 1;
      } in
      let s' : Listener = record s {
        impairment_routes = set_row g.speaker route s.impairment_routes;
        counters = k;
      } in
      if dropped
      then (
        record s' {
          counters = record k {
            media_impairment_dropped_datagrams = k.media_impairment_dropped_datagrams + 1;
          };
        },
        emptied,
      )
      else let_through listener c current now g processed_at s'

  -- One turn of the loop: a datagram, when it is processed, and the clock of its receiver.
  pub take_datagram :
      ℕ → Config f d → ℕ → ReceivedDatagram × ℕ × Instant → Listener → Listener × Drained
  take_datagram listener c current (g, processed_at, now) s =
      let s1 : Listener = record s {
        counters = record s.counters {
          received_datagrams = s.counters.received_datagrams + 1;
          received_bytes = s.counters.received_bytes + length g.bytes;
        };
      } in
      if not (ltb g.speaker c.schedule.participants)
      then (s1, outside_table "received speaker outside transport gap table")
      else (let s2 = noted listener c g processed_at s1 in
          if ltb (length g.bytes) envelope_header_len
          then (malformed s2, emptied)
          else impaired listener c current now g processed_at s2)

  -- The rest of the loop is run where the turn did not return an error.
  abbrev pub go_on : Listener → Drained → Listener × Drained → Listener × Drained
  go_on s emptied rest = rest
  go_on s (outside_table reason) rest = (s, outside_table reason)
  go_on s (failed e) rest = (s, failed e)

  -- The loop, over the datagrams that are in the channel when they are asked for.
  pub drain_received :
      ℕ → Config f d → ℕ → List (ReceivedDatagram × ℕ × Instant) → Listener → Listener × Drained
  drain_received listener c current [] s = (s, emptied)
  drain_received listener c current (g ∷ gs) s =
      let (s', ended) = take_datagram listener c current g s in
      go_on s' ended (drain_received listener c current gs s')
