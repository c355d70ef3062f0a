-- ===== src/VoiceMeshBench/Relay/Fanout.antt =====
-- How many peers a frame of voice-mesh-bench/src/main.rs is sent to, directly or by the relay.
use Prim.Native.String.{String}
use godot_network_audio.Common.{
  ℕ, zero, suc, ◌+◌, ◌%◌, ◌^◌, ◌<◌, ◌≡◌, ◌==◌, ==_iff, refl, ap, ◌∙◌, inl, inr, Bool, true, false,
  Option, none, some, List, [], ◌∷◌, ◌++◌, ◌&&◌, sym, append-nil, append_assoc, if◌then◌else◌,
  length, drop, ltb, arith, Bool-cases,
}
use godot_network_audio.VoiceCore.Float.{Floats}
use godot_network_audio.VoiceCore.Packet.{VoicePacket, to_bytes}
use godot_network_audio.VoiceMeshBench.Schedule.{game_interest, count_below, listener_interested}
use godot_network_audio.VoiceMeshBench.Schedule.Fanout.{is_group_merge, count-same}
use godot_network_audio.VoiceMeshBench.Arguments.{
  Doubles, Config, Topology, direct, star, sender_filtered, accepted,
}
use godot_network_audio.VoiceMeshBench.Arguments.Parse.{parse}
use godot_network_audio.VoiceMeshBench.Arguments.Audience.{parse_fanout}
use godot_network_audio.VoiceMeshBench.Relay.{
  SendCounters, SfuCounters, envelope, envelope_speaker, u64_at, send, send_all, fan_out,
  time_fanout, is_sent_to, fetch_add, forward_to, forward_all, relay,
}

-- What the relay and the listeners read of an envelope.
pub record IsEnvelope (sent_at_us frame_index speaker : ℕ) (packet : VoicePacket) (bytes : List ℕ)
    : Type 0 where
  pub sent_at : u64_at bytes 0 ≡ sent_at_us
  pub frame : u64_at bytes 8 ≡ frame_index
  pub from : envelope_speaker bytes ≡ some speaker
  pub payload : drop 24 bytes ≡ to_bytes packet
  pub long : ltb (length bytes) 24 ≡ false

pub envelope-IsEnvelope :
    (sent_at_us frame_index speaker : ℕ) (packet : VoicePacket)
    → sent_at_us < 2 ^ 64
    → frame_index < 2 ^ 64
    → speaker < 2 ^ 64
    → IsEnvelope sent_at_us frame_index speaker packet
        (envelope sent_at_us frame_index speaker packet)
unfolding envelope envelope_speaker to_bytes
envelope-IsEnvelope sent_at_us frame_index speaker packet a b c = record {
  sent_at = omega arith;
  frame = omega arith;
  from = ground arith;
  payload = refl;
  long = ground arith;
}

module _ (f : Floats) (d : Doubles f) where
  send_total :
      (stress : Bool) (wire : List ℕ) (peer : ℕ) (slot : Option Bool) (s : SendCounters)
      → (send stress wire peer slot s).sent_datagrams + (send stress wire peer slot s).send_errors
        ≡ s.sent_datagrams + s.send_errors + 1
  unfolding send
  send_total stress wire peer none s = omega arith
  send_total stress wire peer (some true) s = omega arith
  send_total stress wire peer (some false) s = omega arith

  send_all_total :
      (c : Config f d) (stress : Bool) (frame speaker : ℕ) (wire : List ℕ) (slot : ℕ → Option Bool)
      (n : ℕ) (s : SendCounters)
      → let s' = send_all f d c stress frame speaker wire slot n s in
        s'.sent_datagrams + s'.send_errors
        ≡ s.sent_datagrams + s.send_errors + count_below n (is_sent_to f d c frame speaker)
  unfolding send_all
  send_all_total c stress frame speaker wire slot zero s = omega arith
  send_all_total c stress frame speaker wire slot (suc n) s =
      let s' = send_all f d c stress frame speaker wire slot n s in
      elim (Bool-cases (is_sent_to f d c frame speaker n)) [
        | inl wanted ↦ rw wanted (
            omega (
              arith,
              send_total stress wire n (slot n) s',
              send_all_total c stress frame speaker wire slot n s,
            ))
        | inr skipped ↦
            rw skipped (omega (arith, send_all_total c stress frame speaker wire slot n s))
      ]

  forward_total :
      (bytes : List ℕ) (listener : ℕ) (answer : Bool) (s : SfuCounters)
      → let s' = forward_to f d bytes listener answer s in
        (s'.forwarded_datagrams + s'.send_errors) % 2 ^ 64
        ≡ (s.forwarded_datagrams + s.send_errors + 1) % 2 ^ 64
  unfolding forward_to
  forward_total bytes listener true s = omega arith
  forward_total bytes listener false s = omega arith

  forward_all_total :
      (c : Config f d) (frame speaker : ℕ) (bytes : List ℕ) (answers : ℕ → Bool) (n : ℕ)
      (s : SfuCounters)
      → let s' = forward_all f d c frame speaker bytes answers n s in
        (s'.forwarded_datagrams + s'.send_errors) % 2 ^ 64
        ≡ (s.forwarded_datagrams + s.send_errors + count_below n (is_sent_to f d c frame speaker))
          % 2 ^ 64
  unfolding forward_all
  forward_all_total c frame speaker bytes answers zero s = omega arith
  forward_all_total c frame speaker bytes answers (suc n) s =
      let s' = forward_all f d c frame speaker bytes answers n s in
      elim (Bool-cases (is_sent_to f d c frame speaker n)) [
        | inl wanted ↦ rw wanted (
            omega (
              arith,
              forward_total bytes n (answers n) s',
              forward_all_total c frame speaker bytes answers n s,
            ))
        | inr skipped ↦
            rw skipped (omega (arith, forward_all_total c frame speaker bytes answers n s))
      ]

  -- A datagram to those of the first `n` peers that a test picks, in order.
  abbrev pub copies : ℕ → (ℕ → Bool) → List ℕ → List (ℕ × List ℕ)
  copies zero picked bytes = []
  copies (suc n) picked bytes = copies n picked bytes ++ (if picked n then (n, bytes) ∷ [] else [])

  abbrev pub took : Option Bool → Bool
  took none = false
  took (some answer) = answer

  copies-same :
      (n : ℕ) (g h : ℕ → Bool) (bytes : List ℕ)
      → ((l : ℕ) → g l ≡ h l)
      → copies n g bytes ≡ copies n h bytes
  copies-same zero g h bytes e = refl
  copies-same (suc n) g h bytes e = rw (copies-same n g h bytes e, e n) refl

  send-sent :
      (stress : Bool) (wire : List ℕ) (peer : ℕ) (slot : Option Bool) (s : SendCounters)
      → (send stress wire peer slot s).sent
        ≡ s.sent ++ (if took slot then (peer, wire) ∷ [] else [])
  unfolding send
  send-sent stress wire peer none s = sym (append-nil s.sent)
  send-sent stress wire peer (some true) s = refl
  send-sent stress wire peer (some false) s = sym (append-nil s.sent)

  send_all-sent :
      (c : Config f d) (stress : Bool) (frame speaker : ℕ) (wire : List ℕ) (slot : ℕ → Option Bool)
      (n : ℕ) (s : SendCounters)
      → (send_all f d c stress frame speaker wire slot n s).sent
        ≡ s.sent ++ copies n (λ l. is_sent_to f d c frame speaker l && took (slot l)) wire
  unfolding send_all
  send_all-sent c stress frame speaker wire slot zero s = sym (append-nil s.sent)
  send_all-sent c stress frame speaker wire slot (suc n) s =
      let s' = send_all f d c stress frame speaker wire slot n s in
      let before = copies n (λ l. is_sent_to f d c frame speaker l && took (slot l)) wire in
      let rest = send_all-sent c stress frame speaker wire slot n s in
      elim (Bool-cases (is_sent_to f d c frame speaker n)) [
        | inl wanted ↦ rw wanted (
            send-sent stress wire n (slot n) s'
            ∙ ap (λ xs. xs ++ (if took (slot n) then (n, wire) ∷ [] else [])) rest
            ∙ append_assoc s.sent before (if took (slot n) then (n, wire) ∷ [] else []))
        | inr skipped ↦ rw (skipped, append-nil before) rest
      ]

  forward-sent :
      (bytes : List ℕ) (listener : ℕ) (answer : Bool) (s : SfuCounters)
      → (forward_to f d bytes listener answer s).forwarded
        ≡ s.forwarded ++ (if answer then (listener, bytes) ∷ [] else [])
  unfolding forward_to
  forward-sent bytes listener true s = refl
  forward-sent bytes listener false s = sym (append-nil s.forwarded)

  forward_all-sent :
      (c : Config f d) (frame speaker : ℕ) (bytes : List ℕ) (answers : ℕ → Bool) (n : ℕ)
      (s : SfuCounters)
      → (forward_all f d c frame speaker bytes answers n s).forwarded
        ≡ s.forwarded ++ copies n (λ l. is_sent_to f d c frame speaker l && answers l) bytes
  unfolding forward_all
  forward_all-sent c frame speaker bytes answers zero s = sym (append-nil s.forwarded)
  forward_all-sent c frame speaker bytes answers (suc n) s =
      let s' = forward_all f d c frame speaker bytes answers n s in
      let before = copies n (λ l. is_sent_to f d c frame speaker l && answers l) bytes in
      let rest = forward_all-sent c frame speaker bytes answers n s in
      elim (Bool-cases (is_sent_to f d c frame speaker n)) [
        | inl wanted ↦ rw wanted (
            forward-sent bytes n (answers n) s'
            ∙ ap (λ xs. xs ++ (if answers n then (n, bytes) ∷ [] else [])) rest
            ∙ append_assoc s.forwarded before (if answers n then (n, bytes) ∷ [] else []))
        | inr skipped ↦ rw (skipped, append-nil before) rest
      ]

  self_uninterested :
      (c : Config f d) (frame speaker listener : ℕ)
      → (listener == speaker) ≡ true
      → listener_interested c.schedule frame speaker listener ≡ false
  unfolding listener_interested
  self_uninterested c frame speaker listener same =
      let e : listener ≡ speaker = (==_iff listener speaker).0 same in
      let back : (speaker == listener) ≡ true = ground (arith, e) in rw back refl

  -- Where the sender filters, a listener is sent to exactly if it is interested.
  sent_to_lem :
      (c : Config f d) (frame speaker listener : ℕ)
      → c.schedule.scenario ≡ game_interest
      → c.delivery ≡ sender_filtered
      → is_sent_to f d c frame speaker listener
        ≡ listener_interested c.schedule frame speaker listener
  sent_to_lem c frame speaker listener played filtered = elim (Bool-cases (listener == speaker)) [
    | inl same ↦ ground (arith, same, self_uninterested c frame speaker listener same)
    | inr other ↦ ground (arith, other, played, filtered)
  ]

  -- The sends that the fan-out of a packet tries: one to the relay, or one to each listener.
  abbrev pub attempts : Topology → Config f d → ℕ
  attempts star c = 1
  attempts direct c = c.schedule.interest_listeners

  fan_out_total :
      (c : Config f d) (t : Topology)
      → c.topology ≡ t
      → (stress : Bool) (frame speaker : ℕ) (bytes : List ℕ) (slot : ℕ → Option Bool) (span : ℕ)
        (s : SendCounters)
      → count_below c.schedule.participants (is_sent_to f d c frame speaker)
        ≡ c.schedule.interest_listeners
      → let s' = fan_out f d c stress frame speaker bytes slot span s in
        s'.sent_datagrams + s'.send_errors ≡ s.sent_datagrams + s.send_errors + attempts t c
  unfolding fan_out time_fanout
  fan_out_total c star e stress frame speaker bytes slot span s many =
      ground (arith, e, send_total stress bytes speaker (slot speaker) s)
  fan_out_total c direct e stress frame speaker bytes slot span s many =
      ground
        (arith, e, many, send_all_total c stress frame speaker bytes slot c.schedule.participants s)

  relay_total :
      (c : Config f d) (speaker : ℕ) (bytes : List ℕ) (answers : ℕ → Bool) (r : SfuCounters)
      {frame : ℕ}
      → envelope_speaker bytes ≡ some speaker
      → u64_at bytes 8 ≡ frame
      → ltb (length bytes) 24 ≡ false
      → count_below c.schedule.participants (is_sent_to f d c frame speaker)
        ≡ c.schedule.interest_listeners
      → let r' = relay f d c c.schedule.participants speaker bytes answers r in
        (r'.forwarded_datagrams + r'.send_errors) % 2 ^ 64
        ≡ (r.forwarded_datagrams + r.send_errors + c.schedule.interest_listeners) % 2 ^ 64
  unfolding relay
  relay_total c speaker bytes answers r {frame} from read long many =
      let r' : SfuCounters = record r {
        received_datagrams = fetch_add r.received_datagrams 1;
        received_bytes = fetch_add r.received_bytes (length bytes);
      } in
      let clients = c.schedule.participants in
      let goes : relay f d c clients speaker bytes answers r
          ≡ forward_all f d c (u64_at bytes 8) speaker bytes answers clients r' =
        ground (arith, from, long) in
      ap (λ (x : SfuCounters). (x.forwarded_datagrams + x.send_errors) % 2 ^ 64) goes
      ∙ forward_all_total c (u64_at bytes 8) speaker bytes answers clients r'
      ∙ ap (λ (k : ℕ). (r.forwarded_datagrams + r.send_errors + k) % 2 ^ 64)
          (ap (λ (g : ℕ). count_below clients (is_sent_to f d c g speaker)) read ∙ many)

  -- What the fan-out of a packet sends: a copy to the relay, if the slot of the speaker takes it, or
  -- one to each interested listener whose slot takes it.
  abbrev pub copies_of :
      Topology → Config f d → ℕ → ℕ → List ℕ → (ℕ → Option Bool) → List (ℕ × List ℕ)
  copies_of star c frame speaker bytes slot =
      if took (slot speaker) then (speaker, bytes) ∷ [] else []
  copies_of direct c frame speaker bytes slot =
      copies c.schedule.participants
        (λ l. listener_interested c.schedule frame speaker l && took (slot l)) bytes

  fan_out-sent :
      (c : Config f d) (t : Topology)
      → c.topology ≡ t
      → (stress : Bool) (frame speaker : ℕ) (bytes : List ℕ) (slot : ℕ → Option Bool) (span : ℕ)
        (s : SendCounters)
      → ((l : ℕ)
          → is_sent_to f d c frame speaker l ≡ listener_interested c.schedule frame speaker l)
      → (fan_out f d c stress frame speaker bytes slot span s).sent
        ≡ s.sent ++ copies_of t c frame speaker bytes slot
  unfolding fan_out time_fanout
  fan_out-sent c star e stress frame speaker bytes slot span s same =
      rw e (send-sent stress bytes speaker (slot speaker) s)
  fan_out-sent c direct e stress frame speaker bytes slot span s same = rw e (
      send_all-sent c stress frame speaker bytes slot c.schedule.participants s
      ∙ ap (λ xs. s.sent ++ xs)
          (copies-same c.schedule.participants
            (λ l. is_sent_to f d c frame speaker l && took (slot l))
            (λ l. listener_interested c.schedule frame speaker l && took (slot l)) bytes
            (λ l. ap (λ b. b && took (slot l)) (same l))))

  relay-forwarded :
      (c : Config f d) (speaker : ℕ) (bytes : List ℕ) (answers : ℕ → Bool) (r : SfuCounters)
      {frame : ℕ}
      → envelope_speaker bytes ≡ some speaker
      → u64_at bytes 8 ≡ frame
      → ltb (length bytes) 24 ≡ false
      → ((l : ℕ)
          → is_sent_to f d c frame speaker l ≡ listener_interested c.schedule frame speaker l)
      → (relay f d c c.schedule.participants speaker bytes answers r).forwarded
        ≡ r.forwarded
          ++ copies c.schedule.participants
              (λ l. listener_interested c.schedule frame speaker l && answers l)
              bytes
  unfolding relay
  relay-forwarded c speaker bytes answers r {frame} from read long same =
      let r' : SfuCounters = record r {
        received_datagrams = fetch_add r.received_datagrams 1;
        received_bytes = fetch_add r.received_bytes (length bytes);
      } in
      let clients = c.schedule.participants in
      let goes : relay f d c clients speaker bytes answers r
          ≡ forward_all f d c (u64_at bytes 8) speaker bytes answers clients r' =
        ground (arith, from, long) in
      ap (λ (x : SfuCounters). x.forwarded) goes
      ∙ forward_all-sent c (u64_at bytes 8) speaker bytes answers clients r'
      ∙ ap (λ xs. r.forwarded ++ xs)
          (copies-same clients (λ l. is_sent_to f d c (u64_at bytes 8) speaker l && answers l)
            (λ l. listener_interested c.schedule frame speaker l && answers l) bytes
            (λ l.
              ap (λ b. b && answers l)
                (ap (λ (g : ℕ). is_sent_to f d c g speaker l) read ∙ same l)))

  -- With arguments that the benchmark accepts, in the game scenario with filtering senders, except
  -- where groups are merged: the sends of a packet that are tried, those that fail included, are one
  -- for each listener that the configuration says in the direct topology, and one in the star; and
  -- there the relay, which has a client for each participant, tries one for each of those listeners
  -- when it reads the packet's datagram. What is sent and forwarded is one copy of that datagram to
  -- each of those listeners, in order, whose connection takes it, or in the star the one copy to the
  -- relay. The datagram tells the speaker, the frame and the packet.
  pub frame_reaches_audience :
      (available : ℕ) (args : List String) (c : Config f d) (stress : Bool)
      (sent_at frame speaker span : ℕ) (packet : VoicePacket) (slot : ℕ → Option Bool)
      (answers : ℕ → Bool) (s : SendCounters) (r : SfuCounters)
      → parse f d available args ≡ accepted (some c)
      → c.schedule.scenario ≡ game_interest
      → is_group_merge c.schedule.interest_profile ≡ false
      → c.delivery ≡ sender_filtered
      → sent_at < 2 ^ 64
      → frame < 2 ^ 64
      → speaker < 2 ^ 64
      → speaker < c.schedule.participants
      → let bytes = envelope sent_at frame speaker packet in
        let s' = fan_out f d c stress frame speaker bytes slot span s in
        let r' = relay f d c c.schedule.participants speaker bytes answers r in
        IsEnvelope sent_at frame speaker packet bytes
        × (s'.sent_datagrams + s'.send_errors
            ≡ s.sent_datagrams + s.send_errors + attempts c.topology c)
        × ((r'.forwarded_datagrams + r'.send_errors) % 2 ^ 64
            ≡ (r.forwarded_datagrams + r.send_errors + c.schedule.interest_listeners) % 2 ^ 64)
        × (s'.sent ≡ s.sent ++ copies_of c.topology c frame speaker bytes slot)
        × (r'.forwarded
            ≡ r.forwarded
              ++ copies c.schedule.participants
                  (λ l. listener_interested c.schedule frame speaker l && answers l)
                  bytes)
  frame_reaches_audience available args c stress sent_at frame speaker span packet slot answers s r
        h played ungrouped filtered sb fb pb known =
      let bytes = envelope sent_at frame speaker packet in
      let read = envelope-IsEnvelope sent_at frame speaker packet sb fb pb in
      let many : count_below c.schedule.participants (is_sent_to f d c frame speaker)
          ≡ c.schedule.interest_listeners =
        count-same c.schedule.participants (is_sent_to f d c frame speaker)
          (listener_interested c.schedule frame speaker)
          (λ l. sent_to_lem c frame speaker l played filtered)
        ∙ parse_fanout f d available args c frame speaker h played ungrouped known in
      (
        read,
        fan_out_total c c.topology refl stress frame speaker bytes slot span s many,
        relay_total c speaker bytes answers r read.from read.frame read.long many,
        fan_out-sent c c.topology refl stress frame speaker bytes slot span s
            (λ l. sent_to_lem c frame speaker l played filtered),
        relay-forwarded c speaker bytes answers r read.from read.frame read.long
            (λ l. sent_to_lem c frame speaker l played filtered),
      )
