-- ===== src/IrohSidecar/Service/Census.antt =====
-- How many peers the map of iroh-sidecar/src/service.rs holds, as a counter tells that goes up and
-- down with the events.
use godot_network_audio.Common.{
  ℕ, ◌+◌, ◌≡◌, refl, ap, sym, ◌∙◌, subst, ℤ, pos, ◌+ℤ◌, ◌-ℤ◌, Bool, true, false, ◌&&◌, ◌||◌, not,
  List, [], ◌∷◌, ◌++◌, some, if◌then◌else◌, arith, Bool-cases, inl, inr, append_cancel_left,
}
use godot_network_audio.Common.Keys.{is_same_refl}
use godot_network_audio.IrohSidecar.Service.{
  Iroh, EndpointId, VoiceEvent, SharedState, peer_connected, peer_replaced, peer_disconnected,
  packet_received,
}
use godot_network_audio.IrohSidecar.Service.Events.{Lives, over, next, after, is_here, Mirrors}

module _ (i : Iroh) where
  open i use {ids}

  abbrev pub is_in : List (EndpointId i) → EndpointId i → Bool
  is_in [] peer = false
  is_in (p ∷ ps) peer = ids.is_same p peer || is_in ps peer

  abbrev pub is_distinct : List (EndpointId i) → Bool
  is_distinct [] = true
  is_distinct (p ∷ ps) = not (is_in ps p) && is_distinct ps

  -- How many of the peers are connected.
  abbrev pub census : List (EndpointId i) → (EndpointId i → Bool) → ℕ
  census [] here = 0
  census (p ∷ ps) here = (if here p then 1 else 0) + census ps here

  -- Every event is about one of the peers or a packet.
  abbrev pub is_covered : List (EndpointId i) → List (VoiceEvent i) → Bool
  is_covered peers [] = true
  is_covered peers (peer_connected p ∷ es) = is_in peers p && is_covered peers es
  is_covered peers (peer_replaced p ∷ es) = is_in peers p && is_covered peers es
  is_covered peers (peer_disconnected p ∷ es) = is_in peers p && is_covered peers es
  is_covered peers (packet_received p bytes at ∷ es) = is_covered peers es

  -- A counter that goes up when a peer connects and down when one disconnects.
  abbrev pub tally : ℤ → List (VoiceEvent i) → ℤ
  tally count [] = count
  tally count (peer_connected p ∷ es) = tally (count +ℤ pos 1) es
  tally count (peer_replaced p ∷ es) = tally count es
  tally count (peer_disconnected p ∷ es) = tally (count -ℤ pos 1) es
  tally count (packet_received p bytes at ∷ es) = tally count es

  abbrev put : EndpointId i → Bool → (EndpointId i → Bool) → EndpointId i → Bool
  put p value here peer = if ids.is_same p peer then value else here peer

  is_in_same :
      (ps : List (EndpointId i)) (p q : EndpointId i)
      → ids.is_same p q ≡ true
      → is_in ps p ≡ is_in ps q
  is_in_same ps p q same = ap (is_in ps) ((ids.is_same_iff p q).0 same)

  here_same :
      (here : EndpointId i → Bool) (p q : EndpointId i) → ids.is_same p q ≡ true → here p ≡ here q
  here_same here p q same = ap here ((ids.is_same_iff p q).0 same)

  is_same_comm : (p q : EndpointId i) → ids.is_same p q ≡ true → ids.is_same q p ≡ true
  is_same_comm p q same = (ids.is_same_iff q p).1 (sym ((ids.is_same_iff p q).0 same))

  census-put_other :
      (ps : List (EndpointId i)) (p : EndpointId i) (value : Bool) (here : EndpointId i → Bool)
      → is_in ps p ≡ false
      → census ps (put p value here) ≡ census ps here
  census-put_other [] p value here h = refl
  census-put_other (q ∷ qs) p value here h =
      ground (arith, census-put_other qs p value here (ground arith), is_same_comm p q)

  census-put :
      (ps : List (EndpointId i)) (p : EndpointId i) (value : Bool) (here : EndpointId i → Bool)
      → is_distinct ps ≡ true
      → is_in ps p ≡ true
      → census ps (put p value here) + (if here p then 1 else 0)
        ≡ census ps here + (if value then 1 else 0)
  census-put [] p value here d h = absurd (ground arith)
  census-put (q ∷ qs) p value here d h = elim (Bool-cases (ids.is_same q p)) [
    | inl same ↦ ground (
      arith,
      same,
      census-put_other qs p value here,
      is_in_same qs q p,
      here_same here q p,
      is_same_comm q p,
    )
    | inr other ↦
        ground
          (arith, other, census-put qs p value here (ground arith) (ground arith), is_same_comm p q)
  ]

  Lives-next :
      {peer : EndpointId i} {b d : Bool} {e : VoiceEvent i} {es : List (VoiceEvent i)}
      → Lives i peer b (e ∷ es) d
      → (c : Bool) × (after i peer b e ≡ some c) × Lives i peer c es d
  Lives-next (next {c} h l) = (c, h, l)

  census-same :
      (ps : List (EndpointId i)) (a b : EndpointId i → Bool)
      → ((p : EndpointId i) → a p ≡ b p)
      → census ps a ≡ census ps b
  census-same [] a b h = refl
  census-same (p ∷ ps) a b h = ground (arith, h p, census-same ps a b h)

  Lives-nil : {peer : EndpointId i} {b d : Bool} → Lives i peer b [] d → b ≡ d
  Lives-nil over = refl

  -- Who is there after an event.
  abbrev then_here : VoiceEvent i → (EndpointId i → Bool) → EndpointId i → Bool
  then_here (peer_connected p) here = put p true here
  then_here (peer_replaced p) here = here
  then_here (peer_disconnected p) here = put p false here
  then_here (packet_received p bytes at) here = here

  then_lem :
      (e : VoiceEvent i) (here : EndpointId i → Bool) (q : EndpointId i) (c : Bool)
      → after i q (here q) e ≡ some c
      → c ≡ then_here e here q
  then_lem (peer_connected p) here q c h = ground (arith, h)
  then_lem (peer_replaced p) here q c h = ground (arith, h)
  then_lem (peer_disconnected p) here q c h = ground (arith, h)
  then_lem (packet_received p bytes at) here q c h = ground (arith, h)

  Lives-on :
      (e : VoiceEvent i) (es : List (VoiceEvent i)) (here there : EndpointId i → Bool)
      (q : EndpointId i)
      → Lives i q (here q) (e ∷ es) (there q)
      → Lives i q (then_here e here q) es (there q)
  Lives-on e es here there q l =
      let (c, h, rest) = Lives-next l in
      subst (λ b. Lives i q b es (there q)) (then_lem e here q c h) rest

  was_absent : (p : EndpointId i) (b c : Bool) → after i p b (peer_connected p) ≡ some c → b ≡ false
  was_absent p b c h = ground (arith, h, is_same_refl ids p)

  was_present :
      (p : EndpointId i) (b c : Bool) → after i p b (peer_disconnected p) ≡ some c → b ≡ true
  was_present p b c h = ground (arith, h, is_same_refl ids p)

  up : (m n : ℕ) → n ≡ m + 1 → pos m +ℤ pos 1 ≡ pos n
  unfolding ◌+ℤ◌
  up m n e = ground (arith, e)

  down : (m n : ℕ) → n + 1 ≡ m → pos m -ℤ pos 1 ≡ pos n
  unfolding ◌-ℤ◌
  down m n e = ground (arith, e)

  tally_lem :
      (peers : List (EndpointId i)) (es : List (VoiceEvent i)) (here there : EndpointId i → Bool)
      → is_distinct peers ≡ true
      → is_covered peers es ≡ true
      → ((q : EndpointId i) → Lives i q (here q) es (there q))
      → tally (pos (census peers here)) es ≡ pos (census peers there)
  tally_lem peers [] here there d c l = ap pos (census-same peers here there (λ p. Lives-nil (l p)))
  tally_lem peers (peer_connected p ∷ es) here there d c l =
      let here' = put p true here in
      let (b, h, _) = Lives-next (l p) in
      let more : pos (census peers here) +ℤ pos 1 ≡ pos (census peers here') =
        up (census peers here) (census peers here') (
          ground
            (arith, census-put peers p true here d (ground arith), was_absent p (here p) b h)) in
      ap (λ n. tally n es) more
      ∙ tally_lem peers es here' there d (ground arith)
          (λ q. Lives-on (peer_connected p) es here there q (l q))
  tally_lem peers (peer_replaced p ∷ es) here there d c l =
      tally_lem peers es here there d (ground arith)
        (λ q. Lives-on (peer_replaced p) es here there q (l q))
  tally_lem peers (peer_disconnected p ∷ es) here there d c l =
      let here' = put p false here in
      let (b, h, _) = Lives-next (l p) in
      let less : pos (census peers here) -ℤ pos 1 ≡ pos (census peers here') =
        down (census peers here) (census peers here') (
          ground
            (arith, census-put peers p false here d (ground arith), was_present p (here p) b h)) in
      ap (λ n. tally n es) less
      ∙ tally_lem peers es here' there d (ground arith)
          (λ q. Lives-on (peer_disconnected p) es here there q (l q))
  tally_lem peers (packet_received p bytes at ∷ es) here there d c l =
      tally_lem peers es here there d (ground arith)
        (λ q. Lives-on (packet_received p bytes at) es here there q (l q))

  -- The counter over events that tell of all changes of the map.
  pub Mirrors-tally :
      (peers : List (EndpointId i)) (s s' : SharedState i) (es : List (VoiceEvent i))
      → is_distinct peers ≡ true
      → is_covered peers es ≡ true
      → Mirrors i s s'
      → s'.events ≡ s.events ++ es
      → tally (pos (census peers (is_here i s))) es ≡ pos (census peers (is_here i s'))
  Mirrors-tally peers s s' es d c mirrors sent =
      let same : mirrors.new ≡ es =
        append_cancel_left s.events mirrors.new es (sym mirrors.events ∙ sent) in
      tally_lem peers es (is_here i s) (is_here i s') d c (λ peer.
        subst (λ new. Lives i peer (is_here i s peer) new (is_here i s' peer)) same
          (mirrors.lives peer))
