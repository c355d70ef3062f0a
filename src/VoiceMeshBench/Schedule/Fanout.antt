-- ===== src/VoiceMeshBench/Schedule/Fanout.antt =====
-- How many participants listen to a speaker, in voice-mesh-bench/src/main.rs.
use native.Mathlib.Nat.{mod-lt, mod-eq_of_lt, mod-eq-sub-mod}
use godot_network_audio.Common.{
  ℕ, zero, suc, ◌+◌, ◌-◌, ◌%◌, ◌<◌, ◌≤◌, ◌≡◌, ◌==◌, ==_iff, refl, ap, ◌∙◌, Bool, true, false, ◌||◌,
  if◌then◌else◌, ltb, arith, Bool-cases, inl, inr,
}
use godot_network_audio.VoiceMeshBench.Schedule.{
  game_interest, InterestProfile, group_merge, Config, any_below, count_below, rotation, ranked,
  listener_interested,
}

pub count-same :
    (n : ℕ) (g h : ℕ → Bool) → ((l : ℕ) → g l ≡ h l) → count_below n g ≡ count_below n h
count-same zero g h e = refl
count-same (suc n) g h e = ground (arith, e n, count-same n g h e)

-- A number that is not counted yet, outside the range and inside it.
count-beyond :
    (n x : ℕ) (g : ℕ → Bool) → n ≤ x → count_below n (λ l. g l || (x == l)) ≡ count_below n g
count-beyond zero x g h = refl
count-beyond (suc n) x g h = ground (arith, count-beyond n x g (omega arith))

count-more :
    (n x : ℕ) (g : ℕ → Bool)
    → x < n
    → g x ≡ false
    → count_below n (λ l. g l || (x == l)) ≡ count_below n g + 1
count-more zero x g h new = absurd (omega arith)
count-more (suc n) x g h new = elim (Bool-cases (x == n)) [
  | inl last ↦
      let e : x ≡ n = (==_iff x n).0 last in
      ground (arith, count-beyond n x g (omega arith), e, ap g e)
  | inr other ↦ ground (arith, count-more n x g (ground arith) new)
]

any-none :
    (k x : ℕ) (h : ℕ → ℕ)
    → ((r : ℕ) → r < k → (h r == x) ≡ false)
    → any_below k (λ r. h r == x) ≡ false
any-none zero x h none = refl
any-none (suc k) x h none =
    ground (arith, none k (omega arith), any-none k x h (λ r l. none r (omega arith)))

count-none : (n : ℕ) → count_below n (λ l. false) ≡ 0
count-none zero = refl
count-none (suc n) = ground (arith, count-none n)

-- Different numbers below `n` are counted one by one.
count-any :
    (n k : ℕ) (h : ℕ → ℕ)
    → ((r : ℕ) → r < k → h r < n)
    → ((r r' : ℕ) → r < r' → r' < k → (h r == h r') ≡ false)
    → count_below n (λ l. any_below k (λ r. h r == l)) ≡ k
count-any n zero h below apart = count-none n
count-any n (suc k) h below apart =
    let more : count_below n (λ l. any_below k (λ r. h r == l) || (h k == l))
        ≡ count_below n (λ l. any_below k (λ r. h r == l)) + 1 =
      count-more n (h k) (λ l. any_below k (λ r. h r == l)) (below k (omega arith))
        (any-none k (h k) h (λ r l. apart r k l (omega arith))) in
    let rest =
      count-any n k h (λ r l. below r (omega arith)) (λ r r' l m. apart r r' l (omega arith)) in
    omega (arith, more, rest)

wrap : (x m : ℕ) → 0 < m → x < m + m → x % m ≡ (if ltb x m then x else x - m)
wrap x m h l = grind (arith, mod-eq_of_lt, mod-eq-sub-mod)

-- The listeners of different ranks are different, and none is the speaker.
pick : ℕ → ℕ → ℕ → ℕ → ℕ
pick a s t r = (s + (1 + (t + r) % a)) % (a + 1)

pick_lt : (a s t r : ℕ) → pick a s t r < a + 1
unfolding pick
pick_lt a s t r = mod-lt (s + (1 + (t + r) % a)) (omega arith)

pick_other : (a s t r : ℕ) → s < a + 1 → t < a → r < a → (pick a s t r == s) ≡ false
unfolding pick
pick_other a s t r hs ht hr =
    let first = wrap (t + r) a (omega arith) (omega arith) in
    let low : (t + r) % a < a = mod-lt (t + r) (omega arith) in
    let second = wrap (s + (1 + (t + r) % a)) (a + 1) (omega arith) (omega arith) in
    ground (arith, second, low)

pick_apart :
    (a s t r r' : ℕ) → s < a + 1 → t < a → r < r' → r' < a → (pick a s t r == pick a s t r') ≡ false
unfolding pick
pick_apart a s t r r' hs ht hr hr' =
    let first = wrap (t + r) a (omega arith) (omega arith) in
    let first' = wrap (t + r') a (omega arith) (omega arith) in
    let low : (t + r) % a < a = mod-lt (t + r) (omega arith) in
    let low' : (t + r') % a < a = mod-lt (t + r') (omega arith) in
    let second = wrap (s + (1 + (t + r) % a)) (a + 1) (omega arith) (omega arith) in
    let second' = wrap (s + (1 + (t + r') % a)) (a + 1) (omega arith) (omega arith) in
    ground (arith, first, first', low, low', second, second')

rotation_lt :
    (c : Config) (frame speaker : ℕ)
    → 1 < c.participants
    → rotation c frame speaker < c.participants - 1
unfolding rotation
rotation_lt c frame speaker h = grind (arith, mod-lt)

abbrev pub is_group_merge : InterestProfile → Bool
is_group_merge group_merge = true
is_group_merge _ = false

ranked-pick :
    (c : Config) (frame speaker rank : ℕ)
    → 1 < c.participants
    → ranked c frame speaker rank
      ≡ pick (c.participants - 1) speaker (rotation c frame speaker) rank
unfolding pick
ranked-pick c frame speaker rank h =
    let m : ℕ = 1 + (rotation c frame speaker + rank) % (c.participants - 1) in
    ap (λ n. (speaker + m) % n) (omega arith)

module _ (c : Config) (frame speaker : ℕ) (played : c.scenario ≡ game_interest)
    (ungrouped : is_group_merge c.interest_profile ≡ false) (several : 1 < c.participants)
    (fits : c.interest_listeners ≤ c.participants - 1) (known : speaker < c.participants) where
  rank-pick :
      (rank : ℕ)
      → ranked c frame speaker rank
        ≡ pick (c.participants - 1) speaker (rotation c frame speaker) rank
  rank-pick rank = ranked-pick c frame speaker rank several

  turns : rotation c frame speaker < c.participants - 1
  turns = rotation_lt c frame speaker several

  nobody : any_below c.interest_listeners (λ rank. ranked c frame speaker rank == speaker) ≡ false
  nobody = any-none c.interest_listeners speaker (ranked c frame speaker) (λ rank l.
      rw (rank-pick rank) (
        pick_other (c.participants - 1) speaker (rotation c frame speaker) rank (omega arith) turns
          (omega arith)))

  interested_lem :
      (listener : ℕ)
      → listener_interested c frame speaker listener
        ≡ any_below c.interest_listeners (λ rank. ranked c frame speaker rank == listener)
  unfolding listener_interested
  interested_lem listener = elim (Bool-cases (speaker == listener)) [
    | inl self ↦
        let same : speaker ≡ listener = (==_iff speaker listener).0 self in
        ground (
          arith,
          self,
          ap (λ l. any_below c.interest_listeners (λ rank. ranked c frame speaker rank == l)) same,
          nobody,
        )
    | inr other ↦ ground (arith, other, played, ungrouped)
  ]

  -- In the game scenario, except where groups are merged, every speaker has in every frame as many
  -- listeners among the participants as the configuration asks for, if there are so many others.
  pub exact_fanout :
      count_below c.participants (listener_interested c frame speaker) ≡ c.interest_listeners
  exact_fanout =
      count-same c.participants (listener_interested c frame speaker)
        (λ l. any_below c.interest_listeners (λ rank. ranked c frame speaker rank == l))
        interested_lem
      ∙ count-any c.participants c.interest_listeners (ranked c frame speaker)
          (λ r l.
            omega (
              arith,
              rank-pick r,
              pick_lt (c.participants - 1) speaker (rotation c frame speaker) r,
            ))
          (λ r r' l m.
            rw (rank-pick r, rank-pick r')
              (pick_apart (c.participants - 1) speaker (rotation c frame speaker) r r' (omega arith)
                turns l (omega arith)))
