-- ===== src/Coordination/ConsumerGroup/Stall.antt =====
-- What a repeated message does to the buffer: `_flush_buffer` stops at a number that is not the next
-- one, and a second copy of a number is never the next one.
use census_konantgit_sys_p2p.Prelude.{
  ℕ, ◌+◌, ◌≤◌, ◌<◌, ◌≡◌, refl, List, String, length, ◌∷◌, Bool-cases, ◌==◌, if◌then◌else◌, [],
  arith, inl, false, ltb, inr, true, some,
}
use census_konantgit_sys_p2p.Coordination.ConsumerGroup.Lane.{
  drain, arrive_all, arrive, Lane, on_messages-Ends,
}
use census_konantgit_sys_p2p.Coordination.ConsumerGroup.{
  pending_count, Message, ConsumerGroup, get_offset, on_messages,
}
use census_konantgit_sys_p2p.Coordination.ConsumerGroup.Sorting.{place}
use census_konantgit_sys_p2p.Coordination.ConsumerGroup.Ordering.{IsIdle, start_lane, start-Shows}
use census_konantgit_sys_p2p.Dict.{get_or, lookup, get_or_of_lookup}

module _ {P : Type 0} where
  -- How often a number occurs.
  abbrev pub copies : ℕ → List (Message P) → ℕ
  copies s [] = 0
  copies s (m ∷ ms) = (if m.seq == s then 1 else 0) + copies s ms

  copies-place :
      (s : ℕ) (m : Message P) (ms : List (Message P)) → copies s (place m ms) ≡ copies s (m ∷ ms)
  unfolding place
  copies-place s m [] = refl
  copies-place s m (n ∷ ns) = ground (arith, copies-place s m ns)

  copies-le-length : (s : ℕ) (ms : List (Message P)) → copies s ms ≤ length ms
  copies-le-length s [] = omega arith
  copies-le-length s (m ∷ ms) = ground (arith, copies-le-length s ms)

  -- Two copies wait for their turn, or their turn is over and one of them is still there.
  abbrev Blocked : ℕ → ℕ → List (Message P) → Type 0
  Blocked s offset buffer = (1 ≤ copies s buffer) × (offset < s → 2 ≤ copies s buffer)

  drain-Blocked :
      (s : ℕ) (ms : List (Message P)) (l : Lane P)
      → Blocked s l.offset ms
      → Blocked s (drain ms l).offset (drain ms l).buffer
  unfolding drain
  drain-Blocked s [] l h = absurd (omega (arith, h.0))
  drain-Blocked s (m ∷ ms) l h = elim (Bool-cases (m.seq == l.offset + 1)) [
    | inl e ↦ rw e (drain-Blocked s ms _ (ground arith, λ lt. ground arith))
    | inr e ↦ rw e h
  ]

  arrive-Blocked :
      (s : ℕ) (m : Message P) (l : Lane P)
      → Blocked s l.offset l.buffer
      → Blocked s (arrive m l).offset (arrive m l).buffer
  unfolding arrive
  arrive-Blocked s m l h = elim (Bool-cases (m.seq == l.offset + 1)) [
    | inl e ↦ rw e (drain-Blocked s l.buffer _ (h.0, λ lt. h.1 (ground arith)))
    | inr e ↦ rw e (elim (Bool-cases (ltb (l.offset + 1) m.seq)) [
      | inl ahead ↦ rw ahead (
        ground (arith, copies-place s m l.buffer),
        λ lt. ground (arith, copies-place s m l.buffer, h.1 lt),
      )
      | inr old ↦ rw old h
    ])
  ]

  arrive_all-Blocked :
      (s : ℕ) (ms : List (Message P)) (l : Lane P)
      → Blocked s l.offset l.buffer
      → Blocked s (arrive_all ms l).offset (arrive_all ms l).buffer
  unfolding arrive_all
  arrive_all-Blocked s [] l h = h
  arrive_all-Blocked s (m ∷ ms) l h = arrive_all-Blocked s ms (arrive m l) (arrive-Blocked s m l h)

  -- The lane after two copies of a number that is ahead.
  twice-Blocked :
      (m n : Message P) (l : Lane P)
      → l.offset + 1 < m.seq
      → n.seq ≡ m.seq
      → Blocked m.seq (arrive n (arrive m l)).offset (arrive n (arrive m l)).buffer
  unfolding arrive
  twice-Blocked m n l h e =
      let far_m : (m.seq == l.offset + 1) ≡ false = ground arith in
      let far_n : (n.seq == l.offset + 1) ≡ false = ground arith in
      let ahead_m : ltb (l.offset + 1) m.seq ≡ true = ground arith in
      let ahead_n : ltb (l.offset + 1) n.seq ≡ true = ground arith in
      rw far_m (
        rw ahead_m (
          rw far_n (
            rw ahead_n (
              ground
                  (arith, copies-place m.seq n (place m l.buffer), copies-place m.seq m l.buffer),
              λ lt.
                  ground
                    (arith, copies-place m.seq n (place m l.buffer), copies-place m.seq m l.buffer),
            ))))

module _ {P W : Type 0} where
  -- From an idle group, once a message that is ahead of the next number has come twice, the buffer of its topic is never empty again, whatever messages of the topic follow.
  repeat_ahead_blocks :
      (topic : String) (m n : Message P) (ms : List (Message P)) (g : ConsumerGroup P W) (w : W)
      → IsIdle topic g
      → get_offset topic g + 1 < m.seq
      → n.seq ≡ m.seq
      → 0 < pending_count topic (on_messages topic (m ∷ n ∷ ms) g w).1
  unfolding pending_count
  repeat_ahead_blocks topic m n ms g w idle h e =
      let ends =
        on_messages-Ends topic (get_or topic [] g.topics) w (m ∷ n ∷ ms) g w (start_lane topic g)
          (start-Shows topic g w idle) tt in
      let l = arrive_all ms (arrive n (arrive m (start_lane topic g))) in
      let blocked =
        arrive_all-Blocked m.seq ms (arrive n (arrive m (start_lane topic g)))
          (twice-Blocked m n (start_lane topic g) h e) in
      let buffer : lookup topic (on_messages topic (m ∷ n ∷ ms) g w).1.pending ≡ some l.buffer =
        unfold arrive_all in ends.1.buffer in
      rw (get_or_of_lookup topic l.buffer [] _ buffer)
        (omega (arith, blocked.0, copies-le-length m.seq l.buffer))
