-- ===== src/Coordination/ConsumerGroup/Complete.antt =====
-- Complete delivery: when every number of a range has come once, in whatever order, nothing of it is
-- left in the buffer.
use census_konantgit_sys_p2p.Prelude.{
  ℕ, ◌+◌, ◌-◌, ◌≤◌, ◌<◌, ◌≡◌, refl, List, ◌⊎◌, inl, ◌∷◌, inr, [], Bool-cases, arith, ◌==◌, String,
  sym, ◌++◌, some, ◌∙◌, ap,
}
use census_konantgit_sys_p2p.Coordination.ConsumerGroup.Lane.{
  drain, Lane, arrive, arrive_all, deliver_all, on_messages-Ends,
}
use census_konantgit_sys_p2p.Coordination.ConsumerGroup.Sorting.{place, AtLeast, AtLeast-le}
use census_konantgit_sys_p2p.Coordination.ConsumerGroup.{
  Message, ConsumerGroup, get_offset, on_messages,
}
use census_konantgit_sys_p2p.Coordination.ConsumerGroup.Ordering.{
  IsIdle, Carries, payloads, start_lane, start-Shows, on_messages_in_order,
}
use census_konantgit_sys_p2p.Outcome.{returned}
use census_konantgit_sys_p2p.Dict.{lookup, get_or}
use census_konantgit_sys_p2p.Coordination.ConsumerGroup.Waiting.{
  Disjoint, Absent, IsDistinct, IsWaiting, AtMost, Occurs, arrive-IsWaiting, Has, arrive-Has,
}

module _ {P : Type 0} where
  -- The numbers of a lane's buffer are those it had, and the new one.
  Disjoint-place :
      (m : Message P) (bs ms : List (Message P))
      → Absent m.seq ms
      → Disjoint bs ms
      → Disjoint (place m bs) ms
  unfolding place
  Disjoint-place m [] ms a h = (a, tt)
  Disjoint-place m (b ∷ bs) ms a h = ground (arith, Disjoint-place m bs ms a h.1)

  Disjoint-drain :
      (bs ms : List (Message P)) (l : Lane P) → Disjoint bs ms → Disjoint (drain bs l).buffer ms
  unfolding drain
  Disjoint-drain [] ms l h = tt
  Disjoint-drain (b ∷ bs) ms l h = elim (Bool-cases (b.seq == l.offset + 1)) [
    | inl e ↦ rw e (Disjoint-drain bs ms _ h.1)
    | inr e ↦ rw e h
  ]

  Disjoint-arrive :
      (m : Message P) (ms : List (Message P)) (l : Lane P)
      → Absent m.seq ms
      → Disjoint l.buffer ms
      → Disjoint (arrive m l).buffer ms
  unfolding arrive
  Disjoint-arrive m ms l a h = ground (
    arith,
    Disjoint-place m l.buffer ms a h,
    Disjoint-drain l.buffer ms
        (record { offset = m.seq; buffer = l.buffer; delivered = l.delivered ++ m.payload ∷ [] }) h,
  )

  Disjoint-head :
      (bs ms : List (Message P)) (m : Message P) → Disjoint bs (m ∷ ms) → Absent m.seq bs
  Disjoint-head [] ms m h = tt
  Disjoint-head (b ∷ bs) ms m h = ((λ e. h.0.0 (sym e)), Disjoint-head bs ms m h.1)

  Disjoint-tail : (bs ms : List (Message P)) (m : Message P) → Disjoint bs (m ∷ ms) → Disjoint bs ms
  Disjoint-tail [] ms m h = tt
  Disjoint-tail (b ∷ bs) ms m h = (h.0.1, Disjoint-tail bs ms m h.1)

  arrive_all-IsWaiting :
      (top : ℕ) (ms : List (Message P)) (l : Lane P)
      → AtMost top ms
      → IsDistinct ms
      → Disjoint l.buffer ms
      → IsWaiting top l
      → IsWaiting top (arrive_all ms l)
  unfolding arrive_all
  arrive_all-IsWaiting top [] l t d j h = h
  arrive_all-IsWaiting top (m ∷ ms) l t d j h =
      arrive_all-IsWaiting top ms (arrive m l) t.1 d.1
        (Disjoint-arrive m ms l d.0 (Disjoint-tail l.buffer ms m j))
        (arrive-IsWaiting top m l t.0 (Disjoint-head l.buffer ms m j) h)

  arrive_all-Has :
      (s : ℕ) (ms : List (Message P)) (l : Lane P) → Occurs s ms ⊎ Has l s → Has (arrive_all ms l) s
  unfolding arrive_all
  arrive_all-Has s [] l (inl h) = absurd h
  arrive_all-Has s [] l (inr h) = h
  arrive_all-Has s (m ∷ ms) l (inl (inl e)) =
      arrive_all-Has s ms (arrive m l) (inr (arrive-Has s m l (inl e)))
  arrive_all-Has s (m ∷ ms) l (inl (inr o)) = arrive_all-Has s ms (arrive m l) (inl o)
  arrive_all-Has s (m ∷ ms) l (inr h) =
      arrive_all-Has s ms (arrive m l) (inr (arrive-Has s m l (inr h)))

  not-Occurs : (s : ℕ) (ms : List (Message P)) → AtLeast (s + 1) ms → ¬ Occurs s ms
  not-Occurs s [] h o = o
  not-Occurs s (m ∷ ms) h (inl e) = omega arith
  not-Occurs s (m ∷ ms) h (inr o) = not-Occurs s ms h.1 o

  -- A waiting lane that has every number up to `top` stands at `top` with an empty buffer.
  waiting_done :
      (o top : ℕ) (l : Lane P)
      → IsWaiting top l
      → o ≤ l.offset
      → ((s : ℕ) → o < s → s ≤ top → Has l s)
      → (l.offset ≡ top) × (l.buffer ≡ [])
  waiting_done o top l h p all = (reached, empty l.buffer h.above h.below)
    where
      next : l.offset < top → ⊥
      next lt = elim (all (l.offset + 1) (omega arith) (omega arith)) [
        | inl le ↦ absurd (omega arith)
        | inr occ ↦
            not-Occurs (l.offset + 1) l.buffer
              (AtLeast-le _ (l.offset + 2) l.buffer (omega arith) h.above) occ
      ]

      reached : l.offset ≡ top
      reached = omega (arith, next, h.limit)

      empty : (ms : List (Message P)) → AtLeast (l.offset + 2) ms → AtMost top ms → ms ≡ []
      empty [] a b = refl
      empty (m ∷ ms) a b = absurd (omega (arith, reached))

module _ {P W : Type 0} where
  -- From an idle group, when the messages carry every number from the old offset to `top`, each number once and none above `top`, then in whatever order they come: no exception, the offset ends at `top`, the buffer is empty again, and the subscribers have been handed all the payloads in ascending order.
  pub on_messages_complete :
      (pay : ℕ → P) (topic : String) (top : ℕ) (ms : List (Message P)) (g : ConsumerGroup P W)
      (w : W)
      → IsIdle topic g
      → get_offset topic g ≤ top
      → Carries pay ms
      → IsDistinct ms
      → AtMost top ms
      → ((s : ℕ) → get_offset topic g < s → s ≤ top → Occurs s ms)
      → let (r, g', w') = on_messages topic ms g w in
        (r ≡ returned tt)
        × (get_offset topic g' ≡ top)
        × (lookup topic g'.pending ≡ some [])
        × (w'
            ≡ deliver_all
                (get_or topic [] g.topics)
                (payloads pay (get_offset topic g) (top - get_offset topic g))
                w)
  on_messages_complete pay topic top ms g w idle le c d b all =
      let o = get_offset topic g in
      let l = arrive_all ms (start_lane topic g) in
      let ends =
        on_messages-Ends topic (get_or topic [] g.topics) w ms g w (start_lane topic g)
          (start-Shows topic g w idle) tt in
      let ordered = on_messages_in_order pay topic ms g w idle c in
      let done =
        waiting_done o top l
          (arrive_all-IsWaiting top ms (start_lane topic g) b d tt
            (record { above = tt; strict = tt; below = tt; limit = le }))
          (rw (← ends.1.offset) ordered.1)
          (λ s lo hi. arrive_all-Has s ms (start_lane topic g) (inl (all s lo hi))) in
      let at : get_offset topic (on_messages topic ms g w).1 ≡ top = ends.1.offset ∙ done.0 in
      (ends.0, at, ends.1.buffer ∙ ap some done.1, rw at at ordered.2)
