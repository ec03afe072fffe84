-- ===== src/Coordination/ConsumerGroup/Waiting.antt =====
-- The lane of a topic while messages are missing: its buffer is sorted, without repetitions, and every
-- number that came is delivered or buffered.
use census_konantgit_sys_p2p.Prelude.{
  ◌∷◌, [], List, ℕ, arith, ◌+◌, ◌≡◌, ◌≤◌, ◌≢◌, Bool-cases, ◌⊎◌, inl, ◌==◌, inr, ltb,
}
use census_konantgit_sys_p2p.Coordination.ConsumerGroup.{Message}
use census_konantgit_sys_p2p.Coordination.ConsumerGroup.Lane.{Lane, arrive, drain}
use census_konantgit_sys_p2p.Coordination.ConsumerGroup.Sorting.{
  AtLeast, place, AtLeast-place, AtLeast-le,
}

module _ {P : Type 0} where
  -- The number does not occur.
  abbrev pub Absent : ℕ → List (Message P) → Type 0
  Absent s [] = Unit
  Absent s (m ∷ ms) = (m.seq ≢ s) × Absent s ms

  -- No number occurs twice.
  abbrev pub IsDistinct : List (Message P) → Type 0
  IsDistinct [] = Unit
  IsDistinct (m ∷ ms) = Absent m.seq ms × IsDistinct ms

  abbrev pub AtMost : ℕ → List (Message P) → Type 0
  AtMost n [] = Unit
  AtMost n (m ∷ ms) = (m.seq ≤ n) × AtMost n ms

  -- A message of this number is in the list.
  abbrev pub Occurs : ℕ → List (Message P) → Type 0
  Occurs s [] = ⊥
  Occurs s (m ∷ ms) = (m.seq ≡ s) ⊎ Occurs s ms

  -- Ascending with no number twice.
  abbrev pub IsStrict : List (Message P) → Type 0
  IsStrict [] = Unit
  IsStrict (m ∷ ms) = AtLeast (m.seq + 1) ms × IsStrict ms

  -- None of the first list's numbers occurs in the second.
  abbrev pub Disjoint : List (Message P) → List (Message P) → Type 0
  Disjoint [] ms = Unit
  Disjoint (b ∷ bs) ms = Absent b.seq ms × Disjoint bs ms

  -- Received: handed on already, or waiting in the buffer.
  abbrev pub Has : Lane P → ℕ → Type 0
  Has l s = (s ≤ l.offset) ⊎ Occurs s l.buffer

  -- The buffer waits for a number before its first, has no number twice and none above `top`.
  pub record IsWaiting (top : ℕ) (l : Lane P) : Type 0 where
    pub above : AtLeast (l.offset + 2) l.buffer
    pub strict : IsStrict l.buffer
    pub below : AtMost top l.buffer
    pub limit : l.offset ≤ top

  place-IsStrict :
      (m : Message P) (ms : List (Message P))
      → Absent m.seq ms
      → IsStrict ms
      → IsStrict (place m ms)
  unfolding place
  place-IsStrict m [] a h = (tt, tt)
  place-IsStrict m (n ∷ ns) a h = ground (
    arith,
    place-IsStrict m ns a.1 h.1,
    AtLeast-place (n.seq + 1) m ns,
    AtLeast-le (m.seq + 1) (n.seq + 1) ns,
  )

  place-AtMost :
      (top : ℕ) (m : Message P) (ms : List (Message P))
      → m.seq ≤ top
      → AtMost top ms
      → AtMost top (place m ms)
  unfolding place
  place-AtMost top m [] a h = (a, tt)
  place-AtMost top m (n ∷ ns) a h = ground (arith, place-AtMost top m ns a h.1)

  Occurs-place_self :
      (s : ℕ) (m : Message P) (ms : List (Message P)) → m.seq ≡ s → Occurs s (place m ms)
  unfolding place
  Occurs-place_self s m [] e = inl e
  Occurs-place_self s m (n ∷ ns) e = ground (arith, Occurs-place_self s m ns e)

  Occurs-place :
      (s : ℕ) (m : Message P) (ms : List (Message P)) → Occurs s ms → Occurs s (place m ms)
  unfolding place
  Occurs-place s m (n ∷ ns) h = ground (arith, Occurs-place s m ns)
  Occurs-place s m [] h = absurd h

  drain-IsWaiting :
      (top : ℕ) (ms : List (Message P)) (l : Lane P)
      → AtLeast (l.offset + 1) ms
      → IsStrict ms
      → AtMost top ms
      → l.offset ≤ top
      → IsWaiting top (drain ms l)
  unfolding drain
  drain-IsWaiting top [] l a s b t = record { above = tt; strict = tt; below = tt; limit = t }
  drain-IsWaiting top (m ∷ ms) l a s b t = elim (Bool-cases (m.seq == l.offset + 1)) [
    | inl e ↦
        let at : m.seq + 1 ≡ l.offset + 1 + 1 = ground arith in
        rw e (drain-IsWaiting top ms _ (rw at at s.0) s.1 b.1 (ground arith))
    | inr e ↦ rw e (record {
      above = (ground arith, AtLeast-le (l.offset + 2) (m.seq + 1) ms (ground arith) s.0);
      strict = s;
      below = b;
      limit = t;
    })
  ]

  drain-Has :
      (s : ℕ) (ms : List (Message P)) (l : Lane P)
      → (s ≤ l.offset) ⊎ Occurs s ms
      → Has (drain ms l) s
  unfolding drain
  drain-Has s [] l (inl h) = inl h
  drain-Has s [] l (inr h) = absurd h
  drain-Has s (m ∷ ms) l h = elim (Bool-cases (m.seq == l.offset + 1)) [
    | inl e ↦ rw e (drain-Has s ms _ (ground arith))
    | inr e ↦ rw e h
  ]

  pub arrive-IsWaiting :
      (top : ℕ) (m : Message P) (l : Lane P)
      → m.seq ≤ top
      → Absent m.seq l.buffer
      → IsWaiting top l
      → IsWaiting top (arrive m l)
  unfolding arrive
  arrive-IsWaiting top m l t a h = elim (Bool-cases (m.seq == l.offset + 1)) [
    | inl e ↦
        let at : m.seq + 1 ≡ l.offset + 2 = ground arith in
        rw e (drain-IsWaiting top l.buffer _ (rw at h.above) h.strict h.below t)
    | inr e ↦ rw e (elim (Bool-cases (ltb (l.offset + 1) m.seq)) [
      | inl ahead ↦ rw ahead (record {
        above = AtLeast-place (l.offset + 2) m l.buffer (ground arith) h.above;
        strict = place-IsStrict m l.buffer a h.strict;
        below = place-AtMost top m l.buffer t h.below;
        limit = h.limit;
      })
      | inr old ↦ rw old h
    ])
  ]

  pub arrive-Has : (s : ℕ) (m : Message P) (l : Lane P) → (m.seq ≡ s) ⊎ Has l s → Has (arrive m l) s
  unfolding arrive
  arrive-Has s m l h = elim (Bool-cases (m.seq == l.offset + 1)) [
    | inl e ↦ rw e (drain-Has s l.buffer _ (ground arith))
    | inr e ↦ rw e (elim (Bool-cases (ltb (l.offset + 1) m.seq)) [
      | inl ahead ↦ rw ahead (kept h)
      | inr old ↦ rw old (ground arith)
    ])
  ]
    where
      kept : (m.seq ≡ s) ⊎ Has l s → Has (record l { buffer = place m l.buffer }) s
      kept (inl e) = inr (Occurs-place_self s m l.buffer e)
      kept (inr (inl le)) = inl le
      kept (inr (inr o)) = inr (Occurs-place s m l.buffer o)
