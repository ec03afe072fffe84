-- ===== src/Coordination/ConsumerGroup/Sorting.antt =====
-- `sort_by_seq` on the buffers that `on_message` builds: a sorted buffer with one message added.
use census_konantgit_sys_p2p.Prelude.{
  ℕ, ◌≤◌, ◌≡◌, refl, ap, ◌∙◌, List, [], ◌∷◌, ◌++◌, arith, ltb, if◌then◌else◌,
}
use census_konantgit_sys_p2p.Coordination.ConsumerGroup.{Message, insert_by_seq, sort_by_seq}

module _ {P : Type 0} where
  -- Every number of the list is at least `n`.
  abbrev pub AtLeast : ℕ → List (Message P) → Type 0
  AtLeast n [] = Unit
  AtLeast n (m ∷ ms) = (n ≤ m.seq) × AtLeast n ms

  abbrev pub IsAscending : List (Message P) → Type 0
  IsAscending [] = Unit
  IsAscending (m ∷ ms) = AtLeast m.seq ms × IsAscending ms

  -- Places a message behind those of a smaller or equal number.
  unfoldable pub place : Message P → List (Message P) → List (Message P)
  place m [] = m ∷ []
  place m (n ∷ ns) = if ltb m.seq n.seq then m ∷ n ∷ ns else n ∷ place m ns

  pub AtLeast-le : (a b : ℕ) (ms : List (Message P)) → a ≤ b → AtLeast b ms → AtLeast a ms
  AtLeast-le a b [] h k = tt
  AtLeast-le a b (m ∷ ms) h k = (omega arith, AtLeast-le a b ms h k.1)

  pub AtLeast-place :
      (a : ℕ) (m : Message P) (ms : List (Message P))
      → a ≤ m.seq
      → AtLeast a ms
      → AtLeast a (place m ms)
  unfolding place
  AtLeast-place a m [] h k = (h, tt)
  AtLeast-place a m (n ∷ ns) h k = ground (arith, AtLeast-place a m ns h k.1)

  pub place-IsAscending :
      (m : Message P) (ms : List (Message P)) → IsAscending ms → IsAscending (place m ms)
  unfolding place
  place-IsAscending m [] h = (tt, tt)
  place-IsAscending m (n ∷ ns) h =
      ground
        (arith, place-IsAscending m ns h.1, AtLeast-place n.seq m ns, AtLeast-le m.seq n.seq ns)

  insert_by_seq-place :
      (n m : Message P) (ms : List (Message P))
      → AtLeast n.seq ms
      → insert_by_seq n (place m ms) ≡ place m (n ∷ ms)
  unfolding insert_by_seq place
  insert_by_seq-place n m [] h = ground arith
  insert_by_seq-place n m (k ∷ ks) h = ground (arith, insert_by_seq-place n m ks h.1)

  -- Appending a message to a sorted buffer and sorting again puts it behind its equals.
  pub sort_by_seq-append :
      (ms : List (Message P)) (m : Message P)
      → IsAscending ms
      → sort_by_seq (ms ++ m ∷ []) ≡ place m ms
  unfolding sort_by_seq place
  sort_by_seq-append [] m h = refl
  sort_by_seq-append (n ∷ ns) m h =
      ap (insert_by_seq n) (sort_by_seq-append ns m h.1) ∙ insert_by_seq-place n m ns h.0
