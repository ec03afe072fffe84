-- ===== src/Phase0/Kademlia/Nearest.antt =====
-- `find_nearest`: the nearest contacts, in the order of their distance.
use mathlib.Core.List.{Perm}
use mathlib.Core.List.Perm
use census_konantgit_sys_p2p.Prelude.{
  ◌∷◌, [], List, ◌++◌, zero, suc, ℕ, take, ◌≤◌, arith, Bool-cases, ltb, inl, inr, drop, All, length,
  ◌≡◌, min, subst, sym, take-append-drop, length-take, ◌∙◌, refl, ap,
}
use census_konantgit_sys_p2p.Phase0.Kademlia.{
  Contact, RoutingTable, sort_near, insert_near, xor_distance, find_nearest, collect,
}

module _ (target : ℕ) where
  abbrev pub distance : Contact → ℕ
  distance c = xor_distance target c.node_id

  -- No contact of the list is nearer than `d`.
  abbrev pub NoneNearer : ℕ → List Contact → Type 0
  NoneNearer d [] = Unit
  NoneNearer d (c ∷ cs) = (d ≤ distance c) × NoneNearer d cs

  abbrev pub IsSorted : List Contact → Type 0
  IsSorted [] = Unit
  IsSorted (c ∷ cs) = NoneNearer (distance c) cs × IsSorted cs

  NoneNearer-le : (d e : ℕ) (cs : List Contact) → d ≤ e → NoneNearer e cs → NoneNearer d cs
  NoneNearer-le d e [] h n = tt
  NoneNearer-le d e (c ∷ cs) h n = (omega (arith, n.0), NoneNearer-le d e cs h n.1)

  NoneNearer-insert_near :
      (d : ℕ) (c : Contact) (cs : List Contact)
      → d ≤ distance c
      → NoneNearer d cs
      → NoneNearer d (insert_near target c cs)
  unfolding insert_near
  NoneNearer-insert_near d c [] h n = (h, tt)
  NoneNearer-insert_near d c (x ∷ cs) h n = elim (Bool-cases (ltb (distance x) (distance c))) [
    | inl nearer ↦ rw nearer (n.0, NoneNearer-insert_near d c cs h n.1)
    | inr first ↦ rw first (h, n)
  ]

  IsSorted-insert_near :
      (c : Contact) (cs : List Contact) → IsSorted cs → IsSorted (insert_near target c cs)
  unfolding insert_near
  IsSorted-insert_near c [] h = (tt, tt)
  IsSorted-insert_near c (x ∷ cs) h = elim (Bool-cases (ltb (distance x) (distance c))) [
    | inl nearer ↦
        rw nearer (
          NoneNearer-insert_near (distance x) c cs (ground arith) h.0,
          IsSorted-insert_near c cs h.1,
        )
    | inr first ↦
        let le : distance c ≤ distance x = ground arith in
        rw first ((le, NoneNearer-le (distance c) (distance x) cs le h.0), h)
  ]

  sort_near-IsSorted : (cs : List Contact) → IsSorted (sort_near target cs)
  unfolding sort_near
  sort_near-IsSorted [] = tt
  sort_near-IsSorted (c ∷ cs) = IsSorted-insert_near c (sort_near target cs) (sort_near-IsSorted cs)

  IsSorted-take : (n : ℕ) (cs : List Contact) → IsSorted cs → IsSorted (take n cs)
  IsSorted-take zero cs h = tt
  IsSorted-take (suc n) [] h = tt
  IsSorted-take (suc n) (c ∷ cs) h = (NoneNearer-take n (distance c) cs h.0, IsSorted-take n cs h.1)
    where
      NoneNearer-take : (n d : ℕ) (cs : List Contact) → NoneNearer d cs → NoneNearer d (take n cs)
      NoneNearer-take zero d cs h = tt
      NoneNearer-take (suc n) d [] h = tt
      NoneNearer-take (suc n) d (c ∷ cs) h = (h.0, NoneNearer-take n d cs h.1)

  insert_near-Perm : (c : Contact) (cs : List Contact) → Perm (insert_near target c cs) (c ∷ cs)
  unfolding insert_near
  insert_near-Perm c [] = Perm.refl (c ∷ [])
  insert_near-Perm c (x ∷ cs) = elim (Bool-cases (ltb (distance x) (distance c))) [
    | inl nearer ↦ rw nearer (Perm.trans (Perm.cons x (insert_near-Perm c cs)) (Perm.swap c x cs))
    | inr first ↦ rw first (Perm.refl (c ∷ x ∷ cs))
  ]

  sort_near-Perm : (cs : List Contact) → Perm (sort_near target cs) cs
  unfolding sort_near
  sort_near-Perm [] = Perm.refl []
  sort_near-Perm (c ∷ cs) =
      Perm.trans (insert_near-Perm c (sort_near target cs)) (Perm.cons c (sort_near-Perm cs))

  length-insert_near :
      (c : Contact) (cs : List Contact) → length (insert_near target c cs) ≡ suc (length cs)
  unfolding insert_near
  length-insert_near c [] = refl
  length-insert_near c (x ∷ cs) = ground (arith, length-insert_near c cs)

  length-sort_near : (cs : List Contact) → length (sort_near target cs) ≡ length cs
  unfolding sort_near
  length-sort_near [] = refl
  length-sort_near (c ∷ cs) =
      length-insert_near c (sort_near target cs) ∙ ap suc (length-sort_near cs)

  NoneNearer-drop : (n d : ℕ) (cs : List Contact) → NoneNearer d cs → NoneNearer d (drop n cs)
  NoneNearer-drop zero d cs h = h
  NoneNearer-drop (suc n) d [] h = tt
  NoneNearer-drop (suc n) d (c ∷ cs) h = NoneNearer-drop n d cs h.1

  -- What is left out of a sorted list is no nearer than what is taken.
  left_out :
      (n : ℕ) (cs : List Contact)
      → IsSorted cs
      → All (λ c. NoneNearer (distance c) (drop n cs)) (take n cs)
  left_out zero cs h = tt
  left_out (suc n) [] h = tt
  left_out (suc n) (c ∷ cs) h = (NoneNearer-drop n (distance c) cs h.0, left_out n cs h.1)

  -- `find_nearest` gives `count` contacts, or all there are: the contacts that the buckets offer are those in the result and some others, the result is in the order of the distance, and none of the others is nearer than any in the result.
  pub find_nearest-IsSorted :
      (count : ℕ) (t : RoutingTable)
      → let found = find_nearest target count t in
        let offered = collect count t.buckets in
        (others : List Contact) × Perm (found ++ others) offered
        × IsSorted found
        × All (λ c. NoneNearer (distance c) others) found
        × (length found ≡ min count (length offered))
  unfolding find_nearest
  find_nearest-IsSorted count t =
      let sorted = sort_near target (collect count t.buckets) in
      let in_order = sort_near-IsSorted (collect count t.buckets) in
      (
        drop count sorted,
        subst (λ l. Perm l (collect count t.buckets)) (sym (take-append-drop count sorted))
            (sort_near-Perm (collect count t.buckets)),
        IsSorted-take count sorted in_order,
        left_out count sorted in_order,
        length-take count sorted ∙ ap (min count) (length-sort_near (collect count t.buckets)),
      )
