-- ===== src/Phase0/Kademlia/Lookup/Known.antt =====
-- What `iterative_lookup` of phase0/dht_kademlia.py finds, measured by the contacts of the routing table.
use census_konantgit_sys_p2p.Prelude.{
  ◌∷◌, [], List, zero, suc, ℕ, String, some, ◌++◌, inl, inr, take, Bool-cases, ◌≤◌, ltb, arith,
  length, map, ◌≡◌, get_elem?, refl, subst, sym, ◌∙◌, ap,
}
use census_konantgit_sys_p2p.Phase0.Kademlia.{
  Contact, RoutingTable, find_nearest, bucket_size, xor_distance, collect,
}
use census_konantgit_sys_p2p.Phase0.Kademlia.{
  insert_near as insert_contact, sort_near as sort_contacts,
}
use census_konantgit_sys_p2p.Phase0.Kademlia.Lookup.{
  Near, Response, known, insert_near, sort_near, iterative_lookup,
}
use census_konantgit_sys_p2p.Phase0.Kademlia.Lookup.Nearer.{
  IsSorted, IsWithin, HasWithin, HasWithin-sort, IsWithin-of_sorted, sort_near-IsSorted,
  iterative_lookup-nearest,
}

map-known-take : (n : ℕ) (cs : List Contact) → map known (take n cs) ≡ take n (map known cs)
map-known-take zero cs = refl
map-known-take (suc n) [] = refl
map-known-take (suc n) (c ∷ cs) = ap (λ ns. known c ∷ ns) (map-known-take n cs)

take_all : {A : Type 0} (n : ℕ) (xs : List A) → length xs ≤ n → take n xs ≡ xs
take_all zero [] h = refl
take_all zero (x ∷ xs) h = absurd (omega (arith, h))
take_all (suc n) [] h = refl
take_all (suc n) (x ∷ xs) h = ap (λ ys. x ∷ ys) (take_all n xs (omega (arith, h)))

module _ (target : ℕ) where
  -- The two sorting routines agree.
  map-known-insert :
      (c : Contact) (cs : List Contact)
      → map known (insert_contact target c cs) ≡ insert_near target (known c) (map known cs)
  unfolding insert_contact insert_near
  map-known-insert c [] = refl
  map-known-insert c (d ∷ ds) =
      elim (Bool-cases (ltb (xor_distance target d.node_id) (xor_distance target c.node_id))) [
        | inl e ↦ rw e (ap (λ ns. known d ∷ ns) (map-known-insert c ds))
        | inr e ↦ rw e refl
      ]

  map-known-sort :
      (cs : List Contact) → map known (sort_contacts target cs) ≡ sort_near target (map known cs)
  unfolding sort_contacts sort_near
  map-known-sort [] = refl
  map-known-sort (c ∷ cs) =
      map-known-insert c (sort_contacts target cs)
      ∙ ap (insert_near target (known c)) (map-known-sort cs)

  HasWithin-left :
      (d : ℕ) (cs ds : List Contact)
      → HasWithin target d (map known cs)
      → HasWithin target d (map known (cs ++ ds))
  HasWithin-left d [] ds h = absurd h
  HasWithin-left d (c ∷ cs) ds (inl near) = inl near
  HasWithin-left d (c ∷ cs) ds (inr later) = inr (HasWithin-left d cs ds later)

  HasWithin-right :
      (d : ℕ) (cs ds : List Contact)
      → HasWithin target d (map known ds)
      → HasWithin target d (map known (cs ++ ds))
  HasWithin-right d [] ds h = h
  HasWithin-right d (c ∷ cs) ds h = inr (HasWithin-right d cs ds h)

  HasWithin-elem :
      (cs : List Contact) (j : ℕ) (c : Contact)
      → get_elem? cs j ≡ some c
      → HasWithin target (xor_distance target c.node_id) (map known cs)
  HasWithin-elem [] j c h = cc
  HasWithin-elem (x ∷ cs) zero c h =
      let same : x ≡ c = cc in inl (omega (arith, ap (λ y. xor_distance target y.node_id) same))
  HasWithin-elem (x ∷ cs) (suc j) c h = inr (HasWithin-elem cs j c h)

  HasWithin-collect :
      (bs : List (List Contact)) (i j : ℕ) (b : List Contact) (c : Contact)
      → get_elem? bs i ≡ some b
      → length b ≤ bucket_size
      → get_elem? b j ≡ some c
      → HasWithin target (xor_distance target c.node_id) (map known (collect bucket_size bs))
  unfolding collect
  HasWithin-collect [] i j b c there size found = cc
  HasWithin-collect (x ∷ bs) zero j b c there size found =
      let same : x ≡ b = cc in
      let all : take bucket_size x ≡ b = ap (take bucket_size) same ∙ take_all bucket_size b size in
      HasWithin-left (xor_distance target c.node_id) (take bucket_size x) (collect bucket_size bs)
        (HasWithin-elem (take bucket_size x) j c (ap (λ l. get_elem? l j) all ∙ found))
  HasWithin-collect (x ∷ bs) (suc i) j b c there size found =
      HasWithin-right (xor_distance target c.node_id) (take bucket_size x) (collect bucket_size bs)
        (HasWithin-collect bs i j b c there size found)

  sorted-IsWithin :
      (d : ℕ) (ns : List Near)
      → HasWithin target d ns
      → IsWithin target d (take bucket_size (sort_near target ns))
  sorted-IsWithin d ns h = keep_first (sort_near target ns) (
      IsWithin-of_sorted target d (sort_near target ns) (sort_near-IsSorted target ns)
        (HasWithin-sort target d ns h))
    where
      keep_first : (ms : List Near) → IsWithin target d ms → IsWithin target d (take bucket_size ms)
      keep_first [] h = h
      keep_first (m ∷ ms) h = h

  -- Whatever the network answers, and for any number of nodes asked in a round: if the routing table has a contact in a bucket that is not over its size, then a lookup gives at most three nodes, in the order of their distance to the target, and the first of them, which there is, is no farther from the target than that contact.
  pub iterative_lookup-IsWithin :
      (respond : ℕ → String → ℕ → Response) (clock : ℕ → ℕ) (width calls i j : ℕ) (t : RoutingTable)
      (b : List Contact) (c : Contact)
      → get_elem? t.buckets i ≡ some b
      → length b ≤ bucket_size
      → get_elem? b j ≡ some c
      → let found = (iterative_lookup target respond clock width calls t).shortlist in
        (length found ≤ bucket_size)
        × IsSorted target found
        × IsWithin target (xor_distance target c.node_id) found
  unfolding find_nearest
  iterative_lookup-IsWithin respond clock width calls i j t b c there size found =
      let d = xor_distance target c.node_id in
      let offered = collect bucket_size t.buckets in
      let same : map known (find_nearest target bucket_size t)
          ≡ take bucket_size (sort_near target (map known offered)) =
        map-known-take bucket_size (sort_contacts target offered)
        ∙ ap (take bucket_size) (map-known-sort offered) in
      iterative_lookup-nearest target respond clock width calls d t (
        subst (IsWithin target d) (sym same) (
          sorted-IsWithin d (map known offered)
            (HasWithin-collect t.buckets i j b c there size found)))
