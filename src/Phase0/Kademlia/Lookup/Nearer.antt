-- ===== src/Phase0/Kademlia/Lookup/Nearer.antt =====
-- What `iterative_lookup` of phase0/dht_kademlia.py gives: few nodes in the order of their distance, and
-- none farther than what was known before.
use census_konantgit_sys_p2p.Prelude.{
  ◌∷◌, [], List, zero, suc, ℕ, String, none, ◌++◌, inl, take, Bool-cases, ◌≤◌, All, ltb, inr, ◌⊎◌,
  arith, All-imp, List-cases, length, map, ◌≡◌, length-take, ◌+◌, refl, subst, sym, length-map, ◌∙◌,
}
use census_konantgit_sys_p2p.Phase0.Kademlia.{
  Contact, RoutingTable, find_nearest, bucket_size, xor_distance, add_node,
}
use census_konantgit_sys_p2p.Phase0.Kademlia.Nearest.{find_nearest-IsSorted}
use census_konantgit_sys_p2p.Phase0.Kademlia.Nearest
use census_konantgit_sys_p2p.Phase0.Kademlia.Lookup.{
  Near, Lookup, Response, failure, other_response, nodes_response, known, insert_near, sort_near,
  merge, has_pubkey, take_nodes, take_response, query_each, rounds, iterative_lookup, not_contacted,
  is_stable, max_rounds, first_near,
}
use census_konantgit_sys_p2p.Phase0.Kademlia.Node.{NodeData}
use census_konantgit_sys_p2p.Dict.{member}

module _ (target : ℕ) where
  abbrev pub distance : Near → ℕ
  distance n = xor_distance target n.node_id

  abbrev NoneNearer : ℕ → List Near → Type 0
  NoneNearer d = All (λ n. d ≤ distance n)

  abbrev pub IsSorted : List Near → Type 0
  IsSorted [] = Unit
  IsSorted (n ∷ ns) = NoneNearer (distance n) ns × IsSorted ns

  -- The first node is within the distance, and there is one.
  abbrev pub IsWithin : ℕ → List Near → Type 0
  IsWithin d [] = ⊥
  IsWithin d (n ∷ ns) = distance n ≤ d

  -- Some node is within the distance.
  abbrev pub HasWithin : ℕ → List Near → Type 0
  HasWithin d [] = ⊥
  HasWithin d (n ∷ ns) = (distance n ≤ d) ⊎ HasWithin d ns

  NoneNearer-insert :
      (d : ℕ) (n : Near) (ns : List Near)
      → d ≤ distance n
      → NoneNearer d ns
      → NoneNearer d (insert_near target n ns)
  unfolding insert_near
  NoneNearer-insert d n [] h all = (h, tt)
  NoneNearer-insert d n (m ∷ ms) h all = elim (Bool-cases (ltb (distance m) (distance n))) [
    | inl nearer ↦ rw nearer (all.0, NoneNearer-insert d n ms h all.1)
    | inr first ↦ rw first (h, all)
  ]

  IsSorted-insert : (n : Near) (ns : List Near) → IsSorted ns → IsSorted (insert_near target n ns)
  unfolding insert_near
  IsSorted-insert n [] h = (tt, tt)
  IsSorted-insert n (m ∷ ms) h = elim (Bool-cases (ltb (distance m) (distance n))) [
    | inl nearer ↦
        rw nearer (NoneNearer-insert (distance m) n ms (ground arith) h.0, IsSorted-insert n ms h.1)
    | inr first ↦
        let le : distance n ≤ distance m = ground arith in
        rw first ((le, All-imp (λ x far. omega (arith, le, far)) ms h.0), h)
  ]

  pub sort_near-IsSorted : (ns : List Near) → IsSorted (sort_near target ns)
  unfolding sort_near
  sort_near-IsSorted [] = tt
  sort_near-IsSorted (n ∷ ns) = IsSorted-insert n (sort_near target ns) (sort_near-IsSorted ns)

  NoneNearer-take : (k d : ℕ) (ns : List Near) → NoneNearer d ns → NoneNearer d (take k ns)
  NoneNearer-take zero d ns h = tt
  NoneNearer-take (suc k) d [] h = tt
  NoneNearer-take (suc k) d (n ∷ ns) h = (h.0, NoneNearer-take k d ns h.1)

  IsSorted-take : (k : ℕ) (ns : List Near) → IsSorted ns → IsSorted (take k ns)
  IsSorted-take zero ns h = tt
  IsSorted-take (suc k) [] h = tt
  IsSorted-take (suc k) (n ∷ ns) h = (NoneNearer-take k (distance n) ns h.0, IsSorted-take k ns h.1)

  HasWithin-insert :
      (d : ℕ) (n : Near) (ns : List Near)
      → (distance n ≤ d) ⊎ HasWithin d ns
      → HasWithin d (insert_near target n ns)
  unfolding insert_near
  HasWithin-insert d n [] h = h
  HasWithin-insert d n (m ∷ ms) h = elim (Bool-cases (ltb (distance m) (distance n))) [
    | inr first ↦ rw first h
    | inl nearer ↦ rw nearer (elim h [
      | inl near ↦ inr (HasWithin-insert d n ms (inl near))
      | inr (inl near) ↦ inl near
      | inr (inr later) ↦ inr (HasWithin-insert d n ms (inr later))
    ])
  ]

  pub HasWithin-sort : (d : ℕ) (ns : List Near) → HasWithin d ns → HasWithin d (sort_near target ns)
  unfolding sort_near
  HasWithin-sort d [] h = h
  HasWithin-sort d (n ∷ ns) (inl near) = HasWithin-insert d n (sort_near target ns) (inl near)
  HasWithin-sort d (n ∷ ns) (inr later) =
      HasWithin-insert d n (sort_near target ns) (inr (HasWithin-sort d ns later))

  HasWithin-append :
      (d : ℕ) (ns : List Near) (n : Near) → HasWithin d ns → HasWithin d (ns ++ n ∷ [])
  HasWithin-append d [] n h = absurd h
  HasWithin-append d (m ∷ ns) n (inl near) = inl near
  HasWithin-append d (m ∷ ns) n (inr later) = inr (HasWithin-append d ns n later)

  HasWithin-merge : (d : ℕ) (rs ns : List Near) → HasWithin d ns → HasWithin d (merge rs ns)
  unfolding merge
  HasWithin-merge d [] ns h = h
  HasWithin-merge d (r ∷ rs) ns h = elim (Bool-cases (has_pubkey r.pubkey ns)) [
    | inl there ↦ rw (there, merge) (HasWithin-merge d rs ns h)
    | inr new ↦ rw (new, merge) (HasWithin-merge d rs (ns ++ r ∷ []) (HasWithin-append d ns r h))
  ]

  pub IsWithin-of_sorted : (d : ℕ) (ns : List Near) → IsSorted ns → HasWithin d ns → IsWithin d ns
  IsWithin-of_sorted d [] s h = h
  IsWithin-of_sorted d (n ∷ ns) s (inl near) = near
  IsWithin-of_sorted d (n ∷ ns) s (inr later) = first_le ns s.0 later
    where
      first_le : (ms : List Near) → NoneNearer (distance n) ms → HasWithin d ms → distance n ≤ d
      first_le [] far h = absurd h
      first_le (m ∷ ms) far (inl near) = omega (arith, near, far.0)
      first_le (m ∷ ms) far (inr h) = first_le ms far.1 h

  HasWithin-of_first : (d : ℕ) (ns : List Near) → IsWithin d ns → HasWithin d ns
  HasWithin-of_first d [] h = h
  HasWithin-of_first d (n ∷ ns) h = inl h

  -- The shortlist after a round.
  next-IsWithin :
      (d : ℕ) (rs ns : List Near)
      → IsWithin d ns
      → IsWithin d (take bucket_size (sort_near target (merge rs ns)))
  next-IsWithin d rs ns h =
      let sorted = sort_near target (merge rs ns) in
      let first =
        IsWithin-of_sorted d sorted (sort_near-IsSorted (merge rs ns))
          (HasWithin-sort d (merge rs ns) (HasWithin-merge d rs ns (HasWithin-of_first d ns h))) in
      keep_first sorted first
    where
      keep_first : (ms : List Near) → IsWithin d ms → IsWithin d (take bucket_size ms)
      keep_first [] h = h
      keep_first (m ∷ ms) h = h

  module _ (respond : ℕ → String → ℕ → Response) (clock : ℕ → ℕ) where
    take_nodes-shortlist :
        (now : ℕ) (nds : List NodeData) (l : Lookup)
        → (take_nodes now nds l).1.shortlist ≡ l.shortlist
    unfolding take_nodes
    take_nodes-shortlist now [] l = refl
    take_nodes-shortlist now ((id, addr, pubkey) ∷ nds) l =
        elim (Bool-cases (member pubkey l.contacted)) [
          | inl there ↦ rw there (take_nodes-shortlist now nds l)
          | inr new ↦ rw new (
              take_nodes-shortlist now nds
                (record l { table = (add_node id addr pubkey now l.table).1 }))
        ]

    take_response-shortlist :
        (n : Near) (r : Response) (l : Lookup)
        → (take_response target respond clock n r l).1.shortlist ≡ l.shortlist
    unfolding take_response
    take_response-shortlist n failure l = refl
    take_response-shortlist n other_response l = refl
    take_response-shortlist n (nodes_response nds) l = take_nodes-shortlist (clock l.calls) nds l

    query_each-shortlist :
        (ns : List Near) (l : Lookup)
        → (query_each target respond clock ns l).1.shortlist ≡ l.shortlist
    unfolding query_each
    query_each-shortlist [] l = refl
    query_each-shortlist (n ∷ ns) l =
        let asking = record l { calls = l.calls + 1; contacted = n.pubkey ∷ l.contacted } in
        let r = respond l.calls n.pubkey target in
        query_each-shortlist ns (take_response target respond clock n r asking).1
        ∙ take_response-shortlist n r asking

    -- A property of the shortlist that every round keeps.
    rounds-keep :
        (P : List Near → Type 0)
        (keeps : (rs ns : List Near) → P ns → P (take bucket_size (sort_near target (merge rs ns))))
        (left width : ℕ) (l : Lookup)
        → P l.shortlist
        → P (rounds target respond clock left width l).shortlist
    unfolding rounds
    rounds-keep P keeps zero width l h = h
    rounds-keep P keeps (suc left) width l h =
        elim (List-cases (take width (not_contacted l.contacted l.shortlist))) [
          | inl e ↦ rw (e, rounds) h
          | inr (n, ns, e) ↦
              let (results, queried) = query_each target respond clock (n ∷ ns) l in
              let shortlist =
                take bucket_size (sort_near target (merge results queried.shortlist)) in
              let closest = first_near target respond clock shortlist in
              let kept : P shortlist =
                keeps results queried.shortlist
                  (subst P (sym (query_each-shortlist (n ∷ ns) l)) h) in
              let next = record queried { shortlist = shortlist; closest = closest } in
              rw (e, rounds)
                (elim (Bool-cases (is_stable target respond clock closest queried.closest)) [
                  | inl stable ↦ rw (stable, rounds) kept
                  | inr moving ↦ rw (moving, rounds) (rounds-keep P keeps left width next kept)
                ])
        ]

    map-known-IsSorted : (cs : List Contact) → Nearest.IsSorted target cs → IsSorted (map known cs)
    map-known-IsSorted [] h = tt
    map-known-IsSorted (c ∷ cs) h = (map_none cs h.0, map-known-IsSorted cs h.1)
      where
        map_none :
            (ds : List Contact)
            → Nearest.NoneNearer target (Nearest.distance target c) ds
            → NoneNearer (distance (known c)) (map known ds)
        map_none [] h = tt
        map_none (d ∷ ds) h = (h.0, map_none ds h.1)

    -- Whatever the network answers, and for any number of nodes asked in a round: if the first contact that `find_nearest` gives is within some distance, then a lookup gives at most three nodes, in the order of their distance to the target, the first of which is within it.
    pub iterative_lookup-nearest :
        (width calls d : ℕ) (t : RoutingTable)
        → IsWithin d (map known (find_nearest target bucket_size t))
        → let found = (iterative_lookup target respond clock width calls t).shortlist in
          (length found ≤ bucket_size) × IsSorted found × IsWithin d found
    unfolding iterative_lookup
    iterative_lookup-nearest width calls d t near =
        let (others, _, sorted, _, size) = find_nearest-IsSorted target bucket_size t in
        let start : Lookup = record {
          table = t;
          calls = calls;
          contacted = [];
          shortlist = map known (find_nearest target bucket_size t);
          closest = none;
        } in
        (
          rounds-keep (λ ns. length ns ≤ bucket_size)
              (λ rs ns h. omega (arith, length-take bucket_size (sort_near target (merge rs ns))))
              max_rounds width start
              (omega (arith, size, length-map known (find_nearest target bucket_size t))),
          rounds-keep IsSorted
              (λ rs ns h.
                IsSorted-take bucket_size (sort_near target (merge rs ns))
                  (sort_near-IsSorted (merge rs ns)))
              max_rounds width start
              (map-known-IsSorted (find_nearest target bucket_size t) sorted),
          rounds-keep (IsWithin d) (next-IsWithin d) max_rounds width start near,
        )
