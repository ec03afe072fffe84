-- ===== src/Phase0/Kademlia/Lookup/Calls.antt =====
-- How often a lookup of phase0/dht_kademlia.py calls the network.
use census_konantgit_sys_p2p.Prelude.{
  ◌∷◌, [], List, zero, suc, ℕ, String, none, ◌≡◌, ◌≤◌, refl, ◌+◌, Bool-cases, length, ◌*◌, arith,
  map, inl, inr, List-cases, take, subst, length-take,
}
use census_konantgit_sys_p2p.Phase0.Kademlia.{RoutingTable, find_nearest, bucket_size, add_node}
use census_konantgit_sys_p2p.Phase0.Kademlia.Lookup.{
  Near, Lookup, Response, failure, other_response, nodes_response, known, sort_near, merge,
  take_nodes, take_response, query_each, rounds, iterative_lookup, not_contacted, is_stable,
  max_rounds, first_near,
}
use census_konantgit_sys_p2p.Phase0.Kademlia.Node.{NodeData}
use census_konantgit_sys_p2p.Dict.{member}

module _ (target : ℕ) (respond : ℕ → String → ℕ → Response) (clock : ℕ → ℕ) where
  take_nodes-calls :
      (now : ℕ) (nds : List NodeData) (l : Lookup) → (take_nodes now nds l).1.calls ≡ l.calls
  unfolding take_nodes
  take_nodes-calls now [] l = refl
  take_nodes-calls now ((id, addr, pubkey) ∷ nds) l =
      elim (Bool-cases (member pubkey l.contacted)) [
        | inl there ↦ rw there (take_nodes-calls now nds l)
        | inr new ↦ rw new (
            take_nodes-calls now nds (record l { table = (add_node id addr pubkey now l.table).1 }))
      ]

  take_response-calls :
      (n : Near) (r : Response) (l : Lookup)
      → (take_response target respond clock n r l).1.calls ≡ l.calls
  unfolding take_response
  take_response-calls n failure l = refl
  take_response-calls n other_response l = refl
  take_response-calls n (nodes_response nds) l = take_nodes-calls (clock l.calls) nds l

  query_each-calls :
      (ns : List Near) (l : Lookup)
      → (query_each target respond clock ns l).1.calls ≡ l.calls + length ns
  unfolding query_each
  query_each-calls [] l = omega arith
  query_each-calls (n ∷ ns) l =
      let asking = record l { calls = l.calls + 1; contacted = n.pubkey ∷ l.contacted } in
      let r = respond l.calls n.pubkey target in
      let l1 = (take_response target respond clock n r asking).1 in
      let first = take_response-calls n r asking in omega (arith, query_each-calls ns l1, first)

  rounds-calls :
      (left width : ℕ) (l : Lookup)
      → (rounds target respond clock left width l).calls ≤ l.calls + left * width
  unfolding rounds
  rounds-calls zero width l = omega arith
  rounds-calls (suc left) width l =
      elim (List-cases (take width (not_contacted l.contacted l.shortlist))) [
        | inl e ↦ rw (e, rounds) (omega arith)
        | inr (n, ns, e) ↦
            let (results, queried) = query_each target respond clock (n ∷ ns) l in
            let shortlist = take bucket_size (sort_near target (merge results queried.shortlist)) in
            let closest = first_near target respond clock shortlist in
            let next = record queried { shortlist = shortlist; closest = closest } in
            let asked = query_each-calls (n ∷ ns) l in
            let few : length (n ∷ ns) ≤ width =
              subst (λ xs. length xs ≤ width) e
                (omega (arith, length-take width (not_contacted l.contacted l.shortlist))) in
            rw (e, rounds)
              (elim (Bool-cases (is_stable target respond clock closest queried.closest)) [
                | inl stable ↦ rw (stable, rounds) (omega (arith, asked, few))
                | inr moving ↦
                    rw (moving, rounds) (omega (arith, asked, few, rounds-calls left width next))
              ])
      ]

  -- Whatever the network answers, a lookup makes at most five times as many calls of the network as it asks nodes in a round.
  pub iterative_lookup-calls :
      (width calls : ℕ) (t : RoutingTable)
      → (iterative_lookup target respond clock width calls t).calls ≤ calls + 5 * width
  unfolding iterative_lookup
  iterative_lookup-calls width calls t = rounds-calls max_rounds width (record {
    table = t;
    calls = calls;
    contacted = [];
    shortlist = map known (find_nearest target bucket_size t);
    closest = none;
  })
