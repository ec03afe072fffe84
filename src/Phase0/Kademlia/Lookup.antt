-- ===== src/Phase0/Kademlia/Lookup.antt =====
-- `iterative_lookup` of phase0/dht_kademlia.py. What the network answers is the argument `respond`, by the
-- number of the call, the public key that is asked and the target; the time of a call is `clock` of its
-- number. Identifiers in answers are numbers already, and every node of an answer has its three fields. No other call of the node runs between two calls of
-- a lookup.
pub mod Nearer
pub mod Known
pub mod Calls
use census_konantgit_sys_p2p.Prelude.{
  ◌∷◌, [], List, zero, suc, ℕ, String, Option, none, some, ◌++◌, Bool, take, if◌then◌else◌, ◌+◌,
  map, ◌==◌, true, false, ltb, ◌&&◌, str_eq, ◌||◌,
}
use census_konantgit_sys_p2p.Phase0.Kademlia.{
  Contact, RoutingTable, find_nearest, add_node, mark_failure, bucket_size, xor_distance,
}
use census_konantgit_sys_p2p.Phase0.Kademlia.Node.{NodeData, node_data}
use census_konantgit_sys_p2p.Dict.{member}

-- `ALPHA`, and the rounds of a lookup.
abbrev pub alpha : ℕ
alpha = 3

abbrev pub max_rounds : ℕ
max_rounds = 5

-- What comes of a `find_node`: an exception, an answer of another type or none, or nodes.
pub data Response : Type 0 where
  failure : Response
  other_response : Response
  nodes_response : List NodeData → Response

-- An entry of the shortlist: a contact of the routing table, since when it is known, or a node that an
-- answer names.
pub record Near : Type 0 where
  pub node_id : ℕ
  pub addr : String
  pub pubkey : String
  pub known_since : Option ℕ

abbrev pub known : Contact → Near
known c = record {
  node_id = c.node_id;
  addr = c.addr;
  pubkey = c.pubkey;
  known_since = some c.first_seen;
}

abbrev pub heard : NodeData → Near
heard (id, addr, pubkey) = record { node_id = id; addr = addr; pubkey = pubkey; known_since = none }

pub record Lookup : Type 0 where
  pub table : RoutingTable
  pub calls : ℕ
  pub contacted : List String
  pub shortlist : List Near
  pub closest : Option Near

-- The equality of two dictionaries, of which the contacts of the table stay the same objects.
unfoldable pub same_time : Option ℕ → Option ℕ → Bool
same_time none none = true
same_time (some s) (some t) = s == t
same_time none (some t) = false
same_time (some s) none = false

unfoldable pub same_near : Near → Near → Bool
unfolding same_time
same_near a b =
    a.node_id == b.node_id
    && str_eq a.addr b.addr
    && str_eq a.pubkey b.pubkey
    && same_time a.known_since b.known_since

-- `[n for n in shortlist if n['pubkey'] not in contacted]`
unfoldable pub not_contacted : List String → List Near → List Near
unfolding member
not_contacted contacted [] = []
not_contacted contacted (n ∷ ns) =
    let rest = not_contacted contacted ns in if member n.pubkey contacted then rest else n ∷ rest

-- The nodes of one answer.
unfoldable pub take_nodes : (now : ℕ) → List NodeData → Lookup → List Near × Lookup
unfolding member add_node
take_nodes now [] l = ([], l)
take_nodes now ((id, addr, pubkey) ∷ nds) l =
    if member pubkey l.contacted
    then take_nodes now nds l
    else (let (rest, l') =
          take_nodes now nds (record l { table = (add_node id addr pubkey now l.table).1 }) in
        (heard (id, addr, pubkey) ∷ rest, l'))

-- `{n['pubkey'] for n in shortlist}`
unfoldable pub has_pubkey : String → List Near → Bool
has_pubkey pubkey [] = false
has_pubkey pubkey (n ∷ ns) = str_eq n.pubkey pubkey || has_pubkey pubkey ns

-- The loop that puts the results of a round into the shortlist.
unfoldable pub merge : List Near → List Near → List Near
unfolding has_pubkey
merge [] shortlist = shortlist
merge (r ∷ rs) shortlist =
    merge rs (if has_pubkey r.pubkey shortlist then shortlist else shortlist ++ r ∷ [])

module _ (target : ℕ) where
  unfoldable pub insert_near : Near → List Near → List Near
  unfolding xor_distance
  insert_near n [] = n ∷ []
  insert_near n (m ∷ ms) =
      let rest = insert_near n ms in
      if ltb (xor_distance target m.node_id) (xor_distance target n.node_id)
      then m ∷ rest
      else n ∷ m ∷ ms

  -- `shortlist.sort(key=lambda n: xor_distance(target, n['node_id']))`
  unfoldable pub sort_near : List Near → List Near
  unfolding insert_near
  sort_near [] = []
  sort_near (n ∷ ns) = insert_near n (sort_near ns)

  module _ (respond : ℕ → String → ℕ → Response) (clock : ℕ → ℕ) where
    unfoldable pub take_response : Near → Response → Lookup → List Near × Lookup
    unfolding mark_failure take_nodes
    take_response n failure l = ([], record l { table = mark_failure n.node_id l.table })
    take_response n other_response l = ([], l)
    take_response n (nodes_response nds) l = take_nodes (clock l.calls) nds l

    -- The loop over the nodes of a round.
    unfoldable pub query_each : List Near → Lookup → List Near × Lookup
    unfolding take_response
    query_each [] l = ([], l)
    query_each (n ∷ ns) l =
        let asking = record l { calls = l.calls + 1; contacted = n.pubkey ∷ l.contacted } in
        let (found, l1) = take_response n (respond l.calls n.pubkey target) asking in
        let (rest, l2) = query_each ns l1 in (found ++ rest, l2)

    -- `new_closest and closest and new_closest == closest`
    unfoldable pub is_stable : Option Near → Option Near → Bool
    unfolding same_near
    is_stable (some a) (some b) = same_near a b
    is_stable none b = false
    is_stable (some a) none = false

    abbrev pub first_near : List Near → Option Near
    first_near [] = none
    first_near (n ∷ ns) = some n

    -- The loop of a lookup, by the rounds that are left.
    unfoldable pub rounds : (left width : ℕ) → Lookup → Lookup
    unfolding not_contacted query_each merge sort_near is_stable
    rounds zero width l = l
    rounds (suc left) width l = elim (take width (not_contacted l.contacted l.shortlist)) [
      | [] ↦ l
      | n ∷ ns ↦
          let (results, queried) = query_each (n ∷ ns) l in
          let shortlist = take bucket_size (sort_near (merge results queried.shortlist)) in
          let closest = first_near shortlist in
          let next = record queried { shortlist = shortlist; closest = closest } in
          elim (is_stable closest queried.closest) [
            | true ↦ record queried { shortlist = shortlist }
            | false ↦ rounds left width next
          ]
    ]

    -- `iterative_lookup(target, alpha)`: the nearest nodes, with the routing table and the number of
    -- calls afterwards.
    unfoldable pub iterative_lookup : (width : ℕ) → (calls : ℕ) → RoutingTable → Lookup
    unfolding rounds find_nearest
    iterative_lookup width calls t = rounds max_rounds width (record {
      table = t;
      calls = calls;
      contacted = [];
      shortlist = map known (find_nearest target bucket_size t);
      closest = none;
    })
