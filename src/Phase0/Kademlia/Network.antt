-- ===== src/Phase0/Kademlia/Network.antt =====
-- `store`, `get` and `bootstrap` of `KademliaDHT` in phase0/dht_kademlia.py. What the network answers to a
-- `find_node` is as in Lookup; `keeps` says by the number of the call and the public key that a `store`
-- is answered by `stored`, `gives` what value answers a `find_value`, if any.
pub mod Values
use census_konantgit_sys_p2p.Prelude.{
  ◌∷◌, [], List, zero, suc, ℕ, String, Option, none, some, ◌++◌, if◌then◌else◌, Bool, take, ◌+◌,
  length, true, str_eq, ltb, ◌||◌,
}
use census_konantgit_sys_p2p.Phase0.Kademlia.{RoutingTable, add_node, bucket_size}
use census_konantgit_sys_p2p.Phase0.Kademlia.Node.{Node, Stored, NodeData, get_local, expire_time}
use census_konantgit_sys_p2p.Phase0.Kademlia.Lookup.{
  Near, Response, failure, other_response, nodes_response, iterative_lookup, alpha,
}
use census_konantgit_sys_p2p.Dict.{member, insert}

-- What the node has after some calls of the network.
pub record Called (V : Type 0) : Type 0 where
  pub node : Node V
  pub calls : ℕ

-- The nodes of one answer to `bootstrap`.
unfoldable pub learn : (now : ℕ) → List NodeData → RoutingTable → RoutingTable
unfolding add_node
learn now [] t = t
learn now ((id, addr, pubkey) ∷ nds) t = learn now nds (add_node id addr pubkey now t).1

-- `known` after the public keys of an answer.
unfoldable pub add_known : List NodeData → List String → List String
unfolding member
add_known [] known = known
add_known ((id, addr, pubkey) ∷ nds) known =
    add_known nds (if member pubkey known then known else pubkey ∷ known)

module _ {V : Type 0} (id_of : String → ℕ) (relay_addr : String → String)
    (respond : ℕ → String → ℕ → Response) (clock : ℕ → ℕ) where
  unfoldable pub look_up : (target width : ℕ) → Called V → List Near × Called V
  unfolding iterative_lookup
  look_up target width c =
      let l = iterative_lookup target respond clock width c.calls c.node.routing in
      (l.shortlist, record { node = record c.node { routing = l.table }; calls = l.calls })

  unfoldable pub keep_own : String → V → (publisher : String) → (ttl : ℕ) → Called V → Called V
  unfolding insert
  keep_own key value publisher ttl c =
      let entry : Stored V = record {
        value = value;
        expires = clock c.calls + ttl;
        publisher = publisher;
        stored_at = clock c.calls;
      } in
      record c { node = record c.node { store = insert key entry c.node.store } }

  module _ (keeps : ℕ → String → Bool) where
    -- The loop of `store`: the number of nodes that have stored the value.
    unfoldable pub replicate_to : List Near → Called V → ℕ × Called V
    replicate_to [] c = (0, c)
    replicate_to (n ∷ ns) c =
        let (rest, c') = replicate_to ns (record c { calls = c.calls + 1 }) in
        ((if keeps c.calls n.pubkey then 1 else 0) + rest, c')

    -- `store`
    unfoldable pub store :
        String → V → (ttl : ℕ) → (own_pubkey : String) → Called V → Bool × Called V
    unfolding look_up keep_own replicate_to
    store key value ttl own_pubkey c =
        let (nearest, found) = look_up (id_of key) bucket_size c in
        elim nearest [
          | [] ↦ (true, keep_own key value own_pubkey ttl found)
          | n ∷ ns ↦
              let (success, sent) = replicate_to (take bucket_size (n ∷ ns)) found in
              (ltb 0 success || true, keep_own key value own_pubkey ttl sent)
        ]

  module _ (gives : ℕ → String → Option V) where
    -- The loop of `get` over the nearest nodes.
    unfoldable pub ask_each : String → List Near → Called V → Option V × Called V
    unfolding keep_own
    ask_each key [] c = (none, c)
    ask_each key (n ∷ ns) c =
        let asked = record c { calls = c.calls + 1 } in
        elim (gives c.calls n.pubkey) [
          | none ↦ ask_each key ns asked
          | some v ↦ (some v, keep_own key v n.pubkey expire_time asked)
        ]

    -- `get` once the value is not in the own store.
    unfoldable pub get_remote : String → Called V → Option V × Called V
    unfolding look_up ask_each
    get_remote key c =
        let (nearest, found) = look_up (id_of key) bucket_size c in
        ask_each key (take bucket_size nearest) found

    -- `get`
    unfoldable pub get : String → Called V → Option V × Called V
    unfolding get_local get_remote
    get key c =
        let (own, node) = get_local id_of relay_addr key (clock c.calls) c.node in
        elim own [ some v ↦ (some v, c) | none ↦ get_remote key (record c { node = node }) ]

  unfoldable pub learn_response : (now : ℕ) → Response → List String → Node V → List String × Node V
  unfolding learn add_known
  learn_response now failure known n = (known, n)
  learn_response now other_response known n = (known, n)
  learn_response now (nodes_response nds) known n =
      (add_known nds known, record n { routing = learn now nds n.routing })

  -- The loop of `bootstrap` over the seed nodes.
  unfoldable pub ask_seeds :
      (own_pubkey : String) → List String → List String → Called V → List String × Called V
  unfolding learn_response
  ask_seeds own_pubkey [] known c = (known, c)
  ask_seeds own_pubkey (seed ∷ seeds) known c =
      let (known', node) =
        learn_response (clock c.calls) (respond c.calls seed c.node.routing.own_id) known c.node in
      if str_eq seed own_pubkey
      then ask_seeds own_pubkey seeds known c
      else ask_seeds own_pubkey seeds known' (record { node = node; calls = c.calls + 1 })

  -- `bootstrap`: the number of public keys that it has heard of.
  unfoldable pub bootstrap : (own_pubkey : String) → List String → Called V → ℕ × Called V
  unfolding ask_seeds look_up
  bootstrap own_pubkey seeds c =
      let (known, asked) = ask_seeds own_pubkey seeds [] c in
      (length known, (look_up asked.node.routing.own_id alpha asked).1)
