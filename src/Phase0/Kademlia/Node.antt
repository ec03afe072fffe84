-- ===== src/Phase0/Kademlia/Node.antt =====
-- The messages of `KademliaDHT` in phase0/dht_kademlia.py. `V` is the type of values. The identifier
-- of a public key or of a key, a SHA-256, is the parameter `id_of`, and `relay_addr` is the address
-- text made of a sender's public key.
pub mod Expired
use census_konantgit_sys_p2p.Prelude.{
  ◌∷◌, [], List, ◌++◌, zero, suc, Option, ℕ, String, map, some, none, if◌then◌else◌, ◌+◌, ltb,
}
use census_konantgit_sys_p2p.Phase0.Kademlia.{
  Contact, RoutingTable, find_nearest, new_table, add_node, bucket_size,
}
use census_konantgit_sys_p2p.Dict.{lookup, Dict, insert, erase}

-- `EXPIRE_TIME`
abbrev pub expire_time : ℕ
expire_time = 86400

pub record Stored (V : Type 0) : Type 0 where
  pub value : V
  pub expires : ℕ
  pub publisher : String
  pub stored_at : ℕ

pub record Node (V : Type 0) : Type 0 where
  pub routing : RoutingTable
  pub store : Dict (Stored V)

-- What a message asks; a missing field is `none` where the code has a default for it.
pub data Request (V : Type 0) : Type 0 where
  ping : (ts : Option ℕ) → Request V
  find_node : (target : Option ℕ) → Request V
  find_value : (key : String) → Request V
  store_value : (key : String) (value : V) (ttl : Option ℕ) → Request V
  other_request : Request V

-- The identifier, the address and the public key of a contact.
abbrev pub NodeData : Type 0
NodeData = ℕ × String × String

pub data Reply (V : Type 0) : Type 0 where
  pong : (echo : ℕ) → Reply V
  nodes : List NodeData → Reply V
  found_value : (key : String) (value : V) → Reply V
  stored : (key : String) → Reply V

abbrev pub node_data : Contact → NodeData
node_data c = (c.node_id, c.addr, c.pubkey)

abbrev pub nearest_data : ℕ → RoutingTable → List NodeData
nearest_data target t = map node_data (find_nearest target bucket_size t)

-- `msg.get('ttl', EXPIRE_TIME)`
abbrev pub lifetime : Option ℕ → ℕ
lifetime none = expire_time
lifetime (some ttl) = ttl

module _ {V : Type 0} (id_of : String → ℕ) (relay_addr : String → String) where
  unfoldable pub new_node : String → Node V
  unfolding new_table
  new_node own_pubkey = record { routing = new_table (id_of own_pubkey) own_pubkey; store = [] }

  -- `handle_message` once the sender is in the routing table.
  unfoldable pub answer_request : Request V → String → ℕ → Node V → Option (Reply V) × Node V
  unfolding find_nearest lookup insert
  answer_request (ping none) sender now n = (some (pong now), n)
  answer_request (ping (some ts)) sender now n = (some (pong ts), n)
  answer_request (find_node none) sender now n = (none, n)
  answer_request (find_node (some target)) sender now n =
      (some (nodes (nearest_data target n.routing)), n)
  answer_request (find_value key) sender now n = elim (lookup key n.store) [
    | some e ↦ (some (found_value key e.value), n)
    | none ↦ (some (nodes (nearest_data (id_of key) n.routing)), n)
  ]
  answer_request (store_value key value ttl) sender now n =
      let entry : Stored V = record {
        value = value;
        expires = now + lifetime ttl;
        publisher = sender;
        stored_at = now;
      } in
      (some (stored key), record n { store = insert key entry n.store })
  answer_request other_request sender now n = (none, n)

  -- `handle_message`, from the node `sender_id` with the public key `sender`.
  unfoldable pub handle_message : Request V → ℕ → String → ℕ → Node V → Option (Reply V) × Node V
  unfolding add_node answer_request
  handle_message q sender_id sender now n =
      let added = (add_node sender_id (relay_addr sender) sender now n.routing).1 in
      answer_request q sender now (record n { routing = added })

  -- Several messages, each with the sender's identifier and key and with its time.
  unfoldable pub handle_messages : List (Request V × ℕ × String × ℕ) → Node V → Node V
  unfolding handle_message
  handle_messages [] n = n
  handle_messages ((q, sender_id, sender, now) ∷ rest) n =
      handle_messages rest (handle_message q sender_id sender now n).1

  -- The local part of `get`: a value that has not expired, or the node without the expired one.
  unfoldable pub get_local : String → ℕ → Node V → Option V × Node V
  unfolding lookup erase
  get_local key now n = elim (lookup key n.store) [
    | none ↦ (none, n)
    | some e ↦
        if ltb now e.expires
        then (some e.value, n)
        else (none, record n { store = erase key n.store })
  ]
