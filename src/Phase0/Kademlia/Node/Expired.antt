-- ===== src/Phase0/Kademlia/Node/Expired.antt =====
-- Stored values: what other nodes are told of them, and what `get` makes of them, after they expire.
use census_konantgit_sys_p2p.Prelude.{
  ◌∷◌, [], List, String, ℕ, ◌≢◌, ◌≡◌, some, ◌∙◌, refl, Option-cases, inl, inr, none, Option,
  if◌then◌else◌, ltb, ◌+◌, Bool-cases,
}
use census_konantgit_sys_p2p.Phase0.Kademlia.Node.{
  Node, Request, ping, find_node, find_value, store_value, other_request, found_value,
  answer_request, handle_messages, handle_message, get_local, lifetime, Stored,
}
use census_konantgit_sys_p2p.Dict.{lookup, lookup-insert_ne, lookup-insert_self}

module _ {V : Type 0} (id_of : String → ℕ) (relay_addr : String → String) where
  -- The message does not store under the key.
  abbrev pub LeavesKey : String → Request V → Type 0
  LeavesKey key (store_value k value ttl) = k ≢ key
  LeavesKey key (ping _) = Unit
  LeavesKey key (find_node _) = Unit
  LeavesKey key (find_value _) = Unit
  LeavesKey key other_request = Unit

  abbrev pub AllLeaveKey : String → List (Request V × ℕ × String × ℕ) → Type 0
  AllLeaveKey key [] = Unit
  AllLeaveKey key (m ∷ ms) = LeavesKey key m.0 × AllLeaveKey key ms

  answer_request-lookup :
      (q : Request V) (sender key : String) (now : ℕ) (n : Node V)
      → LeavesKey key q
      → lookup key (answer_request id_of relay_addr q sender now n).1.store ≡ lookup key n.store
  unfolding answer_request
  answer_request-lookup (ping none) sender key now n h = refl
  answer_request-lookup (ping (some ts)) sender key now n h = refl
  answer_request-lookup (find_node none) sender key now n h = refl
  answer_request-lookup (find_node (some target)) sender key now n h = refl
  answer_request-lookup (find_value k) sender key now n h = elim (Option-cases (lookup k n.store)) [
    | inl e ↦ rw (e, answer_request) refl
    | inr (x, e) ↦ rw (e, answer_request) refl
  ]
  answer_request-lookup (store_value k value ttl) sender key now n h =
      lookup-insert_ne k key _ n.store h
  answer_request-lookup other_request sender key now n h = refl

  handle_messages-lookup :
      (ms : List (Request V × ℕ × String × ℕ)) (key : String) (n : Node V)
      → AllLeaveKey key ms
      → lookup key (handle_messages id_of relay_addr ms n).store ≡ lookup key n.store
  unfolding handle_messages handle_message
  handle_messages-lookup [] key n h = refl
  handle_messages-lookup ((q, sender_id, sender, now) ∷ rest) key n h =
      handle_messages-lookup rest key _ h.1 ∙ answer_request-lookup q sender key now _ h.0

  find_value_found :
      (key b : String) (j now : ℕ) (n : Node V) (e : Stored V)
      → lookup key n.store ≡ some e
      → (handle_message id_of relay_addr (find_value key) j b now n).0
        ≡ some (found_value key e.value)
  unfolding handle_message answer_request
  find_value_found key b j now n e h = rw (h, answer_request) refl

  get_local_found :
      (key : String) (now : ℕ) (n : Node V) (e : Stored V)
      → lookup key n.store ≡ some e
      → (get_local id_of relay_addr key now n).0
        ≡ (if ltb now e.expires then some e.value else none)
  unfolding get_local
  get_local_found key now n e h = elim (Bool-cases (ltb now e.expires)) [
    | inl l ↦ rw (h, get_local) (rw l refl)
    | inr l ↦ rw (h, get_local) (rw l refl)
  ]

  -- After a node has been told to store a value, and messages that do not store under its key, it gives the value to every node that asks for it, at any time; its own `get` finds the value in the store only before the value expires.
  find_value-store_value :
      (key : String) (value : V) (ttl : Option ℕ) (ms : List (Request V × ℕ × String × ℕ))
      (n : Node V) (i j : ℕ) (a b : String) (t now : ℕ)
      → AllLeaveKey key ms
      → let n' = handle_messages id_of relay_addr ((store_value key value ttl, i, a, t) ∷ ms) n in
        ((handle_message id_of relay_addr (find_value key) j b now n').0
          ≡ some (found_value key value))
        × ((get_local id_of relay_addr key now n').0
            ≡ (if ltb now (t + lifetime ttl) then some value else none))
  unfolding handle_messages handle_message answer_request
  find_value-store_value key value ttl ms n i j a b t now h =
      let first = (handle_message id_of relay_addr (store_value key value ttl) i a t n).1 in
      let there = handle_messages-lookup ms key first h ∙ lookup-insert_self key _ n.store in
      let n' = handle_messages id_of relay_addr ms first in
      (find_value_found key b j now n' _ there, get_local_found key now n' _ there)
