-- ===== src/Phase0/Kademlia/Network/Values.antt =====
-- Values that a node of phase0/dht_kademlia.py stores over the network and gets again.
use census_konantgit_sys_p2p.Prelude.{
  ◌∷◌, ℕ, String, Option, some, Bool, ◌<◌, ◌||◌, ◌≡◌, ◌+◌, lt→ltb, List-cases, true, arith, refl,
  inl, false, inr, take, ltb,
}
use census_konantgit_sys_p2p.Phase0.Kademlia.Node.{Stored, get_local}
use census_konantgit_sys_p2p.Phase0.Kademlia.Lookup.{Response}
use census_konantgit_sys_p2p.Phase0.Kademlia.Network.{
  Called, look_up, keep_own, replicate_to, store, get,
}
use census_konantgit_sys_p2p.Dict.{lookup, lookup-insert_self}
use census_konantgit_sys_p2p.Phase0.Kademlia.{bucket_size}

or_true : (b : Bool) → (b || true) ≡ true
or_true true = refl
or_true false = refl

module _ {V : Type 0} (id_of : String → ℕ) (relay_addr : String → String)
    (respond : ℕ → String → ℕ → Response) (clock : ℕ → ℕ) where
  abbrev pub entry_of : V → String → (expires now : ℕ) → Stored V
  entry_of value publisher expires now = record {
    value = value;
    expires = expires;
    publisher = publisher;
    stored_at = now;
  }

  -- What `store` comes to.
  abbrev pub IsKept : String → V → ℕ → String → Bool × Called V → Type 0
  IsKept key value ttl own_pubkey (answer, c) =
      (answer ≡ true)
      × (lookup key c.node.store
          ≡ some (entry_of value own_pubkey (clock c.calls + ttl) (clock c.calls)))

  keep_own-IsKept :
      (key : String) (value : V) (ttl : ℕ) (own_pubkey : String) (answer : Bool) (c : Called V)
      → answer ≡ true
      → IsKept key value ttl own_pubkey
          (answer, keep_own id_of relay_addr respond clock key value own_pubkey ttl c)
  unfolding keep_own
  keep_own-IsKept key value ttl own_pubkey answer c good =
      (good, lookup-insert_self key _ c.node.store)

  -- `store` answers `True` and keeps the value in the node's own store, whatever the network does, also if no other node is there or none has stored the value.
  store-IsKept :
      (keeps : ℕ → String → Bool) (key : String) (value : V) (ttl : ℕ) (own_pubkey : String)
      (c : Called V)
      → IsKept key value ttl own_pubkey
          (store id_of relay_addr respond clock keeps key value ttl own_pubkey c)
  unfolding store
  store-IsKept keeps key value ttl own_pubkey c =
      let (nearest, found) = look_up id_of relay_addr respond clock (id_of key) bucket_size c in
      elim (List-cases nearest) [
        | inl e ↦ rw (e, store) (keep_own-IsKept key value ttl own_pubkey true found refl)
        | inr (n, ns, e) ↦
            let (success, sent) =
              replicate_to id_of relay_addr respond clock keeps (take bucket_size (n ∷ ns)) found in
            rw (e, store)
              (keep_own-IsKept key value ttl own_pubkey (ltb 0 success || true) sent
                (or_true (ltb 0 success)))
      ]

  get-found :
      (gives : ℕ → String → Option V) (key : String) (c : Called V) (e : Stored V)
      → lookup key c.node.store ≡ some e
      → clock c.calls < e.expires
      → get id_of relay_addr respond clock gives key c ≡ (some e.value, c)
  unfolding get get_local
  get-found gives key c e there live =
      let own : get_local id_of relay_addr key (clock c.calls) c.node ≡ (some e.value, c.node) =
        rw (there, get_local) (rw (lt→ltb (clock c.calls) e.expires live) refl) in
      rw (own, get) refl

  -- A node that has stored a value with a lifetime above 0, and asks for it before any other call of the network, gets it from its own store, without a call of the network and without a change.
  pub get-store :
      (keeps : ℕ → String → Bool) (gives : ℕ → String → Option V) (key : String) (value : V)
      (ttl : ℕ) (own_pubkey : String) (c : Called V)
      → 0 < ttl
      → let after = (store id_of relay_addr respond clock keeps key value ttl own_pubkey c).1 in
        get id_of relay_addr respond clock gives key after ≡ (some value, after)
  get-store keeps gives key value ttl own_pubkey c some_time =
      let after = (store id_of relay_addr respond clock keeps key value ttl own_pubkey c).1 in
      let (_, there) = store-IsKept keeps key value ttl own_pubkey c in
      get-found gives key after
        (entry_of value own_pubkey (clock after.calls + ttl) (clock after.calls)) there
        (omega (arith, some_time))
