-- ===== src/Tests/Network.antt =====
-- Instances for the two tables of phase0/dht.py and phase0/dht_kademlia.py.
use census_konantgit_sys_p2p.Prelude.{
  ◌∷◌, [], List, ℕ, ◌≤◌, ◌+◌, ◌*◌, Option, some, none, String, refl, arith, length, suc, zero,
}
use census_konantgit_sys_p2p.Phase0.Directory.{
  Placed, Request, other_value, put, new_store, handle_messages, profile, put_agent,
}
use census_konantgit_sys_p2p.Phase0.Directory.Cache.{
  Put, put_all, store_all, IsRecent, store_all-last,
}
use census_konantgit_sys_p2p.Phase0.Directory.Buckets.{Belongs, handle_messages-IsBucket}
use census_konantgit_sys_p2p.Phase0.Directory.Entries.{IsBucket}
use census_konantgit_sys_p2p.Phase0.Kademlia.{RoutingTable, Contact}
use census_konantgit_sys_p2p.Phase0.Kademlia.Lookup.{
  Response, failure, nodes_response, iterative_lookup,
}
use census_konantgit_sys_p2p.Phase0.Kademlia.Lookup.Known.{iterative_lookup-IsWithin}
use census_konantgit_sys_p2p.Phase0.Kademlia.{xor_distance}
use census_konantgit_sys_p2p.Phase0.Kademlia.Lookup.Calls.{iterative_lookup-calls}
use census_konantgit_sys_p2p.Phase0.Kademlia.Lookup.Nearer.{IsSorted, IsWithin}

abbrev puts : List Put
puts =
    ("a", other_value "1", 10, none, 0)
    ∷ ("b", other_value "2", 10, none, 1)
    ∷ ("a", other_value "3", 10, some "n", 2)
    ∷ ("c", other_value "4", 10, none, 3)
    ∷ []

store_all-last_example : IsRecent 2 (put_all puts []) (store_all puts (new_store "self" 2)).cache
store_all-last_example = store_all-last puts "self" 2

-- Every key is in the bucket 5.
abbrev hashed : String → ℕ
hashed key = 3000000000

abbrev requests : List (Request × Option String × ℕ)
requests =
    (put "k" (other_value "1") none, none, 4)
    ∷ (put_agent (record { agent_id = some "alice"; capabilities = "chat" ∷ [] }), some "did", 5)
    ∷ []

abbrev placed : List Placed
placed =
    record { key = "k"; value = other_value "1"; ts = 4 }
    ∷ record {
      key = "agent:alice";
      value = profile (record { agent_id = some "alice"; capabilities = "chat" ∷ [] });
      ts = 5;
    }
    ∷ []

handle_messages-IsBucket_example : IsBucket (Belongs hashed 5) placed
unfolding handle_messages new_store
handle_messages-IsBucket_example = handle_messages-IsBucket hashed requests "self" 10 5 placed refl

abbrev contact : ℕ → String → Contact
contact id pubkey = record {
  node_id = id;
  addr = "relay";
  pubkey = pubkey;
  first_seen = 0;
  last_seen = 0;
  failures = 0;
}

abbrev table : RoutingTable
table = record {
  own_id = 4;
  own_pubkey = "a";
  buckets = (contact 5 "b" ∷ []) ∷ (contact 6 "c" ∷ []) ∷ [];
}

-- One node names a nearer one, the others do not answer.
abbrev naming : ℕ → String → ℕ → Response
naming zero pubkey target = nodes_response ((8, "relay", "d") ∷ [])
naming (suc n) pubkey target = failure

abbrev ticking : ℕ → ℕ
ticking n = n + 100

iterative_lookup-IsWithin_example :
    let found = (iterative_lookup 9 naming ticking 2 0 table).shortlist in
    (length found ≤ 3) × IsSorted 9 found × IsWithin 9 (xor_distance 9 6) found
iterative_lookup-IsWithin_example =
    iterative_lookup-IsWithin 9 naming ticking 2 0 1 0 table (contact 6 "c" ∷ []) (contact 6 "c")
      refl (omega arith) refl

iterative_lookup-calls_example : (iterative_lookup 9 naming ticking 2 0 table).calls ≤ 0 + 5 * 2
iterative_lookup-calls_example = iterative_lookup-calls 9 naming ticking 2 0 table
