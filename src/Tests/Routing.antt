-- ===== src/Tests/Routing.antt =====
-- Runs and instances for the routing table, phase0/dht_kademlia.py.
use mathlib.Core.List.{Perm}
use census_konantgit_sys_p2p.Prelude.{ℕ, List, [], ◌∷◌, ◌++◌, ◌≡◌, refl, All, length, String}
use census_konantgit_sys_p2p.Phase0.Kademlia.{
  Contact, RoutingTable, find_nearest, new_table, empty_buckets, collect, new_contact, sort_near,
  add_node, insert_near, mark_failure, xor_distance, bucket_for, leading_zeros, bit_length,
  at_bucket, bucket_add, has_node, remove_node, seen_again, bucket_failure,
}
use census_konantgit_sys_p2p.Phase0.Kademlia.Table.{place}
use census_konantgit_sys_p2p.Phase0.Kademlia.Bucket.{IsBucket}
use census_konantgit_sys_p2p.Phase0.Kademlia.Table.{Change, heard_of, failed, changes-IsBucket}
use census_konantgit_sys_p2p.Phase0.Kademlia.Nearest.{
  IsSorted, NoneNearer, distance, find_nearest-IsSorted,
}

abbrev news : List Change
news =
    heard_of 5 "relay:b" "b" 10
    ∷ heard_of 12 "relay:c" "c" 11
    ∷ heard_of 5 "relay:b" "b" 12
    ∷ failed 5
    ∷ []

abbrev known : Contact
known = record {
  node_id = 5;
  addr = "relay:b";
  pubkey = "b";
  first_seen = 10;
  last_seen = 12;
  failures = 1;
}

changes-IsBucket_example : IsBucket (λ id. place 4 id ≡ 0) (known ∷ [])
unfolding new_table empty_buckets add_node mark_failure bucket_for leading_zeros xor_distance
    bit_length at_bucket bucket_add has_node remove_node seen_again bucket_failure
changes-IsBucket_example = changes-IsBucket news 4 "a" 0 (known ∷ []) refl

abbrev at : ℕ → Contact
at id = new_contact id "relay:x" "x" 0

abbrev table : RoutingTable
table = record { own_id = 4; own_pubkey = "a"; buckets = (at 5 ∷ []) ∷ (at 6 ∷ at 7 ∷ []) ∷ [] }

nearest_two : find_nearest 7 2 table ≡ at 7 ∷ at 6 ∷ []
unfolding find_nearest collect sort_near insert_near xor_distance
nearest_two = refl

find_nearest-IsSorted_example :
    let found = find_nearest 7 2 table in
    (others : List Contact) × Perm (found ++ others) (at 5 ∷ at 6 ∷ at 7 ∷ [])
    × IsSorted 7 found
    × All (λ c. NoneNearer 7 (distance 7 c) others) found
    × (length found ≡ 2)
unfolding collect
find_nearest-IsSorted_example = find_nearest-IsSorted 7 2 table

abbrev relay : String → String
relay key = "relay"
