-- ===== src/Phase0/Kademlia.antt =====
-- `KBucket` and `RoutingTable` of phase0/dht_kademlia.py. An identifier of 160 bits is a number; its
-- hexadecimal text, the key of the bucket's dictionary, is the number again. A bucket's ordered
-- dictionary is the list of its contacts, the one seen longest ago first.
pub mod Bucket
pub mod Table
pub mod Nearest
pub mod Node
pub mod Lookup
pub mod Network
use Prim.Native.Nat.{bit_xor}
use census_konantgit_sys_p2p.Prelude.{
  ◌∷◌, [], List, ◌++◌, zero, suc, Bool, ℕ, length, min, take, String, if◌then◌else◌, leb, false,
  true, ◌/◌, ◌+◌, ◌==◌, ◌-◌, ltb, ◌||◌,
}

-- `K`, and the failures after which a full bucket gives the place of its oldest contact away.
abbrev pub bucket_size : ℕ
bucket_size = 3

abbrev pub max_failures : ℕ
max_failures = 3

-- `B`
abbrev pub id_bits : ℕ
id_bits = 160

pub record Contact : Type 0 where
  pub node_id : ℕ
  pub addr : String
  pub pubkey : String
  pub first_seen : ℕ
  pub last_seen : ℕ
  pub failures : ℕ

unfoldable pub xor_distance : ℕ → ℕ → ℕ
xor_distance a b = bit_xor a b

-- `int.bit_length`, by the bits that are left.
unfoldable pub bit_length : ℕ → ℕ → ℕ
bit_length zero n = 0
bit_length (suc k) n = let rest = bit_length k (n / 2) in if n == 0 then 0 else rest + 1

-- `leading_zeros`: in the code it is the place of the highest bit that differs.
unfoldable pub leading_zeros : ℕ → ℕ → ℕ
unfolding xor_distance bit_length
leading_zeros a b =
    let d = xor_distance a b in if ltb 0 d then bit_length id_bits d - 1 else id_bits - 1

unfoldable pub has_node : ℕ → List Contact → Bool
has_node id [] = false
has_node id (c ∷ cs) = c.node_id == id || has_node id cs

-- The other contacts, and the one of the identifier seen again, if there is one.
unfoldable pub remove_node : ℕ → List Contact → List Contact
remove_node id [] = []
remove_node id (c ∷ cs) = let rest = remove_node id cs in if c.node_id == id then rest else c ∷ rest

unfoldable pub seen_again : ℕ → ℕ → List Contact → List Contact
seen_again id now [] = []
seen_again id now (c ∷ cs) =
    let rest = seen_again id now cs in
    if c.node_id == id then record c { last_seen = now } ∷ [] else rest

abbrev pub new_contact : ℕ → String → String → ℕ → Contact
new_contact id addr pubkey now = record {
  node_id = id;
  addr = addr;
  pubkey = pubkey;
  first_seen = now;
  last_seen = now;
  failures = 0;
}

-- `add_node` on a full bucket without the contact.
unfoldable pub evict : Contact → List Contact → Bool × List Contact
evict new [] = (false, [])
evict new (oldest ∷ rest) =
    if leb max_failures oldest.failures then (true, rest ++ new ∷ []) else (false, oldest ∷ rest)

-- `KBucket.add_node`
unfoldable pub bucket_add : ℕ → String → String → ℕ → List Contact → Bool × List Contact
unfolding has_node remove_node seen_again evict
bucket_add id addr pubkey now cs =
    if has_node id cs
    then (true, remove_node id cs ++ seen_again id now cs)
    else if ltb (length cs) bucket_size
    then (true, cs ++ new_contact id addr pubkey now ∷ [])
    else evict (new_contact id addr pubkey now) cs

unfoldable pub bucket_failure : ℕ → List Contact → List Contact
bucket_failure id [] = []
bucket_failure id (c ∷ cs) =
    let rest = bucket_failure id cs in
    if c.node_id == id then record c { failures = c.failures + 1 } ∷ cs else c ∷ rest

abbrev pub get_nodes : ℕ → List Contact → List Contact
get_nodes count cs = take count cs

unfoldable pub is_full : List Contact → Bool
is_full cs = leb bucket_size (length cs)

pub record RoutingTable : Type 0 where
  pub own_id : ℕ
  pub own_pubkey : String
  pub buckets : List (List Contact)

unfoldable pub empty_buckets : ℕ → List (List Contact)
empty_buckets zero = []
empty_buckets (suc n) = [] ∷ empty_buckets n

unfoldable pub new_table : ℕ → String → RoutingTable
unfolding empty_buckets
new_table own_id own_pubkey = record {
  own_id = own_id;
  own_pubkey = own_pubkey;
  buckets = empty_buckets id_bits;
}

unfoldable pub bucket_for : ℕ → RoutingTable → ℕ
unfolding leading_zeros
bucket_for id t = min (leading_zeros t.own_id id) (id_bits - 1)

-- Applies a change to one bucket; the answer is that of the change.
unfoldable pub at_bucket :
    ℕ → (List Contact → Bool × List Contact) → List (List Contact) → Bool × List (List Contact)
at_bucket i f [] = (false, [])
at_bucket zero f (b ∷ bs) = let (added, b') = f b in (added, b' ∷ bs)
at_bucket (suc i) f (b ∷ bs) = let (added, bs') = at_bucket i f bs in (added, b ∷ bs')

unfoldable pub add_node : ℕ → String → String → ℕ → RoutingTable → Bool × RoutingTable
unfolding bucket_for at_bucket bucket_add
add_node id addr pubkey now t =
    let (added, bs) = at_bucket (bucket_for id t) (bucket_add id addr pubkey now) t.buckets in
    (added, record t { buckets = bs })

unfoldable pub mark_failure : ℕ → RoutingTable → RoutingTable
unfolding bucket_for at_bucket bucket_failure
mark_failure id t =
    let (_, bs) = at_bucket (bucket_for id t) (λ b. (true, bucket_failure id b)) t.buckets in
    record t { buckets = bs }

unfoldable pub collect : ℕ → List (List Contact) → List Contact
collect count [] = []
collect count (b ∷ bs) = get_nodes count b ++ collect count bs

-- Places a contact before the first that is as far or farther, so that sorting is stable.
unfoldable pub insert_near : ℕ → Contact → List Contact → List Contact
unfolding xor_distance
insert_near target c [] = c ∷ []
insert_near target c (d ∷ ds) =
    if ltb (xor_distance target d.node_id) (xor_distance target c.node_id)
    then d ∷ insert_near target c ds
    else c ∷ d ∷ ds

unfoldable pub sort_near : ℕ → List Contact → List Contact
unfolding insert_near
sort_near target [] = []
sort_near target (c ∷ cs) = insert_near target c (sort_near target cs)

unfoldable pub find_nearest : ℕ → ℕ → RoutingTable → List Contact
unfolding collect sort_near
find_nearest target count t = take count (sort_near target (collect count t.buckets))

unfoldable pub all_nodes : RoutingTable → List Contact
unfolding collect
all_nodes t = collect bucket_size t.buckets

unfoldable pub sum_sizes : List (List Contact) → ℕ
sum_sizes [] = 0
sum_sizes (b ∷ bs) = length b + sum_sizes bs

unfoldable pub count_used : List (List Contact) → ℕ
count_used [] = 0
count_used (b ∷ bs) = let rest = count_used bs in if ltb 0 (length b) then rest + 1 else rest

-- The numbers of all contacts and of the buckets in use.
unfoldable pub stats : RoutingTable → ℕ × ℕ
unfolding sum_sizes count_used
stats t = (sum_sizes t.buckets, count_used t.buckets)
