-- ===== src/Phase0/Directory.antt =====
-- `class DHTStore` of phase0/dht.py. A stored value is a profile, a dictionary of which the code reads the
-- capabilities and the agent's name, or something else. `hash(key) & 0xFFFFFFFF` is the parameter
-- `hash32`. The ordered dictionary is the list of its entries, the one stored longest ago first.
pub mod Cache
pub mod Entries
pub mod Buckets
pub mod Search
use Prim.Native.String.{◌++◌ as text_append}
use census_konantgit_sys_p2p.Prelude.{
  ◌∷◌, [], List, zero, suc, ℕ, String, Option, none, some, ◌++◌, ◌+◌, get_elem?, if◌then◌else◌, ◌/◌,
  ◌%◌, leb, ltb, str_eq, Bool, length, drop, ◌-◌, ◌||◌, false,
}
use census_konantgit_sys_p2p.Dict.{Dict, member, erase, lookup}
use census_konantgit_sys_p2p.Outcome.{Outcome, returned, raised, attribute_error}

pub record Profile : Type 0 where
  pub agent_id : Option String
  pub capabilities : List String

pub data Value : Type 0 where
  profile : Profile → Value
  other_value : String → Value

pub record Entry : Type 0 where
  pub value : Value
  pub expires : ℕ
  pub source : Option String
  pub stored_at : ℕ

pub record Placed : Type 0 where
  pub key : String
  pub value : Value
  pub ts : ℕ

pub record DhtStore : Type 0 where
  pub node_id : String
  pub cache : Dict Entry
  pub max_keys : ℕ
  pub buckets : List (List Placed)

-- `BUCKET_COUNT`, and the entries that a bucket keeps.
abbrev pub bucket_count : ℕ
bucket_count = 8

abbrev pub bucket_limit : ℕ
bucket_limit = 20

unfoldable pub new_store : String → ℕ → DhtStore
new_store node_id max_keys = record {
  node_id = node_id;
  cache = [];
  max_keys = max_keys;
  buckets = [] ∷ [] ∷ [] ∷ [] ∷ [] ∷ [] ∷ [] ∷ [] ∷ [];
}

-- `while len(self._cache) > self._max_keys: self._cache.popitem(last=False)`
unfoldable pub pop_oldest : ℕ → Dict Entry → Dict Entry
pop_oldest max_keys [] = []
pop_oldest max_keys (e ∷ d) =
    let rest = pop_oldest max_keys d in if ltb max_keys (length (e ∷ d)) then rest else e ∷ d

-- `self._cache[key] = entry` and `self._cache.move_to_end(key)`
unfoldable pub put_last : String → Entry → Dict Entry → Dict Entry
unfolding erase
put_last key entry d = erase key d ++ (key, entry) ∷ []

-- `_store`
unfoldable pub store : String → Value → (ttl : ℕ) → Option String → (now : ℕ) → DhtStore → DhtStore
unfolding pop_oldest put_last
store key value ttl source now s =
    let entry : Entry = record {
      value = value;
      expires = now + ttl;
      source = source;
      stored_at = now;
    } in
    record s { cache = pop_oldest s.max_keys (put_last key entry s.cache) }

-- `[e for e in b if e["key"] != key]`
unfoldable pub without_key : String → List Placed → List Placed
without_key key [] = []
without_key key (e ∷ b) =
    let rest = without_key key b in if str_eq e.key key then rest else e ∷ rest

-- `if len(b) > 20: b[:] = b[-20:]`
unfoldable pub trim : List Placed → List Placed
trim b = if ltb bucket_limit (length b) then drop (length b - bucket_limit) b else b

unfoldable pub put_in_bucket : String → Value → ℕ → List Placed → List Placed
unfolding without_key trim
put_in_bucket key value now b =
    trim (without_key key b ++ record { key = key; value = value; ts = now } ∷ [])

-- A change of the bucket with a number.
unfoldable pub at_bucket : ℕ → (List Placed → List Placed) → List (List Placed) → List (List Placed)
at_bucket i f [] = []
at_bucket zero f (b ∷ bs) = f b ∷ bs
at_bucket (suc i) f (b ∷ bs) = b ∷ at_bucket i f bs

unfoldable pub find_placed : String → List Placed → Option Value
find_placed key [] = none
find_placed key (e ∷ b) = if str_eq e.key key then some e.value else find_placed key b

module _ (hash32 : String → ℕ) where
  -- `_bucket_index`: the upper three of 32 bits.
  unfoldable pub bucket_index : String → ℕ
  bucket_index key = hash32 key / 536870912 % 8

  -- `_bucket_put`
  unfoldable pub bucket_put : String → Value → (now : ℕ) → DhtStore → DhtStore
  unfolding bucket_index at_bucket put_in_bucket
  bucket_put key value now s = record s {
    buckets = at_bucket (bucket_index key) (put_in_bucket key value now) s.buckets;
  }

  -- `_bucket_get`
  unfoldable pub bucket_get : String → DhtStore → Option Value
  unfolding bucket_index find_placed
  bucket_get key s = elim (get_elem? s.buckets (bucket_index key)) [
    | none ↦ none
    | some b ↦ find_placed key b
  ]

-- `_lookup`, of the value.
unfoldable pub lookup_live : String → (now : ℕ) → DhtStore → Option Value
unfolding lookup
lookup_live key now s = elim (lookup key s.cache) [
  | none ↦ none
  | some e ↦ if leb now e.expires then some e.value else none
]

-- `get`: the value with its source, or the store without the expired entry.
unfoldable pub get : String → (now : ℕ) → DhtStore → Option (Value × Option String) × DhtStore
unfolding lookup erase
get key now s = elim (lookup key s.cache) [
  | none ↦ (none, s)
  | some e ↦
      if ltb e.expires now
      then (none, record s { cache = erase key s.cache })
      else (some (e.value, e.source), s)
]

-- `get_all_entries`, of the keys with their entries.
unfoldable pub get_all_entries : (now : ℕ) → Dict Entry → Dict Entry
get_all_entries now [] = []
get_all_entries now ((key, e) ∷ d) =
    let rest = get_all_entries now d in if leb now e.expires then (key, e) ∷ rest else rest

-- What one entry says of the capability that is searched; on a value that is no dictionary `.get` raises.
unfoldable pub offers : String → Value → Outcome Bool
unfolding member
offers capability (other_value _) = raised attribute_error
offers capability (profile p) = returned (
    member capability p.capabilities
    || elim p.agent_id [ none ↦ false | some id ↦ str_eq id capability ])

-- The loops of `_bucket_search`, over the entries of all buckets.
unfoldable pub search_entries : String → List Placed → Outcome (List Placed)
unfolding offers
search_entries capability [] = returned []
search_entries capability (e ∷ b) = elim (offers capability e.value) [
  | raised x ↦ raised x
  | returned found ↦ elim (search_entries capability b) [
    | raised x ↦ raised x
    | returned rest ↦ returned (if found then e ∷ rest else rest)
  ]
]

unfoldable pub all_entries : List (List Placed) → List Placed
all_entries [] = []
all_entries (b ∷ bs) = b ++ all_entries bs

-- `find_agents`
unfoldable pub find_agents : String → DhtStore → Outcome (List Placed)
unfolding search_entries all_entries
find_agents capability s = search_entries capability (all_entries s.buckets)

-- The payload of a message; a profile without an agent's name is an empty one. What a `put_agent` brings
-- is a dictionary, and every key is a text.
pub data Request : Type 0 where
  put : (key : String) (value : Value) (ttl : Option ℕ) → Request
  get_value : (key : String) → Request
  put_agent : Profile → Request
  other_request : Request

abbrev pub lifetime : Option ℕ → ℕ
lifetime none = 86400
lifetime (some ttl) = ttl

pub data Answer : Type 0 where
  key_answer : String → Answer
  value_answer : Value → Answer

module _ (hash32 : String → ℕ) where
  -- `handle_message`
  unfoldable pub handle_message :
      Request → (sender : Option String) → (now : ℕ) → DhtStore → Option Answer × DhtStore
  unfolding store bucket_put lookup_live
  handle_message (put key value ttl) sender now s = (
    some (key_answer key),
    bucket_put hash32 key value now (store key value (lifetime ttl) sender now s),
  )
  handle_message (get_value key) sender now s =
      (elim (lookup_live key now s) [ none ↦ none | some v ↦ some (value_answer v) ], s)
  handle_message (put_agent p) sender now s = elim p.agent_id [
    | none ↦ (none, s)
    | some id ↦
        let key = text_append "agent:" id in
        if str_eq id "" then (none, s) else (
          some (key_answer key),
          bucket_put hash32 key (profile p) now (store key (profile p) 300 sender now s),
        )
  ]
  handle_message other_request sender now s = (none, s)

  -- Several messages, each with its sender and its time.
  unfoldable pub handle_messages : List (Request × Option String × ℕ) → DhtStore → DhtStore
  unfolding handle_message
  handle_messages [] s = s
  handle_messages ((r, sender, now) ∷ rest) s =
      handle_messages rest (handle_message r sender now s).1
