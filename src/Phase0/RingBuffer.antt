-- ===== src/Phase0/RingBuffer.antt =====
-- `class RingBuffer` of phase0/ring_buffer.py and the test for system topics beside it. A deque with
-- a `maxlen` is the list of its items; an appended item drops the first when the deque is full.
pub mod History
pub mod Topics
use text.Mathlib.Text.{starts_with}
use census_konantgit_sys_p2p.Prelude.{
  ◌∷◌, [], List, ◌++◌, if◌then◌else◌, String, ℕ, Option, Bool, leb, length, some, ltb, suc, none,
  true, ◌+◌, drop, ◌-◌, zero,
}
use census_konantgit_sys_p2p.Dict.{member}

pub record Message (P : Type 0) : Type 0 where
  pub payload : Option P
  pub sender : Option String
  pub ts : Option ℕ

pub record Entry (P : Type 0) : Type 0 where
  pub topic : String
  pub payload : P
  pub sender : String
  pub ts : ℕ
  pub received_at : ℕ

pub record RingBuffer (P : Type 0) : Type 0 where
  pub max_size : ℕ
  pub buffer : List (Entry P)
  pub total_appended : ℕ
  pub total_dropped : ℕ

abbrev pub get_or_else : {A : Type 0} → A → Option A → A
get_or_else x none = x
get_or_else x (some y) = y

-- `deque.append` with a `maxlen`
unfoldable pub push_bounded : {A : Type 0} → ℕ → A → List A → List A
push_bounded max_size x xs =
    let ys = xs ++ x ∷ [] in if ltb max_size (length ys) then drop 1 ys else ys

-- `items[-n:]`, which for 0 is the whole list
unfoldable pub last_items : {A : Type 0} → ℕ → List A → List A
last_items zero xs = xs
last_items (suc n) xs = drop (length xs - suc n) xs

module _ {P : Type 0} where
  unfoldable pub new_buffer : ℕ → RingBuffer P
  new_buffer max_size = record {
    max_size = max_size;
    buffer = [];
    total_appended = 0;
    total_dropped = 0;
  }

  -- The entry that `append` makes of a message; `empty` is the payload `{}`.
  unfoldable pub entry_of : P → String → ℕ → Message P → Entry P
  entry_of empty topic now m = record {
    topic = topic;
    payload = get_or_else empty m.payload;
    sender = get_or_else "" m.sender;
    ts = get_or_else now m.ts;
    received_at = now;
  }

  unfoldable pub append : Entry P → RingBuffer P → RingBuffer P
  unfolding push_bounded
  append e b = record b {
    buffer = push_bounded b.max_size e b.buffer;
    total_dropped =
        if leb b.max_size (length b.buffer) then b.total_dropped + 1 else b.total_dropped;
    total_appended = b.total_appended + 1;
  }

  unfoldable pub append_all : List (Entry P) → RingBuffer P → RingBuffer P
  unfolding append
  append_all [] b = b
  append_all (e ∷ es) b = append_all es (append e b)

  unfoldable pub count : RingBuffer P → ℕ
  count b = length b.buffer

  unfoldable pub recent : ℕ → RingBuffer P → List (Entry P)
  unfolding last_items
  recent n b = if ltb n (length b.buffer) then last_items n b.buffer else b.buffer

pub record Stats : Type 0 where
  pub count : ℕ
  pub total : ℕ
  pub dropped : ℕ
  pub max_size : ℕ

unfoldable pub stats : {P : Type 0} → RingBuffer P → Stats
unfolding count
stats b = record {
  count = count b;
  total = b.total_appended;
  dropped = b.total_dropped;
  max_size = b.max_size;
}

abbrev pub system_topics : List String
system_topics = "_dht" ∷ "_raft" ∷ "_ping" ∷ "_heartbeat" ∷ "_discovery" ∷ "agent:echo" ∷ []

unfoldable pub is_system_topic : String → Bool
unfolding member
is_system_topic topic = if member topic system_topics then true else starts_with topic "_"
