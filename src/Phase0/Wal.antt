-- ===== src/Phase0/Wal.antt =====
-- `class WALBuffer` of phase0/wal.py: the table `messages` as its list of rows in the order of their
-- insertion, and the ring buffer for system topics. `P` is the type of payloads, `empty` the payload
-- `{}`, and `id_of` the identifier that is made of a message without one, the beginning of a SHA-256.
pub mod Replay
use census_konantgit_sys_p2p.Prelude.{
  ◌∷◌, [], List, ◌++◌, zero, suc, Option, ℕ, if◌then◌else◌, String, take, Bool, none, length, ltb,
  str_eq, ◌-◌, some, false, ◌+◌, ◌||◌,
}
use census_konantgit_sys_p2p.Phase0.RingBuffer.{RingBuffer, entry_of, is_system_topic}
use census_konantgit_sys_p2p.Phase0.RingBuffer

-- A message; a missing text is empty, which the code does not tell apart.
pub record Message (P : Type 0) : Type 0 where
  pub id : String
  pub topic : String
  pub sender : Option String
  pub payload : Option P
  pub signature : String
  pub pubkey : String
  pub ts : Option ℕ

pub record Row (P : Type 0) : Type 0 where
  pub id : String
  pub topic : String
  pub sender : String
  pub payload : P
  pub signature : String
  pub pubkey : String
  pub ts : ℕ
  pub received_at : ℕ

pub record WalBuffer (P : Type 0) : Type 0 where
  pub rows : List (Row P)
  pub ring : RingBuffer P

module _ {P : Type 0} where
  unfoldable pub new_wal : ℕ → WalBuffer P
  new_wal ring_size = record { rows = []; ring = RingBuffer.new_buffer ring_size }

  unfoldable pub has_id : String → List (Row P) → Bool
  has_id id [] = false
  has_id id (r ∷ rs) = str_eq r.id id || has_id id rs

  -- `INSERT OR IGNORE`
  unfoldable pub insert_or_ignore : Row P → List (Row P) → List (Row P)
  unfolding has_id
  insert_or_ignore r rs = if has_id r.id rs then rs else rs ++ r ∷ []

  -- `SELECT ts FROM messages WHERE id = ?`
  unfoldable pub ts_of : String → List (Row P) → Option ℕ
  ts_of id [] = none
  ts_of id (r ∷ rs) = if str_eq r.id id then some r.ts else ts_of id rs

  -- The rows of a topic, and of them those after a time.
  unfoldable pub of_topic : String → List (Row P) → List (Row P)
  of_topic topic [] = []
  of_topic topic (r ∷ rs) =
      let rest = of_topic topic rs in if str_eq r.topic topic then r ∷ rest else rest

  unfoldable pub after_ts : ℕ → List (Row P) → List (Row P)
  after_ts since [] = []
  after_ts since (r ∷ rs) =
      let rest = after_ts since rs in if ltb since r.ts then r ∷ rest else rest

  -- `ORDER BY ts ASC`, where rows of one time keep their order.
  unfoldable pub insert_by_ts : Row P → List (Row P) → List (Row P)
  insert_by_ts r [] = r ∷ []
  insert_by_ts r (s ∷ rs) = if ltb s.ts r.ts then s ∷ insert_by_ts r rs else r ∷ s ∷ rs

  unfoldable pub order_by_ts : List (Row P) → List (Row P)
  unfolding insert_by_ts
  order_by_ts [] = []
  order_by_ts (r ∷ rs) = insert_by_ts r (order_by_ts rs)

  -- `replay`; an empty identifier counts as none.
  unfoldable pub replay : String → Option String → ℕ → WalBuffer P → List (Row P)
  unfolding of_topic after_ts order_by_ts ts_of
  replay topic none limit w = take limit (order_by_ts (of_topic topic w.rows))
  replay topic (some since_id) limit w =
      if str_eq since_id ""
      then take limit (order_by_ts (of_topic topic w.rows))
      else elim (ts_of since_id w.rows) [
        | none ↦ []
        | some since ↦ take limit (order_by_ts (after_ts since (of_topic topic w.rows)))
      ]

  unfoldable pub keep_from : ℕ → List (Row P) → List (Row P)
  keep_from before [] = []
  keep_from before (r ∷ rs) =
      let rest = keep_from before rs in if ltb r.ts before then rest else r ∷ rest

  -- `prune`: the number of the deleted rows, and the log without them.
  unfoldable pub prune : ℕ → WalBuffer P → ℕ × WalBuffer P
  unfolding keep_from
  prune before w =
      let kept = keep_from before w.rows in (length w.rows - length kept, record w { rows = kept })

  unfoldable pub count : Option String → WalBuffer P → ℕ
  unfolding of_topic
  count none w = length w.rows
  count (some topic) w = if str_eq topic "" then length w.rows else length (of_topic topic w.rows)

  unfoldable pub total_count : WalBuffer P → ℕ
  unfolding count
  total_count w = count none w + w.ring.total_appended

  module _ (empty : P) (id_of : Message P → String) where
    -- The identifier of a message, its own or one made of it.
    abbrev pub message_id : Message P → String
    message_id m = if str_eq m.id "" then id_of m else m.id

    abbrev pub row_of : Message P → ℕ → Row P
    row_of m now = record {
      id = message_id m;
      topic = m.topic;
      sender = RingBuffer.get_or_else "" m.sender;
      payload = RingBuffer.get_or_else empty m.payload;
      signature = m.signature;
      pubkey = m.pubkey;
      ts = RingBuffer.get_or_else now m.ts;
      received_at = now;
    }

    -- `_append_sqlite` and `append_business`
    unfoldable pub append_business : Message P → ℕ → WalBuffer P → String × WalBuffer P
    unfolding insert_or_ignore
    append_business m now w =
        (message_id m, record w { rows = insert_or_ignore (row_of m now) w.rows })

    unfoldable pub append_system : Message P → ℕ → WalBuffer P → WalBuffer P
    append_system m now w =
        let seen : RingBuffer.Message P = record {
          payload = m.payload;
          sender = m.sender;
          ts = m.ts;
        } in
        record w { ring = RingBuffer.append (entry_of empty m.topic now seen) w.ring }

    unfoldable pub append : Message P → ℕ → WalBuffer P → String × WalBuffer P
    unfolding append_business append_system is_system_topic
    append m now w =
        if is_system_topic m.topic then (m.id, append_system m now w) else append_business m now w
