-- ===== src/Depin/DeviceLog.antt =====
-- `class DePINWAL` of depin/wal.py: the table `depin_wal` as its list of rows, in the order of their numbers.
-- `T` is the type of telemetry. The hash of a row, a SHA-256 of its device, topic, content and time, is
-- the parameter `hash_of`. `next_seq` is what AUTOINCREMENT gives next; an insert that
-- is ignored is taken not to use it up, where SQLite may also skip a number.
pub mod Numbers
pub mod CatchUp
use census_konantgit_sys_p2p.Prelude.{
  ◌∷◌, [], List, zero, suc, ℕ, String, Option, none, some, ◌++◌, if◌then◌else◌, true, max, Bool,
  false, ◌==◌, not, ltb, str_eq, ◌||◌, ◌-◌, map, ◌+◌, length, ◌*◌, take,
}
use census_konantgit_sys_p2p.Outcome.{Outcome, returned, raised, attribute_error}
use census_konantgit_sys_p2p.Dict.{Dict, insert, get_or}

pub record Row (T : Type 0) : Type 0 where
  pub seq : ℕ
  pub device_id : String
  pub topic : String
  pub telemetry : T
  pub ts : ℕ
  pub hash : String

-- `is_open` is whether there is a connection, without which every operation raises.
pub record DeviceLog (T : Type 0) : Type 0 where
  pub device_id : String
  pub ttl_days : ℕ
  pub is_open : Bool
  pub rows : List (Row T)
  pub next_seq : ℕ

-- `ts or time.time()`
unfoldable pub time_or : Option ℕ → ℕ → ℕ
time_or none now = now
time_or (some ts) now = if ts == 0 then now else ts

unfoldable pub count_topic : String → Dict ℕ → Dict ℕ
unfolding insert get_or
count_topic topic d = insert topic (get_or topic 0 d + 1) d

module _ {T : Type 0} where
  unfoldable pub new_log : String → ℕ → DeviceLog T
  new_log device_id ttl_days = record {
    device_id = device_id;
    ttl_days = ttl_days;
    is_open = false;
    rows = [];
    next_seq = 1;
  }

  -- `open` on the same file.
  unfoldable pub open_log : DeviceLog T → DeviceLog T
  open_log l = record l { is_open = true }

  -- `close`
  unfoldable pub close : DeviceLog T → DeviceLog T
  close l = record l { is_open = false }

  unfoldable pub has_hash : String → List (Row T) → Bool
  has_hash hash [] = false
  has_hash hash (r ∷ rs) = str_eq r.hash hash || has_hash hash rs

  -- `append`
  unfoldable pub append :
      (hash_of : String → String → T → ℕ → String)
      → String
      → T
      → Option ℕ
      → (now : ℕ) → DeviceLog T
      → Outcome String × DeviceLog T
  unfolding has_hash time_or
  append hash_of topic telemetry ts now l =
      let at = time_or ts now in
      let hash = hash_of l.device_id topic telemetry at in
      let row : Row T = record {
        seq = l.next_seq;
        device_id = l.device_id;
        topic = topic;
        telemetry = telemetry;
        ts = at;
        hash = hash;
      } in
      if not l.is_open
      then (raised attribute_error, l)
      else if has_hash hash l.rows
      then (returned hash, l)
      else (returned hash, record l { rows = l.rows ++ row ∷ []; next_seq = l.next_seq + 1 })

  -- `WHERE device_id = ?`
  unfoldable pub of_device : String → List (Row T) → List (Row T)
  of_device id [] = []
  of_device id (r ∷ rs) =
      let rest = of_device id rs in if str_eq r.device_id id then r ∷ rest else rest

  -- `AND seq > ?`
  unfoldable pub after_seq : ℕ → List (Row T) → List (Row T)
  after_seq seq [] = []
  after_seq seq (r ∷ rs) = let rest = after_seq seq rs in if ltb seq r.seq then r ∷ rest else rest

  -- `SELECT MAX(seq)`, 0 where there is none.
  unfoldable pub max_seq : List (Row T) → ℕ
  max_seq [] = 0
  max_seq (r ∷ rs) = max r.seq (max_seq rs)

  unfoldable pub not_before : ℕ → List (Row T) → List (Row T)
  not_before cutoff [] = []
  not_before cutoff (r ∷ rs) =
      let rest = not_before cutoff rs in if ltb r.ts cutoff then rest else r ∷ rest

  -- `get_all`
  unfoldable pub get_all : (limit : ℕ) → DeviceLog T → Outcome (List T)
  unfolding of_device
  get_all limit l =
      if l.is_open
      then returned (map (λ r. r.telemetry) (take limit (of_device l.device_id l.rows)))
      else raised attribute_error

  -- `get_since`
  unfoldable pub get_since : ℕ → DeviceLog T → Outcome (List (Row T))
  unfolding of_device after_seq
  get_since seq l =
      if l.is_open
      then returned (after_seq seq (of_device l.device_id l.rows))
      else raised attribute_error

  -- `count`
  unfoldable pub count : DeviceLog T → Outcome ℕ
  unfolding of_device
  count l =
      if l.is_open then returned (length (of_device l.device_id l.rows)) else raised attribute_error

  -- `last_seq`
  unfoldable pub last_seq : DeviceLog T → Outcome ℕ
  unfolding of_device max_seq
  last_seq l =
      if l.is_open
      then returned (max_seq (of_device l.device_id l.rows))
      else raised attribute_error

  -- `cleanup`: the cutoff may lie before time 0.
  unfoldable pub cleanup : (now : ℕ) → DeviceLog T → Outcome (Unit {0}) × DeviceLog T
  unfolding not_before
  cleanup now l =
      if l.is_open
      then (returned tt, record l { rows = not_before (now - l.ttl_days * 86400) l.rows })
      else (raised attribute_error, l)

  -- `GROUP BY topic`
  unfoldable pub group_by_topic : List (Row T) → Dict ℕ → Dict ℕ
  unfolding count_topic
  group_by_topic [] d = d
  group_by_topic (r ∷ rs) d = group_by_topic rs (count_topic r.topic d)

  -- `count_by_topic`
  unfoldable pub count_by_topic : DeviceLog T → Outcome (Dict ℕ)
  unfolding of_device group_by_topic
  count_by_topic l =
      if l.is_open
      then returned (group_by_topic (of_device l.device_id l.rows) [])
      else raised attribute_error
