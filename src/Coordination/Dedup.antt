-- ===== src/Coordination/Dedup.antt =====
-- `class DedupLog` of coordination/dedup.py. The rows are those of the table `dedup_log`, in the
-- order of insertion, and stay in the file while the connection is closed. Times are naturals, in
-- seconds or in any finer unit that `ttl_sec` is given in too. Each method is one step: it holds the
-- lock from its statement to its commit.
pub mod Expiry
pub mod Unique
use census_konantgit_sys_p2p.Prelude.{
  ℕ, ◌+◌, String, true, false, Option, List, ◌∷◌, none, if◌then◌else◌, Bool, ltb, ◌++◌, str_eq,
  some, length, min, ◌||◌, [], ◌&&◌,
}
use census_konantgit_sys_p2p.Outcome.{Done, Outcome, returned, raised, attribute_error}

pub record Row : Type 0 where
  pub msg_id : String
  pub result_hash : String
  pub ts : ℕ
  pub ttl_until : ℕ

pub record DedupLog : Type 0 where
  pub ttl_sec : ℕ
  pub rows : List Row
  pub is_open : Bool

unfoldable pub open_log : DedupLog → DedupLog
open_log d = record d { is_open = true }

unfoldable pub close : DedupLog → DedupLog
close d = record d { is_open = false }

-- `SELECT 1 FROM dedup_log WHERE msg_id = ? AND ttl_until > ?`
unfoldable pub select_live : String → ℕ → List Row → Bool
select_live id now [] = false
select_live id now (r ∷ rs) = (str_eq r.msg_id id && ltb now r.ttl_until) || select_live id now rs

-- The primary key: a row of the message is there, expired or not.
unfoldable pub has_row : String → List Row → Bool
has_row id [] = false
has_row id (r ∷ rs) = str_eq r.msg_id id || has_row id rs

-- `INSERT OR IGNORE INTO dedup_log`
unfoldable pub insert_or_ignore : Row → List Row → List Row
unfolding has_row
insert_or_ignore r rs = if has_row r.msg_id rs then rs else rs ++ r ∷ []

-- `DELETE FROM dedup_log WHERE ttl_until < ?`
unfoldable pub delete_expired : ℕ → List Row → List Row
delete_expired now [] = []
delete_expired now (r ∷ rs) =
    let rest = delete_expired now rs in if ltb r.ttl_until now then rest else r ∷ rest

-- `SELECT COUNT(*) FROM dedup_log WHERE ttl_until < ?`
unfoldable pub count_expired : ℕ → List Row → ℕ
count_expired now [] = 0
count_expired now (r ∷ rs) = (if ltb r.ttl_until now then 1 else 0) + count_expired now rs

-- `SELECT MIN(ts) FROM dedup_log`
unfoldable pub oldest_ts : List Row → Option ℕ
oldest_ts [] = none
oldest_ts (r ∷ rs) = elim (oldest_ts rs) [ none ↦ some r.ts | some t ↦ some (min r.ts t) ]

-- Without a connection `self._db` is None, and its `execute` raises AttributeError.
unfoldable pub is_processed : String → ℕ → DedupLog → Outcome Bool
unfolding select_live
is_processed id now d =
    if d.is_open then returned (select_live id now d.rows) else raised attribute_error

unfoldable pub mark_processed : String → String → ℕ → DedupLog → Done × DedupLog
unfolding insert_or_ignore
mark_processed id hash now d =
    let row : Row = record {
      msg_id = id;
      result_hash = hash;
      ts = now;
      ttl_until = now + d.ttl_sec;
    } in
    if d.is_open
    then (returned tt, record d { rows = insert_or_ignore row d.rows })
    else (raised attribute_error, d)

unfoldable pub count : DedupLog → Outcome ℕ
count d = if d.is_open then returned (length d.rows) else raised attribute_error

unfoldable pub cleanup : ℕ → DedupLog → Done × DedupLog
unfolding delete_expired
cleanup now d =
    if d.is_open
    then (returned tt, record d { rows = delete_expired now d.rows })
    else (raised attribute_error, d)

pub record Stats : Type 0 where
  pub total_entries : ℕ
  pub expired_entries : ℕ
  pub oldest_entry_ts : Option ℕ

-- `get_stats`, less the constant `ttl_days`.
unfoldable pub get_stats : ℕ → DedupLog → Outcome Stats
unfolding count_expired oldest_ts
get_stats now d =
    if d.is_open
    then returned (record {
      total_entries = length d.rows;
      expired_entries = count_expired now d.rows;
      oldest_entry_ts = oldest_ts d.rows;
    })
    else raised attribute_error
