-- ===== src/Coordination/Dedup/Unique.antt =====
-- The primary key: no message has two rows, so the rows are one for each message.
use census_konantgit_sys_p2p.Coordination.Dedup.{
  has_row, insert_or_ignore, delete_expired, mark_processed, cleanup, Row, DedupLog,
}
use census_konantgit_sys_p2p.Prelude.{
  List, String, ℕ, ◌∷◌, Bool-cases, ◌≡◌, ◌++◌, [], false, inl, arith, ◌||◌, eq_iff, inr, refl, ◌+◌,
  str_eq,
}

abbrev pub IsKeyed : List Row → Type 0
IsKeyed [] = Unit
IsKeyed (r ∷ rs) = (has_row r.msg_id rs ≡ false) × IsKeyed rs

has_row-append :
    (id : String) (rs : List Row) (r : Row)
    → has_row id (rs ++ r ∷ []) ≡ (has_row id rs || str_eq r.msg_id id)
unfolding has_row
has_row-append id [] r = ground arith
has_row-append id (q ∷ rs) r = ground (arith, has_row-append id rs r)

append-IsKeyed :
    (rs : List Row) (r : Row) → has_row r.msg_id rs ≡ false → IsKeyed rs → IsKeyed (rs ++ r ∷ [])
unfolding has_row
append-IsKeyed [] r h k = (refl, tt)
append-IsKeyed (q ∷ rs) r h k = ground (
  arith,
  append-IsKeyed rs r,
  has_row-append q.msg_id rs r,
  eq_iff q.msg_id r.msg_id,
  eq_iff r.msg_id q.msg_id,
)

insert_or_ignore-IsKeyed : (r : Row) (rs : List Row) → IsKeyed rs → IsKeyed (insert_or_ignore r rs)
unfolding insert_or_ignore
insert_or_ignore-IsKeyed r rs k = elim (Bool-cases (has_row r.msg_id rs)) [
  | inl e ↦ rw e k
  | inr e ↦ rw e (append-IsKeyed rs r e k)
]

has_row-delete_expired :
    (id : String) (now : ℕ) (rs : List Row)
    → has_row id rs ≡ false
    → has_row id (delete_expired now rs) ≡ false
unfolding has_row delete_expired
has_row-delete_expired id now [] h = refl
has_row-delete_expired id now (r ∷ rs) h = ground (arith, has_row-delete_expired id now rs)

delete_expired-IsKeyed : (now : ℕ) (rs : List Row) → IsKeyed rs → IsKeyed (delete_expired now rs)
unfolding delete_expired
delete_expired-IsKeyed now [] k = tt
delete_expired-IsKeyed now (r ∷ rs) k =
    ground (arith, delete_expired-IsKeyed now rs k.1, has_row-delete_expired r.msg_id now rs)

-- Every operation that writes keeps at most one row for each message.
ops-IsKeyed :
    (id hash : String) (now : ℕ) (d : DedupLog)
    → IsKeyed d.rows
    → IsKeyed (mark_processed id hash now d).1.rows × IsKeyed (cleanup now d).1.rows
unfolding mark_processed cleanup
ops-IsKeyed id hash now d k = ground (
  arith,
  insert_or_ignore-IsKeyed
      (record { msg_id = id; result_hash = hash; ts = now; ttl_until = now + d.ttl_sec }) d.rows k,
  delete_expired-IsKeyed now d.rows k,
)
