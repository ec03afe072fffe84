-- ===== src/Coordination/Dedup/Expiry.antt =====
-- When a message counts as processed: marking, the time to live, and the cleanup.
use census_konantgit_sys_p2p.Coordination.Dedup.{
  select_live, is_processed, count_expired, has_row, delete_expired, mark_processed, cleanup,
  insert_or_ignore, DedupLog, Row,
}
use census_konantgit_sys_p2p.Prelude.{
  String, ℕ, List, ◌≡◌, ◌≤◌, ◌∷◌, true, length, false, ◌++◌, arith, [], if◌then◌else◌, ◌+◌, ap,
  refl, str_eq, ◌||◌, ◌&&◌, ltb, eq_iff,
}
use census_konantgit_sys_p2p.Outcome.{returned}

has_row-of_live :
    (id : String) (now : ℕ) (rs : List Row) → select_live id now rs ≡ true → has_row id rs ≡ true
unfolding has_row select_live
has_row-of_live id now [] h = cc
has_row-of_live id now (r ∷ rs) h = ground (arith, has_row-of_live id now rs)

select_live-append :
    (id : String) (now : ℕ) (rs : List Row) (r : Row)
    → select_live id now (rs ++ r ∷ [])
      ≡ (select_live id now rs || (str_eq r.msg_id id && ltb now r.ttl_until))
unfolding select_live
select_live-append id now [] r = ground arith
select_live-append id now (q ∷ rs) r = ground (arith, select_live-append id now rs r)

pub live-false-of_no_row :
    (id : String) (now : ℕ) (rs : List Row) → has_row id rs ≡ false → select_live id now rs ≡ false
unfolding has_row select_live
live-false-of_no_row id now [] h = refl
live-false-of_no_row id now (r ∷ rs) h = ground (arith, live-false-of_no_row id now rs)

-- On an open log, a message without a row counts as processed after it is marked exactly until its time to live is over, and marking changes the answer for no other message.
pub is_processed-mark_processed :
    (id j hash : String) (now later : ℕ) (d : DedupLog)
    → d.is_open ≡ true
    → has_row id d.rows ≡ false
    → is_processed j later (mark_processed id hash now d).1
      ≡ (if str_eq id j then returned (ltb later (now + d.ttl_sec)) else is_processed j later d)
unfolding is_processed mark_processed insert_or_ignore
is_processed-mark_processed id j hash now later d o h = rw o (
    rw h (
      ground (
        arith,
        o,
        eq_iff id j,
        live-false-of_no_row j later d.rows,
        select_live-append j later d.rows
            (record { msg_id = id; result_hash = hash; ts = now; ttl_until = now + d.ttl_sec }),
      )))

-- Once the row of a message has expired and no cleanup has removed it, marking the message again has no effect: every later test still says that it is not processed.
expired_mark_is_lost :
    (id hash : String) (now later : ℕ) (d : DedupLog)
    → d.is_open ≡ true
    → has_row id d.rows ≡ true
    → is_processed id later d ≡ returned false
    → is_processed id later (mark_processed id hash now d).1 ≡ returned false
unfolding is_processed mark_processed insert_or_ignore
expired_mark_is_lost id hash now later d o h e = rw o (rw h (rw o at e))

-- Expiry is final: what is not live now is not live later.
live_antitone :
    (id : String) (now later : ℕ) (rs : List Row)
    → now ≤ later
    → select_live id later rs ≡ true
    → select_live id now rs ≡ true
unfolding select_live
live_antitone id now later [] le h = cc
live_antitone id now later (r ∷ rs) le h = ground (arith, live_antitone id now later rs le)

select_live-delete_expired :
    (id : String) (now later : ℕ) (rs : List Row)
    → now ≤ later
    → select_live id later (delete_expired now rs) ≡ select_live id later rs
unfolding select_live delete_expired
select_live-delete_expired id now later [] le = refl
select_live-delete_expired id now later (r ∷ rs) le =
    ground (arith, select_live-delete_expired id now later rs le)

count_expired-delete_expired :
    (now : ℕ) (rs : List Row) → count_expired now (delete_expired now rs) ≡ 0
unfolding count_expired delete_expired
count_expired-delete_expired now [] = refl
count_expired-delete_expired now (r ∷ rs) = ground (arith, count_expired-delete_expired now rs)

length-delete_expired :
    (now : ℕ) (rs : List Row) → length (delete_expired now rs) + count_expired now rs ≡ length rs
unfolding count_expired delete_expired
length-delete_expired now [] = refl
length-delete_expired now (r ∷ rs) = ground (arith, length-delete_expired now rs)

-- A cleanup changes no answer from its own time on, leaves no row that counts as expired at that time, and removes exactly as many rows as counted as expired.
pub cleanup_invisible :
    (id : String) (now later : ℕ) (d : DedupLog)
    → now ≤ later
    → d.is_open ≡ true
    → let d' = (cleanup now d).1 in
      (is_processed id later d' ≡ is_processed id later d)
      × (count_expired now d'.rows ≡ 0)
      × (length d'.rows + count_expired now d.rows ≡ length d.rows)
unfolding is_processed cleanup
cleanup_invisible id now later d le o = rw o (
  ap returned (select_live-delete_expired id now later d.rows le),
  count_expired-delete_expired now d.rows,
  length-delete_expired now d.rows,
)
