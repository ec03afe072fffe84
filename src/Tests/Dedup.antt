-- ===== src/Tests/Dedup.antt =====
-- Runs and instances for the exactly-once log, coordination/dedup.py.
use census_konantgit_sys_p2p.Prelude.{
  ◌∷◌, [], ◌≡◌, true, false, refl, if◌then◌else◌, length, str_eq, ltb, ◌+◌, arith,
}
use census_konantgit_sys_p2p.Coordination.Dedup.{
  DedupLog, is_processed, Row, cleanup, has_row, mark_processed, count_expired,
}
use census_konantgit_sys_p2p.Outcome.{returned}
use census_konantgit_sys_p2p.Coordination.Dedup.Expiry.{
  is_processed-mark_processed, cleanup_invisible,
}

abbrev empty_log : DedupLog
empty_log = record { ttl_sec = 10; rows = []; is_open = true }

abbrev old_row : Row
old_row = record { msg_id = "a:1"; result_hash = ""; ts = 5; ttl_until = 15 }

abbrev old_log : DedupLog
old_log = record { ttl_sec = 10; rows = old_row ∷ []; is_open = true }

mark_and_test : is_processed "a:1" 104 (mark_processed "a:1" "" 100 empty_log).1 ≡ returned true
unfolding is_processed mark_processed
mark_and_test = refl

no_rows : has_row "a:1" empty_log.rows ≡ false
unfolding has_row
no_rows = refl

is_processed-mark_processed_example :
    is_processed "a:1" 104 (mark_processed "a:1" "" 100 empty_log).1 ≡ (
      if str_eq "a:1" "a:1"
      then returned (ltb 104 (100 + 10))
      else is_processed "a:1" 104 empty_log)
is_processed-mark_processed_example =
    is_processed-mark_processed "a:1" "a:1" "" 100 104 empty_log refl no_rows

old_row_there : has_row "a:1" old_log.rows ≡ true
unfolding has_row
old_row_there = refl

old_row_expired : is_processed "a:1" 21 old_log ≡ returned false
unfolding is_processed
old_row_expired = refl

cleanup_invisible_example :
    let d' = (cleanup 20 old_log).1 in
    (is_processed "a:1" 21 d' ≡ is_processed "a:1" 21 old_log)
    × (count_expired 20 d'.rows ≡ 0)
    × (length d'.rows + count_expired 20 old_log.rows ≡ length old_log.rows)
cleanup_invisible_example = cleanup_invisible "a:1" 20 21 old_log (omega arith) refl
