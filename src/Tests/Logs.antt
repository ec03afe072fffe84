-- ===== src/Tests/Logs.antt =====
-- Runs and instances for the message log, phase0/wal.py.
use census_konantgit_sys_p2p.Prelude.{
  ℕ, String, [], ◌∷◌, ◌≡◌, refl, some, str_ne, All, ◌<◌, length, ◌≤◌,
}
use census_konantgit_sys_p2p.Phase0.Wal.{
  Row, WalBuffer, replay, of_topic, after_ts, order_by_ts, insert_by_ts, ts_of,
}
use census_konantgit_sys_p2p.Phase0.Wal.Replay.{replay-After, IsOrdered}

abbrev row : String → ℕ → Row ℕ
row id ts = record {
  id = id;
  topic = "agent:a";
  sender = "b";
  payload = ts;
  signature = "";
  pubkey = "";
  ts = ts;
  received_at = 9;
}

abbrev log : WalBuffer ℕ
log = record {
  rows = row "m3" 7 ∷ row "m1" 5 ∷ row "m2" 5 ∷ row "m4" 6 ∷ [];
  ring = record { max_size = 4; buffer = []; total_appended = 0; total_dropped = 0 };
}

-- `m2`, of the time of `m1`, is not replayed.
replayed : replay "agent:a" (some "m1") 10 log ≡ row "m4" 6 ∷ row "m3" 7 ∷ []
unfolding replay of_topic after_ts order_by_ts insert_by_ts ts_of
replayed = refl

replay-After_example :
    let given = replay "agent:a" (some "m1") 10 log in
    All (λ r. (5 < r.ts) × (r.topic ≡ "agent:a")) given × IsOrdered given × (length given ≤ 10)
unfolding ts_of
replay-After_example = replay-After "agent:a" "m1" 5 10 log (str_ne "m1" "" refl) refl
