-- ===== src/Tests/Gate.antt =====
-- Runs and instances for the gate, phase0/sig_gate.py, and the ring buffer, phase0/ring_buffer.py.
use census_konantgit_sys_p2p.Prelude.{
  ℕ, List, [], ◌∷◌, ◌≡◌, refl, some, none, Option, true, arith, Bool, ltb, length, ◌≤◌,
}
use census_konantgit_sys_p2p.Phase0.SigGate
use census_konantgit_sys_p2p.Phase0.SigGate.{
  new_gate, check, check_all, check_from, check_sender, objection, pass_rate, check_rate,
  is_allowed, set_allowlist, deny, SigGate, recent,
}
use census_konantgit_sys_p2p.Phase0.SigGate.Rate.{check_all_rate, times_of}
use census_konantgit_sys_p2p.Phase0.RingBuffer.{
  Entry, append_all, new_buffer, recent as recent_entries,
}
use census_konantgit_sys_p2p.Phase0.RingBuffer.History.{append_all-history}
use census_konantgit_sys_p2p.Dict.{member, get_or, lookup, insert}

-- A check of signatures that accepts the bodies above 2.
abbrev verify : SigGate.Message ℕ → Bool
verify m = ltb 2 m.body

abbrev from_a : ℕ → Option (SigGate.Message ℕ)
from_a body =
    some (record { sender = some "a"; has_signature = true; has_pubkey = true; body = body })

abbrev gate : SigGate
gate = record {
  rate_limit = 2;
  window = 10;
  counters = [];
  allowlist = some ("a" ∷ "b" ∷ []);
  denylist = "b" ∷ [];
  counts = record { passed = 0; rejected_rate = 0; rejected_sig = 0; rejected_deny = 0 };
}

abbrev incoming : List (ℕ × Option (SigGate.Message ℕ))
incoming =
    (0, from_a 5) ∷ (1, from_a 1) ∷ (3, from_a 6) ∷ (4, from_a 7) ∷ (5, none) ∷ (12, from_a 8) ∷ []

passed_times : times_of "a" (check_all verify incoming gate).0 ≡ 0 ∷ 3 ∷ 12 ∷ []
unfolding check_all check check_from check_sender objection pass_rate check_rate is_allowed recent
    member get_or lookup insert
passed_times = refl

check_all_rate_example : length {A = ℕ} (3 ∷ 12 ∷ []) ≤ 2
unfolding check_all check check_from check_sender objection pass_rate check_rate is_allowed recent
    member get_or lookup insert
check_all_rate_example =
    check_all_rate verify incoming gate "a" 12 refl
      (omega arith, (omega arith, (omega arith, (omega arith, (omega arith, (omega arith, tt))))))

abbrev entry : ℕ → Entry ℕ
entry n = record { topic = "_ping"; payload = n; sender = "a"; ts = n; received_at = n }

append_all-history_example :
    let b = append_all (entry 1 ∷ entry 2 ∷ entry 3 ∷ []) (new_buffer 2) in
    (b.buffer ≡ entry 2 ∷ entry 3 ∷ [])
    × (b.total_appended ≡ 3)
    × (b.total_dropped ≡ 1)
    × (recent_entries 1 b ≡ entry 3 ∷ [])
append_all-history_example = append_all-history 2 1 (entry 1 ∷ entry 2 ∷ entry 3 ∷ []) (omega arith)
