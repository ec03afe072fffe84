-- ===== src/Relay/Client/Backoff.antt =====
-- The delay between two attempts of relay/client.py to connect.
use Prim.Native.Nat.{◌^◌}
use native.Mathlib.Nat.{mul-le-mul_right, pow-le-pow_right}
use census_konantgit_sys_p2p.Prelude.{ℕ, ◌≤◌, arith, ◌*◌, min}
use census_konantgit_sys_p2p.Relay.Client.{compute_backoff}

-- With a jitter from 0.8 to 1.2, every delay is between 0.8 and 30 seconds, an attempt after the fifth waits 25.6 seconds at least, and a later attempt with the same jitter never waits less than an earlier one.
compute_backoff-bounds :
    (attempt later jitter : ℕ)
    → 800 ≤ jitter
    → jitter ≤ 1200
    → attempt ≤ later
    → (800 ≤ compute_backoff attempt jitter)
      × (compute_backoff attempt jitter ≤ 30000)
      × (5 ≤ attempt → 25600 ≤ compute_backoff attempt jitter)
      × (compute_backoff attempt jitter ≤ compute_backoff later jitter)
unfolding compute_backoff
compute_backoff-bounds attempt later jitter low high le =
    let times =
      λ (m n : ℕ) (h : m ≤ n). mul-le-mul_right jitter (pow-le-pow_right {n = 2} (omega arith) h) in
    let least : 2 ^ 0 * jitter ≤ 2 ^ min attempt 5 * jitter =
      times 0 (min attempt 5) (omega arith) in
    let grows = times (min attempt 5) (min later 5) (omega (arith, le)) in
    (
      omega (arith, least, low),
      omega arith,
      λ many.
          let most : 2 ^ 5 * jitter ≤ 2 ^ min attempt 5 * jitter =
            times 5 (min attempt 5) (omega (arith, many)) in
          omega (arith, most, low),
      omega (arith, grows),
    )
