-- ===== src/Relay/Redundancy/Connect.antt =====
-- Which relay `connect` of relay/redundancy.py ends at, and what `reconnect` comes to.
use native.Mathlib.Nat.{mod-lt}
use census_konantgit_sys_p2p.Prelude.{
  zero, suc, ℕ, Option, none, some, length, ◌≡◌, ◌<◌, get_elem?, ◌+◌, ◌*◌, get_elem?-some, ◌%◌, ◌⊎◌,
  false, arith, Bool-cases, subst, ◌==◌, refl, inl, inr,
}
use census_konantgit_sys_p2p.Relay.Redundancy.{Relay, MultiRelay, attempts, connect, reconnect}
use census_konantgit_sys_p2p.Outcome.{raised, returned, zero_division_error}

module _ {C : Type 0} where
  -- The relay of an attempt.
  abbrev pub relay_at : MultiRelay C → ℕ → Option Relay
  relay_at m attempt = get_elem? m.relay_list ((m.current_idx + attempt) % length m.relay_list)

  -- The factory gives no client at the attempt.
  abbrev pub IsDown : (ℕ → Relay → Option C) → MultiRelay C → ℕ → Type 0
  IsDown factory m attempt = (r : Relay) → relay_at m attempt ≡ some r → factory attempt r ≡ none

  relay_at-some :
      (m : MultiRelay C) (attempt : ℕ)
      → 0 < length m.relay_list
      → (r : Relay) × (relay_at m attempt ≡ some r)
  relay_at-some m attempt h = get_elem?-some m.relay_list _ (mod-lt (m.current_idx + attempt) h)

  attempts_down :
      (factory : ℕ → Relay → Option C) (left attempt : ℕ) (m : MultiRelay C)
      → 0 < length m.relay_list
      → ((k : ℕ) → k < left → IsDown factory m (attempt + k))
      → attempts factory left attempt m ≡ (returned false, m)
  unfolding attempts
  attempts_down factory zero attempt m h down = refl
  attempts_down factory (suc left) attempt m h down =
      let (r, e) = relay_at-some m attempt h in
      let none_there : factory attempt r ≡ none =
        subst (λ n. factory n r ≡ none) (omega arith)
          (down 0 (omega arith) r (subst (λ n. relay_at m n ≡ some r) (omega arith) e)) in
      rw (e, attempts)
        (rw (none_there, attempts)
          (attempts_down factory left (attempt + 1) m h
            (λ k lt. subst (IsDown factory m) (omega arith) (down (suc k) (omega (arith, lt))))))

  -- `reconnect` never connects, whichever relays are there: with a relay in the list it answers `False`, having dropped the client and moved to the next place in the list, and without one it raises `ZeroDivisionError`.
  reconnect_fails :
      (m : MultiRelay C)
      → ((length m.relay_list ≡ 0) × (reconnect m ≡ (raised zero_division_error, m)))
        ⊎ ((0 < length m.relay_list)
            × (reconnect m ≡ (
              returned false,
              record m {
                current_idx = (m.current_idx + 1) % length m.relay_list;
                inner_client = none;
              },
            )))
  unfolding reconnect connect
  reconnect_fails m = elim (Bool-cases (length m.relay_list == 0)) [
    | inl e ↦ inl (ground arith, rw e refl)
    | inr e ↦
        let some_relay : 0 < length m.relay_list = ground arith in
        inr (
          some_relay,
          rw e (
              attempts_down (λ _ _. none) (length m.relay_list * 2) 0
                (record m {
                  current_idx = (m.current_idx + 1) % length m.relay_list;
                  inner_client = none;
                })
                some_relay (λ _ _ _ _. refl)),
        )
  ]
