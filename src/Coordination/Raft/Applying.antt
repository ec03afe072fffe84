-- ===== src/Coordination/Raft/Applying.antt =====
-- `_apply_committed`: it ends, raises nothing and hands every committed command to the callbacks,
-- once and in the order of the log.
use census_konantgit_sys_p2p.Prelude.{
  List, ℕ, get_elem?, ◌∷◌, ◌+◌, ◌≡◌, [], some, ◌≤◌, length, drop, suc, arith, take, zero,
  get_elem?-some, ◌-◌, ◌∙◌, max, Bool-cases, leb, inl, leb→le, inr, refl,
}
use census_konantgit_sys_p2p.Coordination.Raft.{apply_rounds, LogEntry, MicroRaft, apply_committed}
use census_konantgit_sys_p2p.Coordination.ConsumerGroup.{Callback, run_callbacks}
use census_konantgit_sys_p2p.Outcome.{returned}

drop-step :
    {C : Type 0} (log : List (LogEntry C)) (i : ℕ) (e : LogEntry C)
    → get_elem? log i ≡ some e
    → drop i log ≡ e ∷ drop (suc i) log
drop-step [] i e h = cc
drop-step (f ∷ log) zero e h = ground arith
drop-step (f ∷ log) (suc i) e h = drop-step log i e h

module _ {C W : Type 0} where
  -- The commands of the entries, run in order.
  unfoldable pub run_entries : List (Callback C W) → List (LogEntry C) → W → W
  run_entries cbs [] w = w
  run_entries cbs (e ∷ es) w = run_entries cbs es (run_callbacks cbs e.command w)

  apply_rounds_lem :
      (n : ℕ) (r : MicroRaft C W) (w : W)
      → r.last_applied + n ≤ length r.log
      → apply_rounds n r w ≡ (
        returned tt,
        record r { last_applied = r.last_applied + n },
        run_entries r.commit_callbacks (take n (drop r.last_applied r.log)) w,
      )
  unfolding apply_rounds run_entries
  apply_rounds_lem zero r w h =
      let same : r.last_applied + 0 ≡ r.last_applied = omega arith in rw same
  apply_rounds_lem (suc n) r w h =
      let (e, found) = get_elem?-some r.log r.last_applied (omega arith) in
      let sum : r.last_applied + 1 + n ≡ r.last_applied + suc n = omega arith in
      let next : r.last_applied + 1 ≡ suc r.last_applied = omega arith in
      let ih =
        apply_rounds_lem n (record r { last_applied = r.last_applied + 1 })
          (run_callbacks r.commit_callbacks e.command w) (omega arith) in
      rw (found, apply_rounds) (rw (drop-step r.log r.last_applied e found) (ih ∙ rw sum (rw next)))

  -- The entries that one run of `_apply_committed` hands on.
  abbrev pub unapplied : MicroRaft C W → List (LogEntry C)
  unapplied r = take (r.commit_index - r.last_applied) (drop r.last_applied r.log)

  -- While the commit index lies within the log, `_apply_committed` ends without an exception, hands exactly the commands between the last applied index and the commit index to the callbacks, once and in the order of the log, and moves the last applied index up to the commit index, if it was below; nothing else of the node changes.
  pub apply_committed_lem :
      (r : MicroRaft C W) (w : W)
      → r.commit_index ≤ length r.log
      → apply_committed r w ≡ (
        returned tt,
        record r { last_applied = max r.last_applied r.commit_index },
        run_entries r.commit_callbacks (unapplied r) w,
      )
  unfolding apply_committed
  apply_committed_lem r w h = elim (Bool-cases (leb r.last_applied r.commit_index)) [
    | inl le ↦
        let reach : r.last_applied + (r.commit_index - r.last_applied)
            ≡ max r.last_applied r.commit_index =
          omega (arith, leb→le r.last_applied r.commit_index le) in
        apply_rounds_lem (r.commit_index - r.last_applied) r w
          (omega (arith, leb→le r.last_applied r.commit_index le))
        ∙ rw reach
    | inr gt ↦
        let idle : r.commit_index - r.last_applied ≡ 0 = ground arith in
        let stays : max r.last_applied r.commit_index ≡ r.last_applied = ground arith in
        rw (idle, stays) (unfold apply_rounds run_entries in refl)
  ]
