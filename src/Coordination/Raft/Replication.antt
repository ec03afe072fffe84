-- ===== src/Coordination/Raft/Replication.antt =====
-- `_handle_append_entries` as a whole: the log, the commit index, what is applied, and the answer.
use census_konantgit_sys_p2p.Coordination.Raft.Rpc.{
  handle_append_entries, advance_commit, AppendEntries, prev_matches,
}
use census_konantgit_sys_p2p.Prelude.{
  ℕ, min, ◌≡◌, List, ◌+◌, false, length, true, if◌then◌else◌, ltb, take, ◌-◌, max, Bool-cases, drop,
  inl, [], arith, inr, refl,
}
use census_konantgit_sys_p2p.Coordination.Raft.{MicroRaft, LogEntry}
use census_konantgit_sys_p2p.Coordination.Raft.Logs.{
  IsIndexed, Agrees, append_all-Replicates, prev_matches-le,
}
use census_konantgit_sys_p2p.Outcome.{returned}
use census_konantgit_sys_p2p.Coordination.Raft.Applying.{run_entries, apply_committed_lem}

module _ {C W : Type 0} where
  -- The node once the leader's commit index has been taken over.
  abbrev pub advanced : ℕ → MicroRaft C W → MicroRaft C W
  advanced leader_commit r =
      let commit = min leader_commit (length r.log) in
      if ltb r.commit_index leader_commit
      then record r { commit_index = commit; last_applied = max r.last_applied commit }
      else r

  -- The entries that are applied on the way.
  abbrev pub newly_applied : ℕ → MicroRaft C W → List (LogEntry C)
  newly_applied leader_commit r =
      if ltb r.commit_index leader_commit
      then take (min leader_commit (length r.log) - r.last_applied) (drop r.last_applied r.log)
      else []

  pub advance_commit_lem :
      (leader_commit : ℕ) (r : MicroRaft C W) (w : W)
      → advance_commit leader_commit r w ≡ (
        returned (record { term = r.current_term; success = true }),
        advanced leader_commit r,
        run_entries r.commit_callbacks (newly_applied leader_commit r) w,
      )
  unfolding advance_commit
  advance_commit_lem leader_commit r w = elim (Bool-cases (ltb r.commit_index leader_commit)) [
    | inl more ↦
        let applied =
          apply_committed_lem (record r { commit_index = min leader_commit (length r.log) }) w
            (omega arith) in
        rw more (rw (applied, advance_commit) (rw applied))
    | inr no_more ↦ rw no_more (unfold run_entries in refl)
  ]

  -- If the entry before the sent ones has the leader's term there, and the indices of the log and of the sent entries are consecutive, the node answers success; its log keeps what stood before, has at each sent index an entry of the sent term, and its indices stay consecutive; the commit index moves up to the leader's, within the log, and exactly the entries up to it that were not applied are applied, in order.
  pub handle_append_entries_success :
      (a : AppendEntries C) (now : ℕ) (r : MicroRaft C W) (w : W)
      → IsIndexed 1 r.log
      → IsIndexed (a.prev_log_index + 1) a.entries
      → prev_matches a.prev_log_index a.prev_log_term r.log ≡ true
      → let (o, r', w') = handle_append_entries a now r w in
        (o ≡ returned (record { term = r.current_term; success = true }))
        × (take a.prev_log_index r'.log ≡ take a.prev_log_index r.log)
        × Agrees a.prev_log_index a.entries r'.log
        × IsIndexed 1 r'.log
        × (r'.commit_index ≡ (
            if ltb r.commit_index a.leader_commit
            then min a.leader_commit (length r'.log)
            else r.commit_index))
        × (w'
            ≡ run_entries r.commit_callbacks
                (newly_applied a.leader_commit (record r { log = r'.log }))
                w)
  unfolding handle_append_entries
  handle_append_entries_success a now r w d e m =
      let p = a.prev_log_index in
      let (log', rep) =
        append_all-Replicates a.entries p r.log e (prev_matches-le p a.prev_log_term r.log m) in
      let r' = record r { last_heartbeat = now; log = log' } in
      let whole : handle_append_entries a now r w ≡ (
        returned (record { term = r.current_term; success = true }),
        advanced a.leader_commit r',
        run_entries r.commit_callbacks (newly_applied a.leader_commit r') w,
      ) =
        rw m (rw rep.result (advance_commit_lem a.leader_commit r' w)) in
      let same_log : (advanced a.leader_commit r').log ≡ log' = ground arith in
      rw whole (
        refl,
        rw same_log rep.prefix,
        rw same_log rep.agrees,
        rw same_log (rep.indexed d),
        ground arith,
        rw same_log,
      )

  -- A failed consistency check changes nothing but the time of the last heartbeat, and is answered without success.
  handle_append_entries_failure :
      (a : AppendEntries C) (now : ℕ) (r : MicroRaft C W) (w : W)
      → prev_matches a.prev_log_index a.prev_log_term r.log ≡ false
      → handle_append_entries a now r w ≡ (
        returned (record { term = r.current_term; success = false }),
        record r { last_heartbeat = now },
        w,
      )
  unfolding handle_append_entries
  handle_append_entries_failure a now r w m = rw m
