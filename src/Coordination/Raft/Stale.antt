-- ===== src/Coordination/Raft/Stale.antt =====
-- What a stale leader's message and a late acknowledgement do.
use census_konantgit_sys_p2p.Prelude.{
  ◌∷◌, [], List, String, ℕ, ◌≡◌, true, ◌<◌, ◌≢◌, ◌≤◌, leb, length, ◌+◌, arith, ltb, get_elem?,
  false, some, ◌==◌, refl,
}
use census_konantgit_sys_p2p.Coordination.Raft.Leader.{receive_append_reply, count_matching}
use census_konantgit_sys_p2p.Coordination.Raft.Rpc.{
  handle_rpc, append_all, handle_append_entries, append_entry, observe_term, AppendReply,
  AppendEntries, append_entries, append_reply, prev_matches, after_entries,
}
use census_konantgit_sys_p2p.Coordination.Raft.{LogEntry, MicroRaft, entry_at}
use census_konantgit_sys_p2p.Outcome.{returned}
use census_konantgit_sys_p2p.Coordination.Raft.Logs.{entry_at-suc, log_before-suc}
use census_konantgit_sys_p2p.Dict.{insert, get_or-insert_self}
use census_konantgit_sys_p2p.Coordination.Raft.Commit.{update_commit_index_lem, committable}
use census_konantgit_sys_p2p.Coordination.Raft.Replication.{advance_commit_lem}

replaced :
    {C : Type 0} (e f : LogEntry C) (rest : List (LogEntry C))
    → e.index ≡ 1
    → f.term ≢ e.term
    → append_all (e ∷ []) (f ∷ rest) ≡ (returned tt, e ∷ [])
unfolding append_all append_entry
replaced e f rest one differ =
    let within : leb e.index (length (f ∷ rest)) ≡ true = ground (arith, one) in
    let read : entry_at (f ∷ rest) e.index ≡ some f = entry_at-suc e.index 0 (f ∷ rest) one in
    let other : (f.term == e.term) ≡ false = ground (arith, differ) in
    let entry : append_entry e (f ∷ rest) ≡ returned (e ∷ []) =
      rw within (rw read (rw other (rw (log_before-suc e.index 0 (f ∷ rest) one)))) in
    rw (entry, append_all)

module _ {C W : Type 0} where
  -- A message of an older term is not refused: with no entry before it, one entry of index 1 whose term differs from the first entry's replaces the whole log, the commit index stays where it was, beyond the new log if it was above 1, and the answer is success.
  stale_append_overwrites :
      (a : AppendEntries C) (e f : LogEntry C) (rest : List (LogEntry C)) (now : ℕ)
      (r : MicroRaft C W) (w : W)
      → a.term < r.current_term
      → a.prev_log_index ≡ 0
      → a.entries ≡ e ∷ []
      → a.leader_commit ≤ r.commit_index
      → e.index ≡ 1
      → r.log ≡ f ∷ rest
      → f.term ≢ e.term
      → let (o, r', w') = handle_rpc (append_entries a) now r w in
        (o ≡ returned (append_reply (record { term = r.current_term; success = true })))
        × (r'.log ≡ e ∷ [])
        × (r'.commit_index ≡ r.commit_index)
  unfolding handle_rpc handle_append_entries observe_term
  stale_append_overwrites a e f rest now r w old prev es commit one log differ =
      let not_newer : ltb r.current_term a.term ≡ false = ground arith in
      let no_commit : ltb r.commit_index a.leader_commit ≡ false = ground arith in
      let matches : prev_matches a.prev_log_index a.prev_log_term r.log ≡ true =
        rw prev (unfold prev_matches in refl) in
      let placed : append_all a.entries r.log ≡ (returned tt, e ∷ []) =
        rw es (rw log (replaced e f rest one differ)) in
      let r' = record r { last_heartbeat = now; log = e ∷ [] } in
      rw not_newer (
        rw matches (
          rw placed (
            unfold after_entries in
            rw (advance_commit_lem a.leader_commit r' w) (rw no_commit (refl, refl, refl)))))

  -- A leader with one peer, whose last applied index is its commit index, whose commit index is below the length of its log, and whose last entry is of its term: a success acknowledged for any message, even one without entries, commits the whole log, since the acknowledgement is counted for the log as it is when it arrives.
  pub acknowledgement_commits_all :
      (peer : String) (reply : AppendReply) (j : ℕ) (e : LogEntry C) (r : MicroRaft C W) (w : W)
      → reply.success ≡ true
      → r.peers ≡ peer ∷ []
      → r.last_applied ≡ r.commit_index
      → r.commit_index ≤ j
      → length r.log ≡ j + 1
      → get_elem? r.log j ≡ some e
      → e.term ≡ r.current_term
      → (receive_append_reply peer (some reply) r w).1.commit_index ≡ length r.log
  unfolding receive_append_reply
  acknowledgement_commits_all peer reply j e r w ok peers applied lo len found term =
      let r' = record r {
        match_index = insert peer (length r.log) r.match_index;
        next_index = insert peer (length r.log + 1) r.next_index;
      } in
      let done = update_commit_index_lem r' w applied (omega arith) in
      let fit : committable j r' ≡ true =
        rw (found, committable)
          (rw peers (
            rw term (
              rw (get_or-insert_self peer (length r.log) 0 r.match_index, count_matching)
                (ground arith)))) in
      let reached = done.5 j lo fit in rw ok (omega (arith, reached, done.2))
