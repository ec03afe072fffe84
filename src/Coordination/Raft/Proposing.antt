-- ===== src/Coordination/Raft/Proposing.antt =====
-- `propose`, and that no message makes the handler raise.
use census_konantgit_sys_p2p.Prelude.{
  ◌∷◌, [], List, ℕ, ◌≤◌, ◌≡◌, refl, Bool-cases, leb, true, length, inr, ◌++◌, inl, max, suc, ◌-◌,
  arith, get_elem?-some, some, ◌∙◌, ◌==◌, false, none, ◌+◌, ap, ◌<◌, take, drop, String,
}
use census_konantgit_sys_p2p.Coordination.Raft.Rpc.{
  append_all, after_entries, handle_rpc, append_entry, Rpc, request_vote, append_entries, other_rpc,
  Reply, no_reply, vote_reply, rpc_term, append_reply, handle_request_vote, observe_term,
  prev_matches, handle_append_entries, answer,
}
use census_konantgit_sys_p2p.Coordination.Raft.{LogEntry, MicroRaft, entry_at, log_before}
use census_konantgit_sys_p2p.Outcome.{returned, Done}
use census_konantgit_sys_p2p.Coordination.Raft.Replication.{advance_commit_lem}
use census_konantgit_sys_p2p.Coordination.Raft.Logs.{entry_at-suc}
use census_konantgit_sys_p2p.Coordination.Raft.Leader.{
  propose, is_leader, broadcast_append_entries, is_nil, conclude,
}
use census_konantgit_sys_p2p.Coordination.Raft.Votes.{observe_term_lem}
use census_konantgit_sys_p2p.Coordination.Raft.Applying.{run_entries, apply_committed_lem}

module _ {C : Type 0} where
  abbrev pub AllPositive : List (LogEntry C) → Type 0
  AllPositive [] = Unit
  AllPositive (e ∷ es) = (1 ≤ e.index) × AllPositive es

  append_entry-returns :
      (e : LogEntry C) (log : List (LogEntry C))
      → 1 ≤ e.index
      → (log' : List (LogEntry C)) × (append_entry e log ≡ returned log')
  unfolding append_entry
  append_entry-returns e log h = elim (Bool-cases (leb e.index (length log))) [
    | inr beyond ↦ (log ++ e ∷ [], rw beyond)
    | inl within ↦
        let index : e.index ≡ suc (e.index - 1) = omega arith in
        let (old, found) = get_elem?-some log (e.index - 1) (ground (arith, within)) in
        let read : entry_at log e.index ≡ some old =
          entry_at-suc e.index (e.index - 1) log index ∙ found in
        elim (Bool-cases (old.term == e.term)) [
          | inl same ↦ (log, rw within (rw read (rw same)))
          | inr differs ↦ (log_before log e.index ++ e ∷ [], rw within (rw read (rw differs)))
        ]
  ]

  append_all-returns :
      (es log : List (LogEntry C)) → AllPositive es → (append_all es log).0 ≡ returned tt
  unfolding append_all
  append_all-returns [] log h = refl
  append_all-returns (e ∷ es) log h =
      let (log', done) = append_entry-returns e log h.0 in
      rw (done, append_all) (append_all-returns es log' h.1)

-- A message whose entries have positive indices.
abbrev pub IsProper : {C : Type 0} → Rpc C → Type 0
IsProper (request_vote q) = Unit
IsProper (append_entries a) = AllPositive a.entries
IsProper (other_rpc t) = Unit

-- The term of an answer, where there is one.
abbrev pub CarriesTerm : ℕ → Reply → Type 0
CarriesTerm t (vote_reply v) = v.term ≡ t
CarriesTerm t (append_reply a) = a.term ≡ t
CarriesTerm t no_reply = Unit

is_nil-length : (ps : List String) → is_nil ps ≡ true → length ps ≡ 0
is_nil-length [] h = refl
is_nil-length (p ∷ ps) h = cc

module _ {C W : Type 0} where
  after_entries-returns :
      (leader_commit : ℕ) (r : MicroRaft C W) (w : W) (o : Done) (log : List (LogEntry C))
      → o ≡ returned tt
      → (after_entries leader_commit r w (o, log)).0
        ≡ returned (record { term = r.current_term; success = true })
  unfolding after_entries
  after_entries-returns leader_commit r w o log h =
      rw h (rw (advance_commit_lem leader_commit (record r { log = log }) w))

  -- From any state of the node, whatever its indices, a message whose entries have positive indices is handled without an exception, and the answer carries the node's term.
  handle_rpc_returns :
      (rpc : Rpc C) (now : ℕ) (r : MicroRaft C W) (w : W)
      → IsProper rpc
      → (reply : Reply) × ((handle_rpc rpc now r w).0 ≡ returned reply)
        × CarriesTerm (max r.current_term (rpc_term rpc)) reply
  unfolding handle_rpc
  handle_rpc_returns (other_rpc t) now r w h = (no_reply, refl, tt)
  handle_rpc_returns (request_vote q) now r w h = (
    vote_reply (handle_request_vote q now (observe_term q.term r)).0,
    refl,
    unfold handle_request_vote in ground (arith, (observe_term_lem q.term r).0),
  )
  handle_rpc_returns (append_entries a) now r w h =
      let r' = observe_term a.term r in
      let term = (observe_term_lem a.term r).0 in
      elim (Bool-cases (prev_matches a.prev_log_index a.prev_log_term r'.log)) [
        | inr e ↦ (
          append_reply (record { term = r'.current_term; success = false }),
          unfold handle_append_entries in rw e,
          term,
        )
        | inl e ↦
            let done = append_all-returns a.entries r'.log h in
            (
              append_reply (record { term = r'.current_term; success = true }),
              unfold handle_append_entries in
                  rw e (
                    ap answer (
                      after_entries-returns a.leader_commit (record r' { last_heartbeat = now }) w
                        (append_all a.entries r'.log).0 (append_all a.entries r'.log).1 done)),
              term,
            )
      ]

  -- `propose` on a node that is no leader changes nothing, sends nothing and returns None; on a leader it appends the command under the next index, which it returns, and sends what `_broadcast_append_entries` makes of the longer log; with peers nothing is committed, and without peers the whole log is committed, and what was not applied is applied.
  pub propose_lem :
      (command : C) (now : ℕ) (r : MicroRaft C W) (w : W)
      → let p = propose command now r w in
        (is_leader r ≡ false
          → p ≡ record { result = returned none; sent = []; node = r; world = w })
        × (is_leader r ≡ true
            → (p.result ≡ returned (some (length r.log + 1)))
              × (p.node.log
                  ≡ r.log
                    ++ record {
                      term = r.current_term;
                      index = length r.log + 1;
                      command = command;
                      timestamp = now;
                    }
                      ∷ [])
              × (p.sent ≡ broadcast_append_entries true (record r { log = p.node.log }))
              × (0 < length r.peers → (p.node.commit_index ≡ r.commit_index) × (p.world ≡ w))
              × (r.peers ≡ []
                  → (p.node.commit_index ≡ length p.node.log)
                    × (p.world
                        ≡ run_entries r.commit_callbacks
                            (take
                              (length p.node.log - r.last_applied)
                              (drop r.last_applied p.node.log))
                            w)))
  unfolding propose
  propose_lem command now r w = (
    λ idle. rw idle,
    λ leads. elim (Bool-cases (is_nil r.peers)) [
      | inr peers ↦ rw leads (
          rw peers (refl, refl, refl, (λ h. (refl, refl)), (λ e. absurd (cc (peers, ap is_nil e)))))
      | inl alone ↦
          let entry : LogEntry C = record {
            term = r.current_term;
            index = length r.log + 1;
            command = command;
            timestamp = now;
          } in
          let log' = r.log ++ entry ∷ [] in
          let done =
            apply_committed_lem (record r { log = log'; commit_index = length log' }) w
              (omega arith) in
          rw leads (
            rw alone (
              unfold conclude in
              rw done (
                refl,
                refl,
                refl,
                (λ h. absurd (omega (arith, is_nil-length r.peers alone))),
                λ e. (refl, refl),
              )))
    ],
  )
