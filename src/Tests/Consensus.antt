-- ===== src/Tests/Consensus.antt =====
-- Runs and instances for the consensus log, coordination/raft.py.
use census_konantgit_sys_p2p.Prelude.{
  ◌∷◌, [], List, ℕ, ◌++◌, ◌≡◌, String, some, none, Option, true, ◌↔◌, eq_iff, ◌≢◌, ◌≤◌, false, refl,
  length, ◌<◌, inr, take, if◌then◌else◌, ◌⊎◌, ◌+◌, ◌*◌, arith, str_eq, ltb, ◌-◌, drop, min,
}
use census_konantgit_sys_p2p.Coordination.Raft.Leader.{
  propose, update_commit_index, start_election, receive_append_reply, send_rpc, is_leader,
}
use census_konantgit_sys_p2p.Coordination.Raft.Rpc.{
  handle_rpc, handle_append_entries, AppendEntries, prev_matches, VoteRequest, append_entries,
  advance_commit, VoteReply,
}
use census_konantgit_sys_p2p.Coordination.Raft.{
  apply_committed, MicroRaft, LogEntry, leader, last_log_term, follower,
}
use census_konantgit_sys_p2p.Coordination.ConsumerGroup.{Callback, run_callbacks}
use census_konantgit_sys_p2p.Coordination.Raft.Votes.{UpToDate}
use census_konantgit_sys_p2p.Outcome.{returned}
use census_konantgit_sys_p2p.Coordination.Raft.Following.{propose-followed}
use census_konantgit_sys_p2p.Coordination.Raft.Rpc.{append_reply}
use census_konantgit_sys_p2p.Prelude.{get_elem?, max}
use census_konantgit_sys_p2p.Dict.{get_or, lookup}
use census_konantgit_sys_p2p.Coordination.Raft.Applying.{
  run_entries, unapplied, apply_committed_lem,
}
use census_konantgit_sys_p2p.Coordination.Raft.Stale.{acknowledgement_commits_all}
use census_konantgit_sys_p2p.Coordination.Raft.Elections.{
  never_leader_with_peers, grants, answers, start_election_majority,
}
use census_konantgit_sys_p2p.Coordination.Raft.Logs.{Agrees, IsIndexed}
use census_konantgit_sys_p2p.Coordination.Raft.Commit.{committable, update_commit_index_lem}
use census_konantgit_sys_p2p.Coordination.Raft.Replication.{
  newly_applied, handle_append_entries_success,
}

-- A callback that records the commands.
abbrev keep : Callback ℕ (List ℕ)
keep c w = w ++ c ∷ []

abbrev Node : Type 0
Node = MicroRaft ℕ (List ℕ)

abbrev first : LogEntry ℕ
first = record { term = 1; index = 1; command = 7; timestamp = 0 }

abbrev second : LogEntry ℕ
second = record { term = 1; index = 2; command = 8; timestamp = 0 }

-- A node of a cluster of three, in term 2.
abbrev node : Node
node = record {
  node_id = "a";
  peers = "b" ∷ "c" ∷ [];
  current_term = 2;
  voted_for = none;
  log = first ∷ [];
  commit_index = 0;
  last_applied = 0;
  next_index = [];
  match_index = [];
  state = follower;
  running = true;
  election_task = true;
  heartbeat_task = false;
  last_heartbeat = 0;
  commit_callbacks = keep ∷ [];
}

abbrev committing : Node
committing = record node { log = first ∷ second ∷ []; commit_index = 2 }

abbrev replicate : AppendEntries ℕ
replicate = record {
  term = 2;
  leader_id = "b";
  prev_log_index = 1;
  prev_log_term = 1;
  entries = second ∷ [];
  leader_commit = 5;
}

-- Both entries are applied: the leader's commit index is cut at the end of the log.
replicate_runs : (handle_rpc (append_entries replicate) 3 node []).2 ≡ 7 ∷ 8 ∷ []
unfolding handle_rpc advance_commit run_callbacks
replicate_runs = refl

apply_committed_lem_example : apply_committed committing [] ≡ (
  returned tt,
  record committing { last_applied = 2 },
  run_entries (keep ∷ []) (unapplied committing) [],
)
apply_committed_lem_example = apply_committed_lem committing [] (omega arith)

replicate_matches : prev_matches replicate.prev_log_index replicate.prev_log_term node.log ≡ true
unfolding prev_matches
replicate_matches = refl

handle_append_entries_success_example :
    let (o, r', w') = handle_append_entries replicate 3 node [] in
    (o ≡ returned (record { term = 2; success = true }))
    × (take 1 r'.log ≡ take 1 node.log)
    × Agrees 1 (second ∷ []) r'.log
    × IsIndexed 1 r'.log
    × (r'.commit_index ≡ (if ltb 0 5 then min 5 (length r'.log) else 0))
    × (w' ≡ run_entries (keep ∷ []) (newly_applied 5 (record node { log = r'.log })) [])
handle_append_entries_success_example =
    handle_append_entries_success replicate 3 node [] (refl, tt) (refl, tt) replicate_matches

abbrev request : VoteRequest
request = record { term = 3; candidate_id = "c"; last_log_index = 1; last_log_term = 1 }

b-ne-c : ¬ (◌≡◌ {A = String} "c" "b")
b-ne-c e = cc ((eq_iff "c" "b").1 e)

abbrev yes_from_b : String → VoteRequest → Option VoteReply
yes_from_b peer q =
    if str_eq peer "b" then some (record { term = q.term; vote_granted = true }) else none

start_election_majority_example :
    (((start_election yes_from_b node).state ≡ leader)
      ↔ (3 < 2 * (1 + grants (answers yes_from_b node))))
    × ((start_election yes_from_b node).current_term ≡ 3)
start_election_majority_example = start_election_majority yes_from_b node

never_leader_with_peers_example : (start_election send_rpc node).state ≢ leader
never_leader_with_peers_example = never_leader_with_peers node (omega arith)

request_is_recent : UpToDate request node.log
unfolding last_log_term
request_is_recent = inr (refl, omega arith)

abbrev leading : Node
leading = record node {
  peers = "b" ∷ [];
  current_term = 1;
  log = first ∷ second ∷ [];
  state = leader;
}

acknowledgement_commits_all_example :
    (receive_append_reply "b"
      (some (record { term = 1; success = true }))
      leading
      []).1.commit_index
    ≡ length leading.log
acknowledgement_commits_all_example =
    acknowledgement_commits_all "b" (record { term = 1; success = true }) 1 second leading [] refl
      refl refl (omega arith) refl refl refl

abbrev confirmed : Node
confirmed = record leading { match_index = ("b", 2) ∷ [] }

update_commit_index_lem_example :
    let (o, r', w') = update_commit_index confirmed [] in
    (o ≡ returned tt)
    × (0 ≤ r'.commit_index)
    × (r'.commit_index ≤ length confirmed.log)
    × (r'.last_applied ≡ r'.commit_index)
    × ((r'.commit_index ≡ 0)
        ⊎ ((j : ℕ) × (r'.commit_index ≡ j + 1) × (committable j confirmed ≡ true)))
    × ((j : ℕ) → 0 ≤ j → committable j confirmed ≡ true → j + 1 ≤ r'.commit_index)
    × (r'.log ≡ confirmed.log)
    × (w' ≡ run_entries (keep ∷ []) (take (r'.commit_index - 0) (drop 0 confirmed.log)) [])
update_commit_index_lem_example = update_commit_index_lem confirmed [] refl (omega arith)

update_commit_index-confirmed : (update_commit_index confirmed []).2 ≡ 7 ∷ 8 ∷ []
unfolding update_commit_index run_callbacks get_or
update_commit_index-confirmed = refl

-- The peer has the first of the leader's two entries.
abbrev ahead : Node
ahead = record leading { next_index = ("b", 2) ∷ [] }

proposing : is_leader ahead ≡ true
unfolding is_leader
proposing = refl

next_of_b : get_or "b" 1 ahead.next_index ≡ 2
unfolding get_or lookup
next_of_b = refl

propose-followed_example :
    let p = propose 5 1 ahead [] in
    (m : AppendEntries ℕ) × (get_elem? p.sent 0 ≡ some ("b", m))
    × (p.result ≡ returned (some (2 + 1)))
    × (p.node.log
        ≡ first ∷ second ∷ record { term = 1; index = 2 + 1; command = 5; timestamp = 1 } ∷ [])
    × ((handle_rpc (append_entries m) 6 node []).0
        ≡ returned (append_reply (record { term = max 2 1; success = true })))
    × ((handle_rpc (append_entries m) 6 node []).1.log ≡ p.node.log)
propose-followed_example =
    propose-followed 5 1 6 0 1 "b" ahead node [] [] proposing refl next_of_b (omega arith)
      (refl, (refl, tt)) refl
