-- ===== src/Coordination/Raft/Leader.antt =====
-- The election and the leader's duties of coordination/raft.py. An election awaits its answers, so it
-- is two steps, with the answers between them; `_send_append_entries` is the step that follows its
-- answer.
use census_konantgit_sys_p2p.Prelude.{
  List, Option, ℕ, String, Bool, if◌then◌else◌, ◌+◌, leb, ◌∷◌, map, length, get_last?, false, true,
  none, [], some, ◌++◌, ◌-◌, suc, drop, ltb, get_elem?, ◌&&◌, zero, ◌||◌, ◌==◌, not,
}
use census_konantgit_sys_p2p.Outcome.{Outcome, Done, returned, raised, index_error}
use census_konantgit_sys_p2p.Coordination.Raft.{
  apply_committed, MicroRaft, last_log_term, leader, LogEntry, majority, candidate, follower,
}
use census_konantgit_sys_p2p.Coordination.Raft.Rpc.{
  VoteRequest, AppendEntries, AppendReply, VoteReply,
}
use census_konantgit_sys_p2p.Dict.{Dict, get_or, insert}

-- `_send_rpc` hands the message to the mesh and returns None in either case.
unfoldable pub send_rpc : {M : Type 0} → String → M → Option VoteReply
send_rpc target msg = none

-- `response and response.get("vote_granted")`
abbrev pub granted : Option VoteReply → Bool
granted none = false
granted (some v) = v.vote_granted

-- The loop over the peers' answers: it breaks once there is a majority.
unfoldable pub count_votes : ℕ → ℕ → List (Option VoteReply) → ℕ
count_votes needed votes [] = votes
count_votes needed votes (a ∷ as_) = elim (granted a) [
  | false ↦ count_votes needed votes as_
  | true ↦ elim (leb needed (votes + 1)) [
    | true ↦ votes + 1
    | false ↦ count_votes needed (votes + 1) as_
  ]
]

-- `self.next_index[peer] = ...` for every peer.
unfoldable pub set_each : List String → ℕ → Dict ℕ → Dict ℕ
set_each [] n d = d
set_each (p ∷ ps) n d = set_each ps n (insert p n d)

-- How many of the peers have confirmed the entry `n`.
unfoldable pub count_matching : ℕ → List String → Dict ℕ → ℕ
count_matching n [] d = 0
count_matching n (p ∷ ps) d = (if leb n (get_or p 0 d) then 1 else 0) + count_matching n ps d

-- `range(next_idx - 1, len(self.log))`: the index 0 starts at the position -1; no step
-- sets it, and on an empty log the program would raise there.
unfoldable pub entries_from : {C : Type 0} → ℕ → List (LogEntry C) → List (LogEntry C)
entries_from zero log = elim (get_last? log) [ none ↦ [] | some e ↦ e ∷ log ]
entries_from (suc i) log = drop i log

-- `not self.peers`
abbrev pub is_nil : List String → Bool
is_nil [] = true
is_nil (p ∷ ps) = false

-- What `propose` leaves behind: the index it returns, the messages it sends, the node and the world.
pub record Proposed (C W : Type 0) : Type 0 where
  pub result : Outcome (Option ℕ)
  pub sent : List (String × AppendEntries C)
  pub node : MicroRaft C W
  pub world : W

module _ {C W : Type 0} where
  -- `_start_election` up to its first request.
  unfoldable pub begin_election : MicroRaft C W → MicroRaft C W
  begin_election r = record r {
    current_term = r.current_term + 1;
    state = candidate;
    voted_for = some r.node_id;
  }

  -- The request that goes to every peer.
  unfoldable pub vote_request : MicroRaft C W → VoteRequest
  unfolding last_log_term
  vote_request r = record {
    term = r.current_term;
    candidate_id = r.node_id;
    last_log_index = length r.log;
    last_log_term = last_log_term r.log;
  }

  -- `_become_leader`
  unfoldable pub become_leader : MicroRaft C W → MicroRaft C W
  unfolding set_each
  become_leader r = record r {
    state = leader;
    voted_for = none;
    next_index = set_each r.peers (length r.log + 1) r.next_index;
    match_index = set_each r.peers 0 r.match_index;
    heartbeat_task = true;
  }

  -- `_start_election` after its loop.
  unfoldable pub finish_election : ℕ → MicroRaft C W → MicroRaft C W
  unfolding become_leader
  finish_election votes r =
      if leb (majority r.peers) votes then become_leader r else record r { state = follower }

  -- `_start_election` where nothing else runs between the requests, with the peers' answers.
  unfoldable pub start_election :
      (String → VoteRequest → Option VoteReply) → MicroRaft C W → MicroRaft C W
  unfolding begin_election vote_request count_votes finish_election
  start_election send r =
      let r' = begin_election r in
      finish_election
        (count_votes (majority r.peers) 1 (map (λ peer. send peer (vote_request r')) r.peers)) r'

  -- The message of `_broadcast_append_entries` to one peer.
  unfoldable pub append_entries_for : Bool → String → MicroRaft C W → AppendEntries C
  unfolding entries_from
  append_entries_for force peer r =
      let next_idx = get_or peer 1 r.next_index in
      let prev_index = next_idx - 1 in
      record {
        term = r.current_term;
        leader_id = r.node_id;
        prev_log_index = prev_index;
        prev_log_term =
            if ltb 0 prev_index && leb prev_index (length r.log)
            then (elim (get_elem? r.log (prev_index - 1)) [ none ↦ 0 | some e ↦ e.term ])
            else 0;
        entries = if leb next_idx (length r.log) || force then entries_from next_idx r.log else [];
        leader_commit = r.commit_index;
      }

  -- `_broadcast_append_entries`: the messages, each for its peer.
  unfoldable pub broadcast_append_entries : Bool → MicroRaft C W → List (String × AppendEntries C)
  unfolding append_entries_for
  broadcast_append_entries force r = map (λ peer. (peer, append_entries_for force peer r)) r.peers

  -- The loop of `_update_commit_index` over the positions `i` from the old commit index on, by the
  -- rounds that are left; `n` is `i + 1`.
  unfoldable pub commit_rounds : ℕ → ℕ → MicroRaft C W → W → Done × MicroRaft C W × W
  unfolding apply_committed count_matching
  commit_rounds zero i r w = (returned tt, r, w)
  commit_rounds (suc k) i r w = elim (get_elem? r.log i) [
    | none ↦ (raised index_error, r, w)
    | some e ↦
        let replicated = 1 + count_matching (i + 1) r.peers r.match_index in
        elim (e.term == r.current_term && leb (majority r.peers) replicated) [
          | false ↦ commit_rounds k (i + 1) r w
          | true ↦
              let (o, r', w') = apply_committed (record r { commit_index = i + 1 }) w in
              elim o [ returned _ ↦ commit_rounds k (i + 1) r' w' | raised x ↦ (raised x, r', w') ]
        ]
  ]

  unfoldable pub update_commit_index : MicroRaft C W → W → Done × MicroRaft C W × W
  unfolding commit_rounds
  update_commit_index r w = commit_rounds (length r.log - r.commit_index) r.commit_index r w

  -- `_send_append_entries` after its answer.
  unfoldable pub receive_append_reply :
      String → Option AppendReply → MicroRaft C W → W → Done × MicroRaft C W × W
  unfolding update_commit_index
  receive_append_reply peer none r w = (returned tt, r, w)
  receive_append_reply peer (some reply) r w =
      let next = get_or peer 1 r.next_index in
      if reply.success
      then update_commit_index
          (record r {
            match_index = insert peer (length r.log) r.match_index;
            next_index = insert peer (length r.log + 1) r.next_index;
          })
          w
      else if ltb 1 next
      then (returned tt, record r { next_index = insert peer (next - 1) r.next_index }, w)
      else (returned tt, r, w)

  unfoldable pub is_leader : MicroRaft C W → Bool
  is_leader r = elim r.state [ leader ↦ true | candidate ↦ false | follower ↦ false ]

  -- `propose` after `_apply_committed`, which may raise.
  unfoldable pub conclude :
      ℕ → List (String × AppendEntries C) → Done × MicroRaft C W × W → Proposed C W
  conclude index sent (returned _, r, w) = record {
    result = returned (some index);
    sent = sent;
    node = r;
    world = w;
  }
  conclude index sent (raised x, r, w) = record {
    result = raised x;
    sent = sent;
    node = r;
    world = w;
  }

  unfoldable pub propose : C → ℕ → MicroRaft C W → W → Proposed C W
  unfolding is_leader broadcast_append_entries apply_committed conclude
  propose command now r w =
      let entry : LogEntry C = record {
        term = r.current_term;
        index = length r.log + 1;
        command = command;
        timestamp = now;
      } in
      let r' = record r { log = r.log ++ entry ∷ [] } in
      let sent = broadcast_append_entries true r' in
      if is_leader r
      then (if is_nil r.peers
          then conclude entry.index sent
              (apply_committed (record r' { commit_index = length r'.log }) w)
          else record { result = returned (some entry.index); sent = sent; node = r'; world = w })
      else record { result = returned none; sent = []; node = r; world = w }

  -- One round of `_election_loop` that has waited for `timeout` and has the time `now`, with the
  -- peers' answers.
  unfoldable pub election_round :
      (String → VoteRequest → Option VoteReply) → ℕ → ℕ → MicroRaft C W → MicroRaft C W
  unfolding is_leader start_election
  election_round send timeout now r =
      if not r.running || is_leader r
      then r
      else if ltb (now - r.last_heartbeat) timeout
      then r
      else start_election send r

  -- One round of `_leader_loop`: the messages that it sends.
  unfoldable pub leader_round : MicroRaft C W → List (String × AppendEntries C)
  unfolding is_leader broadcast_append_entries
  leader_round r = if r.running && is_leader r then broadcast_append_entries false r else []
