-- ===== src/Tests/ElectionNode.antt =====
-- `RaftNode`: runs of its reactions, and the theorems about it at a concrete node.
use census_konantgit_sys_p2p.Prelude.{
  ℕ, String, List, [], ◌∷◌, ◌≡◌, refl, str_ne, ◌<◌, ◌*◌, some, none, true, arith, false, ◌≤◌, ◌+◌,
}
use census_konantgit_sys_p2p.Phase0.RaftNode.{
  candidate, leader, RaftNode, Event, received, timeout, request_vote, vote_response, start,
  new_node, run, handle, on_raft_msg, election_round, start_election, candidacy, become_leader,
  handle_request_vote, handle_vote_response, adopt_term, is_free_for, send, vote_requests,
}
use census_konantgit_sys_p2p.Phase0.RaftNode.Careful.{votes}
use census_konantgit_sys_p2p.Phase0.RaftNode.Votes.{run_one_vote_per_term}
use census_konantgit_sys_p2p.Phase0.RaftNode.Majority.{
  grants, run_leader_has_majority, one_vote_elects_two,
}

abbrev three_peers : List String
three_peers = "n0" ∷ "n1" ∷ "n2" ∷ []

abbrev n0 : RaftNode ℕ
n0 = new_node "n0" true (some [])

abbrev election_events : List (Event ℕ)
election_events =
    received (request_vote 3 "n1" 0 3) 10
    ∷ received (request_vote 3 "n2" 0 3) 11
    ∷ timeout 900 100
    ∷ received (vote_response 4 true "n0") 950
    ∷ []

elected_state : (run election_events (start three_peers 0 n0)).0.state ≡ leader
unfolding run handle on_raft_msg start new_node election_round start_election candidacy
    become_leader handle_request_vote handle_vote_response adopt_term is_free_for send vote_requests
elected_state = refl

elected_votes :
    votes (run election_events (start three_peers 0 n0)).1 ≡ (3, "n1") ∷ (4, "n0") ∷ (4, "n0") ∷ []
unfolding run handle on_raft_msg start new_node election_round start_election candidacy
    become_leader handle_request_vote handle_vote_response adopt_term is_free_for send vote_requests
elected_votes = refl

run_one_vote_per_term_example : ◌≡◌ {A = String} "n0" "n0"
unfolding run handle on_raft_msg start new_node election_round start_election candidacy
    become_leader handle_request_vote handle_vote_response adopt_term is_free_for send vote_requests
run_one_vote_per_term_example =
    run_one_vote_per_term election_events (start three_peers 0 n0) 1 2 (4, "n0") (4, "n0") refl refl
      refl

run_leader_has_majority_example : (3 < 2 * 2) × (2 ≤ 1 + grants 4 election_events)
unfolding run handle on_raft_msg start new_node election_round start_election candidacy
    become_leader handle_request_vote handle_vote_response adopt_term is_free_for send vote_requests
run_leader_has_majority_example =
    run_leader_has_majority election_events "n0" true (some []) three_peers 0 refl

-- The candidate `id` of term 1 among three nodes.
abbrev candidate_of : String → RaftNode ℕ
candidate_of id = record {
  node_id = id;
  has_transport = true;
  wal = none;
  state = candidate;
  current_term = 1;
  voted_for = some id;
  leader_id = none;
  commit_index = 0;
  running = true;
  heartbeat_task = false;
  peers = three_peers;
  last_heartbeat = 0;
  votes_received = 1;
  votes_needed = 2;
}

one_vote_elects_two_example :
    (on_raft_msg (vote_response 1 true "n0") 7 (candidate_of "n1")).0.state ≡ leader
unfolding new_node
one_vote_elects_two_example =
    (one_vote_elects_two (candidate_of "n0") (candidate_of "n1") (new_node "n2" true none) 7 refl
      refl refl refl refl (omega arith) refl (str_ne "n0" "n2" refl)).2
