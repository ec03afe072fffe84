-- ===== src/Phase0/RaftNode.antt =====
-- `class RaftNode` of phase0/raft.py: leader election over a topic that all nodes share. A handler
-- returns the node and the messages that it publishes on the topic `_raft`; with no transport nothing
-- is sent. Entries of the log are of a type `E`. Handlers that await only the sending are one step.
-- Times count in milliseconds. The fields that nothing reads (`last_applied`, `_election_term`, the
-- handle `_election_task`) are left out.
pub mod Careful
pub mod Votes
pub mod Majority
use census_konantgit_sys_p2p.Prelude.{
  ℕ, String, List, some, false, if◌then◌else◌, Bool, [], ◌+◌, ◌∷◌, Option, true, none, ltb, str_eq,
  length, ◌++◌, leb, ◌/◌, ◌&&◌, not, ◌||◌, ◌-◌,
}

pub data NodeState : Type 0 where
  follower candidate leader : NodeState

pub record RaftNode (E : Type 0) : Type 0 where
  pub node_id : String
  pub has_transport : Bool
  pub wal : Option (List E)
  pub state : NodeState
  pub current_term : ℕ
  pub voted_for : Option String
  pub leader_id : Option String
  pub commit_index : ℕ
  pub running : Bool
  pub heartbeat_task : Bool
  pub peers : List String
  pub last_heartbeat : ℕ
  pub votes_received : ℕ
  pub votes_needed : ℕ

-- The payloads of the topic `_raft`; a missing field has its default, and numbers are naturals.
pub data Payload (E : Type 0) : Type 0 where
  request_vote : (term : ℕ) (candidate_id : String) (last_log_index last_log_term : ℕ) → Payload E
  vote_response : (term : ℕ) (vote_granted : Bool) (candidate_id : String) → Payload E
  append_entries :
      (term : ℕ) (leader_id : String) (entries : List E) (leader_commit : ℕ) → Payload E
  other_payload : Payload E

abbrev pub is_none_left : List String → Bool
is_none_left [] = true
is_none_left (p ∷ ps) = false

pub data Event (E : Type 0) : Type 0 where
  received : Payload E → (now : ℕ) → Event E
  timeout : (now jitter : ℕ) → Event E
  heartbeat_due : Event E
  stopped : Event E

abbrev pub is_leader : NodeState → Bool
is_leader leader = true
is_leader follower = false
is_leader candidate = false

-- `(len(self._peers) // 2) + 1 if self._peers else 1`
abbrev pub needed : List String → ℕ
needed peers = if is_none_left peers then 1 else length peers / 2 + 1

-- `self.voted_for is None or self.voted_for == candidate_id`
unfoldable pub is_free_for : String → Option String → Bool
is_free_for id none = true
is_free_for id (some v) = str_eq v id

module _ {E : Type 0} where
  -- `__init__`
  unfoldable pub new_node : String → Bool → Option (List E) → RaftNode E
  new_node node_id has_transport wal = record {
    node_id = node_id;
    has_transport = has_transport;
    wal = wal;
    state = follower;
    current_term = 0;
    voted_for = none;
    leader_id = none;
    commit_index = 0;
    running = false;
    heartbeat_task = false;
    peers = [];
    last_heartbeat = 0;
    votes_received = 0;
    votes_needed = 0;
  }

  -- `start`: an empty list of peers leaves the old one.
  unfoldable pub start : List String → ℕ → RaftNode E → RaftNode E
  start peers now r = record r {
    running = true;
    peers = if is_none_left peers then r.peers else peers;
    last_heartbeat = now;
  }

  unfoldable pub stop : RaftNode E → RaftNode E
  stop r = record r { running = false; heartbeat_task = false }

  -- `_become_leader`
  unfoldable pub become_leader : RaftNode E → RaftNode E
  become_leader r = record r { state = leader; leader_id = some r.node_id; heartbeat_task = true }

  -- `_send_raft`
  unfoldable pub send : RaftNode E → Payload E → List (Payload E)
  send r p = if r.has_transport then p ∷ [] else []

  -- The requests to the peers, one for each that is not the node itself.
  unfoldable pub vote_requests : RaftNode E → List String → List (Payload E)
  unfolding send
  vote_requests r [] = []
  vote_requests r (p ∷ ps) =
      let rest = vote_requests r ps in
      let size : ℕ = elim r.wal [ none ↦ 0 | some es ↦ length es ] in
      if str_eq p r.node_id
      then rest
      else send r (request_vote r.current_term r.node_id size r.current_term) ++ rest

  -- The node that has just voted for itself.
  unfoldable pub candidacy : RaftNode E → RaftNode E
  candidacy r = record r {
    state = candidate;
    current_term = r.current_term + 1;
    voted_for = some r.node_id;
    leader_id = none;
    votes_received = 1;
    votes_needed = needed r.peers;
  }

  -- `_start_election`
  unfoldable pub start_election : RaftNode E → RaftNode E × List (Payload E)
  unfolding candidacy become_leader vote_requests
  start_election r =
      if leb (needed r.peers) 1
      then (become_leader (candidacy r), [])
      else (candidacy r, vote_requests (candidacy r) r.peers)

  -- The node once it has seen a newer term.
  unfoldable pub adopt_term : ℕ → RaftNode E → RaftNode E
  adopt_term term r =
      if ltb r.current_term term
      then record r { current_term = term; state = follower; voted_for = none }
      else r

  -- `_handle_request_vote`
  unfoldable pub handle_request_vote : ℕ → String → RaftNode E → RaftNode E × List (Payload E)
  unfolding adopt_term is_free_for send
  handle_request_vote term id r =
      let r' = adopt_term term r in
      if str_eq id r.node_id
      then (r, [])
      else if leb r'.current_term term && is_free_for id r'.voted_for
      then (record r' { voted_for = some id }, send r' (vote_response r'.current_term true id))
      else (r', send r' (vote_response r'.current_term false id))

  -- `_handle_request_vote_response`: the candidate that the answer names is not read.
  unfoldable pub handle_vote_response : ℕ → Bool → RaftNode E → RaftNode E
  unfolding become_leader
  handle_vote_response term granted r = elim r.state [
    | candidate ↦
        let r' = record r { votes_received = r.votes_received + 1 } in
        if ltb r.current_term term
        then record r { current_term = term; state = follower; voted_for = none }
        else if ltb term r.current_term
        then r
        else if granted
        then (if leb r.votes_needed (r.votes_received + 1) then become_leader r' else r')
        else r
    | follower ↦ r
    | leader ↦ r
  ]

  -- `self.wal.append(entry)` for every entry.
  unfoldable pub append_to_wal : List E → Option (List E) → Option (List E)
  append_to_wal es none = none
  append_to_wal es (some wal) = some (wal ++ es)

  abbrev is_empty_batch : List E → Bool
  is_empty_batch [] = true
  is_empty_batch (e ∷ es) = false

  -- `_handle_append_entries`
  unfoldable pub handle_append_entries : ℕ → String → List E → ℕ → ℕ → RaftNode E → RaftNode E
  unfolding append_to_wal
  handle_append_entries term id entries leader_commit now r =
      let r' = record r {
        current_term = term;
        state = follower;
        leader_id = some id;
        last_heartbeat = now;
      } in
      if str_eq id r.node_id
      then r
      else if leb r.current_term term
      then (if is_empty_batch entries
          then r'
          else record r' { wal = append_to_wal entries r.wal; commit_index = leader_commit })
      else r

  -- `_on_raft_msg`, for a message that is read without an error.
  unfoldable pub on_raft_msg : Payload E → ℕ → RaftNode E → RaftNode E × List (Payload E)
  unfolding handle_request_vote handle_vote_response handle_append_entries
  on_raft_msg (request_vote term id _ _) now r = handle_request_vote term id r
  on_raft_msg (vote_response term granted _) now r = (handle_vote_response term granted r, [])
  on_raft_msg (append_entries term id entries commit) now r =
      (handle_append_entries term id entries commit now r, [])
  on_raft_msg other_payload now r = (r, [])

  -- The heartbeat of `_heartbeat_loop`.
  unfoldable pub heartbeat : RaftNode E → List (Payload E)
  unfolding send
  heartbeat r = send r (append_entries r.current_term r.node_id [] r.commit_index)

  -- One round of `_election_loop`, at the time `now` with the random part `jitter` of the wait.
  unfoldable pub election_round : ℕ → ℕ → RaftNode E → RaftNode E × List (Payload E)
  unfolding start_election
  election_round now jitter r =
      if not r.running || is_leader r.state
      then (r, [])
      else if ltb (now - r.last_heartbeat) (300 + jitter)
      then (r, [])
      else start_election r

  unfoldable pub status : RaftNode E → String × NodeState × ℕ × Option String × ℕ × ℕ
  status r = (r.node_id, r.state, r.current_term, r.leader_id, length r.peers, r.commit_index)

  -- What a started node reacts to, and its reactions to several events in a row.
  unfoldable pub handle : Event E → RaftNode E → RaftNode E × List (Payload E)
  unfolding on_raft_msg election_round heartbeat stop
  handle (received p now) r = on_raft_msg p now r
  handle (timeout now jitter) r = election_round now jitter r
  handle heartbeat_due r = if r.running && is_leader r.state then (r, heartbeat r) else (r, [])
  handle stopped r = (stop r, [])

  unfoldable pub run : List (Event E) → RaftNode E → RaftNode E × List (Payload E)
  run [] r = (r, [])
  run (e ∷ es) r = let (r', out) = handle e r in let (r'', out') = run es r' in (r'', out ++ out')
