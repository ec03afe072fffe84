-- ===== src/Coordination/Raft/Rpc.antt =====
-- The RPC handlers of coordination/raft.py. A message is a record: a field that it lacks has the
-- default that `.get` gives it, and numbers are naturals.
use census_konantgit_sys_p2p.Coordination.Raft.{
  step_down, apply_committed, entry_at, last_log_term, LogEntry, log_before, MicroRaft, leader,
  follower, candidate,
}
use census_konantgit_sys_p2p.Prelude.{
  List, Option, ℕ, Bool, String, false, if◌then◌else◌, true, ltb, min, ◌∷◌, suc, leb, ◌||◌, some,
  not, ◌==◌, get_elem?, [], length, none, ◌&&◌, str_eq, zero, ◌++◌,
}
use census_konantgit_sys_p2p.Outcome.{Outcome, returned, Done, raised, index_error}

pub record VoteRequest : Type 0 where
  pub term : ℕ
  pub candidate_id : String
  pub last_log_index : ℕ
  pub last_log_term : ℕ

pub record AppendEntries (C : Type 0) : Type 0 where
  pub term : ℕ
  pub leader_id : String
  pub prev_log_index : ℕ
  pub prev_log_term : ℕ
  pub entries : List (LogEntry C)
  pub leader_commit : ℕ

-- A message of another type carries its term all the same.
pub data Rpc (C : Type 0) : Type 0 where
  request_vote : VoteRequest → Rpc C
  append_entries : AppendEntries C → Rpc C
  other_rpc : ℕ → Rpc C

pub record VoteReply : Type 0 where
  pub term : ℕ
  pub vote_granted : Bool

pub record AppendReply : Type 0 where
  pub term : ℕ
  pub success : Bool

pub data Reply : Type 0 where
  vote_reply : VoteReply → Reply
  append_reply : AppendReply → Reply
  no_reply : Reply

abbrev pub rpc_term : {C : Type 0} → Rpc C → ℕ
rpc_term (request_vote q) = q.term
rpc_term (append_entries a) = a.term
rpc_term (other_rpc t) = t

-- `self.voted_for is not None and self.voted_for != candidate_id`
unfoldable pub voted_for_other : Option String → String → Bool
voted_for_other none id = false
voted_for_other (some v) id = not (str_eq v id)

-- The candidate's log, by its last term and index, is behind the node's.
unfoldable pub is_behind : {C : Type 0} → VoteRequest → List (LogEntry C) → Bool
unfolding last_log_term
is_behind q log =
    ltb q.last_log_term (last_log_term log)
    || (q.last_log_term == last_log_term log && ltb q.last_log_index (length log))

module _ {C : Type 0} where
  -- The log consistency check: an index beyond the log and a differing term fail.
  unfoldable pub prev_matches : ℕ → ℕ → List (LogEntry C) → Bool
  prev_matches zero term log = true
  prev_matches (suc i) term log = elim (get_elem? log i) [ none ↦ false | some e ↦ e.term == term ]

  -- One round of the loop over the entries.
  unfoldable pub append_entry : LogEntry C → List (LogEntry C) → Outcome (List (LogEntry C))
  unfolding entry_at log_before
  append_entry e log =
      if leb e.index (length log)
      then elim (entry_at log e.index) [
        | none ↦ raised index_error
        | some old ↦
            if old.term == e.term then returned log else returned (log_before log e.index ++ e ∷ [])
      ]
      else returned (log ++ e ∷ [])

  -- What was appended before an exception stays.
  unfoldable pub append_all : List (LogEntry C) → List (LogEntry C) → Done × List (LogEntry C)
  unfolding append_entry
  append_all [] log = (returned tt, log)
  append_all (e ∷ es) log = elim (append_entry e log) [
    | returned log' ↦ append_all es log'
    | raised x ↦ (raised x, log)
  ]

abbrev pub answer : Outcome AppendReply → Outcome Reply
answer (returned a) = returned (append_reply a)
answer (raised x) = raised x

module _ {C W : Type 0} where
  -- The start of `handle_rpc`: a newer term is taken over.
  unfoldable pub observe_term : ℕ → MicroRaft C W → MicroRaft C W
  unfolding step_down
  observe_term term r =
      if ltb r.current_term term
      then (let r' = record r { current_term = term } in
          elim r.state [
            | leader ↦ step_down r'
            | candidate ↦ record r' { state = follower }
            | follower ↦ r'
          ])
      else r

  unfoldable pub handle_request_vote : VoteRequest → ℕ → MicroRaft C W → VoteReply × MicroRaft C W
  unfolding voted_for_other is_behind
  handle_request_vote q now r =
      let denied : VoteReply = record { term = r.current_term; vote_granted = false } in
      if ltb q.term r.current_term
      then (denied, r)
      else if voted_for_other r.voted_for q.candidate_id
      then (denied, r)
      else if is_behind q r.log
      then (denied, r)
      else (
        record { term = r.current_term; vote_granted = true },
        record r { voted_for = some q.candidate_id; last_heartbeat = now },
      )

  -- The end of `_handle_append_entries`: the commit index, and the answer.
  unfoldable pub advance_commit : ℕ → MicroRaft C W → W → Outcome AppendReply × MicroRaft C W × W
  unfolding apply_committed
  advance_commit leader_commit r w =
      if ltb r.commit_index leader_commit
      then (let (o, r', w') =
            apply_committed (record r { commit_index = min leader_commit (length r.log) }) w in
          elim o [
            | returned _ ↦ (returned (record { term = r'.current_term; success = true }), r', w')
            | raised x ↦ (raised x, r', w')
          ])
      else (returned (record { term = r.current_term; success = true }), r, w)

  -- What follows the loop over the entries: an exception in it passes on.
  unfoldable pub after_entries :
      ℕ → MicroRaft C W → W → Done × List (LogEntry C) → Outcome AppendReply × MicroRaft C W × W
  unfolding advance_commit
  after_entries leader_commit r w (returned _, log') =
      advance_commit leader_commit (record r { log = log' }) w
  after_entries leader_commit r w (raised x, log') = (raised x, record r { log = log' }, w)

  unfoldable pub handle_append_entries :
      AppendEntries C → ℕ → MicroRaft C W → W → Outcome AppendReply × MicroRaft C W × W
  unfolding prev_matches append_all after_entries
  handle_append_entries a now r w =
      let r' = record r { last_heartbeat = now } in
      if prev_matches a.prev_log_index a.prev_log_term r.log
      then after_entries a.leader_commit r' w (append_all a.entries r.log)
      else (returned (record { term = r.current_term; success = false }), r', w)

  unfoldable pub handle_rpc : Rpc C → ℕ → MicroRaft C W → W → Outcome Reply × MicroRaft C W × W
  unfolding observe_term handle_request_vote handle_append_entries
  handle_rpc (request_vote q) now r w =
      let (v, r') = handle_request_vote q now (observe_term q.term r) in
      (returned (vote_reply v), r', w)
  handle_rpc (append_entries a) now r w =
      let (o, r', w') = handle_append_entries a now (observe_term a.term r) w in (answer o, r', w')
  handle_rpc (other_rpc t) now r w = (returned no_reply, observe_term t r, w)
