-- ===== src/Coordination/Raft.antt =====
-- `class MicroRaft` of coordination/raft.py: the node's state, its life cycle and `_apply_committed`;
-- the RPC handlers are in Raft/Rpc, the election and the leader's duties in Raft/Leader. `C` is the
-- type of commands. A commit callback is what a call of it does to the world `W`; what it raises is
-- caught. Times are naturals. A task is modelled by whether it is scheduled. The methods that await
-- nothing are one step each.
pub mod Rpc
pub mod Leader
pub mod Applying
pub mod Votes
pub mod Logs
pub mod Replication
pub mod Commit
pub mod Elections
pub mod Stale
pub mod Proposing
pub mod Following
use census_konantgit_sys_p2p.Prelude.{
  ℕ, List, length, String, false, none, ◌++◌, ◌+◌, ◌-◌, ◌∷◌, get_last?, suc, Option, true, some,
  ◌/◌, [], get_elem?, take, zero, Bool,
}
use census_konantgit_sys_p2p.Outcome.{Done, returned, raised, index_error}
use census_konantgit_sys_p2p.Coordination.ConsumerGroup.{Callback, run_callbacks}
use census_konantgit_sys_p2p.Dict.{Dict}

pub data RaftState : Type 0 where
  follower candidate leader : RaftState

pub record LogEntry (C : Type 0) : Type 0 where
  pub term : ℕ
  pub index : ℕ
  pub command : C
  pub timestamp : ℕ

pub record MicroRaft (C W : Type 0) : Type 0 where
  pub node_id : String
  pub peers : List String
  pub current_term : ℕ
  pub voted_for : Option String
  pub log : List (LogEntry C)
  pub commit_index : ℕ
  pub last_applied : ℕ
  pub next_index : Dict ℕ
  pub match_index : Dict ℕ
  pub state : RaftState
  pub running : Bool
  pub election_task : Bool
  pub heartbeat_task : Bool
  pub last_heartbeat : ℕ
  pub commit_callbacks : List (Callback C W)

-- `(len(self.peers) + 1) // 2 + 1`
abbrev pub majority : List String → ℕ
majority peers = (length peers + 1) / 2 + 1

module _ {C : Type 0} where
  -- `self.log[-1].term if self.log else 0`
  unfoldable pub last_log_term : List (LogEntry C) → ℕ
  last_log_term log = elim (get_last? log) [ none ↦ 0 | some e ↦ e.term ]

  -- `self.log[index - 1]`: the index 0 reads the last entry.
  unfoldable pub entry_at : List (LogEntry C) → ℕ → Option (LogEntry C)
  entry_at log zero = get_last? log
  entry_at log (suc i) = get_elem? log i

  -- All but the last.
  unfoldable pub drop_last : List (LogEntry C) → List (LogEntry C)
  drop_last [] = []
  drop_last (e ∷ []) = []
  drop_last (e ∷ f ∷ log) = e ∷ drop_last (f ∷ log)

  -- `self.log[: index - 1]`
  unfoldable pub log_before : List (LogEntry C) → ℕ → List (LogEntry C)
  unfolding drop_last
  log_before log zero = drop_last log
  log_before log (suc i) = take i log

module _ {C W : Type 0} where
  -- `__init__`
  unfoldable pub new_raft : String → List String → ℕ → MicroRaft C W
  new_raft node_id peers now = record {
    node_id = node_id;
    peers = peers;
    current_term = 0;
    voted_for = none;
    log = [];
    commit_index = 0;
    last_applied = 0;
    next_index = [];
    match_index = [];
    state = follower;
    running = false;
    election_task = false;
    heartbeat_task = false;
    last_heartbeat = now;
    commit_callbacks = [];
  }

  unfoldable pub start : ℕ → MicroRaft C W → MicroRaft C W
  start now r = record r { running = true; last_heartbeat = now; election_task = true }

  unfoldable pub stop : MicroRaft C W → MicroRaft C W
  stop r = record r { running = false; election_task = false; heartbeat_task = false }

  unfoldable pub on_commit : Callback C W → MicroRaft C W → MicroRaft C W
  on_commit callback r = record r { commit_callbacks = r.commit_callbacks ++ callback ∷ [] }

  -- `_step_down`
  unfoldable pub step_down : MicroRaft C W → MicroRaft C W
  step_down r = record r { state = follower; heartbeat_task = false }

  -- The `while` loop of `_apply_committed`, by the rounds that are left. The index is advanced before
  -- the entry is read.
  unfoldable pub apply_rounds : ℕ → MicroRaft C W → W → Done × MicroRaft C W × W
  apply_rounds zero r w = (returned tt, r, w)
  apply_rounds (suc n) r w =
      let r' = record r { last_applied = r.last_applied + 1 } in
      elim (get_elem? r.log r.last_applied) [
        | none ↦ (raised index_error, r', w)
        | some e ↦ apply_rounds n r' (run_callbacks r.commit_callbacks e.command w)
      ]

  -- `_apply_committed`: `last_applied < commit_index` holds for as many rounds as lie between them.
  unfoldable pub apply_committed : MicroRaft C W → W → Done × MicroRaft C W × W
  unfolding apply_rounds
  apply_committed r w = apply_rounds (r.commit_index - r.last_applied) r w

-- What `get_state` returns.
pub record RaftInfo : Type 0 where
  pub node_id : String
  pub state : RaftState
  pub term : ℕ
  pub log_size : ℕ
  pub commit_index : ℕ
  pub last_applied : ℕ
  pub peers : List String

unfoldable pub get_state : {C W : Type 0} → MicroRaft C W → RaftInfo
get_state r = record {
  node_id = r.node_id;
  state = r.state;
  term = r.current_term;
  log_size = length r.log;
  commit_index = r.commit_index;
  last_applied = r.last_applied;
  peers = r.peers;
}
