-- ===== src/Coordination/Coordinator.antt =====
-- `class Coordinator` of coordination/coordinator.py: the consensus log whose committed commands go
-- through the exactly-once log to the consumer groups. The world of the log's callbacks is the record
-- `Services`; the world of the groups' callbacks is `U`. One reading of the clock serves a whole
-- `_on_commit`.
pub mod Once
pub mod Sequence
use census_konantgit_sys_p2p.Coordination.Raft
use Prim.Native.String.{◌++◌ as text_append}
use census_konantgit_sys_p2p.Coordination.Raft.{MicroRaft, new_raft}
use census_konantgit_sys_p2p.Prelude.{
  String, ℕ, Option, List, ◌+◌, suc, if◌then◌else◌, some, [], ◌/◌, ◌==◌, ltb, none, ◌%◌, zero,
}
use census_konantgit_sys_p2p.Coordination.Dedup.{
  is_processed, open_log, DedupLog, mark_processed, close,
}
use census_konantgit_sys_p2p.Coordination.Raft.Leader.{propose, is_leader}
use census_konantgit_sys_p2p.Coordination.Groups.{
  join_group, leave_group, GroupCoordinator, broadcast, new_coordinator,
}
use census_konantgit_sys_p2p.Outcome.{Outcome, Done, returned, raised}
use census_konantgit_sys_p2p.Dict.{Dict, get_or, insert}
use census_konantgit_sys_p2p.Coordination.Raft.Rpc.{AppendEntries}

-- A decimal digit.
abbrev digit : ℕ → String
digit n =
    if n == 0
    then "0"
    else if n == 1
    then "1"
    else if n == 2
    then "2"
    else if n == 3
    then "3"
    else if n == 4
    then "4"
    else if n == 5
    then "5"
    else if n == 6
    then "6"
    else if n == 7
    then "7"
    else if n == 8
    then "8"
    else "9"

-- `str(n)`: a number has no more digits than its value and one.
decimal_digits : ℕ → ℕ → String
decimal_digits zero n = ""
decimal_digits (suc fuel) n =
    let rest = decimal_digits fuel (n / 10) in
    if ltb n 10 then digit n else text_append rest (digit (n % 10))

unfoldable pub decimal : ℕ → String
unfolding decimal_digits
decimal n = decimal_digits (n + 1) n

-- `f"{topic}:{seq}"`
unfoldable pub message_id : String → ℕ → String
unfolding decimal
message_id topic seq = text_append topic (text_append ":" (decimal seq))

-- `f"cg:{topic}"`
unfoldable pub group_of_topic : String → String
group_of_topic topic = text_append "cg:" topic

-- The dictionaries that are put into the log; a command of another type is ignored at its commit.
pub data Command (P : Type 0) : Type 0 where
  ordered_message : String → ℕ → P → ℕ → Command P
  other_command : Command P

pub record Services (P U : Type 0) : Type 0 where
  pub dedup : DedupLog
  pub groups : GroupCoordinator P U
  pub user : U
  pub clock : ℕ

pub record Coordinator (P U : Type 0) : Type 0 where
  pub raft : MicroRaft (Command P) (Services P U)
  pub topic_seqs : Dict ℕ
  pub services : Services P U

pub record Broadcasted (P U : Type 0) : Type 0 where
  pub result : Outcome (Option ℕ)
  pub sent : List (String × AppendEntries (Command P))
  pub node : Coordinator P U

-- What `ordered_broadcast` returns: its own number, not the index in the log.
abbrev pub broadcast_result : Outcome (Option ℕ) → ℕ → Outcome (Option ℕ)
broadcast_result (returned _) seq = returned (some seq)
broadcast_result (raised x) seq = raised x

module _ {P U : Type 0} where
  -- The rest of `_on_commit` after a broadcast: an exception skips the mark.
  unfoldable pub mark_delivered :
      String → Services P U → Done × GroupCoordinator P U × U → Services P U
  unfolding mark_processed
  mark_delivered id s (returned _, groups, user) = record s {
    groups = groups;
    user = user;
    dedup = (mark_processed id "" s.clock s.dedup).1;
  }
  mark_delivered id s (raised x, groups, user) = record s { groups = groups; user = user }

  -- `_on_commit`; what it raises is caught by the log, which calls it.
  unfoldable pub on_commit : Command P → Services P U → Services P U
  unfolding is_processed mark_delivered broadcast message_id group_of_topic
  on_commit other_command s = s
  on_commit (ordered_message topic seq payload ts) s =
      let id = message_id topic seq in
      elim (is_processed id s.clock s.dedup) [
        | raised x ↦ s
        | returned done ↦
            if done
            then s
            else mark_delivered id s
                (broadcast (group_of_topic topic) topic seq payload s.groups s.user)
      ]

  unfoldable pub ordered_broadcast : String → P → Coordinator P U → Broadcasted P U
  ordered_broadcast topic payload c =
      let seq = get_or topic 0 c.topic_seqs + 1 in
      let now = c.services.clock in
      let p = propose (ordered_message topic seq payload now) now c.raft c.services in
      if is_leader c.raft
      then record {
        result = broadcast_result p.result seq;
        sent = p.sent;
        node = record {
          raft = p.node;
          topic_seqs = insert topic seq c.topic_seqs;
          services = p.world;
        };
      }
      else record { result = returned none; sent = []; node = c }

  -- `__init__`: the log's one callback is `_on_commit`.
  unfoldable pub new_node : String → List String → DedupLog → U → ℕ → Coordinator P U
  unfolding new_raft
  new_node node_id peers dedup user now = record {
    raft = Raft.on_commit on_commit (new_raft node_id peers now);
    topic_seqs = [];
    services = record { dedup = dedup; groups = new_coordinator; user = user; clock = now };
  }

  -- `start`
  unfoldable pub start_node : ℕ → Coordinator P U → Coordinator P U
  unfolding open_log
  start_node now c = record c {
    raft = Raft.start now c.raft;
    services = record c.services { dedup = open_log c.services.dedup };
  }

  -- `stop`
  unfoldable pub stop_node : Coordinator P U → Coordinator P U
  unfolding close
  stop_node c = record c {
    raft = Raft.stop c.raft;
    services = record c.services { dedup = close c.services.dedup };
  }

  -- `create_group` and `leave_group`
  unfoldable pub create_group : String → String → Coordinator P U → Coordinator P U
  unfolding join_group
  create_group gid cid c = record c {
    services = record c.services { groups = join_group gid cid c.services.groups };
  }

  unfoldable pub leave_group_of : String → String → Coordinator P U → Coordinator P U
  unfolding leave_group
  leave_group_of gid cid c = record c {
    services = record c.services { groups = (leave_group gid cid c.services.groups).1 };
  }

  -- `leader_id`
  unfoldable pub leader_id : Coordinator P U → Option String
  unfolding is_leader
  leader_id c = if is_leader c.raft then some c.raft.node_id else none
