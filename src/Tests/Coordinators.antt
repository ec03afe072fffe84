-- ===== src/Tests/Coordinators.antt =====
-- Runs and instances for the coordinator and the groups, coordination/coordinator.py and consumer_group.py.
use census_konantgit_sys_p2p.Prelude.{
  ◌∷◌, [], List, ℕ, ◌++◌, none, ◌+◌, ◌≡◌, true, some, false, refl, inr, arith,
}
use census_konantgit_sys_p2p.Dict.{lookup, get_or, insert}
use census_konantgit_sys_p2p.Coordination.Coordinator.{
  on_commit, Services, Coordinator, message_id, ordered_message, group_of_topic,
}
use census_konantgit_sys_p2p.Coordination.ConsumerGroup.{ConsumerGroup, Callback, on_message}
use census_konantgit_sys_p2p.Coordination.Dedup.{has_row, is_processed, mark_processed}
use census_konantgit_sys_p2p.Coordination.Raft.Leader.{is_leader}
use census_konantgit_sys_p2p.Coordination.Coordinator.Sequence.{IsAlone}
use census_konantgit_sys_p2p.Coordination.Coordinator.Once.{on_commit_once}
use census_konantgit_sys_p2p.Coordination.Raft.{leader}
use census_konantgit_sys_p2p.Outcome.{returned}

abbrev log_prices : Callback ℕ (List ℕ)
log_prices p w = w ++ p ∷ []

abbrev subscriber : ConsumerGroup ℕ (List ℕ)
subscriber = record {
  group_id = "cg:prices";
  consumer_id = "forecaster";
  topics = ("prices", log_prices ∷ []) ∷ [];
  offsets = [];
  pending = ("prices", []) ∷ [];
}

abbrev services : Services ℕ (List ℕ)
services = record {
  dedup = record { ttl_sec = 100; rows = []; is_open = true };
  groups = record {
    groups = ("cg:prices", ("forecaster", subscriber) ∷ []) ∷ [];
    membership = ("cg:prices", "forecaster" ∷ []) ∷ [];
  };
  user = [];
  clock = 1000;
}

on_commit_runs :
    (on_commit
      (ordered_message "prices" 1 85 0)
      (on_commit (ordered_message "prices" 1 85 0) services)).user
    ≡ 85 ∷ []
unfolding on_commit on_message insert lookup get_or is_processed mark_processed group_of_topic
on_commit_runs = refl

no_rows_yet : has_row (message_id "prices" 1) services.dedup.rows ≡ false
unfolding has_row
no_rows_yet = refl

group_there :
    lookup (group_of_topic "prices") services.groups.groups ≡ some (("forecaster", subscriber) ∷ [])
unfolding lookup group_of_topic
group_there = refl

subscriber_buffer : lookup "prices" subscriber.pending ≡ some []
unfolding lookup
subscriber_buffer = refl

on_commit_once_example :
    let s' = record (on_commit (ordered_message "prices" 1 85 0) services) { clock = 1050 } in
    on_commit (ordered_message "prices" 1 86 5) s' ≡ s'
on_commit_once_example =
    on_commit_once "prices" 1 85 86 0 5 1050 services refl no_rows_yet
      (inr (("forecaster", subscriber) ∷ [], group_there, (([], subscriber_buffer), tt)))
      (omega arith)

abbrev alone : Coordinator ℕ (List ℕ)
alone = record {
  raft = record {
    node_id = "a";
    peers = [];
    current_term = 1;
    voted_for = none;
    log = [];
    commit_index = 0;
    last_applied = 0;
    next_index = [];
    match_index = [];
    state = leader;
    running = true;
    election_task = true;
    heartbeat_task = true;
    last_heartbeat = 0;
    commit_callbacks = on_commit ∷ [];
  };
  topic_seqs = [];
  services = services;
}

alone-IsAlone : IsAlone alone
unfolding is_leader
alone-IsAlone = record { leads = refl; alone = refl; applied = refl; callback = refl }

-- The same node after a restart on a log that has the topic's first number.
abbrev restarted : Coordinator ℕ (List ℕ)
restarted = record alone {
  services = record services {
    dedup = record {
      ttl_sec = 100;
      rows = record { msg_id = "prices:1"; result_hash = ""; ts = 950; ttl_until = 1050 } ∷ [];
      is_open = true;
    };
  };
}

restarted-IsAlone : IsAlone restarted
unfolding is_leader
restarted-IsAlone = record { leads = refl; alone = refl; applied = refl; callback = refl }

number_known :
    is_processed
      (message_id "prices" (get_or "prices" 0 restarted.topic_seqs + 1))
      1000
      restarted.services.dedup
    ≡ returned true
unfolding is_processed message_id get_or
number_known = refl
