-- ===== src/Coordination/Coordinator/Sequence.antt =====
-- `ordered_broadcast`: the numbers of a topic, and what a node without peers delivers.
use census_konantgit_sys_p2p.Prelude.{
  ◌∷◌, [], List, ◌++◌, drop, String, length, ◌≡◌, refl, ◌+◌, true, some, ap, ◌∙◌, arith,
  length-append, ◌-◌,
}
use census_konantgit_sys_p2p.Coordination.Coordinator.{
  ordered_broadcast, Coordinator, on_commit, ordered_message, message_id, Command, broadcast_result,
}
use census_konantgit_sys_p2p.Coordination.Raft.Leader.{is_leader, propose}
use census_konantgit_sys_p2p.Dict.{get_or, get_or-insert_self}
use census_konantgit_sys_p2p.Outcome.{returned}
use census_konantgit_sys_p2p.Coordination.Raft.Proposing.{propose_lem}
use census_konantgit_sys_p2p.Coordination.Raft.{LogEntry}
use census_konantgit_sys_p2p.Coordination.Dedup.{is_processed}
use census_konantgit_sys_p2p.Coordination.Raft.Applying.{run_entries}
use census_konantgit_sys_p2p.Coordination.ConsumerGroup.{run_callbacks}

drop-snoc : {A : Type 0} (l : List A) (x : A) → drop (length l) (l ++ x ∷ []) ≡ x ∷ []
drop-snoc [] x = refl
drop-snoc (y ∷ l) x = drop-snoc l x

module _ {P U : Type 0} where
  -- A leader without peers whose log is applied up to its end, with `_on_commit` as the log's one callback.
  pub record IsAlone (c : Coordinator P U) : Type 0 where
    pub leads : is_leader c.raft ≡ true
    pub alone : c.raft.peers ≡ []
    pub applied : c.raft.last_applied ≡ length c.raft.log
    pub callback : c.raft.commit_callbacks ≡ on_commit ∷ []

  -- On a leader without peers that has applied its whole log, and whose one callback is `_on_commit`, an ordered broadcast returns the next number of the topic, counted from what this node has broadcast itself, and commits and delivers its message at once: the services are those after `_on_commit` of it.
  ordered_broadcast_alone :
      (topic : String) (payload : P) (c : Coordinator P U)
      → IsAlone c
      → let seq = get_or topic 0 c.topic_seqs + 1 in
        let b = ordered_broadcast topic payload c in
        (b.result ≡ returned (some seq))
        × (get_or topic 0 b.node.topic_seqs ≡ seq)
        × (b.node.services
            ≡ on_commit (ordered_message topic seq payload c.services.clock) c.services)
        × (b.node.raft.commit_index ≡ length c.raft.log + 1)
  unfolding ordered_broadcast
  ordered_broadcast_alone topic payload c h =
      let seq = get_or topic 0 c.topic_seqs + 1 in
      let now = c.services.clock in
      let command = ordered_message topic seq payload now in
      let done = (propose_lem command now c.raft c.services).1 h.leads in
      let end = done.4 h.alone in
      let e : LogEntry (Command P) = record {
        term = c.raft.current_term;
        index = length c.raft.log + 1;
        command = command;
        timestamp = now;
      } in
      let one_more : length (c.raft.log ++ e ∷ []) ≡ length c.raft.log + 1 =
        omega (arith, length-append c.raft.log (e ∷ [])) in
      let one : length (c.raft.log ++ e ∷ []) - length c.raft.log ≡ 1 = omega (arith, one_more) in
      let world : (propose command now c.raft c.services).world ≡ on_commit command c.services =
        end.1
        ∙ rw done.1 (
            rw h.applied (
              rw (drop-snoc c.raft.log e)
                (rw one (rw h.callback (unfold run_entries run_callbacks in refl))))) in
      let log_end : (propose command now c.raft c.services).node.commit_index
          ≡ length c.raft.log + 1 =
        end.0 ∙ ap length done.1 ∙ one_more in
      rw h.leads (
        ap (λ o. broadcast_result o seq) done.0,
        get_or-insert_self topic seq 0 c.topic_seqs,
        world,
        log_end,
      )

  -- A number that the exactly-once log already has, as after a restart on the same file, where the numbers of a topic start again at 1: the broadcast returns the number, and its message reaches nobody.
  reused_number_is_lost :
      (topic : String) (payload : P) (c : Coordinator P U)
      → IsAlone c
      → let seq = get_or topic 0 c.topic_seqs + 1 in
        is_processed (message_id topic seq) c.services.clock c.services.dedup ≡ returned true
        → let b = ordered_broadcast topic payload c in
          (b.result ≡ returned (some seq)) × (b.node.services ≡ c.services)
  reused_number_is_lost topic payload c h known =
      let done = ordered_broadcast_alone topic payload c h in
      (done.0, done.2 ∙ (unfold on_commit in rw (known, on_commit)))
