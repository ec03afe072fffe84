-- ===== src/Coordination/Coordinator/Once.antt =====
-- Exactly once: a committed message that is committed again within its time to live.
use census_konantgit_sys_p2p.Coordination.Coordinator.{
  mark_delivered, on_commit, Services, group_of_topic, message_id, ordered_message,
}
use census_konantgit_sys_p2p.Prelude.{
  String, ℕ, ◌≡◌, true, inl, none, inr, false, ◌⊎◌, some, ◌<◌, ◌+◌, ap, ◌∙◌, eq_refl, lt→ltb,
}
use census_konantgit_sys_p2p.Dict.{Dict, lookup}
use census_konantgit_sys_p2p.Outcome.{Done, returned}
use census_konantgit_sys_p2p.Coordination.Groups.{GroupCoordinator, Consumers, broadcast}
use census_konantgit_sys_p2p.Coordination.Dedup.{has_row, mark_processed, is_processed}
use census_konantgit_sys_p2p.Coordination.Groups.Broadcast.{broadcast-taken, AllSubscribed}
use census_konantgit_sys_p2p.Coordination.Dedup.Expiry.{
  is_processed-mark_processed, live-false-of_no_row,
}

module _ {P U : Type 0} where
  -- Every consumer of the topic's group has subscribed to it, if there is a group.
  abbrev pub Deliverable : String → Dict (Consumers P U) → Type 0
  Deliverable topic groups =
      (lookup (group_of_topic topic) groups ≡ none)
      ⊎ ((cs : Consumers P U) × (lookup (group_of_topic topic) groups ≡ some cs)
          × AllSubscribed topic cs)

  broadcast-returns :
      (topic : String) (seq : ℕ) (payload : P) (c : GroupCoordinator P U) (u : U)
      → Deliverable topic c.groups
      → (broadcast (group_of_topic topic) topic seq payload c u).0 ≡ returned tt
  broadcast-returns topic seq payload c u (inl e) = unfold broadcast in rw (e, broadcast)
  broadcast-returns topic seq payload c u (inr (cs, e, sub)) =
      (broadcast-taken (group_of_topic topic) topic seq payload c u cs e sub).0

  mark_delivered-returned :
      (id : String) (s : Services P U) (o : Done) (c : GroupCoordinator P U) (u : U)
      → o ≡ returned tt
      → mark_delivered id s (o, c, u)
        ≡ record s { groups = c; user = u; dedup = (mark_processed id "" s.clock s.dedup).1 }
  unfolding mark_delivered
  mark_delivered-returned id s o c u h = rw h

  -- A message without a row, over an open log and with every consumer of its group subscribed, is broadcast to the group and marked.
  on_commit_new :
      (topic : String) (seq : ℕ) (payload : P) (ts : ℕ) (s : Services P U)
      → s.dedup.is_open ≡ true
      → has_row (message_id topic seq) s.dedup.rows ≡ false
      → Deliverable topic s.groups.groups
      → let (o, groups, user) =
          broadcast (group_of_topic topic) topic seq payload s.groups s.user in
        on_commit (ordered_message topic seq payload ts) s ≡ record s {
          groups = groups;
          user = user;
          dedup = (mark_processed (message_id topic seq) "" s.clock s.dedup).1;
        }
  unfolding on_commit
  on_commit_new topic seq payload ts s o fresh d =
      let id = message_id topic seq in
      let not_yet : is_processed id s.clock s.dedup ≡ returned false =
        unfold is_processed in
        rw o (ap returned (live-false-of_no_row id s.clock s.dedup.rows fresh)) in
      let b = broadcast (group_of_topic topic) topic seq payload s.groups s.user in
      rw (not_yet, on_commit)
        (mark_delivered-returned id s b.0 b.1 b.2
          (broadcast-returns topic seq payload s.groups s.user d))

  -- A message without a row, committed over an open log with every consumer of its group subscribed, and committed again before its time to live is over, under the same topic and number and with whatever payload, changes nothing the second time: no consumer sees it twice.
  pub on_commit_once :
      (topic : String) (seq : ℕ) (payload again : P) (ts ts' later : ℕ) (s : Services P U)
      → s.dedup.is_open ≡ true
      → has_row (message_id topic seq) s.dedup.rows ≡ false
      → Deliverable topic s.groups.groups
      → later < s.clock + s.dedup.ttl_sec
      → let s' = record (on_commit (ordered_message topic seq payload ts) s) { clock = later } in
        on_commit (ordered_message topic seq again ts') s' ≡ s'
  on_commit_once topic seq payload again ts ts' later s o fresh d live =
      let id = message_id topic seq in
      let marked = is_processed-mark_processed id id "" s.clock later s.dedup o fresh in
      let known : is_processed id later (mark_processed id "" s.clock s.dedup).1 ≡ returned true =
        marked ∙ rw (eq_refl id) (ap returned (lt→ltb later (s.clock + s.dedup.ttl_sec) live)) in
      rw (on_commit_new topic seq payload ts s o fresh d)
        (unfold on_commit in rw (known, on_commit))
