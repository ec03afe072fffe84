-- ===== src/Phase0/RaftNode/Majority.antt =====
-- Who becomes the leader of a `RaftNode` group, and on how many votes.
use census_konantgit_sys_p2p.Prelude.{
  ◌∷◌, [], List, ◌≢◌, String, length, ◌≡◌, ℕ, arith, ◌<◌, Bool, ◌*◌, ◌≤◌, ◌+◌, Option, true,
  Bool-cases, not, ◌||◌, inl, inr, ltb, ◌-◌, ◌&&◌, ◌∙◌, sym, str_eq-false, lt→ltb, refl,
  if◌then◌else◌, ◌==◌,
}
use census_konantgit_sys_p2p.Phase0.RaftNode.{
  follower, candidate, leader, RaftNode, handle_append_entries, handle_vote_response,
  start_election, handle_request_vote, become_leader, adopt_term, needed, on_raft_msg, start, run,
  candidacy, handle, new_node, Event, send, election_round, stop, received, request_vote,
  vote_response, append_entries, timeout, is_leader, heartbeat_due, other_payload, stopped,
  is_free_for,
}

needed_is_majority : (peers : List String) → length peers < 2 * needed peers
needed_is_majority [] = omega arith
needed_is_majority (p ∷ ps) = omega arith

module _ {E : Type 0} where
  record Counted (r : RaftNode E) : Type 0 where
    asked : r.state ≢ follower → r.votes_needed ≡ needed r.peers
    won : r.state ≡ leader → r.votes_needed ≤ r.votes_received

  handle_request_vote-Counted :
      (term : ℕ) (id : String) (r : RaftNode E)
      → Counted r
      → Counted (handle_request_vote term id r).0
  unfolding handle_request_vote adopt_term
  handle_request_vote-Counted term id r h = record {
    asked = ground (arith, h.asked);
    won = ground (arith, h.won);
  }

  handle_vote_response-Counted :
      (term : ℕ) (granted : Bool) (r : RaftNode E)
      → Counted r
      → Counted (handle_vote_response term granted r)
  unfolding handle_vote_response become_leader
  handle_vote_response-Counted term granted r h = record {
    asked = ground (arith, h.asked);
    won = ground (arith, h.won);
  }

  handle_append_entries-Counted :
      (term : ℕ) (id : String) (entries : List E) (leader_commit now : ℕ) (r : RaftNode E)
      → Counted r
      → Counted (handle_append_entries term id entries leader_commit now r)
  unfolding handle_append_entries
  handle_append_entries-Counted term id entries leader_commit now r h = record {
    asked = ground (arith, h.asked);
    won = ground (arith, h.won);
  }

  start_election-Counted : (r : RaftNode E) → Counted (start_election r).0
  unfolding start_election candidacy become_leader
  start_election-Counted r = record { asked = ground arith; won = ground arith }

  handle-Counted : (e : Event E) (r : RaftNode E) → Counted r → Counted (handle e r).0
  unfolding handle on_raft_msg election_round stop
  handle-Counted (received (request_vote term id _ _) now) r h =
      handle_request_vote-Counted term id r h
  handle-Counted (received (vote_response term granted _) now) r h =
      handle_vote_response-Counted term granted r h
  handle-Counted (received (append_entries term id entries commit) now) r h =
      handle_append_entries-Counted term id entries commit now r h
  handle-Counted (received other_payload now) r h = h
  handle-Counted (timeout now jitter) r h = elim (Bool-cases (not r.running || is_leader r.state)) [
    | inl e ↦ rw e h
    | inr e ↦ elim (Bool-cases (ltb (now - r.last_heartbeat) (300 + jitter))) [
      | inl early ↦ rw (e, early) h
      | inr due ↦ rw (e, due) (start_election-Counted r)
    ]
  ]
  handle-Counted heartbeat_due r h = elim (Bool-cases (r.running && is_leader r.state)) [
    | inl e ↦ rw e h
    | inr e ↦ rw e h
  ]
  handle-Counted stopped r h = record { asked = h.asked; won = h.won }

  run-Counted : (es : List (Event E)) (r : RaftNode E) → Counted r → Counted (run es r).0
  unfolding run
  run-Counted [] r h = h
  run-Counted (e ∷ es) r h = run-Counted es (handle e r).0 (handle-Counted e r h)

  -- One for an answer that grants a vote in the term.
  abbrev pub grant : ℕ → Event E → ℕ
  grant t (received (vote_response term granted id) now) = if granted && (term == t) then 1 else 0
  grant t (received (request_vote term id index log_term) now) = 0
  grant t (received (append_entries term id entries commit) now) = 0
  grant t (received other_payload now) = 0
  grant t (timeout now jitter) = 0
  grant t heartbeat_due = 0
  grant t stopped = 0

  -- How many of the events are answers that grant a vote in the term.
  abbrev pub grants : ℕ → List (Event E) → ℕ
  grants t [] = 0
  grants t (e ∷ es) = grant t e + grants t es

  -- The votes that were counted, but for the node's own, are backed by granted votes of its term.
  Backed : (ℕ → ℕ) → RaftNode E → Type 0
  Backed k r = r.state ≢ follower → r.votes_received ≤ 1 + k r.current_term

  handle_vote_response-Backed :
      (k : ℕ → ℕ) (term : ℕ) (granted : Bool) (r : RaftNode E)
      → Backed k r
      → Backed
          (λ t. k t + (if granted && (term == t) then 1 else 0))
          (handle_vote_response term granted r)
  unfolding Backed handle_vote_response become_leader
  handle_vote_response-Backed k term granted r h = ground (arith, h)

  handle-Backed :
      (k : ℕ → ℕ) (e : Event E) (r : RaftNode E)
      → Backed k r
      → Backed (λ t. k t + grant t e) (handle e r).0
  unfolding Backed handle on_raft_msg election_round stop
  handle-Backed k (received (request_vote term id _ _) now) r h =
      unfold handle_request_vote adopt_term in ground (arith, h)
  handle-Backed k (received (vote_response term granted _) now) r h =
      handle_vote_response-Backed k term granted r h
  handle-Backed k (received (append_entries term id entries commit) now) r h =
      unfold handle_append_entries in ground (arith, h)
  handle-Backed k (received other_payload now) r h = ground (arith, h)
  handle-Backed k (timeout now jitter) r h =
      unfold start_election candidacy become_leader in ground (arith, h)
  handle-Backed k heartbeat_due r h = ground (arith, h)
  handle-Backed k stopped r h = ground (arith, h)

  run-Backed :
      (k : ℕ → ℕ) (es : List (Event E)) (r : RaftNode E)
      → Backed k r
      → Backed (λ t. k t + grants t es) (run es r).0
  unfolding Backed run
  run-Backed k [] r h = λ busy. omega (arith, h busy)
  run-Backed k (e ∷ es) r h =
      let later = run-Backed (λ t. k t + grant t e) es (handle e r).0 (handle-Backed k e r h) in
      λ busy. omega (arith, later busy)

  -- A node that was started with some peers and is the leader after any events has a count of votes above half the number of its peers, its own vote included, and of these all but its own are covered by answers among the events that grant a vote in the term that it leads.
  pub run_leader_has_majority :
      (es : List (Event E)) (node_id : String) (has_transport : Bool) (wal : Option (List E))
      (peers : List String) (now : ℕ)
      → let r = (run es (start peers now (new_node node_id has_transport wal))).0 in
        r.state ≡ leader
        → (length r.peers < 2 * r.votes_received)
          × (r.votes_received ≤ 1 + grants r.current_term es)
  unfolding start new_node Backed
  run_leader_has_majority es node_id has_transport wal peers now is_leader =
      let started = start peers now (new_node node_id has_transport wal) in
      let counted = run-Counted es started (record { asked = ground arith; won = ground arith }) in
      let majority = needed_is_majority (run es started).0.peers in
      let asked = counted.asked (ground (arith, is_leader)) in
      let backed = run-Backed (λ t. 0) es started (λ busy. absurd (busy refl)) in
      (omega (arith, majority, asked, counted.won is_leader), omega (arith, backed (λ e. cc)))

  last_vote :
      (term : ℕ) (r : RaftNode E)
      → r.state ≡ candidate
      → r.current_term ≡ term
      → r.votes_needed ≡ r.votes_received + 1
      → ((handle_vote_response term true r).state ≡ leader)
        × ((handle_vote_response term true r).current_term ≡ term)
  unfolding handle_vote_response become_leader
  last_vote term r c same needed = (ground (arith, c), ground (arith, c))

  first_request :
      (term : ℕ) (id : String) (r : RaftNode E)
      → r.current_term < term
      → r.has_transport ≡ true
      → id ≢ r.node_id
      → (handle_request_vote term id r).1 ≡ vote_response term true id ∷ []
  unfolding handle_request_vote adopt_term is_free_for send
  first_request term id r old transport other =
      rw (str_eq-false id r.node_id other, lt→ltb r.current_term term old) (ground arith)

  -- One granted vote elects two candidates: when the nodes `a` and `b` are candidates of one term that each want one more vote, and a third node, behind in terms, answers the request of `a`, then the answer, which goes to everybody, makes both `a` and `b` leaders of that term.
  pub one_vote_elects_two :
      (a b voter : RaftNode E) (now : ℕ)
      → a.state ≡ candidate
      → b.state ≡ candidate
      → b.current_term ≡ a.current_term
      → a.votes_needed ≡ a.votes_received + 1
      → b.votes_needed ≡ b.votes_received + 1
      → voter.current_term < a.current_term
      → voter.has_transport ≡ true
      → a.node_id ≢ voter.node_id
      → let answer = vote_response a.current_term true a.node_id in
        ((handle_request_vote a.current_term a.node_id voter).1 ≡ answer ∷ [])
        × ((on_raft_msg answer now a).0.state ≡ leader)
        × ((on_raft_msg answer now b).0.state ≡ leader)
        × ((on_raft_msg answer now b).0.current_term ≡ (on_raft_msg answer now a).0.current_term)
  unfolding on_raft_msg
  one_vote_elects_two a b voter now ca cb same na nb old transport other =
      let a_wins = last_vote a.current_term a ca refl na in
      let b_wins = last_vote a.current_term b cb same nb in
      (
        first_request a.current_term a.node_id voter old transport other,
        a_wins.0,
        b_wins.0,
        b_wins.1 ∙ sym a_wins.1,
      )
