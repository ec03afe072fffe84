-- ===== src/Coordination/Raft/Elections.antt =====
-- Elections: who becomes leader, and with which votes.
use census_konantgit_sys_p2p.Prelude.{
  ◌∷◌, [], List, String, Option, ℕ, ◌≤◌, if◌then◌else◌, ◌≡◌, ◌↔◌, map, ◌⊎◌, ◌+◌, length, inl, arith,
  ◌<◌, Bool-cases, ◌*◌, leb, inr, leb→le, refl, some, ◌≢◌, true, ltb, false, sym,
}
use census_konantgit_sys_p2p.Coordination.Raft.Leader.{
  count_votes, start_election, finish_election, begin_election, granted, vote_request,
  become_leader, send_rpc,
}
use census_konantgit_sys_p2p.Coordination.Raft.Rpc.{
  VoteRequest, VoteReply, handle_rpc, request_vote, vote_reply, observe_term, handle_request_vote,
}
use census_konantgit_sys_p2p.Coordination.Raft.{MicroRaft, leader, majority}
use census_konantgit_sys_p2p.Coordination.Raft.Votes.{UpToDate, is_behind_iff}
use census_konantgit_sys_p2p.Outcome.{returned}

-- How many answers grant the vote.
abbrev pub grants : List (Option VoteReply) → ℕ
grants [] = 0
grants (a ∷ rest) = (if granted a then 1 else 0) + grants rest

-- The count stops early only when it has reached what is needed.
count_votes-reaches :
    (needed votes : ℕ) (answers : List (Option VoteReply))
    → (needed ≤ count_votes needed votes answers)
      ↔ ((needed ≤ votes) ⊎ (needed ≤ votes + grants answers))
unfolding count_votes
count_votes-reaches needed votes [] = (λ h. inl h, λ h. ground arith)
count_votes-reaches needed votes (a ∷ rest) = elim (Bool-cases (granted a)) [
  | inr no_vote ↦
      let ih = count_votes-reaches needed votes rest in
      rw (no_vote, count_votes) (λ h. ground (arith, ih.0 h), λ h. ih.1 (ground arith))
  | inl vote ↦ elim (Bool-cases (leb needed (votes + 1))) [
    | inl enough ↦
        rw (vote, count_votes)
          (rw (enough, count_votes)
            (λ h. inr (ground arith), λ h. leb→le needed (votes + 1) enough))
    | inr more ↦
        let ih = count_votes-reaches needed (votes + 1) rest in
        rw (vote, count_votes)
          (rw (more, count_votes) (λ h. ground (arith, ih.0 h), λ h. ih.1 (ground arith)))
  ]
]

no_grants : (ps : List String) (q : VoteRequest) → grants (map (λ p. send_rpc p q) ps) ≡ 0
unfolding send_rpc
no_grants [] q = refl
no_grants (p ∷ ps) q = omega (arith, no_grants ps q)

module _ {C W : Type 0} where
  -- The answers to an election's requests.
  abbrev pub answers :
      (String → VoteRequest → Option VoteReply) → MicroRaft C W → List (Option VoteReply)
  answers send r = map (λ peer. send peer (vote_request (begin_election r))) r.peers

  start_election-state :
      (send : String → VoteRequest → Option VoteReply) (r : MicroRaft C W)
      → ((start_election send r).state ≡ leader)
        ↔ (majority r.peers ≤ count_votes (majority r.peers) 1 (answers send r))
  unfolding start_election
  start_election-state send r =
      elim (Bool-cases
        (leb (majority r.peers) (count_votes (majority r.peers) 1 (answers send r)))) [
          | inl won ↦
              unfold finish_election begin_election in
              rw won (λ h. leb→le _ _ won, λ h. unfold become_leader in refl)
          | inr lost ↦
              unfold finish_election begin_election in
              rw lost (λ h. cc, λ h. absurd (ground (arith, lost)))
        ]

  -- An undisturbed election makes the node leader exactly when the votes, its own included, are more than half of the cluster, the node and its peers; whatever the outcome, its term has grown by one.
  pub start_election_majority :
      (send : String → VoteRequest → Option VoteReply) (r : MicroRaft C W)
      → (((start_election send r).state ≡ leader)
          ↔ (length r.peers + 1 < 2 * (1 + grants (answers send r))))
        × ((start_election send r).current_term ≡ r.current_term + 1)
  unfolding start_election
  start_election_majority send r =
      let won = start_election-state send r in
      let counted = count_votes-reaches (majority r.peers) 1 (answers send r) in
      ((λ h. more counted.0 (won.0 h), λ h. won.1 (counted.1 (inr (omega arith)))), term)
    where
      more :
          (majority r.peers ≤ count_votes (majority r.peers) 1 (answers send r)
            → (majority r.peers ≤ 1) ⊎ (majority r.peers ≤ 1 + grants (answers send r)))
          → majority r.peers ≤ count_votes (majority r.peers) 1 (answers send r)
          → length r.peers + 1 < 2 * (1 + grants (answers send r))
      more f h = elim (f h) [ inl a ↦ omega arith | inr b ↦ omega arith ]

      term : (start_election send r).current_term ≡ r.current_term + 1
      term =
          elim (Bool-cases
            (leb (majority r.peers) (count_votes (majority r.peers) 1 (answers send r)))) [
              | inl e ↦ rw e
              | inr e ↦ rw e
            ]

  -- With the program's own `_send_rpc`, which returns no answer, a node that has peers never wins an election.
  pub never_leader_with_peers :
      (r : MicroRaft C W) → 0 < length r.peers → (start_election send_rpc r).state ≢ leader
  never_leader_with_peers r h won =
      let more = (start_election_majority send_rpc r).0.0 won in
      omega (arith, no_grants r.peers (vote_request (begin_election r)))

  -- A node that has won an election, and so has voted for itself in that term, grants its vote in the same term to another candidate, if that candidate's log is recent enough: winning clears the vote.
  leader_votes_again :
      (votes : ℕ) (q : VoteRequest) (now : ℕ) (r : MicroRaft C W) (w : W)
      → majority r.peers ≤ votes
      → q.term ≡ r.current_term + 1
      → UpToDate q r.log
      → let won = finish_election votes (begin_election r) in
        ((begin_election r).voted_for ≡ some r.node_id)
        × (won.state ≡ leader)
        × (won.current_term ≡ q.term)
        × ((handle_rpc (request_vote q) now won w).0
            ≡ returned (vote_reply (record { term = q.term; vote_granted = true })))
  unfolding begin_election finish_election
  leader_votes_again votes q now r w enough same recent =
      let won : leb (majority r.peers) votes ≡ true = ground arith in
      let not_newer : ltb (r.current_term + 1) q.term ≡ false = ground arith in
      let not_older : ltb q.term (r.current_term + 1) ≡ false = ground arith in
      rw won (
        refl,
        unfold become_leader in refl,
        unfold become_leader in sym same,
        unfold handle_rpc observe_term handle_request_vote become_leader in
            rw not_newer (rw not_older (rw ((is_behind_iff q r.log).1 recent) (rw same))),
      )
