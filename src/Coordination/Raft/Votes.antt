-- ===== src/Coordination/Raft/Votes.antt =====
-- Terms and votes under `handle_rpc`.
use census_konantgit_sys_p2p.Coordination.Raft.Rpc.{
  handle_rpc, VoteRequest, after_entries, handle_append_entries, handle_request_vote, observe_term,
  Rpc, AppendEntries, rpc_term, prev_matches, request_vote, append_all, append_entries, other_rpc,
  voted_for_other, is_behind, vote_reply,
}
use census_konantgit_sys_p2p.Coordination.Raft.{MicroRaft, LogEntry, last_log_term, follower}
use census_konantgit_sys_p2p.Prelude.{
  List, ◌≡◌, ℕ, max, Bool-cases, true, ◌↔◌, ◌<◌, inr, ◌≤◌, ◌⊎◌, inl, arith, length, none, refl,
  some, ◌∙◌, false, ltb, String, Option, ap, ltb→lt, ◌≢◌, not, str_eq-false, str_eq, sym, eq_iff,
  ◌∷◌, [],
}
use census_konantgit_sys_p2p.Outcome.{Done, raised, returned}
use census_konantgit_sys_p2p.Coordination.Raft.Replication.{advance_commit_lem}

-- The candidate's log is at least as recent as the node's.
abbrev pub UpToDate : {C : Type 0} → VoteRequest → List (LogEntry C) → Type 0
UpToDate q log =
    (last_log_term log < q.last_log_term)
    ⊎ (q.last_log_term ≡ last_log_term log) × (length log ≤ q.last_log_index)

pub is_behind_iff :
    {C : Type 0} (q : VoteRequest) (log : List (LogEntry C))
    → (is_behind q log ≡ false) ↔ UpToDate q log
unfolding is_behind
is_behind_iff q log = (to, from)
  where
    to : is_behind q log ≡ false → UpToDate q log
    to h = ground arith

    from : UpToDate q log → is_behind q log ≡ false
    from (inl lt) = ground arith
    from (inr (e, le)) = ground arith

voted_for_other_iff :
    (v : Option String) (id : String)
    → (voted_for_other v id ≡ false) ↔ ((v ≡ none) ⊎ (v ≡ some id))
unfolding voted_for_other
voted_for_other_iff none id = (λ h. inl refl, λ h. refl)
voted_for_other_iff (some v) id = (λ h. inr (ground (arith, eq_iff v id)), to)
  where
    to : (some v ≡ none) ⊎ (some v ≡ some id) → not (str_eq v id) ≡ false
    to (inl h) = cc
    to (inr h) = ground (arith, eq_iff v id)

module _ {C W : Type 0} where
  pub observe_term_lem :
      (term : ℕ) (r : MicroRaft C W)
      → ((observe_term term r).current_term ≡ max r.current_term term)
        × (r.current_term < term → (observe_term term r).state ≡ follower)
        × ((observe_term term r).voted_for ≡ r.voted_for)
        × ((observe_term term r).log ≡ r.log)
        × ((observe_term term r).commit_index ≡ r.commit_index)
        × ((observe_term term r).last_applied ≡ r.last_applied)
        × ((observe_term term r).commit_callbacks ≡ r.commit_callbacks)
  unfolding observe_term
  observe_term_lem term r = (
    ground arith,
    ground arith,
    ground arith,
    ground arith,
    ground arith,
    ground arith,
    ground arith,
  )

  -- What `_handle_append_entries` leaves alone.
  record KeepsVote (a b : MicroRaft C W) : Type 0 where
    term : b.current_term ≡ a.current_term
    vote : b.voted_for ≡ a.voted_for
    state : b.state ≡ a.state

  after_entries-KeepsVote :
      (leader_commit : ℕ) (r : MicroRaft C W) (w : W) (o : Done) (log : List (LogEntry C))
      → KeepsVote r (after_entries leader_commit r w (o, log)).1
  unfolding after_entries
  after_entries-KeepsVote leader_commit r w (raised x) log = record {
    term = refl;
    vote = refl;
    state = refl;
  }
  after_entries-KeepsVote leader_commit r w (returned _) log =
      rw (advance_commit_lem leader_commit (record r { log = log }) w)
        (record { term = ground arith; vote = ground arith; state = ground arith })

  handle_append_entries-KeepsVote :
      (a : AppendEntries C) (now : ℕ) (r : MicroRaft C W) (w : W)
      → KeepsVote r (handle_append_entries a now r w).1
  unfolding handle_append_entries
  handle_append_entries-KeepsVote a now r w =
      elim (Bool-cases (prev_matches a.prev_log_index a.prev_log_term r.log)) [
        | inr e ↦ rw e (record { term = refl; vote = refl; state = refl })
        | inl e ↦
            let (o, log) = append_all a.entries r.log in
            let kept =
              after_entries-KeepsVote a.leader_commit (record r { last_heartbeat = now }) w o log in
            rw e (record { term = kept.term; vote = kept.vote; state = kept.state })
      ]

  -- After any message, also one that fails or raises, the node's term is the greater of its own and the message's, and a node that has seen a newer term is a follower.
  handle_rpc_term :
      (rpc : Rpc C) (now : ℕ) (r : MicroRaft C W) (w : W)
      → let r' = (handle_rpc rpc now r w).1 in
        (r'.current_term ≡ max r.current_term (rpc_term rpc))
        × (r.current_term < rpc_term rpc → r'.state ≡ follower)
  unfolding handle_rpc
  handle_rpc_term (request_vote q) now r w =
      let seen = observe_term_lem q.term r in
      unfold handle_request_vote in (ground (arith, seen.0), λ newer. ground (arith, seen.1 newer))
  handle_rpc_term (append_entries a) now r w =
      let seen = observe_term_lem a.term r in
      let kept = handle_append_entries-KeepsVote a now (observe_term a.term r) w in
      (kept.term ∙ seen.0, λ newer. kept.state ∙ seen.1 newer)
  handle_rpc_term (other_rpc t) now r w = let seen = observe_term_lem t r in (seen.0, seen.1)

  -- A vote is granted exactly when the request's term is not older than the node's, the node has voted for no other candidate, and the candidate's log is at least as recent, by the last term and then by the length; a refused request changes nothing, and a granted one records the candidate.
  handle_request_vote_iff :
      (q : VoteRequest) (now : ℕ) (r : MicroRaft C W)
      → let (v, r') = handle_request_vote q now r in
        ((v.vote_granted ≡ true) ↔ (
          (r.current_term ≤ q.term)
          × ((r.voted_for ≡ none) ⊎ (r.voted_for ≡ some q.candidate_id))
          × UpToDate q r.log))
        × (v.vote_granted ≡ false → r' ≡ r)
        × (v.vote_granted ≡ true → r'.voted_for ≡ some q.candidate_id)
  unfolding handle_request_vote
  handle_request_vote_iff q now r = elim (Bool-cases (ltb q.term r.current_term)) [
    | inl old ↦ rw old (
      (λ h. cc, λ h. absurd (omega (arith, ltb→lt q.term r.current_term old, h.0))),
      λ h. refl,
      λ h. cc,
    )
    | inr current ↦ rw current (elim (Bool-cases (voted_for_other r.voted_for q.candidate_id)) [
      | inl other ↦ rw other (
        (λ h. cc, λ h. cc (other, (voted_for_other_iff r.voted_for q.candidate_id).1 h.1)),
        λ h. refl,
        λ h. cc,
      )
      | inr free ↦ rw free (elim (Bool-cases (is_behind q r.log)) [
        | inl behind ↦
            rw behind
              ((λ h. cc, λ h. cc (behind, (is_behind_iff q r.log).1 h.2)), λ h. refl, λ h. cc)
        | inr recent ↦ rw recent (
          (
            λ h. (
              ground arith,
              (voted_for_other_iff r.voted_for q.candidate_id).0 free,
              (is_behind_iff q r.log).0 recent,
            ),
            λ h. refl,
          ),
          (λ h. cc),
          λ h. refl,
        )
      ])
    ])
  ]

  -- A node that has voted: every message keeps its vote.
  handle_rpc_vote :
      (id : String) (rpc : Rpc C) (now : ℕ) (r : MicroRaft C W) (w : W)
      → r.voted_for ≡ some id
      → (handle_rpc rpc now r w).1.voted_for ≡ some id
  unfolding handle_rpc
  handle_rpc_vote id (request_vote q) now r w h =
      let seen = observe_term_lem q.term r in
      let facts = handle_request_vote_iff q now (observe_term q.term r) in
      let held : (observe_term q.term r).voted_for ≡ some id = seen.2 ∙ h in
      elim (Bool-cases (handle_request_vote q now (observe_term q.term r)).0.vote_granted) [
        | inr denied ↦ rw (facts.1 denied) held
        | inl given ↦ facts.2 given ∙ ap some (same q.candidate_id ((facts.0.0 given).1) held)
      ]
    where
      same :
          (c : String)
          → ((observe_term q.term r).voted_for ≡ none)
            ⊎ ((observe_term q.term r).voted_for ≡ some c)
          → (observe_term q.term r).voted_for ≡ some id
          → c ≡ id
      same c (inl n) v = absurd (cc (n, v))
      same c (inr s) v = cc
  handle_rpc_vote id (append_entries a) now r w h =
      let kept = handle_append_entries-KeepsVote a now (observe_term a.term r) w in
      kept.vote ∙ (observe_term_lem a.term r).2 ∙ h
  handle_rpc_vote id (other_rpc t) now r w h = (observe_term_lem t r).2 ∙ h

  -- The node after a sequence of messages, each with the time at which it is handled.
  unfoldable pub handle_rpcs : List (Rpc C × ℕ) → MicroRaft C W → W → MicroRaft C W × W
  handle_rpcs [] r w = (r, w)
  handle_rpcs ((rpc, now) ∷ rpcs) r w =
      let (o, r', w') = handle_rpc rpc now r w in handle_rpcs rpcs r' w'

  handle_rpcs_vote :
      (id : String) (rpcs : List (Rpc C × ℕ)) (r : MicroRaft C W) (w : W)
      → r.voted_for ≡ some id
      → (handle_rpcs rpcs r w).0.voted_for ≡ some id
  unfolding handle_rpcs
  handle_rpcs_vote id [] r w h = h
  handle_rpcs_vote id ((rpc, now) ∷ rpcs) r w h =
      handle_rpcs_vote id rpcs _ _ (handle_rpc_vote id rpc now r w h)

  -- Once a node has voted, then after any sequence of messages it grants a vote to no other candidate, in no term: a newer term does not free the vote.
  vote_is_kept :
      (id : String) (rpcs : List (Rpc C × ℕ)) (q : VoteRequest) (now : ℕ) (r : MicroRaft C W)
      (w : W)
      → r.voted_for ≡ some id
      → q.candidate_id ≢ id
      → let (r', w') = handle_rpcs rpcs r w in
        (handle_rpc (request_vote q) now r' w').0
        ≡ returned (vote_reply (record { term = max r'.current_term q.term; vote_granted = false }))
  unfolding handle_rpc
  vote_is_kept id rpcs q now r w h ne =
      let r' = (handle_rpcs rpcs r w).0 in
      let seen = observe_term_lem q.term r' in
      let held : (observe_term q.term r').voted_for ≡ some id =
        seen.2 ∙ handle_rpcs_vote id rpcs r w h in
      let other : voted_for_other (observe_term q.term r').voted_for q.candidate_id ≡ true =
        rw held (unfold voted_for_other in rw (str_eq-false id q.candidate_id (λ e. ne (sym e)))) in
      elim (Bool-cases (ltb q.term (observe_term q.term r').current_term)) [
        | inl old ↦ unfold handle_request_vote in rw old (rw seen.0)
        | inr current ↦ unfold handle_request_vote in rw current (rw other (rw seen.0))
      ]
