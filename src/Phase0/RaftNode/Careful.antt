-- ===== src/Phase0/RaftNode/Careful.antt =====
-- One reaction of a `RaftNode`: it keeps its vote of the term, and what it publishes is that vote.
use census_konantgit_sys_p2p.Prelude.{
  ◌∷◌, [], List, ◌++◌, ℕ, ◌≤◌, String, All, ◌≡◌, some, true, false, arith, Bool, Option, Bool-cases,
  sym, str_eq, inl, eq_iff, ◌∙◌, inr, leb, some-injective, none, ◌&&◌, ap, refl, All-append, not,
  ◌||◌, ltb, ◌-◌, ◌+◌,
}
use census_konantgit_sys_p2p.Phase0.RaftNode.{
  RaftNode, Payload, handle_request_vote, adopt_term, request_vote, is_free_for, send,
  vote_response, append_entries, other_payload, handle_append_entries, handle_vote_response,
  become_leader, vote_requests, start_election, handle, on_raft_msg, needed, election_round, stop,
  Event, received, timeout, is_leader, heartbeat_due, heartbeat, candidacy, stopped,
}

-- The term and the candidate of each vote that the messages stand for.
abbrev pub votes : {E : Type 0} → List (Payload E) → List (ℕ × String)
votes [] = []
votes (request_vote term id _ _ ∷ ps) = (term, id) ∷ votes ps
votes (vote_response term true id ∷ ps) = (term, id) ∷ votes ps
votes (vote_response term false id ∷ ps) = votes ps
votes (append_entries _ _ _ _ ∷ ps) = votes ps
votes (other_payload ∷ ps) = votes ps

-- The state records the vote.
pub record Recorded {E : Type 0} (r : RaftNode E) (v : ℕ × String) : Type 0 where
  pub term : v.0 ≡ r.current_term
  pub vote : r.voted_for ≡ some v.1

free_vote :
    (id id' : String) (v : Option String) → is_free_for id v ≡ true → v ≡ some id' → id ≡ id'
unfolding is_free_for
free_vote id id' none free e = absurd (cc)
free_vote id id' (some v) free e = sym ((eq_iff v id).0 free) ∙ some-injective v id' e

module _ {E : Type 0} where
  -- One reaction keeps the term and the vote of it, and casts at most the recorded vote.
  pub record Careful (r : RaftNode E) (x : RaftNode E × List (Payload E)) : Type 0 where
    pub term : r.current_term ≤ x.0.current_term
    pub vote :
        (id : String)
        → x.0.current_term ≡ r.current_term
        → r.voted_for ≡ some id
        → x.0.voted_for ≡ some id
    pub cast : All (Recorded x.0) (votes x.1)

  send_cast :
      (r : RaftNode E) (p : Payload E) (P : ℕ × String → Type 0)
      → All P (votes (p ∷ []))
      → All P (votes (send r p))
  unfolding send
  send_cast r p P h = elim (Bool-cases r.has_transport) [ inl e ↦ rw e h | inr e ↦ rw e tt ]

  adopt_term-Careful : (term : ℕ) (r : RaftNode E) → Careful r (adopt_term term r, [])
  unfolding adopt_term
  adopt_term-Careful term r = record { term = ground arith; vote = ground arith; cast = tt }

  handle_request_vote-Careful :
      (term : ℕ) (id : String) (r : RaftNode E) → Careful r (handle_request_vote term id r)
  unfolding handle_request_vote send
  handle_request_vote-Careful term id r =
      let r' = adopt_term term r in
      let adopted = adopt_term-Careful term r in
      elim (Bool-cases (str_eq id r.node_id)) [
        | inl e ↦ rw e (record { term = omega arith; vote = λ id' e h. h; cast = tt })
        | inr e ↦ elim (Bool-cases (leb r'.current_term term && is_free_for id r'.voted_for)) [
          | inr refused ↦
              rw (e, refused)
                (record { term = adopted.term; vote = adopted.vote; cast = send_cast r' _ _ tt })
          | inl free ↦
              rw (e, free)
                (record {
                  term = adopted.term;
                  vote = λ id' e h.
                      ap some (free_vote id id' r'.voted_for (ground arith) (adopted.vote id' e h));
                  cast = send_cast r' _ _ (record { term = refl; vote = refl }, tt);
                })
        ]
      ]

  handle_vote_response-Careful :
      (term : ℕ) (granted : Bool) (r : RaftNode E)
      → Careful r (handle_vote_response term granted r, [])
  unfolding handle_vote_response become_leader
  handle_vote_response-Careful term granted r = record {
    term = ground arith;
    vote = ground arith;
    cast = tt;
  }

  handle_append_entries-Careful :
      (term : ℕ) (id : String) (entries : List E) (leader_commit now : ℕ) (r : RaftNode E)
      → Careful r (handle_append_entries term id entries leader_commit now r, [])
  unfolding handle_append_entries
  handle_append_entries-Careful term id entries leader_commit now r = record {
    term = ground arith;
    vote = ground arith;
    cast = tt;
  }

  pub votes-append : (ps qs : List (Payload E)) → votes (ps ++ qs) ≡ votes ps ++ votes qs
  votes-append [] qs = refl
  votes-append (request_vote t id _ _ ∷ ps) qs = ap (◌∷◌ (t, id)) (votes-append ps qs)
  votes-append (vote_response t true id ∷ ps) qs = ap (◌∷◌ (t, id)) (votes-append ps qs)
  votes-append (vote_response _ false _ ∷ ps) qs = votes-append ps qs
  votes-append (append_entries _ _ _ _ ∷ ps) qs = votes-append ps qs
  votes-append (other_payload ∷ ps) qs = votes-append ps qs

  vote_requests_cast :
      (r : RaftNode E) (peers : List String) (P : ℕ × String → Type 0)
      → P (r.current_term, r.node_id)
      → All P (votes (vote_requests r peers))
  unfolding vote_requests
  vote_requests_cast r [] P h = tt
  vote_requests_cast r (p ∷ ps) P h =
      let rest = vote_requests_cast r ps P h in
      elim (Bool-cases (str_eq p r.node_id)) [
        | inl e ↦ rw e rest
        | inr e ↦
            rw (e, votes-append (send r _) (vote_requests r ps))
              (All-append P _ _ (send_cast r _ P (h, tt)) rest)
      ]

  start_election-Careful : (r : RaftNode E) → Careful r (start_election r)
  unfolding start_election candidacy become_leader
  start_election-Careful r = elim (Bool-cases (leb (needed r.peers) 1)) [
    | inl e ↦ rw e (record { term = omega arith; vote = λ id h _. absurd (omega arith); cast = tt })
    | inr e ↦ rw e (record {
      term = omega arith;
      vote = λ id h _. absurd (omega arith);
      cast = vote_requests_cast (candidacy r) r.peers _ (record { term = refl; vote = refl });
    })
  ]

  idle-Careful : (r : RaftNode E) → Careful r (r, [])
  idle-Careful r = record { term = omega arith; vote = λ id e h. h; cast = tt }

  pub handle-Careful : (e : Event E) (r : RaftNode E) → Careful r (handle e r)
  unfolding handle on_raft_msg election_round stop heartbeat
  handle-Careful (received (request_vote term id _ _) now) r = handle_request_vote-Careful term id r
  handle-Careful (received (vote_response term granted _) now) r =
      handle_vote_response-Careful term granted r
  handle-Careful (received (append_entries term id entries commit) now) r =
      handle_append_entries-Careful term id entries commit now r
  handle-Careful (received other_payload now) r = idle-Careful r
  handle-Careful (timeout now jitter) r = elim (Bool-cases (not r.running || is_leader r.state)) [
    | inl e ↦ rw e (idle-Careful r)
    | inr e ↦ elim (Bool-cases (ltb (now - r.last_heartbeat) (300 + jitter))) [
      | inl early ↦ rw (e, early) (idle-Careful r)
      | inr due ↦ rw (e, due) (start_election-Careful r)
    ]
  ]
  handle-Careful heartbeat_due r = elim (Bool-cases (r.running && is_leader r.state)) [
    | inl e ↦ rw e (record { term = omega arith; vote = λ id e h. h; cast = send_cast r _ _ tt })
    | inr e ↦ rw e (idle-Careful r)
  ]
  handle-Careful stopped r = record { term = omega arith; vote = λ id e h. h; cast = tt }
