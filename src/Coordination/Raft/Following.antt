-- ===== src/Coordination/Raft/Following.antt =====
-- What a peer of a `MicroRaft` leader makes of the message that `propose` sends to it.
use census_konantgit_sys_p2p.Prelude.{
  ◌∷◌, [], List, zero, suc, ℕ, String, some, ◌++◌, ◌≡◌, ◌≤◌, ◌+◌, ◌-◌, take, drop, length, leb, ltb,
  true, false, max, arith, ap, refl, sym, subst, ◌∙◌, get_elem?, get_elem?-some, map,
  take-append-drop, length-take, Bool, ◌||◌, length-append, append_assoc, append-nil,
}
use census_konantgit_sys_p2p.Dict.{get_or}
use census_konantgit_sys_p2p.Outcome.{returned}
use census_konantgit_sys_p2p.Coordination.Raft.{LogEntry, MicroRaft}
use census_konantgit_sys_p2p.Coordination.Raft.Rpc.{
  AppendEntries, append_entries, append_reply, append_entry, append_all, prev_matches, observe_term,
  after_entries, advance_commit, answer, handle_append_entries, handle_rpc,
}
use census_konantgit_sys_p2p.Coordination.Raft.Leader.{
  append_entries_for, broadcast_append_entries, entries_from, propose, is_leader, is_nil,
}
use census_konantgit_sys_p2p.Coordination.Raft.Logs.{IsIndexed}
use census_konantgit_sys_p2p.Coordination.Raft.Votes.{observe_term_lem}
use census_konantgit_sys_p2p.Coordination.Raft.Replication.{advance_commit_lem, advanced}

module _ {C : Type 0} where
  -- Entries that continue the log are appended.
  append_all-new :
      (es log : List (LogEntry C))
      → IsIndexed (length log + 1) es
      → append_all es log ≡ (returned tt, log ++ es)
  unfolding append_all append_entry
  append_all-new [] log h = ap (λ l. (returned tt, l)) (sym (append-nil log))
  append_all-new (e ∷ es) log (here, h) =
      let beyond : leb e.index (length log) ≡ false = ground (arith, here) in
      let longer : IsIndexed (length (log ++ e ∷ []) + 1) es =
        subst (λ k. IsIndexed k es) (omega (arith, length-append log (e ∷ []))) h in
      rw (beyond, append_all)
        (append_all-new es (log ++ e ∷ []) longer
          ∙ ap (λ l. (returned tt, l)) (append_assoc log (e ∷ []) es))

  IsIndexed-drop :
      (n k : ℕ) (es : List (LogEntry C)) → IsIndexed k es → IsIndexed (k + n) (drop n es)
  IsIndexed-drop zero k es h = subst (λ i. IsIndexed i es) (omega arith) h
  IsIndexed-drop (suc n) k [] h = tt
  IsIndexed-drop (suc n) k (e ∷ es) (here, h) =
      subst (λ i. IsIndexed i (drop n es)) (omega arith) (IsIndexed-drop n (k + 1) es h)

  IsIndexed-append :
      (k : ℕ) (es : List (LogEntry C)) (e : LogEntry C)
      → IsIndexed k es
      → e.index ≡ k + length es
      → IsIndexed k (es ++ e ∷ [])
  IsIndexed-append k [] e h at = (omega (arith, at), tt)
  IsIndexed-append k (x ∷ es) e (here, h) at =
      (here, IsIndexed-append (k + 1) es e h (omega (arith, at)))

  take-append : (n : ℕ) (xs ys : List (LogEntry C)) → n ≤ length xs → take n (xs ++ ys) ≡ take n xs
  take-append zero xs ys h = refl
  take-append (suc n) [] ys h = absurd (omega (arith, h))
  take-append (suc n) (x ∷ xs) ys h = ap (λ l. x ∷ l) (take-append n xs ys (omega (arith, h)))

  get-take_last : (n : ℕ) (xs : List (LogEntry C)) → get_elem? (take (suc n) xs) n ≡ get_elem? xs n
  get-take_last n [] = refl
  get-take_last zero (x ∷ xs) = refl
  get-take_last (suc n) (x ∷ xs) = get-take_last n xs

get-map :
    {B : Type 0} (f : String → B) (ps : List String) (i : ℕ) (p : String)
    → get_elem? ps i ≡ some p
    → get_elem? (map f ps) i ≡ some (f p)
get-map f [] i p h = cc
get-map f (q ∷ ps) zero p h = let same : q ≡ p = cc in ap (λ x. some (f x)) same
get-map f (q ∷ ps) (suc i) p h = get-map f ps i p h

some_peers : (ps : List String) (i : ℕ) (p : String) → get_elem? ps i ≡ some p → is_nil ps ≡ false
some_peers [] i p h = cc
some_peers (q ∷ ps) i p h = refl

or_true : (b : Bool) → (b || true) ≡ true
or_true true = refl
or_true false = refl

module _ {C W : Type 0} where
  append_entries_for-matches :
      (peer : String) (n : ℕ) (r : MicroRaft C W)
      → get_or peer 1 r.next_index ≡ suc n
      → n ≤ length r.log
      → let m = append_entries_for true peer r in
        (m.entries ≡ drop n r.log)
        × (prev_matches m.prev_log_index m.prev_log_term (take n r.log) ≡ true)
  unfolding append_entries_for entries_from prev_matches
  append_entries_for-matches peer zero r next low =
      rw next (rw (or_true (leb 1 (length r.log))) (refl, refl))
  append_entries_for-matches peer (suc n) r next low =
      let (x, found) = get_elem?-some r.log n (omega (arith, low)) in
      let behind : leb (suc n) (length r.log) ≡ true = ground (arith, low) in
      let there : get_elem? (take (suc n) r.log) n ≡ some x = get-take_last n r.log ∙ found in
      let less : suc (suc n) - 1 ≡ suc n = omega arith in
      let least : suc n - 1 ≡ n = omega arith in
      let positive : ltb 0 (suc n) ≡ true = ground arith in
      rw next (
        rw (or_true (leb (suc (suc n)) (length r.log))) (
          rw less
            (rw (positive, behind, least, found) (refl, rw (there, prev_matches) (ground arith)))))

  append_entries_for-followed :
      (peer : String) (n later : ℕ) (r f : MicroRaft C W) (v : W)
      → get_or peer 1 r.next_index ≡ suc n
      → n ≤ length r.log
      → IsIndexed 1 r.log
      → f.log ≡ take n r.log
      → let (o, f', v') = handle_rpc (append_entries (append_entries_for true peer r)) later f v in
        (o
          ≡ returned
              (append_reply (record { term = max f.current_term r.current_term; success = true })))
        × (f'.log ≡ r.log)
  unfolding handle_rpc handle_append_entries append_entries_for
  append_entries_for-followed peer n later r f v next low indexed same =
      let m = append_entries_for true peer r in
      let (entries, matches) = append_entries_for-matches peer n r next low in
      let f1 = observe_term m.term f in
      let seen = observe_term_lem m.term f in
      let log1 : f1.log ≡ take n r.log = seen.3 ∙ same in
      let size : length (take n r.log) ≡ n = omega (arith, length-take n r.log, low) in
      let joined : append_all m.entries f1.log ≡ (returned tt, r.log) =
        ap (λ es. append_all es f1.log) entries
        ∙ ap (append_all (drop n r.log)) log1
        ∙ append_all-new (drop n r.log) (take n r.log) (
            subst (λ k. IsIndexed k (drop n r.log)) (omega (arith, size))
              (IsIndexed-drop n 1 r.log indexed))
        ∙ ap (λ l. (returned tt, l)) (take-append-drop n r.log) in
      let fits : prev_matches m.prev_log_index m.prev_log_term f1.log ≡ true =
        ap (prev_matches m.prev_log_index m.prev_log_term) log1 ∙ matches in
      let f2 = record f1 { last_heartbeat = later; log = r.log } in
      let whole : handle_append_entries m later f1 v ≡ advance_commit m.leader_commit f2 v =
        rw fits (rw joined (unfold after_entries in refl)) in
      let done = whole ∙ advance_commit_lem m.leader_commit f2 v in
      let same_log : (advanced m.leader_commit f2).log ≡ r.log = ground arith in
      (
        ap (λ x. answer x.0) done
            ∙ ap (λ t. returned (append_reply (record { term = t; success = true }))) seen.0,
        ap (λ x. x.1.log) done ∙ same_log,
      )

  -- A leader proposes a command, and the peer at a place in its list, whose next index at the leader is `n + 1`, has the first `n` entries of the leader's log, whose indices are consecutive: then the message that `propose` sends at that place makes the peer's log the leader's new one, which is the old one with the command at its end, and the peer answers success; this holds for any term of the peer.
  pub propose-followed :
      (command : C) (now later i n : ℕ) (peer : String) (r f : MicroRaft C W) (w v : W)
      → is_leader r ≡ true
      → get_elem? r.peers i ≡ some peer
      → get_or peer 1 r.next_index ≡ suc n
      → n ≤ length r.log
      → IsIndexed 1 r.log
      → f.log ≡ take n r.log
      → let p = propose command now r w in
        (m : AppendEntries C) × (get_elem? p.sent i ≡ some (peer, m))
        × (p.result ≡ returned (some (length r.log + 1)))
        × (p.node.log
            ≡ r.log
              ++ record {
                term = r.current_term;
                index = length r.log + 1;
                command = command;
                timestamp = now;
              }
                ∷ [])
        × ((handle_rpc (append_entries m) later f v).0
            ≡ returned (
                append_reply (record { term = max f.current_term r.current_term; success = true })))
        × ((handle_rpc (append_entries m) later f v).1.log ≡ p.node.log)
  unfolding propose broadcast_append_entries
  propose-followed command now later i n peer r f w v leads at next low indexed same =
      let entry : LogEntry C = record {
        term = r.current_term;
        index = length r.log + 1;
        command = command;
        timestamp = now;
      } in
      let r' = record r { log = r.log ++ entry ∷ [] } in
      let (answered, copied) =
        append_entries_for-followed peer n later r' f v next
          (omega (arith, low, length-append r.log (entry ∷ [])))
          (IsIndexed-append 1 r.log entry indexed (omega arith))
          (same ∙ sym (take-append n r.log (entry ∷ []) low)) in
      rw leads (
        rw (some_peers r.peers i peer at) (
          append_entries_for true peer r',
          get-map (λ q. (q, append_entries_for true q r')) r.peers i peer at,
          refl,
          refl,
          answered,
          copied,
        ))
