-- ===== src/Coordination/Raft/Commit.antt =====
-- `_update_commit_index`: the leader commits up to the last entry of its own term that a majority has
-- confirmed, and applies what it commits.
use census_konantgit_sys_p2p.Prelude.{
  ◌∷◌, [], List, ℕ, drop, take, ◌≤◌, ◌+◌, suc, Bool, ◌≡◌, if◌then◌else◌, max, arith, get_elem?,
  ◌++◌, none, zero, ◌⊎◌, inl, ap, refl, false, true, inr, some, ◌<◌, Bool-cases, ◌==◌, dec_lt, ◌&&◌,
  leb, length, ◌-◌, sym, get_elem?-some, ◌∙◌,
}
use census_konantgit_sys_p2p.Coordination.Raft.Applying.{run_entries, apply_committed_lem}
use census_konantgit_sys_p2p.Coordination.ConsumerGroup.{Callback, run_callbacks}
use census_konantgit_sys_p2p.Coordination.Raft.{MicroRaft, LogEntry, majority, apply_committed}
use census_konantgit_sys_p2p.Coordination.Raft.Leader.{
  count_matching, commit_rounds, update_commit_index,
}
use census_konantgit_sys_p2p.Outcome.{returned}

module _ {C : Type 0} where
  pub drop-drop : (a b : ℕ) (l : List C) → drop a (drop b l) ≡ drop (b + a) l
  drop-drop a zero l = let e : 0 + a ≡ a = omega arith in rw e
  drop-drop a (suc b) [] = let e : suc b + a ≡ suc (b + a) = omega arith in rw e (drop-nil a)
    where
      drop-nil : (n : ℕ) → drop n (let l : List C = [] in l) ≡ []
      drop-nil zero = refl
      drop-nil (suc n) = refl
  drop-drop a (suc b) (x ∷ l) =
      let e : suc b + a ≡ suc (b + a) = omega arith in rw e (drop-drop a b l)

  take-add : (a b : ℕ) (l : List C) → take (a + b) l ≡ take a l ++ take b (drop a l)
  take-add zero b l = let e : 0 + b ≡ b = omega arith in rw e
  take-add (suc a) b [] = let e : suc a + b ≡ suc (a + b) = omega arith in rw e (take-nil b)
    where
      take-nil : (n : ℕ) → let l : List C = [] in [] ≡ take n l
      take-nil zero = refl
      take-nil (suc n) = refl
  take-add (suc a) b (x ∷ l) =
      let e : suc a + b ≡ suc (a + b) = omega arith in rw e (ap (◌∷◌ x) (take-add a b l))

module _ {C W : Type 0} where
  run_entries-append :
      (cbs : List (Callback C W)) (a b : List (LogEntry C)) (w : W)
      → run_entries cbs (a ++ b) w ≡ run_entries cbs b (run_entries cbs a w)
  unfolding run_entries
  run_entries-append cbs [] b w = refl
  run_entries-append cbs (e ∷ a) b w = run_entries-append cbs a b (run_callbacks cbs e.command w)

  -- The entry at position `i` is of the leader's term and a majority has it.
  abbrev pub committable : ℕ → MicroRaft C W → Bool
  committable i r = elim (get_elem? r.log i) [
    | none ↦ false
    | some e ↦
        e.term == r.current_term
        && leb (majority r.peers) (1 + count_matching (i + 1) r.peers r.match_index)
  ]

  -- The commit index after `k` positions from `i` on, by a scan that applies nothing.
  unfoldable pub scan_commit : ℕ → ℕ → ℕ → MicroRaft C W → ℕ
  scan_commit zero i c r = c
  scan_commit (suc k) i c r = scan_commit k (i + 1) (if committable i r then i + 1 else c) r

  committable-lt : (j : ℕ) (r : MicroRaft C W) → committable j r ≡ true → j < length r.log
  committable-lt j r h = elim (dec_lt j (length r.log)) [
    | yes lt ↦ lt
    | no ge ↦ absurd (cc (rw (beyond j r.log (omega arith), committable) at h))
  ]
    where
      beyond : (n : ℕ) (l : List (LogEntry C)) → length l ≤ n → get_elem? l n ≡ none
      beyond n [] le = refl
      beyond zero (x ∷ l) le = absurd (omega arith)
      beyond (suc n) (x ∷ l) le = beyond n l (omega arith)

  -- The scan reads only what committing leaves alone.
  scan_commit-settled :
      (k i c d : ℕ) (r : MicroRaft C W)
      → scan_commit k i c (record r { commit_index = d; last_applied = d }) ≡ scan_commit k i c r
  unfolding scan_commit
  scan_commit-settled zero i c d r = refl
  scan_commit-settled (suc k) i c d r =
      scan_commit-settled k (i + 1) (if committable i r then i + 1 else c) d r

  -- The scan ends between where it starts and its end, and at or above every position that is fit.
  record IsBest (k i c b : ℕ) (r : MicroRaft C W) : Type 0 where
    above : c ≤ b
    below : b ≤ max c (i + k)
    fit : (b ≡ c) ⊎ ((j : ℕ) × (b ≡ j + 1) × (committable j r ≡ true))
    most : (j : ℕ) → i ≤ j → j < i + k → committable j r ≡ true → j + 1 ≤ b

  scan_commit-IsBest :
      (k i c : ℕ) (r : MicroRaft C W) → c ≤ i → IsBest k i c (scan_commit k i c r) r
  unfolding scan_commit
  scan_commit-IsBest zero i c r h = record {
    above = omega arith;
    below = omega arith;
    fit = inl refl;
    most = λ j lo hi. absurd (omega arith);
  }
  scan_commit-IsBest (suc k) i c r h = elim (Bool-cases (committable i r)) [
    | inl here ↦
        let best = scan_commit-IsBest k (i + 1) (i + 1) r (omega arith) in
        rw here (record {
          above = omega (arith, best.above);
          below = omega (arith, best.below);
          fit = inr (fit_here here best.fit);
          most = λ j lo hi f. elim (dec_lt i j) [
            | yes later ↦ best.most j (omega arith) (omega arith) f
            | no now ↦ omega (arith, best.above)
          ];
        })
    | inr not_here ↦
        let best = scan_commit-IsBest k (i + 1) c r (omega arith) in
        rw not_here (record {
          above = best.above;
          below = omega (arith, best.below);
          fit = best.fit;
          most = λ j lo hi f. elim (dec_lt i j) [
            | yes later ↦ best.most j (omega arith) (omega arith) f
            | no now ↦ let same : j ≡ i = omega arith in absurd (cc (not_here, rw same at f))
          ];
        })
  ]
    where
      fit_here :
          {b : ℕ}
          → committable i r ≡ true
          → (b ≡ i + 1) ⊎ ((j : ℕ) × (b ≡ j + 1) × (committable j r ≡ true))
          → (j : ℕ) × (b ≡ j + 1) × (committable j r ≡ true)
      fit_here f (inl e) = (i, e, f)
      fit_here f (inr x) = x

  -- Two adjoining pieces of the log, run one after the other.
  run_entries-join :
      (cbs : List (Callback C W)) (c m b : ℕ) (log : List (LogEntry C)) (w : W)
      → c ≤ m
      → m ≤ b
      → run_entries cbs (take (b - m) (drop m log)) (run_entries cbs (take (m - c) (drop c log)) w)
        ≡ run_entries cbs (take (b - c) (drop c log)) w
  run_entries-join cbs c m b log w lo hi =
      let split : b - c ≡ (m - c) + (b - m) = omega arith in
      let reach : c + (m - c) ≡ m = omega arith in
      rw split (
        rw (take-add (m - c) (b - m) (drop c log)) (
          rw (drop-drop (m - c) c log)
            (rw reach (sym (run_entries-append cbs (take (m - c) (drop c log)) _ w)))))

  commit_step :
      (i : ℕ) (r : MicroRaft C W) (w : W)
      → r.last_applied ≡ r.commit_index
      → r.commit_index ≤ i
      → i < length r.log
      → apply_committed (record r { commit_index = i + 1 }) w ≡ (
        returned tt,
        record r { commit_index = i + 1; last_applied = i + 1 },
        run_entries r.commit_callbacks
            (take (i + 1 - r.commit_index) (drop r.commit_index r.log))
            w,
      )
  commit_step i r w s lo hi =
      let top : max r.last_applied (i + 1) ≡ i + 1 = omega arith in
      apply_committed_lem (record r { commit_index = i + 1 }) w (omega arith) ∙ rw top (rw s)

  commit_rounds_lem :
      (k i : ℕ) (r : MicroRaft C W) (w : W)
      → r.last_applied ≡ r.commit_index
      → r.commit_index ≤ i
      → i + k ≡ length r.log
      → let b = scan_commit k i r.commit_index r in
        commit_rounds k i r w ≡ (
          returned tt,
          record r { commit_index = b; last_applied = b },
          run_entries r.commit_callbacks (take (b - r.commit_index) (drop r.commit_index r.log)) w,
        )
  unfolding commit_rounds scan_commit
  commit_rounds_lem zero i r w s lo len =
      let none_left : r.commit_index - r.commit_index ≡ 0 = omega arith in
      rw none_left (unfold run_entries in rw (← s))
  commit_rounds_lem (suc k) i r w s lo len =
      let (e, found) = get_elem?-some r.log i (omega arith) in
      elim (Bool-cases (
        e.term == r.current_term
        && leb (majority r.peers) (1 + count_matching (i + 1) r.peers r.match_index))) [
          | inr unfit ↦
              let skip : committable i r ≡ false = rw (found, committable) unfit in
              rw (found, commit_rounds)
                (rw (unfit, commit_rounds)
                  (rw skip (commit_rounds_lem k (i + 1) r w s (omega arith) (omega arith))))
          | inl fit ↦
              let taken : committable i r ≡ true = rw (found, committable) fit in
              let step = commit_step i r w s lo (omega arith) in
              let c = r.commit_index in
              let w1 = run_entries r.commit_callbacks (take (i + 1 - c) (drop c r.log)) w in
              let ih =
                commit_rounds_lem k (i + 1)
                  (record r { commit_index = i + 1; last_applied = i + 1 }) w1 refl (omega arith)
                  (omega arith) in
              let b = scan_commit k (i + 1) (i + 1) r in
              let best = scan_commit-IsBest k (i + 1) (i + 1) r (omega arith) in
              let joined =
                run_entries-join r.commit_callbacks c (i + 1) b r.log w (omega arith) best.above in
              rw (found, commit_rounds)
                (rw (fit, commit_rounds)
                  (rw (step, commit_rounds)
                    (rw step (
                      rw taken
                        (ih ∙ rw (scan_commit-settled k (i + 1) (i + 1) (i + 1) r) (rw joined))))))
        ]

  -- On a leader whose applied index is its commit index, within the log: `_update_commit_index` raises nothing; the commit index does not fall and stays within the log; if it moves, the entry there is of the leader's term and confirmed by a majority, the leader included; every such entry is committed; and exactly the newly committed commands are applied, in order.
  pub update_commit_index_lem :
      (r : MicroRaft C W) (w : W)
      → r.last_applied ≡ r.commit_index
      → r.commit_index ≤ length r.log
      → let (o, r', w') = update_commit_index r w in
        (o ≡ returned tt)
        × (r.commit_index ≤ r'.commit_index)
        × (r'.commit_index ≤ length r.log)
        × (r'.last_applied ≡ r'.commit_index)
        × ((r'.commit_index ≡ r.commit_index)
            ⊎ ((j : ℕ) × (r'.commit_index ≡ j + 1) × (committable j r ≡ true)))
        × ((j : ℕ) → r.commit_index ≤ j → committable j r ≡ true → j + 1 ≤ r'.commit_index)
        × (r'.log ≡ r.log)
        × (w'
            ≡ run_entries r.commit_callbacks
                (take (r'.commit_index - r.commit_index) (drop r.commit_index r.log))
                w)
  unfolding update_commit_index
  update_commit_index_lem r w s lo =
      let k = length r.log - r.commit_index in
      let whole = commit_rounds_lem k r.commit_index r w s (omega arith) (omega arith) in
      let best = scan_commit-IsBest k r.commit_index r.commit_index r (omega arith) in
      rw whole (
        refl,
        best.above,
        omega (arith, best.below),
        refl,
        best.fit,
        (λ j from f. best.most j from (omega (arith, committable-lt j r f)) f),
        refl,
        refl,
      )
