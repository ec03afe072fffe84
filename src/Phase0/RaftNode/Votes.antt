-- ===== src/Phase0/RaftNode/Votes.antt =====
-- The votes that a `RaftNode` publishes in a run: its own, in a request, and those that it grants.
use census_konantgit_sys_p2p.Prelude.{
  zero, suc, ◌∷◌, [], List, ◌++◌, ℕ, ◌≤◌, String, get_elem?, All, ◌≡◌, some, arith, sym, ◌∙◌,
  some-injective, ap, All_get, All-append, All-imp,
}
use census_konantgit_sys_p2p.Phase0.RaftNode.{RaftNode, handle, Event, run}
use census_konantgit_sys_p2p.Phase0.RaftNode.Careful.{handle-Careful, votes, Recorded, votes-append}

-- The vote may still be cast after the state `r`.
record Allowed {E : Type 0} (r : RaftNode E) (v : ℕ × String) : Type 0 where
  later : r.current_term ≤ v.0
  kept : (id : String) → v.0 ≡ r.current_term → r.voted_for ≡ some id → v.1 ≡ id

OnePerTerm : List (ℕ × String) → Type 0
OnePerTerm [] = Unit
OnePerTerm (v ∷ vs) = All (λ w. v.0 ≡ w.0 → v.1 ≡ w.1) vs × OnePerTerm vs

OnePerTerm-get :
    (vs : List (ℕ × String)) (i j : ℕ) (v w : ℕ × String)
    → OnePerTerm vs
    → get_elem? vs i ≡ some v
    → get_elem? vs j ≡ some w
    → v.0 ≡ w.0
    → v.1 ≡ w.1
unfolding OnePerTerm
OnePerTerm-get [] i j v w h a b e = absurd (cc)
OnePerTerm-get (x ∷ vs) zero zero v w h a b e = ap (λ p. p.1) (some-injective v w (sym a ∙ b))
OnePerTerm-get (x ∷ vs) zero (suc j) v w h a b e =
    let later = All_get _ vs j w h.0 b in let x_is_v = some-injective x v a in grind arith
OnePerTerm-get (x ∷ vs) (suc i) zero v w h a b e =
    let later = All_get _ vs i v h.0 a in let x_is_w = some-injective x w b in grind arith
OnePerTerm-get (x ∷ vs) (suc i) (suc j) v w h a b e = OnePerTerm-get vs i j v w h.1 a b e

module _ {E : Type 0} where
  handle-Allowed :
      (e : Event E) (r : RaftNode E) (v : ℕ × String) → Allowed (handle e r).0 v → Allowed r v
  handle-Allowed e r v allowed =
      let careful = handle-Careful e r in
      record {
        later = ground (arith, careful.term, allowed.later);
        kept = λ id at h.
            let same : (handle e r).0.current_term ≡ r.current_term =
              ground (arith, careful.term, allowed.later) in
            allowed.kept id (ground (arith, same)) (careful.vote id same h);
      }

  Recorded-Allowed :
      (e : Event E) (r : RaftNode E) (v : ℕ × String) → Recorded (handle e r).0 v → Allowed r v
  Recorded-Allowed e r v recorded =
      let careful = handle-Careful e r in
      record {
        later = ground (arith, careful.term, recorded.term);
        kept = λ id at h.
            let same : (handle e r).0.current_term ≡ r.current_term =
              ground (arith, recorded.term) in
            some-injective v.1 id (sym recorded.vote ∙ careful.vote id same h);
      }

  run-Allowed : (es : List (Event E)) (r : RaftNode E) → All (Allowed r) (votes (run es r).1)
  unfolding run
  run-Allowed [] r = tt
  run-Allowed (e ∷ es) r =
      let now = All-imp (Recorded-Allowed e r) _ (handle-Careful e r).cast in
      let later = All-imp (handle-Allowed e r) _ (run-Allowed es (handle e r).0) in
      rw (votes-append (handle e r).1 (run es (handle e r).0).1)
        (All-append (Allowed r) _ _ now later)

  Recorded-first :
      (r : RaftNode E) (vs ws : List (ℕ × String))
      → All (Recorded r) vs
      → All (Allowed r) ws
      → OnePerTerm ws
      → OnePerTerm (vs ++ ws)
  unfolding OnePerTerm
  Recorded-first r [] ws hv hw one = one
  Recorded-first r (v ∷ vs) ws hv hw one =
      let same_vote : (w : ℕ × String) → Recorded r w → v.0 ≡ w.0 → v.1 ≡ w.1 =
        λ w rw' e. some-injective v.1 w.1 (sym hv.0.vote ∙ rw'.vote) in
      let later_vote : (w : ℕ × String) → Allowed r w → v.0 ≡ w.0 → v.1 ≡ w.1 =
        λ w aw e. sym (aw.kept v.1 (sym e ∙ hv.0.term) hv.0.vote) in
      (
        All-append _ vs ws (All-imp same_vote vs hv.1) (All-imp later_vote ws hw),
        Recorded-first r vs ws hv.1 hw one,
      )

  run-OnePerTerm : (es : List (Event E)) (r : RaftNode E) → OnePerTerm (votes (run es r).1)
  unfolding run OnePerTerm
  run-OnePerTerm [] r = tt
  run-OnePerTerm (e ∷ es) r =
      let r' = (handle e r).0 in
      rw (votes-append (handle e r).1 (run es r').1)
        (Recorded-first r' _ _ (handle-Careful e r).cast (run-Allowed es r') (run-OnePerTerm es r'))

  -- In a run of a node through any events, from any state, two votes that it published for the same term name the same candidate, whether they are its own (in a request for votes) or votes it granted.
  pub run_one_vote_per_term :
      (es : List (Event E)) (r : RaftNode E) (i j : ℕ) (v w : ℕ × String)
      → get_elem? (votes (run es r).1) i ≡ some v
      → get_elem? (votes (run es r).1) j ≡ some w
      → v.0 ≡ w.0
      → v.1 ≡ w.1
  run_one_vote_per_term es r i j v w =
      OnePerTerm-get (votes (run es r).1) i j v w (run-OnePerTerm es r)
