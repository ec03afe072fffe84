-- ===== src/Coordination/Raft/Logs.antt =====
-- Log replication: what `_handle_append_entries` does to the follower's log.
use census_konantgit_sys_p2p.Prelude.{
  List, ℕ, ◌∷◌, ◌≤◌, ◌≡◌, take, ◌+◌, length, get_elem?, suc, Bool-cases, arith, some, ap, ◌++◌, [],
  sym, leb, length-append, zero, refl, length-take, ◌∙◌, inr, inl, get_elem?-some, leb→le, ◌==◌,
  true,
}
use census_konantgit_sys_p2p.Coordination.Raft.Rpc.{append_entry, append_all, prev_matches}
use census_konantgit_sys_p2p.Coordination.Raft.{LogEntry, entry_at, log_before}
use census_konantgit_sys_p2p.Outcome.{returned}

module _ {C : Type 0} where
  -- The entries carry consecutive indices from `k` on.
  abbrev pub IsIndexed : ℕ → List (LogEntry C) → Type 0
  IsIndexed k [] = Unit
  IsIndexed k (e ∷ es) = (e.index ≡ k) × IsIndexed (k + 1) es

  -- From position `p` on the log has entries of the same terms as the given ones.
  abbrev pub Agrees : ℕ → List (LogEntry C) → List (LogEntry C) → Type 0
  Agrees p [] log = Unit
  Agrees p (e ∷ es) log =
      ((x : LogEntry C) × (get_elem? log p ≡ some x) × (x.term ≡ e.term)) × Agrees (p + 1) es log

  take-snoc_take :
      (i : ℕ) (e : LogEntry C) (log : List (LogEntry C))
      → i ≤ length log
      → take i (take i log ++ e ∷ []) ≡ take i log
  take-snoc_take zero e log h = refl
  take-snoc_take (suc i) e [] h = absurd (omega arith)
  take-snoc_take (suc i) e (f ∷ log) h = ap (◌∷◌ f) (take-snoc_take i e log (omega arith))

  get-snoc_take :
      (i : ℕ) (e : LogEntry C) (log : List (LogEntry C))
      → i ≤ length log
      → get_elem? (take i log ++ e ∷ []) i ≡ some e
  get-snoc_take zero e log h = refl
  get-snoc_take (suc i) e [] h = absurd (omega arith)
  get-snoc_take (suc i) e (f ∷ log) h = get-snoc_take i e log (omega arith)

  snoc_take-IsIndexed :
      (k i : ℕ) (e : LogEntry C) (log : List (LogEntry C))
      → i ≤ length log
      → e.index ≡ k + i
      → IsIndexed k log
      → IsIndexed k (take i log ++ e ∷ [])
  snoc_take-IsIndexed k zero e log h x d = (omega arith, tt)
  snoc_take-IsIndexed k (suc i) e [] h x d = absurd (omega arith)
  snoc_take-IsIndexed k (suc i) e (f ∷ log) h x d =
      (d.0, snoc_take-IsIndexed (k + 1) i e log (omega arith) (omega arith) d.1)

  take-length : (log : List (LogEntry C)) → take (length log) log ≡ log
  take-length [] = refl
  take-length (e ∷ log) = ap (◌∷◌ e) (take-length log)

  -- A prefix of a common prefix.
  take-take :
      (p : ℕ) (a b : List (LogEntry C)) → take (p + 1) a ≡ take (p + 1) b → take p a ≡ take p b
  take-take p a b h = take_le p (p + 1) a b (omega arith) h
    where
      take_min : (n m : ℕ) (l : List (LogEntry C)) → n ≤ m → take n (take m l) ≡ take n l
      take_min zero m l le = refl
      take_min (suc n) zero l le = absurd (omega arith)
      take_min (suc n) (suc m) [] le = refl
      take_min (suc n) (suc m) (x ∷ l) le = ap (◌∷◌ x) (take_min n m l (omega arith))

      take_le :
          (n m : ℕ) (c d : List (LogEntry C)) → n ≤ m → take m c ≡ take m d → take n c ≡ take n d
      take_le n m c d le e = sym (take_min n m c le) ∙ ap (take n) e ∙ take_min n m d le

  get-take :
      (p : ℕ) (a b : List (LogEntry C))
      → take (suc p) a ≡ take (suc p) b
      → get_elem? a p ≡ get_elem? b p
  get-take p [] [] h = refl
  get-take p [] (y ∷ b) h = cc
  get-take p (x ∷ a) [] h = cc
  get-take zero (x ∷ a) (y ∷ b) h = ground (arith, h)
  get-take (suc p) (x ∷ a) (y ∷ b) h = get-take p a b (ground arith)

  -- What one entry of index `i + 1` does to a log of at least `i` entries.
  record IsPlaced (e : LogEntry C) (i : ℕ) (log log' : List (LogEntry C)) : Type 0 where
    appended : append_entry e log ≡ returned log'
    prefix : take i log' ≡ take i log
    here : (x : LogEntry C) × (get_elem? log' i ≡ some x) × (x.term ≡ e.term)
    room : suc i ≤ length log'
    indexed : IsIndexed 1 log → IsIndexed 1 log'

  length-snoc_take :
      (i : ℕ) (e : LogEntry C) (log : List (LogEntry C))
      → i ≤ length log
      → length (take i log ++ e ∷ []) ≡ suc i
  length-snoc_take i e log h = omega (arith, length-append (take i log) (e ∷ []), length-take i log)

  snoc_take-IsPlaced :
      (e : LogEntry C) (i : ℕ) (log : List (LogEntry C))
      → e.index ≡ suc i
      → i ≤ length log
      → append_entry e log ≡ returned (take i log ++ e ∷ [])
      → IsPlaced e i log (take i log ++ e ∷ [])
  snoc_take-IsPlaced e i log x h a = record {
    appended = a;
    prefix = take-snoc_take i e log h;
    here = (e, get-snoc_take i e log h, refl);
    room = omega (arith, length-snoc_take i e log h);
    indexed = snoc_take-IsIndexed 1 i e log h (omega arith);
  }

  pub entry_at-suc :
      (n i : ℕ) (log : List (LogEntry C)) → n ≡ suc i → entry_at log n ≡ get_elem? log i
  unfolding entry_at
  entry_at-suc n i log h = rw h

  pub log_before-suc :
      (n i : ℕ) (log : List (LogEntry C)) → n ≡ suc i → log_before log n ≡ take i log
  unfolding log_before
  log_before-suc n i log h = rw h

  append_entry-IsPlaced :
      (e : LogEntry C) (i : ℕ) (log : List (LogEntry C))
      → e.index ≡ suc i
      → i ≤ length log
      → (log' : List (LogEntry C)) × IsPlaced e i log log'
  unfolding append_entry
  append_entry-IsPlaced e i log x h = elim (Bool-cases (leb (suc i) (length log))) [
    | inr end ↦
        let all : i ≡ length log = ground arith in
        let whole : take i log ≡ log = rw all (take-length log) in
        (take i log ++ e ∷ [], snoc_take-IsPlaced e i log x h (rw x (rw end (rw whole))))
    | inl inside ↦
        let (old, found) = get_elem?-some log i (leb→le (suc i) (length log) inside) in
        let within : leb e.index (length log) ≡ true = ground (arith, x, inside) in
        let read = entry_at-suc e.index i log x ∙ found in
        elim (Bool-cases (old.term == e.term)) [
          | inl same ↦ (
            log,
            record {
              appended = rw within (rw read (rw same));
              prefix = refl;
              here = (old, found, ground arith);
              room = leb→le (suc i) (length log) inside;
              indexed = λ d. d;
            },
          )
          | inr differs ↦ (
            take i log ++ e ∷ [],
            snoc_take-IsPlaced e i log x h
                (rw within (rw read (rw differs (rw (log_before-suc e.index i log x))))),
          )
        ]
  ]

  -- What a run of consecutive entries from index `p + 1` on does to a log of at least `p` entries.
  pub record Replicates (es : List (LogEntry C)) (p : ℕ) (log log' : List (LogEntry C))
      : Type 0 where
    pub result : append_all es log ≡ (returned tt, log')
    pub prefix : take p log' ≡ take p log
    pub agrees : Agrees p es log'
    pub indexed : IsIndexed 1 log → IsIndexed 1 log'

  pub append_all-Replicates :
      (es : List (LogEntry C)) (p : ℕ) (log : List (LogEntry C))
      → IsIndexed (p + 1) es
      → p ≤ length log
      → (log' : List (LogEntry C)) × Replicates es p log log'
  unfolding append_all
  append_all-Replicates [] p log d h =
      (log, record { result = refl; prefix = refl; agrees = tt; indexed = λ i. i })
  append_all-Replicates (e ∷ es) p log d h =
      let (log1, one) = append_entry-IsPlaced e p log (omega (arith, d.0)) h in
      let (log', rest) = append_all-Replicates es (p + 1) log1 d.1 (omega (arith, one.room)) in
      let kept : get_elem? log' p ≡ get_elem? log1 p =
        let one_more : p + 1 ≡ suc p = omega arith in
        get-take p log' log1 (rw one_more at rest.prefix) in
      (
        log',
        record {
          result = rw (one.appended, append_all) rest.result;
          prefix = take-take p log' log1 rest.prefix ∙ one.prefix;
          agrees = ((one.here.0, kept ∙ one.here.1, one.here.2), rest.agrees);
          indexed = λ i. rest.indexed (one.indexed i);
        },
      )

  pub prev_matches-le :
      (p term : ℕ) (log : List (LogEntry C)) → prev_matches p term log ≡ true → p ≤ length log
  unfolding prev_matches
  prev_matches-le zero term log h = omega arith
  prev_matches-le (suc i) term [] h = cc
  prev_matches-le (suc zero) term (x ∷ log) h = omega arith
  prev_matches-le (suc (suc i)) term (x ∷ log) h =
      omega (arith, prev_matches-le (suc i) term log (unfold prev_matches in h))
