-- ===== src/Phase0/SigGate/Rate.antt =====
-- The rate limit over many messages: what the gate keeps of a sender are the times within the window at
-- which it let a message of the sender through.
use census_konantgit_sys_p2p.Prelude.{
  ◌∷◌, [], List, ◌++◌, String, ℕ, ◌≤◌, length, if◌then◌else◌, Option, ◌≡◌, none, arith, Bool, some,
  refl, sym, false, append-nil, str_eq, Bool-cases, leb, inl, inr, length-append, ◌∙◌, ap, subst,
  eq_iff, Option-cases, true, append_assoc,
}
use census_konantgit_sys_p2p.Phase0.SigGate.{
  by_sig, by_list, Message, SigGate, recent, pass_rate, check_rate, check_sender, check_all,
  check_from, check, count_sig, objection, count_deny, passed_now,
}
use census_konantgit_sys_p2p.Dict.{get_or, Dict, insert, get_or-insert}

recent-append :
    (window now : ℕ) (ts us : List ℕ)
    → recent window now (ts ++ us) ≡ recent window now ts ++ recent window now us
unfolding recent
recent-append window now [] us = refl
recent-append window now (t ∷ ts) us = ground (arith, recent-append window now ts us)

-- What a filter has removed would be removed later too.
recent-recent :
    (window now later : ℕ) (ts : List ℕ)
    → now ≤ later
    → recent window later (recent window now ts) ≡ recent window later ts
unfolding recent
recent-recent window now later [] h = refl
recent-recent window now later (t ∷ ts) h = ground (arith, recent-recent window now later ts h)

length-recent : (window now : ℕ) (ts : List ℕ) → length (recent window now ts) ≤ length ts
unfolding recent
length-recent window now [] = omega arith
length-recent window now (t ∷ ts) = ground (arith, length-recent window now ts)

-- The times that the gate keeps of the sender `s`.
abbrev kept : String → SigGate → List ℕ
kept s g = get_or s [] g.counters

insert-short :
    (sender s : String) (ts : List ℕ) (d : Dict (List ℕ)) (n : ℕ)
    → length (get_or s [] d) ≤ n
    → length ts ≤ n
    → length (get_or s [] (insert sender ts d)) ≤ n
insert-short sender s ts d n old new = rw (get_or-insert sender s ts [] d) (ground arith)

insert-recent :
    (window later : ℕ) (sender s : String) (ts us : List ℕ) (d : Dict (List ℕ))
    → recent window later ts ≡ recent window later (get_or sender [] d) ++ recent window later us
    → recent window later (get_or s [] (insert sender ts d))
      ≡ recent window later (get_or s [] d)
        ++ recent window later (if str_eq sender s then us else [])
unfolding recent
insert-recent window later sender s ts us d h =
    rw (get_or-insert sender s ts [] d) (elim (Bool-cases (str_eq sender s)) [
      | inl same ↦ rw same (
          subst
            (λ x.
              recent window later ts
              ≡ recent window later (get_or x [] d) ++ recent window later us)
            ((eq_iff sender s).0 same) h)
      | inr differ ↦ rw differ (sym (append-nil _))
    ])

if_same : (b : Bool) → ◌≡◌ {A = List ℕ} (if b then [] else []) []
if_same true = refl
if_same false = refl

abbrev pub is_from : String → Option String → Bool
is_from s none = false
is_from s (some sender) = str_eq sender s

module _ {B : Type 0} where
  -- The times at which messages of the sender `s` passed.
  abbrev pub times_of : String → List (ℕ × Message B) → List ℕ
  times_of s [] = []
  times_of s ((t, m) ∷ ms) = if is_from s m.sender then t ∷ times_of s ms else times_of s ms

  abbrev pub AllBefore : ℕ → List (ℕ × Option (Message B)) → Type 0
  AllBefore later [] = Unit
  AllBefore later ((now, raw) ∷ rest) = (now ≤ later) × AllBefore later rest

  record Step (now : ℕ) (g : SigGate) (x : Option (Message B) × SigGate) : Type 0 where
    window : x.1.window ≡ g.window
    limit : x.1.rate_limit ≡ g.rate_limit
    short :
        ((s : String) → length (kept s g) ≤ g.rate_limit)
        → (s : String) → length (kept s x.1) ≤ g.rate_limit
    times :
        (s : String) (later : ℕ)
        → now ≤ later
        → recent g.window later (kept s x.1)
          ≡ recent g.window later (kept s g)
            ++ recent g.window later (times_of s (passed_now now x.0))

  same-Step :
      (now : ℕ) (g g' : SigGate)
      → g'.window ≡ g.window
      → g'.rate_limit ≡ g.rate_limit
      → g'.counters ≡ g.counters
      → Step now g (none, g')
  unfolding recent
  same-Step now g g' w l c = record {
    window = w;
    limit = l;
    short = λ h s. rw c (h s);
    times = λ s later h. rw c (sym (append-nil _));
  }

  times_of_one :
      (s sender : String) (now : ℕ) (m : Message B)
      → m.sender ≡ some sender
      → times_of s ((now, m) ∷ []) ≡ (if str_eq sender s then now ∷ [] else [])
  times_of_one s sender now m named = rw named refl

  pass_rate-Step :
      (verify : Message B → Bool) (sender : String) (m : Message B) (now : ℕ) (g : SigGate)
      → m.sender ≡ some sender
      → Step now g (pass_rate verify m (check_rate sender now g))
  unfolding pass_rate check_rate recent
  pass_rate-Step verify sender m now g named =
      let fresh = recent g.window now (kept sender g) in
      let short = length-recent g.window now (kept sender g) in
      elim (Bool-cases (leb g.rate_limit (length fresh))) [
        | inl full ↦ rw full (record {
          window = refl;
          limit = refl;
          short = λ h s.
              insert-short sender s fresh g.counters g.rate_limit (h s) (ground (arith, h sender));
          times = λ s later h.
              insert-recent g.window later sender s fresh [] g.counters
                (recent-recent g.window now later (kept sender g) h ∙ sym (append-nil _))
              ∙ ap (λ l. recent g.window later (kept s g) ++ recent g.window later l)
                  (if_same (str_eq sender s));
        })
        | inr below ↦ rw below (record {
          window = refl;
          limit = refl;
          short = λ h s.
              insert-short sender s (fresh ++ now ∷ []) g.counters g.rate_limit (h s)
                (rw (length-append fresh (now ∷ [])) (ground arith));
          times = λ s later h. rw (times_of_one s sender now m named) (
              insert-recent g.window later sender s (fresh ++ now ∷ []) (now ∷ []) g.counters (
                recent-append g.window later fresh (now ∷ [])
                ∙ ap (λ l. l ++ recent g.window later (now ∷ []))
                    (recent-recent g.window now later (kept sender g) h)));
        })
      ]

  module _ (verify : Message B → Bool) where
    check_from-Step :
        (sender : String) (m : Message B) (now : ℕ) (g : SigGate)
        → m.sender ≡ some sender
        → Step now g (check_from verify sender m now g)
    unfolding check_from
    check_from-Step sender m now g named = elim (Option-cases (objection verify sender m g)) [
      | inr (by_sig, e) ↦ rw (e, check_from) (same-Step now g (count_sig g) refl refl refl)
      | inr (by_list, e) ↦ rw (e, check_from) (same-Step now g (count_deny g) refl refl refl)
      | inl e ↦ rw (e, check_from) (pass_rate-Step verify sender m now g named)
    ]

    check_sender-Step :
        (from : Option String) (m : Message B) (now : ℕ) (g : SigGate)
        → m.sender ≡ from
        → Step now g (check_sender verify from m now g)
    unfolding check_sender
    check_sender-Step none m now g named = same-Step now g (count_sig g) refl refl refl
    check_sender-Step (some sender) m now g named = check_from-Step sender m now g named

    check-Step :
        (raw : Option (Message B)) (now : ℕ) (g : SigGate) → Step now g (check verify raw now g)
    unfolding check
    check-Step none now g = same-Step now g (count_sig g) refl refl refl
    check-Step (some m) now g = check_sender-Step m.sender m now g refl

    check_all-short :
        (raws : List (ℕ × Option (Message B))) (g : SigGate)
        → ((s : String) → length (kept s g) ≤ g.rate_limit)
        → (s : String) → length (kept s (check_all verify raws g).1) ≤ g.rate_limit
    unfolding check_all
    check_all-short [] g h s = h s
    check_all-short ((now, raw) ∷ rest) g h s =
        let step = check-Step raw now g in
        let g' = (check verify raw now g).1 in
        let rest_short =
          check_all-short rest g'
            (λ x. subst (λ n. length (kept x g') ≤ n) (sym step.limit) (step.short h x)) s in
        subst (λ n. length (kept s (check_all verify rest g').1) ≤ n) step.limit rest_short

    times_of-append :
        (s : String) (ms ns : List (ℕ × Message B))
        → times_of s (ms ++ ns) ≡ times_of s ms ++ times_of s ns
    times_of-append s [] ns = refl
    times_of-append s ((t, m) ∷ ms) ns = ground (arith, times_of-append s ms ns)

    -- What the gate keeps of a sender, as far as it is within the window, is what passed.
    check_all-times :
        (raws : List (ℕ × Option (Message B))) (g : SigGate) (s : String) (later : ℕ)
        → AllBefore later raws
        → let (passed, g') = check_all verify raws g in
          recent g.window later (kept s g')
          ≡ recent g.window later (kept s g) ++ recent g.window later (times_of s passed)
    unfolding check_all recent
    check_all-times [] g s later before = sym (append-nil _)
    check_all-times ((now, raw) ∷ rest) g s later before =
        let step = check-Step raw now g in
        let (verdict, g') = check verify raw now g in
        let passed = (check_all verify rest g').0 in
        let ih = check_all-times rest g' s later before.1 in
        let later_times =
          subst
            (λ w.
              recent w later (kept s (check_all verify rest g').1)
              ≡ recent w later (kept s g') ++ recent w later (times_of s passed))
            step.window ih in
        rw (times_of-append s (passed_now now verdict) passed, recent-append g.window later)
          (later_times
            ∙ ap (λ l. l ++ recent g.window later (times_of s passed)) (step.times s later before.0)
            ∙ append_assoc (recent g.window later (kept s g))
                (recent g.window later (times_of s (passed_now now verdict)))
                (recent g.window later (times_of s passed)))

    -- However many messages come, and however they are distributed, no more messages of one sender pass within the window before any time than the limit: for a gate that starts without any times kept, and a time that no check is later than.
    pub check_all_rate :
        (raws : List (ℕ × Option (Message B))) (g : SigGate) (s : String) (later : ℕ)
        → g.counters ≡ []
        → AllBefore later raws
        → length (recent g.window later (times_of s (check_all verify raws g).0)) ≤ g.rate_limit
    unfolding get_or recent
    check_all_rate raws g s later none_kept before =
        let g' = (check_all verify raws g).1 in
        let empty : (x : String) → kept x g ≡ [] = λ x. rw (none_kept, get_or) refl in
        let short = check_all-short raws g (λ x. rw (empty x) (ground arith)) s in
        let same : recent g.window later (kept s g')
            ≡ recent g.window later (times_of s (check_all verify raws g).0) =
          check_all-times raws g s later before ∙ rw (empty s, recent) refl in
        let fewer = length-recent g.window later (kept s g') in
        rw (sym same) (omega (arith, fewer, short))
