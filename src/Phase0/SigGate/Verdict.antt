-- ===== src/Phase0/SigGate/Verdict.antt =====
-- Which messages the gate lets through, and how it counts them.
use census_konantgit_sys_p2p.Prelude.{
  ◌∷◌, [], List, Bool, String, ℕ, ◌≡◌, some, true, ◌↔◌, length, false, ◌<◌, Bool-cases, arith,
  Option, leb, inl, inr, Option-cases, some-injective, none, ap, ◌+◌, refl, subst, sym,
}
use census_konantgit_sys_p2p.Phase0.SigGate.{
  Message, SigGate, pass_rate, check_rate, is_allowed, recent, check, check_from, objection,
  check_sender, Counts, check_all, by_sig, by_list,
}
use census_konantgit_sys_p2p.Dict.{member, get_or}

abbrev pub total : Counts → ℕ
total c = c.passed + c.rejected_rate + c.rejected_sig + c.rejected_deny

module _ {B : Type 0} (verify : Message B → Bool) where
  -- What the gate asks of a message with its sender's name.
  pub record Passes (sender : String) (m : Message B) (now : ℕ) (g : SigGate) : Type 0 where
    pub has_signature : m.has_signature ≡ true
    pub has_pubkey : m.has_pubkey ≡ true
    pub allowed : is_allowed sender g.allowlist ≡ true
    pub not_denied : member sender g.denylist ≡ false
    pub verified : verify m ≡ true
    pub below : length (recent g.window now (get_or sender [] g.counters)) < g.rate_limit

  pass_rate-some :
      (sender : String) (m : Message B) (now : ℕ) (g : SigGate)
      → length (recent g.window now (get_or sender [] g.counters)) < g.rate_limit
      → (pass_rate verify m (check_rate sender now g)).0 ≡ some m
  unfolding pass_rate check_rate
  pass_rate-some sender m now g below = ground arith

  pass_rate_below :
      (sender : String) (m n : Message B) (now : ℕ) (g : SigGate)
      → (pass_rate verify m (check_rate sender now g)).0 ≡ some n
      → (length (recent g.window now (get_or sender [] g.counters)) < g.rate_limit) × (m ≡ n)
  unfolding pass_rate check_rate
  pass_rate_below sender m n now g =
      let fresh = recent g.window now (get_or sender [] g.counters) in
      elim (Bool-cases (leb g.rate_limit (length fresh))) [
        | inl full ↦ rw full (λ e. absurd (cc))
        | inr below ↦ rw below (λ e. (ground arith, some-injective m n e))
      ]

  objection-none :
      (sender : String) (m : Message B) (g : SigGate)
      → objection verify sender m g ≡ none
      → (m.has_signature ≡ true)
        × (m.has_pubkey ≡ true)
        × (is_allowed sender g.allowlist ≡ true)
        × (member sender g.denylist ≡ false)
        × (verify m ≡ true)
  unfolding objection
  objection-none sender m g e =
      (ground arith, ground arith, ground arith, ground arith, ground arith)

  no_objection :
      (sender : String) (m : Message B) (now : ℕ) (g : SigGate)
      → Passes sender m now g
      → objection verify sender m g ≡ none
  unfolding objection
  no_objection sender m now g p =
      ground (arith, p.has_signature, p.has_pubkey, p.allowed, p.not_denied, p.verified)

  check_from-Passes :
      (sender : String) (m n : Message B) (now : ℕ) (g : SigGate)
      → (check_from verify sender m now g).0 ≡ some n
      → Passes sender m now g × (m ≡ n)
  unfolding check_from
  check_from-Passes sender m n now g = elim (Option-cases (objection verify sender m g)) [
    | inr (o, objected) ↦ rw (objected, check_from) (λ e. absurd (cc))
    | inl none_found ↦
        rw (none_found, check_from)
          (λ e.
            let (signed, keyed, allowed, not_denied, verified) =
              objection-none sender m g none_found in
            let (below, same) = pass_rate_below sender m n now g e in
            (
              record {
                has_signature = signed;
                has_pubkey = keyed;
                allowed = allowed;
                not_denied = not_denied;
                verified = verified;
                below = below;
              },
              same,
            ))
  ]

  check_from-some :
      (sender : String) (m : Message B) (now : ℕ) (g : SigGate)
      → Passes sender m now g
      → (check_from verify sender m now g).0 ≡ some m
  unfolding check_from
  check_from-some sender m now g p =
      rw (no_objection sender m now g p, check_from) (pass_rate-some sender m now g p.below)

  check_sender-some :
      (from : Option String) (sender : String) (m : Message B) (now : ℕ) (g : SigGate)
      → from ≡ some sender
      → Passes sender m now g
      → (check_sender verify from m now g).0 ≡ some m
  unfolding check_sender
  check_sender-some from sender m now g named p = rw (named) (check_from-some sender m now g p)

  check_sender-Passes :
      (from : Option String) (m n : Message B) (now : ℕ) (g : SigGate)
      → (check_sender verify from m now g).0 ≡ some n
      → ((sender : String) × (from ≡ some sender) × Passes sender m now g) × (m ≡ n)
  unfolding check_sender
  check_sender-Passes none m n now g e = absurd (cc)
  check_sender-Passes (some sender) m n now g e =
      let (passes, same) = check_from-Passes sender m n now g e in ((sender, refl, passes), same)

  -- The gate lets a message through if and only if the bytes were a message with a sender, a signature and a key, the sender is on the list of the allowed ones, where there is such a list, and not on the list of the denied ones, the signature is right, and fewer messages of the sender than the limit have passed within the window.
  check_iff :
      (raw : Option (Message B)) (m : Message B) (now : ℕ) (g : SigGate)
      → ((check verify raw now g).0 ≡ some m)
        ↔ ((raw ≡ some m) × ((sender : String) × (m.sender ≡ some sender) × Passes sender m now g))
  unfolding check
  check_iff none m now g = (λ e. absurd (cc), λ h. absurd (let e = h.0 in cc))
  check_iff (some n) m now g = (to, from)
    where
      to :
          (check verify (some n) now g).0 ≡ some m
          → (some n ≡ some m)
            × ((sender : String) × (m.sender ≡ some sender) × Passes sender m now g)
      to e =
          let (passes, same) = check_sender-Passes n.sender n m now g e in
          (
            ap some same,
            subst (λ x. (sender : String) × (x.sender ≡ some sender) × Passes sender x now g) same
                passes,
          )

      from :
          (some n ≡ some m) × ((sender : String) × (m.sender ≡ some sender) × Passes sender m now g)
          → (check verify (some n) now g).0 ≡ some m
      from (e, (sender, named, passes)) =
          subst (λ x. (check verify (some x) now g).0 ≡ some m) (sym (some-injective n m e))
            (check_sender-some m.sender sender m now g named passes)

  -- One verdict more: the message that passes, if one does, and one check more in all.
  record Counted (g : SigGate) (x : Option (Message B) × SigGate) : Type 0 where
    all : total x.1.counts ≡ total g.counts + 1
    passed : x.1.counts.passed ≡ elim x.0 [ none ↦ g.counts.passed | some _ ↦ g.counts.passed + 1 ]

  pass_rate-Counted :
      (sender : String) (m : Message B) (now : ℕ) (g : SigGate)
      → Counted g (pass_rate verify m (check_rate sender now g))
  unfolding pass_rate check_rate
  pass_rate-Counted sender m now g = record { all = ground arith; passed = ground arith }

  check_from-Counted :
      (sender : String) (m : Message B) (now : ℕ) (g : SigGate)
      → Counted g (check_from verify sender m now g)
  unfolding check_from
  check_from-Counted sender m now g = elim (Option-cases (objection verify sender m g)) [
    | inr (by_sig, e) ↦ rw (e, check_from) (record { all = omega arith; passed = refl })
    | inr (by_list, e) ↦ rw (e, check_from) (record { all = omega arith; passed = refl })
    | inl e ↦ rw (e, check_from) (pass_rate-Counted sender m now g)
  ]

  check_sender-Counted :
      (from : Option String) (m : Message B) (now : ℕ) (g : SigGate)
      → Counted g (check_sender verify from m now g)
  unfolding check_sender
  check_sender-Counted none m now g = record { all = omega arith; passed = refl }
  check_sender-Counted (some sender) m now g = check_from-Counted sender m now g

  check-Counted :
      (raw : Option (Message B)) (now : ℕ) (g : SigGate) → Counted g (check verify raw now g)
  unfolding check
  check-Counted none now g = record { all = omega arith; passed = refl }
  check-Counted (some m) now g = check_sender-Counted m.sender m now g

  -- The four counters count every check once, and `passed` counts the messages that were let through.
  check_all_counted :
      (raws : List (ℕ × Option (Message B))) (g : SigGate)
      → let (passed, g') = check_all verify raws g in
        (total g'.counts ≡ total g.counts + length raws)
        × (g'.counts.passed ≡ g.counts.passed + length passed)
  unfolding check_all
  check_all_counted [] g = (omega arith, omega arith)
  check_all_counted ((now, raw) ∷ rest) g =
      let counted = check-Counted raw now g in
      let (all, passed) = check_all_counted rest (check verify raw now g).1 in
      (omega (arith, all, counted.all), ground (arith, passed, counted.passed))
