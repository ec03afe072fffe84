-- ===== src/Phase0/SigGate.antt =====
-- `class SigGate` of phase0/sig_gate.py. What `json.loads` makes of the bytes is the argument: nothing,
-- or a message, of which the gate reads the sender and whether the fields are there. The signature's
-- verdict, the answer of the cryptographic library, is the parameter `verify`.
pub mod Rate
pub mod Verdict
use census_konantgit_sys_p2p.Prelude.{
  ◌∷◌, [], List, ◌++◌, none, ℕ, Bool, String, Option, ◌+◌, some, false, true, if◌then◌else◌, leb,
  not, ltb, ◌&&◌, length,
}
use census_konantgit_sys_p2p.Dict.{member, get_or, Dict, insert}

pub record Message (B : Type 0) : Type 0 where
  pub sender : Option String
  pub has_signature : Bool
  pub has_pubkey : Bool
  pub body : B

pub record Counts : Type 0 where
  pub passed : ℕ
  pub rejected_rate : ℕ
  pub rejected_sig : ℕ
  pub rejected_deny : ℕ

pub record SigGate : Type 0 where
  pub rate_limit : ℕ
  pub window : ℕ
  pub counters : Dict (List ℕ)
  pub allowlist : Option (List String)
  pub denylist : List String
  pub counts : Counts

unfoldable pub new_gate : ℕ → ℕ → SigGate
new_gate rate_limit window = record {
  rate_limit = rate_limit;
  window = window;
  counters = [];
  allowlist = none;
  denylist = [];
  counts = record { passed = 0; rejected_rate = 0; rejected_sig = 0; rejected_deny = 0 };
}

unfoldable pub set_allowlist : List String → SigGate → SigGate
set_allowlist dids g = record g { allowlist = some dids }

unfoldable pub deny : String → SigGate → SigGate
deny did g = record g { denylist = did ∷ g.denylist }

-- `[t for t in timestamps if now - t < self.window]`; the difference may be negative in the code.
unfoldable pub recent : ℕ → ℕ → List ℕ → List ℕ
recent window now [] = []
recent window now (t ∷ ts) =
    let rest = recent window now ts in if ltb now (t + window) then t ∷ rest else rest

-- `_check_rate`
unfoldable pub check_rate : String → ℕ → SigGate → Bool × SigGate
unfolding recent
check_rate sender now g =
    let fresh = recent g.window now (get_or sender [] g.counters) in
    if leb g.rate_limit (length fresh)
    then (false, record g { counters = insert sender fresh g.counters })
    else (true, record g { counters = insert sender (fresh ++ now ∷ []) g.counters })

-- `self._allowlist is not None and msg["from"] not in self._allowlist`
unfoldable pub is_allowed : String → Option (List String) → Bool
unfolding member
is_allowed sender none = true
is_allowed sender (some dids) = member sender dids

-- The counters of `_stats`, each advanced by one.
abbrev pub count_passed : SigGate → SigGate
count_passed g = record g { counts = record g.counts { passed = g.counts.passed + 1 } }

abbrev pub count_rate : SigGate → SigGate
count_rate g = record g { counts = record g.counts { rejected_rate = g.counts.rejected_rate + 1 } }

abbrev pub count_sig : SigGate → SigGate
count_sig g = record g { counts = record g.counts { rejected_sig = g.counts.rejected_sig + 1 } }

abbrev pub count_deny : SigGate → SigGate
count_deny g = record g { counts = record g.counts { rejected_deny = g.counts.rejected_deny + 1 } }

-- Which counter a refusal advances.
pub data Objection : Type 0 where
  by_sig by_list : Objection

abbrev pub refuse : Objection → SigGate → SigGate
refuse by_sig g = count_sig g
refuse by_list g = count_deny g

abbrev pub passed_now : {B : Type 0} → ℕ → Option (Message B) → List (ℕ × Message B)
passed_now now none = []
passed_now now (some m) = (now, m) ∷ []

module _ {B : Type 0} (verify : Message B → Bool) where
  -- `check` from the rate on.
  unfoldable pub pass_rate : Message B → Bool × SigGate → Option (Message B) × SigGate
  pass_rate m (true, g) = (some m, count_passed g)
  pass_rate m (false, g) = (none, count_rate g)

  -- The guards of `check` between the fields and the rate, in their order.
  unfoldable pub objection : String → Message B → SigGate → Option Objection
  unfolding is_allowed member
  objection sender m g =
      if not (m.has_signature && m.has_pubkey)
      then some by_sig
      else if not (is_allowed sender g.allowlist)
      then some by_list
      else if member sender g.denylist
      then some by_list
      else if not (verify m)
      then some by_sig
      else none

  -- `check` for a message that names its sender.
  unfoldable pub check_from : String → Message B → ℕ → SigGate → Option (Message B) × SigGate
  unfolding check_rate objection pass_rate
  check_from sender m now g = elim (objection sender m g) [
    | some o ↦ (none, refuse o g)
    | none ↦ pass_rate m (check_rate sender now g)
  ]

  -- `check` by the field `from`.
  unfoldable pub check_sender :
      Option String → Message B → ℕ → SigGate → Option (Message B) × SigGate
  unfolding check_from
  check_sender none m now g = (none, count_sig g)
  check_sender (some sender) m now g = check_from sender m now g

  unfoldable pub check : Option (Message B) → ℕ → SigGate → Option (Message B) × SigGate
  unfolding check_sender
  check none now g = (none, count_sig g)
  check (some m) now g = check_sender m.sender m now g

  -- Several messages, each with the time at which it is checked; the result pairs the messages that
  -- passed with their times.
  unfoldable pub check_all :
      List (ℕ × Option (Message B)) → SigGate → List (ℕ × Message B) × SigGate
  unfolding check
  check_all [] g = ([], g)
  check_all ((now, raw) ∷ rest) g =
      let (verdict, g') = check raw now g in
      let (passed, g'') = check_all rest g' in (passed_now now verdict ++ passed, g'')

pub record Stats : Type 0 where
  pub counts : Counts
  pub allowlist : Bool

unfoldable pub stats : SigGate → Stats
stats g = record {
  counts = g.counts;
  allowlist = elim g.allowlist [ none ↦ false | some _ ↦ true ];
}
