-- ===== src/Phase0/Directory/Search.antt =====
-- Searching the buckets of phase0/dht.py for a capability, and getting a stored value.
use census_konantgit_sys_p2p.Prelude.{
  ◌∷◌, [], List, zero, suc, ℕ, String, Option, none, some, ◌++◌, ◌<◌, length, ◌≡◌, if◌then◌else◌,
  Bool, ◌&&◌, true, false, Bool-cases, arith, inr, ◌||◌, refl, str_eq, ◌∙◌, inl, some-injective,
  sym,
}
use census_konantgit_sys_p2p.Phase0.Directory.{
  DhtStore, Placed, Value, profile, other_value, offers, search_entries, all_entries, find_agents,
  at_bucket, put_in_bucket, bucket_put, bucket_index, handle_message, put, find_placed, store,
}
use census_konantgit_sys_p2p.Phase0.Directory.Entries.{find_placed-put_in_bucket}
use census_konantgit_sys_p2p.Outcome.{raised, returned, attribute_error}
use census_konantgit_sys_p2p.Dict.{member}

-- The value is a profile of the capability.
unfoldable pub has_capability : String → Value → Bool
has_capability capability (other_value _) = false
has_capability capability (profile p) =
    member capability p.capabilities
    || elim p.agent_id [ none ↦ false | some id ↦ str_eq id capability ]

unfoldable pub is_profile : Value → Bool
is_profile (profile _) = true
is_profile (other_value _) = false

unfoldable pub all_profiles : List Placed → Bool
all_profiles [] = true
all_profiles (e ∷ b) = is_profile e.value && all_profiles b

-- The entries with the capability.
unfoldable pub with_capability : String → List Placed → List Placed
with_capability capability [] = []
with_capability capability (e ∷ b) =
    let rest = with_capability capability b in
    if has_capability capability e.value then e ∷ rest else rest

offers-cases :
    (capability : String) (v : Value)
    → offers capability v
      ≡ (if is_profile v then returned (has_capability capability v) else raised attribute_error)
unfolding offers has_capability is_profile
offers-cases capability (profile p) = refl
offers-cases capability (other_value x) = refl

search_entries-cases :
    (capability : String) (b : List Placed)
    → search_entries capability b
      ≡ (if all_profiles b then returned (with_capability capability b) else raised attribute_error)
unfolding search_entries all_profiles with_capability
search_entries-cases capability [] = refl
search_entries-cases capability (e ∷ b) = elim (Bool-cases (is_profile e.value)) [
  | inr bad ↦
      let no_offer : offers capability e.value ≡ raised attribute_error =
        rw (offers-cases capability e.value, bad) refl in
      rw (no_offer, search_entries) (rw bad refl)
  | inl good ↦
      let offer : offers capability e.value ≡ returned (has_capability capability e.value) =
        rw (offers-cases capability e.value, good) refl in
      rw (offer, search_entries)
        (elim (Bool-cases (all_profiles b)) [
          | inl all ↦
              let rest : search_entries capability b ≡ returned (with_capability capability b) =
                rw (search_entries-cases capability b, all) refl in
              rw (rest, search_entries) (rw (good, all) refl)
          | inr some_bad ↦
              let rest : search_entries capability b ≡ raised attribute_error =
                rw (search_entries-cases capability b, some_bad) refl in
              rw (rest, search_entries) (rw (good, some_bad) refl)
        ])
]

-- `find_agents` gives the entries of all buckets that have the capability, in their order, if every value in every bucket is a dictionary; if one is not, it raises `AttributeError`, for every capability.
find_agents-cases :
    (capability : String) (s : DhtStore)
    → find_agents capability s ≡ (
        if all_profiles (all_entries s.buckets)
        then returned (with_capability capability (all_entries s.buckets))
        else raised attribute_error)
unfolding find_agents
find_agents-cases capability s = search_entries-cases capability (all_entries s.buckets)

all_profiles-append :
    (xs ys : List Placed) → all_profiles (xs ++ ys) ≡ (all_profiles xs && all_profiles ys)
unfolding all_profiles
all_profiles-append [] ys = refl
all_profiles-append (e ∷ xs) ys = ground (arith, all_profiles-append xs ys)

find_placed-profiles :
    (key : String) (v : Value) (b : List Placed)
    → find_placed key b ≡ some v
    → is_profile v ≡ false
    → all_profiles b ≡ false
unfolding find_placed all_profiles
find_placed-profiles key v [] found bad = absurd (cc)
find_placed-profiles key v (e ∷ b) found bad = elim (Bool-cases (str_eq e.key key)) [
  | inl same ↦
      let here : find_placed key (e ∷ b) ≡ some e.value = rw same refl in
      let value : e.value ≡ v = some-injective e.value v (sym here ∙ found) in rw (value, bad) refl
  | inr differ ↦
      let later : find_placed key (e ∷ b) ≡ find_placed key b = rw differ refl in
      rw (find_placed-profiles key v b (sym later ∙ found) bad) (and_false (is_profile e.value))
]
  where
    and_false : (a : Bool) → (a && false) ≡ false
    and_false true = refl
    and_false false = refl

at_bucket-profiles :
    (i : ℕ) (key x : String) (now : ℕ) (bs : List (List Placed))
    → i < length bs
    → all_profiles (all_entries (at_bucket i (put_in_bucket key (other_value x) now) bs)) ≡ false
unfolding at_bucket all_entries is_profile
at_bucket-profiles i key x now [] h = absurd (omega (arith, h))
at_bucket-profiles zero key x now (b ∷ bs) h =
    let put = put_in_bucket key (other_value x) now b in
    all_profiles-append put (all_entries bs)
    ∙ rw
        (find_placed-profiles key (other_value x) put
          (find_placed-put_in_bucket key (other_value x) now b) refl)
        refl
at_bucket-profiles (suc i) key x now (b ∷ bs) h =
    all_profiles-append b (all_entries (at_bucket i (put_in_bucket key (other_value x) now) bs))
    ∙ rw (at_bucket-profiles i key x now bs (omega (arith, h))) (and_false (all_profiles b))
  where
    and_false : (a : Bool) → (a && false) ≡ false
    and_false true = refl
    and_false false = refl

-- A single message of any node that puts a value which is no dictionary makes `find_agents` raise `AttributeError`, for every capability.
find_agents-put :
    (hash32 : String → ℕ) (key x capability : String) (ttl : Option ℕ) (sender : Option String)
    (now : ℕ) (s : DhtStore)
    → length s.buckets ≡ 8
    → find_agents capability (handle_message hash32 (put key (other_value x) ttl) sender now s).1
      ≡ raised attribute_error
unfolding handle_message bucket_put store bucket_index
find_agents-put hash32 key x capability ttl sender now s eight =
    find_agents-cases capability
      (handle_message hash32 (put key (other_value x) ttl) sender now s).1
    ∙ rw (at_bucket-profiles (bucket_index hash32 key) key x now s.buckets (omega (arith, eight)))
        refl
