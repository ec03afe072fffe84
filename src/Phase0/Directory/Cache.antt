-- ===== src/Phase0/Directory/Cache.antt =====
-- The bounded cache of phase0/dht.py beside one without a bound.
use census_konantgit_sys_p2p.Prelude.{
  ◌∷◌, [], List, ℕ, String, Option, ◌++◌, arith, ◌≡◌, ◌+◌, length, Bool-cases, str_eq, ap, ◌∙◌,
  false, ◌||◌, refl, min, ◌≤◌, Bool, inl, eq_refl, append_assoc, ltb, eq_iff, inr, subst, sym,
  ltb→lt, length-append, true,
}
use census_konantgit_sys_p2p.Phase0.Directory.{
  DhtStore, Entry, Value, new_store, store, put_last, pop_oldest,
}
use census_konantgit_sys_p2p.Dict.{erase, contains, Dict, lookup, contains-erase}

-- No key is there twice.
abbrev pub IsUnique : Dict Entry → Type 0
IsUnique [] = Unit
IsUnique ((k, e) ∷ d) = (contains k d ≡ false) × IsUnique d

contains-append :
    (k : String) (xs ys : Dict Entry) → contains k (xs ++ ys) ≡ (contains k xs || contains k ys)
unfolding contains lookup
contains-append k [] ys = refl
contains-append k ((j, e) ∷ xs) ys = elim (Bool-cases (str_eq j k)) [
  | inl same ↦ rw (same, contains) refl
  | inr differ ↦ rw (differ, contains) (contains-append k xs ys)
]

erase-append : (k : String) (xs ys : Dict Entry) → erase k (xs ++ ys) ≡ erase k xs ++ erase k ys
unfolding erase
erase-append k [] ys = refl
erase-append k (x ∷ xs) ys = ground (arith, erase-append k xs ys)

contains-cons :
    (k j : String) (e : Entry) (d : Dict Entry)
    → contains k ((j, e) ∷ d) ≡ (str_eq j k || contains k d)
unfolding contains lookup
contains-cons k j e d = elim (Bool-cases (str_eq j k)) [
  | inl same ↦ rw (same, contains) refl
  | inr differ ↦ rw (differ, contains) refl
]

erase-absent : (k : String) (d : Dict Entry) → contains k d ≡ false → erase k d ≡ d
unfolding erase
erase-absent k [] h = refl
erase-absent k ((j, e) ∷ d) h =
    let (differ, later) = or-false (str_eq j k) (contains k d) (sym (contains-cons k j e d) ∙ h) in
    rw differ (ap (◌∷◌ (j, e)) (erase-absent k d later))
  where
    or-false : (a b : Bool) → (a || b) ≡ false → (a ≡ false) × (b ≡ false)
    or-false true b h = absurd (cc)
    or-false false b h = (refl, h)

length-erase_le : (k : String) (d : Dict Entry) → length (erase k d) ≤ length d
unfolding erase
length-erase_le k [] = omega arith
length-erase_le k (x ∷ d) = ground (arith, length-erase_le k d)

length-erase_ge : (k : String) (d : Dict Entry) → IsUnique d → length d ≤ length (erase k d) + 1
unfolding erase
length-erase_ge k [] h = omega arith
length-erase_ge k ((j, e) ∷ d) h = elim (Bool-cases (str_eq j k)) [
  | inl same ↦
      let absent = subst (λ i. contains i d ≡ false) ((eq_iff j k).0 same) h.0 in
      rw (same, erase-absent k d absent) (omega arith)
  | inr differ ↦ rw differ (omega (arith, length-erase_ge k d h.1))
]

IsUnique-suffix : (xs ys : Dict Entry) → IsUnique (xs ++ ys) → IsUnique ys
IsUnique-suffix [] ys h = h
IsUnique-suffix (x ∷ xs) ys h = IsUnique-suffix xs ys h.1

IsUnique-append :
    (k : String) (e : Entry) (d : Dict Entry)
    → IsUnique d
    → contains k d ≡ false
    → IsUnique (d ++ (k, e) ∷ [])
unfolding contains lookup
IsUnique-append k e [] h absent = (refl, tt)
IsUnique-append k e ((j, x) ∷ d) h absent =
    let split = contains-cons k j x d in
    let single = contains-cons j k e [] in
    (
      contains-append j d ((k, e) ∷ [])
          ∙ rw (h.0, single) (ground (arith, split, absent, eq_iff j k, eq_iff k j)),
      IsUnique-append k e d h.1 (ground (arith, split, absent)),
    )

IsUnique-erase : (k : String) (d : Dict Entry) → IsUnique d → IsUnique (erase k d)
unfolding erase
IsUnique-erase k [] h = tt
IsUnique-erase k ((j, e) ∷ d) h = elim (Bool-cases (str_eq j k)) [
  | inl same ↦ rw same (IsUnique-erase k d h.1)
  | inr differ ↦ rw differ (contains-erase k j d ∙ rw h.0 (ground arith), IsUnique-erase k d h.1)
]

put_last-IsUnique :
    (k : String) (e : Entry) (d : Dict Entry) → IsUnique d → IsUnique (put_last k e d)
unfolding put_last
put_last-IsUnique k e d h =
    IsUnique-append k e (erase k d) (IsUnique-erase k d h)
      (contains-erase k k d ∙ rw (eq_refl k) refl)

pop_oldest-suffix :
    (max_keys : ℕ) (d : Dict Entry)
    → (cut : Dict Entry) × (d ≡ cut ++ pop_oldest max_keys d)
      × (length (pop_oldest max_keys d) ≡ min max_keys (length d))
unfolding pop_oldest
pop_oldest-suffix max_keys [] = ([], refl, omega arith)
pop_oldest-suffix max_keys (e ∷ d) = elim (Bool-cases (ltb max_keys (length (e ∷ d)))) [
  | inl over ↦
      let (cut, split, size) = pop_oldest-suffix max_keys d in
      let more = ltb→lt max_keys (length (e ∷ d)) over in
      rw over (e ∷ cut, ap (◌∷◌ e) split, omega (arith, size, more))
  | inr fits ↦
      let small : length (e ∷ d) ≤ max_keys = ground arith in
      rw fits ([], refl, omega (arith, small))
]

-- The bounded cache is the end of the other one, as long as it may be.
abbrev pub IsRecent : ℕ → Dict Entry → Dict Entry → Type 0
IsRecent max_keys all kept =
    IsUnique all
    × ((older : Dict Entry) × (all ≡ older ++ kept) × (length kept ≡ min max_keys (length all)))

put_last-IsRecent :
    (max_keys : ℕ) (k : String) (e : Entry) (all kept : Dict Entry)
    → IsRecent max_keys all kept
    → IsRecent max_keys (put_last k e all) (pop_oldest max_keys (put_last k e kept))
unfolding put_last
put_last-IsRecent max_keys k e all kept (unique, (older, split, size)) =
    let (cut, rest, short) = pop_oldest-suffix max_keys (erase k kept ++ (k, e) ∷ []) in
    let left = pop_oldest max_keys (erase k kept ++ (k, e) ∷ []) in
    let new : erase k all ++ (k, e) ∷ [] ≡ (erase k older ++ cut) ++ left =
      ap (λ d. erase k d ++ (k, e) ∷ []) split
      ∙ ap (λ d. d ++ (k, e) ∷ []) (erase-append k older kept)
      ∙ append_assoc (erase k older) (erase k kept) ((k, e) ∷ [])
      ∙ ap (λ d. erase k older ++ d) rest
      ∙ sym (append_assoc (erase k older) cut left) in
    let kept_unique = IsUnique-suffix older kept (subst IsUnique split unique) in
    let l1 = length-append older kept in
    let l2 = length-append (erase k older) (erase k kept) in
    let l3 = length-append (erase k kept) ((k, e) ∷ []) in
    let l4 = length-append (erase k all) ((k, e) ∷ []) in
    let l5 : length (erase k all) ≡ length (erase k older ++ erase k kept) =
      ap length (ap (erase k) split ∙ erase-append k older kept) in
    let l6 : length all ≡ length (older ++ kept) = ap length split in
    (
      put_last-IsUnique k e all unique,
      (
        erase k older ++ cut,
        new,
        omega (
          arith,
          short,
          size,
          l1,
          l2,
          l3,
          l4,
          l5,
          l6,
          length-erase_le k older,
          length-erase_le k kept,
          length-erase_ge k kept kept_unique,
        ),
      ),
    )

-- One call of `_store`: key, value, lifetime, source and time.
abbrev pub Put : Type 0
Put = String × Value × ℕ × Option String × ℕ

abbrev pub store_all : List Put → DhtStore → DhtStore
store_all [] s = s
store_all ((key, value, ttl, source, now) ∷ rest) s =
    store_all rest (store key value ttl source now s)

-- An ordered dictionary without a bound, in which a key that is set again goes last.
abbrev pub put_all : List Put → Dict Entry → Dict Entry
put_all [] d = d
put_all ((key, value, ttl, source, now) ∷ rest) d = put_all rest (
    put_last key (record { value = value; expires = now + ttl; source = source; stored_at = now })
      d)

store_all-IsRecent :
    (ps : List Put) (s : DhtStore) (all : Dict Entry)
    → IsRecent s.max_keys all s.cache
    → IsRecent s.max_keys (put_all ps all) (store_all ps s).cache
unfolding store
store_all-IsRecent [] s all h = h
store_all-IsRecent ((key, value, ttl, source, now) ∷ rest) s all h =
    let e : Entry = record {
      value = value;
      expires = now + ttl;
      source = source;
      stored_at = now;
    } in
    store_all-IsRecent rest (record s { cache = pop_oldest s.max_keys (put_last key e s.cache) })
      (put_last key e all) (put_last-IsRecent s.max_keys key e all s.cache h)

-- Whatever is stored in a fresh store, the cache is what an ordered dictionary without a bound would hold, cut to its last `max_keys` entries: no key is in it twice, it is the end of that dictionary, and it has `max_keys` entries if that has as many.
pub store_all-last :
    (ps : List Put) (node_id : String) (max_keys : ℕ)
    → IsRecent max_keys (put_all ps []) (store_all ps (new_store node_id max_keys)).cache
unfolding new_store
store_all-last ps node_id max_keys =
    store_all-IsRecent ps (new_store node_id max_keys) [] (tt, ([], refl, omega arith))
