-- ===== src/Phase0/Directory/Entries.antt =====
-- The entries of one bucket of phase0/dht.py.
use census_konantgit_sys_p2p.Prelude.{
  ◌∷◌, [], List, zero, suc, ℕ, String, some, ◌++◌, ◌≡◌, str_eq, false, inl, ◌∙◌, inr, drop, Bool,
  All, ◌||◌, eq_refl, Bool-cases, if◌then◌else◌, length, arith, ◌-◌, refl, ◌≤◌, length-drop, eq_iff,
  ltb, All-append, length-append, true,
}
use census_konantgit_sys_p2p.Phase0.Directory.{
  Placed, Value, put_in_bucket, without_key, trim, find_placed, bucket_limit,
}

unfoldable pub has_key : String → List Placed → Bool
has_key key [] = false
has_key key (e ∷ b) = str_eq e.key key || has_key key b

abbrev pub IsDistinct : List Placed → Type 0
IsDistinct [] = Unit
IsDistinct (e ∷ b) = (has_key e.key b ≡ false) × IsDistinct b

has_key-append :
    (key : String) (xs ys : List Placed)
    → has_key key (xs ++ ys) ≡ (has_key key xs || has_key key ys)
unfolding has_key
has_key-append key [] ys = refl
has_key-append key (e ∷ xs) ys = ground (arith, has_key-append key xs ys)

has_key-without_key :
    (key j : String) (b : List Placed)
    → has_key j (without_key key b) ≡ (if str_eq key j then false else has_key j b)
unfolding has_key without_key
has_key-without_key key j [] = ground arith
has_key-without_key key j (e ∷ b) =
    ground (arith, has_key-without_key key j b, eq_iff e.key key, eq_iff e.key j, eq_iff key j)

IsDistinct-without_key :
    (key : String) (b : List Placed) → IsDistinct b → IsDistinct (without_key key b)
unfolding without_key
IsDistinct-without_key key [] h = tt
IsDistinct-without_key key (e ∷ b) h = elim (Bool-cases (str_eq e.key key)) [
  | inl same ↦ rw same (IsDistinct-without_key key b h.1)
  | inr differ ↦
      rw differ (
        rw (has_key-without_key key e.key b) (ground (arith, h.0)),
        IsDistinct-without_key key b h.1,
      )
]

IsDistinct-append :
    (b : List Placed) (e : Placed)
    → IsDistinct b
    → has_key e.key b ≡ false
    → IsDistinct (b ++ e ∷ [])
unfolding has_key
IsDistinct-append [] e h new = (refl, tt)
IsDistinct-append (d ∷ b) e h new =
    let apart : has_key d.key (e ∷ []) ≡ false =
      ground (arith, eq_iff d.key e.key, eq_iff e.key d.key) in
    (
      rw (has_key-append d.key b (e ∷ [])) (ground (arith, h.0, apart)),
      IsDistinct-append b e h.1 (ground arith),
    )

has_key-drop-false :
    (key : String) (n : ℕ) (b : List Placed)
    → has_key key b ≡ false
    → has_key key (drop n b) ≡ false
unfolding has_key
has_key-drop-false key zero b h = h
has_key-drop-false key (suc n) [] h = refl
has_key-drop-false key (suc n) (e ∷ b) h = has_key-drop-false key n b (ground arith)

IsDistinct-drop : (n : ℕ) (b : List Placed) → IsDistinct b → IsDistinct (drop n b)
IsDistinct-drop zero b h = h
IsDistinct-drop (suc n) [] h = tt
IsDistinct-drop (suc n) (e ∷ b) h = IsDistinct-drop n b h.1

trim-drop : (b : List Placed) → trim b ≡ drop (length b - bucket_limit) b
unfolding trim
trim-drop b = elim (Bool-cases (ltb bucket_limit (length b))) [
  | inl over ↦ rw over refl
  | inr fits ↦
      let small : length b ≤ bucket_limit = ground arith in
      let none_cut : length b - bucket_limit ≡ 0 = omega (arith, small) in rw (fits, none_cut) refl
]

module _ (Q : String → Type 0) where
  abbrev pub Belong : List Placed → Type 0
  Belong = All (λ e. Q e.key)

  Belong-without_key : (key : String) (b : List Placed) → Belong b → Belong (without_key key b)
  unfolding without_key
  Belong-without_key key [] h = tt
  Belong-without_key key (e ∷ b) h = elim (Bool-cases (str_eq e.key key)) [
    | inl same ↦ rw same (Belong-without_key key b h.1)
    | inr differ ↦ rw differ (h.0, Belong-without_key key b h.1)
  ]

  Belong-drop : (n : ℕ) (b : List Placed) → Belong b → Belong (drop n b)
  Belong-drop zero b h = h
  Belong-drop (suc n) [] h = tt
  Belong-drop (suc n) (e ∷ b) h = Belong-drop n b h.1

  -- A bucket within its size, with one entry for a key, all of them where they belong.
  pub record IsBucket (b : List Placed) : Type 0 where
    pub small : length b ≤ bucket_limit
    pub distinct : IsDistinct b
    pub belong : Belong b

  pub empty_IsBucket : IsBucket []
  empty_IsBucket = record { small = omega arith; distinct = tt; belong = tt }

  pub put_in_bucket-IsBucket :
      (key : String) (value : Value) (now : ℕ) (b : List Placed)
      → Q key
      → IsBucket b
      → IsBucket (put_in_bucket key value now b)
  unfolding put_in_bucket
  put_in_bucket-IsBucket key value now b q h =
      let e : Placed = record { key = key; value = value; ts = now } in
      let kept = without_key key b in
      let gone : has_key key kept ≡ false = has_key-without_key key key b ∙ rw (eq_refl key) refl in
      let all = kept ++ e ∷ [] in
      rw (trim-drop all) (record {
        small = omega (arith, length-drop (length all - bucket_limit) all);
        distinct =
            IsDistinct-drop (length all - bucket_limit) all
              (IsDistinct-append kept e (IsDistinct-without_key key b h.distinct) gone);
        belong =
            Belong-drop (length all - bucket_limit) all
              (All-append (λ x. Q x.key) kept (e ∷ []) (Belong-without_key key b h.belong) (q, tt));
      })

or-false : (a b : Bool) → (a || b) ≡ false → (a ≡ false) × (b ≡ false)
or-false true b h = absurd (cc)
or-false false b h = (refl, h)

find_placed-drop :
    (e : Placed) (n : ℕ) (b : List Placed)
    → n ≤ length b
    → has_key e.key b ≡ false
    → find_placed e.key (drop n (b ++ e ∷ [])) ≡ some e.value
unfolding find_placed has_key
find_placed-drop e zero [] le new = rw (eq_refl e.key) refl
find_placed-drop e zero (d ∷ b) le new =
    let (differ, later) = or-false (str_eq d.key e.key) (has_key e.key b) new in
    rw differ (find_placed-drop e zero b (omega arith) later)
find_placed-drop e (suc n) [] le new = absurd (omega (arith, le))
find_placed-drop e (suc n) (d ∷ b) le new =
    find_placed-drop e n b (omega (arith, le))
      (or-false (str_eq d.key e.key) (has_key e.key b) new).1

-- The value put last is found, since the bucket is cut at its other end.
pub find_placed-put_in_bucket :
    (key : String) (value : Value) (now : ℕ) (b : List Placed)
    → find_placed key (put_in_bucket key value now b) ≡ some value
unfolding put_in_bucket
find_placed-put_in_bucket key value now b =
    let e : Placed = record { key = key; value = value; ts = now } in
    let kept = without_key key b in
    let size = length-append kept (e ∷ []) in
    rw (trim-drop (kept ++ e ∷ [])) (
      find_placed-drop e (length (kept ++ e ∷ []) - bucket_limit) kept (omega (arith, size))
        (has_key-without_key key key b ∙ rw (eq_refl key) refl))
