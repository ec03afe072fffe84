-- ===== src/Dict.antt =====
-- Python's `dict` with string keys: an association list in insertion order, one entry for a key; and
-- membership in a set of texts.
use census_konantgit_sys_p2p.Prelude.{
  String, ◌≡◌, refl, ◌≢◌, Bool, true, false, Option, none, some, List, [], ◌∷◌, map, arith, str_eq,
  eq_iff, eq_refl, str_eq-false, if◌then◌else◌, ◌||◌,
}

-- `x in s`, for a set or a list of texts.
unfoldable pub member : String → List String → Bool
member x [] = false
member x (y ∷ ys) = str_eq y x || member x ys

abbrev pub Dict {ℓ} : Type ℓ → Type ℓ
Dict V = List (String × V)

module _ {ℓ} {V : Type ℓ} where
  -- `d.get(k)`
  unfoldable pub lookup : String → Dict V → Option V
  lookup k [] = none
  lookup k ((j, v) ∷ d) = if str_eq j k then some v else lookup k d

  -- `d.get(k, default)`
  unfoldable pub get_or : String → V → Dict V → V
  unfolding lookup
  get_or k v d = elim (lookup k d) [ none ↦ v | some x ↦ x ]

  -- `k in d`
  unfoldable pub contains : String → Dict V → Bool
  unfolding lookup
  contains k d = elim (lookup k d) [ none ↦ false | some _ ↦ true ]

  -- `d[k] = v`: a key that is there keeps its place
  unfoldable pub insert : String → V → Dict V → Dict V
  insert k v [] = (k, v) ∷ []
  insert k v ((j, w) ∷ d) = if str_eq j k then (j, v) ∷ d else (j, w) ∷ insert k v d

  -- `d.pop(k, None)`, `del d[k]` on a key that is there
  unfoldable pub erase : String → Dict V → Dict V
  erase k [] = []
  erase k ((j, w) ∷ d) = let rest = erase k d in if str_eq j k then rest else (j, w) ∷ rest

  -- `d.values()`
  abbrev pub values : Dict V → List V
  values = map (λ e. e.1)

  pub lookup-insert :
      (k j : String) (v : V) (d : Dict V)
      → lookup j (insert k v d) ≡ (if str_eq k j then some v else lookup j d)
  unfolding lookup insert
  lookup-insert k j v [] = refl
  lookup-insert k j v ((i, w) ∷ d) =
      ground (arith, eq_iff k j, eq_iff i k, eq_iff i j, lookup-insert k j v d)

  pub get_or-insert :
      (k j : String) (v x : V) (d : Dict V)
      → get_or j x (insert k v d) ≡ (if str_eq k j then v else get_or j x d)
  unfolding get_or
  get_or-insert k j v x d = rw (lookup-insert k j v d, get_or) (ground arith)

  pub get_or-insert_self : (k : String) (v x : V) (d : Dict V) → get_or k x (insert k v d) ≡ v
  get_or-insert_self k v x d = simp (get_or-insert, eq_refl)

  pub get_or_of_lookup :
      (k : String) (v x : V) (d : Dict V) → lookup k d ≡ some v → get_or k x d ≡ v
  unfolding get_or
  get_or_of_lookup k v x d h = rw (h, get_or)

  pub get_or_of_none : (k : String) (x : V) (d : Dict V) → lookup k d ≡ none → get_or k x d ≡ x
  unfolding get_or
  get_or_of_none k x d h = rw (h, get_or)

  pub contains-insert :
      (k j : String) (v : V) (d : Dict V)
      → contains j (insert k v d) ≡ (if str_eq k j then true else contains j d)
  unfolding contains
  contains-insert k j v d = rw (lookup-insert k j v d, contains) (ground arith)

  pub lookup-insert_self : (k : String) (v : V) (d : Dict V) → lookup k (insert k v d) ≡ some v
  lookup-insert_self k v d = simp (lookup-insert, eq_refl)

  pub lookup-insert_ne :
      (k j : String) (v : V) (d : Dict V) → k ≢ j → lookup j (insert k v d) ≡ lookup j d
  lookup-insert_ne k j v d h = simp (lookup-insert, str_eq-false k j h)

  pub lookup-erase :
      (k j : String) (d : Dict V) → lookup j (erase k d) ≡ (if str_eq k j then none else lookup j d)
  unfolding lookup erase
  lookup-erase k j [] = ground arith
  lookup-erase k j ((i, w) ∷ d) =
      ground (arith, lookup-erase k j d, eq_iff k j, eq_iff i k, eq_iff i j)

  pub get_or-erase :
      (k j : String) (x : V) (d : Dict V)
      → get_or j x (erase k d) ≡ (if str_eq k j then x else get_or j x d)
  unfolding get_or
  get_or-erase k j x d = rw (lookup-erase k j d, get_or) (ground arith)

  pub contains-erase :
      (k j : String) (d : Dict V)
      → contains j (erase k d) ≡ (if str_eq k j then false else contains j d)
  unfolding contains
  contains-erase k j d = rw (lookup-erase k j d, contains) (ground arith)

pub ruleset dict_laws = (
  lookup-insert, lookup-erase, get_or-insert, get_or-erase, contains-erase, contains-insert,
  eq_refl,
)
