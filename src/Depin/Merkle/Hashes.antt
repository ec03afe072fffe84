-- ===== src/Depin/Merkle/Hashes.antt =====
-- The tree by its hashes alone: the loop ends with one node, whose hash depends on the hashes of the
-- messages only.
use Prim.Native.String.{◌++◌ as text_append}
use census_konantgit_sys_p2p.Prelude.{
  ◌∷◌, [], List, ◌++◌, zero, suc, String, length, ℕ, ◌≤◌, ◌%◌, ◌<◌, ◌≡◌, ◌+◌, map, arith, ◌/◌, ap,
  ◌∙◌, refl,
}
use census_konantgit_sys_p2p.Depin.Merkle.{build_levels, next_level, MerkleNode, parent, node_hash}

module _ {B : Type 0} (sha256 : B → String) (encode : String → B) where
  -- A level of hashes, and the levels above it.
  abbrev pub join : String → String → String
  join a b = sha256 (encode (text_append a b))

  abbrev pub pairs : List String → List String
  pairs [] = []
  pairs (a ∷ []) = join a a ∷ []
  pairs (a ∷ b ∷ rest) = join a b ∷ pairs rest

  abbrev pub fold : ℕ → List String → List String
  fold zero hs = hs
  fold (suc k) [] = []
  fold (suc k) (a ∷ []) = a ∷ []
  fold (suc k) (a ∷ b ∷ rest) = fold k (pairs (a ∷ b ∷ rest))

  hashes-next_level :
      (level : List MerkleNode)
      → map node_hash (next_level sha256 encode level) ≡ pairs (map node_hash level)
  unfolding next_level parent
  hashes-next_level [] = refl
  hashes-next_level (l ∷ []) = refl
  hashes-next_level (l ∷ r ∷ rest) =
      ap (◌∷◌ (join (node_hash l) (node_hash r))) (hashes-next_level rest)

  pub hashes-build_levels :
      (k : ℕ) (level : List MerkleNode)
      → map node_hash (build_levels sha256 encode k level) ≡ fold k (map node_hash level)
  unfolding build_levels
  hashes-build_levels zero level = refl
  hashes-build_levels (suc k) [] = refl
  hashes-build_levels (suc k) (n ∷ []) = refl
  hashes-build_levels (suc k) (l ∷ r ∷ rest) =
      hashes-build_levels k (next_level sha256 encode (l ∷ r ∷ rest))
      ∙ ap (fold k) (hashes-next_level (l ∷ r ∷ rest))

  pub length-pairs : (hs : List String) → length (pairs hs) ≡ (length hs + 1) / 2
  length-pairs [] = omega arith
  length-pairs (a ∷ []) = omega arith
  length-pairs (a ∷ b ∷ rest) = omega (arith, length-pairs rest)

  -- The loop ends: as many rounds as there are hashes leave one.
  pub length-fold :
      (k : ℕ) (a : String) (hs : List String) → length hs < k → length (fold k (a ∷ hs)) ≡ 1
  length-fold zero a hs h = absurd (omega arith)
  length-fold (suc k) a [] h = refl
  length-fold (suc k) a (b ∷ hs) h =
      length-fold k (join a b) (pairs hs) (omega (arith, length-pairs hs))

  -- More rounds change nothing.
  pub fold-rounds :
      (k j : ℕ) (hs : List String) → length hs ≤ k → length hs ≤ j → fold k hs ≡ fold j hs
  fold-rounds zero zero hs a b = refl
  fold-rounds zero (suc j) [] a b = refl
  fold-rounds zero (suc j) (h ∷ hs) a b = absurd (omega arith)
  fold-rounds (suc k) zero [] a b = refl
  fold-rounds (suc k) zero (h ∷ hs) a b = absurd (omega arith)
  fold-rounds (suc k) (suc j) [] a b = refl
  fold-rounds (suc k) (suc j) (h ∷ []) a b = refl
  fold-rounds (suc k) (suc j) (h ∷ i ∷ hs) a b =
      let shorter = length-pairs hs in
      fold-rounds k j (pairs (h ∷ i ∷ hs)) (omega (arith, shorter)) (omega (arith, shorter))

  -- A last hash without a neighbour is paired with itself, so repeating it changes nothing above.
  pub pairs_repeat :
      (hs : List String) (a : String)
      → length hs % 2 ≡ 0
      → pairs (hs ++ a ∷ []) ≡ pairs (hs ++ a ∷ a ∷ [])
  pairs_repeat [] a even = refl
  pairs_repeat (h ∷ []) a even = absurd (omega arith)
  pairs_repeat (h ∷ i ∷ hs) a even = ap (◌∷◌ (join h i)) (pairs_repeat hs a (omega arith))
