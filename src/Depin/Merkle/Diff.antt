-- ===== src/Depin/Merkle/Diff.antt =====
-- `compute_diff`: what a device that was away is sent.
use mathlib.Core.List.{map-append}
use census_konantgit_sys_p2p.Prelude.{
  ◌∷◌, [], List, ◌++◌, suc, String, ℕ, map, length, ◌<◌, ◌%◌, ◌≡◌, ◌≢◌, none, ap, some, ◌∙◌, ◌+◌,
  refl, ◌≤◌, drop, length-append, arith, eq_refl, str_eq-false, if◌then◌else◌, length-map, sym,
  ◌==◌, ltb, ◌-◌, true, false,
}
use census_konantgit_sys_p2p.Depin.Merkle.{
  compute_diff, leaves_from, MerkleNode, root_hash, first_node, build, node_hash, build_levels,
  root_of,
}
use census_konantgit_sys_p2p.Depin.Merkle.Hashes.{
  fold, hashes-build_levels, length-pairs, pairs_repeat, fold-rounds, length-fold, join, pairs,
}

module _ {B : Type 0} (sha256 : B → String) (encode : String → B) (empty : B) where
  hashes-leaves_from :
      (i : ℕ) (ms : List B) → map node_hash (leaves_from sha256 encode i ms) ≡ map sha256 ms
  unfolding leaves_from
  hashes-leaves_from i [] = refl
  hashes-leaves_from i (m ∷ ms) = ap (◌∷◌ (sha256 m)) (hashes-leaves_from (i + 1) ms)

  length-leaves_from : (i : ℕ) (ms : List B) → length (leaves_from sha256 encode i ms) ≡ length ms
  unfolding leaves_from
  length-leaves_from i [] = refl
  length-leaves_from i (m ∷ ms) = ap suc (length-leaves_from (i + 1) ms)

  -- The hash of the root, from the hashes of the messages alone.
  abbrev pub first_hash : List String → String
  first_hash [] = sha256 empty
  first_hash (h ∷ hs) = h

  first_node-hash :
      (ns : List MerkleNode)
      → elim (first_node ns) [ none ↦ sha256 empty | some n ↦ node_hash n ]
        ≡ first_hash (map node_hash ns)
  first_node-hash [] = refl
  first_node-hash (n ∷ ns) = refl

  root_hash_lem :
      (ms : List B)
      → root_of sha256 encode empty ms ≡ first_hash (fold sha256 encode (length ms) (map sha256 ms))
  unfolding root_hash build
  root_hash_lem [] = refl
  root_hash_lem (m ∷ ms) =
      let leaves = leaves_from sha256 encode 0 (m ∷ ms) in
      let levels = build_levels sha256 encode (length leaves) leaves in
      let by_messages : fold sha256 encode (length leaves) (map node_hash leaves)
          ≡ fold sha256 encode (length (m ∷ ms)) (map sha256 (m ∷ ms)) =
        ap (λ k. fold sha256 encode k (map node_hash leaves)) (length-leaves_from 0 (m ∷ ms))
        ∙ ap (fold sha256 encode (length (m ∷ ms))) (hashes-leaves_from 0 (m ∷ ms)) in
      first_node-hash levels
      ∙ ap first_hash (hashes-build_levels sha256 encode (length leaves) leaves ∙ by_messages)

  -- The tree of one or more messages has a root: the loop of `_build` ends with exactly one node when it goes round at least as often as there are messages, and the hash of that node is the hash of the tree's root.
  build_levels-returns :
      (k : ℕ) (m : B) (ms : List B)
      → length ms < k
      → let levels = build_levels sha256 encode k (leaves_from sha256 encode 0 (m ∷ ms)) in
        (length levels ≡ 1)
        × (first_hash (map node_hash levels) ≡ root_of sha256 encode empty (m ∷ ms))
  build_levels-returns k m ms h =
      let hashes =
        hashes-build_levels sha256 encode k (leaves_from sha256 encode 0 (m ∷ ms))
        ∙ ap (fold sha256 encode k) (hashes-leaves_from 0 (m ∷ ms)) in
      let levels = build_levels sha256 encode k (leaves_from sha256 encode 0 (m ∷ ms)) in
      let count = length-map sha256 ms in
      (
        sym (length-map node_hash levels)
            ∙ ap length hashes
            ∙ length-fold sha256 encode k (sha256 m) (map sha256 ms) (omega (arith, count)),
        ap first_hash (
              hashes
              ∙ fold-rounds sha256 encode k (length (m ∷ ms)) (map sha256 (m ∷ ms))
                  (omega (arith, count)) (omega (arith, count)))
            ∙ sym (root_hash_lem (m ∷ ms)),
      )

  drop-length-append : (xs ys : List B) → drop (length xs) (xs ++ ys) ≡ ys
  drop-length-append [] ys = refl
  drop-length-append (x ∷ xs) ys = drop-length-append xs ys

  -- `compute_diff` after its test of the roots.
  sent_lem :
      (remote missing : List B)
      → let local = remote ++ missing in
        (if length remote == 0
          then local
          else if ltb 0 (length local - length remote)
          then drop (length local - (length local - length remote)) local
          else [])
        ≡ missing
  sent_lem [] missing = refl
  sent_lem (x ∷ xs) [] =
      let size = length-append (x ∷ xs) [] in
      let nothing : length ((x ∷ xs) ++ []) - length (x ∷ xs) ≡ 0 = omega (arith, size) in
      let not_empty : (length (x ∷ xs) == 0) ≡ false = ground arith in rw (nothing, not_empty) refl
  sent_lem (x ∷ xs) (y ∷ ys) =
      let local = (x ∷ xs) ++ y ∷ ys in
      let size = length-append (x ∷ xs) (y ∷ ys) in
      let some_left : ltb 0 (length local - length (x ∷ xs)) ≡ true = ground (arith, size) in
      let start : length local - (length local - length (x ∷ xs)) ≡ length (x ∷ xs) =
        omega (arith, size) in
      let not_empty : (length (x ∷ xs) == 0) ≡ false = ground arith in
      rw (not_empty, some_left, start) (drop-length-append (x ∷ xs) (y ∷ ys))

  -- A device whose log is a beginning of the local log, under another root hash, is sent exactly the messages that it lacks.
  pub compute_diff-prefix :
      (remote missing : List B)
      → root_of sha256 encode empty remote ≢ root_of sha256 encode empty (remote ++ missing)
      → compute_diff sha256 encode empty
          (remote ++ missing)
          (root_of sha256 encode empty remote)
          (length remote)
        ≡ missing
  unfolding compute_diff
  compute_diff-prefix remote missing differ =
      let root = root_of sha256 encode empty remote in
      let local_root = root_of sha256 encode empty (remote ++ missing) in
      let size = length-append remote missing in
      rw (str_eq-false root local_root differ) (sent_lem remote missing)

  fold_repeat :
      (hs : List String) (a : String)
      → length hs % 2 ≡ 0
      → 2 ≤ length hs
      → fold sha256 encode (length (hs ++ a ∷ [])) (hs ++ a ∷ [])
        ≡ fold sha256 encode (length (hs ++ a ∷ a ∷ [])) (hs ++ a ∷ a ∷ [])
  fold_repeat [] a even more = absurd (omega arith)
  fold_repeat (h ∷ []) a even more = absurd (omega arith)
  fold_repeat (h ∷ i ∷ hs) a even more =
      let sum = length-append hs (a ∷ []) in
      let sum' = length-append hs (a ∷ a ∷ []) in
      let above = length-pairs sha256 encode (hs ++ a ∷ a ∷ []) in
      rw (pairs_repeat sha256 encode hs a (omega arith)) (
        fold-rounds sha256 encode (suc (length (hs ++ a ∷ []))) (suc (length (hs ++ a ∷ a ∷ [])))
          (join sha256 encode h i ∷ pairs sha256 encode (hs ++ a ∷ a ∷ []))
          (omega (arith, above, sum, sum')) (omega (arith, above, sum, sum')))

  folded :
      (ms ns : List B)
      → let hs = map sha256 ms ++ map sha256 ns in
        fold sha256 encode (length (ms ++ ns)) (map sha256 (ms ++ ns))
        ≡ fold sha256 encode (length hs) hs
  folded ms ns =
      ap (λ k. fold sha256 encode k (map sha256 (ms ++ ns))) (sym (length-map sha256 (ms ++ ns)))
      ∙ ap (λ l. fold sha256 encode (length l) l) (map-append sha256 ms ns)

  root_repeat :
      (ms : List B) (m : B)
      → length ms % 2 ≡ 0
      → 2 ≤ length ms
      → root_of sha256 encode empty (ms ++ m ∷ []) ≡ root_of sha256 encode empty (ms ++ m ∷ m ∷ [])
  root_repeat ms m even more =
      let size = length-map sha256 ms in
      root_hash_lem (ms ++ m ∷ [])
      ∙ ap first_hash (
          folded ms (m ∷ [])
          ∙ fold_repeat (map sha256 ms) (sha256 m) (ground (arith, size)) (omega (arith, size))
          ∙ sym (folded ms (m ∷ m ∷ [])))
      ∙ sym (root_hash_lem (ms ++ m ∷ m ∷ []))

  -- A device that lacks only the last message, where that message repeats the one before it and the device has an odd number of messages, three or more, is sent nothing: both logs have the same root.
  compute_diff_repeat :
      (ms : List B) (m : B)
      → length ms % 2 ≡ 0
      → 2 ≤ length ms
      → compute_diff sha256 encode empty
          (ms ++ m ∷ m ∷ [])
          (root_of sha256 encode empty (ms ++ m ∷ []))
          (length (ms ++ m ∷ []))
        ≡ []
  unfolding compute_diff
  compute_diff_repeat ms m even more =
      rw (root_repeat ms m even more, eq_refl (root_of sha256 encode empty (ms ++ m ∷ m ∷ []))) refl
