-- ===== src/Depin/Merkle.antt =====
-- depin/merkle_sync.py: `MerkleTree` and `MerkleSync`. `B` is the type of byte strings; SHA-256 in
-- hexadecimal, the UTF-8 encoding and the bytes `empty` are parameters of the section.
pub mod Hashes
pub mod Diff
pub mod Proof
use Prim.Native.String.{◌++◌ as text_append}
use census_konantgit_sys_p2p.Prelude.{
  ◌∷◌, [], List, ◌++◌, zero, suc, String, Bool, Option, length, some, ℕ, true, map, none, ◌-◌,
  false, ◌+◌, if◌then◌else◌, str_eq, ◌==◌, ltb, drop, get_elem?, ◌%◌, min, leb, ◌/◌,
}
use census_konantgit_sys_p2p.Outcome.{Outcome, returned, raised, index_error}

pub data MerkleNode : Type 0 where
  leaf : (hash : String) (data_index : Option ℕ) → MerkleNode
  inner : (hash : String) (left right : MerkleNode) → MerkleNode

abbrev pub node_hash : MerkleNode → String
node_hash (leaf h _) = h
node_hash (inner h _ _) = h

abbrev pub is_leaf : MerkleNode → Bool
is_leaf (leaf _ _) = true
is_leaf (inner _ _ _) = false

pub record MerkleTree (B : Type 0) : Type 0 where
  pub messages : List B
  pub root : Option MerkleNode
  pub leaves : List MerkleNode

-- What `serialize` publishes.
pub record Serialized : Type 0 where
  pub root_hash : String
  pub leaf_count : ℕ
  pub leaves : List String

module _ {B : Type 0} (sha256 : B → String) (encode : String → B) where
  -- The leaves of the messages, numbered from `i`.
  unfoldable pub leaves_from : ℕ → List B → List MerkleNode
  leaves_from i [] = []
  leaves_from i (m ∷ ms) = leaf (sha256 m) (some i) ∷ leaves_from (i + 1) ms

  unfoldable pub parent : MerkleNode → MerkleNode → MerkleNode
  parent l r = inner (sha256 (encode (text_append (node_hash l) (node_hash r)))) l r

  -- The next level: a last node without a neighbour is paired with itself.
  unfoldable pub next_level : List MerkleNode → List MerkleNode
  unfolding parent
  next_level [] = []
  next_level (l ∷ []) = parent l l ∷ []
  next_level (l ∷ r ∷ rest) = parent l r ∷ next_level rest

  -- The `while` loop of `_build` by the rounds that are left.
  unfoldable pub build_levels : ℕ → List MerkleNode → List MerkleNode
  unfolding next_level
  build_levels zero level = level
  build_levels (suc k) [] = []
  build_levels (suc k) (n ∷ []) = n ∷ []
  build_levels (suc k) (l ∷ r ∷ rest) = build_levels k (next_level (l ∷ r ∷ rest))

-- `n ^ 1`
unfoldable pub xor_one : ℕ → ℕ
xor_one n = if n % 2 == 0 then n + 1 else n - 1

-- `_node_at(idx, level_start, level_size)`, which does not read `level_start`.
unfoldable pub node_at : ℕ → ℕ → List MerkleNode → Option MerkleNode
node_at idx level_size leaves =
    if level_size == length leaves
    then get_elem? leaves idx
    else get_elem? leaves (min idx (length leaves - 1))

-- `proof.append(sibling.hash)`, before what the later rounds append.
unfoldable pub with_hash : Option MerkleNode → Outcome (List String) → Outcome (List String)
with_hash none later = raised index_error
with_hash (some n) (raised e) = raised e
with_hash (some n) (returned later) = returned (node_hash n ∷ later)

-- The `while` loop of `get_proof` by the rounds that are left.
unfoldable pub proof_rounds :
    ℕ → List MerkleNode → (level_start level_size index : ℕ) → Outcome (List String)
unfolding xor_one node_at with_hash
proof_rounds zero leaves level_start level_size index = returned []
proof_rounds (suc k) leaves level_start level_size index =
    let sibling_idx = xor_one (index - level_start) in
    let start = level_start + level_size in
    let later = proof_rounds k leaves start ((level_size + 1) / 2) (index / 2 + start) in
    if ltb 1 level_size
    then (if ltb sibling_idx level_size
        then with_hash (node_at sibling_idx level_size leaves) later
        else later)
    else returned []

-- `get_proof(index)`
unfoldable pub get_proof : {B : Type 0} → ℕ → MerkleTree B → Outcome (List String)
unfolding proof_rounds
get_proof index t =
    if leb (length t.leaves) index
    then raised index_error
    else proof_rounds (length t.leaves) t.leaves 0 (length t.leaves) index

abbrev pub first_node : List MerkleNode → Option MerkleNode
first_node [] = none
first_node (n ∷ ns) = some n

module _ {B : Type 0} (sha256 : B → String) (encode : String → B) (empty : B) where
  -- `MerkleTree(messages)`; the rounds are as many as there are messages.
  unfoldable pub build : List B → MerkleTree B
  unfolding leaves_from build_levels
  build [] = record { messages = []; root = some (leaf (sha256 empty) none); leaves = [] }
  build (m ∷ ms) =
      let leaves = leaves_from sha256 encode 0 (m ∷ ms) in
      record {
        messages = m ∷ ms;
        root = first_node (build_levels sha256 encode (length leaves) leaves);
        leaves = leaves;
      }

  unfoldable pub root_hash : MerkleTree B → String
  root_hash t = elim t.root [ none ↦ sha256 empty | some n ↦ node_hash n ]

  -- `MerkleTree(messages).root_hash`
  abbrev pub root_of : List B → String
  root_of ms = root_hash (build ms)

  unfoldable pub serialize : MerkleTree B → Serialized
  unfolding root_hash
  serialize t = record {
    root_hash = root_hash t;
    leaf_count = length t.leaves;
    leaves = map node_hash t.leaves;
  }

  unfoldable pub read_leaves : ℕ → List String → List MerkleNode
  read_leaves i [] = []
  read_leaves i (h ∷ hs) = leaf h (some i) ∷ read_leaves (i + 1) hs

  unfoldable pub deserialize : Serialized → MerkleTree B
  unfolding read_leaves
  deserialize d = record {
    messages = map encode d.leaves;
    root = some (leaf d.root_hash none);
    leaves = read_leaves 0 d.leaves;
  }

  -- `MerkleSync(local_wal).compute_diff`; `local_wal[-diff_count:]` has a positive count.
  unfoldable pub compute_diff : List B → String → ℕ → List B
  unfolding build root_hash
  compute_diff local_wal remote_root_hash remote_leaf_count =
      let diff_count = length local_wal - remote_leaf_count in
      if str_eq remote_root_hash (root_hash (build local_wal))
      then []
      else if remote_leaf_count == 0
      then local_wal
      else if ltb 0 diff_count
      then drop (length local_wal - diff_count) local_wal
      else []
