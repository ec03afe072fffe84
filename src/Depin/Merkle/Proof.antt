-- ===== src/Depin/Merkle/Proof.antt =====
-- What `get_proof` of depin/merkle_sync.py gives.
use census_konantgit_sys_p2p.Prelude.{
  ◌∷◌, [], List, zero, suc, ℕ, String, Option, some, ◌≡◌, ◌≤◌, ◌<◌, ◌+◌, All, length, get_elem?,
  arith, refl, Bool-cases, inl, inr, ltb, leb, false, ◌⊎◌, ◌-◌, ◌==◌, get_elem?-some, ◌/◌, leb→le,
  ltb→lt, min, ltb-false,
}
use census_konantgit_sys_p2p.Depin.Merkle.{
  MerkleNode, MerkleTree, node_hash, xor_one, node_at, with_hash, proof_rounds, get_proof,
}
use census_konantgit_sys_p2p.Outcome.{Outcome, raised, returned, index_error}

-- The hash is that of a leaf.
abbrev pub IsLeafHash : List MerkleNode → String → Type 0
IsLeafHash leaves h = (i : ℕ) × (n : MerkleNode) × (get_elem? leaves i ≡ some n) × (node_hash n ≡ h)

abbrev pub IsLeafProof : List MerkleNode → Outcome (List String) → Type 0
IsLeafProof leaves r = (p : List String) × (r ≡ returned p) × All (IsLeafHash leaves) p

node_at-some :
    (idx level_size : ℕ) (leaves : List MerkleNode)
    → idx < level_size
    → level_size ≤ length leaves
    → (i : ℕ) × (n : MerkleNode) × (get_elem? leaves i ≡ some n)
      × (node_at idx level_size leaves ≡ some n)
unfolding node_at
node_at-some idx level_size leaves low size = elim (Bool-cases (level_size == length leaves)) [
  | inl e ↦
      let (n, there) = get_elem?-some leaves idx (omega (arith, low, size)) in
      (idx, n, there, rw (e, node_at) there)
  | inr e ↦
      let at = min idx (length leaves - 1) in
      let (n, there) = get_elem?-some leaves at (omega (arith, low, size)) in
      (at, n, there, rw (e, node_at) there)
]

with_hash-IsLeafProof :
    (leaves : List MerkleNode) (o : Option MerkleNode) (later : Outcome (List String)) (i : ℕ)
    (n : MerkleNode)
    → get_elem? leaves i ≡ some n
    → o ≡ some n
    → IsLeafProof leaves later
    → IsLeafProof leaves (with_hash o later)
unfolding with_hash
with_hash-IsLeafProof leaves o later i n there e (p, ended, all) =
    (node_hash n ∷ p, rw (e, ended) refl, ((i, n, there, refl), all))

proof_rounds-IsLeafProof :
    (k : ℕ) (leaves : List MerkleNode) (level_start level_size index : ℕ)
    → level_size ≤ length leaves
    → IsLeafProof leaves (proof_rounds k leaves level_start level_size index)
unfolding proof_rounds
proof_rounds-IsLeafProof zero leaves level_start level_size index size = ([], refl, tt)
proof_rounds-IsLeafProof (suc k) leaves level_start level_size index size =
    let sibling = xor_one (index - level_start) in
    let start = level_start + level_size in
    elim (Bool-cases (ltb 1 level_size)) [
      | inr e ↦ rw (e, proof_rounds) ([], refl, tt)
      | inl more ↦
          let later =
            proof_rounds-IsLeafProof k leaves start ((level_size + 1) / 2) (index / 2 + start)
              (omega (arith, size, ltb→lt 1 level_size more)) in
          elim (Bool-cases (ltb sibling level_size)) [
            | inr e ↦ rw (more, e, proof_rounds) later
            | inl low ↦
                let (i, n, there, found) =
                  node_at-some sibling level_size leaves (ltb→lt sibling level_size low) size in
                rw (more, low, proof_rounds)
                  (with_hash-IsLeafProof leaves (node_at sibling level_size leaves) _ i n there
                    found later)
          ]
    ]

leb-gt : (a b : ℕ) → leb a b ≡ false → b < a
leb-gt a b h = ground arith

-- The rounds that `get_proof` is given are enough: more of them change nothing.
pub proof_rounds-enough :
    (k n : ℕ) (leaves : List MerkleNode) (level_start level_size index : ℕ)
    → level_size ≤ k
    → k ≤ n
    → proof_rounds n leaves level_start level_size index
      ≡ proof_rounds k leaves level_start level_size index
unfolding proof_rounds
proof_rounds-enough zero zero leaves level_start level_size index few more = refl
proof_rounds-enough zero (suc n) leaves level_start level_size index few more =
    rw (ltb-false 1 level_size (omega (arith, few)), proof_rounds) refl
proof_rounds-enough (suc k) zero leaves level_start level_size index few more =
    absurd (omega (arith, more))
proof_rounds-enough (suc k) (suc n) leaves level_start level_size index few more =
    elim (Bool-cases (ltb 1 level_size)) [
      | inr e ↦ rw (e, proof_rounds) refl
      | inl large ↦
          rw
            (
              proof_rounds-enough k n leaves (level_start + level_size) ((level_size + 1) / 2)
                  (index / 2 + (level_start + level_size))
                  (omega (arith, few, ltb→lt 1 level_size large)) (omega (arith, more)),
              proof_rounds,
            )
            refl
    ]

-- For an index out of range `get_proof` raises an `IndexError`; for any other it returns a list, and every hash in it is the hash of a leaf.
pub get_proof-cases :
    {B : Type 0} (index : ℕ) (t : MerkleTree B)
    → ((length t.leaves ≤ index) × (get_proof index t ≡ raised index_error))
      ⊎ ((index < length t.leaves) × IsLeafProof t.leaves (get_proof index t))
unfolding get_proof
get_proof-cases index t = elim (Bool-cases (leb (length t.leaves) index)) [
  | inl e ↦ inl (leb→le (length t.leaves) index e, rw (e, get_proof) refl)
  | inr e ↦ inr (
    leb-gt (length t.leaves) index e,
    rw (e, get_proof)
        (proof_rounds-IsLeafProof (length t.leaves) t.leaves 0 (length t.leaves) index
          (omega arith)),
  )
]
