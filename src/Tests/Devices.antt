-- ===== src/Tests/Devices.antt =====
-- Runs and instances for the device kit, depin/registry.py and depin/merkle_sync.py.
use Prim.Native.String.{◌++◌ as text_append}
use census_konantgit_sys_p2p.Prelude.{ℕ, String, [], ◌∷◌, ◌≡◌, refl, some, str_ne}
use census_konantgit_sys_p2p.Depin.Registry.{Device, DeviceRegistry, Info, get, unregister, is_live}
use census_konantgit_sys_p2p.Dict.{lookup, erase}
use census_konantgit_sys_p2p.Depin.Merkle.{
  root_hash, build_levels, compute_diff, leaves_from, root_of, build, next_level, parent,
}
use census_konantgit_sys_p2p.Depin.Merkle.Diff.{compute_diff-prefix}
use census_konantgit_sys_p2p.Prelude.{◌⊎◌, ◌≤◌, ◌<◌, length}
use census_konantgit_sys_p2p.Depin.Merkle.{
  get_proof, MerkleTree, node_at, proof_rounds, xor_one, with_hash,
}
use census_konantgit_sys_p2p.Depin.Merkle.Proof.{get_proof-cases, IsLeafProof}
use census_konantgit_sys_p2p.Outcome.{raised, returned, index_error}

-- Byte strings are texts here, and a hash marks its text.
abbrev mark : String → String
mark s = text_append "#" s

abbrev same : String → String
same s = s

compute_diff-prefix_example :
    compute_diff mark same "" ("a" ∷ "b" ∷ "c" ∷ []) (root_of mark same "" ("a" ∷ [])) 1
    ≡ "b" ∷ "c" ∷ []
unfolding root_hash build build_levels leaves_from next_level parent
compute_diff-prefix_example =
    compute_diff-prefix mark same "" ("a" ∷ []) ("b" ∷ "c" ∷ []) (str_ne "#a" "###a#b##c#c" refl)

abbrev sensor : Info ℕ
sensor = record { device_type = some "sensor"; rest = 7 }

abbrev seen_at : ℕ → String → Device ℕ
seen_at t id = record { info = sensor; device_id = id; last_seen = t }

abbrev registry : DeviceRegistry ℕ
registry = record { ttl_sec = 100; devices = ("s1", seen_at 0 "s1") ∷ ("s2", seen_at 90 "s2") ∷ [] }

removed : (get "s1" 150 registry).1.devices ≡ ("s2", seen_at 90 "s2") ∷ []
unfolding get unregister lookup erase is_live
removed = refl

abbrev four : MerkleTree String
four = build mark same "" ("a" ∷ "b" ∷ "c" ∷ "d" ∷ [])

-- The proof of the first of four messages has the hash of the second one twice.
proof_of_first : get_proof 0 four ≡ returned ("#b" ∷ "#b" ∷ [])
unfolding get_proof proof_rounds xor_one node_at with_hash build leaves_from
proof_of_first = refl

get_proof-cases_example :
    ((length four.leaves ≤ 2) × (get_proof 2 four ≡ raised index_error))
    ⊎ ((2 < length four.leaves) × IsLeafProof four.leaves (get_proof 2 four))
get_proof-cases_example = get_proof-cases 2 four
