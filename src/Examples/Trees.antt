-- ===== src/Examples/Trees.antt =====
-- Examples for the Merkle trees of the channels and of the beacon chain.
use snowbridge.Shared.{
  ℕ, zero, suc, ◌+◌, ◌*◌, ◌≤◌, true, some, List, [], ◌∷◌, length, ◌≡◌, ◌⊎◌, refl, arith,
}
use snowbridge.Shared.Bytes.{Bytes, H256, be_bytes}
use snowbridge.Merkle.{
  MerkleProof, value, merkle_root, merkle_proof, merkelize, verify_proof, ProofCollection,
  proof_collector, combine,
}
use snowbridge.Merkle.Climb.{top}
use snowbridge.Merkle.RoundTrip.{verify_proof-merkle_proof, length-merkle_proof}
use snowbridge.Merkle.Climb.{merkelize-top}
use snowbridge.Merkle.Binding.{verify_proof_binding}
use snowbridge.Merkle.Binding as Merkle
use snowbridge.Beacon.Branch.{hash_pair, is_valid_merkle_branch, branch_loop}
use snowbridge.Beacon.Branch.Position.{
  siblings, is_valid_merkle_branch-siblings, is_valid_merkle_branch_binding,
}
use snowbridge.Beacon.Branch.Position as Branch
use snowbridge.Examples.Toy.{toy_hash, toy_hash_lt, three_leaves}

verify_proof-merkle_proof_example :
    (p : MerkleProof) × (merkle_proof toy_hash three_leaves 2 ≡ some p)
    × (p.root ≡ merkle_root toy_hash three_leaves)
    × (p.number_of_leaves ≡ 3)
    × (p.leaf_index ≡ 2)
    × (p.leaf ≡ 4 ∷ 5 ∷ 6 ∷ [])
    × (verify_proof toy_hash p.root p.proof p.number_of_leaves p.leaf_index (value p.leaf) ≡ true)
verify_proof-merkle_proof_example = verify_proof-merkle_proof toy_hash three_leaves 2 refl

last_leaf : (p : MerkleProof) × (merkle_proof toy_hash three_leaves 2 ≡ some p)
last_leaf = let made = verify_proof-merkle_proof toy_hash three_leaves 2 refl in (made.0, made.1)

length-merkle_proof_example : length last_leaf.0.proof ≤ 2
length-merkle_proof_example =
    length-merkle_proof toy_hash three_leaves 2 2 last_leaf.0 (omega arith) last_leaf.1

merkelize-top_example :
    (c : ProofCollection) × (merkelize toy_hash proof_collector
        (9 ∷ 8 ∷ 7 ∷ [])
        (record { proof = []; position = 1 })
      ≡ some (top toy_hash 3 (9 ∷ 8 ∷ 7 ∷ []), c))
merkelize-top_example =
    merkelize-top toy_hash proof_collector (9 ∷ 8 ∷ 7 ∷ []) (record { proof = []; position = 1 })

abbrev leaf_one : Bytes
leaf_one = 1 ∷ 2 ∷ []

abbrev two_nodes : List H256
two_nodes = 5 ∷ 6 ∷ []

abbrev four : H256
four = 4

-- A root over the leaf `1 2` and a sibling.
abbrev pair_root : H256
pair_root = combine toy_hash (toy_hash (1 ∷ 2 ∷ [])) 5

verify_proof_binding_example :
    (leaf_one ≡ leaf_one) ⊎ Merkle.Clash toy_hash toy_hash_lt leaf_one leaf_one (5 ∷ [])
unfolding verify_proof combine be_bytes
verify_proof_binding_example =
    verify_proof_binding toy_hash toy_hash_lt pair_root (5 ∷ []) 2 3 1 0 (1 ∷ 2 ∷ []) (1 ∷ 2 ∷ [])
      (omega arith, tt) refl refl

-- A tree over the leaves `place * 3`.
abbrev tree_node : ℕ → ℕ → H256
tree_node zero place = place * 3
tree_node (suc level) place =
    hash_pair toy_hash (tree_node level (2 * place)) (tree_node level (2 * place + 1))

is_valid_merkle_branch-siblings_example :
    is_valid_merkle_branch toy_hash
      (tree_node 0 5)
      (siblings toy_hash tree_node 3 0 5)
      3
      5
      (tree_node 3 0)
    ≡ true
is_valid_merkle_branch-siblings_example =
    is_valid_merkle_branch-siblings toy_hash tree_node (λ level place. refl) 3 5 (omega arith)
      (omega arith)

is_valid_merkle_branch_binding_example :
    (four ≡ four) ⊎ Branch.Clash toy_hash toy_hash_lt 1 (5 ∷ []) (5 ∷ []) four four
unfolding is_valid_merkle_branch branch_loop hash_pair be_bytes
is_valid_merkle_branch_binding_example =
    is_valid_merkle_branch_binding toy_hash toy_hash_lt 4 4 (5 ∷ []) (5 ∷ []) 1 1
      (hash_pair toy_hash 5 4) (omega arith) (omega arith) (omega arith) (omega arith, tt)
      (omega arith, tt) refl refl
