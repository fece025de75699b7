-- ===== src/Examples/Work.antt =====
-- Examples for the proofs of work.
use snowbridge.Shared.{
  ℕ, zero, suc, ◌+◌, ◌*◌, ◌/◌, some, [], ◌∷◌, replicate, ◌≡◌, ◌⊎◌, refl, All, arith,
}
use snowbridge.Shared.Bytes.{Bytes, H256, be_bytes}
use snowbridge.Shared.Outcome.{ok}
use snowbridge.Ethereum.Ethash.{
  H128, H512, DoubleNodeWithMerkleProof, Query, hash_h128, leaf_of, checked_shr, step_up, climb,
  apply_merkle_proof, reversed_halves, has_root, still_valid, answer, run_lookups, with_success,
  dag_merkle_root, hashimoto_merkle,
}
use snowbridge.Ethereum.Ethash.Roots.{dags_merkle_roots}
use snowbridge.Ethereum.Ethash.Tree.{IsDag}
use snowbridge.Ethereum.Ethash.Lookups.{Clash, Paired, IsSized, run_dag, hashimoto_merkle-run_dag}

-- A hash that is the root of the first epoch, so that a small tree has the root.
abbrev root_hash : Bytes → H256
root_hash bytes = 0x55b891e842e58f58956a847cbbf67821

abbrev toy_dag : ℕ → H512
toy_dag i = 0

abbrev toy_node : ℕ → ℕ → H128
toy_node level place = 0x55b891e842e58f58956a847cbbf67821

toy_dag-IsDag : IsDag root_hash toy_dag toy_node
unfolding leaf_of hash_h128
toy_dag-IsDag = record { words = λ i. omega arith; leaves = λ i. refl; inner = λ level place. refl }

-- Two look-ups, of the words of the second place.
abbrev toy_query : H256 → ℕ → ℕ → Query (H256 × H256)
toy_query header_hash work size =
    Query.ask (2 * 1) (λ first. Query.ask (2 * 1 + 1) (λ second. Query.done (first, header_hash)))

abbrev toy_proof : DoubleNodeWithMerkleProof
toy_proof = record { dag_nodes = (0, 0); proof = 5 ∷ [] }

replicate-IsSized : (n : ℕ) → All IsSized (replicate n toy_proof)
replicate-IsSized zero = tt
replicate-IsSized (suc n) = ((omega arith, omega arith, (omega arith, tt)), replicate-IsSized n)

toy_query-Paired : Paired 1 (toy_query 9 0 0)
toy_query-Paired =
    Paired.pair 1 (λ first second. Query.done (first, 9)) (omega arith)
      (λ first second. Paired.ends (first, 9))

first_root : dag_merkle_root (3 / 30000) ≡ some (toy_node 1 0)
unfolding dag_merkle_root dags_merkle_roots
first_root = refl

worked :
    hashimoto_merkle root_hash (λ epoch. 0) toy_query 9 0 3 (replicate 64 toy_proof) ≡ ok (0, 9)
unfolding hashimoto_merkle dag_merkle_root dags_merkle_roots with_success run_lookups still_valid
    has_root answer reversed_halves apply_merkle_proof climb step_up checked_shr leaf_of hash_h128
    be_bytes
worked = refl

hashimoto_merkle-run_dag_example :
    Clash root_hash (replicate 64 toy_proof) toy_dag toy_node toy_dag-IsDag
    ⊎ ((0, 9) ≡ run_dag toy_dag (toy_query 9 0 0))
hashimoto_merkle-run_dag_example =
    hashimoto_merkle-run_dag root_hash (λ epoch. 0) toy_query toy_dag toy_node 1 9 0 3
      (replicate 64 toy_proof) (0, 9) toy_dag-IsDag first_root (replicate-IsSized 64)
      toy_query-Paired worked
