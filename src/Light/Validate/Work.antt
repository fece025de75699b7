-- ===== src/Light/Validate/Work.antt =====
-- The work of a header that is verified with the prover of
-- parachain/primitives/ethereum/src/ethashproof.rs.
use snowbridge.Shared.{ℕ, ◌/◌, ◌%◌, ◌^◌, ◌<◌, some, List, All, ◌≡◌, ◌⊎◌, inl, inr}
use snowbridge.Shared.Bytes.{Bytes, H256}
use snowbridge.Ethereum.Header.{Header, compute_partial_hash, mix_hash, nonce}
use snowbridge.Ethereum.Ethash.{H128, H512, DoubleNodeWithMerkleProof, Query, dag_merkle_root}
use snowbridge.Ethereum.Ethash.Tree.{IsDag}
use snowbridge.Ethereum.Ethash.Lookups.{IsSized, Clash, Paired, run_dag, hashimoto_merkle-run_dag}
use snowbridge.Light.{Setup}
use snowbridge.Light.Validate.{with_ethash}
use snowbridge.Light.Validate.Accepted.{IsWorked}

module _ (sha2_256 : Bytes → H256) (get_full_size : ℕ → ℕ)
    (hashimoto_with_hasher : H256 → ℕ → ℕ → Query (H256 × H256)) (c : Setup) where
  -- Where the root of the epoch is that of the tree over a DAG, the look-ups of `ethash` come in
  -- pairs within the tree, and the nodes of the proof are in their widths, a header that proves its
  -- work has a mix hash and a result below its boundary that `hashimoto` gives over the DAG itself,
  -- or an input that is hashed for the proof and a different one of the tree have one truncated hash.
  pub IsWorked-run_dag :
      (dag : ℕ → H512) (node : ℕ → ℕ → H128) (levels : ℕ) (header : Header)
      (proof : List DoubleNodeWithMerkleProof) (real : IsDag sha2_256 dag node)
      → dag_merkle_root (header.number / 30000) ≡ some (node levels 0)
      → All IsSized proof
      → ((hash : H256) (work size : ℕ) → Paired levels (hashimoto_with_hasher hash work size))
      → IsWorked (with_ethash sha2_256 get_full_size hashimoto_with_hasher c) header proof
      → Clash sha2_256 proof dag node real
        ⊎ ((work : ℕ) × (mixed : H256) × (result : H256) × (nonce c.crate header ≡ some work)
            × (mix_hash c.crate header ≡ some mixed)
            × ((mixed, result)
                ≡ run_dag dag (
                    hashimoto_with_hasher
                      (compute_partial_hash c.keccak c.stream_out header)
                      work
                      (get_full_size (header.number / 30000 % 2 ^ 32))))
            × (result < c.cross_boundary header.difficulty))
  unfolding IsWorked
  IsWorked-run_dag dag node levels header proof real root_e sized paired
        (work, mixed, result, nonce_e, mix_e, accepted, below) =
      let partial = compute_partial_hash c.keccak c.stream_out header in
      elim (hashimoto_merkle-run_dag sha2_256 get_full_size hashimoto_with_hasher dag node levels
        partial work header.number proof (mixed, result) real root_e sized
        (paired partial work (get_full_size (header.number / 30000 % 2 ^ 32))) accepted) [
          | inl clash ↦ inl clash
          | inr same ↦ inr (work, mixed, result, nonce_e, mix_e, same, below)
        ]
