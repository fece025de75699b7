-- ===== src/Ethereum/Ethash.antt =====
-- parachain/primitives/ethereum/src/ethashproof.rs: the Merkle proofs of pairs of DAG nodes and the
-- prover of the proofs of work. The crate `ethash` and the hash `sha2_256` are parameters; the run
-- of `hashimoto_with_hasher` is the tree of its look-ups.
pub mod Roots
pub mod Tree
pub mod Binding
pub mod Lookups
pub mod Cache
use snowbridge.Shared.{
  ℕ, zero, suc, ◌+◌, ◌-◌, ◌*◌, ◌/◌, ◌%◌, ◌^◌, Bool, true, false, not, ◌&&◌, Option, none, some,
  List, [], ◌∷◌, ◌++◌, length, get_elem?, replicate, take, drop, ltb, ◌==◌, if◌then◌else◌,
}
use mathlib.Core.List.{reverse}
use snowbridge.Shared.Bytes.{Bytes, H256, be_bytes, from_be}
use snowbridge.Shared.Outcome.{Result, ok, err, ok_or, ensure, ◌>>=◌, ◌>>◌}
use Roots.{dags_start_epoch, dags_merkle_roots}

abbrev pub epoch_length : ℕ
epoch_length = 30000

abbrev pub mix_bytes : ℕ
mix_bytes = 128

abbrev pub hash_bytes : ℕ
hash_bytes = 64

-- `as usize` of a u64 where the runtime's words have 32 bits, as in wasm.
abbrev pub as_usize : ℕ → ℕ
as_usize n = n % 2 ^ 32

abbrev pub accesses : ℕ
accesses = 64

-- `H128` and `H512`, as the numbers that their big-endian bytes spell.
abbrev pub H128 : Type 0
H128 = ℕ

abbrev pub H512 : Type 0
H512 = ℕ

pub record DoubleNodeWithMerkleProof : Type 0 where
  pub dag_nodes : H512 × H512
  pub proof : List H128

-- `checked_shr` of a `u64`.
unfoldable pub checked_shr : ℕ → ℕ → Option ℕ
checked_shr index i = if ltb i 64 then some (index / 2 ^ i) else none

module _ (sha2_256 : Bytes → H256) where
  -- The last 16 bytes of a hash.
  abbrev pub truncate_to_h128 : H256 → H128
  truncate_to_h128 arr = arr % 2 ^ 128

  unfoldable pub hash_h128 : H128 → H128 → H128
  hash_h128 l r =
      truncate_to_h128
        (sha2_256 (replicate 16 0 ++ (be_bytes 16 l ++ (replicate 16 0 ++ be_bytes 16 r))))

  unfoldable pub leaf_of : H512 × H512 → H128
  leaf_of (first, second) = truncate_to_h128 (sha2_256 (be_bytes 64 first ++ be_bytes 64 second))

  unfoldable pub step_up : Option ℕ → H128 → H128 → Option H128
  step_up none leaf node = none
  step_up (some shifted) leaf node =
      some (if shifted % 2 == 0 then hash_h128 leaf node else hash_h128 node leaf)

  -- The loop over the proof, from the position `i` on. A failure to shift is no root.
  unfoldable pub climb : ℕ → ℕ → H128 → List H128 → Option H128
  unfolding step_up
  climb index i leaf [] = some leaf
  climb index i leaf (node ∷ proof) = elim (step_up (checked_shr index i) leaf node) [
    | none ↦ none
    | some above ↦ climb index (i + 1) above proof
  ]

  unfoldable pub apply_merkle_proof : DoubleNodeWithMerkleProof → ℕ → Option H128
  apply_merkle_proof double_node index =
      climb index 0 (leaf_of double_node.dag_nodes) double_node.proof

-- A computation that looks up words of the DAG by their offset: what `hashimoto_with_hasher` does
-- with the closure that it is given.
pub data Query (R : Type 0) : Type 0 where
  done : R → Query R
  ask : ℕ → (H512 → Query R) → Query R

-- The two halves of a word, each reversed.
unfoldable pub reversed_halves : H512 → H512
reversed_halves word =
    from_be 0 (reverse (take 32 (be_bytes 64 word)) ++ reverse (drop 32 (be_bytes 64 word)))

-- `Error`, and the panic at a node that is not there.
pub data ProverError : Type 0 where
  epoch_out_of_range : ProverError
  invalid_merkle_proof : ProverError
  unexpected_number_of_nodes : ProverError
  prover_panic : ProverError

unfoldable pub dag_merkle_root : ℕ → Option H128
dag_merkle_root epoch = get_elem? dags_merkle_roots (as_usize (epoch - dags_start_epoch))

module _ (sha2_256 : Bytes → H256) (nodes : List DoubleNodeWithMerkleProof)
    (merkle_root : H128) where
  unfoldable pub has_root : Option H128 → Bool
  has_root none = false
  has_root (some computed_root) = merkle_root == computed_root

  -- `success` after the look-up of `offset` that is the `idx`-th.
  unfoldable pub still_valid : DoubleNodeWithMerkleProof → ℕ → ℕ → Bool → Bool
  unfolding has_root
  still_valid node offset idx success =
      if idx % 2 == 0
      then success && has_root (apply_merkle_proof sha2_256 node (offset / 2))
      else success

  -- The word that the look-up answers with.
  unfoldable pub answer : DoubleNodeWithMerkleProof → ℕ → H512
  answer node idx = reversed_halves (if idx % 2 == 0 then node.dag_nodes.0 else node.dag_nodes.1)

  -- The run with the closure, from the state of its two cells.
  unfoldable pub run_lookups : {R : Type 0} → Query R → ℕ → Bool → Option (R × Bool)
  run_lookups (Query.done result) index success = some (result, success)
  run_lookups (Query.ask offset next) index success = elim (get_elem? nodes (index / 2)) [
    | none ↦ none
    | some node ↦
        run_lookups (next (answer node index)) (index + 1) (still_valid node offset index success)
  ]

-- `match success.into_inner()`
unfoldable pub with_success : {R : Type 0} → Option (R × Bool) → Result ProverError R
with_success none = err prover_panic
with_success (some (results, success)) = if success then ok results else err invalid_merkle_proof

module _ (sha2_256 : Bytes → H256) (get_full_size : ℕ → ℕ)
    (hashimoto_with_hasher : H256 → ℕ → ℕ → Query (H256 × H256)) where
  unfoldable pub hashimoto_merkle :
      H256 → ℕ → ℕ → List DoubleNodeWithMerkleProof → Result ProverError (H256 × H256)
  hashimoto_merkle header_hash nonce header_number nodes = do
    ensure (length nodes == mix_bytes / hash_bytes * accesses / 2) unexpected_number_of_nodes
    merkle_root ← ok_or (dag_merkle_root (header_number / epoch_length)) epoch_out_of_range
    with_success (
        run_lookups sha2_256 nodes merkle_root
          (hashimoto_with_hasher header_hash nonce
            (get_full_size (as_usize (header_number / epoch_length))))
          0 true)
