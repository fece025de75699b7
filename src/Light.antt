-- ===== src/Light.antt =====
-- The light client of parachain/pallets/ethereum-light-client/src/lib.rs: what it is built with,
-- its storage, and the walk over the ancestors of a header. The children have its calls.
pub mod Chain
pub mod Prune
pub mod Validate
pub mod Import
pub mod Initialize
pub mod Verify
pub mod Calls
use snowbridge.Shared.{
  ℕ, zero, suc, Bool, Option, none, some, List, [], ◌∷◌, ◌++◌, length, ltb, ◌==◌, if◌then◌else◌,
}
use snowbridge.Shared.Bytes.{Bytes, H256}
use snowbridge.Shared.Outcome.{Result}
use snowbridge.Shared.Storage.{StorageMap, insert, value_or}
use snowbridge.Ethereum.Rlp.{RlpCrate}
use snowbridge.Ethereum.Header.{HeaderId, Header, RlpItem, compute_hash}
use snowbridge.Ethereum.Difficulty.{DifficultyConfig}
use snowbridge.Ethereum.Ethash.{DoubleNodeWithMerkleProof, ProverError}

-- The trait `Config`, the crates that the pallet calls, and the prover of the proofs of work.
pub record Setup : Type 1 where
  pub descendants_until_finalized : ℕ  -- u8
  pub difficulty_config : DifficultyConfig
  pub verify_pow : Bool
  pub max_headers_for_number : ℕ  -- u32
  pub crate : RlpCrate
  pub keccak : Bytes → H256
  pub stream_out : ℕ → List RlpItem → Bytes
  pub hashimoto_merkle :
      H256 → ℕ → ℕ → List DoubleNodeWithMerkleProof → Result ProverError (H256 × H256)
  pub cross_boundary : ℕ → ℕ

pub record StoredHeader : Type 0 where
  pub submitter : Option H256
  pub header : Header
  pub total_difficulty : ℕ
  pub finalized : Bool

pub record PruningRange : Type 0 where
  pub oldest_unpruned_block : ℕ
  pub oldest_block_to_keep : ℕ

pub record LightClient : Type 0 where
  pub best_block : HeaderId × ℕ
  pub blocks_to_prune : PruningRange
  pub finalized_block : HeaderId
  pub headers : StorageMap StoredHeader
  pub headers_by_number : StorageMap (List H256)

-- The errors of the pallet, the errors that are strings in the code, that of an origin, a panic of
-- `U256` arithmetic, and the end of the fuel of a search.
pub data Error : Type 0 where
  ancient_header : Error
  missing_header : Error
  missing_parent_header : Error
  duplicate_header : Error
  header_not_finalized : Error
  header_on_stale_fork : Error
  invalid_header : Error
  invalid_proof : Error
  decode_failed : Error
  at_max_headers_for_number : Error
  unknown : Error
  total_difficulty_overflow : Error
  fork_not_finalized : Error
  fork_after_finalized : Error
  fork_without_descendants : Error
  could_not_append_header : Error
  need_one_header : Error
  headers_out_of_order : Error
  bad_origin : Error
  arithmetic_panic : Error
  out_of_fuel : Error

abbrev pub Checked : Type 0 → Type 0
Checked A = Result Error A

abbrev pub finalized_headers_to_keep : ℕ
finalized_headers_to_keep = 50000

abbrev pub headers_to_prune_in_single_import : ℕ
headers_to_prune_in_single_import = 8

abbrev pub hash_of : Setup → Header → H256
hash_of c header = compute_hash c.keccak c.stream_out header

-- A bounded vector of hashes that grows by one: `try_append`.
unfoldable pub try_append : ℕ → ℕ → H256 → StorageMap (List H256) → Option (StorageMap (List H256))
try_append bound number hash by_number =
    if ltb (length (value_or [] (by_number number))) bound
    then some (insert number (value_or [] (by_number number) ++ hash ∷ []) by_number)
    else none

-- How a search over the ancestors ends. `spent` is the end of the fuel, which the code has not.
pub data Found : Type 0 where
  found : H256 → Found
  not_found : Found
  spent : Found

-- `ancestry(hash).find(|(_, ancestor)| ancestor.number == number)`, on fuel.
unfoldable pub find_at_number : ℕ → StorageMap StoredHeader → ℕ → H256 → Found
find_at_number zero headers number hash = Found.spent
find_at_number (suc fuel) headers number hash = elim (headers hash) [
  | none ↦ Found.not_found
  | some stored ↦
      let rest = find_at_number fuel headers number stored.header.parent_hash in
      if stored.header.number == number then Found.found hash else rest
]

-- The item of `ancestry(hash)` with that many items before it.
unfoldable pub find_finalized_ancestor : StorageMap StoredHeader → H256 → ℕ → Option (H256 × Header)
find_finalized_ancestor headers hash zero = elim (headers hash) [
  | none ↦ none
  | some stored ↦ some (hash, stored.header)
]
find_finalized_ancestor headers hash (suc required_descendants) = elim (headers hash) [
  | none ↦ none
  | some stored ↦ find_finalized_ancestor headers stored.header.parent_hash required_descendants
]

-- Storage that nothing was written to.
abbrev pub empty_client : LightClient
empty_client = record {
  best_block = (record { number = 0; hash = 0 }, 0);
  blocks_to_prune = record { oldest_unpruned_block = 0; oldest_block_to_keep = 0 };
  finalized_block = record { number = 0; hash = 0 };
  headers = λ hash. none;
  headers_by_number = λ number. none;
}
