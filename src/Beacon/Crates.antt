-- ===== src/Beacon/Crates.antt =====
-- What the beacon client uses of other crates, as a record of operations: `sha2_256` of sp_io,
-- the SSZ containers and Merkleization of ssz_rs, and the signatures of milagro_bls.
use snowbridge.Shared.{ℕ, Bool, List}
use snowbridge.Shared.Bytes.{Bytes, H256}
use snowbridge.Shared.Outcome.{Result}
use snowbridge.Beacon.Ssz.{
  SszBeaconBlockHeader, SszSyncCommittee, SszForkData, SszSigningData, SszExecutionPayload,
}

-- `ssz_rs::DeserializeError`; the code tells two of its cases from the others.
pub data DeserializeError : Type 0 where
  expected_further_input additional_input : ℕ → ℕ → DeserializeError
  other_input : ℕ → DeserializeError

-- `ssz_rs::MerkleizationError`, which the code only maps away.
pub data NodeError : Type 0 where
  node_error : ℕ → NodeError

-- `milagro_bls::AmclError`; the code tells one of its cases from the others.
pub data AmclError : Type 0 where
  invalid_point : AmclError
  other_amcl : ℕ → AmclError

pub record Crates : Type 1 where
  pub sha2_256 : Bytes → H256
  -- `Bitvector::<N>::deserialize(..)`, and the bits that it iterates over
  pub bitvector : ℕ → Bytes → Result DeserializeError (List Bool)
  -- `Vector::<u8, N>::from_iter(..)`, `Vector::<Vector<u8, 48>, N>::from_iter(..)`
  pub bytes_vector : ℕ → Bytes → Bytes
  pub keys_vector : ℕ → List Bytes → List Bytes
  -- `List::<u8, N>::try_from(..)`, `U256::try_from_bytes_le(..)`, `U256::as_byte_slice()`
  pub bytes_list : ℕ → Bytes → Result DeserializeError Bytes
  pub u256_from_bytes_le : Bytes → Result DeserializeError ℕ
  pub as_byte_slice : ℕ → Bytes
  -- `hash_tree_root()` of each container
  pub beacon_block_header_node : SszBeaconBlockHeader → Result NodeError Bytes
  pub sync_committee_node : SszSyncCommittee → Result NodeError Bytes
  pub fork_data_node : SszForkData → Result NodeError Bytes
  pub signing_data_node : SszSigningData → Result NodeError Bytes
  pub execution_payload_node : SszExecutionPayload → Result NodeError Bytes
  -- the types and functions of milagro_bls
  pub Signature : Type 0
  pub AggregateSignature : Type 0
  pub BlsPublicKey : Type 0
  pub AggregatePublicKey : Type 0
  pub signature_from_bytes : Bytes → Result AmclError Signature
  pub from_signature : Signature → AggregateSignature
  pub from_bytes_unchecked : Bytes → Result AmclError BlsPublicKey
  pub into_aggregate : List BlsPublicKey → Result AmclError AggregatePublicKey
  pub fast_aggregate_verify_pre_aggregated : AggregateSignature → Bytes → AggregatePublicKey → Bool
