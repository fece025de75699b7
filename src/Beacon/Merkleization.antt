-- ===== src/Beacon/Merkleization.antt =====
-- parachain/pallets/ethereum-beacon-client/src/merkleization.rs: the conversions to SSZ containers,
-- their roots, and the bits of a sync committee.
use snowbridge.Shared.{ℕ, Bool, List, map, length, ◌==◌, if◌then◌else◌}
use snowbridge.Shared.Bytes.{Bytes, H256, h256_bytes, from_be}
use snowbridge.Shared.Outcome.{Result, ok, err, map_err, ◌>>=◌}
use snowbridge.Beacon.Types.{
  PublicKey, BeaconHeader, SyncCommittee, ForkData, SigningData, ExecutionPayload,
}
use snowbridge.Beacon.Ssz.{SszBeaconBlockHeader, SszExecutionPayload}
use snowbridge.Beacon.Crates.{
  Crates, DeserializeError, expected_further_input, additional_input, other_input, NodeError,
}

pub data MerkleizationError : Type 0 where
  hash_tree_root_error hash_tree_root_invalid_bytes invalid_length : MerkleizationError
  further_input_expected input_left : ℕ → ℕ → MerkleizationError
  invalid_input deserialize_error list_error : MerkleizationError

-- `as_bytes().try_into()?` into `[u8; 32]`
array_32 : Bytes → Result MerkleizationError Bytes
array_32 bytes = if length bytes == 32 then ok bytes else err invalid_length

unfoldable pub ssz_beacon_header : BeaconHeader → Result MerkleizationError SszBeaconBlockHeader
unfolding array_32
ssz_beacon_header header = do
  parent_root ← array_32 (h256_bytes header.parent_root)
  state_root ← array_32 (h256_bytes header.state_root)
  body_root ← array_32 (h256_bytes header.body_root)
  ok (record {
    slot = header.slot;
    proposer_index = header.proposer_index;
    parent_root = parent_root;
    state_root = state_root;
    body_root = body_root;
  })

-- The generic `hash_tree_root`, of the container's own one: 32 bytes, as the number they spell.
unfoldable pub hash_tree_root :
    {T : Type 0} → (T → Result NodeError Bytes) → T → Result MerkleizationError H256
hash_tree_root node_of object = elim (node_of object) [
  | ok node ↦ if length node == 32 then ok (from_be 0 node) else err hash_tree_root_invalid_bytes
  | err e ↦ err hash_tree_root_error
]

unfoldable pub bit_value : Bool → ℕ
bit_value bit = if bit then 1 else 0

bits_error : DeserializeError → MerkleizationError
bits_error (expected_further_input provided expected) = further_input_expected provided expected
bits_error (additional_input provided expected) = input_left provided expected
bits_error (other_input e) = invalid_input

module _ (crates : Crates) where
  open crates use {
    bitvector, bytes_vector, keys_vector, bytes_list, u256_from_bytes_le, as_byte_slice,
  }

  unfoldable pub ssz_execution_payload :
      ExecutionPayload → Result MerkleizationError SszExecutionPayload
  unfolding array_32
  ssz_execution_payload payload = do
    parent_hash ← array_32 (h256_bytes payload.parent_hash)
    state_root ← array_32 (h256_bytes payload.state_root)
    receipts_root ← array_32 (h256_bytes payload.receipts_root)
    prev_randao ← array_32 (h256_bytes payload.prev_randao)
    extra_data ← map_err (bytes_list 32 payload.extra_data) list_error
    base_fee_per_gas ←
        map_err (u256_from_bytes_le (as_byte_slice payload.base_fee_per_gas)) deserialize_error
    block_hash ← array_32 (h256_bytes payload.block_hash)
    transactions_root ← array_32 (h256_bytes payload.transactions_root)
    ok (record {
      parent_hash = parent_hash;
      fee_recipient = bytes_vector 20 payload.fee_recipient;
      state_root = state_root;
      receipts_root = receipts_root;
      logs_bloom = bytes_vector 256 payload.logs_bloom;
      prev_randao = prev_randao;
      block_number = payload.block_number;
      gas_limit = payload.gas_limit;
      gas_used = payload.gas_used;
      timestamp = payload.timestamp;
      extra_data = extra_data;
      base_fee_per_gas = base_fee_per_gas;
      block_hash = block_hash;
      transactions_root = transactions_root;
    })

  unfoldable pub hash_tree_root_beacon_header : BeaconHeader → Result MerkleizationError H256
  hash_tree_root_beacon_header header = do
    ssz_header ← ssz_beacon_header header
    hash_tree_root crates.beacon_block_header_node ssz_header

  unfoldable pub hash_tree_root_execution_header : ExecutionPayload → Result MerkleizationError H256
  hash_tree_root_execution_header payload = do
    ssz_payload ← ssz_execution_payload payload
    hash_tree_root crates.execution_payload_node ssz_payload

  unfoldable pub hash_tree_root_sync_committee : ℕ → SyncCommittee → Result MerkleizationError H256
  hash_tree_root_sync_committee sync_committee_size committee =
      hash_tree_root crates.sync_committee_node (record {
        pubkeys =
            keys_vector sync_committee_size
              (map (λ k. bytes_vector 48 (PublicKey.key k)) committee.pubkeys);
        aggregate_pubkey = bytes_vector 48 committee.aggregate_pubkey.key;
      })

  unfoldable pub hash_tree_root_fork_data : ForkData → Result MerkleizationError H256
  hash_tree_root_fork_data fork_data = hash_tree_root crates.fork_data_node (record {
    current_version = fork_data.current_version;
    genesis_validators_root = fork_data.genesis_validators_root;
  })

  unfoldable pub hash_tree_root_signing_data : SigningData → Result MerkleizationError H256
  hash_tree_root_signing_data signing_data = hash_tree_root crates.signing_data_node (record {
    object_root = h256_bytes signing_data.object_root;
    domain = h256_bytes signing_data.domain;
  })

  unfoldable pub get_sync_committee_bits : ℕ → Bytes → Result MerkleizationError (List ℕ)
  unfolding bits_error bit_value
  get_sync_committee_bits sync_committee_size bits_hex =
      elim (bitvector sync_committee_size bits_hex) [
        | ok bitv ↦ ok (map bit_value bitv)
        | err e ↦ err (bits_error e)
      ]
