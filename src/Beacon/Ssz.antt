-- ===== src/Beacon/Ssz.antt =====
-- parachain/pallets/ethereum-beacon-client/src/ssz.rs: the containers whose roots are taken. An
-- array or an SSZ vector of bytes is its bytes.
use snowbridge.Shared.{ℕ, List}
use snowbridge.Shared.Bytes.{Bytes}

pub record SszBeaconBlockHeader : Type 0 where
  pub slot : ℕ
  pub proposer_index : ℕ
  pub parent_root : Bytes
  pub state_root : Bytes
  pub body_root : Bytes

pub record SszSyncCommittee : Type 0 where
  pub pubkeys : List Bytes
  pub aggregate_pubkey : Bytes

pub record SszForkData : Type 0 where
  pub current_version : Bytes
  pub genesis_validators_root : Bytes

pub record SszSigningData : Type 0 where
  pub object_root : Bytes
  pub domain : Bytes

pub record SszExecutionPayload : Type 0 where
  pub parent_hash : Bytes
  pub fee_recipient : Bytes
  pub state_root : Bytes
  pub receipts_root : Bytes
  pub logs_bloom : Bytes
  pub prev_randao : Bytes
  pub block_number : ℕ
  pub gas_limit : ℕ
  pub gas_used : ℕ
  pub timestamp : ℕ
  pub extra_data : Bytes
  pub base_fee_per_gas : ℕ
  pub block_hash : Bytes
  pub transactions_root : Bytes
