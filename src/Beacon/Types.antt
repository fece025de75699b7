-- ===== src/Beacon/Types.antt =====
-- The data types of parachain/primitives/beacon/src/lib.rs. A bounded vector is a list, and the
-- derived codecs are left out.
use snowbridge.Shared.{ℕ, List, [], replicate}
use snowbridge.Shared.Bytes.{Bytes, H256, H160}

-- `Root`, `Domain`.
abbrev pub Root : Type 0
Root = H256

abbrev pub Domain : Type 0
Domain = H256

-- `[u8; 4]`
abbrev pub ForkVersion : Type 0
ForkVersion = Bytes

pub record Fork : Type 0 where
  pub version : ForkVersion
  pub epoch : ℕ

pub record ForkVersions : Type 0 where
  pub genesis : Fork
  pub altair : Fork
  pub bellatrix : Fork

-- `PublicKey(pub [u8; 48])`
pub record PublicKey : Type 0 where
  pub key : Bytes

pub record ExecutionHeaderState : Type 0 where
  pub beacon_block_root : H256
  pub beacon_slot : ℕ
  pub block_hash : H256
  pub block_number : ℕ

pub record FinalizedHeaderState : Type 0 where
  pub beacon_block_root : H256
  pub beacon_slot : ℕ
  pub import_time : ℕ

pub record SyncCommittee : Type 0 where
  pub pubkeys : List PublicKey
  pub aggregate_pubkey : PublicKey

-- `SyncCommittee::default()`, what a value query finds under a key that was never written.
abbrev pub default_committee : SyncCommittee
default_committee = record { pubkeys = []; aggregate_pubkey = record { key = replicate 48 0 } }

pub record BeaconHeader : Type 0 where
  pub slot : ℕ
  pub proposer_index : ℕ
  pub parent_root : Root
  pub state_root : Root
  pub body_root : Root

pub record SyncAggregate : Type 0 where
  pub sync_committee_bits : Bytes
  pub sync_committee_signature : Bytes

pub record InitialSync : Type 0 where
  pub header : BeaconHeader
  pub current_sync_committee : SyncCommittee
  pub current_sync_committee_branch : List H256
  pub validators_root : Root
  pub import_time : ℕ

pub record SyncCommitteePeriodUpdate : Type 0 where
  pub attested_header : BeaconHeader
  pub next_sync_committee : SyncCommittee
  pub next_sync_committee_branch : List H256
  pub finalized_header : BeaconHeader
  pub finality_branch : List H256
  pub sync_aggregate : SyncAggregate
  pub sync_committee_period : ℕ
  pub signature_slot : ℕ
  pub block_roots_root : H256
  pub block_roots_branch : List H256

pub record FinalizedHeaderUpdate : Type 0 where
  pub attested_header : BeaconHeader
  pub finalized_header : BeaconHeader
  pub finality_branch : List H256
  pub sync_aggregate : SyncAggregate
  pub signature_slot : ℕ
  pub block_roots_root : H256
  pub block_roots_branch : List H256

pub record ExecutionPayload : Type 0 where
  pub parent_hash : H256
  pub fee_recipient : Bytes
  pub state_root : H256
  pub receipts_root : H256
  pub logs_bloom : Bytes
  pub prev_randao : H256
  pub block_number : ℕ
  pub gas_limit : ℕ
  pub gas_used : ℕ
  pub timestamp : ℕ
  pub extra_data : Bytes
  pub base_fee_per_gas : ℕ
  pub block_hash : H256
  pub transactions_root : H256

pub record HeaderUpdate : Type 0 where
  pub beacon_header : BeaconHeader
  pub execution_header : ExecutionPayload
  pub execution_branch : List H256
  pub sync_aggregate : SyncAggregate
  pub signature_slot : ℕ
  pub block_root_branch : List H256
  pub block_root_branch_header_root : H256

pub record ForkData : Type 0 where
  pub current_version : Bytes
  pub genesis_validators_root : Bytes

pub record SigningData : Type 0 where
  pub object_root : Root
  pub domain : Domain

pub record ExecutionHeader : Type 0 where
  pub parent_hash : H256
  pub fee_recipient : H160
  pub state_root : H256
  pub receipts_root : H256
  pub logs_bloom : Bytes
  pub prev_randao : H256
  pub block_number : ℕ
  pub gas_limit : ℕ
  pub gas_used : ℕ
  pub timestamp : ℕ
  pub extra_data : Bytes
  pub base_fee_per_gas : ℕ
  pub block_hash : H256
  pub transactions_root : H256
