-- ===== src/Beacon/Client.antt =====
-- The calls of the beacon client, parachain/pallets/ethereum-beacon-client/src/lib.rs: the
-- initial sync of the genesis build, the four extrinsics and what they process.
pub mod Accepted
pub mod Finality
pub mod Execution
pub mod Periods
pub mod Blocking
pub mod Runs
pub mod Invariants
use snowbridge.Shared.{
  ℕ, ◌+◌, ◌%◌, ◌^◌, Bool, true, false, Option, none, some, not, ◌&&◌, ◌||◌, List, [], ◌∷◌,
  replicate, length, ltb, leb, ◌==◌, if◌then◌else◌,
}
use snowbridge.Shared.Bytes.{Bytes, H256, H160, from_be}
use snowbridge.Shared.Outcome.{Result, ok, err, map_err}
use snowbridge.Shared.Exec.{
  Exec, pure, lift, gets, fail, transactional, modify, require, ◌>>=◌, ◌>>◌,
}
use snowbridge.Shared.Storage.{StorageMap, insert, contains_key}
use snowbridge.Core.{Origin, root, signed, unsigned}
use snowbridge.Beacon.Types.{
  SyncCommittee, BeaconHeader, SyncAggregate, InitialSync, SyncCommitteePeriodUpdate,
  FinalizedHeaderUpdate, HeaderUpdate, ExecutionPayload, ExecutionHeader, FinalizedHeaderState,
  ExecutionHeaderState,
}
use snowbridge.Beacon.Preset.{
  Preset, current_sync_committee_index, current_sync_committee_depth, next_sync_committee_depth,
  next_sync_committee_index, finalized_root_depth, finalized_root_index, block_roots_depth,
  block_roots_index, execution_header_depth, execution_header_index,
}
use snowbridge.Beacon.Crates.{Crates}
use snowbridge.Beacon.Merkleization.{
  hash_tree_root_beacon_header, hash_tree_root_execution_header, get_sync_committee_bits,
}
use snowbridge.Beacon.Branch.{is_valid_merkle_branch}
use snowbridge.Beacon.Store.{
  Config, Client, Call, Error, committee_at, block_root_at, store_block_root, store_sync_committee,
  store_validators_root, add_finalized_header_slot, store_finalized_header, store_execution_header,
  bad_origin, bridge_blocked, expected_finalized_header_not_stored, unexpected_header_slot_position,
  invalid_ancestry_merkle_proof, header_hash_tree_root_failed, invalid_sync_committee_bits,
  invalid_sync_committee_header_update, sync_committee_missing,
  invalid_sync_committee_period_update_with_duplication,
  invalid_sync_committee_period_update_with_gap, invalid_signature_slot,
  invalid_attested_header_slot, duplicate_finalized_header_update, invalid_finalized_period_update,
  header_not_finalized, invalid_execution_header_update, block_body_hash_tree_root_failed,
  invalid_execution_header_proof,
}
use snowbridge.Beacon.Signature.{
  Checked, compute_current_sync_period, sync_committee_participation_is_supermajority,
  get_sync_committee_for_period, verify_header, verify_sync_committee, verify_signed_header,
  verify_signed_by_period,
}

ensure_signed : Origin → Call Unit
ensure_signed root = fail bad_origin
ensure_signed (signed account) = pure tt
ensure_signed unsigned = fail bad_origin

ensure_root : Origin → Call Unit
ensure_root root = pure tt
ensure_root (signed account) = fail bad_origin
ensure_root unsigned = fail bad_origin

abbrev pub check_bridge_blocked_state : Call Unit
check_bridge_blocked_state s = (if s.blocked then err bridge_blocked else ok tt, s)

-- `FinalizedBeaconHeaders::get(..)` for a header whose branch is empty.
finalized_at_slot : ℕ → Option BeaconHeader → Checked Unit
finalized_at_slot block_slot none = err expected_finalized_header_not_stored
finalized_at_slot block_slot (some header) =
    if BeaconHeader.slot header == block_slot then ok tt else err unexpected_header_slot_position

-- The branch into the block roots of a finalized header.
below_finalized : Config → List H256 → ℕ → H256 → H256 → Checked Unit
below_finalized c block_root_proof block_slot beacon_block_root finalized_block_root_hash =
    let index_in_array = block_slot % c.max_slots_per_historical_root in
    let leaf_index = (c.max_slots_per_historical_root + index_in_array) % 2 ^ 64 in
    if finalized_block_root_hash == 0
    then err expected_finalized_header_not_stored
    else if is_valid_merkle_branch c.crates.sha2_256 beacon_block_root block_root_proof
        c.preset.block_root_at_index_proof_depth leaf_index finalized_block_root_hash
    then ok tt
    else err invalid_ancestry_merkle_proof

unfoldable pub ancestry_proof : Config → Client → List H256 → ℕ → H256 → H256 → Checked Unit
unfolding finalized_at_slot below_finalized
ancestry_proof c s block_root_proof block_slot beacon_block_root finalized_header_root =
    if length block_root_proof == 0
    then finalized_at_slot block_slot (s.finalized_beacon_headers beacon_block_root)
    else below_finalized c block_root_proof block_slot beacon_block_root
        (block_root_at s finalized_header_root)

-- The address of a fee recipient of 20 bytes, and the zero address for any other.
unfoldable pub fee_recipient_address : Bytes → H160
fee_recipient_address fee_slice =
    if length fee_slice == 20 then from_be 0 fee_slice else from_be 0 (replicate 20 0)

abbrev pub execution_header_of : ExecutionPayload → ExecutionHeader
execution_header_of payload = record {
  parent_hash = payload.parent_hash;
  fee_recipient = fee_recipient_address payload.fee_recipient;
  state_root = payload.state_root;
  receipts_root = payload.receipts_root;
  logs_bloom = payload.logs_bloom;
  prev_randao = payload.prev_randao;
  block_number = payload.block_number;
  gas_limit = payload.gas_limit;
  gas_used = payload.gas_used;
  timestamp = payload.timestamp;
  extra_data = payload.extra_data;
  base_fee_per_gas = payload.base_fee_per_gas;
  block_hash = payload.block_hash;
  transactions_root = payload.transactions_root;
}

module _ (c : Config) where
  open c use {crates, preset}

  beacon_header_root : BeaconHeader → Result Error H256
  beacon_header_root header =
      map_err (hash_tree_root_beacon_header crates header) header_hash_tree_root_failed

  sync_committee_bits_of : SyncAggregate → Result Error (List ℕ)
  sync_committee_bits_of aggregate =
      map_err
        (get_sync_committee_bits crates preset.sync_committee_size aggregate.sync_committee_bits)
        invalid_sync_committee_bits

  unfoldable pub process_initial_sync : InitialSync → Call Unit
  unfolding beacon_header_root
  process_initial_sync initial_sync = do
    lift (
        verify_sync_committee crates preset.sync_committee_size initial_sync.current_sync_committee
          initial_sync.current_sync_committee_branch initial_sync.header.state_root
          current_sync_committee_depth current_sync_committee_index)
    block_root ← lift (beacon_header_root initial_sync.header)
    modify (
        store_sync_committee (compute_current_sync_period preset initial_sync.header.slot)
          initial_sync.current_sync_committee)
    modify (store_validators_root initial_sync.validators_root)
    modify (λ s. record s {
      finalized_beacon_headers = insert block_root initial_sync.header s.finalized_beacon_headers;
    })
    add_finalized_header_slot c initial_sync.header.slot
    modify (λ s. record s {
      latest_finalized_header_state = record {
        beacon_block_root = block_root;
        beacon_slot = initial_sync.header.slot;
        import_time = initial_sync.import_time;
      };
    })

  unfoldable pub process_sync_committee_period_update : ℕ → SyncCommitteePeriodUpdate → Call Unit
  unfolding beacon_header_root sync_committee_bits_of
  process_sync_committee_period_update now update = do
    require
        (ltb update.attested_header.slot update.signature_slot
          && leb update.finalized_header.slot update.attested_header.slot)
        invalid_sync_committee_header_update
    bits ← lift (sync_committee_bits_of update.sync_aggregate)
    lift (sync_committee_participation_is_supermajority bits)
    lift (
        verify_sync_committee crates preset.sync_committee_size update.next_sync_committee
          update.next_sync_committee_branch update.attested_header.state_root
          next_sync_committee_depth next_sync_committee_index)
    block_root ← lift (beacon_header_root update.finalized_header)
    lift (
        verify_header crates block_root update.finality_branch update.attested_header.state_root
          finalized_root_depth finalized_root_index)
    let current_period = compute_current_sync_period preset update.attested_header.slot
    latest_committee_period ← gets (λ s. s.latest_sync_committee_period)
    has_current ← gets (λ s. contains_key s.sync_committees current_period)
    require has_current sync_committee_missing
    let next_period = (current_period + 1) % 2 ^ 64
    has_next ← gets (λ s. contains_key s.sync_committees next_period)
    require (not has_next) invalid_sync_committee_period_update_with_duplication
    require (next_period == (latest_committee_period + 1) % 2 ^ 64)
        invalid_sync_committee_period_update_with_gap
    λ s. (
      verify_signed_by_period c s current_period bits update.sync_aggregate.sync_committee_signature
          update.attested_header update.signature_slot,
      s,
    )
    require
        (is_valid_merkle_branch crates.sha2_256 update.block_roots_root update.block_roots_branch
          block_roots_index block_roots_depth update.finalized_header.state_root)
        invalid_ancestry_merkle_proof
    modify (store_block_root update.block_roots_root block_root)
    modify (store_sync_committee next_period update.next_sync_committee)
    store_finalized_header c now block_root update.finalized_header

  -- `Blocked::set(true); return Err(BridgeBlocked)`
  block_bridge : Call Unit
  block_bridge s = (err bridge_blocked, record s { blocked = true })

  -- The check of the weak subjectivity period in `process_finalized_header`.
  unfoldable pub check_weak_subjectivity : ℕ → ℕ → Call Unit
  unfolding block_bridge
  check_weak_subjectivity now import_time =
      let weak_subjectivity_period_check =
        (import_time + c.weak_subjectivity_period_seconds) % 2 ^ 64 in
      if ltb weak_subjectivity_period_check now then block_bridge else pure tt

  unfoldable pub process_finalized_header : ℕ → FinalizedHeaderUpdate → Call Unit
  unfolding beacon_header_root sync_committee_bits_of
  process_finalized_header now update = do
    last_finalized_header ← gets (λ s. s.latest_finalized_header_state)
    require (ltb update.attested_header.slot update.signature_slot) invalid_signature_slot
    require (leb update.finalized_header.slot update.attested_header.slot)
        invalid_attested_header_slot
    require
        (ltb (FinalizedHeaderState.beacon_slot last_finalized_header) update.finalized_header.slot)
        duplicate_finalized_header_update
    check_weak_subjectivity now (FinalizedHeaderState.import_time last_finalized_header)
    bits ← lift (sync_committee_bits_of update.sync_aggregate)
    lift (sync_committee_participation_is_supermajority bits)
    block_root ← lift (beacon_header_root update.finalized_header)
    lift (
        verify_header crates block_root update.finality_branch update.attested_header.state_root
          finalized_root_depth finalized_root_index)
    let last_finalized_period =
        compute_current_sync_period preset (FinalizedHeaderState.beacon_slot last_finalized_header)
    let current_period = compute_current_sync_period preset update.attested_header.slot
    require
        (current_period == last_finalized_period
          || current_period == (last_finalized_period + 1) % 2 ^ 64)
        invalid_finalized_period_update
    λ s. (
      verify_signed_by_period c s current_period bits update.sync_aggregate.sync_committee_signature
          update.attested_header update.signature_slot,
      s,
    )
    require
        (is_valid_merkle_branch crates.sha2_256 update.block_roots_root update.block_roots_branch
          block_roots_index block_roots_depth update.finalized_header.state_root)
        invalid_ancestry_merkle_proof
    modify (store_block_root update.block_roots_root block_root)
    store_finalized_header c now block_root update.finalized_header

  unfoldable pub process_header : HeaderUpdate → Call Unit
  unfolding beacon_header_root sync_committee_bits_of
  process_header update = do
    last_finalized_header ← gets (λ s. s.latest_finalized_header_state)
    require (leb update.beacon_header.slot (FinalizedHeaderState.beacon_slot last_finalized_header))
        header_not_finalized
    execution_header_state ← gets (λ s. s.latest_execution_header_state)
    require
        (ltb (ExecutionHeaderState.block_number execution_header_state)
          update.execution_header.block_number)
        invalid_execution_header_update
    execution_root ← lift (
        map_err (hash_tree_root_execution_header crates update.execution_header)
          block_body_hash_tree_root_failed)
    require
        (is_valid_merkle_branch crates.sha2_256 execution_root update.execution_branch
          execution_header_depth execution_header_index update.beacon_header.body_root)
        invalid_execution_header_proof
    beacon_block_root ← lift (beacon_header_root update.beacon_header)
    λ s. (
      ancestry_proof c s update.block_root_branch update.beacon_header.slot beacon_block_root
          update.block_root_branch_header_root,
      s,
    )
    let current_period = compute_current_sync_period preset update.beacon_header.slot
    committee ← λ s. (get_sync_committee_for_period s current_period, s)
    validators_root ← gets (λ s. s.validators_root)
    bits ← lift (sync_committee_bits_of update.sync_aggregate)
    lift (
        verify_signed_header c bits update.sync_aggregate.sync_committee_signature
          (SyncCommittee.pubkeys committee) update.beacon_header validators_root
          update.signature_slot)
    modify (
        store_execution_header update.execution_header.block_hash
          (execution_header_of update.execution_header) update.beacon_header.slot beacon_block_root)

  -- The extrinsics.
  unfoldable pub sync_committee_period_update : ℕ → Origin → SyncCommitteePeriodUpdate → Call Unit
  unfolding ensure_signed
  sync_committee_period_update now origin update = transactional (do
    ensure_signed origin
    check_bridge_blocked_state
    process_sync_committee_period_update now update)

  unfoldable pub import_finalized_header : ℕ → Origin → FinalizedHeaderUpdate → Call Unit
  unfolding ensure_signed
  import_finalized_header now origin update =
      transactional
        (do ensure_signed origin; check_bridge_blocked_state; process_finalized_header now update)

  unfoldable pub import_execution_header : Origin → HeaderUpdate → Call Unit
  unfolding ensure_signed
  import_execution_header origin update =
      transactional (do ensure_signed origin; check_bridge_blocked_state; process_header update)

unfoldable pub unblock_bridge : Origin → Call Unit
unfolding ensure_root
unblock_bridge origin =
    transactional (do ensure_root origin; modify (λ s. record s { blocked = false }))
