-- ===== src/Examples/Updates.antt =====
-- Updates that the beacon client accepts, with toy crates: every pair hashes to one value, the root
-- of a header is its slot, and a signature stands when three members take part.
use snowbridge.Shared.{ℕ, none, [], ◌∷◌, map, replicate, length, ◌==◌, ◌≡◌, refl, ap}
use snowbridge.Shared.Bytes.{Bytes, be_bytes}
use snowbridge.Shared.Outcome.{ok}
use snowbridge.Shared.Storage.{insert}
use snowbridge.Beacon.Types.{
  InitialSync, PublicKey, SyncCommittee, BeaconHeader, SyncAggregate, SyncCommitteePeriodUpdate,
  FinalizedHeaderUpdate, HeaderUpdate, ExecutionPayload, Fork,
}
use snowbridge.Beacon.Preset.{minimal}
use snowbridge.Beacon.Crates.{Crates}
use snowbridge.Beacon.Store.{Config, Client, empty_client, store_finalized_header, push_slot}
use snowbridge.Beacon.Merkleization.{
  hash_tree_root_beacon_header, ssz_beacon_header, hash_tree_root, get_sync_committee_bits,
  bit_value, hash_tree_root_fork_data, hash_tree_root_signing_data, hash_tree_root_sync_committee,
  hash_tree_root_execution_header, ssz_execution_payload,
}
use snowbridge.Beacon.Branch.{is_valid_merkle_branch, branch_loop, hash_pair}
use snowbridge.Beacon.Signature.{
  verify_header, compute_current_sync_period, verify_signed_by_period,
  get_sync_committee_for_period, verify_signed_header, compute_domain, compute_fork_data_root,
  compute_fork_version, compute_epoch_at_slot, compute_signing_root, bls_fast_aggregate_verify,
  participants, verify_sync_committee, sync_committee_participation_is_supermajority,
  get_sync_committee_sum,
}
use snowbridge.Beacon.Client.{
  process_initial_sync, process_finalized_header, process_header,
  process_sync_committee_period_update, check_weak_subjectivity, ancestry_proof,
}

abbrev pub crates : Crates
crates = record {
  sha2_256 = λ bytes. 7;
  bitvector = λ size bytes. ok (map (λ b. b == 1) bytes);
  bytes_vector = λ size bytes. bytes;
  keys_vector = λ size keys. keys;
  bytes_list = λ size bytes. ok bytes;
  u256_from_bytes_le = λ bytes. ok 0;
  as_byte_slice = λ n. [];
  beacon_block_header_node = λ h. ok (be_bytes 32 h.slot);
  sync_committee_node = λ x. ok (be_bytes 32 1);
  fork_data_node = λ x. ok (be_bytes 32 2);
  signing_data_node = λ x. ok (be_bytes 32 3);
  execution_payload_node = λ x. ok (be_bytes 32 4);
  Signature = Bytes;
  AggregateSignature = Bytes;
  BlsPublicKey = Bytes;
  AggregatePublicKey = ℕ;
  signature_from_bytes = λ bytes. ok bytes;
  from_signature = λ sig. sig;
  from_bytes_unchecked = λ bytes. ok bytes;
  into_aggregate = λ keys. ok (length keys);
  fast_aggregate_verify_pre_aggregated = λ sig message key. key == 3;
}

abbrev pub fork : ℕ → Fork
fork epoch = record { version = epoch ∷ 0 ∷ 0 ∷ 0 ∷ []; epoch = epoch }

abbrev pub config : Config
config = record {
  crates = crates;
  preset = minimal;
  max_slots_per_historical_root = 64;
  max_finalized_header_slot_array = 2;
  fork_versions = record { genesis = fork 0; altair = fork 1; bellatrix = fork 2 };
  weak_subjectivity_period_seconds = 1_000;
}

abbrev pub key : ℕ → PublicKey
key n = record { key = n ∷ [] }

abbrev pub committee : SyncCommittee
committee = record { pubkeys = key 1 ∷ key 2 ∷ key 3 ∷ key 4 ∷ []; aggregate_pubkey = key 9 }

abbrev pub header_at : ℕ → BeaconHeader
header_at slot = record {
  slot = slot;
  proposer_index = 0;
  parent_root = 0;
  state_root = 7;
  body_root = 7;
}

abbrev pub aggregate : SyncAggregate
aggregate = record { sync_committee_bits = 1 ∷ 1 ∷ 0 ∷ 1 ∷ []; sync_committee_signature = [] }

-- Period 1 is that of the slots 64 to 127.
abbrev pub synced : Client
synced = record empty_client {
  finalized_beacon_headers_block_root = insert 100 7 (λ k. none);
  sync_committees = insert 1 committee (λ k. none);
  latest_sync_committee_period = 1;
  latest_finalized_header_state = record {
    beacon_block_root = 100;
    beacon_slot = 100;
    import_time = 1_000;
  };
}

abbrev pub finalized_update : FinalizedHeaderUpdate
finalized_update = record {
  attested_header = header_at 104;
  finalized_header = header_at 102;
  finality_branch = replicate 6 0;
  sync_aggregate = aggregate;
  signature_slot = 105;
  block_roots_root = 55;
  block_roots_branch = replicate 5 0;
}

abbrev pub after_finalized : Client
after_finalized = (process_finalized_header config 1_500 finalized_update synced).1

pub finalized_accepted :
    process_finalized_header config 1_500 finalized_update synced ≡ (ok tt, after_finalized)
unfolding check_weak_subjectivity store_finalized_header push_slot get_sync_committee_bits bit_value
    sync_committee_participation_is_supermajority get_sync_committee_sum
    hash_tree_root_beacon_header ssz_beacon_header hash_tree_root verify_header
    is_valid_merkle_branch branch_loop hash_pair be_bytes compute_current_sync_period
    verify_signed_by_period get_sync_committee_for_period verify_signed_header compute_domain
    compute_fork_data_root compute_fork_version compute_epoch_at_slot hash_tree_root_fork_data
    compute_signing_root hash_tree_root_signing_data bls_fast_aggregate_verify participants
    process_finalized_header
finalized_accepted = ap (λ r. (r, after_finalized)) refl

abbrev pub period_update : SyncCommitteePeriodUpdate
period_update = record {
  attested_header = header_at 104;
  next_sync_committee = committee;
  next_sync_committee_branch = replicate 5 0;
  finalized_header = header_at 102;
  finality_branch = replicate 6 0;
  sync_aggregate = aggregate;
  sync_committee_period = 1;
  signature_slot = 105;
  block_roots_root = 55;
  block_roots_branch = replicate 5 0;
}

abbrev pub after_period : Client
after_period = (process_sync_committee_period_update config 1_500 period_update synced).1

pub period_accepted :
    process_sync_committee_period_update config 1_500 period_update synced ≡ (ok tt, after_period)
unfolding store_finalized_header push_slot get_sync_committee_bits bit_value
    sync_committee_participation_is_supermajority get_sync_committee_sum
    hash_tree_root_beacon_header ssz_beacon_header hash_tree_root verify_header
    is_valid_merkle_branch branch_loop hash_pair be_bytes compute_current_sync_period
    verify_signed_by_period get_sync_committee_for_period verify_signed_header compute_domain
    compute_fork_data_root compute_fork_version compute_epoch_at_slot hash_tree_root_fork_data
    compute_signing_root hash_tree_root_signing_data bls_fast_aggregate_verify participants
    verify_sync_committee hash_tree_root_sync_committee process_sync_committee_period_update
period_accepted = ap (λ r. (r, after_period)) refl

abbrev pub payload : ExecutionPayload
payload = record {
  parent_hash = 0;
  fee_recipient = [];
  state_root = 0;
  receipts_root = 66;
  logs_bloom = [];
  prev_randao = 0;
  block_number = 12;
  gas_limit = 0;
  gas_used = 0;
  timestamp = 0;
  extra_data = [];
  base_fee_per_gas = 0;
  block_hash = 33;
  transactions_root = 0;
}

abbrev pub header_update : HeaderUpdate
header_update = record {
  beacon_header = header_at 90;
  execution_header = payload;
  execution_branch = replicate 4 0;
  sync_aggregate = aggregate;
  signature_slot = 91;
  block_root_branch = replicate 6 0;
  block_root_branch_header_root = 100;
}

abbrev pub after_header : Client
after_header = (process_header config header_update synced).1

pub header_accepted : process_header config header_update synced ≡ (ok tt, after_header)
unfolding get_sync_committee_bits bit_value hash_tree_root_beacon_header ssz_beacon_header
    hash_tree_root is_valid_merkle_branch branch_loop hash_pair be_bytes compute_current_sync_period
    get_sync_committee_for_period verify_signed_header compute_domain compute_fork_data_root
    compute_fork_version compute_epoch_at_slot hash_tree_root_fork_data compute_signing_root
    hash_tree_root_signing_data bls_fast_aggregate_verify participants
    hash_tree_root_execution_header ssz_execution_payload ancestry_proof process_header
header_accepted = ap (λ r. (r, after_header)) refl

abbrev pub first_sync : InitialSync
first_sync = record {
  header = header_at 104;
  current_sync_committee = committee;
  current_sync_committee_branch = replicate 5 0;
  validators_root = 8;
  import_time = 1_000;
}

abbrev pub after_sync : Client
after_sync = (process_initial_sync config first_sync empty_client).1

pub sync_accepted : process_initial_sync config first_sync empty_client ≡ (ok tt, after_sync)
unfolding push_slot hash_tree_root_beacon_header ssz_beacon_header hash_tree_root
    is_valid_merkle_branch branch_loop hash_pair be_bytes compute_current_sync_period
    verify_sync_committee hash_tree_root_sync_committee process_initial_sync
sync_accepted = ap (λ r. (r, after_sync)) refl
