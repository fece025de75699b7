-- ===== src/Beacon/Store.antt =====
-- The storage of the beacon client, parachain/pallets/ethereum-beacon-client/src/lib.rs, as one
-- record with the events, its errors, and the functions that write it. `Config` holds the
-- pallet's constants, the preset of its build and the crates it calls; the clock is an argument.
pub mod Slots
use snowbridge.Shared.{
  ℕ, Bool, true, false, Option, none, some, List, [], ◌∷◌, ◌++◌, drop, length, ltb, ◌==◌,
  if◌then◌else◌, ◌%◌, ◌^◌,
}
use snowbridge.Shared.Bytes.{H256, H160}
use snowbridge.Shared.Outcome.{Result, ok, err}
use snowbridge.Shared.Exec.{Exec, modify, ◌>>=◌, ◌>>◌}
use snowbridge.Shared.Storage.{StorageMap, insert, value_or}
use snowbridge.Beacon.Types.{
  Root, ForkVersions, ExecutionHeaderState, FinalizedHeaderState, SyncCommittee, default_committee,
  BeaconHeader, ExecutionHeader,
}
use snowbridge.Beacon.Preset.{Preset}
use snowbridge.Beacon.Crates.{Crates}

pub record Config : Type 1 where
  pub crates : Crates
  pub preset : Preset
  pub max_slots_per_historical_root : ℕ
  pub max_finalized_header_slot_array : ℕ
  pub fork_versions : ForkVersions
  pub weak_subjectivity_period_seconds : ℕ

pub data Event : Type 0 where
  beacon_header_imported : H256 → ℕ → Event
  execution_header_imported : H256 → ℕ → Event
  sync_committee_updated : ℕ → Event

-- The pallet's errors, and the one of `ensure_signed` and `ensure_root`.
pub data Error : Type 0 where
  ancient_header skipped_sync_committee_period sync_committee_missing unknown : Error
  sync_committee_participants_not_supermajority invalid_header_merkle_proof : Error
  invalid_sync_committee_merkle_proof invalid_execution_header_proof : Error
  invalid_ancestry_merkle_proof invalid_signature invalid_signature_point : Error
  invalid_aggregate_public_keys invalid_hash invalid_sync_committee_bits : Error
  signature_verification_failed no_branch_expected header_not_finalized missing_header : Error
  invalid_proof invalid_block_root_at_slot decode_failed block_body_hash_tree_root_failed : Error
  block_roots_hash_tree_root_failed header_hash_tree_root_failed : Error
  sync_committee_hash_tree_root_failed signing_root_hash_tree_root_failed : Error
  fork_data_hash_tree_root_failed execution_header_not_latest : Error
  unexpected_header_slot_position expected_finalized_header_not_stored bridge_blocked : Error
  invalid_sync_committee_header_update invalid_sync_committee_period_update_with_gap : Error
  invalid_sync_committee_period_update_with_duplication invalid_signature_slot : Error
  invalid_attested_header_slot duplicate_finalized_header_update : Error
  invalid_finalized_period_update invalid_execution_header_update : Error
  finalized_beacon_header_slots_exceeded bad_origin : Error

pub record Client : Type 0 where
  pub finalized_beacon_headers : StorageMap BeaconHeader
  pub finalized_beacon_header_slots : List ℕ
  pub finalized_beacon_headers_block_root : StorageMap H256
  pub execution_headers : StorageMap ExecutionHeader
  pub sync_committees : StorageMap SyncCommittee
  pub validators_root : H256
  pub latest_finalized_header_state : FinalizedHeaderState
  pub latest_execution_header_state : ExecutionHeaderState
  pub latest_sync_committee_period : ℕ
  pub blocked : Bool
  pub events : List Event

-- Storage before anything is written: every value query finds its default.
abbrev pub empty_client : Client
empty_client = record {
  finalized_beacon_headers = λ k. none;
  finalized_beacon_header_slots = [];
  finalized_beacon_headers_block_root = λ k. none;
  execution_headers = λ k. none;
  sync_committees = λ k. none;
  validators_root = 0;
  latest_finalized_header_state = record {
    beacon_block_root = 0;
    beacon_slot = 0;
    import_time = 0;
  };
  latest_execution_header_state = record {
    beacon_block_root = 0;
    beacon_slot = 0;
    block_hash = 0;
    block_number = 0;
  };
  latest_sync_committee_period = 0;
  blocked = false;
  events = [];
}

abbrev pub Call : Type 0 → Type 0
Call A = Exec Client Error A

abbrev pub deposit_event : Event → Client → Client
deposit_event e s = record s { events = s.events ++ e ∷ [] }

abbrev pub store_block_root : H256 → H256 → Client → Client
store_block_root block_roots_hash finalized_header_block_root s = record s {
  finalized_beacon_headers_block_root =
      insert finalized_header_block_root block_roots_hash s.finalized_beacon_headers_block_root;
}

abbrev pub store_sync_committee : ℕ → SyncCommittee → Client → Client
store_sync_committee period committee s = deposit_event (sync_committee_updated period) (record s {
  sync_committees = insert period committee s.sync_committees;
  latest_sync_committee_period = period;
})

abbrev pub store_validators_root : H256 → Client → Client
store_validators_root root s = record s { validators_root = root }

-- The array of the slots once a slot is pushed: a full one loses its first. `none`: the push
-- fails, and `try_mutate` writes nothing. (An array of bound 0 would panic in `remove(0)`.)
unfoldable pub push_slot : ℕ → ℕ → List ℕ → Option (List ℕ)
push_slot bound slot slots =
    let kept = if length slots % 2 ^ 32 == bound then drop 1 slots else slots in
    if ltb (length kept) bound then some (kept ++ slot ∷ []) else none

abbrev pub set_slots : Option (List ℕ) → Call Unit
set_slots none s = (err finalized_beacon_header_slots_exceeded, s)
set_slots (some slots) s = (ok tt, record s { finalized_beacon_header_slots = slots })

abbrev pub add_finalized_header_slot : Config → ℕ → Call Unit
add_finalized_header_slot c slot s =
    set_slots (push_slot c.max_finalized_header_slot_array slot s.finalized_beacon_header_slots) s

unfoldable pub store_finalized_header : Config → ℕ → Root → BeaconHeader → Call Unit
store_finalized_header c now block_root header = do
  modify (λ s. record s {
    finalized_beacon_headers = insert block_root header s.finalized_beacon_headers;
  })
  add_finalized_header_slot c header.slot
  modify (λ s. deposit_event (beacon_header_imported block_root header.slot) (record s {
    latest_finalized_header_state = record {
      import_time = now;
      beacon_block_root = block_root;
      beacon_slot = header.slot;
    };
  }))

abbrev pub store_execution_header : H256 → ExecutionHeader → ℕ → H256 → Client → Client
store_execution_header block_hash header beacon_slot beacon_block_root s =
    deposit_event (execution_header_imported block_hash header.block_number) (record s {
      execution_headers = insert block_hash header s.execution_headers;
      latest_execution_header_state = record {
        beacon_block_root = beacon_block_root;
        beacon_slot = beacon_slot;
        block_hash = block_hash;
        block_number = header.block_number;
      };
    })

-- Value queries.
abbrev pub committee_at : Client → ℕ → SyncCommittee
committee_at s period = value_or default_committee (s.sync_committees period)

abbrev pub block_root_at : Client → H256 → H256
block_root_at s root = value_or 0 (s.finalized_beacon_headers_block_root root)
