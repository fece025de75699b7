-- ===== src/Beacon/Preset.antt =====
-- The constants of parachain/pallets/ethereum-beacon-client/src/config.rs and of its two presets,
-- config/mainnet.rs and config/minimal.rs.
use snowbridge.Shared.{ℕ, Bool, true, false, [], ◌∷◌}
use snowbridge.Shared.Bytes.{Bytes}

pub record Preset : Type 0 where
  pub slots_per_epoch : ℕ
  pub seconds_per_slot : ℕ
  pub epochs_per_sync_committee_period : ℕ
  pub sync_committee_size : ℕ
  pub slots_per_historical_root : ℕ
  pub is_minimal : Bool
  pub block_root_at_index_proof_depth : ℕ

abbrev pub mainnet : Preset
mainnet = record {
  slots_per_epoch = 32;
  seconds_per_slot = 12;
  epochs_per_sync_committee_period = 256;
  sync_committee_size = 512;
  slots_per_historical_root = 8192;
  is_minimal = false;
  block_root_at_index_proof_depth = 13;
}

abbrev pub minimal : Preset
minimal = record {
  slots_per_epoch = 8;
  seconds_per_slot = 6;
  epochs_per_sync_committee_period = 8;
  sync_committee_size = 32;
  slots_per_historical_root = 64;
  is_minimal = true;
  block_root_at_index_proof_depth = 6;
}

abbrev pub current_sync_committee_index : ℕ
current_sync_committee_index = 22

abbrev pub current_sync_committee_depth : ℕ
current_sync_committee_depth = 5

abbrev pub next_sync_committee_depth : ℕ
next_sync_committee_depth = 5

abbrev pub next_sync_committee_index : ℕ
next_sync_committee_index = 23

abbrev pub finalized_root_depth : ℕ
finalized_root_depth = 6

abbrev pub finalized_root_index : ℕ
finalized_root_index = 41

abbrev pub block_roots_depth : ℕ
block_roots_depth = 5

abbrev pub block_roots_index : ℕ
block_roots_index = 5

abbrev pub execution_header_depth : ℕ
execution_header_depth = 4

abbrev pub execution_header_index : ℕ
execution_header_index = 9

abbrev pub domain_sync_committee : Bytes
domain_sync_committee = 7 ∷ 0 ∷ 0 ∷ 0 ∷ []
