-- ===== src/Beacon/Client/Finality.antt =====
-- `process_finalized_header` of parachain/pallets/ethereum-beacon-client/src/lib.rs: what an
-- update that is accepted has shown, and what the storage then says.
use snowbridge.Shared.{ℕ, ◌<◌, ◌≤◌, ◌+◌, ◌%◌, ◌^◌, true, some, ◌≡◌, arith, ◌⊎◌, inl, inr}
use snowbridge.Shared.Outcome.{ok, err}
use snowbridge.Beacon.Types.{FinalizedHeaderUpdate}
use snowbridge.Beacon.Merkleization.{hash_tree_root_beacon_header}
use snowbridge.Beacon.Preset.{
  finalized_root_depth, finalized_root_index, block_roots_depth, block_roots_index,
}
use snowbridge.Beacon.Branch.{is_valid_merkle_branch}
use snowbridge.Beacon.Signature.{verify_header}
use snowbridge.Beacon.Store.{Config, Client, store_finalized_header, block_root_at, bridge_blocked}
use snowbridge.Beacon.Client.{process_finalized_header, check_weak_subjectivity}
use snowbridge.Beacon.Client.Accepted.{HasBits, IsSignedByMost, check_signed_by_most-IsSignedByMost}

module _ (c : Config) where
  pub check_weak_subjectivity_cases :
      (now import_time : ℕ) (s : Client)
      → ((check_weak_subjectivity c now import_time s ≡ (ok tt, s))
          × (now ≤ (import_time + c.weak_subjectivity_period_seconds) % 2 ^ 64))
        ⊎ (check_weak_subjectivity c now import_time s
            ≡ (err bridge_blocked, record s { blocked = true }))
  unfolding check_weak_subjectivity
  check_weak_subjectivity_cases now import_time s = ground arith

  -- The slots of an update that is accepted are in order, it is newer than the header that was
  -- finalized, and it came within the weak subjectivity period.
  pub process_finalized_header_order :
      (now : ℕ) (update : FinalizedHeaderUpdate) (s s' : Client)
      → process_finalized_header c now update s ≡ (ok tt, s')
      → (update.attested_header.slot < update.signature_slot)
        × (update.finalized_header.slot ≤ update.attested_header.slot)
        × (s.latest_finalized_header_state.beacon_slot < update.finalized_header.slot)
        × (now
            ≤ (s.latest_finalized_header_state.import_time + c.weak_subjectivity_period_seconds)
              % 2 ^ 64)
  unfolding process_finalized_header
  process_finalized_header_order now update s s' h =
      elim (check_weak_subjectivity_cases now s.latest_finalized_header_state.import_time s) [
        | inl w ↦ ground arith
        | inr w ↦ absurd (ground arith)
      ]

  -- The attested header of an update that is accepted is signed by two thirds of the members of
  -- the committee stored for its period: BLS accepts the signature for the header's signing root
  -- under the aggregate of the keys of the members whose bit is set, and these members are two
  -- thirds of the committee. The bits of the aggregate are one for each member of a stored
  -- committee, and fewer than 2 ^ 62.
  pub process_finalized_header_signed :
      (now : ℕ) (update : FinalizedHeaderUpdate) (s s' : Client)
      → HasBits c s update.sync_aggregate
      → process_finalized_header c now update s ≡ (ok tt, s')
      → IsSignedByMost c s update.attested_header update.sync_aggregate update.signature_slot
  unfolding process_finalized_header
  process_finalized_header_signed now update s s' sized h =
      elim (check_weak_subjectivity_cases now s.latest_finalized_header_state.import_time s) [
        | inl w ↦
            check_signed_by_most-IsSignedByMost c s update.attested_header update.sync_aggregate
              update.signature_slot sized (ground arith)
        | inr w ↦ absurd (ground arith)
      ]

  -- After an update is accepted, the latest finalized header is the update's, under its root,
  -- with the time of the import and the root of its block roots; the root is proved by a branch
  -- in the state of the attested header, and the block roots by one in the finalized state.
  pub process_finalized_header_stored :
      (now : ℕ) (update : FinalizedHeaderUpdate) (s s' : Client)
      → process_finalized_header c now update s ≡ (ok tt, s')
      → (let state = s'.latest_finalized_header_state in
          (hash_tree_root_beacon_header c.crates update.finalized_header
            ≡ ok state.beacon_block_root)
          × (s'.finalized_beacon_headers state.beacon_block_root ≡ some update.finalized_header)
          × (block_root_at s' state.beacon_block_root ≡ update.block_roots_root)
          × (state.beacon_slot ≡ update.finalized_header.slot)
          × (state.import_time ≡ now)
          × (is_valid_merkle_branch c.crates.sha2_256 state.beacon_block_root update.finality_branch
                finalized_root_depth finalized_root_index update.attested_header.state_root
              ≡ true)
          × (is_valid_merkle_branch c.crates.sha2_256 update.block_roots_root
                update.block_roots_branch block_roots_index block_roots_depth
                update.finalized_header.state_root
              ≡ true))
  unfolding process_finalized_header check_weak_subjectivity verify_header store_finalized_header
  process_finalized_header_stored now update s s' h = ground arith
