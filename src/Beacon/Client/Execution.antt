-- ===== src/Beacon/Client/Execution.antt =====
-- `process_header` of parachain/pallets/ethereum-beacon-client/src/lib.rs: what an execution
-- header that is imported has shown, and what the storage then says.
use snowbridge.Shared.{◌<◌, ◌≤◌, true, some, ◌≡◌, arith, inl, inr}
use snowbridge.Shared.Outcome.{Result-cases, ok, is_ok}
use snowbridge.Shared.Bytes.{H256}
use snowbridge.Beacon.Types.{HeaderUpdate}
use snowbridge.Beacon.Merkleization.{hash_tree_root_beacon_header, hash_tree_root_execution_header}
use snowbridge.Beacon.Preset.{execution_header_depth, execution_header_index}
use snowbridge.Beacon.Branch.{is_valid_merkle_branch}
use snowbridge.Beacon.Signature.{verify_signed_by_period}
use snowbridge.Beacon.Store.{Config, Client}
use snowbridge.Beacon.Client.{process_header, ancestry_proof, execution_header_of}
use snowbridge.Beacon.Client.Accepted.{
  IsSigned, check_signed, check_signed-IsSigned, IsFinalizedAncestor,
  ancestry_proof-IsFinalizedAncestor,
}

module _ (c : Config) where
  -- An execution header that is imported has a larger block number than the latest one, its
  -- beacon slot is finalized, it is stored under its block hash, and it becomes the latest.
  pub process_header_stored :
      (update : HeaderUpdate) (s s' : Client)
      → process_header c update s ≡ (ok tt, s')
      → (update.beacon_header.slot ≤ s.latest_finalized_header_state.beacon_slot)
        × (s.latest_execution_header_state.block_number < update.execution_header.block_number)
        × (s'.execution_headers update.execution_header.block_hash
            ≡ some (execution_header_of update.execution_header))
        × (s'.latest_execution_header_state.block_number ≡ update.execution_header.block_number)
        × (s'.latest_execution_header_state.block_hash ≡ update.execution_header.block_hash)
        × (s'.latest_execution_header_state.beacon_slot ≡ update.beacon_header.slot)
  unfolding process_header
  process_header_stored update s s' h = ground arith

  process_header_branch :
      (update : HeaderUpdate) (s s' : Client) {execution_root : H256}
      → process_header c update s ≡ (ok tt, s')
      → hash_tree_root_execution_header c.crates update.execution_header ≡ ok execution_root
      → is_valid_merkle_branch c.crates.sha2_256 execution_root update.execution_branch
          execution_header_depth execution_header_index update.beacon_header.body_root
        ≡ true
  unfolding process_header
  process_header_branch update s s' h e = ground arith

  process_header_root :
      (update : HeaderUpdate) (s s' : Client)
      → process_header c update s ≡ (ok tt, s')
      → is_ok (hash_tree_root_execution_header c.crates update.execution_header) ≡ true
  unfolding process_header
  process_header_root update s s' h = ground arith

  process_header_ancestry :
      (update : HeaderUpdate) (s s' : Client)
      → process_header c update s ≡ (ok tt, s')
      → (let beacon_root = s'.latest_execution_header_state.beacon_block_root in
          (hash_tree_root_beacon_header c.crates update.beacon_header ≡ ok beacon_root)
          × (ancestry_proof c s update.block_root_branch update.beacon_header.slot beacon_root
                update.block_root_branch_header_root
              ≡ ok tt))
  unfolding process_header
  process_header_ancestry update s s' h = ground arith

  -- The root of an execution header that is imported is proved by a branch in the body of its
  -- beacon header. That header is a finalized header stored before the call, with its slot, where
  -- the update has no branch of block roots; with one, the branch is valid for the header's root,
  -- at the place of its slot, under the root of block roots stored with a finalized header,
  -- which is not zero.
  pub process_header_proved :
      (update : HeaderUpdate) (s s' : Client)
      → process_header c update s ≡ (ok tt, s')
      → (let beacon_root = s'.latest_execution_header_state.beacon_block_root in
          (execution_root : H256) × (hash_tree_root_execution_header c.crates
              update.execution_header
            ≡ ok execution_root)
          × (is_valid_merkle_branch c.crates.sha2_256 execution_root update.execution_branch
                execution_header_depth execution_header_index update.beacon_header.body_root
              ≡ true)
          × (hash_tree_root_beacon_header c.crates update.beacon_header ≡ ok beacon_root)
          × IsFinalizedAncestor c s update.block_root_branch update.beacon_header.slot beacon_root
              update.block_root_branch_header_root)
  process_header_proved update s s' h =
      elim (Result-cases (hash_tree_root_execution_header c.crates update.execution_header)) [
        | inl (execution_root, e) ↦
            let ancestry = process_header_ancestry update s s' h in
            (
              execution_root,
              e,
              process_header_branch update s s' h e,
              ancestry.0,
              ancestry_proof-IsFinalizedAncestor c s update.block_root_branch
                  update.beacon_header.slot _ update.block_root_branch_header_root ancestry.1,
            )
        | inr (x, e) ↦ absurd (let made = process_header_root update s s' h in cc (made, e))
      ]

  process_header_check :
      (update : HeaderUpdate) (s s' : Client)
      → process_header c update s ≡ (ok tt, s')
      → is_ok (check_signed c s update.beacon_header update.sync_aggregate update.signature_slot)
        ≡ true
  unfolding process_header verify_signed_by_period
  process_header_check update s s' h = ground arith

  -- The beacon header of an execution header that is imported is signed by the members, whatever
  -- their number, of the committee stored for its period whose bit of the aggregate is set: BLS
  -- accepts the signature for the header's signing root under the aggregate of their keys.
  pub process_header-IsSigned :
      (update : HeaderUpdate) (s s' : Client)
      → process_header c update s ≡ (ok tt, s')
      → IsSigned c s update.beacon_header update.sync_aggregate update.signature_slot
  process_header-IsSigned update s s' h =
      elim (Result-cases
        (check_signed c s update.beacon_header update.sync_aggregate update.signature_slot)) [
          | inl (bits, e) ↦
              (check_signed-IsSigned c s update.beacon_header update.sync_aggregate
                update.signature_slot e).0
          | inr (x, e) ↦ absurd (let made = process_header_check update s s' h in cc (made, e))
        ]
