-- ===== src/Examples/Client.antt =====
-- Examples for the beacon client, at the updates of Examples/Updates.
use snowbridge.Shared.{
  ℕ, ◌+◌, ◌-◌, Bool-cases, inl, inr, ◌*◌, ◌/◌, ◌%◌, ◌^◌, ◌≤◌, ◌<◌, true, false, none, some, List,
  [], ◌∷◌, ◌++◌, replicate, drop, length, ◌==◌, ◌≡◌, ◌↔◌, refl, sym, ap, arith, All,
}
use snowbridge.Shared.Bytes.{H256}
use snowbridge.Shared.Outcome.{ok, ok-injective}
use snowbridge.Shared.Storage.{contains_key}
use snowbridge.Core.{root, signed}
use snowbridge.Beacon.Preset.{
  execution_header_depth, execution_header_index, minimal, finalized_root_depth,
  finalized_root_index, block_roots_depth, block_roots_index,
}
use snowbridge.Beacon.Store.{push_slot, block_root_at}
use snowbridge.Beacon.Merkleization.{
  hash_tree_root_beacon_header, get_sync_committee_bits, bit_value, hash_tree_root_execution_header,
}
use snowbridge.Beacon.Branch.{is_valid_merkle_branch}
use snowbridge.Beacon.Signature.{
  compute_current_sync_period, participants, sync_committee_participation_is_supermajority,
}
use snowbridge.Beacon.Client.{execution_header_of}
use snowbridge.Beacon.Types.{SyncCommittee}
use snowbridge.Beacon.Signature.Participation.{supermajority_iff, get_sync_committee_bits-All}
use snowbridge.Beacon.Store.Slots.{push_slot_window}
use snowbridge.Beacon.Client.Accepted.{IsSigned, IsSignedByMost, HasBits, IsFinalizedAncestor}
use snowbridge.Beacon.Client.Finality.{
  process_finalized_header_order, process_finalized_header_signed, process_finalized_header_stored,
}
use snowbridge.Beacon.Client.Execution.{
  process_header_stored, process_header_proved, process_header-IsSigned,
}
use snowbridge.Beacon.Client.Periods.{IsContiguous, period_update_extends, period_update_signed}
use snowbridge.Beacon.Client.Runs.{Submission, run}
use snowbridge.Beacon.Client.Runs as Runs
use snowbridge.Beacon.Client.Invariants.{
  process_initial_sync-IsContiguous, run-IsContiguous, run_never_blocks,
}
use snowbridge.Examples.Updates.{
  crates, config, committee, header_at, aggregate, synced, finalized_update, after_finalized,
  finalized_accepted, period_update, after_period, period_accepted, payload, header_update,
  after_header, header_accepted, first_sync, after_sync, sync_accepted,
}

process_finalized_header_order_example :
    (finalized_update.attested_header.slot < finalized_update.signature_slot)
    × (finalized_update.finalized_header.slot ≤ finalized_update.attested_header.slot)
    × (synced.latest_finalized_header_state.beacon_slot < finalized_update.finalized_header.slot)
    × (1_500 ≤ (synced.latest_finalized_header_state.import_time + 1_000) % 2 ^ 64)
process_finalized_header_order_example =
    process_finalized_header_order config 1_500 finalized_update synced after_finalized
      finalized_accepted

synced-HasBits : HasBits config synced aggregate
synced-HasBits bits period stored made at =
    let four : length bits ≡ 4 = ap length (sym (ok-injective made)) in
    elim (Bool-cases (period == 1)) [
      | inl e ↦
          let same : stored ≡ committee = (ground arith) in
          let members = ap (λ k. length (SyncCommittee.pubkeys k)) same in
          (omega (arith, members), omega arith)
      | inr e ↦ absurd (ground arith)
    ]

process_finalized_header_signed_example : IsSignedByMost config synced (header_at 104) aggregate 105
process_finalized_header_signed_example =
    process_finalized_header_signed config 1_500 finalized_update synced after_finalized
      synced-HasBits finalized_accepted

process_finalized_header_stored_example :
    (let state = after_finalized.latest_finalized_header_state in
      (hash_tree_root_beacon_header crates (header_at 102) ≡ ok state.beacon_block_root)
      × (after_finalized.finalized_beacon_headers state.beacon_block_root ≡ some (header_at 102))
      × (block_root_at after_finalized state.beacon_block_root ≡ 55)
      × (state.beacon_slot ≡ 102)
      × (state.import_time ≡ 1_500)
      × (is_valid_merkle_branch crates.sha2_256 state.beacon_block_root
            (replicate 6 0)
            finalized_root_depth
            finalized_root_index
            7
          ≡ true)
      × (is_valid_merkle_branch crates.sha2_256 55
            (replicate 5 0)
            block_roots_index
            block_roots_depth
            7
          ≡ true))
process_finalized_header_stored_example =
    process_finalized_header_stored config 1_500 finalized_update synced after_finalized
      finalized_accepted

period_update_signed_example : IsSignedByMost config synced (header_at 104) aggregate 105
period_update_signed_example =
    period_update_signed config 1_500 period_update synced after_period synced-HasBits
      period_accepted

period_update_extends_example :
    (compute_current_sync_period minimal 104 ≡ synced.latest_sync_committee_period)
    × (after_period.latest_sync_committee_period ≡ synced.latest_sync_committee_period + 1)
    × (after_period.latest_sync_committee_period < 2 ^ 64)
    × (synced.sync_committees (synced.latest_sync_committee_period + 1) ≡ none)
    × (after_period.sync_committees (synced.latest_sync_committee_period + 1) ≡ some committee)
period_update_extends_example =
    period_update_extends config 1_500 period_update synced after_period (omega arith) (omega arith)
      (omega arith) period_accepted

process_header_stored_example :
    (header_update.beacon_header.slot ≤ synced.latest_finalized_header_state.beacon_slot)
    × (synced.latest_execution_header_state.block_number < payload.block_number)
    × (after_header.execution_headers 33 ≡ some (execution_header_of payload))
    × (after_header.latest_execution_header_state.block_number ≡ 12)
    × (after_header.latest_execution_header_state.block_hash ≡ 33)
    × (after_header.latest_execution_header_state.beacon_slot ≡ 90)
process_header_stored_example =
    process_header_stored config header_update synced after_header header_accepted

process_header_proved_example :
    (let beacon_root = after_header.latest_execution_header_state.beacon_block_root in
      (execution_root : H256) × (hash_tree_root_execution_header crates payload ≡ ok execution_root)
      × (is_valid_merkle_branch crates.sha2_256 execution_root
            (replicate 4 0)
            execution_header_depth
            execution_header_index
            7
          ≡ true)
      × (hash_tree_root_beacon_header crates (header_at 90) ≡ ok beacon_root)
      × IsFinalizedAncestor config synced (replicate 6 0) 90 beacon_root 100)
process_header_proved_example =
    process_header_proved config header_update synced after_header header_accepted

process_header-IsSigned_example : IsSigned config synced (header_at 90) aggregate 91
process_header-IsSigned_example =
    process_header-IsSigned config header_update synced after_header header_accepted

-- One extrinsic of each kind.
abbrev submissions : List Submission
submissions =
    record { now = 1_400; origin = signed 1; call = Runs.period_update period_update }
    ∷ record { now = 1_500; origin = signed 2; call = Runs.finalized_header finalized_update }
    ∷ record { now = 1_600; origin = signed 1; call = Runs.execution_header header_update }
    ∷ record { now = 1_700; origin = root; call = Runs.unblock }
    ∷ []

synced-IsContiguous : IsContiguous synced
synced-IsContiguous = (
  omega arith,
  1,
  λ period. elim (Bool-cases (period == 1)) [ inl e ↦ ground arith | inr e ↦ ground arith ],
)

run-IsContiguous_example : IsContiguous (run config submissions synced)
run-IsContiguous_example =
    run-IsContiguous config submissions synced (omega arith)
      (omega arith, (omega arith, (omega arith, (omega arith, tt)))) synced-IsContiguous

run_never_blocks_example : (run config submissions synced).blocked ≡ false
run_never_blocks_example = run_never_blocks config submissions synced refl

abbrev three_bits : List ℕ
three_bits = 1 ∷ 1 ∷ 0 ∷ 1 ∷ []

abbrev two_slots : List ℕ
two_slots = 10 ∷ 20 ∷ []

supermajority_iff_example :
    (sync_committee_participation_is_supermajority three_bits ≡ ok tt)
    ↔ (2 * length committee.pubkeys ≤ 3 * length (participants three_bits committee.pubkeys))
supermajority_iff_example =
    supermajority_iff three_bits committee.pubkeys
      (omega arith, (omega arith, (omega arith, (omega arith, tt)))) refl (omega arith)

get_sync_committee_bits-All_example : All (λ b. b ≤ 1) three_bits
unfolding get_sync_committee_bits bit_value
get_sync_committee_bits-All_example = get_sync_committee_bits-All crates 4 (1 ∷ 1 ∷ 0 ∷ 1 ∷ []) refl

push_slot_window_example :
    (push_slot 2 30 two_slots ≡ some (drop (length two_slots + 1 - 2) two_slots ++ 30 ∷ []))
    × (length (drop (length two_slots + 1 - 2) two_slots ++ 30 ∷ []) ≤ 2)
push_slot_window_example = push_slot_window 2 30 two_slots (omega arith) (omega arith) (omega arith)

process_initial_sync-IsContiguous_example :
    (after_sync.latest_sync_committee_period ≡ 104 / 8 / 8)
    × (after_sync.sync_committees after_sync.latest_sync_committee_period ≡ some committee)
    × ((period : ℕ)
        → contains_key after_sync.sync_committees period
          ≡ (period == after_sync.latest_sync_committee_period))
    × IsContiguous after_sync
process_initial_sync-IsContiguous_example =
    process_initial_sync-IsContiguous config first_sync after_sync (omega arith) (omega arith)
      sync_accepted
