-- ===== src/Beacon/Client/Blocking.antt =====
-- The extrinsics of parachain/pallets/ethereum-beacon-client/src/lib.rs as transactions: their
-- errors, a bridge that is blocked, and the flag that blocks it.
use snowbridge.Shared.{ℕ, false, ◌≡◌, arith, inl, inr}
use snowbridge.Shared.Outcome.{ok}
use snowbridge.Core.{Origin, root, signed, unsigned}
use snowbridge.Beacon.Types.{FinalizedHeaderUpdate, HeaderUpdate, SyncCommitteePeriodUpdate}
use snowbridge.Beacon.Store.{Config, Client, store_finalized_header}
use snowbridge.Beacon.Client.{
  ensure_signed, process_finalized_header, process_header, process_sync_committee_period_update,
  import_finalized_header, import_execution_header, sync_committee_period_update,
}
use snowbridge.Beacon.Client.Finality.{check_weak_subjectivity_cases}

module _ (c : Config) where
  -- A call that processes a finalized header and returns keeps the flag.
  pub process_finalized_header_blocked :
      (now : ℕ) (update : FinalizedHeaderUpdate) (s s' : Client)
      → process_finalized_header c now update s ≡ (ok tt, s')
      → s'.blocked ≡ s.blocked
  unfolding process_finalized_header store_finalized_header
  process_finalized_header_blocked now update s s' h =
      elim (check_weak_subjectivity_cases c now s.latest_finalized_header_state.import_time s) [
        | inl w ↦ ground arith
        | inr w ↦ absurd (ground arith)
      ]

  -- What an extrinsic that returned had done: the bridge was not blocked, and the update was
  -- processed.
  pub import_finalized_header-ok :
      (now : ℕ) (origin : Origin) (update : FinalizedHeaderUpdate) (s s' : Client)
      → import_finalized_header c now origin update s ≡ (ok tt, s')
      → (s.blocked ≡ false) × (process_finalized_header c now update s ≡ (ok tt, s'))
  unfolding import_finalized_header ensure_signed
  import_finalized_header-ok now root update s s' h = ground arith
  import_finalized_header-ok now unsigned update s s' h = ground arith
  import_finalized_header-ok now (signed account) update s s' h = ground arith

  pub import_execution_header-ok :
      (origin : Origin) (update : HeaderUpdate) (s s' : Client)
      → import_execution_header c origin update s ≡ (ok tt, s')
      → (s.blocked ≡ false) × (process_header c update s ≡ (ok tt, s'))
  unfolding import_execution_header ensure_signed
  import_execution_header-ok root update s s' h = ground arith
  import_execution_header-ok unsigned update s s' h = ground arith
  import_execution_header-ok (signed account) update s s' h = ground arith

  pub sync_committee_period_update-ok :
      (now : ℕ) (origin : Origin) (update : SyncCommitteePeriodUpdate) (s s' : Client)
      → sync_committee_period_update c now origin update s ≡ (ok tt, s')
      → (s.blocked ≡ false) × (process_sync_committee_period_update c now update s ≡ (ok tt, s'))
  unfolding sync_committee_period_update ensure_signed
  sync_committee_period_update-ok now root update s s' h = ground arith
  sync_committee_period_update-ok now unsigned update s s' h = ground arith
  sync_committee_period_update-ok now (signed account) update s s' h = ground arith
