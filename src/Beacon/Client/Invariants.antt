-- ===== src/Beacon/Client/Invariants.antt =====
-- What every sequence of extrinsics of parachain/pallets/ethereum-beacon-client/src/lib.rs keeps.
use snowbridge.Shared.{
  ◌==◌, if◌then◌else◌, none, some, ◌/◌, ℕ, ◌^◌, ◌≤◌, ◌<◌, false, List, [], ◌∷◌, ◌≡◌, ◌∙◌, ap, arith,
  All, ◌⊎◌, inl, inr,
}
use snowbridge.Shared.Outcome.{ok, err, Result-cases}
use snowbridge.Core.{Origin, root, signed, unsigned}
use snowbridge.Beacon.Types.{
  InitialSync, FinalizedHeaderUpdate, HeaderUpdate, SyncCommitteePeriodUpdate,
}
use snowbridge.Beacon.Store.{empty_client, Config, Client, Error, store_finalized_header}
use snowbridge.Beacon.Client.{
  process_initial_sync, ensure_root, process_finalized_header, process_header,
  process_sync_committee_period_update, import_finalized_header, import_execution_header,
  sync_committee_period_update, unblock_bridge,
}
use snowbridge.Beacon.Client.Finality.{check_weak_subjectivity_cases}
use snowbridge.Beacon.Signature.{compute_current_sync_period}
use snowbridge.Shared.Storage.{contains_key}
use snowbridge.Beacon.Client.Periods.{period-lt, IsContiguous, period_update-IsContiguous}
use snowbridge.Beacon.Client.Blocking.{
  import_finalized_header-ok, import_execution_header-ok, sync_committee_period_update-ok,
  process_finalized_header_blocked,
}
use snowbridge.Beacon.Client.Execution.{process_header_stored}
use snowbridge.Beacon.Client.Runs.{
  attested_slot, Extrinsic, period_update, finalized_header, execution_header, unblock, Submission,
  dispatch, run, run-keeps,
}

All-Unit {ℓ} : {A : Type ℓ} (xs : List A) → All {ℓ, 0} (λ x. Unit) xs
All-Unit [] = tt
All-Unit (x ∷ xs) = (tt, All-Unit xs)

module _ (c : Config) where
  -- An extrinsic that returns an error leaves the storage as it was.
  dispatch_error_unchanged :
      (now : ℕ) (origin : Origin) (call : Extrinsic) (s s' : Client) {e : Error}
      → dispatch c now origin call s ≡ (err e, s')
      → s' ≡ s
  unfolding import_finalized_header import_execution_header sync_committee_period_update
      unblock_bridge
  dispatch_error_unchanged now origin (period_update update) s s' h = ground arith
  dispatch_error_unchanged now origin (finalized_header update) s s' h = ground arith
  dispatch_error_unchanged now origin (execution_header update) s s' h = ground arith
  dispatch_error_unchanged now origin unblock s s' h = ground arith

  -- An extrinsic either returned, and left what it wrote, or left the storage as it was.
  dispatch_outcome :
      (now : ℕ) (origin : Origin) (call : Extrinsic) (s : Client)
      → (dispatch c now origin call s ≡ (ok tt, (dispatch c now origin call s).1))
        ⊎ ((dispatch c now origin call s).1 ≡ s)
  dispatch_outcome now origin call s = elim (Result-cases (dispatch c now origin call s).0) [
    | inl (a, e) ↦ inl (ap (λ r. (r, (dispatch c now origin call s).1)) e)
    | inr (x, e) ↦ inr (
        dispatch_error_unchanged now origin call s _
          (ap (λ r. (r, (dispatch c now origin call s).1)) e))
  ]

  period_update_blocked :
      (now : ℕ) (update : SyncCommitteePeriodUpdate) (s s' : Client)
      → process_sync_committee_period_update c now update s ≡ (ok tt, s')
      → s'.blocked ≡ s.blocked
  unfolding process_sync_committee_period_update store_finalized_header
  period_update_blocked now update s s' h = ground arith

  header_blocked :
      (update : HeaderUpdate) (s s' : Client)
      → process_header c update s ≡ (ok tt, s')
      → s'.blocked ≡ s.blocked
  unfolding process_header
  header_blocked update s s' h = ground arith

  -- A call that returned leaves a bridge that is not blocked unblocked.
  call_blocked :
      (now : ℕ) (origin : Origin) (call : Extrinsic) (s s' : Client)
      → dispatch c now origin call s ≡ (ok tt, s')
      → s.blocked ≡ false
      → s'.blocked ≡ false
  unfolding unblock_bridge ensure_root
  call_blocked now origin (period_update update) s s' h b =
      period_update_blocked now update s s'
        (sync_committee_period_update-ok c now origin update s s' h).1
      ∙ b
  call_blocked now origin (finalized_header update) s s' h b =
      process_finalized_header_blocked c now update s s'
        (import_finalized_header-ok c now origin update s s' h).1
      ∙ b
  call_blocked now origin (execution_header update) s s' h b =
      header_blocked update s s' (import_execution_header-ok c origin update s s' h).1 ∙ b
  call_blocked now root unblock s s' h b = cc
  call_blocked now (signed account) unblock s s' h b = ground arith
  call_blocked now unsigned unblock s s' h b = ground arith

  -- No sequence of extrinsics blocks a bridge that is not blocked, whatever the clock shows: the
  -- check of the weak subjectivity period writes the flag in a transaction that its error undoes.
  pub run_never_blocks :
      (xs : List Submission) (s : Client) → s.blocked ≡ false → (run c xs s).blocked ≡ false
  run_never_blocks xs s h =
      run-keeps c (λ t. t.blocked ≡ false) (λ x. Unit {0})
        (λ x t q b. elim (dispatch_outcome x.now x.origin x.call t) [
          | inl e ↦ call_blocked x.now x.origin x.call t _ e b
          | inr e ↦ rw e b
        ])
        xs s (All-Unit xs) h

  finalized_keeps :
      (now : ℕ) (update : FinalizedHeaderUpdate) (s s' : Client)
      → process_finalized_header c now update s ≡ (ok tt, s')
      → (s'.sync_committees ≡ s.sync_committees)
        × (s'.latest_sync_committee_period ≡ s.latest_sync_committee_period)
        × (s'.latest_execution_header_state ≡ s.latest_execution_header_state)
  unfolding process_finalized_header store_finalized_header
  finalized_keeps now update s s' h =
      elim (check_weak_subjectivity_cases c now s.latest_finalized_header_state.import_time s) [
        | inl w ↦ ground arith
        | inr w ↦ absurd (ground arith)
      ]

  period_update_keeps :
      (now : ℕ) (update : SyncCommitteePeriodUpdate) (s s' : Client)
      → process_sync_committee_period_update c now update s ≡ (ok tt, s')
      → s'.latest_execution_header_state ≡ s.latest_execution_header_state
  unfolding process_sync_committee_period_update store_finalized_header
  period_update_keeps now update s s' h = ground arith

  header_keeps :
      (update : HeaderUpdate) (s s' : Client)
      → process_header c update s ≡ (ok tt, s')
      → (s'.sync_committees ≡ s.sync_committees)
        × (s'.latest_sync_committee_period ≡ s.latest_sync_committee_period)
  unfolding process_header
  header_keeps update s s' h = ground arith

  unblock_keeps :
      (origin : Origin) (s s' : Client)
      → unblock_bridge origin s ≡ (ok tt, s')
      → (s'.sync_committees ≡ s.sync_committees)
        × (s'.latest_sync_committee_period ≡ s.latest_sync_committee_period)
        × (s'.latest_execution_header_state ≡ s.latest_execution_header_state)
  unfolding unblock_bridge ensure_root
  unblock_keeps root s s' h = ground arith
  unblock_keeps (signed account) s s' h = ground arith
  unblock_keeps unsigned s s' h = ground arith

  call_block_number :
      (now : ℕ) (origin : Origin) (call : Extrinsic) (s s' : Client)
      → dispatch c now origin call s ≡ (ok tt, s')
      → s.latest_execution_header_state.block_number ≤ s'.latest_execution_header_state.block_number
  call_block_number now origin (period_update update) s s' h =
      rw
        (period_update_keeps now update s s'
          (sync_committee_period_update-ok c now origin update s s' h).1)
        (omega arith)
  call_block_number now origin (finalized_header update) s s' h =
      rw
        (finalized_keeps now update s s'
          (import_finalized_header-ok c now origin update s s' h).1).2
        (omega arith)
  call_block_number now origin (execution_header update) s s' h =
      let stored =
        process_header_stored c update s s' (import_execution_header-ok c origin update s s' h).1 in
      omega (arith, stored.1, stored.3)
  call_block_number now origin unblock s s' h = rw (unblock_keeps origin s s' h).2 (omega arith)

  -- Over every sequence of extrinsics the block number of the latest execution header never
  -- goes down.
  pub run_block_number :
      (xs : List Submission) (s : Client)
      → s.latest_execution_header_state.block_number
        ≤ (run c xs s).latest_execution_header_state.block_number
  run_block_number xs s =
      run-keeps c
        (λ t.
          s.latest_execution_header_state.block_number
          ≤ t.latest_execution_header_state.block_number)
        (λ x. Unit {0})
        (λ x t q b. elim (dispatch_outcome x.now x.origin x.call t) [
          | inl e ↦ omega (arith, call_block_number x.now x.origin x.call t _ e)
          | inr e ↦ rw e b
        ])
        xs s (All-Unit xs) (omega arith)

  IsContiguous-same :
      (s s' : Client)
      → s'.sync_committees ≡ s.sync_committees
      → s'.latest_sync_committee_period ≡ s.latest_sync_committee_period
      → IsContiguous s
      → IsContiguous s'
  IsContiguous-same s s' e f h = rw (e, f) h

  call-IsContiguous :
      (now : ℕ) (origin : Origin) (call : Extrinsic) (s s' : Client)
      → 2 ≤ c.preset.slots_per_epoch
      → attested_slot call < 2 ^ 64
      → dispatch c now origin call s ≡ (ok tt, s')
      → IsContiguous s
      → IsContiguous s'
  call-IsContiguous now origin (period_update update) s s' two u64 h inv =
      period_update-IsContiguous c now update s s' two u64 inv
        (sync_committee_period_update-ok c now origin update s s' h).1
  call-IsContiguous now origin (finalized_header update) s s' two u64 h inv =
      let kept =
        finalized_keeps now update s s' (import_finalized_header-ok c now origin update s s' h).1 in
      IsContiguous-same s s' kept.0 kept.1 inv
  call-IsContiguous now origin (execution_header update) s s' two u64 h inv =
      let kept = header_keeps update s s' (import_execution_header-ok c origin update s s' h).1 in
      IsContiguous-same s s' kept.0 kept.1 inv
  call-IsContiguous now origin unblock s s' two u64 h inv =
      let kept = unblock_keeps origin s s' h in IsContiguous-same s s' kept.0 kept.1 inv

  -- Every sequence of extrinsics keeps the periods of the stored committees contiguous, from a
  -- first one up to the latest, where the attested slots are u64 and an epoch has two slots.
  pub run-IsContiguous :
      (xs : List Submission) (s : Client)
      → 2 ≤ c.preset.slots_per_epoch
      → All (λ x. attested_slot (Submission.call x) < 2 ^ 64) xs
      → IsContiguous s
      → IsContiguous (run c xs s)
  run-IsContiguous xs s two u64 inv =
      run-keeps c IsContiguous (λ x. attested_slot (Submission.call x) < 2 ^ 64)
        (λ x t q b. elim (dispatch_outcome x.now x.origin x.call t) [
          | inl e ↦ call-IsContiguous x.now x.origin x.call t _ two q e b
          | inr e ↦ rw e b
        ])
        xs s u64 inv

  initial_sync_committees :
      (initial_sync : InitialSync) (s' : Client) (period : ℕ)
      → process_initial_sync c initial_sync empty_client ≡ (ok tt, s')
      → (s'.latest_sync_committee_period
          ≡ compute_current_sync_period c.preset initial_sync.header.slot)
        × (s'.sync_committees period ≡ (
            if period == s'.latest_sync_committee_period
            then some initial_sync.current_sync_committee
            else none))
  unfolding process_initial_sync
  initial_sync_committees initial_sync s' period h = ground arith

  -- The initial sync over empty storage, if it returns, leaves one committee, the one that it was
  -- given, stored for the period of its header, which is the latest period; so the periods of the
  -- stored committees are contiguous. The slot is a u64 and an epoch has two slots.
  pub process_initial_sync-IsContiguous :
      (initial_sync : InitialSync) (s' : Client)
      → 2 ≤ c.preset.slots_per_epoch
      → initial_sync.header.slot < 2 ^ 64
      → process_initial_sync c initial_sync empty_client ≡ (ok tt, s')
      → (s'.latest_sync_committee_period
          ≡ initial_sync.header.slot / c.preset.slots_per_epoch
            / c.preset.epochs_per_sync_committee_period)
        × (s'.sync_committees s'.latest_sync_committee_period
            ≡ some initial_sync.current_sync_committee)
        × ((period : ℕ)
            → contains_key s'.sync_committees period ≡ (period == s'.latest_sync_committee_period))
        × IsContiguous s'
  unfolding compute_current_sync_period
  process_initial_sync-IsContiguous initial_sync s' two u64 h =
      let latest = (initial_sync_committees initial_sync s' 0 h).0 in
      let small = period-lt c.preset initial_sync.header.slot two u64 in
      (
        latest,
        (let at = (initial_sync_committees initial_sync s' s'.latest_sync_committee_period h).1 in
            ground arith),
        λ period. (let at = (initial_sync_committees initial_sync s' period h).1 in ground arith),
        (
          omega (arith, latest, small),
          s'.latest_sync_committee_period,
          λ period.
              rw (initial_sync_committees initial_sync s' period h).1
                (λ e. ground arith, λ p. ground arith),
        ),
      )
