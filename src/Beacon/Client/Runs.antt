-- ===== src/Beacon/Client/Runs.antt =====
-- Sequences of the extrinsics of parachain/pallets/ethereum-beacon-client/src/lib.rs, each at its
-- own time and from its own origin, over one storage.
use snowbridge.Shared.{ℕ, List, [], ◌∷◌, All}
use snowbridge.Core.{Origin}
use snowbridge.Beacon.Types.{SyncCommitteePeriodUpdate, FinalizedHeaderUpdate, HeaderUpdate}
use snowbridge.Beacon.Store.{Config, Client, Call}
use snowbridge.Beacon.Client.{
  import_finalized_header, import_execution_header, sync_committee_period_update, unblock_bridge,
}

-- An extrinsic with its arguments.
pub data Extrinsic : Type 0 where
  period_update : SyncCommitteePeriodUpdate → Extrinsic
  finalized_header : FinalizedHeaderUpdate → Extrinsic
  execution_header : HeaderUpdate → Extrinsic
  unblock : Extrinsic

pub record Submission : Type 0 where
  pub now : ℕ
  pub origin : Origin
  pub call : Extrinsic

-- The slot of the header that a call has attested, where it has one.
abbrev pub attested_slot : Extrinsic → ℕ
attested_slot (period_update update) = update.attested_header.slot
attested_slot (finalized_header update) = update.attested_header.slot
attested_slot (execution_header update) = 0
attested_slot unblock = 0

module _ (c : Config) where
  abbrev pub dispatch : ℕ → Origin → Extrinsic → Call Unit
  dispatch now origin (period_update update) = sync_committee_period_update c now origin update
  dispatch now origin (finalized_header update) = import_finalized_header c now origin update
  dispatch now origin (execution_header update) = import_execution_header c origin update
  dispatch now origin unblock = unblock_bridge origin

  abbrev pub run : List Submission → Client → Client
  run [] s = s
  run (x ∷ xs) s = run xs (dispatch x.now x.origin x.call s).1

  -- A property that every extrinsic of a kind keeps is kept by every sequence of that kind.
  pub run-keeps {κ} :
      (P : Client → Type κ) (Q : Submission → Type κ)
      → ((x : Submission) (s : Client) → Q x → P s → P (dispatch x.now x.origin x.call s).1)
      → (xs : List Submission) (s : Client) → All Q xs
      → P s
      → P (run xs s)
  run-keeps P Q keeps [] s q h = h
  run-keeps P Q keeps (x ∷ xs) s q h = run-keeps P Q keeps xs _ q.1 (keeps x s q.0 h)
