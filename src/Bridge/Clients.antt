-- ===== src/Bridge/Clients.antt =====
-- The two clients under the inbound channel.
use snowbridge.Shared.{true, some, Option, List, All, ◌≡◌}
use snowbridge.Shared.Bytes.{Bytes, H160, H256}
use snowbridge.Shared.Outcome.{ok}
use snowbridge.Core.{Message}
use snowbridge.Ethabi.{Tokens}
use snowbridge.Ethereum.Log.{Log, decode_log}
use snowbridge.Ethereum.Rlp.{RlpCrate}
use snowbridge.Ethereum.Receipt.{Receipt, contains_log, decode_receipt}
use snowbridge.Ethereum.ReceiptProof.{Holds}
use snowbridge.Beacon.Types.{ExecutionHeader}
use snowbridge.Beacon.Store.{Config}
use snowbridge.Beacon.Store as Store
use snowbridge.Beacon.Receipts.{beacon_verifier, verify-Holds}
use snowbridge.Beacon.Client.Runs as Runs
use snowbridge.Light.{Setup, LightClient}
use snowbridge.Light as Light
use snowbridge.Light.Verify.{light_verifier, verify-IsShown}
use snowbridge.Light.Verify as Verify
use snowbridge.Light.Calls.{import_one}
use snowbridge.Light.Calls as Calls
use snowbridge.Inbound.{genesis}
use snowbridge.Bridge.{EthereumClient, Step, run, IsTraced, run-IsTraced}

module _ (c : Config) (crate : RlpCrate) (keccak : Bytes → H256) where
  -- What the storage of the beacon client shows of a log.
  unfoldable pub IsShownByBeacon : Store.Client → Message → Log → Type 0
  IsShownByBeacon s message log =
      (header : ExecutionHeader) × (receipt : Receipt) × (item : Bytes) × (s.execution_headers
          message.proof.block_hash
        ≡ some header)
      × (decode_log crate (crate.new message.payload) ≡ ok log)
      × Holds crate keccak header.receipts_root message.proof.proof_values item
      × (decode_receipt crate (crate.new item) ≡ ok receipt)
      × (contains_log receipt log ≡ true)

  unfoldable pub beacon : EthereumClient Store.Client Store.Error Runs.Submission
  unfolding IsShownByBeacon
  beacon = record {
    verifier = beacon_verifier crate keccak;
    call = λ x s. (Runs.dispatch c x.now x.origin x.call s).1;
    IsShown = IsShownByBeacon;
    shows = λ s message log block_number h.
        (let (header, receipt, item, at, _, decoded, holds, receipt_e, contains) =
            verify-Holds crate keccak s message log block_number h in
          (header, receipt, item, at, decoded, holds, receipt_e, contains));
  }

-- The light client, of which the calls are imports of headers.
unfoldable pub light : Setup → EthereumClient LightClient Light.Error Calls.Submission
light c = record {
  verifier = light_verifier c;
  call = import_one c;
  IsShown = Verify.IsShown c;
  shows = λ s message log block_number h. (verify-IsShown c s message log block_number h).0;
}

module _ (c : Config) (crate : RlpCrate) (keccak : Bytes → H256)
    (decode_event : List H256 → Bytes → Option Tokens) where
  -- Over every sequence of extrinsics of the beacon client and submissions to the inbound channel,
  -- in any order, from any storage of the client and the genesis of the channel, each message that
  -- is dispatched was delivered by a submission of the sequence, and is the envelope, from the source
  -- channel, of a log in a receipt that a path of trie nodes shows below the receipts root of an
  -- execution header which the client held when the calls before that submission had been made.
  pub beacon_dispatched :
      (s : Store.Client) (source_channel : H160) (xs : List (Step Runs.Submission))
      → All
          (IsTraced (beacon c crate keccak) decode_event xs (s, genesis source_channel))
          (run (beacon c crate keccak) decode_event xs (s, genesis source_channel)).1.dispatched
  beacon_dispatched s source_channel xs =
      run-IsTraced (beacon c crate keccak) decode_event s source_channel xs

module _ (c : Setup) (decode_event : List H256 → Bytes → Option Tokens) where
  -- Over every sequence of imports of headers by the light client and submissions to the inbound
  -- channel, in any order, from any storage of the client and the genesis of the channel, each
  -- message that is dispatched was delivered by a submission of the sequence, and is the envelope,
  -- from the source channel, of a log in a receipt that a path of trie nodes shows below the
  -- receipts root of a finalized header which the client held when the calls before that submission
  -- had been made.
  pub light_dispatched :
      (s : LightClient) (source_channel : H160) (xs : List (Step Calls.Submission))
      → All
          (IsTraced (light c) decode_event xs (s, genesis source_channel))
          (run (light c) decode_event xs (s, genesis source_channel)).1.dispatched
  light_dispatched s source_channel xs = run-IsTraced (light c) decode_event s source_channel xs
