-- ===== src/Beacon/Receipts.antt =====
-- `verify_receipt_inclusion` and `Verifier::verify` of
-- parachain/pallets/ethereum-beacon-client/src/lib.rs, and what a log that is verified shows.
use snowbridge.Shared.{ℕ, true, some, ◌≡◌, ◌∙◌, arith, inl, inr, Option-cases, not, if◌then◌else◌}
use snowbridge.Shared.Bytes.{Bytes, H256}
use snowbridge.Shared.Outcome.{Result-cases, ok, err, ok_or, map_err, ◌>>=◌}
use snowbridge.Core.{Message, Proof, Verifier}
use snowbridge.Ethereum.Rlp.{RlpCrate}
use snowbridge.Ethereum.Log.{Log, decode_log}
use snowbridge.Ethereum.Receipt.{Receipt, contains_log, decode_receipt}
use snowbridge.Ethereum.ReceiptProof.{check_receipt_proof, Holds, check_receipt_proof_iff}
use snowbridge.Beacon.Types.{ExecutionHeader}
use snowbridge.Beacon.Store.{Client, Error, missing_header, invalid_proof, decode_failed}
use snowbridge.Beacon.Signature.{Checked}

module _ (crate : RlpCrate) (keccak : Bytes → H256) where
  open crate use {new}

  unfoldable pub verify_receipt_inclusion : ExecutionHeader → Proof → Checked Receipt
  verify_receipt_inclusion stored_header proof = do
    decoded ←
        ok_or (check_receipt_proof crate keccak stored_header.receipts_root proof.proof_values)
          invalid_proof
    map_err decoded invalid_proof

  unfoldable pub verify : Client → Message → Checked (Log × ℕ)
  verify s message = do
    stored_header ← ok_or (s.execution_headers message.proof.block_hash) missing_header
    receipt ← verify_receipt_inclusion stored_header message.proof
    log ← map_err (decode_log crate (new message.payload)) decode_failed
    if not (contains_log receipt log)
        then err invalid_proof
        else ok (log, ExecutionHeader.block_number stored_header)

  -- The beacon client as the verifier of an inbound channel.
  abbrev pub beacon_verifier : Client → Verifier Error
  beacon_verifier s = record { verify = verify s }

  -- A verified log is what the message decodes to, its block is a stored execution header under
  -- the block hash of the proof, whose number comes with it, and it is one of the logs of a
  -- receipt that a path of trie nodes shows below the receipts root of that header.
  pub verify-Holds :
      (s : Client) (message : Message) (log : Log) (block_number : ℕ)
      → verify s message ≡ ok (log, block_number)
      → (header : ExecutionHeader) × (receipt : Receipt) × (item : Bytes) × (s.execution_headers
            message.proof.block_hash
          ≡ some header)
        × (header.block_number ≡ block_number)
        × (decode_log crate (new message.payload) ≡ ok log)
        × Holds crate keccak header.receipts_root message.proof.proof_values item
        × (decode_receipt crate (new item) ≡ ok receipt)
        × (contains_log receipt log ≡ true)
  unfolding verify verify_receipt_inclusion
  verify-Holds s message log block_number h =
      elim (Option-cases (s.execution_headers message.proof.block_hash)) [
        | inl e ↦ absurd (ground arith)
        | inr (header, e) ↦
            elim (Option-cases
              (check_receipt_proof crate keccak header.receipts_root message.proof.proof_values)) [
                | inl f ↦ absurd (ground arith)
                | inr (decoded, f) ↦ elim (Result-cases decoded) [
                  | inr (x, g) ↦ absurd (ground arith)
                  | inl (receipt, g) ↦
                      let (item, path, d) =
                        (check_receipt_proof_iff crate keccak header.receipts_root
                            message.proof.proof_values decoded).0
                          f in
                      (
                        header,
                        receipt,
                        item,
                        e,
                        ground arith,
                        ground arith,
                        path,
                        d ∙ g,
                        ground arith,
                      )
                ]
              ]
      ]
