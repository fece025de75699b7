-- ===== src/Light/Verify.antt =====
-- `verify_receipt_inclusion` and `Verifier::verify` of
-- parachain/pallets/ethereum-light-client/src/lib.rs, and what a log that is verified shows.
use snowbridge.Shared.{ℕ, true, some, ◌≡◌, ◌∙◌, arith, inl, inr, Option-cases, not, if◌then◌else◌}
use snowbridge.Shared.Bytes.{Bytes}
use snowbridge.Shared.Outcome.{Result-cases, ok, err, ok_or, map_err, ensure, ◌>>=◌, ◌>>◌}
use snowbridge.Core.{Message, Proof, Verifier}
use snowbridge.Ethereum.Header.{Header}
use snowbridge.Ethereum.Log.{Log, decode_log}
use snowbridge.Ethereum.Receipt.{Receipt, contains_log, decode_receipt}
use snowbridge.Ethereum.ReceiptProof.{check_receipt_proof, Holds, check_receipt_proof_iff}
use snowbridge.Light.{
  Setup, StoredHeader, LightClient, Error, Checked, missing_header, header_not_finalized,
  invalid_proof, decode_failed,
}

module _ (c : Setup) where
  open c use {crate, keccak}

  unfoldable pub verify_receipt_inclusion : LightClient → Proof → Checked Receipt
  verify_receipt_inclusion s proof = do
    stored_header ← ok_or (s.headers proof.block_hash) missing_header
    ensure (StoredHeader.finalized stored_header) header_not_finalized
    result ←
        ok_or
          (check_receipt_proof crate keccak
            (Header.receipts_root (StoredHeader.header stored_header)) proof.proof_values)
          invalid_proof
    map_err result invalid_proof

  unfoldable pub verify : LightClient → Message → Checked (Log × ℕ)
  verify s message = do
    receipt ← verify_receipt_inclusion s message.proof
    log ← map_err (decode_log crate (crate.new message.payload)) decode_failed
    if not (contains_log receipt log) then err invalid_proof else ok (log, 0)

  -- The light client as the verifier of an inbound channel.
  abbrev pub light_verifier : LightClient → Verifier Error
  light_verifier s = record { verify = verify s }

  -- What a verified log shows: it is what the message decodes to, the header under the block hash of
  -- the proof is stored and finalized, and the log is one of those of a receipt that a path of trie
  -- nodes shows below the receipts root of that header.
  unfoldable pub IsShown : LightClient → Message → Log → Type 0
  IsShown s message log =
      (stored : StoredHeader) × (receipt : Receipt) × (item : Bytes) × (s.headers
          message.proof.block_hash
        ≡ some stored)
      × (stored.finalized ≡ true)
      × (decode_log crate (crate.new message.payload) ≡ ok log)
      × Holds crate keccak stored.header.receipts_root message.proof.proof_values item
      × (decode_receipt crate (crate.new item) ≡ ok receipt)
      × (contains_log receipt log ≡ true)

  -- A log that the light client verifies is shown by its storage, and comes with the number 0.
  pub verify-IsShown :
      (s : LightClient) (message : Message) (log : Log) (block_number : ℕ)
      → verify s message ≡ ok (log, block_number)
      → IsShown s message log × (block_number ≡ 0)
  unfolding verify verify_receipt_inclusion IsShown
  verify-IsShown s message log block_number h =
      elim (Option-cases (s.headers message.proof.block_hash)) [
        | inl e ↦ absurd (ground arith)
        | inr (stored, e) ↦
            elim (Option-cases (
              check_receipt_proof crate keccak stored.header.receipts_root
                message.proof.proof_values)) [
                  | inl f ↦ absurd (ground arith)
                  | inr (decoded, f) ↦ elim (Result-cases decoded) [
                    | inr (x, g) ↦ absurd (ground arith)
                    | inl (receipt, g) ↦
                        let (item, path, d) =
                          (check_receipt_proof_iff crate keccak stored.header.receipts_root
                              message.proof.proof_values decoded).0
                            f in
                        (
                          (
                            stored,
                            receipt,
                            item,
                            e,
                            ground arith,
                            ground arith,
                            path,
                            d ∙ g,
                            ground arith,
                          ),
                          ground arith,
                        )
                  ]
                ]
      ]
