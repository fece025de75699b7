-- ===== src/Examples/Receipts.antt =====
-- Examples for receipts and their proofs, with a toy `rlp` where the items of a text are its bytes.
use snowbridge.Shared.{
  true, false, none, some, [], ◌∷◌, map, replicate, length, ◌==◌, if◌then◌else◌, ◌≡◌, ◌↔◌, refl,
}
use snowbridge.Shared.Bytes.{Bytes, from_be}
use snowbridge.Shared.Outcome.{ok, ◌>>=◌}
use snowbridge.Shared.Storage.{insert}
use snowbridge.Core.{Message}
use snowbridge.Ethereum.Rlp.{RlpCrate}
use snowbridge.Ethereum.Log.{Log, list_eq, log_eq, decode_log}
use snowbridge.Ethereum.Receipt.{Receipt, contains_log, decode_bloom, decode_list, decode_receipt}
use snowbridge.Ethereum.Mpt.{decode_short}
use snowbridge.Ethereum.ReceiptProof.{
  apply_merkle_proof, check_receipt_proof, Holds, check_receipt_proof_iff,
}
use snowbridge.Beacon.Types.{ExecutionHeader}
use snowbridge.Beacon.Store.{Client, empty_client}
use snowbridge.Beacon.Receipts.{verify_receipt_inclusion, verify, verify-Holds}
use snowbridge.Examples.Toy.{toy_hash}

abbrev receipt_bytes : Bytes
receipt_bytes = 1 ∷ 2 ∷ 9 ∷ 3 ∷ []

abbrev pub log_bytes : Bytes
log_bytes = 5 ∷ 6 ∷ 7 ∷ []

abbrev toy_bytes : Bytes → Bytes
toy_bytes [] = []
toy_bytes (b ∷ bs) = if b == 9 then replicate 256 0 else if b == 8 then receipt_bytes else b ∷ bs

abbrev pub toy_crate : RlpCrate
toy_crate = record {
  Rlp = Bytes;
  new = λ bytes. bytes;
  items = map (λ b. b ∷ []);
  item_count = λ r. ok (length r);
  is_data = λ r. false;
  is_list = λ r. true;
  as_raw = λ r. r;
  payload = λ r. ok r;
  as_bytes = λ r. ok (toy_bytes r);
  as_u64 = λ r. ok (from_be 0 r);
  as_address = λ r. ok (from_be 0 r);
  as_hashes = λ r. ok r;
  as_list = λ A decode r. (decode log_bytes >>= λ a. ok (a ∷ []));
}

-- The trie of one node, which holds the receipt.
abbrev pub node_bytes : Bytes
node_bytes = 4 ∷ 8 ∷ []

abbrev pub the_log : Log
the_log = record { address = 5; topics = 6 ∷ []; payload = 7 ∷ [] }

abbrev the_receipt : Receipt
the_receipt = record {
  post_state_or_status = 1 ∷ [];
  cumulative_gas_used = 2;
  bloom = replicate 256 0;
  logs = the_log ∷ [];
}

check_receipt_proof_iff_example :
    (check_receipt_proof toy_crate toy_hash (toy_hash node_bytes) (node_bytes ∷ [])
      ≡ some (ok the_receipt))
    ↔ ((item : Bytes) × Holds toy_crate toy_hash (toy_hash node_bytes) (node_bytes ∷ []) item
        × (decode_receipt toy_crate item ≡ ok the_receipt))
check_receipt_proof_iff_example =
    check_receipt_proof_iff toy_crate toy_hash (toy_hash node_bytes) (node_bytes ∷ [])
      (ok the_receipt)

abbrev imported : ExecutionHeader
imported = record {
  parent_hash = 0;
  fee_recipient = 0;
  state_root = 0;
  receipts_root = toy_hash node_bytes;
  logs_bloom = [];
  prev_randao = 0;
  block_number = 12;
  gas_limit = 0;
  gas_used = 0;
  timestamp = 0;
  extra_data = [];
  base_fee_per_gas = 0;
  block_hash = 33;
  transactions_root = 0;
}

abbrev pub client : Client
client = record empty_client { execution_headers = insert 33 imported (λ k. none) }

abbrev pub message : Message
message = record {
  payload = log_bytes;
  proof = record { block_hash = 33; tx_index = 0; proof_keys = []; proof_values = node_bytes ∷ [] };
}

verify-Holds_example :
    (header : ExecutionHeader) × (receipt : Receipt) × (item : Bytes) × (client.execution_headers 33
      ≡ some header)
    × (header.block_number ≡ 12)
    × (decode_log toy_crate log_bytes ≡ ok the_log)
    × Holds toy_crate toy_hash header.receipts_root (node_bytes ∷ []) item
    × (decode_receipt toy_crate item ≡ ok receipt)
    × (contains_log receipt the_log ≡ true)
unfolding verify verify_receipt_inclusion check_receipt_proof apply_merkle_proof decode_receipt
    decode_list decode_bloom decode_short decode_log contains_log log_eq list_eq
verify-Holds_example = verify-Holds toy_crate toy_hash client message the_log 12 refl
