-- ===== src/Ethereum/Receipt.antt =====
-- parachain/primitives/ethereum/src/receipt.rs, with `Bloom` of header.rs: a bloom is its bytes.
use snowbridge.Shared.{ℕ, Bool, false, ◌||◌, List, [], ◌∷◌, ◌==◌, if◌then◌else◌, length}
use snowbridge.Shared.Bytes.{Bytes}
use snowbridge.Shared.Outcome.{ok, err, ok_or, ◌>>=◌}
use snowbridge.Ethereum.Rlp.{
  RlpCrate, Decoded, custom, rlp_expected_to_be_list, index_panic, expected_status,
  expected_gas_used, expected_bloom, expected_logs, unsupported_receipt_type, expected_256_bytes,
}
use snowbridge.Ethereum.Log.{Log, log_eq, decode_log, next_item}

pub record Receipt : Type 0 where
  pub post_state_or_status : Bytes
  pub cumulative_gas_used : ℕ
  pub bloom : Bytes
  pub logs : List Log

-- `self.logs.iter().find(|&l| l == log).is_some()`
any_log : Log → List Log → Bool
any_log log [] = false
any_log log (l ∷ logs) = log_eq l log || any_log log logs

unfoldable pub contains_log : Receipt → Log → Bool
unfolding any_log
contains_log receipt log = any_log log receipt.logs

module _ (crate : RlpCrate) where
  open crate use {Rlp, new, items, is_data, is_list, as_raw, as_bytes, as_u64, as_list}

  -- `Bloom::decode`
  unfoldable pub decode_bloom : Rlp → Decoded Bytes
  decode_bloom rlp = do
    v ← as_bytes rlp
    if length v == 256 then ok v else err (custom expected_256_bytes)

  unfoldable pub decode_list : Rlp → Decoded Receipt
  decode_list rlp = do
    (first, iter) ← ok_or (next_item (items rlp)) (custom expected_status)
    post_state_or_status ← as_bytes first
    (second, iter') ← ok_or (next_item iter) (custom expected_gas_used)
    cumulative_gas_used ← as_u64 second
    (third, iter'') ← ok_or (next_item iter') (custom expected_bloom)
    bloom ← decode_bloom third
    (fourth, rest) ← ok_or (next_item iter'') (custom expected_logs)
    logs ← as_list Log (decode_log crate) fourth
    ok (record {
      post_state_or_status = post_state_or_status;
      cumulative_gas_used = cumulative_gas_used;
      bloom = bloom;
      logs = logs;
    })

  -- A typed receipt: a type byte before the list.
  decode_typed : Bytes → Decoded Receipt
  decode_typed [] = err index_panic
  decode_typed (kind ∷ rest) =
      if kind == 1 || kind == 2
      then (if is_list (new rest) then decode_list (new rest) else err rlp_expected_to_be_list)
      else err (custom unsupported_receipt_type)

  unfoldable pub decode_receipt : Rlp → Decoded Receipt
  unfolding decode_typed
  decode_receipt rlp =
      if is_data rlp
      then decode_typed (as_raw rlp)
      else if is_list rlp
      then decode_list rlp
      else err rlp_expected_to_be_list
