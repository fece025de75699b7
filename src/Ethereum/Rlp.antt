-- ===== src/Ethereum/Rlp.antt =====
-- What the code uses of the `rlp` crate: a record of its operations. `custom` errors are those
-- that the bridge's own decoders raise.
use snowbridge.Shared.{ℕ, Bool, List}
use snowbridge.Shared.Bytes.{Bytes, H160, H256}
use snowbridge.Shared.Outcome.{Result}

pub data CustomError : Type 0 where
  expected_log_address expected_log_topics expected_log_data : CustomError
  expected_status expected_gas_used expected_bloom expected_logs : CustomError
  unsupported_receipt_type expected_256_bytes invalid_item_count : CustomError
  expected_hash_or_empty expected_key expected_value : CustomError

-- `index_panic` is no error of the crate: the code indexes the first byte of an empty text.
pub data DecoderError : Type 0 where
  crate_error : ℕ → DecoderError
  rlp_expected_to_be_list : DecoderError
  custom : CustomError → DecoderError
  index_panic : DecoderError

abbrev pub Decoded : Type 0 → Type 0
Decoded A = Result DecoderError A

pub record RlpCrate : Type 1 where
  pub Rlp : Type 0
  pub new : Bytes → Rlp
  -- `iter()`
  pub items : Rlp → List Rlp
  pub item_count : Rlp → Decoded ℕ
  pub is_data : Rlp → Bool
  pub is_list : Rlp → Bool
  pub as_raw : Rlp → Bytes
  -- `data()`
  pub payload : Rlp → Decoded Bytes
  -- `as_val::<Vec<u8>>()`, `as_val::<u64>()`, `as_val::<H160>()`
  pub as_bytes : Rlp → Decoded Bytes
  pub as_u64 : Rlp → Decoded ℕ
  pub as_address : Rlp → Decoded H160
  -- `as_list::<H256>()`, and `as_list::<T>()` by the decoder of `T`
  pub as_hashes : Rlp → Decoded (List H256)
  pub as_list : (A : Type 0) → (Rlp → Decoded A) → Rlp → Decoded (List A)
