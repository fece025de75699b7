-- ===== src/Ethereum/Header.antt =====
-- parachain/primitives/ethereum/src/header.rs: a header, its hashes and the fields of its seal. What
-- `RlpStream` gives for a list of items is the section's parameter, as is the hash.
pub mod Seal
use snowbridge.Shared.{
  ℕ, zero, suc, ◌+◌, ◌-◌, Bool, true, false, not, Option, none, some, List, [], ◌∷◌, ◌++◌, map,
  length, get_elem?, replicate, ltb, ◌==◌, if◌then◌else◌,
}
use snowbridge.Shared.Bytes.{Bytes, H256, H160, from_be}
use snowbridge.Shared.Outcome.{ok, err}
use snowbridge.Ethereum.Rlp.{RlpCrate, Decoded}

pub record HeaderId : Type 0 where
  pub number : ℕ
  pub hash : H256

pub record Header : Type 0 where
  pub parent_hash : H256
  pub timestamp : ℕ
  pub number : ℕ
  pub author : H160
  pub transactions_root : H256
  pub ommers_hash : H256
  pub extra_data : Bytes
  pub state_root : H256
  pub receipts_root : H256
  pub logs_bloom : Bytes
  pub gas_used : ℕ
  pub gas_limit : ℕ
  pub difficulty : ℕ
  pub seal : List Bytes
  pub base_fee : Option ℕ

abbrev pub empty_ommers_hash : H256
empty_ommers_hash = 0x1dcc4de8dec75d7aab85b567b6ccd41ad312451b948a7413f0a142fd40d49347

abbrev pub has_ommers : Header → Bool
has_ommers header = not (header.ommers_hash == empty_ommers_hash)

-- What is appended to a stream: an item that the stream encodes, or one that is encoded already.
pub data RlpItem : Type 0 where
  hash : H256 → RlpItem
  address : H160 → RlpItem
  bloom : Bytes → RlpItem
  uint : ℕ → RlpItem
  text : Bytes → RlpItem
  raw : Bytes → RlpItem

unfoldable pub fee_items : Option ℕ → List RlpItem
fee_items none = []
fee_items (some base_fee) = RlpItem.uint base_fee ∷ []

unfoldable pub seal_items : Bool → List Bytes → List RlpItem
seal_items with_seal seal = if with_seal then map RlpItem.raw seal else []

-- The items that `rlp` appends, in order.
unfoldable pub rlp_items : Bool → Header → List RlpItem
unfolding fee_items seal_items
rlp_items with_seal header =
    RlpItem.hash header.parent_hash
    ∷ RlpItem.hash header.ommers_hash
    ∷ RlpItem.address header.author
    ∷ RlpItem.hash header.state_root
    ∷ RlpItem.hash header.transactions_root
    ∷ RlpItem.hash header.receipts_root
    ∷ RlpItem.bloom header.logs_bloom
    ∷ RlpItem.uint header.difficulty
    ∷ RlpItem.uint header.number
    ∷ RlpItem.uint header.gas_limit
    ∷ RlpItem.uint header.gas_used
    ∷ RlpItem.uint header.timestamp
    ∷ RlpItem.text header.extra_data
    ∷ (seal_items with_seal header.seal ++ fee_items header.base_fee)

unfoldable pub without_seal : Option ℕ → ℕ
without_seal none = 13
without_seal (some base_fee) = 14

-- The length that the list is begun with.
unfoldable pub rlp_length : Bool → Header → ℕ
unfolding without_seal
rlp_length with_seal header =
    if with_seal
    then without_seal header.base_fee + length header.seal
    else without_seal header.base_fee

module _ (keccak : Bytes → H256) (stream_out : ℕ → List RlpItem → Bytes) where
  unfoldable pub rlp : Bool → Header → Bytes
  rlp with_seal header = stream_out (rlp_length with_seal header) (rlp_items with_seal header)

  unfoldable pub compute_hash : Header → H256
  compute_hash header = keccak (rlp true header)

  unfoldable pub compute_partial_hash : Header → H256
  compute_partial_hash header = keccak (rlp false header)

-- A write into an array, and a read of a list, at an index that is in range.
abbrev pub set : ℕ → ℕ → Bytes → Bytes
set i v [] = []
set zero v (b ∷ bs) = v ∷ bs
set (suc i) v (b ∷ bs) = b ∷ set i v bs

abbrev pub byte_at : Bytes → ℕ → ℕ
byte_at [] i = 0
byte_at (b ∷ bs) zero = b
byte_at (b ∷ bs) (suc i) = byte_at bs i

-- `for i in 0..size { array[width - 1 - i] = bytes[size - 1 - i] }`, from the round `i` on.
unfoldable pub align_right : ℕ → ℕ → ℕ → Bytes → Bytes → Bytes
align_right zero i width bytes array = array
align_right (suc rounds) i width bytes array =
    align_right rounds (i + 1) width bytes
      (set (width - 1 - i) (byte_at bytes (length bytes - 1 - i)) array)

module _ (crate : RlpCrate) where
  open crate use {new, as_bytes}

  unfoldable pub within : ℕ → Decoded Bytes → Option Bytes
  within max_len (err e) = none
  within max_len (ok bytes) = if ltb max_len (length bytes) then none else some bytes

  unfoldable pub seal_field : ℕ → Option Bytes → Option Bytes
  seal_field max_len none = none
  seal_field max_len (some field) = within max_len (as_bytes (new field))

  unfoldable pub decoded_seal_field : Header → ℕ → ℕ → Option Bytes
  unfolding within seal_field
  decoded_seal_field header index max_len = seal_field max_len (get_elem? header.seal index)

  unfoldable pub aligned : ℕ → Option Bytes → Option ℕ
  aligned width none = none
  aligned width (some bytes) =
      some (from_be 0 (align_right (length bytes) 0 width bytes (replicate width 0)))

  unfoldable pub mix_hash : Header → Option H256
  unfolding aligned
  mix_hash header = aligned 32 (decoded_seal_field header 0 32)

  -- `H64`, as the number that its bytes spell.
  unfoldable pub nonce : Header → Option ℕ
  unfolding aligned
  nonce header = aligned 8 (decoded_seal_field header 1 8)
