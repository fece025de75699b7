-- ===== src/Ethereum/Header/Seal.antt =====
-- What the fields of a seal stand for, and the length of a header's encoding.
use mathlib.Core.List.{append-nil}
use mathlib.Core.Option
use snowbridge.Shared.{
  ℕ, zero, suc, ◌+◌, ◌-◌, ◌≤◌, ◌<◌, Bool, Option, none, some, [], ◌∷◌, ◌++◌, length, length-append,
  length-map, map, replicate, drop, ◌≡◌, refl, ap, sym, ◌∙◌, arith,
}
use snowbridge.Shared.Bytes.{Bytes, from_be}
use snowbridge.Shared.Outcome.{ok, err}
use snowbridge.Ethereum.Rlp.{RlpCrate, Decoded}
use snowbridge.Ethereum.Header.{
  Header, RlpItem, fee_items, seal_items, without_seal, seal_field, within, aligned, rlp_items,
  rlp_length, set, byte_at, align_right, mix_hash, nonce, decoded_seal_field,
}

length-fee_items : (base_fee : Option ℕ) → without_seal base_fee ≡ 13 + length (fee_items base_fee)
unfolding fee_items without_seal
length-fee_items none = refl
length-fee_items (some base_fee) = refl

-- The list that `rlp` begins is as long as the items that it appends, so that the stream is
-- complete, with the seal and without it.
pub rlp_length-rlp_items :
    (with_seal : Bool) (header : Header)
    → rlp_length with_seal header ≡ length (rlp_items with_seal header)
unfolding rlp_length rlp_items seal_items
rlp_length-rlp_items with_seal header =
    let seals = length-append (map RlpItem.raw header.seal) (fee_items header.base_fee) in
    let raws = length-map header.seal RlpItem.raw in
    let fees = length-fee_items header.base_fee in ground arith

drop-byte_at :
    (bytes : Bytes) (k : ℕ) → k < length bytes → byte_at bytes k ∷ drop (suc k) bytes ≡ drop k bytes
drop-byte_at [] k h = elim h [ ]
drop-byte_at (b ∷ bytes) zero h = refl
drop-byte_at (b ∷ bytes) (suc k) h = drop-byte_at bytes k (omega arith)

drop_all : (bytes : Bytes) → drop (length bytes) bytes ≡ []
drop_all [] = refl
drop_all (b ∷ bytes) = drop_all bytes

set-replicate :
    (k b : ℕ) (rest : Bytes) → set k b (replicate (suc k) 0 ++ rest) ≡ replicate k 0 ++ b ∷ rest
set-replicate zero b rest = refl
set-replicate (suc k) b rest = ap (λ xs. 0 ∷ xs) (set-replicate k b rest)

-- The array after the first bytes from the right were copied.
copied : ℕ → Bytes → ℕ → Bytes
copied width bytes i = replicate (width - i) 0 ++ drop (length bytes - i) bytes

copied_suc :
    (width : ℕ) (bytes : Bytes) (i : ℕ)
    → i < length bytes
    → length bytes ≤ width
    → set (width - 1 - i) (byte_at bytes (length bytes - 1 - i)) (copied width bytes i)
      ≡ copied width bytes (i + 1)
unfolding copied
copied_suc width bytes i lt le =
    let k = width - 1 - i in
    let j = length bytes - 1 - i in
    let e : width - i ≡ suc k = (omega arith) in
    let e1 : length bytes - i ≡ suc j = (omega arith) in
    let e2 : width - (i + 1) ≡ k = (omega arith) in
    let e3 : length bytes - (i + 1) ≡ j = (omega arith) in
    rw e (
      rw e1 (
        rw e2 (
          rw e3 (
            set-replicate k (byte_at bytes j) (drop (suc j) bytes)
            ∙ ap (λ xs. replicate k 0 ++ xs) (drop-byte_at bytes j (omega arith))))))

align_right-copied :
    (rounds i width : ℕ) (bytes : Bytes)
    → i + rounds ≡ length bytes
    → length bytes ≤ width
    → align_right rounds i width bytes (copied width bytes i) ≡ copied width bytes (length bytes)
unfolding align_right
align_right-copied zero i width bytes e le = ap (copied width bytes) (omega arith)
align_right-copied (suc rounds) i width bytes e le =
    ap (align_right rounds (i + 1) width bytes) (copied_suc width bytes i (omega arith) le)
    ∙ align_right-copied rounds (i + 1) width bytes (omega arith) le

from_be-replicate : (k : ℕ) (bytes : Bytes) → from_be 0 (replicate k 0 ++ bytes) ≡ from_be 0 bytes
from_be-replicate zero bytes = refl
from_be-replicate (suc k) bytes = from_be-replicate k bytes

copied_none : (width : ℕ) (bytes : Bytes) → copied width bytes 0 ≡ replicate width 0
unfolding copied
copied_none width bytes =
    let e : width - 0 ≡ width = (omega arith) in
    let e1 : length bytes - 0 ≡ length bytes = (omega arith) in
    rw e (rw e1 (rw (drop_all bytes) (append-nil (replicate width 0))))

from_be-align_right :
    (width : ℕ) (bytes : Bytes)
    → length bytes ≤ width
    → from_be 0 (align_right (length bytes) 0 width bytes (replicate width 0)) ≡ from_be 0 bytes
unfolding copied
from_be-align_right width bytes le =
    let zeros = width - length bytes in
    let none_left : length bytes - length bytes ≡ 0 = (omega arith) in
    rw (sym (copied_none width bytes)) (
      rw (align_right-copied (length bytes) 0 width bytes (omega arith) le)
        (rw none_left (from_be-replicate zeros bytes)))

module _ (crate : RlpCrate) where
  open crate use {new, as_bytes}

  length-within :
      (max_len : ℕ) (r : Decoded Bytes) {field : Bytes}
      → within crate max_len r ≡ some field
      → length field ≤ max_len
  unfolding within
  length-within max_len (err e) h = cc
  length-within max_len (ok bytes) h = ground arith

  length-seal_field :
      (max_len : ℕ) (o : Option Bytes) {field : Bytes}
      → seal_field crate max_len o ≡ some field
      → length field ≤ max_len
  unfolding seal_field
  length-seal_field max_len none h = cc
  length-seal_field max_len (some field) h = length-within max_len (as_bytes (new field)) h

  aligned-from_be :
      (width : ℕ) (o : Option Bytes)
      → ((field : Bytes) → o ≡ some field → length field ≤ width)
      → aligned crate width o ≡ Option.map (from_be 0) o
  unfolding aligned
  aligned-from_be width none fits = refl
  aligned-from_be width (some field) fits =
      ap {B = Option ℕ} some (from_be-align_right width field (fits field refl))

  -- The mix hash and the nonce of a header are the numbers that the bytes of the two fields of its
  -- seal spell, with the most significant byte first, where a field is within its width.
  pub mix_hash-from_be :
      (header : Header)
      → (mix_hash crate header ≡ Option.map (from_be 0) (decoded_seal_field crate header 0 32))
        × (nonce crate header ≡ Option.map (from_be 0) (decoded_seal_field crate header 1 8))
  unfolding mix_hash nonce decoded_seal_field
  mix_hash-from_be header = (
    aligned-from_be 32 (decoded_seal_field crate header 0 32) (λ field. length-seal_field 32 _),
    aligned-from_be 8 (decoded_seal_field crate header 1 8) (λ field. length-seal_field 8 _),
  )
