-- ===== src/Beacon/Branch.antt =====
-- `is_valid_merkle_branch` of parachain/pallets/ethereum-beacon-client/src/lib.rs; `sha2_256` is
-- the section's parameter.
pub mod Position
use snowbridge.Shared.{
  ℕ, suc, ◌+◌, ◌/◌, ◌%◌, ◌^◌, Bool, true, false, List, [], ◌∷◌, ◌++◌, length, ltb, ◌==◌, not,
  if◌then◌else◌,
}
use snowbridge.Shared.Bytes.{Bytes, H256, h256_bytes}

module _ (sha2_256 : Bytes → H256) where
  unfoldable pub hash_pair : H256 → H256 → H256
  hash_pair left right = sha2_256 (h256_bytes left ++ h256_bytes right)

  -- The rounds `i..depth`, over what is left of the branch.
  unfoldable pub branch_loop : ℕ → ℕ → List H256 → H256 → H256 → Bool
  branch_loop i index [] value root = value == root
  branch_loop i index (node ∷ branch) value root =
      let round =
        branch_loop (i + 1) index branch
          (if index / (2 ^ i % 2 ^ 32) % 2 == 0 then hash_pair value node else hash_pair node value)
          root in
      if ltb (length (h256_bytes node)) 32 then false else round

  unfoldable pub is_valid_merkle_branch : H256 → List H256 → ℕ → ℕ → H256 → Bool
  is_valid_merkle_branch leaf branch depth index root =
      if not (length branch == depth)
      then false
      else if ltb (length (h256_bytes leaf)) 32
      then false
      else branch_loop 0 index branch leaf root
