-- ===== src/Light/Prune.antt =====
-- `prune_header_range` of parachain/pallets/ethereum-light-client/src/lib.rs, over the two maps of
-- headers that it writes.
pub mod Bounds
pub mod Removed
pub mod Step
pub mod Index
use snowbridge.Shared.{
  ℕ, zero, suc, ◌+◌, ◌-◌, Bool, Option, none, some, List, [], ◌∷◌, length, drop, ltb, ◌==◌,
  if◌then◌else◌, max,
}
use snowbridge.Shared.Bytes.{H256}
use snowbridge.Shared.Outcome.{ok, err}
use snowbridge.Shared.Storage.{StorageMap, insert, remove}
use snowbridge.Light.{StoredHeader, PruningRange, Checked, at_max_headers_for_number}

-- The two maps and the two locals that the loops write.
pub record Pruning : Type 0 where
  pub headers : StorageMap StoredHeader
  pub headers_by_number : StorageMap (List H256)
  pub oldest_unpruned_block : ℕ
  pub blocks_pruned : ℕ

-- What the loop over the hashes of one number leaves: the headers, `blocks_pruned` and `remaining`.
unfoldable pub remove_hashes :
    ℕ → List H256 → StorageMap StoredHeader → ℕ → ℕ → StorageMap StoredHeader × ℕ × ℕ
remove_hashes max_headers_to_prune [] headers blocks_pruned remaining =
    (headers, blocks_pruned, remaining)
remove_hashes max_headers_to_prune (hash ∷ hashes) headers blocks_pruned remaining =
    let rest =
      remove_hashes max_headers_to_prune hashes (remove hash headers) (blocks_pruned + 1)
        (remaining - 1) in
    if blocks_pruned + 1 == max_headers_to_prune
    then (remove hash headers, blocks_pruned + 1, remaining - 1)
    else rest

-- What becomes of the number whose hashes were taken.
unfoldable pub put_back : ℕ → ℕ → List H256 → ℕ → Pruning → Checked Pruning
put_back max_headers_for_number number hashes remaining p =
    if ltb 0 remaining
    then (if ltb max_headers_for_number (length (drop (length hashes - remaining) hashes))
        then err at_max_headers_for_number
        else ok (record p {
          headers_by_number =
              insert number (drop (length hashes - remaining) hashes) p.headers_by_number;
        }))
    else ok (record p { oldest_unpruned_block = number + 1 })

-- One round: the headers of a number, where it has some.
unfoldable pub prune_number : ℕ → ℕ → ℕ → Option (List H256) → Pruning → Checked Pruning
prune_number max_headers_for_number max_headers_to_prune number none p =
    ok (record p { oldest_unpruned_block = number + 1 })
prune_number max_headers_for_number max_headers_to_prune number (some hashes) p =
    let (headers, blocks_pruned, remaining) =
      remove_hashes max_headers_to_prune hashes p.headers p.blocks_pruned (length hashes) in
    put_back max_headers_for_number number hashes remaining (record p {
      headers = headers;
      headers_by_number = remove number p.headers_by_number;
      blocks_pruned = blocks_pruned;
    })

-- `for number in start..end`, of which so many rounds are left, from `number` on.
unfoldable pub prune_numbers : ℕ → ℕ → ℕ → ℕ → Pruning → Checked Pruning
prune_numbers max_headers_for_number max_headers_to_prune zero number p = ok p
prune_numbers max_headers_for_number max_headers_to_prune (suc rounds) number p =
    let pruned =
      prune_number max_headers_for_number max_headers_to_prune number (p.headers_by_number number)
        p in
    if p.blocks_pruned == max_headers_to_prune then ok p else elim pruned [
      | err e ↦ err e
      | ok p' ↦ prune_numbers max_headers_for_number max_headers_to_prune rounds (number + 1) p'
    ]

-- The range that was pruned, with the maps.
unfoldable pub prune_header_range :
    ℕ
    → StorageMap StoredHeader
    → StorageMap (List H256)
    → PruningRange
    → ℕ
    → ℕ
    → Checked (PruningRange × Pruning)
prune_header_range max_headers_for_number headers by_number pruning_range max_headers_to_prune
      prune_end =
    let start = pruning_range.oldest_unpruned_block in
    let end = max pruning_range.oldest_block_to_keep prune_end in
    let pruned =
      prune_numbers max_headers_for_number max_headers_to_prune (end - start) start (record {
        headers = headers;
        headers_by_number = by_number;
        oldest_unpruned_block = start;
        blocks_pruned = 0;
      }) in
    elim pruned [
      | err e ↦ err e
      | ok p ↦ ok (
        record { oldest_unpruned_block = p.oldest_unpruned_block; oldest_block_to_keep = end },
        p,
      )
    ]
