-- ===== src/Light/Import.antt =====
-- `import_validated_header` and `get_best_finalized_header` of
-- parachain/pallets/ethereum-light-client/src/lib.rs.
pub mod Steps
pub mod Sound
use snowbridge.Shared.{
  ℕ, zero, suc, ◌+◌, ◌-◌, ◌^◌, Bool, true, false, not, ◌&&◌, ◌||◌, Option, none, some, List, ltb,
  ◌==◌, if◌then◌else◌,
}
use snowbridge.Shared.Bytes.{H256}
use snowbridge.Shared.Outcome.{Result, ok, err, ok_or}
use snowbridge.Shared.Exec.{Exec, pure, lift, gets, modify, fail, ◌>>=◌, ◌>>◌}
use snowbridge.Shared.Storage.{insert, StorageMap}
use snowbridge.Ethereum.Header.{Header, HeaderId}
use snowbridge.Light.{
  Setup, StoredHeader, PruningRange, LightClient, Error, Checked, try_append,
  find_finalized_ancestor, hash_of, missing_parent_header, total_difficulty_overflow,
  at_max_headers_for_number, unknown, finalized_headers_to_keep, headers_to_prune_in_single_import,
}
use snowbridge.Light.Prune.{Pruning, prune_header_range}

abbrev pub Call : Type 0 → Type 0
Call A = Exec LightClient Error A

-- `checked_add` of two `U256`.
unfoldable pub checked_add : ℕ → ℕ → Option ℕ
checked_add a b = if ltb (a + b) (2 ^ 256) then some (a + b) else none

abbrev pub same_id : HeaderId → HeaderId → Bool
same_id a b = a.number == b.number && a.hash == b.hash

abbrev pub same_range : PruningRange → PruningRange → Bool
same_range a b =
    a.oldest_unpruned_block == b.oldest_unpruned_block
    && a.oldest_block_to_keep == b.oldest_block_to_keep

-- The latest block that can be finalized, from the ancestor that has enough descendants.
unfoldable pub best_finalized : HeaderId → Option (H256 × Header) → Checked HeaderId
best_finalized finalized_block_id none = ok finalized_block_id
best_finalized finalized_block_id (some (hash, header)) =
    if ltb finalized_block_id.number header.number
    then ok (record { number = header.number; hash = hash })
    else (if not (hash == finalized_block_id.hash) then err unknown else ok finalized_block_id)

-- `Headers::mutate` to set the flag.
unfoldable pub mark_finalized : H256 → Call Unit
mark_finalized hash s = elim (s.headers hash) [
  | none ↦ (err unknown, s)
  | some stored ↦
      (ok tt, record s { headers = insert hash (record stored { finalized = true }) s.headers })
]

module _ (c : Setup) where
  open c use {descendants_until_finalized, max_headers_for_number, verify_pow}

  unfoldable pub get_best_finalized_header :
      StorageMap StoredHeader → HeaderId → HeaderId → Checked HeaderId
  get_best_finalized_header headers best_block_id finalized_block_id =
      best_finalized finalized_block_id
        (find_finalized_ancestor headers best_block_id.hash descendants_until_finalized)

  -- Finalize blocks if possible.
  unfoldable pub finalize_blocks : HeaderId → Call HeaderId
  finalize_blocks best_block_id = do
    finalized_block_id ← gets (λ s. s.finalized_block)
    new_finalized_block_id ←
        λ s. (get_best_finalized_header s.headers best_block_id finalized_block_id, s)
    if same_id new_finalized_block_id finalized_block_id
        then pure tt
        else (modify (λ s. record s { finalized_block = new_finalized_block_id })
            >> mark_finalized (HeaderId.hash new_finalized_block_id))
    pure new_finalized_block_id

  -- Clean up old headers.
  unfoldable pub clean_up : HeaderId → Call Unit
  clean_up finalized s =
      elim (prune_header_range max_headers_for_number s.headers s.headers_by_number
        s.blocks_to_prune headers_to_prune_in_single_import
        (finalized.number - finalized_headers_to_keep)) [
          | err e ↦ (err e, s)
          | ok (range, p) ↦ (
            ok tt,
            record s {
              headers = p.headers;
              headers_by_number = p.headers_by_number;
              blocks_to_prune =
                  if same_range range s.blocks_to_prune then s.blocks_to_prune else range;
            },
          )
        ]

  -- What is done where the chain of the header is the best one.
  unfoldable pub adopt : HeaderId → ℕ → Call Unit
  adopt best_block_id total_difficulty = do
    modify (λ s. record s { best_block = (best_block_id, total_difficulty) })
    new_finalized_block_id ← finalize_blocks best_block_id
    clean_up new_finalized_block_id

  -- The writes of a header and of its hash under its number.
  unfoldable pub store_header : H256 → StoredHeader → Call Unit
  store_header hash header_to_store = do
    by_number ← λ s. (
      ok_or
          (try_append max_headers_for_number (Header.number (StoredHeader.header header_to_store))
            hash s.headers_by_number)
          at_max_headers_for_number,
      s,
    )
    modify (λ s. record s {
      headers_by_number = by_number;
      headers = insert hash header_to_store s.headers;
    })

  unfoldable pub is_best : ℕ → ℕ → Bool
  is_best total_difficulty highest_difficulty =
      ltb highest_difficulty total_difficulty || (not verify_pow && total_difficulty == 0)

  unfoldable pub import_validated_header : H256 → Header → Call Unit
  import_validated_header sender header = do
    stored_parent_header ← λ s. (ok_or (s.headers header.parent_hash) missing_parent_header, s)
    total_difficulty ← lift (
        ok_or (checked_add (StoredHeader.total_difficulty stored_parent_header) header.difficulty)
          total_difficulty_overflow)
    store_header (hash_of c header) (record {
      submitter = some sender;
      header = header;
      total_difficulty = total_difficulty;
      finalized = false;
    })
    highest ← gets (λ s. s.best_block.1)
    if is_best total_difficulty highest
        then adopt (record { number = header.number; hash = hash_of c header }) total_difficulty
        else pure tt
