-- ===== src/Light/Initialize.antt =====
-- `initialize_storage` and the genesis build of parachain/pallets/ethereum-light-client/src/lib.rs.
pub mod Genesis
use snowbridge.Shared.{
  ℕ, zero, suc, ◌+◌, ◌%◌, ◌^◌, Bool, true, false, ◌||◌, Option, none, some, List, [], ◌∷◌, length,
  ltb, ◌==◌, if◌then◌else◌,
}
use snowbridge.Shared.Bytes.{H256}
use snowbridge.Shared.Outcome.{Result, ok, err, ok_or}
use snowbridge.Shared.Exec.{Exec, pure, lift, gets, modify, fail, require, ◌>>=◌, ◌>>◌}
use snowbridge.Shared.Storage.{insert, StorageMap}
use snowbridge.Ethereum.Header.{Header, HeaderId}
use snowbridge.Light.{
  Setup, StoredHeader, PruningRange, LightClient, Error, try_append, find_finalized_ancestor,
  hash_of, missing_parent_header, could_not_append_header, need_one_header, headers_out_of_order,
  arithmetic_panic, out_of_fuel,
}
use snowbridge.Light.Import.{Call}

-- The loop that marks a header and its ancestors, on fuel.
unfoldable pub finalize_ancestors : ℕ → H256 → Call Unit
finalize_ancestors zero hash s = (err out_of_fuel, s)
finalize_ancestors (suc fuel) hash s = elim (s.headers hash) [
  | none ↦ (ok tt, s)
  | some stored ↦
      finalize_ancestors fuel (Header.parent_hash (StoredHeader.header stored))
        (record s { headers = insert hash (record stored { finalized = true }) s.headers })
]

-- `parent.total_difficulty + header.difficulty` of `U256`.
unfoldable pub plus_difficulty : ℕ → ℕ → Result Error ℕ
plus_difficulty a b = if ltb (a + b) (2 ^ 256) then ok (a + b) else err arithmetic_panic

module _ (c : Setup) where
  unfoldable pub insert_header : Header → ℕ → Call HeaderId
  insert_header header total_difficulty = do
    let hash = hash_of c header
    modify (λ s. record s {
      headers =
          insert hash
            (record {
              submitter = none;
              header = header;
              total_difficulty = total_difficulty;
              finalized = false;
            })
            s.headers;
    })
    by_number ← λ s. (
      ok_or (try_append c.max_headers_for_number header.number hash s.headers_by_number)
          could_not_append_header,
      s,
    )
    modify (λ s. record s { headers_by_number = by_number })
    pure (record { number = header.number; hash = hash })

  -- The loop over the headers after the first, with the number of the one before and the best block
  -- so far.
  unfoldable pub insert_headers : ℕ → HeaderId × ℕ → List Header → Call (HeaderId × ℕ)
  insert_headers prev_block_num best [] = pure best
  insert_headers prev_block_num best (header ∷ headers) = do
    require (header.number == prev_block_num || header.number == (prev_block_num + 1) % 2 ^ 64)
        headers_out_of_order
    parent ← λ s. (ok_or (s.headers header.parent_hash) missing_parent_header, s)
    total_difficulty ←
        lift (plus_difficulty (StoredHeader.total_difficulty parent) header.difficulty)
    block_id ← insert_header header total_difficulty
    insert_headers header.number
        (if ltb best.1 total_difficulty then (block_id, total_difficulty) else best) headers

  -- What is done with the ancestor that is final, where there is one.
  unfoldable pub finalize_ancestor : ℕ → Option (H256 × Header) → Call Unit
  finalize_ancestor fuel none = pure tt
  finalize_ancestor fuel (some (hash, header)) =
      modify (λ s. record s { finalized_block = record { number = header.number; hash = hash } })
      >> finalize_ancestors fuel hash

  -- The fuel is more than the headers that are given.
  unfoldable pub initialize_storage : List Header → ℕ → ℕ → Call Unit
  initialize_storage [] initial_difficulty descendants_until_final = fail need_one_header
  initialize_storage (oldest_header ∷ headers) initial_difficulty descendants_until_final = do
    oldest_id ← insert_header oldest_header initial_difficulty
    best ← insert_headers oldest_header.number (oldest_id, initial_difficulty) headers
    modify (λ s. record s { best_block = best })
    final ←
        gets
          (λ s. find_finalized_ancestor s.headers (HeaderId.hash (best.0)) descendants_until_final)
    finalize_ancestor (suc (suc (length headers))) final

  -- The storage of the genesis, which is `none` where the build panics.
  unfoldable pub genesis_build : Header → ℕ → Call Unit
  genesis_build initial_header initial_difficulty = do
    initialize_storage (initial_header ∷ []) initial_difficulty 0
    modify (λ s. record s {
      blocks_to_prune = record {
        oldest_unpruned_block = initial_header.number;
        oldest_block_to_keep = initial_header.number;
      };
    })
