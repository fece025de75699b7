-- ===== src/Light/Initialize/Genesis.antt =====
-- The storage that the genesis build leaves.
use mathlib.Core.Path.{subst}
use mathlib.Core.Option.{some-injective}
use snowbridge.Shared.{
  ℕ, ◌^◌, ◌<◌, true, none, some, ◌==◌, if◌then◌else◌, ◌≡◌, ◌≢◌, ap, inl, inr, arith, Bool-cases,
}
use snowbridge.Shared.Bytes.{H256}
use snowbridge.Shared.Outcome.{ok}
use snowbridge.Ethereum.Header.{Header}
use snowbridge.Light.{
  Setup, StoredHeader, LightClient, empty_client, try_append, find_finalized_ancestor, hash_of,
}
use snowbridge.Light.Chain.{IsSound, HasParent}
use snowbridge.Light.Import.Sound.{IsConsistent, IsIndexed, try_append-IsIndexed}
use snowbridge.Light.Initialize.{
  finalize_ancestors, insert_header, insert_headers, finalize_ancestor, initialize_storage,
  genesis_build,
}

module _ (c : Setup) where
  -- The header without a submitter, as the genesis stores it.
  abbrev pub initial : Header → ℕ → StoredHeader
  initial header difficulty = record {
    submitter = none;
    header = header;
    total_difficulty = difficulty;
    finalized = true;
  }

  -- Over empty storage, for a header that is not its own parent, the genesis build does not fail:
  -- the header is stored alone, finalized, under its hash and its number, it is the best and the
  -- finalized block, and the range to prune is empty.
  pub genesis_build_outcome :
      (header : Header) (difficulty : ℕ)
      → 0 < c.max_headers_for_number
      → header.parent_hash ≢ hash_of c header
      → (s : LightClient) × (genesis_build c header difficulty empty_client ≡ (ok tt, s))
        × ((hash : H256)
            → s.headers hash
              ≡ (if hash == hash_of c header then some (initial header difficulty) else none))
        × (try_append c.max_headers_for_number header.number (hash_of c header) (λ n. none)
            ≡ some s.headers_by_number)
        × (s.best_block ≡ (record { number = header.number; hash = hash_of c header }, difficulty))
        × (s.finalized_block ≡ record { number = header.number; hash = hash_of c header })
        × (s.blocks_to_prune ≡ record {
          oldest_unpruned_block = header.number;
          oldest_block_to_keep = header.number;
        })
  unfolding genesis_build initialize_storage insert_header insert_headers finalize_ancestor
      finalize_ancestors find_finalized_ancestor try_append
  genesis_build_outcome header difficulty room other = (
    (genesis_build c header difficulty empty_client).1,
    ground arith,
    λ hash. ground arith,
    ground arith,
    ground arith,
    ground arith,
    ground arith,
  )

  -- The storage of the genesis is consistent, where the header has a parent by its hash.
  pub genesis_build-IsConsistent :
      (header : Header) (difficulty : ℕ)
      → 0 < c.max_headers_for_number
      → header.parent_hash ≢ hash_of c header
      → header.number < 2 ^ 64
      → HasParent c header
      → (s : LightClient) × (genesis_build c header difficulty empty_client ≡ (ok tt, s))
        × IsConsistent c s
  unfolding IsSound IsIndexed
  genesis_build-IsConsistent header difficulty room other small parent =
      let (s, e, headers_e, appended, best, final, range) =
        genesis_build_outcome header difficulty room other in
      (
        s,
        e,
        record {
          sound = λ hash stored at. elim (Bool-cases (hash == hash_of c header)) [
            | inl here ↦
                let same : some (initial header difficulty) ≡ some stored =
                  (ground (arith, headers_e hash)) in
                let stored_e : initial header difficulty ≡ stored = some-injective _ _ same in
                subst
                  (λ q.
                    (hash_of c q.header ≡ hash) × (q.header.number < 2 ^ 64) × HasParent c q.header)
                  stored_e (ground arith, small, parent)
            | inr elsewhere ↦ absurd (ground (arith, headers_e hash))
          ];
          indexed =
              try_append-IsIndexed c c.max_headers_for_number header (λ n. none) appended
                (λ n hashes hash none_e m. absurd (cc));
          pruned = omega (
            arith,
            ap (λ q. q.oldest_unpruned_block) range,
            ap (λ q. q.oldest_block_to_keep) range,
          );
          kept = omega (arith, ap (λ q. q.oldest_block_to_keep) range, ap (λ q. q.number) final);
        },
      )
