-- ===== src/Light/Validate.antt =====
-- `validate_header_to_import` of parachain/pallets/ethereum-light-client/src/lib.rs.
pub mod Accepted
pub mod Work
use snowbridge.Shared.{
  ℕ, zero, suc, ◌+◌, ◌*◌, ◌/◌, ◌%◌, ◌^◌, Bool, true, false, not, ◌&&◌, Option, none, some, List,
  length, ltb, leb, ◌==◌, if◌then◌else◌,
}
use snowbridge.Shared.Bytes.{Bytes, H256}
use snowbridge.Shared.Outcome.{Result, ok, err, ok_or, ensure, ◌>>=◌, ◌>>◌}
use snowbridge.Shared.Storage.{contains_key}
use snowbridge.Ethereum.Header.{Header, HeaderId, compute_partial_hash, mix_hash, nonce}
use snowbridge.Ethereum.Difficulty.{
  calc_difficulty, Fault, before_byzantium, invalid_block_time, overflow,
}
use snowbridge.Ethereum.Ethash.{
  DoubleNodeWithMerkleProof, Query, hashimoto_merkle, ProverError, epoch_out_of_range,
  invalid_merkle_proof, unexpected_number_of_nodes, prover_panic,
}
use snowbridge.Light.{
  Setup, StoredHeader, LightClient, Error, Checked, Found, find_at_number, hash_of, ancient_header,
  missing_parent_header, duplicate_header, header_on_stale_fork, invalid_header, unknown,
  arithmetic_panic, out_of_fuel,
}

-- The two checks of what the search for the finalized block found.
unfoldable pub check_ancestor : HeaderId → Found → Checked (Unit {0})
check_ancestor finalized Found.spent = err out_of_fuel
check_ancestor finalized Found.not_found = err unknown
check_ancestor finalized (Found.found hash) = ensure (hash == finalized.hash) header_on_stale_fork

-- `parent.gas_limit * by / 1024` of `U256`.
unfoldable pub gas_bound : ℕ → ℕ → Checked ℕ
gas_bound gas_limit by =
    if ltb (gas_limit * by) (2 ^ 256) then ok (gas_limit * by / 1024) else err arithmetic_panic

-- The conditions that follow those on the gas.
unfoldable pub is_next : Header → Header → Bool
is_next header parent =
    leb 5000 header.gas_limit
    && (ltb parent.timestamp header.timestamp
        && (header.number == (parent.number + 1) % 2 ^ 64 && leb (length header.extra_data) 32))

-- The conditions in their order: where one fails, those after it are not computed.
unfoldable pub check_lower_bound : Header → Header → Checked (Unit {0})
check_lower_bound header parent = do
  lower ← gas_bound parent.gas_limit 1023
  ensure (ltb lower header.gas_limit && is_next header parent) invalid_header

unfoldable pub check_upper_bound : Header → Header → Checked (Unit {0})
check_upper_bound header parent = do
  upper ← gas_bound parent.gas_limit 1025
  ensure (ltb header.gas_limit upper) invalid_header
  check_lower_bound header parent

unfoldable pub check_basic : Header → Header → Checked (Unit {0})
check_basic header parent = do
  ensure (leb header.gas_used header.gas_limit) invalid_header
  check_upper_bound header parent

-- `map_err(|_| Error::InvalidHeader)`, which a panic does not reach.
unfoldable pub difficulty_or : Result Fault ℕ → Checked ℕ
difficulty_or (ok difficulty) = ok difficulty
difficulty_or (err before_byzantium) = err invalid_header
difficulty_or (err invalid_block_time) = err invalid_header
difficulty_or (err overflow) = err arithmetic_panic

unfoldable pub proved_or : Result ProverError (H256 × H256) → Checked (H256 × H256)
proved_or (ok results) = ok results
proved_or (err epoch_out_of_range) = err invalid_header
proved_or (err invalid_merkle_proof) = err invalid_header
proved_or (err unexpected_number_of_nodes) = err invalid_header
proved_or (err prover_panic) = err arithmetic_panic

module _ (c : Setup) where
  -- The checks that the proof of work is for.
  unfoldable pub check_work : Header → Header → List DoubleNodeWithMerkleProof → Checked (Unit {0})
  check_work header parent proof = do
    check_basic header parent
    header_difficulty ← difficulty_or (calc_difficulty c.difficulty_config header.timestamp parent)
    ensure (header.difficulty == header_difficulty) invalid_header
    header_mix_hash ← ok_or (mix_hash c.crate header) invalid_header
    header_nonce ← ok_or (nonce c.crate header) invalid_header
    results ← proved_or (
        c.hashimoto_merkle (compute_partial_hash c.keccak c.stream_out header) header_nonce
          header.number proof)
    ensure (results.0 == header_mix_hash && ltb results.1 (c.cross_boundary header.difficulty))
        invalid_header

  -- The search has the fuel for every number below that of the parent.
  unfoldable pub validate_header_to_import :
      LightClient → Header → List DoubleNodeWithMerkleProof → Checked (Unit {0})
  validate_header_to_import s header proof = do
    ensure (not (contains_key s.headers (hash_of c header))) duplicate_header
    parent ← ok_or (s.headers header.parent_hash) missing_parent_header
    ensure (ltb s.finalized_block.number header.number) ancient_header
    check_ancestor s.finalized_block (
        find_at_number (suc (suc (Header.number (StoredHeader.header parent)))) s.headers
          s.finalized_block.number header.parent_hash)
    if c.verify_pow then check_work header (StoredHeader.header parent) proof else ok tt

-- The setup with the prover of ethashproof.rs.
abbrev pub with_ethash :
    (Bytes → H256) → (ℕ → ℕ) → (H256 → ℕ → ℕ → Query (H256 × H256)) → Setup → Setup
with_ethash sha2_256 get_full_size hashimoto_with_hasher c = record c {
  hashimoto_merkle = hashimoto_merkle sha2_256 get_full_size hashimoto_with_hasher;
}
