-- ===== src/Light/Validate/Accepted.antt =====
-- What the validation of a header has checked where it passes.
use snowbridge.Shared.{
  ℕ, suc, ◌+◌, ◌*◌, ◌/◌, ◌%◌, ◌^◌, ◌≤◌, ◌<◌, true, none, some, List, length, ◌≡◌, ap, ◌∙◌, arith,
  Option-cases, inl, inr,
}
use snowbridge.Shared.Bytes.{H256}
use snowbridge.Shared.Outcome.{Result, ok, err, Result-cases}
use snowbridge.Ethereum.Header.{Header, HeaderId, compute_partial_hash, mix_hash, nonce}
use snowbridge.Ethereum.Difficulty.{calc_difficulty, Fault}
use snowbridge.Ethereum.Ethash.{DoubleNodeWithMerkleProof, ProverError}
use snowbridge.Light.{Setup, StoredHeader, LightClient, Found, find_at_number, hash_of}
use snowbridge.Light.Validate.{
  check_ancestor, gas_bound, is_next, check_lower_bound, check_upper_bound, check_basic,
  difficulty_or, proved_or, check_work, validate_header_to_import,
}

check_ancestor_found :
    (finalized : HeaderId) (result : Found)
    → check_ancestor finalized result ≡ ok tt
    → result ≡ Found.found finalized.hash
unfolding check_ancestor
check_ancestor_found finalized Found.spent h = cc
check_ancestor_found finalized Found.not_found h = cc
check_ancestor_found finalized (Found.found hash) h = ground arith

-- The fields of a header that follows its parent.
pub record IsNext (header parent : Header) : Type 0 where
  pub number : header.number ≡ (parent.number + 1) % 2 ^ 64
  pub timestamp : parent.timestamp < header.timestamp
  pub gas_used : header.gas_used ≤ header.gas_limit
  pub gas_limit_low : parent.gas_limit * 1023 / 1024 < header.gas_limit
  pub gas_limit_high : header.gas_limit < parent.gas_limit * 1025 / 1024
  pub gas_limit_least : 5000 ≤ header.gas_limit
  pub extra_data : length header.extra_data ≤ 32

check_basic-IsNext :
    (header parent : Header) → check_basic header parent ≡ ok tt → IsNext header parent
unfolding check_basic check_upper_bound check_lower_bound gas_bound is_next
check_basic-IsNext header parent h = record {
  number = ground arith;
  timestamp = ground arith;
  gas_used = ground arith;
  gas_limit_low = ground arith;
  gas_limit_high = ground arith;
  gas_limit_least = ground arith;
  extra_data = ground arith;
}

difficulty_or_ok : (r : Result Fault ℕ) {n : ℕ} → difficulty_or r ≡ ok n → r ≡ ok n
unfolding difficulty_or
difficulty_or_ok (ok n) h = ground arith
difficulty_or_ok (err Fault.before_byzantium) h = cc
difficulty_or_ok (err Fault.invalid_block_time) h = cc
difficulty_or_ok (err Fault.overflow) h = cc

proved_or_ok :
    (r : Result ProverError (H256 × H256)) {n : H256 × H256} → proved_or r ≡ ok n → r ≡ ok n
unfolding proved_or
proved_or_ok (ok n) h = ground arith
proved_or_ok (err ProverError.epoch_out_of_range) h = cc
proved_or_ok (err ProverError.invalid_merkle_proof) h = cc
proved_or_ok (err ProverError.unexpected_number_of_nodes) h = cc
proved_or_ok (err ProverError.prover_panic) h = cc

module _ (c : Setup) where
  -- The work that a header proves: its mix hash is what `hashimoto` gives, whose result is below
  -- the boundary of the difficulty.
  unfoldable pub IsWorked : Header → List DoubleNodeWithMerkleProof → Type 0
  IsWorked header proof =
      (header_nonce : ℕ) × (mixed : H256) × (result : H256) × (nonce c.crate header
        ≡ some header_nonce)
      × (mix_hash c.crate header ≡ some mixed)
      × (c.hashimoto_merkle (compute_partial_hash c.keccak c.stream_out header) header_nonce
            header.number proof
          ≡ ok (mixed, result))
      × (result < c.cross_boundary header.difficulty)

  pub check_work_accepted :
      (header parent : Header) (proof : List DoubleNodeWithMerkleProof)
      → check_work c header parent proof ≡ ok tt
      → IsNext header parent
        × (calc_difficulty c.difficulty_config header.timestamp parent ≡ ok header.difficulty)
        × IsWorked header proof
  unfolding check_work IsWorked
  check_work_accepted header parent proof h =
      let partial = compute_partial_hash c.keccak c.stream_out header in
      elim (Result-cases (check_basic header parent)) [
        | inr (e, x) ↦ absurd (ground arith)
        | inl (u, x) ↦
            elim (Result-cases
              (difficulty_or (calc_difficulty c.difficulty_config header.timestamp parent))) [
                | inr (e, y) ↦ absurd (ground arith)
                | inl (d, y) ↦ elim (Option-cases (mix_hash c.crate header)) [
                  | inl z ↦ absurd (ground arith)
                  | inr (mixed, z) ↦ elim (Option-cases (nonce c.crate header)) [
                    | inl v ↦ absurd (ground arith)
                    | inr (header_nonce, v) ↦
                        elim (Result-cases (
                          proved_or
                            (c.hashimoto_merkle partial header_nonce header.number proof))) [
                              | inr (e, w) ↦ absurd (ground arith)
                              | inl ((m, result), w) ↦
                                  let same : m ≡ mixed = (ground arith) in
                                  let exact : d ≡ header.difficulty = (ground arith) in
                                  (
                                    check_basic-IsNext header parent x,
                                    difficulty_or_ok _ y ∙ ap ok exact,
                                    (
                                      header_nonce,
                                      mixed,
                                      result,
                                      v,
                                      z,
                                      proved_or_ok _ w ∙ ap (λ q. ok (q, result)) same,
                                      ground arith,
                                    ),
                                  )
                            ]
                  ]
                ]
              ]
      ]

  pub validate_accepted :
      (s : LightClient) (header : Header) (proof : List DoubleNodeWithMerkleProof)
      → validate_header_to_import c s header proof ≡ ok tt
      → (s.headers (hash_of c header) ≡ none)
        × (parent : StoredHeader) × (s.headers header.parent_hash ≡ some parent)
        × (s.finalized_block.number < header.number)
        × (find_at_number
              (suc (suc parent.header.number))
              s.headers
              s.finalized_block.number
              header.parent_hash
            ≡ Found.found s.finalized_block.hash)
        × (c.verify_pow ≡ true → check_work c header parent.header proof ≡ ok tt)
  unfolding validate_header_to_import
  validate_accepted s header proof h = elim (Option-cases (s.headers header.parent_hash)) [
    | inl x ↦ absurd (ground arith)
    | inr (parent, x) ↦
        let search =
          find_at_number (suc (suc parent.header.number)) s.headers s.finalized_block.number
            header.parent_hash in
        elim (Result-cases (check_ancestor s.finalized_block search)) [
          | inr (e, y) ↦ absurd (ground arith)
          | inl (u, y) ↦ (
            ground arith,
            parent,
            x,
            ground arith,
            check_ancestor_found s.finalized_block search y,
            λ pow. ground arith,
          )
        ]
  ]
