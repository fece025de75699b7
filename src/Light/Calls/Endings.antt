-- ===== src/Light/Calls/Endings.antt =====
-- The search of the validation ends, and what a reset to a fork does.
use snowbridge.Shared.{
  ℕ, suc, ◌<◌, Bool, true, false, Option, none, some, List, ◌==◌, ◌≡◌, ◌≢◌, refl, ◌⊎◌, inl, inr,
  arith, Option-cases,
}
use snowbridge.Shared.Bytes.{H256}
use snowbridge.Shared.Outcome.{Result, ok, err, ok_or, ensure, ◌>>=◌}
use snowbridge.Core.{Origin, root, signed, unsigned}
use snowbridge.Ethereum.Header.{Header, HeaderId, compute_partial_hash, mix_hash, nonce}
use snowbridge.Ethereum.Difficulty.{calc_difficulty, Fault}
use snowbridge.Ethereum.Ethash.{DoubleNodeWithMerkleProof, ProverError}
use snowbridge.Light.{
  Setup, StoredHeader, LightClient, Error, out_of_fuel, invalid_header, Found,
  find_finalized_ancestor,
}
use snowbridge.Light.Chain.{IsSound, Clash}
use snowbridge.Light.Chain.Numbers.{find_at_number_ends}
use snowbridge.Light.Validate.{
  check_ancestor, check_work, check_basic, check_upper_bound, check_lower_bound, gas_bound,
  difficulty_or, proved_or, validate_header_to_import,
}
use snowbridge.Light.Calls.{reset_to_fork, force_reset_to_fork}

check_ancestor_ends :
    (finalized : HeaderId) (result : Found)
    → result ≢ Found.spent
    → check_ancestor finalized result ≢ err out_of_fuel
unfolding check_ancestor
check_ancestor_ends finalized Found.spent ne h = ne refl
check_ancestor_ends finalized Found.not_found ne h = cc
check_ancestor_ends finalized (Found.found hash) ne h = ground arith

check_basic_ends : (header parent : Header) → check_basic header parent ≢ err out_of_fuel
unfolding check_basic check_upper_bound check_lower_bound gas_bound
check_basic_ends header parent h = ground arith

difficulty_or_ends : (r : Result Fault ℕ) → difficulty_or r ≢ err out_of_fuel
unfolding difficulty_or
difficulty_or_ends (ok n) h = cc
difficulty_or_ends (err Fault.before_byzantium) h = cc
difficulty_or_ends (err Fault.invalid_block_time) h = cc
difficulty_or_ends (err Fault.overflow) h = cc

proved_or_ends : (r : Result ProverError (H256 × H256)) → proved_or r ≢ err out_of_fuel
unfolding proved_or
proved_or_ends (ok n) h = cc
proved_or_ends (err ProverError.epoch_out_of_range) h = cc
proved_or_ends (err ProverError.invalid_merkle_proof) h = cc
proved_or_ends (err ProverError.unexpected_number_of_nodes) h = cc
proved_or_ends (err ProverError.prover_panic) h = cc

bind_ends :
    {A B : Type 0} (m : Result Error A) (f : A → Result Error B)
    → m ≢ err out_of_fuel
    → ((a : A) → f a ≢ err out_of_fuel)
    → (m >>= f) ≢ err out_of_fuel
bind_ends (ok a) f ends rest h = rest a h
bind_ends (err e) f ends rest h = ends (ground arith)

ensure_ends : (b : Bool) → ensure b invalid_header ≢ err out_of_fuel
ensure_ends true h = cc
ensure_ends false h = cc

ok_or_ends : {A : Type 0} (o : Option A) → ok_or o invalid_header ≢ err out_of_fuel
ok_or_ends none h = cc
ok_or_ends (some a) h = cc

module _ (c : Setup) where
  check_work_ends :
      (header parent : Header) (proof : List DoubleNodeWithMerkleProof)
      → check_work c header parent proof ≢ err out_of_fuel
  unfolding check_work
  check_work_ends header parent proof =
      bind_ends (check_basic header parent) _ (check_basic_ends header parent) (λ u.
        bind_ends (difficulty_or (calc_difficulty c.difficulty_config header.timestamp parent)) _
          (difficulty_or_ends _)
          (λ d. bind_ends (ensure (header.difficulty == d) invalid_header) _ (ensure_ends _) (λ v.
            bind_ends (ok_or (mix_hash c.crate header) invalid_header) _ (ok_or_ends _) (λ m.
              bind_ends (ok_or (nonce c.crate header) invalid_header) _ (ok_or_ends _) (λ n.
                bind_ends
                  (proved_or (
                    c.hashimoto_merkle (compute_partial_hash c.keccak c.stream_out header) n
                      header.number proof))
                  _ (proved_or_ends _) (λ r. ensure_ends _))))))

  -- In a storage of linked headers the validation of a header always ends, whatever the header and
  -- its proof, or two headers with one hash and two numbers are found.
  pub validate_header_ends :
      (s : LightClient) (header : Header) (proof : List DoubleNodeWithMerkleProof)
      → IsSound c s.headers
      → Clash c ⊎ (validate_header_to_import c s header proof ≢ err out_of_fuel)
  unfolding validate_header_to_import
  validate_header_ends s header proof sound = elim (Option-cases (s.headers header.parent_hash)) [
    | inl x ↦ inr (λ h. ground arith)
    | inr (parent, x) ↦
        elim (find_at_number_ends c (suc (suc parent.header.number)) s.headers
          s.finalized_block.number header.parent_hash parent sound x (omega arith)) [
            | inl clash ↦ inl clash
            | inr ends ↦
                let checked = check_ancestor_ends s.finalized_block _ ends in
                let worked = check_work_ends header parent.header proof in inr (λ h. ground arith)
          ]
  ]

  -- A reset to a fork that returns is of the root origin, to a stored and finalized header that is
  -- older than the finalized block; that header becomes the best block with its total difficulty,
  -- and its ancestor with enough descendants the finalized one. No header is added or removed.
  pub force_reset_to_fork_outcome :
      (origin : Origin) (forked_at : H256) (s s' : LightClient)
      → force_reset_to_fork c origin forked_at s ≡ (ok tt, s')
      → (origin ≡ root)
        × (stored : StoredHeader) × (hash : H256) × (header : Header) × (s.headers forked_at
            ≡ some stored)
        × (stored.finalized ≡ true)
        × (stored.header.number < s.finalized_block.number)
        × (find_finalized_ancestor s.headers forked_at c.descendants_until_finalized
            ≡ some (hash, header))
        × (s'.finalized_block ≡ record { number = header.number; hash = hash })
        × (s'.best_block
            ≡ (record { number = stored.header.number; hash = forked_at }, stored.total_difficulty))
        × (s'.headers ≡ s.headers)
        × (s'.headers_by_number ≡ s.headers_by_number)
  unfolding force_reset_to_fork reset_to_fork
  force_reset_to_fork_outcome root forked_at s s' h = elim (Option-cases (s.headers forked_at)) [
    | inl x ↦ absurd (ground arith)
    | inr (stored, x) ↦
        elim (Option-cases
          (find_finalized_ancestor s.headers forked_at c.descendants_until_finalized)) [
            | inl y ↦ absurd (ground arith)
            | inr ((hash, header), y) ↦ (
              refl,
              stored,
              hash,
              header,
              x,
              ground arith,
              ground arith,
              y,
              ground arith,
              ground arith,
              ground arith,
              ground arith,
            )
          ]
  ]
  force_reset_to_fork_outcome (signed who) forked_at s s' h = absurd (ground arith)
  force_reset_to_fork_outcome unsigned forked_at s s' h = absurd (ground arith)
