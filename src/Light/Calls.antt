-- ===== src/Light/Calls.antt =====
-- The calls of parachain/pallets/ethereum-light-client/src/lib.rs, and sequences of them.
pub mod Accepted
pub mod Finalized
pub mod Effect
pub mod Endings
use snowbridge.Shared.{
  ℕ, Bool, true, false, not, Option, none, some, List, [], ◌∷◌, leb, if◌then◌else◌, All,
}
use snowbridge.Shared.Bytes.{H256}
use snowbridge.Shared.Outcome.{Result, ok, err, ok_or}
use snowbridge.Shared.Exec.{
  Exec, pure, lift, gets, modify, fail, require, transactional, ◌>>=◌, ◌>>◌,
}
use snowbridge.Core.{Origin, root, signed, unsigned}
use snowbridge.Ethereum.Header.{Header, HeaderId}
use snowbridge.Ethereum.Ethash.{DoubleNodeWithMerkleProof}
use snowbridge.Light.{
  Setup, StoredHeader, LightClient, Error, find_finalized_ancestor, missing_header,
  fork_not_finalized, fork_after_finalized, fork_without_descendants, bad_origin,
}
use snowbridge.Light.Validate.{validate_header_to_import}
use snowbridge.Light.Import.{Call, import_validated_header}

abbrev pub ensure_signed : Origin → Result Error H256
ensure_signed root = err bad_origin
ensure_signed (signed who) = ok who
ensure_signed unsigned = err bad_origin

abbrev pub ensure_root : Origin → Result Error (Unit {0})
ensure_root root = ok tt
ensure_root (signed who) = err bad_origin
ensure_root unsigned = err bad_origin

module _ (c : Setup) where
  unfoldable pub import_header : Origin → Header → List DoubleNodeWithMerkleProof → Call Unit
  import_header origin header proof = transactional (
      lift (ensure_signed origin) >>= λ sender.
      (λ s. (validate_header_to_import c s header proof, s)) >>= λ _.
      import_validated_header c sender header)

  -- The body of `force_reset_to_fork`, which writes at its end.
  unfoldable pub reset_to_fork : H256 → Call Unit
  reset_to_fork forked_at = do
    stored_header ← λ s. (ok_or (s.headers forked_at) missing_header, s)
    require (StoredHeader.finalized stored_header) fork_not_finalized
    current_finalized ← gets (λ s. s.finalized_block)
    require
        (not (
          leb (HeaderId.number current_finalized)
            (Header.number (StoredHeader.header stored_header))))
        fork_after_finalized
    new_finalized ← λ s. (
      ok_or (find_finalized_ancestor s.headers forked_at c.descendants_until_finalized)
          fork_without_descendants,
      s,
    )
    modify (λ s. record s {
      finalized_block = record { number = Header.number (new_finalized.1); hash = new_finalized.0 };
      best_block = (
        record { number = Header.number (StoredHeader.header stored_header); hash = forked_at },
        StoredHeader.total_difficulty stored_header,
      );
    })

  unfoldable pub force_reset_to_fork : Origin → H256 → Call Unit
  force_reset_to_fork origin forked_at =
      transactional (lift (ensure_root origin) >> reset_to_fork forked_at)

-- A call of `import_header` with its arguments.
pub record Submission : Type 0 where
  pub origin : Origin
  pub header : Header
  pub proof : List DoubleNodeWithMerkleProof

module _ (c : Setup) where
  abbrev pub import_one : Submission → LightClient → LightClient
  import_one x s = (import_header c x.origin x.header x.proof s).1

  abbrev pub import_all : List Submission → LightClient → LightClient
  import_all [] s = s
  import_all (x ∷ xs) s = import_all xs (import_one x s)

  -- A property of the storage that every import keeps is kept by every sequence of imports.
  pub import_all-keeps {κ} :
      (P : LightClient → Type κ)
      → ((x : Submission) (s : LightClient) → P s → P (import_one x s))
      → (xs : List Submission) (s : LightClient) → P s
      → P (import_all xs s)
  import_all-keeps P keeps [] s h = h
  import_all-keeps P keeps (x ∷ xs) s h = import_all-keeps P keeps xs _ (keeps x s h)
