-- ===== src/Light/Calls/Accepted.antt =====
-- What the import of a header has checked and written where it returns, with the proofs of work
-- verified.
use mathlib.Core.Path.{subst}
use snowbridge.Shared.{
  suc, ◌+◌, ◌^◌, ◌≤◌, ◌<◌, true, false, none, some, List, ◌≡◌, refl, sym, ap, ◌⊎◌, inl, inr, arith,
}
use snowbridge.Shared.Bytes.{H256}
use snowbridge.Shared.Outcome.{ok, err, Result-cases}
use snowbridge.Shared.Storage.{insert}
use snowbridge.Core.{Origin, root, signed, unsigned}
use snowbridge.Ethereum.Header.{Header}
use snowbridge.Ethereum.Difficulty.{calc_difficulty}
use snowbridge.Ethereum.Ethash.{DoubleNodeWithMerkleProof}
use snowbridge.Light.{Setup, StoredHeader, LightClient, Error, Found, find_at_number, hash_of}
use snowbridge.Light.Chain.{IsSound, HasParent, insert-IsSound}
use snowbridge.Light.Validate.{validate_header_to_import}
use snowbridge.Light.Validate.Accepted.{IsNext, IsWorked, validate_accepted, check_work_accepted}
use snowbridge.Light.Import.{import_validated_header, is_best, adopt}
use snowbridge.Light.Import.Steps.{to_store, import_outcome, store_header_outcome}
use snowbridge.Light.Import.Sound.{IsConsistent, IsIndexed, try_append-IsIndexed}
use snowbridge.Light.Calls.{import_header, ensure_signed}

ensure_signed_ok :
    (origin : Origin) {sender : H256} → ensure_signed origin ≡ ok sender → origin ≡ signed sender
ensure_signed_ok root h = cc
ensure_signed_ok (signed who) h = ground arith
ensure_signed_ok unsigned h = cc

module _ (c : Setup) where
  -- An import that returns an error leaves the storage as it was.
  pub import_header_unchanged :
      (origin : Origin) (header : Header) (proof : List DoubleNodeWithMerkleProof)
      (s s' : LightClient) {e : Error}
      → import_header c origin header proof s ≡ (err e, s')
      → s' ≡ s
  unfolding import_header
  import_header_unchanged origin header proof s s' h = ground arith

  import_header_parts :
      (origin : Origin) (header : Header) (proof : List DoubleNodeWithMerkleProof)
      (s s' : LightClient)
      → import_header c origin header proof s ≡ (ok tt, s')
      → (sender : H256) × (origin ≡ signed sender)
        × (validate_header_to_import c s header proof ≡ ok tt)
        × (import_validated_header c sender header s ≡ (ok tt, s'))
  unfolding import_header
  import_header_parts origin header proof s s' h = elim (Result-cases (ensure_signed origin)) [
    | inr (e, x) ↦ absurd (ground arith)
    | inl (sender, x) ↦ elim (Result-cases (validate_header_to_import c s header proof)) [
      | inr (e, y) ↦ absurd (ground arith)
      | inl (u, y) ↦ (sender, ensure_signed_ok origin x, y, ground arith)
    ]
  ]

  -- What an import has checked, and the storage `s1` after the header is stored.
  unfoldable pub IsImported :
      Origin
      → Header
      → List DoubleNodeWithMerkleProof
      → LightClient
      → LightClient
      → H256
      → StoredHeader
      → LightClient
      → Type 0
  IsImported origin header proof s s' sender parent s1 =
      let total = parent.total_difficulty + header.difficulty in
      (origin ≡ signed sender)
      × (s.headers (hash_of c header) ≡ none)
      × (s.headers header.parent_hash ≡ some parent)
      × IsNext header parent.header
      × (calc_difficulty c.difficulty_config header.timestamp parent.header ≡ ok header.difficulty)
      × IsWorked c header proof
      × (total < 2 ^ 256)
      × (s.finalized_block.number < header.number)
      × (find_at_number (suc (suc parent.header.number)) s.headers s.finalized_block.number
            header.parent_hash
          ≡ Found.found s.finalized_block.hash)
      × (s1.headers ≡ insert (hash_of c header) (to_store sender header total) s.headers)
      × (s1.finalized_block ≡ s.finalized_block)
      × (s1.best_block ≡ s.best_block)
      × IsConsistent c s1
      × (((is_best c total s.best_block.1 ≡ false) × (s1 ≡ s'))
          ⊎ ((is_best c total s.best_block.1 ≡ true)
              × (adopt c (record { number = header.number; hash = hash_of c header }) total s1
                  ≡ (ok tt, s'))))

  pub import_header-IsImported :
      (origin : Origin) (header : Header) (proof : List DoubleNodeWithMerkleProof)
      (s s' : LightClient)
      → c.verify_pow ≡ true
      → IsConsistent c s
      → import_header c origin header proof s ≡ (ok tt, s')
      → (sender : H256) × (parent : StoredHeader) × (s1 : LightClient) × IsImported origin header
          proof s s' sender parent s1
  unfolding IsImported IsSound HasParent
  import_header-IsImported origin header proof s s' pow consistent h =
      let (sender, from, valid, imported) = import_header_parts origin header proof s s' h in
      let (new, parent, parent_at, young, search, worked) =
        validate_accepted c s header proof valid in
      let (next, difficulty, work) =
        check_work_accepted c header parent.header proof (worked pow) in
      let (parent', s1, at', small, stored, rest) = import_outcome c sender header s s' imported in
      let same : parent' ≡ parent = (ground arith) in
      let (by_number, appended, s1_e) = store_header_outcome c (hash_of c header) _ s s1 stored in
      let to : parent ≡ parent' = sym same in
      let total = parent'.total_difficulty + header.difficulty in
      let (key, u64, has_parent) = consistent.sound header.parent_hash parent parent_at in
      let next_number = next.number in
      let one_more : parent.header.number + 1 ≡ header.number = (omega arith) in
      let headers_e : s1.headers
          ≡ insert (hash_of c header) (to_store sender header total) s.headers =
        ap (λ q. q.headers) s1_e in
      let number_e : s1.headers_by_number ≡ by_number = ap (λ q. q.headers_by_number) s1_e in
      let range_e : s1.blocks_to_prune ≡ s.blocks_to_prune = ap (λ q. q.blocks_to_prune) s1_e in
      let final_e : s1.finalized_block ≡ s.finalized_block = ap (λ q. q.finalized_block) s1_e in
      let best_e : s1.best_block ≡ s.best_block = ap (λ q. q.best_block) s1_e in
      let oldest = consistent.pruned in
      let kept = consistent.kept in
      let consistent1 : IsConsistent c s1 = record {
        sound = subst (IsSound c) (sym headers_e) (
            insert-IsSound c s.headers (hash_of c header) (to_store sender header total)
              consistent.sound refl (omega arith) (parent.header, key, one_more));
        indexed = subst (IsIndexed c) (sym number_e) (
            try_append-IsIndexed c c.max_headers_for_number header s.headers_by_number appended
              consistent.indexed);
        pruned = subst (λ q. q.oldest_unpruned_block ≤ q.oldest_block_to_keep) (sym range_e) oldest;
        kept =
            subst (λ q. q.oldest_block_to_keep ≤ s1.finalized_block.number) (sym range_e)
              (subst (λ q. s.blocks_to_prune.oldest_block_to_keep ≤ q.number) (sym final_e) kept);
      } in
      (
        sender,
        parent',
        s1,
        (
          from,
          new,
          at',
          subst (λ q. IsNext header q.header) to next,
          subst
              (λ q.
                calc_difficulty c.difficulty_config header.timestamp q.header
                ≡ ok header.difficulty)
              to difficulty,
          work,
          small,
          young,
          subst
              (λ q.
                find_at_number (suc (suc q.header.number)) s.headers s.finalized_block.number
                  header.parent_hash
                ≡ Found.found s.finalized_block.hash)
              to search,
          headers_e,
          final_e,
          best_e,
          consistent1,
          subst
              (λ q.
                ((is_best c total q.1 ≡ false) × (s1 ≡ s'))
                ⊎ ((is_best c total q.1 ≡ true)
                    × (adopt c (record { number = header.number; hash = hash_of c header }) total s1
                        ≡ (ok tt, s'))))
              best_e rest,
        ),
      )
