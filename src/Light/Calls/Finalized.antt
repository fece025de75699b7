-- ===== src/Light/Calls/Finalized.antt =====
-- The finalized block over the imports of headers: it only ever moves to its descendants.
use mathlib.Core.Path.{subst}
use snowbridge.Shared.{◌≤◌, true, none, some, List, ◌≡◌, refl, sym, ap, ◌⊎◌, inl, inr, arith}
use snowbridge.Shared.Bytes.{H256}
use snowbridge.Shared.Outcome.{ok, Result-cases}
use snowbridge.Core.{Origin, signed}
use snowbridge.Ethereum.Header.{Header}
use snowbridge.Ethereum.Ethash.{DoubleNodeWithMerkleProof}
use snowbridge.Light.{Setup, StoredHeader, LightClient, hash_of}
use snowbridge.Light.Chain.{Clash}
use snowbridge.Light.Validate.Accepted.{IsNext, IsWorked}
use snowbridge.Ethereum.Difficulty.{calc_difficulty}
use snowbridge.Light.Import.Sound.{IsConsistent}
use snowbridge.Light.Calls.{import_header, Submission, import_one, import_all, import_all-keeps}
use snowbridge.Light.Calls.Accepted.{IsImported, import_header-IsImported, import_header_unchanged}
use snowbridge.Light.Calls.Effect.{
  HasAdvanced, HasAdvanced-refl, HasAdvanced-trans, HasStored, import_header_effect,
}

module _ (c : Setup) where
  keeps_advancing :
      (s0 : LightClient) (x : Submission) (s : LightClient)
      → c.verify_pow ≡ true
      → IsConsistent c s × HasAdvanced c s0 s × (s0.best_block.1 ≤ s.best_block.1)
      → IsConsistent c (import_one c x s)
        × HasAdvanced c s0 (import_one c x s)
        × (s0.best_block.1 ≤ (import_one c x s).best_block.1)
  keeps_advancing s0 x s pow (consistent, advanced, best) =
      let s' = import_one c x s in
      let result = (import_header c x.origin x.header x.proof s).0 in
      elim (Result-cases result) [
        | inr (e, y) ↦
            let same =
              import_header_unchanged c x.origin x.header x.proof s s' (ap (λ r. (r, s')) y) in
            subst (λ q. IsConsistent c q × HasAdvanced c s0 q × (s0.best_block.1 ≤ q.best_block.1))
              (sym same) (consistent, advanced, best)
        | inl (u, y) ↦
            let (sender, parent, s1, imported) =
              import_header-IsImported c x.origin x.header x.proof s s' pow consistent
                (ap (λ r. (r, s')) y) in
            let (consistent', advanced', best', _) =
              import_header_effect c x.origin x.header x.proof s s' sender parent s1 pow consistent
                imported in
            (consistent', HasAdvanced-trans c s0 s s' advanced advanced', omega arith)
      ]

  -- Over every sequence of imports with the proofs of work verified, from a consistent storage, the
  -- storage stays consistent, the number of the finalized block never goes down, the finalized block
  -- at the end is that of the start or one of its descendants by the hashes of headers, or two
  -- headers with one hash and two numbers are found, and the best difficulty never goes down.
  pub import_all-HasAdvanced :
      (xs : List Submission) (s : LightClient)
      → c.verify_pow ≡ true
      → IsConsistent c s
      → IsConsistent c (import_all c xs s)
        × HasAdvanced c s (import_all c xs s)
        × (s.best_block.1 ≤ (import_all c xs s).best_block.1)
  import_all-HasAdvanced xs s pow consistent =
      import_all-keeps c
        (λ q. IsConsistent c q × HasAdvanced c s q × (s.best_block.1 ≤ q.best_block.1))
        (λ x q. keeps_advancing s x q pow) xs s
        (consistent, HasAdvanced-refl c s s refl, omega arith)

  -- A header that is imported from a consistent storage, with the proofs of work verified, was new,
  -- follows its stored parent in its number, time and gas, states the difficulty that is calculated
  -- for it and proves its work; its parent descends from the finalized block, and it is stored under
  -- its hash with its total difficulty, or two headers with one hash and two numbers are found.
  pub import_header_stored :
      (origin : Origin) (header : Header) (proof : List DoubleNodeWithMerkleProof)
      (s s' : LightClient)
      → c.verify_pow ≡ true
      → IsConsistent c s
      → import_header c origin header proof s ≡ (ok tt, s')
      → (sender : H256) × (parent : StoredHeader) × (origin ≡ signed sender)
        × (s.headers (hash_of c header) ≡ none)
        × (s.headers header.parent_hash ≡ some parent)
        × IsNext header parent.header
        × (calc_difficulty c.difficulty_config header.timestamp parent.header
            ≡ ok header.difficulty)
        × IsWorked c header proof
        × (Clash c ⊎ HasStored c s s' sender parent header)
  unfolding IsImported
  import_header_stored origin header proof s s' pow consistent h =
      let (sender, parent, s1, imported) =
        import_header-IsImported c origin header proof s s' pow consistent h in
      let (_, _, _, stored) =
        import_header_effect c origin header proof s s' sender parent s1 pow consistent imported in
      let (from, new, parent_at, next, difficulty, work, _, _, _, _, _, _, _, _) = imported in
      (sender, parent, from, new, parent_at, next, difficulty, work, stored)
