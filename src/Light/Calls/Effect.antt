-- ===== src/Light/Calls/Effect.antt =====
-- What one import does to the finalized block, and where it stores the header.
use mathlib.Core.Path.{subst}
use snowbridge.Shared.{
  ℕ, suc, ◌+◌, ◌-◌, ◌≤◌, Bool, true, false, Option, none, some, List, ltb, leb, ◌==◌, ◌≡◌, sym, ap,
  ◌∙◌, ◌⊎◌, inl, inr, arith, Bool-cases, Option-cases,
}
use snowbridge.Shared.Bytes.{H256}
use snowbridge.Shared.Outcome.{ok}
use snowbridge.Shared.Storage.{insert, insert_self}
use snowbridge.Core.{Origin}
use snowbridge.Ethereum.Header.{Header, HeaderId}
use snowbridge.Ethereum.Ethash.{DoubleNodeWithMerkleProof}
use snowbridge.Light.{Setup, StoredHeader, LightClient, find_finalized_ancestor, hash_of}
use snowbridge.Light.Chain.{
  Headers, IsWithin, IsSound, Clash, Descends, Descends-trans, ancestor_split, ancestor_within,
  ancestor_stored, ancestor_step, find_at_number-ancestor,
}
use snowbridge.Light.Chain.Numbers.{ancestor_number, ancestor-Descends}
use snowbridge.Light.Import.{best_finalized, get_best_finalized_header, is_best}
use snowbridge.Light.Import.Steps.{to_store}
use snowbridge.Light.Import.Sound.{IsConsistent, KeepsHeader, adopt_effect}
use snowbridge.Light.Calls.Accepted.{IsImported}

module _ (c : Setup) where
  -- The ancestor with enough descendants descends from the finalized block, where it is younger and
  -- both are on the chain of one header.
  best_finalized-Descends :
      (headers : Headers) (hash : H256) (stored : StoredHeader) (finalized : HeaderId) (d m : ℕ)
      (header : Header) {finalized' : HeaderId}
      → IsSound c headers
      → headers hash ≡ some stored
      → find_finalized_ancestor headers hash m ≡ some (finalized.hash, header)
      → header.number ≡ finalized.number
      → finalized.number ≤ stored.header.number
      → best_finalized finalized (find_finalized_ancestor headers hash d) ≡ ok finalized'
      → Clash c
        ⊎ (Descends c finalized'.hash finalized.hash × (finalized'.number ≤ stored.header.number))
  unfolding best_finalized
  best_finalized-Descends headers hash stored finalized d m header {finalized'} sound at walk number
        le h =
      elim (Option-cases (find_finalized_ancestor headers hash d)) [
        | inl x ↦
            let e : finalized ≡ finalized' = (ground arith) in
            inr (
              subst (λ q. Descends c q.hash finalized.hash × (q.number ≤ stored.header.number)) e
                (Descends.itself, le))
        | inr ((ancestor, header'), x) ↦ elim (Bool-cases (ltb finalized.number header'.number)) [
          | inr old ↦
              let e : finalized ≡ finalized' = (ground arith) in
              inr (
                subst (λ q. Descends c q.hash finalized.hash × (q.number ≤ stored.header.number)) e
                  (Descends.itself, le))
          | inl young ↦
              let hash_e : ancestor ≡ finalized'.hash = (ground arith) in
              let number_e : header'.number ≡ finalized'.number = (ground arith) in
              elim (ancestor_number c headers hash d stored sound at x) [
                | inl clash ↦ inl clash
                | inr down ↦ elim (Bool-cases (leb d m)) [
                  | inl before ↦
                      let e : m ≡ d + (m - d) = (ground arith) in
                      let rest : find_finalized_ancestor headers ancestor (m - d)
                          ≡ some (finalized.hash, header) =
                        sym (ancestor_split headers hash d (m - d) x)
                        ∙ ap (find_finalized_ancestor headers hash) (sym e)
                        ∙ walk in
                      inr (
                        subst (λ q. Descends c q finalized.hash) hash_e
                            (ancestor-Descends c headers ancestor (m - d) sound rest),
                        omega arith,
                      )
                  | inr beyond ↦
                      let e : d ≡ m + (d - m) = (ground arith) in
                      let rest : find_finalized_ancestor headers finalized.hash (d - m)
                          ≡ some (ancestor, header') =
                        sym (ancestor_split headers hash m (d - m) walk)
                        ∙ ap (find_finalized_ancestor headers hash) (sym e)
                        ∙ x in
                      let (stored', at', header_e) = ancestor_stored headers hash m walk in
                      elim (ancestor_number c headers finalized.hash (d - m) stored' sound at'
                        rest) [
                          | inl clash ↦ inl clash
                          | inr below ↦ absurd (let q = ap (λ y. y.number) header_e in ground arith)
                        ]
                ]
              ]
        ]
      ]

  insert_fresh-IsWithin :
      (headers : Headers) (hash : H256) (stored : StoredHeader)
      → headers hash ≡ none
      → IsWithin headers (insert hash stored headers)
  unfolding IsWithin
  insert_fresh-IsWithin headers hash stored new h x e = elim (Bool-cases (h == hash)) [
    | inl y ↦
        let h_e : h ≡ hash = (ground arith) in
        let same = sym new ∙ ap headers (sym h_e) ∙ e in absurd (ground arith)
    | inr y ↦ ground arith
  ]

  best_finalized_younger :
      (f : HeaderId) (o : Option (H256 × Header)) {f' : HeaderId}
      → best_finalized f o ≡ ok f'
      → f.number ≤ f'.number
  unfolding best_finalized
  best_finalized_younger f none h = ground arith
  best_finalized_younger f (some (hash, header)) h = ground arith

  -- The finalized block of the second storage is that of the first, or one of its descendants.
  unfoldable pub HasAdvanced : LightClient → LightClient → Type 0
  HasAdvanced s s' =
      (s.finalized_block.number ≤ s'.finalized_block.number)
      × (Clash c ⊎ Descends c s'.finalized_block.hash s.finalized_block.hash)

  pub HasAdvanced-refl :
      (s s' : LightClient) → s'.finalized_block ≡ s.finalized_block → HasAdvanced s s'
  unfolding HasAdvanced
  HasAdvanced-refl s s' e = (
    omega (arith, ap (λ q. q.number) e),
    inr (subst (λ q. Descends c q.hash s.finalized_block.hash) (sym e) Descends.itself),
  )

  pub HasAdvanced-trans :
      (a b d : LightClient) → HasAdvanced a b → HasAdvanced b d → HasAdvanced a d
  unfolding HasAdvanced
  HasAdvanced-trans a b d (le, inl clash) (le', y) = (omega arith, inl clash)
  HasAdvanced-trans a b d (le, inr x) (le', inl clash) = (omega arith, inl clash)
  HasAdvanced-trans a b d (le, inr x) (le', inr y) = (omega arith, inr (Descends-trans c y x))

  -- The header is stored with its total difficulty, and the ancestor of its parent at the number of
  -- the finalized block is that block.
  unfoldable pub HasStored : LightClient → LightClient → H256 → StoredHeader → Header → Type 0
  HasStored s s' sender parent header =
      Descends c header.parent_hash s.finalized_block.hash
      × ((finalized : Bool) × (s'.headers (hash_of c header)
            ≡ some (record {
              submitter = some sender;
              header = header;
              total_difficulty = parent.total_difficulty + header.difficulty;
              finalized = finalized;
            })))

  pub import_header_effect :
      (origin : Origin) (header : Header) (proof : List DoubleNodeWithMerkleProof)
      (s s' : LightClient) (sender : H256) (parent : StoredHeader) (s1 : LightClient)
      → c.verify_pow ≡ true
      → IsConsistent c s
      → IsImported c origin header proof s s' sender parent s1
      → IsConsistent c s'
        × HasAdvanced s s'
        × (s.best_block.1 ≤ s'.best_block.1)
        × (Clash c ⊎ HasStored s s' sender parent header)
  unfolding IsImported HasAdvanced HasStored get_best_finalized_header KeepsHeader is_best
  import_header_effect origin header proof s s' sender parent s1 pow consistent
        (
          from, new, parent_at, next, difficulty, work, small, young, search_e, headers_e, final_e,
          best_e, consistent1, rest,
        ) =
      let hash = hash_of c header in
      let stored = to_store sender header (parent.total_difficulty + header.difficulty) in
      let (k, final_header, walk, number) =
        find_at_number-ancestor (suc (suc parent.header.number)) s.headers s.finalized_block.number
          header.parent_hash search_e in
      let below = ancestor-Descends c s.headers header.parent_hash k consistent.sound walk in
      let at : s1.headers hash ≡ some stored =
        ap (λ f. f hash) headers_e ∙ insert_self hash stored s.headers in
      elim rest [
        | inl (light, same) ↦ (
          subst (IsConsistent c) same consistent1,
          HasAdvanced-refl s s' (ap (λ q. q.finalized_block) (sym same) ∙ final_e),
          omega (arith, ap (λ q. q.1) best_e, ap (λ q. q.best_block.1) same),
          inr (below, (false, ap (λ q. q.headers hash) (sym same) ∙ at)),
        )
        | inr (heavy, adopted) ↦
            let within : IsWithin s.headers s1.headers =
              subst (IsWithin s.headers) (sym headers_e)
                (insert_fresh-IsWithin s.headers hash stored new) in
            let walk1 =
              ancestor_step s1.headers hash k at
              ∙ ancestor_within s.headers s1.headers header.parent_hash k within walk in
            let (consistent', best', final', keeps) =
              adopt_effect c (record { number = header.number; hash = hash })
                (parent.total_difficulty + header.difficulty) s1 s' consistent1 adopted in
            let final_hash : s1.finalized_block.hash ≡ s.finalized_block.hash =
              ap (λ q. q.hash) final_e in
            let final_number : s1.finalized_block.number ≡ s.finalized_block.number =
              ap (λ q. q.number) final_e in
            let up = best_finalized_younger s1.finalized_block _ final' in
            let chain =
              best_finalized-Descends s1.headers hash stored s1.finalized_block
                c.descendants_until_finalized (suc k) final_header consistent1.sound at
                (walk1 ∙ ap (λ q. some (q, final_header)) (sym final_hash)) (omega arith)
                (omega arith) final' in
            let better : (s'.best_block ≡ (
              record { number = header.number; hash = hash },
              parent.total_difficulty + header.difficulty,
            ))
                → s.best_block.1 ≤ s'.best_block.1 =
              (λ e. ground (arith, ap (λ q. q.1) e)) in
            (
              consistent',
              (
                omega arith,
                elim chain [
                  | inl clash ↦ inl clash
                  | inr (down, le) ↦
                      inr (subst (Descends c s'.finalized_block.hash) final_hash down)
                ],
              ),
              better best',
              elim chain [
                | inl clash ↦ inl clash
                | inr (down, le) ↦ elim (keeps header stored at (omega arith) (omega arith)) [
                  | inl clash ↦ inl clash
                  | inr kept ↦ inr (below, kept)
                ]
              ],
            )
      ]
