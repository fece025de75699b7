-- ===== src/Light/Import/Steps.antt =====
-- What each step of the import of a header writes.
use mathlib.Core.Path.{ap₂}
use snowbridge.Shared.{
  ℕ, ◌+◌, ◌-◌, ◌^◌, ◌<◌, true, false, some, List, ltb, ◌≡◌, sym, ap, ◌∙◌, ◌⊎◌, inl, inr, arith,
  Bool-cases, Option-cases,
}
use snowbridge.Shared.Bytes.{H256}
use snowbridge.Shared.Outcome.{ok, Result-cases}
use snowbridge.Shared.Storage.{StorageMap, insert}
use snowbridge.Ethereum.Header.{Header, HeaderId}
use snowbridge.Light.{Setup, StoredHeader, PruningRange, LightClient, try_append, hash_of}
use snowbridge.Light.Prune.{Pruning, prune_header_range}
use snowbridge.Light.Import.{
  same_id, same_range, mark_finalized, finalize_blocks, get_best_finalized_header, clean_up, adopt,
  store_header, is_best, import_validated_header, checked_add,
}

header_id : ℕ → H256 → HeaderId
header_id number hash = record { number = number; hash = hash }

same_id_eq : (a b : HeaderId) → same_id a b ≡ true → a ≡ b
unfolding header_id
same_id_eq a b e =
    let number : a.number ≡ b.number = (ground arith) in
    let hash : a.hash ≡ b.hash = (ground arith) in ap₂ header_id number hash

range_of : ℕ → ℕ → PruningRange
range_of oldest keep = record { oldest_unpruned_block = oldest; oldest_block_to_keep = keep }

same_range_eq : (a b : PruningRange) → same_range a b ≡ true → a ≡ b
unfolding range_of
same_range_eq a b e =
    let oldest : a.oldest_unpruned_block ≡ b.oldest_unpruned_block = (ground arith) in
    let keep : a.oldest_block_to_keep ≡ b.oldest_block_to_keep = (ground arith) in
    ap₂ range_of oldest keep

-- The headers before and after the finalized block is set.
unfoldable pub HasMarked : HeaderId → LightClient → LightClient → Type 0
HasMarked id s s' =
    (s'.headers ≡ s.headers)
    ⊎ ((stored : StoredHeader) × (s.headers id.hash ≡ some stored)
        × (s'.headers ≡ insert id.hash (record stored { finalized = true }) s.headers))

-- A header with its submitter and its total difficulty, as the import stores it.
abbrev pub to_store : H256 → Header → ℕ → StoredHeader
to_store sender header total = record {
  submitter = some sender;
  header = header;
  total_difficulty = total;
  finalized = false;
}

module _ (c : Setup) where
  pub finalize_blocks_outcome :
      (id : HeaderId) (s s' : LightClient) {id' : HeaderId}
      → finalize_blocks c id s ≡ (ok id', s')
      → (get_best_finalized_header c s.headers id s.finalized_block ≡ ok id')
        × (s'.finalized_block ≡ id')
        × (s'.best_block ≡ s.best_block)
        × (s'.blocks_to_prune ≡ s.blocks_to_prune)
        × (s'.headers_by_number ≡ s.headers_by_number)
        × HasMarked id' s s'
  unfolding finalize_blocks mark_finalized HasMarked
  finalize_blocks_outcome id s s' {id'} h =
      elim (Result-cases (get_best_finalized_header c s.headers id s.finalized_block)) [
        | inr (e, x) ↦ absurd (ground arith)
        | inl (i, x) ↦ elim (Bool-cases (same_id i s.finalized_block)) [
          | inl same ↦
              let e = same_id_eq i s.finalized_block same in
              let i_e : i ≡ id' = (ground arith) in
              let s_e : s ≡ s' = (ground arith) in
              (
                x ∙ ap ok i_e,
                ap (λ q. q.finalized_block) (sym s_e) ∙ sym e ∙ i_e,
                ap (λ q. q.best_block) (sym s_e),
                ap (λ q. q.blocks_to_prune) (sym s_e),
                ap (λ q. q.headers_by_number) (sym s_e),
                inl (ap (λ q. q.headers) (sym s_e)),
              )
          | inr other ↦ elim (Option-cases (s.headers i.hash)) [
            | inl missing ↦ absurd (ground arith)
            | inr (stored, at) ↦
                let i_e : i ≡ id' = (ground arith) in
                let s_e : record s {
                  finalized_block = i;
                  headers = insert i.hash (record stored { finalized = true }) s.headers;
                }
                    ≡ s' =
                  (ground arith) in
                (
                  x ∙ ap ok i_e,
                  ap (λ q. q.finalized_block) (sym s_e) ∙ i_e,
                  ap (λ q. q.best_block) (sym s_e),
                  ap (λ q. q.blocks_to_prune) (sym s_e),
                  ap (λ q. q.headers_by_number) (sym s_e),
                  inr (
                    stored,
                    ap (λ q. s.headers q.hash) (sym i_e) ∙ at,
                    ap (λ q. q.headers) (sym s_e)
                        ∙ ap (λ q. insert q.hash (record stored { finalized = true }) s.headers)
                            i_e,
                  ),
                )
          ]
        ]
      ]

  pub clean_up_outcome :
      (id : HeaderId) (s s' : LightClient)
      → clean_up c id s ≡ (ok tt, s')
      → (p : Pruning) × (prune_header_range c.max_headers_for_number s.headers s.headers_by_number
            s.blocks_to_prune 8
            (id.number - 50000)
          ≡ ok (s'.blocks_to_prune, p))
        × (s'.headers ≡ p.headers)
        × (s'.headers_by_number ≡ p.headers_by_number)
        × (s'.best_block ≡ s.best_block)
        × (s'.finalized_block ≡ s.finalized_block)
  unfolding clean_up
  clean_up_outcome id s s' h =
      elim (Result-cases (
        prune_header_range c.max_headers_for_number s.headers s.headers_by_number s.blocks_to_prune
          8 (id.number - 50000))) [
            | inr (e, x) ↦ absurd (ground arith)
            | inl ((range, p), x) ↦ elim (Bool-cases (same_range range s.blocks_to_prune)) [
              | inl same ↦
                  let range_e = same_range_eq range s.blocks_to_prune same in
                  let to_e : s.blocks_to_prune ≡ s'.blocks_to_prune = (ground arith) in
                  (
                    p,
                    x ∙ ap (λ q. ok (q, p)) (range_e ∙ to_e),
                    ground arith,
                    ground arith,
                    ground arith,
                    ground arith,
                  )
              | inr other ↦
                  let to_e : range ≡ s'.blocks_to_prune = (ground arith) in
                  (
                    p,
                    x ∙ ap (λ q. ok (q, p)) to_e,
                    ground arith,
                    ground arith,
                    ground arith,
                    ground arith,
                  )
            ]
          ]

  pub store_header_outcome :
      (hash : H256) (stored : StoredHeader) (s s' : LightClient)
      → store_header c hash stored s ≡ (ok tt, s')
      → (by_number : StorageMap (List H256)) × (try_append c.max_headers_for_number
            stored.header.number hash s.headers_by_number
          ≡ some by_number)
        × (s' ≡ record s { headers_by_number = by_number; headers = insert hash stored s.headers })
  unfolding store_header
  store_header_outcome hash stored s s' h =
      elim (Option-cases
        (try_append c.max_headers_for_number stored.header.number hash s.headers_by_number)) [
          | inl x ↦ absurd (ground arith)
          | inr (by_number, x) ↦ (by_number, x, ground arith)
        ]

  pub adopt_outcome :
      (id : HeaderId) (total : ℕ) (s s' : LightClient)
      → adopt c id total s ≡ (ok tt, s')
      → (id' : HeaderId) × (s1 : LightClient) × (finalize_blocks c id
            (record s { best_block = (id, total) })
          ≡ (ok id', s1))
        × (clean_up c id' s1 ≡ (ok tt, s'))
  unfolding adopt
  adopt_outcome id total s s' h =
      let (r, s1) = finalize_blocks c id (record s { best_block = (id, total) }) in
      elim (Result-cases (finalize_blocks c id (record s { best_block = (id, total) })).0) [
        | inr (e, x) ↦ absurd (ground arith)
        | inl (id', x) ↦ (id', s1, ap (λ q. (q, s1)) x, ground arith)
      ]

  pub import_outcome :
      (sender : H256) (header : Header) (s s' : LightClient)
      → import_validated_header c sender header s ≡ (ok tt, s')
      → (parent : StoredHeader) × (s1 : LightClient) × (s.headers header.parent_hash ≡ some parent)
        × (parent.total_difficulty + header.difficulty < 2 ^ 256)
        × (store_header c
              (hash_of c header)
              (to_store sender header (parent.total_difficulty + header.difficulty))
              s
            ≡ (ok tt, s1))
        × (((is_best c (parent.total_difficulty + header.difficulty) s1.best_block.1 ≡ false)
              × (s1 ≡ s'))
            ⊎ ((is_best c (parent.total_difficulty + header.difficulty) s1.best_block.1 ≡ true)
                × (adopt c
                      (record { number = header.number; hash = hash_of c header })
                      (parent.total_difficulty + header.difficulty)
                      s1
                    ≡ (ok tt, s'))))
  unfolding import_validated_header checked_add
  import_outcome sender header s s' h = elim (Option-cases (s.headers header.parent_hash)) [
    | inl x ↦ absurd (ground arith)
    | inr (parent, x) ↦
        let total = parent.total_difficulty + header.difficulty in
        elim (Bool-cases (ltb total (2 ^ 256))) [
          | inr y ↦ absurd (ground arith)
          | inl y ↦
              let stored = store_header c (hash_of c header) (to_store sender header total) s in
              elim (Result-cases stored.0) [
                | inr (e, z) ↦ absurd (ground arith)
                | inl (u, z) ↦ (
                  parent,
                  stored.1,
                  x,
                  ground arith,
                  ap (λ q. (q, stored.1)) z,
                  elim (Bool-cases (is_best c total stored.1.best_block.1)) [
                    | inl b ↦ inr (b, ground arith)
                    | inr b ↦ inl (b, ground arith)
                  ],
                )
              ]
        ]
  ]
