-- ===== src/Light/Import/Sound.antt =====
-- What an import keeps of the storage: the headers stay linked, the index of the numbers names
-- headers that have them, and nothing that is not older than the finalized block is pruned.
use mathlib.Core.List.Memᴰ
use mathlib.Core.List.{Memᴰ}
use mathlib.Core.Path.{subst}
use snowbridge.Shared.{
  ℕ, ◌+◌, ◌-◌, ◌≤◌, ◌<◌, Bool, true, Option, none, some, List, [], ◌∷◌, ◌++◌, ◌==◌, ◌≡◌, refl, sym,
  ap, ◌∙◌, ◌⊎◌, inl, inr, arith, All, Bool-cases, Option-cases,
}
use snowbridge.Shared.Bytes.{H256}
use snowbridge.Shared.Outcome.{ok}
use snowbridge.Shared.Storage.{StorageMap, insert, remove, value_or}
use snowbridge.Ethereum.Header.{Header, HeaderId}
use snowbridge.Light.{Setup, StoredHeader, LightClient, try_append, hash_of}
use snowbridge.Light.Chain.{Headers, IsWithin, IsSound, Clash, insert-IsSound, within-IsSound}
use snowbridge.Light.Prune.Bounds.{prune_header_range_pruned}
use snowbridge.Light.Prune.Step.{IsListed}
use snowbridge.Light.Prune.Removed.{remove_all, remove_all-IsWithin}
use snowbridge.Light.Prune.Index.{ListsFrom, prune_header_range-ListsFrom}
use snowbridge.Light.Import.{adopt, best_finalized, get_best_finalized_header}
use snowbridge.Light.Import.Steps.{
  HasMarked, finalize_blocks_outcome, clean_up_outcome, adopt_outcome,
}

module _ (c : Setup) where
  -- Each hash under a number is that of a header with the number.
  unfoldable pub IsIndexed : StorageMap (List H256) → Type 0
  IsIndexed by_number =
      (number : ℕ) (hashes : List H256) (hash : H256)
      → by_number number ≡ some hashes
      → Memᴰ hash hashes
      → (q : Header) × (hash_of c q ≡ hash) × (q.number ≡ number)

  append-Mem :
      (hash x : H256) (hashes : List H256)
      → Memᴰ hash (hashes ++ x ∷ [])
      → Memᴰ hash hashes ⊎ (hash ≡ x)
  append-Mem hash x [] m = elim (Memᴰ.cases_cons m) [ inl e ↦ inr e | inr m' ↦ inl m' ]
  append-Mem hash x (y ∷ hashes) m = elim (Memᴰ.cases_cons m) [
    | inl e ↦ inl (Memᴰ.head e)
    | inr m' ↦ elim (append-Mem hash x hashes m') [ inl m'' ↦ inl (Memᴰ.tail m'') | inr e ↦ inr e ]
  ]

  pub try_append-IsIndexed :
      (bound : ℕ) (header : Header) (by_number : StorageMap (List H256))
      {by_number' : StorageMap (List H256)}
      → try_append bound header.number (hash_of c header) by_number ≡ some by_number'
      → IsIndexed by_number
      → IsIndexed by_number'
  unfolding try_append IsIndexed
  try_append-IsIndexed bound header by_number {by_number'} e indexed n hashes hash at m =
      let number = header.number in
      let known = value_or [] (by_number number) in
      let e' : insert number (known ++ hash_of c header ∷ []) by_number ≡ by_number' =
        (ground arith) in
      let at' : insert number (known ++ hash_of c header ∷ []) by_number n ≡ some hashes =
        ap (λ f. f n) e' ∙ at in
      elim (Bool-cases (n == number)) [
        | inl x ↦
            let hashes_e : hashes ≡ known ++ hash_of c header ∷ [] = (ground arith) in
            elim (append-Mem hash (hash_of c header) known (subst (Memᴰ hash) hashes_e m)) [
              | inr new ↦ (header, sym new, ground arith)
              | inl old ↦ elim (Option-cases (by_number number)) [
                | inl nothing ↦
                    absurd (Memᴰ.not-nil (subst (Memᴰ hash) (ap (value_or []) nothing) old))
                | inr (hashes', y) ↦
                    let (q, key, q_number) =
                      indexed number hashes' hash y (subst (Memᴰ hash) (ap (value_or []) y) old) in
                    (q, key, ground arith)
              ]
            ]
        | inr x ↦ indexed n hashes hash (ground arith) m
      ]

  ListsFrom-IsIndexed : (a b : StorageMap (List H256)) → ListsFrom a b → IsIndexed b → IsIndexed a
  unfolding ListsFrom IsIndexed
  ListsFrom-IsIndexed a b from indexed number hashes hash e m =
      let (hashes', e', m') = from number hashes hash e m in indexed number hashes' hash e' m'

  -- The storage between two imports.
  pub record IsConsistent (s : LightClient) : Type 0 where
    pub sound : IsSound c s.headers
    pub indexed : IsIndexed s.headers_by_number
    pub pruned : s.blocks_to_prune.oldest_unpruned_block ≤ s.blocks_to_prune.oldest_block_to_keep
    pub kept : s.blocks_to_prune.oldest_block_to_keep ≤ s.finalized_block.number

  marked-IsSound :
      (id : HeaderId) (s s' : LightClient)
      → HasMarked id s s'
      → IsSound c s.headers
      → IsSound c s'.headers
  unfolding HasMarked IsSound
  marked-IsSound id s s' (inl e) sound = subst (IsSound c) (sym e) sound
  marked-IsSound id s s' (inr (stored, at, e)) sound =
      let (key, small, parent) = sound id.hash stored at in
      subst (IsSound c) (sym e) (
        insert-IsSound c s.headers id.hash (record stored { finalized = true }) sound key small
          parent)

  best_finalized_number :
      (f : HeaderId) (o : Option (H256 × Header)) {f' : HeaderId}
      → best_finalized f o ≡ ok f'
      → f.number ≤ f'.number
  unfolding best_finalized
  best_finalized_number f none h = ground arith
  best_finalized_number f (some (hash, header)) h = ground arith

  -- What is removed from a map is one of the keys, or stays what it was.
  remove_all-cases :
      (P : H256 → Type 0) (hashes : List H256) (headers : Headers) (hash : H256)
      → All P hashes
      → P hash ⊎ (remove_all hashes headers hash ≡ headers hash)
  remove_all-cases P [] headers hash all = inr refl
  remove_all-cases P (x ∷ hashes) headers hash (px, all) = elim (Bool-cases (hash == x)) [
    | inl e ↦ inl (subst P (ground arith) px)
    | inr e ↦ elim (remove_all-cases P hashes (remove x headers) hash all) [
      | inl p ↦ inl p
      | inr keeps ↦ inr (keeps ∙ (ground arith))
    ]
  ]

  marked_header :
      (id : HeaderId) (s s' : LightClient) (hash : H256) (stored : StoredHeader)
      → HasMarked id s s'
      → s.headers hash ≡ some stored
      → (finalized : Bool) × (s'.headers hash ≡ some (record stored { finalized = finalized }))
  unfolding HasMarked
  marked_header id s s' hash stored (inl e) at = (stored.finalized, ap (λ f. f hash) e ∙ at)
  marked_header id s s' hash stored (inr (x, x_at, e)) at = elim (Bool-cases (hash == id.hash)) [
    | inl y ↦
        let x_e : some x ≡ some stored = (sym x_at ∙ ap s.headers (ground arith) ∙ at) in
        (true, ap (λ f. f hash) e ∙ (ground arith))
    | inr y ↦ (stored.finalized, ap (λ f. f hash) e ∙ (ground arith))
  ]

  -- A header that is younger than the finalized block and not far below the new one is not pruned.
  unfoldable pub KeepsHeader : LightClient → LightClient → Type 0
  KeepsHeader s s' =
      (header : Header) (stored : StoredHeader)
      → s.headers (hash_of c header) ≡ some stored
      → s.finalized_block.number < header.number
      → s'.finalized_block.number ≤ header.number + 50000
      → Clash c
        ⊎ ((finalized : Bool) × (s'.headers (hash_of c header)
              ≡ some (record stored { finalized = finalized })))

  pub adopt_effect :
      (id : HeaderId) (total : ℕ) (s s' : LightClient)
      → IsConsistent s
      → adopt c id total s ≡ (ok tt, s')
      → IsConsistent s'
        × (s'.best_block ≡ (id, total))
        × (get_best_finalized_header c s.headers id s.finalized_block ≡ ok s'.finalized_block)
        × KeepsHeader s s'
  unfolding get_best_finalized_header KeepsHeader IsListed IsIndexed Clash
  adopt_effect id total s s' consistent h =
      let (id', s1, marked, cleaned) = adopt_outcome c id total s s' h in
      let (best, f1, b1, p1, n1, m1) =
        finalize_blocks_outcome c id (record s { best_block = (id, total) }) s1 marked in
      let (p, pr, h2, n2, b2, f2) = clean_up_outcome c id' s1 s' cleaned in
      let (keep, low, high, removed, few, h3, listed) =
        prune_header_range_pruned c.max_headers_for_number s1.headers s1.headers_by_number
          s1.blocks_to_prune 8 (id'.number - 50000) pr in
      let final : id' ≡ s'.finalized_block = sym (f2 ∙ f1) in
      let number : id'.number ≡ s'.finalized_block.number = ap (λ q. q.number) final in
      let up = best_finalized_number s.finalized_block _ best in
      let within : IsWithin s'.headers s1.headers =
        subst (λ q. IsWithin q s1.headers) (sym (h2 ∙ h3))
          (remove_all-IsWithin removed s1.headers) in
      let oldest : s1.blocks_to_prune.oldest_unpruned_block
          ≡ s.blocks_to_prune.oldest_unpruned_block =
        ap (λ q. q.oldest_unpruned_block) p1 in
      let keep1 : s1.blocks_to_prune.oldest_block_to_keep ≡ s.blocks_to_prune.oldest_block_to_keep =
        ap (λ q. q.oldest_block_to_keep) p1 in
      let before = consistent.pruned in
      let kept = consistent.kept in
      (
        record {
          sound =
              within-IsSound c s'.headers s1.headers within
                (marked-IsSound id' (record s { best_block = (id, total) }) s1 m1 consistent.sound);
          indexed =
              ListsFrom-IsIndexed s'.headers_by_number s.headers_by_number
                (subst (λ q. ListsFrom q s.headers_by_number) (sym n2)
                  (subst (λ q. ListsFrom p.headers_by_number q) n1
                    (prune_header_range-ListsFrom c.max_headers_for_number s1.headers
                      s1.headers_by_number s1.blocks_to_prune 8 (id'.number - 50000) pr)))
                consistent.indexed;
          pruned = omega arith;
          kept = omega arith;
        },
        b2 ∙ b1,
        best ∙ ap ok final,
        λ header stored at young near.
            elim (remove_all-cases _ removed s1.headers (hash_of c header) listed) [
              | inl (n, n_low, n_high, hashes, n_at, member) ↦
                  let (q, key, q_number) =
                    consistent.indexed n hashes (hash_of c header) (ap (λ f. f n) (sym n1) ∙ n_at)
                      member in
                  inl (q, header, key, λ same. omega arith)
              | inr keeps ↦
                  let (flag, at1) =
                    marked_header id' (record s { best_block = (id, total) }) s1 (hash_of c header)
                      stored m1 at in
                  inr (flag, ap (λ f. f (hash_of c header)) (h2 ∙ h3) ∙ keeps ∙ at1)
            ],
      )
