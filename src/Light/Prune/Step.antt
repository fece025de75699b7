-- ===== src/Light/Prune/Step.antt =====
-- One number of the pruning, and how two runs over numbers make one.
use mathlib.Core.List.{Memᴰ}
use snowbridge.Shared.{
  ℕ, zero, suc, ◌+◌, ◌≤◌, ◌<◌, some, List, [], ◌∷◌, ◌++◌, length, length-append, take, max, ◌≡◌,
  refl, sym, ap, ◌∙◌, arith, Option-cases, All, All-append, ◌≢◌, inl, inr, ◌⊎◌,
}
use snowbridge.Shared.Bytes.{H256}
use snowbridge.Shared.Outcome.{ok}
use snowbridge.Shared.Storage.{StorageMap}
use snowbridge.Light.Prune.{Pruning, put_back, prune_number}
use snowbridge.Light.Prune.Removed.{
  remove_all, remove_all-append, RemovesFirst, remove_hashes_first,
}

-- A hash that is listed under a number.
unfoldable pub IsListed : StorageMap (List H256) → ℕ → ℕ → H256 → Type 0
IsListed by_number low high hash =
    (number : ℕ) × (low ≤ number)
    × (number < high)
    × (hashes : List H256) × (by_number number ≡ some hashes)
    × Memᴰ hash hashes

-- What a run over the numbers from `low` to `high` does to the maps and the counts.
unfoldable pub HasPruned : ℕ → ℕ → ℕ → Pruning → Pruning → List H256 → Type 0
HasPruned most low high p p' removed =
    (p'.headers ≡ remove_all removed p.headers)
    × (p'.blocks_pruned ≡ p.blocks_pruned + length removed)
    × (p.blocks_pruned ≤ most → p'.blocks_pruned ≤ most)
    × All (IsListed p.headers_by_number low high) removed
    × ((number : ℕ)
        → (number < low) ⊎ (high ≤ number)
        → p'.headers_by_number number ≡ p.headers_by_number number)
    × (p.oldest_unpruned_block ≤ p'.oldest_unpruned_block)
    × (p'.oldest_unpruned_block ≤ max p.oldest_unpruned_block high)

put_back_outcome :
    (bound number : ℕ) (hashes : List H256) (remaining : ℕ) (p : Pruning) {p' : Pruning}
    → p.oldest_unpruned_block ≤ number
    → put_back bound number hashes remaining p ≡ ok p'
    → (p'.headers ≡ p.headers)
      × (p'.blocks_pruned ≡ p.blocks_pruned)
      × ((n : ℕ) → n ≢ number → p'.headers_by_number n ≡ p.headers_by_number n)
      × (p.oldest_unpruned_block ≤ p'.oldest_unpruned_block)
      × (p'.oldest_unpruned_block ≤ number + 1)
unfolding put_back
put_back_outcome bound number hashes remaining p le h =
    (ground arith, ground arith, λ n ne. ground arith, ground arith, ground arith)

-- The first items of a list have what every item of it has.
All-take :
    {P : H256 → Type 0} (hashes : List H256) (j : ℕ)
    → ((hash : H256) → Memᴰ hash hashes → P hash)
    → All P (take j hashes)
All-take hashes zero each = tt
All-take [] (suc j) each = tt
All-take (hash ∷ hashes) (suc j) each =
    (each hash (Memᴰ.head refl), All-take hashes j (λ h m. each h (Memᴰ.tail m)))

IsListed-take :
    (by_number : StorageMap (List H256)) (number : ℕ) (hashes : List H256) (j : ℕ)
    → by_number number ≡ some hashes
    → All (IsListed by_number number (number + 1)) (take j hashes)
unfolding IsListed
IsListed-take by_number number hashes j e =
    All-take hashes j (λ hash m. (number, omega arith, omega arith, hashes, e, m))

length-take : (hashes : List H256) (j : ℕ) → j ≤ length hashes → length (take j hashes) ≡ j
length-take hashes zero le = refl
length-take [] (suc j) le = absurd (omega arith)
length-take (hash ∷ hashes) (suc j) le = ap suc (length-take hashes j (omega arith))

pub prune_number_pruned :
    (bound most number : ℕ) (p : Pruning) {p' : Pruning}
    → p.blocks_pruned ≢ most
    → p.oldest_unpruned_block ≤ number
    → prune_number bound most number (p.headers_by_number number) p ≡ ok p'
    → (removed : List H256) × HasPruned most number (number + 1) p p' removed
unfolding prune_number HasPruned RemovesFirst
prune_number_pruned bound most number p ne le h = elim (Option-cases (p.headers_by_number number)) [
  | inl e ↦ (
    [],
    (
      ground arith,
      ground arith,
      ground arith,
      tt,
      λ n out. ground arith,
      ground arith,
      ground arith,
    ),
  )
  | inr (hashes, e) ↦
      let (j, j_le, first, most_j, why) =
        remove_hashes_first most hashes p.headers p.blocks_pruned (length hashes) in
      let (e0, e1, e2) = first in
      let len = length-take hashes j j_le in
      let (q0, q1, q2, q3, q4) =
        put_back_outcome bound number hashes _ _ le
          (sym (ap (λ o. prune_number bound most number o p) e) ∙ h) in
      (
        take j hashes,
        (
          q0 ∙ e0,
          omega arith,
          λ few. ground arith,
          IsListed-take p.headers_by_number number hashes j e,
          λ n out. ground (arith, q2 n (ground arith)),
          q3,
          omega arith,
        ),
      )
]

IsListed-later :
    (by_number by_number' : StorageMap (List H256)) (low high : ℕ) (removed : List H256)
    → ((n : ℕ) → low ≤ n → by_number' n ≡ by_number n)
    → All (IsListed by_number' low high) removed
    → (first : ℕ) → first ≤ low
    → All (IsListed by_number first high) removed
unfolding IsListed
IsListed-later by_number by_number' low high [] outside all first le = tt
IsListed-later by_number by_number' low high (hash ∷ removed) outside ((n, x, y, hashes, e, m), all)
      first le =
    (
      (n, omega arith, y, hashes, sym (outside n x) ∙ e, m),
      IsListed-later by_number by_number' low high removed outside all first le,
    )

pub IsListed-wider :
    (by_number : StorageMap (List H256)) (low high high' : ℕ) (removed : List H256)
    → high ≤ high'
    → All (IsListed by_number low high) removed
    → All (IsListed by_number low high') removed
unfolding IsListed
IsListed-wider by_number low high high' [] le all = tt
IsListed-wider by_number low high high' (hash ∷ removed) le ((n, x, y, hashes, e, m), all) =
    ((n, x, omega arith, hashes, e, m), IsListed-wider by_number low high high' removed le all)

pub HasPruned-trans :
    (most low middle high : ℕ) (p p' p'' : Pruning) (xs ys : List H256)
    → low ≤ middle
    → middle ≤ high
    → HasPruned most low middle p p' xs
    → HasPruned most middle high p' p'' ys
    → HasPruned most low high p p'' (xs ++ ys)
unfolding HasPruned
HasPruned-trans most low middle high p p' p'' xs ys le le' (a0, a1, a2, a3, a4, a5, a6)
      (b0, b1, b2, b3, b4, b5, b6) =
    let len = length-append xs ys in
    (
      b0 ∙ ap (remove_all ys) a0 ∙ sym (remove_all-append xs ys p.headers),
      omega arith,
      λ few. b2 (a2 few),
      All-append _ xs ys (IsListed-wider p.headers_by_number low middle high xs le' a3) (
          IsListed-later p.headers_by_number p'.headers_by_number middle high ys
            (λ n x. a4 n (inr x)) b3 low le),
      λ n out. b4 n (before out) ∙ a4 n (after out),
      omega arith,
      omega arith,
    )
  where
    before : {n : ℕ} → (n < low) ⊎ (high ≤ n) → (n < middle) ⊎ (high ≤ n)
    before (inl x) = inl (omega arith)
    before (inr x) = inr x

    after : {n : ℕ} → (n < low) ⊎ (high ≤ n) → (n < low) ⊎ (middle ≤ n)
    after (inl x) = inl x
    after (inr x) = inr (omega arith)
