-- ===== src/Light/Prune/Removed.antt =====
-- The loop over the hashes of one number removes the first of them.
use snowbridge.Shared.{
  ℕ, suc, ◌+◌, ◌-◌, ◌≤◌, ◌<◌, List, [], ◌∷◌, ◌++◌, length, take, ◌==◌, ◌≡◌, refl, arith, Bool-cases,
  inl, inr, ◌⊎◌,
}
use snowbridge.Shared.Bytes.{H256}
use snowbridge.Shared.Storage.{remove}
use snowbridge.Light.Prune.{remove_hashes}
use snowbridge.Light.Chain.{Headers, IsWithin}

abbrev pub remove_all : List H256 → Headers → Headers
remove_all [] headers = headers
remove_all (hash ∷ hashes) headers = remove_all hashes (remove hash headers)

remove-IsWithin : (hash : H256) (headers : Headers) → IsWithin (remove hash headers) headers
unfolding IsWithin
remove-IsWithin hash headers h stored e = ground arith

pub remove_all-IsWithin :
    (hashes : List H256) (headers : Headers) → IsWithin (remove_all hashes headers) headers
unfolding IsWithin
remove_all-IsWithin [] headers h stored e = e
remove_all-IsWithin (hash ∷ hashes) headers h stored e =
    remove-IsWithin hash headers h stored
      (remove_all-IsWithin hashes (remove hash headers) h stored e)

pub remove_all-append :
    (xs ys : List H256) (headers : Headers)
    → remove_all (xs ++ ys) headers ≡ remove_all ys (remove_all xs headers)
remove_all-append [] ys headers = refl
remove_all-append (x ∷ xs) ys headers = remove_all-append xs ys (remove x headers)

-- What the loop over the hashes of a number gives, where it removes the first `j` of them.
unfoldable pub RemovesFirst : List H256 → Headers → ℕ → ℕ → ℕ → Headers × ℕ × ℕ → Type 0
RemovesFirst hashes headers pruned remaining j (headers', pruned', remaining') =
    (headers' ≡ remove_all (take j hashes) headers)
    × (pruned' ≡ pruned + j)
    × (remaining' ≡ remaining - j)

pub remove_hashes_first :
    (most : ℕ) (hashes : List H256) (headers : Headers) (pruned remaining : ℕ)
    → (j : ℕ) × (j ≤ length hashes)
      × RemovesFirst hashes headers pruned remaining j
          (remove_hashes most hashes headers pruned remaining)
      × (pruned < most → pruned + j ≤ most)
      × ((j ≡ length hashes) ⊎ (pruned + j ≡ most))
unfolding remove_hashes RemovesFirst
remove_hashes_first most [] headers pruned remaining =
    (0, omega arith, (refl, omega arith, omega arith), λ lt. omega arith, inl refl)
remove_hashes_first most (hash ∷ hashes) headers pruned remaining =
    elim (Bool-cases (pruned + 1 == most)) [
      | inl last ↦ (
        1,
        omega arith,
        (ground arith, ground arith, ground arith),
        λ lt. ground arith,
        inr (ground arith),
      )
      | inr other ↦
          let (j, le, (e, e1, e2), bound, why) =
            remove_hashes_first most hashes (remove hash headers) (pruned + 1) (remaining - 1) in
          (
            suc j,
            omega arith,
            (ground arith, ground arith, ground arith),
            λ lt. ground arith,
            ground arith,
          )
    ]
