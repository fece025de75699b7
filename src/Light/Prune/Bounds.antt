-- ===== src/Light/Prune/Bounds.antt =====
-- What the pruning of old headers removes and keeps.
use mathlib.Core.Path.{subst}
use snowbridge.Shared.{
  ℕ, zero, suc, ◌+◌, ◌-◌, ◌≤◌, List, [], ◌++◌, length, ◌==◌, max, ◌≡◌, refl, sym, ap, ◌∙◌, arith,
  Bool-cases, All, ◌≢◌, inl, inr,
}
use snowbridge.Shared.Bytes.{H256}
use snowbridge.Shared.Outcome.{ok, err, Result-cases, ok-injective}
use snowbridge.Shared.Storage.{StorageMap}
use snowbridge.Light.{PruningRange, Error}
use snowbridge.Light.Prune.{Pruning, prune_number, prune_numbers, prune_header_range}
use snowbridge.Light.Chain.{Headers}
use snowbridge.Light.Prune.Removed.{remove_all}
use snowbridge.Light.Prune.Step.{
  IsListed, HasPruned, prune_number_pruned, IsListed-wider, HasPruned-trans,
}

pub prune_numbers-zero :
    (bound most number : ℕ) (p : Pruning) → prune_numbers bound most zero number p ≡ ok p
unfolding prune_numbers
prune_numbers-zero bound most number p = refl

HasPruned-oldest :
    (most number : ℕ) (p p1 : Pruning) (xs : List H256)
    → p.oldest_unpruned_block ≤ number
    → HasPruned most number (number + 1) p p1 xs
    → p1.oldest_unpruned_block ≤ number + 1
unfolding HasPruned
HasPruned-oldest most number p p1 xs le (_, _, _, _, _, _, oldest) = omega arith

pub prune_numbers_stops :
    (bound most rounds number : ℕ) (p : Pruning)
    → p.blocks_pruned ≡ most
    → prune_numbers bound most rounds number p ≡ ok p
unfolding prune_numbers
prune_numbers_stops bound most zero number p e = refl
prune_numbers_stops bound most (suc rounds) number p e = ground arith

pub prune_numbers_fails :
    (bound most rounds number : ℕ) (p : Pruning) {e : Error}
    → p.blocks_pruned ≢ most
    → prune_number bound most number (p.headers_by_number number) p ≡ err e
    → prune_numbers bound most (suc rounds) number p ≡ err e
unfolding prune_numbers
prune_numbers_fails bound most rounds number p ne x = ground arith

pub prune_numbers_goes_on :
    (bound most rounds number : ℕ) (p : Pruning) {p1 : Pruning}
    → p.blocks_pruned ≢ most
    → prune_number bound most number (p.headers_by_number number) p ≡ ok p1
    → prune_numbers bound most (suc rounds) number p
      ≡ prune_numbers bound most rounds (number + 1) p1
unfolding prune_numbers
prune_numbers_goes_on bound most rounds number p ne x = ground arith

HasPruned-none : (most low high : ℕ) (p : Pruning) → HasPruned most low high p p []
unfolding HasPruned
HasPruned-none most low high p =
    (refl, omega arith, λ few. few, tt, λ n out. refl, omega arith, omega arith)

prune_numbers_pruned :
    (bound most rounds number : ℕ) (p p' : Pruning)
    → p.oldest_unpruned_block ≤ number
    → prune_numbers bound most rounds number p ≡ ok p'
    → (removed : List H256) × HasPruned most number (number + rounds) p p' removed
prune_numbers_pruned bound most zero number p p' le h =
    let e : p ≡ p' = ok-injective (sym (prune_numbers-zero bound most number p) ∙ h) in
    ([], subst (λ x. HasPruned most number (number + 0) p x []) e (HasPruned-none most _ _ p))
prune_numbers_pruned bound most (suc rounds) number p p' le h =
    elim (Bool-cases (p.blocks_pruned == most)) [
      | inl full ↦
          let e : p ≡ p' =
            ok-injective
              (sym (prune_numbers_stops bound most (suc rounds) number p (ground arith)) ∙ h) in
          (
            [],
            subst (λ x. HasPruned most number (number + suc rounds) p x []) e
                (HasPruned-none most _ _ p),
          )
      | inr room ↦
          let ne : p.blocks_pruned ≢ most = (λ e. ground arith) in
          elim (Result-cases (prune_number bound most number (p.headers_by_number number) p)) [
            | inr (e, x) ↦
                absurd (ground (arith, prune_numbers_fails bound most rounds number p ne x))
            | inl (p1, x) ↦
                let (xs, first) = prune_number_pruned bound most number p ne le x in
                let (ys, rest) =
                  prune_numbers_pruned bound most rounds (number + 1) p1 p'
                    (HasPruned-oldest most number p p1 xs le first)
                    (sym (prune_numbers_goes_on bound most rounds number p ne x) ∙ h) in
                let e : number + suc rounds ≡ number + 1 + rounds = (omega arith) in
                (
                  xs ++ ys,
                  rw e (
                      HasPruned-trans most number (number + 1) (number + 1 + rounds) p p1 p' xs ys
                        (omega arith) (omega arith) first rest),
                )
          ]
    ]

-- The pruning of a range removes no more headers than it may, all of them listed under numbers of
-- the range, and it never takes the bounds of the range down.
pub prune_header_range_pruned :
    (bound : ℕ) (headers : Headers) (by_number : StorageMap (List H256)) (range : PruningRange)
    (most prune_end : ℕ) {range' : PruningRange} {p : Pruning}
    → prune_header_range bound headers by_number range most prune_end ≡ ok (range', p)
    → (range'.oldest_block_to_keep ≡ max range.oldest_block_to_keep prune_end)
      × (range.oldest_unpruned_block ≤ range'.oldest_unpruned_block)
      × (range'.oldest_unpruned_block ≤ max range.oldest_unpruned_block range'.oldest_block_to_keep)
      × (removed : List H256) × (length removed ≤ most)
      × (p.headers ≡ remove_all removed headers)
      × All
          (IsListed by_number range.oldest_unpruned_block
            (max range.oldest_unpruned_block range'.oldest_block_to_keep))
          removed
unfolding prune_header_range HasPruned
prune_header_range_pruned bound headers by_number range most prune_end {range'} {p} h =
    let start = range.oldest_unpruned_block in
    let end = max range.oldest_block_to_keep prune_end in
    let p0 : Pruning = record {
      headers = headers;
      headers_by_number = by_number;
      oldest_unpruned_block = start;
      blocks_pruned = 0;
    } in
    elim (Result-cases (prune_numbers bound most (end - start) start p0)) [
      | inr (e, x) ↦ absurd (ground arith)
      | inl (p1, x) ↦
          let (removed, pruned) =
            prune_numbers_pruned bound most (end - start) start p0 p1 (omega arith) x in
          let (a0, a1, a2, a3, a4, a5, a6) = pruned in
          let same : p1 ≡ p = (ground arith) in
          let keep : range'.oldest_block_to_keep ≡ end = (ground arith) in
          let oldest : range'.oldest_unpruned_block ≡ p1.oldest_unpruned_block = (ground arith) in
          (
            keep,
            omega arith,
            omega arith,
            removed,
            omega (arith, a2 (omega arith)),
            ap (λ q. q.headers) (sym same) ∙ a0,
            IsListed-wider by_number start (start + (end - start))
                (max start range'.oldest_block_to_keep) removed (omega arith) a3,
          )
    ]
