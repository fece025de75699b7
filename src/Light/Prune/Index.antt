-- ===== src/Light/Prune/Index.antt =====
-- Pruning lists no hash under a number that it was not listed under.
use mathlib.Core.List.{Memᴰ}
use mathlib.Core.Path.{subst}
use snowbridge.Shared.{
  ℕ, zero, suc, ◌+◌, ◌-◌, some, List, [], ◌∷◌, length, drop, ◌==◌, max, ◌≡◌, ◌≢◌, refl, sym, ap,
  ◌∙◌, arith, Bool-cases, Option-cases, inl, inr,
}
use snowbridge.Shared.Bytes.{H256}
use snowbridge.Shared.Outcome.{ok, Result-cases, ok-injective}
use snowbridge.Shared.Storage.{StorageMap, remove}
use snowbridge.Light.{PruningRange}
use snowbridge.Light.Prune.{Pruning, put_back, prune_number, prune_numbers, prune_header_range}
use snowbridge.Light.Prune.Bounds.{
  prune_numbers-zero, prune_numbers_stops, prune_numbers_fails, prune_numbers_goes_on,
}
use snowbridge.Light.Chain.{Headers}

-- Where the first index lists a hash, the second does.
unfoldable pub ListsFrom : StorageMap (List H256) → StorageMap (List H256) → Type 0
ListsFrom by_number by_number' =
    (number : ℕ) (hashes : List H256) (hash : H256)
    → by_number number ≡ some hashes
    → Memᴰ hash hashes
    → (hashes' : List H256) × (by_number' number ≡ some hashes') × Memᴰ hash hashes'

ListsFrom-refl : (by_number : StorageMap (List H256)) → ListsFrom by_number by_number
unfolding ListsFrom
ListsFrom-refl by_number number hashes hash e m = (hashes, e, m)

ListsFrom-trans : (a b d : StorageMap (List H256)) → ListsFrom a b → ListsFrom b d → ListsFrom a d
unfolding ListsFrom
ListsFrom-trans a b d x y number hashes hash e m =
    let (hashes', e', m') = x number hashes hash e m in y number hashes' hash e' m'

drop-Mem : (k : ℕ) (hashes : List H256) (hash : H256) → Memᴰ hash (drop k hashes) → Memᴰ hash hashes
drop-Mem zero hashes hash m = m
drop-Mem (suc k) [] hash m = m
drop-Mem (suc k) (x ∷ hashes) hash m = Memᴰ.tail (drop-Mem k hashes hash m)

drop-ListsFrom :
    (by_number by_number' : StorageMap (List H256)) (number k : ℕ) (hashes : List H256)
    → by_number number ≡ some hashes
    → ((n : ℕ) → n ≢ number → by_number' n ≡ by_number n)
    → ((hashes' : List H256) → by_number' number ≡ some hashes' → hashes' ≡ drop k hashes)
    → ListsFrom by_number' by_number
unfolding ListsFrom
drop-ListsFrom by_number by_number' number k hashes e outside here n list hash at m =
    elim (Bool-cases (n == number)) [
      | inl x ↦
          let n_e : n ≡ number = (ground arith) in
          let list_e = here list (sym (ap by_number' n_e) ∙ at) in
          (hashes, ap by_number n_e ∙ e, drop-Mem k hashes hash (subst (Memᴰ hash) list_e m))
      | inr x ↦ (list, sym (outside n (λ q. ground arith)) ∙ at, m)
    ]

put_back-ListsFrom :
    (bound number : ℕ) (by_number : StorageMap (List H256)) (hashes : List H256) (remaining : ℕ)
    (p : Pruning) {p' : Pruning}
    → by_number number ≡ some hashes
    → p.headers_by_number ≡ remove number by_number
    → put_back bound number hashes remaining p ≡ ok p'
    → ListsFrom p'.headers_by_number by_number
unfolding put_back
put_back-ListsFrom bound number by_number hashes remaining p {p'} e taken h =
    let at : (n : ℕ) → p.headers_by_number n ≡ remove number by_number n =
      (λ n. ap (λ f. f n) taken) in
    drop-ListsFrom by_number p'.headers_by_number number (length hashes - remaining) hashes e
      (λ n ne. ground (arith, at n)) (λ list e'. ground (arith, at number))

prune_number-ListsFrom :
    (bound most number : ℕ) (p : Pruning) {p' : Pruning}
    → prune_number bound most number (p.headers_by_number number) p ≡ ok p'
    → ListsFrom p'.headers_by_number p.headers_by_number
unfolding prune_number
prune_number-ListsFrom bound most number p {p'} h =
    elim (Option-cases (p.headers_by_number number)) [
      | inl e ↦
          let same : p'.headers_by_number ≡ p.headers_by_number = (ground arith) in
          subst (λ x. ListsFrom x p.headers_by_number) (sym same)
            (ListsFrom-refl p.headers_by_number)
      | inr (hashes, e) ↦
          put_back-ListsFrom bound number p.headers_by_number hashes _ _ e refl
            (sym (ap (λ o. prune_number bound most number o p) e) ∙ h)
    ]

prune_numbers-ListsFrom :
    (bound most rounds number : ℕ) (p p' : Pruning)
    → prune_numbers bound most rounds number p ≡ ok p'
    → ListsFrom p'.headers_by_number p.headers_by_number
prune_numbers-ListsFrom bound most zero number p p' h =
    let e : p ≡ p' = ok-injective (sym (prune_numbers-zero bound most number p) ∙ h) in
    subst (λ x. ListsFrom x.headers_by_number p.headers_by_number) e (ListsFrom-refl _)
prune_numbers-ListsFrom bound most (suc rounds) number p p' h =
    elim (Bool-cases (p.blocks_pruned == most)) [
      | inl full ↦
          let e : p ≡ p' =
            ok-injective
              (sym (prune_numbers_stops bound most (suc rounds) number p (ground arith)) ∙ h) in
          subst (λ x. ListsFrom x.headers_by_number p.headers_by_number) e (ListsFrom-refl _)
      | inr room ↦
          let ne : p.blocks_pruned ≢ most = (λ e. ground arith) in
          elim (Result-cases (prune_number bound most number (p.headers_by_number number) p)) [
            | inr (e, x) ↦
                absurd (ground (arith, prune_numbers_fails bound most rounds number p ne x))
            | inl (p1, x) ↦
                ListsFrom-trans _ _ _
                  (prune_numbers-ListsFrom bound most rounds (number + 1) p1 p'
                    (sym (prune_numbers_goes_on bound most rounds number p ne x) ∙ h))
                  (prune_number-ListsFrom bound most number p x)
          ]
    ]

pub prune_header_range-ListsFrom :
    (bound : ℕ) (headers : Headers) (by_number : StorageMap (List H256)) (range : PruningRange)
    (most prune_end : ℕ) {range' : PruningRange} {p : Pruning}
    → prune_header_range bound headers by_number range most prune_end ≡ ok (range', p)
    → ListsFrom p.headers_by_number by_number
unfolding prune_header_range
prune_header_range-ListsFrom bound headers by_number range most prune_end {range'} {p} h =
    let start = range.oldest_unpruned_block in
    let end = max range.oldest_block_to_keep prune_end in
    let p0 : Pruning = record {
      headers = headers;
      headers_by_number = by_number;
      oldest_unpruned_block = start;
      blocks_pruned = 0;
    } in
    elim (Result-cases (prune_numbers bound most (end - start) start p0)) [
      | inr (e, x) ↦ absurd (ground arith)
      | inl (p1, x) ↦
          let same : p1 ≡ p = (ground arith) in
          subst (λ x. ListsFrom x.headers_by_number by_number) same
            (prune_numbers-ListsFrom bound most (end - start) start p0 p1 x)
    ]
