-- ===== src/Merkle/Row.antt =====
-- One row of the tree: `merkelize_row` against a plain description of a row and of the sibling
-- that a proof takes from it.
use mathlib.Core.List.{foldl, append_assoc, append-nil}
use snowbridge.Shared.{
  ℕ, zero, suc, ◌+◌, ◌/◌, ◌≤◌, ◌<◌, ◌≡◌, refl, ◌∙◌, ap, some, List, [], ◌∷◌, ◌++◌, arith, length,
  append_one-ne-nil, get_elem?, ◌≢◌,
}
use snowbridge.Shared.Bytes.{Bytes, H256}
use snowbridge.Shared.Outcome.{err}
use snowbridge.Merkle.{
  Visitor, ProofCollection, proof_collector, visit_proof, combine, row_loop, merkelize_row,
}

module _ (hash : Bytes → H256) where
  -- The row above a row: pairs are combined and a last odd node is promoted.
  abbrev pub up : List H256 → List H256
  up (a ∷ b ∷ row) = combine hash a b ∷ up row
  up (a ∷ []) = a ∷ []
  up [] = []

  pub length-up :
      (row : List H256)
      → (length row ≤ length (up row) + length (up row))
        × (length (up row) + length (up row) ≤ length row + 1)
  length-up [] = (omega arith, omega arith)
  length-up (a ∷ []) = (omega arith, omega arith)
  length-up (a ∷ b ∷ row) = (omega (arith, length-up row), omega (arith, length-up row))

-- What a proof for position `p` takes from a row: the other node of the pair, if there is one.
abbrev pub sibling : List H256 → ℕ → List H256
sibling [] p = []
sibling (a ∷ []) p = []
sibling (a ∷ b ∷ row) zero = b ∷ []
sibling (a ∷ b ∷ row) (suc zero) = a ∷ []
sibling (a ∷ b ∷ row) (suc (suc p)) = sibling row p

module _ (hash : Bytes → H256) where
  -- Combining does not depend on the order of the two nodes.
  pub combine_comm : (a b : H256) → combine hash a b ≡ combine hash b a
  unfolding combine
  combine_comm a b = ground arith

  -- The node above position `p` is the node at `p` combined with its sibling.
  pub up-sibling :
      (row : List H256) (p : ℕ) (x : H256)
      → get_elem? row p ≡ some x
      → get_elem? (up hash row) (p / 2) ≡ some (foldl (combine hash) x (sibling row p))
  up-sibling [] p x h = cc
  up-sibling (a ∷ []) zero x h = h
  up-sibling (a ∷ []) (suc p) x h = cc
  up-sibling (a ∷ b ∷ row) zero x h = cc
  up-sibling (a ∷ b ∷ row) (suc zero) x h = rw (combine_comm a b) (cc)
  up-sibling (a ∷ b ∷ row) (suc (suc p)) x h =
      let e : suc (suc p) / 2 ≡ suc (p / 2) = omega arith in rw e (up-sibling row p x h)

  module _ {V : Type 0} (v : Visitor V) where
    -- A row of two or more nodes gives the row above it.
    pub row_loop-up :
        (row : List H256) (index : ℕ) (next : List H256) (s : V)
        → next ≢ []
        → (row_loop hash v row index next s).0 ≡ err (next ++ up hash row)
    unfolding row_loop
    row_loop-up [] index next s h = rw append-nil
    row_loop-up (a ∷ []) index [] s h = absurd (h refl)
    row_loop-up (a ∷ []) index (n ∷ ns) s h = refl
    row_loop-up (a ∷ b ∷ row) index next s h =
        row_loop-up row (index + 2) (next ++ combine hash a b ∷ []) _
          (λ e. append_one-ne-nil next _ e)
        ∙ ap err (append_assoc next (combine hash a b ∷ []) (up hash row))

  -- Once the position is passed, the collector keeps its state.
  pub row_loop_passed :
      (row : List H256) (index : ℕ) (next : List H256) (c : ProofCollection)
      → c.position < index
      → (row_loop hash proof_collector row index next c).1 ≡ c
  unfolding row_loop
  row_loop_passed [] index next c h = ground arith
  row_loop_passed (a ∷ []) index [] c h = ground arith
  row_loop_passed (a ∷ []) index (n ∷ ns) c h = ground arith
  row_loop_passed (a ∷ b ∷ row) index next c h =
      let e : visit_proof index (some a) (some b) c ≡ c = ground arith in
      rw e (row_loop_passed row (index + 2) (next ++ combine hash a b ∷ []) c (omega arith))

  -- A row adds the sibling of the position to the proof.
  pub row_loop-sibling :
      (row : List H256) (p index : ℕ) (next : List H256) (c : ProofCollection)
      → c.position ≡ index + p
      → p < length row
      → (row_loop hash proof_collector row index next c).1
        ≡ record c { proof = c.proof ++ sibling row p }
  unfolding row_loop
  row_loop-sibling [] p index next c h lt = elim lt [ ]
  row_loop-sibling (a ∷ []) p index [] c h lt =
      let e : p ≡ 0 = omega arith in rw append-nil (ground arith)
  row_loop-sibling (a ∷ []) p index (n ∷ ns) c h lt =
      let e : p ≡ 0 = omega arith in rw append-nil (ground arith)
  row_loop-sibling (a ∷ b ∷ row) zero index next c h lt =
      let e : visit_proof index (some a) (some b) c ≡ record c { proof = c.proof ++ b ∷ [] } =
        ground arith in
      rw e (row_loop_passed row (index + 2) _ _ (omega arith))
  row_loop-sibling (a ∷ b ∷ row) (suc zero) index next c h lt =
      let e : visit_proof index (some a) (some b) c ≡ record c { proof = c.proof ++ a ∷ [] } =
        ground arith in
      rw e (row_loop_passed row (index + 2) _ _ (omega arith))
  row_loop-sibling (a ∷ b ∷ row) (suc (suc p)) index next c h lt =
      let e : visit_proof index (some a) (some b) c ≡ c = ground arith in
      rw e (row_loop-sibling row p (index + 2) _ c (omega arith) (omega arith))

  module _ {V : Type 0} (v : Visitor V) where
    -- A row of at least two nodes is replaced by the row above.
    pub merkelize_row-up :
        (a b : H256) (row : List H256) (s : V)
        → (merkelize_row hash v (a ∷ b ∷ row) s).0 ≡ err (up hash (a ∷ b ∷ row))
    unfolding merkelize_row row_loop
    merkelize_row-up a b row s =
        row_loop-up v row 2 (combine hash a b ∷ []) (v.visit 0 (some a) (some b) s) (λ e. cc)

  pub merkelize_row-sibling :
      (row : List H256) (c : ProofCollection)
      → c.position < length row
      → (merkelize_row hash proof_collector row c).1
        ≡ record c { proof = c.proof ++ sibling row c.position }
  unfolding merkelize_row
  merkelize_row-sibling row c h = row_loop-sibling row c.position 0 [] c (omega arith) h
