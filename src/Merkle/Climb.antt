-- ===== src/Merkle/Climb.antt =====
-- The whole tree: the root and the proof of a leaf, described row by row, and the loops of the
-- code against that description.
use mathlib.Core.List.{foldl, foldl-append, append_assoc, append-nil}
use native.Mathlib.Nat.{pow-suc}
use snowbridge.Shared.{
  ℕ, zero, suc, ◌^◌, ◌/◌, ◌≤◌, ◌<◌, ◌≡◌, refl, ◌∙◌, none, some, List, [], ◌∷◌, ◌++◌, arith, length,
  get_elem?, length-append,
}
use snowbridge.Shared.Bytes.{Bytes, H256}
use snowbridge.Merkle.{
  Visitor, ProofCollection, proof_collector, visit_proof, rows_loop, merkelize, merkelize_row,
  row_loop, combine,
}
use snowbridge.Merkle.Row.{
  up, length-up, sibling, up-sibling, merkelize_row-up, merkelize_row-sibling,
}

pub length-sibling : (row : List H256) (p : ℕ) → length (sibling row p) ≤ 1
length-sibling [] p = omega arith
length-sibling (a ∷ []) p = omega arith
length-sibling (a ∷ b ∷ row) zero = omega arith
length-sibling (a ∷ b ∷ row) (suc zero) = omega arith
length-sibling (a ∷ b ∷ row) (suc (suc p)) = length-sibling row p

module _ (hash : Bytes → H256) where
  -- The node on top of a row.
  pub top : ℕ → List H256 → H256
  top k [] = 0
  top k (a ∷ []) = a
  top zero (a ∷ b ∷ row) = a
  top (suc k) (a ∷ b ∷ row) = top k (up hash (a ∷ b ∷ row))

  -- The siblings from a position of a row up to the top.
  pub climb : ℕ → List H256 → ℕ → List H256
  climb k [] p = []
  climb k (a ∷ []) p = []
  climb zero (a ∷ b ∷ row) p = []
  climb (suc k) (a ∷ b ∷ row) p = sibling (a ∷ b ∷ row) p ++ climb k (up hash (a ∷ b ∷ row)) (p / 2)

  -- Combining a node with the siblings on its way gives the top.
  pub foldl-climb :
      (k : ℕ) (row : List H256) (p : ℕ) (x : H256)
      → length row ≤ suc k
      → get_elem? row p ≡ some x
      → foldl (combine hash) x (climb k row p) ≡ top k row
  unfolding top climb
  foldl-climb k [] p x l h = cc
  foldl-climb k (a ∷ []) zero x l h = cc
  foldl-climb k (a ∷ []) (suc p) x l h = cc
  foldl-climb zero (a ∷ b ∷ row) p x l h = absurd (omega arith)
  foldl-climb (suc k) (a ∷ b ∷ row) p x l h =
      let above = up hash (a ∷ b ∷ row) in
      rw (foldl-append (combine hash) x (sibling (a ∷ b ∷ row) p) (climb k above (p / 2))) (
        foldl-climb k above (p / 2) _ (omega (arith, length-up hash (a ∷ b ∷ row)))
          (up-sibling hash (a ∷ b ∷ row) p x h))

  -- A row of at most `2 ^ d` nodes lies at most `d` siblings below the top.
  pub length-climb :
      (k d : ℕ) (row : List H256) (p : ℕ) → length row ≤ 2 ^ d → length (climb k row p) ≤ d
  unfolding climb
  length-climb k d [] p h = omega arith
  length-climb k d (a ∷ []) p h = omega arith
  length-climb zero d (a ∷ b ∷ row) p h = omega arith
  length-climb (suc k) zero (a ∷ b ∷ row) p h = absurd (omega arith)
  length-climb (suc k) (suc d) (a ∷ b ∷ row) p h =
      let above = up hash (a ∷ b ∷ row) in
      let e = pow-suc 2 d in
      omega (
        arith,
        length-append (sibling (a ∷ b ∷ row) p) (climb k above (p / 2)),
        length-sibling (a ∷ b ∷ row) p,
        length-climb k d above (p / 2) (omega (arith, length-up hash (a ∷ b ∷ row))),
      )

  module _ {V : Type 0} (v : Visitor V) where
    rows_loop-one :
        (k : ℕ) (a : H256) (s : V)
        → rows_loop hash v (suc k) (a ∷ []) s ≡ some (a, v.visit 0 (some a) none (v.move_up s))
    unfolding rows_loop merkelize_row row_loop
    rows_loop-one k a s = refl

    rows_loop-step :
        (k : ℕ) (a b : H256) (row : List H256) (s : V)
        → rows_loop hash v (suc k) (a ∷ b ∷ row) s
          ≡ rows_loop hash v k
              (up hash (a ∷ b ∷ row))
              (merkelize_row hash v (a ∷ b ∷ row) (v.move_up s)).1
    unfolding rows_loop
    rows_loop-step k a b row s = rw (merkelize_row-up hash v a b row (v.move_up s), rows_loop)

    -- With as much fuel as nodes, the loop over the rows ends with the top, whoever visits.
    pub rows_loop-top :
        (k : ℕ) (row : List H256) (s : V)
        → 0 < length row
        → length row ≤ suc k
        → (s' : V) × (rows_loop hash v (suc k) row s ≡ some (top k row, s'))
    unfolding top
    rows_loop-top k [] s pos h = absurd (omega arith)
    rows_loop-top k (a ∷ []) s pos h = (v.visit 0 (some a) none (v.move_up s), rows_loop-one k a s)
    rows_loop-top zero (a ∷ b ∷ row) s pos h = absurd (omega arith)
    rows_loop-top (suc k) (a ∷ b ∷ row) s pos h =
        let ih =
          rows_loop-top k (up hash (a ∷ b ∷ row))
            (merkelize_row hash v (a ∷ b ∷ row) (v.move_up s)).1 (omega arith)
            (omega (arith, length-up hash (a ∷ b ∷ row))) in
        (ih.0, rows_loop-step (suc k) a b row s ∙ ih.1)

  -- The collector gathers the siblings on the way of its position.
  pub rows_loop-climb :
      (k : ℕ) (row : List H256) (c : ProofCollection)
      → c.position / 2 < length row
      → length row ≤ suc k
      → (c' : ProofCollection) × (rows_loop hash proof_collector (suc k) row c
          ≡ some (top k row, c'))
        × (c'.proof ≡ c.proof ++ climb k row (c.position / 2))
  unfolding top climb
  rows_loop-climb k [] c lt h = elim lt [ ]
  rows_loop-climb k (a ∷ []) c lt h =
      (_, rows_loop-one proof_collector k a c, rw append-nil (ground arith))
  rows_loop-climb zero (a ∷ b ∷ row) c lt h = absurd (omega arith)
  rows_loop-climb (suc k) (a ∷ b ∷ row) c lt h =
      let half = proof_collector.move_up c in
      let c' = record half { proof = c.proof ++ sibling (a ∷ b ∷ row) half.position } in
      let ih =
        rows_loop-climb k (up hash (a ∷ b ∷ row)) c' (omega (arith, length-up hash (a ∷ b ∷ row)))
          (omega (arith, length-up hash (a ∷ b ∷ row))) in
      (
        ih.0,
        rows_loop-step proof_collector (suc k) a b row c
            ∙ rw (merkelize_row-sibling hash (a ∷ b ∷ row) half lt) ih.1,
        ih.2 ∙ append_assoc c.proof (sibling (a ∷ b ∷ row) half.position) _,
      )

  module _ {V : Type 0} (v : Visitor V) where
    merkelize-many :
        (a b : H256) (row : List H256) (s : V)
        → merkelize hash v (a ∷ b ∷ row) s
          ≡ rows_loop hash v
              (length (a ∷ b ∷ row))
              (up hash (a ∷ b ∷ row))
              (merkelize_row hash v (a ∷ b ∷ row) s).1
    unfolding merkelize
    merkelize-many a b row s = rw (merkelize_row-up hash v a b row s, merkelize)

    -- `merkelize` always returns, whatever walks along with it, and its result is the top of the
    -- tree in which two nodes are hashed with the smaller one first (0 for no leaf).
    pub merkelize-top :
        (leaves : List H256) (s : V)
        → (s' : V) × (merkelize hash v leaves s ≡ some (top (length leaves) leaves, s'))
    unfolding top
    merkelize-top [] s = (v.visit 0 none none s, unfold merkelize row_loop in refl)
    merkelize-top (a ∷ []) s = (v.visit 0 (some a) none s, unfold merkelize row_loop in refl)
    merkelize-top (a ∷ b ∷ row) s =
        let up_le = length-up hash (a ∷ b ∷ row) in
        let rows =
          rows_loop-top v (suc (length row)) (up hash (a ∷ b ∷ row))
            (merkelize_row hash v (a ∷ b ∷ row) s).1 (omega arith) (omega arith) in
        (rows.0, merkelize-many a b row s ∙ rows.1)

  -- The collector ends with the siblings of its leaf.
  pub merkelize-climb :
      (leaves : List H256) (c : ProofCollection)
      → c.position < length leaves
      → (c' : ProofCollection) × (merkelize hash proof_collector leaves c
          ≡ some (top (length leaves) leaves, c'))
        × (c'.proof ≡ c.proof ++ climb (length leaves) leaves c.position)
  unfolding top climb
  merkelize-climb [] c lt = elim lt [ ]
  merkelize-climb (a ∷ []) c lt = (
    visit_proof 0 (some a) none c,
    unfold merkelize row_loop in refl,
    rw append-nil (ground arith),
  )
  merkelize-climb (a ∷ b ∷ row) c lt =
      let up_le = length-up hash (a ∷ b ∷ row) in
      let c' = record c { proof = c.proof ++ sibling (a ∷ b ∷ row) c.position } in
      let rows =
        rows_loop-climb (suc (length row)) (up hash (a ∷ b ∷ row)) c' (omega arith) (omega arith) in
      (
        rows.0,
        merkelize-many proof_collector a b row c
            ∙ rw (merkelize_row-sibling hash (a ∷ b ∷ row) c lt) rows.1,
        rows.2 ∙ append_assoc c.proof (sibling (a ∷ b ∷ row) c.position) _,
      )
