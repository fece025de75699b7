-- ===== src/Merkle/RoundTrip.antt =====
-- `merkle_proof`, `merkle_root` and `verify_proof` together.
use mathlib.Core.List.{foldl, append_assoc, append-nil}
use snowbridge.Shared.{
  ℕ, zero, suc, ◌+◌, ◌^◌, ◌≤◌, ◌<◌, ◌≡◌, refl, sym, ◌∙◌, none, some, List, [], ◌∷◌, ◌++◌, map, true,
  arith, length, get_elem?, length-map, get_elem?-map, get_elem?-lt, get_elem?_total, ◌⊎◌, inr,
}
use mathlib.Core.Option.{some-injective}
use native.Mathlib.Nat.{zero-add}
use native.Mathlib.Decide.{dec_lt}
use snowbridge.Shared.Bytes.{Bytes, H256}
use snowbridge.Merkle.{
  proof_collector, MerkleProof, Leaf, Scan, no_visitor, combine, root_of, merkle_root, scan_leaves,
  finish_proof, merkle_proof, verify_proof,
}
use snowbridge.Merkle.Climb.{top, climb, foldl-climb, length-climb, merkelize-top, merkelize-climb}

module _ (hash : Bytes → H256) where
  -- The scan hashes every leaf and counts them.
  scan-hashes :
      (i idx : ℕ) (leaves : List Bytes) (c : Scan)
      → (scan_leaves hash i idx leaves c).hashes ≡ c.hashes ++ map hash leaves
  unfolding scan_leaves
  scan-hashes i idx [] c = rw append-nil
  scan-hashes i idx (l ∷ leaves) c =
      scan-hashes i (idx + 1) leaves _ ∙ append_assoc c.hashes (hash l ∷ []) (map hash leaves)

  scan-number_of_leaves :
      (i idx : ℕ) (leaves : List Bytes) (c : Scan)
      → c.number_of_leaves ≡ idx
      → (scan_leaves hash i idx leaves c).number_of_leaves ≡ idx + length leaves
  unfolding scan_leaves
  scan-number_of_leaves i idx [] c e = omega arith
  scan-number_of_leaves i idx (l ∷ leaves) c e =
      omega (arith, scan-number_of_leaves i (idx + 1) leaves _ refl)

  -- Outside the range that is left, the scan finds no other leaf.
  scan-found_outside :
      (i idx : ℕ) (leaves : List Bytes) (c : Scan)
      → (i < idx) ⊎ (idx + length leaves ≤ i)
      → (scan_leaves hash i idx leaves c).found ≡ c.found
  unfolding scan_leaves
  scan-found_outside i idx [] c e = refl
  scan-found_outside i idx (l ∷ leaves) c e =
      scan-found_outside i (idx + 1) leaves _ (omega arith) ∙ ground arith

  scan-found :
      (i idx p : ℕ) (leaves : List Bytes) (c : Scan) {l : Bytes}
      → i ≡ idx + p
      → get_elem? leaves p ≡ some l
      → (scan_leaves hash i idx leaves c).found ≡ some l
  unfolding scan_leaves
  scan-found i idx p [] c e h = cc
  scan-found i idx zero (l ∷ leaves) c e h =
      scan-found_outside i (idx + 1) leaves _ (omega arith) ∙ ground arith
  scan-found i idx (suc p) (l ∷ leaves) c e h = scan-found i (idx + 1) p leaves _ (omega arith) h

  merkle_root-top :
      (leaves : List Bytes) → merkle_root hash leaves ≡ top hash (length leaves) (map hash leaves)
  unfolding merkle_root
  merkle_root-top leaves =
      rw ((merkelize-top hash no_visitor (map hash leaves) tt).1, root_of)
        (rw (length-map leaves hash))

  verify_proof-root :
      (proof : List H256) (n i : ℕ) (l : Bytes)
      → i < n
      → verify_proof hash (foldl (combine hash) (hash l) proof) proof n i (Leaf.value l) ≡ true
  unfolding verify_proof
  verify_proof-root proof n i l h = ground arith

  abbrev empty_scan : Scan
  empty_scan = record { found = none; hashes = []; number_of_leaves = 0 }

  -- The proof of a leaf, with the tree described row by row.
  merkle_proof_lem :
      (leaves : List Bytes) (i : ℕ) {l : Bytes}
      → get_elem? leaves i ≡ some l
      → merkle_proof hash leaves i
        ≡ some (record {
          root = merkle_root hash leaves;
          proof = climb hash (length leaves) (map hash leaves) i;
          number_of_leaves = length leaves;
          leaf_index = i;
          leaf = l;
        })
  unfolding merkle_proof
  merkle_proof_lem leaves i h =
      let collected =
        merkelize-climb hash (map hash leaves) (record { proof = []; position = i })
          (rw (length-map leaves hash) (get_elem?-lt leaves i h)) in
      rw
        (
          scan-hashes i 0 leaves empty_scan,
          collected.1,
          finish_proof,
          scan-found i 0 i leaves empty_scan (omega arith) h,
          scan-number_of_leaves i 0 leaves empty_scan refl,
          collected.2,
          merkle_root-top leaves,
          length-map leaves hash,
        )
        (rw zero-add)

  verify_proof-climb :
      (leaves : List Bytes) (i : ℕ) {l : Bytes}
      → get_elem? leaves i ≡ some l
      → verify_proof hash
          (merkle_root hash leaves)
          (climb hash (length leaves) (map hash leaves) i)
          (length leaves)
          i
          (Leaf.value l)
        ≡ true
  verify_proof-climb leaves i {l} h =
      let on_top =
        foldl-climb hash (length leaves) (map hash leaves) i (hash l)
          (omega (arith, length-map leaves hash)) (get_elem?-map hash leaves i h) in
      rw (merkle_root-top leaves, ← on_top)
        (verify_proof-root (climb hash (length leaves) (map hash leaves) i) (length leaves) i l
          (get_elem?-lt leaves i h))

  -- For each leaf of a list, the generated proof holds the root, the number and the content of
  -- the leaf, and the verifier accepts it.
  pub verify_proof-merkle_proof :
      (leaves : List Bytes) (i : ℕ) {l : Bytes}
      → get_elem? leaves i ≡ some l
      → (p : MerkleProof) × (merkle_proof hash leaves i ≡ some p)
        × (p.root ≡ merkle_root hash leaves)
        × (p.number_of_leaves ≡ length leaves)
        × (p.leaf_index ≡ i)
        × (p.leaf ≡ l)
        × (verify_proof hash p.root p.proof p.number_of_leaves p.leaf_index (Leaf.value p.leaf)
            ≡ true)
  verify_proof-merkle_proof leaves i {l} h =
      (_, merkle_proof_lem leaves i h, refl, refl, refl, refl, verify_proof-climb leaves i h)

  -- An index that is out of range panics.
  pub merkle_proof_out_of_range :
      (leaves : List Bytes) (i : ℕ) → length leaves ≤ i → merkle_proof hash leaves i ≡ none
  unfolding merkle_proof
  merkle_proof_out_of_range leaves i h =
      let root =
        merkelize-top hash proof_collector (map hash leaves)
          (record { proof = []; position = i }) in
      rw (
        scan-hashes i 0 leaves empty_scan,
        root.1,
        finish_proof,
        scan-found_outside i 0 leaves empty_scan (inr (omega arith)),
      )

  -- A leaf of at most `2 ^ d` leaves has a proof of at most `d` hashes.
  pub length-merkle_proof :
      (leaves : List Bytes) (i d : ℕ) (p : MerkleProof)
      → length leaves ≤ 2 ^ d
      → merkle_proof hash leaves i ≡ some p
      → length p.proof ≤ d
  length-merkle_proof leaves i d p h e = elim (dec_lt i (length leaves)) [
    | yes within ↦
        let found = get_elem?_total leaves i within in
        let same = some-injective _ _ (sym e ∙ merkle_proof_lem leaves i found.1) in
        rw same (
          length-climb hash (length leaves) d (map hash leaves) i
            (omega (arith, length-map leaves hash)))
    | no beyond ↦ cc (merkle_proof_out_of_range leaves i (omega arith))
  ]
