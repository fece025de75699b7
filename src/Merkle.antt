-- ===== src/Merkle.antt =====
-- The binary Merkle tree of parachain/pallets/basic-channel/merkle-proof/src/lib.rs. The hash
-- function `H` is the section's parameter; a hash is the number that its 32 bytes spell.
pub mod Row
pub mod Climb
pub mod RoundTrip
pub mod Binding
use snowbridge.Shared.{
  ℕ, suc, zero, ◌+◌, ◌/◌, Bool, false, Option, none, some, List, [], ◌∷◌, ◌++◌, map, ltb, leb, ◌==◌,
  if◌then◌else◌, length,
}
use mathlib.Core.List.{foldl}
use snowbridge.Shared.Bytes.{Bytes, H256, h256_bytes}
use snowbridge.Shared.Outcome.{Result, ok, err}

-- What walks along with the construction of a root.
pub record Visitor (V : Type 0) : Type 0 where
  pub move_up : V → V
  pub visit : ℕ → Option H256 → Option H256 → V → V

-- The visitor `()`.
abbrev pub no_visitor : Visitor (Unit {0})
no_visitor = record { move_up = λ s. s; visit = λ index left right s. s }

pub record ProofCollection : Type 0 where
  pub proof : List H256
  pub position : ℕ

-- `if let Some(h) = node { self.proof.push(h) }`
abbrev pub push_node : Option H256 → ProofCollection → ProofCollection
push_node none c = c
push_node (some h) c = record c { proof = c.proof ++ h ∷ [] }

abbrev pub visit_proof : ℕ → Option H256 → Option H256 → ProofCollection → ProofCollection
visit_proof index left right c =
    let c' = if c.position == index then push_node right c else c in
    if c'.position == index + 1 then push_node left c' else c'

abbrev pub proof_collector : Visitor ProofCollection
proof_collector = record {
  move_up = λ c. record c { position = c.position / 2 };
  visit = visit_proof;
}

pub record MerkleProof : Type 0 where
  pub root : H256
  pub proof : List H256
  pub number_of_leaves : ℕ
  pub leaf_index : ℕ
  pub leaf : Bytes

pub data Leaf : Type 0 where
  value : Bytes → Leaf
  digest : H256 → Leaf

-- What the first loop of `merkle_proof` gathers.
pub record Scan : Type 0 where
  pub found : Option Bytes
  pub hashes : List H256
  pub number_of_leaves : ℕ

module _ (hash : Bytes → H256) where
  -- Two nodes, the smaller first, copied into `combined` and hashed.
  unfoldable pub combine : H256 → H256 → H256
  combine a b =
      if ltb a b then hash (h256_bytes a ++ h256_bytes b) else hash (h256_bytes b ++ h256_bytes a)

  module _ {V : Type 0} (v : Visitor V) where
    -- The loop of `merkelize_row`, over what `iter` has left.
    pub row_loop : List H256 → ℕ → List H256 → V → Result (List H256) H256 × V
    row_loop (a ∷ b ∷ iter) index next s =
        row_loop iter (index + 2) (next ++ combine a b ∷ []) (v.visit index (some a) (some b) s)
    row_loop (a ∷ []) index [] s = (ok a, v.visit index (some a) none s)
    row_loop (a ∷ []) index (n ∷ ns) s =
        row_loop [] (index + 2) ((n ∷ ns) ++ a ∷ []) (v.visit index (some a) none s)
    row_loop [] index next s = (err next, v.visit index none none s)

    pub merkelize_row : List H256 → V → Result (List H256) H256 × V
    unfolding row_loop
    merkelize_row iter s = row_loop iter 0 [] s

    -- The loop of `merkelize` over the rows above the leaves; `none` means that the fuel ran out.
    pub rows_loop : ℕ → List H256 → V → Option (H256 × V)
    rows_loop zero next s = none
    rows_loop (suc fuel) next s =
        let (row, s') = merkelize_row next (v.move_up s) in
        elim row [ ok root ↦ some (root, s') | err above ↦ rows_loop fuel above s' ]

    -- The rows above the first, by what the first row gave.
    pub above_leaves : ℕ → Result (List H256) H256 → V → Option (H256 × V)
    unfolding rows_loop
    above_leaves fuel (ok root) s = some (root, s)
    above_leaves fuel (err []) s = some (0, s)
    above_leaves fuel (err (n ∷ ns)) s = rows_loop fuel (n ∷ ns) s

    -- Each row is shorter than the one below, so the number of leaves is fuel enough.
    unfoldable pub merkelize : List H256 → V → Option (H256 × V)
    unfolding merkelize_row above_leaves
    merkelize leaves s =
        let (row, s') = merkelize_row leaves s in above_leaves (length leaves) row s'

  abbrev root_of : {V : Type 0} → Option (H256 × V) → H256
  root_of none = 0
  root_of (some (root, _)) = root

  unfoldable pub merkle_root : List Bytes → H256
  merkle_root leaves = root_of (merkelize no_visitor (map hash leaves) tt)

  pub scan_leaves : ℕ → ℕ → List Bytes → Scan → Scan
  scan_leaves leaf_index idx [] c = c
  scan_leaves leaf_index idx (l ∷ leaves) c = scan_leaves leaf_index (idx + 1) leaves (record {
    found = if idx == leaf_index then some l else c.found;
    hashes = c.hashes ++ hash l ∷ [];
    number_of_leaves = idx + 1;
  })

  -- `leaf.expect(…)`: `none` is the panic.
  finish_proof : Scan → ℕ → Option (H256 × ProofCollection) → Option MerkleProof
  finish_proof c leaf_index none = none
  finish_proof c leaf_index (some (root, collected)) = elim c.found [
    | none ↦ none
    | some leaf ↦ some (record {
      root = root;
      proof = collected.proof;
      number_of_leaves = c.number_of_leaves;
      leaf_index = leaf_index;
      leaf = leaf;
    })
  ]

  unfoldable pub merkle_proof : List Bytes → ℕ → Option MerkleProof
  unfolding finish_proof
  merkle_proof leaves leaf_index =
      let scan =
        scan_leaves leaf_index 0 leaves
          (record { found = none; hashes = []; number_of_leaves = 0 }) in
      finish_proof scan leaf_index
        (merkelize proof_collector scan.hashes (record { proof = []; position = leaf_index }))

  leaf_hash : Leaf → H256
  leaf_hash (Leaf.value content) = hash content
  leaf_hash (Leaf.digest h) = h

  unfoldable pub verify_proof : H256 → List H256 → ℕ → ℕ → Leaf → Bool
  unfolding leaf_hash
  verify_proof root proof number_of_leaves leaf_index leaf =
      if leb number_of_leaves leaf_index
      then false
      else root == foldl combine (leaf_hash leaf) proof
