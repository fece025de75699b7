-- ===== src/Ethereum/ReceiptProof.antt =====
-- `apply_merkle_proof` and `check_receipt_proof`, which parachain/primitives/ethereum/src/header.rs
-- and parachain/primitives/beacon/src/lib.rs state twice in the same words, and what a proof that
-- passes is: a path of trie nodes from the root down to the item, each named by its hash.
use mathlib.Core.Path.{subst}
use mathlib.Core.List.{foldl, reverse, reverse-cons, foldl-append}
use snowbridge.Shared.{
  Option, none, some, true, List, append_one-ne-nil, [], ◌∷◌, ◌++◌, ◌≡◌, ◌≢◌, ◌↔◌, refl, sym, ap,
  ◌∙◌, ◌==◌, if◌then◌else◌, arith,
}
use snowbridge.Shared.Bytes.{Bytes, H256}
use snowbridge.Shared.Outcome.{ok, err}
use snowbridge.Ethereum.Rlp.{RlpCrate, Decoded}
use snowbridge.Ethereum.Receipt.{Receipt, decode_receipt}
use snowbridge.Ethereum.Mpt.{Node, ShortNode, contains_hash, decode_short, decode_node}

reverse-ne-nil : (x : Bytes) (xs : List Bytes) → reverse (x ∷ xs) ≢ []
reverse-ne-nil x xs e = append_one-ne-nil (reverse xs) x (sym (reverse-cons x xs) ∙ e)

module _ (crate : RlpCrate) (keccak : Bytes → H256) where
  open crate use {new}

  link_node : Decoded Node → Bytes → H256 → Option H256
  link_node (err e) bytes expected = none
  link_node (ok node) bytes expected =
      if contains_hash node expected then some (keccak bytes) else none

  -- The body of the fold.
  next_hash : Option H256 → Bytes → Option H256
  next_hash none bytes = none
  next_hash (some expected) bytes = link_node (decode_node crate bytes) bytes expected

  -- `final_hash.map(|hash| (hash, item_to_prove.value))`
  with_item : Option H256 → Bytes → Option (H256 × Bytes)
  with_item none item = none
  with_item (some hash) item = some (hash, item)

  prove_item : Decoded ShortNode → Bytes → List Bytes → Option (H256 × Bytes)
  prove_item (err e) first_bytes iter = none
  prove_item (ok item) first_bytes iter =
      with_item (foldl next_hash (some (keccak first_bytes)) iter) item.value

  -- Over the proof in reverse, from the item up to the root.
  apply_reversed : List Bytes → Option (H256 × Bytes)
  apply_reversed [] = none
  apply_reversed (first_bytes ∷ iter) =
      prove_item (decode_short crate (new first_bytes)) first_bytes iter

  unfoldable pub apply_merkle_proof : List Bytes → Option (H256 × Bytes)
  unfolding apply_reversed prove_item with_item next_hash link_node
  apply_merkle_proof proof = apply_reversed (reverse proof)

  -- What the root that was computed says of the item.
  at_root : H256 → Option (H256 × Bytes) → Option (Decoded Receipt)
  at_root receipts_root none = none
  at_root receipts_root (some (root, item)) =
      if root == receipts_root then some (decode_receipt crate (new item)) else none

  unfoldable pub check_receipt_proof : H256 → List Bytes → Option (Decoded Receipt)
  unfolding at_root
  check_receipt_proof receipts_root proof = at_root receipts_root (apply_merkle_proof proof)

  -- A path of nodes from a hash down to the node that holds an item.
  pub data Holds : H256 → List Bytes → Bytes → Type 0 where
    here :
        {hash : H256} {bytes : Bytes} {item : Bytes} (node : ShortNode)
        → keccak bytes ≡ hash
        → decode_short crate (new bytes) ≡ ok node
        → node.value ≡ item
        → Holds hash (bytes ∷ []) item
    below :
        {hash : H256} {bytes next : Bytes} {rest : List Bytes} {item : Bytes} (node : Node)
        (child : H256)
        → keccak bytes ≡ hash
        → decode_node crate bytes ≡ ok node
        → contains_hash node child ≡ true
        → Holds child (next ∷ rest) item
        → Holds hash (bytes ∷ next ∷ rest) item

  link_below : Bytes → Option (H256 × Bytes) → Option (H256 × Bytes)
  link_below bytes none = none
  link_below bytes (some (hash, item)) = with_item (next_hash (some hash) bytes) item

  with_item-next_hash :
      (o : Option H256) (bytes item : Bytes)
      → with_item (next_hash o bytes) item ≡ link_below bytes (with_item o item)
  unfolding with_item next_hash link_below
  with_item-next_hash none bytes item = refl
  with_item-next_hash (some h) bytes item = refl

  prove_item-append :
      (d : Decoded ShortNode) (first : Bytes) (iter : List Bytes) (bytes : Bytes)
      → prove_item d first (iter ++ bytes ∷ []) ≡ link_below bytes (prove_item d first iter)
  unfolding prove_item
  prove_item-append (err e) first iter bytes = unfold link_below in refl
  prove_item-append (ok node) first iter bytes =
      ap (λ o. with_item o node.value)
        (foldl-append next_hash (some (keccak first)) iter (bytes ∷ []))
      ∙ with_item-next_hash (foldl next_hash (some (keccak first)) iter) bytes node.value

  -- One more node on top of a proof, which comes last in the reversed proof.
  apply_reversed-append :
      (reversed : List Bytes) (bytes : Bytes)
      → reversed ≢ []
      → apply_reversed (reversed ++ bytes ∷ []) ≡ link_below bytes (apply_reversed reversed)
  unfolding apply_reversed
  apply_reversed-append [] bytes h = absurd (h refl)
  apply_reversed-append (first ∷ iter) bytes h =
      prove_item-append (decode_short crate (new first)) first iter bytes

  apply_merkle_proof-below :
      (bytes next : Bytes) (rest : List Bytes)
      → apply_merkle_proof (bytes ∷ next ∷ rest)
        ≡ link_below bytes (apply_merkle_proof (next ∷ rest))
  unfolding apply_merkle_proof
  apply_merkle_proof-below bytes next rest =
      rw (reverse-cons bytes (next ∷ rest))
        (apply_reversed-append (reverse (next ∷ rest)) bytes (λ e. reverse-ne-nil next rest e))

  -- A proof of one node.
  apply_merkle_proof-here :
      (bytes : Bytes)
      → apply_merkle_proof (bytes ∷ []) ≡ prove_item (decode_short crate (new bytes)) bytes []
  unfolding apply_merkle_proof
  apply_merkle_proof-here bytes = refl

  apply_merkle_proof-nil : apply_merkle_proof [] ≡ none
  unfolding apply_merkle_proof
  apply_merkle_proof-nil = refl

  prove_item_inv :
      (d : Decoded ShortNode) (bytes : Bytes) {hash : H256} {item : Bytes}
      → prove_item d bytes [] ≡ some (hash, item)
      → (node : ShortNode) × (keccak bytes ≡ hash) × (d ≡ ok node) × (node.value ≡ item)
  unfolding prove_item with_item
  prove_item_inv (err e) bytes h = cc
  prove_item_inv (ok node) bytes h = (node, ground arith, refl, ground arith)

  link_node_inv :
      (d : Decoded Node) (bytes : Bytes) (child : H256) (value : Bytes) {hash : H256} {item : Bytes}
      → with_item (link_node d bytes child) value ≡ some (hash, item)
      → (node : Node) × (keccak bytes ≡ hash)
        × (d ≡ ok node)
        × (contains_hash node child ≡ true)
        × (value ≡ item)
  unfolding with_item link_node
  link_node_inv (err e) bytes child value h = cc
  link_node_inv (ok node) bytes child value h =
      (node, ground arith, refl, ground arith, ground arith)

  apply_merkle_proof_sound :
      (proof : List Bytes) (hash : H256) (item : Bytes)
      → apply_merkle_proof proof ≡ some (hash, item)
      → Holds hash proof item
  unfolding link_below next_hash
  apply_merkle_proof_sound [] hash item h = cc (sym apply_merkle_proof-nil ∙ h)
  apply_merkle_proof_sound (bytes ∷ []) hash item h =
      let (node, k, d, v) =
        prove_item_inv (decode_short crate (new bytes)) bytes
          (sym (apply_merkle_proof-here bytes) ∙ h) in
      here node k d v
  apply_merkle_proof_sound (bytes ∷ next ∷ rest) hash item h =
      by_rest (apply_merkle_proof (next ∷ rest)) (apply_merkle_proof_sound (next ∷ rest))
        (sym (apply_merkle_proof-below bytes next rest) ∙ h)
    where
      by_rest :
          (o : Option (H256 × Bytes))
          → ((child : H256) (value : Bytes)
              → o ≡ some (child, value)
              → Holds child (next ∷ rest) value)
          → link_below bytes o ≡ some (hash, item)
          → Holds hash (bytes ∷ next ∷ rest) item
      by_rest none ih e = cc
      by_rest (some (child, value)) ih e =
          let (node, k, d, c, v) = link_node_inv (decode_node crate bytes) bytes child value e in
          below node child k d c (subst (Holds child (next ∷ rest)) v (ih child value refl))

  apply_merkle_proof_complete :
      {hash : H256} {proof : List Bytes} {item : Bytes}
      → Holds hash proof item
      → apply_merkle_proof proof ≡ some (hash, item)
  unfolding prove_item with_item link_below next_hash link_node
  apply_merkle_proof_complete (here {bytes = bytes} node e d v) =
      apply_merkle_proof-here bytes ∙ rw (d, prove_item) (cc)
  apply_merkle_proof_complete
        (below {bytes = bytes} {next = next} {rest = rest} node child e d c p) =
      apply_merkle_proof-below bytes next rest
      ∙ rw (apply_merkle_proof_complete p) (rw (d, link_node, c) (cc))

  -- A receipt proof passes, with whatever the decoder of receipts makes of the item, exactly when
  -- its nodes are a path from the receipts root down to the item.
  pub check_receipt_proof_iff :
      (receipts_root : H256) (proof : List Bytes) (decoded : Decoded Receipt)
      → (check_receipt_proof receipts_root proof ≡ some decoded) ↔ (
          (item : Bytes) × Holds receipts_root proof item
          × (decode_receipt crate (new item) ≡ decoded))
  unfolding check_receipt_proof
  check_receipt_proof_iff receipts_root proof decoded = (down, up)
    where
      by_result :
          (o : Option (H256 × Bytes))
          → at_root receipts_root o ≡ some decoded
          → (item : Bytes) × (o ≡ some (receipts_root, item))
            × (decode_receipt crate (new item) ≡ decoded)
      by_result none h = cc
      by_result (some (root, item)) h = (item, ground arith, ground arith)

      down :
          at_root receipts_root (apply_merkle_proof proof) ≡ some decoded
          → (item : Bytes) × Holds receipts_root proof item
            × (decode_receipt crate (new item) ≡ decoded)
      down h =
          let (item, e, d) = by_result (apply_merkle_proof proof) h in
          (item, apply_merkle_proof_sound proof receipts_root item e, d)

      up :
          ((item : Bytes) × Holds receipts_root proof item
            × (decode_receipt crate (new item) ≡ decoded))
          → at_root receipts_root (apply_merkle_proof proof) ≡ some decoded
      up (item, path, d) =
          rw (apply_merkle_proof_complete path, at_root)
            (let e : (receipts_root == receipts_root) ≡ true = ground arith in rw e (cc))
