-- ===== src/Ethereum/Ethash/Tree.antt =====
-- What an accepted Merkle proof of a pair of DAG nodes shows: the pair stands at its place of the
-- tree, whatever the length of the proof.
use mathlib.Core.Path.{subst}
use native.Mathlib.Nat.{pow-suc, div-div-eq-div-mul}
use native.Mathlib.Numerals.{add-one}
use snowbridge.Shared.{
  ℕ, zero, suc, ◌+◌, ◌-◌, ◌*◌, ◌/◌, ◌%◌, ◌^◌, ◌<◌, some, List, [], ◌∷◌, length, ltb, ◌==◌,
  if◌then◌else◌, ◌≡◌, ◌⊎◌, inl, inr, refl, sym, ap, ◌∙◌, arith, All, Bool-cases,
}
use snowbridge.Shared.Bytes.{Bytes, H256}
use snowbridge.Merkle.Binding.{Collision}
use snowbridge.Ethereum.Ethash.{
  H128, H512, DoubleNodeWithMerkleProof, hash_h128, leaf_of, checked_shr, step_up, climb,
  apply_merkle_proof,
}
use snowbridge.Ethereum.Ethash.Binding.{
  node_hash, pair_bytes, leaf_bytes, HasOneHash, HasOneHash-sym, hash_h128-injective,
  leaf_of-injective, leaf_of-hash_h128, hash_h128-lt, leaf_of-lt,
}

module _ (sha2_256 : Bytes → H256) where
  -- The root over a node, at a position that is halved at each level.
  abbrev root_over : ℕ → H128 → List H128 → H128
  root_over position value [] = value
  root_over position value (node ∷ proof) =
      root_over (position / 2)
        (if position % 2 == 0 then hash_h128 sha2_256 value node else hash_h128 sha2_256 node value)
        proof

  climb-root_over :
      (index i : ℕ) (value : H128) (proof : List H128) {root : H128}
      → climb sha2_256 index i value proof ≡ some root
      → root_over (index / 2 ^ i) value proof ≡ root
  unfolding climb step_up checked_shr
  climb-root_over index i value [] h = ground arith
  climb-root_over index i value (node ∷ proof) {root} h =
      let halved : index / 2 ^ (i + 1) ≡ index / 2 ^ i / 2 =
        rw (add-one, pow-suc) (sym (div-div-eq-div-mul index (2 ^ i) 2)) in
      elim (Bool-cases (ltb i 64)) [
        | inr wide ↦ absurd (ground arith)
        | inl narrow ↦
            let above =
              if index / 2 ^ i % 2 == 0
              then hash_h128 sha2_256 value node
              else hash_h128 sha2_256 node value in
            let rest : climb sha2_256 index (i + 1) above proof ≡ some root = (ground arith) in
            rw (sym halved) (climb-root_over index (i + 1) above proof rest)
      ]

  -- A DAG and every node of its tree, by its level and its place in the level.
  pub record IsDag (dag : ℕ → H512) (node : ℕ → ℕ → H128) : Type 0 where
    pub words : (i : ℕ) → dag i < 2 ^ 512
    pub leaves : (i : ℕ) → node 0 i ≡ leaf_of sha2_256 (dag (2 * i), dag (2 * i + 1))
    pub inner :
        (level place : ℕ)
        → node (suc level) place
          ≡ hash_h128 sha2_256 (node level (2 * place)) (node level (2 * place + 1))

  -- A position after so many halvings.
  abbrev halved : ℕ → ℕ → ℕ
  halved zero position = position
  halved (suc levels) position = halved levels (position / 2)

  halved-zero : (levels position : ℕ) → position < 2 ^ levels → halved levels position ≡ 0
  halved-zero zero position lt = omega arith
  halved-zero (suc levels) position lt =
      let e = pow-suc 2 levels in halved-zero levels (position / 2) (omega arith)

  module _ (dag : ℕ → H512) (node : ℕ → ℕ → H128) (real : IsDag dag node) where
    node-lt : (level place : ℕ) → node level place < 2 ^ 128
    node-lt zero place = rw (real.leaves place) (leaf_of-lt sha2_256 _)
    node-lt (suc level) place = rw (real.inner level place) (hash_h128-lt sha2_256 _ _)

    above : ℕ → H128 → H128 → H128
    above position value sibling =
        if position % 2 == 0
        then hash_h128 sha2_256 value sibling
        else hash_h128 sha2_256 sibling value

    -- What is hashed on the way up from a node: at each level, the node and its sibling.
    bytes_above : ℕ → H128 → H128 → Bytes
    bytes_above position value sibling =
        if position % 2 == 0
        then pair_bytes sha2_256 value sibling
        else pair_bytes sha2_256 sibling value

    pub IsProofInput : ℕ → H128 → List H128 → Bytes → Type 0
    unfolding bytes_above above
    IsProofInput position value [] bytes = ⊥
    IsProofInput position value (n ∷ proof) bytes =
        (bytes ≡ bytes_above position value n)
        ⊎ IsProofInput (position / 2) (above position value n) proof bytes

    -- What is hashed in the tree over the DAG.
    abbrev pub IsDagInput : Bytes → Type 0
    IsDagInput bytes =
        ((i : ℕ) × (bytes ≡ leaf_bytes sha2_256 (dag (2 * i)) (dag (2 * i + 1))))
        ⊎ ((level : ℕ) × (place : ℕ) × (bytes
              ≡ pair_bytes sha2_256 (node level (2 * place)) (node level (2 * place + 1))))

    -- An input of the way up and a different one of the tree have one hash.
    abbrev HasClash : ℕ → H128 → List H128 → Type 0
    HasClash position value proof =
        Collision (node_hash sha2_256) (IsProofInput position value proof) IsDagInput

    -- The same where the pair of words, which is hashed first, is among the inputs.
    abbrev pub IsApplied : DoubleNodeWithMerkleProof → ℕ → Bytes → Type 0
    IsApplied double_node index bytes =
        (bytes ≡ leaf_bytes sha2_256 double_node.dag_nodes.0 double_node.dag_nodes.1)
        ⊎ IsProofInput index (leaf_of sha2_256 double_node.dag_nodes) double_node.proof bytes

    higher_up :
        (position : ℕ) (value n : H128) (proof : List H128)
        → HasClash (position / 2) (above position value n) proof
        → HasClash position value (n ∷ proof)
    unfolding IsProofInput
    higher_up position value n proof (x, y, p, q, other, same) = (x, y, inr p, q, other, same)

    first_up :
        (position : ℕ) (value n : H128) (proof : List H128) {y : Bytes}
        → IsDagInput y
        → HasOneHash sha2_256 (bytes_above position value n) y
        → HasClash position value (n ∷ proof)
    unfolding IsProofInput
    first_up position value n proof {y} q clash = (_, y, inl refl, q, clash.0, clash.1)

    above-lt : (position : ℕ) (value sibling : H128) → above position value sibling < 2 ^ 128
    unfolding above
    above-lt position value sibling = elim (Bool-cases (position % 2 == 0)) [
      | inl e ↦ rw e (hash_h128-lt sha2_256 _ _)
      | inr e ↦ rw e (hash_h128-lt sha2_256 _ _)
    ]

    -- What hashes to a node above is the node below on its side.
    below_node :
        (position level place : ℕ) (value sibling : H128)
        → value < 2 ^ 128
        → sibling < 2 ^ 128
        → above position value sibling ≡ node (suc level) place
        → HasOneHash sha2_256
            (bytes_above position value sibling)
            (pair_bytes sha2_256 (node level (2 * place)) (node level (2 * place + 1)))
          ⊎ (value ≡ node level (2 * place + position % 2))
    unfolding above bytes_above
    below_node position level place value sibling hv hs e = elim (Bool-cases (position % 2 == 0)) [
      | inl even ↦
          let e' : hash_h128 sha2_256 value sibling
              ≡ hash_h128 sha2_256 (node level (2 * place)) (node level (2 * place + 1)) =
            (let whole = e ∙ real.inner level place in ground arith) in
          let side : 2 * place + position % 2 ≡ 2 * place = (ground arith) in
          elim (hash_h128-injective sha2_256 value sibling _ _ hv hs (node-lt level (2 * place))
            (node-lt level (2 * place + 1)) e') [
              | inl clash ↦ inl (rw even clash)
              | inr (x, _) ↦ inr (x ∙ ap (node level) (sym side))
            ]
      | inr odd ↦
          let e' : hash_h128 sha2_256 sibling value
              ≡ hash_h128 sha2_256 (node level (2 * place)) (node level (2 * place + 1)) =
            (let whole = e ∙ real.inner level place in ground arith) in
          let side : 2 * place + position % 2 ≡ 2 * place + 1 = (ground arith) in
          elim (hash_h128-injective sha2_256 sibling value _ _ hs hv (node-lt level (2 * place))
            (node-lt level (2 * place + 1)) e') [
              | inl clash ↦ inl (rw odd clash)
              | inr (_, x) ↦ inr (x ∙ ap (node level) (sym side))
            ]
    ]

    -- A climb that ends at the node above its position started at the node of its position.
    climbed_exactly :
        (proof : List H128) (position level : ℕ) (value : H128)
        → value < 2 ^ 128
        → All (λ n. n < 2 ^ 128) proof
        → root_over position value proof
          ≡ node (level + length proof) (halved (length proof) position)
        → HasClash position value proof ⊎ (value ≡ node level position)
    unfolding above
    climbed_exactly [] position level value hv hp e =
        let top : level + 0 ≡ level = (omega arith) in inr (e ∙ ap (λ l. node l position) top)
    climbed_exactly (n ∷ proof) position level value hv (hn, hp) e =
        let higher : level + suc (length proof) ≡ suc level + length proof = (omega arith) in
        elim (climbed_exactly proof (position / 2) (suc level) (above position value n)
          (above-lt position value n) hp
          (e ∙ ap (λ l. node l (halved (length proof) (position / 2))) higher)) [
            | inl clash ↦ inl (higher_up position value n proof clash)
            | inr at ↦ elim (below_node position level (position / 2) value n hv hn at) [
              | inl clash ↦
                  inl (first_up position value n proof (inr (level, position / 2, refl)) clash)
              | inr x ↦
                  let back : 2 * (position / 2) + position % 2 ≡ position = (omega arith) in
                  inr (x ∙ ap (node level) back)
            ]
          ]

    -- A climb that ends at a node started at a node as many levels below.
    climbed_from :
        (proof : List H128) (position level place : ℕ) (value : H128)
        → value < 2 ^ 128
        → All (λ n. n < 2 ^ 128) proof
        → root_over position value proof ≡ node (level + length proof) place
        → HasClash position value proof ⊎ ((q : ℕ) × (value ≡ node level q))
    unfolding above
    climbed_from [] position level place value hv hp e =
        let top : level + 0 ≡ level = (omega arith) in inr (place, e ∙ ap (λ l. node l place) top)
    climbed_from (n ∷ proof) position level place value hv (hn, hp) e =
        let higher : level + suc (length proof) ≡ suc level + length proof = (omega arith) in
        elim (climbed_from proof (position / 2) (suc level) place (above position value n)
          (above-lt position value n) hp (e ∙ ap (λ l. node l place) higher)) [
            | inl clash ↦ inl (higher_up position value n proof clash)
            | inr (q, at) ↦ elim (below_node position level q value n hv hn at) [
              | inl clash ↦ inl (first_up position value n proof (inr (level, q, refl)) clash)
              | inr x ↦ inr (2 * q + position % 2, x)
            ]
          ]

    above-leaf :
        (position : ℕ) (value n : H128) (q : ℕ)
        → above position value n ≡ leaf_of sha2_256 (dag (2 * q), dag (2 * q + 1))
        → HasOneHash sha2_256
            (bytes_above position value n)
            (leaf_bytes sha2_256 (dag (2 * q)) (dag (2 * q + 1)))
    unfolding above bytes_above
    above-leaf position value n q e = elim (Bool-cases (position % 2 == 0)) [
      | inl even ↦ rw even (
          HasOneHash-sym sha2_256 (
            leaf_of-hash_h128 sha2_256 (dag (2 * q)) (dag (2 * q + 1)) value n
              (let e' = e in ground arith)))
      | inr odd ↦ rw odd (
          HasOneHash-sym sha2_256 (
            leaf_of-hash_h128 sha2_256 (dag (2 * q)) (dag (2 * q + 1)) n value
              (let e' = e in ground arith)))
    ]

    -- A climb of more steps than the levels of the node where it ends hashes an input that
    -- clashes with one of the tree.
    climbed_too_far :
        (proof : List H128) (position levels place : ℕ) (value : H128)
        → value < 2 ^ 128
        → All (λ n. n < 2 ^ 128) proof
        → levels < length proof
        → root_over position value proof ≡ node levels place
        → HasClash position value proof
    unfolding above
    climbed_too_far [] position levels place value hv hp far e = absurd (omega arith)
    climbed_too_far (n ∷ proof) position levels place value hv (hn, hp) far e =
        elim (Bool-cases (levels == length proof)) [
          | inr more ↦ higher_up position value n proof (
              climbed_too_far proof (position / 2) levels place (above position value n)
                (above-lt position value n) hp (ground arith) e)
          | inl last ↦
              let same : levels ≡ 0 + length proof = (ground arith) in
              elim (climbed_from proof (position / 2) 0 place (above position value n)
                (above-lt position value n) hp (e ∙ ap (λ l. node l place) same)) [
                  | inl clash ↦ higher_up position value n proof clash
                  | inr (q, at) ↦
                      first_up position value n proof (inl (q, refl))
                        (above-leaf position value n q (at ∙ real.leaves q))
                ]
        ]

    applied :
        (double_node : DoubleNodeWithMerkleProof) (index : ℕ)
        → HasClash index (leaf_of sha2_256 double_node.dag_nodes) double_node.proof
        → Collision (node_hash sha2_256) (IsApplied double_node index) IsDagInput
    applied double_node index (x, y, p, q, other, same) = (x, y, inr p, q, other, same)

    -- A pair of words with a proof for a place of the tree are the words of the place, whatever the
    -- length of the proof, or an input that is hashed when the proof is applied and another of the
    -- tree have one hash.
    pub apply_merkle_proof-words :
        (double_node : DoubleNodeWithMerkleProof) (index levels : ℕ)
        → index < 2 ^ levels
        → double_node.dag_nodes.0 < 2 ^ 512
        → double_node.dag_nodes.1 < 2 ^ 512
        → All (λ n. n < 2 ^ 128) double_node.proof
        → apply_merkle_proof sha2_256 double_node index ≡ some (node levels 0)
        → Collision (node_hash sha2_256) (IsApplied double_node index) IsDagInput
          ⊎ ((double_node.dag_nodes.0 ≡ dag (2 * index))
              × (double_node.dag_nodes.1 ≡ dag (2 * index + 1)))
    unfolding apply_merkle_proof
    apply_merkle_proof-words double_node index levels lt h0 h1 hp h =
        let proof = double_node.proof in
        let leaf = leaf_of sha2_256 double_node.dag_nodes in
        let whole : index / 2 ^ 0 ≡ index = (omega arith) in
        let root : root_over index leaf proof ≡ node levels 0 =
          sym (ap (λ p. root_over p leaf proof) whole) ∙ climb-root_over index 0 leaf proof h in
        elim (Bool-cases (levels == length proof)) [
          | inl same ↦
              let e : levels ≡ 0 + length proof = (ground arith) in
              let e' : levels ≡ length proof = (ground arith) in
              let top : 0 ≡ halved (length proof) index =
                sym (halved-zero (length proof) index (subst (λ l. index < 2 ^ l) e' lt)) in
              elim (climbed_exactly proof index 0 leaf (leaf_of-lt sha2_256 _) hp
                (root ∙ ap (λ l. node l 0) e ∙ ap (node (0 + length proof)) top)) [
                  | inl clash ↦ inl (applied double_node index clash)
                  | inr at ↦
                      elim (leaf_of-injective sha2_256 double_node.dag_nodes.0
                        double_node.dag_nodes.1 (dag (2 * index)) (dag (2 * index + 1)) h0 h1
                        (real.words (2 * index)) (real.words (2 * index + 1))
                        (at ∙ real.leaves index)) [
                          | inl clash ↦ inl (_, _, inl refl, inl (index, refl), clash.0, clash.1)
                          | inr words ↦ inr words
                        ]
                ]
          | inr other ↦ elim (Bool-cases (ltb levels (length proof))) [
            | inl far ↦ inl (
                applied double_node index (
                  climbed_too_far proof index levels 0 leaf (leaf_of-lt sha2_256 _) hp
                    (ground arith) root))
            | inr near ↦
                let m = levels - length proof - 1 in
                let e : levels ≡ suc m + length proof = (ground arith) in
                elim (climbed_from proof index (suc m) 0 leaf (leaf_of-lt sha2_256 _) hp
                  (root ∙ ap (λ l. node l 0) e)) [
                    | inl clash ↦ inl (applied double_node index clash)
                    | inr (q, at) ↦ inl (
                      _,
                      _,
                      inl refl,
                      inr (m, q, refl),
                      (leaf_of-hash_h128 sha2_256 double_node.dag_nodes.0 double_node.dag_nodes.1
                          (node m (2 * q)) (node m (2 * q + 1)) (at ∙ real.inner m q)).0,
                      (leaf_of-hash_h128 sha2_256 double_node.dag_nodes.0 double_node.dag_nodes.1
                          (node m (2 * q)) (node m (2 * q + 1)) (at ∙ real.inner m q)).1,
                    )
                  ]
          ]
        ]
