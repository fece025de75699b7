-- ===== src/Ethereum/Ethash/Lookups.antt =====
-- A proof of work that is verified over Merkle proofs is verified over the DAG itself.
use mathlib.Core.Path.{subst, ap₂}
use mathlib.Core.Option.{some-injective}
use snowbridge.Shared.{
  ℕ, zero, suc, ◌+◌, ◌*◌, ◌/◌, ◌%◌, ◌^◌, ◌<◌, Bool, true, false, none, some, List, [], ◌∷◌,
  get_elem?, ◌==◌, ◌≡◌, ◌⊎◌, inl, inr, refl, sym, ap, ◌∙◌, arith, All, Bool-cases, Option-cases,
}
use snowbridge.Shared.Bytes.{Bytes, H256}
use snowbridge.Shared.Outcome.{ok}
use snowbridge.Merkle.Binding.{Collision}
use snowbridge.Ethereum.Ethash.{
  H128, H512, DoubleNodeWithMerkleProof, Query, reversed_halves, has_root, still_valid, answer,
  run_lookups, apply_merkle_proof, with_success, dag_merkle_root, hashimoto_merkle,
}
use snowbridge.Ethereum.Ethash.Tree.{IsDag, IsApplied, IsDagInput, apply_merkle_proof-words}
use snowbridge.Ethereum.Ethash.Binding.{node_hash}

-- The words and the hashes of a node of the proof are in their widths.
abbrev pub IsSized : DoubleNodeWithMerkleProof → Type 0
IsSized n = (n.dag_nodes.0 < 2 ^ 512) × (n.dag_nodes.1 < 2 ^ 512) × All (λ h. h < 2 ^ 128) n.proof

-- Look-ups that come in pairs of the two words of one place, as those of the crate `ethash` do.
pub data Paired {R : Type 0} (levels : ℕ) : Query R → Type 0 where
  ends : (result : R) → Paired levels (Query.done result)
  pair :
      (place : ℕ) (next : H512 → H512 → Query R)
      → place < 2 ^ levels
      → ((first second : H512) → Paired levels (next first second))
      → Paired levels (Query.ask (2 * place) (λ first. Query.ask (2 * place + 1) (next first)))

-- The run over the DAG itself.
abbrev pub run_dag : {R : Type 0} → (ℕ → H512) → Query R → R
run_dag dag (Query.done result) = result
run_dag dag (Query.ask offset next) = run_dag dag (next (reversed_halves (dag offset)))

get_elem?-All :
    (xs : List DoubleNodeWithMerkleProof) (i : ℕ) {x : DoubleNodeWithMerkleProof}
    → All IsSized xs
    → get_elem? xs i ≡ some x
    → IsSized x
get_elem?-All [] i all e = absurd (cc)
get_elem?-All (y ∷ xs) zero all e = subst IsSized (some-injective _ _ e) all.0
get_elem?-All (y ∷ xs) (suc i) all e = get_elem?-All xs i all.1 e

module _ (sha2_256 : Bytes → H256) (nodes : List DoubleNodeWithMerkleProof) (root : H128) where
  looked_up : DoubleNodeWithMerkleProof → ℕ → H512
  looked_up node index = answer sha2_256 nodes root node index

  looked_up-even :
      (node : DoubleNodeWithMerkleProof) (k : ℕ)
      → looked_up node (2 * k) ≡ reversed_halves (node.dag_nodes.0)
  unfolding looked_up answer
  looked_up-even node k = let even : (2 * k % 2 == 0) ≡ true = (ground arith) in rw even refl

  looked_up-odd :
      (node : DoubleNodeWithMerkleProof) (k : ℕ)
      → looked_up node (2 * k + 1) ≡ reversed_halves (node.dag_nodes.1)
  unfolding looked_up answer
  looked_up-odd node k = let odd : ((2 * k + 1) % 2 == 0) ≡ false = (ground arith) in rw odd refl

  valid-odd :
      (node : DoubleNodeWithMerkleProof) (offset k : ℕ) (success : Bool)
      → still_valid sha2_256 nodes root node offset (2 * k + 1) success ≡ success
  unfolding still_valid
  valid-odd node offset k success =
      let odd : ((2 * k + 1) % 2 == 0) ≡ false = (ground arith) in rw odd refl

  valid-even :
      (node : DoubleNodeWithMerkleProof) (place k : ℕ)
      → still_valid sha2_256 nodes root node (2 * place) (2 * k) true ≡ true
      → apply_merkle_proof sha2_256 node place ≡ some root
  unfolding still_valid has_root
  valid-even node place k h =
      let even : (2 * k % 2 == 0) ≡ true = (ground arith) in
      let half : 2 * place / 2 ≡ place = (omega arith) in
      elim (Option-cases (apply_merkle_proof sha2_256 node (2 * place / 2))) [
        | inl e ↦ absurd (ground arith)
        | inr (computed, e) ↦
            let same : computed ≡ root = (ground arith) in
            ap (apply_merkle_proof sha2_256 node) (sym half) ∙ e ∙ ap (λ q. some q) same
      ]

module _ (sha2_256 : Bytes → H256) (nodes : List DoubleNodeWithMerkleProof) (dag : ℕ → H512)
    (node : ℕ → ℕ → H128) (real : IsDag sha2_256 dag node) where
  -- An input that is hashed when the proof of one of the nodes is applied, and a different one
  -- of the tree over the DAG, have one hash.
  abbrev pub Clash : Type 0
  Clash =
      (double_node : DoubleNodeWithMerkleProof) × (k : ℕ) × (place : ℕ) × (get_elem? nodes k
        ≡ some double_node)
      × Collision (node_hash sha2_256) (IsApplied sha2_256 dag node real double_node place)
          (IsDagInput sha2_256 dag node real)

module _ {R : Type 0} (sha2_256 : Bytes → H256) (nodes : List DoubleNodeWithMerkleProof)
    (root : H128) where
  run_done :
      (r : R) (index : ℕ) (success : Bool)
      → run_lookups sha2_256 nodes root (Query.done r) index success ≡ some (r, success)
  unfolding run_lookups
  run_done r index success = refl

  -- The steps of the run.
  run_step :
      (offset : ℕ) (next : H512 → Query R) (index : ℕ) (success : Bool)
      {node : DoubleNodeWithMerkleProof}
      → get_elem? nodes (index / 2) ≡ some node
      → run_lookups sha2_256 nodes root (Query.ask offset next) index success
        ≡ run_lookups sha2_256 nodes root
            (next (looked_up sha2_256 nodes root node index))
            (index + 1)
            (still_valid sha2_256 nodes root node offset index success)
  unfolding run_lookups looked_up
  run_step offset next index success e = ground arith

  run_fails :
      (offset : ℕ) (next : H512 → Query R) (index : ℕ) (success : Bool)
      → get_elem? nodes (index / 2) ≡ none
      → run_lookups sha2_256 nodes root (Query.ask offset next) index success ≡ none
  unfolding run_lookups
  run_fails offset next index success e = ground arith

  -- After a look-up that failed the run does not succeed.
  failed_stays :
      (query : Query R) (index : ℕ) {result : R} {success : Bool}
      → run_lookups sha2_256 nodes root query index false ≡ some (result, success)
      → success ≡ false
  unfolding still_valid
  failed_stays (Query.done r) index h = ground (arith, run_done r index false)
  failed_stays (Query.ask offset next) index h = elim (Option-cases (get_elem? nodes (index / 2))) [
    | inl e ↦ absurd (ground (arith, run_fails offset next index false e))
    | inr (node, e) ↦
        let same : still_valid sha2_256 nodes root node offset index false ≡ false =
          (ground arith) in
        failed_stays (next (looked_up sha2_256 nodes root node index)) (index + 1) (
          ap
            (run_lookups sha2_256 nodes root (next (looked_up sha2_256 nodes root node index))
              (index + 1))
            (sym same)
          ∙ sym (run_step offset next index false e)
          ∙ h)
  ]

  module _ (dag : ℕ → H512) (node : ℕ → ℕ → H128) (real : IsDag sha2_256 dag node) (levels : ℕ)
      (top : root ≡ node levels 0) (sized : All IsSized nodes) where
    -- A run that succeeds gives what the run over the DAG gives, or the hashes clash.
    run_lookups-run_dag :
        (query : Query R) (k : ℕ) (result : R)
        → Paired levels query
        → run_lookups sha2_256 nodes root query (2 * k) true ≡ some (result, true)
        → Clash sha2_256 nodes dag node real ⊎ (result ≡ run_dag dag query)
    run_lookups-run_dag query k result (ends r) h = inr (ground (arith, run_done r (2 * k) true))
    run_lookups-run_dag query k result (pair place next small rest) h =
        elim (Option-cases (get_elem? nodes (2 * k / 2))) [
          | inl e ↦ absurd (
              ground (
                arith,
                run_fails (2 * place) (λ first. Query.ask (2 * place + 1) (next first)) (2 * k) true
                    e,
              ))
          | inr (double_node, e) ↦
              let e1 : get_elem? nodes ((2 * k + 1) / 2) ≡ some double_node =
                (let same : (2 * k + 1) / 2 ≡ 2 * k / 2 = (omega arith) in rw same e) in
              let first = looked_up sha2_256 nodes root double_node (2 * k) in
              let second = looked_up sha2_256 nodes root double_node (2 * k + 1) in
              let valid = still_valid sha2_256 nodes root double_node (2 * place) (2 * k) true in
              let after : run_lookups sha2_256 nodes root (next first second) (2 * k + 1 + 1) valid
                  ≡ some (result, true) =
                ap (run_lookups sha2_256 nodes root (next first second) (2 * k + 1 + 1))
                  (sym (valid-odd sha2_256 nodes root double_node (2 * place + 1) k valid))
                ∙ sym (run_step (2 * place + 1) (next first) (2 * k + 1) valid e1)
                ∙ sym
                    (run_step (2 * place) (λ x. Query.ask (2 * place + 1) (next x)) (2 * k) true e)
                ∙ h in
              let (h0, h1, hp) = get_elem?-All nodes (2 * k / 2) sized e in
              elim (Bool-cases valid) [
                | inr failed ↦
                    let never = failed_stays (next first second) (2 * k + 1 + 1) (
                      ap (run_lookups sha2_256 nodes root (next first second) (2 * k + 1 + 1))
                        (sym failed)
                      ∙ after) in
                    absurd (cc)
                | inl good ↦
                    elim (apply_merkle_proof-words sha2_256 dag node real double_node place levels
                      small h0 h1 hp
                      (valid-even sha2_256 nodes root double_node place k good
                        ∙ ap (λ q. some q) top)) [
                          | inl clash ↦ inl (double_node, _, place, e, clash)
                          | inr (w0, w1) ↦
                              let e2 : 2 * k + 1 + 1 ≡ 2 * (k + 1) = (omega arith) in
                              let first_e : first ≡ reversed_halves (dag (2 * place)) =
                                looked_up-even sha2_256 nodes root double_node k
                                ∙ ap reversed_halves w0 in
                              let second_e : second ≡ reversed_halves (dag (2 * place + 1)) =
                                looked_up-odd sha2_256 nodes root double_node k
                                ∙ ap reversed_halves w1 in
                              elim (run_lookups-run_dag (next first second) (k + 1) result
                                (rest first second)
                                (ap
                                    (λ i.
                                      run_lookups sha2_256 nodes root (next first second) i true)
                                    (sym e2)
                                  ∙ ap
                                      (run_lookups sha2_256 nodes root (next first second)
                                        (2 * k + 1 + 1))
                                      (sym good)
                                  ∙ after)) [
                                    | inl clash ↦ inl clash
                                    | inr r ↦
                                        inr
                                          (r ∙ ap₂ (λ x y. run_dag dag (next x y)) first_e second_e)
                                  ]
                        ]
              ]
        ]

module _ (sha2_256 : Bytes → H256) (get_full_size : ℕ → ℕ)
    (hashimoto_with_hasher : H256 → ℕ → ℕ → Query (H256 × H256)) where
  -- Where the root of the epoch is that of the tree over a DAG, and the look-ups of `ethash` come in
  -- pairs within the tree, a proof of work that is accepted with nodes of any proofs gives what
  -- `hashimoto` gives over the DAG itself, or an input that is hashed when the proof of one of the
  -- nodes is applied and a different one of the tree have one truncated hash.
  pub hashimoto_merkle-run_dag :
      (dag : ℕ → H512) (node : ℕ → ℕ → H128) (levels : ℕ) (header_hash : H256)
      (header_nonce header_number : ℕ) (nodes : List DoubleNodeWithMerkleProof)
      (results : H256 × H256) (real : IsDag sha2_256 dag node)
      → dag_merkle_root (header_number / 30000) ≡ some (node levels 0)
      → All IsSized nodes
      → Paired levels (
          hashimoto_with_hasher header_hash header_nonce
            (get_full_size (header_number / 30000 % 2 ^ 32)))
      → hashimoto_merkle sha2_256 get_full_size hashimoto_with_hasher header_hash header_nonce
          header_number nodes
        ≡ ok results
      → Clash sha2_256 nodes dag node real
        ⊎ (results
            ≡ run_dag dag (
                hashimoto_with_hasher header_hash header_nonce
                  (get_full_size (header_number / 30000 % 2 ^ 32))))
  unfolding hashimoto_merkle with_success
  hashimoto_merkle-run_dag dag node levels header_hash header_nonce header_number nodes results real
        root_e sized paired h =
      let query =
        hashimoto_with_hasher header_hash header_nonce
          (get_full_size (header_number / 30000 % 2 ^ 32)) in
      let run = run_lookups sha2_256 nodes (node levels 0) query 0 true in
      elim (Option-cases run) [
        | inl e ↦ absurd (ground arith)
        | inr ((result, success), e) ↦
            let result_e : result ≡ results = (ground arith) in
            let success_e : success ≡ true = (ground arith) in
            run_lookups-run_dag sha2_256 nodes (node levels 0) dag node real levels refl sized query
              0 results paired (e ∙ ap₂ (λ x y. some (x, y)) result_e success_e)
      ]
