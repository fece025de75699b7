-- ===== src/Ethereum/Ethash/Binding.antt =====
-- The hashes of leaves and of inner nodes: two inputs with one hash are the same, or they clash.
use snowbridge.Shared.{
  ◌^◌, ◌<◌, ◌++◌, length, length-append, replicate, ◌≡◌, ◌≢◌, ◌⊎◌, inl, inr, refl, sym, ap, ◌∙◌,
  arith,
}
use snowbridge.Shared.Bytes.{Bytes, H256, be_bytes, length-be_bytes, be_bytes-injective}
use snowbridge.Merkle.Binding.{Bytes-discrete, append-injective}
use snowbridge.Ethereum.Ethash.{H128, H512, truncate_to_h128, hash_h128, leaf_of}

module _ (sha2_256 : Bytes → H256) where
  -- The hash of a node: a SHA-256 hash, truncated.
  abbrev pub node_hash : Bytes → H128
  node_hash bytes = truncate_to_h128 sha2_256 (sha2_256 bytes)

  abbrev pub pair_bytes : H128 → H128 → Bytes
  pair_bytes l r = replicate 16 0 ++ (be_bytes 16 l ++ (replicate 16 0 ++ be_bytes 16 r))

  abbrev pub leaf_bytes : H512 → H512 → Bytes
  leaf_bytes first second = be_bytes 64 first ++ be_bytes 64 second

  -- Two different inputs with one hash.
  abbrev pub HasOneHash : Bytes → Bytes → Type 0
  HasOneHash x y = (x ≢ y) × (node_hash x ≡ node_hash y)

  pub HasOneHash-sym : {x y : Bytes} → HasOneHash x y → HasOneHash y x
  HasOneHash-sym (other, same) = (λ e. other (sym e), sym same)

  length-pair_bytes : (l r : H128) → length (pair_bytes l r) ≡ 64
  length-pair_bytes l r =
      let whole = length-append (be_bytes 16 l) (replicate 16 0 ++ be_bytes 16 r) in
      omega (arith, whole, length-be_bytes 16 l, length-be_bytes 16 r)

  length-leaf_bytes : (a b : H512) → length (leaf_bytes a b) ≡ 128
  length-leaf_bytes a b = omega (
    arith,
    length-append (be_bytes 64 a) (be_bytes 64 b),
    length-be_bytes 64 a,
    length-be_bytes 64 b,
  )

  -- Two inputs with one hash are the same, or they clash.
  same_hash : (x y : Bytes) → node_hash x ≡ node_hash y → HasOneHash x y ⊎ (x ≡ y)
  same_hash x y e = elim (Bytes-discrete x y) [ yes same ↦ inr same | no other ↦ inl (other, e) ]

  pub hash_h128-injective :
      (a b p q : H128)
      → a < 2 ^ 128
      → b < 2 ^ 128
      → p < 2 ^ 128
      → q < 2 ^ 128
      → hash_h128 sha2_256 a b ≡ hash_h128 sha2_256 p q
      → HasOneHash (pair_bytes a b) (pair_bytes p q) ⊎ ((a ≡ p) × (b ≡ q))
  unfolding hash_h128
  hash_h128-injective a b p q ha hb hp hq e = elim (same_hash (pair_bytes a b) (pair_bytes p q) e) [
    | inl clash ↦ inl clash
    | inr same ↦
        let (_, halves) = append-injective (replicate 16 0) (replicate 16 0) _ _ refl same in
        let (first, rest) =
          append-injective (be_bytes 16 a) (be_bytes 16 p) _ _
            (length-be_bytes 16 a ∙ sym (length-be_bytes 16 p)) halves in
        let (_, second) = append-injective (replicate 16 0) (replicate 16 0) _ _ refl rest in
        inr (be_bytes-injective 16 a p ha hp first, be_bytes-injective 16 b q hb hq second)
  ]

  pub leaf_of-injective :
      (a b p q : H512)
      → a < 2 ^ 512
      → b < 2 ^ 512
      → p < 2 ^ 512
      → q < 2 ^ 512
      → leaf_of sha2_256 (a, b) ≡ leaf_of sha2_256 (p, q)
      → HasOneHash (leaf_bytes a b) (leaf_bytes p q) ⊎ ((a ≡ p) × (b ≡ q))
  unfolding leaf_of
  leaf_of-injective a b p q ha hb hp hq e = elim (same_hash (leaf_bytes a b) (leaf_bytes p q) e) [
    | inl clash ↦ inl clash
    | inr same ↦
        let (first, second) =
          append-injective (be_bytes 64 a) (be_bytes 64 p) _ _
            (length-be_bytes 64 a ∙ sym (length-be_bytes 64 p)) same in
        inr (be_bytes-injective 64 a p ha hp first, be_bytes-injective 64 b q hb hq second)
  ]

  -- A leaf and an inner node with one hash clash.
  pub leaf_of-hash_h128 :
      (first second : H512) (l r : H128)
      → leaf_of sha2_256 (first, second) ≡ hash_h128 sha2_256 l r
      → HasOneHash (leaf_bytes first second) (pair_bytes l r)
  unfolding leaf_of hash_h128
  leaf_of-hash_h128 first second l r e =
      elim (same_hash (leaf_bytes first second) (pair_bytes l r) e) [
        | inl clash ↦ clash
        | inr same ↦
            let lengths = ap length same in
            absurd (omega (arith, lengths, length-leaf_bytes first second, length-pair_bytes l r))
      ]

  pub hash_h128-lt : (l r : H128) → hash_h128 sha2_256 l r < 2 ^ 128
  unfolding hash_h128
  hash_h128-lt l r = omega arith

  pub leaf_of-lt : (pair : H512 × H512) → leaf_of sha2_256 pair < 2 ^ 128
  unfolding leaf_of
  leaf_of-lt pair = omega arith
