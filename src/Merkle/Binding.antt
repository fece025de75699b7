-- ===== src/Merkle/Binding.antt =====
-- What a verifier that accepts has shown: with one root and one proof, two different leaves give
-- a collision of the hash function among the inputs that are hashed. The position of the leaf is
-- not among what is shown.
use mathlib.Core.List.{foldl}
use snowbridge.Shared.{
  ℕ, ◌^◌, ◌<◌, ◌≡◌, ◌≢◌, ◌⊎◌, inl, inr, refl, sym, ◌∙◌, List, [], ◌∷◌, ◌++◌, true, arith, length,
  Bool-cases, ltb, min, max, All, if◌then◌else◌,
}
use native.Mathlib.Decide.{ℕ_discrete}
use snowbridge.Shared.Bytes.{Bytes, H256, h256_bytes, length-be_bytes, be_bytes-injective}
use snowbridge.Merkle.{Leaf, combine, leaf_hash, verify_proof}

pub append-injective :
    (xs ys us vs : Bytes) → length xs ≡ length ys → xs ++ us ≡ ys ++ vs → (xs ≡ ys) × (us ≡ vs)
append-injective [] [] us vs h e = (refl, e)
append-injective [] (y ∷ ys) us vs h e = absurd (omega arith)
append-injective (x ∷ xs) [] us vs h e = absurd (omega arith)
append-injective (x ∷ xs) (y ∷ ys) us vs h e =
    let rest = append-injective xs ys us vs (omega arith) (cc) in (cc, rest.1)

-- Two halves of 32 bytes are read back.
pub pair-injective :
    (a b c d : H256)
    → a < 2 ^ 256
    → b < 2 ^ 256
    → c < 2 ^ 256
    → d < 2 ^ 256
    → h256_bytes a ++ h256_bytes b ≡ h256_bytes c ++ h256_bytes d
    → (a ≡ c) × (b ≡ d)
pair-injective a b c d ha hb hc hd e =
    let halves =
      append-injective (h256_bytes a) (h256_bytes c) (h256_bytes b) (h256_bytes d)
        (length-be_bytes 32 a ∙ sym (length-be_bytes 32 c)) e in
    (be_bytes-injective 32 a c ha hc halves.0, be_bytes-injective 32 b d hb hd halves.1)

-- An input among `P` and another among `Q` that have one hash.
abbrev pub Collision : (Bytes → H256) → (Bytes → Type 0) → (Bytes → Type 0) → Type 0
Collision hash P Q = (x : Bytes) × (y : Bytes) × P x × Q y × (x ≢ y) × (hash x ≡ hash y)

pub Bytes-discrete : Discrete Bytes
Bytes-discrete = hlevel ℕ_discrete

module _ (hash : Bytes → H256) (hash_lt : (x : Bytes) → hash x < 2 ^ 256) where
  -- The two nodes in the order in which they are hashed.
  abbrev sorted_pair : H256 → H256 → Bytes
  sorted_pair a b = if ltb a b then h256_bytes a ++ h256_bytes b else h256_bytes b ++ h256_bytes a

  sorted_pair-min-max :
      (a b : H256) → sorted_pair a b ≡ h256_bytes (min a b) ++ h256_bytes (max a b)
  sorted_pair-min-max a b = elim (Bool-cases (ltb a b)) [
    | inl lt ↦
        let e : min a b ≡ a = ground arith in let f : max a b ≡ b = ground arith in rw (lt, e, f)
    | inr ge ↦
        let e : min a b ≡ b = ground arith in let f : max a b ≡ a = ground arith in rw (ge, e, f)
  ]

  sorted_pair-injective :
      (a b c : H256)
      → a < 2 ^ 256
      → b < 2 ^ 256
      → c < 2 ^ 256
      → sorted_pair a c ≡ sorted_pair b c
      → a ≡ b
  sorted_pair-injective a b c ha hb hc e =
      let halves =
        pair-injective (min a c) (max a c) (min b c) (max b c) (omega arith) (omega arith)
          (omega arith) (omega arith)
          (sym (sorted_pair-min-max a c) ∙ e ∙ sorted_pair-min-max b c) in
      omega arith

  combine-sorted_pair : (a b : H256) → combine hash a b ≡ hash (sorted_pair a b)
  unfolding combine
  combine-sorted_pair a b = ground arith

  combine-lt : (a b : H256) → combine hash a b < 2 ^ 256
  combine-lt a b = rw (combine-sorted_pair a b) (hash_lt _)

  -- At some step of the two ways up from `a` and from `b` along one proof, the inputs that are
  -- hashed differ and have one hash.
  abbrev pub ClashAbove : H256 → H256 → List H256 → Type 0
  ClashAbove a b [] = ⊥
  ClashAbove a b (c ∷ proof) =
      ((sorted_pair a c ≢ sorted_pair b c) × (hash (sorted_pair a c) ≡ hash (sorted_pair b c)))
      ⊎ ClashAbove (combine hash a c) (combine hash b c) proof

  -- The same for the ways up from two leaves, which are hashed first.
  abbrev pub Clash : Bytes → Bytes → List H256 → Type 0
  Clash x y proof = ((x ≢ y) × (hash x ≡ hash y)) ⊎ ClashAbove (hash x) (hash y) proof

  combine-injective :
      (a b c : H256)
      → a < 2 ^ 256
      → b < 2 ^ 256
      → c < 2 ^ 256
      → combine hash a c ≡ combine hash b c
      → (a ≡ b)
        ⊎ ((sorted_pair a c ≢ sorted_pair b c) × (hash (sorted_pair a c) ≡ hash (sorted_pair b c)))
  combine-injective a b c ha hb hc e =
      let same : hash (sorted_pair a c) ≡ hash (sorted_pair b c) =
        sym (combine-sorted_pair a c) ∙ e ∙ combine-sorted_pair b c in
      elim (Bytes-discrete (sorted_pair a c) (sorted_pair b c)) [
        | yes p ↦ inl (sorted_pair-injective a b c ha hb hc p)
        | no q ↦ inr (q, same)
      ]

  foldl-injective :
      (proof : List H256) (a b : H256)
      → All (λ h. h < 2 ^ 256) proof
      → a < 2 ^ 256
      → b < 2 ^ 256
      → foldl (combine hash) a proof ≡ foldl (combine hash) b proof
      → (a ≡ b) ⊎ ClashAbove a b proof
  foldl-injective [] a b bounds ha hb e = inl e
  foldl-injective (c ∷ proof) a b bounds ha hb e =
      elim (foldl-injective proof (combine hash a c) (combine hash b c) bounds.1 (combine-lt a c)
        (combine-lt b c) e) [
          | inr clash ↦ inr (inr clash)
          | inl same ↦ elim (combine-injective a b c ha hb bounds.0 same) [
            | inl below ↦ inl below
            | inr clash ↦ inr (inl clash)
          ]
        ]

  -- The root that a proof leads to, whatever its length.
  verify_proof-foldl :
      (root : H256) (proof : List H256) (n i : ℕ) (leaf : Leaf)
      → verify_proof hash root proof n i leaf ≡ true
      → (i < n) × (root ≡ foldl (combine hash) (leaf_hash hash leaf) proof)
  unfolding verify_proof
  verify_proof-foldl root proof n i leaf h = ground arith

  -- One root and one proof, accepted for two leaf contents at any two positions: the contents are
  -- the same, or at some step the two verifications hash different inputs to one hash. The hashes
  -- are of 32 bytes.
  pub verify_proof_binding :
      (root : H256) (proof : List H256) (n m i j : ℕ) (x y : Bytes)
      → All (λ h. h < 2 ^ 256) proof
      → verify_proof hash root proof n i (Leaf.value x) ≡ true
      → verify_proof hash root proof m j (Leaf.value y) ≡ true
      → (x ≡ y) ⊎ Clash x y proof
  unfolding leaf_hash
  verify_proof_binding root proof n m i j x y bounds p q =
      let left = verify_proof-foldl root proof n i (Leaf.value x) p in
      let right = verify_proof-foldl root proof m j (Leaf.value y) q in
      elim (foldl-injective proof (hash x) (hash y) bounds (hash_lt x) (hash_lt y)
        (sym left.1 ∙ right.1)) [
          | inr clash ↦ inr (inr clash)
          | inl same ↦ elim (Bytes-discrete x y) [ yes e ↦ inl e | no ne ↦ inr (inl (ne, same)) ]
        ]

module _ (hash : Bytes → H256) where
  -- The index takes part in the range check only: what is accepted at one position of the range
  -- is accepted at every other.
  pub verify_proof_any_index :
      (root : H256) (proof : List H256) (n i j : ℕ) (leaf : Leaf)
      → i < n
      → j < n
      → verify_proof hash root proof n i leaf ≡ verify_proof hash root proof n j leaf
  unfolding verify_proof
  verify_proof_any_index root proof n i j leaf hi hj = ground arith
