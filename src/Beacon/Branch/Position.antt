-- ===== src/Beacon/Branch/Position.antt =====
-- What an accepted branch shows: the leaf stands at a position of a tree with the root.
use snowbridge.Shared.{
  ℕ, zero, suc, ◌+◌, ◌-◌, ◌*◌, ◌/◌, ◌%◌, ◌^◌, ◌≤◌, ◌<◌, true, List, [], ◌∷◌, ◌++◌, length, ◌==◌,
  if◌then◌else◌, ◌≡◌, ◌≢◌, ◌↔◌, ◌⊎◌, inl, inr, refl, sym, ap, ◌∙◌, arith, All, Bool-cases, ==_iff,
}
use native.Mathlib.Nat.{
  mod-eq_of_lt, pow-suc, pow-succ', zero-add, one-le-pow, pow-le-pow_right, div-div-eq-div-mul,
}
use native.Mathlib.Numerals.{add-one}
use snowbridge.Shared.Bytes.{Bytes, H256, h256_bytes, length-be_bytes}
use snowbridge.Merkle.Binding.{pair-injective, Bytes-discrete}
use snowbridge.Beacon.Branch.{hash_pair, branch_loop, is_valid_merkle_branch}

pow-lt-pow_32 : (i : ℕ) → i < 32 → 2 ^ i < 2 ^ 32
pow-lt-pow_32 i h =
    let le : 2 ^ suc i ≤ 2 ^ 32 = pow-le-pow_right {n = 2} (omega arith) h in
    omega (arith, le, pow-suc 2 i, one-le-pow i 2 (omega arith))

module _ (sha2_256 : Bytes → H256) where
  -- The root over a node: at each level the parity of the position says on which side it lies,
  -- and the position is halved.
  abbrev pub root_over : ℕ → List H256 → H256 → H256
  root_over position [] value = value
  root_over position (node ∷ branch) value =
      root_over (position / 2) branch
        (if position % 2 == 0 then hash_pair sha2_256 value node else hash_pair sha2_256 node value)

  branch_loop-root_over :
      (i index : ℕ) (branch : List H256) (value root : H256)
      → i + length branch ≤ 32
      → branch_loop sha2_256 i index branch value root
        ≡ (root_over (index / 2 ^ i) branch value == root)
  unfolding branch_loop
  branch_loop-root_over i index [] value root h = refl
  branch_loop-root_over i index (node ∷ branch) value root h =
      let width : (2 ^ i % 2 ^ 32) ≡ 2 ^ i = mod-eq_of_lt (pow-lt-pow_32 i (omega arith)) in
      let halved : index / 2 ^ (i + 1) ≡ index / 2 ^ i / 2 =
        rw (add-one, pow-suc) (sym (div-div-eq-div-mul index (2 ^ i) 2)) in
      rw (length-be_bytes 32 node, width)
        (branch_loop-root_over (i + 1) index branch _ root (omega arith) ∙ rw halved)

  -- A branch is accepted exactly when it has the depth, and the root over the leaf at the
  -- position `index` is the root; the depth is at most 32, the width of the power of two.
  pub is_valid_merkle_branch_iff :
      (leaf : H256) (branch : List H256) (depth index : ℕ) (root : H256)
      → depth ≤ 32
      → (is_valid_merkle_branch sha2_256 leaf branch depth index root ≡ true)
        ↔ ((length branch ≡ depth) × (root_over index branch leaf ≡ root))
  unfolding is_valid_merkle_branch
  is_valid_merkle_branch_iff leaf branch depth index root h =
      elim (Bool-cases (length branch == depth)) [
        | inl same ↦
            let le : 0 + length branch ≤ 32 = ground arith in
            let whole : index / 2 ^ 0 ≡ index = omega arith in
            rw
              (
                same,
                length-be_bytes 32 leaf,
                branch_loop-root_over 0 index branch leaf root le,
                whole,
              )
              (
                λ t. ((==_iff (length branch) depth).0 same, (==_iff _ root).0 t),
                λ p. (==_iff _ root).1 p.1,
              )
        | inr different ↦
            rw different (λ t. cc, λ p. cc ((==_iff (length branch) depth).1 p.0, different))
      ]

  -- Every node of a tree that its level and its place in the level give.
  abbrev pub IsTree : (ℕ → ℕ → H256) → Type 0
  IsTree node =
      (level place : ℕ)
      → node (suc level) place
        ≡ hash_pair sha2_256 (node level (2 * place)) (node level (2 * place + 1))

  -- The siblings on the way up from a place of a level.
  abbrev pub siblings : (ℕ → ℕ → H256) → ℕ → ℕ → ℕ → List H256
  siblings node zero level place = []
  siblings node (suc depth) level place =
      (if place % 2 == 0 then node level (place + 1) else node level (place - 1))
      ∷ siblings node depth (suc level) (place / 2)

  -- A node with its sibling gives the node above.
  parent :
      (node : ℕ → ℕ → H256)
      → IsTree node
      → (level place : ℕ)
      → (let sibling = if place % 2 == 0 then node level (place + 1) else node level (place - 1) in
          if place % 2 == 0
          then hash_pair sha2_256 (node level place) sibling
          else hash_pair sha2_256 sibling (node level place))
        ≡ node (suc level) (place / 2)
  parent node tree level place = elim (Bool-cases (place % 2 == 0)) [
    | inl even ↦
        let e : 2 * (place / 2) ≡ place = ground arith in rw (even, tree level (place / 2), e)
    | inr odd ↦
        let e : 2 * (place / 2) + 1 ≡ place = ground arith in
        let f : 2 * (place / 2) ≡ place - 1 = ground arith in rw (odd, tree level (place / 2), e, f)
  ]

  length-siblings :
      (node : ℕ → ℕ → H256) (depth level place : ℕ)
      → length (siblings node depth level place) ≡ depth
  length-siblings node zero level place = refl
  length-siblings node (suc depth) level place =
      ap suc (length-siblings node depth (suc level) (place / 2))

  root_over-siblings :
      (node : ℕ → ℕ → H256)
      → IsTree node
      → (depth level place : ℕ)
      → root_over place (siblings node depth level place) (node level place)
        ≡ node (level + depth) (place / 2 ^ depth)
  root_over-siblings node tree zero level place =
      let e : level + 0 ≡ level = omega arith in
      let f : place / 2 ^ 0 ≡ place = omega arith in rw (e, f)
  root_over-siblings node tree (suc depth) level place =
      let e : suc level + depth ≡ level + suc depth = omega arith in
      let f : place / 2 ^ suc depth ≡ place / 2 / 2 ^ depth =
        rw pow-succ' (sym (div-div-eq-div-mul place 2 (2 ^ depth))) in
      ap (root_over (place / 2) (siblings node depth (suc level) (place / 2)))
        (parent node tree level place)
      ∙ (rw (f, ← e) (root_over-siblings node tree depth (suc level) (place / 2)))

  -- In a tree, the siblings of a leaf are a branch that is accepted for the top of the tree.
  pub is_valid_merkle_branch-siblings :
      (node : ℕ → ℕ → H256)
      → IsTree node
      → (depth place : ℕ) → depth ≤ 32
      → place < 2 ^ depth
      → is_valid_merkle_branch sha2_256
          (node 0 place)
          (siblings node depth 0 place)
          depth
          place
          (node depth 0)
        ≡ true
  is_valid_merkle_branch-siblings node tree depth place h lt =
      let at_top : place / 2 ^ depth ≡ 0 = grind arith in
      (is_valid_merkle_branch_iff (node 0 place) (siblings node depth 0 place) depth place
          (node depth 0) h).1
        (
          length-siblings node depth 0 place,
          root_over-siblings node tree depth 0 place ∙ rw (zero-add, at_top),
        )

  -- What is hashed at a position: the value and its sibling, by the parity of the position.
  abbrev pub pair_at : ℕ → H256 → H256 → Bytes
  pair_at position value node =
      if position % 2 == 0
      then h256_bytes value ++ h256_bytes node
      else h256_bytes node ++ h256_bytes value

  module _ (sha2_256_lt : (x : Bytes) → sha2_256 x < 2 ^ 256) where
    -- At some step of the ways up from `a` and from `b`, the inputs that are hashed differ and have
    -- one hash.
    abbrev pub Clash : ℕ → List H256 → List H256 → H256 → H256 → Type 0
    Clash position [] ys a b = ⊥
    Clash position (x ∷ xs) [] a b = ⊥
    Clash position (x ∷ xs) (y ∷ ys) a b =
        ((pair_at position a x ≢ pair_at position b y)
          × (sha2_256 (pair_at position a x) ≡ sha2_256 (pair_at position b y)))
        ⊎ Clash (position / 2) xs ys (sha2_256 (pair_at position a x))
            (sha2_256 (pair_at position b y))

    pair_at-injective :
        (position : ℕ) (a x b y : H256)
        → a < 2 ^ 256
        → x < 2 ^ 256
        → b < 2 ^ 256
        → y < 2 ^ 256
        → pair_at position a x ≡ pair_at position b y
        → a ≡ b
    pair_at-injective position a x b y ha hx hb hy e = elim (Bool-cases (position % 2 == 0)) [
      | inl left ↦ (pair-injective a x b y ha hx hb hy (rw left at e)).0
      | inr right ↦ (pair-injective x a y b hx ha hy hb (rw right at e)).1
    ]

    root_over-pair_at :
        (position : ℕ) (node : H256) (branch : List H256) (value : H256)
        → root_over position (node ∷ branch) value
          ≡ root_over (position / 2) branch (sha2_256 (pair_at position value node))
    unfolding hash_pair
    root_over-pair_at position node branch value = elim (Bool-cases (position % 2 == 0)) [
      | inl left ↦ rw left refl
      | inr right ↦ rw right refl
    ]

    root_over-injective :
        (position : ℕ) (xs ys : List H256) (a b : H256)
        → length xs ≡ length ys
        → All (λ h. h < 2 ^ 256) xs
        → All (λ h. h < 2 ^ 256) ys
        → a < 2 ^ 256
        → b < 2 ^ 256
        → root_over position xs a ≡ root_over position ys b
        → (a ≡ b) ⊎ Clash position xs ys a b
    root_over-injective position [] [] a b l hx hy ha hb e = inl e
    root_over-injective position [] (y ∷ ys) a b l hx hy ha hb e = absurd (omega arith)
    root_over-injective position (x ∷ xs) [] a b l hx hy ha hb e = absurd (omega arith)
    root_over-injective position (x ∷ xs) (y ∷ ys) a b l hx hy ha hb e =
        elim (root_over-injective (position / 2) xs ys (sha2_256 (pair_at position a x))
          (sha2_256 (pair_at position b y)) (omega arith) hx.1 hy.1 (sha2_256_lt _) (sha2_256_lt _)
          (sym (root_over-pair_at position x xs a) ∙ e ∙ root_over-pair_at position y ys b)) [
            | inr clash ↦ inr (inr clash)
            | inl above ↦ elim (Bytes-discrete (pair_at position a x) (pair_at position b y)) [
              | yes same ↦ inl (pair_at-injective position a x b y ha hx.0 hb hy.0 same)
              | no other ↦ inr (inl (other, above))
            ]
          ]

    -- A position of a root holds one leaf: two leaves that are accepted at one position of one
    -- root, whatever their branches, are the same, or at some level the two checks hash different
    -- inputs to one hash. The hashes are of 32 bytes and the depth is at most 32.
    pub is_valid_merkle_branch_binding :
        (a b : H256) (xs ys : List H256) (depth index : ℕ) (root : H256)
        → depth ≤ 32
        → a < 2 ^ 256
        → b < 2 ^ 256
        → All (λ h. h < 2 ^ 256) xs
        → All (λ h. h < 2 ^ 256) ys
        → is_valid_merkle_branch sha2_256 a xs depth index root ≡ true
        → is_valid_merkle_branch sha2_256 b ys depth index root ≡ true
        → (a ≡ b) ⊎ Clash index xs ys a b
    is_valid_merkle_branch_binding a b xs ys depth index root h ha hb hx hy p q =
        let left = (is_valid_merkle_branch_iff a xs depth index root h).0 p in
        let right = (is_valid_merkle_branch_iff b ys depth index root h).0 q in
        root_over-injective index xs ys a b (left.0 ∙ sym right.0) hx hy ha hb
          (left.1 ∙ sym right.1)
