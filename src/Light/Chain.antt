-- ===== src/Light/Chain.antt =====
-- The chains of headers in the storage of parachain/pallets/ethereum-light-client/src/lib.rs.
pub mod Numbers
use mathlib.Core.Path.{subst}
use snowbridge.Shared.{
  ℕ, zero, suc, ◌+◌, ◌^◌, ◌<◌, none, some, ◌==◌, ◌≡◌, ◌≢◌, refl, ap, sym, ◌∙◌, ◌⊎◌, inl, inr, arith,
  Option-cases, Bool-cases, false,
}
use snowbridge.Shared.Bytes.{H256}
use snowbridge.Shared.Storage.{StorageMap, insert}
use snowbridge.Ethereum.Header.{Header}
use snowbridge.Light.{Setup, StoredHeader, Found, find_at_number, find_finalized_ancestor, hash_of}

abbrev pub Headers : Type 0
Headers = StorageMap StoredHeader

-- What one map has, the other has too.
unfoldable pub IsWithin : Headers → Headers → Type 0
IsWithin headers headers' =
    (hash : H256) (stored : StoredHeader) → headers hash ≡ some stored → headers' hash ≡ some stored

module _ (c : Setup) where
  -- Two headers with one hash and two numbers.
  unfoldable pub Clash : Type 0
  Clash = (p : Header) × (q : Header) × (hash_of c p ≡ hash_of c q) × (p.number ≢ q.number)

  -- A header whose parent's hash is that of a header with the number before.
  unfoldable pub HasParent : Header → Type 0
  HasParent header =
      (q : Header) × (hash_of c q ≡ header.parent_hash) × (q.number + 1 ≡ header.number)

  -- Every header is stored under its hash, has a number of 64 bits, and has a parent.
  unfoldable pub IsSound : Headers → Type 0
  IsSound headers =
      (hash : H256) (stored : StoredHeader)
      → headers hash ≡ some stored
      → (hash_of c stored.header ≡ hash) × (stored.header.number < 2 ^ 64) × HasParent stored.header

  -- From a header to one of its ancestors, by the hashes of the headers between.
  pub data Descends : H256 → H256 → Type 0 where
    itself : {hash : H256} → Descends hash hash
    above :
        {hash ancestor : H256} (header : Header)
        → hash_of c header ≡ hash
        → Descends header.parent_hash ancestor
        → Descends hash ancestor

  pub Descends-trans : {a b d : H256} → Descends a b → Descends b d → Descends a d
  Descends-trans itself y = y
  Descends-trans (above header e x) y = Descends.above header e (Descends-trans x y)

-- The steps of the walk.
ancestor_here :
    (headers : Headers) (hash : H256) {stored : StoredHeader}
    → headers hash ≡ some stored
    → find_finalized_ancestor headers hash 0 ≡ some (hash, stored.header)
unfolding find_finalized_ancestor
ancestor_here headers hash e = ground arith

pub ancestor_step :
    (headers : Headers) (hash : H256) (k : ℕ) {stored : StoredHeader}
    → headers hash ≡ some stored
    → find_finalized_ancestor headers hash (suc k)
      ≡ find_finalized_ancestor headers stored.header.parent_hash k
unfolding find_finalized_ancestor
ancestor_step headers hash k e = ground arith

pub ancestor_none :
    (headers : Headers) (hash : H256) (k : ℕ)
    → headers hash ≡ none
    → find_finalized_ancestor headers hash k ≡ none
unfolding find_finalized_ancestor
ancestor_none headers hash zero e = ground arith
ancestor_none headers hash (suc k) e = ground arith

-- A header that is found is stored, and what is found from its hash on starts with it.
pub ancestor_here_found :
    (headers : Headers) (hash : H256) {ancestor : H256} {header : Header}
    → find_finalized_ancestor headers hash 0 ≡ some (ancestor, header)
    → (stored : StoredHeader) × (headers hash ≡ some stored)
      × (stored.header ≡ header)
      × (ancestor ≡ hash)
ancestor_here_found headers hash h = elim (Option-cases (headers hash)) [
  | inl e ↦ ground (arith, ancestor_none headers hash 0 e)
  | inr (stored, e) ↦
      let found = ancestor_here headers hash e in (stored, e, ground arith, ground arith)
]

-- The item after more steps is the item after the rest of them, from where the first ones lead.
pub ancestor_split :
    (headers : Headers) (hash : H256) (k j : ℕ) {ancestor : H256} {header : Header}
    → find_finalized_ancestor headers hash k ≡ some (ancestor, header)
    → find_finalized_ancestor headers hash (k + j) ≡ find_finalized_ancestor headers ancestor j
ancestor_split headers hash zero j h =
    let (_, _, _, e) = ancestor_here_found headers hash h in
    let e1 : 0 + j ≡ j = (omega arith) in rw e1 (rw e refl)
ancestor_split headers hash (suc k) j h = elim (Option-cases (headers hash)) [
  | inl e ↦ ground (arith, ancestor_none headers hash (suc k) e)
  | inr (stored, e) ↦
      let e1 : suc k + j ≡ suc (k + j) = (omega arith) in
      rw e1 (
        ancestor_step headers hash (k + j) e
        ∙ ancestor_split headers stored.header.parent_hash k j
            (sym (ancestor_step headers hash k e) ∙ h))
]

-- A walk in a map is the same walk in a map that has more.
pub ancestor_within :
    (headers headers' : Headers) (hash : H256) (k : ℕ) {ancestor : H256} {header : Header}
    → IsWithin headers headers'
    → find_finalized_ancestor headers hash k ≡ some (ancestor, header)
    → find_finalized_ancestor headers' hash k ≡ some (ancestor, header)
unfolding IsWithin
ancestor_within headers headers' hash zero within h =
    let (stored, at, header_e, e) = ancestor_here_found headers hash h in
    ground (arith, ancestor_here headers' hash (within hash stored at))
ancestor_within headers headers' hash (suc k) within h = elim (Option-cases (headers hash)) [
  | inl e ↦ ground (arith, ancestor_none headers hash (suc k) e)
  | inr (stored, e) ↦
      ancestor_step headers' hash k (within hash stored e)
      ∙ ancestor_within headers headers' stored.header.parent_hash k within
          (sym (ancestor_step headers hash k e) ∙ h)
]

-- The search by a number finds an item of the walk that has the number.
pub find_at_number-ancestor :
    (fuel : ℕ) (headers : Headers) (number : ℕ) (hash : H256) {ancestor : H256}
    → find_at_number fuel headers number hash ≡ Found.found ancestor
    → (k : ℕ) × (header : Header) × (find_finalized_ancestor headers hash k
        ≡ some (ancestor, header))
      × (header.number ≡ number)
unfolding find_at_number
find_at_number-ancestor zero headers number hash h = cc
find_at_number-ancestor (suc fuel) headers number hash h = elim (Option-cases (headers hash)) [
  | inl e ↦ ground arith
  | inr (stored, e) ↦ elim (Bool-cases (stored.header.number == number)) [
    | inl at ↦ (0, stored.header, ground (arith, ancestor_here headers hash e), ground arith)
    | inr other ↦
        let (k, header, walk, at) =
          find_at_number-ancestor fuel headers number stored.header.parent_hash (ground arith) in
        (suc k, header, ancestor_step headers hash k e ∙ walk, at)
  ]
]

pub find_missing :
    (fuel : ℕ) (headers : Headers) (number : ℕ) (hash : H256)
    → headers hash ≡ none
    → 0 < fuel
    → find_at_number fuel headers number hash ≡ Found.not_found
unfolding find_at_number
find_missing zero headers number hash e lt = absurd (omega arith)
find_missing (suc fuel) headers number hash e lt = ground arith

pub find_further :
    (fuel : ℕ) (headers : Headers) (number : ℕ) (hash : H256) {stored : StoredHeader}
    → headers hash ≡ some stored
    → (stored.header.number == number) ≡ false
    → find_at_number (suc fuel) headers number hash
      ≡ find_at_number fuel headers number stored.header.parent_hash
unfolding find_at_number
find_further fuel headers number hash e other = ground arith

module _ (c : Setup) where
  pub insert-IsSound :
      (headers : Headers) (hash : H256) (stored : StoredHeader)
      → IsSound c headers
      → hash_of c stored.header ≡ hash
      → stored.header.number < 2 ^ 64
      → HasParent c stored.header
      → IsSound c (insert hash stored headers)
  unfolding IsSound
  insert-IsSound headers hash stored sound key small parent h x e = elim (Bool-cases (h == hash)) [
    | inl at ↦
        let here : stored ≡ x = (ground arith) in
        subst (λ y. (hash_of c y.header ≡ h) × (y.header.number < 2 ^ 64) × HasParent c y.header)
          here (ground arith, small, parent)
    | inr other ↦ sound h x (ground arith)
  ]

  pub within-IsSound :
      (headers headers' : Headers)
      → IsWithin headers headers'
      → IsSound c headers'
      → IsSound c headers
  unfolding IsSound IsWithin
  within-IsSound headers headers' within sound hash stored e =
      sound hash stored (within hash stored e)

-- What the walk finds is stored.
pub ancestor_stored :
    (headers : Headers) (hash : H256) (k : ℕ) {ancestor : H256} {header : Header}
    → find_finalized_ancestor headers hash k ≡ some (ancestor, header)
    → (stored : StoredHeader) × (headers ancestor ≡ some stored) × (stored.header ≡ header)
ancestor_stored headers hash zero h =
    let (stored, at, header_e, e) = ancestor_here_found headers hash h in
    (stored, ap headers e ∙ at, header_e)
ancestor_stored headers hash (suc k) h = elim (Option-cases (headers hash)) [
  | inl e ↦ absurd (ground (arith, ancestor_none headers hash (suc k) e))
  | inr (stored, e) ↦
      ancestor_stored headers stored.header.parent_hash k (sym (ancestor_step headers hash k e) ∙ h)
]
