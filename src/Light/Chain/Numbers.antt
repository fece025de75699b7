-- ===== src/Light/Chain/Numbers.antt =====
-- Along a chain of headers the numbers go down by one, so that a search by a number ends.
use mathlib.Core.Path.{subst}
use snowbridge.Shared.{
  ℕ, zero, suc, ◌+◌, ◌<◌, some, ◌==◌, ◌≡◌, ◌≢◌, sym, ◌∙◌, ◌⊎◌, inl, inr, arith, Option-cases,
  Bool-cases,
}
use snowbridge.Shared.Bytes.{H256}
use snowbridge.Ethereum.Header.{Header}
use snowbridge.Light.{Setup, StoredHeader, Found, find_at_number, find_finalized_ancestor}
use snowbridge.Light.Chain.{
  Headers, Clash, Descends, HasParent, IsSound, ancestor_step, ancestor_none, ancestor_here_found,
  find_missing, find_further,
}

module _ (c : Setup) where
  pub ancestor-Descends :
      (headers : Headers) (hash : H256) (k : ℕ) {ancestor : H256} {header : Header}
      → IsSound c headers
      → find_finalized_ancestor headers hash k ≡ some (ancestor, header)
      → Descends c hash ancestor
  unfolding IsSound
  ancestor-Descends headers hash zero {ancestor} sound h =
      let (_, _, _, e) = ancestor_here_found headers hash h in
      subst (λ a. Descends c hash a) (sym e) Descends.itself
  ancestor-Descends headers hash (suc k) sound h = elim (Option-cases (headers hash)) [
    | inl e ↦ absurd (ground (arith, ancestor_none headers hash (suc k) e))
    | inr (stored, e) ↦ Descends.above stored.header (sound hash stored e).0 (
        ancestor-Descends headers stored.header.parent_hash k sound
          (sym (ancestor_step headers hash k e) ∙ h))
  ]

  -- The stored parent of a header has the number before, or a clash is found.
  parent_number :
      (headers : Headers) (hash : H256) (stored parent : StoredHeader)
      → IsSound c headers
      → headers hash ≡ some stored
      → headers stored.header.parent_hash ≡ some parent
      → Clash c ⊎ (parent.header.number + 1 ≡ stored.header.number)
  unfolding IsSound HasParent Clash
  parent_number headers hash stored parent sound e ep =
      let (_, _, has_parent) = sound hash stored e in
      let (q, eq, number) = has_parent in
      let (key, _, _) = sound stored.header.parent_hash parent ep in
      elim (Bool-cases (parent.header.number == q.number)) [
        | inl at ↦ inr (ground arith)
        | inr other ↦ inl (parent.header, q, key ∙ sym eq, ground arith)
      ]

  -- Each step of the walk goes down by one number, or a clash is found.
  pub ancestor_number :
      (headers : Headers) (hash : H256) (k : ℕ) (stored : StoredHeader) {ancestor : H256}
      {header : Header}
      → IsSound c headers
      → headers hash ≡ some stored
      → find_finalized_ancestor headers hash k ≡ some (ancestor, header)
      → Clash c ⊎ (header.number + k ≡ stored.header.number)
  ancestor_number headers hash zero stored sound e h =
      let (stored', at, header_e, _) = ancestor_here_found headers hash h in inr (ground arith)
  ancestor_number headers hash (suc k) stored sound e h =
      let walk = sym (ancestor_step headers hash k e) ∙ h in
      elim (Option-cases (headers stored.header.parent_hash)) [
        | inl ep ↦ absurd (ground (arith, ancestor_none headers stored.header.parent_hash k ep))
        | inr (parent, ep) ↦ elim (parent_number headers hash stored parent sound e ep) [
          | inl clash ↦ inl clash
          | inr below ↦
              elim (ancestor_number headers stored.header.parent_hash k parent sound ep walk) [
                | inl clash ↦ inl clash
                | inr rest ↦ inr (omega arith)
              ]
        ]
      ]

  -- With more fuel than the number of the first header, the search ends, or a clash is found.
  pub find_at_number_ends :
      (fuel : ℕ) (headers : Headers) (number : ℕ) (hash : H256) (stored : StoredHeader)
      → IsSound c headers
      → headers hash ≡ some stored
      → stored.header.number < fuel
      → Clash c ⊎ (find_at_number fuel headers number hash ≢ Found.spent)
  unfolding find_at_number IsSound HasParent
  find_at_number_ends zero headers number hash stored sound e lt = absurd (omega arith)
  find_at_number_ends (suc fuel) headers number hash stored sound e lt =
      elim (Bool-cases (stored.header.number == number)) [
        | inl at ↦ inr (λ h. ground arith)
        | inr other ↦ elim (Option-cases (headers stored.header.parent_hash)) [
          | inl ep ↦
              let (_, _, has_parent) = sound hash stored e in
              let (_, _, number_e) = has_parent in
              inr (λ h. ground (
                arith,
                find_missing fuel headers number stored.header.parent_hash ep (omega arith),
                find_further fuel headers number hash e other,
              ))
          | inr (parent, ep) ↦ elim (parent_number headers hash stored parent sound e ep) [
            | inl clash ↦ inl clash
            | inr below ↦
                elim (find_at_number_ends fuel headers number stored.header.parent_hash parent sound
                  ep (omega arith)) [
                    | inl clash ↦ inl clash
                    | inr ends ↦
                        inr (λ h. ends (sym (find_further fuel headers number hash e other) ∙ h))
                  ]
          ]
        ]
      ]
