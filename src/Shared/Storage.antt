-- ===== src/Shared/Storage.antt =====
-- A storage map of a pallet: keys are numbers, a key that was never written has no value.
use Prim.Native.Nat.{ℕ}
use mathlib.Core.Path.{◌≡◌}
use mathlib.Core.Logic.{◌≢◌}
use mathlib.Core.Option.{Option, none, some}
use native.Mathlib.Omega.{arith}
use snowbridge.Shared.Tests.{◌==◌, if◌then◌else◌, is_some}
use mathlib.Core.Bool.{Bool}

abbrev pub StorageMap {ℓ} : Type ℓ → Type ℓ
StorageMap V = ℕ → Option V

module _ {ℓ} {V : Type ℓ} where
  abbrev pub insert : ℕ → V → StorageMap V → StorageMap V
  insert k v m j = if j == k then some v else m j

  -- `take` and `remove` of one key.
  abbrev pub remove : ℕ → StorageMap V → StorageMap V
  remove k m j = if j == k then none else m j

  abbrev pub contains_key : StorageMap V → ℕ → Bool
  contains_key m k = is_some (m k)

  -- `ValueQuery`: the default where nothing is stored.
  abbrev pub value_or : V → Option V → V
  value_or d none = d
  value_or d (some v) = v

  pub insert_self : (k : ℕ) (v : V) (m : StorageMap V) → insert k v m k ≡ some v
  insert_self k v m = ground arith

  pub insert_ne : (k j : ℕ) (v : V) (m : StorageMap V) → j ≢ k → insert k v m j ≡ m j
  insert_ne k j v m h = ground arith
