-- ===== src/Shared/Exec.antt =====
-- A call of a pallet: it reads and writes the pallet's storage and returns a `Result`. What was
-- written before an error stays written, unless the call is transactional.
use mathlib.Core.Bool.{Bool}
use snowbridge.Shared.Outcome.{Result, ok, err, ensure}

abbrev pub Exec {ℓ} : Type ℓ → Type ℓ → Type ℓ → Type ℓ
Exec S E A = S → Result E A × S

module _ {ℓ} {S E A : Type ℓ} where
  abbrev pub pure : A → Exec S E A
  pure a s = (ok a, s)

  abbrev pub lift : Result E A → Exec S E A
  lift r s = (r, s)

  abbrev pub gets : (S → A) → Exec S E A
  gets f s = (ok (f s), s)

  abbrev pub fail : E → Exec S E A
  fail e s = (err e, s)

  -- `#[transactional]`: an error undoes what the call wrote.
  abbrev pub transactional : Exec S E A → Exec S E A
  transactional m s = let (r, s') = m s in elim r [ ok a ↦ (ok a, s') | err e ↦ (err e, s) ]

abbrev pub modify : {S E : Type 0} → (S → S) → Exec S E Unit
modify f s = (ok tt, f s)

abbrev pub require : {S E : Type 0} → Bool → E → Exec S E Unit
require b e s = (ensure b e, s)

module _ {ℓ} {S E A B : Type ℓ} where
  infixl 5 ◌>>=◌ ◌>>◌
  abbrev pub ◌>>=◌ : Exec S E A → (A → Exec S E B) → Exec S E B
  ◌>>=◌ m f s = let (r, s') = m s in elim r [ ok a ↦ f a s' | err e ↦ (err e, s') ]

  abbrev pub ◌>>◌ : Exec S E A → Exec S E B → Exec S E B
  m >> k = m >>= λ _. k
