-- ===== src/Exec.antt =====
-- Calls that change a state and may fail. What was written before an error stays written.
use lamdis.Prelude.{◌≡◌, refl}
use lamdis.Result.{Error, Result, ok, err}

abbrev pub Exec {ℓ} : Type 0 → Type ℓ → Type ℓ
Exec S A = S → Result A × S

module _ {S : Type 0} where
  abbrev pub pure {ℓ} : {A : Type ℓ} → A → Exec S A
  pure a s = (ok a, s)

  abbrev pub fail {ℓ} : {A : Type ℓ} → Error → Exec S A
  fail e s = (err e, s)

  abbrev pub lift {ℓ} : {A : Type ℓ} → Result A → Exec S A
  lift r s = (r, s)

  abbrev pub continue {ℓ κ} : {A : Type ℓ} {B : Type κ} → Result A → (A → Exec S B) → Exec S B
  continue (ok a) f s = f a s
  continue (err e) f s = (err e, s)

  infixl 5 ◌>>=◌ ◌>>◌
  abbrev pub ◌>>=◌ {ℓ κ} : {A : Type ℓ} {B : Type κ} → Exec S A → (A → Exec S B) → Exec S B
  ◌>>=◌ m f s = continue (m s).0 f (m s).1

  abbrev pub ◌>>◌ {ℓ} : {B : Type ℓ} → Exec S (Unit {0}) → Exec S B → Exec S B
  m >> n = m >>= λ _. n

  -- the error, if there is one, becomes a value
  abbrev pub attempt {ℓ} : {A : Type ℓ} → Exec S A → Exec S (Result A)
  attempt m s = (ok (m s).0, (m s).1)

-- Inversion of a call that returned through a bind.
pub continue-eq-ok {ℓ κ} :
    {S : Type 0} {A : Type ℓ} {B : Type κ} (r : Result A) (f : A → Exec S B) (s : S) {b : B}
    → (continue r f s).0 ≡ ok b
    → (a : A) × (r ≡ ok a) × ((f a s).0 ≡ ok b)
continue-eq-ok (ok a) f s h = (a, refl, h)
continue-eq-ok (err e) f s h = cc
