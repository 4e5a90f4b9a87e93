-- ===== src/Prelude/Map.antt =====
-- Go's maps, as association lists with one entry for each key. Iteration follows the list: Go's
-- order is unspecified, so what the program does with a map must not depend on it.
use mathlib.Core.Path.{◌≡◌}
use mathlib.Core.Bool.{Bool, false}
use mathlib.Core.Option.{Option, none, some}
use mathlib.Core.List.{List, [], ◌∷◌, map}
use native.Mathlib.Omega.{arith}
use Prim.Native.Nat.{ℕ}
use lamdis.Prelude.Tests.{if◌then◌else◌}
use lamdis.Prelude.Lists.{length}
use lamdis.Prelude.Eq.{Eq, ◌==◌}

abbrev pub Map {ℓ κ} : Type ℓ → Type κ → Type (ℓ ⊔ κ)
Map K V = List (K × V)

abbrev pub empty {ℓ κ} : {K : Type ℓ} {V : Type κ} → Map K V
empty = []

abbrev pub keys {ℓ κ} : {K : Type ℓ} {V : Type κ} → Map K V → List K
keys m = map (λ e. e.0) m

-- `len(m)`
abbrev pub size {ℓ κ} : {K : Type ℓ} {V : Type κ} → Map K V → ℕ
size m = length m

module _ {ℓ κ} {K : Type ℓ} {V : Type κ} ⦃e : Eq K⦄ where
  -- `v, ok := m[k]`
  unfoldable pub lookup : K → Map K V → Option V
  lookup k [] = none
  lookup k ((j, v) ∷ m) = if j == k then some v else lookup k m

  -- `m[k] = v`
  unfoldable pub insert : K → V → Map K V → Map K V
  insert k v [] = (k, v) ∷ []
  insert k v ((j, w) ∷ m) = if j == k then (j, v) ∷ m else (j, w) ∷ insert k v m

  -- `delete(m, k)`
  unfoldable pub delete : K → Map K V → Map K V
  delete k [] = []
  delete k ((j, w) ∷ m) = let rest = delete k m in if j == k then rest else (j, w) ∷ rest

  pub lookup-insert :
      (k j : K) (new : V) (m : Map K V)
      → lookup j (insert k new m) ≡ (if k == j then some new else lookup j m)
  unfolding insert lookup
  lookup-insert k j new [] = ground arith
  lookup-insert k j new ((i, old) ∷ rest) =
      ground (lookup-insert k j new rest, arith, e.beq_iff i j, e.beq_iff i k, e.beq_iff k j)

  pub lookup-delete :
      (k j : K) (m : Map K V) → lookup j (delete k m) ≡ (if k == j then none else lookup j m)
  unfolding delete lookup
  lookup-delete k j [] = ground arith
  lookup-delete k j ((i, old) ∷ rest) =
      ground (arith, lookup-delete k j rest, e.beq_iff i k, e.beq_iff i j, e.beq_iff k j)

pub ruleset map_laws = (lookup-insert, lookup-delete)

module _ {ℓ} {K : Type ℓ} ⦃e : Eq K⦄ where
  -- `m[k]` on a `map[K]bool`: false where the key is missing.
  abbrev pub has : Map K Bool → K → Bool
  has m k = elim (lookup k m) [ none ↦ false | some b ↦ b ]
