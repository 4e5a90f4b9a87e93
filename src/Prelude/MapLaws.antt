-- ===== src/Prelude/MapLaws.antt =====
-- Maps with one entry for each key: insertion and deletion keep them so, and their sizes.
use Prim.Native.Nat.{◌+◌, ◌<◌}
use mathlib.Core.Path.{◌≡◌, refl, ap}
use mathlib.Core.Logic.{inl, inr}
use mathlib.Core.Option.{none, some}
use mathlib.Core.List.{[], ◌∷◌}
use native.Mathlib.Omega.{arith}
use lamdis.Prelude.Tests.{Bool-cases}
use lamdis.Prelude.Eq.{Eq, ◌==◌, beq_refl}
use lamdis.Prelude.Map.{Map, lookup, insert, delete, size, lookup-insert, lookup-delete}

module _ {ℓ κ} {K : Type ℓ} {V : Type κ} ⦃e : Eq K⦄ where
  abbrev pub Distinct : Map K V → Type κ
  Distinct [] = Unit
  Distinct ((k, v) ∷ m) = (lookup k m ≡ none) × Distinct m

  pub insert-Distinct : (k : K) (v : V) (m : Map K V) → Distinct m → Distinct (insert k v m)
  unfolding insert
  insert-Distinct k v [] d = (unfold lookup in refl, tt)
  insert-Distinct k v ((j, w) ∷ m) d = elim (Bool-cases (j == k)) [
    | inl same ↦ rw same d
    | inr other ↦ rw other (
      ground (arith, d.0, lookup-insert k j v m, e.beq_iff j k, e.beq_iff k j),
      insert-Distinct k v m d.1,
    )
  ]

  pub delete-Distinct : (k : K) (m : Map K V) → Distinct m → Distinct (delete k m)
  unfolding delete
  delete-Distinct k [] d = tt
  delete-Distinct k ((j, w) ∷ m) d = elim (Bool-cases (j == k)) [
    | inl same ↦ rw same (delete-Distinct k m d.1)
    | inr other ↦ rw other (
      ground (arith, d.0, lookup-delete k j m, e.beq_iff j k, e.beq_iff k j),
      delete-Distinct k m d.1,
    )
  ]

  -- the second write of a key
  pub insert-insert : (k : K) (v w : V) (m : Map K V) → insert k v (insert k w m) ≡ insert k v m
  unfolding insert
  insert-insert k v w [] = rw (beq_refl k) refl
  insert-insert k v w ((j, u) ∷ m) = elim (Bool-cases (j == k)) [
    | inl same ↦ rw (same, same) refl
    | inr other ↦ rw (other, other) (ap (◌∷◌ (j, u)) (insert-insert k v w m))
  ]

  pub delete_absent : (k : K) (m : Map K V) → lookup k m ≡ none → delete k m ≡ m
  unfolding delete lookup
  delete_absent k [] h = refl
  delete_absent k ((j, w) ∷ m) h = elim (Bool-cases (j == k)) [
    | inl same ↦ absurd (ground (arith, same, h))
    | inr other ↦ rw other (ap (◌∷◌ (j, w)) (delete_absent k m (ground (arith, other, h))))
  ]

  pub size-delete :
      (k : K) (v : V) (m : Map K V)
      → Distinct m
      → lookup k m ≡ some v
      → size (delete k m) + 1 ≡ size m
  unfolding delete lookup
  size-delete k v [] d h = cc
  size-delete k v ((j, w) ∷ m) d h = elim (Bool-cases (j == k)) [
    | inl same ↦
        rw same (rw (delete_absent k m (ground (arith, same, d.0, e.beq_iff j k))) (omega arith))
    | inr other ↦ rw other (omega (arith, size-delete k v m d.1 (ground (arith, other, h))))
  ]

  pub size-insert_pos : (k : K) (v : V) (m : Map K V) → 0 < size (insert k v m)
  unfolding insert
  size-insert_pos k v [] = omega arith
  size-insert_pos k v ((j, w) ∷ m) = elim (Bool-cases (j == k)) [
    | inl same ↦ rw same (omega arith)
    | inr other ↦ rw other (omega arith)
  ]
