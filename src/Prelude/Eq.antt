-- ===== src/Prelude/Eq.antt =====
-- Keys that can be compared: strings and numbers.
use Prim.Native.Nat.{ℕ}
use Prim.Native.String.{String}
use mathlib.Core.Path.{◌≡◌, refl}
use mathlib.Core.Logic.{◌↔◌}
use mathlib.Core.Bool.{Bool, true, false}
use mathlib.Core.Logic.{◌≢◌}
use text.Mathlib.Text.{◌==◌ as str_eq}
use text.Mathlib.TextEquality.{eq_iff}
use lamdis.Prelude.Tests.{eqb, eqb_iff}

-- A type with a Boolean test that decides its equality.
pub record Eq {ℓ} (K : Type ℓ) : Type ℓ where
  pub beq : K → K → Bool
  pub beq_iff : (x y : K) → (beq x y ≡ true) ↔ (x ≡ y)

module _ {ℓ} {K : Type ℓ} ⦃d : Eq K⦄ where
  infix 50 ◌==◌
  abbrev pub ◌==◌ : K → K → Bool
  x == y = d.beq x y

  pub beq_refl : (x : K) → d.beq x x ≡ true
  beq_refl x = (d.beq_iff x x).1 refl

  pub ne_of_beq : (x y : K) → d.beq x y ≡ false → x ≢ y
  ne_of_beq x y h q = cc ((d.beq_iff x y).1 q)

instance abbrev pub string_eq : Eq String
string_eq = record { beq = str_eq; beq_iff = eq_iff }

instance abbrev pub nat_eq : Eq ℕ
nat_eq = record { beq_iff = eqb_iff; beq = eqb }
