-- ===== src/Log/TotalOrder.antt =====
-- Less is a strict total order on entries with different ids.
use lamdis.Prelude.{◌≡◌, ◌≢◌, true, false, List, [], ◌∷◌, arith}
use lamdis.Prelude.Eq.{string_eq}
use lamdis.Prelude.Lists.{All}
use lamdis.Prelude.Text.{str_ltb_trans, str_ltb_total, str_ltb_asymm, str_ltb_irrefl}
use lamdis.Log.Entry.{Entry, less}

pub less_irrefl : (a : Entry) → less a a ≡ false
unfolding less
less_irrefl a = ground (arith, str_ltb_irrefl a.author, str_ltb_irrefl a.id)

pub less_trans : (a b c : Entry) → less a b ≡ true → less b c ≡ true → less a c ≡ true
unfolding less
less_trans a b c h k = ground (
  arith,
  h,
  k,
  string_eq.beq_iff a.author b.author,
  string_eq.beq_iff b.author c.author,
  string_eq.beq_iff a.author c.author,
  str_ltb_trans a.author b.author c.author,
  str_ltb_trans a.id b.id c.id,
  str_ltb_asymm a.author b.author,
)

pub less_asymm : (a b : Entry) → less a b ≡ true → less b a ≡ false
unfolding less
less_asymm a b h = ground (
  arith,
  h,
  string_eq.beq_iff a.author b.author,
  string_eq.beq_iff b.author a.author,
  str_ltb_asymm a.author b.author,
  str_ltb_asymm a.id b.id,
)

-- Of two entries with different ids the one that is not below the other is above it.
pub less_total : (a b : Entry) → a.id ≢ b.id → less a b ≡ false → less b a ≡ true
unfolding less
less_total a b n h = ground (
  arith,
  h,
  n,
  string_eq.beq_iff a.author b.author,
  string_eq.beq_iff b.author a.author,
  str_ltb_total a.author b.author,
  str_ltb_total a.id b.id,
)

-- Every entry is below all later ones.
abbrev pub IsSorted : List Entry → Type 0
IsSorted [] = Unit
IsSorted (x ∷ xs) = All (λ y. less x y ≡ true) xs × IsSorted xs
