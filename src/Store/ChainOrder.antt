-- ===== src/Store/ChainOrder.antt =====
-- The order in which the rows of a thread are read back: by author, lane and sequence number.
use lamdis.Prelude.{◌≤◌, String, ◌≡◌, ap, Bool, true, false, not, ltb, arith, if◌then◌else◌}
use lamdis.Prelude.Eq.{◌==◌, string_eq}
use lamdis.Prelude.Text.{str_ltb, str_ltb_asymm, str_ltb_neg_trans, str_ltb_total}
use lamdis.Log.ChainKey.{ChainKey, key_of}
use lamdis.Log.Entry.{Entry}
use lamdis.Store.Sqlite.{chain_less}

-- a text in front of a later comparison
abbrev by_text : String → String → Bool → Bool
by_text a b later = if not (a == b) then str_ltb a b else later

by_text_asymm :
    (a b : String) (x y : Bool)
    → (x ≡ true → y ≡ false)
    → by_text a b x ≡ true
    → by_text b a y ≡ false
by_text_asymm a b x y f h =
    ground (arith, h, f, string_eq.beq_iff a b, string_eq.beq_iff b a, str_ltb_asymm a b)

by_text_neg_trans :
    (a b c : String) (x y z : Bool)
    → (x ≡ false → y ≡ false → z ≡ false)
    → by_text a b x ≡ false
    → by_text b c y ≡ false
    → by_text a c z ≡ false
by_text_neg_trans a b c x y z f h k = ground (
  arith,
  h,
  k,
  f,
  string_eq.beq_iff a b,
  string_eq.beq_iff b c,
  string_eq.beq_iff a c,
  str_ltb_neg_trans a b c,
  str_ltb_total a b,
  str_ltb_total b c,
  str_ltb_asymm a b,
  str_ltb_asymm a c,
  str_ltb_asymm b a,
  str_ltb_asymm b c,
)

pub chain_less_asymm : (a b : Entry) → chain_less a b ≡ true → chain_less b a ≡ false
chain_less_asymm a b =
    by_text_asymm a.author b.author (by_text a.lane b.lane (ltb a.seq b.seq))
      (by_text b.lane a.lane (ltb b.seq a.seq))
      (by_text_asymm a.lane b.lane (ltb a.seq b.seq) (ltb b.seq a.seq) (λ h. ground (arith, h)))

pub chain_less_neg_trans :
    (a b c : Entry) → chain_less a b ≡ false → chain_less b c ≡ false → chain_less a c ≡ false
chain_less_neg_trans a b c =
    by_text_neg_trans a.author b.author c.author (by_text a.lane b.lane (ltb a.seq b.seq))
      (by_text b.lane c.lane (ltb b.seq c.seq)) (by_text a.lane c.lane (ltb a.seq c.seq))
      (by_text_neg_trans a.lane b.lane c.lane (ltb a.seq b.seq) (ltb b.seq c.seq) (ltb a.seq c.seq)
        (λ h k. ground (arith, h, k)))

-- within a chain it is the order of the numbers
pub chain_less-le : (a b : Entry) → key_of a ≡ key_of b → chain_less b a ≡ false → a.seq ≤ b.seq
chain_less-le a b q h = ground (
  arith,
  h,
  ap (λ (k : ChainKey). k.author) q,
  ap (λ (k : ChainKey). k.lane) q,
  string_eq.beq_iff b.author a.author,
  string_eq.beq_iff b.lane a.lane,
)
