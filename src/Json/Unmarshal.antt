-- ===== src/Json/Unmarshal.antt =====
-- json.Unmarshal into a struct. A key finds a struct field whatever the case of its letters, a
-- `null` leaves a field as it is, an unknown key is skipped, and a value of the wrong type makes
-- the whole call an error.
use lamdis.Prelude.{
  ℕ, zero, suc, ◌+◌, ◌-◌, ◌*◌, ◌^◌, String, Bool, true, false, ◌&&◌, Option, none, some, List, [],
  ◌∷◌, ltb, leb, eqb, if◌then◌else◌,
}
use lamdis.Prelude.Int.{ℤ, pos, negsuc}
use lamdis.Prelude.Text.{codes}
use lamdis.Json.{Value, null, bool, num, str, arr, obj, Items, nil, cons, Fields, end, field}
use lamdis.Json.{RawMessage, one}

infixl 5 ◌>>=◌
abbrev pub ◌>>=◌ {ℓ κ} : {A : Type ℓ} {B : Type κ} → Option A → (A → Option B) → Option B
none >>= f = none
some a >>= f = f a

-- The fold of a code point under which field names are compared: ASCII letters, and the two
-- code points outside ASCII that fold into it (long s and the Kelvin sign).
fold_code : ℕ → ℕ
fold_code c =
    if leb 65 c && leb c 90
    then c + 32
    else if eqb c 0x17f
    then 115
    else if eqb c 0x212a
    then 107
    else c

eq_folded : List ℕ → List ℕ → Bool
unfolding fold_code
eq_folded [] [] = true
eq_folded (a ∷ as') (b ∷ bs) = eqb (fold_code a) (fold_code b) && eq_folded as' bs
eq_folded _ _ = false

unfoldable pub is_field : String → String → Bool
unfolding eq_folded
is_field key name = eq_folded (codes key) (codes name)

module _ {T : Type 0} (set : String → Value → T → Option T) where
  pub set_fields : Fields → T → Option T
  set_fields end t = some t
  set_fields (field k v fs) t = do t' ← set k v t; set_fields fs t'

  -- `json.Unmarshal(raw, &t)`, `none` for an error.
  unfoldable pub unmarshal : RawMessage → T → Option T
  unfolding set_fields
  unmarshal (one null) t = some t
  unmarshal (one (obj fs)) t = set_fields fs t
  unmarshal _ t = none

-- A value into a field of type `string`.
unfoldable pub to_string : Value → String → Option String
to_string (str s) old = some s
to_string null old = some old
to_string _ old = none

-- A value into a field of type `bool`.
unfoldable pub to_bool : Value → Bool → Option Bool
to_bool (bool b) old = some b
to_bool null old = some old
to_bool _ old = none

unfoldable pub strings_of : Items → Option (List String)
unfolding to_string
strings_of nil = some []
strings_of (cons v vs) = do s ← to_string v ""; rest ← strings_of vs; some (s ∷ rest)

-- A value into a field of type `[]string`.
unfoldable pub to_strings : Value → List String → Option (List String)
unfolding strings_of
to_strings (arr vs) old = strings_of vs
to_strings null old = some []
to_strings _ old = none

digits : ℕ → List ℕ → Option ℕ
digits n [] = some n
digits n (c ∷ cs) = if leb 48 c && leb c 57 then digits (n * 10 + (c - 48)) cs else none

negate : ℕ → ℤ
negate zero = pos 0
negate (suc n) = negsuc n

-- strconv.ParseInt(literal, 10, 64) on a JSON number: no fraction, no exponent, 64 bits.
parse_int64 : List ℕ → Option ℤ
unfolding digits negate
parse_int64 [] = none
parse_int64 (c ∷ cs) =
    if eqb c 45
    then (do n ← digits 0 cs; if leb n (2 ^ 63) then some (negate n) else none)
    else do n ← digits 0 (c ∷ cs); if ltb n (2 ^ 63) then some (pos n) else none

-- A value into a field of type `int64`.
unfoldable pub to_int64 : Value → ℤ → Option ℤ
unfolding parse_int64
to_int64 (num s) old = parse_int64 (codes s)
to_int64 null old = some old
to_int64 _ old = none
