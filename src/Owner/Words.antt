-- ===== src/Owner/Words.antt =====
-- cmd/lamdis/main.go: the lists of scopes on the command line, with what strings.Split and
-- strings.TrimSpace make of them.
use Prim.Native.Char.{code}
use lamdis.Prelude.{ℕ, String, Bool, ◌||◌, ◌&&◌, List, [], ◌∷◌, leb, eqb, if◌then◌else◌}
use lamdis.Result.{Result, ok, err, ◌>>=◌, invalid_scope}
use lamdis.Perm.Scope.{valid_scope}

-- `strings.Split(s, ",")`: one piece at least
unfoldable pub split_commas : String → List String
split_commas String.[] = "" ∷ []
split_commas (String.◌∷◌ c s) =
    let rest = split_commas s in
    if eqb (code c) 44
    then "" ∷ rest
    else elim rest [ [] ↦ String.◌∷◌ c "" ∷ [] | w ∷ ws ↦ String.◌∷◌ c w ∷ ws ]

-- unicode.IsSpace
unfoldable pub is_space : ℕ → Bool
is_space c =
    (leb 9 c && leb c 13)
    || eqb c 32
    || eqb c 0x85
    || eqb c 0xa0
    || eqb c 0x1680
    || (leb 0x2000 c && leb c 0x200a)
    || eqb c 0x2028
    || eqb c 0x2029
    || eqb c 0x202f
    || eqb c 0x205f
    || eqb c 0x3000

unfoldable pub trim_left : String → String
unfolding is_space
trim_left String.[] = ""
trim_left (String.◌∷◌ c s) =
    let rest = trim_left s in if is_space (code c) then rest else String.◌∷◌ c s

unfoldable pub trim_right : String → String
unfolding is_space
trim_right String.[] = ""
trim_right (String.◌∷◌ c s) = elim (trim_right s) [
  | String.[] ↦ if is_space (code c) then "" else String.◌∷◌ c ""
  | String.◌∷◌ d rest ↦ String.◌∷◌ c (String.◌∷◌ d rest)
]

-- strings.TrimSpace
unfoldable pub trim_space : String → String
unfolding trim_left trim_right
trim_space s = trim_right (trim_left s)

-- the loop of cmdGrant, cmdRequest and cmdApprove over the pieces
unfoldable pub read_pieces : List String → Result (List String)
unfolding trim_space
read_pieces [] = ok []
read_pieces (w ∷ ws) =
    if valid_scope (trim_space w)
    then (do rest ← read_pieces ws; ok (trim_space w ∷ rest))
    else err invalid_scope

unfoldable pub read_scopes : String → Result (List String)
unfolding read_pieces split_commas
read_scopes s = read_pieces (split_commas s)
