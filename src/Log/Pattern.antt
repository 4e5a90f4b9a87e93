-- ===== src/Log/Pattern.antt =====
-- The four patterns of log/entry.go, as tests on the code points of a string.
use lamdis.Prelude.{
  ℕ, String, Bool, true, false, ◌&&◌, ◌||◌, List, [], ◌∷◌, leb, eqb, if◌then◌else◌,
}
use lamdis.Prelude.Lists.{length}
use lamdis.Prelude.Text.{codes}

unfoldable pub every : (ℕ → Bool) → List ℕ → Bool
every p [] = true
every p (c ∷ cs) = p c && every p cs

abbrev within : ℕ → ℕ → ℕ → Bool
within lo hi c = leb lo c && leb c hi

-- [0-9A-HJKMNP-TV-Z]
ulid_code : ℕ → Bool
ulid_code c =
    within b'0' b'9' c
    || within b'A' b'H' c
    || within b'J' b'K' c
    || within b'M' b'N' c
    || within b'P' b'T' c
    || within b'V' b'Z' c

match_ulid : List ℕ → Bool
unfolding every ulid_code
match_ulid [] = false
match_ulid (c ∷ cs) = within b'0' b'7' c && every ulid_code cs && eqb (length cs) 25

-- ^[0-7][0-9A-HJKMNP-TV-Z]{25}$
unfoldable pub is_ulid : String → Bool
unfolding match_ulid
is_ulid s = match_ulid (codes s)

unfoldable pub hex_code : ℕ → Bool
hex_code c = within b'0' b'9' c || within b'a' b'f' c

-- ^[0-9a-f]{64}$
unfoldable pub is_hash : String → Bool
unfolding every hex_code
is_hash s = every hex_code (codes s) && eqb (length (codes s)) 64

-- ^[0-9a-f]{128}$
unfoldable pub is_sig : String → Bool
unfolding every hex_code
is_sig s = every hex_code (codes s) && eqb (length (codes s)) 128

abbrev word_code : ℕ → Bool
word_code c = within b'a' b'z' c || within b'0' b'9' c

-- What is read of a kind: nothing of the first segment, some of it, nothing of a later segment, or
-- some of one.
pub data Segment : Type 0 where
  no_word word no_tail tail : Segment

match_kind : Segment → List ℕ → Bool
match_kind no_word [] = false
match_kind word [] = false
match_kind no_tail [] = false
match_kind tail [] = true
match_kind no_word (c ∷ cs) = word_code c && match_kind word cs
match_kind word (c ∷ cs) =
    (word_code c || eqb c b'.') && match_kind (if word_code c then word else no_tail) cs
match_kind no_tail (c ∷ cs) = (word_code c || eqb c b'_') && match_kind tail cs
match_kind tail (c ∷ cs) =
    (word_code c || eqb c b'_' || eqb c b'.')
    && match_kind (if eqb c b'.' then no_tail else tail) cs

-- ^[a-z0-9]+(\.[a-z0-9_]+)+$
unfoldable pub is_kind : String → Bool
unfolding match_kind
is_kind s = match_kind no_word (codes s)
