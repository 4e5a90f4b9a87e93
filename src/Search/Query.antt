-- ===== src/Search/Query.antt =====
-- store/sqlite.go: the text of a query. Each word is quoted for FTS5.
use Prim.Native.Char.{code}
use Prim.Native.String.{◌++◌ as append}
use lamdis.Prelude.{String, List, [], ◌∷◌, eqb, if◌then◌else◌}
use lamdis.Prelude.Eq.{◌==◌, string_eq}
use lamdis.Owner.Words.{is_space}

-- the first word that is open, and the words behind it: a space ends the word
unfoldable pub split_words : String → String × List String
unfolding is_space
split_words String.[] = ("", [])
split_words (String.◌∷◌ c s) =
    let rest = split_words s in
    if is_space (code c)
    then ("", (if rest.0 == "" then rest.1 else rest.0 ∷ rest.1))
    else (String.◌∷◌ c rest.0, rest.1)

-- strings.Fields
unfoldable pub fields : String → List String
unfolding split_words
fields s = let words = split_words s in if words.0 == "" then words.1 else words.0 ∷ words.1

-- strings.ReplaceAll of a quote by two
unfoldable pub double_quotes : String → String
double_quotes String.[] = ""
double_quotes (String.◌∷◌ c s) =
    let rest = double_quotes s in
    if eqb (code c) 34 then String.◌∷◌ c (String.◌∷◌ c rest) else String.◌∷◌ c rest

unfoldable pub quoted : String → String
unfolding double_quotes
quoted s = append "\"" (append (double_quotes s) "\"")

-- the words quoted, and joined by spaces
unfoldable pub join_quoted : List String → String
unfolding quoted
join_quoted [] = ""
join_quoted (w ∷ []) = quoted w
join_quoted (w ∷ v ∷ rest) = append (quoted w) (append " " (join_quoted (v ∷ rest)))

-- ftsQuery
unfoldable pub fts_query : String → String
unfolding fields join_quoted
fts_query q = join_quoted (fields q)
