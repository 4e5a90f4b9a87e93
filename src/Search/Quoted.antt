-- ===== src/Search/Quoted.antt =====
-- The text of a query read back by the rule of quoted strings: a doubled quote is a quote. The reader stands
-- for that rule and not for FTS5, which ends a string at a NUL.
use Prim.Native.Char.{Char, code}
use Prim.Native.String.{◌++◌ as append}
use text.Mathlib.TextLemmas.{nil-append, cons-append, append-nil, append_assoc}
use lamdis.Prelude.{
  String, ◌≡◌, refl, sym, ap, ◌∙◌, Bool, Option, none, some, List, [], ◌∷◌, eqb, Bool-cases, inl,
  inr, if◌then◌else◌,
}
use lamdis.Json.Unmarshal.{◌>>=◌}
use lamdis.Search.Query.{double_quotes, quoted, join_quoted, fields, fts_query}

-- where the reader stands: before a string, in one, or behind a quote in one
pub data Place : Type 0 where
  outside : Place
  inside : Place
  closing : Place

-- the rest of the word that is open, and the words behind it
abbrev pub Read : Type 0
Read = Option (String × List String)

abbrev consed : Char → Read → Read
consed c none = none
consed c (some (w, ws)) = some (String.◌∷◌ c w, ws)

abbrev opened : Read → Read
opened none = none
opened (some (w, ws)) = some ("", w ∷ ws)

is_quote : Char → Bool
is_quote c = eqb (code c) 34

-- the strings of a query: in quotes, a quote in them doubled, with a space between two
unfoldable pub read_words : Place → String → Read
unfolding is_quote
read_words outside String.[] = none
read_words outside (String.◌∷◌ c s) =
    let rest = read_words inside s in if is_quote c then opened rest else none
read_words inside String.[] = none
read_words inside (String.◌∷◌ c s) =
    let rest = read_words inside s in
    let closed = read_words closing s in if is_quote c then closed else consed c rest
read_words closing String.[] = some ("", [])
read_words closing (String.◌∷◌ c s) =
    let rest = read_words inside s in
    let next = read_words outside s in
    if is_quote c then consed c rest else if eqb (code c) 32 then next else none

abbrev put : String → Read → Read
put v none = none
put v (some (w, ws)) = some (append v w, ws)

put-nil : (r : Read) → put "" r ≡ r
put-nil none = refl
put-nil (some (w, ws)) = ap (λ (x : String). some (x, ws)) (nil-append w)

consed-put : (c : Char) (v : String) (r : Read) → consed c (put v r) ≡ put (String.◌∷◌ c v) r
consed-put c v none = refl
consed-put c v (some (w, ws)) = ap (λ (x : String). some (x, ws)) (sym (cons-append c v w))

quote_first : (rest : String) → append "\"" rest ≡ String.◌∷◌ "\"" rest
quote_first rest =
    cons-append "\"" "" rest ∙ ap (λ (x : String). String.◌∷◌ "\"" x) (nil-append rest)

-- inside a string, a word with its quotes doubled is read as the word
read_words-double_quotes :
    (v rest : String)
    → read_words inside (append (double_quotes v) (append "\"" rest))
      ≡ put v (read_words closing rest)
unfolding read_words double_quotes is_quote
read_words-double_quotes String.[] rest =
    rw (nil-append (append "\"" rest), quote_first rest) (sym (put-nil (read_words closing rest)))
read_words-double_quotes (String.◌∷◌ c v) rest = elim (Bool-cases (eqb (code c) 34)) [
  | inl q ↦
      rw
        (
          q,
          cons-append c (String.◌∷◌ c (double_quotes v)) (append "\"" rest),
          cons-append c (double_quotes v) (append "\"" rest),
          q,
          read_words-double_quotes v rest,
        )
        (consed-put c v (read_words closing rest))
  | inr q ↦
      rw (q, cons-append c (double_quotes v) (append "\"" rest), q, read_words-double_quotes v rest)
        (consed-put c v (read_words closing rest))
]

space_first : (rest : String) → append " " rest ≡ String.◌∷◌ " " rest
space_first rest = cons-append " " "" rest ∙ ap (λ (x : String). String.◌∷◌ " " x) (nil-append rest)

read_words-quoted :
    (v rest : String)
    → read_words outside (append (quoted v) rest) ≡ opened (put v (read_words closing rest))
unfolding read_words quoted is_quote
read_words-quoted v rest =
    rw
      (
        quote_first (append (double_quotes v) "\""),
        cons-append "\"" (append (double_quotes v) "\"") rest,
        append_assoc (double_quotes v) "\"" rest,
        read_words-double_quotes v rest,
      )
      refl

-- the words of a text of quoted words, joined by spaces
read_words-join_quoted :
    (v : String) (ws : List String) → read_words outside (join_quoted (v ∷ ws)) ≡ some ("", v ∷ ws)
unfolding join_quoted read_words is_quote
read_words-join_quoted v [] =
    rw (sym (append-nil (quoted v)), read_words-quoted v "")
      (ap (λ (x : String). some ("", x ∷ [])) (append-nil v))
read_words-join_quoted v (w ∷ ws) =
    rw
      (
        read_words-quoted v (append " " (join_quoted (w ∷ ws))),
        space_first (join_quoted (w ∷ ws)),
        read_words-join_quoted w ws,
      )
      (ap (λ (x : String). some ("", x ∷ w ∷ ws)) (append-nil v))

-- the query's strings; the empty query has none
unfoldable pub read_query : String → Option (List String)
unfolding read_words
read_query String.[] = some []
read_query (String.◌∷◌ c s) = do r ← read_words outside (String.◌∷◌ c s); some r.1

join_quoted_first :
    (v : String) (ws : List String)
    → (rest : String) × (join_quoted (v ∷ ws) ≡ String.◌∷◌ "\"" rest)
unfolding join_quoted quoted
join_quoted_first v [] =
    (append (double_quotes v) "\"", quote_first (append (double_quotes v) "\""))
join_quoted_first v (w ∷ ws) = (
  append (append (double_quotes v) "\"") (append " " (join_quoted (w ∷ ws))),
  rw (quote_first (append (double_quotes v) "\"")) (cons-append "\"" _ _),
)

read_query-join_quoted : (ws : List String) → read_query (join_quoted ws) ≡ some ws
unfolding read_query join_quoted
read_query-join_quoted [] = refl
read_query-join_quoted (v ∷ ws) =
    let (rest, q) = join_quoted_first v ws in
    let read : read_words outside (String.◌∷◌ "\"" rest) ≡ some ("", v ∷ ws) =
      ap (read_words outside) (sym q) ∙ read_words-join_quoted v ws in
    ap read_query q ∙ rw (read, read_query) refl

-- By the rule of quoted strings, the text that the full-text index is asked for reads back as the words
-- of the query, in order.
pub read_query-fts_query : (q : String) → read_query (fts_query q) ≡ some (fields q)
unfolding fts_query
read_query-fts_query q = read_query-join_quoted (fields q)
