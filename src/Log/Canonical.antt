-- ===== src/Log/Canonical.antt =====
-- log/entry.go: the canonical encoding of a body. Keys are sorted at every depth, number literals
-- stay as written, strings are escaped as encoding/json does without HTML escaping.
use Prim.Native.Char.{Char, code}
use Prim.Native.String.{◌++◌}
use lamdis.Prelude.{ℕ, ◌/◌, ◌%◌, String, none, some, [], ◌∷◌, ltb, eqb, if◌then◌else◌}
use lamdis.Prelude.Eq.{string_eq}
use lamdis.Prelude.Text.{str_ltb}
use lamdis.Prelude.Map.{Map, lookup}
use lamdis.Json.{
  Value, null, bool, num, str, arr, obj, Items, nil, cons, Fields, end, field, RawMessage, blank,
  malformed, trailing, one,
}
use lamdis.Log.Base32.{digit_char}
use lamdis.Result.{Result, ok, err, body_required, invalid_json, trailing_data, not_an_object}

abbrev text_of : Char → String
text_of c = String.◌∷◌ c ""

abbrev hex_digit : ℕ → String
unfolding digit_char
hex_digit n = text_of (digit_char "0123456789abcdef" n)

-- one character inside a JSON string
escape : Char → String
unfolding digit_char
escape c =
    let n = code c in
    if eqb n 34
    then "\\\""
    else if eqb n 92
    then "\\\\"
    else if eqb n 8
    then "\\b"
    else if eqb n 12
    then "\\f"
    else if eqb n 10
    then "\\n"
    else if eqb n 13
    then "\\r"
    else if eqb n 9
    then "\\t"
    else if ltb n 32
    then "\\u00" ++ hex_digit (n / 16) ++ hex_digit (n % 16)
    else if eqb n 0x2028
    then "\\u2028"
    else if eqb n 0x2029
    then "\\u2029"
    else text_of c

escape_all : String → String
unfolding escape
escape_all String.[] = ""
escape_all (String.◌∷◌ c s) = escape c ++ escape_all s

-- writeJSONString
unfoldable pub write_json_string : String → String
unfolding escape_all
write_json_string s = "\"" ++ escape_all s ++ "\""

-- The keys of the decoded object in sorted order, each with what is written for its value; of a
-- repeated key the last value counts.
insert_sorted : String → String → Map String String → Map String String
insert_sorted k w [] = (k, w) ∷ []
insert_sorted k w ((j, x) ∷ m) =
    let rest = (j, x) ∷ insert_sorted k w m in if str_ltb k j then (k, w) ∷ (j, x) ∷ m else rest

unfoldable pub add_member : String → String → Map String String → Map String String
unfolding insert_sorted lookup
add_member k w m = elim (lookup k m) [ none ↦ insert_sorted k w m | some _ ↦ m ]

write_more : Map String String → String
write_more [] = "}"
write_more ((k, w) ∷ m) = "," ++ write_json_string k ++ ":" ++ w ++ write_more m

unfoldable pub write_members : Map String String → String
unfolding write_more write_json_string
write_members [] = "{}"
write_members ((k, w) ∷ m) = "{" ++ write_json_string k ++ ":" ++ w ++ write_more m

-- writeCanonical
unfoldable mutual
  unfolding write_members add_member write_json_string

  pub write_canonical : Value → String
  write_canonical null = "null"
  write_canonical (bool b) = if b then "true" else "false"
  write_canonical (num s) = s
  write_canonical (str s) = write_json_string s
  write_canonical (arr vs) = "[" ++ write_items vs
  write_canonical (obj fs) = write_members (members fs)

  pub write_items : Items → String
  write_items nil = "]"
  write_items (cons v vs) = write_canonical v ++ write_rest vs

  pub write_rest : Items → String
  write_rest nil = "]"
  write_rest (cons v vs) = "," ++ write_canonical v ++ write_rest vs

  pub members : Fields → Map String String
  members end = []
  members (field k v fs) = add_member k (write_canonical v) (members fs)

-- canonicalBody
unfoldable pub canonical_body : RawMessage → Result String
unfolding write_canonical
canonical_body blank = err body_required
canonical_body malformed = err invalid_json
canonical_body (trailing v) = err trailing_data
canonical_body (one (obj fs)) = ok (write_canonical (obj fs))
canonical_body (one v) = err not_an_object
