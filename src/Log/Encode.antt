-- ===== src/Log/Encode.antt =====
-- What json.Encoder writes for an entry whose body is canonical: the fields in the order of the
-- struct, those marked `omitempty` left out where they are empty, no HTML escaping.
use Prim.Native.String.{◌++◌}
use lamdis.Prelude.{
  ℕ, zero, suc, ◌/◌, ◌%◌, String, Option, none, some, List, [], ◌∷◌, ltb, if◌then◌else◌,
}
use lamdis.Prelude.Eq.{◌==◌, string_eq}
use lamdis.Prelude.Int.{ℤ, pos, negsuc}
use lamdis.Log.Base32.{digit_char}
use lamdis.Log.Canonical.{write_json_string}
use lamdis.Log.Entry.{Entry, Refs, Covers}

-- decimal digits in front of `tail`; a number has fewer digits than its size
decimal : ℕ → ℕ → String → String
unfolding digit_char
decimal zero n tail = tail
decimal (suc fuel) n tail =
    let text = String.◌∷◌ (digit_char "0123456789" (n % 10)) tail in
    let rest = decimal fuel (n / 10) text in if ltb n 10 then text else rest

show_ℕ : ℕ → String
unfolding decimal
show_ℕ n = decimal (suc n) n ""

show_ℤ : ℤ → String
unfolding show_ℕ
show_ℤ (pos n) = show_ℕ n
show_ℤ (negsuc n) = "-" ++ show_ℕ (suc n)

-- a member of a JSON object, with the comma before it
member : String → String → String
member name text = ",\"" ++ name ++ "\":" ++ text

string_member : String → String → String
unfolding member write_json_string
string_member name s = member name (write_json_string s)

omit_empty : String → String → String
unfolding string_member
omit_empty name s = if s == "" then "" else string_member name s

strings_rest : List String → String
unfolding write_json_string
strings_rest [] = "]"
strings_rest (s ∷ ss) = "," ++ write_json_string s ++ strings_rest ss

derived_member : List String → String
unfolding strings_rest member write_json_string
derived_member [] = ""
derived_member (s ∷ ss) = member "derived_from" ("[" ++ write_json_string s ++ strings_rest ss)

covers_member : Option Covers → String
unfolding member string_member write_json_string
covers_member none = ""
covers_member (some c) =
    member "covers" ("{\"from\":" ++ write_json_string c.from ++ string_member "to" c.to ++ "}")

-- the first member of an object has no comma before it
drop_comma : String → String
drop_comma String.[] = ""
drop_comma (String.◌∷◌ c s) = s

refs_member : Option Refs → String
unfolding derived_member omit_empty covers_member drop_comma member
refs_member none = ""
refs_member (some r) = member "refs" (
    "{"
    ++ drop_comma (
        derived_member r.derived_from
        ++ omit_empty "replies_to" r.replies_to
        ++ omit_empty "supersedes" r.supersedes
        ++ covers_member r.covers)
    ++ "}")

-- The entry's text, given its canonical body.
unfoldable pub encode_entry : Entry → String → String
unfolding show_ℤ show_ℕ string_member omit_empty refs_member member
encode_entry e body =
    "{\"v\":"
    ++ show_ℤ e.v
    ++ string_member "id" e.id
    ++ string_member "thread" e.thread
    ++ string_member "kind" e.kind
    ++ string_member "lane" e.lane
    ++ string_member "author" e.author
    ++ omit_empty "on_behalf_of" e.on_behalf_of
    ++ member "seq" (show_ℕ e.seq)
    ++ member "lamport" (show_ℕ e.lamport)
    ++ string_member "prev" e.prev
    ++ string_member "ts" e.ts
    ++ refs_member e.refs
    ++ member "body" body
    ++ omit_empty "sig" e.sig
    ++ "}"
