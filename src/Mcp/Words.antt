-- ===== src/Mcp/Words.antt =====
-- mcp/server.go: the texts that the tools answer with.
use Prim.Native.String.{◌++◌ as append}
use lamdis.Prelude.{ℕ, zero, suc, String, not, List, [], ◌∷◌, ltb, if◌then◌else◌}
use lamdis.Prelude.Eq.{◌==◌, string_eq}
use lamdis.Prelude.Lists.{length}
use lamdis.Prelude.Map.{Map}
use lamdis.Prelude.Text.{codes}
use lamdis.Json.{RawMessage, Fields, one, obj, str, field, end}
use lamdis.Json.Unmarshal.{is_field}
use lamdis.Log.Entry.{Entry}
use lamdis.Perm.State.{AccessRequest}

-- strings.Join
unfoldable pub join : String → List String → String
join sep [] = ""
join sep (s ∷ []) = s
join sep (s ∷ t ∷ rest) = append s (append sep (join sep (t ∷ rest)))

-- what a strings.Builder holds after the texts were written
unfoldable pub concat : List String → String
concat [] = ""
concat (s ∷ rest) = append s (concat rest)

-- the builder's text, or another where it is empty
unfoldable pub or_text : String → String → String
or_text empty_text text = if text == "" then empty_text else text

unfoldable pub take_text : ℕ → String → String
take_text zero s = ""
take_text (suc n) String.[] = ""
take_text (suc n) (String.◌∷◌ c s) = String.◌∷◌ c (take_text n s)

-- short; a principal is ASCII, so its bytes are its code points
unfoldable pub short : String → String
unfolding take_text
short principal =
    if ltb 20 (length (codes principal)) then append (take_text 20 principal) "…" else principal

-- json.Unmarshal into a struct with a text member of this name; the error is not looked at, and a member
-- of another type leaves the text as it is
unfoldable pub text_in : String → Fields → String → String
unfolding is_field
text_in name end old = old
text_in name (field k (str s) rest) old = text_in name rest (if is_field k name then s else old)
text_in name (field k _ rest) old = text_in name rest old

unfoldable pub member_text : String → RawMessage → String
unfolding text_in
member_text name (one (obj fs)) = text_in name fs ""
member_text name _ = ""

-- entryText
unfoldable pub entry_text : Entry → String
unfolding member_text
entry_text e =
    if not (member_text "text" e.body == "")
    then member_text "text" e.body
    else if not (member_text "title" e.body == "")
    then member_text "title" e.body
    else append "(" (append e.kind ")")

-- a line of read_thread
unfoldable pub entry_line : Entry → String
unfolding short entry_text concat
entry_line e = concat (
    "["
    ∷ e.lane
    ∷ "|"
    ∷ e.kind
    ∷ "] "
    ∷ e.ts
    ∷ " "
    ∷ short e.author
    ∷ ": "
    ∷ entry_text e
    ∷ "\n"
    ∷ [])

unfoldable pub entry_lines : List Entry → List String
unfolding entry_line
entry_lines [] = []
entry_lines (e ∷ es) = entry_line e ∷ entry_lines es

-- a line of list_access_requests; `%q` quotes the title
unfoldable pub request_line : (String → String) → String × AccessRequest → String
unfolding short join concat
request_line quote (title, r) = concat (
    short r.principal
    ∷ " wants "
    ∷ join "," r.scopes
    ∷ " on "
    ∷ quote title
    ∷ " — "
    ∷ r.reason
    ∷ "\n"
    ∷ [])

unfoldable pub request_lines : (String → String) → List (String × AccessRequest) → List String
unfolding request_line
request_lines quote [] = []
request_lines quote (r ∷ rest) = request_line quote r ∷ request_lines quote rest

-- a line of list_threads
unfoldable pub title_lines : List (String × String) → List String
unfolding concat
title_lines [] = []
title_lines ((id, title) ∷ rest) = concat (id ∷ "  " ∷ title ∷ "\n" ∷ []) ∷ title_lines rest

-- the peers of whoami
unfoldable pub peer_words : Map String String → List String
unfolding concat
peer_words [] = []
peer_words ((name, url) ∷ rest) = concat (name ∷ " -> " ∷ url ∷ []) ∷ peer_words rest
