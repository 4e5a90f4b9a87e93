-- ===== src/Perm/Scope.antt =====
-- perm/perm.go: the four scopes, scope sets and the lanes that a scope set opens.
use lamdis.Prelude.{String, Bool, true, ◌||◌, List, [], ◌∷◌, eqb, if◌then◌else◌}
use lamdis.Prelude.Eq.{◌==◌, string_eq}
use lamdis.Prelude.Lists.{length}
use lamdis.Prelude.Map.{Map, insert, has}
use lamdis.Log.Entry.{Lane, lane_control, lane_summary, lane_content}

abbrev pub Scope : Type 0
Scope = String

abbrev pub scope_contribute : Scope
scope_contribute = "contribute"

abbrev pub scope_read : Scope
scope_read = "read"

abbrev pub scope_summary : Scope
scope_summary = "summary"

abbrev pub scope_search : Scope
scope_search = "search"

-- ValidScope
unfoldable pub valid_scope : Scope → Bool
valid_scope s = s == scope_contribute || s == scope_read || s == scope_summary || s == scope_search

abbrev pub ScopeSet : Type 0
ScopeSet = Map Scope Bool

-- ScopeSet.Lanes
unfoldable pub lanes_of : ScopeSet → List Lane
lanes_of ss =
    if eqb (length ss) 0
    then []
    else if has ss scope_read
    then lane_control ∷ lane_summary ∷ lane_content ∷ []
    else if has ss scope_summary
    then lane_control ∷ lane_summary ∷ []
    else lane_control ∷ []

-- the loop over a grant's scopes: the valid ones
unfoldable pub granted_scopes : List String → ScopeSet → ScopeSet
granted_scopes [] ss = ss
granted_scopes (s ∷ rest) ss = granted_scopes rest (if valid_scope s then insert s true ss else ss)

-- the scope set of a steward
abbrev pub every_scope : ScopeSet
every_scope =
    (scope_contribute, true)
    ∷ (scope_read, true)
    ∷ (scope_summary, true)
    ∷ (scope_search, true)
    ∷ []
