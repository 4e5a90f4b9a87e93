-- ===== src/Perm/Query.antt =====
-- perm/perm.go: what is asked of a folded state.
use lamdis.Prelude.{
  ℕ, String, Bool, true, false, ◌&&◌, Option, none, some, List, [], ◌∷◌, leb, ltb, if◌then◌else◌,
}
use lamdis.Prelude.Eq.{◌==◌, string_eq}
use lamdis.Prelude.Int.{ltb_ℤ}
use lamdis.Prelude.Map.{Map, lookup, has}
use lamdis.Prelude.Sort.{insertion_sort}
use lamdis.Log.Entry.{Lane}
use lamdis.Perm.Scope.{ScopeSet, lanes_of, every_scope}
use lamdis.Perm.State.{Time, State, AccessRequest}

-- the person that an agent key stands for, or the principal itself
unfoldable pub person_of : State → String → String
person_of st p = elim (lookup p st.delegations) [ none ↦ p | some person ↦ person ]

-- the copy loop of EffectiveScopes: every key of the set, with the value true
unfoldable pub copy_scopes : ScopeSet → ScopeSet
copy_scopes [] = []
copy_scopes ((s, _) ∷ rest) = (s, true) ∷ copy_scopes rest

-- `has && now.After(exp)`
unfoldable pub expired : Option Time → Time → Bool
expired none now = false
expired (some exp) now = ltb_ℤ exp now

-- EffectiveScopes, for the person
unfoldable pub scopes_of_person : State → String → Time → ScopeSet
scopes_of_person st p now = if has st.stewards p then every_scope else elim (lookup p st.grants) [
  | none ↦ []
  | some ss ↦ if expired (lookup p st.expiry) now then [] else copy_scopes ss
]

-- EffectiveScopes
unfoldable pub effective_scopes : State → String → Time → ScopeSet
effective_scopes st p now = scopes_of_person st (person_of st p) now

-- Lanes
unfoldable pub lanes : State → String → Time → List Lane
lanes st p now = lanes_of (effective_scopes st p now)

-- the lamport window of a principal that is no steward
unfoldable pub in_window : Option ℕ → Option ℕ → ℕ → Bool
in_window none denied lamport = false
in_window (some at) none lamport = if ltb lamport at then false else true
in_window (some at) (some end_at) lamport =
    if ltb lamport at then false else if leb at end_at && leb end_at lamport then false else true

-- MayContribute, for the person
unfoldable pub may_person_contribute : State → String → ℕ → Bool
may_person_contribute st p lamport =
    if has st.stewards p
    then true
    else in_window (lookup p st.contrib_at) (lookup p st.denied_at) lamport

-- MayContribute
unfoldable pub may_contribute : State → String → ℕ → Bool
may_contribute st p lamport = may_person_contribute st (person_of st p) lamport

-- ActsFor
unfoldable pub acts_for : State → String → String → Bool
acts_for st author principal =
    if author == principal
    then true
    else elim (lookup author st.delegations) [ none ↦ "" | some p ↦ p ] == principal

abbrev map_values : Map String AccessRequest → List AccessRequest
map_values [] = []
map_values ((_, r) ∷ m) = r ∷ map_values m

abbrev pub earlier : AccessRequest → AccessRequest → Bool
earlier a b = ltb a.lamport b.lamport

-- PendingRequests
unfoldable pub pending_requests : State → List AccessRequest
unfolding insertion_sort
pending_requests st = insertion_sort earlier (map_values st.requests)
