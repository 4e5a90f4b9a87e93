-- ===== src/Owner/Granted.antt =====
-- What a grant's scopes become: the body that is read back, the set, and the effective scopes.
use lamdis.Prelude.{
  ◌<◌, String, ◌≡◌, ◌≢◌, refl, sym, ap, ◌∙◌, if◌then◌else◌, true, false, Option, none, some, List,
  [], ◌∷◌, arith, inl, inr, Bool-cases, leb, eqb,
}
use lamdis.Prelude.Eq.{◌==◌, string_eq}
use lamdis.Prelude.Int.{pos}
use lamdis.Prelude.Lists.{length, All, In, here, there, All-In, All-of_In}
use lamdis.Prelude.Map.{lookup, insert, delete, has, empty, lookup-insert, lookup-delete}
use lamdis.Json.{one, obj, end}
use lamdis.Json.Bodies.{GrantBody, decode_grant}
use lamdis.Json.Unmarshal.{strings_of}
use lamdis.Log.Entry.{Entry}
use lamdis.Perm.Apply.{may_decide, apply_grant, grant_of, write_grant, last_denied, note_expiry}
use lamdis.Perm.Hidden.{person_of_self}
use lamdis.Perm.Query.{person_of, effective_scopes, scopes_of_person, copy_scopes, expired}
use lamdis.Perm.Scope.{
  scope_contribute, scope_read, scope_summary, scope_search, ScopeSet, valid_scope, granted_scopes,
  every_scope,
}
use lamdis.Perm.State.{Time, State}
use lamdis.Sync.Client.{string_items}
use lamdis.Owner.Control.{all_valid, grant_fields}

strings_of-string_items : (ss : List String) → strings_of (string_items ss) ≡ some ss
unfolding strings_of string_items
strings_of-string_items [] = refl
strings_of-string_items (s ∷ ss) = rw (strings_of-string_items ss) refl

-- the body of a grant, read back
pub decode_grant-grant_fields :
    (p request : String) (scopes : List String)
    → decode_grant (one (obj (grant_fields p request scopes end)))
      ≡ some (record { principal = p; scopes = scopes; ttl_seconds = pos 0; request = request })
unfolding decode_grant grant_fields
decode_grant-grant_fields p request scopes = elim (Bool-cases (request == "")) [
  | inl q ↦ rw q (
      rw (strings_of-string_items scopes) (
        ap
          (λ (r : String).
            some (record { principal = p; scopes = scopes; ttl_seconds = pos 0; request = r }))
          (sym ((string_eq.beq_iff request "").0 q))))
  | inr q ↦ rw q (rw (strings_of-string_items scopes) refl)
]

granted_scopes-old :
    (scopes : List String) (ss : ScopeSet) (s : String)
    → has ss s ≡ true
    → has (granted_scopes scopes ss) s ≡ true
unfolding granted_scopes
granted_scopes-old [] ss s h = h
granted_scopes-old (x ∷ rest) ss s h =
    granted_scopes-old rest (if valid_scope x then insert x true ss else ss) s
      (ground (arith, h, lookup-insert x s true ss))

-- every scope of a valid list is in its set
pub granted_scopes-has :
    (scopes : List String) (ss : ScopeSet)
    → all_valid scopes ≡ true
    → All (λ s. has (granted_scopes scopes ss) s ≡ true) scopes
unfolding granted_scopes all_valid
granted_scopes-has [] ss v = tt
granted_scopes-has (x ∷ rest) ss v = (
  granted_scopes-old rest (if valid_scope x then insert x true ss else ss) x
      (ground (arith, v, lookup-insert x x true ss, string_eq.beq_iff x x)),
  granted_scopes-has rest (if valid_scope x then insert x true ss else ss) (ground (arith, v)),
)

copy_scopes-has : (ss : ScopeSet) (s : String) → has ss s ≡ true → has (copy_scopes ss) s ≡ true
unfolding copy_scopes lookup
copy_scopes-has [] s h = h
copy_scopes-has ((k, v) ∷ rest) s h = ground (arith, h, copy_scopes-has rest s)

every_scope-has : (s : String) → valid_scope s ≡ true → has every_scope s ≡ true
unfolding valid_scope lookup
every_scope-has s v = ground (
  arith,
  v,
  string_eq.beq_iff s scope_contribute,
  string_eq.beq_iff s scope_read,
  string_eq.beq_iff s scope_summary,
  string_eq.beq_iff s scope_search,
  string_eq.beq_iff scope_contribute s,
  string_eq.beq_iff scope_read s,
  string_eq.beq_iff scope_summary s,
  string_eq.beq_iff scope_search s,
)

has-nonempty : (ss : ScopeSet) (s : String) → has ss s ≡ true → eqb (length ss) 0 ≡ false
unfolding lookup
has-nonempty [] s h = cc
has-nonempty (x ∷ ss) s h = ground arith

set-nonempty :
    (scopes : List String)
    → eqb (length scopes) 0 ≡ false
    → all_valid scopes ≡ true
    → eqb (length (granted_scopes scopes empty)) 0 ≡ false
set-nonempty [] n v = cc
set-nonempty (x ∷ rest) n v = has-nonempty _ x (granted_scopes-has (x ∷ rest) empty v).0

all_valid-In :
    (scopes : List String) (s : String)
    → all_valid scopes ≡ true
    → In s scopes
    → valid_scope s ≡ true
unfolding all_valid
all_valid-In (x ∷ rest) s v (here q) = rw q (ground (arith, v))
all_valid-In (x ∷ rest) s v (there i) = all_valid-In rest s (ground (arith, v)) i
all_valid-In [] s v i = elim i [ ]

module _ (parse_time : String → Option Time) (st : State) (e : Entry) (p request : String)
    (scopes : List String) where
  abbrev body : GrantBody
  body = record { principal = p; scopes = scopes; ttl_seconds = pos 0; request = request }

  abbrev written : State
  written = write_grant parse_time st e body (granted_scopes scopes empty)

  apply_grant-written :
      may_decide st e ≡ true
      → decode_grant e.body ≡ some body
      → p ≢ ""
      → last_denied st p < e.lamport
      → eqb (length scopes) 0 ≡ false
      → all_valid scopes ≡ true
      → apply_grant parse_time st e ≡ written
  unfolding apply_grant grant_of
  apply_grant-written open_ q named late some_ valid =
      let n : (p == "") ≡ false = ground (arith, named, string_eq.beq_iff p "") in
      let after : leb e.lamport (last_denied st p) ≡ false = ground (arith, late) in
      rw open_ (rw q (rw n (rw after (rw (set-nonempty scopes some_ valid) refl))))

  granted_lem :
      lookup p (insert p (granted_scopes scopes empty) st.grants)
      ≡ some (granted_scopes scopes empty)
  granted_lem =
      ground
        (arith, lookup-insert p p (granted_scopes scopes empty) st.grants, string_eq.beq_iff p p)

  unlimited : lookup p (delete p st.expiry) ≡ none
  unlimited = ground (arith, lookup-delete p p st.expiry, string_eq.beq_iff p p)

  scopes_of_written :
      (now : Time)
      → has st.stewards p ≡ false
      → scopes_of_person written p now ≡ copy_scopes (granted_scopes scopes empty)
  unfolding scopes_of_person write_grant note_expiry expired
  scopes_of_written now plain = rw plain (rw granted_lem (rw unlimited refl))

  steward_scopes :
      (now : Time) → has st.stewards p ≡ true → scopes_of_person written p now ≡ every_scope
  unfolding scopes_of_person write_grant
  steward_scopes now q = rw q refl

  written-has :
      (now : Time) (s : String)
      → lookup p st.delegations ≡ none
      → valid_scope s ≡ true
      → has (granted_scopes scopes empty) s ≡ true
      → has (effective_scopes written p now) s ≡ true
  unfolding effective_scopes
  written-has now s own v h =
      let self : person_of written p ≡ p = person_of_self written p (unfold write_grant in own) in
      ap (λ (x : String). has (scopes_of_person written x now) s) self
      ∙ (elim (Bool-cases (has st.stewards p)) [
        | inl q ↦ ap (λ (ss : ScopeSet). has ss s) (steward_scopes now q) ∙ every_scope-has s v
        | inr q ↦ ap (λ (ss : ScopeSet). has ss s) (scopes_of_written now q) ∙ copy_scopes-has _ s h
      ])

  -- a grant gives each of its scopes
  pub apply_grant-has :
      may_decide st e ≡ true
      → decode_grant e.body ≡ some body
      → p ≢ ""
      → last_denied st p < e.lamport
      → eqb (length scopes) 0 ≡ false
      → all_valid scopes ≡ true
      → lookup p st.delegations ≡ none
      → (now : Time)
      → All (λ s. has (effective_scopes (apply_grant parse_time st e) p now) s ≡ true) scopes
  apply_grant-has open_ q named late some_ valid own now = All-of_In _ scopes (λ s i.
      ap (λ (x : State). has (effective_scopes x p now) s)
        (apply_grant-written open_ q named late some_ valid)
      ∙ written-has now s own (all_valid-In scopes s valid i)
          (All-In _ s scopes (granted_scopes-has scopes empty valid) i))
