-- ===== src/Perm/Window.antt =====
-- The contribute window of a principal under grants after a revocation.
use lamdis.Prelude.{
  ℕ, ◌≤◌, ◌<◌, String, ◌≡◌, refl, ◌≢◌, Bool, true, false, ◌&&◌, Option, some, [], ◌∷◌, leb, ltb,
  eqb, arith, if_ind, Option-cases, inl, inr, if◌then◌else◌, ◌∙◌,
}
use lamdis.Prelude.Eq.{◌==◌, string_eq, beq_refl}
use lamdis.Prelude.Lists.{length}
use lamdis.Prelude.Map.{Map, empty, lookup, has, lookup-insert, lookup-delete}
use lamdis.Prelude.Int.{pos}
use lamdis.Json.Bodies.{GrantBody, decode_grant}
use lamdis.Log.Entry.{Entry, kind_grant}
use lamdis.Perm.Scope.{ScopeSet, scope_contribute, granted_scopes}
use lamdis.Perm.State.{Time, State}
use lamdis.Perm.Apply.{
  may_decide, apply_grant, grant_of, write_grant, note_contribute, note_expiry, last_denied, apply,
}
use lamdis.Perm.Query.{in_window, may_person_contribute, scopes_of_person, copy_scopes, expired}
use lamdis.Perm.Cases.{apply-grant}

-- The window of `p` opened at some lamport and was closed, at `bound` or before, after that.
pub record IsClosed (p : String) (bound : ℕ) (st : State) : Type 0 where
  pub opened : ℕ
  pub closed : ℕ
  pub opened_at : lookup p st.contrib_at ≡ some opened
  pub closed_at : lookup p st.denied_at ≡ some closed
  pub ordered : opened ≤ closed
  pub reached : closed ≤ bound

-- A closed window admits nothing from `bound` on.
IsClosed-in_window :
    (p : String) (bound : ℕ) (st : State) (lamport : ℕ)
    → IsClosed p bound st
    → bound ≤ lamport
    → in_window (lookup p st.contrib_at) (lookup p st.denied_at) lamport ≡ false
unfolding in_window
IsClosed-in_window p bound st lamport c low =
    rw (c.opened_at, c.closed_at) (ground (arith, c.ordered, c.reached))

plain_window :
    (st : State) (p : String) (lamport : ℕ)
    → has st.stewards p ≡ false
    → may_person_contribute st p lamport
      ≡ in_window (lookup p st.contrib_at) (lookup p st.denied_at) lamport
unfolding may_person_contribute
plain_window st p lamport plain = ground (arith, plain)

-- the earliest grant with contribute, after one more grant
earliest : ℕ → ScopeSet → Bool → ℕ → ℕ
earliest lamport ss same old =
    if same && has ss scope_contribute && ltb lamport old then lamport else old

lookup-note_contribute :
    (p q : String) (lamport old : ℕ) (ss : ScopeSet) (m : Map String ℕ)
    → lookup p m ≡ some old
    → lookup p (note_contribute q lamport ss m) ≡ some (earliest lamport ss (q == p) old)
unfolding note_contribute earliest
lookup-note_contribute p q lamport old ss m h =
    ground (arith, h, lookup-insert q p lamport m, string_eq.beq_iff q p)

earliest-le : (lamport old : ℕ) (ss : ScopeSet) (same : Bool) → earliest lamport ss same old ≤ old
unfolding earliest
earliest-le lamport old ss same = ground arith

module _ (parse_time : String → Option Time) (p : String) (bound : ℕ) where
  write_grant-IsClosed :
      (st : State) (e : Entry) (b : GrantBody) (ss : ScopeSet)
      → IsClosed p bound st
      → IsClosed p bound (write_grant parse_time st e b ss)
  unfolding write_grant
  write_grant-IsClosed st e b ss c = record {
    opened = earliest e.lamport ss (b.principal == p) c.opened;
    closed = c.closed;
    opened_at =
        lookup-note_contribute p b.principal e.lamport c.opened ss st.contrib_at c.opened_at;
    closed_at = c.closed_at;
    ordered = omega (arith, earliest-le e.lamport c.opened ss (b.principal == p), c.ordered);
    reached = c.reached;
  }

  -- No grant opens a closed window again: it moves its start at most to the left.
  apply_grant-IsClosed :
      (st : State) (e : Entry)
      → IsClosed p bound st
      → IsClosed p bound (apply_grant parse_time st e)
  unfolding apply_grant grant_of
  apply_grant-IsClosed st e c =
      if_ind (IsClosed p bound) (may_decide st e) _ _
        (λ _. elim (Option-cases (decode_grant e.body)) [
          | inl n ↦ rw n c
          | inr (b, q) ↦ rw q (
              if_ind (IsClosed p bound) (b.principal == "") _ _ (λ _. c)
                λ _.
                  if_ind (IsClosed p bound) (leb e.lamport (last_denied st b.principal)) _ _
                    (λ _. c)
                    λ _.
                      if_ind (IsClosed p bound) (eqb (length (granted_scopes b.scopes empty)) 0) _ _
                        (λ _. c) λ _. write_grant-IsClosed st e b (granted_scopes b.scopes empty) c)
        ])
        (λ _. c)

has-copy_scopes : (ss : ScopeSet) (s : String) → has ss s ≡ true → has (copy_scopes ss) s ≡ true
unfolding copy_scopes lookup
has-copy_scopes [] s h = h
has-copy_scopes ((k, v) ∷ ss) s h = ground (arith, h, has-copy_scopes ss s)

size_pos : (ss : ScopeSet) (s : String) → has ss s ≡ true → eqb (length ss) 0 ≡ false
unfolding lookup
size_pos [] s h = cc
size_pos (x ∷ ss) s h = ground arith

module _ (parse_time : String → Option Time) (st : State) (e : Entry) (b : GrantBody) where
  granted :
      may_decide st e ≡ true
      → decode_grant e.body ≡ some b
      → b.principal ≢ ""
      → last_denied st b.principal < e.lamport
      → has (granted_scopes b.scopes empty) scope_contribute ≡ true
      → apply_grant parse_time st e ≡ write_grant parse_time st e b (granted_scopes b.scopes empty)
  unfolding apply_grant grant_of
  granted open_ q named late contributes = ground (
    arith,
    open_,
    q,
    late,
    string_eq.beq_iff b.principal "",
    size_pos (granted_scopes b.scopes empty) scope_contribute contributes,
  )

  not_expired :
      b.ttl_seconds ≡ pos 0
      → (now : Time)
      → expired
          (lookup b.principal (note_expiry parse_time b.principal b.ttl_seconds e.ts st.expiry))
          now
        ≡ false
  unfolding note_expiry expired
  not_expired ttl now = rw (ttl, lookup-delete, beq_refl {K = String} b.principal) refl

  holds_contribute :
      b.ttl_seconds ≡ pos 0
      → has (granted_scopes b.scopes empty) scope_contribute ≡ true
      → (now : Time)
      → has
          (scopes_of_person
            (write_grant parse_time st e b (granted_scopes b.scopes empty))
            b.principal
            now)
          scope_contribute
        ≡ true
  unfolding write_grant scopes_of_person
  holds_contribute ttl contributes now =
      rw (lookup-insert, beq_refl {K = String} b.principal, not_expired ttl now)
        (if_ind (λ (x : ScopeSet). has x scope_contribute ≡ true) (has st.stewards b.principal) _ _
          (λ _. unfold lookup in refl)
          (λ _. has-copy_scopes (granted_scopes b.scopes empty) scope_contribute contributes))

  -- A principal whose contribute window was opened and then closed (at `bound` or before) is granted
  -- contribute again, by an admitted grant above its last denial, with no time limit. It then holds
  -- contribute at every time, and yet, unless it is a steward, none of its entries with a lamport from
  -- `bound` on may be ingested.
  pub regrant_admits_nothing :
      (bound : ℕ)
      → IsClosed b.principal bound st
      → e.kind ≡ kind_grant
      → may_decide st e ≡ true
      → decode_grant e.body ≡ some b
      → b.principal ≢ ""
      → b.ttl_seconds ≡ pos 0
      → last_denied st b.principal < e.lamport
      → has (granted_scopes b.scopes empty) scope_contribute ≡ true
      → has st.stewards b.principal ≡ false
      → ((now : Time)
          → has (scopes_of_person (apply parse_time st e) b.principal now) scope_contribute ≡ true)
        × ((lamport : ℕ)
            → bound ≤ lamport
            → may_person_contribute (apply parse_time st e) b.principal lamport ≡ false)
  regrant_admits_nothing bound c k open_ q named ttl late contributes plain =
      rw (apply-grant, k, granted open_ q named late contributes)
        (holds_contribute ttl contributes, shut)
    where
      ss : ScopeSet
      ss = granted_scopes b.scopes empty

      shut :
          (lamport : ℕ)
          → bound ≤ lamport
          → may_person_contribute (write_grant parse_time st e b ss) b.principal lamport ≡ false
      shut lamport low =
          plain_window (write_grant parse_time st e b ss) b.principal lamport
            (unfold write_grant in plain)
          ∙ IsClosed-in_window b.principal bound (write_grant parse_time st e b ss) lamport
              (write_grant-IsClosed parse_time b.principal bound st e b ss c) low
