-- ===== src/Tests/Grants.antt =====
-- Grants, denials and delegations in the permission fold.
use lamdis.Prelude.{
  ◌≡◌, ◌≢◌, refl, inl, true, false, some, none, String, [], ◌∷◌, arith, ℕ, ◌≤◌, ◌<◌,
}
use lamdis.Prelude.Lists.{here}
use lamdis.Prelude.Int.{pos}
use lamdis.Prelude.Eq.{ne_of_beq, string_eq}
use lamdis.Prelude.Map.{empty, lookup, insert, delete, has}
use lamdis.Json.Bodies.{
  GrantBody, DelegationBody, MembershipBody, ThreadBody, decode_grant, decode_delegation,
  decode_membership, decode_thread,
}
use lamdis.Log.Entry.{kind_thread, kind_delegation}
use lamdis.Perm.State.{Time, State}
use lamdis.Perm.Apply.{
  apply, apply_deny, apply_grant, may_decide, fold, last_denied, apply_thread, apply_delegation,
}
use lamdis.Perm.Query.{lanes, scopes_of_person, may_person_contribute}
use lamdis.Perm.Denied.{IsDenied, deny-beats-grant}
use lamdis.Perm.Hidden.{denied-lanes}
use lamdis.Perm.Stewards.{HasSteward, fold-HasSteward}
use lamdis.Perm.Strangers.{
  SameAuthority, stranger-SameAuthority, thread_entry_makes_steward, delegation_silences,
}
use lamdis.Perm.Window.{IsClosed, regrant_admits_nothing}
use lamdis.Perm.Removal.{removal-may_person_contribute}
use lamdis.Tests.Fixtures.{
  no_time, genesis, grant_ben, deny_ben, grant_again, thread_id, anna, ben, cleo, other_thread,
  grant_of_stranger, delegate_anna, remove_ben,
}
use lamdis.Perm.Scope.{ScopeSet, granted_scopes, scope_contribute, scope_read, valid_scope}

abbrev opened : State
opened = fold no_time thread_id (genesis ∷ grant_ben ∷ [])

abbrev denial : GrantBody
denial = record { principal = ben; scopes = []; ttl_seconds = pos 0; request = "" }

decode_deny : decode_grant deny_ben.body ≡ some denial
unfolding decode_grant
decode_deny = refl

ben_named : ben ≢ ""
ben_named = ne_of_beq ben "" refl

decide_deny : may_decide opened deny_ben ≡ true
unfolding fold lookup insert delete apply apply_grant apply_thread apply_deny apply_delegation
    decode_delegation decode_thread decode_grant valid_scope
decide_deny = refl

deny-beats-grant_example :
    IsDenied ben 3 (apply no_time (apply_deny opened deny_ben) grant_ben)
    × IsDenied ben 3 (apply_deny (apply_grant no_time opened grant_ben) deny_ben)
deny-beats-grant_example =
    deny-beats-grant no_time opened deny_ben grant_ben denial decide_deny decode_deny ben_named
      (λ _ b _ _. omega arith)

decide_first : may_decide (fold no_time thread_id (genesis ∷ [])) deny_ben ≡ true
unfolding fold lookup insert delete apply apply_grant apply_thread apply_deny apply_delegation
    decode_delegation decode_thread decode_grant valid_scope
decide_first = refl

abbrev denied : State
denied = fold no_time thread_id (genesis ∷ deny_ben ∷ grant_ben ∷ [])

ben_no_steward : has denied.stewards ben ≡ false
unfolding fold lookup insert delete apply apply_grant apply_thread apply_deny apply_delegation
    decode_delegation decode_thread decode_grant valid_scope
ben_no_steward = refl

ben_no_agent : lookup ben denied.delegations ≡ none
unfolding fold lookup insert delete apply apply_grant apply_thread apply_deny apply_delegation
    decode_delegation decode_thread decode_grant valid_scope
ben_no_agent = refl

denied-lanes_example : lanes denied ben (pos 0) ≡ []
denied-lanes_example =
    denied-lanes no_time thread_id (genesis ∷ []) (grant_ben ∷ []) deny_ben denial refl refl
      (inl refl) decide_first decode_deny ben_named (λ _ b _ _. omega arith, tt) ben_no_steward
      ben_no_agent (pos 0)

fold-HasSteward_example : HasSteward opened
fold-HasSteward_example = fold-HasSteward no_time thread_id genesis (grant_ben ∷ []) refl refl refl

stranger_shut : may_decide opened grant_of_stranger ≡ false
unfolding fold lookup insert delete apply apply_grant apply_thread apply_deny apply_delegation
    decode_delegation decode_thread decode_grant valid_scope
stranger_shut = refl

stranger-SameAuthority_example : SameAuthority (apply no_time opened grant_of_stranger) opened
stranger-SameAuthority_example =
    stranger-SameAuthority no_time opened grant_of_stranger
      (ne_of_beq grant_of_stranger.kind kind_thread refl)
      (ne_of_beq grant_of_stranger.kind kind_delegation refl) stranger_shut

abbrev takeover : ThreadBody
takeover = record { stewards = cleo ∷ []; title = ""; discoverable = false }

decode_takeover : decode_thread other_thread.body ≡ some takeover
unfolding decode_thread
decode_takeover = refl

thread_entry_makes_steward_example : has (apply no_time opened other_thread).stewards cleo ≡ true
thread_entry_makes_steward_example =
    thread_entry_makes_steward no_time opened other_thread takeover cleo refl decode_takeover
      (here refl)

abbrev binding : String → DelegationBody
binding agent = record { agent = agent; expires_at = ""; revoked = false }

decode_binding : decode_delegation delegate_anna.body ≡ some (binding anna)
unfolding decode_delegation
decode_binding = refl

delegation_silences_example : may_decide (apply no_time opened delegate_anna) deny_ben ≡ false
delegation_silences_example =
    delegation_silences no_time opened delegate_anna deny_ben (binding anna) refl refl
      decode_binding (ne_of_beq anna "" refl) refl refl

abbrev closed : State
closed = fold no_time thread_id (genesis ∷ grant_ben ∷ deny_ben ∷ [])

ben_closed : IsClosed ben 3 closed
unfolding fold lookup insert delete apply apply_grant apply_thread apply_deny apply_delegation
    decode_delegation decode_thread decode_grant valid_scope
ben_closed = record {
  opened = 2;
  closed = 3;
  opened_at = refl;
  closed_at = refl;
  ordered = omega arith;
  reached = omega arith;
}

abbrev regrant : GrantBody
regrant = record { principal = ben; scopes = "contribute" ∷ []; ttl_seconds = pos 0; request = "" }

decode_regrant : decode_grant grant_again.body ≡ some regrant
unfolding decode_grant
decode_regrant = refl

decide_regrant : may_decide closed grant_again ≡ true
unfolding fold lookup insert delete apply apply_grant apply_thread apply_deny apply_delegation
    decode_delegation decode_thread decode_grant valid_scope
decide_regrant = refl

regrant_late : last_denied closed ben < 4
unfolding fold lookup insert delete apply apply_grant apply_thread apply_deny apply_delegation
    decode_delegation decode_thread decode_grant valid_scope
regrant_late = omega arith

regrant_contributes : has (granted_scopes regrant.scopes empty) scope_contribute ≡ true
unfolding granted_scopes lookup insert valid_scope
regrant_contributes = refl

regrant_plain : has closed.stewards ben ≡ false
unfolding fold lookup insert delete apply apply_grant apply_thread apply_deny apply_delegation
    decode_delegation decode_thread decode_grant valid_scope
regrant_plain = refl

regrant_admits_nothing_example :
    ((now : Time)
      → has (scopes_of_person (apply no_time closed grant_again) ben now) scope_contribute ≡ true)
    × ((lamport : ℕ)
        → 3 ≤ lamport
        → may_person_contribute (apply no_time closed grant_again) ben lamport ≡ false)
regrant_admits_nothing_example =
    regrant_admits_nothing no_time closed grant_again regrant 3 ben_closed refl decide_regrant
      decode_regrant ben_named refl regrant_late regrant_contributes regrant_plain

abbrev removal : MembershipBody
removal = record { member = ben; role = "removed" }

decode_removal : decode_membership remove_ben.body ≡ some removal
unfolding decode_membership
decode_removal = refl

decide_removal : may_decide opened remove_ben ≡ true
unfolding fold lookup insert delete apply apply_grant apply_thread apply_deny apply_delegation
    decode_delegation decode_thread decode_grant valid_scope
decide_removal = refl

removal_plain : has opened.stewards ben ≡ false
unfolding fold lookup insert delete apply apply_grant apply_thread apply_deny apply_delegation
    decode_delegation decode_thread decode_grant valid_scope
removal_plain = refl

removal-may_person_contribute_example :
    ((now : Time) → scopes_of_person (apply no_time opened remove_ben) ben now ≡ [])
    × ((lamport : ℕ)
        → may_person_contribute (apply no_time opened remove_ben) ben lamport
          ≡ may_person_contribute opened ben lamport)
removal-may_person_contribute_example =
    removal-may_person_contribute no_time opened remove_ben removal refl decide_removal
      decode_removal ben_named refl removal_plain

abbrev read_only : ScopeSet
read_only = (scope_read, true) ∷ []
