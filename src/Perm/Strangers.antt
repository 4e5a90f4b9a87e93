-- ===== src/Perm/Strangers.antt =====
-- What entries of authors that are no stewards do to a thread's permissions.
use lamdis.Prelude.{
  String, ◌≡◌, refl, ◌≢◌, Bool, true, false, Option, some, List, [], ◌∷◌, eqb, arith, if_ind,
}
use lamdis.Prelude.Eq.{string_eq}
use lamdis.Prelude.Lists.{In, here, there}
use lamdis.Prelude.Map.{Map, insert, has, size, lookup-insert}
use lamdis.Json.Bodies.{ThreadBody, DelegationBody, decode_thread, decode_delegation}
use lamdis.Log.Entry.{Entry, kind_thread, kind_delegation}
use lamdis.Perm.State.{Time, State}
use lamdis.Perm.Apply.{
  may_decide, person_signed, add_stewards, open_thread, or_creator, apply_thread, apply_membership,
  apply_delegation, delegation_of, change_delegation, apply_access_request, request_of, apply_deny,
  apply_grant, apply,
}
use lamdis.Perm.Cases.{apply_ind}

-- Two states that agree on all but the pending requests: whatever decides who may do what is the same.
pub record SameAuthority (a b : State) : Type 0 where
  pub stewards : a.stewards ≡ b.stewards
  pub grants : a.grants ≡ b.grants
  pub expiry : a.expiry ≡ b.expiry
  pub denied_at : a.denied_at ≡ b.denied_at
  pub contrib_at : a.contrib_at ≡ b.contrib_at
  pub delegations : a.delegations ≡ b.delegations
  pub title : a.title ≡ b.title
  pub discoverable : a.discoverable ≡ b.discoverable

SameAuthority-refl : (st : State) → SameAuthority st st
SameAuthority-refl st = record {
  stewards = refl;
  grants = refl;
  expiry = refl;
  denied_at = refl;
  contrib_at = refl;
  delegations = refl;
  title = refl;
  discoverable = refl;
}

module _ (parse_time : String → Option Time) (st : State) (e : Entry) where
  -- An entry that is neither a core.thread nor a core.delegation, and whose author is no steward, or an
  -- agent, or that stands for someone else, changes no steward, grant, expiry, denial, contribute
  -- window, delegation, title or visibility: at most the pending requests.
  pub stranger-SameAuthority :
      e.kind ≢ kind_thread
      → e.kind ≢ kind_delegation
      → may_decide st e ≡ false
      → SameAuthority (apply parse_time st e) st
  unfolding apply_membership apply_access_request request_of apply_deny apply_grant
  stranger-SameAuthority other undelegated shut =
      apply_ind parse_time (λ x. SameAuthority x st) st e (λ k. absurd (other k))
        (λ _. rw shut (SameAuthority-refl st)) (λ k. absurd (undelegated k)) (λ _. ground arith)
        (λ _. rw shut (SameAuthority-refl st)) (λ _. rw shut (SameAuthority-refl st))
        (SameAuthority-refl st)

keeps_steward :
    (names : List String) (m : Map String Bool) (p : String)
    → has m p ≡ true
    → has (add_stewards names m) p ≡ true
unfolding add_stewards
keeps_steward [] m p h = h
keeps_steward (s ∷ rest) m p h =
    keeps_steward rest (insert s true m) p (ground (arith, h, lookup-insert s p true m))

adds_steward :
    (names : List String) (m : Map String Bool) (p : String)
    → In p names
    → has (add_stewards names m) p ≡ true
unfolding add_stewards
adds_steward [] m p i = elim i [ ]
adds_steward (s ∷ rest) m p (here q) =
    keeps_steward rest (insert s true m) p
      (ground (arith, q, lookup-insert s p true m, string_eq.beq_iff s p))
adds_steward (s ∷ rest) m p (there i) = adds_steward rest (insert s true m) p i

-- A core.thread entry whose body decodes makes everyone it names a steward, whoever signed it and
-- wherever it stands in the log: `apply` does not ask that it be the genesis entry or its author a
-- steward.
pub thread_entry_makes_steward :
    (parse_time : String → Option Time) (st : State) (e : Entry) (b : ThreadBody) (p : String)
    → e.kind ≡ kind_thread
    → decode_thread e.body ≡ some b
    → In p b.stewards
    → has (apply parse_time st e).stewards p ≡ true
unfolding apply apply_thread open_thread or_creator
thread_entry_makes_steward parse_time st e b p k q i =
    rw (k, q)
      (if_ind (λ (x : State). has x.stewards p ≡ true)
        (eqb (size (add_stewards b.stewards st.stewards)) 0) _ _
        (λ _. ground (
          arith,
          adds_steward b.stewards st.stewards p i,
          lookup-insert e.author p true (add_stewards b.stewards st.stewards),
        ))
        (λ _. adds_steward b.stewards st.stewards p i))

-- A core.delegation of anyone, in its own name and not a revocation, turns off the decisions of the
-- key it names, a steward's too: right after it no entry of the key may decide.
pub delegation_silences :
    (parse_time : String → Option Time) (st : State) (e d : Entry) (b : DelegationBody)
    → e.kind ≡ kind_delegation
    → e.on_behalf_of ≡ ""
    → decode_delegation e.body ≡ some b
    → b.agent ≢ ""
    → b.revoked ≡ false
    → d.author ≡ b.agent
    → may_decide (apply parse_time st e) d ≡ false
unfolding apply apply_delegation delegation_of change_delegation person_signed
delegation_silences parse_time st e d b k own q named live author =
    rw (k, own, q)
      (ground (
        arith,
        live,
        author,
        lookup-insert b.agent d.author e.author st.delegations,
        string_eq.beq_iff b.agent d.author,
        string_eq.beq_iff b.agent "",
      ))
