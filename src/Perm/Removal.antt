-- ===== src/Perm/Removal.antt =====
-- What the removal of a member takes from it.
use lamdis.Prelude.{ℕ, String, ◌≡◌, refl, ◌≢◌, true, false, Option, some, [], arith}
use lamdis.Prelude.Eq.{◌==◌, string_eq}
use lamdis.Prelude.Map.{delete, has, lookup-delete}
use lamdis.Json.Bodies.{MembershipBody, decode_membership}
use lamdis.Log.Entry.{Entry, kind_membership}
use lamdis.Perm.State.{Time, State}
use lamdis.Perm.Apply.{may_decide, apply_membership, member_of, change_member, apply}
use lamdis.Perm.Query.{may_person_contribute, scopes_of_person}
use lamdis.Perm.Cases.{apply-membership}

-- what a removal writes
without_member : State → String → State
without_member st p = record st {
  stewards = delete p st.stewards;
  grants = delete p st.grants;
  expiry = delete p st.expiry;
}

scopes-without_member :
    (st : State) (p : String) (now : Time) → scopes_of_person (without_member st p) p now ≡ []
unfolding scopes_of_person without_member
scopes-without_member st p now =
    ground
      (arith, lookup-delete p p st.stewards, lookup-delete p p st.grants, string_eq.beq_iff p p)

window-without_member :
    (st : State) (p : String) (lamport : ℕ)
    → has st.stewards p ≡ false
    → may_person_contribute (without_member st p) p lamport ≡ may_person_contribute st p lamport
unfolding may_person_contribute without_member
window-without_member st p lamport plain =
    ground (arith, plain, lookup-delete p p st.stewards, string_eq.beq_iff p p)

removed :
    (st : State) (e : Entry) (b : MembershipBody)
    → may_decide st e ≡ true
    → decode_membership e.body ≡ some b
    → b.member ≢ ""
    → b.role ≡ "removed"
    → has st.stewards b.member ≡ false
    → apply_membership st e ≡ without_member st b.member
unfolding apply_membership member_of change_member without_member
removed st e b open_ q named role plain =
    let filled : (b.member == "") ≡ false = ground (arith, named, string_eq.beq_iff b.member "") in
    rw (open_, q) (rw filled (rw role (rw plain refl)))

module _ (parse_time : String → Option Time) (st : State) (e : Entry) (b : MembershipBody) where
  -- An admitted removal of a member that is no steward takes every scope from it, and leaves its
  -- contribute window as it was: what could be ingested of it before can be ingested after.
  pub removal-may_person_contribute :
      e.kind ≡ kind_membership
      → may_decide st e ≡ true
      → decode_membership e.body ≡ some b
      → b.member ≢ ""
      → b.role ≡ "removed"
      → has st.stewards b.member ≡ false
      → ((now : Time) → scopes_of_person (apply parse_time st e) b.member now ≡ [])
        × ((lamport : ℕ)
            → may_person_contribute (apply parse_time st e) b.member lamport
              ≡ may_person_contribute st b.member lamport)
  removal-may_person_contribute k open_ q named role plain =
      rw (apply-membership, k, removed st e b open_ q named role plain)
        (
          scopes-without_member st b.member,
          λ lamport. window-without_member st b.member lamport plain,
        )
