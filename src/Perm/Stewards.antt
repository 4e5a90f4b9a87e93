-- ===== src/Perm/Stewards.antt =====
-- The stewards of a thread: once there is one, there always is one.
use lamdis.Prelude.{
  ◌<◌, String, ◌≡◌, Bool, true, false, ◌&&◌, Option, some, List, [], ◌∷◌, eqb, arith, if_ind,
  Option-cases, inl, inr,
}
use lamdis.Prelude.Eq.{◌==◌, string_eq}
use lamdis.Prelude.Lists.{All}
use lamdis.Prelude.Map.{Map, lookup, insert, delete, has, size, lookup-insert, lookup-delete}
use lamdis.Prelude.MapLaws.{
  Distinct, insert-Distinct, delete-Distinct, delete_absent, size-delete, size-insert_pos,
}
use lamdis.Json.Bodies.{MembershipBody, decode_membership, decode_thread}
use lamdis.Log.Entry.{Entry, lane_control, kind_thread}
use lamdis.Perm.State.{Time, State, new_state}
use lamdis.Perm.Apply.{
  may_decide, add_stewards, open_thread, or_creator, apply_thread, apply_membership, member_of,
  change_member, apply_delegation, delegation_of, change_delegation, apply_access_request,
  request_of, apply_deny, deny_of, apply_grant, grant_of, write_grant, apply, fold, fold_from,
  fold_step,
}
use lamdis.Perm.Cases.{apply_ind, fold_from_ind, fold_step-control, apply-thread}

-- A set as Go keeps it: each key once, each with the value true.
pub record IsMemberSet (m : Map String Bool) : Type 0 where
  pub distinct : Distinct m
  pub values : (k : String) (b : Bool) → lookup k m ≡ some b → b ≡ true

insert-IsMemberSet :
    (k : String) (m : Map String Bool) → IsMemberSet m → IsMemberSet (insert k true m)
insert-IsMemberSet k m h = record {
  distinct = insert-Distinct k true m h.distinct;
  values = λ j b q. ground (arith, q, lookup-insert k j true m, h.values j b);
}

delete-IsMemberSet : (k : String) (m : Map String Bool) → IsMemberSet m → IsMemberSet (delete k m)
delete-IsMemberSet k m h = record {
  distinct = delete-Distinct k m h.distinct;
  values = λ j b q. ground (arith, q, lookup-delete k j m, h.values j b);
}

empty-IsMemberSet : IsMemberSet []
unfolding lookup
empty-IsMemberSet = record { distinct = tt; values = λ j b q. cc }

-- A set of stewards with at least one member.
pub record HasSteward (st : State) : Type 0 where
  pub sound : IsMemberSet st.stewards
  pub some_one : 0 < size st.stewards

-- Removing a member leaves one, unless the member was the only one.
delete-pos :
    (k : String) (m : Map String Bool)
    → IsMemberSet m
    → 0 < size m
    → (has m k && eqb (size m) 1) ≡ false
    → 0 < size (delete k m)
delete-pos k m h pos guard = elim (Option-cases (lookup k m)) [
  | inl absent ↦ rw (delete_absent k m absent) pos
  | inr (b, q) ↦
      let t : b ≡ true = h.values k b q in
      ground (arith, size-delete k b m h.distinct q, guard, q, t, pos)
]

add_stewards-IsMemberSet :
    (names : List String) (m : Map String Bool) → IsMemberSet m → IsMemberSet (add_stewards names m)
unfolding add_stewards
add_stewards-IsMemberSet [] m h = h
add_stewards-IsMemberSet (s ∷ rest) m h =
    add_stewards-IsMemberSet rest (insert s true m) (insert-IsMemberSet s m h)

or_creator-HasSteward :
    (author : String) (st : State) → IsMemberSet st.stewards → HasSteward (or_creator author st)
unfolding or_creator
or_creator-HasSteward author st h =
    if_ind HasSteward (eqb (size st.stewards) 0) _ _
      (λ _. record {
        sound = insert-IsMemberSet author st.stewards h;
        some_one = size-insert_pos author true st.stewards;
      })
      (λ full. record { sound = h; some_one = ground (arith, full) })

open_thread-IsMemberSet :
    (st : State) (e : Entry)
    → IsMemberSet st.stewards
    → IsMemberSet (open_thread st (decode_thread e.body)).stewards
unfolding open_thread
open_thread-IsMemberSet st e h = elim (Option-cases (decode_thread e.body)) [
  | inl n ↦ rw n h
  | inr (b, q) ↦ rw q (add_stewards-IsMemberSet b.stewards st.stewards h)
]

apply_thread-HasSteward :
    (st : State) (e : Entry) → IsMemberSet st.stewards → HasSteward (apply_thread st e)
unfolding apply_thread
apply_thread-HasSteward st e h =
    or_creator-HasSteward e.author (open_thread st (decode_thread e.body))
      (open_thread-IsMemberSet st e h)

change_member-HasSteward :
    (st : State) (b : MembershipBody) → HasSteward st → HasSteward (change_member st b)
unfolding change_member
change_member-HasSteward st b h =
    if_ind HasSteward (b.role == "steward") _ _
      (λ _. record {
        sound = insert-IsMemberSet b.member st.stewards h.sound;
        some_one = size-insert_pos b.member true st.stewards;
      })
      λ _.
        if_ind HasSteward (b.role == "removed") _ _
          (λ _.
            if_ind HasSteward (has st.stewards b.member && eqb (size st.stewards) 1) _ _ (λ _. h)
              (λ guard. record {
                sound = delete-IsMemberSet b.member st.stewards h.sound;
                some_one = delete-pos b.member st.stewards h.sound h.some_one guard;
              }))
          (λ _. h)

apply_membership-HasSteward :
    (st : State) (e : Entry) → HasSteward st → HasSteward (apply_membership st e)
unfolding apply_membership member_of
apply_membership-HasSteward st e h =
    if_ind HasSteward (may_decide st e) _ _
      (λ _. elim (Option-cases (decode_membership e.body)) [
        | inl n ↦ rw n h
        | inr (b, q) ↦
            rw q (
              if_ind HasSteward (b.member == "") _ _ (λ _. h)
                (λ _. change_member-HasSteward st b h))
      ])
      (λ _. h)

-- The other kinds leave the stewards alone.
same_stewards : {a b : State} → a.stewards ≡ b.stewards → HasSteward b → HasSteward a
same_stewards q h = record { sound = rw q h.sound; some_one = rw q h.some_one }

module _ (parse_time : String → Option Time) where
  pub apply-HasSteward :
      (st : State) (e : Entry) → HasSteward st → HasSteward (apply parse_time st e)
  unfolding apply_delegation delegation_of change_delegation apply_access_request request_of
      apply_deny deny_of apply_grant grant_of write_grant
  apply-HasSteward st e h =
      apply_ind parse_time HasSteward st e (λ _. apply_thread-HasSteward st e h.sound)
        (λ _. apply_membership-HasSteward st e h) (λ _. same_stewards (ground arith) h)
        (λ _. same_stewards (ground arith) h) (λ _. same_stewards (ground arith) h)
        (λ _. same_stewards (ground arith) h) h

  fold_step-genesis :
      (thread : String) (e : Entry)
      → e.lane ≡ lane_control
      → e.thread ≡ thread
      → e.kind ≡ kind_thread
      → HasSteward (fold_step parse_time thread (new_state thread) e)
  unfolding new_state
  fold_step-genesis thread e l t k =
      rw (fold_step-control, l, t)
        (rw (apply-thread, k) (apply_thread-HasSteward (new_state thread) e empty-IsMemberSet))

  -- The fold of a log that opens with the thread's core.thread entry always has a steward, whatever
  -- entries follow: a thread cannot lose its last one.
  pub fold-HasSteward :
      (thread : String) (e : Entry) (es : List Entry)
      → e.lane ≡ lane_control
      → e.thread ≡ thread
      → e.kind ≡ kind_thread
      → HasSteward (fold parse_time thread (e ∷ es))
  unfolding fold fold_from
  fold-HasSteward thread e es l t k =
      fold_from_ind parse_time thread HasSteward (λ _. Unit {0})
        (λ st x h _. apply-HasSteward st x h) (fold_step parse_time thread (new_state thread) e) es
        (fold_step-genesis thread e l t k) (every es)
    where
      every : (xs : List Entry) → All (λ _. Unit {0}) xs
      every [] = tt
      every (x ∷ xs) = (tt, every xs)
