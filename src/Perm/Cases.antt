-- ===== src/Perm/Cases.antt =====
-- A proof about `apply` is a proof about the function of each kind.
use lamdis.Prelude.{
  String, ◌≡◌, ◌⊎◌, inl, inr, true, ◌||◌, Option, List, [], ◌∷◌, ◌++◌, refl, not, if_ind, arith,
}
use lamdis.Prelude.Eq.{◌==◌, string_eq}
use lamdis.Prelude.Lists.{All}
use lamdis.Log.Entry.{
  Entry, lane_control, kind_thread, kind_membership, kind_delegation, kind_access_request,
  kind_grant, kind_deny, kind_revoke,
}
use lamdis.Perm.State.{Time, State}
use lamdis.Perm.Apply.{
  apply_thread, apply_membership, apply_delegation, apply_access_request, apply_deny, apply_grant,
  apply, fold_step, fold_from,
}

-- The guards that stand before each case.
abbrev pub IsKind : String → Entry → Type 0
IsKind k e = e.kind ≡ k

module _ {ℓ} (parse_time : String → Option Time) (P : State → Type ℓ) (st : State) (e : Entry) where
  pub apply_ind :
      (IsKind kind_thread e → P (apply_thread st e))
      → (IsKind kind_membership e → P (apply_membership st e))
      → (IsKind kind_delegation e → P (apply_delegation st e))
      → (IsKind kind_access_request e → P (apply_access_request st e))
      → (IsKind kind_grant e → P (apply_grant parse_time st e))
      → ((e.kind ≡ kind_deny) ⊎ (e.kind ≡ kind_revoke) → P (apply_deny st e))
      → P st
      → P (apply parse_time st e)
  unfolding apply
  apply_ind thread member delegation request grant deny other =
      if_ind P (e.kind == kind_thread) _ _ (λ h. thread ((string_eq.beq_iff _ _).0 h))
        λ _.
          if_ind P (e.kind == kind_membership) _ _ (λ h. member ((string_eq.beq_iff _ _).0 h))
            λ _.
              if_ind P (e.kind == kind_delegation) _ _
                (λ h. delegation ((string_eq.beq_iff _ _).0 h))
                λ _.
                  if_ind P (e.kind == kind_access_request) _ _
                    (λ h. request ((string_eq.beq_iff _ _).0 h))
                    λ _.
                      if_ind P (e.kind == kind_grant) _ _ (λ h. grant ((string_eq.beq_iff _ _).0 h))
                        λ _.
                          if_ind P (e.kind == kind_deny || e.kind == kind_revoke) _ _
                            (λ h. deny (which h)) λ _. other
    where
      which :
          (e.kind == kind_deny || e.kind == kind_revoke) ≡ true
          → (e.kind ≡ kind_deny) ⊎ (e.kind ≡ kind_revoke)
      which h =
          ground
            (arith, h, string_eq.beq_iff e.kind kind_deny, string_eq.beq_iff e.kind kind_revoke)

module _ {ℓ κ} (parse_time : String → Option Time) (thread : String) (P : State → Type ℓ)
    (Q : Entry → Type κ)
    (step : (st : State) (e : Entry) → P st → Q e → P (apply parse_time st e)) where
  pub fold_step_ind : (st : State) (e : Entry) → P st → Q e → P (fold_step parse_time thread st e)
  unfolding fold_step
  fold_step_ind st e h q =
      if_ind P (not (e.lane == lane_control) || not (e.thread == thread)) st (apply parse_time st e)
        (λ _. h) (λ _. step st e h q)

  -- What every entry of a log keeps, the fold of the log keeps.
  pub fold_from_ind :
      (st : State) (es : List Entry) → P st → All Q es → P (fold_from parse_time thread st es)
  unfolding fold_from
  fold_from_ind st [] h q = h
  fold_from_ind st (e ∷ es) h q =
      fold_from_ind (fold_step parse_time thread st e) es (fold_step_ind st e h q.0) q.1

pub fold_from-append :
    (parse_time : String → Option Time) (thread : String) (st : State) (xs ys : List Entry)
    → fold_from parse_time thread st (xs ++ ys)
      ≡ fold_from parse_time thread (fold_from parse_time thread st xs) ys
unfolding fold_from
fold_from-append parse_time thread st [] ys = refl
fold_from-append parse_time thread st (e ∷ xs) ys =
    fold_from-append parse_time thread (fold_step parse_time thread st e) xs ys

-- A control entry of the thread is applied.
pub fold_step-control :
    (parse_time : String → Option Time) (thread : String) (st : State) (e : Entry)
    → e.lane ≡ lane_control
    → e.thread ≡ thread
    → fold_step parse_time thread st e ≡ apply parse_time st e
unfolding fold_step
fold_step-control parse_time thread st e l t =
    ground (arith, l, t, string_eq.beq_iff e.lane lane_control, string_eq.beq_iff e.thread thread)

-- A deny and a revoke are applied alike.
pub apply-deny :
    (parse_time : String → Option Time) (st : State) (e : Entry)
    → (e.kind ≡ kind_deny) ⊎ (e.kind ≡ kind_revoke)
    → apply parse_time st e ≡ apply_deny st e
unfolding apply
apply-deny parse_time st e (inl k) = rw k
apply-deny parse_time st e (inr k) = rw k

module _ (parse_time : String → Option Time) (st : State) (e : Entry) where
  pub apply-thread : e.kind ≡ kind_thread → apply parse_time st e ≡ apply_thread st e
  unfolding apply
  apply-thread k = simp k

  pub apply-membership : e.kind ≡ kind_membership → apply parse_time st e ≡ apply_membership st e
  unfolding apply
  apply-membership k = simp k

  pub apply-grant : e.kind ≡ kind_grant → apply parse_time st e ≡ apply_grant parse_time st e
  unfolding apply
  apply-grant k = simp k
