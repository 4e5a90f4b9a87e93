-- ===== src/Owner/Resolved.antt =====
-- What a reference to a thread, a person or a list of scopes resolves to.
use lamdis.Prelude.{
  ℕ, suc, String, ◌≡◌, ◌≢◌, refl, sym, ap, ◌∙◌, subst, Bool, true, false, Option, none, some, List,
  [], ◌∷◌, ◌++◌, arith, eqb, Bool-cases, inl, inr, ◌⊎◌, if◌then◌else◌,
}
use lamdis.Prelude.Eq.{◌==◌, string_eq, beq_refl, ne_of_beq}
use lamdis.Prelude.Lists.{length, In, here, there, In-append_left, In-append_right, In-append}
use lamdis.Prelude.Map.{Map, lookup}
use lamdis.Result.{Result, ok, err, ok-injective, >>=-eq-ok}
use lamdis.Exec.{◌>>=◌}
use lamdis.Store.{Store}
use lamdis.Log.Identity.{public_key, principal_prefix, cut_prefix}
use lamdis.Perm.Scope.{valid_scope}
use lamdis.Owner.Control.{all_valid}
use lamdis.Owner.Words.{read_pieces, read_scopes, split_commas, trim_space}
use lamdis.Owner.Resolve.{
  Peer, Found, exact, matched, pick, is_match, is_prefix, scan, resolve_thread, peer_principal,
  resolve_who, title_of_log,
}

read_pieces-valid :
    (ws ss : List String) → read_pieces ws ≡ ok ss → (all_valid ss ≡ true) × (length ss ≡ length ws)
unfolding read_pieces all_valid
read_pieces-valid [] [] h = (refl, refl)
read_pieces-valid [] (x ∷ ss) h = cc
read_pieces-valid (w ∷ ws) ss h = elim (Bool-cases (valid_scope (trim_space w))) [
  | inr q ↦ cc (rw q at h)
  | inl q ↦
      let (rest, r, same) =
        >>=-eq-ok (read_pieces ws) (λ (rest : List String). ok (trim_space w ∷ rest)) (rw q at h) in
      let (v, n) = read_pieces-valid ws rest r in
      subst (λ (xs : List String). (all_valid xs ≡ true) × (length xs ≡ length (w ∷ ws)))
        (ok-injective same) (rw q v, ap suc n)
]

abbrev matches_of : Found → List String
matches_of (exact id) = []
matches_of (matched ms) = ms

module _ {S : Type 0} (store : Store S) (lower upper : String → String) (ref : String) where
  -- an id in the list ends the loop
  scan-exact :
      (ids ms : List String) (s : S)
      → In ref ids
      → (scan store lower upper ref ids ms s).0 ≡ exact ref
  unfolding scan
  scan-exact (id ∷ ids) ms s (here q) =
      rw (ap (λ x. x == ref) (sym q)) (rw (beq_refl {K = String} ref) (ap exact (sym q)))
  scan-exact (id ∷ ids) ms s (there i) = elim (Bool-cases (id == ref)) [
    | inl q ↦ rw q (ap exact ((string_eq.beq_iff id ref).0 q))
    | inr q ↦ rw q (scan-exact ids _ _ i)
  ]
  scan-exact [] ms s i = elim i [ ]

  -- what one round keeps and adds
  abbrev kept : Bool → String → List String → List String
  kept b id ms = if b then ms ++ id ∷ [] else ms

  kept-old : (b : Bool) (id j : String) (ms : List String) → In j ms → In j (kept b id ms)
  kept-old true id j ms i = In-append_left j ms (id ∷ []) i
  kept-old false id j ms i = i

  kept-new : (b : Bool) (id j : String) (ms : List String) → j ≡ id → b ≡ true → In j (kept b id ms)
  kept-new true id j ms q h = In-append_right j ms (id ∷ []) (here q)
  kept-new false id j ms q h = cc

  of_kept : (b : Bool) (id j : String) (ms : List String) → In j (kept b id ms) → In j ms ⊎ (j ≡ id)
  of_kept false id j ms i = inl i
  of_kept true id j ms i = elim (In-append j ms (id ∷ []) i) [
    | inl old ↦ inl old
    | inr (here q) ↦ inr q
    | inr (there k) ↦ elim k [ ]
  ]

  -- what the loop collects holds what it had, and every id with the prefix
  scan-collects :
      (ids ms ns : List String) (s : S)
      → (scan store lower upper ref ids ms s).0 ≡ matched ns
      → (j : String) → In j ms ⊎ (In j ids × (is_prefix (upper ref) j ≡ true))
      → In j ns
  unfolding scan
  scan-collects [] ms ns s h j (inl i) = subst (λ f. In j (matches_of f)) h i
  scan-collects [] ms ns s h j (inr (i, p)) = elim i [ ]
  scan-collects (id ∷ ids) ms ns s h j i = elim (Bool-cases (id == ref)) [
    | inl q ↦ cc (rw q at h)
    | inr q ↦
        scan-collects ids
          (kept (is_match store lower upper ref id (title_of_log id (store.thread id s).0)) id ms)
          ns (store.thread id s).1 (rw q at h) j (one_round j i)
  ]
    where
      one_round :
          (j : String)
          → In j ms ⊎ (In j (id ∷ ids) × (is_prefix (upper ref) j ≡ true))
          → In j (
              kept
                (is_match store lower upper ref id (title_of_log id (store.thread id s).0))
                id
                ms)
            ⊎ (In j ids × (is_prefix (upper ref) j ≡ true))
      one_round j (inl i) = inl (kept-old _ id j ms i)
      one_round j (inr (here q, p)) = inl (
          kept-new _ id j ms q
            (unfold is_match in rw (ap (is_prefix (upper ref)) (sym q) ∙ p) refl))
      one_round j (inr (there i, p)) = inr (i, p)

  scan-In :
      (ids ms : List String) (s : S) (id : String)
      → pick (scan store lower upper ref ids ms s).0 ≡ ok id
      → In id ms ⊎ In id ids
  unfolding scan pick
  scan-In [] [] s id h = cc
  scan-In [] (m ∷ []) s id h = inl (here (sym (ok-injective h)))
  scan-In [] (m ∷ n ∷ ms) s id h = cc
  scan-In (x ∷ ids) ms s id h = elim (Bool-cases (x == ref)) [
    | inl q ↦ inr (here (sym (ok-injective (rw q at h))))
    | inr q ↦
        elim (scan-In ids
          (kept (is_match store lower upper ref x (title_of_log x (store.thread x s).0)) x ms)
          (store.thread x s).1 id (rw q at h)) [
            | inr i ↦ inr (there i)
            | inl i ↦ elim (of_kept _ x id ms i) [ inl old ↦ inl old | inr q ↦ inr (here q) ]
          ]
  ]

  exact-eq :
      (ids ms : List String) (s : S) (id : String)
      → (scan store lower upper ref ids ms s).0 ≡ exact id
      → id ≡ ref
  unfolding scan
  exact-eq [] ms s id h = cc
  exact-eq (x ∷ ids) ms s id h = elim (Bool-cases (x == ref)) [
    | inl q ↦ exact-injective (sym (rw q at h)) ∙ (string_eq.beq_iff x ref).0 q
    | inr q ↦
        exact-eq ids
          (kept (is_match store lower upper ref x (title_of_log x (store.thread x s).0)) x ms)
          (store.thread x s).1 id (rw q at h)
  ]
    where
      exact-injective : {a b : String} → exact a ≡ exact b → a ≡ b
      exact-injective q = cc

  picked : (r : Found) (id : String) → pick r ≡ ok id → (r ≡ exact id) ⊎ (r ≡ matched (id ∷ []))
  unfolding pick
  picked (exact x) id h = inl (ap exact (ok-injective h))
  picked (matched []) id h = cc
  picked (matched (x ∷ [])) id h = inr (ap (λ y. matched (y ∷ [])) (ok-injective h))
  picked (matched (x ∷ y ∷ r)) id h = cc

  -- The id of a thread that the store lists resolves to itself, whatever other threads match.
  pub resolve_thread-exact :
      (ids : List String) (s s1 : S)
      → store.threads s ≡ (ok ids, s1)
      → In ref ids
      → (resolve_thread store lower upper ref s).0 ≡ ok ref
  unfolding resolve_thread pick
  resolve_thread-exact ids s s1 listed i = rw (listed, ◌>>=◌) (rw (scan-exact ids [] s1 i) refl)

  -- A reference resolves to a thread that the store lists; if that is not its own id, then no other
  -- listed thread has an id with the reference, in upper case, for a prefix.
  pub resolve_thread-In :
      (ids : List String) (s s1 : S) (id : String)
      → store.threads s ≡ (ok ids, s1)
      → (resolve_thread store lower upper ref s).0 ≡ ok id
      → In id ids
        × ((id ≡ ref) ⊎ ((j : String) → In j ids → is_prefix (upper ref) j ≡ true → j ≡ id))
  unfolding resolve_thread
  resolve_thread-In ids s s1 id listed h =
      let found : pick (scan store lower upper ref ids [] s1).0 ≡ ok id = rw (listed, ◌>>=◌) at h in
      (
        elim (scan-In ids [] s1 id found) [ inl i ↦ elim i [ ] | inr i ↦ i ],
        elim (picked (scan store lower upper ref ids [] s1).0 id found) [
          | inl q ↦ inl (exact-eq ids [] s1 id q)
          | inr q ↦ inr (λ j i p. only id j (scan-collects ids [] (id ∷ []) s1 q j (inr (i, p))))
        ],
      )
    where
      only : (id j : String) → In j (id ∷ []) → j ≡ id
      only id j (here q) = q
      only id j (there i) = elim i [ ]

-- the pieces of a text are not empty
split_commas-nonempty : (s : String) → eqb (length (split_commas s)) 0 ≡ false
unfolding split_commas
split_commas-nonempty String.[] = refl
split_commas-nonempty (String.◌∷◌ c s) = ground arith

pub read_scopes-valid :
    (arg : String) (scopes : List String)
    → read_scopes arg ≡ ok scopes
    → (all_valid scopes ≡ true) × (eqb (length scopes) 0 ≡ false)
unfolding read_scopes
read_scopes-valid arg scopes h =
    let (v, n) = read_pieces-valid (split_commas arg) scopes h in
    (v, rw n (split_commas-nonempty arg))

peer_principal-ne : (o : Option Peer) (pid : String) → peer_principal o ≡ ok pid → pid ≢ ""
unfolding peer_principal
peer_principal-ne none pid h q = cc
peer_principal-ne (some p) pid h q = elim (Bool-cases (p.principal == "")) [
  | inl e ↦ cc (rw e at h)
  | inr e ↦ ne_of_beq p.principal "" e (ok-injective (rw e at h) ∙ q)
]

key_principal-ne :
    (who pid : String)
    → is_prefix principal_prefix who ≡ true
    → (r : Result (List ℕ))
    → (elim r as (λ _. Result String) [ err x ↦ err x | ok _ ↦ ok who ]) ≡ ok pid
    → pid ≢ ""
unfolding is_prefix cut_prefix
key_principal-ne who pid p (err x) h q = cc
key_principal-ne who pid p (ok key) h q =
    let empty_prefix : is_prefix principal_prefix "" ≡ true =
      subst (λ (w : String). is_prefix principal_prefix w ≡ true) (ok-injective h ∙ q) p in
    cc empty_prefix

-- a person that resolves has a name
pub resolve_who-ne :
    (peers : Map String Peer) (who pid : String) → resolve_who peers who ≡ ok pid → pid ≢ ""
unfolding resolve_who
resolve_who-ne peers who pid h = elim (Bool-cases (is_prefix principal_prefix who)) [
  | inl p ↦ key_principal-ne who pid p (public_key who) (rw p at h)
  | inr p ↦ peer_principal-ne (lookup who peers) pid (rw p at h)
]
