-- ===== src/Search/Results.antt =====
-- The merged hits, sorted and cut: of rows in the asked scope, each entry once, and no more than asked for.
use lamdis.Prelude.{
  ℕ, zero, suc, ◌≤◌, String, ◌≡◌, ◌≢◌, refl, sym, ap, ◌∙◌, Bool, true, none, some, List, [], ◌∷◌,
  inl, inr, Bool-cases,
}
use lamdis.Prelude.Eq.{◌==◌, string_eq, nat_eq, beq_refl}
use lamdis.Prelude.Lists.{length, keep, In-keep, All, All-of_In}
use lamdis.Prelude.Map.{Map, empty, lookup}
use lamdis.Prelude.MapLaws.{Distinct}
use lamdis.Prelude.Pairs.{AllPairs, insertion_sort-AllPairs}
use lamdis.Prelude.Sort.{insertion_sort}
use lamdis.Prelude.SortLaws.{insertion_sort-All}
use lamdis.Embed.Vectors.{take}
use lamdis.Store.Sqlite.{Row}
use lamdis.Search.{SearchRequest, Hit}
use lamdis.Search.Engine.{Floats, in_scope}
use lamdis.Search.Merge.{add_list, values, ranks_before, merge_hits}
use lamdis.Search.Scoped.{IsHit, InScope, IsMerged, All-take, length-take, add_list-IsMerged}

-- hits of rows in the scope, of as many entries, and at most `k`
pub record AreHits {F : Type 0} (req : SearchRequest) (rows : List Row) (k : ℕ)
    (hits : List (Hit F)) : Type 0 where
  pub scoped : All (IsHit req rows) hits
  pub apart : AllPairs (λ (a b : Hit F). a.entry_id ≢ b.entry_id) hits
  pub bounded : length hits ≤ k

take-AllPairs {ℓ κ} :
    {A : Type ℓ} (R : A → A → Type κ) (n : ℕ) (xs : List A) → AllPairs R xs → AllPairs R (take n xs)
unfolding take
take-AllPairs R zero xs h = tt
take-AllPairs R (suc n) [] h = tt
take-AllPairs R (suc n) (x ∷ xs) h = (All-take (R x) n xs h.0, take-AllPairs R n xs h.1)

module _ (fl : Floats) where
  -- what holds of the entries of a map holds of those behind the first
  later :
      (P : String → Hit fl.F → Type 0) (id : String) (h : Hit fl.F) (m : Map String (Hit fl.F))
      → lookup id m ≡ none
      → ((j : String) (x : Hit fl.F) → lookup j ((id, h) ∷ m) ≡ some x → P j x)
      → (j : String) (x : Hit fl.F) → lookup j m ≡ some x
      → P j x
  unfolding lookup
  later P id h m fresh good j x at = elim (Bool-cases (id == j)) [
    | inl q ↦
        absurd (cc (fresh, at, ap (λ (k : String). lookup k m) ((string_eq.beq_iff id j).0 q)))
    | inr q ↦ good j x (rw q at)
  ]

  first :
      (P : String → Hit fl.F → Type 0) (id : String) (h : Hit fl.F) (m : Map String (Hit fl.F))
      → ((j : String) (x : Hit fl.F) → lookup j ((id, h) ∷ m) ≡ some x → P j x)
      → P id h
  unfolding lookup
  first P id h m good = good id h (rw (beq_refl {K = String} id) refl)

  values-All :
      (P : Hit fl.F → Type 0) (m : Map String (Hit fl.F))
      → Distinct m
      → ((j : String) (x : Hit fl.F) → lookup j m ≡ some x → P x)
      → All P (values fl m)
  unfolding values
  values-All P [] d good = tt
  values-All P ((id, h) ∷ m) d good =
      (first (λ j x. P x) id h m good, values-All P m d.1 (later (λ j x. P x) id h m d.0 good))

  values-apart :
      (m : Map String (Hit fl.F))
      → Distinct m
      → ((j : String) (x : Hit fl.F) → lookup j m ≡ some x → x.entry_id ≡ j)
      → AllPairs (λ (a b : Hit fl.F). a.entry_id ≢ b.entry_id) (values fl m)
  unfolding values
  values-apart [] d good = tt
  values-apart ((id, h) ∷ m) d good = (
    values-All (λ b. h.entry_id ≢ b.entry_id) m d.1
        (λ j x at same.
          let name : x.entry_id ≡ j = later (λ j x. x.entry_id ≡ j) id h m d.0 good j x at in
          let own : h.entry_id ≡ id = first (λ j x. x.entry_id ≡ j) id h m good in
          cc (d.0, at, ap (λ (k : String). lookup k m) (sym own ∙ same ∙ name))),
    values-apart m d.1 (later (λ j x. x.entry_id ≡ j) id h m d.0 good),
  )

  module _ (req : SearchRequest) (rows : List Row) where
    pub keep_scoped :
        (p : Row → Bool)
        → ((r : Row) → p r ≡ true → in_scope req r ≡ true)
        → All (InScope req rows) (keep p rows)
    keep_scoped p sound =
        All-of_In (InScope req rows) (keep p rows)
          (λ r i. let (j, q) = In-keep p r rows i in (j, sound r q))

    pub merge_hits-AreHits :
        (k : ℕ) (by_text by_vec : List (Hit fl.F))
        → All (IsHit req rows) by_text
        → All (IsHit req rows) by_vec
        → AreHits req rows k (merge_hits fl k by_text by_vec)
    unfolding merge_hits lookup
    merge_hits-AreHits k by_text by_vec a b =
        let none_yet : IsMerged fl req rows empty = record {
          distinct = tt;
          hits = λ id h at. cc;
        } in
        let texts = add_list-IsMerged fl req rows 0 by_text empty a none_yet in
        let both = add_list-IsMerged fl req rows 0 by_vec (add_list fl 0 by_text empty) b texts in
        let m : Map String (Hit fl.F) = add_list fl 0 by_vec (add_list fl 0 by_text empty) in
        record {
          scoped = All-take (IsHit req rows) k (insertion_sort (ranks_before fl) (values fl m)) (
              insertion_sort-All (IsHit req rows) (ranks_before fl) (values fl m)
                (values-All (IsHit req rows) m both.distinct (λ j x at. (both.hits j x at).0)));
          apart =
              take-AllPairs (λ (a b : Hit fl.F). a.entry_id ≢ b.entry_id) k
                (insertion_sort (ranks_before fl) (values fl m))
                (insertion_sort-AllPairs (λ (a b : Hit fl.F). a.entry_id ≢ b.entry_id)
                  (λ x y n q. n (sym q)) (ranks_before fl) (values fl m)
                  (values-apart m both.distinct (λ j x at. (both.hits j x at).1)));
          bounded = length-take k (insertion_sort (ranks_before fl) (values fl m));
        }
