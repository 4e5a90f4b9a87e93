-- ===== src/Search/Answers.antt =====
-- Search as a whole: on every request it answers with hits in the asked scope, or says why not.
use lamdis.Prelude.{
  ℕ, ◌≡◌, ◌≢◌, refl, Bool, true, ◌&&◌, not, Option, none, some, List, [], eqb, arith, ◌⊎◌, inl, inr,
  Bool-cases,
}
use lamdis.Prelude.Eq.{◌==◌, string_eq, nat_eq}
use lamdis.Prelude.Lists.{length, keep, All}
use lamdis.Prelude.Sort.{insertion_sort}
use lamdis.Prelude.SortLaws.{insertion_sort-All}
use lamdis.Result.{ok, err, no_lanes, dimension_mismatch, query_refused}
use lamdis.Embed.Vectors.{Vector, positive_or, take}
use lamdis.Store.Sqlite.{Row}
use lamdis.Search.{SearchRequest, Hit}
use lamdis.Search.Engine.{
  Floats, Fts, Tables, Scored, indexable_text, in_scope, matching, search_fts, search_vec,
  candidates, fts_hits, hits_of, scored_before,
}
use lamdis.Search.Query.{fts_query}
use lamdis.Search.Merge.{fts_part, vec_part, asks_vec, asks_fts, merge_hits, search}
use lamdis.Search.Scoped.{IsHit, InScope, All-take, fts_hits-IsHit, candidates-IsHit, hits_of-IsHit}
use lamdis.Search.Results.{AreHits, keep_scoped, merge_hits-AreHits}

third : (a b c : Bool) → (a && b && c) ≡ true → c ≡ true
third a b c h = ground (arith, h)

module _ (fl : Floats) (fts : Fts) (req : SearchRequest) (t : Tables) where
  matching-in_scope : (r : Row) → matching fl fts req r ≡ true → in_scope req r ≡ true
  unfolding matching
  matching-in_scope r h =
      third (not (indexable_text r.entry == ""))
        (fts.matches (fts_query req.query) (indexable_text r.entry)) (in_scope req r) h

  -- hits, or a query that the index refuses
  search_fts-cases :
      (k : ℕ)
      → ((hits : List (Hit fl.F)) × (search_fts fl fts req k t ≡ ok hits)
          × All (IsHit req t.rows) hits)
        ⊎ ((search_fts fl fts req k t ≡ err query_refused)
            × (fts.refuses (fts_query req.query) ≡ true))
  unfolding search_fts
  search_fts-cases k = elim (Bool-cases (fts.refuses (fts_query req.query))) [
    | inl q ↦ inr (rw q refl, q)
    | inr q ↦ inl (
      fts_hits fl (fts.snippet (fts_query req.query)) (
          take k (
            insertion_sort (fts.before (fts_query req.query) t.rows)
              (keep (matching fl fts req) t.rows))),
      rw q refl,
      fts_hits-IsHit fl req t.rows (fts.snippet (fts_query req.query)) _ (
          All-take (InScope req t.rows) k _ (
            insertion_sort-All (InScope req t.rows) _ _
              (keep_scoped fl req t.rows (matching fl fts req) matching-in_scope))),
    )
  ]

  -- the words' part: hits, or a query that the index was asked and refuses
  fts_part-cases :
      (k : ℕ)
      → ((hits : List (Hit fl.F)) × (fts_part fl fts req k t ≡ ok hits)
          × All (IsHit req t.rows) hits)
        ⊎ ((fts_part fl fts req k t ≡ err query_refused)
            × (asks_fts req ≡ true)
            × (fts.refuses (fts_query req.query) ≡ true))
  unfolding fts_part
  fts_part-cases k = elim (Bool-cases (asks_fts req)) [
    | inr q ↦ inl ([], rw q refl, tt)
    | inl q ↦ elim (search_fts-cases k) [
      | inl (found, e, good) ↦ inl (found, rw q e, good)
      | inr (e, why) ↦ inr (rw q e, q, why)
    ]
  ]

  -- the vector's part: hits, or vectors of another dimension
  search_vec-cases :
      (q : Vector) (k : ℕ)
      → ((hits : List (Hit fl.F)) × (search_vec fl req q k t ≡ ok hits)
          × All (IsHit req t.rows) hits)
        ⊎ ((search_vec fl req q k t ≡ err dimension_mismatch) × (length q ≢ t.dim))
  unfolding search_vec
  search_vec-cases q k = elim (Bool-cases (eqb (length q) t.dim)) [
    | inr p ↦ inr (rw p refl, λ e. ground (arith, p, e))
    | inl p ↦ inl (
      hits_of fl (
          take k (
            insertion_sort (scored_before fl)
              (candidates fl q t.vectors (keep (in_scope req) t.rows)))),
      rw p refl,
      hits_of-IsHit fl req t.rows _ (
          All-take (λ (x : Scored fl). IsHit req t.rows x.1) k _
            (insertion_sort-All (λ (x : Scored fl). IsHit req t.rows x.1) (scored_before fl) _
              (candidates-IsHit fl req t.rows q t.vectors (keep (in_scope req) t.rows)
                (keep_scoped fl req t.rows (in_scope req) (λ r h. h))))),
    )
  ]

  asks_vec-some : (q : Vector) → asks_vec req t.dim ≡ some q → req.query_vec ≡ some q
  unfolding asks_vec
  asks_vec-some q h = ground (arith, h)

  vec_part-cases :
      (k : ℕ) (o : Option Vector)
      → asks_vec req t.dim ≡ o
      → ((hits : List (Hit fl.F)) × (vec_part fl req k t o ≡ ok hits) × All (IsHit req t.rows) hits)
        ⊎ ((vec_part fl req k t o ≡ err dimension_mismatch)
            × ((q : Vector) × (req.query_vec ≡ some q) × (length q ≢ t.dim)))
  unfolding vec_part
  vec_part-cases k none h = inl ([], refl, tt)
  vec_part-cases k (some q) h = elim (search_vec-cases q k) [
    | inl found ↦ inl found
    | inr (e, n) ↦ inr (e, (q, asks_vec-some q h, n))
  ]

  -- Search, with any full-text index and any arithmetic, either returns hits or says why not. Each hit
  -- tells of a row of the table whose lane is one of the request's lanes, whose thread is one of its
  -- threads and whose kind is one of its kinds, where it names any; no two hits are of one entry; and
  -- there are at most as many as the request asks for, 20 where that is not positive. It fails only on
  -- a request without a lane, on one whose quoted words the index is asked for and refuses, or with a
  -- vector of another dimension than the store's.
  pub search-cases :
      ((hits : List (Hit fl.F)) × (search fl fts req t ≡ ok hits)
        × AreHits req t.rows (positive_or 20 req.k) hits)
      ⊎ ((search fl fts req t ≡ err no_lanes) × (length req.lanes ≡ 0))
      ⊎ ((search fl fts req t ≡ err query_refused)
          × (asks_fts req ≡ true)
          × (fts.refuses (fts_query req.query) ≡ true))
      ⊎ ((search fl fts req t ≡ err dimension_mismatch)
          × ((q : Vector) × (req.query_vec ≡ some q) × (length q ≢ t.dim)))
  unfolding search
  search-cases = elim (Bool-cases (eqb (length req.lanes) 0)) [
    | inl p ↦ inr (inl (rw p refl, ground (arith, p)))
    | inr p ↦ elim (fts_part-cases (positive_or 20 req.k)) [
      | inr (e, asked, why) ↦ inr (inr (inl (rw p (rw e refl), asked, why)))
      | inl (by_text, e1, fine) ↦
          elim (vec_part-cases (positive_or 20 req.k) (asks_vec req t.dim) refl) [
            | inr (e, why) ↦ inr (inr (inr (rw p (rw (e1, e) refl), why)))
            | inl (found, e, good) ↦ inl (
              merge_hits fl (positive_or 20 req.k) by_text found,
              rw p (rw (e1, e) refl),
              merge_hits-AreHits fl req t.rows (positive_or 20 req.k) by_text found fine good,
            )
          ]
    ]
  ]
