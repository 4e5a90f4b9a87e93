-- ===== src/Search/Merge.antt =====
-- store/sqlite.go: Search merges what its retrievals found, by reciprocal ranks. The merged hits are kept in
-- the order in which they came; Go's map gives them in any order, and sortHits follows.
use lamdis.Prelude.{
  ℕ, suc, ◌+◌, String, Bool, true, false, ◌&&◌, ◌||◌, Option, none, some, List, [], ◌∷◌, ltb, eqb,
  if◌then◌else◌,
}
use lamdis.Prelude.Eq.{◌==◌, string_eq}
use lamdis.Prelude.Lists.{length}
use lamdis.Prelude.Map.{Map, empty, lookup, insert}
use lamdis.Prelude.Sort.{insertion_sort}
use lamdis.Prelude.Text.{str_ltb}
use lamdis.Result.{Result, ok, err, ◌>>=◌, no_lanes}
use lamdis.Embed.Vectors.{Vector, positive_or, take}
use lamdis.Search.{SearchRequest, Hit, mode_hybrid, mode_vector, mode_fts}
use lamdis.Search.Engine.{Floats, Fts, Tables, search_fts, search_vec}

abbrev pub rrf_k : ℕ
rrf_k = 60

-- the mode, hybrid where the request has none
unfoldable pub mode_of : SearchRequest → String
mode_of req = if req.mode == "" then mode_hybrid else req.mode

unfoldable pub is_none : Option Vector → Bool
is_none none = true
is_none (some _) = false

-- whether the full-text index is asked
unfoldable pub asks_fts : SearchRequest → Bool
unfolding mode_of is_none
asks_fts req =
    mode_of req == mode_fts
    || mode_of req == mode_hybrid
    || (mode_of req == mode_vector && is_none req.query_vec)

-- the vector that is searched for, where one is
unfoldable pub asks_vec : SearchRequest → ℕ → Option Vector
unfolding mode_of
asks_vec req dim =
    if (mode_of req == mode_vector || mode_of req == mode_hybrid) && ltb 0 dim
    then req.query_vec
    else none

module _ (fl : Floats) where
  -- a merged hit; its rank is the sum so far
  unfoldable pub add_rank : ℕ → Hit fl.F → Option (Hit fl.F) → Hit fl.F
  add_rank i h none = record h {
    rank = fl.plus fl.zero (fl.over fl.one (fl.of_nat (rrf_k + i + 1)));
  }
  add_rank i h (some old) = record old {
    rank = fl.plus old.rank (fl.over fl.one (fl.of_nat (rrf_k + i + 1)));
    snippet = if old.snippet == "" then h.snippet else old.snippet;
  }

  -- addList, from place `i` on
  unfoldable pub add_list : ℕ → List (Hit fl.F) → Map String (Hit fl.F) → Map String (Hit fl.F)
  unfolding add_rank insert lookup
  add_list i [] merged = merged
  add_list i (h ∷ hits) merged =
      add_list (suc i) hits (insert h.entry_id (add_rank i h (lookup h.entry_id merged)) merged)

  -- the order of sortHits
  unfoldable pub ranks_before : Hit fl.F → Hit fl.F → Bool
  ranks_before a b =
      fl.greater a.rank b.rank || (fl.equal a.rank b.rank && str_ltb a.entry_id b.entry_id)

  unfoldable pub values : Map String (Hit fl.F) → List (Hit fl.F)
  values [] = []
  values ((id, h) ∷ m) = h ∷ values m

  unfoldable pub fts_part : Fts → SearchRequest → ℕ → Tables → Result (List (Hit fl.F))
  unfolding asks_fts search_fts
  fts_part fts req k t = if asks_fts req then search_fts fl fts req k t else ok []

  unfoldable pub vec_part : SearchRequest → ℕ → Tables → Option Vector → Result (List (Hit fl.F))
  unfolding search_vec
  vec_part req k t none = ok []
  vec_part req k t (some q) = search_vec fl req q k t

  -- the two lists merged, sorted and cut
  unfoldable pub merge_hits : ℕ → List (Hit fl.F) → List (Hit fl.F) → List (Hit fl.F)
  unfolding add_list values ranks_before insertion_sort take
  merge_hits k by_text by_vec =
      take k (insertion_sort ranks_before (values (add_list 0 by_vec (add_list 0 by_text empty))))

  -- Search
  unfoldable pub search : Fts → SearchRequest → Tables → Result (List (Hit fl.F))
  unfolding fts_part vec_part asks_vec merge_hits positive_or
  search fts req t = if eqb (length req.lanes) 0 then err no_lanes else (do
    by_text ← fts_part fts req (positive_or 20 req.k) t
    found ← vec_part req (positive_or 20 req.k) t (asks_vec req t.dim)
    ok (merge_hits (positive_or 20 req.k) by_text found))
