-- ===== src/Search/Engine.antt =====
-- store/sqlite.go: the two retrievals of Search. SQLite's full-text index and the float64 operations are
-- parameters; the WHERE clauses are modelled by what they mean on a row.
use lamdis.Prelude.{
  ℕ, String, Bool, ◌&&◌, ◌||◌, not, Option, none, some, List, [], ◌∷◌, eqb, if◌then◌else◌, false,
  ◌++◌,
}
use lamdis.Prelude.Eq.{◌==◌, string_eq, nat_eq}
use lamdis.Prelude.Lists.{length, keep}
use lamdis.Prelude.Map.{Map, lookup}
use lamdis.Prelude.Sort.{insertion_sort}
use lamdis.Prelude.Text.{str_ltb}
use lamdis.Json.{Value}
use lamdis.Json.Unmarshal.{unmarshal, is_field, to_string}
use lamdis.Result.{Result, ok, err, dimension_mismatch, query_refused}
use lamdis.Log.Entry.{Entry}
use lamdis.Embed.Vectors.{Vector, take}
use lamdis.Store.Sqlite.{Row}
use lamdis.Search.{SearchRequest, Hit}
use lamdis.Search.Query.{fts_query}
use lamdis.Mcp.Words.{take_text}

-- float64, and float32 bits as float64
pub record Floats : Type 1 where
  pub F : Type 0
  pub zero : F
  pub one : F
  pub minus_one : F
  pub of_nat : ℕ → F
  pub of_bits : ℕ → F
  pub plus : F → F → F
  pub times : F → F → F
  pub over : F → F → F
  pub sqrt : F → F
  pub equal : F → F → Bool
  pub greater : F → F → Bool

-- FTS5: the queries that it refuses with an error, whether a text matches a query, the excerpt that it
-- shows, and the order of the rows by rank
pub record Fts : Type 0 where
  pub refuses : String → Bool
  pub matches : String → String → Bool
  pub snippet : String → String → String
  pub before : String → List Row → Row → Row → Bool

-- the tables that a search reads
pub record Tables : Type 0 where
  pub rows : List Row
  pub vectors : Map ℕ Vector
  pub dim : ℕ

-- indexableText: body.text, "" where the body is no such struct
unfoldable pub set_text : String → Value → String → Option String
unfolding is_field to_string
set_text key v old = if is_field key "text" then to_string v old else some old

unfoldable pub text_or_empty : Option String → String
text_or_empty none = ""
text_or_empty (some t) = t

unfoldable pub indexable_text : Entry → String
unfolding set_text unmarshal text_or_empty
indexable_text e = text_or_empty (unmarshal set_text e.body "")

-- `IN (…)`
unfoldable pub is_one_of : String → List String → Bool
is_one_of s [] = false
is_one_of s (x ∷ xs) = s == x || is_one_of s xs

-- scopeFilter
unfoldable pub in_scope : SearchRequest → Row → Bool
unfolding is_one_of
in_scope req r =
    is_one_of r.entry.lane req.lanes
    && (eqb (length req.threads) 0 || is_one_of r.entry.thread req.threads)
    && (eqb (length req.kinds) 0 || is_one_of r.entry.kind req.kinds)

module _ (fl : Floats) where
  -- scanHits: a row becomes a hit; the rank is set when the lists are merged
  unfoldable pub to_hit : Row → String → Hit fl.F
  to_hit r snippet = record {
    entry_id = r.entry.id;
    thread = r.entry.thread;
    kind = r.entry.kind;
    lane = r.entry.lane;
    snippet = snippet;
    rank = fl.zero;
  }

  unfoldable pub fts_hits : (String → String) → List Row → List (Hit fl.F)
  unfolding to_hit
  fts_hits snippet [] = []
  fts_hits snippet (r ∷ rows) = to_hit r (snippet (indexable_text r.entry)) ∷ fts_hits snippet rows

  -- the index holds the texts that are not empty
  unfoldable pub matching : Fts → SearchRequest → Row → Bool
  unfolding in_scope indexable_text fts_query
  matching fts req r =
      not (indexable_text r.entry == "")
      && fts.matches (fts_query req.query) (indexable_text r.entry)
      && in_scope req r

  -- searchFTS
  unfoldable pub search_fts : Fts → SearchRequest → ℕ → Tables → Result (List (Hit fl.F))
  unfolding take fts_hits matching keep insertion_sort fts_query
  search_fts fts req k t =
      if fts.refuses (fts_query req.query)
      then err query_refused
      else ok (
          fts_hits (fts.snippet (fts_query req.query)) (
            take k (
              insertion_sort (fts.before (fts_query req.query) t.rows)
                (keep (matching fts req) t.rows))))

  -- the loop of cosineF32 over the query and the blob
  unfoldable pub sums : Vector → Vector → fl.F × fl.F × fl.F → fl.F × fl.F × fl.F
  sums [] vec acc = acc
  sums (x ∷ xs) [] acc = acc
  sums (x ∷ xs) (y ∷ ys) (dot, nq, nb) =
      let q = fl.of_bits x in
      let b = fl.of_bits y in
      sums xs ys (fl.plus dot (fl.times q b), fl.plus nq (fl.times q q), fl.plus nb (fl.times b b))

  unfoldable pub quotient : fl.F × fl.F × fl.F → fl.F
  quotient (dot, nq, nb) =
      if fl.equal nq fl.zero || fl.equal nb fl.zero
      then fl.minus_one
      else fl.over dot (fl.times (fl.sqrt nq) (fl.sqrt nb))

  -- cosineF32, on the blob as the list of its float32 bits
  unfoldable pub cosine : Vector → Vector → fl.F
  unfolding sums quotient
  cosine q vec =
      if not (eqb (length vec) (length q))
      then fl.minus_one
      else quotient (sums q vec (fl.zero, fl.zero, fl.zero))

  abbrev pub Scored : Type 0
  Scored = fl.F × Hit fl.F

  unfoldable pub scored_before : Scored → Scored → Bool
  scored_before (a, g) (b, h) =
      if not (fl.equal a b) then fl.greater a b else str_ltb g.entry_id h.entry_id

  unfoldable pub candidate : Vector → Row → Option Vector → List Scored
  unfolding cosine to_hit
  candidate q r none = []
  candidate q r (some vec) = (cosine q vec, to_hit r (take_text 160 (indexable_text r.entry))) ∷ []

  -- the rows with a vector, scored
  unfoldable pub candidates : Vector → Map ℕ Vector → List Row → List Scored
  unfolding candidate lookup
  candidates q vectors [] = []
  candidates q vectors (r ∷ rows) =
      candidate q r (lookup r.rid vectors) ++ candidates q vectors rows

  unfoldable pub hits_of : List Scored → List (Hit fl.F)
  hits_of [] = []
  hits_of ((sim, h) ∷ rest) = h ∷ hits_of rest

  -- searchVec
  unfoldable pub search_vec : SearchRequest → Vector → ℕ → Tables → Result (List (Hit fl.F))
  unfolding candidates hits_of take scored_before in_scope keep insertion_sort
  search_vec req q k t =
      if not (eqb (length q) t.dim)
      then err dimension_mismatch
      else ok (
          hits_of (
            take k
              (insertion_sort scored_before (candidates q t.vectors (keep (in_scope req) t.rows)))))
