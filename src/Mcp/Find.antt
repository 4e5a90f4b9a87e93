-- ===== src/Mcp/Find.antt =====
-- mcp/server.go: the tool search_context, over the tables of the driver. The loop of the embedding worker runs
-- on fuel.
use lamdis.Prelude.{ℕ, String, Option, none, some, List, [], ◌∷◌}
use lamdis.Prelude.Int.{ℤ, pos}
use lamdis.Result.{Result, ok, err, ◌>>=◌, index_out_of_range}
use lamdis.Embed.Vectors.{Vector, TextRow, Index, positive_or}
use lamdis.Embed.Worker.{drain}
use lamdis.Store.Sqlite.{Row}
use lamdis.Search.{Hit}
use lamdis.Search.Engine.{Floats, Fts, Tables, indexable_text}
use lamdis.Search.Merge.{search}
use lamdis.Mcp.Tools.{all_lanes}
use lamdis.Mcp.Words.{concat, or_text}

-- the texts of the rows
unfoldable pub text_rows : List Row → List TextRow
unfolding indexable_text
text_rows [] = []
text_rows (r ∷ rows) =
    record { rid = r.rid; id = r.entry.id; text = indexable_text r.entry } ∷ text_rows rows

abbrev pub index_of : Tables → Index
index_of t = record { rows = text_rows t.rows; vectors = t.vectors; dim = t.dim }

-- `vecs[0]`, where the embedder did not fail
unfoldable pub first_vector : Result (List Vector) → Result (Option Vector)
first_vector (err x) = ok none
first_vector (ok []) = err index_out_of_range
first_vector (ok (v ∷ vs)) = ok (some v)

unfoldable pub query_vector :
    Option (List String → Result (List Vector)) → String → Result (Option Vector)
unfolding first_vector
query_vector none query = ok none
query_vector (some embedder) query = first_vector (embedder (query ∷ []))

-- the vectors that were missing are made first
unfoldable pub refreshed : Option (List String → Result (List Vector)) → ℕ → Tables → Tables
unfolding drain text_rows
refreshed none fuel t = t
refreshed (some embedder) fuel t =
    let s = (drain embedder fuel (pos 0) (index_of t)).1 in
    record t { vectors = s.vectors; dim = s.dim }

module _ (fl : Floats) (fts : Fts) (show_rank : fl.F → String) where
  unfoldable pub hit_lines : List (Hit fl.F) → List String
  unfolding concat
  hit_lines [] = []
  hit_lines (h ∷ hits) =
      concat (
        show_rank h.rank
        ∷ " thread="
        ∷ h.thread
        ∷ " ["
        ∷ h.lane
        ∷ "|"
        ∷ h.kind
        ∷ "] "
        ∷ h.snippet
        ∷ "\n"
        ∷ [])
      ∷ hit_lines hits

  -- search_context
  unfoldable pub search_context :
      Option (List String → Result (List Vector)) → ℕ → String → ℤ → Tables → Result String
  unfolding query_vector refreshed hit_lines or_text concat positive_or
  search_context embedder fuel query k t = do
    vec ← query_vector embedder query
    hits ←
        search fl fts
          (record {
            query = query;
            threads = [];
            kinds = [];
            lanes = all_lanes;
            mode = "";
            k = pos (positive_or 8 k);
            query_vec = vec;
          })
          (refreshed embedder fuel t)
    ok (or_text "no results" (concat (hit_lines hits)))
