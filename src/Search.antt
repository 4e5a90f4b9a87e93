-- ===== src/Search.antt =====
-- store/store.go and the search part of store/sqlite.go: requests, hits, and what Search does with its rows.
pub mod Query
pub mod Engine
pub mod Merge
pub mod Scoped
pub mod Results
pub mod Answers
pub mod Quoted
use lamdis.Prelude.{String, Option, List}
use lamdis.Prelude.Int.{ℤ}
use lamdis.Log.Entry.{Lane}
use lamdis.Embed.Vectors.{Vector}

-- SearchMode
abbrev pub mode_hybrid : String
mode_hybrid = "hybrid"

abbrev pub mode_vector : String
mode_vector = "vector"

abbrev pub mode_fts : String
mode_fts = "fts"

-- SearchRequest
pub record SearchRequest : Type 0 where
  pub query : String
  pub threads : List String
  pub kinds : List String
  pub lanes : List Lane
  pub mode : String
  pub k : ℤ
  -- none for nil
  pub query_vec : Option Vector

-- Hit, with its rank in the numbers `F`
pub record Hit (F : Type 0) : Type 0 where
  pub entry_id : String
  pub thread : String
  pub kind : String
  pub lane : Lane
  pub snippet : String
  pub rank : F
