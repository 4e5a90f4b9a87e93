-- ===== src/Tests/Searches.antt =====
-- Searches over a small table, with numbers for float64 and an index that matches every text.
use lamdis.Prelude.{
  ap, ◌∙◌, String, ℕ, ◌≡◌, ◌≢◌, refl, true, false, List, [], ◌∷◌, some, ◌+◌, ◌*◌, ◌/◌, eqb, ltb,
  ◌⊎◌,
}
use lamdis.Prelude.Int.{pos}
use lamdis.Prelude.Lists.{length}
use lamdis.Result.{ok, err, no_lanes, dimension_mismatch, query_refused}
use lamdis.Prelude.Eq.{◌==◌, string_eq}
use lamdis.Embed.Vectors.{Vector, positive_or}
use lamdis.Search.{SearchRequest, Hit}
use lamdis.Search.Engine.{Floats, Fts, Tables}
use lamdis.Search.Merge.{asks_fts, search}
use lamdis.Search.Query.{fields, fts_query}
use lamdis.Search.Quoted.{read_query, read_query-fts_query}
use lamdis.Search.Results.{AreHits}
use lamdis.Search.Answers.{search-cases}
use lamdis.Mcp.Tools.{all_lanes}
use lamdis.Tests.Calls.{own_node}

abbrev whole : Floats
whole = record {
  F = ℕ;
  zero = 0;
  one = 1;
  minus_one = 0;
  of_nat = λ n. n;
  of_bits = λ n. n;
  plus = λ a b. a + b;
  times = λ a b. a * b;
  over = λ a b. a / b;
  sqrt = λ a. a;
  equal = eqb;
  greater = λ a b. ltb b a;
}

abbrev any_text : Fts
any_text = record {
  refuses = λ q. q == "";
  matches = λ _ _. true;
  snippet = λ _ text. text;
  before = λ _ _ _ _. false;
}

abbrev tables : Tables
tables = record { rows = own_node.rows; vectors = (1, 1 ∷ 2 ∷ []) ∷ []; dim = 2 }

abbrev wanted : SearchRequest
wanted = record {
  query = "stew \"ards";
  threads = [];
  kinds = [];
  lanes = all_lanes;
  mode = "";
  k = pos 3;
  query_vec = some (2 ∷ 1 ∷ []);
}

search-cases_example :
    ((hits : List (Hit ℕ)) × (search whole any_text wanted tables ≡ ok hits)
      × AreHits wanted own_node.rows (positive_or 20 (pos 3)) hits)
    ⊎ ((search whole any_text wanted tables ≡ err no_lanes) × (length all_lanes ≡ 0))
    ⊎ ((search whole any_text wanted tables ≡ err query_refused)
        × (asks_fts wanted ≡ true)
        × (any_text.refuses (fts_query wanted.query) ≡ true))
    ⊎ ((search whole any_text wanted tables ≡ err dimension_mismatch)
        × ((q : Vector) × (wanted.query_vec ≡ some q) × (length q ≢ 2)))
search-cases_example = search-cases whole any_text wanted tables

words : fields "stew \"ards" ≡ "stew" ∷ "\"ards" ∷ []
unfolding fields lamdis.Search.Query.split_words
words = refl

quoted_back : read_query (fts_query "stew \"ards") ≡ some ("stew" ∷ "\"ards" ∷ [])
quoted_back = read_query-fts_query "stew \"ards" ∙ ap (λ (ws : List String). some ws) words
