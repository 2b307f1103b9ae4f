-- ===== src/Tests/FoundRuns.antt =====
-- The whole of `pageSearch` of tlgs/server/controllers/search.cpp, on whole numbers.
use tlgs.Common.{
  ℕ, ◌+◌, ◌*◌, ◌/◌, ◌≡◌, refl, Bool, true, List, [], ◌∷◌, ◌++◌, all, map, Option, none, some, lower,
  ltb, Bytes, codes, bytes_eq,
}
use tlgs.Search.Graph.{Row, Nodes, Graph, build_graph, add_nodes, new_node, push_at, add_edge}
use tlgs.Search.Hits.{hits_rank, hits_loop, hits_round, hits_nodes, sum_scores}
use tlgs.Search.Graph.Kept.{allows}
use tlgs.Search.Merge.{Ranked, merge_nodes, merge_node, replace_in, is_same_page, is_mirror}
use tlgs.Search.PageSearch.{
  Formula, hits, salsa, ranking_algorithm, page_search, score_graph, rank_graph, max_score,
  score_nodes,
}
use tlgs.Search.PageSearch.Found.{IsSorting, IsFound, page_search-IsFound}
use tlgs.Tests.MergeRuns.{tools, cons-IsPlacing}
use tlgs.Tests.RankingRuns.{row, links_text, base_rows, zero_hash, is_zero}
use tlgs.Tests.ScoreRuns.{numbers}
use tlgs.Tests.UrlRuns.{run}
use tlgs.Url.{with_host}

abbrev formula : Formula numbers
formula = record {
  less_double = ltb;
  less_float = ltb;
  is_zero_double = is_zero;
  one = 1;
  two = 2;
  exp_of = λ x. x;
  one_over_log = λ n. n;
  times = ◌*◌;
  times_float = ◌*◌;
  add_float = ◌+◌;
  divide_float = ◌/◌;
}

unsorted-IsSorting : IsSorting {A = Ranked ℕ} (λ xs. xs)
unfolding IsSorting
unsorted-IsSorting xs = (λ p. refl, refl)

abbrev first_row : Row ℕ
first_row = row (codes "a") [] (some (codes "0")) 1

abbrev more_rows : List (Row ℕ)
more_rows = row (codes "b") [] (some (codes "1")) 1 ∷ []

page_search-IsFound_example :
    (s : Nodes ℕ) × (g : Graph) × (results : List (Ranked ℕ)) × (build_graph zero_hash is_zero
        links_text
        (first_row ∷ more_rows)
        base_rows
      ≡ some (s, g))
    × (page_search numbers formula zero_hash links_text tools
          (λ node entries. node ∷ entries)
          (λ xs. xs)
          salsa
          (first_row ∷ more_rows)
          base_rows
        ≡ some results)
    × IsFound s.nodes s.is_root results
    × ((q : Bytes → Bool)
        → all (allows is_zero q) (first_row ∷ more_rows ++ base_rows) ≡ true
        → all (λ (r : Ranked ℕ). q r.page.url) results ≡ true)
unfolding bytes_eq
page_search-IsFound_example =
    page_search-IsFound numbers formula zero_hash links_text tools (λ node entries. node ∷ entries)
      (λ xs. xs) salsa first_row more_rows base_rows refl refl refl cons-IsPlacing
      unsorted-IsSorting

-- An unknown name is SALSA.
algorithms :
    map (λ (name : Bytes). ranking_algorithm (some name)) (codes "hits" ∷ codes "pagerank" ∷ [])
    ≡ hits ∷ salsa ∷ []
unfolding bytes_eq
algorithms = refl

abbrev urls : Option (List (Ranked ℕ)) → Option (List Bytes)
urls none = none
urls (some results) = some (map (λ (r : Ranked ℕ). r.page.url) results)

-- The pages a and b have one hash and one path, the empty one of no URL, and are merged.
page_found :
    urls (
      page_search numbers formula zero_hash links_text tools
        (λ node entries. node ∷ entries)
        (λ xs. xs)
        hits
        (first_row ∷ more_rows)
        base_rows)
    ≡ some (codes "a" ∷ [])
unfolding page_search build_graph add_nodes new_node push_at add_edge bytes_eq score_graph
    rank_graph max_score score_nodes hits_rank hits_loop hits_round hits_nodes sum_scores
    merge_nodes merge_node replace_in is_same_page is_mirror run lower with_host
page_found = refl
