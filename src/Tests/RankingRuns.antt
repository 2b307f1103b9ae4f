-- ===== src/Tests/RankingRuns.antt =====
-- tlgs/server/controllers/search.cpp: the graph, the ranking and the pages of the results.
use tlgs.Common.{
  ℕ, ◌≡◌, refl, Bool, true, false, List, [], ◌∷◌, Option, none, some, if◌then◌else◌, Bytes, codes,
  length, ◌==◌, bytes_eq,
}
use tlgs.Common.Lists.{all}
use tlgs.Search.Ranking.Bipartite.{remove_links-crossing}
use tlgs.Search.Ranking.Vectors.{count, crosses, crossing}
use tlgs.Search.Ranking.{remove_links, remove_loop, remove_step, swap, make_bipartite, split_nodes}
use tlgs.Search.Graph.{
  Row, Nodes, Graph, build_graph, salsa_graph, add_nodes, new_node, push_at, add_edge,
}
use tlgs.Search.Graph.Edges.{IsGraph}
use tlgs.Search.Graph.Build.{IsLaid}
use tlgs.Search.Graph.Split.{IsSplit, salsa_graph-IsSplit}
use tlgs.Search.Pages.{current_page_idx, page_range, shown_results}

-- Hubs are the nodes 0 and 2.
abbrev kinds : List Bool
kinds = false ∷ true ∷ false ∷ true ∷ []

abbrev linked : List ℕ
linked = 0 ∷ 1 ∷ 2 ∷ 2 ∷ 3 ∷ 1 ∷ []

-- The last link takes the place of a removed one.
remove_links-crossing_example :
    (out : List ℕ) × (remove_links kinds false linked ≡ some out)
    × (all (crosses kinds false) out ≡ true)
    × ((x : ℕ) → count x out ≡ count x (crossing kinds false linked))
remove_links-crossing_example = remove_links-crossing kinds false linked refl

left_links : remove_links kinds false linked ≡ some (1 ∷ 1 ∷ 3 ∷ [])
unfolding remove_links remove_loop remove_step swap
left_links = refl

abbrev pub row : Bytes → Bytes → Option Bytes → ℕ → Row ℕ
row source dest links rank = record {
  source_url = source;
  dest_url = dest;
  cross_site_links = links;
  content_type = codes "text/gemini";
  size = 1;
  content_hash = [];
  rank = rank;
}

-- The lists of links of the pages a and b.
abbrev pub links_text : Bytes → Option (List Bytes)
links_text s =
    if bytes_eq s (codes "0")
    then some (codes "b" ∷ codes "c" ∷ [])
    else some (codes "b" ∷ codes "d" ∷ [])

abbrev root_rows : List (Row ℕ)
root_rows =
    row (codes "a") [] (some (codes "0")) 1
    ∷ row (codes "b") [] (some (codes "1")) 1
    ∷ row (codes "c") [] none 1
    ∷ []

abbrev pub base_rows : List (Row ℕ)
base_rows =
    row (codes "a") (codes "c") none 0
    ∷ row (codes "d") (codes "c") none 0
    ∷ row (codes "d") (codes "d") none 0
    ∷ []

abbrev pub zero_hash : Bytes → Option ℕ
zero_hash s = some 0

abbrev pub is_zero : ℕ → Bool
is_zero rank = rank == 0

salsa_graph-IsSplit_example :
    (s : Nodes ℕ) × (g : Graph) × (ins outs : List (List ℕ)) × (build_graph zero_hash is_zero
        links_text root_rows base_rows
      ≡ some (s, g))
    × IsLaid s
    × IsGraph (length s.nodes) g.in_neighbous g.out_neighbous
    × (salsa_graph zero_hash is_zero links_text root_rows base_rows ≡ some (ins, outs))
    × IsSplit (length s.nodes) g.in_neighbous g.out_neighbous ins outs
unfolding bytes_eq
salsa_graph-IsSplit_example =
    salsa_graph-IsSplit zero_hash is_zero links_text root_rows base_rows refl refl

-- b is no authority, for it has a link to d: the link from a to b is removed.
split_run :
    salsa_graph zero_hash is_zero links_text root_rows base_rows
    ≡ some ([] ∷ [] ∷ (0 ∷ 0 ∷ 3 ∷ []) ∷ [] ∷ [], (2 ∷ 2 ∷ []) ∷ [] ∷ [] ∷ (2 ∷ []) ∷ [])
unfolding salsa_graph build_graph make_bipartite split_nodes remove_links remove_loop remove_step
    swap add_nodes new_node push_at add_edge bytes_eq
split_run = refl

abbrev found : List ℕ
found = 0 ∷ 1 ∷ 2 ∷ 3 ∷ 4 ∷ 5 ∷ 6 ∷ 7 ∷ 8 ∷ 9 ∷ 10 ∷ 11 ∷ []

second_page : shown_results (some 2) found ≡ some (10 ∷ 11 ∷ [])
unfolding shown_results current_page_idx page_range
second_page = refl

page_zero : shown_results (some 0) found ≡ none
unfolding shown_results current_page_idx page_range
page_zero = refl
