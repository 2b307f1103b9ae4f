-- ===== src/Search/Graph.antt =====
-- The graph of the pages found, in `pageSearch` of tlgs/server/controllers/search.cpp. The rank of
-- a page is a floating-point number of a type `R`, of which only the comparison with 0 is used
-- here. An exception, and reading outside of a vector, are `none`.
pub mod Edges
pub mod Build
pub mod Split
pub mod Kept
use tlgs.Common.{
  ℕ, zero, suc, ◌+◌, Bool, true, false, not, ◌||◌, List, [], ◌∷◌, ◌++◌, map, Option, none, some,
  if◌then◌else◌, Bytes, codes, is_empty, length, bytes_eq,
}
use tlgs.Search.{RankedResult}
use tlgs.Common.Options.{◌>>=◌}
use tlgs.Search.Ranking.{get_elem?, set, make_bipartite}

-- A row of either query; `dest_url` is read from those of the second, `cross_site_links` from the
-- first.
pub record Row (R : Type 0) : Type 0 where
  pub source_url : Bytes
  pub dest_url : Bytes
  pub cross_site_links : Option Bytes
  pub content_type : Bytes
  pub size : ℕ
  pub content_hash : Bytes
  pub rank : R

pub record Nodes (R : Type 0) : Type 0 where
  pub node_table : List (Bytes × ℕ)
  pub nodes : List RankedResult
  pub text_rank : List R
  pub is_root : List Bool

abbrev pub no_nodes : {R : Type 0} → Nodes R
no_nodes = record { node_table = []; nodes = []; text_rank = []; is_root = [] }

-- getIfExists
abbrev pub get_if_exists : List (Bytes × ℕ) → Bytes → Option ℕ
get_if_exists [] name = none
get_if_exists ((key, idx) ∷ table) name =
    let rest = get_if_exists table name in if bytes_eq key name then some idx else rest

abbrev pub hash_or_zero : Bytes → Bytes
hash_or_zero s = if is_empty s then codes "0" else s

-- `stoull` is std::stoull to the base 16.
module _ {R : Type 0} (stoull : Bytes → Option ℕ) (is_zero : R → Bool) where
  unfoldable pub new_node : Nodes R → Row R → Option (Nodes R)
  new_node s link = do
    hash ← stoull (hash_or_zero link.content_hash)
    some (record {
      node_table = (link.source_url, length s.nodes) ∷ s.node_table;
      nodes =
          s.nodes
          ++ record {
            url = link.source_url;
            content_type = link.content_type;
            size = link.size;
            content_hash = hash;
          }
            ∷ [];
      text_rank = s.text_rank ++ link.rank ∷ [];
      is_root = s.is_root ++ not (is_zero link.rank) ∷ [];
    })

  abbrev pub known_or_new : Option ℕ → Nodes R → Row R → Option (Nodes R)
  known_or_new (some idx) s link = some s
  known_or_new none s link = new_node s link

  unfoldable pub add_nodes : Nodes R → List (Row R) → Option (Nodes R)
  add_nodes s [] = some s
  add_nodes s (link ∷ links) = do
    s' ← known_or_new (get_if_exists s.node_table link.source_url) s link
    add_nodes s' links

pub record Graph : Type 0 where
  pub out_neighbous : List (List ℕ)
  pub in_neighbous : List (List ℕ)

-- `vs[i].push_back(x)`
unfoldable pub push_at : List (List ℕ) → ℕ → ℕ → Option (List (List ℕ))
push_at vs i x = do v ← get_elem? vs i; some (set vs i (v ++ x ∷ []))

unfoldable pub add_edge : Graph → ℕ → ℕ → Option Graph
add_edge g source dest = do
  outs ← push_at g.out_neighbous source dest
  ins ← push_at g.in_neighbous dest source
  some (record { out_neighbous = outs; in_neighbous = ins })

abbrev pub edge_if : Bool → Option ℕ → Option ℕ → Graph → Option Graph
edge_if true source dest g = some g
edge_if false none dest g = some g
edge_if false (some source) none g = some g
edge_if false (some source) (some dest) g = add_edge g source dest

-- One link: none is added if an end is no node, or the two are one page.
abbrev pub add_link : List (Bytes × ℕ) → Graph → Bytes → Bytes → Option Graph
add_link table g source_url dest_url =
    edge_if (bytes_eq source_url dest_url) (get_if_exists table source_url)
      (get_if_exists table dest_url) g

abbrev pub add_page_links : List (Bytes × ℕ) → Graph → Bytes → List Bytes → Option Graph
add_page_links table g source_url [] = some g
add_page_links table g source_url (link ∷ links) = do
  g' ← add_link table g source_url link
  add_page_links table g' source_url links

-- `parse_links` reads a JSON array of strings.
abbrev pub read_page :
    (Bytes → Option (List Bytes)) → List (Bytes × ℕ) → Graph → Bytes → Option Bytes → Option Graph
read_page parse_links table g source_url none = some g
read_page parse_links table g source_url (some links_str) = do
  links ← parse_links links_str
  add_page_links table g source_url links

abbrev pub add_pages :
    {R : Type 0}
    → (Bytes → Option (List Bytes))
    → List (Bytes × ℕ)
    → Graph
    → List (Row R)
    → Option Graph
add_pages parse_links table g [] = some g
add_pages parse_links table g (page ∷ pages) = do
  g' ← read_page parse_links table g page.source_url page.cross_site_links
  add_pages parse_links table g' pages

abbrev pub add_base_links : {R : Type 0} → List (Bytes × ℕ) → Graph → List (Row R) → Option Graph
add_base_links table g [] = some g
add_base_links table g (link ∷ links) = do
  g' ← add_link table g link.source_url link.dest_url
  add_base_links table g' links

abbrev pub no_links : {A : Type 0} → List A → List (List ℕ)
no_links nodes = map (λ _. []) nodes

abbrev pub no_edges : {A : Type 0} → List A → Graph
no_edges nodes = record { out_neighbous = no_links nodes; in_neighbous = no_links nodes }

-- pageSearch, from the two results of the database to the graph.
unfoldable pub build_graph :
    {R : Type 0}
    → (Bytes → Option ℕ)
    → (R → Bool)
    → (Bytes → Option (List Bytes))
    → List (Row R)
    → List (Row R)
    → Option (Nodes R × Graph)
build_graph stoull is_zero parse_links nodes_of_intrest links_to_node = do
  s ← add_nodes stoull is_zero no_nodes (nodes_of_intrest ++ links_to_node)
  g ← add_pages parse_links s.node_table (no_edges s.nodes) nodes_of_intrest
  g' ← add_base_links s.node_table g links_to_node
  some (s, g')

-- The neighbours that `salsaRank` goes by.
unfoldable pub salsa_graph :
    {R : Type 0}
    → (Bytes → Option ℕ)
    → (R → Bool)
    → (Bytes → Option (List Bytes))
    → List (Row R)
    → List (Row R)
    → Option (List (List ℕ) × List (List ℕ))
salsa_graph stoull is_zero parse_links nodes_of_intrest links_to_node = do
  (s, g) ← build_graph stoull is_zero parse_links nodes_of_intrest links_to_node
  make_bipartite g.in_neighbous g.out_neighbous
