-- ===== src/Search/Graph/Build.antt =====
-- The construction of the graph in `pageSearch` (tlgs/server/controllers/search.cpp).
use tlgs.Common.{
  ◌⊎◌, ℕ, suc, ◌<◌, ◌≡◌, refl, sym, ap, ◌∙◌, Bool, true, false, not, List, [], ◌∷◌, ◌++◌, Option,
  none, some, Bytes, length, length-append, all, bytes_eq, bytes_eq_iff, Bool-cases, inl, inr,
  arith,
}
use tlgs.Common.Options.{◌>>=◌}
use tlgs.Search.Graph.{
  Row, Nodes, no_nodes, Graph, get_if_exists, hash_or_zero, new_node, known_or_new, add_nodes,
  edge_if, add_link, add_page_links, read_page, add_pages, add_base_links, no_edges, build_graph,
}
use tlgs.Search.Graph.Edges.{IsGraph, Gives, add_edge-Gives, no_edges-IsGraph}

-- The table gives different pages different nodes, of which there are n.
pub record IsTable (n : ℕ) (table : List (Bytes × ℕ)) : Type 0 where
  pub bound : (u : Bytes) (i : ℕ) → get_if_exists table u ≡ some i → i < n
  pub apart :
      (u v : Bytes) (i : ℕ)
      → get_if_exists table u ≡ some i
      → get_if_exists table v ≡ some i
      → u ≡ v

abbrev cons : Bytes → ℕ → List (Bytes × ℕ) → List (Bytes × ℕ)
cons u i table = (u, i) ∷ table

added-bound :
    (n : ℕ) (table : List (Bytes × ℕ)) (u v : Bytes) (i : ℕ)
    → IsTable n table
    → get_if_exists (cons u n table) v ≡ some i
    → (u ≡ v) × (i ≡ n) ⊎ (get_if_exists table v ≡ some i) × (i < n)
added-bound n table u v i t h = elim (Bool-cases (bytes_eq u v)) [
  | inl e ↦ inl ((bytes_eq_iff u v).0 e, ground (arith, e, h))
  | inr e ↦ let k : get_if_exists table v ≡ some i = ground (arith, e, h) in inr (k, t.bound v i k)
]

added-IsTable :
    (n : ℕ) (table : List (Bytes × ℕ)) (u : Bytes)
    → IsTable n table
    → IsTable (suc n) (cons u n table)
added-IsTable n table u t = record {
  bound = λ v i h. elim (added-bound n table u v i t h) [
    | inl (a, e) ↦ omega arith
    | inr (k, lt) ↦ omega arith
  ];
  apart = λ v w i h k. elim (added-bound n table u v i t h) [
    | inl (a, e) ↦ elim (added-bound n table u w i t k) [
      | inl (b, e') ↦ sym a ∙ b
      | inr (b, lt) ↦ absurd (omega arith)
    ]
    | inr (a, lt) ↦ elim (added-bound n table u w i t k) [
      | inl (b, e') ↦ absurd (omega arith)
      | inr (b, lt') ↦ t.apart v w i a b
    ]
  ];
}

bind-Gives :
    (n : ℕ) (r : Option Graph) (f : Graph → Option Graph)
    → Gives n r
    → ((g : Graph) → IsGraph n g.in_neighbous g.out_neighbous → Gives n (f g))
    → Gives n (r >>= f)
bind-Gives n r f (g, e, ok) h = let (g', e', ok') = h g ok in (g', rw (e) e', ok')

module _ (n : ℕ) (table : List (Bytes × ℕ)) (t : IsTable n table) where
  edge_if-Gives :
      (b : Bool) (u v : Bytes) (o p : Option ℕ) (g : Graph)
      → bytes_eq u v ≡ b
      → get_if_exists table u ≡ o
      → get_if_exists table v ≡ p
      → IsGraph n g.in_neighbous g.out_neighbous
      → Gives n (edge_if b o p g)
  edge_if-Gives true u v o p g e ho hp ok = (g, refl, ok)
  edge_if-Gives false u v none p g e ho hp ok = (g, refl, ok)
  edge_if-Gives false u v (some i) none g e ho hp ok = (g, refl, ok)
  edge_if-Gives false u v (some i) (some j) g e ho hp ok =
      add_edge-Gives n g i j ok (t.bound u i ho) (t.bound v j hp)
        (λ same. ground (arith, e, (bytes_eq_iff u v).1 (t.apart u v j (ho ∙ ap some same) hp)))

  add_link-Gives :
      (g : Graph) (u v : Bytes)
      → IsGraph n g.in_neighbous g.out_neighbous
      → Gives n (add_link table g u v)
  add_link-Gives g u v ok =
      edge_if-Gives (bytes_eq u v) u v (get_if_exists table u) (get_if_exists table v) g refl refl
        refl ok

  add_page_links-Gives :
      (g : Graph) (u : Bytes) (links : List Bytes)
      → IsGraph n g.in_neighbous g.out_neighbous
      → Gives n (add_page_links table g u links)
  add_page_links-Gives g u [] ok = (g, refl, ok)
  add_page_links-Gives g u (v ∷ links) ok =
      bind-Gives n (add_link table g u v) (λ g'. add_page_links table g' u links)
        (add_link-Gives g u v ok) (λ g' ok'. add_page_links-Gives g' u links ok')

  add_base_links-Gives :
      {R : Type 0} (g : Graph) (links : List (Row R))
      → IsGraph n g.in_neighbous g.out_neighbous
      → Gives n (add_base_links table g links)
  add_base_links-Gives g [] ok = (g, refl, ok)
  add_base_links-Gives g (link ∷ links) ok =
      bind-Gives n (add_link table g link.source_url link.dest_url)
        (λ g'. add_base_links table g' links) (add_link-Gives g link.source_url link.dest_url ok)
        (λ g' ok'. add_base_links-Gives g' links ok')

abbrev pub is_some : {A : Type 0} → Option A → Bool
is_some none = false
is_some (some a) = true

some_of : {A : Type 0} (o : Option A) → is_some o ≡ true → (a : A) × (o ≡ some a)
some_of none h = absurd (ground arith)
some_of (some a) h = (a, refl)

-- Can the links of the page be read, where it has some?
abbrev pub links_readable : (Bytes → Option (List Bytes)) → Option Bytes → Bool
links_readable parse_links none = true
links_readable parse_links (some s) = is_some (parse_links s)

abbrev pub pages_readable : {R : Type 0} → (Bytes → Option (List Bytes)) → List (Row R) → Bool
pages_readable parse_links pages =
    all (λ page. links_readable parse_links page.cross_site_links) pages

abbrev pub hashes_readable : {R : Type 0} → (Bytes → Option ℕ) → List (Row R) → Bool
hashes_readable stoull links = all (λ link. is_some (stoull (hash_or_zero link.content_hash))) links

module _ (n : ℕ) (table : List (Bytes × ℕ)) (t : IsTable n table) where
  read_page-Gives :
      (parse_links : Bytes → Option (List Bytes)) (g : Graph) (u : Bytes) (o : Option Bytes)
      → links_readable parse_links o ≡ true
      → IsGraph n g.in_neighbous g.out_neighbous
      → Gives n (read_page parse_links table g u o)
  read_page-Gives parse_links g u none h ok = (g, refl, ok)
  read_page-Gives parse_links g u (some s) h ok =
      let (links, e) = some_of (parse_links s) h in
      rw (e) (add_page_links-Gives n table t g u links ok)

  add_pages-Gives :
      {R : Type 0} (parse_links : Bytes → Option (List Bytes)) (g : Graph) (pages : List (Row R))
      → pages_readable parse_links pages ≡ true
      → IsGraph n g.in_neighbous g.out_neighbous
      → Gives n (add_pages parse_links table g pages)
  add_pages-Gives parse_links g [] h ok = (g, refl, ok)
  add_pages-Gives parse_links g (page ∷ pages) h ok =
      bind-Gives n (read_page parse_links table g page.source_url page.cross_site_links)
        (λ g'. add_pages parse_links table g' pages)
        (read_page-Gives parse_links g page.source_url page.cross_site_links (ground (arith, h)) ok)
        (λ g' ok'. add_pages-Gives parse_links g' pages (ground (arith, h)) ok')

-- The vectors of `pageSearch` have an element for each node, and the table leads to them.
pub record IsLaid {R : Type 0} (s : Nodes R) : Type 0 where
  pub table : IsTable (length s.nodes) s.node_table
  pub ranks : length s.text_rank ≡ length s.nodes
  pub roots : length s.is_root ≡ length s.nodes

abbrev LaysOut : {R : Type 0} → Option (Nodes R) → Type 0
LaysOut {R} r = (s : Nodes R) × (r ≡ some s) × IsLaid s

length-snoc : {A : Type 0} (xs : List A) (x : A) → length (xs ++ x ∷ []) ≡ suc (length xs)
length-snoc xs x = omega (arith, length-append xs (x ∷ []))

module _ {R : Type 0} (stoull : Bytes → Option ℕ) (is_zero : R → Bool) where
  new_node-LaysOut :
      (s : Nodes R) (link : Row R)
      → is_some (stoull (hash_or_zero link.content_hash)) ≡ true
      → IsLaid s
      → LaysOut (new_node stoull is_zero s link)
  unfolding new_node
  new_node-LaysOut s link h ok =
      let (hash, e) = some_of (stoull (hash_or_zero link.content_hash)) h in
      rw (e) (
        _,
        refl,
        record {
          table =
              rw (length-snoc s.nodes _)
                (added-IsTable (length s.nodes) s.node_table link.source_url ok.table);
          ranks = length-snoc s.text_rank link.rank ∙ ap suc ok.ranks ∙ sym (length-snoc s.nodes _);
          roots =
              length-snoc s.is_root (not (is_zero link.rank))
              ∙ ap suc ok.roots
              ∙ sym (length-snoc s.nodes _);
        },
      )

  known_or_new-LaysOut :
      (o : Option ℕ) (s : Nodes R) (link : Row R)
      → is_some (stoull (hash_or_zero link.content_hash)) ≡ true
      → IsLaid s
      → LaysOut (known_or_new stoull is_zero o s link)
  known_or_new-LaysOut (some idx) s link h ok = (s, refl, ok)
  known_or_new-LaysOut none s link h ok = new_node-LaysOut s link h ok

  add_nodes-LaysOut :
      (s : Nodes R) (links : List (Row R))
      → hashes_readable stoull links ≡ true
      → IsLaid s
      → LaysOut (add_nodes stoull is_zero s links)
  unfolding add_nodes
  add_nodes-LaysOut s [] h ok = (s, refl, ok)
  add_nodes-LaysOut s (link ∷ links) h ok =
      let (s', e, ok') =
        known_or_new-LaysOut (get_if_exists s.node_table link.source_url) s link (ground (arith, h))
          ok in
      rw (e) (add_nodes-LaysOut s' links (ground (arith, h)) ok')

  no_nodes-IsLaid : IsLaid (no_nodes {R = R})
  no_nodes-IsLaid = record {
    table = record {
      bound = λ u i h. absurd (ground (arith, h));
      apart = λ u v i h k. absurd (ground (arith, h));
    };
    ranks = refl;
    roots = refl;
  }

-- The graph is built, over nodes that are laid out, if the hashes and the lists of links are
-- readable.
pub build_graph-IsGraph :
    {R : Type 0} (stoull : Bytes → Option ℕ) (is_zero : R → Bool)
    (parse_links : Bytes → Option (List Bytes)) (nodes_of_intrest links_to_node : List (Row R))
    → hashes_readable stoull (nodes_of_intrest ++ links_to_node) ≡ true
    → pages_readable parse_links nodes_of_intrest ≡ true
    → (s : Nodes R) × (g : Graph) × (build_graph stoull is_zero parse_links nodes_of_intrest
          links_to_node
        ≡ some (s, g))
      × (add_nodes stoull is_zero no_nodes (nodes_of_intrest ++ links_to_node) ≡ some s)
      × IsLaid s
      × IsGraph (length s.nodes) g.in_neighbous g.out_neighbous
unfolding build_graph
build_graph-IsGraph stoull is_zero parse_links nodes_of_intrest links_to_node h k =
    let (s, e, laid) =
      add_nodes-LaysOut stoull is_zero no_nodes (nodes_of_intrest ++ links_to_node) h
        (no_nodes-IsLaid stoull is_zero) in
    let (g, e', ok) =
      add_pages-Gives (length s.nodes) s.node_table laid.table parse_links (no_edges s.nodes)
        nodes_of_intrest k (no_edges-IsGraph s.nodes) in
    let (g', e'', ok') =
      add_base_links-Gives (length s.nodes) s.node_table laid.table g links_to_node ok in
    (s, g', rw (e, e', e'') refl, e, laid, ok')
