-- ===== src/Search/PageSearch/Found.antt =====
-- The results of `pageSearch` (tlgs/server/controllers/search.cpp).
use tlgs.Common.{
  ℕ, ◌≤◌, ◌≡◌, refl, ap, ◌∙◌, sym, Bool, true, not, List, [], ◌∷◌, ◌++◌, all, any, length, Option,
  some, ◌==◌, Bytes, arith,
}
use tlgs.Search.{RankedResult}
use tlgs.Search.Graph.{Row, Nodes, Graph, build_graph}
use tlgs.Search.Graph.Build.{hashes_readable, pages_readable, build_graph-IsGraph}
use tlgs.Search.Graph.Kept.{root_pages, root_pages-rows, allows, add_nodes-some}
use tlgs.Search.Merge.{Ranked, Tools, merge_nodes}
use tlgs.Search.Merge.Hashes.{IsPlacing, has_hash, any-not-all, merge_nodes-keeps_hashes}
use tlgs.Search.PageSearch.{Formula, RankingAlgorithm, page_search}
use tlgs.Search.PageSearch.Combined.{IsScored, score_graph-IsScored}
use tlgs.Search.Scores.{Numbers}

-- `sort` puts the elements of a list in an order, and does nothing else.
unfoldable pub IsSorting : {A : Type 0} → (List A → List A) → Type 0
IsSorting {A} sort =
    (xs : List A) → ((p : A → Bool) → all p (sort xs) ≡ all p xs) × (length (sort xs) ≡ length xs)

any-sort :
    {A : Type 0} (sort : List A → List A)
    → IsSorting sort
    → (p : A → Bool) (xs : List A) → any p (sort xs) ≡ any p xs
unfolding IsSorting
any-sort sort ok p xs =
    any-not-all p (sort xs) ∙ ap not ((ok xs).0 (λ x. not (p x))) ∙ sym (any-not-all p xs)

-- What is found, by the nodes of the graph and the rows of the database.
pub record IsFound {F : Type 0} (pages : List RankedResult) (roots : List Bool)
    (results : List (Ranked F)) : Type 0 where
  pub from_roots :
      (p : RankedResult → Bool)
      → all p (root_pages pages roots) ≡ true
      → all (λ r. p r.page) results ≡ true
  pub hashes :
      (h : ℕ)
      → any (has_hash h) results
        ≡ any (λ (page : RankedResult). page.content_hash == h) (root_pages pages roots)
  pub count : length results ≤ length pages

module _ (num : Numbers) (f : Formula num) (t : Tools)
    (place : Ranked num.Float → List (Ranked num.Float) → List (Ranked num.Float))
    (sort : List (Ranked num.Float) → List (Ranked num.Float)) (placing : IsPlacing place)
    (sorting : IsSorting sort) where
  sorted-IsFound :
      (pages : List RankedResult) (roots : List Bool) (nodes : List (Ranked num.Float))
      → IsScored num f pages roots nodes
      → IsFound pages roots (sort (merge_nodes f.less_float t place [] nodes))
  unfolding IsScored IsSorting
  sorted-IsFound pages roots nodes (size, scored, hashes) =
      let (every, kept, few) = merge_nodes-keeps_hashes f.less_float t place placing nodes in
      let merged = merge_nodes f.less_float t place [] nodes in
      record {
        from_roots = λ p h.
            (sorting merged).0 (λ (r : Ranked num.Float). p r.page)
            ∙ every (λ (r : Ranked num.Float). p r.page) (scored p ∙ h);
        hashes = λ h. any-sort sort sorting (has_hash h) merged ∙ kept h ∙ hashes h;
        count = omega (arith, (sorting merged).1, few, size);
      }

-- If the database gives a row for the query, the hashes and the lists of links are readable, and a
-- -1 in a float is read back as -1, the search comes to an end without reading outside of a vector,
-- by either ranking, and in whatever order the multimap and the sort put the entries. A property of
-- the URLs of the rows whose rank is not 0 is one of all results; the hashes of their contents are
-- just those of the root set, so that no content is lost; and there are no more of them than nodes.
pub page_search-IsFound :
    (num : Numbers) (f : Formula num) (stoull : Bytes → Option ℕ)
    (parse_links : Bytes → Option (List Bytes)) (t : Tools)
    (place : Ranked num.Float → List (Ranked num.Float) → List (Ranked num.Float))
    (sort : List (Ranked num.Float) → List (Ranked num.Float)) (algo : RankingAlgorithm)
    (row : Row num.Double) (rows links_to_node : List (Row num.Double))
    → num.is_minus_one (num.widen num.minus_one) ≡ true
    → hashes_readable stoull (row ∷ rows ++ links_to_node) ≡ true
    → pages_readable parse_links (row ∷ rows) ≡ true
    → IsPlacing place
    → IsSorting sort
    → (s : Nodes num.Double) × (g : Graph) × (results : List (Ranked num.Float)) × (build_graph
          stoull f.is_zero_double parse_links
          (row ∷ rows)
          links_to_node
        ≡ some (s, g))
      × (page_search num f stoull parse_links t place sort algo (row ∷ rows) links_to_node
          ≡ some results)
      × IsFound s.nodes s.is_root results
      × ((q : Bytes → Bool)
          → all (allows f.is_zero_double q) (row ∷ rows ++ links_to_node) ≡ true
          → all (λ (r : Ranked num.Float). q r.page.url) results ≡ true)
unfolding page_search
page_search-IsFound num f stoull parse_links t place sort algo row rows links_to_node m h k placing
      sorting =
    let (s, g, e, e', laid, ok) =
      build_graph-IsGraph stoull f.is_zero_double parse_links (row ∷ rows) links_to_node h k in
    let (nodes, e'', scored) =
      score_graph-IsScored num f algo s g m
        (add_nodes-some stoull f.is_zero_double row (rows ++ links_to_node) s e') laid ok in
    let found = sorted-IsFound num f t place sort placing sorting s.nodes s.is_root nodes scored in
    (
      s,
      g,
      sort (merge_nodes f.less_float t place [] nodes),
      e,
      rw (e, e'') refl,
      found,
      λ q allowed.
          found.from_roots (λ page. q page.url)
            (root_pages-rows stoull f.is_zero_double q (row ∷ rows ++ links_to_node) s allowed e'),
    )
