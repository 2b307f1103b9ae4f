-- ===== src/Search/Graph/Split.antt =====
-- The graph that `salsaRank` goes by (tlgs/server/controllers/search.cpp), from that of
-- `pageSearch`.
pub mod Kinds
unfoldable pub use Kinds.*
use tlgs.Common.{
  ℕ, zero, suc, ◌≤◌, ◌≡◌, refl, sym, ap, ◌∙◌, Bool, true, false, List, [], ◌∷◌, ◌++◌, ltb, ◌==◌,
  Option, none, some, if◌then◌else◌, Bytes, length, Bool-cases, inl, inr, arith,
}
use tlgs.Search.{xor}
use tlgs.Search.Ranking.{get_elem?, tell_kinds, split_nodes, make_bipartite}
use tlgs.Search.Ranking.Bipartite.{remove_links-crossing}
use tlgs.Search.Ranking.Vectors.{count, differs, crosses, crossing, below}
use tlgs.Search.Graph.{Row, Nodes, Graph, build_graph, salsa_graph}
use tlgs.Search.Graph.Edges.{links_of, IsGraph, out_of_range}
use tlgs.Search.Graph.Build.{IsLaid, hashes_readable, pages_readable, build_graph-IsGraph}

-- What is left of the edge from i to j, which has been there m times.
abbrev pub left_of : List (List ℕ) → List (List ℕ) → ℕ → ℕ → ℕ → ℕ
left_of ins outs i j m = if xor (is_authority ins outs i) (is_authority ins outs j) then m else 0

none_beyond {ℓ} : {A : Type ℓ} (xs : List A) (j : ℕ) → get_elem? xs j ≡ none → length xs ≤ j
none_beyond [] j h = omega arith
none_beyond (x ∷ xs) zero h = absurd (ground arith)
none_beyond (x ∷ xs) (suc j) h = omega (arith, none_beyond xs j h)

differs_or_none :
    (o : Option Bool) (here : Bool) (m : ℕ)
    → (o ≡ none → m ≡ 0)
    → (if differs o here then m else 0) ≡ (if xor here (or_false o) then m else 0)
differs_or_none none here m h = ground (arith, h refl)
differs_or_none (some b) here m h = ground arith

module _ (n : ℕ) (ins outs : List (List ℕ)) (g : IsGraph n ins outs) where
  same_length : length ins ≡ length outs
  same_length = g.length-ins ∙ sym g.length-outs

  abbrev kinds : List Bool
  kinds = tell_kinds ins outs

  length-kinds : length kinds ≡ n
  length-kinds = length-tell_kinds ins outs same_length ∙ g.length-ins

  count-kept :
      (vs : List (List ℕ)) (i j : ℕ)
      → (n ≤ j → count j (links_of vs i) ≡ 0)
      → count j (crossing kinds (kind_of kinds i) (links_of vs i))
        ≡ left_of ins outs i j (count j (links_of vs i))
  count-kept vs i j beyond =
      count-crossing kinds (kind_of kinds i) j (links_of vs i)
      ∙ differs_or_none (get_elem? kinds j) (kind_of kinds i) (count j (links_of vs i))
          (λ e. beyond (omega (arith, none_beyond kinds j e, length-kinds)))
      ∙ rw (kind_of-tell_kinds ins outs i same_length, kind_of-tell_kinds ins outs j same_length)
          refl

-- The graph over n nodes with the edges between the two kinds of its nodes, and no other ones.
unfoldable pub IsSplit : ℕ → List (List ℕ) → List (List ℕ) → List (List ℕ) → List (List ℕ) → Type 0
IsSplit n ins outs ins' outs' =
    IsGraph n ins' outs'
    × ((i j : ℕ) → count j (links_of outs' i) ≡ left_of ins outs i j (count j (links_of outs i)))

left_of-zero : (ins outs : List (List ℕ)) (i j : ℕ) → left_of ins outs i j 0 ≡ 0
left_of-zero ins outs i j = ground arith

left_of-turned :
    (ins outs : List (List ℕ)) (i j m : ℕ) → left_of ins outs i j m ≡ left_of ins outs j i m
left_of-turned ins outs i j m = ground arith

pub make_bipartite-IsSplit :
    (n : ℕ) (ins outs : List (List ℕ))
    → IsGraph n ins outs
    → (ins' outs' : List (List ℕ)) × (make_bipartite ins outs ≡ some (ins', outs'))
      × IsSplit n ins outs ins' outs'
unfolding make_bipartite IsSplit Kept
make_bipartite-IsSplit n ins outs g =
    let size = length-kinds n ins outs g in
    let (ins', outs', e, (li, ci), (lo, co)) =
      split_nodes-Kept (tell_kinds ins outs) (tell_kinds ins outs) ins outs
        (length-tell_kinds ins outs (same_length n ins outs g)) (same_length n ins outs g)
        (λ k. rw (size) (below_of_graph n outs ins (turned n ins outs g) k))
        (λ k. rw (size) (below_of_graph n ins outs g k)) in
    let out_count : (i j : ℕ)
        → count j (links_of outs' i) ≡ left_of ins outs i j (count j (links_of outs i)) =
      λ i j. co i j ∙ count-kept n ins outs g outs i j (g.in_nodes i j) in
    let in_count : (i j : ℕ)
        → count j (links_of ins' i) ≡ left_of ins outs i j (count j (links_of ins i)) =
      λ i j. ci i j ∙ count-kept n ins outs g ins i j ((turned n ins outs g).in_nodes i j) in
    (
      ins',
      outs',
      e,
      (
        record {
          length-ins = li ∙ g.length-ins;
          length-outs = lo ∙ g.length-outs;
          mirrored = λ i j.
              out_count i j
              ∙ ap (left_of ins outs i j) (g.mirrored i j)
              ∙ left_of-turned ins outs i j (count i (links_of ins j))
              ∙ sym (in_count j i);
          no_loops = λ i.
              out_count i i ∙ ap (left_of ins outs i i) (g.no_loops i) ∙ left_of-zero ins outs i i;
          in_nodes = λ i j h.
              out_count i j
              ∙ ap (left_of ins outs i j) (g.in_nodes i j h)
              ∙ left_of-zero ins outs i j;
        },
        out_count,
      ),
    )

-- If the hashes and the lists of links are readable, the search builds a graph of its pages, and
-- the ranking makes of it one over the same nodes that has the edges between hubs and authorities,
-- each as often as before, and no other ones. In both graphs each edge stands as often with its
-- source as with its target, none leads from a node to itself, and all ends are nodes.
pub salsa_graph-IsSplit :
    {R : Type 0} (stoull : Bytes → Option ℕ) (is_zero : R → Bool)
    (parse_links : Bytes → Option (List Bytes)) (nodes_of_intrest links_to_node : List (Row R))
    → hashes_readable stoull (nodes_of_intrest ++ links_to_node) ≡ true
    → pages_readable parse_links nodes_of_intrest ≡ true
    → (s : Nodes R) × (g : Graph) × (ins outs : List (List ℕ)) × (build_graph stoull is_zero
          parse_links nodes_of_intrest links_to_node
        ≡ some (s, g))
      × IsLaid s
      × IsGraph (length s.nodes) g.in_neighbous g.out_neighbous
      × (salsa_graph stoull is_zero parse_links nodes_of_intrest links_to_node ≡ some (ins, outs))
      × IsSplit (length s.nodes) g.in_neighbous g.out_neighbous ins outs
unfolding salsa_graph
salsa_graph-IsSplit stoull is_zero parse_links nodes_of_intrest links_to_node h k =
    let (s, g, e, _, laid, ok) =
      build_graph-IsGraph stoull is_zero parse_links nodes_of_intrest links_to_node h k in
    let (ins, outs, e', split) =
      make_bipartite-IsSplit (length s.nodes) g.in_neighbous g.out_neighbous ok in
    (s, g, ins, outs, e, laid, ok, rw (e, e') refl, split)
