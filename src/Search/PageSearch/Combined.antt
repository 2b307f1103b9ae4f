-- ===== src/Search/PageSearch/Combined.antt =====
-- The scores that `pageSearch` (tlgs/server/controllers/search.cpp) gives to the nodes.
use tlgs.Common.{
  ℕ, suc, ◌≤◌, ◌≡◌, refl, ap, Bool, true, false, not, ◌||◌, List, [], ◌∷◌, all, any, length, some,
  ◌==◌, arith,
}
use tlgs.Search.{RankedResult}
use tlgs.Search.Graph.{Nodes, Graph}
use tlgs.Search.Graph.Build.{IsLaid}
use tlgs.Search.Graph.Edges.{IsGraph}
use tlgs.Search.Graph.Kept.{root_pages}
use tlgs.Search.Hits.Total.{hits_rank-total}
use tlgs.Search.Merge.{Ranked}
use tlgs.Search.Merge.Hashes.{root_with}
use tlgs.Search.PageSearch.{
  Formula, RankingAlgorithm, hits, salsa, max_score, score_nodes, rank_graph, score_graph,
  one_if_zero, max_from, combined,
}
use tlgs.Search.Scores.{Numbers}
use tlgs.Search.Scores.Total.{salsa_rank-total}

module _ (num : Numbers) (f : Formula num) where
  rank_graph-total :
      (algo : RankingAlgorithm) (n : ℕ) (g : Graph)
      → num.is_minus_one (num.widen num.minus_one) ≡ true
      → IsGraph n g.in_neighbous g.out_neighbous
      → (score : List num.Double) × (rank_graph num f algo g ≡ some score) × (length score ≡ n)
  unfolding rank_graph
  rank_graph-total hits n g m ok = hits_rank-total num n g.in_neighbous g.out_neighbous ok
  rank_graph-total salsa n g m ok = salsa_rank-total num n g.in_neighbous g.out_neighbous m ok

  max_score-total :
      (scores : List num.Double)
      → 1 ≤ length scores
      → (max : num.Float) × (max_score num f scores ≡ some max)
  unfolding max_score
  max_score-total [] h = absurd (omega (arith, h))
  max_score-total (x ∷ xs) h = (one_if_zero num f (num.narrow (max_from num f x xs)), refl)

  -- The nodes as they were, with the flags of the root set.
  unfoldable pub IsScored : List RankedResult → List Bool → List (Ranked num.Float) → Type 0
  IsScored pages roots nodes =
      (length nodes ≡ length pages)
      × ((p : RankedResult → Bool)
          → all (λ (n : Ranked num.Float). not n.is_root || p n.page) nodes
            ≡ all p (root_pages pages roots))
      × ((h : ℕ)
          → any (root_with h) nodes
            ≡ any (λ (page : RankedResult). page.content_hash == h) (root_pages pages roots))

  abbrev with_score : num.Float → RankedResult → num.Double → num.Double → Bool → Ranked num.Float
  with_score max page score text_rank is_root = record {
    page = page;
    score = combined num f max score text_rank page.size;
    is_root = is_root;
  }

  IsScored-cons :
      (max : num.Float) (page : RankedResult) (score text_rank : num.Double) (is_root : Bool)
      (pages : List RankedResult) (roots : List Bool) (nodes : List (Ranked num.Float))
      → IsScored pages roots nodes
      → IsScored
          (page ∷ pages)
          (is_root ∷ roots)
          (with_score max page score text_rank is_root ∷ nodes)
  unfolding IsScored
  IsScored-cons max page score text_rank true pages roots nodes (a, b, c) =
      (ap suc a, λ p. ground (arith, b p), λ h. ground (arith, c h))
  IsScored-cons max page score text_rank false pages roots nodes (a, b, c) =
      (ap suc a, λ p. ground (arith, b p), λ h. ground (arith, c h))

  score_nodes-IsScored :
      (max : num.Float) (pages : List RankedResult) (scores text_ranks : List num.Double)
      (roots : List Bool)
      → length scores ≡ length pages
      → length text_ranks ≡ length pages
      → length roots ≡ length pages
      → (nodes : List (Ranked num.Float)) × (score_nodes num f max pages scores text_ranks roots
          ≡ some nodes)
        × IsScored pages roots nodes
  unfolding score_nodes IsScored
  score_nodes-IsScored max [] scores text_ranks roots a b c =
      ([], refl, (refl, λ p. refl, λ h. refl))
  score_nodes-IsScored max (page ∷ pages) [] text_ranks roots a b c = absurd (omega (arith, a))
  score_nodes-IsScored max (page ∷ pages) (x ∷ scores) [] roots a b c = absurd (omega (arith, b))
  score_nodes-IsScored max (page ∷ pages) (x ∷ scores) (y ∷ text_ranks) [] a b c =
      absurd (omega (arith, c))
  score_nodes-IsScored max (page ∷ pages) (x ∷ scores) (y ∷ text_ranks) (is_root ∷ roots) a b c =
      let (nodes, e, ok) =
        score_nodes-IsScored max pages scores text_ranks roots (omega (arith, a)) (omega (arith, b))
          (omega (arith, c)) in
      (
        with_score max page x y is_root ∷ nodes,
        rw (e) refl,
        IsScored-cons max page x y is_root pages roots nodes ok,
      )

  -- Either ranking scores the nodes of a graph.
  pub score_graph-IsScored :
      (algo : RankingAlgorithm) (s : Nodes num.Double) (g : Graph)
      → num.is_minus_one (num.widen num.minus_one) ≡ true
      → 1 ≤ length s.nodes
      → IsLaid s
      → IsGraph (length s.nodes) g.in_neighbous g.out_neighbous
      → (nodes : List (Ranked num.Float)) × (score_graph num f algo s g ≡ some nodes)
        × IsScored s.nodes s.is_root nodes
  unfolding score_graph
  score_graph-IsScored algo s g m h laid ok =
      let (score, e, size) = rank_graph-total algo (length s.nodes) g m ok in
      let (max, e') = max_score-total score (omega (arith, size, h)) in
      let (nodes, e'', scored) =
        score_nodes-IsScored max s.nodes score s.text_rank s.is_root size laid.ranks laid.roots in
      (nodes, rw (e, e') e'', scored)
