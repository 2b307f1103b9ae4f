-- ===== src/Search/PageSearch.antt =====
-- The whole of `pageSearch` of tlgs/server/controllers/search.cpp, from the two results of the
-- database to the results of the search, and the choice of the ranking in the constructor of
-- SearchController. The numbers are those of Search.Scores, with the operations of the formula for
-- the score of a page. Reading outside of a vector, and an exception, are `none`.
pub mod Combined
pub mod Found
use tlgs.Common.{
  ℕ, ◌-◌, ◌/◌, Bool, true, false, List, [], ◌∷◌, ltb, Option, none, some, if◌then◌else◌, Bytes,
  codes, bytes_eq,
}
use tlgs.Search.{RankedResult}
use tlgs.Search.Graph.{Row, Nodes, Graph, build_graph}
use tlgs.Search.Hits.{hits_rank}
use tlgs.Search.Merge.{Ranked, Tools, merge_nodes}
use tlgs.Common.Options.{◌>>=◌}
use tlgs.Search.Scores.{Numbers, salsa_rank}

pub data RankingAlgorithm : Type 0 where
  hits : RankingAlgorithm
  salsa : RankingAlgorithm

-- The entry "ranking_algo" of the configuration, if there is one.
abbrev pub ranking_algorithm : Option Bytes → RankingAlgorithm
ranking_algorithm none = salsa
ranking_algorithm (some algo) = if bytes_eq algo (codes "hits") then hits else salsa

-- What the formula uses besides: the comparisons, `exp(x * 6.5)`, `1/log(e + n)`, and the
-- arithmetic of float.
pub record Formula (num : Numbers) : Type 0 where
  pub less_double : num.Double → num.Double → Bool
  pub less_float : num.Float → num.Float → Bool
  pub is_zero_double : num.Double → Bool
  pub one : num.Float
  pub two : num.Float
  pub exp_of : num.Double → num.Double
  pub one_over_log : ℕ → num.Double
  pub times : num.Double → num.Double → num.Double
  pub times_float : num.Float → num.Float → num.Float
  pub add_float : num.Float → num.Float → num.Float
  pub divide_float : num.Float → num.Float → num.Float

module _ (num : Numbers) (f : Formula num) where
  -- std::max_element
  abbrev pub max_from : num.Double → List num.Double → num.Double
  max_from x [] = x
  max_from x (y ∷ ys) = max_from (if f.less_double x y then y else x) ys

  abbrev pub one_if_zero : num.Float → num.Float
  one_if_zero x = if num.is_zero x then f.one else x

  -- The largest score, in a float; there is none to read in an empty vector.
  unfoldable pub max_score : List num.Double → Option num.Float
  max_score [] = none
  max_score (x ∷ xs) = some (one_if_zero (num.narrow (max_from x xs)))

  -- "discourage pages too large"
  abbrev pub discourage : ℕ → num.Float → num.Float
  discourage size rank =
      if ltb 48000 size
      then num.narrow (f.times (num.widen rank) (f.one_over_log ((size - 48000) / 3000)))
      else rank

  abbrev pub combined : num.Float → num.Double → num.Double → ℕ → num.Float
  combined max score text_rank size =
      let boost = num.narrow (f.exp_of (num.divide score (num.widen max))) in
      let rank = discourage size (num.narrow text_rank) in
      f.divide_float (f.times_float f.two (f.times_float boost rank)) (f.add_float boost rank)

  -- The nodes from i on, with their elements of the other vectors.
  unfoldable pub score_nodes :
      num.Float
      → List RankedResult
      → List num.Double
      → List num.Double
      → List Bool
      → Option (List (Ranked num.Float))
  score_nodes max [] scores text_ranks roots = some []
  score_nodes max (node ∷ nodes) (score ∷ scores) (text_rank ∷ text_ranks) (is_root ∷ roots) = do
    rest ← score_nodes max nodes scores text_ranks roots
    some (
        record { page = node; score = combined max score text_rank node.size; is_root = is_root }
        ∷ rest)
  score_nodes max (node ∷ nodes) scores text_ranks roots = none

  unfoldable pub rank_graph : RankingAlgorithm → Graph → Option (List num.Double)
  rank_graph hits g = hits_rank num g.in_neighbous g.out_neighbous
  rank_graph salsa g = salsa_rank num g.in_neighbous g.out_neighbous

  unfoldable pub score_graph :
      RankingAlgorithm → Nodes num.Double → Graph → Option (List (Ranked num.Float))
  score_graph algo s g = do
    score ← rank_graph algo g
    max ← max_score score
    score_nodes max s.nodes score s.text_rank s.is_root

  -- `place` puts an entry into the multimap, and `sort` is std::sort with the higher score first.
  module _ (stoull : Bytes → Option ℕ) (parse_links : Bytes → Option (List Bytes)) (t : Tools)
      (place : Ranked num.Float → List (Ranked num.Float) → List (Ranked num.Float))
      (sort : List (Ranked num.Float) → List (Ranked num.Float)) where
    abbrev pub search_rows :
        RankingAlgorithm
        → List (Row num.Double)
        → List (Row num.Double)
        → Option (List (Ranked num.Float))
    search_rows algo nodes_of_intrest links_to_node = do
      (s, g) ← build_graph stoull f.is_zero_double parse_links nodes_of_intrest links_to_node
      nodes ← score_graph algo s g
      some (sort (merge_nodes f.less_float t place [] nodes))

    unfoldable pub page_search :
        RankingAlgorithm
        → List (Row num.Double)
        → List (Row num.Double)
        → Option (List (Ranked num.Float))
    page_search algo [] links_to_node = some []
    page_search algo (row ∷ nodes_of_intrest) links_to_node =
        search_rows algo (row ∷ nodes_of_intrest) links_to_node
