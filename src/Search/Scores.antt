-- ===== src/Search/Scores.antt =====
-- The scores of `hitsRank` and `salsaRank` in tlgs/server/controllers/search.cpp. The numbers are
-- of any types with the operations that the loops use, in the order in which they use them. Reading
-- outside of a vector is `none`.
pub mod Total
pub mod Terms
use tlgs.Common.{
  ℕ, zero, suc, ◌+◌, Bool, true, false, not, List, [], ◌∷◌, ltb, Option, none, some, if◌then◌else◌,
  length, map,
}
use tlgs.Common.Options.{◌>>=◌}
use tlgs.Search.Ranking.{get_elem?, set, tell_kinds, make_bipartite}

-- double, float, and what the two loops do with them. A comparison with a bound, `max(x, 1.0)` and
-- the quotients of 1 have their constants inside, so that each function has numbers of its own.
pub record Numbers : Type 1 where
  pub Double : Type 0
  pub Float : Type 0
  pub zero_double : Double
  pub zero_float : Float
  pub minus_one : Float
  pub start_delta : Float
  pub widen : Float → Double
  pub narrow : Double → Float
  pub add : Double → Double → Double
  pub divide : Double → Double → Double
  pub divide_size : Double → ℕ → Double
  pub one_over : ℕ → Double
  pub distance : Double → Double → Double
  pub at_least_one : Double → Double
  pub is_minus_one : Double → Bool
  pub is_zero : Float → Bool
  pub is_tiny : Double → Bool
  pub above_epsilon : Float → Bool

abbrev pub at_least_1 : ℕ → ℕ
at_least_1 n = if ltb n 1 then 1 else n

module _ (num : Numbers) where
  -- std::accumulate with 0.0
  abbrev pub accumulate : num.Double → List num.Double → num.Double
  accumulate sum [] = sum
  accumulate sum (x ∷ xs) = accumulate (num.add sum x) xs

  -- `x += y` for a float x
  abbrev pub add_to_float : num.Float → num.Double → num.Float
  add_to_float x y = num.narrow (num.add (num.widen x) y)

  -- The score of a neighbour: of what `links` leads to, each score is told out among the links of
  -- `back`, and the sum among those of the neighbour.
  unfoldable pub sum_shares :
      List (List ℕ) → List num.Double → num.Double → List ℕ → Option num.Double
  sum_shares back score sum [] = some sum
  sum_shares back score sum (idx2 ∷ rest) = do
    x ← get_elem? score idx2
    ns ← get_elem? back idx2
    sum_shares back score (num.add sum (num.divide_size x (at_least_1 (length ns)))) rest

  unfoldable pub neighbour_score :
      List (List ℕ) → List (List ℕ) → List num.Double → ℕ → Option num.Double
  neighbour_score links back score idx = do
    ns ← get_elem? links idx
    sum ← sum_shares back score num.zero_double ns
    some (num.divide_size sum (at_least_1 (length ns)))

  -- The score from the vector of those that are known, or a new one, which is put there.
  unfoldable pub known_score :
      List (List ℕ)
      → List (List ℕ)
      → List num.Double
      → List num.Float
      → ℕ
      → Option (num.Double × List num.Float)
  known_score links back score local idx = do
    x ← get_elem? local idx
    (if num.is_minus_one (num.widen x)
        then (do y ← neighbour_score links back score idx; some (y, set local idx (num.narrow y)))
        else some (num.widen x, local))

  unfoldable pub sum_neighbours :
      List (List ℕ)
      → List (List ℕ)
      → List num.Double
      → List num.Float
      → num.Double
      → List ℕ
      → Option (num.Double × List num.Float)
  sum_neighbours links back score local sum [] = some (sum, local)
  sum_neighbours links back score local sum (idx ∷ rest) = do
    (y, local') ← known_score links back score local idx
    sum_neighbours links back score local' (num.add sum y) rest

  module _ (ins outs : List (List ℕ)) (score : List num.Double) where
    -- A node with its links; the vectors are those for the scores by inbound and by outbound links.
    unfoldable pub salsa_node :
        Bool
        → List ℕ
        → List ℕ
        → List num.Float
        → List num.Float
        → Option (num.Double × List num.Float × List num.Float)
    salsa_node true in_links out_links local_in local_out = do
      (y, local_out') ← sum_neighbours outs ins score local_out num.zero_double in_links
      some (y, local_in, local_out')
    salsa_node false in_links out_links local_in local_out = do
      (y, local_in') ← sum_neighbours ins outs score local_in num.zero_double out_links
      some (y, local_in', local_out)

    -- The nodes from i on.
    unfoldable pub salsa_nodes :
        List Bool
        → List (List ℕ)
        → List (List ℕ)
        → List num.Float
        → List num.Float
        → Option (List num.Double)
    salsa_nodes (is_auth ∷ kinds) (in_links ∷ in_rest) (out_links ∷ out_rest) local_in local_out =
        do
          (y, local_in', local_out') ← salsa_node is_auth in_links out_links local_in local_out
          ys ← salsa_nodes kinds in_rest out_rest local_in' local_out'
          some (y ∷ ys)
    salsa_nodes kinds in_rest out_rest local_in local_out = some []

  -- The last loop of a round, from the new scores and the old ones.
  abbrev pub salsa_scale :
      num.Double → num.Float → List num.Double → List num.Double → List num.Double × num.Float
  salsa_scale sum delta (y ∷ ys) (x ∷ xs) =
      let z = num.divide y sum in
      let (rest, delta') = salsa_scale sum (add_to_float delta (num.distance z x)) ys xs in
      (z ∷ rest, delta')
  salsa_scale sum delta ys xs = ([], delta)

  abbrev pub unset : List Bool → List num.Float
  unset kinds = map (λ _. num.minus_one) kinds

  unfoldable pub salsa_round :
      List Bool
      → List (List ℕ)
      → List (List ℕ)
      → List num.Double
      → Option (List num.Double × num.Float)
  salsa_round is_auth ins outs score = do
    new_score ← salsa_nodes ins outs score is_auth ins outs (unset is_auth) (unset is_auth)
    some (
        salsa_scale (num.at_least_one (accumulate num.zero_double score)) num.zero_float new_score
          score)

  -- `n` rounds are left.
  unfoldable pub salsa_loop :
      ℕ
      → List Bool
      → List (List ℕ)
      → List (List ℕ)
      → List num.Double
      → num.Float
      → Option (List num.Double)
  salsa_loop zero is_auth ins outs score delta = some score
  salsa_loop (suc n) is_auth ins outs score delta = elim (num.above_epsilon delta) [
    | true ↦ do
      (score', delta') ← salsa_round is_auth ins outs score
      salsa_loop n is_auth ins outs score' delta'
    | false ↦ some score
  ]

  abbrev pub count_kind : Bool → List Bool → ℕ
  count_kind kind [] = 0
  count_kind kind (b ∷ bs) = (if (if kind then b else not b) then 1 else 0) + count_kind kind bs

  abbrev pub first_scores : List Bool → List num.Double
  first_scores is_auth = map (λ b. num.one_over (count_kind b is_auth)) is_auth

  unfoldable pub salsa_rank : List (List ℕ) → List (List ℕ) → Option (List num.Double)
  salsa_rank in_neighbous out_neighbous = do
    let is_auth = tell_kinds in_neighbous out_neighbous
    (ins, outs) ← make_bipartite in_neighbous out_neighbous
    salsa_loop 300 is_auth ins outs (first_scores is_auth) num.start_delta
