-- ===== src/Tests/ScoreRuns.antt =====
-- `hitsRank` and `salsaRank` of tlgs/server/controllers/search.cpp, on whole numbers.
use tlgs.Common.{
  ℕ, zero, suc, ◌+◌, ◌-◌, ◌*◌, ◌/◌, ◌≤◌, ◌≡◌, refl, Bool, true, false, List, [], ◌∷◌, some, ltb,
  ◌==◌, if◌then◌else◌, length, arith,
}
use tlgs.Search.Ranking.{make_bipartite, split_nodes, remove_links, remove_loop, remove_step, swap}
use tlgs.Search.Ranking.Vectors.{count, below}
use tlgs.Search.Graph.Edges.{IsGraph, links_of}
use tlgs.Search.Scores.{
  Numbers, accumulate, salsa_scale, salsa_round, salsa_nodes, salsa_node, sum_neighbours,
  known_score, neighbour_score, sum_shares, salsa_rank, salsa_loop,
}
use tlgs.Search.Scores.Terms.{NodeScores}
use tlgs.Search.Scores.Total.{salsa_round-NodeScores, salsa_rank-total}
use tlgs.Search.Hits.Total.{hits_rank-total}
use tlgs.Search.Hits.{hits_rank, hits_loop, hits_round, hits_nodes, sum_scores}

-- A score of 1 is 60, and a float keeps even numbers.
abbrev pub numbers : Numbers
numbers = record {
  Double = ℕ;
  Float = ℕ;
  zero_double = 0;
  zero_float = 0;
  minus_one = 1000;
  start_delta = 9;
  widen = λ x. x;
  narrow = λ x. x / 2 + x / 2;
  add = ◌+◌;
  divide = λ x y. (60 * x) / y;
  divide_size = ◌/◌;
  one_over = λ n. 60 / n;
  distance = λ x y. (x - y) + (y - x);
  at_least_one = λ x. if ltb x 60 then 60 else x;
  is_minus_one = λ x. x == 1000;
  is_zero = λ x. x == 0;
  is_tiny = λ x. false;
  above_epsilon = λ x. ltb 2 x;
}

-- Both 0 and 1 lead to 2.
abbrev ins : List (List ℕ)
ins = [] ∷ [] ∷ (0 ∷ 1 ∷ []) ∷ []

abbrev outs : List (List ℕ)
outs = (2 ∷ []) ∷ (2 ∷ []) ∷ [] ∷ []

mirrored : (i j : ℕ) → count j (links_of outs i) ≡ count i (links_of ins j)
mirrored zero zero = refl
mirrored zero (suc zero) = refl
mirrored zero (suc (suc zero)) = refl
mirrored zero (suc (suc (suc j))) = ground arith
mirrored (suc zero) zero = refl
mirrored (suc zero) (suc zero) = refl
mirrored (suc zero) (suc (suc zero)) = refl
mirrored (suc zero) (suc (suc (suc j))) = ground arith
mirrored (suc (suc i)) zero = ground arith
mirrored (suc (suc i)) (suc zero) = ground arith
mirrored (suc (suc zero)) (suc (suc zero)) = refl
mirrored (suc (suc (suc i))) (suc (suc zero)) = ground arith
mirrored (suc (suc i)) (suc (suc (suc j))) = ground arith

no_loops : (i : ℕ) → count i (links_of outs i) ≡ 0
no_loops zero = refl
no_loops (suc zero) = refl
no_loops (suc (suc zero)) = refl
no_loops (suc (suc (suc i))) = refl

in_nodes : (i j : ℕ) → 3 ≤ j → count j (links_of outs i) ≡ 0
in_nodes zero j h = ground arith
in_nodes (suc zero) j h = ground arith
in_nodes (suc (suc zero)) j h = refl
in_nodes (suc (suc (suc i))) j h = refl

three_nodes : IsGraph 3 ins outs
three_nodes = record {
  length-ins = refl;
  length-outs = refl;
  mirrored = mirrored;
  no_loops = no_loops;
  in_nodes = in_nodes;
}

salsa_rank-total_example :
    (score : List ℕ) × (salsa_rank numbers ins outs ≡ some score) × (length score ≡ 3)
salsa_rank-total_example = salsa_rank-total numbers 3 ins outs refl three_nodes

ins_inside : (k : ℕ) → below 3 (links_of ins k) ≡ true
ins_inside zero = refl
ins_inside (suc zero) = refl
ins_inside (suc (suc zero)) = refl
ins_inside (suc (suc (suc k))) = refl

outs_inside : (k : ℕ) → below 3 (links_of outs k) ≡ true
outs_inside zero = refl
outs_inside (suc zero) = refl
outs_inside (suc (suc k)) = outs_end k
  where
    outs_end : (k : ℕ) → below 3 (links_of outs (suc (suc k))) ≡ true
    outs_end zero = refl
    outs_end (suc k) = refl

abbrev kinds : List Bool
kinds = false ∷ false ∷ true ∷ []

salsa_round-NodeScores_example :
    (new_score : List ℕ) × (salsa_round numbers kinds ins outs (30 ∷ 30 ∷ 60 ∷ [])
      ≡ some (
          salsa_scale numbers
            (numbers.at_least_one (accumulate numbers 0 (30 ∷ 30 ∷ 60 ∷ [])))
            0
            new_score
            (30 ∷ 30 ∷ 60 ∷ [])))
    × (length new_score ≡ 3)
    × NodeScores numbers ins outs (30 ∷ 30 ∷ 60 ∷ []) kinds ins outs new_score
salsa_round-NodeScores_example =
    salsa_round-NodeScores numbers 3 kinds ins outs (30 ∷ 30 ∷ 60 ∷ []) refl
      (record { size = refl; inside = ins_inside }) (record { size = refl; inside = outs_inside })
      refl refl

-- The nodes 0 and 1 stand alike, but 1 reads the score of 2 from a float.
salsa_run : salsa_rank numbers ins outs ≡ some (15 ∷ 14 ∷ 30 ∷ [])
unfolding salsa_rank make_bipartite split_nodes remove_links remove_loop remove_step swap salsa_loop
    salsa_round salsa_nodes salsa_node sum_neighbours known_score neighbour_score sum_shares
salsa_run = refl

hits_run : hits_rank numbers ins outs ≡ some (5 ∷ 5 ∷ 49 ∷ [])
unfolding hits_rank hits_loop hits_round hits_nodes sum_scores
hits_run = refl

hits_rank-total_example :
    (score : List ℕ) × (hits_rank numbers ins outs ≡ some score) × (length score ≡ 3)
hits_rank-total_example = hits_rank-total numbers 3 ins outs three_nodes
