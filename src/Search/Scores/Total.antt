-- ===== src/Search/Scores/Total.antt =====
-- `salsaRank` (tlgs/server/controllers/search.cpp) gives a score to each node.
use tlgs.Common.{
  ℕ, zero, suc, ◌≡◌, refl, sym, ap, ◌∙◌, Bool, true, false, List, [], ◌∷◌, some, length, map,
  Bool-cases, inl, inr, arith,
}
use tlgs.Search.Ranking.{tell_kinds}
use tlgs.Search.Graph.Edges.{IsGraph}
use tlgs.Search.Graph.Split.{
  IsSplit, below_of_graph, turned, length-tell_kinds, make_bipartite-IsSplit,
}
use tlgs.Search.Scores.{
  Numbers, accumulate, unset, salsa_scale, salsa_round, salsa_loop, first_scores, count_kind,
  salsa_rank,
}
use tlgs.Search.Scores.Terms.{AreLinks, NodeScores, unset-IsLocal, salsa_nodes-NodeScores}

length-salsa_scale :
    (num : Numbers) (sum : num.Double) (delta : num.Float) (ys xs : List num.Double)
    → length ys ≡ length xs
    → length (salsa_scale num sum delta ys xs).0 ≡ length xs
length-salsa_scale num sum delta [] [] h = refl
length-salsa_scale num sum delta [] (x ∷ xs) h = absurd (omega arith)
length-salsa_scale num sum delta (y ∷ ys) [] h = absurd (omega arith)
length-salsa_scale num sum delta (y ∷ ys) (x ∷ xs) h =
    ap suc (length-salsa_scale num sum _ ys xs (omega arith))

-- If all links lead to nodes, the vectors have an element for each node, and a -1 in a float is
-- read back as -1: a round reads nothing outside of its vectors, and its new scores are the sums of
-- what the neighbours give: each term is what a neighbour gives, computed anew, or that number
-- rounded to a float once. They are divided by the sum of the old
-- scores, or by 1 if that sum is below 1.
pub salsa_round-NodeScores :
    (num : Numbers) (n : ℕ) (is_auth : List Bool) (ins outs : List (List ℕ))
    (score : List num.Double)
    → num.is_minus_one (num.widen num.minus_one) ≡ true
    → AreLinks n ins
    → AreLinks n outs
    → length is_auth ≡ n
    → length score ≡ n
    → (new_score : List num.Double) × (salsa_round num is_auth ins outs score
        ≡ some (
            salsa_scale num
              (num.at_least_one (accumulate num num.zero_double score))
              num.zero_float
              new_score
              score))
      × (length new_score ≡ n)
      × NodeScores num ins outs score is_auth ins outs new_score
unfolding salsa_round
salsa_round-NodeScores num n is_auth ins outs score m li lo ka sn =
    let (ys, e, size, scores) =
      salsa_nodes-NodeScores num n ins outs score li lo sn is_auth ins outs (unset num is_auth)
        (unset num is_auth) (li.size ∙ sym ka) (lo.size ∙ sym ka) li.inside lo.inside
        (unset-IsLocal num n ins outs score li lo sn is_auth ka m)
        (unset-IsLocal num n outs ins score lo li sn is_auth ka m) in
    (ys, rw (e) refl, size ∙ ka, scores)

loop_stops :
    (num : Numbers) (is_auth : List Bool) (ins outs : List (List ℕ)) (rounds : ℕ)
    (score : List num.Double) (delta : num.Float)
    → num.above_epsilon delta ≡ false
    → salsa_loop num (suc rounds) is_auth ins outs score delta ≡ some score
unfolding salsa_loop
loop_stops num is_auth ins outs rounds score delta h = rw (h, salsa_loop) refl

loop_goes_on :
    (num : Numbers) (is_auth : List Bool) (ins outs : List (List ℕ)) (rounds : ℕ)
    (score : List num.Double) (delta : num.Float) (score' : List num.Double) (delta' : num.Float)
    → num.above_epsilon delta ≡ true
    → salsa_round num is_auth ins outs score ≡ some (score', delta')
    → salsa_loop num (suc rounds) is_auth ins outs score delta
      ≡ salsa_loop num rounds is_auth ins outs score' delta'
unfolding salsa_loop
loop_goes_on num is_auth ins outs rounds score delta score' delta' h e = rw (h, e, salsa_loop) refl

salsa_loop-total :
    (num : Numbers) (n : ℕ) (is_auth : List Bool) (ins outs : List (List ℕ))
    → num.is_minus_one (num.widen num.minus_one) ≡ true
    → AreLinks n ins
    → AreLinks n outs
    → length is_auth ≡ n
    → (rounds : ℕ) (score : List num.Double) (delta : num.Float) → length score ≡ n
    → (result : List num.Double) × (salsa_loop num rounds is_auth ins outs score delta
        ≡ some result)
      × (length result ≡ n)
unfolding salsa_loop
salsa_loop-total num n is_auth ins outs m li lo ka zero score delta sn = (score, refl, sn)
salsa_loop-total num n is_auth ins outs m li lo ka (suc rounds) score delta sn =
    elim (Bool-cases (num.above_epsilon delta)) [
      | inr stop ↦ (score, loop_stops num is_auth ins outs rounds score delta stop, sn)
      | inl more ↦
          let (ys, e, size, scores) =
            salsa_round-NodeScores num n is_auth ins outs score m li lo ka sn in
          let sum = num.at_least_one (accumulate num num.zero_double score) in
          let (result, e', size') =
            salsa_loop-total num n is_auth ins outs m li lo ka rounds
              (salsa_scale num sum num.zero_float ys score).0
              (salsa_scale num sum num.zero_float ys score).1
              (length-salsa_scale num sum num.zero_float ys score (size ∙ sym sn) ∙ sn) in
          (result, loop_goes_on num is_auth ins outs rounds score delta _ _ more e ∙ e', size')
    ]

pub graph-AreLinks : (n : ℕ) (ins outs : List (List ℕ)) → IsGraph n ins outs → AreLinks n outs
graph-AreLinks n ins outs g = record { size = g.length-outs; inside = below_of_graph n ins outs g }

length-first_scores :
    (num : Numbers) (kinds bs : List Bool)
    → length (map (λ (b : Bool). num.one_over (count_kind num b kinds)) bs) ≡ length bs
length-first_scores num kinds [] = refl
length-first_scores num kinds (b ∷ bs) = ap suc (length-first_scores num kinds bs)

-- For the graph of a search, and if a -1 in a float is read back as -1, the ranking comes to an
-- end, after 300 rounds at most, reads nothing outside of its vectors, and gives one score to each
-- node.
pub salsa_rank-total :
    (num : Numbers) (n : ℕ) (ins outs : List (List ℕ))
    → num.is_minus_one (num.widen num.minus_one) ≡ true
    → IsGraph n ins outs
    → (score : List num.Double) × (salsa_rank num ins outs ≡ some score) × (length score ≡ n)
unfolding salsa_rank IsSplit
salsa_rank-total num n ins outs m g =
    let (ins', outs', e, (g', _)) = make_bipartite-IsSplit n ins outs g in
    let kinds = length-tell_kinds ins outs (g.length-ins ∙ sym g.length-outs) ∙ g.length-ins in
    let (score, e', size) =
      salsa_loop-total num n (tell_kinds ins outs) ins' outs' m
        (graph-AreLinks n outs' ins' (turned n ins' outs' g')) (graph-AreLinks n ins' outs' g')
        kinds 300 (first_scores num (tell_kinds ins outs)) num.start_delta
        (length-first_scores num (tell_kinds ins outs) (tell_kinds ins outs) ∙ kinds) in
    (score, rw (e) e', size)
