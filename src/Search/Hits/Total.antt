-- ===== src/Search/Hits/Total.antt =====
-- `hitsRank` (tlgs/server/controllers/search.cpp) gives a score to each node.
use tlgs.Common.{
  ℕ, zero, suc, ◌≡◌, refl, sym, ap, ◌∙◌, true, false, List, [], ◌∷◌, some, length, map, Bool-cases,
  inl, inr, arith,
}
use tlgs.Search.Ranking.Vectors.{below, get_elem?-below}
use tlgs.Search.Graph.Edges.{IsGraph, links_of}
use tlgs.Search.Scores.{Numbers, add_to_float}
use tlgs.Search.Scores.Terms.{AreLinks}
use tlgs.Search.Scores.Total.{graph-AreLinks}
use tlgs.Search.Graph.Split.{turned}
use tlgs.Search.Hits.{
  sum_scores, new_or_old, hits_nodes, Hits, hits_scale, float_sum, hits_round, hits_loop,
  equal_scores, hits_rank,
}

module _ (num : Numbers) (n : ℕ) where
  sum_scores-total :
      (score : List num.Double) (sum : num.Float) (l : List ℕ)
      → length score ≡ n
      → below n l ≡ true
      → (x : num.Float) × (sum_scores num score sum l ≡ some x)
  unfolding sum_scores
  sum_scores-total score sum [] sn h = (sum, refl)
  sum_scores-total score sum (idx ∷ l) sn h =
      let (x, e) = get_elem?-below score idx (ground (arith, h, sn)) in
      rw (e) (sum_scores-total score (add_to_float num sum x) l sn (ground (arith, h)))

  module _ (auth hub : List num.Double) (an : length auth ≡ n) (hn : length hub ≡ n) where
    hits_nodes-total :
        (xs ys : List num.Double) (vs ws : List (List ℕ))
        → length ys ≡ length xs
        → length vs ≡ length xs
        → length ws ≡ length xs
        → ((i : ℕ) → below n (links_of vs i) ≡ true)
        → ((i : ℕ) → below n (links_of ws i) ≡ true)
        → (xs' ys' : List num.Double) × (hits_nodes num auth hub xs ys vs ws ≡ some (xs', ys'))
          × (length xs' ≡ length xs)
          × (length ys' ≡ length xs)
    unfolding hits_nodes
    hits_nodes-total [] ys vs ws b c d bv bw = ([], [], refl, refl, refl)
    hits_nodes-total (x ∷ xs) [] vs ws b c d bv bw = absurd (omega arith)
    hits_nodes-total (x ∷ xs) (y ∷ ys) [] ws b c d bv bw = absurd (omega arith)
    hits_nodes-total (x ∷ xs) (y ∷ ys) (v ∷ vs) [] b c d bv bw = absurd (omega arith)
    hits_nodes-total (x ∷ xs) (y ∷ ys) (v ∷ vs) (w ∷ ws) b c d bv bw =
        let (p, ep) = sum_scores-total hub num.zero_float v hn (bv 0) in
        let (q, eq) = sum_scores-total auth num.zero_float w an (bw 0) in
        let (xs', ys', e, lx, ly) =
          hits_nodes-total xs ys vs ws (omega arith) (omega arith) (omega arith) (λ i. bv (suc i))
            (λ i. bw (suc i)) in
        (
          new_or_old num p x ∷ xs',
          new_or_old num q y ∷ ys',
          rw (ep, eq, e) refl,
          ap suc lx,
          ap suc ly,
        )

-- Both vectors of scores have an element for each node.
record AreScores (num : Numbers) (n : ℕ) (s : Hits num) : Type 0 where
  auths : length s.auth ≡ n
  hubs : length s.hub ≡ n

hits_scale-AreScores :
    (num : Numbers) (p q : num.Double) (delta : num.Float) (xs ys xs' ys' : List num.Double)
    → length ys ≡ length xs
    → length xs' ≡ length xs
    → length ys' ≡ length xs
    → AreScores num (length xs) (hits_scale num p q delta xs ys xs' ys')
hits_scale-AreScores num p q delta [] ys xs' ys' b c d = record { auths = refl; hubs = refl }
hits_scale-AreScores num p q delta (x ∷ xs) [] xs' ys' b c d = absurd (omega arith)
hits_scale-AreScores num p q delta (x ∷ xs) (y ∷ ys) [] ys' b c d = absurd (omega arith)
hits_scale-AreScores num p q delta (x ∷ xs) (y ∷ ys) (x' ∷ xs') [] b c d = absurd (omega arith)
hits_scale-AreScores num p q delta (x ∷ xs) (y ∷ ys) (x' ∷ xs') (y' ∷ ys') b c d =
    let s =
      hits_scale-AreScores num p q _ xs ys xs' ys' (omega arith) (omega arith) (omega arith) in
    record { auths = ap suc s.auths; hubs = ap suc s.hubs }

module _ (num : Numbers) (n : ℕ) (ins outs : List (List ℕ)) (li : AreLinks n ins)
    (lo : AreLinks n outs) where
  hits_round-total :
      (s : Hits num)
      → AreScores num n s
      → (s' : Hits num) × (hits_round num ins outs s ≡ some s') × AreScores num n s'
  unfolding hits_round
  hits_round-total s i =
      let (xs, ys, e, lx, ly) =
        hits_nodes-total num n s.auth s.hub i.auths i.hubs s.auth s.hub ins outs
          (i.hubs ∙ sym i.auths) (li.size ∙ sym i.auths) (lo.size ∙ sym i.auths) li.inside
          lo.inside in
      let scaled =
        hits_scale-AreScores num (float_sum num xs) (float_sum num ys) num.zero_float s.auth s.hub
          xs ys (i.hubs ∙ sym i.auths) lx ly in
      (
        hits_scale num (float_sum num xs) (float_sum num ys) num.zero_float s.auth s.hub xs ys,
        rw (e) refl,
        record { auths = scaled.auths ∙ i.auths; hubs = scaled.hubs ∙ i.auths },
      )

  loop_stops :
      (rounds : ℕ) (s : Hits num)
      → num.above_epsilon s.delta ≡ false
      → hits_loop num (suc rounds) ins outs s ≡ some s
  unfolding hits_loop
  loop_stops rounds s h = rw (h, hits_loop) refl

  loop_goes_on :
      (rounds : ℕ) (s s' : Hits num)
      → num.above_epsilon s.delta ≡ true
      → hits_round num ins outs s ≡ some s'
      → hits_loop num (suc rounds) ins outs s ≡ hits_loop num rounds ins outs s'
  unfolding hits_loop
  loop_goes_on rounds s s' h e = rw (h, e, hits_loop) refl

  hits_loop-total :
      (rounds : ℕ) (s : Hits num)
      → AreScores num n s
      → (s' : Hits num) × (hits_loop num rounds ins outs s ≡ some s') × AreScores num n s'
  unfolding hits_loop
  hits_loop-total zero s i = (s, refl, i)
  hits_loop-total (suc rounds) s i = elim (Bool-cases (num.above_epsilon s.delta)) [
    | inr stop ↦ (s, loop_stops rounds s stop, i)
    | inl more ↦
        let (s₁, e, i₁) = hits_round-total s i in
        let (s₂, e', i₂) = hits_loop-total rounds s₁ i₁ in
        (s₂, loop_goes_on rounds s s₁ more e ∙ e', i₂)
  ]

length-equal_scores :
    (num : Numbers) (x : num.Double) (ins : List (List ℕ)) → length (map (λ _. x) ins) ≡ length ins
length-equal_scores num x [] = refl
length-equal_scores num x (v ∷ ins) = ap suc (length-equal_scores num x ins)

-- For the graph of a search hitsRank comes to an end, after 300 rounds at most, reads nothing outside of its vectors, and gives one score to each node.
pub hits_rank-total :
    (num : Numbers) (n : ℕ) (ins outs : List (List ℕ))
    → IsGraph n ins outs
    → (score : List num.Double) × (hits_rank num ins outs ≡ some score) × (length score ≡ n)
unfolding hits_rank
hits_rank-total num n ins outs g =
    let size = length-equal_scores num (num.one_over (length ins)) ins ∙ g.length-ins in
    let (s, e, i) =
      hits_loop-total num n ins outs (graph-AreLinks n outs ins (turned n ins outs g))
        (graph-AreLinks n ins outs g) 300
        (record {
          auth = equal_scores num ins;
          hub = equal_scores num ins;
          delta = num.start_delta;
        })
        (record { auths = size; hubs = size }) in
    (s.auth, rw (e) refl, i.auths)
