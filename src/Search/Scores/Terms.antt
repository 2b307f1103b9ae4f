-- ===== src/Search/Scores/Terms.antt =====
-- The scores that `salsaRank` (tlgs/server/controllers/search.cpp) keeps in two vectors, against
-- those that it would compute each time.
use tlgs.Common.Options.{some-inj}
use tlgs.Common.{
  ℕ, zero, suc, ◌<◌, ◌≡◌, ◌⊎◌, inl, inr, refl, sym, ap, ◌∙◌, Bool, true, false, List, [], ◌∷◌, some,
  length, ◌==◌, Bool-cases, arith,
}
use tlgs.Search.Ranking.{get_elem?, set}
use tlgs.Search.Ranking.Vectors.{below, get_elem?-below}
use tlgs.Search.Graph.Edges.{links_of, get_elem?-set, length-set}
use tlgs.Search.Scores.{
  Numbers, sum_shares, neighbour_score, known_score, sum_neighbours, salsa_node, salsa_nodes,
  at_least_1, unset,
}

-- Lists of links for n nodes, all of them to these.
pub record AreLinks (n : ℕ) (vs : List (List ℕ)) : Type 0 where
  pub size : length vs ≡ n
  pub inside : (k : ℕ) → below n (links_of vs k) ≡ true

links_at : (vs : List (List ℕ)) (k : ℕ) (v : List ℕ) → get_elem? vs k ≡ some v → links_of vs k ≡ v
links_at vs k v e = rw (e) refl

length-unset : (num : Numbers) (kinds : List Bool) → length (unset num kinds) ≡ length kinds
length-unset num [] = refl
length-unset num (b ∷ kinds) = ap suc (length-unset num kinds)

unset-at :
    (num : Numbers) (kinds : List Bool) (k : ℕ) (x : num.Float)
    → get_elem? (unset num kinds) k ≡ some x
    → x ≡ num.minus_one
unset-at num [] k x h = absurd (ground (arith, h))
unset-at num (b ∷ kinds) zero x h = sym (some-inj num.minus_one x h)
unset-at num (b ∷ kinds) (suc k) x h = unset-at num kinds k x h

module _ (num : Numbers) (links back : List (List ℕ)) (score : List num.Double) where
  -- The score of the neighbour, or what is left of it in a float.
  pub Near : ℕ → num.Double → Type 0
  Near idx y =
      (v : num.Double) × (neighbour_score num links back score idx ≡ some v)
      × ((y ≡ v) ⊎ (y ≡ num.widen (num.narrow v)))

  -- The sum of the scores of the neighbours, each rounded or not.
  pub Sums : num.Double → List ℕ → num.Double → Type 0
  Sums sum [] total = total ≡ sum
  Sums sum (idx ∷ l) total = (y : num.Double) × Near idx y × Sums (num.add sum y) l total

module _ (num : Numbers) (n : ℕ) (links back : List (List ℕ)) (score : List num.Double)
    (ln : AreLinks n links) (bn : AreLinks n back) (sn : length score ≡ n) where
  sum_shares-total :
      (sum : num.Double) (l : List ℕ)
      → below n l ≡ true
      → (v : num.Double) × (sum_shares num back score sum l ≡ some v)
  unfolding sum_shares
  sum_shares-total sum [] h = (sum, refl)
  sum_shares-total sum (idx ∷ l) h =
      let (x, e) = get_elem?-below score idx (ground (arith, h, sn)) in
      let (ns, e') = get_elem?-below back idx (ground (arith, h, bn.size)) in
      rw (e, e')
        (sum_shares-total (num.add sum (num.divide_size x (at_least_1 (length ns)))) l
          (ground (arith, h)))

  neighbour_score-total :
      (idx : ℕ) → idx < n → (v : num.Double) × (neighbour_score num links back score idx ≡ some v)
  unfolding neighbour_score
  neighbour_score-total idx lt =
      let (ns, e) = get_elem?-below links idx (ground (arith, lt, ln.size)) in
      let (sum, e') =
        sum_shares-total num.zero_double ns
          (ap (below n) (sym (links_at links idx ns e)) ∙ ln.inside idx) in
      (num.divide_size sum (at_least_1 (length ns)), rw (e, e') refl)

  -- A place of the vector is unset, or holds the score of its node.
  pub record IsLocal (local : List num.Float) : Type 0 where
    pub size : length local ≡ n
    pub held :
        (k : ℕ) (x : num.Float)
        → get_elem? local k ≡ some x
        → (num.is_minus_one (num.widen x) ≡ true)
          ⊎ ((v : num.Double) × (neighbour_score num links back score k ≡ some v)
              × (x ≡ num.narrow v))

  set-IsLocal :
      (local : List num.Float) (idx : ℕ) (v : num.Double)
      → idx < n
      → neighbour_score num links back score idx ≡ some v
      → IsLocal local
      → IsLocal (set local idx (num.narrow v))
  set-IsLocal local idx v lt e i = record {
    size = length-set local idx (num.narrow v) ∙ i.size;
    held = λ k x h. elim (Bool-cases (k == idx)) [
      | inl same ↦
          let at_idx : k ≡ idx = ground (arith, same) in
          let stored : some x ≡ some (num.narrow v) =
            sym h
            ∙ get_elem?-set local idx k (num.narrow v) (omega (arith, i.size))
            ∙ rw (same) refl in
          inr (v, rw (at_idx) e, some-inj x (num.narrow v) stored)
      | inr other ↦ i.held k x (
          sym (get_elem?-set local idx k (num.narrow v) (omega (arith, i.size)) ∙ rw (other) refl)
          ∙ h)
    ];
  }

  held-Near :
      (idx : ℕ) (x : num.Float)
      → num.is_minus_one (num.widen x) ≡ false
      → (num.is_minus_one (num.widen x) ≡ true)
        ⊎ ((v : num.Double) × (neighbour_score num links back score idx ≡ some v)
            × (x ≡ num.narrow v))
      → Near num links back score idx (num.widen x)
  unfolding Near
  held-Near idx x h (inl unset) = absurd (ground (arith, h, unset))
  held-Near idx x h (inr (v, k, e)) = (v, k, inr (ap num.widen e))

  known_score-Near :
      (local : List num.Float) (idx : ℕ)
      → idx < n
      → IsLocal local
      → (y : num.Double) × (local' : List num.Float) × (known_score num links back score local idx
          ≡ some (y, local'))
        × Near num links back score idx y
        × IsLocal local'
  unfolding known_score Near
  known_score-Near local idx lt i =
      let (x, e) = get_elem?-below local idx (ground (arith, lt, i.size)) in
      let (v, k) = neighbour_score-total idx lt in
      elim (Bool-cases (num.is_minus_one (num.widen x))) [
        | inl unset ↦ (
          v,
          set local idx (num.narrow v),
          rw (e, unset, k) refl,
          (v, k, inl refl),
          set-IsLocal local idx v lt k i,
        )
        | inr held ↦
            (num.widen x, local, rw (e, held) refl, held-Near idx x held (i.held idx x e), i)
      ]

  sum_neighbours-Sums :
      (local : List num.Float) (sum : num.Double) (l : List ℕ)
      → below n l ≡ true
      → IsLocal local
      → (total : num.Double) × (local' : List num.Float) × (sum_neighbours num links back score
            local sum l
          ≡ some (total, local'))
        × Sums num links back score sum l total
        × IsLocal local'
  unfolding sum_neighbours Sums
  sum_neighbours-Sums local sum [] h i = (sum, local, refl, refl, i)
  sum_neighbours-Sums local sum (idx ∷ l) h i =
      let (y, local', e, near, i') = known_score-Near local idx (ground (arith, h)) i in
      let (total, local'', e', sums, i'') =
        sum_neighbours-Sums local' (num.add sum y) l (ground (arith, h)) i' in
      (total, local'', rw (e) e', (y, near, sums), i'')

  pub unset-IsLocal :
      (kinds : List Bool)
      → length kinds ≡ n
      → num.is_minus_one (num.widen num.minus_one) ≡ true
      → IsLocal (unset num kinds)
  unset-IsLocal kinds h m = record {
    size = length-unset num kinds ∙ h;
    held = λ k x e. inl (ap (λ z. num.is_minus_one (num.widen z)) (unset-at num kinds k x e) ∙ m);
  }

module _ (num : Numbers) (ins outs : List (List ℕ)) (score : List num.Double) where
  -- The new scores: an authority's from the nodes that link to it, a hub's from those it links to.
  pub NodeScores : List Bool → List (List ℕ) → List (List ℕ) → List num.Double → Type 0
  NodeScores (true ∷ kinds) (v ∷ vs) (w ∷ ws) (y ∷ ys) =
      Sums num outs ins score num.zero_double v y × NodeScores kinds vs ws ys
  NodeScores (false ∷ kinds) (v ∷ vs) (w ∷ ws) (y ∷ ys) =
      Sums num ins outs score num.zero_double w y × NodeScores kinds vs ws ys
  NodeScores kinds vs ws [] = Unit {0}
  NodeScores kinds vs ws (y ∷ ys) = ⊥

module _ (num : Numbers) (n : ℕ) (ins outs : List (List ℕ)) (score : List num.Double)
    (li : AreLinks n ins) (lo : AreLinks n outs) (sn : length score ≡ n) where
  -- The vectors of the scores by inbound and by outbound links.
  abbrev pub InLocal : List num.Float → Type 0
  InLocal local = IsLocal num n ins outs score li lo sn local

  abbrev pub OutLocal : List num.Float → Type 0
  OutLocal local = IsLocal num n outs ins score lo li sn local

  pub salsa_nodes-NodeScores :
      (kinds : List Bool) (vs ws : List (List ℕ)) (local_in local_out : List num.Float)
      → length vs ≡ length kinds
      → length ws ≡ length kinds
      → ((k : ℕ) → below n (links_of vs k) ≡ true)
      → ((k : ℕ) → below n (links_of ws k) ≡ true)
      → InLocal local_in
      → OutLocal local_out
      → (ys : List num.Double) × (salsa_nodes num ins outs score kinds vs ws local_in local_out
          ≡ some ys)
        × (length ys ≡ length kinds)
        × NodeScores num ins outs score kinds vs ws ys
  unfolding salsa_nodes salsa_node NodeScores
  salsa_nodes-NodeScores [] [] [] p q hv hw bv bw i o = ([], refl, refl, tt)
  salsa_nodes-NodeScores [] (v ∷ vs) ws p q hv hw bv bw i o = absurd (omega arith)
  salsa_nodes-NodeScores [] [] (w ∷ ws) p q hv hw bv bw i o = absurd (omega arith)
  salsa_nodes-NodeScores (kind ∷ kinds) [] ws p q hv hw bv bw i o = absurd (omega arith)
  salsa_nodes-NodeScores (kind ∷ kinds) (v ∷ vs) [] p q hv hw bv bw i o = absurd (omega arith)
  salsa_nodes-NodeScores (true ∷ kinds) (v ∷ vs) (w ∷ ws) p q hv hw bv bw i o =
      let (y, q', e, sums, o') =
        sum_neighbours-Sums num n outs ins score lo li sn q num.zero_double v (bv 0) o in
      let (ys, e', size, rest) =
        salsa_nodes-NodeScores kinds vs ws p q' (omega arith) (omega arith) (λ k. bv (suc k))
          (λ k. bw (suc k)) i o' in
      (y ∷ ys, rw (e, e') refl, ap suc size, (sums, rest))
  salsa_nodes-NodeScores (false ∷ kinds) (v ∷ vs) (w ∷ ws) p q hv hw bv bw i o =
      let (y, p', e, sums, i') =
        sum_neighbours-Sums num n ins outs score li lo sn p num.zero_double w (bw 0) i in
      let (ys, e', size, rest) =
        salsa_nodes-NodeScores kinds vs ws p' q (omega arith) (omega arith) (λ k. bv (suc k))
          (λ k. bw (suc k)) i' o in
      (y ∷ ys, rw (e, e') refl, ap suc size, (sums, rest))
