-- ===== src/Search/Hits.antt =====
-- `hitsRank` of tlgs/server/controllers/search.cpp, over the numbers of Search.Scores. Reading
-- outside of a vector is `none`.
pub mod Total
use tlgs.Common.{
  ℕ, zero, suc, Bool, true, false, List, [], ◌∷◌, Option, none, some, if◌then◌else◌, length, map,
}
use tlgs.Common.Options.{◌>>=◌}
use tlgs.Search.Ranking.{get_elem?}
use tlgs.Search.Scores.{Numbers, accumulate, add_to_float}

module _ (num : Numbers) where
  -- `calc_auth_score` from the hub scores of those with links to the node, and the other way round
  unfoldable pub sum_scores : List num.Double → num.Float → List ℕ → Option num.Float
  sum_scores score sum [] = some sum
  sum_scores score sum (idx ∷ rest) = do
    x ← get_elem? score idx
    sum_scores score (add_to_float num sum x) rest

  -- The old score stays where nothing leads to the node.
  abbrev pub new_or_old : num.Float → num.Double → num.Double
  new_or_old calc old = if num.is_zero calc then old else num.widen calc

  -- The nodes from i on, with the old scores of all nodes.
  unfoldable pub hits_nodes :
      List num.Double
      → List num.Double
      → List num.Double
      → List num.Double
      → List (List ℕ)
      → List (List ℕ)
      → Option (List num.Double × List num.Double)
  hits_nodes auth hub (a ∷ auths) (h ∷ hubs) (in_links ∷ ins) (out_links ∷ outs) = do
    calc_auth ← sum_scores hub num.zero_float in_links
    calc_hub ← sum_scores auth num.zero_float out_links
    (new_auths, new_hubs) ← hits_nodes auth hub auths hubs ins outs
    some (new_or_old calc_auth a ∷ new_auths, new_or_old calc_hub h ∷ new_hubs)
  hits_nodes auth hub auths hubs ins outs = some ([], [])

  -- "avoid denormals"
  abbrev pub cut_tiny : num.Double → num.Double
  cut_tiny x = if num.is_tiny x then num.zero_double else x

  pub record Hits : Type 0 where
    pub auth : List num.Double
    pub hub : List num.Double
    pub delta : num.Float

  abbrev pub hits_scale :
      num.Double
      → num.Double
      → num.Float
      → List num.Double
      → List num.Double
      → List num.Double
      → List num.Double
      → Hits
  hits_scale auth_sum hub_sum delta (a ∷ auths) (h ∷ hubs) (a' ∷ new_auths) (h' ∷ new_hubs) =
      let x = num.divide a' auth_sum in
      let y = num.divide h' hub_sum in
      let delta₁ = add_to_float num delta (num.distance a x) in
      let delta₂ = add_to_float num delta₁ (num.distance h y) in
      let rest = hits_scale auth_sum hub_sum delta₂ auths hubs new_auths new_hubs in
      record { auth = cut_tiny x ∷ rest.auth; hub = cut_tiny y ∷ rest.hub; delta = rest.delta }
  hits_scale auth_sum hub_sum delta auths hubs new_auths new_hubs = record {
    auth = [];
    hub = [];
    delta = delta;
  }

  -- The sum of the new scores, 1 at the least, in a float.
  abbrev pub float_sum : List num.Double → num.Double
  float_sum scores =
      num.widen (num.narrow (num.at_least_one (accumulate num num.zero_double scores)))

  unfoldable pub hits_round : List (List ℕ) → List (List ℕ) → Hits → Option Hits
  hits_round ins outs s = do
    (new_auths, new_hubs) ← hits_nodes s.auth s.hub s.auth s.hub ins outs
    some (
        hits_scale (float_sum new_auths) (float_sum new_hubs) num.zero_float s.auth s.hub new_auths
          new_hubs)

  -- `n` rounds are left.
  unfoldable pub hits_loop : ℕ → List (List ℕ) → List (List ℕ) → Hits → Option Hits
  hits_loop zero ins outs s = some s
  hits_loop (suc n) ins outs s = elim (num.above_epsilon s.delta) [
    | true ↦ do s' ← hits_round ins outs s; hits_loop n ins outs s'
    | false ↦ some s
  ]

  abbrev pub equal_scores : List (List ℕ) → List num.Double
  equal_scores ins = map (λ _. num.one_over (length ins)) ins

  unfoldable pub hits_rank : List (List ℕ) → List (List ℕ) → Option (List num.Double)
  hits_rank in_neighbous out_neighbous = do
    s ← hits_loop 300 in_neighbous out_neighbous (record {
      auth = equal_scores in_neighbous;
      hub = equal_scores in_neighbous;
      delta = num.start_delta;
    })
    some s.auth
