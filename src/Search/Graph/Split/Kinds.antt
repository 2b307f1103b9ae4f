-- ===== src/Search/Graph/Split/Kinds.antt =====
-- The two kinds of nodes of a graph, for `salsaRank` of tlgs/server/controllers/search.cpp.
use tlgs.Common.{
  ℕ, zero, suc, ◌≤◌, ◌≡◌, refl, sym, ap, ◌∙◌, Bool, true, false, List, [], ◌∷◌, ltb, ◌==◌, Option,
  none, some, if◌then◌else◌, length, Bool-cases, inl, inr, arith,
}
use tlgs.Search.Ranking.{get_elem?, tell_kinds, split_nodes}
use tlgs.Search.Ranking.Bipartite.{remove_links-crossing}
use tlgs.Search.Ranking.Vectors.{count, crosses, crossing, below}
use tlgs.Search.Graph.Edges.{links_of, IsGraph, out_of_range}

abbrev pub or_false : Option Bool → Bool
or_false none = false
or_false (some b) = b

abbrev pub kind_of : List Bool → ℕ → Bool
kind_of kinds i = or_false (get_elem? kinds i)

pub count-crossing :
    (is_auth : List Bool) (here : Bool) (y : ℕ) (v : List ℕ)
    → count y (crossing is_auth here v) ≡ (if crosses is_auth here y then count y v else 0)
count-crossing is_auth here y [] = ground arith
count-crossing is_auth here y (x ∷ v) = elim (Bool-cases (y == x)) [
  | inl e ↦
      let same : y ≡ x = ground (arith, e) in
      rw (same) (elim (Bool-cases (crosses is_auth here x)) [
        | inl c ↦ rw (c) (ground (arith, c, count-crossing is_auth here x v))
        | inr c ↦ rw (c) (ground (arith, c, count-crossing is_auth here x v))
      ])
  | inr e ↦ elim (Bool-cases (crosses is_auth here x)) [
    | inl c ↦ rw (c) (ground (arith, e, count-crossing is_auth here y v))
    | inr c ↦ rw (c) (ground (arith, e, count-crossing is_auth here y v))
  ]
]

below_of_count : (n : ℕ) (v : List ℕ) → ((y : ℕ) → n ≤ y → count y v ≡ 0) → below n v ≡ true
below_of_count n [] h = refl
below_of_count n (x ∷ v) h =
    ground (arith, h x, below_of_count n v (λ y le. ground (arith, h y le)))

pub length-tell_kinds :
    (ins outs : List (List ℕ))
    → length ins ≡ length outs
    → length (tell_kinds ins outs) ≡ length ins
length-tell_kinds [] outs h = refl
length-tell_kinds (v ∷ ins) [] h = absurd (omega arith)
length-tell_kinds (v ∷ ins) (w ∷ outs) h = ap suc (length-tell_kinds ins outs (omega arith))

-- A node is an authority if it has more links in than out.
abbrev pub is_authority : List (List ℕ) → List (List ℕ) → ℕ → Bool
is_authority ins outs i = ltb (length (links_of outs i)) (length (links_of ins i))

pub kind_of-tell_kinds :
    (ins outs : List (List ℕ)) (i : ℕ)
    → length ins ≡ length outs
    → kind_of (tell_kinds ins outs) i ≡ is_authority ins outs i
kind_of-tell_kinds [] [] i h = ground arith
kind_of-tell_kinds [] (w ∷ outs) i h = absurd (omega arith)
kind_of-tell_kinds (v ∷ ins) [] i h = absurd (omega arith)
kind_of-tell_kinds (v ∷ ins) (w ∷ outs) zero h = refl
kind_of-tell_kinds (v ∷ ins) (w ∷ outs) (suc i) h = kind_of-tell_kinds ins outs i (omega arith)

-- The lists of the one side, each with its links between the kinds only.
unfoldable pub Kept : List Bool → List Bool → List (List ℕ) → List (List ℕ) → Type 0
Kept is_auth kinds vs ws =
    (length ws ≡ length vs)
    × ((k y : ℕ)
        → count y (links_of ws k) ≡ count y (crossing is_auth (kind_of kinds k) (links_of vs k)))

Kept-cons :
    (is_auth kinds : List Bool) (here : Bool) (v w : List ℕ) (vs ws : List (List ℕ))
    → ((y : ℕ) → count y w ≡ count y (crossing is_auth here v))
    → Kept is_auth kinds vs ws
    → Kept is_auth (here ∷ kinds) (v ∷ vs) (w ∷ ws)
unfolding Kept
Kept-cons is_auth kinds here v w vs ws c (l, k) = (ap suc l, kept)
  where
    kept :
        (i y : ℕ)
        → count y (links_of (w ∷ ws) i)
          ≡ count y (crossing is_auth (kind_of (here ∷ kinds) i) (links_of (v ∷ vs) i))
    kept zero y = c y
    kept (suc i) y = k i y

pub split_nodes-Kept :
    (is_auth kinds : List Bool) (ins outs : List (List ℕ))
    → length kinds ≡ length ins
    → length ins ≡ length outs
    → ((k : ℕ) → below (length is_auth) (links_of ins k) ≡ true)
    → ((k : ℕ) → below (length is_auth) (links_of outs k) ≡ true)
    → (ins' outs' : List (List ℕ)) × (split_nodes is_auth kinds ins outs ≡ some (ins', outs'))
      × Kept is_auth kinds ins ins'
      × Kept is_auth kinds outs outs'
unfolding split_nodes Kept
split_nodes-Kept is_auth [] [] outs hk hl hi ho =
    let none_left = out_of_range outs in
    ([], outs, refl, (refl, λ k y. refl), (refl, λ k y. rw (none_left k (omega arith)) refl))
split_nodes-Kept is_auth [] (v ∷ ins) outs hk hl hi ho = absurd (omega arith)
split_nodes-Kept is_auth (here ∷ kinds) [] outs hk hl hi ho = absurd (omega arith)
split_nodes-Kept is_auth (here ∷ kinds) (v ∷ ins) [] hk hl hi ho = absurd (omega arith)
split_nodes-Kept is_auth (here ∷ kinds) (v ∷ ins) (w ∷ outs) hk hl hi ho =
    let (v', ev, av, cv) = remove_links-crossing is_auth here v (hi 0) in
    let (w', ew, aw, cw) = remove_links-crossing is_auth here w (ho 0) in
    let (ins', outs', e, ki, ko) =
      split_nodes-Kept is_auth kinds ins outs (omega arith) (omega arith) (λ k. hi (suc k))
        (λ k. ho (suc k)) in
    (
      v' ∷ ins',
      w' ∷ outs',
      rw (ev, ew, e) refl,
      Kept-cons is_auth kinds here v v' ins ins' cv ki,
      Kept-cons is_auth kinds here w w' outs outs' cw ko,
    )

pub below_of_graph :
    (n : ℕ) (ins outs : List (List ℕ))
    → IsGraph n ins outs
    → (k : ℕ) → below n (links_of outs k) ≡ true
below_of_graph n ins outs g k = below_of_count n (links_of outs k) (λ y h. g.in_nodes k y h)

-- The graph with its edges turned round.
pub turned : (n : ℕ) (ins outs : List (List ℕ)) → IsGraph n ins outs → IsGraph n outs ins
turned n ins outs g = record {
  length-ins = g.length-outs;
  length-outs = g.length-ins;
  mirrored = λ i j. sym (g.mirrored j i);
  no_loops = λ i. sym (g.mirrored i i) ∙ g.no_loops i;
  in_nodes = λ i j h.
      sym (g.mirrored j i) ∙ ap (count i) (out_of_range outs j (omega (arith, g.length-outs)));
}
