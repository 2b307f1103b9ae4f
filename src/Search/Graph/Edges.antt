-- ===== src/Search/Graph/Edges.antt =====
-- The edges of the graph of `pageSearch` (tlgs/server/controllers/search.cpp), counted.
use tlgs.Common.{
  ℕ, zero, suc, ◌+◌, ◌≤◌, ◌<◌, ◌≡◌, ◌≢◌, refl, ap, ◌∙◌, Bool, true, false, ◌&&◌, List, [], ◌∷◌,
  ◌++◌, ◌==◌, Option, none, some, if◌then◌else◌, length, arith,
}
use tlgs.Search.Ranking.{get_elem?, set}
use tlgs.Search.Ranking.Vectors.{count, count-append, get_elem?-below}
use tlgs.Search.Graph.{Graph, push_at, add_edge, no_links}

abbrev or_nil : Option (List ℕ) → List ℕ
or_nil none = []
or_nil (some v) = v

-- The neighbours of a node, none for a number that is no node's.
abbrev pub links_of : List (List ℕ) → ℕ → List ℕ
links_of vs i = or_nil (get_elem? vs i)

pub get_elem?-set {ℓ} :
    {A : Type ℓ} (xs : List A) (i k : ℕ) (a : A)
    → i < length xs
    → get_elem? (set xs i a) k ≡ (if k == i then some a else get_elem? xs k)
get_elem?-set [] i k a h = absurd (omega arith)
get_elem?-set (x ∷ xs) zero zero a h = refl
get_elem?-set (x ∷ xs) zero (suc k) a h = ground arith
get_elem?-set (x ∷ xs) (suc i) zero a h = ground arith
get_elem?-set (x ∷ xs) (suc i) (suc k) a h = get_elem?-set xs i k a (omega arith) ∙ ground arith

pub length-set {ℓ} : {A : Type ℓ} (xs : List A) (i : ℕ) (a : A) → length (set xs i a) ≡ length xs
length-set [] i a = refl
length-set (x ∷ xs) zero a = refl
length-set (x ∷ xs) (suc i) a = ap suc (length-set xs i a)

-- 1 where both tests hold
abbrev both : Bool → Bool → ℕ
both a b = if a && b then 1 else 0

-- The lists with `x` put behind the i-th of them.
Pushed : List (List ℕ) → ℕ → ℕ → List (List ℕ) → Type 0
Pushed vs i x ws =
    (length ws ≡ length vs)
    × ((k y : ℕ) → count y (links_of ws k) ≡ count y (links_of vs k) + both (k == i) (y == x))

count_pushed :
    (b : Bool) (o : Option (List ℕ)) (v : List ℕ) (x y : ℕ)
    → (b ≡ true → o ≡ some v)
    → count y (or_nil (if b then some (v ++ x ∷ []) else o)) ≡ count y (or_nil o) + both b (y == x)
count_pushed true o v x y h = rw (h refl) (omega (arith, count-append y v (x ∷ [])))
count_pushed false o v x y h = omega arith

set-Pushed :
    (vs : List (List ℕ)) (i x : ℕ) (v : List ℕ)
    → i < length vs
    → get_elem? vs i ≡ some v
    → Pushed vs i x (set vs i (v ++ x ∷ []))
unfolding Pushed
set-Pushed vs i x v lt e = (
  length-set vs i (v ++ x ∷ []),
  λ k y.
      ap (λ o. count y (or_nil o)) (get_elem?-set vs i k (v ++ x ∷ []) lt)
      ∙ count_pushed (k == i) (get_elem? vs k) v x y
          (λ h. ap (get_elem? vs) (ground (arith, h)) ∙ e),
)

push_at-Pushed :
    (vs : List (List ℕ)) (i x : ℕ)
    → i < length vs
    → (ws : List (List ℕ)) × (push_at vs i x ≡ some ws) × Pushed vs i x ws
unfolding push_at
push_at-Pushed vs i x lt =
    let (v, e) = get_elem?-below vs i lt in
    (set vs i (v ++ x ∷ []), rw (e) refl, set-Pushed vs i x v lt e)

-- The graph over n nodes: each edge stands as often in the one list as in the other, leads from one
-- node to another one, and has its ends among the nodes.
pub record IsGraph (n : ℕ) (ins outs : List (List ℕ)) : Type 0 where
  pub length-ins : length ins ≡ n
  pub length-outs : length outs ≡ n
  pub mirrored : (i j : ℕ) → count j (links_of outs i) ≡ count i (links_of ins j)
  pub no_loops : (i : ℕ) → count i (links_of outs i) ≡ 0
  pub in_nodes : (i j : ℕ) → n ≤ j → count j (links_of outs i) ≡ 0

pub out_of_range : (vs : List (List ℕ)) (i : ℕ) → length vs ≤ i → links_of vs i ≡ []
out_of_range [] i h = refl
out_of_range (v ∷ vs) zero h = absurd (omega arith)
out_of_range (v ∷ vs) (suc i) h = out_of_range vs i (omega arith)

links_of-no_links : {A : Type 0} (nodes : List A) (i : ℕ) → links_of (no_links nodes) i ≡ []
links_of-no_links [] i = refl
links_of-no_links (x ∷ nodes) zero = refl
links_of-no_links (x ∷ nodes) (suc i) = links_of-no_links nodes i

length-no_links : {A : Type 0} (nodes : List A) → length (no_links nodes) ≡ length nodes
length-no_links [] = refl
length-no_links (x ∷ nodes) = ap suc (length-no_links nodes)

pub no_edges-IsGraph :
    {A : Type 0} (nodes : List A) → IsGraph (length nodes) (no_links nodes) (no_links nodes)
no_edges-IsGraph nodes = record {
  length-ins = length-no_links nodes;
  length-outs = length-no_links nodes;
  mirrored = λ i j. rw (links_of-no_links nodes i, links_of-no_links nodes j) refl;
  no_loops = λ i. ap (count i) (links_of-no_links nodes i);
  in_nodes = λ i j h. ap (count j) (links_of-no_links nodes i);
}

Pushed-IsGraph :
    (n : ℕ) (ins outs : List (List ℕ)) (s d : ℕ) (ins' outs' : List (List ℕ))
    → IsGraph n ins outs
    → d < n
    → s ≢ d
    → Pushed outs s d outs'
    → Pushed ins d s ins'
    → IsGraph n ins' outs'
unfolding Pushed
Pushed-IsGraph n ins outs s d ins' outs' g lt ne (lo, co) (li, ci) = record {
  length-ins = li ∙ g.length-ins;
  length-outs = lo ∙ g.length-outs;
  mirrored = λ i j. ground (arith, co i j, ci j i, g.mirrored i j);
  no_loops = λ i. ground (arith, co i i, g.no_loops i, ne);
  in_nodes = λ i j h. ground (arith, co i j, g.in_nodes i j h, lt, h);
}

-- A step gives a graph again.
abbrev pub Gives : ℕ → Option Graph → Type 0
Gives n r = (g : Graph) × (r ≡ some g) × IsGraph n g.in_neighbous g.out_neighbous

pub add_edge-Gives :
    (n : ℕ) (g : Graph) (s d : ℕ)
    → IsGraph n g.in_neighbous g.out_neighbous
    → s < n
    → d < n
    → s ≢ d
    → Gives n (add_edge g s d)
unfolding add_edge
add_edge-Gives n g s d ok ls ld ne =
    let (outs, e, po) = push_at-Pushed g.out_neighbous s d (omega (arith, ok.length-outs)) in
    let (ins, e', pi) = push_at-Pushed g.in_neighbous d s (omega (arith, ok.length-ins)) in
    (
      record { out_neighbous = outs; in_neighbous = ins },
      rw (e, e') refl,
      Pushed-IsGraph n g.in_neighbous g.out_neighbous s d ins outs ok ld ne po pi,
    )
