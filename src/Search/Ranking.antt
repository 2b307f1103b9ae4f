-- ===== src/Search/Ranking.antt =====
-- `salsaRank` of tlgs/server/controllers/search.cpp: the nodes are told into hubs and authorities,
-- and every link between two nodes of one kind is removed. Reading outside of a vector is `none`.
pub mod Vectors
pub mod Bipartite
use tlgs.Common.Options.{◌>>=◌}
use tlgs.Common.{
  ℕ, zero, suc, ◌+◌, ◌-◌, Bool, true, false, not, List, [], ◌∷◌, ltb, ◌==◌, Option, none, some,
  if◌then◌else◌, length, take,
}
use tlgs.Search.{xor}

abbrev pub get_elem? {ℓ} : {A : Type ℓ} → List A → ℕ → Option A
get_elem? [] n = none
get_elem? (x ∷ xs) zero = some x
get_elem? (x ∷ xs) (suc n) = get_elem? xs n

-- `xs[n] = a`
abbrev pub set {ℓ} : {A : Type ℓ} → List A → ℕ → A → List A
set [] n a = []
set (x ∷ xs) zero a = a ∷ xs
set (x ∷ xs) (suc n) a = x ∷ set xs n a

-- std::swap(v[j], v[k])
unfoldable pub swap : List ℕ → ℕ → ℕ → Option (List ℕ)
swap v j k = do x ← get_elem? v j; y ← get_elem? v k; some (set (set v j y) k x)

-- The body of the loop, from `v`, `j` and `size` to those of the next round. The code takes 1 from
-- `j` where it removes a link, before the loop adds 1.
unfoldable pub remove_step : List Bool → Bool → List ℕ → ℕ → ℕ → Option (List ℕ × ℕ × ℕ)
remove_step is_auth here v j size = do
  idx ← get_elem? v j
  there ← get_elem? is_auth idx
  (if not (xor there here)
      then (do
        w ← (if not (j == size - 1) then swap v j (size - 1) else some v)
        some (w, j, size - 1))
      else some (v, j + 1, size))

unfoldable pub remove_loop : ℕ → List Bool → Bool → List ℕ → ℕ → ℕ → Option (List ℕ)
remove_loop zero is_auth here v j size = none
remove_loop (suc fuel) is_auth here v j size =
    if ltb j size
    then (do (w, i, n) ← remove_step is_auth here v j size; remove_loop fuel is_auth here w i n)
    else some (take size v)

-- The links of one node of the kind `here`.
unfoldable pub remove_links : List Bool → Bool → List ℕ → Option (List ℕ)
remove_links is_auth here v = remove_loop (suc (length v)) is_auth here v 0 (length v)

abbrev pub tell_kinds : List (List ℕ) → List (List ℕ) → List Bool
tell_kinds (ins ∷ in_neighbous) (outs ∷ out_neighbous) =
    ltb (length outs) (length ins) ∷ tell_kinds in_neighbous out_neighbous
tell_kinds in_neighbous out_neighbous = []

-- The nodes from i on, with their kinds: those of the nodes whose links are removed in this round.
unfoldable pub split_nodes :
    List Bool → List Bool → List (List ℕ) → List (List ℕ) → Option (List (List ℕ) × List (List ℕ))
split_nodes is_auth (here ∷ kinds) (ins ∷ in_neighbous) (outs ∷ out_neighbous) = do
  ins' ← remove_links is_auth here ins
  outs' ← remove_links is_auth here outs
  (in_rest, out_rest) ← split_nodes is_auth kinds in_neighbous out_neighbous
  some (ins' ∷ in_rest, outs' ∷ out_rest)
split_nodes is_auth kinds in_neighbous out_neighbous = some (in_neighbous, out_neighbous)

-- salsaRank to the end of its second loop.
unfoldable pub make_bipartite :
    List (List ℕ) → List (List ℕ) → Option (List (List ℕ) × List (List ℕ))
make_bipartite in_neighbous out_neighbous =
    let is_auth = tell_kinds in_neighbous out_neighbous in
    split_nodes is_auth is_auth in_neighbous out_neighbous
