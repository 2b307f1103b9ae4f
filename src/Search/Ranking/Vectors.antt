-- ===== src/Search/Ranking/Vectors.antt =====
-- Vectors of links, as `salsaRank` reads and swaps them (tlgs/server/controllers/search.cpp): their
-- elements counted, and those that lead to the other kind of node.
use tlgs.Common.{
  ℕ, zero, suc, ◌+◌, ◌-◌, ◌<◌, ◌≡◌, refl, ap, Bool, true, false, List, [], ◌∷◌, ◌++◌, ltb, ◌==◌,
  Option, none, some, if◌then◌else◌, length, all, length-append, inl, inr, ◌⊎◌, arith, all-append,
}
use tlgs.Search.{xor}
use tlgs.Search.Ranking.{get_elem?, set, swap}

-- How often a number stands in a list.
abbrev pub count : ℕ → List ℕ → ℕ
count x [] = 0
count x (y ∷ ys) = (if x == y then 1 else 0) + count x ys

abbrev pub differs : Option Bool → Bool → Bool
differs none here = false
differs (some there) here = xor there here

-- Does a link to the node lead to the other kind?
abbrev pub crosses : List Bool → Bool → ℕ → Bool
crosses is_auth here idx = differs (get_elem? is_auth idx) here

abbrev pub crossing : List Bool → Bool → List ℕ → List ℕ
crossing is_auth here [] = []
crossing is_auth here (x ∷ xs) =
    let rest = crossing is_auth here xs in if crosses is_auth here x then x ∷ rest else rest

abbrev pub below : ℕ → List ℕ → Bool
below n = all (λ x. ltb x n)

pub get_elem?-below {ℓ} :
    {A : Type ℓ} (xs : List A) (n : ℕ) → n < length xs → (a : A) × (get_elem? xs n ≡ some a)
get_elem?-below [] n h = absurd (omega arith)
get_elem?-below (x ∷ xs) zero h = (x, refl)
get_elem?-below (x ∷ xs) (suc n) h = get_elem?-below xs n (omega arith)

pub get_elem?-append {ℓ} :
    {A : Type ℓ} (xs : List A) (y : A) (ys : List A) → get_elem? (xs ++ y ∷ ys) (length xs) ≡ some y
get_elem?-append [] y ys = refl
get_elem?-append (x ∷ xs) y ys = get_elem?-append xs y ys

pub set-append {ℓ} :
    {A : Type ℓ} (xs : List A) (y z : A) (ys : List A)
    → set (xs ++ y ∷ ys) (length xs) z ≡ xs ++ z ∷ ys
set-append [] y z ys = refl
set-append (x ∷ xs) y z ys = ap (◌∷◌ x) (set-append xs y z ys)

pub get_elem?-behind :
    (done : List ℕ) (x : ℕ) (mid : List ℕ) (y : ℕ) (gone : List ℕ)
    → get_elem? (done ++ x ∷ (mid ++ y ∷ gone)) (suc (length (done ++ mid))) ≡ some y
get_elem?-behind [] x mid y gone = get_elem?-append mid y gone
get_elem?-behind (d ∷ done) x mid y gone = get_elem?-behind done x mid y gone

pub set-behind :
    (done : List ℕ) (x : ℕ) (mid : List ℕ) (y z : ℕ) (gone : List ℕ)
    → set (done ++ x ∷ (mid ++ y ∷ gone)) (suc (length (done ++ mid))) z
      ≡ done ++ x ∷ (mid ++ z ∷ gone)
set-behind [] x mid y z gone = ap (◌∷◌ x) (set-append mid y z gone)
set-behind (d ∷ done) x mid y z gone = ap (◌∷◌ d) (set-behind done x mid y z gone)

pub swap_ends :
    (done : List ℕ) (x : ℕ) (mid : List ℕ) (y : ℕ) (gone : List ℕ)
    → swap (done ++ x ∷ (mid ++ y ∷ gone)) (length done) (suc (length (done ++ mid)))
      ≡ some (done ++ y ∷ (mid ++ x ∷ gone))
unfolding swap
swap_ends done x mid y gone =
    rw
      (
        get_elem?-append done x (mid ++ y ∷ gone),
        get_elem?-behind done x mid y gone,
        set-append done x y (mid ++ y ∷ gone),
        set-behind done y mid y x gone,
      )
      refl

-- A list is empty or ends in an element.
pub snoc-cases : (xs : List ℕ) → (xs ≡ []) ⊎ ((ys : List ℕ) × (y : ℕ) × (xs ≡ ys ++ y ∷ []))
snoc-cases [] = inl refl
snoc-cases (x ∷ xs) = elim (snoc-cases xs) [
  | inl e ↦ inr ([], x, ap (◌∷◌ x) e)
  | inr (ys, y, e) ↦ inr (x ∷ ys, y, ap (◌∷◌ x) e)
]

pub count-append : (x : ℕ) (xs ys : List ℕ) → count x (xs ++ ys) ≡ count x xs + count x ys
count-append x [] ys = omega arith
count-append x (y ∷ xs) ys = omega (arith, count-append x xs ys)

pub pred_suc : (n : ℕ) → suc n - 1 ≡ n
pred_suc n = omega arith

pub not_end : (done mid : List ℕ) → (length done == suc (length (done ++ mid))) ≡ false
not_end done mid = ground (arith, length-append done mid)

pub ltb_of_lt : (a b : ℕ) → a < b → ltb a b ≡ true
ltb_of_lt a b h = ground arith

pub ltb_irrefl : (a : ℕ) → ltb a a ≡ false
ltb_irrefl a = ground arith

pub below-rotate :
    (n : ℕ) (xs : List ℕ) (y : ℕ) → below n (xs ++ y ∷ []) ≡ true → below n (y ∷ xs) ≡ true
below-rotate n xs y h = ground (arith, h, all-append (λ x. ltb x n) xs (y ∷ []))
