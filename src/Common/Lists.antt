-- ===== src/Common/Lists.antt =====
-- Lists measured by native numbers, tests over lists, and splitting a list at its end.
use Prim.Native.Nat.{ℕ, zero, suc, ◌+◌}
use mathlib.Core.Path.{◌≡◌, refl, ap}
use mathlib.Core.Logic.{◌≢◌}
use mathlib.Core.Bool.{Bool, true, false, ◌&&◌, ◌||◌}
use mathlib.Core.List.{List, [], ◌∷◌, ◌++◌}
use native.Mathlib.Omega.{arith}

module _ {ℓ} {A : Type ℓ} where
  abbrev pub length : List A → ℕ
  length [] = 0
  length (x ∷ xs) = suc (length xs)

  abbrev pub take : ℕ → List A → List A
  take zero xs = []
  take (suc n) [] = []
  take (suc n) (x ∷ xs) = x ∷ take n xs

  abbrev pub drop : ℕ → List A → List A
  drop zero xs = xs
  drop (suc n) [] = []
  drop (suc n) (x ∷ xs) = drop n xs

  abbrev pub is_empty : List A → Bool
  is_empty [] = true
  is_empty (x ∷ xs) = false

  abbrev pub tail : List A → List A
  tail [] = []
  tail (x ∷ xs) = xs

  abbrev pub all : (A → Bool) → List A → Bool
  all p [] = true
  all p (x ∷ xs) = p x && all p xs

  abbrev pub any : (A → Bool) → List A → Bool
  any p [] = false
  any p (x ∷ xs) = p x || any p xs

  -- all but the last element, and the last
  abbrev pub init : List A → List A
  init [] = []
  init (x ∷ []) = []
  init (x ∷ y ∷ r) = x ∷ init (y ∷ r)

  abbrev pub last_or : List A → A → A
  last_or [] d = d
  last_or (x ∷ r) d = last_or r x

  pub length-append : (xs ys : List A) → length (xs ++ ys) ≡ length xs + length ys
  length-append [] ys = omega arith
  length-append (x ∷ xs) ys = omega (arith, length-append xs ys)

  pub init-concat : (xs : List A) (x : A) → init (xs ++ x ∷ []) ≡ xs
  init-concat [] x = refl
  init-concat (y ∷ []) x = refl
  init-concat (y ∷ z ∷ r) x = ap (◌∷◌ y) (init-concat (z ∷ r) x)

  pub last_or-concat : (xs : List A) (x d : A) → last_or (xs ++ x ∷ []) d ≡ x
  last_or-concat [] x d = refl
  last_or-concat (y ∷ r) x d = last_or-concat r x y

  pub all-append : (p : A → Bool) (xs ys : List A) → all p (xs ++ ys) ≡ (all p xs && all p ys)
  all-append p [] ys = refl
  all-append p (x ∷ xs) ys = ground (arith, all-append p xs ys)

  pub concat_ne_nil : (xs : List A) (x : A) → xs ++ x ∷ [] ≢ []
  concat_ne_nil [] x h = cc
  concat_ne_nil (y ∷ ys) x h = cc

  pub all_of_imp :
      (p q : A → Bool)
      → ((x : A) → p x ≡ true → q x ≡ true)
      → (xs : List A) → all p xs ≡ true
      → all q xs ≡ true
  all_of_imp p q f [] h = refl
  all_of_imp p q f (x ∷ xs) h = ground (arith, f x, all_of_imp p q f xs)

  pub take-length-append : (xs ys : List A) → take (length xs) (xs ++ ys) ≡ xs
  take-length-append [] ys = refl
  take-length-append (x ∷ xs) ys = ap (◌∷◌ x) (take-length-append xs ys)

  pub drop-length-append :
      (xs : List A) (y : A) (ys : List A) → drop (suc (length xs)) (xs ++ y ∷ ys) ≡ ys
  drop-length-append [] y ys = refl
  drop-length-append (x ∷ xs) y ys = drop-length-append xs y ys

  pub last_or-append :
      (xs : List A) (y : A) (ys : List A) (d : A) → last_or (xs ++ y ∷ ys) d ≡ last_or ys y
  last_or-append [] y ys d = refl
  last_or-append (x ∷ xs) y ys d = last_or-append xs y ys x

  abbrev pub Each {κ} : (A → Type κ) → List A → Type κ
  Each P [] = Unit
  Each P (x ∷ xs) = P x × Each P xs

  -- One of the elements, and the others.
  pub Each-pick {κ} :
      (P : A → Type κ) (xs : List A) (y : A) (ys : List A)
      → Each P (xs ++ y ∷ ys)
      → P y × Each P (xs ++ ys)
  Each-pick P [] y ys h = h
  Each-pick P (x ∷ xs) y ys (p, h) = let (q, r) = Each-pick P xs y ys h in (q, (p, r))
