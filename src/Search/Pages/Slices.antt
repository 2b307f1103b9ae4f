-- ===== src/Search/Pages/Slices.antt =====
-- The pages of the results of a search (tlgs/server/controllers/search.cpp), against slices of
-- them.
use tlgs.Common.{
  ℕ, zero, suc, ◌+◌, ◌*◌, ◌≡◌, refl, sym, ap, ◌∙◌, List, [], ◌∷◌, ◌++◌, take, drop, arith,
}

take-nil {ℓ} : {A : Type ℓ} (xs : List A) (n : ℕ) → xs ≡ [] → take n xs ≡ []
take-nil [] zero h = refl
take-nil [] (suc n) h = refl
take-nil (x ∷ xs) n h = absurd (cc)

zero_add : (n : ℕ) → 0 + n ≡ n
zero_add n = omega arith

suc_add : (m n : ℕ) → suc m + n ≡ suc (m + n)
suc_add m n = omega arith

mul_suc : (k : ℕ) → 10 * suc k ≡ 10 * k + 10
mul_suc k = omega arith

take-add {ℓ} :
    {A : Type ℓ} (m n : ℕ) (xs : List A) → take m xs ++ take n (drop m xs) ≡ take (m + n) xs
take-add zero n xs = rw (zero_add n) refl
take-add (suc m) n [] = take-nil [] n refl ∙ sym (take-nil [] (suc m + n) refl)
take-add (suc m) n (x ∷ xs) = rw (suc_add m n) (ap (◌∷◌ x) (take-add m n xs))
