-- ===== src/Common/Order.antt =====
-- Strict total orders given by two Boolean tests, as operator== and operator< are, and the
-- lexicographic order of pairs.
use mathlib.Core.Path.{◌≡◌, refl}
use mathlib.Core.Logic.{◌↔◌, ◌⊎◌}
use mathlib.Core.Bool.{Bool, true, false, not, ◌&&◌}
use mathlib.Core.List.{[], ◌∷◌}
use native.Mathlib.Omega.{arith}
use tlgs.Common.Strings.{Bytes, bytes_eq, bytes_lt, bytes_eq_iff}
use tlgs.Common.Decimal.{ℤ, pos, negsuc, int_eq, int_lt}
use tlgs.Common.Tests.{if◌then◌else◌}

pub record StrictOrder {ℓ} (A : Type ℓ) (eq lt : A → A → Bool) : Type ℓ where
  pub eq_iff : (a b : A) → (eq a b ≡ true) ↔ (a ≡ b)
  pub irrefl : (a : A) → lt a a ≡ false
  pub trans : (a b c : A) → lt a b ≡ true → lt b c ≡ true → lt a c ≡ true
  pub total : (a b : A) → eq a b ≡ false → lt a b ≡ false → lt b a ≡ true

module _ {ℓ} {A B : Type ℓ} (eq_a lt_a : A → A → Bool) (eq_b lt_b : B → B → Bool) where
  abbrev pub pair_eq : A × B → A × B → Bool
  pair_eq p q = eq_a p.0 q.0 && eq_b p.1 q.1

  abbrev pub pair_lt : A × B → A × B → Bool
  pair_lt p q = if not (eq_a p.0 q.0) then lt_a p.0 q.0 else lt_b p.1 q.1

module _ {ℓ} {A B : Type ℓ} {eq_a lt_a : A → A → Bool} {eq_b lt_b : B → B → Bool}
    (o : StrictOrder A eq_a lt_a) (r : StrictOrder B eq_b lt_b) where
  pair_eq_iff : (p q : A × B) → (pair_eq eq_a lt_a eq_b lt_b p q ≡ true) ↔ (p ≡ q)
  pair_eq_iff p q = ground (arith, o.eq_iff p.0 q.0, r.eq_iff p.1 q.1)

  pair_irrefl : (p : A × B) → pair_lt eq_a lt_a eq_b lt_b p p ≡ false
  pair_irrefl p = ground (arith, o.irrefl p.0, r.irrefl p.1)

  pair_trans :
      (p q s : A × B)
      → pair_lt eq_a lt_a eq_b lt_b p q ≡ true
      → pair_lt eq_a lt_a eq_b lt_b q s ≡ true
      → pair_lt eq_a lt_a eq_b lt_b p s ≡ true
  pair_trans p q s h k = ground (
    arith,
    o.eq_iff p.0 q.0,
    o.eq_iff q.0 s.0,
    o.eq_iff p.0 s.0,
    o.trans p.0 q.0 s.0,
    o.irrefl p.0,
    o.trans p.0 q.0 p.0,
    r.trans p.1 q.1 s.1,
  )

  pair_total :
      (p q : A × B)
      → pair_eq eq_a lt_a eq_b lt_b p q ≡ false
      → pair_lt eq_a lt_a eq_b lt_b p q ≡ false
      → pair_lt eq_a lt_a eq_b lt_b q p ≡ true
  pair_total p q h k =
      ground (arith, o.eq_iff p.0 q.0, o.eq_iff q.0 p.0, o.total p.0 q.0, r.total p.1 q.1)

  pub pair-StrictOrder :
      StrictOrder (A × B) (pair_eq eq_a lt_a eq_b lt_b) (pair_lt eq_a lt_a eq_b lt_b)
  pair-StrictOrder = record {
    eq_iff = pair_eq_iff;
    irrefl = pair_irrefl;
    trans = pair_trans;
    total = pair_total;
  }

bytes_lt_irrefl : (s : Bytes) → bytes_lt s s ≡ false
unfolding bytes_lt
bytes_lt_irrefl [] = refl
bytes_lt_irrefl (x ∷ s) = ground (arith, bytes_lt_irrefl s)

bytes_lt_trans : (s t u : Bytes) → bytes_lt s t ≡ true → bytes_lt t u ≡ true → bytes_lt s u ≡ true
unfolding bytes_lt
bytes_lt_trans [] [] u h k = cc
bytes_lt_trans [] (y ∷ t) [] h k = cc
bytes_lt_trans [] (y ∷ t) (z ∷ u) h k = refl
bytes_lt_trans (x ∷ s) [] u h k = cc
bytes_lt_trans (x ∷ s) (y ∷ t) [] h k = cc
bytes_lt_trans (x ∷ s) (y ∷ t) (z ∷ u) h k = ground (arith, bytes_lt_trans s t u)

bytes_lt-total : (s t : Bytes) → bytes_eq s t ≡ false → bytes_lt s t ≡ false → bytes_lt t s ≡ true
unfolding bytes_eq bytes_lt
bytes_lt-total [] [] h k = cc
bytes_lt-total [] (y ∷ t) h k = cc
bytes_lt-total (x ∷ s) [] h k = refl
bytes_lt-total (x ∷ s) (y ∷ t) h k = ground (arith, bytes_lt-total s t)

pub bytes-StrictOrder : StrictOrder Bytes bytes_eq bytes_lt
bytes-StrictOrder = record {
  eq_iff = bytes_eq_iff;
  irrefl = bytes_lt_irrefl;
  trans = bytes_lt_trans;
  total = bytes_lt-total;
}

int_eq_iff : (a b : ℤ) → (int_eq a b ≡ true) ↔ (a ≡ b)
unfolding int_eq
int_eq_iff (pos a) (pos b) = ground arith
int_eq_iff (pos a) (negsuc b) = ground arith
int_eq_iff (negsuc a) (pos b) = ground arith
int_eq_iff (negsuc a) (negsuc b) = ground arith

pub int-StrictOrder : StrictOrder ℤ int_eq int_lt
unfolding int_lt int_eq
int-StrictOrder = record {
  eq_iff = int_eq_iff;
  irrefl = λ a. ground arith;
  trans = λ a b c h k. ground arith;
  total = λ a b h k. ground arith;
}

module _ {ℓ} {A : Type ℓ} {eq lt : A → A → Bool} (o : StrictOrder A eq lt) where
  pub trichotomy :
      (a b : A)
      → ((lt a b ≡ true) × (lt b a ≡ false) × (eq a b ≡ false))
        ⊎ ((lt a b ≡ false) × (lt b a ≡ true) × (eq a b ≡ false))
        ⊎ ((lt a b ≡ false) × (lt b a ≡ false) × (eq a b ≡ true))
  trichotomy a b = ground (
    arith,
    o.eq_iff a b,
    o.eq_iff b a,
    o.irrefl a,
    o.irrefl b,
    o.trans a b a,
    o.trans b a b,
    o.total a b,
    o.total b a,
  )

  -- the order guarded by a test for equality, as the last step of a lexicographic chain writes it
  pub guarded-StrictOrder : StrictOrder A eq (λ a b. if not (eq a b) then lt a b else false)
  guarded-StrictOrder = record {
    eq_iff = o.eq_iff;
    irrefl = λ a. ground (arith, o.irrefl a);
    trans = λ a b c h k.
        ground (arith, o.trans a b c, o.eq_iff a c, o.eq_iff a b, o.irrefl a, o.trans a b a);
    total = λ a b h k. ground (arith, o.total a b, o.eq_iff a b, o.eq_iff b a);
  }
