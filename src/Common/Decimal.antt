-- ===== src/Common/Decimal.antt =====
-- Signed integers, std::to_string, std::stoi and strtoull (their C++ standard behaviour).
use Prim.Native.Nat.{ℕ, zero, suc, ◌+◌, ◌-◌, ◌*◌, ◌/◌, ◌%◌, ◌<◌}
use mathlib.Core.Path.{◌≡◌, refl}
use mathlib.Core.Logic.{inl, inr, ◌≢◌}
use mathlib.Core.Bool.{Bool, true, false, not, ◌&&◌, ◌||◌}
use mathlib.Core.List.{[], ◌∷◌, ◌++◌}
use mathlib.Core.Option.{Option, none, some}
use native.Mathlib.Omega.{arith}
use tlgs.Common.Strings.{Bytes, isdigit, isspace, before, from, before-all, from-all}
use tlgs.Common.Lists.{all, all_of_imp, is_empty, all-append, concat_ne_nil}
use tlgs.Common.Tests.{ltb, ◌==◌, if◌then◌else◌, Bool-cases}

-- `negsuc n` is -(n + 1).
pub data ℤ : Type 0 where
  pos : ℕ → ℤ
  negsuc : ℕ → ℤ

unfoldable pub int_eq : ℤ → ℤ → Bool
int_eq (pos a) (pos b) = a == b
int_eq (negsuc a) (negsuc b) = a == b
int_eq _ _ = false

unfoldable pub int_lt : ℤ → ℤ → Bool
int_lt (pos a) (pos b) = ltb a b
int_lt (pos a) (negsuc b) = false
int_lt (negsuc a) (pos b) = true
int_lt (negsuc a) (negsuc b) = ltb b a

-- std::to_string of a number; `digits_of` has fuel, and a number has no more digits than itself +
-- 1.
unfoldable pub digits_of : ℕ → ℕ → Bytes
digits_of zero n = []
digits_of (suc f) n =
    let rest = digits_of f (n / 10) ++ (b'0' + n % 10) ∷ [] in
    if ltb n 10 then (b'0' + n) ∷ [] else rest

unfoldable pub to_string_ℕ : ℕ → Bytes
unfolding digits_of
to_string_ℕ n = digits_of (suc n) n

unfoldable pub to_string : ℤ → Bytes
unfolding to_string_ℕ
to_string (pos n) = to_string_ℕ n
to_string (negsuc n) = b'-' ∷ to_string_ℕ (suc n)

-- The value of a run of digits, on top of what was read before.
unfoldable pub value_from : ℕ → Bytes → ℕ
value_from acc [] = acc
value_from acc (c ∷ s) = value_from (acc * 10 + (c - b'0')) s

abbrev pub not_digit : ℕ → Bool
not_digit c = not (isdigit c)

abbrev not_space : ℕ → Bool
not_space c = not (isspace c)

-- The sign, and what follows it.
unfoldable pub split_sign : Bytes → Bool × Bytes
split_sign [] = (false, [])
split_sign (c ∷ s) =
    if c == b'-' then (true, s) else if c == b'+' then (false, s) else (false, c ∷ s)

-- strtol's scan: white space, a sign, digits. `none` if there is no digit; else the sign, the
-- value and the text behind the digits.
unfoldable pub scan_number : Bytes → Option (Bool × ℕ × Bytes)
unfolding before from split_sign value_from
scan_number s =
    let (neg, t) = split_sign (from not_space s) in
    if is_empty (before not_digit t)
    then none
    else some (neg, value_from 0 (before not_digit t), from not_digit t)

abbrev int_of : Bool → ℕ → ℤ
int_of neg zero = pos 0
int_of neg (suc n) = if neg then negsuc n else pos (suc n)

-- 2 ^ 31
abbrev int_limit : ℕ
int_limit = 2_147_483_648

-- std::stoi; `none` where it throws (no digit, or out of an int's range).
unfoldable pub stoi : Bytes → Option ℤ
unfolding scan_number
stoi s = elim (scan_number s) [
  | none ↦ none
  | some (neg, n, rest) ↦
      if ltb n int_limit || (neg && n == int_limit) then some (int_of neg n) else none
]

digits_of-isdigit : (f n : ℕ) → all isdigit (digits_of f n) ≡ true
unfolding digits_of
digits_of-isdigit zero n = refl
digits_of-isdigit (suc f) n = elim (Bool-cases (ltb n 10)) [
  | inl e ↦ ground arith
  | inr e ↦ ground (
    arith,
    all-append isdigit (digits_of f (n / 10)) ((b'0' + n % 10) ∷ []),
    digits_of-isdigit f (n / 10),
  )
]

value_from-append : (a : ℕ) (s t : Bytes) → value_from a (s ++ t) ≡ value_from (value_from a s) t
unfolding value_from
value_from-append a [] t = refl
value_from-append a (c ∷ s) t = value_from-append (a * 10 + (c - b'0')) s t

value_from-digits_of : (f n : ℕ) → n < f → value_from 0 (digits_of f n) ≡ n
unfolding digits_of value_from
value_from-digits_of zero n h = absurd (omega arith)
value_from-digits_of (suc f) n h = elim (Bool-cases (ltb n 10)) [
  | inl e ↦ ground arith
  | inr e ↦ ground (
    arith,
    value_from-append 0 (digits_of f (n / 10)) ((b'0' + n % 10) ∷ []),
    value_from-digits_of f (n / 10),
  )
]

digits_of-ne-nil : (f n : ℕ) → digits_of (suc f) n ≢ []
unfolding digits_of
digits_of-ne-nil f n h = elim (Bool-cases (ltb n 10)) [
  | inl e ↦ ground arith
  | inr e ↦ concat_ne_nil (digits_of f (n / 10)) (b'0' + n % 10) (ground arith)
]

pub to_string_ℕ-isdigit : (n : ℕ) → all isdigit (to_string_ℕ n) ≡ true
unfolding to_string_ℕ
to_string_ℕ-isdigit n = digits_of-isdigit (suc n) n

pub to_string_ℕ-ne-nil : (n : ℕ) → to_string_ℕ n ≢ []
unfolding to_string_ℕ
to_string_ℕ-ne-nil n = digits_of-ne-nil n n

pub value_from-to_string_ℕ : (n : ℕ) → value_from 0 (to_string_ℕ n) ≡ n
unfolding to_string_ℕ
value_from-to_string_ℕ n = value_from-digits_of (suc n) n (omega arith)

digit_first :
    (d : ℕ) (ds : Bytes) → isdigit d ≡ true → split_sign (from not_space (d ∷ ds)) ≡ (false, d ∷ ds)
unfolding split_sign from
digit_first d ds h = ground arith

-- A run of digits is read whole, with no sign.
pub scan_number-digits :
    (s : Bytes) → s ≢ [] → all isdigit s ≡ true → scan_number s ≡ some (false, value_from 0 s, [])
unfolding scan_number
scan_number-digits [] ne h = absurd (ne refl)
scan_number-digits (d ∷ ds) ne h =
    let unsigned : split_sign (from not_space (d ∷ ds)) ≡ (false, d ∷ ds) =
      digit_first d ds (ground arith) in
    let same : all (λ c. not (not_digit c)) (d ∷ ds) ≡ true =
      all_of_imp isdigit (λ c. not (not_digit c)) (λ x e. ground arith) (d ∷ ds) h in
    let behind = from-all not_digit (d ∷ ds) same in
    let read = before-all not_digit (d ∷ ds) same in ground arith

int_of_pos :
    (n : ℕ)
    → n < int_limit
    → (if ltb n int_limit || (false && n == int_limit) then some (int_of false n) else none)
      ≡ some (pos n)
int_of_pos zero h = refl
int_of_pos (suc n) h = ground arith

pub stoi-to_string_ℕ : (n : ℕ) → n < int_limit → stoi (to_string_ℕ n) ≡ some (pos n)
unfolding stoi
stoi-to_string_ℕ n h =
    rw (scan_number-digits (to_string_ℕ n) (to_string_ℕ-ne-nil n) (to_string_ℕ-isdigit n), stoi)
      (rw (value_from-to_string_ℕ n) (int_of_pos n h))
