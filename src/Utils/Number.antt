-- ===== src/Utils/Number.antt =====
-- `try_strtoull` of tlgsutils/utils.cpp, by which the page number of a search is read.
use tlgs.Common.{
  ℕ, ◌≤◌, ◌≡◌, Bool, not, arith, some, Bytes, all_of_imp, isdigit, before, before-all, Option-cases,
  inl, inr,
}
use tlgs.Common.Decimal.{
  to_string_ℕ, scan_number, scan_number-digits, to_string_ℕ-isdigit, to_string_ℕ-ne-nil,
  value_from-to_string_ℕ,
}
use tlgs.Utils.{try_strtoull, ull_max, ull_of, is_nul}

ull_of-le : (neg : Bool) (n : ℕ) → ull_of neg n ≤ ull_max
ull_of-le neg n = ground arith

-- A number that fits 64 bits is read back from its decimal digits.
pub try_strtoull-to_string : (n : ℕ) → n ≤ ull_max → try_strtoull (to_string_ℕ n) ≡ some n
unfolding try_strtoull
try_strtoull-to_string n h =
    let digits = to_string_ℕ-isdigit n in
    let whole =
      before-all is_nul (to_string_ℕ n)
        (all_of_imp isdigit (λ c. not (is_nul c)) (λ c e. ground arith) (to_string_ℕ n) digits) in
    rw
      (
        whole,
        scan_number-digits (to_string_ℕ n) (to_string_ℕ-ne-nil n) digits,
        value_from-to_string_ℕ n,
        try_strtoull,
      )
      (ground arith)

-- Whatever is read fits 64 bits.
pub try_strtoull-le : (s : Bytes) (n : ℕ) → try_strtoull s ≡ some n → n ≤ ull_max
unfolding try_strtoull
try_strtoull-le s n = elim (Option-cases (scan_number (before is_nul s))) [
  | inl e ↦ rw (e, try_strtoull) (λ h. cc)
  | inr (r, e) ↦ rw (e, try_strtoull) (λ h. ground (arith, ull_of-le r.0 r.1))
]
