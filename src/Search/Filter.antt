-- ===== src/Search/Filter.antt =====
-- The filters of tlgs/server/controllers/search.cpp: `evalFilter` and its use in `tlgs_search`.
use tlgs.Common.{
  ℕ, zero, suc, ◌≡◌, ◌↔◌, ◌⊎◌, inl, inr, refl, sym, Bool, true, false, not, ◌&&◌, List, [], ◌∷◌,
  ◌==◌, if◌then◌else◌, Bytes, any, Bool-cases, arith,
}
use tlgs.Common.Decimal.{ℤ}
use tlgs.Search.{
  RankedResult, SizeConstraint, SearchFilter, no_elements, has_no_filter, fits_size, fits_domain,
  fits_type, fails_all, eval_filter, keep_passing, filtered_result,
}

-- The constraints of one kind let a page pass: there are none, or one of them holds.
pub IsMet {ℓ} : {A : Type ℓ} → (A → Bool) → List A → Type 0
IsMet fits constraints = (no_elements constraints ≡ true) ⊎ (any fits constraints ≡ true)

fails_all-IsMet {ℓ} :
    {A : Type ℓ} (fits : A → Bool) (constraints : List A)
    → (fails_all fits constraints ≡ false) ↔ IsMet fits constraints
unfolding IsMet
fails_all-IsMet fits [] = (λ h. inl refl, λ h. refl)
fails_all-IsMet fits (c ∷ cs) =
    (λ h. inr (ground arith), λ h. elim h [ inl e ↦ absurd (cc) | inr e ↦ ground arith ])

none_fails :
    (z p q r s : Bool)
    → (if z
        then false
        else if p
        then false
        else if q
        then false
        else if r
        then false
        else if s
        then false
        else true)
      ≡ true
    → (z ≡ false) × (p ≡ false) × (q ≡ false) × (r ≡ false) × (s ≡ false)
none_fails z p q r s h = (ground arith, ground arith, ground arith, ground arith, ground arith)

passes_all :
    (z p q r s : Bool)
    → z ≡ false
    → p ≡ false
    → q ≡ false
    → r ≡ false
    → s ≡ false
    → (if z
        then false
        else if p
        then false
        else if q
        then false
        else if r
        then false
        else if s
        then false
        else true)
      ≡ true
passes_all z p q r s a b c d e = ground arith

known :
    (size : ℕ) (constraints : List SizeConstraint)
    → (size == 0 && not (no_elements constraints)) ≡ false
    → size ≡ 0
    → no_elements constraints ≡ true
known size constraints h e = ground arith

unknown :
    (size : ℕ) (constraints : List SizeConstraint)
    → (size ≡ 0 → no_elements constraints ≡ true)
    → (size == 0 && not (no_elements constraints)) ≡ false
unknown zero constraints h = ground (arith, h refl)
unknown (suc n) constraints h = ground arith

-- A page passes just if each kind of constraint lets it pass, and a page of unknown size, which is
-- 0, only without constraints on the size. The constraints on the title are held against the
-- content type.
pub eval_filter_iff :
    (host content_type : Bytes) (size : ℕ) (filter : SearchFilter)
    → (eval_filter host content_type size filter ≡ true) ↔ (
        ((size ≡ 0) → no_elements filter.size ≡ true)
        × IsMet (fits_size size) filter.size
        × IsMet (fits_domain host) filter.domain
        × IsMet (fits_type content_type) filter.content_type
        × IsMet (fits_type content_type) filter.title)
unfolding eval_filter
eval_filter_iff host content_type size filter =
    let a = fails_all-IsMet (fits_size size) filter.size in
    let b = fails_all-IsMet (fits_domain host) filter.domain in
    let c = fails_all-IsMet (fits_type content_type) filter.content_type in
    let d = fails_all-IsMet (fits_type content_type) filter.title in
    (
      λ h.
          let (z, p, q, r, s) = none_fails _ _ _ _ _ h in
          (λ e. known size filter.size z e, a.0 p, b.0 q, c.0 r, d.0 s),
      λ (z, p, q, r, s).
          passes_all _ _ _ _ _ (unknown size filter.size z) (a.1 p) (b.1 q) (c.1 r) (d.1 s),
    )

keep_all :
    (junk : ℤ) (filter : SearchFilter) (items : List RankedResult)
    → has_no_filter filter ≡ true
    → no_elements filter.title ≡ true
    → keep_passing junk filter items ≡ items
unfolding has_no_filter eval_filter
keep_all junk filter [] h t = refl
keep_all junk filter (item ∷ items) h t = ground (arith, keep_all junk filter items h t)

-- Without constraints on the title the results shown are those that pass: to leave out the filter
-- when it is empty changes nothing.
pub filtered_result_lem :
    (junk : ℤ) (filter : SearchFilter) (items : List RankedResult)
    → no_elements filter.title ≡ true
    → filtered_result junk filter items ≡ keep_passing junk filter items
unfolding filtered_result
filtered_result_lem junk filter items t = elim (Bool-cases (has_no_filter filter)) [
  | inl e ↦ rw e (sym (keep_all junk filter items e t))
  | inr e ↦ rw e
]
