-- ===== src/Search/Query/Meant/Filters.antt =====
-- The filters that a query adds (tlgs/server/controllers/search.cpp), one after the other.
use tlgs.Common.{
  ℕ, ◌≡◌, refl, ap, ◌∙◌, Bool, true, false, not, ◌||◌, List, [], ◌∷◌, ◌++◌, ◌==◌, map, append_assoc,
  append-nil, Option, none, some, if◌then◌else◌, Bytes, codes, is_empty, all, isdigit, bytes_eq,
  before-stop, from-stop, lower, &&-true, arith, Option-cases, inl, inr,
}
use tlgs.Search.{FilterConstraint, SizeConstraint, SearchFilter, xor}
use tlgs.Search.Query.{
  ends_number, is_unit_byte, match_size, parse_size_units, add_size, add_filter,
}
use tlgs.Search.Query.Items.{add_items}
use tlgs.Search.Query.Meant.{
  types, domains, titles, SizeUnit, single, kilo, kibi, mega, mebi, giga, gibi, unit_text,
  unit_size, Term, plain, by_text, by_size, limit_text, as_item, is_numeral, is_term, filters_of,
  limit_cons, limits_of,
}

-- A filter with more constraints behind its own.
abbrev pub extended :
    SearchFilter
    → List FilterConstraint
    → List FilterConstraint
    → List FilterConstraint
    → Option (List SizeConstraint)
    → Option SearchFilter
extended f ts ds is none = none
extended f ts ds is (some limits) = some (record {
  content_type = f.content_type ++ ts;
  domain = f.domain ++ ds;
  size = f.size ++ limits;
  title = f.title ++ is;
})

abbrev or_none : Option ℕ → (ℕ → Option SearchFilter) → Option SearchFilter
or_none none k = none
or_none (some size) k = k size

abbrev with_limit : SearchFilter → Bool → ℕ → SearchFilter
with_limit f greater size = record f {
  size = f.size ++ record { size = size; greater = greater } ∷ [];
}

module _ (f : SearchFilter) (c : FilterConstraint) (ts ds is : List FilterConstraint) where
  extended-types :
      (limits : Option (List SizeConstraint))
      → extended (record f { content_type = f.content_type ++ c ∷ [] }) ts ds is limits
        ≡ extended f (c ∷ ts) ds is limits
  extended-types none = refl
  extended-types (some limits) = rw (append_assoc f.content_type (c ∷ []) ts) refl

  extended-domains :
      (limits : Option (List SizeConstraint))
      → extended (record f { domain = f.domain ++ c ∷ [] }) ts ds is limits
        ≡ extended f ts (c ∷ ds) is limits
  extended-domains none = refl
  extended-domains (some limits) = rw (append_assoc f.domain (c ∷ []) ds) refl

  extended-titles :
      (limits : Option (List SizeConstraint))
      → extended (record f { title = f.title ++ c ∷ [] }) ts ds is limits
        ≡ extended f ts ds (c ∷ is) limits
  extended-titles none = refl
  extended-titles (some limits) = rw (append_assoc f.title (c ∷ []) is) refl

module _ (f : SearchFilter) (greater : Bool) (ts ds is : List FilterConstraint) where
  extended-limit :
      (size : ℕ) (limits : Option (List SizeConstraint))
      → extended (with_limit f greater size) ts ds is limits
        ≡ extended f ts ds is (limit_cons greater (some size) limits)
  extended-limit size none = refl
  extended-limit size (some limits) =
      rw (append_assoc f.size (record { size = size; greater = greater } ∷ []) limits) refl

numeral-before :
    (s : Bytes)
    → all (λ c. c == b'.' || isdigit c) s ≡ true
    → all (λ c. not (ends_number c)) s ≡ true
numeral-before [] h = refl
numeral-before (c ∷ s) h = ground (arith, h, numeral-before s)

match_limit :
    (above : Bool) (number : Bytes) (c : ℕ) (t : Bytes)
    → is_numeral number ≡ true
    → ends_number c ≡ true
    → all is_unit_byte (c ∷ t) ≡ true
    → match_size ((if above then b'>' else b'<') ∷ number ++ c ∷ t) ≡ some (above, number, c ∷ t)
unfolding match_size
match_limit true number c t h e u =
    let n = numeral-before number (&&-true (not (is_empty number)) _ h).1 in
    let some_digits : is_empty number ≡ false = ground (arith, h) in
    rw
      (before-stop ends_number number c t n e, from-stop ends_number number c t n e, u, some_digits)
      refl
match_limit false number c t h e u =
    let n = numeral-before number (&&-true (not (is_empty number)) _ h).1 in
    let some_digits : is_empty number ≡ false = ground (arith, h) in
    rw
      (before-stop ends_number number c t n e, from-stop ends_number number c t n e, u, some_digits)
      refl

-- The value of a limit is read as what it has been printed from.
match_limit_text :
    (above : Bool) (number : Bytes) (unit : SizeUnit)
    → is_numeral number ≡ true
    → match_size (limit_text above number unit) ≡ some (above, number, unit_text unit)
match_limit_text above number single h = match_limit above number b'B' [] h refl refl
match_limit_text above number kilo h = match_limit above number b'k' (codes "B") h refl refl
match_limit_text above number kibi h = match_limit above number b'K' (codes "iB") h refl refl
match_limit_text above number mega h = match_limit above number b'M' (codes "B") h refl refl
match_limit_text above number mebi h = match_limit above number b'M' (codes "iB") h refl refl
match_limit_text above number giga h = match_limit above number b'G' (codes "B") h refl refl
match_limit_text above number gibi h = match_limit above number b'G' (codes "iB") h refl refl

units_read : (unit : SizeUnit) → parse_size_units (unit_text unit) ≡ some (unit_size unit)
unfolding parse_size_units bytes_eq lower
units_read single = refl
units_read kilo = refl
units_read kibi = refl
units_read mega = refl
units_read mebi = refl
units_read giga = refl
units_read gibi = refl

xor-turned : (negate above : Bool) → xor negate above ≡ (if negate then not above else above)
xor-turned true true = refl
xor-turned true false = refl
xor-turned false true = refl
xor-turned false false = refl

read_limit :
    (scaled : Bytes → ℕ → Option ℕ) (negate above : Bool) (value number unit : Bytes) (n : ℕ)
    (f : SearchFilter)
    → match_size value ≡ some (above, number, unit)
    → parse_size_units unit ≡ some n
    → add_size scaled value negate f
      ≡ or_none (scaled number n) (λ size. some (with_limit f (xor negate above) size))
unfolding add_size
read_limit scaled negate above value number unit n f m u = elim (Option-cases (scaled number n)) [
  | inl e ↦ rw (m, u, e, add_size) refl
  | inr (size, e) ↦ rw (m, u, e, add_size) refl
]

add_limit :
    (scaled : Bytes → ℕ → Option ℕ) (negate above : Bool) (number : Bytes) (unit : SizeUnit)
    (f : SearchFilter)
    → is_numeral number ≡ true
    → add_size scaled (limit_text above number unit) negate f
      ≡ or_none
          (scaled number (unit_size unit))
          (λ size. some (with_limit f (if negate then not above else above) size))
add_limit scaled negate above number unit f h =
    read_limit scaled negate above (limit_text above number unit) number (unit_text unit)
      (unit_size unit) f (match_limit_text above number unit h) (units_read unit)
    ∙ ap
        (λ greater.
          or_none (scaled number (unit_size unit)) (λ size. some (with_limit f greater size)))
        (xor-turned negate above)

-- A limit with what follows it, whether the number is read or not.
limit_then :
    (f : SearchFilter) (greater : Bool) (ts ds is : List FilterConstraint)
    (limits : Option (List SizeConstraint)) (size : Option ℕ)
    (rest : SearchFilter → Option SearchFilter)
    → ((f' : SearchFilter) → rest f' ≡ extended f' ts ds is limits)
    → (elim (or_none size (λ n. some (with_limit f greater n))) [
      | none ↦ none
      | some filter' ↦ rest filter'
    ])
      ≡ extended f ts ds is (limit_cons greater size limits)
limit_then f greater ts ds is limits none rest ih = refl
limit_then f greater ts ds is limits (some n) rest ih =
    ih (with_limit f greater n) ∙ extended-limit f greater ts ds is n limits

extended-nothing : (f : SearchFilter) → some f ≡ extended f [] [] [] (some [])
extended-nothing f =
    rw (append-nil f.content_type, append-nil f.domain, append-nil f.title, append-nil f.size) refl

-- The terms that are left add their filters to those that are there.
pub add_terms :
    (scaled : Bytes → ℕ → Option ℕ) (terms : List Term) (f : SearchFilter)
    → all is_term terms ≡ true
    → add_items scaled (map as_item terms) f
      ≡ extended f
          (filters_of types terms)
          (filters_of domains terms)
          (filters_of titles terms)
          (limits_of scaled terms)
unfolding add_filter bytes_eq
add_terms scaled [] f h = extended-nothing f
add_terms scaled (plain w ∷ terms) f h = add_terms scaled terms f (ground (arith, h))
add_terms scaled (by_text negate types value ∷ terms) f h =
    add_terms scaled terms _ (ground (arith, h))
    ∙ extended-types f (record { value = value; negate = negate }) _ _ _ (limits_of scaled terms)
add_terms scaled (by_text negate domains value ∷ terms) f h =
    add_terms scaled terms _ (ground (arith, h))
    ∙ extended-domains f (record { value = value; negate = negate }) _ _ _ (limits_of scaled terms)
add_terms scaled (by_text negate titles value ∷ terms) f h =
    add_terms scaled terms _ (ground (arith, h))
    ∙ extended-titles f (record { value = value; negate = negate }) _ _ _ (limits_of scaled terms)
add_terms scaled (by_size negate above number unit ∷ terms) f h =
    ap
      (λ (o : Option SearchFilter). (elim o [
        | none ↦ none
        | some filter' ↦ add_items scaled (map as_item terms) filter'
      ]))
      (add_limit scaled negate above number unit f (ground (arith, h)))
    ∙ limit_then f (if negate then not above else above) _ _ _ (limits_of scaled terms)
        (scaled number (unit_size unit)) (add_items scaled (map as_item terms))
        (λ f'. add_terms scaled terms f' (ground (arith, h)))
