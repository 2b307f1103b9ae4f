-- ===== src/Search/Query/Meant.antt =====
-- What a query of words and filters means, stated without the loops of `parseSearchQuery`
-- (tlgs/server/controllers/search.cpp).
pub mod Filters
pub mod Whole
use tlgs.Common.{
  ℕ, ◌*◌, ◌≡◌, refl, sym, ap, ◌∙◌, Bool, true, false, not, ◌&&◌, ◌||◌, List, [], ◌∷◌, ◌++◌, ◌==◌,
  map, append-nil, append_assoc, Option, none, some, if◌then◌else◌, Bytes, codes, is_empty, all,
  isdigit, bytes_eq, from-all, tail, init, init-concat, arith, from, &&-true,
}
use tlgs.Search.{FilterConstraint, SizeConstraint, SearchFilter, no_filter}
use tlgs.Search.Query.{is_colon, token_type, text_token, add_titles, parse_search_query}
use tlgs.Search.Query.Items.{
  Item, word, constraint, print_items, is_item, is_word, words_text, add_items,
  parse_search_query-print_items,
}

pub data Kind : Type 0 where
  types domains titles : Kind

abbrev pub kind_name : Kind → Bytes
kind_name types = codes "content_type"
kind_name domains = codes "domain"
kind_name titles = codes "intitle"

pub data SizeUnit : Type 0 where
  single kilo kibi mega mebi giga gibi : SizeUnit

abbrev pub unit_text : SizeUnit → Bytes
unit_text single = codes "B"
unit_text kilo = codes "kB"
unit_text kibi = codes "KiB"
unit_text mega = codes "MB"
unit_text mebi = codes "MiB"
unit_text giga = codes "GB"
unit_text gibi = codes "GiB"

abbrev pub unit_size : SizeUnit → ℕ
unit_size single = 1
unit_size kilo = 1000
unit_size kibi = 1024
unit_size mega = 1000 * 1000
unit_size mebi = 1024 * 1024
unit_size giga = 1000 * 1000 * 1000
unit_size gibi = 1024 * 1024 * 1024

-- A word, a filter by a text, or a limit for the size: above or below a number of units. The first
-- flag of the filters is for a NOT in front.
pub data Term : Type 0 where
  plain : Bytes → Term
  by_text : Bool → Kind → Bytes → Term
  by_size : Bool → Bool → Bytes → SizeUnit → Term

abbrev pub limit_text : Bool → Bytes → SizeUnit → Bytes
limit_text above number unit = (if above then b'>' else b'<') ∷ number ++ unit_text unit

abbrev pub as_item : Term → Item
as_item (plain w) = word w
as_item (by_text negate kind value) = constraint negate (kind_name kind) value
as_item (by_size negate above number unit) =
    constraint negate (codes "size") (limit_text above number unit)

-- The words of the query.
abbrev pub print_terms : List Term → List Bytes
print_terms terms = print_items (map as_item terms)

abbrev pub is_numeral : Bytes → Bool
is_numeral s = not (is_empty s) && all (λ c. c == b'.' || isdigit c) s

abbrev pub is_plain : Bytes → Bool
is_plain w =
    all (λ c. not (is_colon c)) w
    && not (bytes_eq w (codes "NOT"))
    && not (bytes_eq w (codes "not"))

abbrev pub is_term : Term → Bool
is_term (plain w) = is_plain w
is_term (by_text negate kind value) = not (is_empty value)
is_term (by_size negate above number unit) = is_numeral number

-- The words of the terms, and their filters of a kind, in their order.
abbrev pub words_of : List Term → List Bytes
words_of [] = []
words_of (plain w ∷ terms) = w ∷ words_of terms
words_of (by_text negate kind value ∷ terms) = words_of terms
words_of (by_size negate above number unit ∷ terms) = words_of terms

abbrev pub is_kind : Kind → Kind → Bool
is_kind types types = true
is_kind domains domains = true
is_kind titles titles = true
is_kind _ _ = false

abbrev pub filters_of : Kind → List Term → List FilterConstraint
filters_of k [] = []
filters_of k (plain w ∷ terms) = filters_of k terms
filters_of k (by_text negate kind value ∷ terms) =
    let rest = filters_of k terms in
    if is_kind k kind then record { value = value; negate = negate } ∷ rest else rest
filters_of k (by_size negate above number unit ∷ terms) = filters_of k terms

-- A limit in front of the others; `none` is an exception.
abbrev pub limit_cons :
    Bool → Option ℕ → Option (List SizeConstraint) → Option (List SizeConstraint)
limit_cons greater none limits = none
limit_cons greater (some size) none = none
limit_cons greater (some size) (some limits) =
    some (record { size = size; greater = greater } ∷ limits)

-- A NOT turns "above" into "below" and the other way round.
abbrev pub limits_of : (Bytes → ℕ → Option ℕ) → List Term → Option (List SizeConstraint)
limits_of scaled [] = some []
limits_of scaled (plain w ∷ terms) = limits_of scaled terms
limits_of scaled (by_text negate kind value ∷ terms) = limits_of scaled terms
limits_of scaled (by_size negate above number unit ∷ terms) =
    limit_cons (if negate then not above else above) (scaled number (unit_size unit))
      (limits_of scaled terms)

-- The words with a space between them.
abbrev pub spaced : List Bytes → Bytes
spaced [] = []
spaced (w ∷ []) = w
spaced (w ∷ v ∷ ws) = w ++ b' ' ∷ spaced (v ∷ ws)

-- The titles with a space behind each.
abbrev pub titles_text : List FilterConstraint → Bytes
titles_text [] = []
titles_text (c ∷ cs) = c.value ++ b' ' ∷ titles_text cs

abbrev pub meaning : List Term → Option (List SizeConstraint) → Option (Bytes × SearchFilter)
meaning terms none = none
meaning terms (some limits) = some (
  spaced (words_of terms) ++ titles_text (filters_of titles terms),
  record {
    content_type = filters_of types terms;
    domain = filters_of domains terms;
    size = limits;
    title = filters_of titles terms;
  },
)
