-- ===== src/Tests/SearchRuns.antt =====
-- tlgs/server/controllers/search.cpp.
use tlgs.Common.{
  ℕ, ◌*◌, ◌≡◌, refl, ◌↔◌, true, false, [], ◌∷◌, List, Option, some, Bytes, codes, bytes_eq, before,
  from, lower,
}
use tlgs.Common.Decimal.{value_from}
use tlgs.Search.{
  RankedResult, SearchFilter, no_elements, fits_size, fits_domain, fits_type, eval_filter,
}
use tlgs.Search.Filter.{IsMet, eval_filter_iff}
use tlgs.Search.Query.{
  parse_search_query, read_words, token_type, add_filter, add_size, match_size, parse_size_units,
  add_titles,
}
use tlgs.Search.Query.Meant.{
  Term, plain, by_text, by_size, domains, kibi, print_terms, meaning, limits_of,
}
use tlgs.Search.Query.Meant.Whole.{parse_search_query-print_terms}
use tlgs.Tests.UrlRuns.{page}

-- `std::stod` on whole numbers
abbrev scaled : Bytes → ℕ → Option ℕ
scaled text unit = some (value_from 0 text * unit)

abbrev both : SearchFilter
both = record {
  content_type = [];
  domain = record { value = codes "a.org"; negate = true } ∷ [];
  size = record { size = 2048; greater = false } ∷ [];
  title = [];
}

abbrev terms : List Term
terms =
    plain (codes "foo")
    ∷ by_text true domains (codes "a.org")
    ∷ plain (codes "bar")
    ∷ by_size false false (codes "2") kibi
    ∷ []

two_filters :
    parse_search_query scaled
      (codes "foo" ∷ codes "NOT" ∷ codes "domain:a.org" ∷ codes "bar" ∷ codes "size:<2KiB" ∷ [])
    ≡ some (codes "foo bar", both)
unfolding parse_search_query read_words token_type add_filter add_size match_size parse_size_units
    add_titles bytes_eq before from lower value_from
two_filters = refl

parse_search_query-print_terms_example :
    parse_search_query scaled (print_terms terms) ≡ meaning terms (limits_of scaled terms)
unfolding bytes_eq
parse_search_query-print_terms_example = parse_search_query-print_terms scaled terms refl

terms_meant : meaning terms (limits_of scaled terms) ≡ some (codes "foo bar", both)
unfolding value_from
terms_meant = refl

abbrev result : RankedResult
result = record { url = page; content_type = codes "text/gemini"; size = 1000; content_hash = 7 }

eval_filter_iff_example :
    (eval_filter (codes "b.org") (codes "text/gemini") result.size both ≡ true) ↔ (
      ((result.size ≡ 0) → no_elements both.size ≡ true)
      × IsMet (fits_size result.size) both.size
      × IsMet (fits_domain (codes "b.org")) both.domain
      × IsMet (fits_type (codes "text/gemini")) both.content_type
      × IsMet (fits_type (codes "text/gemini")) both.title)
eval_filter_iff_example = eval_filter_iff (codes "b.org") (codes "text/gemini") result.size both
