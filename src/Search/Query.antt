-- ===== src/Search/Query.antt =====
-- `parseSearchQuery` and `parseSizeUnits` of tlgs/server/controllers/search.cpp. The words are
-- those of drogon's `splitString`. `scaled` is `std::stod(text) * unit` as a size_t, with `none`
-- for an exception of `std::stod`.
pub mod Items
pub mod Meant
use tlgs.Common.{
  ℕ, zero, suc, ◌+◌, Bool, true, false, not, ◌&&◌, ◌||◌, List, [], ◌∷◌, ◌++◌, ◌==◌, ltb, Option,
  none, some, if◌then◌else◌, Bytes, codes, is_empty, all, bytes_eq, lower, length, isdigit, before,
  from, init, last_or, tail, tolower,
}
use tlgs.Search.{FilterConstraint, SizeConstraint, SearchFilter, no_filter, xor}

pub data TokenType : Type 0 where
  text_token filter_token logical_token : TokenType

-- `std::transform` with tolower, then a 'b' at the end goes, unless it is all there is.
abbrev unit_name : Bytes → Bytes
unit_name unit = let s = lower unit in if ltb 1 (length s) && last_or s 0 == b'b' then init s else s

unfoldable pub parse_size_units : Bytes → Option ℕ
unfolding bytes_eq lower
parse_size_units unit =
    let s = unit_name unit in
    if is_empty s || bytes_eq s (codes "b") || bytes_eq s (codes "byte")
    then some 1
    else if bytes_eq s (codes "k")
    then some 1000
    else if bytes_eq s (codes "ki")
    then some 1024
    else if bytes_eq s (codes "m")
    then some 1_000_000
    else if bytes_eq s (codes "mi")
    then some 1_048_576
    else if bytes_eq s (codes "g")
    then some 1_000_000_000
    else if bytes_eq s (codes "gi")
    then some 1_073_741_824
    else none

abbrev pub is_colon : ℕ → Bool
is_colon c = c == b':'

abbrev pub key_of : Bytes → Bytes
key_of token = before is_colon token

abbrev pub value_of : Bytes → Bytes
value_of token = tail (from is_colon token)

abbrev pub is_filter_key : Bytes → Bool
is_filter_key key =
    bytes_eq key (codes "content_type")
    || bytes_eq key (codes "domain")
    || bytes_eq key (codes "size")
    || bytes_eq key (codes "intitle")

-- The loop that makes `token_type`: with a ':' that is neither first nor last it is a filter or a
-- text.
unfoldable pub token_type : Bytes → TokenType
token_type token =
    if not (is_empty (key_of token)) && not (is_empty (value_of token))
    then (if is_filter_key (key_of token) then filter_token else text_token)
    else if bytes_eq token (codes "NOT") || bytes_eq token (codes "not")
    then logical_token
    else text_token

abbrev is_number_byte : ℕ → Bool
is_number_byte c = c == b'.' || isdigit c

abbrev pub ends_number : ℕ → Bool
ends_number c = not (is_number_byte c)

-- `[GBKMibyte]`, in either case
abbrev pub is_unit_byte : ℕ → Bool
is_unit_byte c =
    let d = tolower c in
    d == b'g'
    || d == b'b'
    || d == b'k'
    || d == b'm'
    || d == b'i'
    || d == b'y'
    || d == b't'
    || d == b'e'

-- The groups of `([><])([\.0-9]+)([GBKMibyte]+)?`, if the whole value matches.
unfoldable pub match_size : Bytes → Option (Bool × Bytes × Bytes)
match_size [] = none
match_size (c ∷ s) =
    let number = before ends_number s in
    let unit = from ends_number s in
    if (c == b'>' || c == b'<') && not (is_empty number) && all is_unit_byte unit
    then some (c == b'>', number, unit)
    else none

-- The answer is the filter, or `none` for an exception.
unfoldable pub add_size : (Bytes → ℕ → Option ℕ) → Bytes → Bool → SearchFilter → Option SearchFilter
add_size scaled value negate filter = elim (match_size value) [
  | none ↦ some filter
  | some (greater, number, unit_text) ↦ elim (parse_size_units unit_text) [
    | none ↦ some filter
    | some unit ↦ elim (scaled number unit) [
      | none ↦ none
      | some size ↦ some (record filter {
        size = filter.size ++ record { size = size; greater = xor negate greater } ∷ [];
      })
    ]
  ]
]

unfoldable pub add_filter :
    (Bytes → ℕ → Option ℕ) → Bytes → Bytes → Bool → SearchFilter → Option SearchFilter
add_filter scaled key value negate filter =
    let c : FilterConstraint = record { value = value; negate = negate } in
    if bytes_eq key (codes "content_type")
    then some (record filter { content_type = filter.content_type ++ c ∷ [] })
    else if bytes_eq key (codes "domain")
    then some (record filter { domain = filter.domain ++ c ∷ [] })
    else if bytes_eq key (codes "intitle")
    then some (record filter { title = filter.title ++ c ∷ [] })
    else if bytes_eq key (codes "size")
    then add_size scaled value negate filter
    else some filter

-- Is there a next word, and is it a filter?
abbrev pub filter_follows : List Bytes → Bool
filter_follows [] = false
filter_follows (token ∷ words) = elim (token_type token) [ filter_token ↦ true | _ ↦ false ]

-- The second loop.
unfoldable pub read_words :
    (Bytes → ℕ → Option ℕ)
    → List Bytes
    → Bool
    → Bytes
    → SearchFilter
    → Option (Bytes × SearchFilter)
read_words scaled [] negate search_query filter = some (search_query, filter)
read_words scaled (token ∷ words) negate search_query filter = elim (token_type token) [
  | text_token ↦ read_words scaled words negate (search_query ++ (token ++ codes " ")) filter
  | filter_token ↦ elim (add_filter scaled (key_of token) (value_of token) negate filter) [
    | none ↦ none
    | some filter' ↦ read_words scaled words false search_query filter'
  ]
  | logical_token ↦
      if filter_follows words
      then read_words scaled words true search_query filter
      else read_words scaled words negate (search_query ++ (token ++ codes " ")) filter
]

-- The title filters go onto the query, each with a space behind it.
unfoldable pub add_titles : Bytes → List FilterConstraint → Bytes
add_titles search_query [] = search_query
add_titles search_query (c ∷ cs) = add_titles (search_query ++ (c.value ++ codes " ")) cs

-- parseSearchQuery, of the words
unfoldable pub parse_search_query :
    (Bytes → ℕ → Option ℕ) → List Bytes → Option (Bytes × SearchFilter)
parse_search_query scaled words = elim (read_words scaled words false [] no_filter) [
  | none ↦ none
  | some (search_query, filter) ↦ some (add_titles (init search_query) filter.title, filter)
]
