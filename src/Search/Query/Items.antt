-- ===== src/Search/Query/Items.antt =====
-- What `parseSearchQuery` of tlgs/server/controllers/search.cpp makes of a query of words and
-- filters.
pub mod Tokens
unfoldable pub use Tokens.*
use tlgs.Common.{
  ℕ, ◌≡◌, refl, ap, ◌∙◌, sym, Bool, true, false, not, ◌&&◌, List, [], ◌∷◌, ◌++◌, append-nil,
  append_assoc, Option, none, some, if◌then◌else◌, Bytes, codes, is_empty, all, bytes_eq,
  bytes_eq_iff, before, before-stop, from, from-stop, init, init-concat, Bool-cases, Option-cases,
  &&-true, inl, inr, arith, tail,
}
use tlgs.Search.{SearchFilter, no_filter}
use tlgs.Search.Query.{
  text_token, filter_token, logical_token, token_type, is_colon, key_of, value_of, is_filter_key,
  add_filter, filter_follows, read_words, add_titles, parse_search_query,
}

-- How the second loop reads a word of each type.
module _ (scaled : Bytes → ℕ → Option ℕ) (token : Bytes) (words : List Bytes) (s : Bytes)
    (filter : SearchFilter) where
  read_text :
      token_type token ≡ text_token
      → read_words scaled (token ∷ words) false s filter
        ≡ read_words scaled words false (s ++ (token ++ codes " ")) filter
  unfolding read_words
  read_text h = ground (arith, h)

  read_filter :
      (negate : Bool)
      → token_type token ≡ filter_token
      → read_words scaled (token ∷ words) negate s filter
        ≡ (elim (add_filter scaled (key_of token) (value_of token) negate filter) [
          | none ↦ none
          | some filter' ↦ read_words scaled words false s filter'
        ])
  unfolding read_words
  read_filter negate h = ground (arith, h)

  read_not :
      token_type token ≡ logical_token
      → filter_follows words ≡ true
      → read_words scaled (token ∷ words) false s filter ≡ read_words scaled words true s filter
  unfolding read_words
  read_not h k = ground (arith, h, k)

not_token : token_type (codes "NOT") ≡ logical_token
unfolding token_type before from bytes_eq
not_token = refl

-- A filter that is read and the words behind it.
read_constraint :
    (scaled : Bytes → ℕ → Option ℕ) (key value : Bytes) (words : List Bytes) (negate : Bool)
    → (s : Bytes) (filter : SearchFilter) → is_filter_key key ≡ true
    → is_empty value ≡ false
    → read_words scaled (filter_text key value ∷ words) negate s filter
      ≡ (elim (add_filter scaled key value negate filter) [
        | none ↦ none
        | some filter' ↦ read_words scaled words false s filter'
      ])
read_constraint scaled key value words negate s filter h e =
    let (t, k, v) = filter_text-token key value h e in
    read_filter scaled (filter_text key value) words s filter negate t
    ∙ ap
        (λ (p : Bytes × Bytes). (elim (add_filter scaled p.0 p.1 negate filter) [
          | none ↦ none
          | some filter' ↦ read_words scaled words false s filter'
        ]))
        (λ i. (k i, v i))

is_word-token : (w : Bytes) → is_word w ≡ true → token_type w ≡ text_token
is_word-token w h = ground (arith, h)

follows :
    (token : Bytes) (words : List Bytes)
    → token_type token ≡ filter_token
    → filter_follows (token ∷ words) ≡ true
follows token words h = ground (arith, h)

rest_items :
    (scaled : Bytes → ℕ → Option ℕ) (items : List Item) (s : Bytes) (filter : Option SearchFilter)
    → ((f : SearchFilter)
        → read_words scaled (print_items items) false s f
          ≡ with_text (s ++ words_text items) (add_items scaled items f))
    → (elim filter [ none ↦ none | some f ↦ read_words scaled (print_items items) false s f ])
      ≡ with_text
          (s ++ words_text items)
          (elim filter [ none ↦ none | some f ↦ add_items scaled items f ])
rest_items scaled items s none ih = refl
rest_items scaled items s (some f) ih = ih f

read_nothing :
    (scaled : Bytes → ℕ → Option ℕ) (s : Bytes) (filter : SearchFilter)
    → read_words scaled [] false s filter ≡ some (s ++ [], filter)
unfolding read_words
read_nothing scaled s filter = ap (λ t. some (t, filter)) (sym (append-nil s))

read_items :
    (scaled : Bytes → ℕ → Option ℕ) (items : List Item) (s : Bytes) (filter : SearchFilter)
    → all is_item items ≡ true
    → read_words scaled (print_items items) false s filter
      ≡ with_text (s ++ words_text items) (add_items scaled items filter)
read_items scaled [] s filter h = read_nothing scaled s filter
read_items scaled (word w ∷ items) s filter h =
    read_text scaled w (print_items items) s filter (is_word-token w (&&-true (is_word w) _ h).0)
    ∙ read_items scaled items (s ++ (w ++ codes " ")) filter (&&-true (is_word w) _ h).1
    ∙ ap (λ t. with_text t (add_items scaled items filter))
        (append_assoc s (w ++ codes " ") (words_text items))
read_items scaled (constraint false key value ∷ items) s filter h =
    let k : is_filter_key key ≡ true = ground arith in
    let e : is_empty value ≡ false = ground arith in
    read_constraint scaled key value (print_items items) false s filter k e
    ∙ rest_items scaled items s (add_filter scaled key value false filter)
        (λ f. read_items scaled items s f (ground arith))
read_items scaled (constraint true key value ∷ items) s filter h =
    let k : is_filter_key key ≡ true = ground arith in
    let e : is_empty value ≡ false = ground arith in
    read_not scaled (codes "NOT") (filter_text key value ∷ print_items items) s filter not_token
      (follows (filter_text key value) (print_items items) (filter_text-token key value k e).0)
    ∙ read_constraint scaled key value (print_items items) true s filter k e
    ∙ rest_items scaled items s (add_filter scaled key value true filter)
        (λ f. read_items scaled items s f (ground arith))

-- The end of `parseSearchQuery`: `init` takes the last space away.
abbrev pub finish : Option (Bytes × SearchFilter) → Option (Bytes × SearchFilter)
finish none = none
finish (some (s, filter)) = some (add_titles (init s) filter.title, filter)

finish-read :
    (scaled : Bytes → ℕ → Option ℕ) (words : List Bytes)
    → parse_search_query scaled words ≡ finish (read_words scaled words false [] no_filter)
unfolding parse_search_query
finish-read scaled words = elim (Option-cases (read_words scaled words false [] no_filter)) [
  | inl e ↦ ground (arith, e)
  | inr (r, e) ↦ ground (arith, e)
]

finish-with_text :
    (s : Bytes) (filter : Option SearchFilter)
    → finish (with_text s filter) ≡ (elim filter [
      | none ↦ none
      | some filter' ↦ some (add_titles (init s) filter'.title, filter')
    ])
finish-with_text s none = refl
finish-with_text s (some filter) = refl

-- A query of words and filters is read as its words, and what `add_filter` makes of its filters, one
-- after the other.
pub parse_search_query-print_items :
    (scaled : Bytes → ℕ → Option ℕ) (items : List Item)
    → all is_item items ≡ true
    → parse_search_query scaled (print_items items) ≡ (elim (add_items scaled items no_filter) [
      | none ↦ none
      | some filter ↦ some (add_titles (init (words_text items)) filter.title, filter)
    ])
parse_search_query-print_items scaled items h =
    finish-read scaled (print_items items)
    ∙ ap finish (read_items scaled items [] no_filter h)
    ∙ finish-with_text (words_text items) (add_items scaled items no_filter)

abbrev pub titled : Bytes → SearchFilter
titled title = record no_filter { title = record { value = title; negate = false } ∷ [] }

-- A word and a title filter behind it: the two run together in the text to search for.
pub word_and_title :
    (scaled : Bytes → ℕ → Option ℕ) (w title : Bytes)
    → is_word w ≡ true
    → is_empty title ≡ false
    → parse_search_query scaled (w ∷ filter_text (codes "intitle") title ∷ [])
      ≡ some (w ++ (title ++ codes " "), titled title)
unfolding add_filter add_titles bytes_eq
word_and_title scaled w title h e =
    parse_search_query-print_items scaled (word w ∷ constraint false (codes "intitle") title ∷ [])
      (ground arith)
    ∙ ap (λ (s : Bytes). some (s ++ (title ++ codes " "), titled title))
        (ap init (append-nil (w ++ codes " ")) ∙ init-concat w b' ')
