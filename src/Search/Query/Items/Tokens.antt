-- ===== src/Search/Query/Items/Tokens.antt =====
-- The words that a list of items is printed as, for parseSearchQuery of
-- tlgs/server/controllers/search.cpp.
use tlgs.Common.{
  ℕ, ◌≡◌, refl, ap, ◌∙◌, Bool, true, false, not, ◌&&◌, List, [], ◌∷◌, ◌++◌, Option, none, some,
  if◌then◌else◌, Bytes, codes, is_empty, all, bytes_eq, bytes_eq_iff, before-stop, from-stop,
  Bool-cases, &&-true, inl, inr, arith, tail,
}
use tlgs.Search.{SearchFilter}
use tlgs.Search.Query.{
  text_token, filter_token, token_type, is_colon, key_of, value_of, is_filter_key, add_filter,
}

-- A word to search for, or a filter, with or without a NOT in front.
pub data Item : Type 0 where
  word : Bytes → Item
  constraint : Bool → Bytes → Bytes → Item

abbrev pub filter_text : Bytes → Bytes → Bytes
filter_text key value = key ++ b':' ∷ value

abbrev pub print_items : List Item → List Bytes
print_items [] = []
print_items (word w ∷ items) = w ∷ print_items items
print_items (constraint negate key value ∷ items) =
    let rest = filter_text key value ∷ print_items items in
    if negate then codes "NOT" ∷ rest else rest

abbrev pub is_word : Bytes → Bool
is_word w = elim (token_type w) [ text_token ↦ true | _ ↦ false ]

-- Words that are no filters and no NOT, and filters of a known kind that have a value.
abbrev pub is_item : Item → Bool
is_item (word w) = is_word w
is_item (constraint negate key value) = is_filter_key key && not (is_empty value)

-- The words, each with a space behind it.
abbrev pub words_text : List Item → Bytes
words_text [] = []
words_text (word w ∷ items) = (w ++ codes " ") ++ words_text items
words_text (constraint negate key value ∷ items) = words_text items

-- The filters, in their order.
abbrev pub add_items : (Bytes → ℕ → Option ℕ) → List Item → SearchFilter → Option SearchFilter
add_items scaled [] filter = some filter
add_items scaled (word w ∷ items) filter = add_items scaled items filter
add_items scaled (constraint negate key value ∷ items) filter =
    elim (add_filter scaled key value negate filter) [
      | none ↦ none
      | some filter' ↦ add_items scaled items filter'
    ]

abbrev pub with_text : Bytes → Option SearchFilter → Option (Bytes × SearchFilter)
with_text s none = none
with_text s (some filter) = some (s, filter)

-- What holds of the four kinds of filters holds of every kind.
each_key :
    (test : Bytes → Bool) (key : Bytes)
    → is_filter_key key ≡ true
    → test (codes "content_type") ≡ true
    → test (codes "domain") ≡ true
    → test (codes "size") ≡ true
    → test (codes "intitle") ≡ true
    → test key ≡ true
each_key test key h a b c d = elim (Bool-cases (bytes_eq key (codes "content_type"))) [
  | inl e ↦ ap test ((bytes_eq_iff key _).0 e) ∙ a
  | inr k ↦ elim (Bool-cases (bytes_eq key (codes "domain"))) [
    | inl e ↦ ap test ((bytes_eq_iff key _).0 e) ∙ b
    | inr l ↦ elim (Bool-cases (bytes_eq key (codes "size"))) [
      | inl e ↦ ap test ((bytes_eq_iff key _).0 e) ∙ c
      | inr m ↦ ap test ((bytes_eq_iff key (codes "intitle")).0 (ground arith)) ∙ d
    ]
  ]
]

-- A kind is a name without a ':'.
abbrev is_name : Bytes → Bool
is_name key = not (is_empty key) && all (λ c. not (is_colon c)) key

filter_key-is_name : (key : Bytes) → is_filter_key key ≡ true → is_name key ≡ true
filter_key-is_name key h = each_key is_name key h refl refl refl refl

token_of_parts :
    (token key value : Bytes)
    → key_of token ≡ key
    → value_of token ≡ value
    → is_filter_key key ≡ true
    → is_name key ≡ true
    → is_empty value ≡ false
    → token_type token ≡ filter_token
unfolding token_type
token_of_parts token key value k v h n e =
    let m : is_empty key ≡ false = ground arith in rw (k, v, h, e, m) refl

pub filter_text-token :
    (key value : Bytes)
    → is_filter_key key ≡ true
    → is_empty value ≡ false
    → (token_type (filter_text key value) ≡ filter_token)
      × (key_of (filter_text key value) ≡ key)
      × (value_of (filter_text key value) ≡ value)
filter_text-token key value h e =
    let n = filter_key-is_name key h in
    let c = (&&-true (not (is_empty key)) _ n).1 in
    let k = before-stop is_colon key b':' value c refl in
    let v = ap tail (from-stop is_colon key b':' value c refl) in
    (token_of_parts (filter_text key value) key value k v h n e, k, v)
