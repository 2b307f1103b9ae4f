-- ===== src/Search/Query/Meant/Whole.antt =====
-- What `parseSearchQuery` of tlgs/server/controllers/search.cpp makes of a query, as a whole.
use tlgs.Common.{
  ℕ, ◌≡◌, refl, sym, ap, ◌∙◌, true, not, List, [], ◌∷◌, ◌++◌, map, append-nil, append_assoc, Option,
  none, some, Bytes, codes, is_empty, all, bytes_eq, from-all, tail, init, init-concat, arith,
}
use tlgs.Search.{FilterConstraint, SizeConstraint, SearchFilter, no_filter}
use tlgs.Search.Query.{is_colon, value_of, token_type, text_token, add_titles, parse_search_query}
use tlgs.Search.Query.Items.{is_item, is_word, words_text, parse_search_query-print_items}
use tlgs.Search.Query.Meant.{
  types, domains, titles, Term, plain, by_text, by_size, as_item, print_terms, is_plain, is_term,
  words_of, filters_of, limits_of, spaced, titles_text, meaning,
}
use tlgs.Search.Query.Meant.Filters.{extended, add_terms}

plain-text_token : (w : Bytes) → is_plain w ≡ true → token_type w ≡ text_token
unfolding token_type
plain-text_token w h =
    let clean : all (λ c. not (is_colon c)) w ≡ true = ground (arith, h) in
    let none_behind : is_empty (value_of w) ≡ true =
      ap (λ s. is_empty (tail s)) (from-all is_colon w clean) in
    ground (arith, h, none_behind)

plain-is_word : (w : Bytes) → is_plain w ≡ true → is_word w ≡ true
plain-is_word w h = ground (arith, plain-text_token w h)

terms-are_items :
    (terms : List Term) → all is_term terms ≡ true → all is_item (map as_item terms) ≡ true
unfolding bytes_eq
terms-are_items [] h = refl
terms-are_items (plain w ∷ terms) h = ground (arith, h, plain-is_word w, terms-are_items terms)
terms-are_items (by_text negate types value ∷ terms) h = ground (arith, h, terms-are_items terms)
terms-are_items (by_text negate domains value ∷ terms) h = ground (arith, h, terms-are_items terms)
terms-are_items (by_text negate titles value ∷ terms) h = ground (arith, h, terms-are_items terms)
terms-are_items (by_size negate above number unit ∷ terms) h =
    ground (arith, h, terms-are_items terms)

spaced_onto : Bytes → List Bytes → Bytes
spaced_onto s [] = s
spaced_onto s (w ∷ ws) = s ++ b' ' ∷ spaced_onto w ws

abbrev each_spaced : List Bytes → Bytes
each_spaced [] = []
each_spaced (w ∷ ws) = (w ++ codes " ") ++ each_spaced ws

words_text-words_of :
    (terms : List Term) → words_text (map as_item terms) ≡ each_spaced (words_of terms)
words_text-words_of [] = refl
words_text-words_of (plain w ∷ terms) = ap (λ s. (w ++ codes " ") ++ s) (words_text-words_of terms)
words_text-words_of (by_text negate kind value ∷ terms) = words_text-words_of terms
words_text-words_of (by_size negate above number unit ∷ terms) = words_text-words_of terms

-- The words, each with a space behind it, are the words with a space between them and one more.
each_spaced-spaced :
    (w : Bytes) (ws : List Bytes) → each_spaced (w ∷ ws) ≡ spaced (w ∷ ws) ++ codes " "
each_spaced-spaced w [] = append-nil (w ++ codes " ")
each_spaced-spaced w (v ∷ ws) =
    append_assoc w (codes " ") (each_spaced (v ∷ ws))
    ∙ ap (λ s. w ++ b' ' ∷ s) (each_spaced-spaced v ws)
    ∙ sym (append_assoc w (b' ' ∷ spaced (v ∷ ws)) (codes " "))

init-each_spaced : (ws : List Bytes) → init (each_spaced ws) ≡ spaced ws
init-each_spaced [] = refl
init-each_spaced (w ∷ ws) = ap init (each_spaced-spaced w ws) ∙ init-concat (spaced (w ∷ ws)) b' '

add_titles-titles_text :
    (s : Bytes) (cs : List FilterConstraint) → add_titles s cs ≡ s ++ titles_text cs
unfolding add_titles
add_titles-titles_text s [] = sym (append-nil s)
add_titles-titles_text s (c ∷ cs) =
    add_titles-titles_text (s ++ (c.value ++ codes " ")) cs
    ∙ append_assoc s (c.value ++ codes " ") (titles_text cs)
    ∙ ap (λ t. s ++ t) (append_assoc c.value (codes " ") (titles_text cs))

whole :
    (terms : List Term) (limits : Option (List SizeConstraint))
    → (elim (extended no_filter
        (filters_of types terms)
        (filters_of domains terms)
        (filters_of titles terms)
        limits) [
          | none ↦ none
          | some filter ↦ some (add_titles (spaced (words_of terms)) filter.title, filter)
        ])
      ≡ meaning terms limits
whole terms none = refl
whole terms (some limits) =
    ap
      (λ (s : Bytes). some (
        s,
        record {
          content_type = filters_of types terms;
          domain = filters_of domains terms;
          size = limits;
          title = filters_of titles terms;
        },
      ))
      (add_titles-titles_text (spaced (words_of terms)) (filters_of titles terms))

-- A query of words without a colon other than NOT, of filters by a text, and of limits for the size,
-- each filter with or without a NOT in front: the text to search for is the words with a space
-- between them, and then the values of the title filters with a space behind each, but none in front
-- of the first. The filters are those of the query, each with its kind and in its order, negated
-- just if a NOT stands in front, and a size with its unit counted out; with an exception of
-- `std::stod` on a size there is no result.
pub parse_search_query-print_terms :
    (scaled : Bytes → ℕ → Option ℕ) (terms : List Term)
    → all is_term terms ≡ true
    → parse_search_query scaled (print_terms terms) ≡ meaning terms (limits_of scaled terms)
parse_search_query-print_terms scaled terms h =
    parse_search_query-print_items scaled (map as_item terms) (terms-are_items terms h)
    ∙ ap
        (λ (p : Option SearchFilter × Bytes). (elim p.0 [
          | none ↦ none
          | some filter ↦ some (add_titles (init p.1) filter.title, filter)
        ]))
        (λ i. (add_terms scaled terms no_filter h i, words_text-words_of terms i))
    ∙ ap
        (λ (s : Bytes).
          (elim (extended no_filter (filters_of types terms) (filters_of domains terms)
            (filters_of titles terms) (limits_of scaled terms)) [
              | none ↦ none
              | some filter ↦ some (add_titles s filter.title, filter)
            ]))
        (init-each_spaced (words_of terms))
    ∙ whole terms (limits_of scaled terms)
