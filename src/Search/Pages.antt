-- ===== src/Search/Pages.antt =====
-- `tlgs_search` and `jump_search` of tlgs/server/controllers/search.cpp: the results that a page
-- shows, and the redirection to a page. Iterators are offsets from the start of the results.
pub mod Slices
use tlgs.Common.{
  ℕ, ◌+◌, ◌-◌, ◌*◌, ◌%◌, ◌^◌, Bool, true, false, ◌||◌, List, [], ◌∷◌, ◌++◌, ltb, ◌==◌, Option, none,
  some, if◌then◌else◌, Bytes, codes, length, take, drop, any,
}
use tlgs.Common.Decimal.{to_string_ℕ}
use tlgs.Search.{RankedResult}
use tlgs.Utils.{try_strtoull}

abbrev pub u64 : ℕ → ℕ
u64 n = n % 2 ^ 64

abbrev pub value_or : Option ℕ → ℕ → ℕ
value_or none d = d
value_or (some n) d = n

-- std::min
abbrev pub min : ℕ → ℕ → ℕ
min a b = if ltb b a then b else a

-- `page - 1`, in 64 bits
unfoldable pub current_page_idx : Option ℕ → ℕ
current_page_idx page = u64 (value_or page 1 + (2 ^ 64 - 1))

-- The offsets of `begin` and `end`. A number from 2^63 on is a negative offset, and stands before
-- the results: then there is no range.
unfoldable pub page_range : ℕ → ℕ → Option (ℕ × ℕ)
page_range idx size =
    let begin = u64 (10 * idx) in
    let end = min (u64 (10 * u64 (idx + 1))) size in
    if ltb begin (2 ^ 63) then some (if ltb end begin then end else begin, end) else none

abbrev pub subrange {ℓ} : {A : Type ℓ} → List A → ℕ × ℕ → List A
subrange xs (begin, end) = take (end - begin) (drop begin xs)

abbrev pub shown_in {ℓ} : {A : Type ℓ} → List A → Option (ℕ × ℕ) → Option (List A)
shown_in xs none = none
shown_in xs (some range) = some (subrange xs range)

-- The results of the page with the number that the path ends in.
unfoldable pub shown_results {ℓ} : {A : Type ℓ} → Option ℕ → List A → Option (List A)
shown_results page filtered_result =
    shown_in filtered_result (page_range (current_page_idx page) (length filtered_result))

abbrev is_quote : ℕ → Bool
is_quote c = c == 39

-- "'url', " for a URL without a quote
abbrev quoted_url : RankedResult → Bytes
quoted_url item = if any is_quote item.url then [] else codes "'" ++ (item.url ++ codes "', ")

abbrev quoted_urls : List RankedResult → Bytes
quoted_urls [] = []
quoted_urls (item ∷ items) = quoted_url item ++ quoted_urls items

-- `url_array.resize(url_array.size()-2)`, where there is something
unfoldable pub url_array : List RankedResult → Bytes
url_array items = let urls = quoted_urls items in take (length urls - 2) urls

-- The two answers of `jump_search`: an input is asked for, or the client is sent to the page.
pub data Jump : Type 0 where
  ask_page : Jump
  redirect : Bytes → Jump

abbrev pub search_path : Bool → Bytes
search_path verbose = if verbose then codes "/v/search" else codes "/search"

abbrev pub jump_to : Bool → Bytes → ℕ → Jump
jump_to verbose search_term page =
    if page == 1
    then redirect (search_path verbose ++ (codes "?" ++ search_term))
    else redirect
        (search_path verbose ++ (codes "/" ++ (to_string_ℕ page ++ (codes "?" ++ search_term))))

abbrev pub jump_if : Bool → Bytes → Option ℕ → Jump
jump_if verbose search_term none = ask_page
jump_if verbose search_term (some page) =
    if page == 0 then ask_page else jump_to verbose search_term page

-- `verbose`: does the path of the request start with "/v"?
unfoldable pub jump_search : Bool → Bytes → Bytes → Jump
jump_search verbose search_term input = jump_if verbose search_term (try_strtoull input)
