-- ===== src/Search/Shown/Rows.antt =====
-- The results that a page of `tlgs_search` shows (tlgs/server/controllers/search.cpp).
use tlgs.Common.{
  ◌⊎◌, ◌≡◌, refl, ap, Bool, true, false, List, [], ◌∷◌, none, some, if◌then◌else◌, Bytes, any, map,
  bytes_eq, bytes_eq_iff, Bool-cases, inl, inr, Each, arith,
}
use tlgs.Search.{RankedResult}
use tlgs.Search.Shown.{PageRow, SearchResult, row_of, preview_or, result_of, show_results}

abbrev pub has_row : List PageRow → Bytes → Bool
has_row rows url = any (λ row. bytes_eq row.url url) rows

-- The URLs of the items that have a row.
abbrev pub listed : List PageRow → List RankedResult → List Bytes
listed rows [] = []
listed rows (item ∷ items) =
    let rest = listed rows items in if has_row rows item.url then item.url ∷ rest else rest

-- There is no row for a URL, or one is found that has it.
row_of-cases :
    (rows : List PageRow) (url : Bytes)
    → ((row_of rows url ≡ none) × (has_row rows url ≡ false))
      ⊎ ((row : PageRow) × (row_of rows url ≡ some row)
          × (row.url ≡ url)
          × (has_row rows url ≡ true))
row_of-cases [] url = inl (refl, refl)
row_of-cases (row ∷ rows) url = elim (row_of-cases rows url) [
  | inl (e, h) ↦ elim (Bool-cases (bytes_eq row.url url)) [
    | inl k ↦ inr (row, rw (e, k) refl, (bytes_eq_iff row.url url).0 k, ground (arith, k))
    | inr k ↦ inl (rw (e, k) refl, ground (arith, k, h))
  ]
  | inr (later, e, same, h) ↦ inr (later, rw (e) refl, same, ground (arith, h))
]

-- A result has the data of a row with its own URL.
pub IsFrom : (Bytes → Bytes) → List PageRow → SearchResult → Type 0
IsFrom to_local rows result =
    (row : PageRow) × (row_of rows result.url ≡ some row)
    × (row.url ≡ result.url)
    × (result.title ≡ row.title)
    × (result.content_type ≡ row.content_type)
    × (result.size ≡ row.size)
    × (result.last_crawled_at ≡ to_local row.last_crawl_success_at)
    × (result.preview ≡ preview_or row.preview)

-- The results of a page are those of its items that have a row, in their order, each with the data
-- of its own URL.
pub show_results-rows :
    (to_local : Bytes → Bytes) (rows : List PageRow) (items : List RankedResult)
    → (map (λ (r : SearchResult). r.url) (show_results to_local rows items) ≡ listed rows items)
      × Each (IsFrom to_local rows) (show_results to_local rows items)
unfolding show_results result_of IsFrom
show_results-rows to_local rows [] = (refl, tt)
show_results-rows to_local rows (item ∷ items) =
    let (urls, each) = show_results-rows to_local rows items in
    elim (row_of-cases rows item.url) [
      | inl (e, h) ↦ rw (e, h) (urls, each)
      | inr (row, e, same, h) ↦
          rw (e, h) (ap (◌∷◌ item.url) urls, ((row, e, same, refl, refl, refl, refl, refl), each))
    ]
