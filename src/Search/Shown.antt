-- ===== src/Search/Shown.antt =====
-- The page that `tlgs_search` of tlgs/server/controllers/search.cpp makes of the results, and the
-- lists of `backlinks`. No score is shown, since RankedResult has none here.
pub mod Rows
use tlgs.Common.{
  ℕ, Bool, true, false, not, List, [], ◌∷◌, ◌++◌, ◌==◌, Option, none, some, if◌then◌else◌, Bytes,
  codes, is_empty, length, any, bytes_eq, starts_with,
}
use tlgs.Common.Decimal.{ℤ}
use tlgs.Search.{RankedResult, sanitize_gemini}
use tlgs.Search.Pages.{current_page_idx, shown_results, url_array}
use tlgs.Url.{Url, str}
use tlgs.Url.Parse.{parse}
use tlgs.Utils.{url_encode}

-- A row of the query for the data of the pages.
pub record PageRow : Type 0 where
  pub url : Bytes
  pub size : ℕ
  pub title : Bytes
  pub content_type : Bytes
  pub preview : Bytes
  pub last_crawl_success_at : Bytes

pub record SearchResult : Type 0 where
  pub url : Bytes
  pub title : Bytes
  pub content_type : Bytes
  pub preview : Bytes
  pub last_crawled_at : Bytes
  pub size : ℕ

-- The row that `result_idx` leads to: of two rows with one URL the later one.
abbrev pub row_of : List PageRow → Bytes → Option PageRow
row_of [] url = none
row_of (row ∷ rows) url = elim (row_of rows url) [
  | some later ↦ some later
  | none ↦ if bytes_eq row.url url then some row else none
]

abbrev pub preview_or : Bytes → Bytes
preview_or preview = if is_empty preview then codes "No preview provided" else preview

-- `to_local` prints a time of the database in the form that is shown.
module _ (to_local : Bytes → Bytes) where
  unfoldable pub result_of : RankedResult → PageRow → SearchResult
  result_of item row = record {
    url = item.url;
    title = row.title;
    content_type = row.content_type;
    preview = preview_or row.preview;
    last_crawled_at = to_local row.last_crawl_success_at;
    size = row.size;
  }

  abbrev pub put_result : RankedResult → Option PageRow → List SearchResult → List SearchResult
  put_result item none results = results
  put_result item (some row) results = result_of item row ∷ results

  -- An item without a row is left out.
  unfoldable pub show_results : List PageRow → List RankedResult → List SearchResult
  show_results rows [] = []
  show_results rows (item ∷ items) =
      put_result item (row_of rows item.url) (show_results rows items)

-- The data of the view.
pub record SearchPage : Type 0 where
  pub search_result : List SearchResult
  pub title : Bytes
  pub verbose : Bool
  pub encoded_search_term : Bytes
  pub total_results : ℕ
  pub current_page_idx : ℕ
  pub item_per_page : ℕ
  pub search_query : Bytes

-- What the page needs from outside: drogon's replaceAll, the form of a time, and the answers of the
-- database to the texts of a list of URLs and a query.
pub record View : Type 0 where
  pub replace_all : Bytes → Bytes → Bytes → Bytes
  pub to_local : Bytes → Bytes
  pub page_data : Bytes → Bytes → List PageRow

abbrev pub rows_for : View → Bytes → Bytes → List PageRow
rows_for v query_str urls = if is_empty urls then [] else v.page_data urls query_str

-- `page` is the number that the path ends in; `none` where there is no range to show.
unfoldable pub make_page :
    View → Bytes → Bytes → Bytes → Option ℕ → List RankedResult → Option SearchPage
make_page v path input query_str page filtered_result = elim (shown_results page filtered_result) [
  | none ↦ none
  | some items ↦ some (record {
    search_result = show_results v.to_local (rows_for v query_str (url_array items)) items;
    title = sanitize_gemini v.replace_all input ++ codes " - TLGS Search";
    verbose = starts_with path (codes "/v/search");
    encoded_search_term = url_encode input;
    total_results = length filtered_result;
    current_page_idx = current_page_idx page;
    item_per_page = 10;
    search_query = input;
  })
]

-- The page that `backlinks` is asked about: the input, or else the input behind "gemini://".
unfoldable pub backlinks_url : ℤ → Bytes → Option Url
backlinks_url junk input =
    let url = parse junk true input in
    let gemini = parse junk true (codes "gemini://" ++ input) in
    if url.good then some url else if gemini.good then some gemini else none

-- `push_back` to one of two lists, internal and external, for each row: its URL, and whether it is
-- of another site.
unfoldable pub sort_backlinks :
    List (Bytes × Bool) → List Bytes × List Bytes → List Bytes × List Bytes
sort_backlinks [] lists = lists
sort_backlinks ((url, cross) ∷ rows) (internal, external) =
    sort_backlinks rows
      (if cross then (internal, external ++ url ∷ []) else (internal ++ url ∷ [], external))

pub record Backlinks : Type 0 where
  pub title : Bytes
  pub internal_backlinks : List Bytes
  pub external_backlinks : List Bytes

-- `links_to` is the answer of the database; nothing if the client is asked for a URL.
unfoldable pub backlinks : ℤ → (Bytes → List (Bytes × Bool)) → Bytes → Option Backlinks
backlinks junk links_to input = elim (backlinks_url junk input) [
  | none ↦ none
  | some url ↦
      let (internal, external) = sort_backlinks (links_to (str url).0) ([], []) in
      some (record {
        title = codes "Backlinks to " ++ ((str url).0 ++ codes " - TLGS Search");
        internal_backlinks = internal;
        external_backlinks = external;
      })
]
