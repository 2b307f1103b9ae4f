-- ===== src/Search.antt =====
-- tlgs/server/controllers/search.cpp: the filters of a search, and `sanitizeGemini`. `RankedResult`
-- has a score, a floating-point number, that no filter reads.
pub mod Filter
pub mod Query
pub mod Ranking
pub mod Graph
pub mod Pages
pub mod Merge
pub mod Service
pub mod Shown
pub mod Scores
pub mod Hits
pub mod PageSearch
use tlgs.Common.{
  ℕ, ◌<◌, Bool, true, false, not, ◌&&◌, ◌||◌, List, [], ◌∷◌, ltb, ◌==◌, Option, none, some,
  if◌then◌else◌, Bytes, codes, is_empty, any, from, bytes_eq, starts_with,
}
use tlgs.Common.Decimal.{ℤ}
use tlgs.Url.Parse.{parse}

-- RankedResult, without its score
pub record RankedResult : Type 0 where
  pub url : Bytes
  pub content_type : Bytes
  pub size : ℕ
  pub content_hash : ℕ

-- FilterConstrant
pub record FilterConstraint : Type 0 where
  pub value : Bytes
  pub negate : Bool

-- SizeConstrant
pub record SizeConstraint : Type 0 where
  pub size : ℕ
  pub greater : Bool

pub record SearchFilter : Type 0 where
  pub content_type : List FilterConstraint
  pub domain : List FilterConstraint
  pub size : List SizeConstraint
  pub title : List FilterConstraint

abbrev pub no_filter : SearchFilter
no_filter = record { content_type = []; domain = []; size = []; title = [] }

abbrev pub xor : Bool → Bool → Bool
xor a b = if a then not b else b

abbrev pub no_elements {ℓ} : {A : Type ℓ} → List A → Bool
no_elements [] = true
no_elements (x ∷ xs) = false

-- SearchFilter::empty
unfoldable pub has_no_filter : SearchFilter → Bool
has_no_filter filter =
    no_elements filter.content_type && no_elements filter.domain && no_elements filter.size

abbrev pub fits_size : ℕ → SizeConstraint → Bool
fits_size size c = if c.greater then ltb c.size size else ltb size c.size

abbrev pub fits_domain : Bytes → FilterConstraint → Bool
fits_domain host c = xor c.negate (bytes_eq host c.value)

-- for the content types, and for the titles as well
abbrev pub fits_type : Bytes → FilterConstraint → Bool
fits_type content_type c =
    xor c.negate (not (is_empty content_type) && starts_with content_type c.value)

-- Are there constraints, and does none of them hold?
abbrev pub fails_all {ℓ} : {A : Type ℓ} → (A → Bool) → List A → Bool
fails_all fits constraints = not (no_elements constraints) && not (any fits constraints)

unfoldable pub eval_filter : Bytes → Bytes → ℕ → SearchFilter → Bool
eval_filter host content_type size filter =
    if size == 0 && not (no_elements filter.size)
    then false
    else if fails_all (fits_size size) filter.size
    then false
    else if fails_all (fits_domain host) filter.domain
    then false
    else if fails_all (fits_type content_type) filter.content_type
    then false
    else if fails_all (fits_type content_type) filter.title
    then false
    else true

-- the test of the loop in `tlgs_search`
abbrev pub passes : ℤ → SearchFilter → RankedResult → Bool
passes junk filter item =
    eval_filter (parse junk true item.url).host item.content_type item.size filter

abbrev pub keep_passing : ℤ → SearchFilter → List RankedResult → List RankedResult
keep_passing junk filter [] = []
keep_passing junk filter (item ∷ items) =
    let rest = keep_passing junk filter items in
    if passes junk filter item then item ∷ rest else rest

-- The results that `tlgs_search` shows: the filter is looked at only if it is not empty.
unfoldable pub filtered_result : ℤ → SearchFilter → List RankedResult → List RankedResult
filtered_result junk filter ranked_result =
    if not (has_no_filter filter) then keep_passing junk filter ranked_result else ranked_result

-- "`*=>#"
abbrev is_markup : ℕ → Bool
is_markup c = c == b'`' || c == b'*' || c == b'=' || c == b'>' || c == b'#'

abbrev no_markup : ℕ → Bool
no_markup c = not (is_markup c)

-- sanitizeGemini: a text of markup alone is left as it is.
unfoldable pub sanitize_gemini : (Bytes → Bytes → Bytes → Bytes) → Bytes → Bytes
sanitize_gemini replace_all preview =
    let lines = replace_all preview (codes "\n") (codes " ") in
    let columns = replace_all lines (codes "\t") (codes " ") in
    let text = replace_all columns (codes "```") (codes " ") in
    if is_empty (from no_markup text) then text else from no_markup text
