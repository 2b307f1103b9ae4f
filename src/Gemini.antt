-- ===== src/Gemini.antt =====
-- tlgsutils/gemini_parser.cpp: what the index takes from a Gemini document. The nodes come from
-- dremini's parser, which is not part of the repository.
pub mod Extract
pub mod Runs
use tlgs.Common.{
  ℕ, zero, suc, ◌+◌, ◌-◌, Bool, true, false, not, ◌&&◌, ◌||◌, List, [], ◌∷◌, ◌++◌, ltb, leb, ◌==◌,
  Option, none, some, if◌then◌else◌, Bytes, codes, is_empty, all, any, length, take, drop, last_or,
  bytes_eq, contains, lower, starts_with, isdigit, max,
}
use tlgs.Common.Decimal.{ℤ}
use tlgs.Url.{Url}
use tlgs.Url.Parse.{parse}
use tlgs.Utils.{is_ascii_art}

-- dremini::GeminiASTNode
pub record Node : Type 0 where
  pub type : Bytes
  pub text : Bytes
  pub meta : Bytes

pub record GeminiDocument : Type 0 where
  pub text : Bytes
  pub title : Bytes
  pub links : List Bytes

abbrev pub has_type : Node → Bytes → Bool
has_type node t = bytes_eq node.type t

abbrev pub empty_document : GeminiDocument
empty_document = record { text = []; title = []; links = [] }

-- The end of the loops' bodies: the node's text, and its link or title.
unfoldable pub add_node : GeminiDocument → Node → GeminiDocument
add_node doc node = record doc {
  text = doc.text ++ (node.text ++ codes "\n");
  links = if has_type node (codes "link") then doc.links ++ node.meta ∷ [] else doc.links;
  title =
      if has_type node (codes "link")
      then doc.title
      else if has_type node (codes "heading1") && is_empty doc.title
      then node.text
      else doc.title;
}

unfoldable pub extract_onto : GeminiDocument → List Node → GeminiDocument
extract_onto doc [] = doc
extract_onto doc (node ∷ nodes) = extract_onto (add_node doc node) nodes

unfoldable pub extract_gemini : List Node → GeminiDocument
extract_gemini nodes = extract_onto empty_document nodes

-- words in the caption of a preformatted text that tell of ASCII art
abbrev pub art_words : List Bytes
art_words =
    codes "ascii"
    ∷ codes "art"
    ∷ codes "banner"
    ∷ codes "logo"
    ∷ codes "title"
    ∷ codes "news"
    ∷ codes "capsule"
    ∷ codes "user"
    ∷ codes "image"
    ∷ codes "the"
    ∷ codes "graphics"
    ∷ codes "world"
    ∷ []

unfoldable pub skips_preformatted : Bool → Node → Bool
skips_preformatted first_content node =
    first_content || any (contains (lower node.meta)) art_words || is_ascii_art node.text

-- find(p) < n
abbrev pub found_before : ℕ → Bytes → Bytes → Bool
found_before zero s p = false
found_before (suc n) [] p = is_empty p
found_before (suc n) (c ∷ s) p = starts_with (c ∷ s) p || found_before n s p

abbrev is_tab_space : ℕ → Bool
is_tab_space c = c == b' ' || c == b'\t'

-- a separator line, or the output of `tree`; the bar is U+2502
unfoldable pub skips_line : ℕ → Bytes → Bool
skips_line first text =
    let final = last_or text 0 in
    all (λ c. c == first) text
    || (ltb 6 (length text)
        && all (λ c. c == first) (take 3 text)
        && all (λ c. c == final) (drop (length text - 3) text)
        && not (is_tab_space first)
        && not (is_tab_space final))
    || found_before 3 text (0xE2 ∷ 0x94 ∷ 0x82 ∷ [])

abbrev pub is_text : Node → Bool
is_text node = has_type node (codes "text") && not (is_empty node.text)

abbrev pub head_or : Bytes → ℕ
head_or [] = 0
head_or (c ∷ s) = c

-- Is the node passed over by `continue`?
unfoldable pub skips_node : Bool → Node → Bool
skips_node first_content node =
    if has_type node (codes "preformatted_text")
    then skips_preformatted first_content node
    else is_text node && skips_line (head_or node.text) node.text

-- `first_content` behind the node
unfoldable pub still_first : Bool → Node → Bool
still_first first_content node =
    if has_type node (codes "preformatted_text")
    then first_content
    else not (is_text node) && first_content

unfoldable pub concise_onto : Bool → GeminiDocument → List Node → GeminiDocument
concise_onto first_content doc [] = doc
concise_onto first_content doc (node ∷ nodes) =
    concise_onto (still_first first_content node)
      (if skips_node first_content node then doc else add_node doc node) nodes

unfoldable pub extract_gemini_concise : List Node → GeminiDocument
extract_gemini_concise nodes = concise_onto true empty_document nodes

abbrev matches_dot : ℕ → Bool
matches_dot c = not (c == b'\n' || c == b'\r')

-- `[0-9]{1,2}.*` up to the end
abbrev pub is_day : Bytes → Bool
is_day [] = false
is_day (a ∷ s) = isdigit a && all matches_dot s

abbrev pub is_month_day : Bytes → Bool
is_month_day (a ∷ b ∷ s) =
    isdigit a
    && (if b == b'-'
        then is_day s
        else isdigit b && (elim s [ [] ↦ false | c ∷ r ↦ c == b'-' && is_day r ]))
is_month_day _ = false

-- the whole text matches `[0-9]{4}-[0-9]{1,2}-[0-9]{1,2}.*`
unfoldable pub is_dated : Bytes → Bool
is_dated (a ∷ b ∷ c ∷ d ∷ e ∷ s) =
    isdigit a && isdigit b && isdigit c && isdigit d && e == b'-' && is_month_day s
is_dated _ = false

-- The counters of `isGemsub`: the dated entries in a row, and the most so far.
abbrev pub count_entry : Bool → ℕ → ℕ
count_entry dated count = if dated then count + 1 else 0

unfoldable pub gemsub_loop : (Node → Bool) → ℕ → ℕ → List Node → ℕ
gemsub_loop dated count most [] = most
gemsub_loop dated count most (node ∷ nodes) =
    let count' = count_entry (dated node) count in
    let linked = has_type node (codes "link") in
    gemsub_loop dated (if linked then count' else count) (if linked then max most count' else most)
      nodes

-- isGemsub(nodes)
unfoldable pub is_gemsub : List Node → Bool
is_gemsub nodes = leb 3 (gemsub_loop (λ node. is_dated node.text) 0 0 nodes)

-- Does a link lead to the feed's own site, in its protocol if one is asked for?
unfoldable pub on_feed_site : ℤ → Url → Bytes → Bytes → Bool
on_feed_site junk feed_url protocol meta =
    let link = parse junk true meta in
    let link_protocol =
      if link.good && not (is_empty link.protocol) then link.protocol else protocol in
    let link_host = if link.good && not (is_empty link.host) then link.host else feed_url.host in
    (is_empty protocol || bytes_eq link_protocol protocol) && bytes_eq link_host feed_url.host

unfoldable pub is_feed_entry : ℤ → Url → Bytes → Node → Bool
is_feed_entry junk feed_url protocol node =
    is_dated node.text && not (is_empty node.meta) && on_feed_site junk feed_url protocol node.meta

-- isGemsub(nodes, feed_url, protocol)
unfoldable pub is_gemsub_of : ℤ → List Node → Url → Bytes → Bool
is_gemsub_of junk nodes feed_url protocol =
    leb 3 (gemsub_loop (is_feed_entry junk feed_url protocol) 0 0 nodes)
