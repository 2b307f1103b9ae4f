-- ===== src/Crawler/Page/Content.antt =====
-- What `crawlPage` (tlgs/crawler/crawler.cpp) reads out of a response.
use tlgs.Common.{
  ℕ, ◌/◌, Bool, not, ◌&&◌, ◌||◌, List, [], ◌∷◌, ◌++◌, Option, none, some, if◌then◌else◌, ltb, Bytes,
  codes, length, take, bytes_eq, ends_with, is_empty, is_blank, from,
}
use tlgs.Gemini.{extract_gemini_concise, is_gemsub_of}
use tlgs.Url.{Url}
use tlgs.Crawler.Policy.{parse_mime}
use tlgs.Crawler.Page.World.{Response, Setting, M, give, throw}
use tlgs.Crawler.Page.Redirects.{text}

-- The variables that the branches on the status fill.
pub record Content : Type 0 where
  pub mime : Bytes
  pub charset : Option Bytes
  pub lang : Option Bytes
  pub title : Bytes
  pub body : Bytes
  pub links : List Bytes
  pub body_size : ℕ
  pub feed_type : Option Bytes

abbrev pub is_byte_blank : ℕ → Bool
is_byte_blank c = is_blank c

abbrev not_blank : ℕ → Bool
not_blank c = not (is_blank c)

abbrev pub trim_end : Bytes → Bytes
trim_end [] = []
trim_end (c ∷ s) = let r = trim_end s in if is_empty r && is_blank c then [] else c ∷ r

-- The two calls of `mime.erase`.
unfoldable pub trim : Bytes → Bytes
trim s = trim_end (from not_blank s)

unfoldable pub param_of : List (Bytes × Bytes) → Bytes → Option Bytes
param_of [] key = none
param_of ((k, v) ∷ params) key = if bytes_eq k key then some v else param_of params key

abbrev pub value_or : Option Bytes → Bytes → Bytes
value_or none d = d
value_or (some v) d = v

abbrev pub or_else : Bytes → Bytes → Bytes
or_else s d = if is_empty s then d else s

unfoldable pub non_empty : List Bytes → List Bytes
non_empty [] = []
non_empty (link ∷ links) = let rest = non_empty links in if is_empty link then rest else link ∷ rest

-- What the first three lines of the branch give.
abbrev pub mime_of : Bytes → Bytes
mime_of meta = trim (parse_mime meta).0

abbrev pub head_of : Url → Response → Content
head_of url resp = record {
  mime = mime_of resp.meta;
  charset = param_of (parse_mime resp.meta).1 (codes "charset");
  lang = param_of (parse_mime resp.meta).1 (codes "lang");
  title = text url;
  body = [];
  links = [];
  body_size = length resp.body;
  feed_type = none;
}

-- mime == "text/gemini"
unfoldable pub gemini_content : Setting → Url → Content → Bytes → Content
gemini_content p url c body_raw =
    let nodes = p.parse_gemini body_raw in
    let doc = extract_gemini_concise nodes in
    record c {
      body = doc.text;
      links = non_empty doc.links;
      title = or_else doc.title (text url);
      feed_type =
          if is_gemsub_of p.junk nodes url (codes "gemini") then some (codes "gemsub") else none;
    }

abbrev pub is_plain_mime : Bytes → Bool
is_plain_mime mime =
    bytes_eq mime (codes "text/plain")
    || bytes_eq mime (codes "plaintext")
    || bytes_eq mime (codes "text/markdown")
    || bytes_eq mime (codes "text/x-rst")

-- The three kinds of content of a page that is there.
unfoldable pub read_content : Setting → Url → Content → Bytes → Content
read_content p url c body_raw =
    if bytes_eq c.mime (codes "text/gemini")
    then gemini_content p url c body_raw
    else if is_plain_mime c.mime
    then record c {
      body = body_raw;
      feed_type = if ends_with url.path (codes "/twtxt.txt") then some (codes "twtxt") else none;
    }
    else record c {
      body_size = 0;
      feed_type =
          if bytes_eq c.mime (codes "application/rss+xml")
          then some (codes "rss")
          else if bytes_eq c.mime (codes "application/atom+xml")
          then some (codes "atom")
          else none;
    }

-- The conversion to UTF-8, and the test for binary files.
unfoldable pub read_text : Setting → Url → Response → M Content
read_text p url resp =
    let c = head_of url resp in
    let body_raw = p.convert resp.body (value_or c.charset (codes "utf-8")) in
    if ltb (length body_raw) (length resp.body / 5)
    then throw (codes "Possible binary files sent as text")
    else give (read_content p url c body_raw)

-- status 1x: a page that asks for input
unfoldable pub info_content : Response → Content
info_content resp = record {
  mime = codes "<gemini-request-info>";
  charset = none;
  lang = none;
  title = resp.meta;
  body = resp.meta;
  links = [];
  body_size = length resp.meta;
  feed_type = none;
}

-- A long title is cut.
unfoldable pub short_title : Bytes → Bytes
short_title title = if ltb 1000 (length title) then take 1000 title ++ codes "..." else title
