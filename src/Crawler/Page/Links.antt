-- ===== src/Crawler/Page/Links.antt =====
-- The links of a page in `crawlPage` (tlgs/crawler/crawler.cpp).
use tlgs.Common.{
  Bool, true, not, ◌&&◌, ◌||◌, List, [], ◌∷◌, Option, none, some, if◌then◌else◌, ltb, Bytes, codes,
  length, bytes_eq, starts_with, ends_with, is_empty, map,
}
use tlgs.Common.Decimal.{ℤ, pos, int_eq}
use tlgs.Url.{Url, with_protocol, with_fragment, with_param, port_or, url_lt}
use tlgs.Url.Parse.{parse}
use tlgs.Utils.{is_non_uri_action, link_compose, filter}
use tlgs.Crawler.Page.Redirects.{text}

abbrev pub composed_if_good : Option Url → Option Url
composed_if_good none = none
composed_if_good (some composed) = if composed.good then some composed else none

-- The URL of a link, or `none` where the link is passed over. An empty link, on which the assertion
-- of `linkCompose` fails, does not get here.
unfoldable pub resolve_link : ℤ → Url → Bytes → Option Url
resolve_link junk url link =
    let link_url = parse junk true link in
    if is_non_uri_action link
    then none
    else if link_url.good
    then (let absolute =
          if is_empty link_url.protocol then with_protocol link_url url.protocol else link_url in
        if bytes_eq absolute.protocol (codes "gemini") then some absolute else none)
    else if starts_with link (codes "gemini://") || ltb 1024 (length link)
    then none
    else composed_if_good (link_compose junk url link)

-- Without its fragment, and without a parameter that repeats the start of the URL.
unfoldable pub clean_link : Url → Url
clean_link u =
    let link_url = with_fragment u [] in
    if starts_with (text link_url) link_url.param && ends_with link_url.path (codes ".gmi")
    then with_param link_url []
    else link_url

unfoldable pub read_link : ℤ → Url → Bytes → Option Url
read_link junk url link = elim (resolve_link junk url link) [
  | none ↦ none
  | some u ↦ some (clean_link u)
]

-- std::set<Url>::insert, with operator<
unfoldable pub insert_url : Url → List Url → List Url
insert_url u [] = u ∷ []
insert_url u (v ∷ vs) =
    if url_lt u v then u ∷ v ∷ vs else if url_lt v u then v ∷ insert_url u vs else v ∷ vs

abbrev pub add_link : Option Url → List Url → List Url
add_link none link_urls = link_urls
add_link (some u) link_urls = insert_url u link_urls

-- The loop over the links.
unfoldable pub collect_links : ℤ → Url → List Bytes → List Url → List Url
collect_links junk url [] link_urls = link_urls
collect_links junk url (link ∷ links) link_urls =
    collect_links junk url links (add_link (read_link junk url link) link_urls)

unfoldable pub is_cross_site : Url → Url → Bool
is_cross_site url link_url =
    not (bytes_eq link_url.host url.host)
    || not (int_eq (port_or url (pos 0)) (port_or link_url (pos 0)))

unfoldable pub texts_where : (Url → Bool) → List Url → List Bytes
texts_where f us = map text (filter f us)
