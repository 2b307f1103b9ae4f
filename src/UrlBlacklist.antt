-- ===== src/UrlBlacklist.antt =====
-- tlgsutils/url_blacklist.hpp: URLs kept under the text of their site, with a path pattern each.
pub mod Sites
use tlgs.Common.{
  ℕ, Bool, true, false, ◌&&◌, ◌||◌, List, [], ◌∷◌, Option, none, some, if◌then◌else◌, Bytes,
  bytes_eq, codes,
}
use tlgs.Common.Decimal.{ℤ}
use tlgs.Robots.Wildcard.{wildcard_path_match}
use tlgs.Url.{Url, str, with_path, with_param, with_fragment}
use tlgs.Url.Parse.{parse}

-- std::unordered_multimap; only which pairs it holds matters
abbrev pub UrlBlacklist : Type 0
UrlBlacklist = List (Bytes × Bytes)

-- the URL without fragment, path and parameter
abbrev pub site_url : Url → Url
site_url url = with_param (with_path (with_fragment url []) [] true) []

unfoldable pub site_key : Url → Bytes
site_key url = (str (site_url url)).0

-- `none` is the exception for a URL that is not good.
unfoldable pub add : ℤ → UrlBlacklist → Bytes → Option UrlBlacklist
add junk blacklisted url_str =
    let url = parse junk true url_str in
    if url.good then some ((site_key url, url.path) ∷ blacklisted) else none

unfoldable pub is_blocked_from : UrlBlacklist → Bytes → Bytes → Bool
is_blocked_from [] key path = false
is_blocked_from ((k, pattern) ∷ rest) key path =
    (bytes_eq k key && wildcard_path_match pattern path) || is_blocked_from rest key path

unfoldable pub is_blocked : UrlBlacklist → Url → Bool
is_blocked blacklisted url = is_blocked_from blacklisted (site_key url) url.path

-- isBlocked(const std::string&)
unfoldable pub is_blocked_text : ℤ → UrlBlacklist → Bytes → Bool
is_blocked_text junk blacklisted s = is_blocked blacklisted (parse junk true s)
