-- ===== src/Crawler/Blacklist.antt =====
-- `inBlacklist` of tlgs/crawler/blacklist.cpp.
mod Lists
pub mod Accepted
use tlgs.Common.{
  ℕ, zero, suc, ◌+◌, Bool, true, false, not, ◌&&◌, ◌||◌, List, [], ◌∷◌, ◌++◌, map, ltb, leb, ◌==◌,
  Option, none, some, if◌then◌else◌, Bytes, codes, is_empty, all, any, length, last_or, bytes_eq,
  contains, starts_with, ends_with, isalnum, before, from,
}
use tlgs.Common.Decimal.{ℤ}
use tlgs.FilePath.{split_path, is_absolute}
use tlgs.Url.{Url, str}
use tlgs.Url.Parse.{parse}
use tlgs.UrlBlacklist.{UrlBlacklist, add, is_blocked_text}
use Lists.{blacklist_domains, gus_blacklist_urls, tlgs_blacklist_urls}

-- The once_flag's initialisation: every URL is added; `none` is the exception of `add`.
unfoldable pub add_all : ℤ → UrlBlacklist → List Bytes → Option UrlBlacklist
add_all junk blacklist [] = some blacklist
add_all junk blacklist (url ∷ urls) = elim (add junk blacklist url) [
  | none ↦ none
  | some blacklist' ↦ add_all junk blacklist' urls
]

unfoldable pub init_blacklist : ℤ → Option UrlBlacklist
init_blacklist junk =
    add_all junk [] (map codes gus_blacklist_urls ++ map codes tlgs_blacklist_urls)

unfoldable pub is_blacklisted_domain : Bytes → Bool
is_blacklisted_domain host = any (λ domain. bytes_eq (codes domain) host) blacklist_domains

unfoldable pub is_unwanted_host : Bytes → Bool
is_unwanted_host host =
    starts_with host (codes "127.0.0.")
    || ends_with host (codes ".local")
    || ends_with host (codes ".localhost")
    || ends_with host (codes ".localdomain")
    || starts_with host (codes "git.")
    || ends_with host (codes ".onion")

unfoldable pub is_unwanted_path : Bytes → Bool
is_unwanted_path path =
    bytes_eq path (codes "/robots.txt")
    || bytes_eq path (codes "/favicon.txt")
    || starts_with path (codes "/git/")
    || ends_with path (codes "/next.cgi")
    || ends_with path (codes "/prev.cgi")
    || ends_with path (codes "/rand.cgi")
    || ends_with path (codes "/next")
    || ends_with path (codes "/prev")
    || ends_with path (codes "/rand")
    || ends_with path (codes "/next.gmi")
    || ends_with path (codes "/prev.gmi")
    || ends_with path (codes "/rand.gmi")

abbrev pub is_control : ℕ → Bool
is_control c = ltb c 32

unfoldable pub is_unwanted_text : Bytes → Bool
is_unwanted_text text =
    contains text (codes ".git/tree/")
    || contains text (codes ".git/blob/")
    || ends_with text (codes "/git.sh")
    || contains text (codes "/~xkcd/")
    || contains text (codes "/xkcd/")
    || contains text (codes "gopher:/:/")
    || contains text (codes "rfc-mirror")
    || any is_control text

abbrev names : List Bytes → List Bytes
names [] = []
names (w ∷ ws) = if is_empty w then names ws else w ∷ names ws

-- The elements that a std::filesystem::path is iterated by: the root, the names, and an empty one
-- behind a slash at the end.
unfoldable pub path_elements : Bytes → List Bytes
path_elements path =
    let ws = split_path path in
    (if is_absolute path then codes "/" ∷ [] else [])
    ++ (names ws ++ (if not (is_empty (names ws)) && is_empty (last_or ws []) then [] ∷ [] else []))

abbrev pub occurrences : Bytes → List Bytes → ℕ
occurrences x [] = 0
occurrences x (y ∷ ys) = (if bytes_eq x y then 1 else 0) + occurrences x ys

-- The loop over `dirname_count`: does an element come for the third time?
unfoldable pub repeats_element : List Bytes → List Bytes → Bool
repeats_element seen [] = false
repeats_element seen (part ∷ parts) =
    let rest = repeats_element (part ∷ seen) parts in
    if leb 3 (occurrences part seen + 1) then true else rest

unfoldable pub is_looping_path : Bytes → Bool
is_looping_path path =
    leb 3 (length (path_elements path)) && repeats_element [] (path_elements path)

-- The text from the first occurrence of `p`.
unfoldable pub find_from : Bytes → Bytes → Option Bytes
find_from [] p = if is_empty p then some [] else none
find_from (c ∷ s) p = if starts_with (c ∷ s) p then some (c ∷ s) else find_from s p

abbrev not_alnum : ℕ → Bool
not_alnum c = not (isalnum c)

abbrev is_dot_or_slash : ℕ → Bool
is_dot_or_slash c = c == b'/' || c == b'.'

abbrev matches_dot : ℕ → Bool
matches_dot c = not (c == b'\n' || c == b'\r')

abbrev ends_name : Bytes → Bool
ends_name [] = false
ends_name (c ∷ s) = is_dot_or_slash c && all matches_dot s

abbrev is_commit_name : Bytes → Bool
is_commit_name s = not (is_empty (before not_alnum s)) && ends_name (from not_alnum s)

abbrev drop_eight : Bytes → Bytes
drop_eight (a ∷ b ∷ c ∷ d ∷ e ∷ f ∷ g ∷ h ∷ s) = s
drop_eight s = []

-- `commits/[a-z0-9A-Z]+[/\.].*` on the text from the first "commits/"
unfoldable pub is_commit : Bytes → Bool
is_commit text = elim (find_from text (codes "commits/")) [
  | none ↦ false
  | some s ↦ is_commit_name (drop_eight s)
]

-- `inBlacklist` with the URLs that were added.
unfoldable pub is_refused : ℤ → UrlBlacklist → Bytes → Bool
is_refused junk blacklist url_str =
    let url = parse junk true url_str in
    let text = (str url).0 in
    is_blacklisted_domain url.host
    || is_blocked_text junk blacklist text
    || is_unwanted_path url.path
    || is_unwanted_host url.host
    || is_unwanted_text text
    || is_looping_path url.path
    || is_commit text

-- `none` is the exception of the initialisation.
unfoldable pub in_blacklist : ℤ → Bytes → Option Bool
in_blacklist junk url_str = elim (init_blacklist junk) [
  | none ↦ none
  | some blacklist ↦ some (is_refused junk blacklist url_str)
]
