-- ===== src/Crawler/Blacklist/Accepted.antt =====
-- What `inBlacklist` (tlgs/crawler/blacklist.cpp) refuses.
use tlgs.Common.{
  ◌+◌, ◌≤◌, ◌≡◌, ◌↔◌, ◌∙◌, Bool, true, false, ◌&&◌, ◌||◌, List, [], ◌∷◌, leb, arith, some, Bytes,
  any, length, bytes_eq, bytes_eq_iff, bytes_eq_refl, Bool-cases, Option-cases, inl, inr,
}
use tlgs.Common.Decimal.{ℤ}
use tlgs.Crawler.Blacklist.{add_all, occurrences, repeats_element, path_elements, is_looping_path}
use tlgs.Robots.Wildcard.{wildcard_path_match}
use tlgs.Url.{Url}
use tlgs.Url.Parse.{parse}
use tlgs.UrlBlacklist.{UrlBlacklist, site_key, add, is_blocked_from, is_blocked}

-- Does the URL of this text, once added, block `url`?
abbrev pub blocks : ℤ → Url → Bytes → Bool
blocks junk url s =
    bytes_eq (site_key (parse junk true s)) (site_key url)
    && wildcard_path_match (parse junk true s).path url.path

add-is_blocked :
    (junk : ℤ) (b b' : UrlBlacklist) (s : Bytes) (url : Url)
    → add junk b s ≡ some b'
    → is_blocked b' url ≡ (blocks junk url s || is_blocked b url)
unfolding add is_blocked is_blocked_from
add-is_blocked junk b b' s url h = ground arith

-- A blacklist that was filled from a list of URLs blocks a URL just if one of them does: if their
-- sites have one key and the path of the listed URL, as a pattern, matches.
pub add_all-is_blocked :
    (junk : ℤ) (b b' : UrlBlacklist) (urls : List Bytes) (url : Url)
    → add_all junk b urls ≡ some b'
    → is_blocked b' url ≡ (any (blocks junk url) urls || is_blocked b url)
unfolding add_all
add_all-is_blocked junk b b' [] url h = ground arith
add_all-is_blocked junk b b' (s ∷ urls) url h = elim (Option-cases (add junk b s)) [
  | inl e ↦ absurd (ground arith)
  | inr (c, e) ↦
      add_all-is_blocked junk c b' urls url (ground arith)
      ∙ ground (arith, add-is_blocked junk b c s url e)
]

unrepeated :
    (parts seen : List Bytes) (x : Bytes)
    → repeats_element seen parts ≡ false
    → occurrences x seen ≤ 2
    → occurrences x seen + occurrences x parts ≤ 2
unfolding repeats_element
unrepeated [] seen x h k = omega arith
unrepeated (part ∷ parts) seen x h k =
    ground (arith, bytes_eq_iff x part, unrepeated parts (part ∷ seen) x)

repeated :
    (parts seen : List Bytes)
    → repeats_element seen parts ≡ true
    → (x : Bytes) × (3 ≤ occurrences x seen + occurrences x parts)
unfolding repeats_element
repeated [] seen h = absurd (cc)
repeated (part ∷ parts) seen h = elim (Bool-cases (leb 3 (occurrences part seen + 1))) [
  | inl e ↦ (part, ground (arith, bytes_eq_refl part))
  | inr e ↦ let (x, k) = repeated parts (part ∷ seen) (ground arith) in (x, ground arith)
]

occurrences-le : (x : Bytes) (ys : List Bytes) → occurrences x ys ≤ length ys
occurrences-le x [] = omega arith
occurrences-le x (y ∷ ys) = ground (arith, occurrences-le x ys)

-- A path is taken for a redirection loop just if one of its elements occurs three times
-- or more.
pub is_looping_path_iff :
    (path : Bytes)
    → (is_looping_path path ≡ true) ↔ ((x : Bytes) × (3 ≤ occurrences x (path_elements path)))
unfolding is_looping_path
is_looping_path_iff path = (
  λ h. let (x, k) = repeated (path_elements path) [] (ground arith) in (x, omega arith),
  λ (x, h). elim (Bool-cases (repeats_element [] (path_elements path))) [
    | inl e ↦ ground (arith, occurrences-le x (path_elements path))
    | inr e ↦ absurd (omega (arith, unrepeated (path_elements path) [] x e (omega arith)))
  ],
)
