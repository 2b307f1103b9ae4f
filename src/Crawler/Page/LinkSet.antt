-- ===== src/Crawler/Page/LinkSet.antt =====
-- The set of links of a page in `crawlPage` (tlgs/crawler/crawler.cpp).
use tlgs.Common.{
  ◌≡◌, refl, sym, ap, ◌∙◌, Bool, true, false, ◌&&◌, ◌||◌, List, [], ◌∷◌, Option, none, some, Bytes,
  codes, is_empty, all, any, bytes_eq, bytes_eq_iff, ◌==◌, Bool-cases, Option-cases, inl, inr,
  arith,
}
use tlgs.Common.Decimal.{ℤ}
use tlgs.Crawler.Page.Links.{
  composed_if_good, resolve_link, clean_link, read_link, insert_url, add_link, collect_links,
}
use tlgs.Url.{Url, with_path, with_param, with_fragment, with_protocol, url_eq, url_lt}
use tlgs.Url.Order.{url_eq_iff, url_lt_trichotomy}
use tlgs.Url.Parse.{parse}
use tlgs.Utils.{is_non_uri_action, link_compose}

-- A URL that the page's links may lead to.
abbrev pub is_crawlable : Url → Bool
is_crawlable u = u.good && bytes_eq u.protocol (codes "gemini") && is_empty u.fragment

abbrev protocol_of : Option Url → Bytes → Bytes
protocol_of none d = d
protocol_of (some u) d = u.protocol

composed-protocol :
    (junk : ℤ) (url : Url) (link : Bytes)
    → protocol_of (link_compose junk url link) url.protocol ≡ url.protocol
unfolding link_compose with_path with_param with_fragment
composed-protocol junk url [] = refl
composed-protocol junk url (c ∷ path) = elim (Bool-cases (c == b'/')) [
  | inl e ↦ ground (arith, e)
  | inr e ↦ ground (arith, e)
]

link_compose-protocol :
    (junk : ℤ) (url : Url) (link : Bytes) (v : Url)
    → link_compose junk url link ≡ some v
    → v.protocol ≡ url.protocol
link_compose-protocol junk url link v h =
    sym (ap (λ o. protocol_of o url.protocol) h) ∙ composed-protocol junk url link

composed_if_good-is_gemini :
    (junk : ℤ) (url : Url) (link : Bytes) (v : Url)
    → url.protocol ≡ codes "gemini"
    → composed_if_good (link_compose junk url link) ≡ some v
    → (v.good && bytes_eq v.protocol (codes "gemini")) ≡ true
composed_if_good-is_gemini junk url link v g h = elim (Option-cases (link_compose junk url link)) [
  | inl e ↦ absurd (ground (arith, e, h))
  | inr (u, e) ↦ ground (
    arith,
    e,
    h,
    (bytes_eq_iff v.protocol (codes "gemini")).1,
    link_compose-protocol junk url link u e,
    (bytes_eq_iff u.protocol (codes "gemini")).1 (link_compose-protocol junk url link u e ∙ g),
  )
]

resolve_link-is_gemini :
    (junk : ℤ) (url : Url) (link : Bytes) (v : Url)
    → url.protocol ≡ codes "gemini"
    → resolve_link junk url link ≡ some v
    → (v.good && bytes_eq v.protocol (codes "gemini")) ≡ true
unfolding resolve_link with_protocol
resolve_link-is_gemini junk url link v g h = elim (Bool-cases (is_non_uri_action link)) [
  | inl k ↦ absurd (ground (arith, k, h))
  | inr k ↦ elim (Bool-cases (parse junk true link).good) [
    | inr b ↦ composed_if_good-is_gemini junk url link v g (ground (arith, k, b, h))
    | inl b ↦ ground (arith, k, b, h)
  ]
]

clean_link-is_crawlable :
    (u : Url)
    → (u.good && bytes_eq u.protocol (codes "gemini")) ≡ true
    → is_crawlable (clean_link u) ≡ true
unfolding clean_link with_fragment with_param
clean_link-is_crawlable u h = ground (arith, h)

read_link-is_crawlable :
    (junk : ℤ) (url : Url) (link : Bytes) (v : Url)
    → url.protocol ≡ codes "gemini"
    → read_link junk url link ≡ some v
    → is_crawlable v ≡ true
unfolding read_link
read_link-is_crawlable junk url link v g h = elim (Option-cases (resolve_link junk url link)) [
  | inl e ↦ absurd (ground (arith, e, h))
  | inr (u, e) ↦
      ground (arith, e, h, clean_link-is_crawlable u (resolve_link-is_gemini junk url link u g e))
]

-- Is there a URL in the list that operator== takes for `x`?
abbrev pub contains_url : Url → List Url → Bool
contains_url x us = any (λ u. url_eq x u) us

same-url_eq : (x u v : Url) → url_eq u v ≡ true → url_eq x u ≡ true → url_eq x v ≡ true
same-url_eq x u v h k = (url_eq_iff x v).1 ((url_eq_iff x u).0 k ∙ (url_eq_iff u v).0 h)

equal_or_below : (u v : Url) → url_lt u v ≡ false → url_lt v u ≡ false → url_eq u v ≡ true
equal_or_below u v h k = ground (arith, url_lt_trichotomy u v)

contains_url-insert_url :
    (x u : Url) (us : List Url)
    → contains_url x (insert_url u us) ≡ (url_eq x u || contains_url x us)
unfolding insert_url
contains_url-insert_url x u [] = refl
contains_url-insert_url x u (v ∷ vs) =
    ground (arith, contains_url-insert_url x u vs, equal_or_below u v, same-url_eq x u v)

abbrev pub reads_as : Url → Option Url → Bool
reads_as x none = false
reads_as x (some u) = url_eq x u

add_link-contains_url :
    (o : Option Url) (us : List Url) (x : Url)
    → contains_url x (add_link o us) ≡ (reads_as x o || contains_url x us)
add_link-contains_url none us x = refl
add_link-contains_url (some u) us x = contains_url-insert_url x u us

-- The list is in the order of operator<, each URL once.
abbrev pub is_above : Url → List Url → Bool
is_above x [] = true
is_above x (u ∷ us) = url_lt x u

abbrev pub is_sorted : List Url → Bool
is_sorted [] = true
is_sorted (u ∷ us) = is_above u us && is_sorted us

is_above-insert_url :
    (x u : Url) (us : List Url)
    → is_above x us ≡ true
    → url_lt x u ≡ true
    → is_above x (insert_url u us) ≡ true
unfolding insert_url
is_above-insert_url x u [] h k = k
is_above-insert_url x u (v ∷ vs) h k = ground arith

is_sorted-insert_url :
    (u : Url) (us : List Url) → is_sorted us ≡ true → is_sorted (insert_url u us) ≡ true
unfolding insert_url
is_sorted-insert_url u [] h = refl
is_sorted-insert_url u (v ∷ vs) h =
    ground (arith, is_above-insert_url v u vs, is_sorted-insert_url u vs)

all-insert_url :
    (f : Url → Bool) (u : Url) (us : List Url)
    → f u ≡ true
    → all f us ≡ true
    → all f (insert_url u us) ≡ true
unfolding insert_url
all-insert_url f u [] h k = ground arith
all-insert_url f u (v ∷ vs) h k = ground (arith, all-insert_url f u vs)

-- The set that the links of a page should give: in order, each URL once and ready to be crawled,
-- and a URL is in it just if one of the links reads as it.
pub record IsLinkSet (junk : ℤ) (url : Url) (links : List Bytes) (us : List Url) : Type 0 where
  pub in_order : is_sorted us ≡ true
  pub crawlable : all is_crawlable us ≡ true
  pub complete :
      (x : Url) → contains_url x us ≡ any (λ link. reads_as x (read_link junk url link)) links

-- What has been collected, on top of the links before.
collect_links-contains_url :
    (junk : ℤ) (url : Url) (links : List Bytes) (us : List Url) (x : Url)
    → contains_url x (collect_links junk url links us)
      ≡ (any (λ link. reads_as x (read_link junk url link)) links || contains_url x us)
unfolding collect_links
collect_links-contains_url junk url [] us x = refl
collect_links-contains_url junk url (link ∷ links) us x =
    collect_links-contains_url junk url links (add_link (read_link junk url link) us) x
    ∙ ground (arith, add_link-contains_url (read_link junk url link) us x)

module _ (junk : ℤ) (url : Url) (gemini : url.protocol ≡ codes "gemini") where
  add_link-is_sorted :
      (o : Option Url) (us : List Url) → is_sorted us ≡ true → is_sorted (add_link o us) ≡ true
  add_link-is_sorted none us h = h
  add_link-is_sorted (some u) us h = is_sorted-insert_url u us h

  add_link-is_crawlable :
      (o : Option Url) (us : List Url)
      → ((u : Url) → o ≡ some u → is_crawlable u ≡ true)
      → all is_crawlable us ≡ true
      → all is_crawlable (add_link o us) ≡ true
  add_link-is_crawlable none us k h = h
  add_link-is_crawlable (some u) us k h = all-insert_url is_crawlable u us (k u refl) h

  collected :
      (links : List Bytes) (us : List Url)
      → is_sorted us ≡ true
      → all is_crawlable us ≡ true
      → (is_sorted (collect_links junk url links us) ≡ true)
        × (all is_crawlable (collect_links junk url links us) ≡ true)
  unfolding collect_links
  collected [] us a b = (a, b)
  collected (link ∷ links) us a b =
      collected links (add_link (read_link junk url link) us)
        (add_link-is_sorted (read_link junk url link) us a)
        (add_link-is_crawlable (read_link junk url link) us
          (λ u e. read_link-is_crawlable junk url link u gemini e) b)

-- The links of a Gemini page: the `std::set` holds just the URLs that they read as, each once, in
-- the order of operator<; each is a good Gemini URL with no fragment.
pub collect_links-IsLinkSet :
    (junk : ℤ) (url : Url)
    → url.protocol ≡ codes "gemini"
    → (links : List Bytes) → IsLinkSet junk url links (collect_links junk url links [])
collect_links-IsLinkSet junk url gemini links =
    let (a, b) = collected junk url gemini links [] refl refl in
    record {
      in_order = a;
      crawlable = b;
      complete = λ x. collect_links-contains_url junk url links [] x ∙ ground arith;
    }
