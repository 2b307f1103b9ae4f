-- ===== src/Server/Tools/Seeds.antt =====
-- The URLs that visitors add (tlgs/server/controllers/tools.cpp), and what the crawler makes of
-- them.
use tlgs.Common.{
  ℕ, ◌≡◌, ◌≢◌, refl, sym, ap, ◌∙◌, Bool, true, false, not, ◌||◌, [], ◌∷◌, ◌++◌, Option, none, some,
  if◌then◌else◌, Bytes, codes, is_empty, bytes_eq, bytes_eq_iff, arith,
}
use tlgs.Common.Decimal.{ℤ, pos}
use tlgs.Server.Tools.{Seed, Answer, ask_input, forbidden, page, seed_of, add_seed}
use tlgs.Url.{Url, str, render, protocol_default_port}
use tlgs.Url.Invariant.{parse-IsNormal}
use tlgs.Url.Normal.{shown_port}
use tlgs.Url.Parse.{parse}
use tlgs.Url.RoundTrip.{parse-render, render-shown_port, str-render}

-- What a seed has been made of.
record IsMade (junk : ℤ) (protocol input : Bytes) (seed : Seed) : Type 0 where
  by_gemini : protocol ≡ codes "gemini"
  good : (parse junk true input).good ≡ true
  for_gemini : (parse junk true input).protocol ≡ codes "gemini"
  text : seed.url ≡ (str (parse junk true input)).0
  domain : seed.domain_name ≡ (parse junk true input).host

cons_ne_nil : (c : ℕ) (s : Bytes) → c ∷ s ≢ []
cons_ne_nil c s h = cc

abbrev chosen :
    Bool → Bool → Bool → Answer → Answer → Answer → Option Seed × Answer → Option Seed × Answer
chosen a b c x y z r = if a then (none, x) else if b then (none, y) else if c then (none, z) else r

-- Only behind the last of three guards there is a seed.
guarded :
    (a b c : Bool) (x y z w : Answer) (s seed : Seed)
    → (chosen a b c x y z (some s, w)).0 ≡ some seed
    → (b ≡ false) × (c ≡ false) × (seed ≡ s)
guarded true b c x y z w s seed h = absurd (cc)
guarded false true c x y z w s seed h = absurd (cc)
guarded false false true x y z w s seed h = absurd (cc)
guarded false false false x y z w s seed h = (refl, refl, cc)

add_seed-IsMade :
    (junk : ℤ) (protocol input : Bytes) (seed : Seed)
    → (add_seed junk protocol input).0 ≡ some seed
    → IsMade junk protocol input seed
unfolding add_seed
add_seed-IsMade junk protocol input seed h =
    let u = parse junk true input in
    let (b, c, e) =
      guarded (is_empty input) (not u.good || not (bytes_eq u.protocol (codes "gemini")))
        (not (bytes_eq protocol (codes "gemini"))) (ask_input (codes "URL to your capsule"))
        (ask_input (codes "Invalid URL. Try again"))
        (forbidden (codes "We only accept links directly through Gemini"))
        (page (codes "# Adding Capsule\nAdded " ++ input)) (seed_of u) seed h in
    record {
      by_gemini = (bytes_eq_iff protocol (codes "gemini")).0 (ground (arith, c));
      good = ground (arith, b);
      for_gemini = (bytes_eq_iff u.protocol (codes "gemini")).0 (ground (arith, b));
      text = ap (λ (s : Seed). s.url) e;
      domain = ap (λ (s : Seed). s.domain_name) e;
    }

-- A row that add_seed puts in has come through Gemini, and if the default port of the input is that
-- of Gemini, its URL is one that the crawler reads back as it stands: it is good, for Gemini, of
-- the host in the row, and its text is the URL of the row.
pub add_seed-crawlable :
    (junk junk' : ℤ) (protocol input : Bytes) (seed : Seed)
    → (add_seed junk protocol input).0 ≡ some seed
    → (parse junk true input).default_port ≡ pos 1965
    → (protocol ≡ codes "gemini")
      × ((parse junk' true seed.url).good ≡ true)
      × ((parse junk' true seed.url).protocol ≡ codes "gemini")
      × ((parse junk' true seed.url).host ≡ seed.domain_name)
      × ((str (parse junk' true seed.url)).0 ≡ seed.url)
unfolding protocol_default_port bytes_eq
add_seed-crawlable junk junk' protocol input seed h d =
    let m = add_seed-IsMade junk protocol input seed h in
    let u = parse junk true input in
    let w = parse-IsNormal junk input m.good in
    let printed : seed.url ≡ render u = m.text ∙ str-render u w.no_cache in
    let some_protocol : u.protocol ≢ [] = λ e. cons_ne_nil _ _ (sym m.for_gemini ∙ e) in
    let again : parse junk' true seed.url ≡ record u { port = shown_port u } =
      ap (parse junk' true) printed
      ∙ parse-render junk' u w some_protocol
          (d ∙ sym (ap (λ p. pos (protocol_default_port p)) m.for_gemini)) in
    (
      m.by_gemini,
      ap (λ (v : Url). v.good) again ∙ m.good,
      ap (λ (v : Url). v.protocol) again ∙ m.for_gemini,
      ap (λ (v : Url). v.host) again ∙ sym m.domain,
      ap (λ v. (str v).0) again
          ∙ str-render (record u { port = shown_port u }) w.no_cache
          ∙ render-shown_port u
          ∙ sym printed,
    )
