-- ===== src/Url/RoundTrip.antt =====
-- Printing a URL and parsing the text again: `Url::str` and the constructor of
-- tlgsutils/url_parser.cpp. `GeminiCrawler::crawlPage` relies on it when it drops a URL whose
-- text differs from `tlgs::Url(url_str).str()`.
use tlgs.Common.{
  ℕ, ◌≡◌, refl, sym, ap, ◌∙◌, ◌≢◌, Bool, true, false, [], ◌∷◌, ◌++◌, arith, append_assoc,
  if◌then◌else◌, Bytes, all, isalnum, lower, some, split_slashes,
}
use tlgs.Common.Decimal.{ℤ, pos, int_eq}
use tlgs.FilePath.{lexically_normal, is_absolute}
use tlgs.Url.Invariant.{parse-IsNormal}
use tlgs.Url.{str, Url, protocol_default_port, shows_port, render}
use tlgs.Url.Parse.{blank, is_colon_slash, is_query_hash, is_hash, bad_host, parse_protocol, parse}
use tlgs.Url.Normal.{none_of, is_port, IsNormal, shown_port}
use tlgs.Url.Stages.{
  suffix, port_part, parse_authority-normal, split_slashes-protocol, parse_protocol-normal,
  parse_host-normal,
}

cons_of_rooted : (s : Bytes) → is_absolute s ≡ true → (q : Bytes) × (s ≡ b'/' ∷ q)
cons_of_rooted [] h = absurd (cc)
cons_of_rooted (c ∷ s) h = (s, ground arith)

cons_of_ne : (s : Bytes) → s ≢ [] → (c : ℕ) × (p : Bytes) × (s ≡ c ∷ p)
cons_of_ne [] h = absurd (h refl)
cons_of_ne (c ∷ s) h = (c, s, refl)

-- the text of a URL with protocol `c ∷ p` and path `/q`
abbrev text_of : ℕ → Bytes → Bytes → Bool → ℤ → Bytes → Bytes → Bytes → Bytes
text_of c p h b port q pa f =
    (c ∷ p) ++ (b':' ∷ b'/' ∷ b'/' ∷ (h ++ (port_part b port ++ b'/' ∷ (q ++ suffix pa f))))

render-text_of :
    (u : Url) (c : ℕ) (p q : Bytes)
    → u.protocol ≡ c ∷ p
    → u.path ≡ b'/' ∷ q
    → render u ≡ text_of c p u.host (shows_port u) u.port q u.param u.fragment
unfolding render
render-text_of u c p q e k = simp (e, k, append_assoc)

parse-split :
    (junk : ℤ) (b : Bool) (s a r : Bytes)
    → split_slashes s ≡ some (a, r)
    → parse junk b s ≡ parse_protocol b (blank junk) a r
unfolding parse
parse-split junk b s a r h = rw (h, parse)

parse-text_of :
    (junk : ℤ) (c : ℕ) (p h : Bytes) (b : Bool) (port : ℤ) (q pa f : Bytes)
    → all isalnum (c ∷ p) ≡ true
    → lower (c ∷ p) ≡ c ∷ p
    → bad_host h ≡ false
    → none_of is_colon_slash h ≡ true
    → lower h ≡ h
    → is_port port ≡ true
    → (b ≡ true → port ≢ pos 0)
    → none_of is_query_hash q ≡ true
    → none_of is_hash pa ≡ true
    → lexically_normal (b'/' ∷ q) ≡ b'/' ∷ q
    → parse junk true (text_of c p h b port q pa f) ≡ record (blank junk) {
      protocol = c ∷ p;
      host = h;
      default_port = pos (protocol_default_port (c ∷ p));
      port = if b then port else pos 0;
      path = b'/' ∷ q;
      param = pa;
      fragment = f;
    }
parse-text_of junk c p h b port q pa f alnum pl first bytes hl range ne hq hp n =
    let r = port_part b port ++ b'/' ∷ (q ++ suffix pa f) in
    let u = record (blank junk) {
      protocol = c ∷ p;
      default_port = pos (protocol_default_port (c ∷ p));
    } in
    parse-split junk true _ _ _ (split_slashes-protocol (c ∷ p) (h ++ r) alnum)
    ∙ parse_protocol-normal (blank junk) c p (h ++ r) alnum
    ∙ parse_host-normal u h b port (q ++ suffix pa f) first bytes
    ∙ parse_authority-normal (record u { host = h }) b port q pa f
        (record {
          protocol_lower = pl;
          host_lower = hl;
          no_param = refl;
          no_fragment = refl;
          no_cache = refl;
        })
        refl range ne hq hp n

shown_ne : (u : Url) → shows_port u ≡ true → u.port ≢ pos 0
unfolding int_eq
shown_ne u h e = ground arith

-- Parsing the text of a normal URL that has a protocol, and whose default port is its protocol's,
-- gives the URL back, but for a port that the text does not show.
pub parse-render :
    (junk : ℤ) (u : Url)
    → IsNormal u
    → u.protocol ≢ []
    → u.default_port ≡ pos (protocol_default_port u.protocol)
    → parse junk true (render u) ≡ record u { port = shown_port u }
parse-render junk u w ne d =
    let (c, p, ep) = cons_of_ne u.protocol ne in
    let (q, eq) = cons_of_rooted u.path w.path_rooted in
    ap (parse junk true) (render-text_of u c p q ep eq)
    ∙ parse-text_of junk c p u.host (shows_port u) u.port q u.param u.fragment
        (rw ep at w.protocol_alnum) (rw ep at w.protocol_lower) w.host_first w.host_bytes
        w.host_lower w.port_range (shown_ne u) (rw eq at w.path_bytes) w.param_bytes
        (rw eq at w.path_normal)
    ∙ ground arith

pub render-shown_port : (u : Url) → render (record u { port = shown_port u }) ≡ render u
unfolding render int_eq
render-shown_port u = ground arith

pub str-render : (u : Url) → u.cache ≡ [] → (str u).0 ≡ render u
unfolding str
str-render u h = ground arith

-- The text of a parsed URL is a fixed point: parsing and printing it again changes nothing, if the
-- URL is good, has a protocol, and its default port is that of its protocol in lower case.
pub str-parse-str :
    (junk : ℤ) (s : Bytes)
    → (parse junk true s).good ≡ true
    → (parse junk true s).protocol ≢ []
    → (parse junk true s).default_port ≡ pos (protocol_default_port (parse junk true s).protocol)
    → (str (parse junk true (str (parse junk true s)).0)).0 ≡ (str (parse junk true s)).0
str-parse-str junk s g ne d =
    let u = parse junk true s in
    let w = parse-IsNormal junk s g in
    let printed : (str u).0 ≡ render u = str-render u w.no_cache in
    let again : parse junk true (str u).0 ≡ record u { port = shown_port u } =
      ap (parse junk true) printed ∙ parse-render junk u w ne d in
    ap (λ v. (str v).0) again
    ∙ str-render (record u { port = shown_port u }) w.no_cache
    ∙ render-shown_port u
    ∙ sym printed
