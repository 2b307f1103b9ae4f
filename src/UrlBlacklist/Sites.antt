-- ===== src/UrlBlacklist/Sites.antt =====
-- The keys of tlgsutils/url_blacklist.hpp stand for sites.
use tlgs.Common.{◌≡◌, refl, sym, ap, ◌∙◌, ◌↔◌, ◌≢◌, true, [], ◌∷◌, arith, Bytes}
use tlgs.Common.Decimal.{ℤ, pos}
use tlgs.FilePath.{lexically_normal, split_path, resolve, resolve_name, render_path}
use tlgs.Url.{Url, protocol_default_port, render, with_path, with_param, with_fragment}
use tlgs.Url.Normal.{IsNormal, shown_port}
use tlgs.Url.Parse.{parse}
use tlgs.Url.RoundTrip.{parse-render, render-shown_port, str-render}
use tlgs.UrlBlacklist.{site_url, site_key}

root_path : lexically_normal (b'/' ∷ []) ≡ b'/' ∷ []
unfolding lexically_normal split_path resolve resolve_name render_path
root_path = refl

-- A normal URL whose default port is that of its protocol.
pub record IsSite (u : Url) : Type 0 where
  pub normal : IsNormal u
  pub has_protocol : u.protocol ≢ []
  pub default_known : u.default_port ≡ pos (protocol_default_port u.protocol)

site_url-IsNormal : (u : Url) → IsNormal u → IsNormal (site_url u)
unfolding with_path with_param with_fragment
site_url-IsNormal u w = record {
  protocol_alnum = w.protocol_alnum;
  protocol_lower = w.protocol_lower;
  host_first = w.host_first;
  host_bytes = w.host_bytes;
  host_lower = w.host_lower;
  port_range = w.port_range;
  path_rooted = rw root_path;
  path_bytes = rw root_path;
  path_normal = rw (root_path, root_path);
  param_bytes = refl;
  no_cache = refl;
  is_good = w.is_good;
}

-- the URL of a site
abbrev site_of : Bytes → Bytes → ℤ → Url
site_of protocol host port = record {
  protocol = protocol;
  host = host;
  port = port;
  path = b'/' ∷ [];
  param = [];
  fragment = [];
  good = true;
  default_port = pos (protocol_default_port protocol);
  cache = [];
}

shown_site :
    (u : Url)
    → IsSite u
    → record (site_url u) { port = shown_port (site_url u) }
      ≡ site_of u.protocol u.host (shown_port u)
unfolding with_path with_param with_fragment
shown_site u s = rw root_path (ground (arith, s.normal.is_good, s.default_known))

site_key-render : (u : Url) → site_key u ≡ render (site_url u)
unfolding site_key with_param with_path with_fragment
site_key-render u = str-render (site_url u) refl

site_key-site_of :
    (u : Url) → IsSite u → site_key u ≡ render (site_of u.protocol u.host (shown_port u))
site_key-site_of u s =
    site_key-render u ∙ sym (render-shown_port (site_url u)) ∙ ap render (shown_site u s)

parse-site_key :
    (u : Url)
    → IsSite u
    → parse (pos 0) true (site_key u) ≡ site_of u.protocol u.host (shown_port u)
unfolding with_path with_param with_fragment
parse-site_key u s =
    ap (parse (pos 0) true) (site_key-render u)
    ∙ parse-render (pos 0) (site_url u) (site_url-IsNormal u s.normal) s.has_protocol
        s.default_known
    ∙ shown_site u s

pub record SameSite (u v : Url) : Type 0 where
  pub same_protocol : u.protocol ≡ v.protocol
  pub same_host : u.host ≡ v.host
  pub same_port : shown_port u ≡ shown_port v

-- Two URLs in the form that the parser gives, each with a protocol and with the default port of its
-- protocol as it stands, are kept under one key just if they have the same protocol, host and port, where the
-- port of the protocol counts as none.
pub site_key_iff : (u v : Url) → IsSite u → IsSite v → (site_key u ≡ site_key v) ↔ SameSite u v
site_key_iff u v s t = (
  λ h.
      let e = sym (parse-site_key u s) ∙ ap (parse (pos 0) true) h ∙ parse-site_key v t in
      record {
        same_protocol = ap (λ (x : Url). x.protocol) e;
        same_host = ap (λ (x : Url). x.host) e;
        same_port = ap (λ (x : Url). x.port) e;
      },
  λ h.
      site_key-site_of u s
      ∙ rw (h.same_protocol, h.same_host, h.same_port) (sym (site_key-site_of v t)),
)
