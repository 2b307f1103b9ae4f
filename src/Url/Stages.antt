-- ===== src/Url/Stages.antt =====
-- Each stage of the constructor `Url::Url` (tlgsutils/url_parser.cpp) on the text that `Url::str`
-- prints for it.
use tlgs.Common.{
  ℕ, zero, suc, ◌≡◌, refl, ap, ◌∙◌, ◌≢◌, ◌≤◌, ◌<◌, Bool, true, false, not, [], ◌∷◌, ◌++◌, arith,
  append-nil, if◌then◌else◌, Bytes, is_empty, all, isalnum, lower, some, before, from,
  before-append, from-append, before-stop, from-stop, split_slashes, init-concat, last_or-concat,
  all_of_imp, isdigit,
}
use tlgs.Common.Decimal.{
  ℤ, pos, negsuc, int_lt, to_string, to_string_ℕ, stoi-to_string_ℕ, to_string_ℕ-isdigit,
  to_string_ℕ-ne-nil,
}
use tlgs.FilePath.{lexically_normal}
use tlgs.Url.{Url, protocol_default_port, prefixed, normalize}
use tlgs.Url.Parse.{
  is_colon_slash, is_slash, is_query_hash, is_hash, parse_param, parse_path, parse_port,
  parse_authority, bad_host, parse_host, parse_protocol, port_in_range,
}
use tlgs.Url.Normal.{none_of, is_port}

abbrev pub suffix : Bytes → Bytes → Bytes
suffix p f = prefixed b'?' p ++ prefixed b'#' f

parse_param-suffix :
    (u : Url) (p f : Bytes)
    → none_of is_hash p ≡ true
    → u.param ≡ []
    → u.fragment ≡ []
    → parse_param u (suffix p f) ≡ record u { param = p; fragment = f }
unfolding parse_param before from
parse_param-suffix u [] [] h a b = ground arith
parse_param-suffix u [] (c ∷ f) h a b = ground arith
parse_param-suffix u (x ∷ p) [] h a b =
    ground
      (arith, append-nil p, before-append is_hash (x ∷ p) [] h, from-append is_hash (x ∷ p) [] h)
parse_param-suffix u (x ∷ p) (c ∷ f) h a b = ground (
  arith,
  append-nil p,
  before-append is_hash (x ∷ p) (b'#' ∷ c ∷ f) h,
  from-append is_hash (x ∷ p) (b'#' ∷ c ∷ f) h,
)

before-suffix : (p f : Bytes) → before is_query_hash (suffix p f) ≡ []
unfolding before
before-suffix [] [] = refl
before-suffix [] (c ∷ f) = refl
before-suffix (x ∷ p) f = refl

from-suffix : (p f : Bytes) → from is_query_hash (suffix p f) ≡ suffix p f
unfolding from
from-suffix [] [] = refl
from-suffix [] (c ∷ f) = refl
from-suffix (x ∷ p) f = refl

-- A URL that is normal but for the tail of its path, its parameter and its fragment.
pub record IsReady (u : Url) : Type 0 where
  pub protocol_lower : lower u.protocol ≡ u.protocol
  pub host_lower : lower u.host ≡ u.host
  pub no_param : u.param ≡ []
  pub no_fragment : u.fragment ≡ []
  pub no_cache : u.cache ≡ []

normalize-IsReady :
    (u : Url) (q : Bytes)
    → IsReady u
    → lexically_normal (b'/' ∷ q) ≡ b'/' ∷ q
    → normalize (record u { path = b'/' ∷ q }) ≡ record u { path = b'/' ∷ q }
unfolding normalize
normalize-IsReady u q r n = rw (n, r.protocol_lower, r.host_lower) (ground arith)

before-query :
    (q p f : Bytes) → none_of is_query_hash q ≡ true → before is_query_hash (q ++ suffix p f) ≡ q
before-query q p f h =
    before-append is_query_hash q (suffix p f) h ∙ ap (◌++◌ q) (before-suffix p f) ∙ append-nil q

from-query :
    (q p f : Bytes)
    → none_of is_query_hash q ≡ true
    → from is_query_hash (q ++ suffix p f) ≡ suffix p f
from-query q p f h = from-append is_query_hash q (suffix p f) h ∙ from-suffix p f

parse_path-normal :
    (u : Url) (q p f : Bytes)
    → IsReady u
    → none_of is_query_hash q ≡ true
    → none_of is_hash p ≡ true
    → lexically_normal (b'/' ∷ q) ≡ b'/' ∷ q
    → parse_path true u (q ++ suffix p f) ≡ record u { path = b'/' ∷ q; param = p; fragment = f }
unfolding parse_path
parse_path-normal u q p f r hq hp n =
    rw (before-query q p f hq, from-query q p f hq, normalize-IsReady u q r n)
      (parse_param-suffix (record u { path = b'/' ∷ q }) p f hp r.no_param r.no_fragment)

is_empty_of_ne : (s : Bytes) → s ≢ [] → is_empty s ≡ false
is_empty_of_ne [] h = absurd (h refl)
is_empty_of_ne (c ∷ s) h = refl

-- what `str` prints between the host and the path
abbrev pub port_part : Bool → ℤ → Bytes
port_part b p = if b then b':' ∷ to_string p else []

with_port-IsReady : (u : Url) (n : ℕ) → IsReady u → IsReady (record u { port = pos n })
with_port-IsReady u n r = record {
  protocol_lower = r.protocol_lower;
  host_lower = r.host_lower;
  no_param = r.no_param;
  no_fragment = r.no_fragment;
  no_cache = r.no_cache;
}

parse_port-normal :
    (u : Url) (n : ℕ) (q p f : Bytes)
    → IsReady u
    → 0 < n
    → n ≤ 65535
    → none_of is_query_hash q ≡ true
    → none_of is_hash p ≡ true
    → lexically_normal (b'/' ∷ q) ≡ b'/' ∷ q
    → parse_port true u (to_string_ℕ n ++ b'/' ∷ (q ++ suffix p f))
      ≡ record u { port = pos n; path = b'/' ∷ q; param = p; fragment = f }
unfolding parse_port
parse_port-normal u n q p f r lo hi hq hp k =
    let digits : none_of is_slash (to_string_ℕ n) ≡ true =
      all_of_imp isdigit (λ c. not (is_slash c)) (λ c e. ground arith) (to_string_ℕ n)
        (to_string_ℕ-isdigit n) in
    let rest = b'/' ∷ (q ++ suffix p f) in
    let read : before is_slash (to_string_ℕ n ++ rest) ≡ to_string_ℕ n =
      before-stop is_slash (to_string_ℕ n) b'/' _ digits refl in
    let left : from is_slash (to_string_ℕ n ++ rest) ≡ rest =
      from-stop is_slash (to_string_ℕ n) b'/' _ digits refl in
    let nonempty : is_empty (to_string_ℕ n) ≡ false =
      is_empty_of_ne (to_string_ℕ n) (to_string_ℕ-ne-nil n) in
    let range : port_in_range (pos n) ≡ true = unfold int_lt in ground arith in
    rw (read, nonempty, stoi-to_string_ℕ n (omega arith), range, left)
      (parse_path-normal (record u { port = pos n }) q p f (with_port-IsReady u n r) hq hp k)

pub parse_authority-normal :
    (u : Url) (b : Bool) (port : ℤ) (q p f : Bytes)
    → IsReady u
    → u.port ≡ pos 0
    → is_port port ≡ true
    → (b ≡ true → port ≢ pos 0)
    → none_of is_query_hash q ≡ true
    → none_of is_hash p ≡ true
    → lexically_normal (b'/' ∷ q) ≡ b'/' ∷ q
    → parse_authority true u (port_part b port ++ b'/' ∷ (q ++ suffix p f))
      ≡ record u { port = if b then port else pos 0; path = b'/' ∷ q; param = p; fragment = f }
unfolding parse_authority to_string
parse_authority-normal u false port q p f r z i ne hq hp n =
    parse_path-normal u q p f r hq hp n ∙ ground arith
parse_authority-normal u true (pos zero) q p f r z i ne hq hp n = absurd (ne refl refl)
parse_authority-normal u true (pos (suc m)) q p f r z i ne hq hp n =
    parse_port-normal u (suc m) q p f r (omega arith) (ground arith) hq hp n
parse_authority-normal u true (negsuc m) q p f r z i ne hq hp n = cc

-- the text from the end of the host begins with ':' or '/'
host_end :
    (b : Bool) (port : ℤ) (r : Bytes)
    → (c : ℕ) × (t : Bytes) × (port_part b port ++ b'/' ∷ r ≡ c ∷ t) × (is_colon_slash c ≡ true)
host_end true port r = (b':', to_string port ++ b'/' ∷ r, refl, refl)
host_end false port r = (b'/', r, refl, refl)

pub parse_host-normal :
    (u : Url) (h : Bytes) (b : Bool) (port : ℤ) (r : Bytes)
    → bad_host h ≡ false
    → none_of is_colon_slash h ≡ true
    → parse_host true u (h ++ (port_part b port ++ b'/' ∷ r))
      ≡ parse_authority true (record u { host = h }) (port_part b port ++ b'/' ∷ r)
unfolding parse_host
parse_host-normal u h b port r first bytes =
    let (c, t, e, stop) = host_end b port r in
    rw (
      e,
      before-stop is_colon_slash h c t bytes stop,
      from-stop is_colon_slash h c t bytes stop,
      first,
    )

pub split_slashes-protocol :
    (p r : Bytes)
    → all isalnum p ≡ true
    → split_slashes (p ++ (b':' ∷ b'/' ∷ b'/' ∷ r)) ≡ some (p ++ b':' ∷ [], r)
unfolding split_slashes
split_slashes-protocol [] r h = refl
split_slashes-protocol (c ∷ []) r h = ground arith
split_slashes-protocol (c ∷ d ∷ p) r h = ground (arith, split_slashes-protocol (d ∷ p) r)

pub parse_protocol-normal :
    (u : Url) (c : ℕ) (p r : Bytes)
    → all isalnum (c ∷ p) ≡ true
    → parse_protocol true u ((c ∷ p) ++ b':' ∷ []) r
      ≡ parse_host true
          (record u { protocol = c ∷ p; default_port = pos (protocol_default_port (c ∷ p)) })
          r
unfolding parse_protocol
parse_protocol-normal u c p r h = rw (init-concat (c ∷ p) b':', last_or-concat (c ∷ p) b':' 0, h)
