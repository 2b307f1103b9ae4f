-- ===== src/Url.antt =====
-- tlgsutils/url_parser.hpp and tlgsutils/url_parser.cpp: the class `tlgs::Url`. Its methods that
-- change it return the new value. `default_port_` has no initialiser in the class, so the parser
-- takes the value that it happens to hold as its argument `junk`.
pub mod Parse
pub mod Order
pub mod Normal
pub mod Stages
pub mod Invariant
pub mod Delimiters
pub mod RoundTrip
pub mod Cache
use tlgs.Common.{
  ℕ, zero, suc, ◌≡◌, refl, Bool, true, false, not, ◌&&◌, ◌||◌, List, [], ◌∷◌, ◌++◌, ◌==◌,
  if◌then◌else◌, Bytes, bytes_eq, bytes_lt, is_empty, all, isalnum, lower, codes,
}
use tlgs.Common.Decimal.{ℤ, pos, negsuc, int_eq, int_lt, to_string, to_string_ℕ}
use tlgs.FilePath.{lexically_normal}

pub record Url : Type 0 where
  pub protocol : Bytes
  pub host : Bytes
  pub port : ℤ
  pub path : Bytes
  pub param : Bytes
  pub fragment : Bytes
  pub good : Bool
  pub default_port : ℤ
  pub cache : Bytes

unfoldable pub protocol_default_port : Bytes → ℕ
unfolding bytes_eq
protocol_default_port proto =
    if bytes_eq proto (codes "http")
    then 80
    else if bytes_eq proto (codes "https")
    then 443
    else if bytes_eq proto (codes "gemini")
    then 1965
    else if bytes_eq proto (codes "gopher")
    then 70
    else if bytes_eq proto (codes "ftp")
    then 21
    else 0

-- The port is printed if there is one and it is not the protocol's.
abbrev pub shows_port : Url → Bool
shows_port u = not (int_eq u.port (pos 0)) && not (int_eq u.default_port u.port)

abbrev pub protocol_part : Bytes → Bytes
protocol_part [] = codes "//"
protocol_part (c ∷ s) = (c ∷ s) ++ codes "://"

-- `prefixed c s` is what `str` appends for a part that may be absent.
abbrev pub prefixed : ℕ → Bytes → Bytes
prefixed c [] = []
prefixed c (x ∷ s) = c ∷ x ∷ s

-- The text that `str` builds when nothing is cached.
unfoldable pub render : Url → Bytes
unfolding int_eq to_string
render u =
    protocol_part u.protocol
    ++ (u.host
        ++ ((if shows_port u then b':' ∷ to_string u.port else [])
            ++ (u.path ++ (prefixed b'?' u.param ++ prefixed b'#' u.fragment))))

-- `str` fills the mutable cache.
unfoldable pub str : Url → Bytes × Url
str u = if is_empty u.cache then (render u, record u { cache = render u }) else (u.cache, u)

unfoldable pub host_with_port : Url → ℕ → Bytes
unfolding int_eq to_string to_string_ℕ
host_with_port u default_port =
    if int_eq u.port (pos 0) && not (default_port == 0)
    then u.host ++ b':' ∷ to_string_ℕ default_port
    else u.host ++ b':' ∷ to_string u.port

unfoldable pub with_host : Url → Bytes → Url
with_host u new_host = record u { cache = []; host = new_host }

abbrev pub rooted : Bytes → Bytes
rooted [] = b'/' ∷ []
rooted (c ∷ s) = if c == b'/' then c ∷ s else b'/' ∷ c ∷ s

unfoldable pub with_path : Url → Bytes → Bool → Url
with_path u new_path normalize_path = record u {
  cache = [];
  path = if normalize_path then lexically_normal (rooted new_path) else rooted new_path;
}

unfoldable pub with_param : Url → Bytes → Url
with_param u new_param = record u { cache = []; param = new_param }

unfoldable pub with_protocol : Url → Bytes → Url
with_protocol u new_protocol = record u { cache = []; protocol = new_protocol }

unfoldable pub with_port : Url → ℕ → Url
with_port u new_port = record u { cache = []; port = pos new_port }

unfoldable pub without_port : Url → Url
without_port u = record u { cache = []; port = pos 0 }

unfoldable pub with_default_port : Url → ℕ → Url
with_default_port u n = record u { cache = []; default_port = pos n }

unfoldable pub with_fragment : Url → Bytes → Url
with_fragment u new_fragment = record u { cache = []; fragment = new_fragment }

unfoldable pub normalize : Url → Url
normalize u = record u {
  cache = [];
  protocol = lower u.protocol;
  path = lexically_normal u.path;
  host = lower u.host;
}

unfoldable pub validate : Url → Url
validate u = record u {
  good =
      not (is_empty u.protocol)
      && not (is_empty u.host)
      && not (is_empty u.path)
      && all isalnum u.protocol;
}

-- `Url::port(default_port)`
unfoldable pub port_or : Url → ℤ → ℤ
unfolding int_eq
port_or u default_port =
    if not (int_eq u.port (pos 0))
    then u.port
    else if not (int_eq default_port (pos 0))
    then default_port
    else u.default_port

-- operator==
unfoldable pub url_eq : Url → Url → Bool
unfolding bytes_eq int_eq
url_eq a b =
    bytes_eq a.protocol b.protocol
    && (bytes_eq a.host b.host
        && (bytes_eq a.path b.path
            && (bytes_eq a.param b.param
                && (bytes_eq a.fragment b.fragment && int_eq a.port b.port))))

-- operator<
unfoldable pub url_lt : Url → Url → Bool
unfolding bytes_eq bytes_lt int_eq int_lt
url_lt a b =
    if not (bytes_eq a.protocol b.protocol)
    then bytes_lt a.protocol b.protocol
    else if not (bytes_eq a.host b.host)
    then bytes_lt a.host b.host
    else if not (bytes_eq a.path b.path)
    then bytes_lt a.path b.path
    else if not (bytes_eq a.param b.param)
    then bytes_lt a.param b.param
    else if not (bytes_eq a.fragment b.fragment)
    then bytes_lt a.fragment b.fragment
    else if not (int_eq a.port b.port)
    then int_lt a.port b.port
    else false
