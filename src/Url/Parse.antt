-- ===== src/Url/Parse.antt =====
-- The constructor `Url::Url(const std::string&, bool)` of tlgsutils/url_parser.cpp, one function
-- for each of its stages, with what is left of the text as an argument. An early return with
-- `good_` false keeps the fields that were set before it.
use tlgs.Common.{
  ℕ, Bool, true, false, not, ◌&&◌, ◌||◌, none, some, [], ◌∷◌, ◌==◌, if◌then◌else◌, Bytes, is_empty,
  all, isalnum, codes, before, from, split_slashes, init, last_or, tail,
}
use tlgs.Common.Decimal.{ℤ, pos, int_lt, stoi}
use tlgs.Url.{Url, protocol_default_port, normalize}

abbrev pub blank : ℤ → Url
blank junk = record {
  protocol = [];
  host = [];
  port = pos 0;
  path = [];
  param = [];
  fragment = [];
  good = true;
  default_port = junk;
  cache = [];
}

abbrev pub bad : Url → Url
bad u = record u { good = false }

abbrev pub is_colon_slash : ℕ → Bool
is_colon_slash c = c == b':' || c == b'/'

abbrev pub is_slash : ℕ → Bool
is_slash c = c == b'/'

abbrev pub is_query_hash : ℕ → Bool
is_query_hash c = c == b'?' || c == b'#'

abbrev pub is_hash : ℕ → Bool
is_hash c = c == b'#'

abbrev pub normalize_if : Bool → Url → Url
normalize_if b u = if b then normalize u else u

-- "Find fragment": nothing, or what follows the '#'.
abbrev pub set_fragment : Url → Bytes → Url
set_fragment u [] = u
set_fragment u (c ∷ sv) = record u { fragment = sv }

-- "Find param": at the end, at a '?' or at a '#'.
unfoldable pub parse_param : Url → Bytes → Url
parse_param u [] = u
parse_param u (c ∷ sv) =
    if c == b'?'
    then set_fragment (record u { param = before is_hash sv }) (from is_hash sv)
    else record u { fragment = sv }

-- "Find path", on the text behind the first slash of the path.
unfoldable pub parse_path : Bool → Url → Bytes → Url
parse_path normalize_url u sv =
    parse_param (normalize_if normalize_url (record u { path = b'/' ∷ before is_query_hash sv }))
      (from is_query_hash sv)

-- the port's range check
abbrev pub port_in_range : ℤ → Bool
port_in_range p = int_lt (pos 0) p && not (int_lt (pos 65535) p)

-- "Find port", on the text behind the ':'.
unfoldable pub parse_port : Bool → Url → Bytes → Url
parse_port normalize_url u sv =
    if is_empty (before is_slash sv) then bad u else elim (stoi (before is_slash sv)) [
      | none ↦ bad u
      | some p ↦
          if port_in_range p
          then parse_path normalize_url (record u { port = p }) (tail (from is_slash sv))
          else bad (record u { port = p })
    ]

-- The text from where the host ends: nothing, ':' or '/'.
unfoldable pub parse_authority : Bool → Url → Bytes → Url
parse_authority normalize_url u [] = normalize_if normalize_url (record u { path = codes "/" })
parse_authority normalize_url u (c ∷ sv) =
    if c == b':' then parse_port normalize_url u sv else parse_path normalize_url u sv

abbrev pub bad_host : Bytes → Bool
bad_host [] = true
bad_host (c ∷ s) = c == b'.'

-- "Find host", on the text behind the "//".
unfoldable pub parse_host : Bool → Url → Bytes → Url
parse_host normalize_url u sv =
    let u' = record u { host = before is_colon_slash sv } in
    if bad_host (before is_colon_slash sv)
    then bad u'
    else parse_authority normalize_url u' (from is_colon_slash sv)

-- "Find protocol": `scheme` is the text before the "//".
unfoldable pub parse_protocol : Bool → Url → Bytes → Bytes → Url
parse_protocol normalize_url u [] sv = parse_host normalize_url u sv
parse_protocol normalize_url u (c ∷ s) sv =
    let scheme = c ∷ s in
    let u' = record u { protocol = init scheme } in
    if not (last_or scheme 0 == b':')
    then bad u
    else if is_empty (init scheme) || not (all isalnum (init scheme))
    then bad u'
    else parse_host normalize_url
        (record u' { default_port = pos (protocol_default_port (init scheme)) }) sv

unfoldable pub parse : ℤ → Bool → Bytes → Url
parse junk normalize_url text = elim (split_slashes text) [
  | none ↦ bad (blank junk)
  | some (scheme, sv) ↦ parse_protocol normalize_url (blank junk) scheme sv
]
