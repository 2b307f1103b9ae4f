-- ===== src/Url/Invariant.antt =====
-- Every URL that the constructor (tlgsutils/url_parser.cpp) finds good and normalises has the
-- shape `IsNormal`: one lemma for each stage.
use tlgs.Common.{
  ◌≡◌, refl, true, false, not, ◌||◌, [], ◌∷◌, arith, ◌==◌, Bytes, is_empty, all, isalnum, lower,
  Bool-cases, Option-cases, inl, inr, before, from, all-before, split_slashes, init, last_or,
}
use tlgs.Common.Decimal.{ℤ, pos, negsuc, int_lt, stoi}
use tlgs.FilePath.Normal.{normal-normal, normal-all, normal-is_absolute}
use tlgs.Url.{Url, normalize}
use tlgs.Url.Normal.{none_of, is_port, IsNormal}
use tlgs.Url.Parse.{
  blank, is_colon_slash, is_slash, is_query_hash, is_hash, set_fragment, parse_param, parse_path,
  parse_port, parse_authority, bad_host, parse_host, parse_protocol, parse, port_in_range,
}

lower-alnum : (s : Bytes) → all isalnum s ≡ true → all isalnum (lower s) ≡ true
unfolding lower
lower-alnum [] h = refl
lower-alnum (c ∷ s) h = ground (arith, lower-alnum s)

lower-lower : (s : Bytes) → lower (lower s) ≡ lower s
unfolding lower
lower-lower [] = refl
lower-lower (c ∷ s) = ground (arith, lower-lower s)

lower-bad_host : (s : Bytes) → bad_host s ≡ false → bad_host (lower s) ≡ false
unfolding lower
lower-bad_host [] h = h
lower-bad_host (c ∷ s) h = ground arith

lower-none_of :
    (s : Bytes) → none_of is_colon_slash s ≡ true → none_of is_colon_slash (lower s) ≡ true
unfolding lower
lower-none_of [] h = refl
lower-none_of (c ∷ s) h = ground (arith, lower-none_of s)

-- What holds of the fields when the path is read.
record IsOpen (u : Url) : Type 0 where
  protocol_alnum : all isalnum u.protocol ≡ true
  host_first : bad_host u.host ≡ false
  host_bytes : none_of is_colon_slash u.host ≡ true
  port_range : is_port u.port ≡ true
  no_param : u.param ≡ []
  is_good : u.good ≡ true

-- A path that starts with '/' becomes normal.
normalize-IsNormal :
    (u : Url) (q : Bytes)
    → IsOpen u
    → none_of is_query_hash q ≡ true
    → IsNormal (normalize (record u { path = b'/' ∷ q }))
unfolding normalize
normalize-IsNormal u q w h = record {
  protocol_alnum = lower-alnum u.protocol w.protocol_alnum;
  protocol_lower = lower-lower u.protocol;
  host_first = lower-bad_host u.host w.host_first;
  host_bytes = lower-none_of u.host w.host_bytes;
  host_lower = lower-lower u.host;
  port_range = w.port_range;
  path_rooted = normal-is_absolute q;
  path_bytes = normal-all (λ c. not (is_query_hash c)) q refl h;
  path_normal = normal-normal q;
  param_bytes = rw w.no_param;
  no_cache = refl;
  is_good = w.is_good;
}

with_tail :
    (u : Url) (p f : Bytes)
    → IsNormal u
    → none_of is_hash p ≡ true
    → IsNormal (record u { param = p; fragment = f })
with_tail u p f w h = record {
  protocol_alnum = w.protocol_alnum;
  protocol_lower = w.protocol_lower;
  host_first = w.host_first;
  host_bytes = w.host_bytes;
  host_lower = w.host_lower;
  port_range = w.port_range;
  path_rooted = w.path_rooted;
  path_bytes = w.path_bytes;
  path_normal = w.path_normal;
  param_bytes = h;
  no_cache = w.no_cache;
  is_good = w.is_good;
}

set_fragment-IsNormal :
    (u : Url) (p r : Bytes)
    → IsNormal u
    → none_of is_hash p ≡ true
    → IsNormal (set_fragment (record u { param = p }) r)
set_fragment-IsNormal u p [] w h = with_tail u p u.fragment w h
set_fragment-IsNormal u p (c ∷ r) w h = with_tail u p r w h

parse_param-IsNormal : (u : Url) (s : Bytes) → IsNormal u → IsNormal (parse_param u s)
unfolding parse_param
parse_param-IsNormal u [] w = w
parse_param-IsNormal u (c ∷ s) w = elim (Bool-cases (c == b'?')) [
  | inl e ↦
      rw e (set_fragment-IsNormal u (before is_hash s) (from is_hash s) w (all-before is_hash s))
  | inr e ↦ rw e (with_tail u u.param s w w.param_bytes)
]

parse_path-IsNormal : (u : Url) (s : Bytes) → IsOpen u → IsNormal (parse_path true u s)
unfolding parse_path
parse_path-IsNormal u s w =
    parse_param-IsNormal _ (from is_query_hash s)
      (normalize-IsNormal u (before is_query_hash s) w (all-before is_query_hash s))

port_in_range-is_port : (p : ℤ) → port_in_range p ≡ true → is_port p ≡ true
unfolding int_lt
port_in_range-is_port (pos n) h = ground arith
port_in_range-is_port (negsuc n) h = cc

with_port_IsOpen : (u : Url) (p : ℤ) → IsOpen u → is_port p ≡ true → IsOpen (record u { port = p })
with_port_IsOpen u p w h = record {
  protocol_alnum = w.protocol_alnum;
  host_first = w.host_first;
  host_bytes = w.host_bytes;
  port_range = h;
  no_param = w.no_param;
  is_good = w.is_good;
}

parse_port-IsNormal :
    (u : Url) (s : Bytes)
    → IsOpen u
    → (parse_port true u s).good ≡ true
    → IsNormal (parse_port true u s)
unfolding parse_port
parse_port-IsNormal u s w = elim (Bool-cases (is_empty (before is_slash s))) [
  | inl e ↦ rw e (λ g. absurd (cc))
  | inr e ↦ rw e (elim (Option-cases (stoi (before is_slash s))) [
    | inl k ↦ rw k (λ g. absurd (cc))
    | inr (p, k) ↦ rw k (elim (Bool-cases (port_in_range p)) [
      | inl r ↦
          rw r (λ g. parse_path-IsNormal _ _ (with_port_IsOpen u p w (port_in_range-is_port p r)))
      | inr r ↦ rw r (λ g. absurd (cc))
    ])
  ])
]

parse_authority-IsNormal :
    (u : Url) (s : Bytes)
    → IsOpen u
    → (parse_authority true u s).good ≡ true
    → IsNormal (parse_authority true u s)
unfolding parse_authority
parse_authority-IsNormal u [] w = λ g. normalize-IsNormal u [] w refl
parse_authority-IsNormal u (c ∷ s) w = elim (Bool-cases (c == b':')) [
  | inl e ↦ rw e (parse_port-IsNormal u s w)
  | inr e ↦ rw e (λ g. parse_path-IsNormal u s w)
]

-- The fields before the host is read.
record IsFresh (u : Url) : Type 0 where
  protocol_alnum : all isalnum u.protocol ≡ true
  no_port : u.port ≡ pos 0
  no_param : u.param ≡ []
  is_good : u.good ≡ true

parse_host-IsNormal :
    (u : Url) (s : Bytes)
    → IsFresh u
    → (parse_host true u s).good ≡ true
    → IsNormal (parse_host true u s)
unfolding parse_host
parse_host-IsNormal u s w = elim (Bool-cases (bad_host (before is_colon_slash s))) [
  | inl e ↦ rw e (λ g. absurd (cc))
  | inr e ↦ rw e (
      parse_authority-IsNormal _ (from is_colon_slash s) (record {
        protocol_alnum = w.protocol_alnum;
        host_first = e;
        host_bytes = all-before is_colon_slash s;
        port_range = rw w.no_port;
        no_param = w.no_param;
        is_good = w.is_good;
      }))
]

fresh :
    (junk d : ℤ) (p : Bytes)
    → all isalnum p ≡ true
    → IsFresh (record (blank junk) { protocol = p; default_port = d })
fresh junk d p h = record { protocol_alnum = h; no_port = refl; no_param = refl; is_good = refl }

parse_protocol-IsNormal :
    (junk : ℤ) (a s : Bytes)
    → (parse_protocol true (blank junk) a s).good ≡ true
    → IsNormal (parse_protocol true (blank junk) a s)
unfolding parse_protocol
parse_protocol-IsNormal junk [] s = parse_host-IsNormal _ s (fresh junk junk [] refl)
parse_protocol-IsNormal junk (c ∷ a) s = elim (Bool-cases (last_or (c ∷ a) 0 == b':')) [
  | inr e ↦ rw e (λ g. absurd (cc))
  | inl e ↦ rw e (elim (Bool-cases (is_empty (init (c ∷ a)) || not (all isalnum (init (c ∷ a))))) [
    | inl k ↦ rw k (λ g. absurd (cc))
    | inr k ↦ rw k (parse_host-IsNormal _ s (fresh junk _ (init (c ∷ a)) (ground arith)))
  ])
]

-- A parsed URL that is good has a protocol of letters and digits, a host without ':' and '/' that
-- does not start with '.', a port of at most 65535, and an absolute path in normal form with no
-- '?' or '#'; protocol and host are in lower case, and the parameter has no '#'.
pub parse-IsNormal :
    (junk : ℤ) (s : Bytes) → (parse junk true s).good ≡ true → IsNormal (parse junk true s)
unfolding parse
parse-IsNormal junk s = elim (Option-cases (split_slashes s)) [
  | inl e ↦ rw (e, parse) (λ g. absurd (cc))
  | inr (p, e) ↦ rw (e, parse) (parse_protocol-IsNormal junk p.0 p.1)
]
