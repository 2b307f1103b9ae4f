-- ===== src/Url/Delimiters.antt =====
-- Whatever text the constructor of tlgsutils/url_parser.cpp is given, good or not, the path that
-- it sets has no '?' or '#' and the parameter no '#'.
use tlgs.Common.{
  ◌≡◌, refl, Bool, true, false, not, ◌||◌, [], ◌∷◌, ◌==◌, Bytes, is_empty, all, isalnum, Bool-cases,
  Option-cases, inl, inr, before, from, all-before, split_slashes, init, last_or,
}
use tlgs.Common.Decimal.{ℤ, stoi}
use tlgs.FilePath.Normal.{normal-all}
use tlgs.Url.{Url, normalize}
use tlgs.Url.Normal.{none_of}
use tlgs.Url.Parse.{
  blank, is_colon_slash, is_slash, is_query_hash, is_hash, set_fragment, normalize_if, parse_param,
  parse_path, parse_port, parse_authority, bad_host, parse_host, parse_protocol, parse,
  port_in_range,
}

pub record IsDelimited (u : Url) : Type 0 where
  pub path_bytes : none_of is_query_hash u.path ≡ true
  pub param_bytes : none_of is_hash u.param ≡ true

set_fragment-IsDelimited : (u : Url) (r : Bytes) → IsDelimited u → IsDelimited (set_fragment u r)
set_fragment-IsDelimited u [] w = w
set_fragment-IsDelimited u (c ∷ r) w = record {
  path_bytes = w.path_bytes;
  param_bytes = w.param_bytes;
}

parse_param-IsDelimited : (u : Url) (s : Bytes) → IsDelimited u → IsDelimited (parse_param u s)
unfolding parse_param
parse_param-IsDelimited u [] w = w
parse_param-IsDelimited u (c ∷ s) w = elim (Bool-cases (c == b'?')) [
  | inl e ↦ rw e (
      set_fragment-IsDelimited _ (from is_hash s)
        (record { path_bytes = w.path_bytes; param_bytes = all-before is_hash s }))
  | inr e ↦ rw e (record { path_bytes = w.path_bytes; param_bytes = w.param_bytes })
]

rooted-IsDelimited :
    (b : Bool) (u : Url) (q : Bytes)
    → IsDelimited u
    → none_of is_query_hash q ≡ true
    → IsDelimited (normalize_if b (record u { path = b'/' ∷ q }))
rooted-IsDelimited true u q w h =
    unfold normalize in
    record {
      path_bytes = normal-all (λ c. not (is_query_hash c)) q refl h;
      param_bytes = w.param_bytes;
    }
rooted-IsDelimited false u q w h = record { path_bytes = h; param_bytes = w.param_bytes }

parse_path-IsDelimited :
    (b : Bool) (u : Url) (s : Bytes) → IsDelimited u → IsDelimited (parse_path b u s)
unfolding parse_path
parse_path-IsDelimited b u s w =
    parse_param-IsDelimited _ (from is_query_hash s)
      (rooted-IsDelimited b u (before is_query_hash s) w (all-before is_query_hash s))

same : (u v : Url) → v.path ≡ u.path → v.param ≡ u.param → IsDelimited u → IsDelimited v
same u v e k w = record { path_bytes = rw e w.path_bytes; param_bytes = rw k w.param_bytes }

parse_port-IsDelimited :
    (b : Bool) (u : Url) (s : Bytes) → IsDelimited u → IsDelimited (parse_port b u s)
unfolding parse_port
parse_port-IsDelimited b u s w = elim (Bool-cases (is_empty (before is_slash s))) [
  | inl e ↦ rw e (same u _ refl refl w)
  | inr e ↦ rw e (elim (Option-cases (stoi (before is_slash s))) [
    | inl k ↦ rw k (same u _ refl refl w)
    | inr (p, k) ↦ rw k (elim (Bool-cases (port_in_range p)) [
      | inl r ↦ rw r (parse_path-IsDelimited b _ _ (same u _ refl refl w))
      | inr r ↦ rw r (same u _ refl refl w)
    ])
  ])
]

parse_authority-IsDelimited :
    (b : Bool) (u : Url) (s : Bytes) → IsDelimited u → IsDelimited (parse_authority b u s)
unfolding parse_authority
parse_authority-IsDelimited b u [] w = rooted-IsDelimited b u [] w refl
parse_authority-IsDelimited b u (c ∷ s) w = elim (Bool-cases (c == b':')) [
  | inl e ↦ rw e (parse_port-IsDelimited b u s w)
  | inr e ↦ rw e (parse_path-IsDelimited b u s w)
]

parse_host-IsDelimited :
    (b : Bool) (u : Url) (s : Bytes) → IsDelimited u → IsDelimited (parse_host b u s)
unfolding parse_host
parse_host-IsDelimited b u s w = elim (Bool-cases (bad_host (before is_colon_slash s))) [
  | inl e ↦ rw e (same u _ refl refl w)
  | inr e ↦ rw e (parse_authority-IsDelimited b _ (from is_colon_slash s) (same u _ refl refl w))
]

parse_protocol-IsDelimited :
    (b : Bool) (u : Url) (a s : Bytes) → IsDelimited u → IsDelimited (parse_protocol b u a s)
unfolding parse_protocol
parse_protocol-IsDelimited b u [] s w = parse_host-IsDelimited b u s w
parse_protocol-IsDelimited b u (c ∷ a) s w = elim (Bool-cases (last_or (c ∷ a) 0 == b':')) [
  | inr e ↦ rw e (same u _ refl refl w)
  | inl e ↦ rw e (elim (Bool-cases (is_empty (init (c ∷ a)) || not (all isalnum (init (c ∷ a))))) [
    | inl k ↦ rw k (same u _ refl refl w)
    | inr k ↦ rw k (parse_host-IsDelimited b _ s (same u _ refl refl w))
  ])
]

-- The parsed path has no '?' or '#', and the parsed parameter no '#', also in a URL that is not
-- good.
pub parse-IsDelimited : (junk : ℤ) (b : Bool) (s : Bytes) → IsDelimited (parse junk b s)
unfolding parse
parse-IsDelimited junk b s = elim (Option-cases (split_slashes s)) [
  | inl e ↦ rw (e, parse) (record { path_bytes = refl; param_bytes = refl })
  | inr (p, e) ↦
      rw (e, parse)
        (parse_protocol-IsDelimited b (blank junk) p.0 p.1
          (record { path_bytes = refl; param_bytes = refl }))
]
