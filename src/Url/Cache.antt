-- ===== src/Url/Cache.antt =====
-- The mutable `cache_` of `tlgs::Url` (tlgsutils/url_parser.hpp): every method that changes a
-- field which `str` prints clears it.
use tlgs.Common.{
  ℕ, ◌≡◌, refl, sym, Bool, true, List, [], ◌∷◌, ◌⊎◌, inl, inr, arith, Bytes, is_empty, Bool-cases,
}
use tlgs.Common.Decimal.{ℤ}
use tlgs.Url.{
  Url, render, str, with_host, with_path, with_param, with_protocol, with_port, without_port,
  with_default_port, with_fragment, normalize,
}
use tlgs.Url.Invariant.{parse-IsNormal}
use tlgs.Url.Parse.{parse}

abbrev IsCoherent : Url → Type 0
IsCoherent u = (u.cache ≡ []) ⊎ (u.cache ≡ render u)

render-cache : (u : Url) (s : Bytes) → render (record u { cache = s }) ≡ render u
unfolding render
render-cache u s = refl

-- `str` gives the text of the fields as they are and keeps it, if the cache is coherent.
str-IsCoherent :
    (u : Url)
    → IsCoherent u
    → ((str u).0 ≡ render u) × ((str u).1.cache ≡ render u) × IsCoherent (str u).1
unfolding str
str-IsCoherent u c = elim (Bool-cases (is_empty u.cache)) [
  | inl e ↦ rw e (refl, refl, inr (sym (render-cache u (render u))))
  | inr e ↦ rw e (elim c [ inl h ↦ absurd (ground arith) | inr h ↦ (h, h, inr h) ])
]

-- The calls that change a URL, and that of `str`, which fills the cache.
pub data Use : Type 0 where
  printed with_no_port normalized : Use
  host_set param_set protocol_set fragment_set : Bytes → Use
  path_set : Bytes → Bool → Use
  port_set default_port_set : ℕ → Use

abbrev pub after_use : Use → Url → Url
after_use printed u = (str u).1
after_use with_no_port u = without_port u
after_use normalized u = normalize u
after_use (host_set s) u = with_host u s
after_use (param_set s) u = with_param u s
after_use (protocol_set s) u = with_protocol u s
after_use (fragment_set s) u = with_fragment u s
after_use (path_set s b) u = with_path u s b
after_use (port_set n) u = with_port u n
after_use (default_port_set n) u = with_default_port u n

-- The URL after some uses, the first one first.
abbrev pub after_uses : List Use → Url → Url
after_uses [] u = u
after_uses (use_now ∷ uses) u = after_uses uses (after_use use_now u)

after_use-IsCoherent : (use_now : Use) (u : Url) → IsCoherent u → IsCoherent (after_use use_now u)
unfolding with_host with_path with_param with_protocol with_port without_port with_default_port
    with_fragment normalize
after_use-IsCoherent printed u c = (str-IsCoherent u c).2
after_use-IsCoherent with_no_port u c = inl refl
after_use-IsCoherent normalized u c = inl refl
after_use-IsCoherent (host_set s) u c = inl refl
after_use-IsCoherent (param_set s) u c = inl refl
after_use-IsCoherent (protocol_set s) u c = inl refl
after_use-IsCoherent (fragment_set s) u c = inl refl
after_use-IsCoherent (path_set s b) u c = inl refl
after_use-IsCoherent (port_set n) u c = inl refl
after_use-IsCoherent (default_port_set n) u c = inl refl

after_uses-IsCoherent : (uses : List Use) (u : Url) → IsCoherent u → IsCoherent (after_uses uses u)
after_uses-IsCoherent [] u c = c
after_uses-IsCoherent (use_now ∷ uses) u c =
    after_uses-IsCoherent uses (after_use use_now u) (after_use-IsCoherent use_now u c)

-- Whatever calls of `str` and of the methods that change it a good URL of the parser has been
-- through, in any order, `str` gives the text of its fields as they are, and keeps that text.
pub str-after_uses :
    (junk : ℤ) (s : Bytes) (uses : List Use)
    → (parse junk true s).good ≡ true
    → ((str (after_uses uses (parse junk true s))).0 ≡ render (after_uses uses (parse junk true s)))
      × ((str (after_uses uses (parse junk true s))).1.cache
          ≡ render (after_uses uses (parse junk true s)))
str-after_uses junk s uses good =
    let u = parse junk true s in
    let (text, kept, _) =
      str-IsCoherent (after_uses uses u)
        (after_uses-IsCoherent uses u (inl (parse-IsNormal junk s good).no_cache)) in
    (text, kept)
