-- ===== src/Utils/LinkCompose.antt =====
-- `linkCompose` of tlgsutils/utils.cpp: how the crawler resolves a link against its page.
use tlgs.Common.{
  ◌≡◌, refl, ◌≢◌, true, false, not, [], ◌∷◌, ◌++◌, ◌==◌, arith, some, Bytes, codes, if◌then◌else◌,
  all-append, tail, last_or, Bool-cases, inl, inr,
}
use tlgs.Common.Decimal.{ℤ}
use tlgs.FilePath.{append_path, parent_path, drop_name}
use tlgs.FilePath.Normal.{normal-normal, normal-all, normal-is_absolute}
use tlgs.Url.{Url, rooted, with_path, with_param, with_fragment}
use tlgs.Url.Delimiters.{IsDelimited, parse-IsDelimited}
use tlgs.Url.Normal.{none_of, IsNormal}
use tlgs.Url.Parse.{is_query_hash, parse}
use tlgs.Utils.{take_query, link_compose}

pub record SameSite (u v : Url) : Type 0 where
  pub same_protocol : v.protocol ≡ u.protocol
  pub same_host : v.host ≡ u.host
  pub same_port : v.port ≡ u.port

none_of-rooted :
    (s : Bytes) → none_of is_query_hash s ≡ true → none_of is_query_hash (rooted s) ≡ true
none_of-rooted [] h = refl
none_of-rooted (c ∷ s) h = ground arith

none_of-tail : (s : Bytes) → none_of is_query_hash s ≡ true → none_of is_query_hash (tail s) ≡ true
none_of-tail [] h = refl
none_of-tail (c ∷ s) h = ground arith

none_of-drop_name :
    (s : Bytes) → none_of is_query_hash s ≡ true → none_of is_query_hash (drop_name s) ≡ true
unfolding drop_name
none_of-drop_name [] h = refl
none_of-drop_name (c ∷ s) h = ground (arith, none_of-drop_name s)

none_of-parent_path :
    (s : Bytes) → none_of is_query_hash s ≡ true → none_of is_query_hash (parent_path s) ≡ true
unfolding parent_path
none_of-parent_path s h = ground (arith, none_of-drop_name s h)

none_of-append_path :
    (p q : Bytes)
    → none_of is_query_hash p ≡ true
    → none_of is_query_hash q ≡ true
    → none_of is_query_hash (append_path p q) ≡ true
unfolding append_path
none_of-append_path p q h k = ground (
  arith,
  all-append (λ c. not (is_query_hash c)) p q,
  all-append (λ c. not (is_query_hash c)) p (b'/' ∷ q),
)

rooted-cons : (s : Bytes) → (q : Bytes) × (rooted s ≡ b'/' ∷ q)
rooted-cons [] = ([], refl)
rooted-cons (c ∷ s) = elim (Bool-cases (c == b'/')) [
  | inl e ↦ (s, ground arith)
  | inr e ↦ (c ∷ s, ground arith)
]

-- A normal URL with a new path and a new query is normal.
replaced-IsNormal :
    (u d : Url) (s : Bytes)
    → IsNormal u
    → IsDelimited d
    → none_of is_query_hash s ≡ true
    → IsNormal (take_query d (with_path u s true))
unfolding with_path with_param with_fragment
replaced-IsNormal u d s w k h =
    let (q, e) = rooted-cons s in
    let bytes : none_of is_query_hash (b'/' ∷ q) ≡ true = rw e at (none_of-rooted s h) in
    record {
      protocol_alnum = w.protocol_alnum;
      protocol_lower = w.protocol_lower;
      host_first = w.host_first;
      host_bytes = w.host_bytes;
      host_lower = w.host_lower;
      port_range = w.port_range;
      path_rooted = rw e (normal-is_absolute q);
      path_bytes = rw e (normal-all (λ c. not (is_query_hash c)) q refl bytes);
      path_normal = rw e (normal-normal q);
      param_bytes = k.param_bytes;
      no_cache = refl;
      is_good = w.is_good;
    }

replaced-SameSite : (u d : Url) (s : Bytes) → SameSite u (take_query d (with_path u s true))
unfolding with_path with_param with_fragment
replaced-SameSite u d s = record { same_protocol = refl; same_host = refl; same_port = refl }

-- A link resolved against a parsed page of a site: the composition succeeds on every link but the
-- empty one, the result is again a good URL in normal form, and it stays on the page's site.
pub link_compose-IsNormal :
    (junk : ℤ) (u : Url) (path : Bytes)
    → IsNormal u
    → path ≢ []
    → (v : Url) × (link_compose junk u path ≡ some v) × IsNormal v × SameSite u v
unfolding link_compose
link_compose-IsNormal junk u [] w ne = absurd (ne refl)
link_compose-IsNormal junk u (c ∷ path) w ne = elim (Bool-cases (c == b'/')) [
  | inl e ↦
      let d = parse junk true (codes "gemini://localhost" ++ c ∷ path) in
      let k = parse-IsDelimited junk true (codes "gemini://localhost" ++ c ∷ path) in
      (
        take_query d (with_path u d.path true),
        rw e,
        replaced-IsNormal u d d.path w k k.path_bytes,
        replaced-SameSite u d d.path,
      )
  | inr e ↦
      let d = parse junk false (codes "gemini://localhost/" ++ c ∷ path) in
      let k = parse-IsDelimited junk false (codes "gemini://localhost/" ++ c ∷ path) in
      let base = if last_or u.path 0 == b'/' then u.path else parent_path u.path in
      let base_bytes : none_of is_query_hash base ≡ true =
        ground (arith, none_of-parent_path u.path w.path_bytes, w.path_bytes) in
      let s = append_path base (tail d.path) in
      (
        take_query d (with_path u s true),
        rw e,
        replaced-IsNormal u d s w k
            (none_of-append_path base (tail d.path) base_bytes (none_of-tail d.path k.path_bytes)),
        replaced-SameSite u d s,
      )
]
