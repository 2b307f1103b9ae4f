-- ===== src/Robots/Wildcard/Stars.antt =====
-- The fast cases of `wildcardPathMatch` (tlgsutils/robots_txt_parser.cpp) for a pattern with one
-- star that does not stand at its front.
use tlgs.Common.{
  ℕ, ◌+◌, ◌-◌, ◌≡◌, refl, ap, ◌∙◌, ◌≢◌, inl, inr, true, false, not, ◌&&◌, [], ◌∷◌, ◌++◌, arith, ltb,
  ◌==◌, none, Bytes, codes, length, length-append, drop, take-length-append, drop-length-append,
  all, last_or, last_or-append, starts_with, starts_with-append, contains, before, before-stop,
  Bool-cases,
}
use native.Mathlib.Numerals.{add-one}
use tlgs.Robots.Wildcard.{
  is_star, count_stars, rfind, lt_index, star_path_match, without_dollar, wildcard_path_match,
}

count_stars-append : (a b : Bytes) → count_stars (a ++ b) ≡ count_stars a + count_stars b
count_stars-append [] b = omega arith
count_stars-append (c ∷ a) b = omega (arith, count_stars-append a b)

no_stars : (a : Bytes) → count_stars a ≡ 0 → all (λ c. not (is_star c)) a ≡ true
no_stars [] h = refl
no_stars (c ∷ a) h = ground (arith, no_stars a)

-- The part of a pattern before its first star, where that is not empty and not "/".
pub record IsHead (a : Bytes) : Type 0 where
  pub unstarred : count_stars a ≡ 0
  pub ne_nil : a ≢ []
  pub ne_root : a ≢ codes "/"

not_first : (a t : Bytes) → IsHead a → starts_with (a ++ t) (codes "*") ≡ false
unfolding starts_with
not_first [] t h = absurd (h.ne_nil refl)
not_first (c ∷ a) t h = ground (arith, h.unstarred)

not_rooted : (a t : Bytes) → IsHead a → starts_with (a ++ t) (codes "/*") ≡ false
unfolding starts_with
not_rooted [] t h = absurd (h.ne_nil refl)
not_rooted (c ∷ []) t h = elim (Bool-cases (c == b'/')) [
  | inl e ↦ absurd (h.ne_root (ground arith))
  | inr e ↦ ground arith
]
not_rooted (c ∷ d ∷ a) t h = ground (arith, h.unstarred)

last_star : (a : Bytes) → last_or (a ++ b'*' ∷ []) 0 ≡ b'*'
last_star a = last_or-append a b'*' [] 0

same_dollar : (a t : Bytes) → IsHead a → without_dollar (a ++ t) ≡ a ++ t
same_dollar a t h = ground (arith, not_first a t h, not_rooted a t h)

starred : (a b : Bytes) → IsHead a → count_stars b ≡ 0 → count_stars (a ++ b'*' ∷ b) ≡ 1
starred a b h k = omega (arith, count_stars-append a (b'*' ∷ b), h.unstarred)

-- The match of `a*b`, once the tests on the pattern are decided.
one_star :
    (a b s : Bytes)
    → IsHead a
    → count_stars b ≡ 0
    → wildcard_path_match (a ++ b'*' ∷ b) s ≡ star_path_match (a ++ b'*' ∷ b) 1 s
unfolding wildcard_path_match
one_star [] b s h k = absurd (h.ne_nil refl)
one_star (c ∷ a) b s h k = rw (starred (c ∷ a) b h k, same_dollar (c ∷ a) (b'*' ∷ b) h)

last_not_star :
    (b : Bytes) (d : ℕ) → (is_star d) ≡ false → count_stars b ≡ 0 → (last_or b d == b'*') ≡ false
last_not_star [] d h k = h
last_not_star (x ∷ b) d h k = last_not_star b x (ground arith) (ground arith)

last_of_tail : (b : Bytes) (d : ℕ) → b ≢ [] → count_stars b ≡ 0 → (last_or b d == b'*') ≡ false
last_of_tail [] d h k = absurd (h refl)
last_of_tail (x ∷ b) d h k = last_not_star b x (ground arith) (ground arith)

final_star : (a s : Bytes) → IsHead a → star_path_match (a ++ b'*' ∷ []) 1 s ≡ starts_with s a
unfolding star_path_match
final_star a s h =
    let short : length (a ++ b'*' ∷ []) - 1 ≡ length a =
      omega (arith, length-append a (b'*' ∷ [])) in
    rw (
      not_first a (b'*' ∷ []) h,
      not_rooted a (b'*' ∷ []) h,
      last_star a,
      short,
      take-length-append a (b'*' ∷ []),
    )

middle_star :
    (a b s : Bytes)
    → IsHead a
    → count_stars b ≡ 0
    → b ≢ []
    → star_path_match (a ++ b'*' ∷ b) 1 s ≡ (starts_with s a && lt_index (length a) (rfind s b))
unfolding star_path_match
middle_star a b s h k ne =
    let p = a ++ b'*' ∷ b in
    let final : (last_or p 0 == b'*') ≡ false =
      ap (λ x. x == b'*') (last_or-append a b'*' b 0) ∙ last_of_tail b b'*' ne k in
    let front : before is_star p ≡ a = before-stop is_star a b'*' b (no_stars a h.unstarred) refl in
    let inside : ltb (length a) (length p) ≡ true = ground (arith, length-append a (b'*' ∷ b)) in
    let behind : drop (length a + 1) p ≡ b =
      ap (λ n. drop n p) (add-one (length a)) ∙ drop-length-append a b'*' b in
    rw (
      not_first a (b'*' ∷ b) h,
      not_rooted a (b'*' ∷ b) h,
      final,
      front,
      inside,
      behind,
      take-length-append a (b'*' ∷ b),
    )

-- `head*` blocks the paths that start with `head`, where `head` is not empty, not "/" and has no
-- star.
pub wildcard_prefix :
    (a s : Bytes) → IsHead a → wildcard_path_match (a ++ b'*' ∷ []) s ≡ starts_with s a
wildcard_prefix a s h = one_star a [] s h refl ∙ final_star a s h

-- `head*tail` blocks the paths that start with `head`, and in which the last occurrence of `tail`
-- begins behind the end of `head`, or which have no occurrence of `tail` at all; `head` is as
-- above, and `tail` is not empty and has no star.
pub wildcard_middle :
    (a b s : Bytes)
    → IsHead a
    → count_stars b ≡ 0
    → b ≢ []
    → wildcard_path_match (a ++ b'*' ∷ b) s ≡ (starts_with s a && lt_index (length a) (rfind s b))
wildcard_middle a b s h k ne = one_star a b s h k ∙ middle_star a b s h k ne

rfind-none : (s p : Bytes) → contains s p ≡ false → rfind s p ≡ none
unfolding rfind contains starts_with
rfind-none [] [] h = cc
rfind-none [] (y ∷ p) h = refl
rfind-none (c ∷ s) p h = ground (arith, rfind-none s p)

-- So `head*tail` also blocks a path under `head` in which `tail` does not occur.
pub wildcard_missing_tail :
    (a b r : Bytes)
    → IsHead a
    → count_stars b ≡ 0
    → b ≢ []
    → contains (a ++ r) b ≡ false
    → wildcard_path_match (a ++ b'*' ∷ b) (a ++ r) ≡ true
wildcard_missing_tail a b r h k ne c =
    wildcard_middle a b (a ++ r) h k ne ∙ rw (starts_with-append a r, rfind-none (a ++ r) b c)
