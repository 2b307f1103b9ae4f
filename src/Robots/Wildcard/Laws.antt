-- ===== src/Robots/Wildcard/Laws.antt =====
-- What the fast cases of `wildcardPathMatch` (tlgsutils/robots_txt_parser.cpp) match.
use tlgs.Common.{
  ℕ, ◌+◌, ◌<◌, ◌≡◌, refl, ap, ◌∙◌, ◌≢◌, ◌↔◌, ◌⊎◌, inl, inr, true, false, [], ◌∷◌, ◌++◌, arith, ltb,
  Bytes, codes, length, length-append, last_or, bytes_eq, bytes_eq_iff, starts_with-append,
  starts_with-split, Bool-cases,
}
use tlgs.Robots.Wildcard.{count_stars, char_at, plain_path_match, wildcard_path_match}

char_at-append : (p : Bytes) (c : ℕ) (r : Bytes) → char_at (p ++ c ∷ r) (length p) ≡ c
char_at-append [] c r = refl
char_at-append (x ∷ p) c r = char_at-append p c r

-- What a pattern without a star blocks: the path itself, the path with a slash behind it, and what
-- has it as a prefix and two bytes more at least, the first of which is a slash unless the pattern
-- ends in one.
pub data Covers (p : Bytes) : Bytes → Type 0 where
  itself : {s : Bytes} → s ≡ p → Covers p s
  with_slash : {s : Bytes} → s ≡ p ++ b'/' ∷ [] → Covers p s
  below :
      {s : Bytes} (c d : ℕ) (r : Bytes)
      → s ≡ p ++ c ∷ d ∷ r
      → (c ≡ b'/') ⊎ (last_or p 0 ≡ b'/')
      → Covers p s

longer : (p r : Bytes) → length p + 1 < length (p ++ r) → (c d : ℕ) × (t : Bytes) × (r ≡ c ∷ d ∷ t)
longer p [] h = absurd (omega (arith, length-append p []))
longer p (c ∷ []) h = absurd (omega (arith, length-append p (c ∷ [])))
longer p (c ∷ d ∷ t) h = (c, d, t, refl)

plain-Covers : (p s : Bytes) → plain_path_match p s ≡ true → Covers p s
unfolding plain_path_match
plain-Covers p s h = elim (Bool-cases (bytes_eq s p)) [
  | inl e ↦ itself ((bytes_eq_iff s p).0 e)
  | inr e ↦ elim (Bool-cases (bytes_eq s (p ++ codes "/"))) [
    | inl k ↦ with_slash ((bytes_eq_iff s (p ++ codes "/")).0 k)
    | inr k ↦
        let (r, split) = starts_with-split s p (ground arith) in
        let (c, d, t, more) = longer p r (ground arith) in
        let whole : s ≡ p ++ c ∷ d ∷ t = split ∙ ap (◌++◌ p) more in
        below c d t whole (ground (arith, char_at-append p c (d ∷ t)))
  ]
]

Covers-plain : (p s : Bytes) → Covers p s → plain_path_match p s ≡ true
unfolding plain_path_match
Covers-plain p s (itself e) = ground (arith, bytes_eq_iff s p)
Covers-plain p s (with_slash e) = ground (arith, bytes_eq_iff s (p ++ codes "/"))
Covers-plain p s (below c d r e k) = rw e (
    let big : ltb (length p + 1) (length (p ++ c ∷ d ∷ r)) ≡ true =
      ground (arith, length-append p (c ∷ d ∷ r)) in
    ground (arith, starts_with-append p (c ∷ d ∷ r), char_at-append p c (d ∷ r)))

-- A pattern without a star that is not empty blocks just what `Covers` says.
pub wildcard_plain :
    (p s : Bytes) → p ≢ [] → count_stars p ≡ 0 → (wildcard_path_match p s ≡ true) ↔ Covers p s
unfolding wildcard_path_match
wildcard_plain [] s ne h = absurd (ne refl)
wildcard_plain (c ∷ p) s ne h = rw h (plain-Covers (c ∷ p) s, Covers-plain (c ∷ p) s)

append_cancel : (p a b : Bytes) → p ++ a ≡ p ++ b → a ≡ b
append_cancel [] a b h = h
append_cancel (x ∷ p) a b h = append_cancel p a b (cc)

too_short : (p : Bytes) (c : ℕ) → c ≢ b'/' → ¬ Covers p (p ++ c ∷ [])
too_short p c k (itself e) = absurd (omega (arith, ap length e, length-append p (c ∷ [])))
too_short p c k (with_slash e) = k (ground (arith, append_cancel p (c ∷ []) (b'/' ∷ []) e))
too_short p c k (below d f r e o) =
    absurd (omega (arith, ap length e, length-append p (c ∷ []), length-append p (d ∷ f ∷ r)))

-- A pattern without a star that ends in a slash does not block the files with a name of one byte
-- in its directory, nor any other path that is one byte longer and ends in no slash.
pub wildcard_one_byte_name :
    (p : Bytes) (c : ℕ)
    → p ≢ []
    → count_stars p ≡ 0
    → c ≢ b'/'
    → wildcard_path_match p (p ++ c ∷ []) ≡ false
wildcard_one_byte_name p c ne h k = elim (Bool-cases (wildcard_path_match p (p ++ c ∷ []))) [
  | inr e ↦ e
  | inl e ↦ absurd (too_short p c k ((wildcard_plain p (p ++ c ∷ []) ne h).0 e))
]
