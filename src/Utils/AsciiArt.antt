-- ===== src/Utils/AsciiArt.antt =====
-- `isAsciiArt` of tlgsutils/utils.cpp: its loop finds every run of four.
use tlgs.Common.{
  ℕ, zero, suc, ◌≡◌, refl, inl, inr, Bool, true, false, not, ◌&&◌, ◌||◌, [], ◌∷◌, arith, ◌==◌,
  if◌then◌else◌, Bytes, is_blank, any, Bool-cases, contains,
}
use tlgs.Utils.{has_long_run, art_marks, is_ascii_art}

-- Four equal characters in a row, no blanks, at the front or further on.
pub four_in_a_row : Bytes → Bool
four_in_a_row (a ∷ b ∷ c ∷ d ∷ s) =
    (a == b && b == c && c == d && not (is_blank a)) || four_in_a_row (b ∷ c ∷ d ∷ s)
four_in_a_row _ = false

abbrev repeated : ℕ → ℕ → Bytes → Bytes
repeated zero c s = s
repeated (suc n) c s = c ∷ repeated n c s

four-blank : (a : ℕ) (s : Bytes) → is_blank a ≡ true → four_in_a_row (a ∷ s) ≡ four_in_a_row s
unfolding four_in_a_row
four-blank a [] h = refl
four-blank a (b ∷ []) h = refl
four-blank a (b ∷ c ∷ []) h = refl
four-blank a (b ∷ c ∷ d ∷ s) h = ground arith

four-ne :
    (a b : ℕ) (s : Bytes) → (b == a) ≡ false → four_in_a_row (a ∷ b ∷ s) ≡ four_in_a_row (b ∷ s)
unfolding four_in_a_row
four-ne a b [] h = refl
four-ne a b (c ∷ []) h = refl
four-ne a b (c ∷ d ∷ s) h = ground arith

four-ne₂ :
    (a b : ℕ) (s : Bytes) → (b == a) ≡ false → four_in_a_row (a ∷ a ∷ b ∷ s) ≡ four_in_a_row (b ∷ s)
unfolding four_in_a_row
four-ne₂ a b [] h = refl
four-ne₂ a b (c ∷ s) h = ground (arith, four-ne a b (c ∷ s) h)

four-ne₃ :
    (a b : ℕ) (s : Bytes)
    → (b == a) ≡ false
    → four_in_a_row (a ∷ a ∷ a ∷ b ∷ s) ≡ four_in_a_row (b ∷ s)
unfolding four_in_a_row
four-ne₃ a b s h = ground (arith, four-ne₂ a b s h)

-- The loop with a run of `c` behind it, against the text with that run in front; a run of blanks
-- counts for nothing, however long.
record Agrees (s : Bytes) (c : ℕ) : Type 0 where
  after_one : has_long_run 1 c s ≡ four_in_a_row (c ∷ s)
  after_two : has_long_run 2 c s ≡ four_in_a_row (c ∷ c ∷ s)
  after_three : has_long_run 3 c s ≡ four_in_a_row (c ∷ c ∷ c ∷ s)
  after_blanks : (n : ℕ) → is_blank c ≡ true → has_long_run (suc n) c s ≡ four_in_a_row (c ∷ s)

module _ (c x : ℕ) (s : Bytes) (ih : Agrees s x) where
  one : has_long_run 1 c (x ∷ s) ≡ four_in_a_row (c ∷ x ∷ s)
  unfolding has_long_run
  one = ground (arith, ih.after_one, ih.after_two, four-ne c x s)

  two : has_long_run 2 c (x ∷ s) ≡ four_in_a_row (c ∷ c ∷ x ∷ s)
  unfolding has_long_run
  two = ground (arith, ih.after_one, ih.after_three, four-ne₂ c x s)

  three : has_long_run 3 c (x ∷ s) ≡ four_in_a_row (c ∷ c ∷ c ∷ x ∷ s)
  unfolding has_long_run
  three = elim (Bool-cases (x == c)) [
    | inr e ↦ ground (arith, ih.after_one, four-ne₃ c x s)
    | inl e ↦ elim (Bool-cases (is_blank c)) [
      | inl b ↦ ground (
        arith,
        ih.after_blanks 3,
        four-blank c (c ∷ c ∷ x ∷ s),
        four-blank c (c ∷ x ∷ s),
        four-blank c (x ∷ s),
      )
      | inr b ↦ unfold four_in_a_row in ground arith
    ]
  ]

  blanks : (n : ℕ) → is_blank c ≡ true → has_long_run (suc n) c (x ∷ s) ≡ four_in_a_row (c ∷ x ∷ s)
  unfolding has_long_run
  blanks n b = ground (arith, ih.after_one, ih.after_blanks (suc n), four-blank c (x ∷ s))

agrees : (s : Bytes) (c : ℕ) → Agrees s c
agrees [] c =
    unfold has_long_run four_in_a_row in
    record { after_one = refl; after_two = refl; after_three = refl; after_blanks = λ n b. refl }
agrees (x ∷ s) c = record {
  after_one = one c x s (agrees s x);
  after_two = two c x s (agrees s x);
  after_three = three c x s (agrees s x);
  after_blanks = blanks c x s (agrees s x);
}

has_long_run-four : (s : Bytes) → has_long_run 0 0 s ≡ four_in_a_row s
unfolding has_long_run
has_long_run-four [] = unfold four_in_a_row in refl
has_long_run-four (x ∷ s) = ground (arith, (agrees s x).after_one)

if-or : (a b : Bool) → (if a then true else b) ≡ (a || b)
if-or true b = refl
if-or false b = refl

-- A text is taken for ASCII art just if four equal characters other than space and tab stand in a
-- row somewhere, or one of the eleven marks occurs in it.
pub is_ascii_art_lem :
    (s : Bytes) → is_ascii_art s ≡ (four_in_a_row s || any (contains s) art_marks)
unfolding is_ascii_art
is_ascii_art_lem s =
    rw (has_long_run-four s, is_ascii_art) (if-or (four_in_a_row s) (any (contains s) art_marks))
