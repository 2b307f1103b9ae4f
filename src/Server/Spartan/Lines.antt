-- ===== src/Server/Spartan/Lines.antt =====
-- The lines of a page that is served through Spartan (tlgs/server/main.cpp).
use tlgs.Common.{
  ℕ, ◌≡◌, refl, ap, ◌∙◌, Bool, true, false, not, List, [], ◌∷◌, ◌++◌, ◌==◌, all, map, Bytes, codes,
  bytes_eq, starts_with, starts_with-split, Bool-cases, inl, inr, arith,
}
use tlgs.Robots.{cons_head, get_lines}
use tlgs.Robots.Lines.{get_lines-line}
use tlgs.Server.Spartan.{needs_input, mark_line, mark_lines, handle_body}

abbrev pub no_newline : Bytes → Bool
no_newline s = all (λ c. not (c == b'\n')) s

-- replaceAll puts the new text for a text at the start, and no line break into a line.
pub record IsReplaceAll (replace_all : Bytes → Bytes → Bytes → Bytes) : Type 0 where
  pub at_start :
      (s : Bytes)
      → (t : Bytes) × (replace_all (codes "=>" ++ s) (codes "=>") (codes "=:") ≡ codes "=:" ++ t)
  pub one_line :
      (s : Bytes)
      → no_newline s ≡ true
      → no_newline (replace_all s (codes "=>") (codes "=:")) ≡ true

cons_head-no_newline :
    (c : ℕ) (lines : List Bytes)
    → (c == b'\n') ≡ false
    → all no_newline lines ≡ true
    → all no_newline (cons_head c lines) ≡ true
cons_head-no_newline c [] e h = ground (arith, e)
cons_head-no_newline c (line ∷ lines) e h = ground (arith, e, h)

get_lines-no_newline : (s : Bytes) → all no_newline (get_lines s) ≡ true
unfolding get_lines
get_lines-no_newline [] = refl
get_lines-no_newline (c ∷ s) = elim (Bool-cases (c == b'\n')) [
  | inl e ↦ rw (e) (get_lines-no_newline s)
  | inr e ↦ rw (e) (cons_head-no_newline c (get_lines s) e (get_lines-no_newline s))
]

module _ (replace_all : Bytes → Bytes → Bytes → Bytes) (law : IsReplaceAll replace_all) where
  mark_line-no_newline :
      (line : Bytes) → no_newline line ≡ true → no_newline (mark_line replace_all line) ≡ true
  mark_line-no_newline line h = elim (Bool-cases (needs_input line)) [
    | inl e ↦ rw (e) (law.one_line line h)
    | inr e ↦ rw (e) h
  ]

  -- A marked line is no link any more.
  replaced-needs_input :
      (line : Bytes)
      → needs_input line ≡ true
      → needs_input (replace_all line (codes "=>") (codes "=:")) ≡ false
  unfolding needs_input starts_with
  replaced-needs_input line h =
      let (rest, e) = starts_with-split line (codes "=>") (ground (arith, h)) in
      let (t, e') = law.at_start rest in rw (e, e') refl

  mark_line-again :
      (line : Bytes)
      → mark_line replace_all (mark_line replace_all line) ≡ mark_line replace_all line
  mark_line-again line = elim (Bool-cases (needs_input line)) [
    | inl e ↦ rw (e, replaced-needs_input line e) refl
    | inr e ↦ rw (e, e) refl
  ]

  get_lines-mark_lines :
      (lines : List Bytes)
      → all no_newline lines ≡ true
      → get_lines (mark_lines replace_all lines) ≡ map (mark_line replace_all) lines
  unfolding get_lines
  get_lines-mark_lines [] h = refl
  get_lines-mark_lines (line ∷ lines) h =
      get_lines-line (mark_line replace_all line) (mark_lines replace_all lines)
        (mark_line-no_newline line (ground (arith, h)))
      ∙ ap (λ rest. mark_line replace_all line ∷ rest)
          (get_lines-mark_lines lines (ground (arith, h)))

  mark_lines-again :
      (lines : List Bytes)
      → mark_lines replace_all (map (mark_line replace_all) lines) ≡ mark_lines replace_all lines
  mark_lines-again [] = refl
  mark_lines-again (line ∷ lines) = rw (mark_line-again line, mark_lines-again lines) refl

-- If replaceAll puts no line break into a line and replaces an arrow at its start: a Gemini page
-- that is served through Spartan has the lines that it had, in their order, each with
-- its arrow replaced if it is a link that needs an input, and with a line break behind each; and a
-- page that has been through it once is not changed again.
pub handle_body-lines :
    (replace_all : Bytes → Bytes → Bytes → Bytes) (body : Bytes)
    → IsReplaceAll replace_all
    → (get_lines (handle_body replace_all (codes "spartan") (codes "text/gemini") body)
        ≡ map (mark_line replace_all) (get_lines body))
      × (handle_body replace_all
            (codes "spartan")
            (codes "text/gemini")
            (handle_body replace_all (codes "spartan") (codes "text/gemini") body)
          ≡ handle_body replace_all (codes "spartan") (codes "text/gemini") body)
unfolding handle_body bytes_eq
handle_body-lines replace_all body law =
    let lines = get_lines-mark_lines replace_all law (get_lines body) (get_lines-no_newline body) in
    (lines, ap (mark_lines replace_all) lines ∙ mark_lines-again replace_all law (get_lines body))
