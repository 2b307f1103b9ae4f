-- ===== src/Utils/Escape.antt =====
-- `pgSQLRealEscape` of tlgsutils/utils.cpp (and of tlgs/crawler/crawler.cpp): seven replacements,
-- one after the other, against one pass.
use tlgs.Common.{
  ℕ, ◌≡◌, refl, sym, ap, ◌∙◌, false, [], ◌∷◌, ◌++◌, arith, ◌==◌, append_assoc, if◌then◌else◌, Bytes,
  codes, Bool-cases, inl, inr,
}
use tlgs.Utils.{pg_sql_real_escape}

-- Each byte `c` becomes the text `t`.
unfoldable pub replace_byte : ℕ → Bytes → Bytes → Bytes
replace_byte c t [] = []
replace_byte c t (x ∷ s) = if x == c then t ++ replace_byte c t s else x ∷ replace_byte c t s

-- What drogon documents of `replaceAll`, for a text of one byte that is looked for: every
-- occurrence is replaced.
abbrev pub Replaces : (Bytes → Bytes → Bytes → Bytes) → Type 0
Replaces replace_all =
    (s : Bytes) (c : ℕ) (t : Bytes) → replace_all s (c ∷ []) t ≡ replace_byte c t s

-- What one byte becomes in the end.
unfoldable pub escape_byte : ℕ → Bytes
escape_byte c =
    if c == b'\\'
    then codes "\\\\"
    else if c == 0
    then codes "\\0"
    else if c == b'\n'
    then codes "\\n"
    else if c == b'\r'
    then codes "\\r"
    else if c == b'\''
    then codes "''"
    else if c == b'"'
    then codes "\\\""
    else if c == 0x1a
    then codes "\\Z"
    else c ∷ []

unfoldable pub escape_each : Bytes → Bytes
escape_each [] = []
escape_each (c ∷ s) = escape_byte c ++ escape_each s

-- the seven replacements
passes : Bytes → Bytes
passes s = replace_byte 0x1a (codes "\\Z") (
    replace_byte b'"' (codes "\\\"") (
      replace_byte b'\'' (codes "''") (
        replace_byte b'\r' (codes "\\r") (
          replace_byte b'\n' (codes "\\n")
            (replace_byte 0 (codes "\\0") (replace_byte b'\\' (codes "\\\\") s))))))

replace_byte-append :
    (c : ℕ) (t a b : Bytes) → replace_byte c t (a ++ b) ≡ replace_byte c t a ++ replace_byte c t b
unfolding replace_byte
replace_byte-append c t [] b = refl
replace_byte-append c t (x ∷ a) b = elim (Bool-cases (x == c)) [
  | inl e ↦ rw (e, replace_byte-append c t a b) (sym (append_assoc t _ _))
  | inr e ↦ rw (e, replace_byte-append c t a b)
]

passes-append : (a b : Bytes) → passes (a ++ b) ≡ passes a ++ passes b
unfolding passes
passes-append a b = simp replace_byte-append

passes-byte : (c : ℕ) → passes (c ∷ []) ≡ escape_byte c
unfolding passes replace_byte escape_byte
passes-byte c = ground arith

passes-escape_each : (s : Bytes) → passes s ≡ escape_each s
unfolding escape_each
passes-escape_each [] = unfold passes replace_byte in refl
passes-escape_each (c ∷ s) = passes-append (c ∷ []) s ∙ rw (passes-byte c, passes-escape_each s)

-- If replaceAll replaces a single byte wherever it stands: the seven replacements together escape
-- each byte once, and none touches what another has put in.
pub pg_sql_real_escape_lem :
    (replace_all : Bytes → Bytes → Bytes → Bytes)
    → Replaces replace_all
    → (s : Bytes) → pg_sql_real_escape replace_all s ≡ escape_each s
unfolding pg_sql_real_escape replace_byte passes
pg_sql_real_escape_lem replace_all h s = simp h (passes-escape_each s)

unescape_letter : ℕ → ℕ
unescape_letter c =
    if c == b'0'
    then 0
    else if c == b'n'
    then b'\n'
    else if c == b'r'
    then b'\r'
    else if c == b'Z'
    then 0x1a
    else c

pub unescape : Bytes → Bytes
unescape [] = []
unescape (c ∷ []) = c ∷ []
unescape (c ∷ d ∷ s) =
    let after = unescape s in
    let next = c ∷ unescape (d ∷ s) in
    if c == b'\\' then unescape_letter d ∷ after else if c == b'\'' then b'\'' ∷ after else next

unescape-plain :
    (c : ℕ) (s : Bytes)
    → (c == b'\\') ≡ false
    → (c == b'\'') ≡ false
    → unescape (c ∷ s) ≡ c ∷ unescape s
unfolding unescape
unescape-plain c [] h k = refl
unescape-plain c (d ∷ s) h k = rw (h, k)

unescape-escape_byte : (c : ℕ) (s : Bytes) → unescape (escape_byte c ++ s) ≡ c ∷ unescape s
unfolding escape_byte unescape unescape_letter
unescape-escape_byte c s = ground (arith, unescape-plain c s)

unescape-escape_each : (s : Bytes) → unescape (escape_each s) ≡ s
unfolding escape_each
unescape-escape_each [] = unfold unescape in refl
unescape-escape_each (c ∷ s) =
    unescape-escape_byte c (escape_each s) ∙ ap (◌∷◌ c) (unescape-escape_each s)

-- Reading the escapes back gives the text: no two texts are escaped alike.
pub unescape-pg_sql_real_escape :
    (replace_all : Bytes → Bytes → Bytes → Bytes)
    → Replaces replace_all
    → (s : Bytes) → unescape (pg_sql_real_escape replace_all s) ≡ s
unescape-pg_sql_real_escape replace_all h s =
    ap unescape (pg_sql_real_escape_lem replace_all h s) ∙ unescape-escape_each s
