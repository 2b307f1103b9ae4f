-- ===== src/Robots/Wildcard.antt =====
-- tlgsutils/robots_txt_parser.cpp: `wildcardPathMatch` and `isPathBlocked`.
pub mod Regex
pub mod Laws
pub mod Stars
use tlgs.Common.{
  ℕ, zero, suc, ◌+◌, ◌-◌, Bool, true, false, not, ◌&&◌, ◌||◌, List, [], ◌∷◌, ◌++◌, ltb, ◌==◌,
  Option, none, some, if◌then◌else◌, Bytes, codes, any, is_empty, length, take, drop, init, last_or,
  bytes_eq, starts_with, ends_with, contains, before,
}
use Regex.{regex_path_match}

abbrev pub is_star : ℕ → Bool
is_star c = c == b'*'

-- std::count
abbrev pub count_stars : Bytes → ℕ
count_stars [] = 0
count_stars (c ∷ s) = (if is_star c then 1 else 0) + count_stars s

-- str[i], where 0 stands for the end
abbrev pub char_at : Bytes → ℕ → ℕ
char_at [] i = 0
char_at (c ∷ s) zero = c
char_at (c ∷ s) (suc i) = char_at s i

-- rfind, where `none` is npos
unfoldable pub rfind : Bytes → Bytes → Option ℕ
rfind [] p = if is_empty p then some 0 else none
rfind (c ∷ s) p = elim (rfind s p) [
  | some i ↦ some (suc i)
  | none ↦ if starts_with (c ∷ s) p then some 0 else none
]

-- n < i, where `none` is npos, the largest size_t
abbrev pub lt_index : ℕ → Option ℕ → Bool
lt_index n none = true
lt_index n (some i) = ltb n i

-- with no star
unfoldable pub plain_path_match : Bytes → Bytes → Bool
plain_path_match pattern str =
    bytes_eq str pattern
    || bytes_eq str (pattern ++ codes "/")
    || (ltb (length pattern + 1) (length str)
        && starts_with str pattern
        && (char_at str (length pattern) == b'/' || last_or pattern 0 == b'/'))

-- The fast cases from "*/foo/bar/*" on, then the regular expression. `pattern` is not empty.
unfoldable pub star_path_match : Bytes → ℕ → Bytes → Bool
star_path_match pattern star_count str =
    let rooted = starts_with pattern (codes "/*") in
    let first = starts_with pattern (codes "*") in
    let final = last_or pattern 0 == b'*' in
    let n = length (before is_star pattern) in
    if first && final && star_count == 2
    then contains str (take (length pattern - 2) (drop 1 pattern))
    else if rooted && final && star_count == 2
    then contains str (take (length pattern - 3) (drop 2 pattern))
    else if first && star_count == 1
    then ends_with str (drop 1 pattern)
    else if rooted && star_count == 1
    then ends_with str (drop 2 pattern)
    else if final && star_count == 1
    then starts_with str (take (length pattern - 1) pattern)
    else if ltb n (length pattern) && star_count == 1
    then starts_with str (take n pattern) && lt_index n (rfind str (drop (n + 1) pattern))
    else regex_path_match pattern str

-- A final '$' is dropped where the pattern starts with "*" or "/*".
abbrev pub without_dollar : Bytes → Bytes
without_dollar pattern =
    if last_or pattern 0 == b'$'
      && (starts_with pattern (codes "*") || starts_with pattern (codes "/*"))
    then init pattern
    else pattern

unfoldable pub wildcard_path_match : Bytes → Bytes → Bool
wildcard_path_match pattern str =
    if is_empty pattern
    then false
    else if count_stars pattern == 0
    then plain_path_match pattern str
    else star_path_match (without_dollar pattern) (count_stars pattern) str

-- `isPathBlocked` with many patterns
unfoldable pub is_path_blocked : Bytes → List Bytes → Bool
is_path_blocked path [] = false
is_path_blocked path (disallowed ∷ rest) =
    wildcard_path_match disallowed path || is_path_blocked path rest
