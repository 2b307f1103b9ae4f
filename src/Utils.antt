-- ===== src/Utils.antt =====
-- tlgsutils/utils.cpp and tlgsutils/utils.hpp. drogon's `replaceAll` is an argument of what calls
-- it; xxHash64 is a library's.
pub mod Encode
pub mod AsciiArt
pub mod Action
pub mod Number
pub mod Escape
pub mod LinkCompose
use Prim.Native.Nat.{ℕ, ◌+◌, ◌-◌, ◌*◌, ◌/◌, ◌%◌, ◌^◌}
use tlgs.Common.{
  ◌≡◌, refl, Bool, true, false, not, ◌&&◌, ◌||◌, List, [], ◌∷◌, ◌++◌, ltb, leb, ◌==◌, Option, none,
  some, if◌then◌else◌, Bytes, codes, is_empty, all, any, isalnum, isalpha, is_blank, contains,
  before, from, tail, last_or,
}
use tlgs.Common.Decimal.{ℤ, scan_number}
use tlgs.FilePath.{append_path, parent_path}
use tlgs.Url.{Url, str, with_path, with_param, with_fragment}
use tlgs.Url.Parse.{parse}

-- The loop of `isAsciiArt`, from the length of the run so far and its character.
unfoldable pub has_long_run : ℕ → ℕ → Bytes → Bool
has_long_run count last_ch [] = false
has_long_run count last_ch (ch ∷ s) =
    let count' = if ch == last_ch then count + 1 else 1 in
    let rest = has_long_run count' ch s in if leb 4 count' && not (is_blank ch) then true else rest

-- The UTF-8 forms of the nine characters, and the two patterns.
abbrev pub art_marks : List Bytes
art_marks =
    (0xE2 ∷ 0x98 ∷ 0x86 ∷ [])
    ∷ (0xE2 ∷ 0x98 ∷ 0x85 ∷ [])
    ∷ (0xE2 ∷ 0x96 ∷ 0x91 ∷ [])
    ∷ (0xE2 ∷ 0x96 ∷ 0x88 ∷ [])
    ∷ (0xE2 ∷ 0xA3 ∷ 0xBF ∷ [])
    ∷ (0xE2 ∷ 0xA1 ∷ 0x87 ∷ [])
    ∷ (0xE2 ∷ 0xA2 ∷ 0x80 ∷ [])
    ∷ (0xE2 ∷ 0x94 ∷ 0xBC ∷ [])
    ∷ (0xE2 ∷ 0x95 ∷ 0xAD ∷ [])
    ∷ codes "(_-<"
    ∷ codes "_ _ _ _"
    ∷ []

unfoldable pub is_ascii_art : Bytes → Bool
unfolding has_long_run contains
is_ascii_art s = if has_long_run 0 0 s then true else any (contains s) art_marks

-- `charToHex`; a byte's two halves
abbrev pub hex_digit : ℕ → ℕ
hex_digit d = if ltb 9 d then d + (b'A' - 10) else d + b'0'

unfoldable pub char_to_hex : ℕ → Bytes
char_to_hex c = hex_digit (c / 16 % 16) ∷ hex_digit (c % 16) ∷ []

abbrev pub is_symbol : ℕ → Bool
is_symbol c = c == b'-' || c == b'_' || c == b'.' || c == b'~'

unfoldable pub encode_char : ℕ → Bytes
unfolding char_to_hex
encode_char ch =
    if ch == b' '
    then b'+' ∷ []
    else if isalnum ch || is_symbol ch
    then ch ∷ []
    else b'%' ∷ char_to_hex ch

unfoldable pub url_encode : Bytes → Bytes
unfolding encode_char
url_encode [] = []
url_encode (ch ∷ s) = encode_char ch ++ url_encode s

abbrev pub is_colon : ℕ → Bool
is_colon c = c == b':'

-- With no ':' the loop of `isNonUriAction` meets a character that is no letter, at the latest the
-- terminating NUL.
unfoldable pub is_non_uri_action : Bytes → Bool
is_non_uri_action s =
    if contains s (codes "://")
    then false
    else if is_empty (from is_colon s)
    then false
    else all isalpha (before is_colon s)

abbrev pub ull_max : ℕ
ull_max = 18_446_744_073_709_551_615

abbrev pub is_nul : ℕ → Bool
is_nul c = c == 0

-- strtoull's value: out of range it is ULLONG_MAX, and a minus sign negates modulo 2^64.
abbrev pub ull_of : Bool → ℕ → ℕ
ull_of neg n =
    if ltb ull_max n then ull_max else if neg then (ull_max + 1 - n) % (ull_max + 1) else n

-- The C string ends at the first NUL.
unfoldable pub try_strtoull : Bytes → Option ℕ
try_strtoull s = elim (scan_number (before is_nul s)) [
  | none ↦ none
  | some (neg, n, rest) ↦ if is_empty rest then some (ull_of neg n) else none
]

-- `replace_all str from to` is drogon::utils::replaceAll.
module _ (replace_all : Bytes → Bytes → Bytes → Bytes) where
  -- also the static function of the same name in tlgs/crawler/crawler.cpp
  unfoldable pub pg_sql_real_escape : Bytes → Bytes
  pg_sql_real_escape s =
      let s₁ = replace_all s (codes "\\") (codes "\\\\") in
      let s₂ = replace_all s₁ (0 ∷ []) (codes "\\0") in
      let s₃ = replace_all s₂ (codes "\n") (codes "\\n") in
      let s₄ = replace_all s₃ (codes "\r") (codes "\\r") in
      let s₅ = replace_all s₄ (codes "'") (codes "''") in
      let s₆ = replace_all s₅ (codes "\"") (codes "\\\"") in
      replace_all s₆ (0x1a ∷ []) (codes "\\Z")

  unfoldable pub index_friendly : Url → Bytes
  index_friendly url =
      let s₁ = replace_all (str url).0 (codes "_") (codes " ") in
      let s₂ = replace_all s₁ (codes "-") (codes " ") in replace_all s₂ (codes "~") (codes " ")

-- the parts of `dummy` that `linkCompose` takes over
abbrev take_query : Url → Url → Url
take_query dummy u = with_fragment (with_param u dummy.param) dummy.fragment

-- `none` is the failed assertion on an empty path. `junk` is what an unset `default_port_` holds.
unfoldable pub link_compose : ℤ → Url → Bytes → Option Url
link_compose junk url [] = none
link_compose junk url (c ∷ path) =
    if c == b'/'
    then (let dummy = parse junk true (codes "gemini://localhost" ++ c ∷ path) in
        some (take_query dummy (with_path url dummy.path true)))
    else (let dummy = parse junk false (codes "gemini://localhost/" ++ c ∷ path) in
        let link_path = tail dummy.path in
        let base = if last_or url.path 0 == b'/' then url.path else parent_path url.path in
        some (take_query dummy (with_path url (append_path base link_path) true)))

-- `tlgs::filter` of tlgsutils/utils.hpp; `tlgs::map` is the library's `map`.
unfoldable pub filter {ℓ} : {A : Type ℓ} → (A → Bool) → List A → List A
filter f [] = []
filter f (x ∷ xs) = let rest = filter f xs in if f x then x ∷ rest else rest
