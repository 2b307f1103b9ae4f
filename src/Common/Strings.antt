-- ===== src/Common/Strings.antt =====
-- The operations of std::string and std::string_view that the program uses, on lists of bytes.
-- An index that is `npos` in the source is an empty rest or `none` here.
use Prim.Native.Char.{code}
use Prim.Native.Nat.{ℕ, ◌+◌}
use Prim.Native.String.{String}
use mathlib.Core.Path.{◌≡◌, refl, ap, sym, ◌∙◌}
use mathlib.Core.Logic.{◌↔◌, inl, inr}
use mathlib.Core.Bool.{Bool, true, false, not, ◌&&◌, ◌||◌}
use mathlib.Core.List.{List, [], ◌∷◌, ◌++◌, append-nil}
use mathlib.Core.Option.{Option, none, some}
use native.Mathlib.Omega.{arith}
use tlgs.Common.Lists.{all}
use tlgs.Common.Tests.{ltb, leb, ◌==◌, if◌then◌else◌, Bool-cases}

abbrev pub Bytes : Type 0
Bytes = List ℕ

-- The bytes of an ASCII text.
abbrev pub codes : String → Bytes
codes String.[] = []
codes (String.◌∷◌ c s) = code c ∷ codes s

abbrev pub within : ℕ → ℕ → ℕ → Bool
within lo hi c = leb lo c && leb c hi

abbrev pub isdigit : ℕ → Bool
isdigit c = within b'0' b'9' c

abbrev pub isupper : ℕ → Bool
isupper c = within b'A' b'Z' c

abbrev pub isalpha : ℕ → Bool
isalpha c = within b'A' b'Z' c || within b'a' b'z' c

-- A byte from 0x80 on is a negative char, and no letter in the C locale.
abbrev pub isalnum : ℕ → Bool
isalnum c = isdigit c || isalpha c

abbrev pub isspace : ℕ → Bool
isspace c = c == b' ' || within 9 13 c

abbrev pub is_blank : ℕ → Bool
is_blank c = c == b' ' || c == b'\t'

abbrev pub tolower : ℕ → ℕ
tolower c = if isupper c then c + 32 else c

unfoldable pub lower : Bytes → Bytes
lower [] = []
lower (c ∷ s) = tolower c ∷ lower s

-- operator==
unfoldable pub bytes_eq : Bytes → Bytes → Bool
bytes_eq [] [] = true
bytes_eq (x ∷ s) (y ∷ t) = x == y && bytes_eq s t
bytes_eq _ _ = false

-- operator<, by unsigned bytes
unfoldable pub bytes_lt : Bytes → Bytes → Bool
bytes_lt [] [] = false
bytes_lt [] (y ∷ t) = true
bytes_lt (x ∷ s) [] = false
bytes_lt (x ∷ s) (y ∷ t) = ltb x y || (x == y && bytes_lt s t)

unfoldable pub starts_with : Bytes → Bytes → Bool
starts_with s [] = true
starts_with [] (y ∷ p) = false
starts_with (x ∷ s) (y ∷ p) = x == y && starts_with s p

unfoldable pub ends_with : Bytes → Bytes → Bool
unfolding bytes_eq
ends_with [] p = bytes_eq [] p
ends_with (x ∷ s) p = bytes_eq (x ∷ s) p || ends_with s p

-- find(p) != npos
unfoldable pub contains : Bytes → Bytes → Bool
unfolding starts_with
contains [] p = starts_with [] p
contains (x ∷ s) p = starts_with (x ∷ s) p || contains s p

-- substr(0, i) and substr(i), where i is the place of the first byte with `p`, or npos.
unfoldable pub before : (ℕ → Bool) → Bytes → Bytes
before p [] = []
before p (x ∷ s) = if p x then [] else x ∷ before p s

unfoldable pub from : (ℕ → Bool) → Bytes → Bytes
from p [] = []
from p (x ∷ s) = if p x then x ∷ s else from p s

-- What stands before and behind the first "//".
unfoldable pub split_slashes : Bytes → Option (Bytes × Bytes)
split_slashes [] = none
split_slashes (x ∷ []) = none
split_slashes (x ∷ y ∷ s) =
    let rest = split_slashes (y ∷ s) in
    if x == b'/' && y == b'/'
    then some ([], s)
    else elim rest [ none ↦ none | some (a, b) ↦ some (x ∷ a, b) ]

pub bytes_eq_refl : (s : Bytes) → bytes_eq s s ≡ true
unfolding bytes_eq
bytes_eq_refl [] = refl
bytes_eq_refl (x ∷ s) = ground (arith, bytes_eq_refl s)

pub bytes_eq→≡ : (s t : Bytes) → bytes_eq s t ≡ true → s ≡ t
unfolding bytes_eq
bytes_eq→≡ [] [] h = refl
bytes_eq→≡ [] (y ∷ t) h = cc
bytes_eq→≡ (x ∷ s) [] h = cc
bytes_eq→≡ (x ∷ s) (y ∷ t) h = ground (arith, bytes_eq→≡ s t)

pub bytes_eq_iff : (s t : Bytes) → (bytes_eq s t ≡ true) ↔ (s ≡ t)
bytes_eq_iff s t = (bytes_eq→≡ s t, λ e. rw e (bytes_eq_refl t))

pub all-before : (p : ℕ → Bool) (s : Bytes) → all (λ c. not (p c)) (before p s) ≡ true
unfolding before
all-before p [] = refl
all-before p (x ∷ s) = elim (Bool-cases (p x)) [
  | inl e ↦ rw e
  | inr e ↦ ground (arith, all-before p s)
]

pub before-append-from : (p : ℕ → Bool) (s : Bytes) → before p s ++ from p s ≡ s
unfolding before from
before-append-from p [] = refl
before-append-from p (x ∷ s) = ground (arith, before-append-from p s)

-- A stretch with no byte of `p` is passed over.
pub before-append :
    (p : ℕ → Bool) (s t : Bytes)
    → all (λ c. not (p c)) s ≡ true
    → before p (s ++ t) ≡ s ++ before p t
unfolding before
before-append p [] t h = refl
before-append p (x ∷ s) t h = ground (arith, before-append p s t)

pub from-append :
    (p : ℕ → Bool) (s t : Bytes) → all (λ c. not (p c)) s ≡ true → from p (s ++ t) ≡ from p t
unfolding from
from-append p [] t h = refl
from-append p (x ∷ s) t h = ground (arith, from-append p s t)

pub before-all : (p : ℕ → Bool) (s : Bytes) → all (λ c. not (p c)) s ≡ true → before p s ≡ s
before-all p s h =
    ap (before p) (sym (append-nil s)) ∙ before-append p s [] h ∙ unfold before in append-nil s

pub from-all : (p : ℕ → Bool) (s : Bytes) → all (λ c. not (p c)) s ≡ true → from p s ≡ []
from-all p s h = ap (from p) (sym (append-nil s)) ∙ from-append p s [] h ∙ unfold from in refl

module _ (p : ℕ → Bool) (s : Bytes) (c : ℕ) (t : Bytes) where
  pub before-stop : all (λ x. not (p x)) s ≡ true → p c ≡ true → before p (s ++ c ∷ t) ≡ s
  unfolding before
  before-stop h k = before-append p s (c ∷ t) h ∙ rw k (append-nil s)

  pub from-stop : all (λ x. not (p x)) s ≡ true → p c ≡ true → from p (s ++ c ∷ t) ≡ c ∷ t
  unfolding from
  from-stop h k = from-append p s (c ∷ t) h ∙ rw k

pub starts_with-append : (p r : Bytes) → starts_with (p ++ r) p ≡ true
unfolding starts_with
starts_with-append [] [] = refl
starts_with-append [] (c ∷ r) = refl
starts_with-append (c ∷ p) r = ground (arith, starts_with-append p r)

pub starts_with-split : (s p : Bytes) → starts_with s p ≡ true → (r : Bytes) × (s ≡ p ++ r)
unfolding starts_with
starts_with-split [] [] h = ([], refl)
starts_with-split (c ∷ s) [] h = (c ∷ s, refl)
starts_with-split [] (y ∷ p) h = absurd (cc)
starts_with-split (c ∷ s) (y ∷ p) h =
    let (r, e) = starts_with-split s p (ground arith) in (r, ground arith)
