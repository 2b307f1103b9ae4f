-- ===== src/Utils/Action.antt =====
-- `isNonUriAction` of tlgsutils/utils.cpp.
use tlgs.Common.{
  ℕ, ◌≡◌, refl, sym, ap, ◌∙◌, ◌↔◌, Bool, true, false, not, arith, [], ◌∷◌, ◌++◌, Bytes, codes, all,
  all_of_imp, isalpha, is_empty, contains, before, from, before-stop, from-stop, before-append-from,
  Bool-cases, inl, inr,
}
use tlgs.Utils.{is_colon, is_non_uri_action}

from-head :
    (p : ℕ → Bool) (s : Bytes)
    → is_empty (from p s) ≡ false
    → (c : ℕ) × (r : Bytes) × (from p s ≡ c ∷ r) × (p c ≡ true)
unfolding from
from-head p [] h = absurd (cc)
from-head p (c ∷ s) h = elim (Bool-cases (p c)) [
  | inl e ↦ (c, s, rw e, e)
  | inr e ↦ rw e (from-head p s (rw e at h))
]

-- A scheme of letters, a ':' and the rest, with no "://" anywhere.
pub record IsAction (s : Bytes) : Type 0 where
  pub scheme : Bytes
  pub rest : Bytes
  pub splits : s ≡ scheme ++ b':' ∷ rest
  pub letters : all isalpha scheme ≡ true
  pub no_authority : contains s (codes "://") ≡ false

-- A text that is found to be an action is one.
is_non_uri_action-IsAction : (s : Bytes) → is_non_uri_action s ≡ true → IsAction s
unfolding is_non_uri_action
is_non_uri_action-IsAction s h =
    let found : is_empty (from is_colon s) ≡ false = ground arith in
    let (c, r, e, k) = from-head is_colon s found in
    record {
      scheme = before is_colon s;
      rest = r;
      splits = sym (before-append-from is_colon s) ∙ ground arith;
      letters = ground arith;
      no_authority = ground arith;
    }

IsAction-is_non_uri_action : (s : Bytes) → IsAction s → is_non_uri_action s ≡ true
unfolding is_non_uri_action
IsAction-is_non_uri_action s a =
    let letters =
      all_of_imp isalpha (λ c. not (is_colon c)) (λ c e. ground arith) a.scheme a.letters in
    let front : before is_colon s ≡ a.scheme =
      ap (before is_colon) a.splits ∙ before-stop is_colon a.scheme b':' a.rest letters refl in
    let behind : from is_colon s ≡ b':' ∷ a.rest =
      ap (from is_colon) a.splits ∙ from-stop is_colon a.scheme b':' a.rest letters refl in
    ground (arith, a.letters, a.no_authority)

-- A link is skipped as a non-URI action just if it is letters, a ':' and any rest, with no "://".
pub is_non_uri_action_iff : (s : Bytes) → (is_non_uri_action s ≡ true) ↔ IsAction s
is_non_uri_action_iff s = (is_non_uri_action-IsAction s, IsAction-is_non_uri_action s)
