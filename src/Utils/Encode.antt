-- ===== src/Utils/Encode.antt =====
-- `urlEncode` of tlgsutils/utils.cpp against a decoder.
use tlgs.Common.{
  ℕ, ◌+◌, ◌-◌, ◌*◌, ◌/◌, ◌%◌, ◌<◌, ◌≡◌, refl, ap, ◌∙◌, Bool, true, false, ◌||◌, [], ◌∷◌, ◌++◌,
  arith, ltb, ◌==◌, if◌then◌else◌, Bytes, all, all-append, isalnum, Bool-cases, inl, inr,
}
use tlgs.Utils.{hex_digit, char_to_hex, is_symbol, encode_char, url_encode}

-- Decoding of application/x-www-form-urlencoded text.
abbrev pub hex_value : ℕ → ℕ
hex_value h = if ltb h b'A' then h - b'0' else h - (b'A' - 10)

abbrev plain : ℕ → ℕ
plain c = if c == b'+' then b' ' else c

pub url_decode : Bytes → Bytes
url_decode [] = []
url_decode (c ∷ []) = plain c ∷ []
url_decode (c ∷ h ∷ []) = plain c ∷ plain h ∷ []
url_decode (c ∷ h ∷ l ∷ s) =
    let escaped = (hex_value h * 16 + hex_value l) ∷ url_decode s in
    let next = plain c ∷ url_decode (h ∷ l ∷ s) in if c == b'%' then escaped else next

decode-plain :
    (c : ℕ) (t : Bytes) → (c == b'%') ≡ false → url_decode (c ∷ t) ≡ plain c ∷ url_decode t
unfolding url_decode
decode-plain c [] h = refl
decode-plain c (x ∷ []) h = refl
decode-plain c (x ∷ y ∷ t) h = rw h

decode-escaped :
    (h l : ℕ) (t : Bytes)
    → url_decode (b'%' ∷ h ∷ l ∷ t) ≡ (hex_value h * 16 + hex_value l) ∷ url_decode t
unfolding url_decode
decode-escaped h l t = refl

hex_value-hex_digit : (d : ℕ) → d < 16 → hex_value (hex_digit d) ≡ d
hex_value-hex_digit d h = ground arith

decode-encode_char :
    (c : ℕ) (t : Bytes) → c < 256 → url_decode (encode_char c ++ t) ≡ c ∷ url_decode t
unfolding encode_char char_to_hex
decode-encode_char c t h = elim (Bool-cases (c == b' ')) [
  | inl e ↦ rw e (decode-plain b'+' t refl ∙ ground arith)
  | inr e ↦ rw e (elim (Bool-cases (isalnum c || is_symbol c)) [
    | inl k ↦ rw k (decode-plain c t (ground arith) ∙ ground arith)
    | inr k ↦ rw k (
        decode-escaped (hex_digit (c / 16 % 16)) (hex_digit (c % 16)) t
        ∙ rw
            (
              hex_value-hex_digit (c / 16 % 16) (omega arith),
              hex_value-hex_digit (c % 16) (omega arith),
            )
            (ap (λ x. x ∷ url_decode t) (omega arith)))
  ])
]

-- Decoding an encoded text of bytes gives the text back.
pub url_decode-url_encode :
    (s : Bytes) → all (λ c. ltb c 256) s ≡ true → url_decode (url_encode s) ≡ s
unfolding url_encode
url_decode-url_encode [] h = unfold url_decode in refl
url_decode-url_encode (c ∷ s) h =
    decode-encode_char c (url_encode s) (ground arith)
    ∙ ap (◌∷◌ c) (url_decode-url_encode s (ground arith))

abbrev pub is_safe : ℕ → Bool
is_safe c = isalnum c || is_symbol c || c == b'+' || c == b'%'

encode_char-is_safe : (c : ℕ) → all is_safe (encode_char c) ≡ true
unfolding encode_char char_to_hex
encode_char-is_safe c = ground arith

-- An encoded text has only letters, digits, "-_.~", '+' and '%'.
pub url_encode-is_safe : (s : Bytes) → all is_safe (url_encode s) ≡ true
unfolding url_encode
url_encode-is_safe [] = refl
url_encode-is_safe (c ∷ s) = ground (
  arith,
  all-append is_safe (encode_char c) (url_encode s),
  encode_char-is_safe c,
  url_encode-is_safe s,
)
