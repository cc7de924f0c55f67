-- ===== src/Target/Decode.antt =====
-- Percent-encoding, as a reference for `UrlDecode`: decoding undoes it.
use websockets.Prelude.{
  ℕ, ◌+◌, ◌*◌, ◌/◌, ◌%◌, ◌<◌, ◌≡◌, refl, ap, ◌∙◌, ◌≢◌, Bool, true, false, ◌&&◌, ◌||◌, [], ◌∷◌, ◌++◌,
  ◌==◌, leb, ltb, if◌then◌else◌, arith, ◌⊎◌, inl, inr, All, All-append, append_assoc,
}
use websockets.Text.{Text}
use websockets.Target.{url_decode, is_xdigit, hex_value, plus_to_space}

-- The digit of a value below 16, in capitals.
abbrev pub hex_digit : ℕ → ℕ
hex_digit d = if ltb d 10 then d + 48 else d + 55

-- A reference encoder: letters, digits and `-._~` stay, a space becomes '+', any other byte `%XX`.
abbrev pub is_unreserved : ℕ → Bool
is_unreserved c =
    (leb b'0' c && leb c b'9')
    || ((leb b'A' c && leb c b'Z')
        || ((leb b'a' c && leb c b'z') || (c == b'-' || (c == b'.' || (c == b'_' || c == b'~')))))

encode_byte : ℕ → Text
encode_byte c =
    if is_unreserved c
    then c ∷ []
    else if c == b' '
    then b'+' ∷ []
    else b'%' ∷ hex_digit (c / 16) ∷ hex_digit (c % 16) ∷ []

pub url_encode : Text → Text
url_encode [] = []
url_encode (c ∷ s) = encode_byte c ++ url_encode s

abbrev pub IsByte : ℕ → Type 0
IsByte c = c < 256

hex_digit_lem : (d : ℕ) → d < 16 → (is_xdigit (hex_digit d) ≡ true) × (hex_value (hex_digit d) ≡ d)
unfolding is_xdigit hex_value
hex_digit_lem d h = ground arith

url_decode_plain :
    (c : ℕ) (s : Text) → c ≢ b'%' → url_decode (c ∷ s) ≡ plus_to_space c ∷ url_decode s
unfolding url_decode
url_decode_plain c [] h = refl
url_decode_plain c (a ∷ []) h = refl
url_decode_plain c (a ∷ b ∷ rest) h = ground arith

url_decode_escape :
    (a b : ℕ) (s : Text)
    → is_xdigit a ≡ true
    → is_xdigit b ≡ true
    → url_decode (b'%' ∷ a ∷ b ∷ s) ≡ (16 * hex_value a + hex_value b) ∷ url_decode s
unfolding url_decode
url_decode_escape a b s ha hb = ground arith

encode_byte_cases :
    (c : ℕ)
    → ((c ≢ b'%') × ((c ≢ b'+') × (encode_byte c ≡ c ∷ [])))
      ⊎ (((c ≡ b' ') × (encode_byte c ≡ b'+' ∷ []))
          ⊎ (encode_byte c ≡ b'%' ∷ hex_digit (c / 16) ∷ hex_digit (c % 16) ∷ []))
unfolding encode_byte
encode_byte_cases c = ground arith

-- An encoded byte decodes to itself, whatever follows.
url_decode-encode_byte :
    (c : ℕ) (s : Text) → IsByte c → url_decode (encode_byte c ++ s) ≡ c ∷ url_decode s
url_decode-encode_byte c s h = elim (encode_byte_cases c) [
  | inl (n, (m, e)) ↦ rw e (url_decode_plain c s n ∙ ap (λ d. d ∷ url_decode s) (ground arith))
  | inr (inl (e', e)) ↦ rw e (url_decode_plain b'+' s (omega arith) ∙ rw e')
  | inr (inr e) ↦
      let hi = hex_digit_lem (c / 16) (omega arith) in
      let lo = hex_digit_lem (c % 16) (omega arith) in
      let value : 16 * hex_value (hex_digit (c / 16)) + hex_value (hex_digit (c % 16)) ≡ c =
        rw (hi.1, lo.1) (omega arith) in
      rw e (url_decode_escape _ _ s hi.0 lo.0 ∙ ap (λ d. d ∷ url_decode s) value)
]

pub url_decode-encode_append :
    (t s : Text) → All IsByte t → url_decode (url_encode t ++ s) ≡ t ++ url_decode s
unfolding url_encode
url_decode-encode_append [] s h = refl
url_decode-encode_append (c ∷ t) s h = rw (
  append_assoc (encode_byte c) (url_encode t) s,
  url_decode-encode_byte c (url_encode t ++ s) h.0,
  url_decode-encode_append t s h.1,
)

encode_byte_avoids :
    (d c : ℕ)
    → is_unreserved d ≡ false
    → d ≢ b'+'
    → d ≢ b'%'
    → IsByte c
    → All (λ x. x ≢ d) (encode_byte c)
unfolding encode_byte
encode_byte_avoids d c u p q h = ground arith

-- Encoded text holds none of the reserved bytes but '+' and '%'.
pub url_encode-Avoids :
    (d : ℕ) (t : Text)
    → is_unreserved d ≡ false
    → d ≢ b'+'
    → d ≢ b'%'
    → All IsByte t
    → All (λ x. x ≢ d) (url_encode t)
unfolding url_encode
url_encode-Avoids d [] u p q h = tt
url_encode-Avoids d (c ∷ t) u p q h =
    All-append (λ x. x ≢ d) (encode_byte c) (url_encode t) (encode_byte_avoids d c u p q h.0)
      (url_encode-Avoids d t u p q h.1)
