-- ===== src/Http/Utils/RoundTrip.antt =====
-- `UrlDecode` undoes `UrlEncode`.
use http_nest.Prelude.{
  ℕ, zero, suc, ◌+◌, ◌*◌, ◌/◌, ◌%◌, ◌<◌, ◌≡◌, ◌≢◌, refl, ap, ◌∙◌, Bool, true, not, [], ◌∷◌, ◌++◌,
  inl, inr, arith, ◌==◌, ◌&&◌, ◌||◌, Bool-cases, ==_iff, ==_ne, Bytes, AreBytes,
}
use http_nest.Http.Utils.Url.{
  is_plain, hex_digit, char_to_hex, encode_char, url_encode, is_xdigit, hex_value, decode_char,
  url_decode,
}

-- A check of every value below a bound, by evaluation.
unfoldable pub all_below : ℕ → (ℕ → Bool) → Bool
all_below zero p = true
all_below (suc n) p = p n && all_below n p

pub all_below_sound : (n : ℕ) (p : ℕ → Bool) (x : ℕ) → all_below n p ≡ true → x < n → p x ≡ true
unfolding all_below
all_below_sound zero p x h l = absurd (omega arith)
all_below_sound (suc n) p x h l = ground (arith, all_below_sound n p x)

-- What the two hexadecimal digits of a byte satisfy.
hex_back : ℕ → Bool
hex_back c =
    is_xdigit (hex_digit (c / 16 % 16))
    && is_xdigit (hex_digit (c % 16))
    && (hex_value (hex_digit (c / 16 % 16)) * 16 + hex_value (hex_digit (c % 16))) % 256 == c

hex_back_table : all_below 256 hex_back ≡ true
unfolding all_below hex_back is_xdigit hex_digit hex_value
hex_back_table = refl

-- A plain character is neither '%' nor '+'.
plain_table : all_below 256 (λ c. not (is_plain c) || not (c == b'%') && not (c == b'+')) ≡ true
unfolding all_below is_plain
plain_table = refl

pub url_decode-cons :
    (c : ℕ) (url : Bytes) → c ≢ b'%' → url_decode (c ∷ url) ≡ decode_char c ∷ url_decode url
unfolding url_decode
url_decode-cons c [] h = refl
url_decode-cons c (x ∷ []) h = refl
url_decode-cons c (x1 ∷ x2 ∷ url) h = rw (==_ne c b'%' h, url_decode)

url_decode-escape :
    (x1 x2 : ℕ) (url : Bytes)
    → is_xdigit x1 ≡ true
    → is_xdigit x2 ≡ true
    → url_decode (b'%' ∷ x1 ∷ x2 ∷ url)
      ≡ ((hex_value x1 * 16 + hex_value x2) % 256) ∷ url_decode url
unfolding url_decode
url_decode-escape x1 x2 url h1 h2 = rw (h1, h2, url_decode)

url_decode-hex :
    (c : ℕ) (url : Bytes)
    → c < 256
    → url_decode (b'%' ∷ (char_to_hex c ++ url)) ≡ c ∷ url_decode url
unfolding char_to_hex hex_back
url_decode-hex c url h =
    let t = all_below_sound 256 hex_back c hex_back_table h in
    let x1 = hex_digit (c / 16 % 16) in
    let x2 = hex_digit (c % 16) in
    let (p, q, e) =
      parts (is_xdigit x1) (is_xdigit x2) ((hex_value x1 * 16 + hex_value x2) % 256) c t in
    url_decode-escape x1 x2 url p q ∙ ap (λ (v : ℕ). v ∷ url_decode url) e
  where
    parts : (a b : Bool) (v w : ℕ) → (a && b && v == w) ≡ true → (a ≡ true) × (b ≡ true) × (v ≡ w)
    parts a b v w t = ground arith

-- A character that is sent as it is.
url_decode-plain :
    (c : ℕ) (url : Bytes) → c < 256 → is_plain c ≡ true → url_decode (c ∷ url) ≡ c ∷ url_decode url
unfolding decode_char
url_decode-plain c url h p =
    let t =
      all_below_sound 256 (λ c. not (is_plain c) || not (c == b'%') && not (c == b'+')) c
        plain_table h in
    let (n, m) = parts (is_plain c) c t p in url_decode-cons c url n ∙ rw (==_ne c b'+' m)
  where
    parts :
        (a : Bool) (c : ℕ)
        → (not a || not (c == b'%') && not (c == b'+')) ≡ true
        → a ≡ true
        → (c ≢ b'%') × (c ≢ b'+')
    parts a c t p = (ground arith, ground arith)

url_decode-blank : (url : Bytes) → url_decode (b'+' ∷ url) ≡ b' ' ∷ url_decode url
unfolding decode_char
url_decode-blank url = url_decode-cons b'+' url (omega arith)

url_decode-encode_char :
    (c : ℕ) (url : Bytes) → c < 256 → url_decode (encode_char c ++ url) ≡ c ∷ url_decode url
unfolding encode_char
url_decode-encode_char c url h = elim (Bool-cases (c == b' ')) [
  | inl blank ↦ rw (blank, (==_iff c b' ').0 blank) (url_decode-blank url)
  | inr other ↦ rw other (elim (Bool-cases (is_plain c)) [
    | inl plain ↦ rw plain (url_decode-plain c url h plain)
    | inr escape ↦ rw escape (url_decode-hex c url h)
  ])
]

-- `UrlDecode` of the `UrlEncode` of a byte string is the byte string.
pub url_decode-url_encode : (s : Bytes) → AreBytes s → url_decode (url_encode s) ≡ s
unfolding url_encode
url_decode-url_encode [] h = unfold url_decode in refl
url_decode-url_encode (c ∷ s) h =
    url_decode-encode_char c (url_encode s) h.0 ∙ ap (◌∷◌ c) (url_decode-url_encode s h.1)
