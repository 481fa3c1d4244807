-- ===== src/Http/Utils/Url.antt =====
-- The URL coding of HttpUtils: CharToHex, UrlEncode, NeedUrlDecoding and UrlDecode.
use http_nest.Prelude.{
  ℕ, ◌+◌, ◌-◌, ◌*◌, ◌/◌, ◌%◌, Bool, true, false, [], ◌∷◌, ◌++◌, leb, ltb, ◌==◌, ◌&&◌, ◌||◌,
  if◌then◌else◌, Bytes, codes,
}
use http_nest.Strings.Find.{one_of}

unfoldable pub hex_digit : ℕ → ℕ
hex_digit n = if ltb 9 n then n + b'A' - 10 else n + b'0'

unfoldable pub char_to_hex : ℕ → Bytes
unfolding hex_digit
char_to_hex c = hex_digit (c / 16 % 16) ∷ hex_digit (c % 16) ∷ []

-- The characters that the switch of `UrlEncode` lists after the blank.
unfoldable pub is_plain : ℕ → Bool
unfolding one_of
is_plain c =
    leb b'A' c && leb c b'Z'
    || leb b'a' c && leb c b'z'
    || leb b'0' c && leb c b'9'
    || one_of (codes "-_.!~*'()&=/\\?") c

unfoldable pub encode_char : ℕ → Bytes
encode_char c = if c == b' ' then b'+' ∷ [] else if is_plain c then c ∷ [] else b'%' ∷ char_to_hex c

unfoldable pub url_encode : Bytes → Bytes
url_encode [] = []
url_encode (c ∷ src) = encode_char c ++ url_encode src

unfoldable pub need_url_decoding : Bytes → Bool
need_url_decoding [] = false
need_url_decoding (c ∷ url) = (c == b'+' || c == b'%') || need_url_decoding url

-- `isxdigit`.
unfoldable pub is_xdigit : ℕ → Bool
is_xdigit c = leb b'0' c && leb c b'9' || leb b'a' c && leb c b'f' || leb b'A' c && leb c b'F'

unfoldable pub hex_value : ℕ → ℕ
hex_value x =
    if leb b'0' x && leb x b'9'
    then x - b'0'
    else if leb b'a' x && leb x b'f'
    then x - b'a' + 10
    else if leb b'A' x && leb x b'F'
    then x - b'A' + 10
    else x

-- A character that starts no escape.
unfoldable pub decode_char : ℕ → ℕ
decode_char c = if c == b'+' then b' ' else c

-- `char(hex)` keeps the low byte.
unfoldable pub url_decode : Bytes → Bytes
url_decode [] = []
url_decode (c ∷ []) = decode_char c ∷ []
url_decode (c ∷ x ∷ []) = decode_char c ∷ url_decode (x ∷ [])
url_decode (c ∷ x1 ∷ x2 ∷ url) = elim (c == b'%' && is_xdigit x1 && is_xdigit x2) [
  | true ↦ ((hex_value x1 * 16 + hex_value x2) % 256) ∷ url_decode url
  | false ↦ decode_char c ∷ url_decode (x1 ∷ x2 ∷ url)
]
