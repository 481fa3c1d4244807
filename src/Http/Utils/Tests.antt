-- ===== src/Http/Utils/Tests.antt =====
-- HttpUtils on concrete input, and the theorems on it.
use http_nest.Prelude.{◌≡◌, refl, arith, codes, bytes_eq}
use http_nest.Prelude.Int.{pos}
use http_nest.Strings.Find.{find_last_of}
use http_nest.Http.Types.{ContentType}
use http_nest.Http.Utils.Tables.{lookup_or, status_messages, status_texts}
use http_nest.Http.Utils.Url.{
  url_encode, url_decode, encode_char, char_to_hex, is_plain, decode_char, is_xdigit, hex_value,
}
use http_nest.Http.Utils.RoundTrip.{url_decode-url_encode}
use http_nest.Http.Utils.{
  parse_status_message, status_code_to_string, status_class, get_content_type, trim,
}

encode_test : url_encode (codes "/a b%+") ≡ codes "/a+b%25%2B"
unfolding url_encode encode_char char_to_hex is_plain
encode_test = refl

decode_test : url_decode (codes "/a+b%25%2b%2") ≡ codes "/a b%+%2"
unfolding url_decode is_xdigit hex_value decode_char
decode_test = refl

messages :
    (parse_status_message (pos 404) ≡ codes "Not Found")
    × (status_code_to_string (pos 418) ≡ codes "I'm a Teapot")
    × (status_code_to_string (pos 299) ≡ codes "Successful")
unfolding parse_status_message status_code_to_string lookup_or status_messages status_texts
    status_class
messages = (refl, refl, refl)

file_types :
    (get_content_type (codes "a/INDEX.HTML") ≡ ContentType.text_html)
    × (get_content_type (codes "live.ts") ≡ ContentType.video_mp2t)
    × (get_content_type (codes "README") ≡ ContentType.none)
unfolding get_content_type find_last_of bytes_eq
file_types = (refl, refl, refl)

trim_test : trim (codes " a b\t") ≡ codes "a b"
unfolding trim
trim_test = refl

url_decode-url_encode_example : url_decode (url_encode (codes "/a b%+")) ≡ codes "/a b%+"
url_decode-url_encode_example = url_decode-url_encode (codes "/a b%+") (omega arith)
