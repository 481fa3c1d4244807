-- ===== src/Http/Utils.antt =====
-- HttpUtils: src/http/HttpUtils.h and HttpUtils.cpp.
pub mod Tables
pub mod Url
pub mod Status
pub mod Names
pub mod RoundTrip
mod Tests
use mathlib.Core.List.{reverse}
use http_nest.Prelude.{
  ℕ, zero, suc, ◌+◌, ◌-◌, ◌<◌, Bool, true, false, not, List, [], ◌∷◌, ◌++◌, Option, none, some, map,
  length, take, drop, leb, ltb, ◌==◌, ◌&&◌, ◌||◌, if◌then◌else◌, Bytes, bytes_eq, codes,
}
use http_nest.Prelude.Int.{ℤ, pos, negsuc}
use http_nest.Strings.Find.{find_last_of}
use http_nest.Http.Types.{HttpStatusCode, HttpMethod, ContentType}
use Tables.{lookup_or, status_codes, status_messages, status_texts}

unfoldable pub parse_status_code : ℤ → HttpStatusCode
parse_status_code (pos n) = lookup_or n status_codes HttpStatusCode.unknown
parse_status_code (negsuc n) = HttpStatusCode.unknown

unfoldable pub parse_status_message : ℤ → Bytes
parse_status_message (pos n) = lookup_or n status_messages (codes "unknown")
parse_status_message (negsuc n) = codes "unknown"

-- The `default` of the switch of `StatusCodeToString`.
unfoldable pub status_class : ℕ → Bytes
status_class code =
    if leb 100 code && ltb code 200
    then codes "Informational"
    else if leb 200 code && ltb code 300
    then codes "Successful"
    else if leb 300 code && ltb code 400
    then codes "Redirection"
    else if leb 400 code && ltb code 500
    then codes "Bad Request"
    else if leb 500 code && ltb code 600
    then codes "Server Error"
    else codes "Undefined Error"

unfoldable pub status_code_to_string : ℤ → Bytes
status_code_to_string (pos n) = lookup_or n status_texts (status_class n)
status_code_to_string (negsuc n) = codes "Undefined Error"

unfoldable pub parse_method : Bytes → HttpMethod
parse_method method =
    if bytes_eq method (codes "GET")
    then HttpMethod.get
    else if bytes_eq method (codes "PUT")
    then HttpMethod.put
    else if bytes_eq method (codes "POST")
    then HttpMethod.post
    else if bytes_eq method (codes "HEAD")
    then HttpMethod.head
    else if bytes_eq method (codes "DELETE")
    then HttpMethod.delete
    else if bytes_eq method (codes "OPTIONS")
    then HttpMethod.options
    else HttpMethod.invalid

-- The end of a header line, CRLF.
abbrev pub line_end : Bytes
line_end = 13 ∷ 10 ∷ []

unfoldable pub content_type_to_string : ContentType → Bytes
content_type_to_string ContentType.text_html =
    codes "Content-Type: text/html; charset=utf-8" ++ line_end
content_type_to_string ContentType.app_x_form =
    codes "Content-Type: application/x-www-form-urlencoded" ++ line_end
content_type_to_string ContentType.text_xml =
    codes "Content-Type: text/xml; charset=utf-8" ++ line_end
content_type_to_string ContentType.app_xml =
    codes "Content-Type: application/xml; charset=utf-8" ++ line_end
content_type_to_string ContentType.app_json =
    codes "Content-Type: application/json; charset=utf-8" ++ line_end
content_type_to_string ContentType.app_mpeg_url =
    codes "Content-Type: application/vnd.apple.mpegurl" ++ line_end
content_type_to_string ContentType.video_mp2t = codes "Content-Type: video/MP2T" ++ line_end
content_type_to_string ContentType.video_x_flv = codes "Content-Type: video/x-flv" ++ line_end
content_type_to_string ContentType.none = []
content_type_to_string ContentType.text_plain =
    codes "Content-Type: text/plain; charset=utf-8" ++ line_end

unfoldable pub parse_content_type : Bytes → ContentType
parse_content_type name =
    if bytes_eq name (codes "text/html")
    then ContentType.text_html
    else if bytes_eq name (codes "application/x-www-form-urlencoded")
    then ContentType.app_x_form
    else if bytes_eq name (codes "application/xml")
    then ContentType.app_xml
    else if bytes_eq name (codes "application/json")
    then ContentType.app_json
    else if bytes_eq name (codes "text/plain")
    then ContentType.text_plain
    else ContentType.none

-- `tolower` in the "C" locale.
unfoldable pub to_lower : ℕ → ℕ
to_lower c = if leb b'A' c && leb c b'Z' then c + 32 else c

abbrev pub lower : Bytes → Bytes
lower = map to_lower

unfoldable pub extension_name : Bytes → Bytes
unfolding to_lower
extension_name file = elim (find_last_of (b'.' ∷ []) file) [
  | some at ↦ lower (drop (at + 1) file)
  | none ↦ []
]

-- The cases of the switch fall through to the next one.
unfoldable pub get_content_type : Bytes → ContentType
unfolding extension_name
get_content_type file =
    let ext = extension_name file in
    let n = length ext in
    if n == 0
    then ContentType.none
    else if n == 2 && bytes_eq ext (codes "ts")
    then ContentType.video_mp2t
    else if (n == 2 || n == 3) && bytes_eq ext (codes "flv")
    then ContentType.video_x_flv
    else if (n == 2 || n == 3 || n == 4) && bytes_eq ext (codes "html")
    then ContentType.text_html
    else ContentType.text_plain

-- `isspace` in the "C" locale.
unfoldable pub is_space : ℕ → Bool
is_space c = c == 32 || leb 9 c && leb c 13

unfoldable pub ltrim : Bytes → Bytes
unfolding is_space
ltrim [] = []
ltrim (c ∷ s) = let rest = ltrim s in if is_space c then rest else c ∷ s

unfoldable pub rtrim : Bytes → Bytes
unfolding ltrim
rtrim s = reverse (ltrim (reverse s))

unfoldable pub trim : Bytes → Bytes
unfolding rtrim
trim s = ltrim (rtrim s)
