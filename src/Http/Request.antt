-- ===== src/Http/Request.antt =====
-- HttpRequest: src/http/HttpRequest.h and HttpRequest.cpp.
pub mod Headers
pub mod Print
pub mod VersionText
mod Tests
use http_nest.Prelude.{
  ℕ, zero, suc, ◌+◌, ◌^◌, Bool, true, false, not, List, [], ◌∷◌, ◌++◌, Option, none, some,
  get_elem?, length, take, drop, ◌==◌, ◌&&◌, if◌then◌else◌, Bytes, bytes_eq, codes,
}
use http_nest.Prelude.Int.{ℤ, pos, to_word, to_int32}
use http_nest.Strings.{split_string}
use http_nest.Strings.Find.{find_first_of, is_empty}
use http_nest.Http.Types.{HttpMethod, Version}
use http_nest.Http.Utils.{parse_method, parse_status_message, lower, trim, line_end}
use http_nest.Http.Utils.Url.{need_url_decoding, url_decode, url_encode}
use http_nest.Http.Fields.{Fields, lookup, assign, erase}

pub record HttpRequest : Type 0 where
  pub method : HttpMethod
  pub version : Version
  pub path : Bytes
  pub query : Bytes
  pub headers : Fields
  pub parameters : Fields
  pub body : Bytes
  pub code : ℕ
  pub is_request : Bool
  pub is_stream : Bool
  pub is_chunked : Bool

-- The constructor.
unfoldable pub new_request : Bool → HttpRequest
new_request is_request = record {
  method = HttpMethod.invalid;
  version = Version.unknown;
  path = [];
  query = [];
  headers = [];
  parameters = [];
  body = [];
  code = 0;
  is_request = is_request;
  is_stream = false;
  is_chunked = false;
}

unfoldable pub add_header : HttpRequest → Bytes → Bytes → HttpRequest
add_header r field value = record r { headers = assign (lower field) value r.headers }

unfoldable pub remove_header : HttpRequest → Bytes → HttpRequest
remove_header r key = record r { headers = erase (lower key) r.headers }

-- The value found in a map, or the empty string.
abbrev pub or_empty : Option Bytes → Bytes
or_empty none = []
or_empty (some v) = v

unfoldable pub get_header : HttpRequest → Bytes → Bytes
get_header r field = or_empty (lookup (lower field) r.headers)

unfoldable pub set_parameter : HttpRequest → Bytes → Bytes → HttpRequest
set_parameter r key value = record r { parameters = assign key value r.parameters }

unfoldable pub get_parameter : HttpRequest → Bytes → Bytes
get_parameter r key = or_empty (lookup key r.parameters)

-- One round of the loop of `ParseParameters`.
unfoldable pub parse_parameter : HttpRequest → Bytes → HttpRequest
parse_parameter r item = elim (find_first_of (b'=' ∷ []) item) [
  | some at ↦ set_parameter r (trim (take at item)) (trim (drop (at + 1) item))
  | none ↦ r
]

unfoldable pub parse_each : HttpRequest → List Bytes → HttpRequest
parse_each r [] = r
parse_each r (item ∷ items) = parse_each (parse_parameter r item) items

unfoldable pub parse_parameters : HttpRequest → HttpRequest
parse_parameters r = parse_each r (split_string r.query (b'&' ∷ []))

unfoldable pub set_query : HttpRequest → Bytes → HttpRequest
set_query r query = parse_parameters (record r { query = query })

unfoldable pub set_method : HttpRequest → Bytes → HttpRequest
set_method r method = record r { method = parse_method method }

-- `v.compare(0, 6, "HTTP/1.")`: whether six characters differ from the seven of "HTTP/1.".
unfoldable pub prefix_differs : Bytes → Bool
prefix_differs v = not (bytes_eq (take 6 v) (codes "HTTP/1."))

unfoldable pub parse_version : Bytes → Version
parse_version v =
    if length v == 8
    then (if prefix_differs v
        then elim (get_elem? v 7) [
          | some c ↦
              if c == b'1'
              then Version.http11
              else if c == b'0'
              then Version.http10
              else Version.unknown
          | none ↦ Version.unknown
        ]
        else Version.unknown)
    else Version.unknown

unfoldable pub set_version : HttpRequest → Bytes → HttpRequest
set_version r v = record r { version = parse_version v }

unfoldable pub set_path : HttpRequest → Bytes → HttpRequest
set_path r path = record r { path = if need_url_decoding path then url_decode path else path }

-- An `int32_t` kept as a `uint32_t`.
unfoldable pub set_status_code : HttpRequest → ℤ → HttpRequest
set_status_code r code = record r { code = to_word (2 ^ 32) code }

unfoldable pub set_body : HttpRequest → Bytes → HttpRequest
set_body r body = record r { body = body }

unfoldable pub set_is_stream : HttpRequest → Bool → HttpRequest
set_is_stream r s = record r { is_stream = s }

unfoldable pub set_is_chunked : HttpRequest → Bool → HttpRequest
set_is_chunked r c = record r { is_chunked = c }

-- `SetMethod` and `SetVersion` with a value of the enumeration.
unfoldable pub put_method : HttpRequest → HttpMethod → HttpRequest
put_method r method = record r { method = method }

unfoldable pub put_version : HttpRequest → Version → HttpRequest
put_version r version = record r { version = version }
