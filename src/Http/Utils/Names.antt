-- ===== src/Http/Utils/Names.antt =====
-- Content types by name.
use http_nest.Prelude.{◌≡◌, ◌≢◌, true, ◌++◌, arith, Bytes, bytes_eq_iff, codes, starts}
use http_nest.Http.Types.{ContentType}
use http_nest.Http.Utils.{parse_content_type, content_type_to_string}

-- The header line of a content type that was parsed from a name begins with that name.
pub content_type_to_string-parse_content_type :
    (name : Bytes)
    → parse_content_type name ≢ ContentType.none
    → starts (codes "Content-Type: " ++ name) (content_type_to_string (parse_content_type name))
      ≡ true
unfolding parse_content_type content_type_to_string starts
content_type_to_string-parse_content_type name h = ground (
  arith,
  bytes_eq_iff name (codes "text/html"),
  bytes_eq_iff name (codes "application/x-www-form-urlencoded"),
  bytes_eq_iff name (codes "application/xml"),
  bytes_eq_iff name (codes "application/json"),
  bytes_eq_iff name (codes "text/plain"),
)
