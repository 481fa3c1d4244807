-- ===== src/Http/Request/Print.antt =====
-- The text of a request or response: MakeHeaders, AppendToBuffer, AppendRequestFirstLine and
-- AppendResponseFirstLine.
use http_nest.Prelude.{ℕ, zero, suc, ◌+◌, ◌/◌, ◌%◌, [], ◌∷◌, ◌++◌, ltb, if◌then◌else◌, Bytes, codes}
use http_nest.Prelude.Int.{pos, to_int32}
use http_nest.Strings.Find.{is_empty}
use http_nest.Http.Types.{HttpMethod, Version}
use http_nest.Http.Fields.{Fields}
use http_nest.Http.Utils.{parse_status_message, line_end}
use http_nest.Http.Utils.Url.{url_encode}
use http_nest.Http.Request.{HttpRequest}

unfoldable pub method_name : HttpMethod → Bytes
method_name HttpMethod.get = codes "GET"
method_name HttpMethod.post = codes "POST"
method_name HttpMethod.head = codes "HEAD"
method_name HttpMethod.put = codes "PUT"
method_name HttpMethod.delete = codes "DELETE"
method_name HttpMethod.options = codes "OPTIONS"
method_name HttpMethod.patch = codes "PATCH"
method_name HttpMethod.invalid = codes "UNKNOW"

unfoldable pub version_name : Version → Bytes
version_name Version.http10 = codes "HTTP/1.0 "
version_name _ = codes "HTTP/1.1 "

-- A number as `operator<<` writes it, on fuel: one digit a round.
unfoldable pub decimal : ℕ → ℕ → Bytes
decimal zero n = []
decimal (suc fuel) n =
    let front = decimal fuel (n / 10) in
    if ltb n 10 then (b'0' + n) ∷ [] else front ++ (b'0' + n % 10) ∷ []

-- The parameters behind the first one.
unfoldable pub more_parameters : Fields → Bytes
more_parameters [] = []
more_parameters ((k, v) ∷ m) = b'&' ∷ (k ++ (b'=' ∷ (v ++ more_parameters m)))

unfoldable pub parameters_text : Fields → Bytes
parameters_text [] = []
parameters_text ((k, v) ∷ m) = b'?' ∷ (k ++ (b'=' ∷ (v ++ more_parameters m)))

unfoldable pub header_lines : Fields → Bytes
header_lines [] = []
header_lines ((k, v) ∷ m) = k ++ (codes ": " ++ (v ++ (line_end ++ header_lines m)))

unfoldable pub request_first_line : HttpRequest → Bytes
request_first_line r =
    method_name r.method
    ++ (b' '
        ∷ (url_encode
              ((if is_empty r.path then b'/' ∷ [] else r.path) ++ parameters_text r.parameters)
            ++ (b' ' ∷ (version_name r.version ++ line_end))))

-- A `uint32_t` has ten digits at most; `ParseStatusMessage` takes it as an `int32_t`.
unfoldable pub response_first_line : HttpRequest → Bytes
response_first_line r =
    version_name r.version
    ++ (decimal 10 r.code ++ (b' ' ∷ (parse_status_message (to_int32 (pos r.code)) ++ line_end)))

unfoldable pub make_headers : HttpRequest → Bytes
make_headers r =
    (if r.is_request then request_first_line r else response_first_line r)
    ++ (header_lines r.headers ++ line_end)

unfoldable pub append_to_buffer : HttpRequest → Bytes
append_to_buffer r = make_headers r ++ r.body
