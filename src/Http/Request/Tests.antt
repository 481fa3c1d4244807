-- ===== src/Http/Request/Tests.antt =====
-- A request on concrete input, and the theorems on it.
use http_nest.Prelude.{◌≡◌, refl, true, false, [], ◌∷◌, codes}
use http_nest.Http.Types.{HttpMethod}
use http_nest.Http.Utils.{parse_status_message}
use http_nest.Http.Utils.Url.{url_encode, encode_char, is_plain}
use http_nest.Http.Utils.Tables.{lookup_or, status_messages}
use http_nest.Http.Request.{HttpRequest, new_request}
use http_nest.Http.Request.Print.{
  append_to_buffer, make_headers, request_first_line, response_first_line, method_name,
  parameters_text, more_parameters, version_name, header_lines, decimal,
}
use http_nest.Prelude.Int.{to_int32}
use http_nest.Strings.Find.{is_empty}

abbrev request : HttpRequest
request = record (new_request true) {
  method = HttpMethod.get;
  path = codes "/a b";
  parameters = (codes "k", codes "v") ∷ (codes "l", codes "w") ∷ [];
  headers = (codes "host", codes "x") ∷ [];
  body = codes "hi";
}

append_to_buffer_test :
    append_to_buffer request ≡ codes "GET /a+b?k=v&l=w HTTP/1.1 \r\nhost: x\r\n\r\nhi"
unfolding append_to_buffer make_headers request_first_line url_encode encode_char is_plain
    new_request method_name is_empty parameters_text more_parameters version_name header_lines
append_to_buffer_test = refl

not_found :
    append_to_buffer (record (new_request false) { code = 404 })
    ≡ codes "HTTP/1.1 404 Not Found\r\n\r\n"
unfolding append_to_buffer make_headers response_first_line new_request parse_status_message
    lookup_or status_messages version_name decimal to_int32 header_lines
not_found = refl
