-- ===== src/Http/Parser/Lines.antt =====
-- The header: ParseHeaders and ProcessMethodLine of src/http/HttpParser.cpp.
use http_nest.Prelude.{
  ◌+◌, Bool, true, false, not, List, [], ◌∷◌, none, some, take, drop, ◌==◌, ◌&&◌, ◌||◌,
  if◌then◌else◌, Bytes, bytes_eq, codes, starts,
}
use http_nest.Prelude.Int.{pos, negsuc, is_zero, to_int32}
use http_nest.Buffer.{crlf}
use http_nest.Strings.{split_string}
use http_nest.Strings.Find.{find_first_of, is_empty}
use http_nest.Http.Types.{HttpMethod}
use http_nest.Http.Utils.{lower}
use http_nest.Http.Numbers.{atoi, stoull}
use http_nest.Http.Request.{
  HttpRequest, new_request, add_header, get_header, set_method, set_path, set_query, set_version,
  set_status_code, set_is_chunked, set_is_stream,
}
use http_nest.Http.Outcome.{null_request, Outcome, done, fault}
use http_nest.Http.Parser.State.{ParserState, HttpParser, reject}

-- Path and query of a request's target, parted at the first '?'.
unfoldable pub set_target : HttpRequest → Bytes → HttpRequest
set_target r target = elim (find_first_of (b'?' ∷ []) target) [
  | some at ↦ set_query (set_path r (take at target)) (drop (at + 1) target)
  | none ↦ set_path r target
]

-- `ProcessMethodLine` behind its check that the line has three words.
unfoldable pub process_words : HttpParser → Bytes → Bytes → Bytes → HttpParser
process_words p first second third =
    if starts (codes "http") (lower first)
    then record p {
      is_request = false;
      req = some (set_status_code (set_version (new_request false) first) (atoi second));
    }
    else record p {
      is_request = true;
      req = some (set_version (set_target (set_method (new_request true) first) second) third);
    }

unfoldable pub process_split : HttpParser → List Bytes → HttpParser
process_split p (first ∷ second ∷ third ∷ []) = process_words p first second third
process_split p _ = reject p

unfoldable pub process_method_line : HttpParser → Bytes → HttpParser
process_method_line p line = process_split p (split_string line (b' ' ∷ []))

-- One round of the loop of `ParseHeaders` over the lines.
unfoldable pub add_header_line : HttpRequest → Bytes → HttpRequest
add_header_line r line = elim (find_first_of (b':' ∷ []) line) [
  | some at ↦ add_header r (take at line) (drop (at + 1) line)
  | none ↦ r
]

unfoldable pub add_header_lines : HttpRequest → List Bytes → HttpRequest
add_header_lines r [] = r
add_header_lines r (line ∷ lines) = add_header_lines (add_header_line r line) lines

abbrev pub is_method_without_body : HttpMethod → Bool
is_method_without_body HttpMethod.get = true
is_method_without_body HttpMethod.head = true
is_method_without_body HttpMethod.options = true
is_method_without_body _ = false

-- Whether a message with neither length nor chunks ends behind its headers.
unfoldable pub has_no_body : HttpParser → HttpRequest → Bool
has_no_body p r =
    (not p.is_request && not (r.code == 200)) || (p.is_request && is_method_without_body r.method)

-- The part of `ParseHeaders` behind the loop, with the request that `req_` points to.
unfoldable pub choose_body : HttpParser → HttpRequest → HttpParser
choose_body p r =
    let len = get_header r (codes "content-length") in
    let coding = get_header r (codes "transfer-encoding") in
    if not (is_empty len)
    then elim (stoull len) [
      | none ↦ reject (record p { req = some r })
      | some n ↦
          let length = to_int32 (pos n) in
          record p {
            req = some r;
            cur_content_length = length;
            state = if is_zero length then ParserState.http_complete else ParserState.normal_body;
          }
    ]
    else if not (is_empty coding) && bytes_eq coding (codes "chunked")
    then record p {
      is_chunked = true;
      req = some (set_is_chunked r true);
      state = ParserState.chunk_len;
    }
    else if has_no_body p r
    then record p { req = some r; cur_chunk_length = pos 0; state = ParserState.http_complete }
    else record p {
      cur_content_length = negsuc 0;
      is_stream = true;
      req = some (set_is_stream r true);
      state = ParserState.stream_body;
    }

-- Behind `ProcessMethodLine`: the lines are added to `*req_`, the first one too.
unfoldable pub finish_headers : HttpParser → List Bytes → Outcome HttpParser
finish_headers p lines = elim p.req [
  | none ↦ fault null_request
  | some r ↦ done (choose_body p (add_header_lines r lines))
]

unfoldable pub parse_lines : HttpParser → List Bytes → Outcome HttpParser
parse_lines p [] = done (reject p)
parse_lines p (line ∷ lines) = finish_headers (process_method_line p line) (line ∷ lines)

unfoldable pub parse_headers : HttpParser → Outcome HttpParser
parse_headers p = parse_lines p (split_string p.header crlf)
