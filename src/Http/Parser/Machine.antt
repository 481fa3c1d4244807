-- ===== src/Http/Parser/Machine.antt =====
-- `Parse` of src/http/HttpParser.cpp, one function for each case of its switch.
use http_nest.Prelude.{◌+◌, ◌*◌, [], ◌∷◌, none, some, take, ltb, ◌==◌, if◌then◌else◌, Bytes, search}
use http_nest.Prelude.Int.{pos, ltb_ℤ, is_zero, to_int32}
use http_nest.Buffer.{MsgBuffer, readable_bytes, peek, retrieve, retrieve_all, find_crlf}
use http_nest.Http.Numbers.{strtol_16}
use http_nest.Http.Outcome.{Outcome, done, ◌>>=◌}
use http_nest.Http.Parser.State.{ParserState, HttpParser, http_max_body_size, reject}
use http_nest.Http.Parser.Body.{parse_stream, parse_normal_body, parse_chunk}
use http_nest.Http.Parser.Lines.{parse_headers}

abbrev pub Parsed : Type 0
Parsed = ParserState × HttpParser × MsgBuffer

-- `return state_`.
abbrev pub result_of : HttpParser × MsgBuffer → Outcome Parsed
result_of (p, buf) = done (p.state, p, buf)

abbrev pub crlf_crlf : Bytes
crlf_crlf = 13 ∷ 10 ∷ 13 ∷ 10 ∷ []

-- case kExpectHeaders.
unfoldable pub expect_headers : HttpParser → MsgBuffer → Outcome Parsed
expect_headers p buf =
    if ltb 4 (readable_bytes buf)
    then elim (search crlf_crlf (peek buf)) [
      | some size ↦ do
        q ← parse_headers (record p { header = take size (peek buf) })
        result_of (q, retrieve buf (size + 4))
      | none ↦
          if ltb http_max_body_size (readable_bytes buf)
          then result_of (reject p, buf)
          else done (ParserState.continue, p, buf)
    ]
    else done (ParserState.continue, p, buf)

-- case kExpectChunkLen, with the text of the length. The state that the test for a length above one
-- mebibyte sets is overwritten; `reason_` is not.
unfoldable pub set_chunk_length : HttpParser → Bytes → HttpParser
set_chunk_length p text =
    let len = to_int32 (strtol_16 text) in
    let q = if ltb_ℤ (pos (1024 * 1024)) len then reject p else p in
    record q {
      cur_chunk_length = len;
      state = if is_zero len then ParserState.last_empty_chunk else ParserState.chunk_body;
    }

unfoldable pub expect_chunk_len : HttpParser → MsgBuffer → Outcome Parsed
expect_chunk_len p buf = elim (find_crlf buf) [
  | some n ↦ result_of (set_chunk_length p (take n (peek buf)), retrieve buf (n + 2))
  | none ↦
      if ltb 32 (readable_bytes buf)
      then result_of (reject p, retrieve_all buf)
      else result_of (p, buf)
]

-- case kExpectLastEmptyChunk.
unfoldable pub expect_last_empty_chunk : HttpParser → MsgBuffer → Outcome Parsed
expect_last_empty_chunk p buf = elim (find_crlf buf) [
  | some n ↦
      result_of
        (record p { chunk = none; state = ParserState.chunk_complete }, retrieve buf (n + 2))
  | none ↦ result_of (p, buf)
]

-- The switch of `Parse`.
unfoldable pub parse_in : ParserState → HttpParser → MsgBuffer → Outcome Parsed
parse_in ParserState.headers p buf = expect_headers p buf
parse_in ParserState.normal_body p buf = do done_body ← parse_normal_body p buf; result_of done_body
parse_in ParserState.stream_body p buf = do done_body ← parse_stream p buf; result_of done_body
parse_in ParserState.chunk_len p buf = expect_chunk_len p buf
parse_in ParserState.chunk_body p buf = do done_body ← parse_chunk p buf; result_of done_body
parse_in ParserState.last_empty_chunk p buf = expect_last_empty_chunk p buf
parse_in _ p buf = result_of (p, buf)

unfoldable pub parse : HttpParser → MsgBuffer → Outcome Parsed
parse p buf = if readable_bytes buf == 0 then result_of (p, buf) else parse_in p.state p buf
