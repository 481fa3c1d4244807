-- ===== src/Http/Parser/State.antt =====
-- The state of HttpParser: src/http/HttpParser.h, and its two resets. The packet and the request that the
-- parser shares with a handler are values: the handlers only read them.
use http_nest.Prelude.{ℕ, ◌*◌, Bool, true, false, [], Option, none, if◌then◌else◌, Bytes}
use http_nest.Prelude.Int.{ℤ, pos, negsuc}
use http_nest.Http.Types.{HttpStatusCode}
use http_nest.Http.Packet.{Packet}
use http_nest.Http.Request.{HttpRequest}

pub data ParserState : Type 0 where
  headers normal_body stream_body http_complete : ParserState
  chunk_len chunk_body chunk_complete last_empty_chunk : ParserState
  continue error : ParserState

pub record HttpParser : Type 0 where
  pub state : ParserState
  pub cur_chunk_length : ℤ
  pub cur_content_length : ℤ
  pub is_stream : Bool
  pub is_chunked : Bool
  pub is_request : Bool
  pub reason : HttpStatusCode
  pub header : Bytes
  pub chunk : Option Packet
  pub req : Option HttpRequest

-- The default member initialisers.
abbrev pub new_parser : HttpParser
new_parser = record {
  state = ParserState.headers;
  cur_chunk_length = pos 0;
  cur_content_length = pos 0;
  is_stream = false;
  is_chunked = false;
  is_request = true;
  reason = HttpStatusCode.unknown;
  header = [];
  chunk = none;
  req = none;
}

abbrev pub http_max_body_size : ℕ
http_max_body_size = 64 * 1024

-- `reason_ = k400BadRequest; state_ = kExpectError`.
abbrev pub reject : HttpParser → HttpParser
reject p = record p { reason = HttpStatusCode.bad_request; state = ParserState.error }

unfoldable pub clear_for_next_http : HttpParser → HttpParser
clear_for_next_http p = record p {
  state = ParserState.headers;
  header = [];
  req = none;
  cur_content_length = negsuc 0;
  chunk = none;
}

unfoldable pub clear_for_next_chunk : HttpParser → HttpParser
clear_for_next_chunk p =
    if p.is_chunked
    then record p { state = ParserState.chunk_len; cur_chunk_length = negsuc 0; chunk = none }
    else if p.is_stream
    then record p { state = ParserState.stream_body; chunk = none }
    else record p { state = ParserState.headers; cur_chunk_length = negsuc 0; chunk = none }
