-- ===== src/Http/Context/Hang.antt =====
-- When `HttpContext::Parse` does not end.
use http_nest.Prelude.{
  ℕ, zero, suc, ◌<◌, ◌≤◌, ◌≡◌, ◌∙◌, refl, arith, Bool, List, ◌++◌, none, lt→ltb, search,
}
use http_nest.Buffer.{MsgBuffer, readable_bytes, peek, find_crlf}
use http_nest.Http.Outcome.{done}
use http_nest.Http.Parser.State.{ParserState, HttpParser, http_max_body_size}
use http_nest.Http.Parser.Machine.{
  parse, parse_in, crlf_crlf, expect_headers, expect_chunk_len, expect_last_empty_chunk,
}
use http_nest.Http.Parser.Reassembly.{parse-parse_in}
use http_nest.Http.Context.Receive.{Event, running, events_of, finish_round, parse_loop}

-- The parser has ended, or waits for the end of a header, of a chunk's length or of a stream.
pub data IsStuck (p : HttpParser) (buf : MsgBuffer) : Type 0 where
  failed : p.state ≡ ParserState.error → IsStuck p buf
  message_complete : p.state ≡ ParserState.http_complete → IsStuck p buf
  chunk_complete : p.state ≡ ParserState.chunk_complete → IsStuck p buf
  partial_header :
      p.state ≡ ParserState.headers
      → search crlf_crlf (peek buf) ≡ none
      → readable_bytes buf ≤ http_max_body_size
      → IsStuck p buf
  partial_length :
      p.state ≡ ParserState.chunk_len
      → find_crlf buf ≡ none
      → readable_bytes buf ≤ 32
      → IsStuck p buf
  partial_end : p.state ≡ ParserState.last_empty_chunk → find_crlf buf ≡ none → IsStuck p buf

at_state :
    (p : HttpParser) (buf : MsgBuffer) (st : ParserState)
    → p.state ≡ st
    → 0 < readable_bytes buf
    → (s : ParserState) × (parse_in st p buf ≡ done (s, p, buf))
    → (s : ParserState) × (parse p buf ≡ done (s, p, buf))
at_state p buf st e h (s, f) = (s, parse-parse_in p buf st e h ∙ f)

-- A stuck parser neither changes nor consumes anything.
pub parse-IsStuck :
    {p : HttpParser} {buf : MsgBuffer}
    → IsStuck p buf
    → 0 < readable_bytes buf
    → (s : ParserState) × (parse p buf ≡ done (s, p, buf))
unfolding parse_in expect_headers expect_chunk_len expect_last_empty_chunk
parse-IsStuck {p} {buf} (failed e) h = at_state p buf _ e h (p.state, refl)
parse-IsStuck {p} {buf} (message_complete e) h = at_state p buf _ e h (p.state, refl)
parse-IsStuck {p} {buf} (chunk_complete e) h = at_state p buf _ e h (p.state, refl)
parse-IsStuck {p} {buf} (partial_header e m l) h =
    at_state p buf _ e h (ParserState.continue, ground arith)
parse-IsStuck {p} {buf} (partial_length e m l) h = at_state p buf _ e h (p.state, ground arith)
parse-IsStuck {p} {buf} (partial_end e m) h = at_state p buf _ e h (p.state, ground arith)

-- A round that leaves parser and buffer as they are.
idle_round :
    (fuel : ℕ) (handler : Bool) (events : List Event) (s : ParserState) (p : HttpParser)
    (buf : MsgBuffer)
    → 1 < readable_bytes buf
    → parse p buf ≡ done (s, p, buf)
    → parse_loop (suc fuel) handler events p buf
      ≡ parse_loop fuel handler (events ++ events_of handler s p) p buf
unfolding parse_loop finish_round
idle_round fuel handler events s p buf h e = rw (lt→ltb 1 (readable_bytes buf) h, e, parse_loop)

-- The loop of `HttpContext::Parse` never ends once its parser is stuck with two bytes or more in the
-- buffer: after any number of rounds it is still running, with the same parser and the same buffer.
pub parse_loop-never_ends :
    (fuel : ℕ) (handler : Bool) (events : List Event) {p : HttpParser} {buf : MsgBuffer}
    → IsStuck p buf
    → 1 < readable_bytes buf
    → (out : List Event) × (parse_loop fuel handler events p buf ≡ running out p buf)
parse_loop-never_ends zero handler events {p} {buf} st h = (events, unfold parse_loop in refl)
parse_loop-never_ends (suc fuel) handler events {p} {buf} st h =
    let (s, e) = parse-IsStuck st (omega arith) in
    let (out, f) = parse_loop-never_ends fuel handler (events ++ events_of handler s p) st h in
    (out, idle_round fuel handler events s p buf h e ∙ f)
