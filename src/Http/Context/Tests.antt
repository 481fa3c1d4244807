-- ===== src/Http/Context/Tests.antt =====
-- HttpContext on concrete input: the theorems on it.
use http_nest.Prelude.{
  ℕ, ◌^◌, ◌<◌, ◌≡◌, refl, arith, true, List, [], ◌∷◌, ◌++◌, some, length, replicate, codes, search,
  starts,
}
use http_nest.Prelude.Int.{pos, negsuc}
use http_nest.Buffer.{MsgBuffer, readable_bytes, writable_bytes, peek, read_fd, store, bytes}
use http_nest.Buffer.Memory.{splice}
use http_nest.Buffer.Contents.{Holds}
use http_nest.Http.Utils.Url.{hex_digit}
use http_nest.Http.Packet.{Packet, new_packet, packet_bytes}
use http_nest.Http.Outcome.{done}
use http_nest.Http.Parser.State.{ParserState, HttpParser, new_parser}
use http_nest.Http.Parser.Body.{open_chunk}
use http_nest.Http.Parser.Machine.{parse}
use http_nest.Http.Parser.Reassembly.{Awaiting, Complete}
use http_nest.Http.Parser.Fill.{fresh_packet_lem}
use http_nest.Http.Context.Receive.{Event, on_request, finished, running, parse_loop}
use http_nest.Http.Context.Hang.{IsStuck, parse_loop-never_ends}
use http_nest.Http.Context.Delivery.{parse_loop-delivers, parse_loop-last_byte}
use http_nest.Http.Context.Send.{PostState, HttpContext, new_context, chunk_line, hex_text}
use http_nest.Http.Context.ChunkLength.{parse-chunk}

abbrev empty : MsgBuffer
empty = record { head = 8; init_cap = 64; buffer = replicate 72 0; tail = 8 }

empty-Holds : Holds empty []
unfolding peek
empty-Holds = record { valid = omega arith; holds = refl }

-- "GET / HT": the beginning of a request.
abbrev beginning : MsgBuffer
beginning = record {
  head = 8;
  init_cap = 64;
  buffer = replicate 8 0 ++ codes "GET / HT" ++ replicate 56 0;
  tail = 16;
}

beginning-IsStuck : IsStuck new_parser beginning
unfolding search starts peek readable_bytes
beginning-IsStuck = IsStuck.partial_header refl refl (omega arith)

parse_loop-never_ends_example :
    (out : List Event) × (parse_loop 1000 true [] new_parser beginning
      ≡ running out new_parser beginning)
parse_loop-never_ends_example = parse_loop-never_ends 1000 true [] beginning-IsStuck two
  where
    two : 1 < readable_bytes beginning
    two = unfold readable_bytes in omega arith

-- A parser that waits for so many bytes.
abbrev waiting : ℕ → HttpParser
waiting n = record new_parser { state = ParserState.normal_body; cur_content_length = pos n }

waiting-Awaiting : (n : ℕ) → n < 2 ^ 31 → Awaiting (waiting n) [] n
unfolding open_chunk new_packet packet_bytes
waiting-Awaiting n h =
    let (pk, opens, ok, has_room, no_bytes) = fresh_packet_lem n h in
    record {
      in_body = refl;
      length_is = refl;
      packet = pk;
      opens = opens;
      packet_ok = ok;
      has_room = has_room;
      has_bytes = no_bytes;
    }

small_read :
    (length (read_fd empty (bytes (codes "ok"))).buffer < 2 ^ 31)
    × (length (read_fd empty (bytes (codes "!"))).buffer < 2 ^ 31)
unfolding read_fd store writable_bytes splice
small_read = (omega arith, omega arith)

parse_loop-delivers_example :
    (q : HttpParser) × (buf' : MsgBuffer) × (parse_loop 2 true []
        (waiting 2)
        (read_fd empty (bytes (codes "ok")))
      ≡ finished (on_request q.req q.chunk ∷ []) q buf')
    × Complete q (codes "ok")
    × Holds buf' []
parse_loop-delivers_example =
    parse_loop-delivers 0 (waiting 2) empty (codes "ok") (waiting-Awaiting 2 (omega arith))
      empty-Holds (omega arith) (omega arith) (omega arith) small_read.0

parse_loop-last_byte_example :
    (parse_loop 1 true [] (waiting 1) (read_fd empty (bytes (codes "!")))
      ≡ finished [] (waiting 1) (read_fd empty (bytes (codes "!"))))
    × Holds (read_fd empty (bytes (codes "!"))) (codes "!")
parse_loop-last_byte_example =
    parse_loop-last_byte 0 (waiting 1) empty b'!' (waiting-Awaiting 1 (omega arith)) empty-Holds
      (omega arith) small_read.1

abbrev three_bytes : Packet
three_bytes = record {
  kind = 255;
  size = 3;
  index = negsuc 0;
  timestamp = 0;
  capacity = 4;
  storage = codes "abc" ++ 0 ∷ [];
}

abbrev busy : HttpContext
busy = record (new_context true) { post_state = PostState.http }

-- "3\r\nabc!".
abbrev chunk_sent : MsgBuffer
chunk_sent = record {
  head = 8;
  init_cap = 64;
  buffer = replicate 8 0 ++ codes "3\r\nabc!" ++ replicate 64 0;
  tail = 15;
}

chunk_sent-Holds :
    Holds chunk_sent (chunk_line three_bytes ++ (packet_bytes three_bytes ++ codes "!"))
unfolding peek chunk_line hex_text hex_digit packet_bytes
chunk_sent-Holds = record { valid = omega arith; holds = refl }

parse-chunk_example :
    (q r : HttpParser) × (b1 b2 : MsgBuffer) × (pk : Packet) × (parse
        (record new_parser { state = ParserState.chunk_len })
        chunk_sent
      ≡ done (ParserState.chunk_body, q, b1))
    × (parse q b1 ≡ done (ParserState.chunk_complete, r, b2))
    × (r.chunk ≡ some pk)
    × (packet_bytes pk ≡ packet_bytes three_bytes)
    × Holds b2 (codes "!")
parse-chunk_example =
    parse-chunk (record new_parser { state = ParserState.chunk_len }) chunk_sent three_bytes
      (codes "!") refl refl (omega arith) (omega arith) whole chunk_sent-Holds (omega arith)
  where
    whole : length (packet_bytes three_bytes) ≡ 3
    whole = unfold packet_bytes in refl
