-- ===== src/Http/Context/Send.antt =====
-- The sending half of HttpContext. `Send` hands bytes to the connection, which calls
-- `WriteComplete` when all of them are written; here that call comes behind the operation that
-- sent. The connection and the handler see the operations as a list of events.
use http_nest.Prelude.{
  ℕ, zero, suc, ◌/◌, ◌%◌, Bool, true, false, List, [], ◌∷◌, ◌++◌, Option, none, some, ltb,
  if◌then◌else◌, Bytes,
}
use http_nest.Buffer.{crlf}
use http_nest.Http.Utils.Url.{hex_digit}
use http_nest.Http.Packet.{Packet, packet_bytes}
use http_nest.Http.Request.{HttpRequest}
use http_nest.Http.Request.Print.{make_headers, append_to_buffer}
use http_nest.Http.Outcome.{null_packet, Outcome, done, fault, ◌>>=◌}

pub data PostState : Type 0 where
  init http http_header http_body : PostState
  http_stream_header http_stream_chunk : PostState
  chunk_header chunk_len chunk_body chunk_eof : PostState

pub data Sent : Type 0 where
  send : Bytes → Sent
  on_sent on_sent_next_chunk : Sent

-- `headerSent_` has no initialiser: its first value is whatever the memory held.
pub record HttpContext : Type 0 where
  pub header : Bytes
  pub out_packet : Option Packet
  pub post_state : PostState
  pub header_sent : Bool

abbrev pub new_context : Bool → HttpContext
new_context header_sent = record {
  header = [];
  out_packet = none;
  post_state = PostState.init;
  header_sent = header_sent;
}

abbrev pub is_init : PostState → Bool
is_init PostState.init = true
is_init _ = false

-- The value returned, the new state and the events.
abbrev pub Posted : Type 0
Posted = Bool × HttpContext × List Sent

abbrev refused : HttpContext → Posted
refused c = (false, c, [])

unfoldable pub post_text : HttpContext → Bytes → Posted
post_text c header_and_body =
    if is_init c.post_state
    then (
      true,
      record c { header = header_and_body; post_state = PostState.http },
      send header_and_body ∷ [],
    )
    else refused c

unfoldable pub post_stream_header : HttpContext → Bytes → Posted
post_stream_header c header =
    if is_init c.post_state
    then (
      true,
      record c { header = header; post_state = PostState.init; header_sent = true },
      send header ∷ [],
    )
    else refused c

unfoldable pub post_chunk_header : HttpContext → Bytes → Posted
post_chunk_header c header =
    if is_init c.post_state
    then (
      true,
      record c { header = header; post_state = PostState.init; header_sent = true },
      send header ∷ [],
    )
    else refused c

unfoldable pub post_packet : HttpContext → Bytes → Option Packet → Posted
post_packet c header packet =
    if is_init c.post_state
    then (
      true,
      record c { header = header; out_packet = packet; post_state = PostState.http_header },
      send header ∷ [],
    )
    else refused c

-- `PostRequest(request)`. It returns true whether or not the call that it makes sent anything.
unfoldable pub post_request : HttpContext → HttpRequest → Posted
post_request c r =
    let (sent, c', events) =
      if r.is_chunked
      then post_chunk_header c (make_headers r)
      else if r.is_stream
      then post_stream_header c (make_headers r)
      else post_text c (append_to_buffer r) in
    (true, c', events)

-- `sprintf("%X")`, on fuel: one digit a round.
unfoldable pub hex_text : ℕ → ℕ → Bytes
hex_text zero n = []
hex_text (suc fuel) n =
    let front = hex_text fuel (n / 16) in
    if ltb n 16 then hex_digit n ∷ [] else front ++ hex_digit (n % 16) ∷ []

-- The line in front of a chunk. A `uint32_t` has eight hexadecimal digits at most.
unfoldable pub chunk_line : Packet → Bytes
chunk_line packet = hex_text 8 packet.size ++ crlf

-- `PostChunk`. Without a packet it fails where it asks for the size.
unfoldable pub post_chunk : HttpContext → Option Packet → Outcome (HttpContext × List Sent)
post_chunk c chunk =
    if c.header_sent
    then elim chunk [
      | some packet ↦ done (
        record c {
          out_packet = some packet;
          post_state = PostState.chunk_len;
          header = chunk_line packet;
        },
        send (chunk_line packet) ∷ [],
      )
      | none ↦ fault null_packet
    ]
    else done (
      record c { out_packet = chunk; post_state = PostState.chunk_header; header_sent = true },
      send c.header ∷ [],
    )

-- `CHUNK_EOF`.
abbrev pub chunk_eof_text : Bytes
chunk_eof_text = b'0' ∷ 13 ∷ 10 ∷ 13 ∷ 10 ∷ []

unfoldable pub post_eof_chunk : HttpContext → HttpContext × List Sent
post_eof_chunk c = (record c { post_state = PostState.chunk_eof }, send chunk_eof_text ∷ [])

-- `PostStreamChunk`, likewise.
unfoldable pub post_stream_chunk : HttpContext → Option Packet → Outcome Posted
post_stream_chunk c chunk =
    if is_init c.post_state
    then (if c.header_sent
        then elim chunk [
          | some packet ↦ done (
            true,
            record c { out_packet = some packet; post_state = PostState.http_stream_chunk },
            send (packet_bytes packet) ∷ [],
          )
          | none ↦ fault null_packet
        ]
        else done (
          true,
          record c {
            out_packet = chunk;
            post_state = PostState.http_stream_header;
            header_sent = true;
          },
          send c.header ∷ [],
        ))
    else done (refused c)

-- `Send(outPakcet_->Data(), outPakcet_->PacketSize())`.
unfoldable pub send_packet : HttpContext → PostState → Outcome (HttpContext × List Sent)
send_packet c next = elim c.out_packet [
  | some packet ↦ done (record c { post_state = next }, send (packet_bytes packet) ∷ [])
  | none ↦ fault null_packet
]

abbrev returned : HttpContext → PostState → Sent → Outcome (HttpContext × List Sent)
returned c next event = done (record c { post_state = next }, event ∷ [])

-- The switch of `WriteComplete`.
unfoldable pub complete_in : PostState → HttpContext → Outcome (HttpContext × List Sent)
complete_in PostState.init c = done (c, [])
complete_in PostState.http c = returned c PostState.init on_sent
complete_in PostState.http_header c = send_packet c PostState.http_body
complete_in PostState.http_body c = returned c PostState.init on_sent
complete_in PostState.chunk_header c = returned c PostState.chunk_len on_sent_next_chunk
complete_in PostState.chunk_len c = send_packet c PostState.chunk_body
complete_in PostState.chunk_body c = returned c PostState.init on_sent_next_chunk
complete_in PostState.chunk_eof c = returned c PostState.init on_sent
complete_in PostState.http_stream_header c = returned c PostState.init on_sent_next_chunk
complete_in PostState.http_stream_chunk c = returned c PostState.init on_sent_next_chunk

unfoldable pub write_complete : HttpContext → Outcome (HttpContext × List Sent)
write_complete c = complete_in c.post_state c

-- So many calls of `WriteComplete`, with nothing posted in between.
unfoldable pub completes : ℕ → HttpContext → Outcome (HttpContext × List Sent)
completes zero c = done (c, [])
completes (suc n) c = do
  first ← write_complete c
  rest ← completes n first.0
  done (rest.0, first.1 ++ rest.1)
