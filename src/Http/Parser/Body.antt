-- ===== src/Http/Parser/Body.antt =====
-- The bodies: ParseStream, ParseNormalBody and ParseChunk of src/http/HttpParser.cpp.
use http_nest.Prelude.{ℕ, Option, none, some, take, ◌||◌, if◌then◌else◌}
use http_nest.Prelude.Int.{ℤ, pos, negsuc, ◌-ℤ◌, min_ℤ, is_zero, to_int32}
use http_nest.Buffer.{MsgBuffer, readable_bytes, peek, retrieve}
use http_nest.Http.Packet.{Packet, new_packet, space, update_packet_size, copy_in}
use http_nest.Http.Outcome.{negative_packet, negative_copy, Outcome, done, fault, ◌>>=◌}
use http_nest.Http.Parser.State.{ParserState, HttpParser, http_max_body_size}

-- `if(!chunk_) chunk_ = NewPacket(size)`.
unfoldable pub open_chunk : Option Packet → ℤ → Outcome Packet
open_chunk (some packet) size = done packet
open_chunk none size = elim (new_packet size) [
  | some packet ↦ done packet
  | none ↦ fault negative_packet
]

-- The lines that ParseStream, ParseNormalBody and ParseChunk share: as many bytes as are there and
-- as the packet has room for go from the buffer to the packet.
unfoldable pub copy_bytes : Packet → MsgBuffer → ℤ → Outcome (ℕ × Packet × MsgBuffer)
copy_bytes packet buf (negsuc n) = fault negative_copy
copy_bytes packet buf (pos n) =
    done (n, update_packet_size (copy_in packet (take n (peek buf))) n, retrieve buf n)

unfoldable pub fill_chunk : Option Packet → ℤ → MsgBuffer → Outcome (ℕ × Packet × MsgBuffer)
fill_chunk chunk capacity buf = do
  packet ← open_chunk chunk capacity
  copy_bytes packet buf (min_ℤ (to_int32 (pos (readable_bytes buf))) (space packet))

unfoldable pub parse_stream : HttpParser → MsgBuffer → Outcome (HttpParser × MsgBuffer)
parse_stream p buf = do
  filled ← fill_chunk p.chunk (pos http_max_body_size) buf
  done (
    record p {
      chunk = some filled.1;
      state = if is_zero (space filled.1) then ParserState.chunk_complete else p.state;
    },
    filled.2,
  )

unfoldable pub parse_normal_body : HttpParser → MsgBuffer → Outcome (HttpParser × MsgBuffer)
parse_normal_body p buf = do
  filled ← fill_chunk p.chunk p.cur_content_length buf
  let left = p.cur_content_length -ℤ pos filled.0
  done (
    record p {
      chunk = some filled.1;
      cur_content_length = left;
      state = if is_zero left then ParserState.http_complete else p.state;
    },
    filled.2,
  )

unfoldable pub parse_chunk : HttpParser → MsgBuffer → Outcome (HttpParser × MsgBuffer)
parse_chunk p buf = do
  filled ← fill_chunk p.chunk p.cur_chunk_length buf
  let left = p.cur_chunk_length -ℤ pos filled.0
  done (
    record p {
      chunk = some filled.1;
      cur_chunk_length = left;
      state =
          if is_zero left || is_zero (space filled.1) then ParserState.chunk_complete else p.state;
    },
    filled.2,
  )
