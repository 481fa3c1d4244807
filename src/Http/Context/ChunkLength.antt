-- ===== src/Http/Context/ChunkLength.antt =====
-- A chunk as `HttpContext` sends it, in front of the parser.
use native.Mathlib.Nat.{add-zero}
use http_nest.Prelude.{
  ℕ, ◌+◌, ◌^◌, ◌<◌, ◌≡◌, ◌∙◌, refl, sym, ap, arith, Bool, true, false, [], ◌∷◌, ◌++◌, none, some,
  length, take, drop, take-append, drop-append, length-append, append_assoc, ltb, ◌==◌, ==_ne,
  if◌then◌else◌, Bytes, search, starts,
}
use http_nest.Prelude.Int.{pos, to_int32_small, ◌-ℤ◌}
use http_nest.Buffer.{MsgBuffer, readable_bytes, peek, retrieve, crlf, find_crlf}
use http_nest.Buffer.Invariant.{length-peek}
use http_nest.Buffer.Contents.{Holds, retrieve-Holds, length-retrieve-le}
use http_nest.Http.Types.{HttpStatusCode}
use http_nest.Http.Packet.{Packet, packet_bytes}
use http_nest.Http.Outcome.{done}
use http_nest.Http.Utils.Url.{is_xdigit}
use http_nest.Http.Parser.State.{ParserState, HttpParser, reject}
use http_nest.Http.Parser.Body.{parse_chunk}
use http_nest.Http.Parser.Machine.{parse, parse_in, set_chunk_length, expect_chunk_len}
use http_nest.Http.Parser.Fill.{
  BufferInv, filled, moved, fill_chunk_lem, packet_bytes-filled, fresh_packet_lem,
}
use http_nest.Http.Parser.Reassembly.{parse-parse_in, sub_pos}
use http_nest.Http.Context.Send.{hex_text, chunk_line}
use http_nest.Http.Context.ChunkText.{AllHex, hex_text-AllHex, strtol_16-hex_text}

-- A refused length keeps nothing of the refusal but its reason.
overwritten :
    (above : Bool) (p : HttpParser) (n : ℕ)
    → record (if above then reject p else p) {
      cur_chunk_length = pos n;
      state = if n == 0 then ParserState.last_empty_chunk else ParserState.chunk_body;
    }
      ≡ record p {
        cur_chunk_length = pos n;
        reason = if above then HttpStatusCode.bad_request else p.reason;
        state = if n == 0 then ParserState.last_empty_chunk else ParserState.chunk_body;
      }
overwritten true p n = refl
overwritten false p n = refl

-- What the parser does with the length of a chunk that a sender wrote, for every length below 2 ^ 31.
-- No length makes it refuse the chunk: above one mebibyte it notes a reason, and goes on.
pub set_chunk_length-hex_text :
    (p : HttpParser) (n : ℕ)
    → n < 2 ^ 31
    → set_chunk_length p (hex_text 8 n) ≡ record p {
      cur_chunk_length = pos n;
      reason = if ltb (2 ^ 20) n then HttpStatusCode.bad_request else p.reason;
      state = if n == 0 then ParserState.last_empty_chunk else ParserState.chunk_body;
    }
unfolding set_chunk_length
set_chunk_length-hex_text p n h =
    rw (strtol_16-hex_text n (omega arith), to_int32_small n h, add-zero n)
      (overwritten (ltb (2 ^ 20) n) p n)

cr_lem : (c : ℕ) → is_xdigit c ≡ true → (13 == c) ≡ false
unfolding is_xdigit
cr_lem c h = ground arith

-- The end of the line is found behind the digits.
search-AllHex : (s rest : Bytes) → AllHex s → search crlf (s ++ (crlf ++ rest)) ≡ some (length s)
unfolding search starts
search-AllHex [] rest a = refl
search-AllHex (c ∷ s) rest (x, a) = rw (cr_lem c x, search-AllHex s rest a)

-- The parser behind the line with the length.
abbrev with_length : HttpParser → ℕ → HttpParser
with_length p n = record p {
  cur_chunk_length = pos n;
  reason = if ltb (2 ^ 20) n then HttpStatusCode.bad_request else p.reason;
  state = if n == 0 then ParserState.last_empty_chunk else ParserState.chunk_body;
}

chunk_line_lem :
    (p : HttpParser) (buf : MsgBuffer) (packet : Packet) (rest : Bytes)
    → packet.size < 2 ^ 31
    → Holds buf (chunk_line packet ++ rest)
    → length buf.buffer < 2 ^ 31
    → (b1 : MsgBuffer) × (expect_chunk_len p buf
        ≡ done ((with_length p packet.size).state, with_length p packet.size, b1))
      × Holds b1 rest
      × (length b1.buffer < 2 ^ 31)
unfolding expect_chunk_len chunk_line
chunk_line_lem p buf packet rest small h s =
    let e : peek buf ≡ digits ++ (crlf ++ rest) = h.holds ∙ append_assoc digits crlf rest in
    let hit : find_crlf buf ≡ some (length digits) =
      unfold find_crlf in
      ap (search crlf) e ∙ search-AllHex digits rest (hex_text-AllHex 8 packet.size) in
    let front : take (length digits) (peek buf) ≡ digits =
      rw e (take-append (length digits) digits (crlf ++ rest) refl) in
    let back : drop (length digits + 2) (peek buf) ≡ rest =
      ap (drop (length digits + 2)) h.holds
      ∙ drop-append (length digits + 2) (digits ++ crlf) rest
          (omega (arith, length-append digits crlf)) in
    let gone = retrieve-Holds h.valid (omega (arith, s)) (length digits + 2) in
    (
      retrieve buf (length digits + 2),
      rw (hit, front, set_chunk_length-hex_text p packet.size small, expect_chunk_len),
      record { valid = gone.valid; holds = gone.holds ∙ back },
      omega (arith, length-retrieve-le h.valid (omega (arith, s)) (length digits + 2), s),
    )
  where
    digits : Bytes
    digits = hex_text 8 packet.size

-- The chunk's bytes, all of them in the buffer, behind the line with the length.
chunk_body_lem :
    (q : HttpParser) (buf : MsgBuffer) (body rest : Bytes)
    → q.cur_chunk_length ≡ pos (length body)
    → q.chunk ≡ none
    → length body < 2 ^ 31
    → Holds buf (body ++ rest)
    → length buf.buffer < 2 ^ 31
    → (pk : Packet) × (b2 : MsgBuffer) × (parse_chunk q buf
        ≡ done (
          record q {
            chunk = some pk;
            cur_chunk_length = pos 0;
            state = ParserState.chunk_complete;
          },
          b2,
        ))
      × (packet_bytes pk ≡ body)
      × Holds b2 rest
unfolding parse_chunk
chunk_body_lem q buf body rest len fresh small h s =
    let (pk, opens, inv, has_room, no_bytes) = fresh_packet_lem (length body) small in
    let b : BufferInv buf = record { valid = h.valid; small = s } in
    let l = length-peek h.valid (omega (arith, s)) in
    let m : moved pk buf ≡ length body =
      omega (arith, ap length h.holds, length-append body rest) in
    let gone = retrieve-Holds h.valid (omega (arith, s)) (moved pk buf) in
    let left : pos (length body) -ℤ pos (moved pk buf) ≡ pos 0 =
      sub_pos (length body) (moved pk buf) (omega arith) ∙ ap pos (omega arith) in
    (
      filled pk buf (moved pk buf),
      retrieve buf (moved pk buf),
      rw (len, fresh, fill_chunk_lem inv b none (pos (length body)) opens, left),
      packet_bytes-filled inv b ∙ rw (no_bytes, h.holds) (take-append (moved pk buf) body rest m),
      record {
        valid = gone.valid;
        holds = gone.holds ∙ rw h.holds (drop-append (moved pk buf) body rest m);
      },
    )

-- A chunk of 1 up to 2 ^ 31 - 1 bytes that `PostChunk` and `WriteComplete` sent, all of it in a valid
-- buffer, in front of a parser that expects a chunk and has no packet, is read by two calls of
-- the parser: the first one reads the length, the second one the bytes. The packet that it makes
-- holds the bytes of the packet sent, and the buffer holds what came behind them.
pub parse-chunk :
    (p : HttpParser) (buf : MsgBuffer) (packet : Packet) (rest : Bytes)
    → p.state ≡ ParserState.chunk_len
    → p.chunk ≡ none
    → 0 < packet.size
    → packet.size < 2 ^ 31
    → length (packet_bytes packet) ≡ packet.size
    → Holds buf (chunk_line packet ++ (packet_bytes packet ++ rest))
    → length buf.buffer < 2 ^ 31
    → (q r : HttpParser) × (b1 b2 : MsgBuffer) × (pk : Packet) × (parse p buf
        ≡ done (ParserState.chunk_body, q, b1))
      × (parse q b1 ≡ done (ParserState.chunk_complete, r, b2))
      × (r.chunk ≡ some pk)
      × (packet_bytes pk ≡ packet_bytes packet)
      × Holds b2 rest
unfolding parse_in
parse-chunk p buf packet rest st fresh some_bytes small whole h s =
    let (b1, line, h1, s1) = chunk_line_lem p buf packet (packet_bytes packet ++ rest) small h s in
    let q = with_length p packet.size in
    let in_body : q.state ≡ ParserState.chunk_body = rw (==_ne packet.size 0 (omega arith)) refl in
    let (pk, b2, body, same, h2) =
      chunk_body_lem q b1 (packet_bytes packet) rest (ap pos (sym whole)) fresh (omega arith) h1
        s1 in
    (
      q,
      record q { chunk = some pk; cur_chunk_length = pos 0; state = ParserState.chunk_complete },
      b1,
      b2,
      pk,
      parse-parse_in p buf ParserState.chunk_len st (
            present h s (
              omega (
                arith,
                length-append (chunk_line packet) (packet_bytes packet ++ rest),
                length-append (packet_bytes packet) rest,
              )))
          ∙ line
          ∙ ap (λ (s : ParserState). done (s, q, b1)) in_body,
      parse-parse_in q b1 ParserState.chunk_body in_body
            (present h1 s1 (omega (arith, length-append (packet_bytes packet) rest)))
          ∙ rw body refl,
      refl,
      same,
      h2,
    )
  where
    present :
        {b : MsgBuffer} {x : Bytes}
        → Holds b x
        → length b.buffer < 2 ^ 31
        → 0 < length x
        → 0 < readable_bytes b
    present h s l = omega (arith, length-peek h.valid (omega (arith, s)), ap length h.holds)
