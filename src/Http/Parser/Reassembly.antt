-- ===== src/Http/Parser/Reassembly.antt =====
-- How far the parser is with a body of known length, and one call of `ParseNormalBody`.
use http_nest.Prelude.{
  ℕ, zero, suc, ◌-◌, ◌<◌, ◌≤◌, ◌≡◌, ◌⊎◌, inl, inr, refl, ap, ◌∙◌, subst, arith, ◌++◌, some, take,
  Bytes, if◌then◌else◌, ◌==◌, ==_ne,
}
use http_nest.Prelude.Int.{pos, ◌-ℤ◌}
use http_nest.Buffer.{MsgBuffer, readable_bytes, peek, retrieve}
use http_nest.Http.Packet.{Packet, packet_bytes}
use http_nest.Http.Outcome.{done}
use http_nest.Http.Parser.State.{ParserState, HttpParser}
use http_nest.Http.Parser.Body.{open_chunk, parse_normal_body}
use http_nest.Http.Parser.Machine.{parse, parse_in}
use http_nest.Http.Parser.Fill.{
  PacketInv, BufferInv, room, filled, moved, fill_chunk_lem, filled-PacketInv, packet_bytes-filled,
  room-filled,
}

-- The parser has `got` of the body, and waits for `left` more bytes.
pub record Awaiting (p : HttpParser) (got : Bytes) (left : ℕ) : Type 0 where
  pub in_body : p.state ≡ ParserState.normal_body
  pub length_is : p.cur_content_length ≡ pos left
  pub packet : Packet
  pub opens : open_chunk p.chunk (pos left) ≡ done packet
  pub packet_ok : PacketInv packet
  pub has_room : room packet ≡ left
  pub has_bytes : packet_bytes packet ≡ got

-- The parser has the whole body.
pub record Complete (p : HttpParser) (body : Bytes) : Type 0 where
  pub at_end : p.state ≡ ParserState.http_complete
  pub none_left : p.cur_content_length ≡ pos 0
  pub packet : Packet
  pub chunk_is : p.chunk ≡ some packet
  pub has_bytes : packet_bytes packet ≡ body

abbrev pub Progress : HttpParser → Bytes → ℕ → Type 0
Progress p got left = ((left ≡ 0) × Complete p got) ⊎ ((0 < left) × Awaiting p got left)

pub Progress-cast :
    {q : HttpParser} {ys zs : Bytes} {n k : ℕ} → ys ≡ zs → n ≡ k → Progress q ys n → Progress q zs k
Progress-cast {q} {ys} {zs} {n} {k} e f pr =
    subst (Progress q zs) f (subst (λ (xs : Bytes). Progress q xs n) e pr)

pub sub_pos : (a b : ℕ) → b ≤ a → pos a -ℤ pos b ≡ pos (a - b)
unfolding ◌-ℤ◌
sub_pos a b h = ground arith

-- The parser behind one call of `ParseNormalBody` that moved `n` bytes.
abbrev pub after_body : HttpParser → Packet → ℕ → HttpParser
after_body p pk rest = record p {
  chunk = some pk;
  cur_content_length = pos rest;
  state = if rest == 0 then ParserState.http_complete else p.state;
}

pub parse_normal_body_lem :
    (p : HttpParser) (buf : MsgBuffer) {got : Bytes} {left : ℕ}
    → (a : Awaiting p got left) → BufferInv buf
    → parse_normal_body p buf
      ≡ done (
        after_body p (filled a.packet buf (moved a.packet buf)) (left - moved a.packet buf),
        retrieve buf (moved a.packet buf),
      )
unfolding parse_normal_body
parse_normal_body_lem p buf {got} {left} a b =
    let f = fill_chunk_lem a.packet_ok b p.chunk (pos left) a.opens in
    rw (a.length_is, f, sub_pos left (moved a.packet buf) (omega (arith, a.has_room)))

pub after_body-Progress :
    (p : HttpParser) (buf : MsgBuffer) {got : Bytes} {left : ℕ}
    → (a : Awaiting p got left) → BufferInv buf
    → let n = moved a.packet buf in
      Progress
        (after_body p (filled a.packet buf n) (left - n))
        (got ++ take n (peek buf))
        (left - n)
after_body-Progress p buf {got} {left} a b = at_rest (left - moved a.packet buf) refl
  where
    n : ℕ
    n = moved a.packet buf

    pk : Packet
    pk = filled a.packet buf n

    bytes_lem : packet_bytes pk ≡ got ++ take n (peek buf)
    bytes_lem =
        packet_bytes-filled a.packet_ok b ∙ ap (λ (xs : Bytes). xs ++ take n (peek buf)) a.has_bytes

    at_rest :
        (rest : ℕ)
        → rest ≡ left - n
        → Progress (after_body p pk rest) (got ++ take n (peek buf)) rest
    at_rest zero e = inl (
      refl,
      record {
        at_end = refl;
        none_left = refl;
        packet = pk;
        chunk_is = refl;
        has_bytes = bytes_lem;
      },
    )
    at_rest (suc rest) e = inr (
      omega arith,
      record {
        in_body = rw (==_ne (suc rest) 0 (omega arith)) a.in_body;
        length_is = refl;
        packet = pk;
        opens = unfold open_chunk in refl;
        packet_ok = filled-PacketInv a.packet_ok b;
        has_room = omega (arith, room-filled a.packet_ok b, a.has_room);
        has_bytes = bytes_lem;
      },
    )

pub parse-parse_in :
    (p : HttpParser) (buf : MsgBuffer) (st : ParserState)
    → p.state ≡ st
    → 0 < readable_bytes buf
    → parse p buf ≡ parse_in st p buf
unfolding parse
parse-parse_in p buf st e h =
    rw (==_ne (readable_bytes buf) 0 (omega arith)) (ap (λ (s : ParserState). parse_in s p buf) e)
