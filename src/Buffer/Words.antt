-- ===== src/Buffer/Words.antt =====
-- The integer operations of `MsgBuffer`: AppendInt8 to AppendInt64, AddInFrontInt8 to
-- AddInFrontInt64, PeekInt8 to PeekInt64 and ReadInt8 to ReadInt64, for a width in bytes.
use mathlib.Core.List.{reverse}
use http_nest.Prelude.{
  ℕ, ◌+◌, ◌^◌, ◌<◌, ◌≤◌, ◌≡◌, ◌∙◌, ap, refl, ◌++◌, Option, none, some, arith, leb, le→leb,
  if◌then◌else◌, length, length-append, take, slice, slice-take, take-append, drop-append, Bytes,
}
use http_nest.Buffer.Endian.{
  to_le, from_le, hton, length-to_le, to_le-hton, hton_lem, hton-hton, length-reverse,
}
use http_nest.Buffer.Invariant.{IsValid, address_limit, readable_lem, length-peek}
use http_nest.Buffer.Contents.{Holds, append-Holds, retrieve-Holds}
use http_nest.Buffer.Front.{add_in_front-Holds}
use http_nest.Buffer.{
  MsgBuffer, readable_bytes, peek, append, retrieve, add_in_front, add_size, buffer_offset,
}

unfoldable pub append_int : ℕ → MsgBuffer → ℕ → MsgBuffer
append_int width b v = append b (to_le width (hton width v))

unfoldable pub add_in_front_int : ℕ → MsgBuffer → ℕ → MsgBuffer
add_in_front_int width b v = add_in_front b (to_le width (hton width v))

-- `none` stands for the failing `assert`.
unfoldable pub peek_int : ℕ → MsgBuffer → Option ℕ
peek_int width b =
    if leb width (readable_bytes b)
    then some (hton width (from_le (slice b.head (add_size b.head width) b.buffer)))
    else none

unfoldable pub read_int : ℕ → MsgBuffer → Option ℕ × MsgBuffer
unfolding peek_int
read_int width b = (peek_int width b, retrieve b width)

-- An integer as it stands in a message: most significant byte first.
abbrev pub wire : ℕ → ℕ → Bytes
wire width v = reverse (to_le width v)

length-wire : (width v : ℕ) → length (wire width v) ≡ width
length-wire width v = length-reverse (to_le width v) ∙ length-to_le width v

peek_lem : (b : MsgBuffer) → slice b.head b.tail b.buffer ≡ peek b
unfolding peek
peek_lem b = refl

module _ {b : MsgBuffer} (v : IsValid b) (s : length b.buffer < address_limit) where
  pub append_int-Holds :
      (width n : ℕ) → width < address_limit → Holds (append_int width b n) (peek b ++ wire width n)
  unfolding append_int
  append_int-Holds width n h =
      rw (to_le-hton width n) (append-Holds v s (wire width n) (omega (arith, length-wire width n)))

  pub add_in_front_int-Holds :
      (width n : ℕ)
      → width + length b.buffer + buffer_offset < address_limit
      → Holds (add_in_front_int width b n) (wire width n ++ peek b)
  unfolding add_in_front_int
  add_in_front_int-Holds width n h =
      rw (to_le-hton width n)
        (add_in_front-Holds v s (wire width n) (omega (arith, length-wire width n)))

  -- An integer at the front of the readable bytes of a valid buffer, most significant byte first, is
  -- read back, and the bytes behind it are left.
  pub read_int-wire :
      (width n : ℕ) (rest : Bytes)
      → n < 256 ^ width
      → peek b ≡ wire width n ++ rest
      → ((read_int width b).0 ≡ some n) × Holds (read_int width b).1 rest
  unfolding read_int
  read_int-wire width n rest h e =
      let l = length-wire width n in
      let p = length-peek v s in
      let fits : width ≤ readable_bytes b =
        omega (arith, p, ap length e, length-append (wire width n) rest) in
      let at : add_size b.head width ≡ b.head + width = omega (arith, readable_lem v s, v.inside) in
      let front : slice b.head (add_size b.head width) b.buffer ≡ wire width n =
        memory at (omega (arith, readable_lem v s))
        ∙ take-append width (wire width n) rest (omega arith) in
      (
        rw (le→leb width (readable_bytes b) fits, front, ← hton_lem width n, hton-hton width n h),
        rw (e, drop-append width (wire width n) rest (omega arith)) at (retrieve-Holds v s width),
      )
    where
      memory :
          add_size b.head width ≡ b.head + width
          → b.head + width ≤ b.tail
          → slice b.head (add_size b.head width) b.buffer ≡ take width (wire width n ++ rest)
      memory at in_range =
          slice-take _ width b.head b.tail b.buffer at (omega arith)
          ∙ ap (take width) (peek_lem b ∙ e)
