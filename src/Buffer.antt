-- ===== src/Buffer.antt =====
-- MsgBuffer: src/network/base/MsgBuffer.h and MsgBuffer.cpp (src/ of the repository).
-- The storage is a list of bytes; `head` and `tail` are the `size_t` offsets of the source, and
-- `size_t` arithmetic wraps.
pub mod Memory
pub mod Endian
pub mod Invariant
pub mod Ensure
pub mod Contents
pub mod Front
pub mod Refine
pub mod Words
mod Tests
use http_nest.Prelude.{
  ℕ, zero, suc, ◌+◌, ◌-◌, ◌*◌, ◌%◌, ◌^◌, Bool, List, [], ◌∷◌, ◌++◌, Option, none, some, length,
  take, drop, slice, replicate, get_elem?, leb, ltb, if◌then◌else◌, ◌==◌, ◌&&◌, Bytes, search,
}
use Memory.{splice, resize}

pub record MsgBuffer : Type 0 where
  pub head : ℕ
  pub init_cap : ℕ
  pub buffer : Bytes
  pub tail : ℕ

-- `size_t` arithmetic.
abbrev pub add_size : ℕ → ℕ → ℕ
add_size a b = (a + b) % 2 ^ 64

abbrev pub sub_size : ℕ → ℕ → ℕ
sub_size a b = (a + 2 ^ 64 - b) % 2 ^ 64

abbrev pub mul_size : ℕ → ℕ → ℕ
mul_size a b = (a * b) % 2 ^ 64

-- `kBufferOffset` and `kBufferDefaultLength`.
abbrev pub buffer_offset : ℕ
buffer_offset = 8

abbrev pub buffer_default_length : ℕ
buffer_default_length = 2048

-- The constructor. The vector's elements are value-initialised.
unfoldable pub new_buffer : ℕ → MsgBuffer
new_buffer len = record {
  head = buffer_offset;
  init_cap = len;
  buffer = replicate (add_size len buffer_offset) 0;
  tail = buffer_offset;
}

unfoldable pub readable_bytes : MsgBuffer → ℕ
readable_bytes b = sub_size b.tail b.head

unfoldable pub writable_bytes : MsgBuffer → ℕ
writable_bytes b = sub_size (length b.buffer) b.tail

-- The bytes from `Peek()` up to `BeginWrite()`.
unfoldable pub peek : MsgBuffer → Bytes
peek b = slice b.head b.tail b.buffer

-- The `memcpy` at `tail_` and the step of `tail_` that end both `Append`s.
unfoldable pub store : MsgBuffer → Bytes → MsgBuffer
store b src = record b { buffer = splice b.tail src b.buffer; tail = add_size b.tail (length src) }

-- The move of the readable bytes down to `kBufferOffset`.
unfoldable pub compact : MsgBuffer → MsgBuffer
compact b = record b {
  head = buffer_offset;
  buffer = splice buffer_offset (peek b) b.buffer;
  tail = add_size buffer_offset (sub_size b.tail b.head);
}

-- The length of the new storage in `EnsureWritableBytes`.
unfoldable pub grown_length : MsgBuffer → ℕ → ℕ
grown_length b len =
    let needed = add_size (add_size buffer_offset (readable_bytes b)) len in
    let doubled = mul_size (length b.buffer) 2 in if ltb needed doubled then doubled else needed

-- `EnsureWritableBytes`, which calls itself through `Append` on the new buffer. The number bounds
-- the depth of these calls; a depth of two is reached, since the new buffer has room.
unfoldable pub ensure_to : ℕ → MsgBuffer → ℕ → MsgBuffer
ensure_to zero b len = b
ensure_to (suc depth) b len =
    let regrown =
      store (ensure_to depth (new_buffer (grown_length b len)) (readable_bytes b)) (peek b) in
    if leb len (writable_bytes b)
    then b
    else if leb (add_size len buffer_offset) (add_size b.head (writable_bytes b))
    then compact b
    else regrown

unfoldable pub ensure_writable_bytes : MsgBuffer → ℕ → MsgBuffer
ensure_writable_bytes = ensure_to 2

-- `Append(buf, len)`; `Append(const MsgBuffer &)` is the same on that buffer's readable bytes.
unfoldable pub append : MsgBuffer → Bytes → MsgBuffer
append b src = store (ensure_writable_bytes b (length src)) src

unfoldable pub append_buffer : MsgBuffer → MsgBuffer → MsgBuffer
append_buffer b other = store (ensure_writable_bytes b (readable_bytes other)) (peek other)

unfoldable pub retrieve_all : MsgBuffer → MsgBuffer
retrieve_all b = record b {
  head = buffer_offset;
  buffer =
      if ltb (mul_size b.init_cap 2) (length b.buffer)
      then resize b.init_cap b.buffer
      else b.buffer;
  tail = buffer_offset;
}

unfoldable pub retrieve : MsgBuffer → ℕ → MsgBuffer
retrieve b len =
    if leb (readable_bytes b) len then retrieve_all b else record b { head = add_size b.head len }

-- `Read`: the bytes returned, and the buffer after.
unfoldable pub read : MsgBuffer → ℕ → Bytes × MsgBuffer
read b len =
    let n = if ltb (readable_bytes b) len then readable_bytes b else len in
    (take n (peek b), retrieve b n)

-- `std::copy` of the readable bytes to `pos`, which the library does as a `memmove`.
unfoldable pub move_to : MsgBuffer → ℕ → Bytes
move_to b pos = splice pos (peek b) b.buffer

unfoldable pub add_in_front : MsgBuffer → Bytes → MsgBuffer
unfolding move_to
add_in_front b src =
    let len = length src in
    let before = sub_size b.head len in
    let needed = add_size len (readable_bytes b) in
    if leb len b.head
    then record b { head = before; buffer = splice before src b.buffer }
    else if leb len (writable_bytes b)
    then record b {
      buffer = splice b.head src (move_to b (add_size b.head len));
      tail = add_size b.tail len;
    }
    else append_buffer
        (append (new_buffer (if ltb needed b.init_cap then b.init_cap else needed)) src) b

-- What `readv` did: the bytes that it put into the two areas, in order, or `errno`.
pub data Received : Type 0 where
  bytes : Bytes → Received
  failed : ℕ → Received

-- How many bytes `ReadFd` offers to `readv`: the second area is used if the first one is short.
unfoldable pub offered : MsgBuffer → ℕ
offered b = if ltb (writable_bytes b) 8192 then writable_bytes b + 8192 else writable_bytes b

unfoldable pub read_fd : MsgBuffer → Received → MsgBuffer
read_fd b (failed errno) = b
read_fd b (bytes src) =
    let n = writable_bytes b in
    if leb (length src) n
    then store b src
    else append (record b { buffer = splice b.tail (take n src) b.buffer; tail = length b.buffer })
        (drop n src)

abbrev pub crlf : Bytes
crlf = 13 ∷ 10 ∷ []

-- `FindCRLF`, as an offset from `Peek()`.
unfoldable pub find_crlf : MsgBuffer → Option ℕ
unfolding search
find_crlf b = search crlf (peek b)

-- `RetrieveUntil(Peek() + n)`; `none` if an assertion fails, here that the position is not behind the bytes.
unfoldable pub retrieve_until : MsgBuffer → ℕ → Option MsgBuffer
retrieve_until b n = if leb n (readable_bytes b) then some (retrieve b n) else none

-- `HasWritten` and `Unwrite`.
unfoldable pub has_written : MsgBuffer → ℕ → Option MsgBuffer
has_written b len =
    if leb len (writable_bytes b) then some (record b { tail = add_size b.tail len }) else none

unfoldable pub unwrite : MsgBuffer → ℕ → Option MsgBuffer
unwrite b offset =
    if leb offset (readable_bytes b)
    then some (record b { tail = sub_size b.tail offset })
    else none
