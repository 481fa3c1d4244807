-- ===== src/Buffer/Invariant.antt =====
-- The representation invariant of `MsgBuffer`, and that its operations keep it.
use http_nest.Prelude.{
  ℕ, ◌+◌, ◌-◌, ◌%◌, ◌^◌, ◌≤◌, ◌<◌, ◌≡◌, refl, arith, length, length-replicate, replicate,
  length-slice, ◌++◌, Bytes,
}
use http_nest.Buffer.Memory.{length-splice, length-resize, slice-splice_after}
use http_nest.Buffer.{
  MsgBuffer, new_buffer, readable_bytes, writable_bytes, peek, store, retrieve_all, buffer_offset,
}

-- The offsets are in order and inside the storage, and the capacity that `RetrieveAll` goes back to
-- holds the prefix area.
pub record IsValid (b : MsgBuffer) : Type 0 where
  pub ordered : b.head ≤ b.tail
  pub inside : b.tail ≤ length b.buffer
  pub prefix : buffer_offset ≤ length b.buffer
  pub reserve : buffer_offset ≤ b.init_cap
  pub bounded : b.init_cap ≤ length b.buffer

-- Far below the addresses that a process can use, so that no `size_t` sum wraps.
abbrev pub address_limit : ℕ
address_limit = 2 ^ 60

pub new_buffer-IsValid : (len : ℕ) → buffer_offset ≤ len → len < 2 ^ 62 → IsValid (new_buffer len)
unfolding new_buffer
new_buffer-IsValid len h s = ground (arith, length-replicate {0} {A = ℕ} ((len + 8) % 2 ^ 64) 0)

module _ {b : MsgBuffer} (v : IsValid b) (s : length b.buffer < address_limit) where
  pub readable_lem : readable_bytes b + b.head ≡ b.tail
  unfolding readable_bytes
  readable_lem = omega arith

  pub writable_lem : writable_bytes b + b.tail ≡ length b.buffer
  unfolding writable_bytes
  writable_lem = omega arith

  pub length-peek : length (peek b) ≡ readable_bytes b
  unfolding peek readable_bytes
  length-peek = omega (arith, length-slice b.head b.tail b.buffer v.ordered v.inside)

-- Room for `len` more bytes behind the readable ones.
abbrev pub HasRoom : MsgBuffer → ℕ → Type 0
HasRoom b len = b.tail + len ≤ length b.buffer

-- What `store` does where there is room.
pub record Stored (b : MsgBuffer) (src : Bytes) (c : MsgBuffer) : Type 0 where
  pub valid : IsValid c
  pub holds : peek c ≡ peek b ++ src
  pub as_long : length c.buffer ≡ length b.buffer
  pub same_cap : c.init_cap ≡ b.init_cap

pub store-Stored :
    (b : MsgBuffer) (src : Bytes)
    → IsValid b
    → length b.buffer < 2 ^ 62
    → HasRoom b (length src)
    → Stored b src (store b src)
unfolding store peek
store-Stored b src v s r =
    let e : (b.tail + length src) % 2 ^ 64 ≡ b.tail + length src = omega arith in
    let l = length-splice b.tail src b.buffer in
    record {
      valid = record {
        ordered = omega (arith, v.ordered);
        inside = omega (arith, l);
        prefix = omega (arith, l, v.prefix);
        reserve = v.reserve;
        bounded = omega (arith, l, v.bounded);
      };
      holds = slice-splice_after b.head b.tail _ src b.buffer v.ordered e (omega arith);
      as_long = l;
      same_cap = refl;
    }

-- A buffer made for fewer than eight bytes is broken by its first `RetrieveAll`: the storage is cut
-- below the prefix area, so the free space wraps round to almost 2 ^ 64.
pub writable_bytes-retrieve_all :
    (len : ℕ)
    → len < buffer_offset
    → writable_bytes (retrieve_all (new_buffer len)) ≡ 2 ^ 64 + len - buffer_offset
unfolding new_buffer retrieve_all writable_bytes
writable_bytes-retrieve_all len h = ground (
  arith,
  length-replicate {0} {A = ℕ} ((len + 8) % 2 ^ 64) 0,
  length-resize len (replicate ((len + 8) % 2 ^ 64) 0),
)
