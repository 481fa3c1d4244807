-- ===== src/Buffer/Ensure.antt =====
-- `EnsureWritableBytes`: it makes room, keeps the readable bytes and the invariant.
use http_nest.Prelude.{
  ℕ, zero, suc, ◌+◌, ◌%◌, ◌^◌, ◌≤◌, ◌<◌, ◌≡◌, ◌∙◌, ap, refl, inl, inr, true, [], ◌++◌, arith, tests,
  leb, leb→le, le→leb, Bool-cases, length, length-replicate, slice, slice_empty, Bytes,
}
use http_nest.Buffer.Memory.{length-splice, slice-splice_after}
use http_nest.Buffer.Invariant.{
  IsValid, HasRoom, address_limit, readable_lem, writable_lem, length-peek, new_buffer-IsValid,
  store-Stored,
}
use http_nest.Buffer.{
  MsgBuffer, new_buffer, readable_bytes, writable_bytes, peek, store, compact, grown_length,
  ensure_to, ensure_writable_bytes, buffer_offset, add_size,
}

-- What the move of the readable bytes to the front does.
pub record Compacted (b c : MsgBuffer) : Type 0 where
  pub valid : IsValid c
  pub holds : peek c ≡ peek b
  pub tail_at : c.tail ≡ buffer_offset + length (peek b)
  pub as_long : length c.buffer ≡ length b.buffer

module _ {b : MsgBuffer} (v : IsValid b) (s : length b.buffer < address_limit) where
  tail-compact : (compact b).tail ≡ buffer_offset + length (peek b)
  unfolding compact readable_bytes
  tail-compact = omega (arith, length-peek v s, v.ordered, v.inside)

  peek-compact : buffer_offset + length (peek b) ≤ length b.buffer → peek (compact b) ≡ peek b
  unfolding compact
  peek-compact r =
      unfold peek in
      (slice-splice_after 8 8 (compact b).tail (slice b.head b.tail b.buffer) b.buffer (omega arith)
          tail-compact (omega (arith, tail-compact))
        ∙ ap (λ (xs : Bytes). xs ++ slice b.head b.tail b.buffer) (slice_empty 8 b.buffer))

  pub compact-Compacted :
      buffer_offset + length (peek b) ≤ length b.buffer → Compacted b (compact b)
  unfolding compact
  compact-Compacted r =
      let l = length-splice buffer_offset (peek b) b.buffer in
      record {
        valid = record {
          ordered = omega (arith, tail-compact);
          inside = omega (arith, l, tail-compact);
          prefix = omega (arith, l, v.prefix);
          reserve = v.reserve;
          bounded = omega (arith, l, v.bounded);
        };
        holds = peek-compact r;
        tail_at = tail-compact;
        as_long = l;
      }

-- What `EnsureWritableBytes` promises.
pub record Ensured (b : MsgBuffer) (len : ℕ) (c : MsgBuffer) : Type 0 where
  pub valid : IsValid c
  pub holds : peek c ≡ peek b
  pub room : HasRoom c len
  pub small : length c.buffer < 2 ^ 62

pub peek-new_buffer : (len : ℕ) → peek (new_buffer len) ≡ []
unfolding peek new_buffer
peek-new_buffer len = slice_empty 8 _

pub new_buffer_lem :
    (n : ℕ)
    → n < 2 ^ 62
    → (length (new_buffer n).buffer ≡ n + buffer_offset)
      × (writable_bytes (new_buffer n) ≡ n)
      × ((new_buffer n).tail ≡ buffer_offset)
unfolding new_buffer writable_bytes
new_buffer_lem n h =
    let l = length-replicate {0} {A = ℕ} ((n + 8) % 2 ^ 64) 0 in
    (omega (arith, l), omega (arith, l), refl)

pub tail-store : (b : MsgBuffer) (src : Bytes) → (store b src).tail ≡ add_size b.tail (length src)
unfolding store
tail-store b src = refl

-- A buffer with room is left as it is, however deep the calls may still go.
pub ensure_to_enough :
    (depth : ℕ) (b : MsgBuffer) (len : ℕ) → len ≤ writable_bytes b → ensure_to depth b len ≡ b
unfolding ensure_to
ensure_to_enough zero b len h = refl
ensure_to_enough (suc depth) b len h = rw (le→leb len (writable_bytes b) h)

module _ {b : MsgBuffer} (v : IsValid b) (s : length b.buffer < address_limit) where
  grown_length_bounds :
      (len : ℕ)
      → len < address_limit
      → (buffer_offset + length (peek b) + len ≤ grown_length b len)
        × (length b.buffer ≤ grown_length b len)
        × (grown_length b len < 2 ^ 61 + 2 ^ 60)
  unfolding grown_length
  grown_length_bounds len h = ground (arith, length-peek v s, readable_lem v s)

  -- The new storage that `EnsureWritableBytes` allocates, with the old bytes in it.
  regrown-Ensured :
      (len n : ℕ)
      → len < address_limit
      → n ≡ grown_length b len
      → Ensured b len (store (ensure_to 1 (new_buffer n) (readable_bytes b)) (peek b))
  regrown-Ensured len n h e =
      let (g, l, m) = grown_length_bounds len h in
      let (long, room, at) = new_buffer_lem n (omega arith) in
      let r = length-peek v s in
      let st =
        store-Stored (new_buffer n) (peek b)
          (new_buffer-IsValid n (omega (arith, v.prefix)) (omega arith)) (omega arith)
          (omega arith) in
      rw (ensure_to_enough 1 (new_buffer n) (readable_bytes b) (omega arith)) (record {
        valid = st.valid;
        holds = st.holds ∙ ap (λ (xs : Bytes). xs ++ peek b) (peek-new_buffer n);
        room = omega (arith, tail-store (new_buffer n) (peek b), st.as_long);
        small = omega (arith, st.as_long);
      })

  -- `EnsureWritableBytes` on a valid buffer whose storage, like the length asked for, is below the
  -- address limit gives the room asked for, keeps the buffer valid and its readable bytes as they
  -- were, and leaves a storage below 2 ^ 62.
  pub ensure-Ensured : (len : ℕ) → len < address_limit → Ensured b len (ensure_writable_bytes b len)
  unfolding ensure_writable_bytes ensure_to
  ensure-Ensured len h = elim (Bool-cases (leb len (writable_bytes b))) [
    | inl enough ↦ rw enough (record {
      valid = v;
      holds = refl;
      room = omega (tests, writable_lem v s);
      small = omega arith;
    })
    | inr short ↦
        rw short
          (elim (Bool-cases
            (leb (add_size len buffer_offset) (add_size b.head (writable_bytes b)))) [
              | inl fits ↦ rw fits (
                  from_compact (compact-Compacted v s (omega (arith, f0 fits)))
                    (omega (arith, f0 fits)))
              | inr full ↦ rw full (regrown-Ensured len _ h refl)
            ])
  ]
    where
      f0 :
          leb (add_size len buffer_offset) (add_size b.head (writable_bytes b)) ≡ true
          → buffer_offset + length (peek b) + len ≤ length b.buffer
      f0 e = omega (
        tests,
        leb→le (add_size len buffer_offset) (add_size b.head (writable_bytes b)) e,
        writable_lem v s,
        readable_lem v s,
        length-peek v s,
      )

      from_compact :
          Compacted b (compact b)
          → buffer_offset + length (peek b) + len ≤ length b.buffer
          → Ensured b len (compact b)
      from_compact c f = record {
        valid = c.valid;
        holds = c.holds;
        room = omega (arith, c.tail_at, c.as_long);
        small = omega (arith, c.as_long);
      }
