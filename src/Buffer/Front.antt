-- ===== src/Buffer/Front.antt =====
-- `AddInFront` and `ReadFd`: the two operations that build on `Append`.
use http_nest.Prelude.{
  ℕ, ◌+◌, ◌^◌, ◌≤◌, ◌<◌, ◌≡◌, ◌∙◌, ap, refl, inl, inr, ◌++◌, arith, leb, ltb, leb→le, not_leb→lt,
  Bool-cases, length, slice_empty, take, drop, take-append-drop, length-take, length-drop,
  append_assoc, Bytes, if◌then◌else◌,
}
use http_nest.Buffer.Memory.{splice, length-splice, slice-splice_after, slice-splice_before}
use http_nest.Buffer.Invariant.{
  IsValid, Stored, address_limit, readable_lem, writable_lem, length-peek, new_buffer-IsValid,
  store-Stored,
}
use http_nest.Buffer.Ensure.{ensure_to_enough, new_buffer_lem, peek-new_buffer}
use http_nest.Buffer.Contents.{Holds, append-Holds, append_buffer-Holds}
use http_nest.Buffer.{
  MsgBuffer, new_buffer, readable_bytes, writable_bytes, peek, append, append_buffer,
  ensure_writable_bytes, move_to, add_in_front, bytes, read_fd, buffer_offset, add_size, sub_size,
}

module _ {b : MsgBuffer} (v : IsValid b) (s : length b.buffer < address_limit) where
  add_in_front_before :
      (src : Bytes)
      → length src ≤ b.head
      → Holds
          (record b {
            head = sub_size b.head (length src);
            buffer = splice (sub_size b.head (length src)) src b.buffer;
          })
          (src ++ peek b)
  unfolding peek
  add_in_front_before src h =
      let pos = sub_size b.head (length src) in
      let e : b.head ≡ pos + length src = omega (arith, v.ordered, v.inside) in
      let l = length-splice pos src b.buffer in
      record {
        valid = record {
          ordered = omega (arith, v.ordered);
          inside = omega (arith, l, v.inside);
          prefix = omega (arith, l, v.prefix);
          reserve = v.reserve;
          bounded = omega (arith, l, v.bounded);
        };
        holds = slice-splice_before pos b.head b.tail src b.buffer e v.ordered v.inside;
      }

  add_in_front_shift :
      (src : Bytes)
      → length src ≤ writable_bytes b
      → Holds
          (record b {
            buffer = splice b.head src (splice (add_size b.head (length src)) (peek b) b.buffer);
            tail = add_size b.tail (length src);
          })
          (src ++ peek b)
  add_in_front_shift src h =
      let w = writable_lem v s in
      let r = readable_lem v s in
      let p = length-peek v s in
      let from : add_size b.head (length src) ≡ b.head + length src = omega (arith, v.inside) in
      let to : add_size b.tail (length src) ≡ b.tail + length src = omega (arith, v.inside) in
      let moved = splice (add_size b.head (length src)) (peek b) b.buffer in
      let l = length-splice (add_size b.head (length src)) (peek b) b.buffer in
      let l' = length-splice b.head src moved in
      record {
        valid = record {
          ordered = omega (arith, v.ordered);
          inside = omega (arith, l, l', v.inside);
          prefix = omega (arith, l, l', v.prefix);
          reserve = v.reserve;
          bounded = omega (arith, l, l', v.bounded);
        };
        holds =
            unfold peek in
            (slice-splice_before b.head (add_size b.head (length src))
                (add_size b.tail (length src)) src moved from (omega (arith, v.ordered))
                (omega arith)
              ∙ ap (◌++◌ src) (
                  slice-splice_after _ (add_size b.head (length src)) (add_size b.tail (length src))
                    (peek b) b.buffer (omega arith) (omega (arith, v.ordered)) (omega arith)
                  ∙ ap (λ (xs : Bytes). xs ++ peek b) (slice_empty _ b.buffer)));
      }

  -- A fresh buffer of at least the length of `src` takes it without growing.
  fresh-Holds :
      (n : ℕ) (src : Bytes)
      → length src ≤ n
      → buffer_offset ≤ n
      → n < 2 ^ 61
      → Stored (new_buffer n) src (append (new_buffer n) src)
  unfolding append ensure_writable_bytes
  fresh-Holds n src h o f =
      let (long, room, at) = new_buffer_lem n (omega arith) in
      rw (ensure_to_enough 2 (new_buffer n) (length src) (omega arith)) (
        store-Stored (new_buffer n) src (new_buffer-IsValid n o (omega arith)) (omega arith)
          (omega arith))

  add_in_front_regrow :
      (n : ℕ) (src : Bytes)
      → length src ≤ n
      → buffer_offset ≤ n
      → n + buffer_offset < address_limit
      → Holds (append_buffer (append (new_buffer n) src) b) (src ++ peek b)
  add_in_front_regrow n src h o f =
      let (long, room, at) = new_buffer_lem n (omega arith) in
      let st = fresh-Holds n src h o (omega arith) in
      let a = append_buffer-Holds st.valid (omega (arith, st.as_long)) v s in
      record {
        valid = a.valid;
        holds =
            a.holds
            ∙ ap (λ (xs : Bytes). xs ++ peek b)
                (st.holds ∙ ap (λ (xs : Bytes). xs ++ src) (peek-new_buffer n));
      }

  front_length_bounds :
      (len : ℕ)
      → len + length b.buffer + buffer_offset < address_limit
      → let needed = add_size len (readable_bytes b) in
        let n = if ltb needed b.init_cap then b.init_cap else needed in
        (len ≤ n) × (buffer_offset ≤ n) × (n + buffer_offset < address_limit)
  front_length_bounds len h = ground (arith, readable_lem v s, v.inside, v.reserve, v.bounded)

  -- `AddInFront` puts the new bytes in front of the readable ones, on each of its three paths.
  pub add_in_front-Holds :
      (src : Bytes)
      → length src + length b.buffer + buffer_offset < address_limit
      → Holds (add_in_front b src) (src ++ peek b)
  unfolding add_in_front
  add_in_front-Holds src h = elim (Bool-cases (leb (length src) b.head)) [
    | inl before ↦ rw before (add_in_front_before src (leb→le (length src) b.head before))
    | inr far ↦ rw far (elim (Bool-cases (leb (length src) (writable_bytes b))) [
      | inl room ↦ rw room (unfold move_to in add_in_front_shift src (leb→le (length src) _ room))
      | inr full ↦ rw full (
          add_in_front_regrow _ src (front_length_bounds (length src) h).0
            (front_length_bounds (length src) h).1 (front_length_bounds (length src) h).2)
    ])
  ]

  filled-Stored :
      (src : Bytes)
      → writable_bytes b ≤ length src
      → Stored b (take (writable_bytes b) src) (record b {
        buffer = splice b.tail (take (writable_bytes b) src) b.buffer;
        tail = length b.buffer;
      })
  filled-Stored src h =
      let l = length-splice b.tail (take (writable_bytes b) src) b.buffer in
      let t = length-take {0} (writable_bytes b) src in
      record {
        valid = record {
          ordered = omega (arith, v.ordered, v.inside);
          inside = omega (arith, l);
          prefix = omega (arith, l, v.prefix);
          reserve = v.reserve;
          bounded = omega (arith, l, v.bounded);
        };
        holds =
            unfold peek in
            slice-splice_after b.head b.tail (length b.buffer) (take (writable_bytes b) src)
              b.buffer v.ordered (omega (arith, writable_lem v s, t)) (omega arith);
        as_long = l;
        same_cap = refl;
      }

  -- `ReadFd` puts what `readv` delivered behind the readable bytes, from one area or from both, and
  -- leaves the buffer as it was when `readv` failed.
  pub read_fd-Holds :
      (src : Bytes) → length src < address_limit → Holds (read_fd b (bytes src)) (peek b ++ src)
  unfolding read_fd
  read_fd-Holds src h = elim (Bool-cases (leb (length src) (writable_bytes b))) [
    | inl fits ↦
        let f = leb→le (length src) (writable_bytes b) fits in
        let st = store-Stored b src v (omega arith) (omega (arith, writable_lem v s)) in
        rw fits (record { valid = st.valid; holds = st.holds })
    | inr over ↦
        let o = not_leb→lt (length src) (writable_bytes b) over in
        let n = writable_bytes b in
        let st = filled-Stored src (omega arith) in
        let a =
          append-Holds st.valid (omega (arith, st.as_long)) (drop n src)
            (omega (arith, length-drop {0} n src)) in
        rw over (record {
          valid = a.valid;
          holds =
              a.holds
              ∙ ap (λ (xs : Bytes). xs ++ drop n src) st.holds
              ∙ append_assoc (peek b) (take n src) (drop n src)
              ∙ ap (◌++◌ (peek b)) (take-append-drop n src);
        })
  ]
