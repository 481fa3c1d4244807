-- ===== src/Buffer/Contents.antt =====
-- What the operations of `MsgBuffer` do to the readable bytes.
use http_nest.Prelude.{
  ℕ, ◌+◌, ◌%◌, ◌^◌, ◌≤◌, ◌<◌, ◌≡◌, ◌∙◌, ap, refl, inl, inr, [], ◌++◌, arith, tests, leb, ltb,
  leb→le, not_leb→lt, Bool-cases, length, slice_empty, slice-drop, take, drop, take_all, drop_all,
  ltb→lt, Bytes,
}
use http_nest.Buffer.Memory.{length-resize}
use http_nest.Buffer.Invariant.{IsValid, address_limit, readable_lem, length-peek, store-Stored}
use http_nest.Buffer.Ensure.{Ensured, ensure-Ensured}
use http_nest.Buffer.{
  MsgBuffer, readable_bytes, peek, store, append, append_buffer, retrieve_all, retrieve, read,
}

-- The buffer is valid and holds these bytes.
pub record Holds (c : MsgBuffer) (content : Bytes) : Type 0 where
  pub valid : IsValid c
  pub holds : peek c ≡ content

module _ {b : MsgBuffer} (v : IsValid b) (s : length b.buffer < address_limit) where
  store-Holds :
      (src : Bytes)
      → length src < address_limit
      → {c : MsgBuffer} → Ensured b (length src) c
      → Holds (store c src) (peek b ++ src)
  store-Holds src h {c} e =
      let st = store-Stored c src e.valid e.small e.room in
      record { valid = st.valid; holds = st.holds ∙ ap (λ (xs : Bytes). xs ++ src) e.holds }

  -- `Append` keeps the invariant and puts the new bytes behind the readable ones.
  pub append-Holds :
      (src : Bytes) → length src < address_limit → Holds (append b src) (peek b ++ src)
  unfolding append
  append-Holds src h = store-Holds src h (ensure-Ensured v s (length src) h)

  pub append_buffer-Holds :
      {other : MsgBuffer}
      → IsValid other
      → length other.buffer < address_limit
      → Holds (append_buffer b other) (peek b ++ peek other)
  unfolding append_buffer
  append_buffer-Holds {other} w t =
      let l = length-peek w t in
      let small : length (peek other) < address_limit =
        omega (arith, l, readable_lem w t, w.inside) in
      store-Holds (peek other) small (rw (← l) (ensure-Ensured v s (length (peek other)) small))

  pub retrieve_all-Holds : Holds (retrieve_all b) []
  unfolding retrieve_all peek
  retrieve_all-Holds = record { valid = kept; holds = slice_empty 8 _ }
    where
      kept : IsValid (retrieve_all b)
      kept = ground (arith, length-resize b.init_cap b.buffer)

  -- `Retrieve` drops bytes at the front, at most all.
  pub retrieve-Holds : (n : ℕ) → Holds (retrieve b n) (drop n (peek b))
  unfolding retrieve
  retrieve-Holds n = elim (Bool-cases (leb (readable_bytes b) n)) [
    | inl over ↦
        rw
          (
            over,
            drop_all n (peek b) (omega (tests, length-peek v s, leb→le (readable_bytes b) n over)),
          )
          retrieve_all-Holds
    | inr within ↦
        let h = not_leb→lt (readable_bytes b) n within in
        let r = readable_lem v s in
        let e : (b.head + n) % 2 ^ 64 ≡ b.head + n = omega (arith, v.inside) in
        rw within (record {
          valid = record {
            ordered = omega arith;
            inside = v.inside;
            prefix = v.prefix;
            reserve = v.reserve;
            bounded = v.bounded;
          };
          holds = unfold peek in slice-drop _ n b.head b.tail b.buffer e;
        })
  ]

  pub length-retrieve-le : (n : ℕ) → length (retrieve b n).buffer ≤ length b.buffer
  unfolding retrieve retrieve_all
  length-retrieve-le n = ground (arith, length-resize b.init_cap b.buffer, v.bounded)

  -- `Read` returns that many readable bytes, or all of them, and drops them.
  pub read-Holds :
      (len : ℕ) → ((read b len).0 ≡ take len (peek b)) × Holds (read b len).1 (drop len (peek b))
  unfolding read
  read-Holds len =
      let l = length-peek v s in
      elim (Bool-cases (ltb (readable_bytes b) len)) [
        | inl over ↦
            let h = ltb→lt (readable_bytes b) len over in
            rw
              (
                over,
                take_all (readable_bytes b) (peek b) (omega arith),
                take_all len (peek b) (omega arith),
                drop_all len (peek b) (omega arith),
              )
              (
                refl,
                rw (drop_all (readable_bytes b) (peek b) (omega arith)) at
                    (retrieve-Holds (readable_bytes b)),
              )
        | inr within ↦ rw within (refl, retrieve-Holds len)
      ]
