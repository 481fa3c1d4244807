-- ===== src/TcpConnection/Refused.antt =====
-- `SendInLoop` when the system refuses its `write`.
use http_nest.Prelude.{
  ℕ, suc, ◌+◌, ◌-◌, ◌%◌, ◌^◌, ◌<◌, ◌≡◌, refl, arith, false, [], ◌∷◌, append-nil, ==_ne, lt→ltb,
}
use http_nest.Buffer.{add_size, sub_size}
use http_nest.TcpConnection.{
  Memory, load, contents, refused, Conn, enable_writing, queue_rest, send_rest, send_directly,
  send_in_loop,
}

-- If `write` fails, with whatever errno, in `SendInLoop` of `size` bytes on an open connection with an
-- empty queue, the connection stays open and queues one byte too many, from the byte before the
-- caller's on.
pub send_in_loop-refused :
    (mem : Memory) (buf size errno : ℕ) (c : Conn)
    → c.is_closed ≡ false
    → c.iovec_list ≡ []
    → 0 < buf
    → buf < 2 ^ 64
    → size + 1 < 2 ^ 64
    → (contents mem (send_in_loop mem buf size (refused errno) c).iovec_list
        ≡ mem (buf - 1) ∷ load mem buf size)
      × ((send_in_loop mem buf size (refused errno) c).is_closed ≡ false)
unfolding send_in_loop send_directly send_rest queue_rest enable_writing contents load
send_in_loop-refused mem buf size errno c o q lo hi s =
    rw
      (
        o,
        q,
        send_in_loop,
        wrapped size s,
        ==_ne (size + 1) 0 (λ e. omega arith),
        lt→ltb 0 (size + 1) (omega arith),
        before buf lo hi,
        suc_form size,
      )
      (rw (append-nil, in_range buf hi, after buf lo) refl, refl)
  where
    wrapped : (size : ℕ) → size + 1 < 2 ^ 64 → sub_size size (2 ^ 64 - 1) ≡ size + 1
    wrapped size s = omega arith

    before : (buf : ℕ) → 0 < buf → buf < 2 ^ 64 → add_size buf (2 ^ 64 - 1) ≡ buf - 1
    before buf lo hi = omega arith

    in_range : (buf : ℕ) → buf < 2 ^ 64 → (buf - 1) % 2 ^ 64 ≡ buf - 1
    in_range buf hi = omega arith

    after : (buf : ℕ) → 0 < buf → buf - 1 + 1 ≡ buf
    after buf lo = omega arith

    suc_form : (size : ℕ) → size + 1 ≡ suc size
    suc_form size = omega arith
