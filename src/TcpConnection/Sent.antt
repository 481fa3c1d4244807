-- ===== src/TcpConnection/Sent.antt =====
-- The connection after `SendInLoop` of some bytes.
use http_nest.Prelude.{ℕ, ◌<◌, ◌≡◌, false, List, [], ◌∷◌, ◌++◌, ltb, ltb→lt, ◌==◌, if_elim, if_no}
use http_nest.Buffer.{add_size, sub_size}
use http_nest.TcpConnection.{
  Iovec, Memory, load, accepted, Conn, is_empty, completed, enable_writing, queue_rest, send_rest,
  send_directly, send_in_loop,
}
use http_nest.TcpConnection.Order.{not_below_zero}
use http_nest.TcpConnection.Ends.{NonEmpty}

-- It is open, and its queue has no empty piece.
pub record Live (c : Conn) : Type 0 where
  pub stays_open : c.is_closed ≡ false
  pub pieces : NonEmpty c.iovec_list

NonEmpty-append :
    (ps : List Iovec) (p : Iovec) → NonEmpty ps → 0 < p.iov_len → NonEmpty (ps ++ p ∷ [])
NonEmpty-append [] p h l = (l, tt)
NonEmpty-append (x ∷ ps) p h l = (h.0, NonEmpty-append ps p h.1 l)

queue_rest-Live : (buf len size : ℕ) (c : Conn) → Live c → Live (queue_rest buf len size c)
unfolding queue_rest enable_writing
queue_rest-Live buf len size c v =
    if_elim Live (ltb 0 size) _ _
      (λ e. record {
        stays_open = v.stays_open;
        pieces =
            NonEmpty-append c.iovec_list (record { iov_base = add_size buf len; iov_len = size })
              v.pieces (ltb→lt 0 size e);
      })
      (λ e. v)

send_rest-Live : (buf size len : ℕ) (c : Conn) → Live c → Live (send_rest buf size len c)
unfolding send_rest completed
send_rest-Live buf size len c v =
    if_elim Live (sub_size size len == 0) _ _
      (λ e. record { stays_open = v.stays_open; pieces = v.pieces })
      (λ e. queue_rest-Live buf len (sub_size size len) c v)

pub send_in_loop-Live :
    (mem : Memory) (buf size n : ℕ) (c : Conn)
    → Live c
    → Live (send_in_loop mem buf size (accepted n) c)
unfolding send_in_loop send_directly
send_in_loop-Live mem buf size n c v = if_no Live c.is_closed _ _ v.stays_open (
    if_elim Live (is_empty c.iovec_list) _ _
      (λ e. if_no Live (ltb n 0) _ _ (not_below_zero n) (
        send_rest-Live buf size n (record c { written = c.written ++ load mem buf n })
          (record { stays_open = v.stays_open; pieces = v.pieces })))
      (λ e. queue_rest-Live buf 0 size c v))
