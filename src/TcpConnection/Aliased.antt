-- ===== src/TcpConnection/Aliased.antt =====
-- A buffer that is changed while a part of it is queued.
use http_nest.Prelude.{
  ℕ, ◌+◌, ◌-◌, ◌^◌, ◌<◌, ◌≡◌, ◌≢◌, ◌∙◌, refl, sym, ap, arith, inl, inr, true, false, List, [], ◌∷◌,
  ◌++◌, append-nil, ltb, lt→ltb, ◌==◌, ==_ne, subst, if_no, if_elim,
}
use http_nest.Buffer.{add_size, sub_size}
use http_nest.Channel.{enable_channel_writing, with_events}
use http_nest.TcpConnection.{
  Iovec, Memory, load, contents, Written, accepted, refused, Conn, ended, is_empty, enable_writing,
  queue_rest, send_rest, send_directly, on_write, send_in_loop,
}
use http_nest.TcpConnection.Steps.{Honest}
use http_nest.TcpConnection.Order.{InOrder, InOrderRun, on_write-InOrder, not_below_zero, or_true}
use http_nest.TcpConnection.Ends.{on_write-Ends}

-- A connection of whose buffer the first `n` bytes are written and the others queued.
record Partly (mem : Memory) (buf size n : ℕ) (c c' : Conn) : Type 0 where
  unclosed : c'.is_closed ≡ false
  wrote : c'.written ≡ c.written ++ load mem buf n
  queue : c'.iovec_list ≡ record { iov_base = add_size buf n; iov_len = size - n } ∷ []
  waits : c'.channel.event.writable ≡ true

send_in_loop-Partly :
    (mem : Memory) (buf size n : ℕ) (c : Conn)
    → c.is_closed ≡ false
    → c.iovec_list ≡ []
    → size < 2 ^ 64
    → n < size
    → Partly mem buf size n c (send_in_loop mem buf size (accepted n) c)
unfolding send_in_loop send_directly send_rest queue_rest enable_writing enable_channel_writing
    with_events
send_in_loop-Partly mem buf size n c o q s l =
    let left : sub_size size n ≡ size - n = omega arith in
    let P = Partly mem buf size n c in
    if_no P c.is_closed _ _ o (
      if_elim P (is_empty c.iovec_list) _ _
        (λ e. if_no P (ltb n 0) _ _ (not_below_zero n) (
          if_no P (sub_size size n == 0) _ _ (==_ne (sub_size size n) 0 (λ z. omega arith)) (
            if_elim P (ltb 0 (sub_size size n)) _ _
              (λ e. record {
                unclosed = o;
                wrote = refl;
                queue = rw (q, left) refl;
                waits = or_true c.channel.event.writable;
              })
              (λ e. absurd (something left e)))))
        (λ e. absurd (not_both e)))
  where
    something : sub_size size n ≡ size - n → ltb 0 (sub_size size n) ≡ false → ⊥
    something left e = let t = lt→ltb 0 (sub_size size n) (omega arith) in cc

    not_both : is_empty c.iovec_list ≡ false → ⊥
    not_both e = let t : is_empty c.iovec_list ≡ true = rw q refl in cc

-- If `write` takes only the first `n` of the `size` bytes at `buf`, and the memory is another one when
-- `OnWrite` writes the rest, then what goes out is the first `n` bytes that were there and the rest of
-- what is there then.
pub on_write-changed :
    (mem mem' : Memory) (writev : ℕ → List Iovec → Written) (buf size n : ℕ) (c : Conn)
    → Honest writev
    → ((k : ℕ) (ps : List Iovec) (errno : ℕ) → writev k ps ≢ refused errno)
    → c.is_closed ≡ false
    → c.iovec_list ≡ []
    → size < 2 ^ 64
    → n < size
    → (c' : Conn) × (on_write mem' writev (size + 1) (send_in_loop mem buf size (accepted n) c)
        ≡ ended c')
      × (c'.written ≡ (c.written ++ load mem buf n) ++ load mem' (add_size buf n) (size - n))
unfolding contents
on_write-changed mem mem' writev buf size n c honest never o q s l =
    let p = send_in_loop-Partly mem buf size n c o q s l in
    let sent = (c.written ++ load mem buf n) ++ load mem' (add_size buf n) (size - n) in
    let c1 = send_in_loop mem buf size (accepted n) c in
    let i : InOrder mem' c1 sent = record {
      order = rw (p.wrote, p.queue, contents, append-nil) refl;
      waits = λ d. rw (p.queue, p.waits) refl;
    } in
    let e =
      on_write-Ends mem' writev honest (size + 1) c1 p.unclosed (rw p.queue (omega arith, tt))
        (rw p.queue (omega arith)) in
    let j =
      subst (λ r. InOrderRun mem' r sent) e.ends
        (on_write-InOrder mem' writev honest (size + 1) c1 sent i) in
    elim e.why [
      | inl all ↦ (
        e.result,
        e.ends,
        sym (append-nil e.result.written)
            ∙ ap (λ ps. e.result.written ++ contents mem' ps) (sym all.0)
            ∙ j.order,
      )
      | inr (k, ps, errno, f) ↦ absurd (never k ps errno f)
    ]
