-- ===== src/TcpClient/Reconnect.antt =====
-- A client that connects again after it was closed.
use http_nest.Prelude.{ℕ, ◌+◌, ◌≡◌, refl, ap, if_no, Bool, true, false, List, arith}
use http_nest.Prelude.Int.{pos, ltb_ℤ}
use http_nest.Buffer.{Received}
use http_nest.Channel.{enable_channel_writing}
use http_nest.TcpConnection.{
  Iovec, Memory, Written, Conn, enable_writing, enable_check_idle_timeout,
}
use http_nest.TcpConnection.Closed.{closed-Silent, on_close_is_closed}
use http_nest.TcpClient.{
  Client, connected, on_close, disconnect, at_once, begin_connecting, answer_connect,
  connect_in_loop, update_connection_status, ended, with_conn, with_run, dispatch, on_read,
  on_write, send,
}

-- The client says that it is connected and has told so, but reads, writes and sends nothing, and closing it
-- again does not close its descriptor.
pub record Deaf (fd notified : ℕ) (c : Client) : Type 0 where
  pub is_up : c.status ≡ connected
  pub told : c.notified ≡ notified + 1
  pub descriptor : c.conn.channel.fd ≡ pos fd
  pub reads_nothing :
      (check_error : Bool) (f : Conn → Conn) (answers : List Received)
      → on_read check_error f answers c ≡ ended c
  pub writes_nothing :
      (check_error : Bool) (mem : Memory) (writev : ℕ → List Iovec → Written) (fuel : ℕ)
      → on_write check_error mem writev fuel c ≡ ended c
  pub sends_nothing : (mem : Memory) (buf size : ℕ) (w : Written) → send mem buf size w c ≡ c
  pub leaks : (on_close c).conn ≡ c.conn

unchanged : (c : Client) → c.conn.is_closed ≡ true → with_conn c c.conn ≡ c
unfolding with_conn
unchanged c e = rw (e, with_conn) refl

deaf :
    (c : Client) (fd notified : ℕ)
    → c.conn.is_closed ≡ true
    → c.status ≡ connected
    → c.notified ≡ notified + 1
    → c.conn.channel.fd ≡ pos fd
    → Deaf fd notified c
unfolding on_read on_write dispatch with_run send on_close
deaf c fd notified shut up told descriptor =
    let s = closed-Silent c.conn shut in
    let same = unchanged c shut in
    record {
      is_up = up;
      told = told;
      descriptor = descriptor;
      reads_nothing = λ check_error f answers.
          rw (up, dispatch, s.silent_read f answers, with_run) (ap ended (unchanged _ shut));
      writes_nothing = λ check_error mem writev fuel.
          rw (up, dispatch, s.silent_write mem writev fuel, with_run) (ap ended (unchanged _ shut));
      sends_nothing = λ mem buf size w. rw (up, s.silent_send mem buf size w) (unchanged _ shut);
      leaks = s.silent_close;
    }

connects-Deaf :
    (c : Client) (fd : ℕ)
    → c.has_connected ≡ true
    → Deaf fd c.notified (answer_connect at_once (begin_connecting (pos fd) (on_close c)))
unfolding answer_connect update_connection_status begin_connecting enable_writing
    enable_check_idle_timeout on_close disconnect enable_channel_writing
connects-Deaf c fd h = deaf _ fd c.notified (on_close_is_closed c.conn) refl (rw h refl) refl

not_negative : (fd : ℕ) → ltb_ℤ (pos fd) (pos 0) ≡ false
not_negative fd = ground arith

-- After OnClose, a client whose callback is set and whose ConnectInLoop gets a descriptor and connects at
-- once is deaf: the flag of the closed connection is not taken back.
pub connect_in_loop-Deaf :
    (c : Client) (fd : ℕ)
    → c.has_connected ≡ true
    → Deaf fd c.notified (connect_in_loop (pos fd) at_once (on_close c))
unfolding connect_in_loop
connect_in_loop-Deaf c fd h =
    if_no (Deaf fd c.notified) (ltb_ℤ (pos fd) (pos 0)) _
      (answer_connect at_once (begin_connecting (pos fd) (on_close c))) (not_negative fd)
      (connects-Deaf c fd h)
