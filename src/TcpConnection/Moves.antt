-- ===== src/TcpConnection/Moves.antt =====
-- What any operations of a connection leave of its closing.
use http_nest.Prelude.{ℕ, ◌≡◌, refl, subst, arith, List}
use http_nest.Prelude.Int.{ℤ}
use http_nest.Buffer.{MsgBuffer, Received}
use http_nest.TcpConnection.{
  Iovec, Memory, Written, set_timeout_callback, Conn, new_conn, set_close_callback,
  set_recv_msg_callback, set_write_complete_callback, on_close, enable_check_idle_timeout, ended,
  on_read, on_write, send_in_loop, send_list_in_loop,
}
use http_nest.TcpConnection.Steps.{taking}
use http_nest.TcpConnection.Closed.{
  Once, OnceRun, closings, Same-Once, on_close-Once, enable_check_idle_timeout-Same,
  set_timeout_callback-Same, on_read-Once, on_write-Once, send_in_loop-Once, send_list_in_loop-Once,
}

took-Once : (f : MsgBuffer → MsgBuffer) (c : Conn) → Once c → Once (taking f c)
took-Once f c h = record { unclosed = h.unclosed; at_most = h.at_most; no_fd = h.no_fd }

-- Any operation of the connection, whatever the system answers and whatever the memory is; the message
-- callback may take bytes out of the buffer, and call any operations in its turn.
mutual
  pub data Move : Conn → Conn → Type 0 where
    sets_close : (c : Conn) → Move c (set_close_callback c)
    sets_message : (c : Conn) → Move c (set_recv_msg_callback c)
    sets_write_complete : (c : Conn) → Move c (set_write_complete_callback c)
    takes : (c : Conn) (f : MsgBuffer → MsgBuffer) → Move c (taking f c)
    closes : (c : Conn) → Move c (on_close c)
    checks : (c : Conn) (max_time : ℕ) → Move c (enable_check_idle_timeout max_time c)
    sets_timer : (c : Conn) (timeout : ℕ) → Move c (set_timeout_callback timeout c)
    has_read :
        (c c' : Conn) (message : Conn → Conn) (answers : List Received)
        → ((d : Conn) → Moves d (message d))
        → on_read message answers c ≡ ended c'
        → Move c c'
    has_written :
        (c c' : Conn) (mem : Memory) (writev : ℕ → List Iovec → Written) (fuel : ℕ)
        → on_write mem writev fuel c ≡ ended c'
        → Move c c'
    has_sent :
        (c : Conn) (mem : Memory) (buf size : ℕ) (answer : Written)
        → Move c (send_in_loop mem buf size answer c)
    has_sent_list : (c : Conn) (nodes : List Iovec) → Move c (send_list_in_loop nodes c)

  pub data Moves : Conn → Conn → Type 0 where
    no_more : (c : Conn) → Moves c c
    and_then : {c d e : Conn} → Moves c d → Move d e → Moves c e

mutual
  Move-Once : {c c' : Conn} → Move c c' → Once c → Once c'
  Move-Once (sets_close c) h = record {
    unclosed = h.unclosed;
    at_most = h.at_most;
    no_fd = h.no_fd;
  }
  Move-Once (sets_message c) h = record {
    unclosed = h.unclosed;
    at_most = h.at_most;
    no_fd = h.no_fd;
  }
  Move-Once (sets_write_complete c) h = record {
    unclosed = h.unclosed;
    at_most = h.at_most;
    no_fd = h.no_fd;
  }
  Move-Once (takes c f) h = took-Once f c h
  Move-Once (closes c) h = on_close-Once c h
  Move-Once (checks c n) h = Same-Once (enable_check_idle_timeout-Same n c) h
  Move-Once (sets_timer c n) h = Same-Once (set_timeout_callback-Same n c) h
  Move-Once (has_read c c' message answers does e) h =
      subst OnceRun e (on_read-Once message answers c (λ d k. Moves-Once (does d) k) h)
  Move-Once (has_written c c' mem writev fuel e) h =
      subst OnceRun e (on_write-Once mem writev fuel c h)
  Move-Once (has_sent c mem buf size answer) h = send_in_loop-Once mem buf size answer c h
  Move-Once (has_sent_list c nodes) h = send_list_in_loop-Once nodes c h

  Moves-Once : {c c' : Conn} → Moves c c' → Once c → Once c'
  Moves-Once (no_more c) h = h
  Moves-Once (and_then ms m) h = Move-Once m (Moves-Once ms h)

-- In every state that a new connection reaches by any operations, whatever read, write and writev answer
-- and whatever operations the message callback calls: the close callback has been called at most once, and
-- never while the connection is open, and a closed connection has no descriptor above 0.
pub new_conn-Once : (fd : ℤ) {c : Conn} → Moves (new_conn fd) c → Once c
unfolding new_conn closings
new_conn-Once fd ms =
    Moves-Once ms (record { unclosed = λ e. refl; at_most = omega arith; no_fd = λ e. cc })
