-- ===== src/TcpConnection/Steps.antt =====
-- The operations of a connection as steps, and the states that they reach. The callback for messages
-- only takes bytes out of the buffer, and the system accepts no more bytes than it is offered.
use http_nest.Prelude.{ℕ, ◌^◌, ◌≤◌, ◌<◌, ◌≡◌, false, List, [], ◌++◌, Bytes}
use http_nest.Prelude.Int.{ℤ}
use http_nest.Buffer.{MsgBuffer, Received}
use http_nest.TcpConnection.{
  Iovec, Memory, load, contents, Written, accepted, Conn, new_conn, set_close_callback,
  set_recv_msg_callback, set_write_complete_callback, on_close, set_timeout_callback,
  enable_check_idle_timeout, ended, on_read, on_write, send_in_loop, send_list_in_loop,
}
use http_nest.TcpConnection.Pieces.{total}

-- What `writev` documents: no more bytes are written than there are, and some if there are some.
pub record Honest (writev : ℕ → List Iovec → Written) : Type 0 where
  pub at_most : (k : ℕ) (ps : List Iovec) (n : ℕ) → writev k ps ≡ accepted n → n ≤ total ps
  pub progress : (k : ℕ) (ps : List Iovec) (n : ℕ) → writev k ps ≡ accepted n → 0 < total ps → 0 < n

abbrev pub taking : (MsgBuffer → MsgBuffer) → Conn → Conn
taking f c = record c { msg_buffer = f c.msg_buffer }

-- A step, with the bytes that the caller hands over.
pub data Step (mem : Memory) : Conn → Bytes → Conn → Type 0 where
  set_close : (c : Conn) → Step mem c [] (set_close_callback c)
  set_message : (c : Conn) → Step mem c [] (set_recv_msg_callback c)
  set_write_complete : (c : Conn) → Step mem c [] (set_write_complete_callback c)
  closes : (c : Conn) → Step mem c [] (on_close c)
  checks_idle : (c : Conn) (n : ℕ) → Step mem c [] (enable_check_idle_timeout n c)
  sets_timeout : (c : Conn) (n : ℕ) → Step mem c [] (set_timeout_callback n c)
  reads :
      (c c' : Conn) (take : MsgBuffer → MsgBuffer) (answers : List Received)
      → on_read (taking take) answers c ≡ ended c'
      → Step mem c [] c'
  writes :
      (c c' : Conn) (writev : ℕ → List Iovec → Written) (fuel : ℕ)
      → Honest writev
      → on_write mem writev fuel c ≡ ended c'
      → Step mem c [] c'
  sends :
      (c : Conn) (buf size n : ℕ)
      → c.is_closed ≡ false
      → size < 2 ^ 64
      → n ≤ size
      → Step mem c (load mem buf size) (send_in_loop mem buf size (accepted n) c)
  sends_list :
      (c : Conn) (nodes : List Iovec)
      → c.is_closed ≡ false
      → Step mem c (contents mem nodes) (send_list_in_loop nodes c)

-- The states that a new connection reaches, with the bytes that were handed over on the way.
pub data Reach (mem : Memory) : Conn → Bytes → Type 0 where
  start : (fd : ℤ) → Reach mem (new_conn fd) []
  next :
      {c c' : Conn} {sent more : Bytes}
      → Reach mem c sent
      → Step mem c more c'
      → Reach mem c' (sent ++ more)
