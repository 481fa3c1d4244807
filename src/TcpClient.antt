-- ===== src/TcpClient.antt =====
-- TcpClient: src/network/TcpClient.h and TcpClient.cpp, in the loop's thread. What `socket`, `connect` and
-- `getsockopt` answer is an argument. The calls that add the channel to the loop and delete it are
-- counted, and so are those of the connection callback. A virtual call of `OnClose` by TcpConnection
-- is seen by the connection's being closed when the call of TcpConnection is over.
pub mod Reconnect
pub mod Balance
mod Tests
use http_nest.Prelude.{ℕ, ◌+◌, Bool, true, false, not, ◌&&◌, List, [], ◌∷◌, if◌then◌else◌}
use http_nest.Prelude.Int.{ℤ, pos, negsuc, ltb_ℤ}
use http_nest.Buffer.{Received}
use http_nest.Channel.{Channel, with_events, k_event_read}
use http_nest.TcpConnection
use http_nest.TcpConnection.{
  Iovec, Memory, Written, Conn, Run, new_conn, enable_writing, enable_check_idle_timeout,
  send_in_loop, send_list_in_loop,
}

pub data Status : Type 0 where
  init : Status
  connecting : Status
  connected : Status
  disconnected : Status

pub record Client : Type 0 where
  pub conn : Conn
  pub status : Status
  pub has_connected : Bool
  pub added : ℕ
  pub deleted : ℕ
  pub notified : ℕ

-- The constructor.
abbrev pub new_client : Client
new_client = record {
  conn = new_conn (negsuc 0);
  status = init;
  has_connected = false;
  added = 0;
  deleted = 0;
  notified = 0;
}

abbrev pub is_live : Status → Bool
is_live init = false
is_live connecting = true
is_live connected = true
is_live disconnected = false

-- `OnClose` before its call of `TcpConnection::OnClose`.
unfoldable pub disconnect : Client → Client
disconnect c = record c {
  status = disconnected;
  deleted = if is_live c.status then c.deleted + 1 else c.deleted;
}

unfoldable pub on_close : Client → Client
on_close c = record (disconnect c) { conn = TcpConnection.on_close c.conn }

unfoldable pub update_connection_status : Client → Client
update_connection_status c = record c {
  status = connected;
  notified = if c.has_connected then c.notified + 1 else c.notified;
}

-- What `connect` does: 0, EINPROGRESS, or another error.
pub data Connected : Type 0 where
  at_once : Connected
  in_progress : Connected
  failed : Connected

-- `AddChannel`, `EnableWriting` and `EnableCheckIdleTimeout` of a new socket.
unfoldable pub begin_connecting : ℤ → Client → Client
begin_connecting fd c =
    let ch = record c.conn.channel {
      fd = fd;
      event = with_events c.conn.channel.event k_event_read;
    } in
    record c {
      conn = enable_check_idle_timeout 3 (enable_writing true (record c.conn { channel = ch }));
      status = connecting;
      added = c.added + 1;
    }

unfoldable pub answer_connect : Connected → Client → Client
answer_connect at_once c = update_connection_status c
answer_connect in_progress c = c
answer_connect failed c = on_close c

-- `ConnectInLoop`, with what `socket` returns.
unfoldable pub connect_in_loop : ℤ → Connected → Client → Client
connect_in_loop fd answer c =
    if ltb_ℤ fd (pos 0)
    then on_close
        (record c { conn = record c.conn { channel = record c.conn.channel { fd = fd } } })
    else answer_connect answer (begin_connecting fd c)

-- The client with its connection after a call of TcpConnection.
unfoldable pub with_conn : Client → Conn → Client
with_conn c conn =
    if not c.conn.is_closed && conn.is_closed
    then record (disconnect c) { conn = conn }
    else record c { conn = conn }

pub data ClientRun : Type 0 where
  ended : Client → ClientRun
  pending : Client → ClientRun
  undefined : ClientRun

unfoldable pub with_run : Client → Run → ClientRun
with_run c (TcpConnection.ended conn) = ended (with_conn c conn)
with_run c (TcpConnection.pending conn) = pending (with_conn c conn)
with_run c TcpConnection.undefined = undefined

-- The first event of a client that is connecting, with what `CheckError` returns.
unfoldable pub finish_connecting : Bool → Client → Client
finish_connecting check_error c = if check_error then on_close c else update_connection_status c

-- `OnRead` and `OnWrite`, with what TcpConnection's function does.
unfoldable pub dispatch : Bool → (Conn → Run) → Status → Client → ClientRun
dispatch check_error inherited init c = ended c
dispatch check_error inherited connecting c = ended (finish_connecting check_error c)
dispatch check_error inherited connected c = with_run c (inherited c.conn)
dispatch check_error inherited disconnected c = ended c

unfoldable pub on_read : Bool → (Conn → Conn) → List Received → Client → ClientRun
on_read check_error message answers c =
    dispatch check_error (TcpConnection.on_read message answers) c.status c

unfoldable pub on_write : Bool → Memory → (ℕ → List Iovec → Written) → ℕ → Client → ClientRun
on_write check_error mem writev fuel c =
    dispatch check_error (TcpConnection.on_write mem writev fuel) c.status c

abbrev pub is_connected : Status → Bool
is_connected init = false
is_connected connecting = false
is_connected connected = true
is_connected disconnected = false

unfoldable pub send : Memory → ℕ → ℕ → Written → Client → Client
send mem buf size w c =
    if is_connected c.status then with_conn c (send_in_loop mem buf size w c.conn) else c

unfoldable pub send_list : List Iovec → Client → Client
send_list nodes c =
    if is_connected c.status then with_conn c (send_list_in_loop nodes c.conn) else c
