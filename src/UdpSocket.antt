-- ===== src/UdpSocket.antt =====
-- UdpSocket: src/network/net/UdpSocket.h and UdpSocket.cpp, in the loop's thread. What the system
-- answers to `recvfrom` and `sendto` is an argument; the datagrams that it accepted, those that the
-- message callback was given and the other calls are kept in the state. A queued datagram is
-- an address and a length, and its bytes are read from the memory by `sendto`; its destination is a
-- number. What the callbacks do is not modelled.
pub mod Deliver
pub mod Drain
mod Tests
use http_nest.Prelude.{
  ℕ, zero, suc, ◌+◌, Bool, true, false, List, [], ◌∷◌, ◌++◌, Option, none, some, ◌&&◌, ◌==◌, ◌||◌,
  if◌then◌else◌, Bytes,
}
use http_nest.Prelude.Int.{ℤ}
use http_nest.Buffer.{MsgBuffer, new_buffer, store, peek, retrieve_all}
use http_nest.Channel.{Channel, Events, new_channel, close, enable_channel_writing}
use http_nest.InetAddress.{InetAddress, set_addr, set_port, set_is_ipv6}
use http_nest.TcpConnection.{
  Memory, load, Call, close_callback, write_complete, update_channel, insert_entry, call, closing,
  is_transient,
}

-- The address that `recvfrom` fills in, with the text that `inet_ntop` makes of it.
pub data Peer : Type 0 where
  inet : Bytes → ℕ → Peer
  inet6 : Bytes → ℕ → Peer
  other : Peer

abbrev no_address : InetAddress
no_address = record { addr = []; port = []; is_ipv6 = false }

unfoldable pub peer_address : Peer → InetAddress
peer_address (inet ip port) = set_port (set_addr no_address ip) port
peer_address (inet6 ip port) = set_is_ipv6 (set_port (set_addr no_address ip) port) true
peer_address other = no_address

-- A `UdpBufferNode`, and the datagram that it stands for.
pub record Node : Type 0 where
  pub addr : ℕ
  pub size : ℕ
  pub sock_addr : ℕ

pub record Datagram : Type 0 where
  pub content : Bytes
  pub receiver : ℕ

abbrev pub datagram_at : Memory → Node → Datagram
datagram_at mem node = record { content = load mem node.addr node.size; receiver = node.sock_addr }

-- What `recvfrom` and `sendto` return: a positive number, 0, or an error.
pub data Answer : Type 0 where
  datagram : Peer → ℕ → Bytes → Answer
  nothing : Answer
  failed : ℕ → Answer

pub data Sent : Type 0 where
  all_sent : Sent
  none_sent : Sent
  refused : ℕ → Sent

pub record Socket : Type 0 where
  pub channel : Channel
  pub has_close : Bool
  pub has_message : Bool
  pub has_write_complete : Bool
  pub is_closed : Bool
  pub message_buffer : MsgBuffer
  pub buffer_list : List Node
  pub max_idle_time : ℕ
  pub messages : List (InetAddress × Bytes)
  pub sent : List Datagram
  pub calls : List Call

abbrev pub message_buffer_size : ℕ
message_buffer_size = 65535

-- The constructor.
unfoldable pub new_socket : ℤ → Socket
new_socket fd = record {
  channel = new_channel fd;
  has_close = false;
  has_message = false;
  has_write_complete = false;
  is_closed = false;
  message_buffer = new_buffer message_buffer_size;
  buffer_list = [];
  max_idle_time = 30;
  messages = [];
  sent = [];
  calls = [];
}

-- `OnClose`, and `OnTimeOut`, `OnError` and `ForceClose` in the loop's thread.
unfoldable pub on_close : Socket → Socket
on_close u = if u.is_closed then u else record u {
  is_closed = true;
  channel = (close u.channel).0;
  calls = u.calls ++ call u.has_close close_callback ++ closing (close u.channel).1;
}

unfoldable pub enable_writing : Socket → Socket
enable_writing u =
    let ch = enable_channel_writing u.channel true in
    record u { channel = ch; calls = u.calls ++ update_channel ch.event ∷ [] }

unfoldable pub enable_check_idle_timeout : ℕ → Socket → Socket
enable_check_idle_timeout max_time u = record u {
  max_idle_time = max_time;
  calls = u.calls ++ insert_entry max_time ∷ [];
}

unfoldable pub fail : ℕ → Socket → Socket
fail errno u = if is_transient errno then u else on_close u

pub data Run : Type 0 where
  ended : Socket → Run
  pending : Socket → Run

-- The message callback, with the readable bytes of the buffer.
unfoldable pub deliver : Peer → Socket → Socket
deliver peer u =
    let m = (peer_address peer, peek u.message_buffer) ∷ [] in
    record u { messages = if u.has_message then u.messages ++ m else u.messages }

-- A datagram that was received.
unfoldable pub take_datagram : Peer → Bytes → Socket → Socket
take_datagram peer content u =
    let u' = deliver peer (record u { message_buffer = store u.message_buffer content }) in
    record u' { message_buffer = retrieve_all u'.message_buffer }

unfoldable pub read_loop : List Answer → Socket → Run
read_loop [] u = pending u
read_loop (datagram peer b bs ∷ rest) u = read_loop rest (take_datagram peer (b ∷ bs) u)
read_loop (nothing ∷ rest) u = read_loop rest u
read_loop (failed errno ∷ rest) u = ended (fail errno u)

unfoldable pub on_read : List Answer → Socket → Run
on_read answers u = if u.is_closed then ended u else read_loop answers u

unfoldable pub completed : Socket → Socket
completed u = record u { calls = u.calls ++ call u.has_write_complete write_complete }

-- What follows `sendto` of the front node: the loop goes on by `again`.
unfoldable pub after_send : Memory → (Socket → Run) → Node → List Node → Socket → Sent → Run
after_send mem again node [] u all_sent =
    ended (completed (record u { buffer_list = []; sent = u.sent ++ datagram_at mem node ∷ [] }))
after_send mem again node (n ∷ nodes) u all_sent =
    again (record u { buffer_list = n ∷ nodes; sent = u.sent ++ datagram_at mem node ∷ [] })
after_send mem again node nodes u none_sent = again u
after_send mem again node nodes u (refused errno) = ended (fail errno u)

-- A turn of the loop, where `send` goes on with a node at the front.
unfoldable pub turn : (Node → List Node → Run) → List Node → Socket → Run
turn send [] u = ended (completed u)
turn send (node ∷ nodes) u = send node nodes

-- The loop of `OnWrite`, which has called `sendto` k times, with what `sendto` returns for a datagram; the
-- first number bounds the calls of `sendto` that are still made.
unfoldable pub write_loop : Memory → (ℕ → Datagram → Sent) → ℕ → ℕ → Socket → Run
write_loop mem sendto zero k u = turn (λ node nodes. pending u) u.buffer_list u
write_loop mem sendto (suc fuel) k u =
    turn
      (λ node nodes.
        after_send mem (write_loop mem sendto fuel (k + 1)) node nodes u
          (sendto k (datagram_at mem node)))
      u.buffer_list u

unfoldable pub on_write : Memory → (ℕ → Datagram → Sent) → ℕ → Socket → Run
on_write mem sendto fuel u = if u.is_closed then ended u else write_loop mem sendto fuel 0 u

unfoldable pub queue : List Node → Socket → Socket
queue nodes u = enable_writing (record u { buffer_list = u.buffer_list ++ nodes })

abbrev pub is_empty : List Node → Bool
is_empty [] = true
is_empty (node ∷ nodes) = false

abbrev pub is_sent : Sent → Bool
is_sent all_sent = true
is_sent none_sent = false
is_sent (refused errno) = false

-- `SendInLoop(buf, ...)`, with what `sendto` returns.
unfoldable pub send_in_loop : Memory → Node → Sent → Socket → Socket
send_in_loop mem node answer u =
    if is_empty u.buffer_list && is_sent answer
    then record u { sent = u.sent ++ datagram_at mem node ∷ [] }
    else queue (node ∷ []) u

-- `SendInLoop(list)`.
unfoldable pub send_list_in_loop : List Node → Socket → Socket
send_list_in_loop nodes u =
    let u' = record u { buffer_list = u.buffer_list ++ nodes } in
    if is_empty u'.buffer_list then u' else enable_writing u'
