-- ===== src/UdpSocket/Tests.antt =====
-- Runs of a socket, and witnesses.
use http_nest.Prelude.{ℕ, ◌%◌, ◌≡◌, refl, arith, true, false, [], ◌∷◌, Bytes}
use http_nest.Prelude.Int.{pos}
use http_nest.Buffer.{new_buffer}
use http_nest.Channel.{no_events}
use http_nest.TcpConnection.{Memory}
use http_nest.UdpSocket.{
  Node, Datagram, Sent, all_sent, none_sent, Socket, message_buffer_size, other, peer_address,
  datagram, nothing, failed, on_read, on_write,
}
use http_nest.UdpSocket.Deliver.{new_socket-Fresh, Delivered, on_read-Delivered}
use http_nest.UdpSocket.Drain.{Drained, on_write-Drained}

abbrev memory : Memory
memory a = a % 256

abbrev node : ℕ → ℕ → Node
node addr size = record { addr = addr; size = size; sock_addr = 1 }

abbrev fresh_socket : Socket
fresh_socket = record {
  channel = record { fd = pos 4; event = no_events; revents = no_events };
  has_close = false;
  has_message = true;
  has_write_complete = true;
  is_closed = false;
  message_buffer = new_buffer message_buffer_size;
  buffer_list = node 1 1 ∷ node 2 2 ∷ [];
  max_idle_time = 30;
  messages = [];
  sent = [];
  calls = [];
}

-- A system that sends whatever is not empty.
abbrev answer : Bytes → Sent
answer [] = none_sent
answer (b ∷ bs) = all_sent

abbrev sendto : ℕ → Datagram → Sent
sendto k n = answer n.content

answer_lem : (content : Bytes) → answer content ≡ none_sent → content ≡ []
answer_lem [] e = refl
answer_lem (b ∷ bs) e = cc

sendto_lem : (k : ℕ) (n : Datagram) → sendto k n ≡ none_sent → n.content ≡ []
sendto_lem k n e = answer_lem n.content e

on_read-Delivered_example :
    Delivered
      ((peer_address other, 5 ∷ 6 ∷ []) ∷ [])
      (on_read (nothing ∷ datagram other 5 (6 ∷ []) ∷ failed 11 ∷ []) fresh_socket)
on_read-Delivered_example =
    on_read-Delivered (nothing ∷ datagram other 5 (6 ∷ []) ∷ failed 11 ∷ []) fresh_socket
      (omega arith, tt) tt new_socket-Fresh refl refl

-- Two calls of `sendto` for two datagrams.
on_write-Drained_example : Drained memory fresh_socket (on_write memory sendto 2 fresh_socket)
on_write-Drained_example =
    on_write-Drained memory sendto sendto_lem 2 fresh_socket (omega arith, (omega arith, tt))
      (omega arith)
