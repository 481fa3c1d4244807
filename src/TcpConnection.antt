-- ===== src/TcpConnection.antt =====
-- TcpConnection: src/network/net/TcpConnection.h and TcpConnection.cpp, in the loop's thread. What the
-- system answers to `read`, `write` and `writev` is an argument. The bytes that the system accepted and
-- the calls of everything else are kept in the state, in their order. The write-complete callback is the
-- last thing that an operation does, and what it does is a further operation; what the close callback
-- does is not modelled. A piece of the queue is an address and a length, and its bytes are read from
-- the memory when they are written.
pub mod Pieces
pub mod Steps
pub mod Order
pub mod Ends
pub mod Closed
pub mod Moves
pub mod Sent
pub mod Aliased
pub mod Refused
mod Tests
use http_nest.Prelude.{
  ℕ, zero, suc, ◌+◌, ◌-◌, ◌%◌, ◌^◌, Bool, true, false, List, [], ◌∷◌, ◌++◌, Option, none, some, ltb,
  ◌==◌, ◌||◌, if◌then◌else◌, take, Bytes,
}
use http_nest.Prelude.Int.{ℤ}
use http_nest.Buffer.{
  MsgBuffer, new_buffer, buffer_default_length, add_size, sub_size, Received, bytes, failed,
  read_fd,
}
use http_nest.Channel.{Channel, Events, new_channel, close, enable_channel_writing}

-- A `struct iovec`.
pub record Iovec : Type 0 where
  pub iov_base : ℕ
  pub iov_len : ℕ

abbrev pub Memory : Type 0
Memory = ℕ → ℕ

-- The bytes from an address on.
unfoldable pub load : Memory → ℕ → ℕ → Bytes
load mem base zero = []
load mem base (suc len) = mem (base % 2 ^ 64) ∷ load mem (base + 1) len

unfoldable pub contents : Memory → List Iovec → Bytes
contents mem [] = []
contents mem (p ∷ pieces) = load mem p.iov_base p.iov_len ++ contents mem pieces

-- What `write` and `writev` return: the number of bytes that were accepted, or `errno`.
pub data Written : Type 0 where
  accepted : ℕ → Written
  refused : ℕ → Written

-- A call that leaves the connection.
pub data Call : Type 0 where
  close_callback : Call
  close_fd : ℤ → Call
  write_complete : Call
  update_channel : Events → Call
  insert_entry : ℕ → Call
  run_after : ℕ → Call

-- The members, with the callbacks as to whether they are set, and the timeout entry as to whether it
-- is alive.
pub record Conn : Type 0 where
  pub channel : Channel
  pub has_close : Bool
  pub has_message : Bool
  pub has_write_complete : Bool
  pub is_closed : Bool
  pub msg_buffer : MsgBuffer
  pub iovec_list : List Iovec
  pub max_idle_time : ℕ
  pub timeout_entry : Bool
  pub written : Bytes
  pub calls : List Call

-- The constructor.
unfoldable pub new_conn : ℤ → Conn
new_conn fd = record {
  channel = new_channel fd;
  has_close = false;
  has_message = false;
  has_write_complete = false;
  is_closed = false;
  msg_buffer = new_buffer buffer_default_length;
  iovec_list = [];
  max_idle_time = 30;
  timeout_entry = false;
  written = [];
  calls = [];
}

abbrev pub set_close_callback : Conn → Conn
set_close_callback c = record c { has_close = true }

abbrev pub set_recv_msg_callback : Conn → Conn
set_recv_msg_callback c = record c { has_message = true }

abbrev pub set_write_complete_callback : Conn → Conn
set_write_complete_callback c = record c { has_write_complete = true }

abbrev pub call : Bool → Call → List Call
call true k = k ∷ []
call false k = []

abbrev pub closing : Option ℤ → List Call
closing none = []
closing (some fd) = close_fd fd ∷ []

unfoldable pub on_close : Conn → Conn
on_close c = if c.is_closed then c else record c {
  is_closed = true;
  channel = (close c.channel).0;
  calls = c.calls ++ call c.has_close close_callback ++ closing (close c.channel).1;
}

-- `OnError` and `OnTimeout` behind their messages, and `ForceClose` in the loop's thread.
abbrev pub on_error : Conn → Conn
on_error = on_close

abbrev pub on_timeout : Conn → Conn
on_timeout = on_close

abbrev pub force_close : Conn → Conn
force_close = on_close

-- `Channel::EnableWriting`.
unfoldable pub enable_writing : Bool → Conn → Conn
enable_writing enable c =
    let ch = enable_channel_writing c.channel enable in
    record c { channel = ch; calls = c.calls ++ update_channel ch.event ∷ [] }

unfoldable pub extend_life : Conn → Conn
extend_life c = record c { calls = c.calls ++ call c.timeout_entry (insert_entry c.max_idle_time) }

unfoldable pub enable_check_idle_timeout : ℕ → Conn → Conn
enable_check_idle_timeout max_time c = record c {
  max_idle_time = max_time;
  timeout_entry = true;
  calls = c.calls ++ insert_entry max_time ∷ [];
}

-- What the callback does when its time comes is not modelled.
abbrev pub set_timeout_callback : ℕ → Conn → Conn
set_timeout_callback timeout c = record c { calls = c.calls ++ run_after timeout ∷ [] }

-- EINTR, EAGAIN and EWOULDBLOCK.
abbrev pub is_transient : ℕ → Bool
is_transient errno = (errno == 4) || (errno == 11)

-- The call of `writeCompleteCb_`.
unfoldable pub completed : Conn → Conn
completed c = record c { calls = c.calls ++ call c.has_write_complete write_complete }

-- A loop that has ended, one that is about to ask the system again, and one that went wrong.
pub data Run : Type 0 where
  ended : Conn → Run
  pending : Conn → Run
  undefined : Run

-- A failed read or write.
unfoldable pub fail : ℕ → Conn → Conn
fail errno c = if is_transient errno then c else on_close c

unfoldable pub read_loop : (Conn → Conn) → List Received → Conn → Run
read_loop message [] c = pending c
read_loop message (failed errno ∷ rest) c = ended (fail errno c)
read_loop message (bytes [] ∷ rest) c = ended (on_close c)
read_loop message (bytes (b ∷ bs) ∷ rest) c =
    let c' = record c { msg_buffer = read_fd c.msg_buffer (bytes (b ∷ bs)) } in
    read_loop message rest (if c.has_message then message c' else c')

-- `OnRead`, with what `messageCb_` does to the connection, and what the calls of `read` return.
unfoldable pub on_read : (Conn → Conn) → List Received → Conn → Run
on_read message answers c =
    if c.is_closed then ended c else read_loop message answers (extend_life c)

-- The inner loop of `OnWrite`: `none` where it reads the front of an empty vector.
unfoldable pub consume : List Iovec → ℕ → Option (List Iovec)
consume pieces zero = some pieces
consume [] (suc n) = none
consume (p ∷ pieces) (suc n) =
    let rest = consume pieces (suc n - p.iov_len) in
    if ltb (suc n) p.iov_len
    then some
        (record { iov_base = add_size p.iov_base (suc n); iov_len = p.iov_len - suc n } ∷ pieces)
    else rest

-- The end of `OnWrite` with an empty queue.
unfoldable pub finish : Conn → Conn
finish c = completed (enable_writing false c)

abbrev pub is_empty : List Iovec → Bool
is_empty [] = true
is_empty (p ∷ pieces) = false

-- A round of `OnWrite` behind its inner loop, which left these pieces of the queue and wrote these
-- bytes: the loop goes on by `again`.
unfoldable pub after_write : (Conn → Run) → Conn → Bytes → Option (List Iovec) → Run
after_write again c out none = undefined
after_write again c out (some []) =
    ended (finish (record c { iovec_list = []; written = c.written ++ out }))
after_write again c out (some (p ∷ pieces)) =
    again (record c { iovec_list = p ∷ pieces; written = c.written ++ out })

unfoldable pub answer_write : (Conn → Run) → Memory → Conn → Written → Run
answer_write again mem c (refused errno) = ended (fail errno c)
answer_write again mem c (accepted n) =
    after_write again c (take n (contents mem c.iovec_list)) (consume c.iovec_list n)

-- The loop of `OnWrite`, which has called `writev` k times, with what `writev` returns; the first
-- number bounds the calls.
unfoldable pub write_loop : Memory → (ℕ → List Iovec → Written) → ℕ → ℕ → Conn → Run
write_loop mem writev zero k c = pending c
write_loop mem writev (suc fuel) k c =
    answer_write (write_loop mem writev fuel (k + 1)) mem c (writev k c.iovec_list)

unfoldable pub on_write : Memory → (ℕ → List Iovec → Written) → ℕ → Conn → Run
on_write mem writev fuel c =
    if c.is_closed
    then ended c
    else if is_empty c.iovec_list
    then ended (finish (extend_life c))
    else write_loop mem writev fuel 0 (extend_life c)

-- The end of `SendInLoop`: the bytes from `len` on are queued.
unfoldable pub queue_rest : ℕ → ℕ → ℕ → Conn → Conn
queue_rest buf len size c =
    if ltb 0 size
    then enable_writing true (record c {
      iovec_list = c.iovec_list ++ record { iov_base = add_size buf len; iov_len = size } ∷ [];
    })
    else c

-- The return value of `write` as the `size_t` that it is stored in.
abbrev pub to_size : Written → ℕ
to_size (accepted n) = n
to_size (refused errno) = 2 ^ 64 - 1

abbrev pub written_bytes : Memory → ℕ → Written → Bytes
written_bytes mem buf (accepted n) = load mem buf n
written_bytes mem buf (refused errno) = []

-- `SendInLoop` behind its `write`, with the variable `len`.
unfoldable pub send_rest : ℕ → ℕ → ℕ → Conn → Conn
send_rest buf size len c =
    if sub_size size len == 0 then completed c else queue_rest buf len (sub_size size len) c

abbrev pub is_fatal : Written → Bool
is_fatal (accepted n) = false
is_fatal (refused errno) = if is_transient errno then false else true

unfoldable pub send_directly : Memory → ℕ → ℕ → Written → Conn → Conn
send_directly mem buf size w c =
    let c' = record c { written = c.written ++ written_bytes mem buf w } in
    if ltb (to_size w) 0
    then if is_fatal w then on_close c' else send_rest buf size 0 c'
    else send_rest buf size (to_size w) c'

-- `SendInLoop(buf, size)`, with what `write` returns.
unfoldable pub send_in_loop : Memory → ℕ → ℕ → Written → Conn → Conn
send_in_loop mem buf size w c =
    if c.is_closed
    then c
    else if is_empty c.iovec_list
    then send_directly mem buf size w c
    else queue_rest buf 0 size c

-- `SendInLoop(list)`, with the nodes as pieces.
unfoldable pub send_list_in_loop : List Iovec → Conn → Conn
send_list_in_loop nodes c =
    let c' = record c { iovec_list = c.iovec_list ++ nodes } in
    if c.is_closed then c else if is_empty c'.iovec_list then c' else enable_writing true c'
