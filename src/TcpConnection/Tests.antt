-- ===== src/TcpConnection/Tests.antt =====
-- Runs of a connection, and witnesses of its theorems.
use http_nest.Prelude.{ℕ, ◌%◌, ◌≤◌, ◌<◌, ◌≡◌, ◌≢◌, refl, arith, true, false, List, [], ◌∷◌, ◌++◌}
use http_nest.Prelude.Int.{pos}
use http_nest.TcpConnection.{
  Iovec, Memory, load, contents, Written, accepted, refused, update_channel, Conn, new_conn,
  on_close, ended, pending, on_read, read_loop, on_write, send_in_loop, send_list_in_loop,
  send_directly, send_rest, queue_rest, enable_writing, write_loop, answer_write, after_write,
  consume, finish, completed, extend_life,
}
use http_nest.Buffer.{add_size, bytes}
use http_nest.Channel.{enable_channel_writing, with_events, without_events}
use http_nest.TcpConnection.Pieces.{total}
use http_nest.TcpConnection.Steps.{Honest, sends, writes, Reach, start, next}
use http_nest.TcpConnection.Order.{InOrder, Reach-InOrder}
use http_nest.TcpConnection.Ends.{Ends, on_write-Ends, on_write-never_ends}
use http_nest.TcpConnection.Closed.{Silent, on_close-Silent, Once}
use http_nest.TcpConnection.Moves.{
  and_then, no_more, closes, has_sent, has_written, has_read, new_conn-Once,
}
use http_nest.TcpConnection.Aliased.{on_write-changed}
use http_nest.TcpConnection.Refused.{send_in_loop-refused}

abbrev memory : Memory
memory a = a % 256

abbrev node : ℕ → ℕ → Iovec
node base len = record { iov_base = base; iov_len = len }

-- A system that takes everything, and one that takes one byte at a time.
abbrev whole : ℕ → List Iovec → Written
whole k ps = accepted (total ps)

abbrev accepted_bytes : Written → ℕ
accepted_bytes (accepted n) = n
accepted_bytes (refused errno) = 0

whole-Honest : Honest whole
whole-Honest = record {
  at_most = λ k ps n e. taken (total ps) n e;
  progress = λ k ps n e h. given (total ps) n e h;
}
  where
    same : (m n : ℕ) → accepted m ≡ accepted n → m ≡ n
    same m n e = cc

    taken : (m n : ℕ) → accepted m ≡ accepted n → n ≤ m
    taken m n e = let e' = same m n e in omega arith

    given : (m n : ℕ) → accepted m ≡ accepted n → 0 < m → 0 < n
    given m n e h = let e' = same m n e in omega arith

whole-never : (k : ℕ) (ps : List Iovec) (errno : ℕ) → whole k ps ≢ refused errno
whole-never k ps errno e = cc

-- Four bytes at 100, of which `write` takes one.
abbrev sent_one : Conn
sent_one = send_in_loop memory 100 4 (accepted 1) (new_conn (pos 5))

sent_one_runs :
    (sent_one.written ≡ 100 ∷ [])
    × (contents memory sent_one.iovec_list ≡ 101 ∷ 102 ∷ 103 ∷ [])
    × (sent_one.channel.event.writable ≡ true)
unfolding send_in_loop send_directly send_rest queue_rest enable_writing enable_channel_writing
    with_events new_conn load contents
sent_one_runs = (refl, refl, refl)

-- A new connection sends these bytes, then writes what is left.
abbrev written_out : Conn
written_out = record sent_one {
  channel = enable_channel_writing sent_one.channel false;
  iovec_list = [];
  written = 100 ∷ 101 ∷ 102 ∷ 103 ∷ [];
  calls =
      sent_one.calls ++ update_channel (enable_channel_writing sent_one.channel false).event ∷ [];
}

written_out_runs : on_write memory whole 4 sent_one ≡ ended written_out
unfolding on_write write_loop answer_write after_write consume finish completed extend_life
    send_in_loop send_directly send_rest queue_rest enable_writing enable_channel_writing
    with_events without_events new_conn load contents
written_out_runs = refl

reached : Reach memory written_out (100 ∷ 101 ∷ 102 ∷ 103 ∷ [])
unfolding new_conn load
reached =
    next (next (start (pos 5)) (sends _ 100 4 1 refl (omega arith) (omega arith)))
      (writes _ _ whole 4 whole-Honest written_out_runs)

Reach-InOrder_example : InOrder memory written_out (100 ∷ 101 ∷ 102 ∷ 103 ∷ [])
Reach-InOrder_example = Reach-InOrder memory reached

-- The new connection sends, writes what is left, and reads from a peer that has closed, with a message
-- callback that closes too.
new_conn-Once_example : Once (on_close written_out)
unfolding on_read read_loop extend_life send_in_loop send_directly send_rest queue_rest
    enable_writing enable_channel_writing with_events without_events new_conn load contents
new_conn-Once_example = new_conn-Once (pos 5) (
    and_then
      (and_then (and_then (no_more (new_conn (pos 5))) (has_sent _ memory 100 4 (accepted 1)))
        (has_written _ _ memory whole 4 written_out_runs))
      (has_read written_out (on_close written_out) on_close (bytes [] ∷ [])
        (λ d. and_then (no_more d) (closes d)) refl))

on_close-Silent_example : Silent (on_close sent_one)
on_close-Silent_example = on_close-Silent sent_one

on_write-Ends_example : Ends memory whole whole-Honest (on_write memory whole 4 sent_one)
unfolding send_in_loop send_directly send_rest queue_rest enable_writing enable_channel_writing
    new_conn load contents
on_write-Ends_example =
    on_write-Ends memory whole whole-Honest 4 sent_one refl (omega arith, tt) (omega arith)

-- Two bytes and an empty node.
abbrev with_empty : Conn
with_empty = send_list_in_loop (node 7 2 ∷ node 9 0 ∷ []) (new_conn (pos 5))

on_write-never_ends_example : (c : Conn) × (on_write memory whole 1000 with_empty ≡ pending c)
unfolding send_list_in_loop enable_writing new_conn
on_write-never_ends_example =
    on_write-never_ends memory whole whole-Honest whole-never 1000 with_empty refl
      (node 7 2 ∷ [], node 9 0, refl, refl)

send_in_loop-refused_example :
    (contents memory (send_in_loop memory 100 3 (refused 32) (new_conn (pos 5))).iovec_list
      ≡ 99 ∷ load memory 100 3)
    × ((send_in_loop memory 100 3 (refused 32) (new_conn (pos 5))).is_closed ≡ false)
unfolding new_conn
send_in_loop-refused_example =
    send_in_loop-refused memory 100 3 32 (new_conn (pos 5)) refl refl (omega arith) (omega arith)
      (omega arith)

-- The memory in which everything was overwritten by zeros.
abbrev zeros : Memory
zeros a = 0

on_write-changed_example :
    (c : Conn) × (on_write zeros whole 5 (send_in_loop memory 100 4 (accepted 1) (new_conn (pos 5)))
      ≡ ended c)
    × (c.written
        ≡ ((new_conn (pos 5)).written ++ load memory 100 1) ++ load zeros (add_size 100 1) 3)
unfolding new_conn
on_write-changed_example =
    on_write-changed memory zeros whole 100 4 1 (new_conn (pos 5)) whole-Honest whole-never refl
      refl (omega arith) (omega arith)
