-- ===== src/TcpConnection/Closed.antt =====
-- A connection closes once, and nothing happens on it afterwards.
use http_nest.Prelude.{
  ℕ, zero, suc, ◌+◌, ◌≤◌, ◌≡◌, ◌∙◌, refl, sym, arith, Bool, true, false, List, [], ◌∷◌, ◌++◌,
  Option, none, some, if_elim, ltb, ◌==◌, Bytes,
}
use http_nest.Prelude.Int.{ℤ, pos, ltb_ℤ}
use http_nest.Buffer.{sub_size, Received, bytes, failed}
use http_nest.Channel.{Channel, close, enable_channel_writing}
use http_nest.TcpConnection.{
  Iovec, Memory, is_empty, after_write, answer_write, written_bytes, to_size, Written, accepted,
  refused, Call, close_callback, close_fd, write_complete, update_channel, insert_entry, run_after,
  set_timeout_callback, call, closing, Conn, on_close, enable_writing, extend_life,
  enable_check_idle_timeout, completed, fail, is_transient, is_fatal, Run, ended, pending,
  undefined, read_loop, on_read, finish, write_loop, on_write, queue_rest, send_rest, send_directly,
  send_in_loop, send_list_in_loop,
}

-- On a closed connection every operation but EnableCheckIdleTimeout and the setting of callbacks does
-- nothing, whatever the system would answer.
pub record Silent (c : Conn) : Type 0 where
  pub silent_close : on_close c ≡ c
  pub silent_read : (f : Conn → Conn) (answers : List Received) → on_read f answers c ≡ ended c
  pub silent_write :
      (mem : Memory) (writev : ℕ → List Iovec → Written) (fuel : ℕ)
      → on_write mem writev fuel c ≡ ended c
  pub silent_send : (mem : Memory) (buf size : ℕ) (w : Written) → send_in_loop mem buf size w c ≡ c
  pub silent_send_list : (nodes : List Iovec) → send_list_in_loop nodes c ≡ c

pub on_close_is_closed : (c : Conn) → (on_close c).is_closed ≡ true
unfolding on_close
on_close_is_closed c =
    if_elim (λ (d : Conn). d.is_closed ≡ true) c.is_closed _ _ (λ e. e) (λ e. refl)

pub closed-Silent : (c : Conn) → c.is_closed ≡ true → Silent c
unfolding on_close on_read on_write send_in_loop send_list_in_loop
closed-Silent c e = record {
  silent_close = rw e refl;
  silent_read = λ f answers. rw e refl;
  silent_write = λ mem writev fuel. rw e refl;
  silent_send = λ mem buf size w. rw e refl;
  silent_send_list = λ nodes. rw e refl;
}

-- After OnClose, ForceClose, OnTimeout or OnError, further closing, reading, writing and sending do
-- nothing.
pub on_close-Silent : (c : Conn) → Silent (on_close c)
on_close-Silent c = closed-Silent (on_close c) (on_close_is_closed c)

-- How often the close callback was called.
unfoldable pub closings : List Call → ℕ
closings [] = 0
closings (close_callback ∷ calls) = suc (closings calls)
closings (close_fd fd ∷ calls) = closings calls
closings (write_complete ∷ calls) = closings calls
closings (update_channel ev ∷ calls) = closings calls
closings (insert_entry n ∷ calls) = closings calls
closings (run_after n ∷ calls) = closings calls

closings-append : (xs ys : List Call) → closings (xs ++ ys) ≡ closings xs + closings ys
unfolding closings
closings-append [] ys = omega arith
closings-append (close_callback ∷ xs) ys = omega (arith, closings-append xs ys)
closings-append (close_fd fd ∷ xs) ys = closings-append xs ys
closings-append (write_complete ∷ xs) ys = closings-append xs ys
closings-append (update_channel ev ∷ xs) ys = closings-append xs ys
closings-append (insert_entry n ∷ xs) ys = closings-append xs ys
closings-append (run_after n ∷ xs) ys = closings-append xs ys

-- The close callback was called at most once, and not before the connection was closed, which leaves
-- no descriptor above 0 open.
pub record Once (c : Conn) : Type 0 where
  pub unclosed : c.is_closed ≡ false → closings c.calls ≡ 0
  pub at_most : closings c.calls ≤ 1
  pub no_fd : c.is_closed ≡ true → ltb_ℤ (pos 0) c.channel.fd ≡ false

-- A change that does not concern the closing.
pub record Same (c c' : Conn) : Type 0 where
  closed : c'.is_closed ≡ c.is_closed
  count : closings c'.calls ≡ closings c.calls
  fd : c'.channel.fd ≡ c.channel.fd

pub Same-Once : {c c' : Conn} → Same c c' → Once c → Once c'
Same-Once s h = record {
  unclosed = λ e. s.count ∙ h.unclosed (sym s.closed ∙ e);
  at_most = rw s.count h.at_most;
  no_fd = λ e. rw s.fd (h.no_fd (sym s.closed ∙ e));
}

closings-other : (xs ys : List Call) → closings ys ≡ 0 → closings (xs ++ ys) ≡ closings xs
closings-other xs ys e = omega (arith, closings-append xs ys)

closings-call : (b : Bool) (k : Call) → closings (k ∷ []) ≡ 0 → closings (call b k) ≡ 0
unfolding closings
closings-call true k e = e
closings-call false k e = refl

enable_writing-Same : (enable : Bool) (c : Conn) → Same c (enable_writing enable c)
unfolding enable_writing enable_channel_writing closings
enable_writing-Same enable c = record {
  closed = refl;
  count = closings-other c.calls _ refl;
  fd = refl;
}

completed-Same : (c : Conn) → Same c (completed c)
unfolding completed closings
completed-Same c = record {
  closed = refl;
  count = closings-other c.calls _ (closings-call c.has_write_complete write_complete refl);
  fd = refl;
}

extend_life-Same : (c : Conn) → Same c (extend_life c)
unfolding extend_life closings
extend_life-Same c = record {
  closed = refl;
  count =
      closings-other c.calls _ (closings-call c.timeout_entry (insert_entry c.max_idle_time) refl);
  fd = refl;
}

close_leaves_none : (ch : Channel) → ltb_ℤ (pos 0) (close ch).0.fd ≡ false
unfolding close
close_leaves_none ch =
    if_elim (λ (r : Channel × Option ℤ). ltb_ℤ (pos 0) r.0.fd ≡ false) (ltb_ℤ (pos 0) ch.fd) _ _
      (λ e. refl) (λ e. e)

closings-closing : (o : Option ℤ) → closings (closing o) ≡ 0
unfolding closings
closings-closing none = refl
closings-closing (some fd) = refl

closings-call_le : (b : Bool) (k : Call) → closings (call b k) ≤ 1
unfolding closings
closings-call_le true close_callback = omega arith
closings-call_le true (close_fd fd) = omega arith
closings-call_le true write_complete = omega arith
closings-call_le true (update_channel ev) = omega arith
closings-call_le true (insert_entry n) = omega arith
closings-call_le true (run_after n) = omega arith
closings-call_le false k = omega arith

pub on_close-Once : (c : Conn) → Once c → Once (on_close c)
unfolding on_close
on_close-Once c h =
    if_elim Once c.is_closed _ _ (λ e. h)
      (λ e. record {
        unclosed = λ d. cc;
        at_most = omega (
          arith,
          h.unclosed e,
          closings-append (c.calls ++ call c.has_close close_callback)
              (closing (close c.channel).1),
          closings-append c.calls (call c.has_close close_callback),
          closings-call_le c.has_close close_callback,
          closings-closing (close c.channel).1,
        );
        no_fd = λ d. close_leaves_none c.channel;
      })

fail-Once : (errno : ℕ) (c : Conn) → Once c → Once (fail errno c)
unfolding fail
fail-Once errno c h = if_elim Once (is_transient errno) _ _ (λ e. h) (λ e. on_close-Once c h)

finish-Once : (c : Conn) → Once c → Once (finish c)
unfolding finish
finish-Once c h = Same-Once (completed-Same _) (Same-Once (enable_writing-Same false c) h)

-- The same of the connection that a loop has.
abbrev pub OnceRun : Run → Type 0
OnceRun (ended c) = Once c
OnceRun (pending c) = Once c
OnceRun undefined = Unit {0}

read_loop-Once :
    (message : Conn → Conn) (answers : List Received) (c : Conn)
    → ((d : Conn) → Once d → Once (message d))
    → Once c
    → OnceRun (read_loop message answers c)
unfolding read_loop
read_loop-Once message [] c keeps h = h
read_loop-Once message (failed errno ∷ rest) c keeps h = fail-Once errno c h
read_loop-Once message (bytes [] ∷ rest) c keeps h = on_close-Once c h
read_loop-Once message (bytes (b ∷ bs) ∷ rest) c keeps h = read_loop-Once message rest _ keeps (
    if_elim Once c.has_message _ _
      (λ e. keeps _ (record { unclosed = h.unclosed; at_most = h.at_most; no_fd = h.no_fd }))
      (λ e. record { unclosed = h.unclosed; at_most = h.at_most; no_fd = h.no_fd }))

after_write-Once :
    (again : Conn → Run) (c : Conn) (out : Bytes) (rest : Option (List Iovec))
    → ((c' : Conn) → Once c' → OnceRun (again c'))
    → Once c
    → OnceRun (after_write again c out rest)
unfolding after_write
after_write-Once again c out none goes_on h = tt
after_write-Once again c out (some []) goes_on h =
    finish-Once _ (record { unclosed = h.unclosed; at_most = h.at_most; no_fd = h.no_fd })
after_write-Once again c out (some (p ∷ pieces)) goes_on h =
    goes_on _ (record { unclosed = h.unclosed; at_most = h.at_most; no_fd = h.no_fd })

answer_write-Once :
    (again : Conn → Run) (mem : Memory) (c : Conn) (w : Written)
    → ((c' : Conn) → Once c' → OnceRun (again c'))
    → Once c
    → OnceRun (answer_write again mem c w)
unfolding answer_write
answer_write-Once again mem c (refused errno) goes_on h = fail-Once errno c h
answer_write-Once again mem c (accepted n) goes_on h = after_write-Once again c _ _ goes_on h

write_loop-Once :
    (mem : Memory) (writev : ℕ → List Iovec → Written) (fuel k : ℕ) (c : Conn)
    → Once c
    → OnceRun (write_loop mem writev fuel k c)
unfolding write_loop
write_loop-Once mem writev zero k c h = h
write_loop-Once mem writev (suc fuel) k c h =
    answer_write-Once (write_loop mem writev fuel (k + 1)) mem c (writev k c.iovec_list)
      (λ c' h'. write_loop-Once mem writev fuel (k + 1) c' h') h

pub on_read-Once :
    (message : Conn → Conn) (answers : List Received) (c : Conn)
    → ((d : Conn) → Once d → Once (message d))
    → Once c
    → OnceRun (on_read message answers c)
unfolding on_read
on_read-Once message answers c keeps h =
    if_elim OnceRun c.is_closed _ _ (λ e. h)
      (λ e. read_loop-Once message answers _ keeps (Same-Once (extend_life-Same c) h))

pub on_write-Once :
    (mem : Memory) (writev : ℕ → List Iovec → Written) (fuel : ℕ) (c : Conn)
    → Once c
    → OnceRun (on_write mem writev fuel c)
unfolding on_write
on_write-Once mem writev fuel c h =
    let h' = Same-Once (extend_life-Same c) h in
    if_elim OnceRun c.is_closed _ _ (λ e. h)
      (λ e.
        if_elim OnceRun (is_empty c.iovec_list) _ _ (λ e. finish-Once _ h')
          (λ e. write_loop-Once mem writev fuel 0 _ h'))

queue_rest-Once : (buf len size : ℕ) (c : Conn) → Once c → Once (queue_rest buf len size c)
unfolding queue_rest
queue_rest-Once buf len size c h =
    if_elim Once (ltb 0 size) _ _
      (λ e.
        Same-Once (enable_writing-Same true _)
          (record { unclosed = h.unclosed; at_most = h.at_most; no_fd = h.no_fd }))
      (λ e. h)

send_rest-Once : (buf size len : ℕ) (c : Conn) → Once c → Once (send_rest buf size len c)
unfolding send_rest
send_rest-Once buf size len c h =
    if_elim Once (sub_size size len == 0) _ _ (λ e. Same-Once (completed-Same c) h)
      (λ e. queue_rest-Once buf len (sub_size size len) c h)

send_directly-Once :
    (mem : Memory) (buf size : ℕ) (w : Written) (c : Conn)
    → Once c
    → Once (send_directly mem buf size w c)
unfolding send_directly
send_directly-Once mem buf size w c h =
    let h' : Once (record c { written = c.written ++ written_bytes mem buf w }) = record {
      unclosed = h.unclosed;
      at_most = h.at_most;
      no_fd = h.no_fd;
    } in
    if_elim Once (ltb (to_size w) 0) _ _
      (λ e.
        if_elim Once (is_fatal w) _ _ (λ e. on_close-Once _ h')
          (λ e. send_rest-Once buf size 0 _ h'))
      (λ e. send_rest-Once buf size (to_size w) _ h')

pub send_in_loop-Once :
    (mem : Memory) (buf size : ℕ) (w : Written) (c : Conn)
    → Once c
    → Once (send_in_loop mem buf size w c)
unfolding send_in_loop
send_in_loop-Once mem buf size w c h =
    if_elim Once c.is_closed _ _ (λ e. h)
      (λ e.
        if_elim Once (is_empty c.iovec_list) _ _ (λ e. send_directly-Once mem buf size w c h)
          (λ e. queue_rest-Once buf 0 size c h))

pub send_list_in_loop-Once :
    (nodes : List Iovec) (c : Conn) → Once c → Once (send_list_in_loop nodes c)
unfolding send_list_in_loop
send_list_in_loop-Once nodes c h =
    let h' : Once (record c { iovec_list = c.iovec_list ++ nodes }) = record {
      unclosed = h.unclosed;
      at_most = h.at_most;
      no_fd = h.no_fd;
    } in
    if_elim Once c.is_closed _ _ (λ e. h)
      (λ e.
        if_elim Once (is_empty (c.iovec_list ++ nodes)) _ _ (λ e. h')
          (λ e. Same-Once (enable_writing-Same true _) h'))

pub enable_check_idle_timeout-Same : (n : ℕ) (c : Conn) → Same c (enable_check_idle_timeout n c)
unfolding enable_check_idle_timeout closings
enable_check_idle_timeout-Same n c = record {
  closed = refl;
  count = closings-other c.calls _ refl;
  fd = refl;
}

pub set_timeout_callback-Same : (n : ℕ) (c : Conn) → Same c (set_timeout_callback n c)
unfolding closings
set_timeout_callback-Same n c = record {
  closed = refl;
  count = closings-other c.calls _ refl;
  fd = refl;
}
