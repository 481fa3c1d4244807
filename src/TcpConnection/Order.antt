-- ===== src/TcpConnection/Order.antt =====
-- The bytes of a connection reach the system in the order in which they were handed over.
use http_nest.Prelude.{
  ℕ, zero, suc, ◌+◌, ◌-◌, ◌^◌, ◌≤◌, ◌<◌, ◌≡◌, ◌∙◌, ap, sym, refl, subst, inl, inr, arith, Bool,
  true, false, List, [], ◌∷◌, ◌++◌, some, ltb, ◌==◌, not, ◌&&◌, ◌||◌, lt→ltb, Bool-cases, if_elim,
  if_no, take, drop, append_assoc, append-nil, Bytes, take-append-drop,
}
use http_nest.Buffer.{add_size, sub_size, MsgBuffer, Received, bytes, failed}
use http_nest.Channel.{enable_channel_writing, with_events, without_events}
use http_nest.TcpConnection.{
  Iovec, Memory, load, contents, Written, accepted, refused, Conn, new_conn, on_close,
  enable_writing, extend_life, enable_check_idle_timeout, completed, fail, is_transient, Run, ended,
  pending, undefined, read_loop, on_read, finish, is_empty, after_write, answer_write, write_loop,
  on_write, queue_rest, send_rest, send_directly, send_in_loop, send_list_in_loop,
}
use http_nest.TcpConnection.Pieces.{load_mod, load-append, contents-append, consume-Consumed}
use http_nest.TcpConnection.Steps.{
  Honest, taking, Step, set_close, set_message, set_write_complete, closes, checks_idle,
  sets_timeout, reads, writes, sends, sends_list, Reach, start, next,
}

pub or_true : (b : Bool) → (b || true) ≡ true
or_true true = refl
or_true false = refl

and_false : (b : Bool) → (b && false) ≡ false
and_false true = refl
and_false false = refl

pub is_empty-append : (ps : List Iovec) (p : Iovec) → is_empty (ps ++ p ∷ []) ≡ false
is_empty-append [] p = refl
is_empty-append (x ∷ ps) p = refl

pub is_empty→nil : (ps : List Iovec) → is_empty ps ≡ true → ps ≡ []
is_empty→nil [] e = refl
is_empty→nil (p ∷ ps) e = cc

still_empty : (ps qs : List Iovec) → is_empty (ps ++ qs) ≡ true → is_empty ps ≡ is_empty (ps ++ qs)
still_empty [] qs e = sym e
still_empty (p ∷ ps) qs e = cc

pub not_below_zero : (n : ℕ) → ltb n 0 ≡ false
not_below_zero n = ground arith

module _ (mem : Memory) where
  -- What the invariant says of a connection that was handed these bytes: they are those that were
  -- written and those that are queued, and an open connection waits for room exactly while it has a queue.
  pub record InOrder (c : Conn) (sent : Bytes) : Type 0 where
    pub order : c.written ++ contents mem c.iovec_list ≡ sent
    pub waits : c.is_closed ≡ false → c.channel.event.writable ≡ not (is_empty c.iovec_list)

  on_close-InOrder : (c : Conn) (sent : Bytes) → InOrder c sent → InOrder (on_close c) sent
  unfolding on_close
  on_close-InOrder c sent h = elim (Bool-cases c.is_closed) [
    | inl e ↦ simp e h
    | inr e ↦ simp e (record { order = h.order; waits = λ d. cc })
  ]

  fail-InOrder :
      (errno : ℕ) (c : Conn) (sent : Bytes) → InOrder c sent → InOrder (fail errno c) sent
  unfolding fail
  fail-InOrder errno c sent h = elim (Bool-cases (is_transient errno)) [
    | inl e ↦ simp e h
    | inr e ↦ simp e (on_close-InOrder c sent h)
  ]

  -- The loop of a run ends in such a state if it ends.
  abbrev pub InOrderRun : Run → Bytes → Type 0
  InOrderRun (ended c) sent = InOrder c sent
  InOrderRun (pending c) sent = InOrder c sent
  InOrderRun undefined sent = ⊥

  read_loop-InOrder :
      (take : MsgBuffer → MsgBuffer) (answers : List Received) (c : Conn) (sent : Bytes)
      → InOrder c sent
      → InOrderRun (read_loop (taking take) answers c) sent
  unfolding read_loop
  read_loop-InOrder take [] c sent h = h
  read_loop-InOrder take (failed errno ∷ rest) c sent h = fail-InOrder errno c sent h
  read_loop-InOrder take (bytes [] ∷ rest) c sent h = on_close-InOrder c sent h
  read_loop-InOrder take (bytes (b ∷ bs) ∷ rest) c sent h = elim (Bool-cases c.has_message) [
    | inl e ↦
        simp e (read_loop-InOrder take rest _ sent (record { order = h.order; waits = h.waits }))
    | inr e ↦
        simp e (read_loop-InOrder take rest _ sent (record { order = h.order; waits = h.waits }))
  ]

  on_read-InOrder :
      (take : MsgBuffer → MsgBuffer) (answers : List Received) (c : Conn) (sent : Bytes)
      → InOrder c sent
      → InOrderRun (on_read (taking take) answers c) sent
  unfolding on_read extend_life
  on_read-InOrder take answers c sent h =
      if_elim (λ r. InOrderRun r sent) c.is_closed _ _ (λ e. h)
        (λ e. read_loop-InOrder take answers _ sent (record { order = h.order; waits = h.waits }))

  enable_check_idle_timeout-InOrder :
      (n : ℕ) (c : Conn) (sent : Bytes)
      → InOrder c sent
      → InOrder (enable_check_idle_timeout n c) sent
  unfolding enable_check_idle_timeout
  enable_check_idle_timeout-InOrder n c sent h = record { order = h.order; waits = h.waits }

  finish-InOrder :
      (c : Conn) (sent : Bytes)
      → c.written ++ contents mem c.iovec_list ≡ sent
      → c.iovec_list ≡ []
      → InOrder (finish c) sent
  unfolding finish completed enable_writing enable_channel_writing without_events
  finish-InOrder c sent h e = record {
    order = h;
    waits = λ d. and_false c.channel.event.writable ∙ ap (λ ps. not (is_empty ps)) (sym e);
  }

  -- What `writev` took off the queue.
  taken :
      (c : Conn) (sent : Bytes) (n : ℕ) (rest : List Iovec)
      → c.written ++ contents mem c.iovec_list ≡ sent
      → contents mem rest ≡ drop n (contents mem c.iovec_list)
      → (c.written ++ take n (contents mem c.iovec_list)) ++ contents mem rest ≡ sent
  taken c sent n rest h e = rw e (
      append_assoc c.written (take n (contents mem c.iovec_list))
        (drop n (contents mem c.iovec_list))
      ∙ ap (λ (xs : Bytes). c.written ++ xs) (take-append-drop n (contents mem c.iovec_list))
      ∙ h)

  module _ (writev : ℕ → List Iovec → Written) (honest : Honest writev) where
    after_write-InOrder :
        (again : Conn → Run) (c : Conn) (sent out : Bytes) (rest : List Iovec)
        → ((c' : Conn)
            → is_empty c'.iovec_list ≡ false
            → InOrder c' sent
            → InOrderRun (again c') sent)
        → (c.written ++ out) ++ contents mem rest ≡ sent
        → (c.is_closed ≡ false → c.channel.event.writable ≡ true)
        → InOrderRun (after_write again c out (some rest)) sent
    unfolding after_write
    after_write-InOrder again c sent out [] goes_on o w = finish-InOrder _ sent o refl
    after_write-InOrder again c sent out (x ∷ xs) goes_on o w =
        goes_on _ refl (record { order = o; waits = w })

    answer_write-InOrder :
        (again : Conn → Run) (k : ℕ) (c : Conn) (sent : Bytes) (w : Written)
        → ((c' : Conn)
            → is_empty c'.iovec_list ≡ false
            → InOrder c' sent
            → InOrderRun (again c') sent)
        → writev k c.iovec_list ≡ w
        → is_empty c.iovec_list ≡ false
        → InOrder c sent
        → InOrderRun (answer_write again mem c w) sent
    unfolding answer_write
    answer_write-InOrder again k c sent (refused errno) goes_on e p h = fail-InOrder errno c sent h
    answer_write-InOrder again k c sent (accepted n) goes_on e p h =
        let r = consume-Consumed mem c.iovec_list n (honest.at_most k c.iovec_list n e) in
        rw r.result (
          after_write-InOrder again c sent _ r.rest goes_on
            (taken c sent n r.rest h.order r.remains) (λ d. h.waits d ∙ ap not p))

    write_loop-InOrder :
        (fuel k : ℕ) (c : Conn) (sent : Bytes)
        → is_empty c.iovec_list ≡ false
        → InOrder c sent
        → InOrderRun (write_loop mem writev fuel k c) sent
    unfolding write_loop
    write_loop-InOrder zero k c sent p h = h
    write_loop-InOrder (suc fuel) k c sent p h =
        answer_write-InOrder (write_loop mem writev fuel (k + 1)) k c sent (writev k c.iovec_list)
          (λ c' p' h'. write_loop-InOrder fuel (k + 1) c' sent p' h') refl p h

    pub on_write-InOrder :
        (fuel : ℕ) (c : Conn) (sent : Bytes)
        → InOrder c sent
        → InOrderRun (on_write mem writev fuel c) sent
    unfolding on_write extend_life
    on_write-InOrder fuel c sent h =
        if_elim (λ r. InOrderRun r sent) c.is_closed _ _ (λ e. h)
          (λ e.
            if_elim (λ r. InOrderRun r sent) (is_empty c.iovec_list) _ _
              (λ p. finish-InOrder _ sent h.order (is_empty→nil c.iovec_list p))
              (λ p.
                write_loop-InOrder fuel 0 _ sent p (record { order = h.order; waits = h.waits })))

  queued :
      (c : Conn) (sent : Bytes) (ps qs : List Iovec) (more : Bytes)
      → InOrder c sent
      → contents mem ps ≡ more
      → c.iovec_list ++ ps ≡ qs
      → is_empty qs ≡ false
      → InOrder (enable_writing true (record c { iovec_list = qs })) (sent ++ more)
  unfolding enable_writing enable_channel_writing with_events
  queued c sent ps qs more h e q n = record {
    order =
        rw
          (
            ← q,
            contents-append mem c.iovec_list ps,
            e,
            ← append_assoc c.written (contents mem c.iovec_list) more,
            h.order,
          )
          refl;
    waits = λ d. or_true c.channel.event.writable ∙ sym (ap not n);
  }

  queue_rest-InOrder :
      (buf len size : ℕ) (c : Conn) (sent more : Bytes)
      → InOrder c sent
      → load mem (add_size buf len) size ≡ more
      → InOrder (queue_rest buf len size c) (sent ++ more)
  unfolding queue_rest contents load
  queue_rest-InOrder buf len zero c sent more h e = rw (← e, append-nil) h
  queue_rest-InOrder buf len (suc size) c sent more h e = simp (lt→ltb 0 (suc size) (omega arith)) (
      queued c sent (record { iov_base = add_size buf len; iov_len = suc size } ∷ []) _ more h
        (append-nil (load mem (add_size buf len) (suc size)) ∙ e) refl
        (is_empty-append c.iovec_list _))

  completed-InOrder : (c : Conn) (sent : Bytes) → InOrder c sent → InOrder (completed c) sent
  unfolding completed
  completed-InOrder c sent h = record { order = h.order; waits = h.waits }

  written_first :
      (buf n : ℕ) (c : Conn) (sent : Bytes)
      → c.iovec_list ≡ []
      → InOrder c sent
      → InOrder (record c { written = c.written ++ load mem buf n }) (sent ++ load mem buf n)
  unfolding contents
  written_first buf n c sent q h =
      let before : c.written ≡ sent =
        sym (append-nil c.written) ∙ subst (λ ps. c.written ++ contents mem ps ≡ sent) q h.order in
      record {
        order =
            ap (λ ps. (c.written ++ load mem buf n) ++ contents mem ps) q
            ∙ append-nil (c.written ++ load mem buf n)
            ∙ ap (λ (xs : Bytes). xs ++ load mem buf n) before;
        waits = h.waits;
      }

  -- What is behind the `n` bytes that `write` took.
  send_rest-InOrder :
      (buf size n : ℕ) (c : Conn) (sent : Bytes)
      → c.iovec_list ≡ []
      → size < 2 ^ 64
      → n ≤ size
      → InOrder c sent
      → InOrder
          (send_rest buf size n (record c { written = c.written ++ load mem buf n }))
          (sent ++ load mem buf size)
  unfolding send_rest queue_rest
  send_rest-InOrder buf size n c sent q s m h = elim (Bool-cases (sub_size size n == 0)) [
    | inl e ↦ let all : n ≡ size = ground arith in simp e (completed-InOrder _ _ (rw (← all) first))
    | inr e ↦ simp e (
        subst
          (InOrder (
            queue_rest buf n (sub_size size n)
              (record c { written = c.written ++ load mem buf n })))
          (append_assoc sent (load mem buf n) (load mem (add_size buf n) (sub_size size n))
            ∙ ap (λ (xs : Bytes). sent ++ xs) both)
          (queue_rest-InOrder buf n (sub_size size n) _ _ _ first refl))
  ]
    where
      first : InOrder (record c { written = c.written ++ load mem buf n }) (sent ++ load mem buf n)
      first = written_first buf n c sent q h

      both : load mem buf n ++ load mem (add_size buf n) (sub_size size n) ≡ load mem buf size
      both =
          let less : sub_size size n ≡ size - n = omega arith in
          rw less (load-append mem n buf size m)

  pub send_in_loop-InOrder :
      (buf size n : ℕ) (c : Conn) (sent : Bytes)
      → c.is_closed ≡ false
      → size < 2 ^ 64
      → n ≤ size
      → InOrder c sent
      → InOrder (send_in_loop mem buf size (accepted n) c) (sent ++ load mem buf size)
  unfolding send_in_loop send_directly queue_rest
  send_in_loop-InOrder buf size n c sent o s m h =
      if_no (λ d. InOrder d (sent ++ load mem buf size)) c.is_closed _ _ o
        (if_elim (λ d. InOrder d (sent ++ load mem buf size)) (is_empty c.iovec_list) _ _
          (λ e.
            if_no (λ d. InOrder d (sent ++ load mem buf size)) (ltb n 0) _ _ (not_below_zero n)
              (send_rest-InOrder buf size n c sent (is_empty→nil c.iovec_list e) s m h))
          (λ e.
            queue_rest-InOrder buf 0 size c sent (load mem buf size) h
              (load_mod mem (add_size buf 0) buf size (omega arith))))

  -- The queue with the nodes behind it.
  longer :
      (nodes : List Iovec) (c : Conn) (sent : Bytes)
      → InOrder c sent
      → c.written ++ contents mem (c.iovec_list ++ nodes) ≡ sent ++ contents mem nodes
  longer nodes c sent h =
      rw
        (
          contents-append mem c.iovec_list nodes,
          ← append_assoc c.written (contents mem c.iovec_list) (contents mem nodes),
          h.order,
        )
        refl

  send_list_in_loop-InOrder :
      (nodes : List Iovec) (c : Conn) (sent : Bytes)
      → c.is_closed ≡ false
      → InOrder c sent
      → InOrder (send_list_in_loop nodes c) (sent ++ contents mem nodes)
  unfolding send_list_in_loop
  send_list_in_loop-InOrder nodes c sent o h =
      if_no (λ d. InOrder d (sent ++ contents mem nodes)) c.is_closed _ _ o
        (if_elim (λ d. InOrder d (sent ++ contents mem nodes)) (is_empty (c.iovec_list ++ nodes)) _
          _
          (λ e. record {
            order = longer nodes c sent h;
            waits = λ d. h.waits d ∙ ap not (still_empty c.iovec_list nodes e);
          })
          (λ e. queued c sent nodes (c.iovec_list ++ nodes) (contents mem nodes) h refl refl e))

  -- Every step keeps the invariant, with the bytes that it was handed behind those before.
  Step-InOrder :
      {c c' : Conn} {more : Bytes} (sent : Bytes)
      → Step mem c more c'
      → InOrder c sent
      → InOrder c' (sent ++ more)
  Step-InOrder sent (set_close c) h = rw append-nil (record { order = h.order; waits = h.waits })
  Step-InOrder sent (set_message c) h = rw append-nil (record { order = h.order; waits = h.waits })
  Step-InOrder sent (set_write_complete c) h =
      rw append-nil (record { order = h.order; waits = h.waits })
  Step-InOrder sent (closes c) h = rw append-nil (on_close-InOrder c sent h)
  Step-InOrder sent (checks_idle c n) h =
      rw append-nil (enable_check_idle_timeout-InOrder n c sent h)
  Step-InOrder sent (sets_timeout c n) h =
      rw append-nil (record { order = h.order; waits = h.waits })
  Step-InOrder sent (reads c c' take answers e) h =
      rw append-nil (subst (λ r. InOrderRun r sent) e (on_read-InOrder take answers c sent h))
  Step-InOrder sent (writes c c' writev fuel honest e) h =
      rw append-nil
        (subst (λ r. InOrderRun r sent) e (on_write-InOrder writev honest fuel c sent h))
  Step-InOrder sent (sends c buf size n o s m) h = send_in_loop-InOrder buf size n c sent o s m h
  Step-InOrder sent (sends_list c nodes o) h = send_list_in_loop-InOrder nodes c sent o h

  -- In every state that a new connection reaches by its operations, closing included, where the memory
  -- that is sent does not change, direct writes do not fail, `writev` accepts no more than it is offered
  -- and something if it is offered something, and the message callback only takes bytes out of the
  -- buffer: the bytes that the system accepted, followed by those in the queue, are the bytes handed over
  -- to an open connection, in order; and while the connection is open, its channel asks for room to write
  -- exactly if the queue has a piece.
  pub Reach-InOrder : {c : Conn} {sent : Bytes} → Reach mem c sent → InOrder c sent
  unfolding new_conn contents
  Reach-InOrder (start fd) = record { order = refl; waits = λ d. refl }
  Reach-InOrder (next {sent = sent} r st) = Step-InOrder sent st (Reach-InOrder r)
