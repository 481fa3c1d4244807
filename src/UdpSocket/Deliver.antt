-- ===== src/UdpSocket/Deliver.antt =====
-- The datagrams that the message callback is given.
use http_nest.Prelude.{
  ℕ, ◌≤◌, ◌≡◌, ◌∙◌, refl, ap, sym, arith, true, false, List, [], ◌∷◌, ◌++◌, length,
  length-replicate, slice_empty, append_assoc, append-nil, if_elim, if_no, Bytes, ltb,
}
use http_nest.Buffer.{MsgBuffer, peek, store, retrieve_all, new_buffer, mul_size}
use http_nest.Buffer.Invariant.{IsValid, store-Stored}
use http_nest.InetAddress.{InetAddress}
use http_nest.TcpConnection.{is_transient}
use http_nest.UdpSocket.{
  Peer, peer_address, Answer, datagram, nothing, failed, Socket, on_close, fail, Run, ended,
  deliver, take_datagram, read_loop, on_read, message_buffer_size,
}

-- The buffer of a socket between two datagrams.
pub record Fresh (b : MsgBuffer) : Type 0 where
  pub at_start : b.head ≡ 8
  pub empty : b.tail ≡ 8
  pub capacity : b.init_cap ≡ 65535
  pub size : length b.buffer ≡ 65543

-- The datagrams up to the first failure, each with its sender, and whether there is a failure.
abbrev pub received : List Answer → List (InetAddress × Bytes)
received [] = []
received (datagram peer b bs ∷ rest) = (peer_address peer, b ∷ bs) ∷ received rest
received (nothing ∷ rest) = received rest
received (failed errno ∷ rest) = []

-- No datagram is longer than what recvfrom is offered.
abbrev pub Short : List Answer → Type 0
Short [] = Unit {0}
Short (datagram peer b bs ∷ rest) = (length (b ∷ bs) ≤ 65535) × Short rest
Short (nothing ∷ rest) = Short rest
Short (failed errno ∷ rest) = Unit {0}

abbrev pub HasFailure : List Answer → Type 0
HasFailure [] = ⊥
HasFailure (datagram peer b bs ∷ rest) = HasFailure rest
HasFailure (nothing ∷ rest) = HasFailure rest
HasFailure (failed errno ∷ rest) = Unit {0}

pub new_socket-Fresh : Fresh (new_buffer message_buffer_size)
unfolding new_buffer
new_socket-Fresh = record {
  at_start = refl;
  empty = refl;
  capacity = refl;
  size = length-replicate {0} {A = ℕ} 65543 0;
}

-- The buffer after a datagram.
record Taken (b : MsgBuffer) (content : Bytes) : Type 0 where
  whole : peek (store b content) ≡ content
  fresh : Fresh (retrieve_all (store b content))

peek_empty : (b : MsgBuffer) → b.head ≡ 8 → b.tail ≡ 8 → peek b ≡ []
unfolding peek
peek_empty b h t = rw (h, t) (slice_empty 8 b.buffer)

not_larger : (cap len : ℕ) → cap ≡ 65535 → len ≡ 65543 → ltb (mul_size cap 2) len ≡ false
not_larger cap len c l = rw (c, l) refl

store-Taken : (b : MsgBuffer) (content : Bytes) → length content ≤ 65535 → Fresh b → Taken b content
unfolding retrieve_all
store-Taken b content l f =
    let v : IsValid b = record {
      ordered = omega (arith, f.at_start, f.empty);
      inside = omega (arith, f.empty, f.size);
      prefix = omega (arith, f.size);
      reserve = omega (arith, f.capacity);
      bounded = omega (arith, f.capacity, f.size);
    } in
    let st = store-Stored b content v (omega (arith, f.size)) (omega (arith, f.empty, f.size)) in
    record {
      whole = st.holds ∙ ap (λ (xs : Bytes). xs ++ content) (peek_empty b f.at_start f.empty);
      fresh = record {
        at_start = refl;
        empty = refl;
        capacity = st.same_cap ∙ f.capacity;
        size =
            if_no (λ (xs : Bytes). length xs ≡ 65543)
              (ltb (mul_size (store b content).init_cap 2) (length (store b content).buffer)) _ _
              (not_larger _ _ (st.same_cap ∙ f.capacity) (st.as_long ∙ f.size))
              (st.as_long ∙ f.size);
      };
    }

-- A socket after a datagram.
record TookDatagram (peer : Peer) (content : Bytes) (u v : Socket) : Type 0 where
  fresh : Fresh v.message_buffer
  told : v.messages ≡ u.messages ++ (peer_address peer, content) ∷ []
  listens : v.has_message ≡ true

take_datagram-TookDatagram :
    (peer : Peer) (content : Bytes) (u : Socket)
    → length content ≤ 65535
    → Fresh u.message_buffer
    → u.has_message ≡ true
    → TookDatagram peer content u (take_datagram peer content u)
unfolding take_datagram deliver
take_datagram-TookDatagram peer content u l f h =
    let t = store-Taken u.message_buffer content l f in
    record { fresh = t.fresh; told = rw (h, t.whole) refl; listens = h }

fail-messages : (errno : ℕ) (u : Socket) → (fail errno u).messages ≡ u.messages
unfolding fail on_close
fail-messages errno u =
    if_elim (λ (v : Socket). v.messages ≡ u.messages) (is_transient errno) _ _ (λ e. refl)
      (λ e.
        if_elim (λ (v : Socket). v.messages ≡ u.messages) u.is_closed _ _ (λ d. refl) (λ d. refl))

-- A run that has ended, with these messages.
pub record Delivered (messages : List (InetAddress × Bytes)) (r : Run) : Type 0 where
  pub result : Socket
  pub ends : r ≡ ended result
  pub told : result.messages ≡ messages

read_loop-Delivered :
    (answers : List Answer) (u : Socket)
    → Short answers
    → HasFailure answers
    → Fresh u.message_buffer
    → u.has_message ≡ true
    → Delivered (u.messages ++ received answers) (read_loop answers u)
unfolding read_loop
read_loop-Delivered [] u s w f h = elim w [ ]
read_loop-Delivered (datagram peer b bs ∷ rest) u s w f h =
    let t = take_datagram-TookDatagram peer (b ∷ bs) u s.0 f h in
    let d = read_loop-Delivered rest (take_datagram peer (b ∷ bs) u) s.1 w t.fresh t.listens in
    record {
      result = d.result;
      ends = d.ends;
      told =
          d.told
          ∙ ap (λ (xs : List (InetAddress × Bytes)). xs ++ received rest) t.told
          ∙ append_assoc u.messages ((peer_address peer, b ∷ bs) ∷ []) (received rest);
    }
read_loop-Delivered (nothing ∷ rest) u s w f h = read_loop-Delivered rest u s w f h
read_loop-Delivered (failed errno ∷ rest) u s w f h = record {
  result = fail errno u;
  ends = refl;
  told = fail-messages errno u ∙ sym (append-nil u.messages);
}

-- OnRead of an open socket with a message callback and a fresh buffer, when recvfrom at last fails, ends
-- and calls the callback once for each datagram that is not empty and came before the failure, in order,
-- with the whole datagram and nothing else in the buffer.
pub on_read-Delivered :
    (answers : List Answer) (u : Socket)
    → Short answers
    → HasFailure answers
    → Fresh u.message_buffer
    → u.has_message ≡ true
    → u.is_closed ≡ false
    → Delivered (u.messages ++ received answers) (on_read answers u)
unfolding on_read
on_read-Delivered answers u s w f h o =
    if_no (Delivered (u.messages ++ received answers)) u.is_closed _ _ o
      (read_loop-Delivered answers u s w f h)
