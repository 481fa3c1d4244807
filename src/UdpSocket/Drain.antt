-- ===== src/UdpSocket/Drain.antt =====
-- When the loop of `OnWrite` ends, and what has been sent then.
use http_nest.Prelude.{
  ℕ, zero, suc, ◌+◌, ◌≤◌, ◌≡◌, ◌≢◌, ◌∙◌, refl, ap, sym, subst, arith, false, List, [], ◌∷◌, ◌++◌,
  length, append_assoc, append-nil, if_elim, if_no,
}
use http_nest.TcpConnection.{Memory, load, is_transient}
use http_nest.UdpSocket.{
  Node, Datagram, datagram_at, Sent, all_sent, none_sent, refused, Socket, on_close, fail, Run,
  ended, pending, completed, after_send, turn, write_loop, on_write,
}

-- No datagram is empty.
abbrev pub NonEmpty : List Node → Type 0
NonEmpty [] = Unit {0}
NonEmpty (node ∷ nodes) = (node.size ≢ 0) × NonEmpty nodes

-- The datagrams of a queue, as they are in the memory.
abbrev pub datagrams : Memory → List Node → List Datagram
datagrams mem [] = []
datagrams mem (node ∷ nodes) = datagram_at mem node ∷ datagrams mem nodes

-- The loop has ended, and the datagrams sent and those that are left are those before, in order.
pub record Drained (mem : Memory) (u : Socket) (r : Run) : Type 0 where
  pub result : Socket
  pub ends : r ≡ ended result
  pub order :
      result.sent ++ datagrams mem result.buffer_list ≡ u.sent ++ datagrams mem u.buffer_list

fail_lem :
    (mem : Memory) (errno : ℕ) (u : Socket)
    → (fail errno u).sent ++ datagrams mem (fail errno u).buffer_list
      ≡ u.sent ++ datagrams mem u.buffer_list
unfolding fail on_close
fail_lem mem errno u =
    if_elim
      (λ (v : Socket).
        v.sent ++ datagrams mem v.buffer_list ≡ u.sent ++ datagrams mem u.buffer_list)
      (is_transient errno) _ _ (λ e. refl)
      (λ e.
        if_elim
          (λ (v : Socket).
            v.sent ++ datagrams mem v.buffer_list ≡ u.sent ++ datagrams mem u.buffer_list)
          u.is_closed _ _ (λ d. refl) (λ d. refl))

-- `sendto` returns 0 only for an empty datagram.
module _ (mem : Memory) (sendto : ℕ → Datagram → Sent)
    (honest : (k : ℕ) (d : Datagram) → sendto k d ≡ none_sent → d.content ≡ []) where
  not_none : (k : ℕ) (node : Node) → node.size ≢ 0 → sendto k (datagram_at mem node) ≢ none_sent
  unfolding load
  not_none k node ne e = by_size node.size ne (honest k (datagram_at mem node) e)
    where
      by_size : (n : ℕ) → n ≢ 0 → load mem node.addr n ≡ [] → ⊥
      by_size zero ne e = ne refl
      by_size (suc n) ne e = cc

  after_send-Drained :
      (again : Socket → Run) (node : Node) (nodes : List Node) (u : Socket) (answer : Sent)
      → u.buffer_list ≡ node ∷ nodes
      → ((v : Socket) → v.buffer_list ≡ nodes → Drained mem v (again v))
      → answer ≢ none_sent
      → Drained mem u (after_send mem again node nodes u answer)
  unfolding after_send completed
  after_send-Drained again node [] u all_sent q goes_on ne = record {
    result = _;
    ends = refl;
    order = append-nil _ ∙ ap (λ (xs : List Node). u.sent ++ datagrams mem xs) (sym q);
  }
  after_send-Drained again node (n ∷ nodes) u all_sent q goes_on ne =
      let d =
        goes_on (record u { buffer_list = n ∷ nodes; sent = u.sent ++ datagram_at mem node ∷ [] })
          refl in
      record {
        result = d.result;
        ends = d.ends;
        order =
            d.order
            ∙ append_assoc u.sent (datagram_at mem node ∷ []) (datagrams mem (n ∷ nodes))
            ∙ ap (λ (xs : List Node). u.sent ++ datagrams mem xs) (sym q);
      }
  after_send-Drained again node nodes u none_sent q goes_on ne = absurd (ne refl)
  after_send-Drained again node nodes u (refused errno) q goes_on ne = record {
    result = fail errno u;
    ends = refl;
    order = fail_lem mem errno u;
  }

  turn-Drained :
      (send : Node → List Node → Run) (nodes : List Node) (u : Socket)
      → ((node : Node) (rest : List Node) → nodes ≡ node ∷ rest → Drained mem u (send node rest))
      → Drained mem u (turn send nodes u)
  unfolding turn completed
  turn-Drained send [] u goes_on = record { result = completed u; ends = refl; order = refl }
  turn-Drained send (node ∷ nodes) u goes_on = goes_on node nodes refl

  write_loop-Drained :
      (fuel k : ℕ) (u : Socket)
      → NonEmpty u.buffer_list
      → length u.buffer_list ≤ fuel
      → Drained mem u (write_loop mem sendto fuel k u)
  unfolding write_loop
  write_loop-Drained zero k u ne l =
      turn-Drained _ u.buffer_list u
        (λ node rest q. absurd (too_long node rest (subst (λ xs. length xs ≤ 0) q l)))
    where
      too_long : (node : Node) (rest : List Node) → length (node ∷ rest) ≤ 0 → ⊥
      too_long node rest h = omega (arith, h)
  write_loop-Drained (suc fuel) k u ne l = turn-Drained _ u.buffer_list u (λ node rest q.
      let ne' = subst NonEmpty q ne in
      let l' : length (node ∷ rest) ≤ suc fuel = subst (λ xs. length xs ≤ suc fuel) q l in
      after_send-Drained (write_loop mem sendto fuel (k + 1)) node rest u
        (sendto k (datagram_at mem node)) q
        (λ v e.
          write_loop-Drained fuel (k + 1) v (subst NonEmpty (sym e) ne'.1)
            (subst (λ xs. length xs ≤ fuel) (sym e) (omega (arith, l'))))
        (not_none k node ne'.0))

  -- If no datagram in the queue is empty, and sendto returns 0 for empty ones only, OnWrite ends after at
  -- most as many calls of sendto as the queue has datagrams, and the datagrams sent, followed by those
  -- left, as they are in the memory, are in the order of the queue.
  pub on_write-Drained :
      (fuel : ℕ) (u : Socket)
      → NonEmpty u.buffer_list
      → length u.buffer_list ≤ fuel
      → Drained mem u (on_write mem sendto fuel u)
  unfolding on_write
  on_write-Drained fuel u ne l =
      if_elim (Drained mem u) u.is_closed _ _
        (λ e. record { result = u; ends = refl; order = refl })
        (λ e. write_loop-Drained fuel 0 u ne l)

write_loop-pending :
    (mem : Memory) (sendto : ℕ → Datagram → Sent) (fuel k : ℕ) (node : Node) (nodes : List Node)
    (u : Socket)
    → u.buffer_list ≡ node ∷ nodes
    → ((k : ℕ) → sendto k (datagram_at mem node) ≡ none_sent)
    → write_loop mem sendto fuel k u ≡ pending u
unfolding write_loop turn after_send
write_loop-pending mem sendto zero k node nodes u q z =
    ap (λ xs. turn (λ node nodes. pending u) xs u) q
write_loop-pending mem sendto (suc fuel) k node nodes u q z =
    ap
      (λ xs.
        turn
          (λ node nodes.
            after_send mem (write_loop mem sendto fuel (k + 1)) node nodes u
              (sendto k (datagram_at mem node)))
          xs u)
      q
    ∙ (ap (after_send mem (write_loop mem sendto fuel (k + 1)) node nodes u) (z k)
        ∙ by_nodes (write_loop mem sendto fuel (k + 1)) nodes
            (write_loop-pending mem sendto fuel (k + 1) node nodes u q z))
  where
    by_nodes :
        (again : Socket → Run) (ns : List Node)
        → again u ≡ pending u
        → after_send mem again node ns u none_sent ≡ pending u
    by_nodes again [] h = h
    by_nodes again (n ∷ ns) h = h

-- While sendto returns 0 for the datagram at the front, as it does for an empty one, OnWrite of an open
-- socket does not return, whatever is behind it in the queue.
pub on_write-pending :
    (mem : Memory) (sendto : ℕ → Datagram → Sent) (fuel : ℕ) (node : Node) (nodes : List Node)
    (u : Socket)
    → u.is_closed ≡ false
    → u.buffer_list ≡ node ∷ nodes
    → ((k : ℕ) → sendto k (datagram_at mem node) ≡ none_sent)
    → on_write mem sendto fuel u ≡ pending u
unfolding on_write
on_write-pending mem sendto fuel node nodes u o q z =
    if_no (λ r. r ≡ pending u) u.is_closed _ _ o
      (write_loop-pending mem sendto fuel 0 node nodes u q z)
