-- ===== src/TcpConnection/Ends.antt =====
-- When the loop of `OnWrite` ends.
use http_nest.Prelude.{
  ℕ, zero, suc, ◌+◌, ◌-◌, ◌≤◌, ◌<◌, ◌≡◌, ◌≢◌, ◌⊎◌, inl, inr, refl, arith, subst, false, List, [],
  ◌∷◌, ◌++◌, Option, none, some, ltb, ltb→lt, not_ltb→le, if_elim, if_no, Bytes,
}
use http_nest.TcpConnection.{
  Iovec, Memory, consume, completed, enable_writing, Written, accepted, refused, Conn, Run, ended,
  pending, fail, finish, extend_life, is_empty, after_write, answer_write, write_loop, on_write,
}
use http_nest.Buffer.{add_size}
use http_nest.TcpConnection.Pieces.{total, consume-Consumed}
use http_nest.TcpConnection.Steps.{Honest}
use http_nest.TcpConnection.Order.{is_empty→nil, is_empty-append}

-- No piece is empty.
abbrev pub NonEmpty : List Iovec → Type 0
NonEmpty [] = Unit {0}
NonEmpty (p ∷ ps) = (0 < p.iov_len) × NonEmpty ps

-- A connection that has written its whole queue and is open.
abbrev pub WroteAll : Conn → Type 0
WroteAll c = (c.iovec_list ≡ []) × (c.is_closed ≡ false)

finish-WroteAll : (c : Conn) → WroteAll c → WroteAll (finish c)
unfolding finish completed enable_writing
finish-WroteAll c h = h

total-NonEmpty : (ps : List Iovec) → NonEmpty ps → is_empty ps ≡ false → 0 < total ps
total-NonEmpty [] h e = cc
total-NonEmpty (p ∷ ps) h e = omega (arith, h.0)

-- What holds of a queue that is left, if one is.
abbrev Left : (List Iovec → Type 0) → Option (List Iovec) → Type 0
Left P none = Unit {0}
Left P (some ps) = P ps

consume-NonEmpty : (ps : List Iovec) (n : ℕ) → NonEmpty ps → Left NonEmpty (consume ps n)
unfolding consume
consume-NonEmpty ps zero h = h
consume-NonEmpty [] (suc n) h = tt
consume-NonEmpty (p ∷ ps) (suc n) h =
    if_elim (Left NonEmpty) (ltb (suc n) p.iov_len) _ _
      (λ part. let lt = ltb→lt (suc n) p.iov_len part in (omega arith, h.1))
      (λ whole. consume-NonEmpty ps (suc n - p.iov_len) h.1)

-- The queue ends with an empty piece.
abbrev pub EndsEmpty : List Iovec → Type 0
EndsEmpty ps = (qs : List Iovec) × (e : Iovec) × (ps ≡ qs ++ e ∷ []) × (e.iov_len ≡ 0)

module _ (mem : Memory) (writev : ℕ → List Iovec → Written) (honest : Honest writev) where
  -- How `OnWrite` ends: it wrote everything, or `writev` failed.
  pub record Ends (r : Run) : Type 0 where
    pub result : Conn
    pub ends : r ≡ ended result
    pub why :
        WroteAll result
        ⊎ ((k : ℕ) × (ps : List Iovec) × (errno : ℕ) × (writev k ps ≡ refused errno))

  after_write-Ends :
      (again : Conn → Run) (c : Conn) (out : Bytes) (rest : List Iovec)
      → ((c' : Conn)
          → c'.is_closed ≡ false
          → is_empty c'.iovec_list ≡ false
          → NonEmpty c'.iovec_list
          → total c'.iovec_list < total c.iovec_list
          → Ends (again c'))
      → c.is_closed ≡ false
      → NonEmpty rest
      → total rest < total c.iovec_list
      → Ends (after_write again c out (some rest))
  unfolding after_write
  after_write-Ends again c out [] goes_on o ne lt = record {
    result = _;
    ends = refl;
    why = inl (finish-WroteAll _ (refl, o));
  }
  after_write-Ends again c out (x ∷ xs) goes_on o ne lt = goes_on _ o refl ne lt

  answer_write-Ends :
      (again : Conn → Run) (k : ℕ) (c : Conn) (w : Written)
      → ((c' : Conn)
          → c'.is_closed ≡ false
          → is_empty c'.iovec_list ≡ false
          → NonEmpty c'.iovec_list
          → total c'.iovec_list < total c.iovec_list
          → Ends (again c'))
      → writev k c.iovec_list ≡ w
      → c.is_closed ≡ false
      → NonEmpty c.iovec_list
      → 0 < total c.iovec_list
      → Ends (answer_write again mem c w)
  unfolding answer_write
  answer_write-Ends again k c (refused errno) goes_on e o h p = record {
    result = fail errno c;
    ends = refl;
    why = inr (k, c.iovec_list, errno, e);
  }
  answer_write-Ends again k c (accepted n) goes_on e o h p =
      let r = consume-Consumed mem c.iovec_list n (honest.at_most k c.iovec_list n e) in
      let n0 = honest.progress k c.iovec_list n e p in
      rw r.result (
        after_write-Ends again c _ r.rest goes_on o
          (subst (Left NonEmpty) r.result (consume-NonEmpty c.iovec_list n h))
          (omega (arith, r.fewer)))

  write_loop-Ends :
      (fuel k : ℕ) (c : Conn)
      → c.is_closed ≡ false
      → is_empty c.iovec_list ≡ false
      → NonEmpty c.iovec_list
      → total c.iovec_list < fuel
      → Ends (write_loop mem writev fuel k c)
  unfolding write_loop
  write_loop-Ends zero k c o p h l = absurd (omega arith)
  write_loop-Ends (suc fuel) k c o p h l =
      answer_write-Ends (write_loop mem writev fuel (k + 1)) k c (writev k c.iovec_list)
        (λ c' o' p' h' l'. write_loop-Ends fuel (k + 1) c' o' p' h' (omega arith)) refl o h
        (total-NonEmpty c.iovec_list h p)

  -- `OnWrite` of an open connection without empty pieces in its queue ends after at most as many calls
  -- of `writev` as the queue has bytes, plus one, if `writev` accepts no more than it is offered and
  -- something if it is offered something: then the queue is empty and the
  -- connection open, or `writev` has failed.
  pub on_write-Ends :
      (fuel : ℕ) (c : Conn)
      → c.is_closed ≡ false
      → NonEmpty c.iovec_list
      → total c.iovec_list < fuel
      → Ends (on_write mem writev fuel c)
  unfolding on_write extend_life
  on_write-Ends fuel c o h l = if_no Ends c.is_closed _ _ o (
      if_elim Ends (is_empty c.iovec_list) _ _
        (λ e. record {
          result = _;
          ends = refl;
          why = inl (finish-WroteAll _ (is_empty→nil c.iovec_list e, o));
        })
        (λ e. write_loop-Ends fuel 0 _ o e h l))

-- What is left of a queue that ends with an empty piece ends with it.
consume-EndsEmpty :
    (qs : List Iovec) (e : Iovec) (n : ℕ)
    → e.iov_len ≡ 0
    → n ≤ total (qs ++ e ∷ [])
    → Left EndsEmpty (consume (qs ++ e ∷ []) n)
unfolding consume
consume-EndsEmpty qs e zero z h = (qs, e, refl, z)
consume-EndsEmpty [] e (suc n) z h = absurd (omega arith)
consume-EndsEmpty (q ∷ qs) e (suc n) z h =
    if_elim (Left EndsEmpty) (ltb (suc n) q.iov_len) _ _
      (λ part. (
        record { iov_base = add_size q.iov_base (suc n); iov_len = q.iov_len - suc n } ∷ qs,
        e,
        refl,
        z,
      ))
      (λ whole.
        let le = not_ltb→le (suc n) q.iov_len whole in
        consume-EndsEmpty qs e (suc n - q.iov_len) z (omega arith))

is_empty-EndsEmpty : (ps : List Iovec) → EndsEmpty ps → is_empty ps ≡ false
is_empty-EndsEmpty ps (qs, e, eq, z) = rw eq (is_empty-append qs e)

module _ (mem : Memory) (writev : ℕ → List Iovec → Written) (honest : Honest writev)
    (never : (k : ℕ) (ps : List Iovec) (errno : ℕ) → writev k ps ≢ refused errno) where
  abbrev Pending : Run → Type 0
  Pending r = (c : Conn) × (r ≡ pending c)

  after_write-Pending :
      (again : Conn → Run) (c : Conn) (out : Bytes) (rest : List Iovec)
      → ((c' : Conn) → EndsEmpty c'.iovec_list → Pending (again c'))
      → EndsEmpty rest
      → Pending (after_write again c out (some rest))
  unfolding after_write
  after_write-Pending again c out [] goes_on h = let e = is_empty-EndsEmpty [] h in cc
  after_write-Pending again c out (x ∷ xs) goes_on h = goes_on _ h

  answer_write-Pending :
      (again : Conn → Run) (k : ℕ) (c : Conn) (w : Written)
      → ((c' : Conn) → EndsEmpty c'.iovec_list → Pending (again c'))
      → writev k c.iovec_list ≡ w
      → EndsEmpty c.iovec_list
      → Pending (answer_write again mem c w)
  unfolding answer_write
  answer_write-Pending again k c (refused errno) goes_on e h = absurd (never k c.iovec_list errno e)
  answer_write-Pending again k c (accepted n) goes_on e h =
      let some_n = honest.at_most k c.iovec_list n e in
      let r = consume-Consumed mem c.iovec_list n some_n in
      let (qs, x, eq, z) = h in
      let kept : Left EndsEmpty (consume c.iovec_list n) =
        rw eq (consume-EndsEmpty qs x n z (subst (λ ps. n ≤ total ps) eq some_n)) in
      rw r.result
        (after_write-Pending again c _ r.rest goes_on (subst (Left EndsEmpty) r.result kept))

  write_loop-Pending :
      (fuel k : ℕ) (c : Conn) → EndsEmpty c.iovec_list → Pending (write_loop mem writev fuel k c)
  unfolding write_loop
  write_loop-Pending zero k c h = (c, refl)
  write_loop-Pending (suc fuel) k c h =
      answer_write-Pending (write_loop mem writev fuel (k + 1)) k c (writev k c.iovec_list)
        (λ c' h'. write_loop-Pending fuel (k + 1) c' h') refl h

  -- If the last piece of the queue of an open connection is empty, `OnWrite` never returns while
  -- `writev` does not fail: after any number of calls it is about to call `writev` again.
  pub on_write-never_ends :
      (fuel : ℕ) (c : Conn)
      → c.is_closed ≡ false
      → EndsEmpty c.iovec_list
      → (c' : Conn) × (on_write mem writev fuel c ≡ pending c')
  unfolding on_write extend_life
  on_write-never_ends fuel c o h = if_no Pending c.is_closed _ _ o (
      if_no Pending (is_empty c.iovec_list) _ _ (is_empty-EndsEmpty c.iovec_list h)
        (write_loop-Pending fuel 0 _ h))
