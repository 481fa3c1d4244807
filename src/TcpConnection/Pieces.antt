-- ===== src/TcpConnection/Pieces.antt =====
-- The bytes of the queue under the inner loop of `OnWrite`.
use http_nest.Prelude.{
  ℕ, zero, suc, ◌+◌, ◌-◌, ◌%◌, ◌^◌, ◌≤◌, ◌<◌, ◌≡◌, ◌∙◌, ap, sym, refl, inl, inr, arith, List, [],
  ◌∷◌, ◌++◌, some, ltb, ltb→lt, not_ltb→le, Bool-cases, take, drop, take-append-drop, length,
  length-append, Bytes, append_assoc, drop-append_before, drop-append_after,
}
use http_nest.Buffer.{add_size}
use http_nest.TcpConnection.{Iovec, Memory, load, contents, consume}

-- The number of bytes in the queue.
abbrev pub total : List Iovec → ℕ
total [] = 0
total (p ∷ pieces) = p.iov_len + total pieces

module _ (mem : Memory) where
  pub length-load : (base len : ℕ) → length (load mem base len) ≡ len
  unfolding load
  length-load base zero = refl
  length-load base (suc len) = ap suc (length-load (base + 1) len)

  pub load_mod :
      (base base' len : ℕ) → base % 2 ^ 64 ≡ base' % 2 ^ 64 → load mem base len ≡ load mem base' len
  unfolding load
  load_mod base base' zero e = refl
  load_mod base base' (suc len) e = rw (e, load_mod (base + 1) (base' + 1) len (omega arith)) refl

  pub drop-load :
      (n base base' len len' : ℕ)
      → base' ≡ base + n
      → len ≡ n + len'
      → drop n (load mem base len) ≡ load mem base' len'
  unfolding load
  drop-load zero base base' len len' e l =
      let e' : base ≡ base' = omega arith in let l' : len ≡ len' = omega arith in rw (e', l') refl
  drop-load (suc n) base base' zero len' e l = absurd (omega arith)
  drop-load (suc n) base base' (suc len) len' e l =
      drop-load n (base + 1) base' len len' (omega arith) (omega arith)

  pub take-load :
      (n base len len' : ℕ) → len ≡ n + len' → take n (load mem base len) ≡ load mem base n
  unfolding load
  take-load zero base len len' l = refl
  take-load (suc n) base zero len' l = absurd (omega arith)
  take-load (suc n) base (suc len) len' l = rw (take-load n (base + 1) len len' (omega arith)) refl

  pub load-append :
      (n base len : ℕ)
      → n ≤ len
      → load mem base n ++ load mem (add_size base n) (len - n) ≡ load mem base len
  load-append n base len h =
      rw
        (
          load_mod (add_size base n) (base + n) (len - n) (omega arith),
          ← take-load n base len (len - n) (omega arith),
          ← drop-load n base (base + n) len (len - n) refl (omega arith),
        )
        (take-append-drop n (load mem base len))

  pub contents-append :
      (ps qs : List Iovec) → contents mem (ps ++ qs) ≡ contents mem ps ++ contents mem qs
  unfolding contents
  contents-append [] qs = refl
  contents-append (p ∷ ps) qs =
      rw (contents-append ps qs)
        (sym (append_assoc (load mem p.iov_base p.iov_len) (contents mem ps) (contents mem qs)))

  pub length-contents : (ps : List Iovec) → length (contents mem ps) ≡ total ps
  unfolding contents
  length-contents [] = refl
  length-contents (p ∷ ps) = omega (
    arith,
    length-append (load mem p.iov_base p.iov_len) (contents mem ps),
    length-load p.iov_base p.iov_len,
    length-contents ps,
  )

  -- The queue that is left when `n` bytes have gone.
  pub record Consumed (ps : List Iovec) (n : ℕ) : Type 0 where
    pub rest : List Iovec
    pub result : consume ps n ≡ some rest
    pub remains : contents mem rest ≡ drop n (contents mem ps)
    pub fewer : total rest + n ≡ total ps

  shorten :
      (p : Iovec) (n : ℕ)
      → n < p.iov_len
      → load mem (add_size p.iov_base n) (p.iov_len - n) ≡ drop n (load mem p.iov_base p.iov_len)
  shorten p n h =
      load_mod (add_size p.iov_base n) (p.iov_base + n) (p.iov_len - n) (omega arith)
      ∙ sym (drop-load n p.iov_base (p.iov_base + n) p.iov_len (p.iov_len - n) refl (omega arith))

  -- The inner loop of `OnWrite` drops the `n` bytes that were written from the front of the queue, and
  -- never runs out of pieces, if the queue had as many bytes.
  pub consume-Consumed : (ps : List Iovec) (n : ℕ) → n ≤ total ps → Consumed ps n
  unfolding consume contents
  consume-Consumed ps zero h = record {
    rest = ps;
    result = refl;
    remains = refl;
    fewer = omega arith;
  }
  consume-Consumed [] (suc n) h = absurd (omega arith)
  consume-Consumed (p ∷ ps) (suc n) h = elim (Bool-cases (ltb (suc n) p.iov_len)) [
    | inl part ↦
        let lt = ltb→lt (suc n) p.iov_len part in
        let l = length-load p.iov_base p.iov_len in
        record {
          rest =
              record { iov_base = add_size p.iov_base (suc n); iov_len = p.iov_len - suc n } ∷ ps;
          result = rw part refl;
          remains =
              ap (λ (xs : Bytes). xs ++ contents mem ps) (shorten p (suc n) lt)
              ∙ sym (
                  drop-append_before (suc n) (load mem p.iov_base p.iov_len) (contents mem ps)
                    (omega arith));
          fewer = omega arith;
        }
    | inr whole ↦
        let le = not_ltb→le (suc n) p.iov_len whole in
        let l = length-load p.iov_base p.iov_len in
        let c = consume-Consumed ps (suc n - p.iov_len) (omega arith) in
        record {
          rest = c.rest;
          result = rw whole c.result;
          remains =
              c.remains
              ∙ sym (
                  drop-append_after (suc n) (suc n - p.iov_len) (load mem p.iov_base p.iov_len)
                    (contents mem ps) (omega arith));
          fewer = omega (arith, c.fewer);
        }
  ]
