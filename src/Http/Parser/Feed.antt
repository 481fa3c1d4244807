-- ===== src/Http/Parser/Feed.antt =====
-- A body of known length is put together from the pieces in which the network delivers it.
use http_nest.Prelude.{
  ℕ, ◌-◌, ◌^◌, ◌<◌, ◌≤◌, ◌≡◌, inl, inr, refl, sym, ap, ◌∙◌, arith, List, [], ◌∷◌, ◌++◌, length,
  take, drop, take_all, drop_all, length-append, append_assoc, append-nil, Bytes,
}
use http_nest.Buffer.Invariant.{address_limit, length-peek}
use http_nest.Buffer.Contents.{Holds, length-retrieve-le}
use http_nest.Buffer.Front.{read_fd-Holds}
use http_nest.Buffer.{MsgBuffer, peek, retrieve, read_fd, bytes}
use http_nest.Http.Outcome.{Outcome, done, fault, ◌>>=◌}
use http_nest.Http.Parser.State.{ParserState, HttpParser}
use http_nest.Http.Parser.Machine.{Parsed, parse, parse_in}
use http_nest.Http.Parser.Fill.{BufferInv, filled, moved, left-Holds}
use http_nest.Http.Parser.Reassembly.{
  Awaiting, Complete, Progress, Progress-cast, after_body, parse_normal_body_lem,
  after_body-Progress, parse-parse_in,
}

-- The parser is called behind each piece that is read from the socket.
pub feed : HttpParser → MsgBuffer → List Bytes → Outcome (HttpParser × MsgBuffer)
feed p buf [] = done (p, buf)
feed p buf (x ∷ xs) = do r ← parse p (read_fd buf (bytes x)); feed r.1 r.2 xs

abbrev pub OnDone : (HttpParser → MsgBuffer → Type 0) → Outcome Parsed → Type 0
OnDone P (done (s, p, buf)) = P p buf
OnDone P (fault e) = Unit {0}

-- The pieces are not empty, and the storage of the buffer stays below the range of `int`.
abbrev pub Arrives : List Bytes → HttpParser → MsgBuffer → Type 0
Arrives [] p buf = Unit {0}
Arrives (x ∷ xs) p buf =
    (0 < length x)
    × (length x < address_limit)
    × (length (read_fd buf (bytes x)).buffer < 2 ^ 31)
    × OnDone (Arrives xs) (parse p (read_fd buf (bytes x)))

abbrev pub joined : List Bytes → Bytes
joined [] = []
joined (x ∷ xs) = x ++ joined xs

-- One piece, no longer than what is left of the body.
pub feed_step :
    (p : HttpParser) (buf : MsgBuffer) (x : Bytes) {got : Bytes} {left : ℕ}
    → Awaiting p got left
    → Holds buf []
    → length buf.buffer < address_limit
    → 0 < length x
    → length x < address_limit
    → length (read_fd buf (bytes x)).buffer < 2 ^ 31
    → length x ≤ left
    → (q : HttpParser) × (buf' : MsgBuffer) × (parse p (read_fd buf (bytes x))
        ≡ done (q.state, q, buf'))
      × Progress q (got ++ x) (left - length x)
      × Holds buf' []
      × (length buf'.buffer < address_limit)
unfolding parse_in
feed_step p buf x {got} {left} a h s nonempty short small fits =
    let held = read_fd-Holds h.valid s x short in
    let is_x : peek buf1 ≡ x = held.holds ∙ ap (λ (xs : Bytes). xs ++ x) h.holds in
    let b1 : BufferInv buf1 = record { valid = held.valid; small = small } in
    let l = length-peek held.valid (omega (arith, small)) in
    let m : moved a.packet buf1 ≡ length x = omega (arith, a.has_room, ap length is_x, l) in
    let whole : take (moved a.packet buf1) (peek buf1) ≡ x =
      rw is_x (take_all (moved a.packet buf1) x (omega arith)) in
    let rest : drop (moved a.packet buf1) (peek buf1) ≡ [] =
      rw is_x (drop_all (moved a.packet buf1) x (omega arith)) in
    let gone = left-Holds a.packet_ok b1 in
    (
      after_body p (filled a.packet buf1 (moved a.packet buf1)) (left - moved a.packet buf1),
      retrieve buf1 (moved a.packet buf1),
      parse-parse_in p buf1 ParserState.normal_body a.in_body (omega (arith, ap length is_x, l))
          ∙ rw (parse_normal_body_lem p buf1 a b1),
      Progress-cast (ap (◌++◌ got) whole) (omega arith) (after_body-Progress p buf1 a b1),
      record { valid = gone.valid; holds = gone.holds ∙ rest },
      omega (
        arith,
        length-retrieve-le held.valid (omega (arith, small)) (moved a.packet buf1),
        small,
      ),
    )
  where
    buf1 : MsgBuffer
    buf1 = read_fd buf (bytes x)

-- Pieces that are together no longer than what is left of the body.
feed-Progress :
    (xs : List Bytes) (p : HttpParser) (buf : MsgBuffer) {got : Bytes} {left : ℕ}
    → Progress p got left
    → Holds buf []
    → length buf.buffer < address_limit
    → Arrives xs p buf
    → length (joined xs) ≤ left
    → (q : HttpParser) × (buf' : MsgBuffer) × (feed p buf xs ≡ done (q, buf'))
      × Progress q (got ++ joined xs) (left - length (joined xs))
      × Holds buf' []
unfolding feed
feed-Progress [] p buf pr h s ar le =
    (p, buf, refl, Progress-cast (sym (append-nil _)) (omega arith) pr, h)
feed-Progress (x ∷ xs) p buf (inl (e, c)) h s ar le =
    absurd (omega (arith, length-append x (joined xs)))
feed-Progress (x ∷ xs) p buf {got} {left} (inr (more, a)) h s ar le =
    let (q, buf', e, pr, h', s') =
      feed_step p buf x a h s ar.0 ar.1 ar.2 (omega (arith, length-append x (joined xs))) in
    let (r, last, run, final, empty) =
      feed-Progress xs q buf' pr h' s' (rw e at ar.3)
        (omega (arith, length-append x (joined xs))) in
    (
      r,
      last,
      rw e run,
      Progress-cast (append_assoc got x (joined xs)) (omega (arith, length-append x (joined xs)))
          final,
      empty,
    )

-- However the network splits a body of known length into pieces, a parser that waits for it, with
-- a valid and empty buffer, ends with `kExpectHttpComplete` and its packet holds the body, byte for
-- byte; no call fails and the buffer is empty again. The pieces are not empty, and the storage of the
-- buffer stays below the range of `int`.
pub feed-Complete :
    (xs : List Bytes) (p : HttpParser) (buf : MsgBuffer) {left : ℕ}
    → 0 < left
    → Awaiting p [] left
    → Holds buf []
    → length buf.buffer < address_limit
    → Arrives xs p buf
    → length (joined xs) ≡ left
    → (q : HttpParser) × (buf' : MsgBuffer) × (feed p buf xs ≡ done (q, buf'))
      × Complete q (joined xs)
      × Holds buf' []
feed-Complete xs p buf {left} more a h s ar e =
    let (q, buf', run, pr, empty) = feed-Progress xs p buf (inr (more, a)) h s ar (omega arith) in
    (q, buf', run, ended pr, empty)
  where
    ended :
        {q : HttpParser}
        → Progress q (joined xs) (left - length (joined xs))
        → Complete q (joined xs)
    ended (inl (_, c)) = c
    ended (inr (l, _)) = absurd (omega arith)
