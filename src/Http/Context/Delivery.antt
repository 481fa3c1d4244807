-- ===== src/Http/Context/Delivery.antt =====
-- What `HttpContext::Parse` does with the last piece of a body of known length.
use http_nest.Prelude.{
  ℕ, suc, ◌^◌, ◌-◌, ◌<◌, ◌≡◌, ◌∙◌, refl, sym, ap, arith, Bool, true, false, List, [], ◌∷◌, ◌++◌,
  length, Bytes, ltb, lt→ltb, inl, inr,
}
use http_nest.Buffer.{MsgBuffer, readable_bytes, peek, read_fd, bytes}
use http_nest.Buffer.Invariant.{address_limit, length-peek}
use http_nest.Buffer.Contents.{Holds}
use http_nest.Buffer.Front.{read_fd-Holds}
use http_nest.Http.Outcome.{done}
use http_nest.Http.Parser.State.{ParserState, HttpParser}
use http_nest.Http.Parser.Machine.{parse}
use http_nest.Http.Parser.Reassembly.{Awaiting, Complete, Progress}
use http_nest.Http.Parser.Feed.{feed_step}
use http_nest.Http.Context.Receive.{
  Event, on_request, finished, events_of, finish_round, parse_loop,
}

-- With less than two bytes in the buffer the loop ends.
loop_end :
    (fuel : ℕ) (handler : Bool) (events : List Event) (p : HttpParser) (buf : MsgBuffer)
    → ltb 1 (readable_bytes buf) ≡ false
    → parse_loop (suc fuel) handler events p buf ≡ finished events p buf
loop_end fuel handler events p buf e = unfold parse_loop in rw (e, parse_loop)

loop_round :
    (fuel : ℕ) (handler : Bool) (events : List Event) (p : HttpParser) (buf : MsgBuffer)
    {s : ParserState} {q : HttpParser} {buf' : MsgBuffer}
    → 1 < readable_bytes buf
    → parse p buf ≡ done (s, q, buf')
    → parse_loop (suc fuel) handler events p buf
      ≡ parse_loop fuel handler (events ++ events_of handler s q) q buf'
unfolding parse_loop finish_round
loop_round fuel handler events p buf h e = rw (lt→ltb 1 (readable_bytes buf) h, e, parse_loop)

readable :
    {buf : MsgBuffer} {x : Bytes}
    → Holds buf x
    → length buf.buffer < address_limit
    → readable_bytes buf ≡ length x
readable h s = sym (length-peek h.valid s) ∙ ap length h.holds

-- The rest of a body that comes in one piece of two bytes or more, into a valid and empty buffer
-- whose storage stays below the range of `int`, goes to the handler at once: one call of `OnRequest`,
-- whose packet holds the whole body, and the loop ends with an empty buffer.
pub parse_loop-delivers :
    (fuel : ℕ) (p : HttpParser) (buf : MsgBuffer) (x : Bytes) {got : Bytes}
    → Awaiting p got (length x)
    → Holds buf []
    → length buf.buffer < address_limit
    → 1 < length x
    → length x < address_limit
    → length (read_fd buf (bytes x)).buffer < 2 ^ 31
    → (q : HttpParser) × (buf' : MsgBuffer) × (parse_loop
          (suc (suc fuel))
          true
          []
          p
          (read_fd buf (bytes x))
        ≡ finished (on_request q.req q.chunk ∷ []) q buf')
      × Complete q (got ++ x)
      × Holds buf' []
parse_loop-delivers fuel p buf x {got} a h s two short small =
    let (q, buf', run, progress, empty, fits) =
      feed_step p buf x a h s (omega arith) short small (omega arith) in
    let c : Complete q (got ++ x) = ended progress in
    let arrived = ap length (read_fd-Holds h.valid s x short).holds in
    (
      q,
      buf',
      loop_round (suc fuel) true [] p (read_fd buf (bytes x)) (more) run
          ∙ loop_end fuel true (events_of true q.state q) q buf' (rw (readable empty fits) refl)
          ∙ ap (λ (st : ParserState). finished (events_of true st q) q buf') c.at_end
          ∙ unfold events_of in refl,
      c,
      empty,
    )
  where
    ended : {q : HttpParser} → Progress q (got ++ x) (length x - length x) → Complete q (got ++ x)
    ended (inl (_, c)) = c
    ended (inr (l, _)) = absurd (omega arith)

    held : Holds (read_fd buf (bytes x)) (peek buf ++ x)
    held = read_fd-Holds h.valid s x short

    more : 1 < readable_bytes (read_fd buf (bytes x))
    more =
        let l = readable held (omega (arith, small)) in
        let m = ap (λ (xs : Bytes). length (xs ++ x)) h.holds in omega arith

-- A last byte of a body that comes alone, into a valid and empty buffer, stays in the buffer: the
-- loop ends before it calls the parser, and the handler does not get the body.
pub parse_loop-last_byte :
    (fuel : ℕ) (p : HttpParser) (buf : MsgBuffer) (c : ℕ) {got : Bytes}
    → Awaiting p got 1
    → Holds buf []
    → length buf.buffer < address_limit
    → length (read_fd buf (bytes (c ∷ []))).buffer < 2 ^ 31
    → (parse_loop (suc fuel) true [] p (read_fd buf (bytes (c ∷ [])))
        ≡ finished [] p (read_fd buf (bytes (c ∷ []))))
      × Holds (read_fd buf (bytes (c ∷ []))) (c ∷ [])
parse_loop-last_byte fuel p buf c a h s small =
    let held = read_fd-Holds h.valid s (c ∷ []) (omega arith) in
    let is_c : peek (read_fd buf (bytes (c ∷ []))) ≡ c ∷ [] =
      held.holds ∙ ap (λ (xs : Bytes). xs ++ c ∷ []) h.holds in
    (
      loop_end fuel true [] p (read_fd buf (bytes (c ∷ [])))
          (rw (readable (record { valid = held.valid; holds = is_c }) (omega (arith, small))) refl),
      record { valid = held.valid; holds = is_c },
    )
