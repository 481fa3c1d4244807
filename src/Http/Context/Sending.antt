-- ===== src/Http/Context/Sending.antt =====
-- The order of what HttpContext sends, and when it takes the next message.
use http_nest.Prelude.{◌≡◌, ◌≢◌, refl, true, false, List, [], ◌∷◌, ◌++◌, some, Bytes, sym, subst}
use http_nest.Buffer.{crlf}
use http_nest.Http.Packet.{Packet, packet_bytes}
use http_nest.Http.Outcome.{Outcome, done, fault}
use http_nest.Http.Context.Send.{
  PostState, Sent, send, on_sent, on_sent_next_chunk, HttpContext, post_text, post_stream_header,
  post_chunk_header, post_packet, post_chunk, post_stream_chunk, chunk_line, complete_in,
  write_complete, completes, send_packet, is_init, hex_text,
}

-- While a message is on its way each guarded operation is refused: it returns false, sends nothing
-- and changes nothing.
pub busy_refuses :
    (c : HttpContext) (text : Bytes) (packet : Packet)
    → c.post_state ≢ PostState.init
    → (post_text c text ≡ (false, c, []))
      × (post_stream_header c text ≡ (false, c, []))
      × (post_chunk_header c text ≡ (false, c, []))
      × (post_packet c text (some packet) ≡ (false, c, []))
      × (post_stream_chunk c (some packet) ≡ done (false, c, []))
unfolding post_text post_stream_header post_chunk_header post_packet post_stream_chunk
busy_refuses c text packet h = let e = not_init c.post_state h in (rw e, rw e, rw e, rw e, rw e)
  where
    not_init : (s : PostState) → s ≢ PostState.init → is_init s ≡ false
    not_init PostState.init h = absurd (h refl)
    not_init _ h = refl

-- The events of one operation and of the completions behind it.
abbrev pub Ends : HttpContext → List Sent → Outcome (HttpContext × List Sent) → List Sent → Type 0
Ends c first (done (c', rest)) all = (c'.post_state ≡ PostState.init) × (first ++ rest ≡ all)
Ends c first (fault e) all = ⊥

-- A request with a packet, posted to a context that is ready, goes out as its header, then the
-- packet, then `OnSent`, and the context is ready again.
pub post_packet-completes :
    (c : HttpContext) (header : Bytes) (packet : Packet)
    → c.post_state ≡ PostState.init
    → let (sent, c', events) = post_packet c header (some packet) in
      (sent ≡ true)
      × Ends c events (completes 2 c') (send header ∷ send (packet_bytes packet) ∷ on_sent ∷ [])
unfolding post_packet completes write_complete complete_in send_packet
post_packet-completes c header packet e = rw e (refl, (refl, refl))

-- Once the header is sent, a chunk goes out as its length in hexadecimal and CRLF, then its bytes,
-- then `OnSentNextChunk`, and the context is ready again.
pub post_chunk-completes :
    (c : HttpContext) (packet : Packet)
    → c.header_sent ≡ true
    → (c' : HttpContext) × (events : List Sent) × (post_chunk c (some packet) ≡ done (c', events))
      × Ends c events (completes 2 c') (
          send (hex_text 8 packet.size ++ crlf)
          ∷ send (packet_bytes packet)
          ∷ on_sent_next_chunk
          ∷ [])
unfolding post_chunk completes write_complete complete_in send_packet chunk_line
post_chunk-completes c packet e = (
  record c {
    out_packet = some packet;
    post_state = PostState.chunk_len;
    header = chunk_line packet;
  },
  send (chunk_line packet) ∷ [],
  rw e refl,
  (refl, refl),
)

abbrev Ready : HttpContext → Type 0
Ready c =
    (c' : HttpContext) × (events : List Sent) × (completes 3 c ≡ done (c', events))
    × (c'.post_state ≡ PostState.init)

completes-Ready :
    (c : HttpContext) (packet : Packet) (s : PostState)
    → Ready (record c { out_packet = some packet; post_state = s })
unfolding completes write_complete complete_in send_packet
completes-Ready c packet PostState.init = (_, _, refl, refl)
completes-Ready c packet PostState.http = (_, _, refl, refl)
completes-Ready c packet PostState.http_header = (_, _, refl, refl)
completes-Ready c packet PostState.http_body = (_, _, refl, refl)
completes-Ready c packet PostState.http_stream_header = (_, _, refl, refl)
completes-Ready c packet PostState.http_stream_chunk = (_, _, refl, refl)
completes-Ready c packet PostState.chunk_header = (_, _, refl, refl)
completes-Ready c packet PostState.chunk_len = (_, _, refl, refl)
completes-Ready c packet PostState.chunk_body = (_, _, refl, refl)
completes-Ready c packet PostState.chunk_eof = (_, _, refl, refl)

-- Whatever the context is sending, three completions make it ready again, if it has a packet.
pub completes-init :
    (c : HttpContext) (packet : Packet)
    → c.out_packet ≡ some packet
    → (c' : HttpContext) × (events : List Sent) × (completes 3 c ≡ done (c', events))
      × (c'.post_state ≡ PostState.init)
completes-init c packet e =
    subst Ready (λ i. record c { out_packet = sym e i }) (completes-Ready c packet c.post_state)
