-- ===== src/Http/Context/Receive.antt =====
-- `HttpContext::Parse`, the loop that runs the parser over what the connection has read.
use http_nest.Prelude.{
  ℕ, zero, suc, Bool, true, false, List, [], ◌∷◌, ◌++◌, Option, ltb, if◌then◌else◌,
}
use http_nest.Buffer.{MsgBuffer, readable_bytes}
use http_nest.Http.Packet.{Packet}
use http_nest.Http.Request.{HttpRequest}
use http_nest.Http.Outcome.{Fault, Outcome, done, fault}
use http_nest.Http.Parser.State.{ParserState, HttpParser}
use http_nest.Http.Parser.Machine.{Parsed, parse}

-- What the loop does to the handler and to the connection: `OnRequest` with the request and the
-- packet, which may be null, and `ForceClose`.
pub data Event : Type 0 where
  on_request : Option HttpRequest → Option Packet → Event
  force_close : Event

-- The state of the loop when it ends, or when its rounds are used up.
pub data Loop : Type 0 where
  finished : List Event → HttpParser → MsgBuffer → Loop
  faulted : List Event → Fault → Loop
  running : List Event → HttpParser → MsgBuffer → Loop

-- The events of one round, for the state that `Parse` returned. The flag is whether `handler_` is set.
unfoldable pub events_of : Bool → ParserState → HttpParser → List Event
events_of handler ParserState.http_complete p =
    if handler then on_request p.req p.chunk ∷ [] else []
events_of handler ParserState.chunk_complete p =
    if handler then on_request p.req p.chunk ∷ [] else []
events_of handler ParserState.error p = force_close ∷ []
events_of handler _ p = []

-- The rest of a round behind the call of the parser; `again` is the next test of the loop.
unfoldable pub finish_round :
    Bool → (List Event → HttpParser → MsgBuffer → Loop) → List Event → Outcome Parsed → Loop
finish_round handler again events (done (s, p, buf)) = again (events ++ events_of handler s p) p buf
finish_round handler again events (fault e) = faulted events e

-- `while (buf.ReadableBytes() > 1)`, on fuel: a round for each unit.
unfoldable pub parse_loop : ℕ → Bool → List Event → HttpParser → MsgBuffer → Loop
parse_loop zero handler events p buf = running events p buf
parse_loop (suc fuel) handler events p buf = elim (ltb 1 (readable_bytes buf)) [
  | true ↦ finish_round handler (parse_loop fuel handler) events (parse p buf)
  | false ↦ finished events p buf
]
