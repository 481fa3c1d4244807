-- ===== src/Http/Wire.antt =====
-- HttpContext over TcpConnection: what HttpContext posts, of src/http/HttpContext.cpp, handed to the
-- connection of src/network/net/TcpConnection.cpp one text after the other. Some calls of HttpContext wait
-- for `WriteComplete` and some do not, so the connection may come to `OnWrite` between any two texts or not.
mod Tests
use http_nest.Prelude.{
  ℕ, ◌+◌, ◌-◌, ◌^◌, ◌≤◌, ◌<◌, ◌≡◌, refl, Bool, true, false, List, [], ◌∷◌, ◌++◌, length, Bytes,
  if◌then◌else◌, if_elim, if_no,
}
use http_nest.TcpConnection.{
  Iovec, Memory, load, Written, accepted, Conn, Run, ended, pending, undefined, is_empty, on_write,
  send_in_loop,
}
use http_nest.TcpConnection.Pieces.{total}
use http_nest.TcpConnection.Order.{is_empty→nil, InOrder}
use http_nest.TcpConnection.Sent.{Live}
use http_nest.TcpConnection.Ends.{WroteAll, Ends}
use http_nest.Http.Packet.{Packet, packet_bytes}
use http_nest.Http.Outcome.{Outcome, done, fault}
use http_nest.Http.Context.Send.{
  Sent, send, on_sent, on_sent_next_chunk, HttpContext, PostState, post_packet, completes,
}

-- What happens to the connection: HttpContext does something, or there is room to write.
pub data Turn : Type 0 where
  does : Sent → Turn
  has_room : Turn

-- The bytes that are handed over.
abbrev pub sends : List Turn → Bytes
sends [] = []
sends (does (send text) ∷ turns) = text ++ sends turns
sends (does on_sent ∷ turns) = sends turns
sends (does on_sent_next_chunk ∷ turns) = sends turns
sends (has_room ∷ turns) = sends turns

-- Where the texts are in the memory, and how much of each `write` takes.
module _ (mem : Memory) (place : Bytes → ℕ) (first : Bytes → ℕ)
    (writev : ℕ → List Iovec → Written) where
  -- `OnWrite`, with enough rounds for what is queued.
  unfoldable pub flush : Conn → Run
  flush c = on_write mem writev (total c.iovec_list + 1) c

  abbrev pub and_then : Run → (Conn → Run) → Run
  and_then (ended c) k = k c
  and_then (pending c) k = pending c
  and_then undefined k = undefined

  -- `Send` of a text in the loop's thread.
  unfoldable pub transmit : Bytes → Conn → Conn
  transmit text c = send_in_loop mem (place text) (length text) (accepted (first text)) c

  -- The turns in their order, and room at the end; what the handler is told is not the connection's.
  unfoldable pub carry : List Turn → Conn → Run
  carry [] c = flush c
  carry (does (send text) ∷ turns) c = carry turns (transmit text c)
  carry (does on_sent ∷ turns) c = carry turns c
  carry (does on_sent_next_chunk ∷ turns) c = carry turns c
  carry (has_room ∷ turns) c = and_then (flush c) (carry turns)

  -- A connection that was handed exactly these bytes, and may have some of them in its queue.
  pub record Waiting (sent : Bytes) (c : Conn) : Type 0 where
    pub in_order : InOrder mem c sent
    pub live : Live c

  -- All of these bytes are written, in order, and the connection is open with nothing left to write.
  pub record Carried (sent : Bytes) (r : Run) : Type 0 where
    pub result : Conn
    pub ends : r ≡ ended result
    pub wrote : result.written ≡ sent
    pub wrote_all : WroteAll result

  -- A text stays where it is and is not too long, and `write` takes no more than there is.
  pub record Ready (text : Bytes) : Type 0 where
    pub there : load mem (place text) (length text) ≡ text
    pub fits : length text < 2 ^ 64
    pub takes : first text ≤ length text

  abbrev pub AllReady : List Turn → Type 0
  AllReady [] = Unit {0}
  AllReady (does (send text) ∷ turns) = Ready text × AllReady turns
  AllReady (does on_sent ∷ turns) = AllReady turns
  AllReady (does on_sent_next_chunk ∷ turns) = AllReady turns
  AllReady (has_room ∷ turns) = AllReady turns
