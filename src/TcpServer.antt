-- ===== src/TcpServer.antt =====
-- TcpServer: src/network/TcpServer.h and TcpServer.cpp over Epoller and TcpConnection, in the loop's
-- thread, with the listening channel of src/network/net/Acceptor.cpp. A connection is an object with a number. The callback that a connection is activated by, and
-- what the callbacks do, are not modelled.
pub mod Sets
pub mod Served
mod Tests
use http_nest.Prelude.{
  ℕ, suc, ◌+◌, Bool, true, false, List, [], ◌∷◌, ◌++◌, Option, none, some, ◌==◌, if◌then◌else◌,
}
use http_nest.Prelude.Int.{pos}
use http_nest.Channel.{Channel, new_channel, with_events, k_event_read}
use http_nest.Epoller.{Epoller, add_channel, remove_channel}
use http_nest.TcpConnection.{
  Conn, new_conn, set_close_callback, set_recv_msg_callback, set_write_complete_callback,
  enable_check_idle_timeout, on_close,
}

-- Which callbacks of the server are set.
pub record Callbacks : Type 0 where
  pub new_connection : Bool
  pub destroy_connection : Bool
  pub write_complete : Bool
  pub message : Bool

pub data ServerCall : Type 0 where
  new_connection_callback : ℕ → ServerCall
  destroy_connection_callback : ℕ → ServerCall

-- A `TcpServer` and the poller of its loop. `next` is the number of the next object; `closed` are the
-- connections that were closed, newest first.
pub record TcpServer : Type 0 where
  pub callbacks : Callbacks
  pub connections : List (ℕ × Conn)
  pub poller : Epoller
  pub next : ℕ
  pub closed : List Conn
  pub calls : List ServerCall

-- A server over the poller of its loop, which may have channels already; `next` is a new number.
abbrev pub new_server : Callbacks → ℕ → Epoller → TcpServer
new_server callbacks next poller = record {
  callbacks = callbacks;
  connections = [];
  poller = poller;
  next = next;
  closed = [];
  calls = [];
}

-- `EventLoop::AddChannel` before it calls the poller.
abbrev pub watching : Channel → Channel
watching ch = record ch { event = with_events ch.event k_event_read }

-- `Start`: `Acceptor::Open` adds the listening channel, with the descriptor that `socket` returned, to the
-- poller of the same loop.
unfoldable pub start : Bool → ℕ → TcpServer → Option TcpServer
start ok fd s = elim (add_channel s.poller s.next (watching (new_channel (pos fd))) ok) [
  | none ↦ none
  | some p ↦ some (record s { poller = p; next = suc s.next })
]

-- The connection that `OnAccet` makes, with its callbacks.
unfoldable pub set_up : Callbacks → ℕ → Conn
set_up callbacks fd =
    let c = set_close_callback (new_conn (pos fd)) in
    let c' = if callbacks.write_complete then set_write_complete_callback c else c in
    if callbacks.message then set_recv_msg_callback c' else c'

-- The connection at the end of `OnAccet`.
unfoldable pub accepted_conn : Callbacks → ℕ → Conn
accepted_conn callbacks fd =
    let c = set_up callbacks fd in
    enable_check_idle_timeout 30 (record c { channel = watching c.channel })

abbrev pub called : Bool → ServerCall → List ServerCall
called true k = k ∷ []
called false k = []

-- `OnAccet` of a descriptor, where `epoll_ctl` succeeds or not.
unfoldable pub on_accept : Bool → ℕ → TcpServer → Option TcpServer
on_accept ok fd s = elim (add_channel s.poller s.next (accepted_conn s.callbacks fd).channel ok) [
  | none ↦ none
  | some p ↦ some (record s {
    connections = (s.next, accepted_conn s.callbacks fd) ∷ s.connections;
    poller = p;
    next = suc s.next;
    calls = s.calls ++ called s.callbacks.new_connection (new_connection_callback s.next);
  })
]

unfoldable pub find_conn : ℕ → List (ℕ × Conn) → Option Conn
find_conn id [] = none
find_conn id ((key, c) ∷ connections) =
    let rest = find_conn id connections in if id == key then some c else rest

unfoldable pub erase_conn : ℕ → List (ℕ × Conn) → List (ℕ × Conn)
erase_conn id [] = []
erase_conn id ((key, c) ∷ connections) =
    let rest = erase_conn id connections in if id == key then rest else (key, c) ∷ rest

-- `OnConnectionClose`.
unfoldable pub on_connection_close : Bool → ℕ → Channel → TcpServer → Option TcpServer
on_connection_close ok id ch s = elim (remove_channel s.poller ch ok) [
  | none ↦ none
  | some p ↦ some (record s {
    connections = erase_conn id s.connections;
    poller = p;
    calls = s.calls ++ called s.callbacks.destroy_connection (destroy_connection_callback id);
  })
]

unfoldable pub closing_conn : Bool → ℕ → Conn → TcpServer → Option TcpServer
closing_conn ok id c s =
    if c.is_closed
    then some s
    else on_connection_close ok id c.channel (record s { closed = on_close c ∷ s.closed })

-- `TcpConnection::OnClose` of a connection of the server: the close callback, with the descriptor still
-- open, and then `Close`.
unfoldable pub close_conn : Bool → ℕ → TcpServer → Option TcpServer
close_conn ok id s = elim (find_conn id s.connections) [
  | none ↦ some s
  | some c ↦ closing_conn ok id c s
]
