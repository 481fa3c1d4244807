-- ===== src/Channel.antt =====
-- Channel: src/network/net/Channel.h and Channel.cpp, with the parts of EventLoop.cpp that change a
-- channel's events. An event mask is a record of epoll's bits.
pub mod Masks
mod Tests
use http_nest.Prelude.{ℕ, Bool, true, false, not, ◌&&◌, ◌||◌, Option, none, some, if◌then◌else◌}
use http_nest.Prelude.Int.{ℤ, pos, negsuc, ltb_ℤ}

-- EPOLLIN, EPOLLPRI, EPOLLOUT, EPOLLERR, EPOLLHUP and EPOLLET.
pub record Events : Type 0 where
  pub readable : Bool
  pub urgent : Bool
  pub writable : Bool
  pub error : Bool
  pub hang_up : Bool
  pub edge : Bool

abbrev pub no_events : Events
no_events = record {
  readable = false;
  urgent = false;
  writable = false;
  error = false;
  hang_up = false;
  edge = false;
}

abbrev pub k_event_read : Events
k_event_read = record no_events { readable = true; urgent = true; edge = true }

abbrev pub k_event_write : Events
k_event_write = record no_events { writable = true; edge = true }

-- `a |= b`.
unfoldable pub with_events : Events → Events → Events
with_events a b = record {
  readable = a.readable || b.readable;
  urgent = a.urgent || b.urgent;
  writable = a.writable || b.writable;
  error = a.error || b.error;
  hang_up = a.hang_up || b.hang_up;
  edge = a.edge || b.edge;
}

-- `a &= ~b`.
unfoldable pub without_events : Events → Events → Events
without_events a b = record {
  readable = a.readable && not b.readable;
  urgent = a.urgent && not b.urgent;
  writable = a.writable && not b.writable;
  error = a.error && not b.error;
  hang_up = a.hang_up && not b.hang_up;
  edge = a.edge && not b.edge;
}

pub record Channel : Type 0 where
  pub fd : ℤ
  pub event : Events
  pub revents : Events

-- The constructor, with the descriptor of a connection or -1.
abbrev pub new_channel : ℤ → Channel
new_channel fd = record { fd = fd; event = no_events; revents = no_events }

-- `Close`: the channel, and the descriptor that is closed.
unfoldable pub close : Channel → Channel × Option ℤ
close ch = if ltb_ℤ (pos 0) ch.fd then (record ch { fd = negsuc 0 }, some ch.fd) else (ch, none)

abbrev pub set_revents : Channel → Events → Channel
set_revents ch ev = record ch { revents = ev }

-- The virtual function that `HandleEvent` calls.
pub data Handler : Type 0 where
  on_error : Handler
  on_close : Handler
  on_read : Handler
  on_write : Handler

unfoldable pub handle_event : Channel → Option Handler
handle_event ch =
    if ch.revents.error
    then some on_error
    else if ch.revents.hang_up && not ch.revents.readable
    then some on_close
    else if ch.revents.readable || ch.revents.urgent
    then some on_read
    else if ch.revents.writable
    then some on_write
    else none

-- The mask that `EventLoop::EnableChannelWriting` leaves.
unfoldable pub enable_channel_writing : Channel → Bool → Channel
enable_channel_writing ch enable = record ch {
  event =
      if enable then with_events ch.event k_event_write else without_events ch.event k_event_write;
}

-- The mask that `EventLoop::EnableChannelReading` leaves.
unfoldable pub enable_channel_reading : Channel → Bool → Channel
enable_channel_reading ch enable = record ch {
  event =
      if enable then with_events ch.event k_event_read else without_events ch.event k_event_read;
}
