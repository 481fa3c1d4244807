-- ===== src/Channel/Masks.antt =====
-- The masks that the event loop leaves, and what is called for a mask that epoll reports.
use http_nest.Prelude.{◌≡◌, ◌↔◌, refl, Bool, true, false, ◌&&◌, ◌||◌, some}
use http_nest.Channel.{
  Events, Channel, with_events, without_events, handle_event, on_write, enable_channel_writing,
}

or_false : (b : Bool) → (b || false) ≡ b
or_false true = refl
or_false false = refl

or_true : (b : Bool) → (b || true) ≡ true
or_true true = refl
or_true false = refl

and_true : (b : Bool) → (b && true) ≡ b
and_true true = refl
and_true false = refl

and_false : (b : Bool) → (b && false) ≡ false
and_false true = refl
and_false false = refl

-- Asking for room to write and then no longer asking for it leaves the mask without EPOLLOUT, and
-- without EPOLLET also where reading had set it; the other bits are as before.
pub enable_channel_writing-twice :
    (ch : Channel)
    → enable_channel_writing (enable_channel_writing ch true) false
      ≡ record ch { event = record ch.event { writable = false; edge = false } }
unfolding enable_channel_writing with_events without_events
enable_channel_writing-twice ch =
    rw
      (
        or_false ch.event.readable,
        or_false ch.event.urgent,
        or_false ch.event.error,
        or_false ch.event.hang_up,
        and_true ch.event.readable,
        and_true ch.event.urgent,
        and_true ch.event.error,
        and_true ch.event.hang_up,
        and_false (ch.event.writable || true),
        and_false (ch.event.edge || true),
      )
      refl

-- What epoll reports when OnWrite is called.
pub record OnlyWritable (ev : Events) : Type 0 where
  pub room : ev.writable ≡ true
  pub no_input : ev.readable ≡ false
  pub no_urgent : ev.urgent ≡ false
  pub no_error : ev.error ≡ false
  pub no_hang_up : ev.hang_up ≡ false

-- HandleEvent calls OnWrite exactly if epoll reports room to write, and neither input, urgent input, an
-- error nor a hang-up: a report of input and room together is not given to OnWrite.
pub handle_event-on_write :
    (ch : Channel) → (handle_event ch ≡ some on_write) ↔ OnlyWritable ch.revents
unfolding handle_event
handle_event-on_write ch = (
  by_bits ch.revents.error ch.revents.hang_up ch.revents.readable ch.revents.urgent
      ch.revents.writable ch.revents.edge,
  λ o. rw (o.no_error, o.no_hang_up, o.no_input, o.no_urgent, o.room) refl,
)
  where
    mask : (e h r u w t : Bool) → Events
    mask e h r u w t = record {
      readable = r;
      urgent = u;
      writable = w;
      error = e;
      hang_up = h;
      edge = t;
    }

    by_bits :
        (e h r u w t : Bool)
        → handle_event (record ch { revents = mask e h r u w t }) ≡ some on_write
        → OnlyWritable (mask e h r u w t)
    by_bits true h r u w t eq = cc
    by_bits false true false u w t eq = cc
    by_bits false true true u w t eq = cc
    by_bits false false true u w t eq = cc
    by_bits false false false true w t eq = cc
    by_bits false false false false true t eq = record {
      room = refl;
      no_input = refl;
      no_urgent = refl;
      no_error = refl;
      no_hang_up = refl;
    }
    by_bits false false false false false t eq = cc
