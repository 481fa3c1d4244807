-- ===== src/Channel/Tests.antt =====
-- Runs of the channel's operations, and witnesses.
use http_nest.Prelude.{◌≡◌, refl, true, false, some}
use http_nest.Prelude.Int.{pos}
use http_nest.Channel.{
  Channel, new_channel, k_event_read, k_event_write, with_events, without_events, set_revents,
  handle_event, on_read, enable_channel_writing, enable_channel_reading,
}
use http_nest.Channel.Masks.{enable_channel_writing-twice}

abbrev reading : Channel
reading = record (new_channel (pos 7)) { event = k_event_read }

-- Input and room together.
both_runs :
    handle_event (set_revents reading (with_events k_event_read k_event_write)) ≡ some on_read
unfolding handle_event with_events
both_runs = refl

stop_reading_runs :
    (enable_channel_reading (enable_channel_writing reading true) false).event
    ≡ record k_event_write { edge = false }
unfolding enable_channel_reading enable_channel_writing with_events without_events
stop_reading_runs = refl

enable_channel_writing-twice_example :
    enable_channel_writing (enable_channel_writing reading true) false
    ≡ record reading { event = record k_event_read { edge = false } }
enable_channel_writing-twice_example = enable_channel_writing-twice reading
