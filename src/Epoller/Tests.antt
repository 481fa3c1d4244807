-- ===== src/Epoller/Tests.antt =====
-- Runs of the poller, and witnesses of its theorems.
use http_nest.Prelude.{◌≡◌, refl, true, [], ◌∷◌, some}
use http_nest.Prelude.Int.{pos}
use http_nest.Channel.{Channel, new_channel, k_event_read}
use http_nest.Epoller.{Epoller, new_epoller, find, control, control_add, add_channel, poll, ready}
use http_nest.Epoller.Watched.{Watched, start, next, adds, Reach-Watched}

abbrev channel : Channel
channel = record (new_channel (pos 7)) { event = k_event_read }

abbrev with_channel : Epoller
with_channel = record {
  channels = (pos 7, 1) ∷ [];
  slots = 1024;
  controls = control_add (pos 7) k_event_read ∷ [];
}

add_channel_runs : add_channel (new_epoller 1024) 1 channel true ≡ some with_channel
unfolding add_channel find control
add_channel_runs = refl

poll_runs :
    poll with_channel (some ((pos 7, k_event_read) ∷ (pos 8, k_event_read) ∷ []))
    ≡ some ((1, k_event_read) ∷ [], with_channel)
unfolding poll ready find
poll_runs = refl

Reach-Watched_example : Watched with_channel
Reach-Watched_example = Reach-Watched (next (start 1024) (adds _ _ 1 channel add_channel_runs))
