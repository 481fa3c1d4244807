-- ===== src/Epoller/Stale.antt =====
-- A channel that is closed before it is removed.
use http_nest.Prelude.{ℕ, ◌≡◌, refl, arith, Bool, true, false, [], ◌∷◌, none, some}
use http_nest.Prelude.Int.{ℤ, pos, negsuc, ltb_ℤ}
use http_nest.Channel.{Channel, Events, close}
use http_nest.Epoller.{find, Epoller, add_channel, remove_channel, ready}

-- If a channel of the poller with a descriptor above 0 is closed, and -1 is not a descriptor of the
-- map, then removing the channel afterwards changes nothing, a new channel that gets the same
-- descriptor is not added, and events that are reported for the descriptor go to the old channel.
pub close-stays :
    (p : Epoller) (id new_id : ℕ) (ch new : Channel) (ok : Bool) (ev : Events)
    → ltb_ℤ (pos 0) ch.fd ≡ true
    → find ch.fd p.channels ≡ some id
    → find (negsuc 0) p.channels ≡ none
    → new.fd ≡ ch.fd
    → (remove_channel p (close ch).0 ok ≡ some p)
      × (add_channel p new_id new ok ≡ some p)
      × (ready p.channels ((new.fd, ev) ∷ []) ≡ (id, ev) ∷ [])
unfolding close add_channel remove_channel ready
close-stays p id new_id ch new ok ev open_fd here missing same = (
  rw (open_fd, remove_channel, missing) refl,
  rw (add_channel, same, here) refl,
  rw (same, positive ch.fd open_fd, here) refl,
)
  where
    positive : (fd : ℤ) → ltb_ℤ (pos 0) fd ≡ true → ltb_ℤ fd (pos 0) ≡ false
    positive (pos n) e = ground arith
    positive (negsuc n) e = ground arith
