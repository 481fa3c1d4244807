-- ===== src/Epoller.antt =====
-- Epoller: src/network/net/Epoller.h and Epoller.cpp. A channel is an object with a number; the calls of
-- `epoll_ctl` are kept in their order, and what `epoll_ctl` and `epoll_wait` answer is an argument.
-- `none` stands for the `exit` behind a call that fails.
pub mod Watched
pub mod Stale
mod Tests
use http_nest.Prelude.{
  ℕ, ◌+◌, ◌*◌, Bool, true, false, List, [], ◌∷◌, ◌++◌, Option, none, some, ◌==◌, if◌then◌else◌,
  length,
}
use http_nest.Prelude.Int.{ℤ, pos, negsuc, ltb_ℤ}
use http_nest.Channel.{Channel, Events}

abbrev pub eq_ℤ : ℤ → ℤ → Bool
eq_ℤ (pos m) (pos n) = m == n
eq_ℤ (pos m) (negsuc n) = false
eq_ℤ (negsuc m) (pos n) = false
eq_ℤ (negsuc m) (negsuc n) = m == n

-- The number of the object at a descriptor in the map.
unfoldable pub find : ℤ → List (ℤ × ℕ) → Option ℕ
find fd [] = none
find fd ((key, id) ∷ map) = let rest = find fd map in if eq_ℤ fd key then some id else rest

unfoldable pub erase : ℤ → List (ℤ × ℕ) → List (ℤ × ℕ)
erase fd [] = []
erase fd ((key, id) ∷ map) =
    let rest = erase fd map in if eq_ℤ fd key then rest else (key, id) ∷ rest

-- A call of `epoll_ctl`.
pub data Control : Type 0 where
  control_add : ℤ → Events → Control
  control_del : ℤ → Control
  control_mod : ℤ → Events → Control

-- `channels` is the map, `slots` the length of `events_`.
pub record Epoller : Type 0 where
  pub channels : List (ℤ × ℕ)
  pub slots : ℕ
  pub controls : List Control

abbrev pub new_epoller : ℕ → Epoller
new_epoller max_event = record { channels = []; slots = max_event; controls = [] }

-- The end of each operation: `epoll_ctl`, and `exit` if it fails.
unfoldable pub control : Bool → Control → Epoller → Option Epoller
control ok call p = if ok then some (record p { controls = p.controls ++ call ∷ [] }) else none

unfoldable pub add_channel : Epoller → ℕ → Channel → Bool → Option Epoller
add_channel p id ch ok = elim (find ch.fd p.channels) [
  | some _ ↦ some p
  | none ↦
      control ok (control_add ch.fd ch.event) (record p { channels = (ch.fd, id) ∷ p.channels })
]

unfoldable pub remove_channel : Epoller → Channel → Bool → Option Epoller
remove_channel p ch ok = elim (find ch.fd p.channels) [
  | some _ ↦ control ok (control_del ch.fd) (record p { channels = erase ch.fd p.channels })
  | none ↦ some p
]

unfoldable pub update_channel : Epoller → Channel → Bool → Option Epoller
update_channel p ch ok = elim (find ch.fd p.channels) [
  | some _ ↦ control ok (control_mod ch.fd ch.event) p
  | none ↦ some p
]

-- The channels for the events that `epoll_wait` reports, with the mask that each is given.
unfoldable pub ready : List (ℤ × ℕ) → List (ℤ × Events) → List (ℕ × Events)
ready channels [] = []
ready channels ((fd, ev) ∷ reported) =
    let rest = ready channels reported in
    if ltb_ℤ fd (pos 0)
    then rest
    else elim (find fd channels) [ some id ↦ (id, ev) ∷ rest | none ↦ rest ]

-- `Poll`, with what `epoll_wait` reports.
unfoldable pub poll : Epoller → Option (List (ℤ × Events)) → Option (List (ℕ × Events) × Epoller)
poll p none = none
poll p (some reported) = some (
  ready p.channels reported,
  record p { slots = if length reported == p.slots then p.slots * 2 else p.slots },
)
