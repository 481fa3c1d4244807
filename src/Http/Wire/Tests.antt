-- ===== src/Http/Wire/Tests.antt =====
-- A run of HttpContext over a connection, and a witness.
use http_nest.Prelude.{ℕ, refl, arith, List, [], ◌∷◌, Bytes}
use http_nest.TcpConnection.{Iovec, Memory, load, Written, accepted}
use http_nest.TcpConnection.Pieces.{total}
use http_nest.Http.Context.Send.{send, on_sent}
use http_nest.Http.Wire.{Turn, does, has_room, AllReady}

-- The byte at an address is the address, so a text that counts up is where its first byte says.
abbrev memory : Memory
memory a = a

abbrev place : Bytes → ℕ
place [] = 0
place (b ∷ text) = b

abbrev whole : ℕ → List Iovec → Written
whole k ps = accepted (total ps)

-- A header of which `write` takes a byte, and a body that is queued behind the rest of it.
abbrev turns : List Turn
turns =
    does (send (71 ∷ 72 ∷ 73 ∷ []))
    ∷ does (send (80 ∷ 81 ∷ []))
    ∷ has_room
    ∷ does on_sent
    ∷ does (send (90 ∷ 91 ∷ []))
    ∷ []

ready : AllReady memory place (λ text. 1) whole turns
unfolding load
ready = (
  record { there = refl; fits = omega arith; takes = omega arith },
  (
    record { there = refl; fits = omega arith; takes = omega arith },
    (record { there = refl; fits = omega arith; takes = omega arith }, tt),
  ),
)
