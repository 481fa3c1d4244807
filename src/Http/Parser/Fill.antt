-- ===== src/Http/Parser/Fill.antt =====
-- What one call of `ParseNormalBody`, `ParseStream` or `ParseChunk` moves from the buffer to the packet.
use http_nest.Prelude.{
  ℕ, ◌+◌, ◌-◌, ◌%◌, ◌^◌, ◌<◌, ◌≤◌, ◌≡◌, refl, ◌∙◌, min, arith, [], ◌++◌, Option, none, length, take,
  drop, length-take, length-replicate,
}
use http_nest.Prelude.Int.{ℤ, pos, to_int32, min_ℤ}
use http_nest.Buffer.Memory.{length-splice, slice-splice_after}
use http_nest.Buffer.Invariant.{IsValid, length-peek, readable_lem}
use http_nest.Buffer.Contents.{Holds, retrieve-Holds}
use http_nest.Buffer.{MsgBuffer, readable_bytes, peek, retrieve}
use http_nest.Http.Packet.{Packet, new_packet, space, update_packet_size, copy_in, packet_bytes}
use http_nest.Http.Outcome.{done}
use http_nest.Http.Parser.Body.{open_chunk, copy_bytes, fill_chunk}

-- The packet's storage is as long as its capacity says, and the bytes in use lie inside it.
pub record PacketInv (pk : Packet) : Type 0 where
  pub inside : pk.size ≤ pk.capacity
  pub stored : length pk.storage ≡ pk.capacity
  pub small : pk.capacity < 2 ^ 31

abbrev pub room : Packet → ℕ
room pk = pk.capacity - pk.size

-- The packet after `n` bytes have come in.
abbrev pub filled : Packet → MsgBuffer → ℕ → Packet
filled pk buf n = update_packet_size (copy_in pk (take n (peek buf))) n

-- The buffer is valid and its length is an `int`.
pub record BufferInv (buf : MsgBuffer) : Type 0 where
  pub valid : IsValid buf
  pub small : length buf.buffer < 2 ^ 31

copy_size :
    (pk : Packet) (r : ℕ)
    → PacketInv pk
    → r < 2 ^ 31
    → min_ℤ (to_int32 (pos r)) (space pk) ≡ pos (min r (room pk))
unfolding to_int32 space
copy_size pk r v h = ground (arith, v.inside, v.small)

-- How many bytes are moved: those in the buffer, or those that the packet has room for.
abbrev pub moved : Packet → MsgBuffer → ℕ
moved pk buf = min (readable_bytes buf) (room pk)

module _ {pk : Packet} {buf : MsgBuffer} (v : PacketInv pk) (b : BufferInv buf) where
  moved_le : (moved pk buf ≤ readable_bytes buf) × (moved pk buf ≤ room pk)
  moved_le = omega arith

  pub copy_bytes_lem :
      copy_bytes pk buf (min_ℤ (to_int32 (pos (readable_bytes buf))) (space pk))
      ≡ done ((moved pk buf), filled pk buf (moved pk buf), retrieve buf (moved pk buf))
  unfolding copy_bytes
  copy_bytes_lem = rw (
      copy_size pk (readable_bytes buf) v
        (omega (arith, readable_lem b.valid (omega (arith, b.small)), b.valid.inside, b.small)))

  pub filled-PacketInv : PacketInv (filled pk buf (moved pk buf))
  unfolding update_packet_size copy_in
  filled-PacketInv =
      let l = length-splice pk.size (take (moved pk buf) (peek buf)) pk.storage in
      let m = moved_le in
      record { inside = omega (arith, v.inside, v.small); stored = l ∙ v.stored; small = v.small }

  pub packet_bytes-filled :
      packet_bytes (filled pk buf (moved pk buf))
      ≡ packet_bytes pk ++ take (moved pk buf) (peek buf)
  unfolding update_packet_size copy_in packet_bytes
  packet_bytes-filled =
      let m = moved_le in
      let t : length (take (moved pk buf) (peek buf)) ≡ (moved pk buf) = omega (
        arith,
        length-take {0} (moved pk buf) (peek buf),
        length-peek b.valid (omega (arith, b.small)),
      ) in
      slice-splice_after 0 pk.size ((pk.size + (moved pk buf)) % 2 ^ 32)
        (take (moved pk buf) (peek buf)) pk.storage (omega arith) (omega (arith, v.inside, v.small))
        (omega (arith, v.inside, v.small, v.stored))

  pub room-filled : room (filled pk buf (moved pk buf)) ≡ room pk - (moved pk buf)
  unfolding update_packet_size copy_in
  room-filled = let m = moved_le in omega (arith, v.inside, v.small)

  pub capacity-filled : (filled pk buf (moved pk buf)).capacity ≡ pk.capacity
  unfolding update_packet_size copy_in
  capacity-filled = refl

  pub left-Holds : Holds (retrieve buf (moved pk buf)) (drop (moved pk buf) (peek buf))
  left-Holds = retrieve-Holds b.valid (omega (arith, b.small)) (moved pk buf)

  pub fill_chunk_lem :
      (chunk : Option Packet) (z : ℤ)
      → open_chunk chunk z ≡ done pk
      → fill_chunk chunk z buf
        ≡ done ((moved pk buf), filled pk buf (moved pk buf), retrieve buf (moved pk buf))
  unfolding fill_chunk
  fill_chunk_lem chunk z e = rw (e, copy_bytes_lem)

-- A packet that `NewPacket` has just made.
pub fresh_packet_lem :
    (n : ℕ)
    → n < 2 ^ 31
    → (pk : Packet) × (open_chunk none (pos n) ≡ done pk)
      × PacketInv pk
      × (room pk ≡ n)
      × (packet_bytes pk ≡ [])
unfolding open_chunk new_packet packet_bytes
fresh_packet_lem n h = (
  _,
  refl,
  record { inside = omega arith; stored = length-replicate {0} {A = ℕ} n 0; small = h },
  omega arith,
  refl,
)
