-- ===== src/Http/Packet.antt =====
-- Packet: src/http/base/Packet.h and Packet.cpp. The bytes behind the header are `storage`.
use http_nest.Prelude.{
  ℕ, ◌+◌, ◌-◌, ◌%◌, ◌^◌, Bool, ◌&&◌, ◌==◌, Option, none, some, take, replicate, Bytes,
}
use Prim.Native.Nat.{bit_and}
use http_nest.Prelude.Int.{ℤ, pos, negsuc, to_int32}
use http_nest.Buffer.Memory.{splice}

pub record Packet : Type 0 where
  pub kind : ℕ
  pub size : ℕ
  pub index : ℤ
  pub timestamp : ℕ
  pub capacity : ℕ
  pub storage : Bytes

abbrev pub packet_type_video : ℕ
packet_type_video = 1

abbrev pub packet_type_audio : ℕ
packet_type_audio = 2

abbrev pub packet_type_meta : ℕ
packet_type_meta = 4

abbrev pub packet_type_meta3 : ℕ
packet_type_meta3 = 8

abbrev pub frame_type_key_frame : ℕ
frame_type_key_frame = 16

abbrev pub packet_type_unknown : ℕ
packet_type_unknown = 255

-- `NewPacket`. `none` stands for a negative size: the block is then smaller than the header that is
-- written to it, or its size wraps round and `new` throws.
unfoldable pub new_packet : ℤ → Option Packet
new_packet (pos n) = some (record {
  kind = packet_type_unknown;
  size = 0;
  index = negsuc 0;
  timestamp = 0;
  capacity = n;
  storage = replicate n 0;
})
new_packet (negsuc n) = none

unfoldable pub is_video : Packet → Bool
is_video p = bit_and p.kind packet_type_video == packet_type_video

unfoldable pub is_key_frame : Packet → Bool
is_key_frame p =
    bit_and p.kind packet_type_video == packet_type_video
    && bit_and p.kind frame_type_key_frame == frame_type_key_frame

unfoldable pub is_audio : Packet → Bool
is_audio p = p.kind == packet_type_audio

unfoldable pub is_meta : Packet → Bool
is_meta p = p.kind == packet_type_meta

unfoldable pub is_meta3 : Packet → Bool
is_meta3 p = p.kind == packet_type_meta3

-- `PacketSize` and `Space`: 32-bit words read as `int`.
unfoldable pub packet_size : Packet → ℤ
packet_size p = to_int32 (pos p.size)

unfoldable pub space : Packet → ℤ
space p = to_int32 (pos ((p.capacity + 2 ^ 32 - p.size) % 2 ^ 32))

unfoldable pub update_packet_size : Packet → ℕ → Packet
update_packet_size p len = record p { size = (p.size + len) % 2 ^ 32 }

-- `SetPacketSize` keeps the low word of a `size_t`.
unfoldable pub set_packet_size : Packet → ℕ → Packet
set_packet_size p len = record p { size = len % 2 ^ 32 }

unfoldable pub set_index : Packet → ℤ → Packet
set_index p index = record p { index = index }

-- The types are small positive numbers.
unfoldable pub set_packet_type : Packet → ℕ → Packet
set_packet_type p kind = record p { kind = kind }

unfoldable pub set_timestamp : Packet → ℕ → Packet
set_timestamp p timestamp = record p { timestamp = timestamp }

-- `memcpy` to `Data() + PacketSize()`.
unfoldable pub copy_in : Packet → Bytes → Packet
copy_in p src = record p { storage = splice p.size src p.storage }

-- The bytes that a reader of the packet gets.
unfoldable pub packet_bytes : Packet → Bytes
packet_bytes p = take p.size p.storage
