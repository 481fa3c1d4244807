-- ===== src/Http/Numbers.antt =====
-- The conversions of the C library that the HTTP code calls: `std::atoi`, `std::strtol` with base
-- 16 and `std::stoull`. `long` has 64 bits.
use http_nest.Prelude.{
  ℕ, ◌+◌, ◌-◌, ◌*◌, ◌%◌, ◌^◌, Bool, true, false, [], ◌∷◌, Option, none, some, leb, ltb, ◌==◌, ◌&&◌,
  ◌||◌, if◌then◌else◌, Bytes,
}
use http_nest.Prelude.Int.{ℤ, pos, to_int32, sub_ℕ}
use http_nest.Http.Utils.{is_space}
use http_nest.Http.Utils.Url.{is_xdigit, hex_value}

unfoldable pub is_digit : ℕ → Bool
is_digit c = leb b'0' c && leb c b'9'

-- The longest run of digits, as a number on top of `acc`.
unfoldable pub decimal_from : ℕ → Bytes → ℕ
unfolding is_digit
decimal_from acc [] = acc
decimal_from acc (c ∷ s) = elim (is_digit c) [
  | true ↦ decimal_from (acc * 10 + (c - b'0')) s
  | false ↦ acc
]

unfoldable pub hex_from : ℕ → Bytes → ℕ
hex_from acc [] = acc
hex_from acc (c ∷ s) = elim (is_xdigit c) [
  | true ↦ hex_from (acc * 16 + hex_value c) s
  | false ↦ acc
]

unfoldable pub skip_space : Bytes → Bytes
unfolding is_space
skip_space [] = []
skip_space (c ∷ s) = elim (is_space c) [ true ↦ skip_space s | false ↦ c ∷ s ]

-- The sign in front of a number: whether it is a minus, and the text behind it.
unfoldable pub take_sign : Bytes → Bool × Bytes
take_sign [] = (false, [])
take_sign (c ∷ s) =
    if c == b'-' then (true, s) else if c == b'+' then (false, s) else (false, c ∷ s)

-- "0x" in front of a hexadecimal digit.
unfoldable pub skip_0x : Bytes → Bytes
skip_0x (z ∷ x ∷ h ∷ s) =
    if z == b'0' && ((x == b'x' || x == b'X') && is_xdigit h) then h ∷ s else z ∷ x ∷ h ∷ s
skip_0x s = s

-- A sign and a magnitude as a `long`; out of range it is the nearest value.
unfoldable pub to_long : Bool → ℕ → ℤ
to_long true n = if ltb (2 ^ 63) n then sub_ℕ 0 (2 ^ 63) else sub_ℕ 0 n
to_long false n = if ltb n (2 ^ 63) then pos n else pos (2 ^ 63 - 1)

unfoldable pub strtol_16 : Bytes → ℤ
unfolding hex_from skip_space take_sign skip_0x to_long
strtol_16 s =
    let (minus, digits) = take_sign (skip_space s) in to_long minus (hex_from 0 (skip_0x digits))

-- `atoi` is `strtol` with base 10, as an `int`.
unfoldable pub atoi : Bytes → ℤ
unfolding decimal_from skip_space take_sign to_long to_int32
atoi s =
    let (minus, digits) = take_sign (skip_space s) in
    to_int32 (to_long minus (decimal_from 0 digits))

-- Whether a number starts here.
abbrev starts_number : Bytes → Bool
starts_number [] = false
starts_number (c ∷ s) = leb b'0' c && leb c b'9'

-- `none` stands for the exceptions: no digits, or out of range. A minus negates modulo 2 ^ 64.
unfoldable pub stoull : Bytes → Option ℕ
unfolding decimal_from skip_space take_sign
stoull s =
    let (minus, digits) = take_sign (skip_space s) in
    let n = decimal_from 0 digits in
    if starts_number digits && ltb n (2 ^ 64)
    then some (if minus then (2 ^ 64 - n) % 2 ^ 64 else n)
    else none
