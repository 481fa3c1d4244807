-- ===== src/Http/Context/ChunkText.antt =====
-- The parser reads the length of a chunk as the sender writes it.
use http_nest.Prelude.{
  ℕ, zero, suc, ◌+◌, ◌*◌, ◌/◌, ◌%◌, ◌^◌, ◌<◌, ◌≤◌, ◌≡◌, ◌∙◌, refl, ap, arith, true, false, [], ◌∷◌,
  ◌++◌, ltb, ltb→lt, not_ltb→le, lt→ltb, ◌==◌, Bool-cases, inl, inr, Bytes, append_assoc,
  append-nil, sym,
}
use http_nest.Prelude.Int.{pos}
use http_nest.Http.Utils.{is_space}
use http_nest.Http.Utils.Url.{hex_digit, hex_value, is_xdigit}
use http_nest.Http.Numbers.{hex_from, skip_space, take_sign, skip_0x, to_long, strtol_16}
use http_nest.Http.Context.Send.{hex_text}
use native.Mathlib.Nat.{pow-suc}

hex_digit_lem : (n : ℕ) → n < 16 → (is_xdigit (hex_digit n) ≡ true) × (hex_value (hex_digit n) ≡ n)
unfolding is_xdigit hex_digit hex_value
hex_digit_lem n h = ground arith

hex_from-digit :
    (acc n : ℕ) (rest : Bytes)
    → n < 16
    → hex_from acc (hex_digit n ∷ rest) ≡ hex_from (acc * 16 + n) rest
unfolding hex_from
hex_from-digit acc n rest h =
    let (x, v) = hex_digit_lem n h in
    rw (x, hex_from) (ap (λ (m : ℕ). hex_from (acc * 16 + m) rest) v)

more_fuel : (fuel n : ℕ) → 16 ≤ n → n < 16 ^ suc fuel → 0 < fuel
more_fuel zero n l h = absurd (omega arith)
more_fuel (suc fuel) n l h = omega arith

hex_from-hex_text :
    (fuel n : ℕ) (rest : Bytes)
    → n < 16 ^ fuel
    → 0 < fuel
    → hex_from 0 (hex_text fuel n ++ rest) ≡ hex_from n rest
unfolding hex_text
hex_from-hex_text zero n rest h f = absurd (omega arith)
hex_from-hex_text (suc fuel) n rest h f = elim (Bool-cases (ltb n 16)) [
  | inl small ↦
      rw small (
        hex_from-digit 0 n rest (ltb→lt n 16 small) ∙ ap (λ (m : ℕ). hex_from m rest) (omega arith))
  | inr large ↦
      let l = not_ltb→le n 16 large in
      rw (large, append_assoc)
        (hex_from-hex_text fuel (n / 16) (hex_digit (n % 16) ∷ rest)
            (omega (arith, pow-suc 16 fuel)) (more_fuel fuel n l h)
          ∙ hex_from-digit (n / 16) (n % 16) rest (omega arith)
          ∙ ap (λ (m : ℕ). hex_from m rest) (omega arith))
]

-- Hexadecimal digits only.
abbrev pub AllHex : Bytes → Type 0
AllHex [] = Unit {0}
AllHex (c ∷ s) = (is_xdigit c ≡ true) × AllHex s

AllHex-append : (s t : Bytes) → AllHex s → AllHex t → AllHex (s ++ t)
AllHex-append [] t a b = b
AllHex-append (c ∷ s) t (x, a) b = (x, AllHex-append s t a b)

pub hex_text-AllHex : (fuel n : ℕ) → AllHex (hex_text fuel n)
unfolding hex_text
hex_text-AllHex zero n = tt
hex_text-AllHex (suc fuel) n = elim (Bool-cases (ltb n 16)) [
  | inl small ↦ rw small ((hex_digit_lem n (ltb→lt n 16 small)).0, tt)
  | inr large ↦ rw large (
      AllHex-append (hex_text fuel (n / 16)) (hex_digit (n % 16) ∷ [])
        (hex_text-AllHex fuel (n / 16)) ((hex_digit_lem (n % 16) (omega arith)).0, tt))
]

xdigit_lem :
    (c : ℕ)
    → is_xdigit c ≡ true
    → (is_space c ≡ false)
      × ((c == b'-') ≡ false)
      × ((c == b'+') ≡ false)
      × ((c == b'x') ≡ false)
      × ((c == b'X') ≡ false)
unfolding is_xdigit is_space
xdigit_lem c h = ground arith

skip_0x-AllHex : (s : Bytes) → AllHex s → skip_0x s ≡ s
unfolding skip_0x
skip_0x-AllHex [] a = refl
skip_0x-AllHex (c ∷ []) a = refl
skip_0x-AllHex (c ∷ d ∷ []) a = refl
skip_0x-AllHex (c ∷ d ∷ e ∷ s) (x, (y, a)) =
    let (_, _, _, l, u) = xdigit_lem d y in
    elim (Bool-cases (c == b'0')) [ inl z ↦ rw (z, l, u) | inr z ↦ rw z ]

strtol_16-AllHex : (s : Bytes) → AllHex s → strtol_16 s ≡ to_long false (hex_from 0 s)
unfolding strtol_16
strtol_16-AllHex [] a = unfold skip_space take_sign skip_0x in refl
strtol_16-AllHex (c ∷ s) (x, a) = rw (no_space, no_sign, skip_0x-AllHex (c ∷ s) (x, a))
  where
    no_space : skip_space (c ∷ s) ≡ c ∷ s
    no_space = unfold skip_space in rw ((xdigit_lem c x).0, skip_space)

    no_sign : take_sign (c ∷ s) ≡ (false, c ∷ s)
    no_sign = let (_, minus, plus, _, _) = xdigit_lem c x in unfold take_sign in rw (minus, plus)

value : (n : ℕ) → n < 2 ^ 32 → hex_from 0 (hex_text 8 n) ≡ n
unfolding hex_from
value n h =
    ap (hex_from 0) (sym (append-nil (hex_text 8 n)))
    ∙ hex_from-hex_text 8 n [] (omega arith) (omega arith)

-- The length that the sender of a chunk writes is the length that the parser reads, for every
-- 32-bit word.
pub strtol_16-hex_text : (n : ℕ) → n < 2 ^ 32 → strtol_16 (hex_text 8 n) ≡ pos n
unfolding to_long
strtol_16-hex_text n h =
    strtol_16-AllHex (hex_text 8 n) (hex_text-AllHex 8 n)
    ∙ rw (value n h, lt→ltb n (2 ^ 63) (omega arith))
