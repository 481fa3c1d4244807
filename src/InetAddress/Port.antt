-- ===== src/InetAddress/Port.antt =====
-- The port of an address as text and as a number.
use native.Mathlib.Nat.{pow-suc}
use http_nest.Prelude.{
  ℕ, zero, suc, ◌+◌, ◌*◌, ◌/◌, ◌%◌, ◌^◌, ◌<◌, ◌≤◌, ◌≡◌, ◌∙◌, sym, ap, arith, true, false, [], ◌∷◌,
  ◌++◌, ltb, ltb→lt, not_ltb→le, lt→ltb, ◌==◌, Bool-cases, inl, inr, Bytes, append_assoc,
  append-nil,
}
use http_nest.Prelude.Int.{to_int32, to_int32_small}
use http_nest.Http.Utils.{is_space}
use http_nest.Http.Numbers.{is_digit, decimal_from, skip_space, take_sign, to_long, atoi}
use http_nest.Http.Request.Print.{decimal}
use http_nest.InetAddress.{InetAddress, port_text, set_port, port_number}

digit_lem : (n : ℕ) → n < 10 → is_digit (b'0' + n) ≡ true
unfolding is_digit
digit_lem n h = ground arith

decimal_from-digit :
    (acc n : ℕ) (rest : Bytes)
    → n < 10
    → decimal_from acc ((b'0' + n) ∷ rest) ≡ decimal_from (acc * 10 + n) rest
unfolding decimal_from
decimal_from-digit acc n rest h =
    rw (digit_lem n h, decimal_from)
      (ap (λ (m : ℕ). decimal_from (acc * 10 + m) rest) (omega arith))

more_fuel : (fuel n : ℕ) → 10 ≤ n → n < 10 ^ suc fuel → 0 < fuel
more_fuel zero n l h = absurd (omega arith)
more_fuel (suc fuel) n l h = omega arith

decimal_from-decimal :
    (fuel n : ℕ) (rest : Bytes)
    → n < 10 ^ fuel
    → 0 < fuel
    → decimal_from 0 (decimal fuel n ++ rest) ≡ decimal_from n rest
unfolding decimal
decimal_from-decimal zero n rest h f = absurd (omega arith)
decimal_from-decimal (suc fuel) n rest h f = elim (Bool-cases (ltb n 10)) [
  | inl small ↦ rw small (
      decimal_from-digit 0 n rest (ltb→lt n 10 small)
      ∙ ap (λ (m : ℕ). decimal_from m rest) (omega arith))
  | inr large ↦
      let l = not_ltb→le n 10 large in
      rw (large, append_assoc)
        (decimal_from-decimal fuel (n / 10) ((b'0' + n % 10) ∷ rest)
            (omega (arith, pow-suc 10 fuel)) (more_fuel fuel n l h)
          ∙ decimal_from-digit (n / 10) (n % 10) rest (omega arith)
          ∙ ap (λ (m : ℕ). decimal_from m rest) (omega arith))
]

-- A text that starts with a digit.
abbrev StartsDigit : Bytes → Type 0
StartsDigit [] = ⊥
StartsDigit (c ∷ s) = is_digit c ≡ true

StartsDigit-append : (s t : Bytes) → StartsDigit s → StartsDigit (s ++ t)
StartsDigit-append [] t a = elim a [ ]
StartsDigit-append (c ∷ s) t a = a

decimal-StartsDigit : (fuel n : ℕ) → n < 10 ^ fuel → 0 < fuel → StartsDigit (decimal fuel n)
unfolding decimal
decimal-StartsDigit zero n h f = absurd (omega arith)
decimal-StartsDigit (suc fuel) n h f = elim (Bool-cases (ltb n 10)) [
  | inl small ↦ rw small (digit_lem n (ltb→lt n 10 small))
  | inr large ↦ rw large (
      StartsDigit-append (decimal fuel (n / 10)) ((b'0' + n % 10) ∷ []) (
        decimal-StartsDigit fuel (n / 10) (omega (arith, pow-suc 10 fuel))
          (more_fuel fuel n (not_ltb→le n 10 large) h)))
]

plain_lem :
    (c : ℕ)
    → is_digit c ≡ true
    → (is_space c ≡ false) × ((c == b'-') ≡ false) × ((c == b'+') ≡ false)
unfolding is_digit is_space
plain_lem c h = ground arith

atoi-StartsDigit :
    (s : Bytes) → StartsDigit s → atoi s ≡ to_int32 (to_long false (decimal_from 0 s))
unfolding atoi
atoi-StartsDigit [] a = elim a [ ]
atoi-StartsDigit (c ∷ s) a = rw (no_space, no_sign)
  where
    no_space : skip_space (c ∷ s) ≡ c ∷ s
    no_space = unfold skip_space in rw ((plain_lem c a).0, skip_space)

    no_sign : take_sign (c ∷ s) ≡ (false, c ∷ s)
    no_sign = let (_, minus, plus) = plain_lem c a in unfold take_sign in rw (minus, plus)

value : (n : ℕ) → n < 2 ^ 16 → decimal_from 0 (decimal 5 n) ≡ n
unfolding decimal_from
value n h =
    ap (decimal_from 0) (sym (append-nil (decimal 5 n)))
    ∙ decimal_from-decimal 5 n [] (omega arith) (omega arith)

-- `port` returns what `SetPort` was given.
pub port_number-set_port : (a : InetAddress) (n : ℕ) → n < 2 ^ 16 → port_number (set_port a n) ≡ n
unfolding port_number set_port port_text to_long
port_number-set_port a n h =
    rw
      (
        atoi-StartsDigit (decimal 5 n) (decimal-StartsDigit 5 n (omega arith) (omega arith)),
        value n h,
        lt→ltb n (2 ^ 63) (omega arith),
        to_int32_small n (omega arith),
      )
      (omega arith)
