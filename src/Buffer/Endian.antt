-- ===== src/Buffer/Endian.antt =====
-- Byte order: `hton64` of src/network/base/MsgBuffer.h, and `htons`, `htonl`, on a little-endian host,
-- where each of them reverses the bytes of its argument.
use native.Mathlib.Nat.{pow-suc}
use mathlib.Core.List.{reverse, reverse-reverse, reverse-cons}
use http_nest.Prelude.{
  ℕ, zero, suc, ◌+◌, ◌*◌, ◌/◌, ◌%◌, ◌^◌, ◌<◌, ◌≡◌, ◌∙◌, ap, ap₂, refl, [], ◌∷◌, ◌++◌, arith, length,
  length-append, Bytes, AreBytes,
}

-- The bytes of an unsigned integer of `width` bytes in the host's memory.
unfoldable pub to_le : ℕ → ℕ → Bytes
to_le zero v = []
to_le (suc width) v = (v % 256) ∷ to_le width (v / 256)

-- The integer that these bytes of the host's memory stand for.
unfoldable pub from_le : Bytes → ℕ
from_le [] = 0
from_le (x ∷ xs) = x + 256 * from_le xs

unfoldable pub hton : ℕ → ℕ → ℕ
hton width v = from_le (reverse (to_le width v))

pub length-to_le : (width v : ℕ) → length (to_le width v) ≡ width
unfolding to_le
length-to_le zero v = refl
length-to_le (suc width) v = ap suc (length-to_le width (v / 256))

pub from_le-to_le : (width v : ℕ) → v < 256 ^ width → from_le (to_le width v) ≡ v
unfolding to_le from_le
from_le-to_le zero v h = omega arith
from_le-to_le (suc width) v h =
    omega
      (arith, pow-suc 256 width, from_le-to_le width (v / 256) (omega (arith, pow-suc 256 width)))

pub to_le-from_le : (xs : Bytes) → AreBytes xs → to_le (length xs) (from_le xs) ≡ xs
unfolding to_le from_le
to_le-from_le [] h = refl
to_le-from_le (x ∷ xs) h =
    ap₂ ◌∷◌ (omega (arith, h.0))
      (ap (to_le (length xs)) (omega (arith, h.0)) ∙ to_le-from_le xs h.1)

AreBytes-to_le : (width v : ℕ) → AreBytes (to_le width v)
unfolding to_le
AreBytes-to_le zero v = tt
AreBytes-to_le (suc width) v = (omega arith, AreBytes-to_le width (v / 256))

AreBytes-append : (xs ys : Bytes) → AreBytes xs → AreBytes ys → AreBytes (xs ++ ys)
AreBytes-append [] ys p q = q
AreBytes-append (x ∷ xs) ys p q = (p.0, AreBytes-append xs ys p.1 q)

AreBytes-reverse : (xs : Bytes) → AreBytes xs → AreBytes (reverse xs)
AreBytes-reverse [] p = tt
AreBytes-reverse (x ∷ xs) p =
    rw (reverse-cons x xs)
      (AreBytes-append (reverse xs) (x ∷ []) (AreBytes-reverse xs p.1) (p.0, tt))

pub length-reverse : (xs : Bytes) → length (reverse xs) ≡ length xs
length-reverse [] = refl
length-reverse (x ∷ xs) =
    omega
      (arith, ap length (reverse-cons x xs), length-append (reverse xs) (x ∷ []), length-reverse xs)

-- The bytes sent are those of the host's memory in reverse: most significant first.
pub to_le-hton : (width v : ℕ) → to_le width (hton width v) ≡ reverse (to_le width v)
unfolding hton
to_le-hton width v =
    let xs = reverse (to_le width v) in
    let l : length xs ≡ width = length-reverse (to_le width v) ∙ length-to_le width v in
    rw l at (to_le-from_le xs (AreBytes-reverse _ (AreBytes-to_le width v)))

pub hton_lem : (width v : ℕ) → hton width v ≡ from_le (reverse (to_le width v))
unfolding hton
hton_lem width v = refl

-- Converting twice gives the integer back.
pub hton-hton : (width v : ℕ) → v < 256 ^ width → hton width (hton width v) ≡ v
hton-hton width v h =
    hton_lem width (hton width v)
    ∙ ap (λ (xs : Bytes). from_le (reverse xs)) (to_le-hton width v)
    ∙ ap from_le (reverse-reverse (to_le width v))
    ∙ from_le-to_le width v h
