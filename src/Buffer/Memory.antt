-- ===== src/Buffer/Memory.antt =====
-- The storage of a `std::vector<char>`: `memcpy` into it and `resize`.
use http_nest.Prelude.{
  ℕ, zero, suc, ◌+◌, ◌-◌, ◌≤◌, ◌≡◌, refl, ap, [], ◌∷◌, ◌++◌, arith, length, take, slice, replicate,
  length-append, length-take, length-replicate, Bytes,
}

-- `memcpy` onto the first bytes; what lies beyond the end of the storage is lost.
overwrite : Bytes → Bytes → Bytes
overwrite [] buf = buf
overwrite (x ∷ src) [] = []
overwrite (x ∷ src) (y ∷ buf) = x ∷ overwrite src buf

-- `memcpy(&buffer[pos], src, src.size())`.
unfoldable pub splice : ℕ → Bytes → Bytes → Bytes
unfolding overwrite
splice zero src buf = overwrite src buf
splice (suc pos) src [] = []
splice (suc pos) src (y ∷ buf) = y ∷ splice pos src buf

-- `std::vector::resize`: cut, or padded with zeros.
unfoldable pub resize : ℕ → Bytes → Bytes
resize n buf = take n buf ++ replicate (n - length buf) 0

length-overwrite : (src buf : Bytes) → length (overwrite src buf) ≡ length buf
unfolding overwrite
length-overwrite [] buf = refl
length-overwrite (x ∷ src) [] = refl
length-overwrite (x ∷ src) (y ∷ buf) = ap suc (length-overwrite src buf)

pub length-splice : (pos : ℕ) (src buf : Bytes) → length (splice pos src buf) ≡ length buf
unfolding splice
length-splice zero src buf = length-overwrite src buf
length-splice (suc pos) src [] = refl
length-splice (suc pos) src (y ∷ buf) = ap suc (length-splice pos src buf)

take-overwrite :
    (src buf : Bytes) → length src ≤ length buf → take (length src) (overwrite src buf) ≡ src
unfolding overwrite
take-overwrite [] buf h = refl
take-overwrite (x ∷ src) [] h = absurd (omega arith)
take-overwrite (x ∷ src) (y ∷ buf) h = ap (◌∷◌ x) (take-overwrite src buf (omega arith))

-- A copy that starts inside a slice, or at its end, extends the slice by the copied bytes.
pub slice-splice_after :
    (lo pos hi : ℕ) (src buf : Bytes)
    → lo ≤ pos
    → hi ≡ pos + length src
    → hi ≤ length buf
    → slice lo hi (splice pos src buf) ≡ slice lo pos buf ++ src
unfolding splice
slice-splice_after zero zero hi src buf p e h =
    let f : hi ≡ length src = omega arith in rw f (take-overwrite src buf (omega arith))
slice-splice_after zero (suc pos) hi src [] p e h = absurd (omega arith)
slice-splice_after zero (suc pos) zero src (y ∷ buf) p e h = absurd (omega arith)
slice-splice_after zero (suc pos) (suc hi) src (y ∷ buf) p e h =
    ap (◌∷◌ y) (slice-splice_after zero pos hi src buf (omega arith) (omega arith) (omega arith))
slice-splice_after (suc lo) zero hi src buf p e h = absurd (omega arith)
slice-splice_after (suc lo) (suc pos) hi src [] p e h = absurd (omega arith)
slice-splice_after (suc lo) (suc pos) zero src (y ∷ buf) p e h = absurd (omega arith)
slice-splice_after (suc lo) (suc pos) (suc hi) src (y ∷ buf) p e h =
    slice-splice_after lo pos hi src buf (omega arith) (omega arith) (omega arith)

take-overwrite_before :
    (lo hi : ℕ) (src buf : Bytes)
    → lo ≡ length src
    → lo ≤ hi
    → hi ≤ length buf
    → take hi (overwrite src buf) ≡ src ++ slice lo hi buf
unfolding overwrite
take-overwrite_before zero hi [] buf e p h = refl
take-overwrite_before zero hi (x ∷ src) buf e p h = absurd (omega arith)
take-overwrite_before (suc lo) hi [] buf e p h = absurd (omega arith)
take-overwrite_before (suc lo) hi (x ∷ src) [] e p h = absurd (omega arith)
take-overwrite_before (suc lo) zero (x ∷ src) (y ∷ buf) e p h = absurd (omega arith)
take-overwrite_before (suc lo) (suc hi) (x ∷ src) (y ∷ buf) e p h =
    ap (◌∷◌ x) (take-overwrite_before lo hi src buf (omega arith) (omega arith) (omega arith))

-- A copy that ends where a slice starts is put in front of it.
pub slice-splice_before :
    (pos lo hi : ℕ) (src buf : Bytes)
    → lo ≡ pos + length src
    → lo ≤ hi
    → hi ≤ length buf
    → slice pos hi (splice pos src buf) ≡ src ++ slice lo hi buf
unfolding splice
slice-splice_before zero lo hi src buf e p h = take-overwrite_before lo hi src buf (omega arith) p h
slice-splice_before (suc pos) zero hi src buf e p h = absurd (omega arith)
slice-splice_before (suc pos) (suc lo) hi src [] e p h = absurd (omega arith)
slice-splice_before (suc pos) (suc lo) zero src (y ∷ buf) e p h = absurd (omega arith)
slice-splice_before (suc pos) (suc lo) (suc hi) src (y ∷ buf) e p h =
    slice-splice_before pos lo hi src buf (omega arith) (omega arith) (omega arith)

pub length-resize : (n : ℕ) (buf : Bytes) → length (resize n buf) ≡ n
unfolding resize
length-resize n buf = omega (
  arith,
  length-append {0} (take n buf) (replicate (n - length buf) 0),
  length-take {0} n buf,
  length-replicate {0} {A = ℕ} (n - length buf) 0,
)
