-- ===== src/Prelude/Lists.antt =====
-- Lists measured and indexed by native numbers: lengths, prefixes and slices.
use Prim.Native.Nat.{ℕ, zero, suc, ◌+◌, ◌-◌, ◌≤◌, min}
use mathlib.Core.Path.{◌≡◌, refl, ap, sym}
use mathlib.Core.List.{List, [], ◌∷◌, ◌++◌}
use mathlib.Core.Option.{Option, none, some}
use native.Mathlib.Nat.{zero-add}
use native.Mathlib.Omega.{arith}

module _ {ℓ} {A : Type ℓ} where
  abbrev pub length : List A → ℕ
  length [] = 0
  length (x ∷ xs) = suc (length xs)

  abbrev pub take : ℕ → List A → List A
  take zero xs = []
  take (suc n) [] = []
  take (suc n) (x ∷ xs) = x ∷ take n xs

  abbrev pub drop : ℕ → List A → List A
  drop zero xs = xs
  drop (suc n) [] = []
  drop (suc n) (x ∷ xs) = drop n xs

  abbrev pub get_elem? : List A → ℕ → Option A
  get_elem? [] i = none
  get_elem? (x ∷ xs) zero = some x
  get_elem? (x ∷ xs) (suc i) = get_elem? xs i

  abbrev pub replicate : ℕ → A → List A
  replicate zero a = []
  replicate (suc n) a = a ∷ replicate n a

  -- The entries from index `lo` up to `hi`.
  abbrev pub slice : ℕ → ℕ → List A → List A
  slice zero hi xs = take hi xs
  slice (suc lo) hi [] = []
  slice (suc lo) zero (x ∷ xs) = []
  slice (suc lo) (suc hi) (x ∷ xs) = slice lo hi xs

  pub length-append : (xs ys : List A) → length (xs ++ ys) ≡ length xs + length ys
  length-append [] ys = omega arith
  length-append (x ∷ xs) ys = omega (arith, length-append xs ys)

  pub length-take : (n : ℕ) (xs : List A) → length (take n xs) ≡ min n (length xs)
  length-take zero xs = omega arith
  length-take (suc n) [] = omega arith
  length-take (suc n) (x ∷ xs) = omega (arith, length-take n xs)

  pub length-drop : (n : ℕ) (xs : List A) → length (drop n xs) ≡ length xs - n
  length-drop zero xs = omega arith
  length-drop (suc n) [] = omega arith
  length-drop (suc n) (x ∷ xs) = omega (arith, length-drop n xs)

  pub take-append-drop : (n : ℕ) (xs : List A) → take n xs ++ drop n xs ≡ xs
  take-append-drop zero xs = refl
  take-append-drop (suc n) [] = refl
  take-append-drop (suc n) (x ∷ xs) = ap (◌∷◌ x) (take-append-drop n xs)

  pub take_all : (n : ℕ) (xs : List A) → length xs ≤ n → take n xs ≡ xs
  take_all zero [] h = refl
  take_all zero (x ∷ xs) h = absurd (omega arith)
  take_all (suc n) [] h = refl
  take_all (suc n) (x ∷ xs) h = ap (◌∷◌ x) (take_all n xs (omega arith))

  pub drop_all : (n : ℕ) (xs : List A) → length xs ≤ n → drop n xs ≡ []
  drop_all zero [] h = refl
  drop_all zero (x ∷ xs) h = absurd (omega arith)
  drop_all (suc n) [] h = refl
  drop_all (suc n) (x ∷ xs) h = drop_all n xs (omega arith)

  pub take-append : (n : ℕ) (xs ys : List A) → n ≡ length xs → take n (xs ++ ys) ≡ xs
  take-append zero [] ys e = refl
  take-append (suc n) [] ys e = absurd (omega arith)
  take-append zero (x ∷ xs) ys e = absurd (omega arith)
  take-append (suc n) (x ∷ xs) ys e = ap (◌∷◌ x) (take-append n xs ys (omega arith))

  pub drop-append : (n : ℕ) (xs ys : List A) → n ≡ length xs → drop n (xs ++ ys) ≡ ys
  drop-append zero [] ys e = refl
  drop-append (suc n) [] ys e = absurd (omega arith)
  drop-append zero (x ∷ xs) ys e = absurd (omega arith)
  drop-append (suc n) (x ∷ xs) ys e = drop-append n xs ys (omega arith)

  pub length-replicate : (n : ℕ) (a : A) → length (replicate n a) ≡ n
  length-replicate zero a = refl
  length-replicate (suc n) a = ap suc (length-replicate n a)

  pub length-slice :
      (lo hi : ℕ) (xs : List A) → lo ≤ hi → hi ≤ length xs → length (slice lo hi xs) ≡ hi - lo
  length-slice zero hi xs p q = omega (arith, length-take hi xs)
  length-slice (suc lo) hi [] p q = absurd (omega arith)
  length-slice (suc lo) zero (x ∷ xs) p q = absurd (omega arith)
  length-slice (suc lo) (suc hi) (x ∷ xs) p q =
      omega (arith, length-slice lo hi xs (omega arith) (omega arith))

  pub slice_empty : (n : ℕ) (xs : List A) → slice n n xs ≡ []
  slice_empty zero xs = refl
  slice_empty (suc n) [] = refl
  slice_empty (suc n) (x ∷ xs) = slice_empty n xs

  drop-take : (n hi : ℕ) (xs : List A) → slice n hi xs ≡ drop n (take hi xs)
  drop-take zero hi xs = refl
  drop-take (suc n) zero [] = refl
  drop-take (suc n) (suc hi) [] = refl
  drop-take (suc n) zero (x ∷ xs) = refl
  drop-take (suc n) (suc hi) (x ∷ xs) = drop-take n hi xs

  drop_nil : (n : ℕ) → drop n [] ≡ []
  drop_nil zero = refl
  drop_nil (suc n) = refl

  -- A slice that starts further right is the rest of the slice.
  pub slice-drop :
      (m n lo hi : ℕ) (xs : List A) → m ≡ lo + n → slice m hi xs ≡ drop n (slice lo hi xs)
  slice-drop m n zero hi xs e = rw (e, zero-add) (drop-take n hi xs)
  slice-drop zero n (suc lo) hi xs e = absurd (omega arith)
  slice-drop (suc m) n (suc lo) hi [] e = sym (drop_nil n)
  slice-drop (suc m) n (suc lo) zero (x ∷ xs) e = sym (drop_nil n)
  slice-drop (suc m) n (suc lo) (suc hi) (x ∷ xs) e = slice-drop m n lo hi xs (omega arith)

  take-take : (n hi : ℕ) (xs : List A) → n ≤ hi → take n xs ≡ take n (take hi xs)
  take-take zero hi xs p = refl
  take-take (suc n) zero xs p = absurd (omega arith)
  take-take (suc n) (suc hi) [] p = refl
  take-take (suc n) (suc hi) (x ∷ xs) p = ap (◌∷◌ x) (take-take n hi xs (omega arith))

  take_nil : (n : ℕ) → take n [] ≡ []
  take_nil zero = refl
  take_nil (suc n) = refl

  -- A shorter slice from the same place is the beginning of the slice.
  pub slice-take :
      (m n lo hi : ℕ) (xs : List A) → m ≡ lo + n → m ≤ hi → slice lo m xs ≡ take n (slice lo hi xs)
  slice-take m n zero hi xs e p = rw (e, zero-add) (take-take n hi xs (omega arith))
  slice-take zero n (suc lo) hi xs e p = absurd (omega arith)
  slice-take (suc m) n (suc lo) hi [] e p = sym (take_nil n)
  slice-take (suc m) n (suc lo) zero (x ∷ xs) e p = absurd (omega arith)
  slice-take (suc m) n (suc lo) (suc hi) (x ∷ xs) e p =
      slice-take m n lo hi xs (omega arith) (omega arith)

  pub drop-drop : (m n k : ℕ) (xs : List A) → k ≡ m + n → drop n (drop m xs) ≡ drop k xs
  drop-drop zero n k xs e = rw (e, zero-add)
  drop-drop (suc m) n zero xs e = absurd (omega arith)
  drop-drop (suc m) n (suc k) [] e = drop_nil n
  drop-drop (suc m) n (suc k) (x ∷ xs) e = drop-drop m n k xs (omega arith)

  pub slice-eq-take : (m n lo : ℕ) (xs : List A) → m ≡ lo + n → slice lo m xs ≡ take n (drop lo xs)
  slice-eq-take m n zero xs e = rw (e, zero-add)
  slice-eq-take zero n (suc lo) xs e = absurd (omega arith)
  slice-eq-take (suc m) n (suc lo) [] e = sym (take_nil n)
  slice-eq-take (suc m) n (suc lo) (x ∷ xs) e = slice-eq-take m n lo xs (omega arith)

  pub drop-append_before :
      (n : ℕ) (xs ys : List A) → n ≤ length xs → drop n (xs ++ ys) ≡ drop n xs ++ ys
  drop-append_before zero xs ys h = refl
  drop-append_before (suc n) [] ys h = absurd (omega arith)
  drop-append_before (suc n) (x ∷ xs) ys h = drop-append_before n xs ys (omega arith)

  pub drop-append_after :
      (n m : ℕ) (xs ys : List A) → n ≡ length xs + m → drop n (xs ++ ys) ≡ drop m ys
  drop-append_after n m [] ys e = let e' : n ≡ m = omega arith in rw e' refl
  drop-append_after zero m (x ∷ xs) ys e = absurd (omega arith)
  drop-append_after (suc n) m (x ∷ xs) ys e = drop-append_after n m xs ys (omega arith)
