-- ===== src/Prelude/Text.antt =====
-- Bytes and byte strings: `char` values are the numbers below 256. `std::search`.
use Prim.Native.Char.{code}
use Prim.Native.String.{String}
use Prim.Native.Nat.{ℕ, suc, ◌+◌, ◌<◌, ◌≤◌}
use mathlib.Core.Bool.{Bool, true, false, ◌&&◌}
use mathlib.Core.List.{List, [], ◌∷◌, ◌++◌}
use mathlib.Core.Logic.{◌↔◌, inl, inr}
use mathlib.Core.Path.{◌≡◌, refl, subst, ap}
use native.Mathlib.Omega.{arith}
use mathlib.Core.Option.{Option, none, some, some-injective, none-ne-some}
use native.Mathlib.Nat.{zero-add}
use http_nest.Prelude.Lists.{length, take, drop}
use http_nest.Prelude.Tests.{◌==◌, if◌then◌else◌, Bool-cases, Option-cases}

abbrev pub Bytes : Type 0
Bytes = List ℕ

-- The bytes of an ASCII literal.
abbrev pub codes : String → Bytes
codes String.[] = []
codes (String.◌∷◌ c s) = code c ∷ codes s

-- `operator==` of `std::string`.
unfoldable pub bytes_eq : Bytes → Bytes → Bool
bytes_eq [] [] = true
bytes_eq (x ∷ xs) (y ∷ ys) = x == y && bytes_eq xs ys
bytes_eq _ _ = false

pub bytes_eq_iff : (a b : Bytes) → (bytes_eq a b ≡ true) ↔ (a ≡ b)
unfolding bytes_eq
bytes_eq_iff (x ∷ a) (y ∷ b) = ground (arith, bytes_eq_iff a b)
bytes_eq_iff _ _ = ground arith

-- Each entry is a byte.
abbrev pub AreBytes : Bytes → Type 0
AreBytes [] = Unit {0}
AreBytes (x ∷ xs) = (x < 256) × AreBytes xs

-- `std::search`: the offset of the first match of a pattern.
unfoldable pub starts : Bytes → Bytes → Bool
starts [] s = true
starts (p ∷ pat) [] = false
starts (p ∷ pat) (c ∷ s) = p == c && starts pat s

unfoldable pub search : Bytes → Bytes → Option ℕ
unfolding starts
search pat [] = if starts pat [] then some 0 else none
search pat (c ∷ s) =
    let later = search pat s in
    if starts pat (c ∷ s) then some 0 else elim later [ none ↦ none | some n ↦ some (suc n) ]

-- `s` starts with `pat`: the rest.
pub starts_lem : (pat s : Bytes) → starts pat s ≡ true → s ≡ pat ++ drop (length pat) s
unfolding starts
starts_lem [] s h = refl
starts_lem (p ∷ pat) [] h = cc
starts_lem (p ∷ pat) (c ∷ s) h = ground (arith, starts_lem pat s)

starts-le : (pat s : Bytes) → starts pat s ≡ true → length pat ≤ length s
unfolding starts
starts-le [] s h = omega arith
starts-le (p ∷ pat) [] h = cc
starts-le (p ∷ pat) (c ∷ s) h = ground (arith, starts-le pat s)

-- What `search` finds is an occurrence.
pub record Occurs (pat s : Bytes) (n : ℕ) : Type 0 where
  pub splits : s ≡ take n s ++ (pat ++ drop (n + length pat) s)
  pub inside : n + length pat ≤ length s

Occurs-here : (pat s : Bytes) → starts pat s ≡ true → Occurs pat s 0
Occurs-here pat s h = record {
  splits = rw zero-add (starts_lem pat s h);
  inside = omega (arith, starts-le pat s h);
}

Occurs-later : (pat s : Bytes) (c n : ℕ) → Occurs pat s n → Occurs pat (c ∷ s) (suc n)
Occurs-later pat s c n o = record {
  splits =
      let e : suc n + length pat ≡ suc (n + length pat) = omega arith in rw e (ap (◌∷◌ c) o.splits);
  inside = omega (arith, o.inside);
}

pub search-some : (pat s : Bytes) (n : ℕ) → search pat s ≡ some n → Occurs pat s n
unfolding search
search-some pat [] n h = elim (Bool-cases (starts pat [])) [
  | inl e ↦ subst (Occurs pat []) (some-injective _ _ (rw e at h)) (Occurs-here pat [] e)
  | inr e ↦ absurd (none-ne-some _ (rw e at h))
]
search-some pat (c ∷ s) n h = elim (Bool-cases (starts pat (c ∷ s))) [
  | inl e ↦ subst (Occurs pat (c ∷ s)) (some-injective _ _ (rw e at h)) (Occurs-here pat (c ∷ s) e)
  | inr e ↦ elim (Option-cases (search pat s)) [
    | inl miss ↦ absurd (none-ne-some _ (rw (e, miss) at h))
    | inr (m, hit) ↦
        subst (Occurs pat (c ∷ s)) (some-injective _ _ (rw (e, hit) at h))
          (Occurs-later pat s c m (search-some pat s m hit))
  ]
]
