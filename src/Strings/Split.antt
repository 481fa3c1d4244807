-- ===== src/Strings/Split.antt =====
-- `SplitString` and `SplitStringWithFSM`: the pieces make up the text, and the two agree.
use http_nest.Prelude.{
  ℕ, zero, suc, ◌+◌, ◌-◌, ◌≤◌, ◌<◌, ◌≡◌, ◌⊎◌, inl, inr, sym, ap, ◌∙◌, true, false, List, [], ◌∷◌,
  ◌++◌, none, some, arith, length, take, drop, slice, ltb, not_ltb→le, lt→ltb, if◌then◌else◌,
  Bool-cases, Option-cases, drop-drop, slice-eq-take, drop_all, length-drop, append-nil,
  append_assoc, Bytes, search, search-some, Occurs,
}
use http_nest.Strings.Find.{find, is_empty}
use http_nest.Strings.{split_from, split_string}

-- Each piece with the delimiter behind it.
abbrev pub terminated : Bytes → List Bytes → Bytes
terminated d [] = []
terminated d (p ∷ ps) = p ++ (d ++ terminated d ps)

-- What `find` returns, in terms of the text from `last` on.
pub find-some :
    (s d : Bytes) (last next : ℕ)
    → find s d last ≡ some next
    → (n : ℕ) × (search d (drop last s) ≡ some n) × (next ≡ last + n)
unfolding find
find-some s d last next h = ground arith

pub find-none :
    (s d : Bytes) (last : ℕ)
    → last ≤ length s
    → find s d last ≡ none
    → search d (drop last s) ≡ none
unfolding find
find-none s d last l h = ground arith

pub find-search :
    (s d : Bytes) (last n : ℕ)
    → last ≤ length s
    → search d (drop last s) ≡ some n
    → find s d last ≡ some (last + n)
unfolding find
find-search s d last n l h = ground arith

pub piece_lem :
    (s : Bytes) (last next n : ℕ)
    → next ≡ last + n
    → (if ltb last next then slice last next s else []) ≡ take n (drop last s)
piece_lem s last next zero e = rw (add-zero-test last next e)
  where
    add-zero-test : (a b : ℕ) → b ≡ a + 0 → ltb a b ≡ false
    add-zero-test a b e = ground arith
piece_lem s last next (suc n) e =
    rw (lt→ltb last next (omega arith)) (slice-eq-take next (suc n) last s e)

-- The pieces, each with the delimiter behind it, are the text, or the text with one more delimiter.
abbrev pub Restores : Bytes → Bytes → List Bytes → Type 0
Restores d r ps = (terminated d ps ≡ r) ⊎ (terminated d ps ≡ r ++ d)

Restores-cons :
    (d r : Bytes) (n : ℕ) (ps : List Bytes)
    → Occurs d r n
    → Restores d (drop (n + length d) r) ps
    → Restores d r (take n r ∷ ps)
Restores-cons d r n ps o (inl e) = inl (rw e (sym o.splits))
Restores-cons d r n ps o (inr e) = inr (
    rw e (
      sym (
        append_assoc (take n r) (d ++ drop (n + length d) r) d
        ∙ ap (◌++◌ (take n r)) (append_assoc d (drop (n + length d) r) d))
      ∙ ap (λ (xs : Bytes). xs ++ d) (sym o.splits)))

split_from-Restores :
    (fuel : ℕ) (s d : Bytes) (last : ℕ)
    → 0 < length d
    → last ≤ length s
    → length s - last < fuel
    → Restores d (drop last s) (split_from fuel s d last)
unfolding split_from
split_from-Restores zero s d last h l f = elim f [ ]
split_from-Restores (suc fuel) s d last h l f = elim (Option-cases (find s d last)) [
  | inl miss ↦ rw (miss, split_from) (at_end (Bool-cases (ltb last (length s))))
  | inr (next, hit) ↦
      let (n, found, at) = find-some s d last next hit in
      let o = search-some d (drop last s) n found in
      let inside : next + length d ≤ length s = omega (arith, o.inside, length-drop {0} last s) in
      rw (hit, split_from, piece_lem s last next n at)
        (Restores-cons d (drop last s) n _ o (
          rw (drop-drop last (n + length d) (next + length d) s (omega arith))
            (split_from-Restores fuel s d (next + length d) h inside (omega arith))))
]
  where
    at_end :
        (ltb last (length s) ≡ true) ⊎ (ltb last (length s) ≡ false)
        → Restores d (drop last s) (if ltb last (length s) then drop last s ∷ [] else [])
    at_end (inl more) = rw more (inr (ap (◌++◌ (drop last s)) (append-nil d)))
    at_end (inr done) = rw done (inl (sym (drop_all last s (not_ltb→le last (length s) done))))

-- `SplitString` loses nothing: with a delimiter that is not empty, its pieces with the delimiter
-- behind each of them are the text, or the text and one more delimiter.
pub split_string-Restores : (s d : Bytes) → 0 < length d → Restores d s (split_string s d)
unfolding split_string is_empty
split_string-Restores s [] h = elim h [ ]
split_string-Restores s (x ∷ d) h =
    split_from-Restores (suc (length s)) s (x ∷ d) 0 h (omega arith) (omega arith)
