-- ===== src/Strings/Machine.antt =====
-- `SplitStringWithFSM` returns what `SplitString` returns for a delimiter of one character.
use http_nest.Prelude.{
  ℕ, zero, suc, ◌+◌, ◌-◌, ◌*◌, ◌^◌, ◌≤◌, ◌<◌, ◌≡◌, inl, inr, refl, sym, ap, ◌∙◌, true, false, List,
  [], ◌∷◌, ◌++◌, none, some, arith, length, take, drop, ltb, lt→ltb, ◌==◌, if◌then◌else◌,
  Bool-cases, Option-cases, drop-drop, length-drop, append-nil, append_assoc, Bytes, search, starts,
  search-some,
}
use http_nest.Strings.Find.{find, is_empty}
use http_nest.Strings.Split.{find-some, find-none, piece_lem}
use http_nest.Strings.{split_from, split_string, normal, step_int, fsm_loop, split_string_with_fsm}

-- The pieces of a text with `tmp` in front of the first, as a recursion on the text.
fields : ℕ → Bytes → Bytes → List Bytes
fields d [] tmp = if is_empty tmp then [] else tmp ∷ []
fields d (c ∷ s) tmp = elim (c == d) [
  | true ↦ tmp ∷ fields d s []
  | false ↦ fields d s (tmp ++ c ∷ [])
]

step_int-some : (pos : ℕ) → pos + 1 < 2 ^ 31 → step_int pos ≡ some (pos + 1)
step_int-some pos h = rw (lt→ltb (pos + 1) (2 ^ 31) h) refl

fsm_loop-fields :
    (fuel d pos : ℕ) (rest tmp : Bytes) (result : List Bytes)
    → 2 * length rest < fuel
    → pos + length rest < 2 ^ 31
    → fsm_loop fuel d pos normal rest tmp result ≡ some (result ++ fields d rest tmp)
unfolding fsm_loop fields
fsm_loop-fields zero d pos rest tmp result f b = elim f [ ]
fsm_loop-fields (suc fuel) d pos [] tmp result f b = elim (Bool-cases (is_empty tmp)) [
  | inl e ↦ rw (e, append-nil result) refl
  | inr e ↦ rw e refl
]
fsm_loop-fields (suc zero) d pos (c ∷ rest) tmp result f b = absurd (omega arith)
fsm_loop-fields (suc (suc fuel)) d pos (c ∷ rest) tmp result f b = elim (Bool-cases (c == d)) [
  | inl e ↦
      rw (e, fsm_loop, fields, step_int-some pos (omega arith))
        (fsm_loop-fields fuel d (pos + 1) rest [] (result ++ tmp ∷ []) (omega arith) (omega arith)
          ∙ ap some (append_assoc result (tmp ∷ []) (fields d rest [])))
  | inr e ↦
      rw (e, fsm_loop, fields, step_int-some pos (omega arith))
        (fsm_loop-fields (suc fuel) d (pos + 1) rest (tmp ++ c ∷ []) result (omega arith)
          (omega arith))
]

search-fields_none :
    (d : ℕ) (r tmp : Bytes)
    → search (d ∷ []) r ≡ none
    → fields d r tmp ≡ (if is_empty (tmp ++ r) then [] else (tmp ++ r) ∷ [])
unfolding search starts fields
search-fields_none d [] tmp h = rw append-nil
search-fields_none d (c ∷ r) tmp h =
    ground (arith, search-fields_none d r (tmp ++ c ∷ []), append_assoc tmp (c ∷ []) r)

search_fields_lem :
    (d : ℕ) (r tmp : Bytes) (n : ℕ)
    → search (d ∷ []) r ≡ some n
    → fields d r tmp ≡ (tmp ++ take n r) ∷ fields d (drop (suc n) r) []
unfolding search starts fields
search_fields_lem d [] tmp n h = ground arith
search_fields_lem d (c ∷ r) tmp zero h = elim (Bool-cases (c == d)) [
  | inl e ↦ rw (e, fields, append-nil)
  | inr e ↦ absurd (ground arith)
]
search_fields_lem d (c ∷ r) tmp (suc n) h =
    ground (arith, search_fields_lem d r (tmp ++ c ∷ []) n, append_assoc tmp (c ∷ []) (take n r))

at_end :
    (r : Bytes) (last len : ℕ)
    → length r ≡ len - last
    → (if ltb last len then r ∷ [] else []) ≡ (if is_empty r then [] else r ∷ [])
unfolding is_empty
at_end [] last len e = ground arith
at_end (c ∷ r) last len e = ground arith

split_from-fields :
    (fuel : ℕ) (s : Bytes) (d last : ℕ)
    → last ≤ length s
    → length s - last < fuel
    → split_from fuel s (d ∷ []) last ≡ fields d (drop last s) []
unfolding split_from
split_from-fields zero s d last l f = elim f [ ]
split_from-fields (suc fuel) s d last l f = elim (Option-cases (find s (d ∷ []) last)) [
  | inl miss ↦
      rw
        (miss, split_from, search-fields_none d (drop last s) [] (find-none s (d ∷ []) last l miss))
        (at_end (drop last s) last (length s) (length-drop last s))
  | inr (next, hit) ↦
      let (n, found, at) = find-some s (d ∷ []) last next hit in
      let o = search-some (d ∷ []) (drop last s) n found in
      rw (hit, split_from, piece_lem s last next n at, search_fields_lem d (drop last s) [] n found)
        (ap (◌∷◌ (take n (drop last s))) (
          split_from-fields fuel s d (next + 1) (omega (arith, o.inside, length-drop {0} last s))
            (omega (arith, o.inside, length-drop {0} last s))
          ∙ ap (λ (r : Bytes). fields d r [])
              (sym (drop-drop last (suc n) (next + 1) s (omega arith)))))
]

-- `SplitStringWithFSM` and `SplitString` agree on every text of less than 2^31 bytes and every delimiter
-- character.
pub split_string_with_fsm-eq-split_string :
    (s : Bytes) (d : ℕ)
    → length s < 2 ^ 31
    → split_string_with_fsm s d ≡ some (split_string s (d ∷ []))
unfolding split_string split_string_with_fsm is_empty
split_string_with_fsm-eq-split_string s d h =
    fsm_loop-fields (suc (2 * length s)) d 0 s [] [] (omega arith) (omega arith)
    ∙ ap some (sym (split_from-fields (suc (length s)) s d 0 (omega arith) (omega arith)))
