-- ===== src/Strings/Join.antt =====
-- `SplitString` with a delimiter of one character takes a joined text apart.
use http_nest.Prelude.{
  ℕ, zero, suc, ◌+◌, ◌-◌, ◌≤◌, ◌<◌, ◌≡◌, ◌∙◌, refl, sym, ap, Bool, true, false, List, [], ◌∷◌, ◌++◌,
  none, some, arith, length, take, drop, ltb, ◌==◌, ◌&&◌, ◌||◌, not, length-drop, length-append,
  drop-drop, take-append, drop-append, append_assoc, Bytes, search, starts,
}
use http_nest.Strings.Find.{find, find_first_of, one_of, is_empty}
use http_nest.Strings.Split.{terminated, find-search, piece_lem}
use http_nest.Strings.{split_from, split_string}

-- Whether a text has no `c`.
abbrev pub lacks : ℕ → Bytes → Bool
lacks c [] = true
lacks c (x ∷ s) = not (c == x) && lacks c s

abbrev pub all_lack : ℕ → List Bytes → Bool
all_lack c [] = true
all_lack c (w ∷ ws) = lacks c w && all_lack c ws

pub lacks-append :
    (c : ℕ) (s t : Bytes) → lacks c s ≡ true → lacks c t ≡ true → lacks c (s ++ t) ≡ true
lacks-append c [] t a b = b
lacks-append c (x ∷ s) t a b = ground (arith, lacks-append c s t)

search-lacks :
    (c : ℕ) (w rest : Bytes)
    → lacks c w ≡ true
    → search (c ∷ []) (w ++ (c ∷ rest)) ≡ some (length w)
unfolding search starts
search-lacks c [] rest h = ground arith
search-lacks c (x ∷ w) rest h = ground (arith, search-lacks c w rest)

search-nil : (c : ℕ) → search (c ∷ []) [] ≡ none
unfolding search starts
search-nil c = refl

find-miss : (s d : Bytes) (last : ℕ) → search d (drop last s) ≡ none → find s d last ≡ none
unfolding find
find-miss s d last h = ground arith

split_from-terminated :
    (fuel : ℕ) (ws : List Bytes) (s : Bytes) (c last : ℕ)
    → drop last s ≡ terminated (c ∷ []) ws
    → last ≤ length s
    → length s - last < fuel
    → all_lack c ws ≡ true
    → split_from fuel s (c ∷ []) last ≡ ws
unfolding split_from
split_from-terminated zero ws s c last e l f a = elim f [ ]
split_from-terminated (suc fuel) [] s c last e l f a =
    let done : ltb last (length s) ≡ false =
      at_end last (length s) (omega (arith, length-drop {0} last s, ap length e)) in
    let miss = find-miss s (c ∷ []) last (ap (search (c ∷ [])) e ∙ search-nil c) in
    rw (miss, done, split_from)
  where
    at_end : (a b : ℕ) → b ≤ a → ltb a b ≡ false
    at_end a b h = ground arith
split_from-terminated (suc fuel) (w ∷ ws) s c last e l f a =
    let (word, words) = parts (lacks c w) (all_lack c ws) a in
    let rest = terminated (c ∷ []) ws in
    let hit =
      find-search s (c ∷ []) last (length w) l
        (ap (search (c ∷ [])) e ∙ search-lacks c w rest word) in
    let long : length s - last ≡ length w + suc (length rest) =
      omega (arith, length-drop {0} last s, ap length e, length-append w (c ∷ rest)) in
    let front : take (length w) (drop last s) ≡ w =
      ap (take (length w)) e ∙ take-append (length w) w (c ∷ rest) refl in
    let back : drop (last + length w + 1) s ≡ rest =
      sym (drop-drop last (length w + 1) (last + length w + 1) s (omega arith))
      ∙ ap (drop (length w + 1)) (e ∙ sym (append_assoc w (c ∷ []) rest))
      ∙ drop-append (length w + 1) (w ++ c ∷ []) rest (omega (arith, length-append w (c ∷ []))) in
    rw (hit, split_from, piece_lem s last (last + length w) (length w) refl, front)
      (ap (◌∷◌ w) (
        split_from-terminated fuel ws s c (last + length w + 1) back (omega arith) (omega arith)
          words))
  where
    parts : (a b : Bool) → (a && b) ≡ true → (a ≡ true) × (b ≡ true)
    parts a b h = (ground arith, ground arith)

-- What was joined with a delimiter of one character behind each word, no word having it, is split
-- into the same words.
pub split_string-terminated :
    (c : ℕ) (ws : List Bytes)
    → all_lack c ws ≡ true
    → split_string (terminated (c ∷ []) ws) (c ∷ []) ≡ ws
unfolding split_string is_empty
split_string-terminated c ws a =
    split_from-terminated (suc (length (terminated (c ∷ []) ws))) ws (terminated (c ∷ []) ws) c 0
      refl (omega arith) (omega arith) a

-- The first place of a character behind a text that does not have it.
pub find_first_of-some :
    (c : ℕ) (w rest : Bytes)
    → lacks c w ≡ true
    → find_first_of (c ∷ []) (w ++ (c ∷ rest)) ≡ some (length w)
unfolding find_first_of one_of
find_first_of-some c [] rest h = ground arith
find_first_of-some c (x ∷ w) rest h =
    let (here, later) = parts (lacks c w) h in rw (here, find_first_of-some c w rest later)
  where
    parts : (b : Bool) → (not (c == x) && b) ≡ true → (((c == x) || false) ≡ false) × (b ≡ true)
    parts b h = (ground arith, ground arith)
