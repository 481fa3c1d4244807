-- ===== src/FileMgr/Target.antt =====
-- The name that a rotation moves a log to.
use http_nest.Prelude.{
  ℕ, ◌+◌, ◌<◌, ◌≡◌, ◌∙◌, refl, ap, arith, true, false, [], ◌∷◌, ◌++◌, Option, none, some, ltb,
  lt→ltb, not_ltb→le, ◌==◌, ==_ne, if◌then◌else◌, if_elim, length, take, drop, take-append,
  drop-append_after, length-append, Bytes, codes,
}
use http_nest.Strings.Find.{one_of, find_last_of}
use http_nest.Strings.{separators, file_path, file_name_ext, file_name, extension}
use http_nest.FileMgr.{target}

abbrev dots : Bytes
dots = b'.' ∷ []

-- No character of the text is one of the set.
abbrev pub Lacks : Bytes → Bytes → Type 0
Lacks set [] = Unit {0}
Lacks set (c ∷ s) = (one_of set c ≡ false) × Lacks set s

find_last_of-Lacks : (set s : Bytes) → Lacks set s → find_last_of set s ≡ none
unfolding find_last_of
find_last_of-Lacks set [] h = refl
find_last_of-Lacks set (c ∷ s) h = rw (find_last_of-Lacks set s h.1, h.0) refl

find_last_of-last :
    (set a : Bytes) (c : ℕ) (b : Bytes)
    → one_of set c ≡ true
    → Lacks set b
    → find_last_of set (a ++ c ∷ b) ≡ some (length a)
unfolding find_last_of
find_last_of-last set [] c b e h = rw (find_last_of-Lacks set b h, e) refl
find_last_of-last set (x ∷ a) c b e h = rw (find_last_of-last set a c b e h) refl

Lacks-append :
    (set a : Bytes) (c : ℕ) (b : Bytes)
    → Lacks set a
    → one_of set c ≡ false
    → Lacks set b
    → Lacks set (a ++ c ∷ b)
Lacks-append set [] c b ha e hb = (e, hb)
Lacks-append set (x ∷ a) c b ha e hb = (ha.0, Lacks-append set a c b ha.1 e hb)

-- The parts of a path that has a directory, and of a name that has an extension.
behind : (a : Bytes) (c : ℕ) (b : Bytes) → drop (length a + 1) (a ++ c ∷ b) ≡ b
behind a c b = drop-append_after (length a + 1) 1 a (c ∷ b) refl

before : (a : Bytes) (c : ℕ) (b : Bytes) → take (length a) (a ++ c ∷ b) ≡ a
before a c b = take-append (length a) a (c ∷ b) refl

file_path_lem : (dir name : Bytes) → Lacks separators name → file_path (dir ++ b'/' ∷ name) ≡ dir
unfolding file_path one_of
file_path_lem dir name h =
    rw (file_path, find_last_of-last separators dir b'/' name refl h) (before dir b'/' name)

file_name_ext_lem :
    (dir name : Bytes)
    → 0 < length name
    → Lacks separators name
    → file_name_ext (dir ++ b'/' ∷ name) ≡ name
unfolding file_name_ext one_of
file_name_ext_lem dir name long h =
    rw
      (
        file_name_ext,
        find_last_of-last separators dir b'/' name refl h,
        lt→ltb (length dir + 1) (length (dir ++ b'/' ∷ name))
            (omega (arith, length-append dir (b'/' ∷ name))),
      )
      (behind dir b'/' name)

module _ (path stem ext : Bytes) (named : file_name_ext path ≡ stem ++ b'.' ∷ ext)
    (long : 0 < length stem) (dotless : Lacks dots ext) where
  file_name_lem : file_name path ≡ stem
  unfolding file_name one_of
  file_name_lem =
      ap of_name named
      ∙ at_dot (find_last_of dots (stem ++ b'.' ∷ ext))
          (find_last_of-last dots stem b'.' ext refl dotless)
    where
      of_name : Bytes → Bytes
      of_name name = elim (find_last_of dots name) [
        | some pos ↦ if pos == 0 then name else take pos name
        | none ↦ name
      ]

      at_dot :
          (found : Option ℕ)
          → found ≡ some (length stem)
          → elim found [
            | some pos ↦ if pos == 0 then stem ++ b'.' ∷ ext else take pos (stem ++ b'.' ∷ ext)
            | none ↦ stem ++ b'.' ∷ ext
          ]
            ≡ stem
      at_dot found e = rw (e, ==_ne (length stem) 0 (omega arith)) (before stem b'.' ext)

  extension_lem : extension path ≡ ext
  unfolding extension one_of
  extension_lem =
      ap of_name named
      ∙ at_dot (find_last_of dots (stem ++ b'.' ∷ ext))
          (find_last_of-last dots stem b'.' ext refl dotless)
    where
      of_name : Bytes → Bytes
      of_name name = elim (find_last_of dots name) [
        | some pos ↦
            if pos == 0 then [] else if ltb (pos + 1) (length name) then drop (pos + 1) name else []
        | none ↦ []
      ]

      by_rest :
          (rest : Bytes) → ltb (length stem + 1) (length (stem ++ b'.' ∷ rest)) ≡ false → [] ≡ rest
      by_rest [] short = refl
      by_rest (x ∷ rest) short = absurd (
          omega (
            arith,
            not_ltb→le (length stem + 1) (length (stem ++ b'.' ∷ x ∷ rest)) short,
            length-append stem (b'.' ∷ x ∷ rest),
          ))

      at_dot :
          (found : Option ℕ)
          → found ≡ some (length stem)
          → elim found [
            | some pos ↦
                if pos == 0
                then []
                else if ltb (pos + 1) (length (stem ++ b'.' ∷ ext))
                then drop (pos + 1) (stem ++ b'.' ∷ ext)
                else []
            | none ↦ []
          ]
            ≡ ext
      at_dot found e =
          rw (e, ==_ne (length stem) 0 (omega arith))
            (if_elim (λ e. e ≡ ext) (ltb (length stem + 1) (length (stem ++ b'.' ∷ ext)))
              (drop (length stem + 1) (stem ++ b'.' ∷ ext)) [] (λ _. behind stem b'.' ext)
              (λ short. by_rest ext short))

-- A log in a directory is moved out of it: the new name begins with the name of the directory, and the
-- name of the file follows without a slash in between.
pub target_beside :
    (dir stem ext buf : Bytes)
    → 0 < length stem
    → Lacks separators stem
    → Lacks separators ext
    → Lacks dots ext
    → target (dir ++ b'/' ∷ (stem ++ b'.' ∷ ext)) buf ≡ dir ++ stem ++ buf ++ codes "." ++ ext
unfolding target one_of
target_beside dir stem ext buf long slashless slashless' dotless =
    let path : Bytes = dir ++ b'/' ∷ (stem ++ b'.' ∷ ext) in
    let name_lacks : Lacks separators (stem ++ b'.' ∷ ext) =
      Lacks-append separators stem b'.' ext slashless refl slashless' in
    let named : file_name_ext path ≡ stem ++ b'.' ∷ ext =
      file_name_ext_lem dir (stem ++ b'.' ∷ ext) (omega (arith, length-append stem (b'.' ∷ ext)))
        name_lacks in
    rw
      (
        file_path_lem dir (stem ++ b'.' ∷ ext) name_lacks,
        file_name_lem path stem ext named long dotless,
        extension_lem path stem ext named long dotless,
      )
      refl
