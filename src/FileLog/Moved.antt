-- ===== src/FileLog/Moved.antt =====
-- What a successful rotation does to the files.
use mathlib.Core.Option.{some-injective}
use http_nest.Prelude.{
  ℕ, ◌+◌, ◌<◌, ◌≡◌, ◌∙◌, refl, sym, subst, arith, Bool, true, false, List, [], ◌∷◌, Option, none,
  some, ◌==◌, ==_ne, ==_iff, if_no, inl, inr, ◌⊎◌, Bool-cases, length, Bytes, bytes_eq,
  bytes_eq_iff,
}
use http_nest.FileLog.{
  Disk, FileLog, set_name, set_contents, open_file, rename, dup_2, reopen, rotate,
}
use http_nest.FileLog.Archive.{Opened, Holds, Stored-same}

-- The disk after a successful rotation.
abbrev rotated : Bytes → Bytes → ℕ → Disk → Disk
rotated path name file disk = record {
  names =
      set_name path (some disk.next) (set_name name (some file) (set_name path none disk.names));
  contents = set_contents disk.next [] disk.contents;
  next = disk.next + 1;
}

bytes_eq_self : (a : Bytes) → bytes_eq a a ≡ true
bytes_eq_self a = (bytes_eq_iff a a).1 refl

-- A name that no file has is not that of a file.
fresh_ne :
    (disk : Disk) (name other : Bytes) (file : ℕ)
    → disk.names name ≡ none
    → disk.names other ≡ some file
    → (bytes_eq name other ≡ false) × (bytes_eq other name ≡ false)
fresh_ne disk name other file fresh e = (
  not_true (bytes_eq name other) (λ t. differ ((bytes_eq_iff name other).0 t)),
  not_true (bytes_eq other name) (λ t. differ (sym ((bytes_eq_iff other name).0 t))),
)
  where
    not_true : (b : Bool) → (b ≡ true → ⊥) → b ≡ false
    not_true b n = elim (Bool-cases b) [ inl t ↦ elim (n t) [ ] | inr f ↦ f ]

    differ : name ≡ other → ⊥
    differ same =
        let t : disk.names other ≡ none = subst (λ n. disk.names n ≡ none) same fresh in cc

set_name-same :
    (name other : Bytes) (f : Option ℕ) (names : Bytes → Option ℕ)
    → bytes_eq name other ≡ true
    → set_name name f names other ≡ f
set_name-same name other f names e = rw e refl

set_name-other :
    (name other : Bytes) (f : Option ℕ) (names : Bytes → Option ℕ)
    → bytes_eq name other ≡ false
    → set_name name f names other ≡ names other
set_name-other name other f names e = rw e refl

-- The disk after the rename.
abbrev moved_to : Bytes → Bytes → ℕ → Disk → Disk
moved_to path name file disk = record disk {
  names = set_name name (some file) (set_name path none disk.names);
}

rename_lem :
    (path name : Bytes) (file : ℕ) (disk : Disk)
    → disk.names path ≡ some file
    → rename path name disk ≡ some (moved_to path name file disk)
unfolding rename
rename_lem path name file disk e = by_file (disk.names path) e
  where
    by_file :
        (found : Option ℕ)
        → found ≡ some file
        → elim found [ none ↦ none | some f ↦ some (moved_to path name f disk) ]
          ≡ some (moved_to path name file disk)
    by_file found e = rw e refl

open_file_lem :
    (path name : Bytes) (file : ℕ) (disk : Disk)
    → disk.names path ≡ some file
    → disk.names name ≡ none
    → open_file path (moved_to path name file disk) ≡ (rotated path name file disk, disk.next)
unfolding open_file
open_file_lem path name file disk e fresh = by_file (moved.names path) gone
  where
    moved : Disk
    moved = moved_to path name file disk

    gone : moved.names path ≡ none
    gone =
        set_name-other name path (some file) (set_name path none disk.names)
          (fresh_ne disk name path file fresh e).0
        ∙ set_name-same path path none disk.names (bytes_eq_self path)

    by_file :
        (found : Option ℕ)
        → found ≡ none
        → ◌≡◌ {A = Disk × ℕ}
            (elim found [ some f ↦ (moved, f) | none ↦ (rotated path name file disk, disk.next) ])
            (rotated path name file disk, disk.next)
    by_file found g = rw g refl

dup_2-open :
    (file next : ℕ) (log : FileLog)
    → log.fd ≡ some file
    → dup_2 next log ≡ record log { fd = some next }
unfolding dup_2
dup_2-open file next log e = by_fd log.fd e
  where
    by_fd :
        (fd : Option ℕ)
        → fd ≡ some file
        → elim fd [ none ↦ log | some _ ↦ record log { fd = some next } ]
          ≡ record log { fd = some next }
    by_fd fd e = rw e refl

rotate_lem :
    (name : Bytes) (disk : Disk) (log : FileLog) (file : ℕ)
    → Opened disk log file
    → disk.names name ≡ none
    → rotate true true name disk log
      ≡ (rotated log.file_path name file disk, record log { fd = some disk.next })
unfolding rotate reopen
rotate_lem name disk log file ok fresh =
    if_no (λ r. r ≡ (rotated log.file_path name file disk, record log { fd = some disk.next }))
      (length log.file_path == 0) (disk, log) _ (==_ne (length log.file_path) 0 ok.has_path)
      (rw
        (
          rename_lem log.file_path name file disk ok.at_path,
          open_file_lem log.file_path name file disk ok.at_path fresh,
          dup_2-open file disk.next log ok.opened,
        )
        refl)

-- What the names lead to after a rotation: the path to the new file, the new name to the old one, and any
-- other name to what it did.
module _ {disk : Disk} {log : FileLog} {file : ℕ} (ok : Opened disk log file) {name : Bytes}
    (fresh : disk.names name ≡ none) where
  abbrev after : Disk
  after = rotated log.file_path name file disk

  abbrev without : Bytes → Option ℕ
  without = set_name log.file_path none disk.names

  abbrev renamed : Bytes → Option ℕ
  renamed = set_name name (some file) without

  after_path : after.names log.file_path ≡ some disk.next
  after_path =
      set_name-same log.file_path log.file_path (some disk.next) renamed
        (bytes_eq_self log.file_path)

  path_ne : bytes_eq log.file_path name ≡ false
  path_ne = (fresh_ne disk name log.file_path file fresh ok.at_path).1

  after_name : after.names name ≡ some file
  after_name =
      set_name-other log.file_path name (some disk.next) renamed path_ne
      ∙ set_name-same name name (some file) without (bytes_eq_self name)

  after_other :
      (other : Bytes)
      → bytes_eq log.file_path other ≡ false
      → bytes_eq name other ≡ false
      → after.names other ≡ disk.names other
  after_other other p n =
      set_name-other log.file_path other (some disk.next) renamed p
      ∙ (set_name-other name other (some file) without n
          ∙ set_name-other log.file_path other none disk.names p)

  after_contents : (other : ℕ) → other < disk.next → after.contents other ≡ disk.contents other
  after_contents other lt = rw (==_ne disk.next other (omega arith)) refl

  -- Each name, by cases.
  after_cases :
      (other : Bytes) (f : ℕ)
      → after.names other ≡ some f
      → ((bytes_eq log.file_path other ≡ true) × (f ≡ disk.next)) ⊎ (f < disk.next)
  after_cases other f e = elim (Bool-cases (bytes_eq log.file_path other)) [
    | inl p ↦ inl (
      p,
      some-injective _ _ (sym e ∙ set_name-same log.file_path other (some disk.next) renamed p),
    )
    | inr p ↦ elim (Bool-cases (bytes_eq name other)) [
      | inl n ↦ inr (
          subst (λ k. k < disk.next)
            (some-injective _ _ (
              sym (
                set_name-other log.file_path other (some disk.next) renamed p
                ∙ set_name-same name other (some file) without n)
              ∙ e))
            (ok.known log.file_path file ok.at_path))
      | inr n ↦ inr (ok.known other f (sym (after_other other p n) ∙ e))
    ]
  ]

  lt_irrefl : (n : ℕ) → n < n → ⊥
  lt_irrefl n h = omega (arith, h)

  after_only :
      (other : Bytes) → after.names other ≡ some disk.next → bytes_eq log.file_path other ≡ true
  after_only other e = elim (after_cases other disk.next e) [
    | inl both ↦ both.0
    | inr lt ↦ elim (lt_irrefl disk.next lt) [ ]
  ]

  after_known : (other : Bytes) (f : ℕ) → after.names other ≡ some f → f < after.next
  after_known other f e = elim (after_cases other f e) [
    | inl both ↦ omega (arith, both.1)
    | inr lt ↦ omega (arith, lt)
  ]

  after_archived :
      (other : Bytes) (f : ℕ)
      → disk.names other ≡ some f
      → bytes_eq log.file_path other ≡ false
      → (after.names other ≡ some f) × (after.contents f ≡ disk.contents f)
  after_archived other f e p = (
    after_other other p (fresh_ne disk name other f fresh e).0 ∙ e,
    after_contents f (ok.known other f e),
  )

  after_file : after.contents file ≡ disk.contents file
  after_file = after_contents file (ok.known log.file_path file ok.at_path)

  after_new : after.contents disk.next ≡ []
  after_new = rw ((==_iff disk.next disk.next).1 refl) refl

pub rotate-Holds :
    (name : Bytes) (archive : List (Bytes × Bytes)) (current : Bytes) (disk : Disk) (log : FileLog)
    → disk.names name ≡ none
    → Holds archive current disk log
    → Holds
        ((name, current) ∷ archive)
        []
        (rotate true true name disk log).0
        (rotate true true name disk log).1
rotate-Holds name archive current disk log fresh h =
    subst (λ r. Holds ((name, current) ∷ archive) [] r.0 r.1)
      (sym (rotate_lem name disk log h.file h.ok fresh))
      (record {
        file = disk.next;
        ok = record {
          opened = refl;
          has_path = h.ok.has_path;
          at_path = after_path h.ok fresh;
          only = after_only h.ok fresh;
          known = after_known h.ok fresh;
        };
        stored = (
          (h.file, after_name h.ok fresh, path_ne h.ok fresh, after_file h.ok fresh ∙ h.whole),
          Stored-same disk (rotated log.file_path name h.file disk) log.file_path archive h.stored
              (after_archived h.ok fresh),
        );
        whole = after_new h.ok fresh;
      })
