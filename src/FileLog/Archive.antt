-- ===== src/FileLog/Archive.antt =====
-- The files of a log and of its archive, and what a write does to them.
use http_nest.Prelude.{
  ℕ, ◌++◌, ◌<◌, ◌≡◌, ◌≢◌, ◌∙◌, refl, sym, ap, subst, true, false, List, [], ◌∷◌, Option, none, some,
  ◌==◌, ==_ne, ==_iff, length, take, Bytes, bytes_eq,
}
use http_nest.FileLog.{Disk, FileLog, set_contents, write_log}

-- What is read under a name, if a file has it.
abbrev pub read_file : (ℕ → Bytes) → Option ℕ → Option Bytes
read_file contents none = none
read_file contents (some file) = some (contents file)

abbrev pub read_name : Disk → Bytes → Option Bytes
read_name disk name = read_file disk.contents (disk.names name)

-- Each of these names, which is not the path, has a file with these bytes.
abbrev pub Stored : Disk → Bytes → List (Bytes × Bytes) → Type 0
Stored disk path [] = Unit {0}
Stored disk path ((name, content) ∷ older) =
    ((file : ℕ) × (disk.names name ≡ some file)
      × (bytes_eq path name ≡ false)
      × (disk.contents file ≡ content))
    × Stored disk path older

-- The log is open, the file has no name but its path, and every file that has a name is not new.
pub record Opened (disk : Disk) (log : FileLog) (file : ℕ) : Type 0 where
  pub opened : log.fd ≡ some file
  pub has_path : length log.file_path ≢ 0
  pub at_path : disk.names log.file_path ≡ some file
  pub only : (name : Bytes) → disk.names name ≡ some file → bytes_eq log.file_path name ≡ true
  pub known : (name : Bytes) (other : ℕ) → disk.names name ≡ some other → other < disk.next

-- What holds of a log with this archive and these bytes in its file.
pub record Holds (archive : List (Bytes × Bytes)) (current : Bytes) (disk : Disk) (log : FileLog)
    : Type 0 where
  pub file : ℕ
  pub ok : Opened disk log file
  pub stored : Stored disk log.file_path archive
  pub whole : disk.contents file ≡ current

-- A file of the archive is not that of the log.
archived_ne :
    (disk : Disk) (log : FileLog) (file other : ℕ) (name : Bytes)
    → Opened disk log file
    → disk.names name ≡ some other
    → bytes_eq log.file_path name ≡ false
    → (file == other) ≡ false
archived_ne disk log file other name ok e ne = ==_ne file other (λ same.
    let t : bytes_eq log.file_path name ≡ true = ok.only name (e ∙ ap some (sym same)) in cc)

-- Another disk on which the names of the archive have the same files with the same bytes.
pub Stored-same :
    (disk disk' : Disk) (path : Bytes) (archive : List (Bytes × Bytes))
    → Stored disk path archive
    → ((name : Bytes) (other : ℕ)
        → disk.names name ≡ some other
        → bytes_eq path name ≡ false
        → (disk'.names name ≡ some other) × (disk'.contents other ≡ disk.contents other))
    → Stored disk' path archive
Stored-same disk disk' path [] n same = tt
Stored-same disk disk' path ((name, content) ∷ older) n same =
    let (other, e, ne, c) = n.0 in
    let (e', c') = same name other e ne in
    ((other, e', ne, c' ∙ c), Stored-same disk disk' path older n.1 same)

-- The disk with other bytes in the file of the log.
abbrev with_contents : ℕ → Bytes → Disk → Disk
with_contents file bytes disk = record disk { contents = set_contents file bytes disk.contents }

with_contents-Holds :
    (archive : List (Bytes × Bytes)) (current more : Bytes) (disk : Disk) (log : FileLog)
    → (h : Holds archive current disk log)
    → Holds archive (current ++ more) (with_contents h.file (disk.contents h.file ++ more) disk) log
with_contents-Holds archive current more disk log h = record {
  file = h.file;
  ok = record {
    opened = h.ok.opened;
    has_path = h.ok.has_path;
    at_path = h.ok.at_path;
    only = h.ok.only;
    known = h.ok.known;
  };
  stored =
      Stored-same disk (with_contents h.file (disk.contents h.file ++ more) disk) log.file_path
        archive h.stored
        (λ name other e ne. (e, rw (archived_ne disk log h.file other name h.ok e ne) refl));
  whole = rw ((==_iff h.file h.file).1 refl) (ap (λ b. b ++ more) h.whole);
}

pub write_log-Holds :
    (taken : ℕ) (msg : Bytes) (archive : List (Bytes × Bytes)) (current : Bytes) (disk : Disk)
    (log : FileLog)
    → Holds archive current disk log
    → Holds archive (current ++ take taken msg) (write_log taken msg disk log) log
unfolding write_log
write_log-Holds taken msg archive current disk log h =
    let e : write_log taken msg disk log
        ≡ with_contents h.file (disk.contents h.file ++ take taken msg) disk =
      by_fd log.fd h.ok.opened in
    subst (λ d. Holds archive (current ++ take taken msg) d log) (sym e)
      (with_contents-Holds archive current (take taken msg) disk log h)
  where
    by_fd :
        (fd : Option ℕ)
        → fd ≡ some h.file
        → elim fd [
          | none ↦ disk
          | some file ↦ with_contents file (disk.contents file ++ take taken msg) disk
        ]
          ≡ with_contents h.file (disk.contents h.file ++ take taken msg) disk
    by_fd fd e = rw e refl
