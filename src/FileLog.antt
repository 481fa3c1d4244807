-- ===== src/FileLog.antt =====
-- FileLog: src/base/FileLog.h and FileLog.cpp, over the files of the system: `open`, `write`, `rename`,
-- `dup2` and `lseek64`. Whether `rename` and `open` succeed, and how many bytes `write` takes, are
-- arguments. What is printed on the console is not modelled.
pub mod Archive
pub mod Moved
pub mod Kept
mod Tests
use http_nest.Prelude.{
  ℕ, ◌+◌, ◌++◌, Bool, true, false, [], ◌∷◌, Option, none, some, ◌==◌, if◌then◌else◌, length, take,
  Bytes, bytes_eq,
}

-- The files: a name leads to a file, a file is a number and has its bytes. `next` is a file that is new.
pub record Disk : Type 0 where
  pub names : Bytes → Option ℕ
  pub contents : ℕ → Bytes
  pub next : ℕ

abbrev pub set_name : Bytes → Option ℕ → (Bytes → Option ℕ) → Bytes → Option ℕ
set_name name file names other = if bytes_eq name other then file else names other

abbrev pub set_contents : ℕ → Bytes → (ℕ → Bytes) → ℕ → Bytes
set_contents file bytes contents other = if file == other then bytes else contents other

-- `open` with O_CREAT and O_APPEND, when it succeeds: the file that the descriptor refers to.
unfoldable pub open_file : Bytes → Disk → Disk × ℕ
open_file name disk = elim (disk.names name) [
  | some file ↦ (disk, file)
  | none ↦ (
    record disk {
      names = set_name name (some disk.next) disk.names;
      contents = set_contents disk.next [] disk.contents;
      next = disk.next + 1;
    },
    disk.next,
  )
]

-- `rename`, which takes the place of a file that has the new name, and fails without the old name.
unfoldable pub rename : Bytes → Bytes → Disk → Option Disk
rename old new disk = elim (disk.names old) [
  | none ↦ none
  | some file ↦
      some (record disk { names = set_name new (some file) (set_name old none disk.names) })
]

pub data RotateType : Type 0 where
  k_rotate_none : RotateType
  k_rotate_minute : RotateType
  k_rotate_hour : RotateType
  k_rotate_day : RotateType

-- A `FileLog`. `fd` is the file that the descriptor `fd_` refers to, `none` for -1.
pub record FileLog : Type 0 where
  pub fd : Option ℕ
  pub rotate_type : RotateType
  pub file_path : Bytes

abbrev pub new_file_log : FileLog
new_file_log = record { fd = none; rotate_type = RotateType.k_rotate_none; file_path = [] }

-- `Open`, with its result.
unfoldable pub open_log : Bool → Bytes → Disk → FileLog → Disk × FileLog × Bool
open_log opens path disk log =
    if opens
    then (
      (open_file path disk).0,
      record log { file_path = path; fd = some (open_file path disk).1 },
      true,
    )
    else (disk, record log { file_path = path }, false)

-- `WriteLog`, where `write` takes so many bytes. Without a descriptor they go to the console.
unfoldable pub write_log : ℕ → Bytes → Disk → FileLog → Disk
write_log taken msg disk log = elim log.fd [
  | none ↦ disk
  | some file ↦ record disk {
    contents = set_contents file (disk.contents file ++ take taken msg) disk.contents;
  }
]

-- `dup2(fd, fd_)`, which fails without a descriptor.
unfoldable pub dup_2 : ℕ → FileLog → FileLog
dup_2 file log = elim log.fd [ none ↦ log | some _ ↦ record log { fd = some file } ]

unfoldable pub reopen : Bool → Disk → FileLog → Disk × FileLog
reopen opens disk log =
    if opens
    then ((open_file log.file_path disk).0, dup_2 (open_file log.file_path disk).1 log)
    else (disk, log)

-- `Rotate`.
unfoldable pub rotate : Bool → Bool → Bytes → Disk → FileLog → Disk × FileLog
rotate renames opens file disk log =
    if length log.file_path == 0
    then (disk, log)
    else if renames
    then elim (rename log.file_path file disk) [
      | none ↦ (disk, log)
      | some moved ↦ reopen opens moved log
    ]
    else (disk, log)

-- `FileSize`, `none` for the -1 of a descriptor that is none.
unfoldable pub file_size : Disk → FileLog → Option ℕ
file_size disk log = elim log.fd [ none ↦ none | some file ↦ some (length (disk.contents file)) ]

unfoldable pub set_rotate : RotateType → FileLog → FileLog
set_rotate type log = record log { rotate_type = type }
