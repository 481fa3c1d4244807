-- ===== src/FileLog/Kept.antt =====
-- What is written to a log is kept, in order, by the rotations.
use http_nest.Prelude.{
  ℕ, ◌++◌, ◌≡◌, ◌∙◌, refl, sym, ap, true, List, [], ◌∷◌, none, some, take, Bytes,
}
use http_nest.FileLog.{Disk, FileLog, write_log, rotate}
use http_nest.FileLog.Archive.{Opened, Stored, Holds, read_file, read_name, write_log-Holds}
use http_nest.FileLog.Moved.{rotate-Holds}

-- What is done with the log, and that every rotation succeeds, to a name that no file has.
pub data Act : Type 0 where
  writes : ℕ → Bytes → Act
  rotates : Bytes → Act

unfoldable pub act : Act → Disk → FileLog → Disk × FileLog
act (writes taken msg) disk log = (write_log taken msg disk log, log)
act (rotates name) disk log = rotate true true name disk log

unfoldable pub run : List Act → Disk → FileLog → Disk × FileLog
run [] disk log = (disk, log)
run (a ∷ acts) disk log = run acts (act a disk log).0 (act a disk log).1

abbrev pub IsFresh : Act → Disk → Type 0
IsFresh (writes taken msg) disk = Unit {0}
IsFresh (rotates name) disk = disk.names name ≡ none

abbrev pub AreFresh : List Act → Disk → FileLog → Type 0
AreFresh [] disk log = Unit {0}
AreFresh (a ∷ acts) disk log = IsFresh a disk × AreFresh acts (act a disk log).0 (act a disk log).1

-- The archive with what each of its files is to hold, newest first, and what the file of the path is to
-- hold: a rotation moves what was written since the one before to its name, and begins again with nothing.
abbrev pub expected : List Act → List (Bytes × Bytes) → Bytes → List (Bytes × Bytes) × Bytes
expected [] archive current = (archive, current)
expected (writes taken msg ∷ acts) archive current =
    expected acts archive (current ++ take taken msg)
expected (rotates name ∷ acts) archive current = expected acts ((name, current) ∷ archive) []

run-Holds :
    (acts : List Act) (archive : List (Bytes × Bytes)) (current : Bytes) (disk : Disk)
    (log : FileLog)
    → AreFresh acts disk log
    → Holds archive current disk log
    → Holds
        (expected acts archive current).0
        (expected acts archive current).1
        (run acts disk log).0
        (run acts disk log).1
unfolding act run
run-Holds [] archive current disk log fresh h = h
run-Holds (writes taken msg ∷ acts) archive current disk log fresh h =
    run-Holds acts archive (current ++ take taken msg) (write_log taken msg disk log) log fresh.1
      (write_log-Holds taken msg archive current disk log h)
run-Holds (rotates name ∷ acts) archive current disk log fresh h =
    run-Holds acts ((name, current) ∷ archive) [] (rotate true true name disk log).0
      (rotate true true name disk log).1 fresh.1
      (rotate-Holds name archive current disk log fresh.0 h)

-- Each of these names has a file with these bytes.
abbrev pub Reads : Disk → List (Bytes × Bytes) → Type 0
Reads disk [] = Unit {0}
Reads disk ((name, content) ∷ older) = (read_name disk name ≡ some content) × Reads disk older

Stored-Reads :
    (disk : Disk) (path : Bytes) (archive : List (Bytes × Bytes))
    → Stored disk path archive
    → Reads disk archive
Stored-Reads disk path [] n = tt
Stored-Reads disk path ((name, content) ∷ older) n =
    let (file, e, ne, c) = n.0 in
    (ap (read_file disk.contents) e ∙ ap some c, Stored-Reads disk path older n.1)

-- Whatever is written to an open log, whose file has no other name, and however often `Rotate` moves it,
-- successfully, to a name that no file has: each of these names has a file with exactly the bytes that
-- `write` took between the rotation before and its own, the path has a file with exactly those taken
-- since the last rotation, both with what the file held at first in front of the first of them, and the
-- descriptor refers to the file of the path.
pub run-kept :
    (acts : List Act) (disk : Disk) (log : FileLog) (file : ℕ)
    → Opened disk log file
    → AreFresh acts disk log
    → Reads (run acts disk log).0 (expected acts [] (disk.contents file)).0
      × (read_name (run acts disk log).0 (run acts disk log).1.file_path
          ≡ some (expected acts [] (disk.contents file)).1)
      × ((run acts disk log).1.fd ≡ (run acts disk log).0.names (run acts disk log).1.file_path)
run-kept acts disk log file ok fresh =
    let h =
      run-Holds acts [] (disk.contents file) disk log fresh
        (record { file = file; ok = ok; stored = tt; whole = refl }) in
    (
      Stored-Reads (run acts disk log).0 (run acts disk log).1.file_path
          (expected acts [] (disk.contents file)).0 h.stored,
      ap (read_file (run acts disk log).0.contents) h.ok.at_path ∙ ap some h.whole,
      h.ok.opened ∙ sym h.ok.at_path,
    )
